-- ===== src/Store/Wheel/Expiry.antt =====
-- internal/store/ttl_wheel.go: after how many ticks an entry that is put in expires.
use mathlib.Core.List.{Memᴰ}
use vlf_proto.Base.{
  ℕ, zero, suc, ◌+◌, ◌-◌, ◌*◌, ◌%◌, ◌≤◌, ◌<◌, Bool, true, false, ltb, ◌==◌, if◌then◌else◌, length,
  Option, none, some, ◌≡◌, refl, sym, ap, ◌∙◌, arith, length-set, dec_lt, Option-cases, inl, inr,
  lt→ltb,
}
use vlf_proto.Base.Assoc.{bytes_eq, lookup, insert}
use vlf_proto.Base.Assoc.Laws.{lookup-insert, beq_refl}
use vlf_proto.Wire.{Bytes}
use vlf_proto.Store.Wheel.{
  Entry, Wheel, slot_of, place, tick, upsert, touch, schedule, steps_of, put_entry, remove_locked,
}
use vlf_proto.Store.Wheel.Sync.{IsSync, remove_locked-IsSync, upsert-IsSync}
use vlf_proto.Store.Wheel.Sweep.{tick-IsSync}
use vlf_proto.Store.Wheel.Timing.{remaining, tick_keeps, tick_expires, tick_adds_none}
use vlf_proto.Store.Wheel.Due.{
  due, remaining-place, due_pos, steps_pos, due_short, steps_short, ltb-steps,
}

module _ {C : Type 0} where
  -- The wheel after a number of ticks, and the callbacks of the last of them.
  unfoldable pub ticks : ℕ → Wheel C → Wheel C
  ticks zero w = w
  ticks (suc m) w = ticks m (tick w).0

  -- From a wheel in which a key has `d` ticks left: there before, gone and called at the last.
  until_due :
      (d m : ℕ) (w : Wheel C) (k : Bytes) (entry : Entry C)
      → IsSync w
      → lookup k w.entries ≡ some entry
      → remaining w entry ≡ d
      → m < d
      → (entry' : Entry C) × (lookup k (ticks m w).entries ≡ some entry')
        × (entry'.callback ≡ entry.callback)
        × (remaining (ticks m w) entry' + m ≡ d)
        × IsSync (ticks m w)
  unfolding ticks
  until_due d zero w k entry s e r h = (entry, e, refl, omega (arith, r), s)
  until_due d (suc m) w k entry s e r h =
      let (next, e', same, less) = tick_keeps w k entry s e (omega (arith, r, h)) in
      let (last, e'', same', less', s') =
        until_due (d - 1) m (tick w).0 k next (tick-IsSync w s) e' (omega (arith, less, r))
          (omega (arith, h)) in
      (last, e'', same' ∙ same, omega (arith, less', h), s')

  due_tick :
      (d : ℕ) (w : Wheel C) (k : Bytes) (entry : Entry C) (c : C)
      → IsSync w
      → lookup k w.entries ≡ some entry
      → remaining w entry ≡ suc d
      → entry.callback ≡ some c
      → (lookup k (tick (ticks d w)).0.entries ≡ none) × Memᴰ c (tick (ticks d w)).1
  due_tick d w k entry c s e r calls =
      let (last, e', same, one, s') = until_due (suc d) d w k entry s e r (omega arith) in
      tick_expires (ticks d w) k last c s' e' (omega (arith, one)) (same ∙ calls)

  shape :
      (w : Wheel C) (key : Bytes)
      → (length (remove_locked w key).slots ≡ length w.slots)
        × ((remove_locked w key).cursor ≡ w.cursor)
        × ((remove_locked w key).interval ≡ w.interval)
  unfolding remove_locked
  shape w key = elim (Option-cases (lookup key w.entries)) [
    | inl e ↦ rw (e, remove_locked) (refl, refl, refl)
    | inr (entry, e) ↦ rw (e, remove_locked) (length-set w.slots entry.slot _, refl, refl)
  ]

  -- The tick at which an entry that is put in now is taken away.
  abbrev pub due_of : Wheel C → ℕ → ℕ
  due_of w ttl =
      due (length w.slots) w.cursor (steps_of w.interval (if ttl == 0 then w.interval else ttl))

  scheduled :
      (w : Wheel C) (key : Bytes) (ttl : ℕ) (callback : Option C)
      → w.cursor < length w.slots
      → (entry : Entry C) × (lookup key (schedule w key ttl callback).entries ≡ some entry)
        × (entry.callback ≡ callback)
        × (remaining (schedule w key ttl callback) entry ≡ due_of w ttl)
  unfolding schedule remaining put_entry
  scheduled w key ttl callback h =
      let n = length w.slots in
      let steps = steps_of w.interval (if ttl == 0 then w.interval else ttl) in
      let (slot, rounds) = place n w.cursor steps in
      let entry : Entry C = record {
        key = key;
        slot = slot;
        rounds = rounds;
        callback = callback;
      } in
      (
        entry,
        rw (lookup-insert key key entry w.entries, beq_refl key) refl,
        refl,
        rw (length-set w.slots slot (insert key entry (slot_of w slot))) (
            remaining-place n w.cursor steps h
              (steps_pos w.interval (if ttl == 0 then w.interval else ttl))),
      )

  upserted :
      (w : Wheel C) (key : Bytes) (ttl : ℕ) (callback : Option C)
      → IsSync w
      → (entry : Entry C) × (lookup key (upsert w key ttl callback).entries ≡ some entry)
        × (entry.callback ≡ callback)
        × (remaining (upsert w key ttl callback) entry ≡ due_of w ttl)
  unfolding upsert
  upserted w key ttl callback s =
      let w' = remove_locked w key in
      let (len, cur, int) = shape w key in
      let (entry, e, c, r) =
        scheduled w' key ttl callback (remove_locked-IsSync w key s).cursor_in in
      (entry, e, c, r ∙ same_due len cur int)
    where
      same_due :
          length (remove_locked w key).slots ≡ length w.slots
          → (remove_locked w key).cursor ≡ w.cursor
          → (remove_locked w key).interval ≡ w.interval
          → due_of (remove_locked w key) ttl ≡ due_of w ttl
      same_due len cur int = rw (len, cur, int) refl

  stays_gone :
      (m : ℕ) (w : Wheel C) (k : Bytes)
      → IsSync w
      → lookup k w.entries ≡ none
      → lookup k (ticks m w).entries ≡ none
  unfolding ticks
  stays_gone zero w k s e = e
  stays_gone (suc m) w k s e = stays_gone m (tick w).0 k (tick-IsSync w s) (tick_adds_none w k s e)

  ticks-IsSync : (m : ℕ) (w : Wheel C) → IsSync w → IsSync (ticks m w)
  unfolding ticks
  ticks-IsSync zero w s = s
  ticks-IsSync (suc m) w s = ticks-IsSync m (tick w).0 (tick-IsSync w s)

  ticks_last : (m : ℕ) (w : Wheel C) → (tick (ticks m w)).0 ≡ ticks (suc m) w
  unfolding ticks
  ticks_last zero w = refl
  ticks_last (suc m) w = ticks_last m (tick w).0

  ticks_add : (m d : ℕ) (w : Wheel C) → ticks (d + m) w ≡ ticks m (ticks d w)
  unfolding ticks
  ticks_add m zero w = let same : 0 + m ≡ m = omega arith in ap (λ j. ticks j w) same
  ticks_add m (suc d) w =
      let shift : suc d + m ≡ suc (d + m) = omega arith in
      ap (λ j. ticks j w) shift ∙ ticks_add m d (tick w).0

  unfoldable pub has_key : Bytes → Wheel C → Bool
  has_key key w = elim (lookup key w.entries) [ none ↦ false | some _ ↦ true ]

  -- How many ticks a key lasts, from a wheel in which it has `suc d` left.
  lasts :
      (d m : ℕ) (w : Wheel C) (k : Bytes) (entry : Entry C) (c : C)
      → IsSync w
      → lookup k w.entries ≡ some entry
      → remaining w entry ≡ suc d
      → entry.callback ≡ some c
      → has_key k (ticks m w) ≡ ltb m (suc d)
  unfolding has_key
  lasts d m w k entry c s e r calls = elim (dec_lt m (suc d)) [
    | yes h ↦
        let (entry', e', same, less, sync) = until_due (suc d) m w k entry s e r h in
        rw (e', has_key) (sym (lt→ltb m (suc d) h))
    | no h ↦
        let gone = (due_tick d w k entry c s e r calls).0 in
        let at_end : lookup k (ticks (suc d) w).entries ≡ none =
          ap (λ v. lookup k v.entries) (sym (ticks_last d w)) ∙ gone in
        let split : ticks m w ≡ ticks (m - suc d) (ticks (suc d) w) =
          ap (λ j. ticks j w) (omega arith) ∙ ticks_add (m - suc d) (suc d) w in
        let late = stays_gone (m - suc d) (ticks (suc d) w) k (ticks-IsSync (suc d) w s) at_end in
        let off : ltb m (suc d) ≡ false = ground arith in rw (split, late, off, has_key) refl
  ]

  -- On a wheel in agreement, an entry with a callback that is put in by `Upsert` is there after `m`
  -- ticks exactly when `m` is below its due tick, and that tick calls the callback.
  pub upsert_lasts :
      (w : Wheel C) (key : Bytes) (ttl m : ℕ) (c : C)
      → IsSync w
      → let w' = upsert w key ttl (some c) in
        (has_key key (ticks m w') ≡ ltb m (due_of w ttl))
        × Memᴰ c (tick (ticks (due_of w ttl - 1) w')).1
  upsert_lasts w key ttl m c s =
      let w' = upsert w key ttl (some c) in
      let (entry, e, calls, r) = upserted w key ttl (some c) s in
      let s' = upsert-IsSync w key ttl (some c) s in
      let pos =
        due_pos (length w.slots) w.cursor _ s.cursor_in
          (steps_pos w.interval (if ttl == 0 then w.interval else ttl)) in
      let same : due_of w ttl ≡ suc (due_of w ttl - 1) = ground (arith, pos) in
      (
        lasts (due_of w ttl - 1) m w' key entry c s' e (r ∙ same) calls ∙ ap (ltb m) (sym same),
        (due_tick (due_of w ttl - 1) w' key entry c s' e (r ∙ same) calls).1,
      )

  -- On a wheel in agreement, `Upsert` with a time to live of at most one revolution leaves the entry
  -- for as many ticks as start before the time to live is over, and for no more.
  pub upsert_keeps_ttl :
      (w : Wheel C) (key : Bytes) (ttl m : ℕ) (c : C)
      → IsSync w
      → 0 < w.interval
      → 0 < ttl
      → ttl ≤ w.interval * length w.slots
      → has_key key (ticks m (upsert w key ttl (some c))) ≡ ltb (w.interval * m) ttl
  upsert_keeps_ttl w key ttl m c s i t h =
      let some_ttl : ttl == 0 ≡ false = ground arith in
      let steps = steps_of w.interval ttl in
      (upsert_lasts w key ttl m c s).0
      ∙ rw some_ttl (
          ap (ltb m) (
            due_short (length w.slots) w.cursor steps s.cursor_in
              (steps_short w.interval ttl _ i t h))
          ∙ ltb-steps w.interval ttl m i t)

  -- On a wheel in agreement, an entry of a revolution or more whose rest wraps round the last slot
  -- is gone one revolution before its time to live is over.
  pub upsert_expires_early :
      (w : Wheel C) (key : Bytes) (ttl : ℕ) (c : C)
      → IsSync w
      → 0 < ttl
      → let n = length w.slots in
        let steps = steps_of w.interval ttl in
        n ≤ steps
        → 0 < steps % n
        → n ≤ w.cursor + steps % n
        → has_key key (ticks (steps - n) (upsert w key ttl (some c))) ≡ false
  unfolding due
  upsert_expires_early w key ttl c s t long rest wraps =
      let some_ttl : ttl == 0 ≡ false = ground arith in
      (upsert_lasts w key ttl (steps_of w.interval ttl - length w.slots) c s).0
      ∙ rw some_ttl (ground arith)

  -- On a wheel in agreement, `Touch` of a key whose entry has a callback says true, and gives the
  -- entry the due tick of a new one, whose tick calls that same callback.
  pub touch_restarts :
      (w : Wheel C) (key : Bytes) (ttl m : ℕ) (entry : Entry C) (c : C)
      → IsSync w
      → lookup key w.entries ≡ some entry
      → entry.callback ≡ some c
      → let (w', there) = touch w key ttl in
        (there ≡ true)
        × (has_key key (ticks m w') ≡ ltb m (due_of w ttl))
        × Memᴰ c (tick (ticks (due_of w ttl - 1) w')).1
  unfolding touch upsert
  touch_restarts w key ttl m entry c s e calls =
      let same : touch w key ttl ≡ (upsert w key ttl (some c), true) =
        rw (e, calls, touch, upsert) refl in
      let lasts = upsert_lasts w key ttl m c s in rw same (refl, lasts.0, lasts.1)
