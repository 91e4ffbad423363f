-- ===== src/Store/Wheel/Sweep.antt =====
-- internal/store/ttl_wheel.go: what a tick changes, and the calls on a wheel in any order.
use vlf_proto.Base.{
  ℕ, ◌+◌, ◌-◌, ◌%◌, ◌<◌, List, [], ◌∷◌, ltb, if◌then◌else◌, length, Option, none, some, ◌≡◌, refl,
  ap, ◌∙◌, arith, Bool-cases, inl, inr, length-set,
}
use vlf_proto.Base.Assoc.{bytes_eq, bytes_beq, Map, lookup, Distinct}
use vlf_proto.Base.Assoc.Laws.{lookup-cons, lookup-insert, lookup-delete, eq_of_beq}
use vlf_proto.Base.Tabulate.{get_or-set}
use vlf_proto.Wire.{Bytes}
use vlf_proto.Store.Wheel.{
  Entry, Wheel, new_wheel, slot_of, remove_locked, upsert, touch, remove, sweep, tick,
  cons_callback,
}
use mathlib.Core.List.{Memᴰ}
use vlf_proto.Store.Wheel.Sync.{
  IsSync, new_wheel-IsSync, remove_locked-IsSync, upsert-IsSync, touch-IsSync,
}

module _ {C : Type 0} where
  -- What one visit of the cursor leaves of an entry: its rounds fall until it is taken away.
  abbrev pub after_sweep : Option (Entry C) → Option (Entry C)
  after_sweep none = none
  after_sweep (some entry) =
      if ltb 0 entry.rounds then some (record entry { rounds = entry.rounds - 1 }) else none

  abbrev pub swept : Option (Entry C) → Option (Entry C) → Option (Entry C)
  swept none old = old
  swept (some entry) old = after_sweep (some entry)

  lookup-sweep :
      (k : Bytes) (slot entries : Map Bytes (Entry C))
      → Distinct slot
      → lookup k (sweep slot entries).0 ≡ after_sweep (lookup k slot)
  unfolding sweep
  lookup-sweep k [] entries d = unfold lookup in refl
  lookup-sweep k ((key, entry) ∷ slot) entries d =
      let entry' = record entry { rounds = entry.rounds - 1 } in
      let rest = (sweep slot entries).0 in
      ground (
        arith,
        d.0,
        lookup-cons k key entry slot,
        lookup-cons k key entry' rest,
        lookup-sweep k slot entries d.1,
        eq_of_beq key k,
      )

  pub lookup-sweep_entries :
      (k : Bytes) (slot entries : Map Bytes (Entry C))
      → Distinct slot
      → lookup k (sweep slot entries).1 ≡ swept (lookup k slot) (lookup k entries)
  unfolding sweep
  lookup-sweep_entries k [] entries d = unfold lookup in refl
  lookup-sweep_entries k ((key, entry) ∷ slot) entries d =
      let entry' = record entry { rounds = entry.rounds - 1 } in
      let rest = (sweep slot entries).1 in
      ground (
        arith,
        d.0,
        lookup-cons k key entry slot,
        lookup-insert key k entry' rest,
        lookup-delete key k rest,
        lookup-sweep_entries k slot entries d.1,
        eq_of_beq key k,
      )

  later_in :
      (callback : Option C) (cs : List C) (c : C) → Memᴰ c cs → Memᴰ c (cons_callback callback cs)
  later_in none cs c m = m
  later_in (some d) cs c m = Memᴰ.tail m

  -- The callback of an entry that is taken away is among those called.
  pub Mem-sweep :
      (k : Bytes) (slot entries : Map Bytes (Entry C)) (entry : Entry C) (c : C)
      → lookup k slot ≡ some entry
      → entry.rounds ≡ 0
      → entry.callback ≡ some c
      → Memᴰ c (sweep slot entries).2
  unfolding sweep
  Mem-sweep k [] entries entry c h z e =
      let no : lookup {V = Entry C} k [] ≡ none = unfold lookup in refl in ground (arith, h, no)
  Mem-sweep k ((key, first) ∷ slot) entries entry c h z e =
      let found = lookup-cons k key first slot in
      elim (Bool-cases (bytes_beq key k)) [
        | inl here ↦
            let same : first ≡ entry = ground (arith, h, found, here) in
            let zero_rounds : first.rounds ≡ 0 = ap Entry.rounds same ∙ z in
            let calls : first.callback ≡ some c = ap Entry.callback same ∙ e in
            rw (sweep, zero_rounds, calls) (Memᴰ.head refl)
        | inr away ↦
            let rest = Mem-sweep k slot entries entry c (ground (arith, h, found, away)) z e in
            elim (Bool-cases (ltb 0 first.rounds)) [
              | inl later ↦ rw (sweep, later) rest
              | inr now ↦ rw (sweep, now) (later_in first.callback (sweep slot entries).2 c rest)
            ]
      ]

  sweep-Distinct :
      (slot entries : Map Bytes (Entry C)) → Distinct slot → Distinct (sweep slot entries).0
  unfolding sweep
  sweep-Distinct [] entries d = tt
  sweep-Distinct ((key, entry) ∷ slot) entries d =
      ground (arith, sweep-Distinct slot entries d.1, lookup-sweep key slot entries d.1, d.0)

  -- `tick` keeps the slots and the entries in agreement.
  pub tick-IsSync : (w : Wheel C) → IsSync w → IsSync (tick w).0
  unfolding tick
  tick-IsSync w s =
      let cursor = (w.cursor + 1) % length w.slots in
      let slot = slot_of w cursor in
      let slot' = (sweep slot w.entries).0 in
      let there : cursor < length w.slots = omega (arith, s.cursor_in) in
      record {
        cursor_in = rw (length-set w.slots cursor slot') there;
        agree = λ k i. ground (
          arith,
          there,
          s.agree k i,
          s.agree k cursor,
          get_or-set w.slots cursor i slot' [],
          lookup-sweep k slot w.entries (s.distinct cursor),
          lookup-sweep_entries k slot w.entries (s.distinct cursor),
        );
        distinct = λ i. ground (
          arith,
          there,
          s.distinct i,
          get_or-set w.slots cursor i slot' [],
          sweep-Distinct slot w.entries (s.distinct cursor),
        );
      }

-- The calls that change a wheel.
pub data Op (C : Type 0) : Type 0 where
  upserts : Bytes → ℕ → Option C → Op C
  touches : Bytes → ℕ → Op C
  removes : Bytes → Op C
  ticks : Op C

module _ {C : Type 0} where
  unfoldable pub run : Wheel C → List (Op C) → Wheel C
  run w [] = w
  run w (upserts key ttl callback ∷ ops) = run (upsert w key ttl callback) ops
  run w (touches key ttl ∷ ops) = run (touch w key ttl).0 ops
  run w (removes key ∷ ops) = run (remove w key) ops
  run w (ticks ∷ ops) = run (tick w).0 ops

  run_from-IsSync : (w : Wheel C) (ops : List (Op C)) → IsSync w → IsSync (run w ops)
  unfolding run remove
  run_from-IsSync w [] s = s
  run_from-IsSync w (upserts key ttl callback ∷ ops) s =
      run_from-IsSync (upsert w key ttl callback) ops (upsert-IsSync w key ttl callback s)
  run_from-IsSync w (touches key ttl ∷ ops) s =
      run_from-IsSync (touch w key ttl).0 ops (touch-IsSync w key ttl s)
  run_from-IsSync w (removes key ∷ ops) s =
      run_from-IsSync (remove_locked w key) ops (remove_locked-IsSync w key s)
  run_from-IsSync w (ticks ∷ ops) s = run_from-IsSync (tick w).0 ops (tick-IsSync w s)

  -- After any calls on a new wheel the slots and the entries agree.
  pub run-IsSync :
      (interval slot_count : ℕ) (ops : List (Op C))
      → IsSync (run (new_wheel interval slot_count) ops)
  run-IsSync interval slot_count ops =
      run_from-IsSync (new_wheel interval slot_count) ops (new_wheel-IsSync interval slot_count)
