-- ===== src/Store/Wheel/Sync.antt =====
-- internal/store/ttl_wheel.go: the slots and the entries of a wheel agree, and every operation
-- keeps them so.
use vlf_proto.Base.{
  ℕ, zero, suc, ◌<◌, [], ltb, ◌==◌, if◌then◌else◌, length, get_or, replicate, Option, none, some,
  ◌≡◌, refl, ap, ◌∙◌, arith, Option-cases, inl, inr, dec_lt, length-set, length-replicate,
}
use vlf_proto.Base.Assoc.{bytes_eq, bytes_beq, Map, lookup, insert, delete, Distinct}
use vlf_proto.Base.Assoc.Laws.{
  lookup-insert, lookup-delete, insert-Distinct, delete-Distinct, beq_refl, eq_of_beq,
}
use vlf_proto.Base.Tabulate.{get_or-set, get_or_beyond}
use vlf_proto.Wire.{Bytes}
use vlf_proto.Store.Wheel.{
  Entry, Wheel, new_wheel, slot_of, remove_locked, put_entry, schedule, place, upsert, touch,
}

pub place_in : (n cursor steps : ℕ) → cursor < n → (place n cursor steps).0 < n
unfolding place
place_in n cursor steps h = omega arith

module _ {C : Type 0} where
  -- What slot `i` has under a key, from what `entries` has.
  abbrev pub at_slot : ℕ → Option (Entry C) → Option (Entry C)
  at_slot i none = none
  at_slot i (some entry) = if entry.slot == i then some entry else none

  -- The cursor is in range, every key stands in the slot that its entry names and in no other, and
  -- in no slot twice.
  pub record IsSync (w : Wheel C) : Type 0 where
    pub cursor_in : w.cursor < length w.slots
    pub agree : (k : Bytes) (i : ℕ) → lookup k (slot_of w i) ≡ at_slot i (lookup k w.entries)
    pub distinct : (i : ℕ) → Distinct (slot_of w i)

  abbrev empty : Map Bytes (Entry C)
  empty = []

  get_or-replicate : (n i : ℕ) → get_or (replicate n []) i [] ≡ empty
  get_or-replicate zero i = refl
  get_or-replicate (suc n) zero = refl
  get_or-replicate (suc n) (suc i) = get_or-replicate n i

  pub new_wheel-IsSync : (interval slot_count : ℕ) → IsSync (new_wheel interval slot_count)
  unfolding new_wheel
  new_wheel-IsSync interval slot_count =
      let n = if ltb slot_count 4 then 4 else slot_count in
      record {
        cursor_in = ground (arith, length-replicate {A = Map Bytes (Entry C)} n []);
        agree = λ k i. rw (get_or-replicate n i) (unfold lookup in refl);
        distinct = λ i. rw (get_or-replicate n i) tt;
      }

  -- An entry's slot exists.
  pub slot_in :
      (w : Wheel C) (k : Bytes) (entry : Entry C)
      → IsSync w
      → lookup k w.entries ≡ some entry
      → entry.slot < length w.slots
  slot_in w k entry s e = elim (dec_lt entry.slot (length w.slots)) [
    | yes p ↦ p
    | no p ↦ absurd (nowhere p)
  ]
    where
      nowhere : ¬ (entry.slot < length w.slots) → ⊥
      nowhere p =
          let here = s.agree k entry.slot in
          let gone : lookup k (slot_of w entry.slot) ≡ none =
            ap (lookup k) (get_or_beyond w.slots entry.slot [] (omega arith))
            ∙ unfold lookup in refl in
          ground (arith, here, gone)

  pub remove_locked-IsSync : (w : Wheel C) (key : Bytes) → IsSync w → IsSync (remove_locked w key)
  unfolding remove_locked
  remove_locked-IsSync w key s = elim (Option-cases (lookup key w.entries)) [
    | inl e ↦ rw (e, remove_locked) s
    | inr (entry, e) ↦
        rw (e, remove_locked)
          (record {
            cursor_in =
                rw (length-set w.slots entry.slot (delete key (slot_of w entry.slot))) s.cursor_in;
            agree = λ k i. ground (
              arith,
              e,
              slot_in w key entry s e,
              s.agree k i,
              get_or-set w.slots entry.slot i (delete key (slot_of w entry.slot)) [],
              lookup-delete key k (slot_of w entry.slot),
              lookup-delete key k w.entries,
              eq_of_beq key k,
            );
            distinct = λ i. ground (
              arith,
              s.distinct i,
              get_or-set w.slots entry.slot i (delete key (slot_of w entry.slot)) [],
              delete-Distinct key (slot_of w entry.slot) (s.distinct entry.slot),
            );
          })
  ]

  pub lookup-remove_locked :
      (w : Wheel C) (key k : Bytes)
      → lookup k (remove_locked w key).entries
        ≡ (if bytes_beq key k then none else lookup k w.entries)
  unfolding remove_locked
  lookup-remove_locked w key k = ground (arith, lookup-delete key k w.entries, eq_of_beq key k)

  pub put_entry-IsSync :
      (w : Wheel C) (entry : Entry C)
      → IsSync w
      → entry.slot < length w.slots
      → lookup entry.key w.entries ≡ none
      → IsSync (put_entry w entry)
  unfolding put_entry
  put_entry-IsSync w entry s h fresh = record {
    cursor_in = rw (length-set w.slots entry.slot _) s.cursor_in;
    agree = λ k i. ground (
      arith,
      s.agree k i,
      get_or-set w.slots entry.slot i (insert entry.key entry (slot_of w entry.slot)) [],
      lookup-insert entry.key k entry (slot_of w entry.slot),
      lookup-insert entry.key k entry w.entries,
      eq_of_beq entry.key k,
    );
    distinct = λ i. ground (
      arith,
      s.distinct i,
      get_or-set w.slots entry.slot i (insert entry.key entry (slot_of w entry.slot)) [],
      insert-Distinct entry.key entry (slot_of w entry.slot) (s.distinct entry.slot),
    );
  }

  schedule-IsSync :
      (w : Wheel C) (key : Bytes) (ttl : ℕ) (callback : Option C)
      → IsSync w
      → lookup key w.entries ≡ none
      → IsSync (schedule w key ttl callback)
  unfolding schedule
  schedule-IsSync w key ttl callback s fresh =
      put_entry-IsSync w _ s (place_in (length w.slots) w.cursor _ s.cursor_in) fresh

  gone : (w : Wheel C) (key : Bytes) → lookup key (remove_locked w key).entries ≡ none
  gone w key = rw (lookup-remove_locked w key key, beq_refl key)

  pub upsert-IsSync :
      (w : Wheel C) (key : Bytes) (ttl : ℕ) (callback : Option C)
      → IsSync w
      → IsSync (upsert w key ttl callback)
  unfolding upsert
  upsert-IsSync w key ttl callback s =
      schedule-IsSync (remove_locked w key) key ttl callback (remove_locked-IsSync w key s)
        (gone w key)

  pub touch-IsSync : (w : Wheel C) (key : Bytes) (ttl : ℕ) → IsSync w → IsSync (touch w key ttl).0
  unfolding touch
  touch-IsSync w key ttl s = elim (Option-cases (lookup key w.entries)) [
    | inl e ↦ rw (e, touch) s
    | inr (entry, e) ↦
        rw (e, touch)
          (schedule-IsSync (remove_locked w key) key ttl entry.callback
            (remove_locked-IsSync w key s) (gone w key))
  ]
