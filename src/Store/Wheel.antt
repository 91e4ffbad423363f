-- ===== src/Store/Wheel.antt =====
-- internal/store/ttl_wheel.go: a hashed timing wheel. Durations are nanoseconds, and one of zero or
-- below is 0. A call holds the mutex from its start to its end, so it is one step, and so is `tick`
-- up to the callbacks that it then makes: they are returned. An entry object is shared by its slot
-- and by `entries`, so a change of it is made in both.
pub mod Sync
pub mod Sweep
pub mod Timing
pub mod Due
pub mod Expiry
mod Tests
use vlf_proto.Base.{
  ℕ, zero, suc, ◌+◌, ◌-◌, ◌*◌, ◌/◌, ◌%◌, Bool, true, false, not, List, [], ◌∷◌, ltb, leb, ◌==◌,
  if◌then◌else◌, length, get_or, set, replicate, Option, none, some,
}
use vlf_proto.Base.Assoc.{Eq, bytes_eq, Map, lookup, insert, delete}
use vlf_proto.Wire.{Bytes}

pub record Entry (C : Type 0) : Type 0 where
  pub key : Bytes
  pub slot : ℕ
  pub rounds : ℕ
  pub callback : Option C

pub record Wheel (C : Type 0) : Type 0 where
  pub interval : ℕ
  pub slots : List (Map Bytes (Entry C))
  pub entries : Map Bytes (Entry C)
  pub cursor : ℕ

abbrev pub second : ℕ
second = 1000000000

-- How many ticks a time to live is, rounded up and one at least.
unfoldable pub steps_of : ℕ → ℕ → ℕ
steps_of interval ttl =
    let steps = ttl / interval in
    let steps' = if not (ttl % interval == 0) then steps + 1 else steps in
    if ltb steps' 1 then 1 else steps'

-- The slot and the rounds for a number of steps from the cursor.
unfoldable pub place : ℕ → ℕ → ℕ → ℕ × ℕ
place slot_count cursor steps =
    let target_slot = (cursor + steps) % slot_count in
    let rounds = steps / slot_count in
    (target_slot, if leb target_slot cursor then rounds - 1 else rounds)

module _ {C : Type 0} where
  unfoldable pub new_wheel : ℕ → ℕ → Wheel C
  new_wheel interval slot_count =
      let interval' = if interval == 0 then second else interval in
      let slot_count' = if ltb slot_count 4 then 4 else slot_count in
      record { interval = interval'; slots = replicate slot_count' []; entries = []; cursor = 0 }

  abbrev pub slot_of : Wheel C → ℕ → Map Bytes (Entry C)
  slot_of w i = get_or w.slots i []

  unfoldable pub remove_locked : Wheel C → Bytes → Wheel C
  remove_locked w key = elim (lookup key w.entries) [
    | none ↦ w
    | some entry ↦ record w {
      slots = set w.slots entry.slot (delete key (slot_of w entry.slot));
      entries = delete key w.entries;
    }
  ]

  -- `w.entries[key] = entry; w.slots[targetSlot][key] = entry`
  unfoldable pub put_entry : Wheel C → Entry C → Wheel C
  put_entry w entry = record w {
    entries = insert entry.key entry w.entries;
    slots = set w.slots entry.slot (insert entry.key entry (slot_of w entry.slot));
  }

  -- The steps, the slot and the rounds of a new entry, and the entry put in place.
  unfoldable pub schedule : Wheel C → Bytes → ℕ → Option C → Wheel C
  schedule w key ttl callback =
      let ttl' = if ttl == 0 then w.interval else ttl in
      let (target_slot, rounds) = place (length w.slots) w.cursor (steps_of w.interval ttl') in
      put_entry w (record { key = key; slot = target_slot; rounds = rounds; callback = callback })

  unfoldable pub upsert : Wheel C → Bytes → ℕ → Option C → Wheel C
  upsert w key ttl callback = schedule (remove_locked w key) key ttl callback

  unfoldable pub touch : Wheel C → Bytes → ℕ → Wheel C × Bool
  touch w key ttl = elim (lookup key w.entries) [
    | none ↦ (w, false)
    | some entry ↦ (schedule (remove_locked w key) key ttl entry.callback, true)
  ]

  unfoldable pub remove : Wheel C → Bytes → Wheel C
  remove w key = remove_locked w key

  abbrev pub cons_callback : Option C → List C → List C
  cons_callback none cs = cs
  cons_callback (some c) cs = c ∷ cs

  -- The loop of `tick` over the entries of a slot: the slot, the entries and the callbacks behind it.
  unfoldable pub sweep :
      Map Bytes (Entry C) → Map Bytes (Entry C) → Map Bytes (Entry C) × Map Bytes (Entry C) × List C
  sweep [] entries = ([], entries, [])
  sweep ((key, entry) ∷ slot) entries =
      let (slot', entries', callbacks) = sweep slot entries in
      let entry' = record entry { rounds = entry.rounds - 1 } in
      if ltb 0 entry.rounds
      then ((key, entry') ∷ slot', insert key entry' entries', callbacks)
      else (slot', delete key entries', cons_callback entry.callback callbacks)

  unfoldable pub tick : Wheel C → Wheel C × List C
  tick w =
      let cursor = (w.cursor + 1) % length w.slots in
      let (slot, entries, callbacks) = sweep (slot_of w cursor) w.entries in
      (record w { cursor = cursor; slots = set w.slots cursor slot; entries = entries }, callbacks)
