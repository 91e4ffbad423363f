-- ===== src/Store/Wheel/Tests.antt =====
-- Runs of the timing wheel, and the theorems at concrete wheels.
use mathlib.Core.List.{Memᴰ}
use vlf_proto.Base.{ℕ, zero, suc, ◌*◌, ◌-◌, true, false, [], ◌∷◌, ltb, some, ◌≡◌, refl, arith}
use vlf_proto.Base.Assoc.{bytes_eq, bytes_beq, lookup, insert}
use vlf_proto.Wire.{Bytes}
use vlf_proto.Store.Wheel.{
  Wheel, second, new_wheel, upsert, touch, remove_locked, schedule, put_entry, place, steps_of,
  sweep, tick, slot_of,
}
use vlf_proto.Store.Wheel.Sync.{IsSync, new_wheel-IsSync, upsert-IsSync}
use vlf_proto.Store.Wheel.Sweep.{upserts, touches, removes, ticks, run, run-IsSync}
use vlf_proto.Store.Wheel.Expiry
use vlf_proto.Store.Wheel.Due.{due}
use vlf_proto.Store.Wheel.Expiry.{
  has_key, due_of, upsert_lasts, upsert_keeps_ttl, upsert_expires_early, touch_restarts,
}

abbrev four : Wheel ℕ
four = new_wheel second 4

abbrev key : Bytes
key = 7 ∷ []

steps_of_half : steps_of second 1500000000 ≡ 2
unfolding steps_of
steps_of_half = refl

-- From cursor 2 of 4 slots: 5 steps come to slot 3 after one more revolution, but 6 steps come to
-- slot 0 with no round left, 2 ticks from now.
place_round : place 4 2 5 ≡ (3, 1)
unfolding place
place_round = refl

place_early : place 4 2 6 ≡ (0, 0)
unfolding place
place_early = refl

due_early : due 4 2 6 ≡ 2
unfolding due
due_early = refl

tick_calls : (tick (upsert four key second (some 9))).1 ≡ 9 ∷ []
unfolding tick sweep upsert remove_locked schedule put_entry place steps_of new_wheel lookup insert
tick_calls = refl

run-IsSync_example :
    IsSync
      (run four (upserts key 3000000000 (some 9) ∷ ticks ∷ touches key second ∷ removes [] ∷ []))
run-IsSync_example =
    run-IsSync second 4
      (upserts key 3000000000 (some 9) ∷ ticks ∷ touches key second ∷ removes [] ∷ [])

upsert_keeps_ttl_example :
    has_key key (Expiry.ticks 2 (upsert four key 2500000000 (some 9)))
    ≡ ltb (four.interval * 2) 2500000000
unfolding new_wheel
upsert_keeps_ttl_example =
    upsert_keeps_ttl four key 2500000000 2 9 (new_wheel-IsSync second 4) (omega arith) (omega arith)
      (omega arith)

-- Four slots with the cursor on the last of them.
abbrev last_slot : Wheel ℕ
last_slot = record { interval = second; slots = [] ∷ [] ∷ [] ∷ [] ∷ []; entries = []; cursor = 3 }

last_slot-IsSync : IsSync last_slot
last_slot-IsSync = record {
  cursor_in = omega arith;
  agree = λ k i. rw (no_entry i) (unfold lookup in refl);
  distinct = λ i. rw (no_entry i) tt;
}
  where
    no_entry : (i : ℕ) → slot_of last_slot i ≡ []
    no_entry zero = refl
    no_entry (suc zero) = refl
    no_entry (suc (suc zero)) = refl
    no_entry (suc (suc (suc zero))) = refl
    no_entry (suc (suc (suc (suc i)))) = refl

-- Six seconds on a wheel of four: gone after two.
upsert_expires_early_example :
    has_key key
      (Expiry.ticks (steps_of second 6000000000 - 4) (upsert last_slot key 6000000000 (some 9)))
    ≡ false
unfolding steps_of
upsert_expires_early_example =
    upsert_expires_early last_slot key 6000000000 9 last_slot-IsSync (omega arith) (omega arith)
      (omega arith) (omega arith)

abbrev held : Wheel ℕ
held = upsert four key 3000000000 (some 9)

held_entry :
    lookup key held.entries ≡ some (record { key = key; slot = 3; rounds = 0; callback = some 9 })
unfolding upsert remove_locked schedule put_entry place steps_of new_wheel lookup insert bytes_beq
held_entry = refl

touch_restarts_example :
    let (w', there) = touch held key second in
    (there ≡ true)
    × (has_key key (Expiry.ticks 1 w') ≡ ltb 1 (due_of held second))
    × Memᴰ 9 (tick (Expiry.ticks (due_of held second - 1) w')).1
touch_restarts_example =
    touch_restarts held key second 1 (record { key = key; slot = 3; rounds = 0; callback = some 9 })
      9 (upsert-IsSync four key 3000000000 (some 9) (new_wheel-IsSync second 4)) held_entry refl
