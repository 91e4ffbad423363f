-- ===== src/Store/Wheel/Timing.antt =====
-- internal/store/ttl_wheel.go: how many ticks an entry has left, and how that falls.
use vlf_proto.Base.{
  ℕ, zero, suc, ◌+◌, ◌-◌, ◌*◌, ◌%◌, ◌<◌, ltb, ◌==◌, if◌then◌else◌, length, none, some, ◌≡◌, ◌≢◌,
  refl, arith, length-set, ℕ_discrete,
}
use native.Mathlib.Nat.{mod-eq_of_lt, mod-eq-sub-mod, mul-suc}
use vlf_proto.Base.Assoc.{bytes_eq, lookup}
use mathlib.Core.List.{Memᴰ}
use vlf_proto.Wire.{Bytes}
use vlf_proto.Store.Wheel.{Entry, Wheel, slot_of, sweep, tick}
use vlf_proto.Store.Wheel.Sync.{IsSync, slot_in}
use vlf_proto.Store.Wheel.Sweep.{Mem-sweep, lookup-sweep_entries}

-- The ticks after which the cursor comes to a slot: one at least, a revolution at most.
abbrev pub distance : ℕ → ℕ → ℕ → ℕ
distance n cursor slot = if ltb cursor slot then slot - cursor else slot + n - cursor

abbrev pub remaining_at : ℕ → ℕ → ℕ → ℕ → ℕ
remaining_at n cursor slot rounds = distance n cursor slot + n * rounds

step_cursor :
    (n cursor : ℕ) → cursor < n → (cursor + 1) % n ≡ (if cursor + 1 == n then 0 else cursor + 1)
step_cursor n cursor h = elim (ℕ_discrete (cursor + 1) n) [
  | yes p ↦
      ground
        (arith, mod-eq-sub-mod {n = cursor + 1} {m = n} (omega arith), mod-eq_of_lt {n = 0} {m = n})
  | no p ↦ ground (arith, mod-eq_of_lt {n = cursor + 1} {m = n} (omega arith))
]

one_round : (n rounds : ℕ) → 0 < rounds → n * rounds ≡ n + n * (rounds - 1)
one_round n zero h = absurd (omega arith)
one_round n (suc r) h = ground (arith, mul-suc n r)

no_rounds : (n rounds : ℕ) {slot : ℕ} → slot < n → n * rounds ≡ 0 → rounds ≡ 0
no_rounds n zero h e = refl
no_rounds n (suc r) h e = absurd (ground (arith, mul-suc n r))

module _ (n cursor slot : ℕ) (hc : cursor < n) (hs : slot < n) where
  distance_next :
      slot ≡ (cursor + 1) % n
      → (distance n cursor slot ≡ 1) × (distance n ((cursor + 1) % n) slot ≡ n)
  distance_next h = ground (arith, step_cursor n cursor hc)

  distance_other :
      slot ≢ (cursor + 1) % n
      → (distance n ((cursor + 1) % n) slot + 1 ≡ distance n cursor slot)
        × (1 < distance n cursor slot)
  distance_other h = ground (arith, step_cursor n cursor hc)

module _ {C : Type 0} where
  unfoldable pub remaining : Wheel C → Entry C → ℕ
  remaining w entry = remaining_at (length w.slots) w.cursor entry.slot entry.rounds

  -- A tick that is not an entry's last leaves the entry, with one tick less.
  pub tick_keeps :
      (w : Wheel C) (k : Bytes) (entry : Entry C)
      → IsSync w
      → lookup k w.entries ≡ some entry
      → 1 < remaining w entry
      → (entry' : Entry C) × (lookup k (tick w).0.entries ≡ some entry')
        × (entry'.callback ≡ entry.callback)
        × (remaining (tick w).0 entry' + 1 ≡ remaining w entry)
  unfolding tick remaining
  tick_keeps w k entry s e h =
      let n = length w.slots in
      let next = (w.cursor + 1) % n in
      let slot = slot_of w next in
      let inside = slot_in w k entry s e in
      let found = lookup-sweep_entries k slot w.entries (s.distinct next) in
      let len = length-set w.slots next (sweep slot w.entries).0 in
      elim (ℕ_discrete entry.slot next) [
        | yes here ↦
            let (one, all) = distance_next n w.cursor entry.slot s.cursor_in inside here in
            let visited : 0 < entry.rounds = ground (arith, one) in
            (
              record entry { rounds = entry.rounds - 1 },
              ground (arith, found, e, s.agree k next),
              refl,
              rw len (omega (arith, one, all, one_round n entry.rounds visited)),
            )
        | no other ↦
            let (less, more) = distance_other n w.cursor entry.slot s.cursor_in inside other in
            (entry, ground (arith, found, e, s.agree k next), refl, rw len (omega (arith, less)))
      ]

  -- An entry's last tick takes it away and calls its callback.
  pub tick_expires :
      (w : Wheel C) (k : Bytes) (entry : Entry C) (c : C)
      → IsSync w
      → lookup k w.entries ≡ some entry
      → remaining w entry ≡ 1
      → entry.callback ≡ some c
      → (lookup k (tick w).0.entries ≡ none) × Memᴰ c (tick w).1
  unfolding tick remaining
  tick_expires w k entry c s e h calls =
      let n = length w.slots in
      let next = (w.cursor + 1) % n in
      let slot = slot_of w next in
      let inside = slot_in w k entry s e in
      let found = lookup-sweep_entries k slot w.entries (s.distinct next) in
      elim (ℕ_discrete entry.slot next) [
        | yes here ↦
            let (one, all) = distance_next n w.cursor entry.slot s.cursor_in inside here in
            let last : entry.rounds ≡ 0 = no_rounds n entry.rounds inside (omega (arith, h, one)) in
            let stands : lookup k slot ≡ some entry = ground (arith, s.agree k next, e) in
            (ground (arith, found, stands), Mem-sweep k slot w.entries entry c stands last calls)
        | no other ↦
            let (less, more) = distance_other n w.cursor entry.slot s.cursor_in inside other in
            absurd (omega (arith, more, h))
      ]

  -- A tick puts no key in.
  pub tick_adds_none :
      (w : Wheel C) (k : Bytes)
      → IsSync w
      → lookup k w.entries ≡ none
      → lookup k (tick w).0.entries ≡ none
  unfolding tick
  tick_adds_none w k s e =
      let next = (w.cursor + 1) % length w.slots in
      ground (
        arith,
        lookup-sweep_entries k (slot_of w next) w.entries (s.distinct next),
        s.agree k next,
        e,
      )
