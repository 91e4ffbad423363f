-- ===== src/Store/Wheel/Due.antt =====
-- internal/store/ttl_wheel.go: the ticks that the slot and the rounds of a new entry stand for.
use native.Mathlib.Nat.{
  mod-eq_of_lt, mod-eq-sub-mod, div-add-mod, mul-suc, mod-add-mod, mul-le-mul_left,
}
use vlf_proto.Base.{
  ℕ, zero, suc, ◌+◌, ◌-◌, ◌*◌, ◌/◌, ◌%◌, ◌≤◌, ◌<◌, not, ◌&&◌, ltb, leb, ◌==◌, if◌then◌else◌, ◌≡◌,
  sym, ap, subst, ◌∙◌, arith, ℕ_discrete, dec_lt,
}
use vlf_proto.Base.Assoc.{bytes_eq}
use vlf_proto.Store.Wheel.{place, steps_of}
use vlf_proto.Store.Wheel.Timing.{remaining_at}

-- The tick at which an entry of `steps` ticks is taken away, counted from the call: the steps, but a
-- revolution less where they are a revolution or more and their rest wraps round the last slot.
unfoldable pub due : ℕ → ℕ → ℕ → ℕ
due n cursor steps =
    let rest = steps % n in
    if leb n steps && ltb 0 rest && leb n (cursor + rest) then steps - n else steps

target :
    (n cursor rest : ℕ)
    → cursor < n
    → rest < n
    → (cursor + rest) % n ≡ (if ltb (cursor + rest) n then cursor + rest else cursor + rest - n)
target n cursor rest h h' = elim (dec_lt (cursor + rest) n) [
  | yes p ↦ ground (arith, mod-eq_of_lt {n = cursor + rest} {m = n} p)
  | no p ↦ ground (
    arith,
    mod-eq-sub-mod {n = cursor + rest} {m = n} (omega arith),
    mod-eq_of_lt {n = cursor + rest - n} {m = n} (omega arith),
  )
]

remaining-quotient :
    (n cursor q rest slot : ℕ)
    → cursor < n
    → rest < n
    → 0 < n * q + rest
    → slot ≡ (if ltb (cursor + rest) n then cursor + rest else cursor + rest - n)
    → remaining_at n cursor slot (if leb slot cursor then q - 1 else q) ≡ (
        if leb n (n * q + rest) && ltb 0 rest && leb n (cursor + rest)
        then n * q + rest - n
        else n * q + rest)
remaining-quotient n cursor zero rest slot h h' pos e = ground arith
remaining-quotient n cursor (suc q) rest slot h h' pos e = ground (arith, mul-suc n q)

pub remaining-place :
    (n cursor steps : ℕ)
    → cursor < n
    → 0 < steps
    → let (slot, rounds) = place n cursor steps in
      remaining_at n cursor slot rounds ≡ due n cursor steps
unfolding place due
remaining-place n cursor steps h pos =
    let q = steps / n in
    let rest = steps % n in
    let rest_in : rest < n = omega (arith, h) in
    let whole : n * q + rest ≡ steps = div-add-mod steps n in
    let wraps : (cursor + steps) % n ≡ (cursor + rest) % n =
      ap (λ x. x % n) (omega arith)
      ∙ sym (mod-add-mod steps n cursor)
      ∙ ap (λ x. x % n) (omega arith) in
    let slot_at = wraps ∙ target n cursor rest h rest_in in
    let core =
      remaining-quotient n cursor q rest ((cursor + steps) % n) h rest_in
        (omega (arith, whole, pos)) slot_at in
    subst
      (λ s.
        remaining_at n cursor ((cursor + steps) % n)
          (if leb ((cursor + steps) % n) cursor then q - 1 else q)
        ≡ (if leb n s && ltb 0 rest && leb n (cursor + rest) then s - n else s))
      whole core

pub due_pos : (n cursor steps : ℕ) → cursor < n → 0 < steps → 0 < due n cursor steps
unfolding place
due_pos n cursor steps h pos =
    let slot = (cursor + steps) % n in
    let slot_in : slot < n = omega (arith, h) in
    ground (arith, slot_in, remaining-place n cursor steps h pos)

pub steps_pos : (interval ttl : ℕ) → 0 < steps_of interval ttl
unfolding steps_of
steps_pos interval ttl = ground arith

pub due_short : (n cursor steps : ℕ) → cursor < n → steps ≤ n → due n cursor steps ≡ steps
unfolding due
due_short n cursor steps h short = elim (ℕ_discrete steps n) [
  | yes full ↦
      ground (arith, mod-eq-sub-mod {n = steps} {m = n} (omega arith), mod-eq_of_lt {n = 0} {m = n})
  | no less ↦ ground arith
]

-- The time to live is over in the last of the steps.
steps_bounds :
    (interval q rest ttl : ℕ)
    → interval * q + rest ≡ ttl
    → rest < interval
    → 0 < ttl
    → let steps = if not (rest == 0) then q + 1 else q in
      let steps' = if ltb steps 1 then 1 else steps in
      (interval * (steps' - 1) < ttl) × (ttl ≤ interval * steps')
steps_bounds interval zero rest ttl whole r t = ground (arith, mul-suc interval 0)
steps_bounds interval (suc q) rest ttl whole r t =
    ground (arith, mul-suc interval q, mul-suc interval (suc q))

-- A tick comes before the last step exactly when it starts before the time is over.
pub ltb-steps :
    (interval ttl m : ℕ)
    → 0 < interval
    → 0 < ttl
    → ltb m (steps_of interval ttl) ≡ ltb (interval * m) ttl
unfolding steps_of
ltb-steps interval ttl m i t =
    let steps = steps_of interval ttl in
    let (above, below) =
      steps_bounds interval (ttl / interval) (ttl % interval) ttl (div-add-mod ttl interval)
        (omega (arith, i)) t in
    elim (dec_lt m steps) [
      | yes h ↦
          ground
            (arith, mul-le-mul_left {m = m} {n = steps - 1} interval (omega (arith, h)), above, h)
      | no h ↦
          ground (arith, mul-le-mul_left {m = steps} {n = m} interval (omega (arith, h)), below, h)
    ]

pub steps_short :
    (interval ttl n : ℕ) → 0 < interval → 0 < ttl → ttl ≤ interval * n → steps_of interval ttl ≤ n
steps_short interval ttl n i t h = ground (arith, ltb-steps interval ttl n i t)
