-- ===== src/Wire/Prefix.antt =====
-- A read that succeeds reads the same from a longer input, and leaves the surplus.
use vlf_proto.Base.{
  ℕ, zero, suc, ◌≤◌, List, [], ◌∷◌, ◌++◌, ltb, length, take, drop, Result, ok, >>=-eq_ok, ◌≡◌, refl,
  ap, arith, Bool-cases, inl, inr, length-append,
}
use vlf_proto.Wire.{Bytes, WireError, read_uvarint_at, read_uvarint, read_full, make_and_read}

-- What a reader that succeeds on `s` does on `s ++ t`.
abbrev pub Extends {ℓ} : {A : Type ℓ} → (Bytes → Result WireError (A × Bytes)) → Type ℓ
Extends {A} read =
    (s t : Bytes) (a : A) (r : Bytes) → read s ≡ ok (a, r) → read (s ++ t) ≡ ok (a, r ++ t)

read_uvarint_at-Extends : (k : ℕ) → Extends (read_uvarint_at k)
unfolding read_uvarint_at
read_uvarint_at-Extends zero s t a r h = cc
read_uvarint_at-Extends (suc k) [] t a r h = cc
read_uvarint_at-Extends (suc k) (b ∷ s) t a r h = elim (Bool-cases (ltb b 128)) [
  | inl small ↦ ground arith
  | inr large ↦
      let (p, e, f) = >>=-eq_ok (read_uvarint_at k s) _ (rw large at h) in
      rw (large, read_uvarint_at-Extends k s t p.0 p.1 e) (ground arith)
]

take-append_le {ℓ} :
    {A : Type ℓ} (n : ℕ) (s t : List A)
    → n ≤ length s
    → (take n (s ++ t) ≡ take n s) × (drop n (s ++ t) ≡ drop n s ++ t)
take-append_le zero s t h = (refl, refl)
take-append_le (suc n) [] t h = absurd (omega arith)
take-append_le (suc n) (x ∷ s) t h =
    let (front, back) = take-append_le n s t (omega arith) in (ap (λ l. x ∷ l) front, back)

pub make_and_read-Extends : (n : ℕ) → Extends (make_and_read n)
unfolding make_and_read read_full
make_and_read-Extends n s t a r h = ground (arith, take-append_le n s t, length-append s t)

pub read_uvarint-Extends : Extends read_uvarint
unfolding read_uvarint
read_uvarint-Extends = read_uvarint_at-Extends 10
