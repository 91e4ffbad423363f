-- ===== src/Wire/Sizes.antt =====
-- A read that succeeds takes what it reads off the input.
use vlf_proto.Base.{
  ℕ, zero, suc, ◌≤◌, ◌<◌, List, [], ◌∷◌, ltb, length, drop, Result, ok, >>=-eq_ok, ◌≡◌, arith,
  Bool-cases, inl, inr,
}
use vlf_proto.Wire.{Bytes, WireError, read_uvarint_at, read_uvarint, read_full, make_and_read}

abbrev pub Shortens {ℓ} : {A : Type ℓ} → (Bytes → Result WireError (A × Bytes)) → Type ℓ
Shortens {A} read = (s : Bytes) (a : A) (r : Bytes) → read s ≡ ok (a, r) → length r < length s

read_uvarint_at-Shortens : (k : ℕ) → Shortens (read_uvarint_at k)
unfolding read_uvarint_at
read_uvarint_at-Shortens zero s a r h = cc
read_uvarint_at-Shortens (suc k) [] a r h = cc
read_uvarint_at-Shortens (suc k) (b ∷ s) a r h = elim (Bool-cases (ltb b 128)) [
  | inl small ↦ ground arith
  | inr large ↦
      let (p, e, f) = >>=-eq_ok (read_uvarint_at k s) _ (rw large at h) in
      ground (arith, f, read_uvarint_at-Shortens k s p.0 p.1 e)
]

pub read_uvarint-Shortens : Shortens read_uvarint
unfolding read_uvarint
read_uvarint-Shortens = read_uvarint_at-Shortens 10

length-drop_le {ℓ} : {A : Type ℓ} (n : ℕ) (xs : List A) → length (drop n xs) ≤ length xs
length-drop_le zero xs = omega arith
length-drop_le (suc n) [] = omega arith
length-drop_le (suc n) (x ∷ xs) = omega (arith, length-drop_le n xs)

pub make_and_read_le : (n : ℕ) (s a r : Bytes) → make_and_read n s ≡ ok (a, r) → length r ≤ length s
unfolding make_and_read read_full
make_and_read_le n s a r h = ground (arith, h, length-drop_le n s)
