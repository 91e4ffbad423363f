-- ===== src/Base/Assoc/Laws.antt =====
-- Laws of the association lists, in `if` form where a key may or may not be the one changed.
use vlf_proto.Base.Tests.{if◌then◌else◌, Bool-cases}
use vlf_proto.Base.Lists.{length}
use vlf_proto.Base.Assoc.{Eq, Map, lookup, insert, delete, retain, Distinct}
use Prim.Native.Nat.{ℕ, suc, ◌+◌, ◌≤◌}
use mathlib.Core.Path.{◌≡◌, refl, ap, sym, ◌∙◌}
use mathlib.Core.Logic.{inl, inr}
use mathlib.Core.Bool.{Bool, true}
use mathlib.Core.Option.{Option, none, some}
use mathlib.Core.List.{[], ◌∷◌}
use native.Mathlib.Omega.{arith}

module _ {ℓ} {K : Type ℓ} ⦃e : Eq K⦄ where
  pub beq_refl : (k : K) → e.beq k k ≡ true
  beq_refl k = (e.beq_iff k k).1 refl

  pub eq_of_beq : (j k : K) → e.beq j k ≡ true → j ≡ k
  eq_of_beq j k h = (e.beq_iff j k).0 h

  -- Equal keys test alike against any third.
  pub beq-congr : (i j k : K) → e.beq i j ≡ true → e.beq i k ≡ e.beq j k
  beq-congr i j k h = rw (eq_of_beq i j h)

  pub beq-congr_right : (i j k : K) → e.beq j k ≡ true → e.beq i j ≡ e.beq i k
  beq-congr_right i j k h = rw (eq_of_beq j k h)

  pub beq_comm : (j k : K) → e.beq j k ≡ e.beq k j
  beq_comm j k = elim (Bool-cases (e.beq j k)) [
    | inl h ↦ rw (eq_of_beq j k h)
    | inr h ↦ elim (Bool-cases (e.beq k j)) [ inl g ↦ rw (eq_of_beq k j g) | inr g ↦ rw (h, g) ]
  ]

-- How many entries a lookup stands for.
abbrev pub present {ℓ} : {V : Type ℓ} → Option V → ℕ
present none = 0
present (some v) = 1

module _ {ℓ κ} {K : Type ℓ} ⦃e : Eq K⦄ {V : Type κ} where
  pub lookup-cons :
      (k j : K) (v : V) (m : Map K V)
      → lookup k ((j, v) ∷ m) ≡ (if e.beq j k then some v else lookup k m)
  unfolding lookup
  lookup-cons k j v m = refl

  pub lookup-insert :
      (k j : K) (v : V) (m : Map K V)
      → lookup j (insert k v m) ≡ (if e.beq k j then some v else lookup j m)
  unfolding lookup insert
  lookup-insert k j v [] = refl
  lookup-insert k j v ((i, w) ∷ m) = elim (Bool-cases (e.beq i k)) [
    | inl h ↦ rw h (ground (arith, beq-congr i k j h))
    | inr h ↦ rw h (
        ground
          (arith, lookup-insert k j v m, h, beq-congr_right i k j, beq-congr i j k, beq_comm k j))
  ]

  pub lookup-delete :
      (k j : K) (m : Map K V) → lookup j (delete k m) ≡ (if e.beq k j then none else lookup j m)
  unfolding lookup delete
  lookup-delete k j [] = ground arith
  lookup-delete k j ((i, w) ∷ m) = elim (Bool-cases (e.beq i k)) [
    | inl h ↦ rw h (ground (arith, beq-congr i k j h, lookup-delete k j m))
    | inr h ↦ rw h (
        ground
          (arith, lookup-delete k j m, h, beq-congr_right i k j, beq-congr i j k, beq_comm k j))
  ]

  pub insert-Distinct : (k : K) (v : V) (m : Map K V) → Distinct m → Distinct (insert k v m)
  unfolding lookup insert
  insert-Distinct k v [] d = (refl, tt)
  insert-Distinct k v ((i, w) ∷ m) d = elim (Bool-cases (e.beq i k)) [
    | inl h ↦ rw h (ap (λ j. lookup j m) (sym (eq_of_beq i k h)) ∙ d.0, d.1)
    | inr h ↦ rw h (lookup-insert k i v m ∙ rw (beq_comm k i, h) d.0, insert-Distinct k v m d.1)
  ]

  pub delete-Distinct : (k : K) (m : Map K V) → Distinct m → Distinct (delete k m)
  unfolding delete
  delete-Distinct k [] d = tt
  delete-Distinct k ((i, w) ∷ m) d = elim (Bool-cases (e.beq i k)) [
    | inl h ↦ rw h (delete-Distinct k m d.1)
    | inr h ↦ rw h (lookup-delete k i m ∙ rw (beq_comm k i, h) d.0, delete-Distinct k m d.1)
  ]

  -- What a loop that deletes by a test leaves under a key.
  abbrev pub kept : (K → V → Bool) → K → Option V → Option V
  kept p k none = none
  kept p k (some v) = if p k v then some v else none

  lookup-retain-none :
      (p : K → V → Bool) (k : K) (m : Map K V) → lookup k m ≡ none → lookup k (retain p m) ≡ none
  unfolding lookup retain
  lookup-retain-none p k [] h = refl
  lookup-retain-none p k ((i, w) ∷ m) h = ground (arith, lookup-retain-none p k m)

  pub lookup-retain :
      (p : K → V → Bool) (k : K) (m : Map K V)
      → Distinct m
      → lookup k (retain p m) ≡ kept p k (lookup k m)
  unfolding lookup retain
  lookup-retain p k [] d = refl
  lookup-retain p k ((i, w) ∷ m) d = elim (Bool-cases (e.beq i k)) [
    | inl h ↦ rw (h, ← (eq_of_beq i k h)) (ground (arith, lookup-retain-none p i m d.0, beq_refl i))
    | inr h ↦ rw h (ground (arith, lookup-retain p k m d.1, h))
  ]

  pub retain-Distinct : (p : K → V → Bool) (m : Map K V) → Distinct m → Distinct (retain p m)
  unfolding retain
  retain-Distinct p [] d = tt
  retain-Distinct p ((i, w) ∷ m) d =
      ground (arith, retain-Distinct p m d.1, lookup-retain-none p i m d.0)

  first_none : (i k : K) → e.beq i k ≡ true → (m : Map K V) → lookup i m ≡ none → lookup k m ≡ none
  first_none i k h m d = ap (λ j. lookup j m) (sym (eq_of_beq i k h)) ∙ d

  delete-none : (k : K) (m : Map K V) → lookup k m ≡ none → delete k m ≡ m
  unfolding lookup delete
  delete-none k [] h = refl
  delete-none k ((i, w) ∷ m) h = ground (arith, delete-none k m)

  -- `len(m)` after an assignment and after a deletion.
  pub length-insert :
      (k : K) (v : V) (m : Map K V) → length (insert k v m) + present (lookup k m) ≡ suc (length m)
  unfolding lookup insert
  length-insert k v [] = refl
  length-insert k v ((i, w) ∷ m) = ground (arith, length-insert k v m)

  pub length-delete :
      (k : K) (m : Map K V) → Distinct m → length (delete k m) + present (lookup k m) ≡ length m
  unfolding lookup delete
  length-delete k [] d = refl
  length-delete k ((i, w) ∷ m) d = elim (Bool-cases (e.beq i k)) [
    | inl h ↦ rw h (omega (arith, ap length (delete-none k m (first_none i k h m d.0))))
    | inr h ↦ rw h (ground (arith, length-delete k m d.1))
  ]

-- A deletion makes no map longer.
pub length-delete_le {ℓ κ} :
    {K : Type ℓ} ⦃e : Eq K⦄ {V : Type κ} (k : K) (m : Map K V) → length (delete k m) ≤ length m
unfolding delete
length-delete_le k [] = omega arith
length-delete_le k ((j, v) ∷ m) = ground (arith, length-delete_le k m)
