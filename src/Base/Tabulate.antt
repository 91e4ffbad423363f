-- ===== src/Base/Tabulate.antt =====
-- Lists given by their elements, and slices and overlays of a list seen by index.
use vlf_proto.Base.Tests.{ltb, leb, ◌==◌, if◌then◌else◌}
use vlf_proto.Base.Lists.{length, get_or, set, take, drop}
use Prim.Native.Nat.{ℕ, zero, suc, ◌+◌, ◌-◌, ◌≤◌, ◌<◌}
use mathlib.Core.Path.{◌≡◌, refl, ap, ap₂, ◌∙◌}
use mathlib.Core.Bool.{◌&&◌}
use mathlib.Core.List.{List, [], ◌∷◌, ◌++◌}
use native.Mathlib.Omega.{arith}

module _ {ℓ} {A : Type ℓ} where
  abbrev pub tabulate : ℕ → (ℕ → A) → List A
  tabulate zero f = []
  tabulate (suc n) f = f 0 ∷ tabulate n (λ i. f (suc i))

  -- `copy(xs[i:], src)`: what does not fit is left out.
  abbrev pub copy_at : List A → ℕ → List A → List A
  copy_at [] i src = []
  copy_at (x ∷ xs) (suc i) src = x ∷ copy_at xs i src
  copy_at (x ∷ xs) zero [] = x ∷ xs
  copy_at (x ∷ xs) zero (y ∷ src) = y ∷ copy_at xs zero src

shift : (k i : ℕ) → suc (k + i) ≡ suc k + i
shift k i = omega arith

module _ {A : Type 0} where
  pub length-tabulate : (n : ℕ) (f : ℕ → A) → length (tabulate n f) ≡ n
  length-tabulate zero f = refl
  length-tabulate (suc n) f = ap suc (length-tabulate n (λ i. f (suc i)))

  pub tabulate-congr :
      (n : ℕ) (f g : ℕ → A) → ((i : ℕ) → i < n → f i ≡ g i) → tabulate n f ≡ tabulate n g
  tabulate-congr zero f g h = refl
  tabulate-congr (suc n) f g h =
      ap₂ ◌∷◌ (h 0 (omega arith))
        (tabulate-congr n (λ i. f (suc i)) (λ i. g (suc i)) (λ i k. h (suc i) (omega arith)))

  pub tabulate-append :
      (a b : ℕ) (f : ℕ → A) → tabulate (a + b) f ≡ tabulate a f ++ tabulate b (λ i. f (a + i))
  tabulate-append zero b f =
      ap (λ n. tabulate n f) {y = b} (omega arith)
      ∙ tabulate-congr b f (λ i. f (0 + i)) (λ i h. ap f (omega arith))
  tabulate-append (suc a) b f =
      let f' = λ (i : ℕ). f (suc i) in
      ap (λ n. tabulate n f) {y = suc (a + b)} (omega arith)
      ∙ ap (λ l. f 0 ∷ l)
          (tabulate-append a b f'
            ∙ ap (◌++◌ (tabulate a f')) (
                tabulate-congr b (λ i. f' (a + i)) (λ i. f (suc a + i))
                  (λ i h. ap f (omega arith))))

  pub tabulate-get_or : (d : A) (xs : List A) → tabulate (length xs) (λ i. get_or xs i d) ≡ xs
  tabulate-get_or d [] = refl
  tabulate-get_or d (x ∷ xs) = ap (λ l. x ∷ l) (tabulate-get_or d xs)

  take-tabulate :
      (d : A) (n : ℕ) (xs : List A) → n ≤ length xs → take n xs ≡ tabulate n (λ i. get_or xs i d)
  take-tabulate d zero xs h = refl
  take-tabulate d (suc n) [] h = absurd (omega arith)
  take-tabulate d (suc n) (x ∷ xs) h = ap (λ l. x ∷ l) (take-tabulate d n xs (omega arith))

  -- `xs[k:k+n]`
  pub take-drop-tabulate :
      (d : A) (n k : ℕ) (xs : List A)
      → k + n ≤ length xs
      → take n (drop k xs) ≡ tabulate n (λ i. get_or xs (k + i) d)
  take-drop-tabulate d n zero xs h =
      take-tabulate d n xs (omega arith)
      ∙ tabulate-congr n _ _ (λ i l. ap (λ j. get_or xs j d) (omega arith))
  take-drop-tabulate d n (suc k) [] h = absurd (omega arith)
  take-drop-tabulate d n (suc k) (x ∷ xs) h =
      take-drop-tabulate d n k xs (omega arith)
      ∙ tabulate-congr n _ (λ i. get_or (x ∷ xs) (suc k + i) d)
          (λ i l. ap (λ j. get_or (x ∷ xs) j d) (shift k i))

  pub length-copy_at : (xs : List A) (i : ℕ) (src : List A) → length (copy_at xs i src) ≡ length xs
  length-copy_at [] i src = refl
  length-copy_at (x ∷ xs) (suc i) src = ap suc (length-copy_at xs i src)
  length-copy_at (x ∷ xs) zero [] = refl
  length-copy_at (x ∷ xs) zero (y ∷ src) = ap suc (length-copy_at xs zero src)

  pub get_or-copy_at :
      (xs : List A) (i : ℕ) (src : List A) (j : ℕ) (d : A)
      → j < length xs
      → get_or (copy_at xs i src) j d
        ≡ (if leb i j && ltb j (i + length src) then get_or src (j - i) d else get_or xs j d)
  get_or-copy_at [] i src j d h = absurd (omega arith)
  get_or-copy_at (x ∷ xs) (suc i) src zero d h = ground arith
  get_or-copy_at (x ∷ xs) (suc i) src (suc j) d h = ground (arith, get_or-copy_at xs i src j d)
  get_or-copy_at (x ∷ xs) zero [] j d h = ground arith
  get_or-copy_at (x ∷ xs) zero (y ∷ src) zero d h = ground arith
  get_or-copy_at (x ∷ xs) zero (y ∷ src) (suc j) d h =
      ground (arith, get_or-copy_at xs zero src j d)

module _ {A : Type 0} where
  pub get_or-take : (n i : ℕ) (xs : List A) (d : A) → i < n → get_or (take n xs) i d ≡ get_or xs i d
  get_or-take zero i xs d h = absurd (omega arith)
  get_or-take (suc n) i [] d h = refl
  get_or-take (suc n) zero (x ∷ xs) d h = refl
  get_or-take (suc n) (suc i) (x ∷ xs) d h = get_or-take n i xs d (omega arith)

  pub get_or-drop : (n i : ℕ) (xs : List A) (d : A) → get_or (drop n xs) i d ≡ get_or xs (n + i) d
  get_or-drop zero i xs d = ap (λ j. get_or xs j d) (omega arith)
  get_or-drop (suc n) i [] d = refl
  get_or-drop (suc n) i (x ∷ xs) d =
      get_or-drop n i xs d ∙ ap (λ j. get_or (x ∷ xs) j d) (shift n i)

  pub get_or-set :
      (xs : List A) (i j : ℕ) (v d : A)
      → get_or (set xs i v) j d ≡ (if (i == j) && ltb i (length xs) then v else get_or xs j d)
  get_or-set [] i j v d = ground arith
  get_or-set (x ∷ xs) zero zero v d = ground arith
  get_or-set (x ∷ xs) zero (suc j) v d = ground arith
  get_or-set (x ∷ xs) (suc i) zero v d = ground arith
  get_or-set (x ∷ xs) (suc i) (suc j) v d = ground (arith, get_or-set xs i j v d)

  pub get_or_beyond : (xs : List A) (i : ℕ) (d : A) → length xs ≤ i → get_or xs i d ≡ d
  get_or_beyond [] i d h = refl
  get_or_beyond (x ∷ xs) zero d h = absurd (omega arith)
  get_or_beyond (x ∷ xs) (suc i) d h = get_or_beyond xs i d (omega arith)
