-- ===== src/Shared/Selections.antt =====
-- The elements of a list that pass a test, and what holds of all of them.
use Prim.Native.Nat.{ℕ, zero, suc, ◌≤◌, ◌<◌}
use mathlib.Core.Path.{◌≡◌, refl, ap}
use mathlib.Core.Logic.{inl, inr}
use mathlib.Core.Bool.{Bool, true}
use mathlib.Core.Option.{some}
use mathlib.Core.List.{List, [], ◌∷◌, ◌++◌}
use native.Mathlib.Omega.{arith}
use dp1_feed_v.Shared.Tests.{Bool-cases, if◌then◌else◌}
use dp1_feed_v.Shared.Lists.{length, get_elem?, take, drop, all}

module _ {ℓ} {A : Type ℓ} where
  abbrev pub filter : (A → Bool) → List A → List A
  filter p [] = []
  filter p (x ∷ xs) = let rest = filter p xs in if p x then x ∷ rest else rest

  pub filter-all : (p : A → Bool) (xs : List A) → all p xs ≡ true → filter p xs ≡ xs
  filter-all p [] h = refl
  filter-all p (x ∷ xs) h = ground (arith, filter-all p xs)

  pub filter-true : (xs : List A) → filter (λ x. true) xs ≡ xs
  filter-true [] = refl
  filter-true (x ∷ xs) = ap (◌∷◌ x) (filter-true xs)

  -- A test that implies another selects from what the other has selected.
  pub filter-filter :
      (p q : A → Bool) (xs : List A)
      → ((x : A) → p x ≡ true → q x ≡ true)
      → filter p (filter q xs) ≡ filter p xs
  filter-filter p q [] h = refl
  filter-filter p q (x ∷ xs) h = ground (arith, h x, filter-filter p q xs h)

  pub filter_comm : (p q : A → Bool) (xs : List A) → filter p (filter q xs) ≡ filter q (filter p xs)
  filter_comm p q [] = refl
  filter_comm p q (x ∷ xs) = ground (arith, filter_comm p q xs)

  pub all-filter : (p q : A → Bool) (xs : List A) → all p xs ≡ true → all p (filter q xs) ≡ true
  all-filter p q [] h = refl
  all-filter p q (x ∷ xs) h = ground (arith, all-filter p q xs)

  pub all_mono :
      (p q : A → Bool) (xs : List A)
      → ((x : A) → p x ≡ true → q x ≡ true)
      → all p xs ≡ true
      → all q xs ≡ true
  all_mono p q [] h a = refl
  all_mono p q (x ∷ xs) h a = ground (arith, h x, all_mono p q xs h)

  pub all-get_elem? :
      (p : A → Bool) (xs : List A) (i : ℕ) (x : A)
      → all p xs ≡ true
      → get_elem? xs i ≡ some x
      → p x ≡ true
  all-get_elem? p [] i x a h = cc
  all-get_elem? p (y ∷ xs) zero x a h = ground arith
  all-get_elem? p (y ∷ xs) (suc i) x a h = all-get_elem? p xs i x (ground arith) h

  pub filter-get_elem? :
      (p : A → Bool) (xs : List A) (i : ℕ) (x : A) → get_elem? (filter p xs) i ≡ some x → p x ≡ true
  filter-get_elem? p [] i x h = cc
  filter-get_elem? p (y ∷ xs) zero x h = elim (Bool-cases (p y)) [
    | inl e ↦ ground arith
    | inr n ↦ filter-get_elem? p xs zero x (ground arith)
  ]
  filter-get_elem? p (y ∷ xs) (suc i) x h = elim (Bool-cases (p y)) [
    | inl e ↦ filter-get_elem? p xs i x (ground arith)
    | inr n ↦ filter-get_elem? p xs (suc i) x (ground arith)
  ]

  pub take-append-drop : (n : ℕ) (xs : List A) → take n xs ++ drop n xs ≡ xs
  take-append-drop zero xs = refl
  take-append-drop (suc n) [] = refl
  take-append-drop (suc n) (x ∷ xs) = ap (◌∷◌ x) (take-append-drop n xs)

  pub take_all : (n : ℕ) (xs : List A) → length xs ≤ n → take n xs ≡ xs
  take_all zero [] h = refl
  take_all zero (x ∷ xs) h = absurd (omega arith)
  take_all (suc n) [] h = refl
  take_all (suc n) (x ∷ xs) h = ap (◌∷◌ x) (take_all n xs (omega arith))

  pub take-take-suc : (n : ℕ) (xs : List A) → take n (take (suc n) xs) ≡ take n xs
  take-take-suc zero xs = refl
  take-take-suc (suc n) [] = refl
  take-take-suc (suc n) (x ∷ xs) = ap (◌∷◌ x) (take-take-suc n xs)

  pub get_elem?-take : (n i : ℕ) (xs : List A) → i < n → get_elem? (take n xs) i ≡ get_elem? xs i
  get_elem?-take zero i xs h = absurd (omega arith)
  get_elem?-take (suc n) i [] h = refl
  get_elem?-take (suc n) zero (x ∷ xs) h = refl
  get_elem?-take (suc n) (suc i) (x ∷ xs) h = get_elem?-take n i xs (omega arith)

  pub get_elem?_lt : (xs : List A) (i : ℕ) → i < length xs → (x : A) × (get_elem? xs i ≡ some x)
  get_elem?_lt [] i h = absurd (omega arith)
  get_elem?_lt (x ∷ xs) zero h = (x, refl)
  get_elem?_lt (x ∷ xs) (suc i) h = get_elem?_lt xs i (omega arith)

  pub length-drop_lt :
      (n : ℕ) (xs : List A) → 0 < n → n < length xs → length (drop n xs) < length xs
  length-drop_lt zero xs h k = absurd (omega arith)
  length-drop_lt (suc n) [] h k = absurd (omega arith)
  length-drop_lt (suc n) (x ∷ xs) h k = omega (arith, drop_le n xs)
    where
      drop_le : (m : ℕ) (ys : List A) → length (drop m ys) ≤ length ys
      drop_le zero ys = omega arith
      drop_le (suc m) [] = omega arith
      drop_le (suc m) (y ∷ ys) = omega (arith, drop_le m ys)

  pub length-take-suc : (n : ℕ) (xs : List A) → n < length xs → length (take (suc n) xs) ≡ suc n
  length-take-suc n [] h = absurd (omega arith)
  length-take-suc zero (x ∷ xs) h = omega arith
  length-take-suc (suc n) (x ∷ xs) h = omega (arith, length-take-suc n xs)
