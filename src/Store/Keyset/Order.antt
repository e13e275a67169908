-- ===== src/Store/Keyset/Order.antt =====
-- The order of the pages: a strict total order on keys, and the sorted list that the pages walk through.
use dp1_feed_v.Shared.{
  ℕ, zero, suc, ◌≡◌, refl, subst, Bool, true, false, not, ◌&&◌, some, List, [], ◌∷◌, all, filter,
  get_elem?, drop, Bool-cases, inl, inr, arith, filter-all, all-filter, all_mono, all-get_elem?,
}
use dp1_feed_v.Store.Keyset.{
  SortOrder, ascending, descending, unset, Key, key_lt, key_eq, is_descending, precedes,
  insert_sorted, order_by,
}

precedes_irrefl : (o : SortOrder) (a : Key) → precedes o a a ≡ false
unfolding precedes key_lt is_descending
precedes_irrefl o a = ground arith

pub precedes_trans :
    (o : SortOrder) (a b c : Key)
    → precedes o a b ≡ true
    → precedes o b c ≡ true
    → precedes o a c ≡ true
unfolding precedes key_lt is_descending
precedes_trans unset a b c h k = ground arith
precedes_trans ascending a b c h k = ground arith
precedes_trans descending a b c h k = ground arith

precedes_asymm : (o : SortOrder) (a b : Key) → precedes o a b ≡ true → precedes o b a ≡ false
unfolding precedes key_lt is_descending
precedes_asymm unset a b h = ground arith
precedes_asymm ascending a b h = ground arith
precedes_asymm descending a b h = ground arith

precedes_total :
    (o : SortOrder) (a b : Key)
    → key_eq a b ≡ false
    → precedes o a b ≡ false
    → precedes o b a ≡ true
unfolding precedes key_lt key_eq is_descending
precedes_total unset a b n h = ground arith
precedes_total ascending a b n h = ground arith
precedes_total descending a b n h = ground arith

module _ {ℓ} {A : Type ℓ} (key : A → Key) where
  -- No two rows have the same key.
  abbrev pub IsDistinct : List A → Type 0
  IsDistinct [] = Unit
  IsDistinct (x ∷ xs) = (all (λ y. not (key_eq (key x) (key y))) xs ≡ true) × IsDistinct xs

  pub filter-IsDistinct : (q : A → Bool) (xs : List A) → IsDistinct xs → IsDistinct (filter q xs)
  filter-IsDistinct q [] d = tt
  filter-IsDistinct q (x ∷ xs) d = elim (Bool-cases (q x)) [
    | inl e ↦
        rw e (all-filter (λ y. not (key_eq (key x) (key y))) q xs d.0, filter-IsDistinct q xs d.1)
    | inr n ↦ rw n (filter-IsDistinct q xs d.1)
  ]

  module _ (o : SortOrder) where
    -- Every row comes strictly before all later ones.
    abbrev pub IsStrict : List A → Type 0
    IsStrict [] = Unit
    IsStrict (x ∷ xs) = (all (λ y. precedes o (key x) (key y)) xs ≡ true) × IsStrict xs

    all-insert_sorted :
        (p : A → Bool) (x : A) (xs : List A) → all p (insert_sorted key o x xs) ≡ (p x && all p xs)
    unfolding insert_sorted
    all-insert_sorted p x [] = ground arith
    all-insert_sorted p x (y ∷ ys) = ground (arith, all-insert_sorted p x ys)

    insert_sorted-IsStrict :
        (x : A) (xs : List A)
        → all (λ y. not (key_eq (key x) (key y))) xs ≡ true
        → IsStrict xs
        → IsStrict (insert_sorted key o x xs)
    unfolding insert_sorted
    insert_sorted-IsStrict x [] n s = (refl, tt)
    insert_sorted-IsStrict x (y ∷ ys) n s = elim (Bool-cases (precedes o (key x) (key y))) [
      | inl e ↦ rw e (
        ground (
          arith,
          all_mono (λ z. precedes o (key y) (key z)) (λ z. precedes o (key x) (key z)) ys
              (λ z h. precedes_trans o (key x) (key y) (key z) e h),
        ),
        s,
      )
      | inr f ↦ rw f (
        ground (
          arith,
          all-insert_sorted (λ z. precedes o (key y) (key z)) x ys,
          precedes_total o (key x) (key y),
        ),
        insert_sorted-IsStrict x ys (ground arith) s.1,
      )
    ]

    pub all-order_by : (p : A → Bool) (xs : List A) → all p (order_by key o xs) ≡ all p xs
    unfolding order_by
    all-order_by p [] = refl
    all-order_by p (x ∷ xs) =
        ground (arith, all-insert_sorted p x (order_by key o xs), all-order_by p xs)

    pub order_by-IsStrict : (xs : List A) → IsDistinct xs → IsStrict (order_by key o xs)
    unfolding order_by
    order_by-IsStrict [] d = tt
    order_by-IsStrict (x ∷ xs) d =
        insert_sorted-IsStrict x (order_by key o xs)
          (ground (arith, all-order_by (λ y. not (key_eq (key x) (key y))) xs))
          (order_by-IsStrict xs d.1)

    pub filter-IsStrict : (q : A → Bool) (xs : List A) → IsStrict xs → IsStrict (filter q xs)
    filter-IsStrict q [] s = tt
    filter-IsStrict q (x ∷ xs) s = elim (Bool-cases (q x)) [
      | inl e ↦
          rw e (all-filter (λ y. precedes o (key x) (key y)) q xs s.0, filter-IsStrict q xs s.1)
      | inr n ↦ rw n (filter-IsStrict q xs s.1)
    ]

    -- Behind the row at a position stand exactly the rows at later positions.
    pub filter-past :
        (xs : List A) (i : ℕ) (x : A)
        → IsStrict xs
        → get_elem? xs i ≡ some x
        → filter (λ y. precedes o (key x) (key y)) xs ≡ drop (suc i) xs
    filter-past [] i x s h = cc
    filter-past (y ∷ ys) zero x s h =
        let same : y ≡ x = ground (arith, h) in
        subst (λ (w : A). filter (λ z. precedes o (key w) (key z)) (y ∷ ys) ≡ ys) same
          (rw (precedes_irrefl o (key y)) (filter-all (λ z. precedes o (key y) (key z)) ys s.0))
    filter-past (y ∷ ys) (suc i) x s h =
        let later = all-get_elem? (λ z. precedes o (key y) (key z)) ys i x s.0 h in
        rw (precedes_asymm o (key y) (key x) later) (filter-past ys i x s.1 h)
