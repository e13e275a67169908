-- ===== src/Store/Keyset/Lists/Limits.antt =====
-- The size of one page of a keyset list, and what holds of all its rows.
use dp1_feed_v.Shared.{
  ℕ, zero, suc, ◌≡◌, ◌≤◌, refl, sym, ap, ◌∙◌, subst, String, Bool, true, Option, List, [], ◌∷◌, ok,
  bind-eq-ok, ok-injective, length, take, all, filter, ltb, Bool-cases, inl, inr, ltb→le, arith,
  all-filter,
}
use dp1_feed_v.Store.Keyset.{SortOrder, Key, past, order_by, select_rows, page_of}
use dp1_feed_v.Store.Keyset.Order.{all-order_by}
use dp1_feed_v.Store.Keyset.Lists.{read_rows, keyset_page}
use dp1_feed_v.Store.Keyset.Lists.Walks.{read_rows-cons}

length-take_le : {A : Type 0} (n : ℕ) (xs : List A) → length (take n xs) ≤ n
length-take_le zero xs = omega arith
length-take_le (suc n) [] = omega arith
length-take_le (suc n) (x ∷ xs) = omega (arith, length-take_le n xs)

all-take :
    {A : Type 0} (f : A → Bool) (n : ℕ) (xs : List A) → all f xs ≡ true → all f (take n xs) ≡ true
all-take f zero xs h = refl
all-take f (suc n) [] h = refl
all-take f (suc n) (x ∷ xs) h = ground (arith, all-take f n xs)

length-page_of : {A : Type 0} (n : ℕ) (xs : List A) → length (page_of n xs).0 ≤ n
unfolding page_of
length-page_of n xs = elim (Bool-cases (ltb n (length xs))) [
  | inl e ↦ rw e (length-take_le n xs)
  | inr e ↦ rw e (ltb→le n (length xs) e)
]

all-page_of :
    {A : Type 0} (f : A → Bool) (n : ℕ) (xs : List A)
    → all f xs ≡ true
    → all f (page_of n xs).0 ≡ true
unfolding page_of
all-page_of f n xs h = elim (Bool-cases (ltb n (length xs))) [
  | inl e ↦ rw e (all-take f n xs h)
  | inr e ↦ rw e h
]

module _ {X B : Type 0} (key : X → Key) (read : X → Option B) (token : X → String)
    (o : SortOrder) where
  all-read_rows :
      (f : X → Bool) (xs : List X) (out : List (X × B))
      → read_rows read xs ≡ ok out
      → all f xs ≡ true
      → all (λ (r : X × B). f (r.0)) out ≡ true
  unfolding read_rows
  all-read_rows f [] out h a = ap (all (λ (r : X × B). f (r.0))) (sym (ok-injective h))
  all-read_rows f (x ∷ xs) out h a =
      let (b, rest, _, k, e) = read_rows-cons read x xs out h in
      subst (λ (s : List (X × B)). all (λ (r : X × B). f (r.0)) s ≡ true) e
        (ground (arith, all-read_rows f xs rest k, a))

  pub keyset_page_lem :
      (f : X → Bool) (limit : ℕ) (b : Option Key) (rows : List X) (out : List (X × B))
      (next : String)
      → all f rows ≡ true
      → keyset_page key read token o limit b rows ≡ ok (out, next)
      → (length out ≤ limit) × (all (λ (r : X × B). f (r.0)) out ≡ true)
  unfolding keyset_page select_rows
  keyset_page_lem f limit b rows out next a h =
      let selected = filter (past key o b) (order_by key o rows) in
      let (got, k, e) = bind-eq-ok (read_rows read (take (suc limit) selected)) _ h in
      let whole = all-read_rows f (take (suc limit) selected) got k (
        all-take f (suc limit) selected
          (all-filter f (past key o b) (order_by key o rows) (all-order_by key o f rows ∙ a))) in
      let same : (page_of limit got).0 ≡ out =
        ap (λ (r : List (X × B) × String). r.0) (ok-injective e) in
      subst (λ (s : List (X × B)). (length s ≤ limit) × (all (λ (r : X × B). f (r.0)) s ≡ true))
        same (length-page_of limit got, all-page_of (λ (r : X × B). f (r.0)) limit got whole)
