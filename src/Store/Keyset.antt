-- ===== src/Store/Keyset.antt =====
-- internal/store/sort.go, and the keyset order that the list queries share: `ORDER BY` a tuple, the
-- comparison with the cursor's tuple, and a page of `limit + 1` rows. A tuple of fewer than three members
-- has the same value in the others for every row.
pub mod Order
pub mod Pages
pub mod Lists
use dp1_feed_v.Shared.{
  ℕ, zero, suc, ◌+◌, ◌-◌, String, Bool, true, false, ◌&&◌, ◌||◌, Option, none, some, List, [], ◌∷◌,
  take, length, get_elem?, filter, ltb, nat_eq, if◌then◌else◌, ok, err, trim_space, lower_eq,
}
use dp1_feed_v.Errors.{Result}

-- `SortOrder`, whose zero value is the empty text.
pub data SortOrder : Type 0 where
  unset ascending descending : SortOrder

unfoldable pub parse_sort_order : String → Result SortOrder
parse_sort_order s =
    let t = trim_space s in
    if lower_eq t "" || lower_eq t "asc"
    then ok ascending
    else if lower_eq t "desc"
    then ok descending
    else err []

-- `SQLOrder` is "DESC" and `TupleAfterCursorOp` is "<" for this one alone.
unfoldable pub is_descending : SortOrder → Bool
is_descending unset = false
is_descending ascending = false
is_descending descending = true

pub record Key : Type 0 where
  pub first : ℕ
  pub second : ℕ
  pub third : ℕ

unfoldable pub key_lt : Key → Key → Bool
key_lt a b =
    ltb a.first b.first
    || (nat_eq a.first b.first
        && (ltb a.second b.second || (nat_eq a.second b.second && ltb a.third b.third)))

unfoldable pub key_eq : Key → Key → Bool
key_eq a b = nat_eq a.first b.first && nat_eq a.second b.second && nat_eq a.third b.third

-- The first key comes strictly before the second in the order of the page.
unfoldable pub precedes : SortOrder → Key → Key → Bool
unfolding is_descending key_lt
precedes o a b = if is_descending o then key_lt b a else key_lt a b

module _ {ℓ} {A : Type ℓ} (key : A → Key) (o : SortOrder) where
  unfoldable pub insert_sorted : A → List A → List A
  insert_sorted x [] = x ∷ []
  insert_sorted x (y ∷ ys) =
      let rest = insert_sorted x ys in if precedes o (key x) (key y) then x ∷ y ∷ ys else y ∷ rest

  -- `ORDER BY`
  unfoldable pub order_by : List A → List A
  order_by [] = []
  order_by (x ∷ xs) = insert_sorted x (order_by xs)

  -- The row lies behind the cursor's tuple.
  unfoldable pub past : Option Key → A → Bool
  past none x = true
  past (some k) x = precedes o k (key x)

  -- `SELECT … WHERE (…) > cursor ORDER BY … LIMIT n`
  unfoldable pub select_rows : ℕ → Option Key → List A → List A
  select_rows n boundary rows = take n (filter (past boundary) (order_by rows))

-- `if len(out) > limit { out = out[:limit]; … }`: the page, and its last row where another page exists.
unfoldable pub page_of {ℓ} : {A : Type ℓ} → ℕ → List A → List A × Option A
page_of limit rows =
    if ltb limit (length rows) then (take limit rows, get_elem? rows (limit - 1)) else (rows, none)
