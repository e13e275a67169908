-- ===== src/Store/Keyset/Lists.antt =====
-- One page of a list: `limit + 1` rows behind the boundary, each read into a record, cut to the limit
-- with a token for the next page, and a client that follows the tokens.
pub mod Walks
pub mod Limits
use dp1_feed_v.Shared.{
  ℕ, zero, suc, String, Option, none, some, List, [], ◌∷◌, ◌++◌, ◌==◌, true, false, ok, err, ◌>>=◌,
}
use dp1_feed_v.Errors.{Result}
use dp1_feed_v.Auth.{or_error}
use dp1_feed_v.Store.Keyset.{SortOrder, Key, select_rows, page_of}

module _ {X B : Type 0} where
  -- `for rows.Next() { … Scan … decode … append … }`
  unfoldable pub read_rows : (X → Option B) → List X → Result (List (X × B))
  read_rows read [] = ok []
  read_rows read (x ∷ xs) =
      let rest = read_rows read xs in do b ← or_error [] (read x); out ← rest; ok ((x, b) ∷ out)

  abbrev pub token_of : (X → String) → Option (X × B) → String
  token_of token none = ""
  token_of token (some last) = token (last.0)

  unfoldable pub keyset_page :
      (X → Key)
      → (X → Option B)
      → (X → String)
      → SortOrder
      → ℕ
      → Option Key
      → List X
      → Result (List (X × B) × String)
  keyset_page key read token o limit boundary rows = do
    out ← read_rows read (select_rows key o (suc limit) boundary rows)
    ok ((page_of limit out).0, token_of token (page_of limit out).1)

  -- The page behind a cursor, which is read before the query is run.
  unfoldable pub list_page :
      (X → Key)
      → (X → Option B)
      → (X → String)
      → SortOrder
      → (String → Result (Option Key))
      → ℕ
      → List X
      → String
      → Result (List (X × B) × String)
  unfolding keyset_page
  list_page key read token o boundary limit rows cursor =
      boundary cursor >>= λ b. keyset_page key read token o limit b rows

-- The records of all pages, from a cursor on; a page without a next token is the last.
unfoldable pub follow_pages {ℓ} :
    {A : Type ℓ} → (String → Result (List A × String)) → ℕ → String → Result (List A)
follow_pages page zero cursor = ok []
follow_pages page (suc fuel) cursor = elim (page cursor) [
  | err e ↦ err e
  | ok (rows, next) ↦ elim (next == "") [
    | true ↦ ok rows
    | false ↦ do rest ← follow_pages page fuel next; ok (rows ++ rest)
  ]
]
