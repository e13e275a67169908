-- ===== src/Store/Tables.antt =====
-- One document table with its tombstones: conditional writes by id, and the checks of a create.
use dp1_feed_v.Shared.{
  ◌+◌, String, Bool, true, false, not, ◌&&◌, ◌||◌, Option, none, some, List, [], ◌∷◌, ◌==◌, nat_eq,
  leb, if◌then◌else◌, ok, err, require, ◌>>◌,
}
use dp1_feed_v.Errors.{
  Error, Result, not_found, concurrent_modification, document_deleted, already_exists,
  conflict_error,
}
use dp1_feed_v.Models.{Bytes, UuidValue, Time, Row}

-- The rows of `playlists`, `playlist_groups` or `channels`, and the ids that `deleted_documents` holds
-- for that resource type.
pub record DocTable : Type 0 where
  pub rows : List Row
  pub deleted : List UuidValue

unfoldable pub holds : UuidValue → List UuidValue → Bool
holds id [] = false
holds id (j ∷ ids) = nat_eq j id || holds id ids

-- `SELECT … WHERE id = $1`
unfoldable pub find_id : UuidValue → List Row → Option Row
find_id id [] = none
find_id id (r ∷ rows) = if nat_eq r.id id then some r else find_id id rows

-- `SELECT … WHERE slug = $1`
unfoldable pub find_slug : String → List Row → Option Row
find_slug slug [] = none
find_slug slug (r ∷ rows) = if r.slug == slug then some r else find_slug slug rows

abbrev pub is_some {ℓ} : {A : Type ℓ} → Option A → Bool
is_some none = false
is_some (some a) = true

-- `createConflict` of a primary key or of the unique slug
abbrev pub already : Error
already = conflict_error ∷ already_exists ∷ []

-- `requireDocument`
abbrev pub require_document : Bytes → Result (Unit {0})
require_document [] = err []
require_document (b ∷ raw) = ok tt

-- The INSERT of a document, with the two unique constraints of its table.
unfoldable pub insert_row : DocTable → Row → Result DocTable
insert_row t r = do
  require (not (is_some (find_id r.id t.rows))) already
  require (not (is_some (find_slug r.slug t.rows))) already
  ok (record t { rows = r ∷ t.rows })

-- `requireNotTombstoned`
unfoldable pub require_not_tombstoned : DocTable → UuidValue → Result (Unit {0})
require_not_tombstoned t id = require (not (holds id t.deleted)) (document_deleted ∷ [])

-- The tombstone check of a create, and its INSERT.
unfoldable pub insert_document : DocTable → Row → Result DocTable
unfolding require_not_tombstoned insert_row
insert_document t r = do require_not_tombstoned t r.id; insert_row t r

-- The trigger `dp1_feed_set_updated_at` on an update: a microsecond is 1000 here.
unfoldable pub next_updated_at : Time → Time → Time
next_updated_at now old = if leb now old then old + 1000 else now

-- `SET body = $2, slug = COALESCE(NULLIF($2->>'slug', ''), slug)`
abbrev pub new_slug : Option String → String → String
new_slug none old = old
new_slug (some s) old = if s == "" then old else s

unfoldable pub update_rows : Time → UuidValue → Bytes → Option String → List Row → List Row
unfolding next_updated_at
update_rows now id raw slug [] = []
update_rows now id raw slug (r ∷ rows) =
    let rest = update_rows now id raw slug rows in
    if nat_eq r.id id
    then record r {
      slug = new_slug slug r.slug;
      raw = raw;
      updated_at = next_updated_at now r.updated_at;
    }
      ∷ rest
    else r ∷ rest

-- Another row holds the slug.
unfoldable pub slug_taken : UuidValue → String → List Row → Bool
slug_taken id slug [] = false
slug_taken id slug (r ∷ rows) = (not (nat_eq r.id id) && r.slug == slug) || slug_taken id slug rows

-- The conditional UPDATE, and `classifyConditionalWrite` where it matches no row. A slug that another
-- row holds breaks the unique constraint, which is an unclassified error here.
unfoldable pub update_document :
    Time → UuidValue → Bytes → Option String → Time → DocTable → Result DocTable
update_document now id raw slug expected t = elim (find_id id t.rows) [
  | none ↦ err (not_found ∷ [])
  | some r ↦ do
    require (nat_eq r.updated_at expected) (concurrent_modification ∷ [])
    require (not (slug_taken id (new_slug slug r.slug) t.rows)) []
    ok (record t { rows = update_rows now id raw slug t.rows })
]

unfoldable pub remove_id : UuidValue → List Row → List Row
remove_id id [] = []
remove_id id (r ∷ rows) = let rest = remove_id id rows in if nat_eq r.id id then rest else r ∷ rest

-- `deleteLockedDocument`: the conditional DELETE and the tombstone.
unfoldable pub delete_document : UuidValue → Time → DocTable → Result DocTable
delete_document id expected t = elim (find_id id t.rows) [
  | none ↦ err (not_found ∷ [])
  | some r ↦ do
    require (nat_eq r.updated_at expected) (concurrent_modification ∷ [])
    ok (record {
      rows = remove_id id t.rows;
      deleted = if holds id t.deleted then t.deleted else id ∷ t.deleted;
    })
]
