-- ===== src/Store/Ingest.antt =====
-- `insertMissingPlaylistsBatch`: the playlists that a group or channel refers to.
use dp1_feed_v.Shared.{
  String, Bool, true, false, not, ◌||◌, Option, none, some, List, [], ◌∷◌, ◌++◌, ◌==◌, any,
  if◌then◌else◌, ok, require, ◌>>=◌, ◌>>◌,
}
use dp1_feed_v.Errors.{Error, Result, document_deleted}
use dp1_feed_v.Models.{UuidValue, Time, Row, IngestedPlaylist}
use dp1_feed_v.Platform.{Platform}
use dp1_feed_v.Auth.{or_error}
use dp1_feed_v.Store.Tables.{
  DocTable, holds, find_id, find_slug, is_some, already, require_document,
}
use dp1_feed_v.Store.Playlists.{Db, Source, item_rows}

-- The first occurrence of each id; every body must be there, also one of a repeated id.
unfoldable pub unique_playlist_params :
    List UuidValue → List IngestedPlaylist → Result (List IngestedPlaylist)
unique_playlist_params seen [] = ok []
unique_playlist_params seen (q ∷ qs) = require_document q.raw >> elim (holds q.id seen) [
  | true ↦ unique_playlist_params seen qs
  | false ↦ do rest ← unique_playlist_params (q.id ∷ seen) qs; ok (q ∷ rest)
]

-- `requireNoneTombstoned`
abbrev pub require_none_tombstoned : DocTable → List IngestedPlaylist → Result (Unit {0})
require_none_tombstoned t qs =
    require (not (any (λ q. holds q.id t.deleted) qs)) (document_deleted ∷ [])

abbrev pub link_row : Platform → Time → IngestedPlaylist → Row
link_row p now q = record {
  id = q.id;
  slug = q.slug;
  raw = p.jsonb_text q.raw;
  created_at = now;
  updated_at = now;
}

-- Why the item index of a body is refused: an id that is repeated breaks the primary key of the index, which
-- is a conflict (`createConflict`); an element without a UUID fails the statement otherwise.
unfoldable pub item_failure : Platform → List UuidValue → List (Option String) → Error
item_failure p seen [] = []
item_failure p seen (none ∷ elems) = []
item_failure p seen (some s ∷ elems) =
    let rest = λ (item : UuidValue). item_failure p (item ∷ seen) elems in
    elim (p.cast_uuid s) [ none ↦ [] | some item ↦ if holds item seen then already else rest item ]

-- The statement `insertMissing`, row by row: an id that is there is left as it is (ON CONFLICT (id) DO
-- NOTHING), a slug that another row holds fails the statement, and a new row brings its item index.
unfoldable pub insert_missing_rows : Platform → Time → List IngestedPlaylist → Db → Result Db
unfolding item_failure
insert_missing_rows p now [] db = ok db
insert_missing_rows p now (q ∷ qs) db = elim (find_id q.id db.playlists.rows) [
  | some r ↦ insert_missing_rows p now qs db
  | none ↦ do
    require (not (is_some (find_slug q.slug db.playlists.rows))) already
    rows ←
        or_error (item_failure p [] (p.body_item_ids q.raw))
          (item_rows p q.id now 0 [] (p.body_item_ids q.raw))
    insert_missing_rows p now qs (record db {
      playlists = record {
        rows = link_row p now q ∷ db.playlists.rows;
        deleted = db.playlists.deleted;
      };
      items = rows ++ db.items;
    })
]

-- The upsert of one source URI. The table's key is the URI's hash, which stands here for the URI.
abbrev pub set_source : String → UuidValue → List Source → List Source
set_source uri id [] = record { uri = uri; playlist_id = id } ∷ []
set_source uri id (s ∷ ss) =
    let rest = set_source uri id ss in
    if s.uri == uri then record s { playlist_id = id } ∷ ss else s ∷ rest

abbrev pub text_in : String → List String → Bool
text_in s texts = any (λ t. t == s) texts

-- One entry for each distinct URI that is not empty: the first.
unfoldable pub record_playlist_sources :
    List String → List IngestedPlaylist → List Source → List Source
record_playlist_sources seen [] ss = ss
record_playlist_sources seen (q ∷ qs) ss = elim (q.source_uri == "" || text_in q.source_uri seen) [
  | true ↦ record_playlist_sources seen qs ss
  | false ↦ record_playlist_sources (q.source_uri ∷ seen) qs (set_source q.source_uri q.id ss)
]

unfoldable pub insert_missing_playlists_batch :
    Platform → Time → List IngestedPlaylist → Db → Result Db
insert_missing_playlists_batch p now [] db = ok db
insert_missing_playlists_batch p now (q ∷ qs) db = do
  unique ← unique_playlist_params [] (q ∷ qs)
  require_none_tombstoned db.playlists unique
  db' ← insert_missing_rows p now unique db
  ok (record db' { sources = record_playlist_sources [] (q ∷ qs) db'.sources })
