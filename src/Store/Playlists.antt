-- ===== src/Store/Playlists.antt =====
-- The database and the transactions on playlists.
use dp1_feed_v.Shared.{
  ℕ, suc, String, Bool, ◌&&◌, Option, none, some, List, [], ◌∷◌, ◌++◌, ◌==◌, nat_eq, leb,
  if◌then◌else◌, ok, ◌>>=◌, ◌>>◌,
}
use dp1_feed_v.Errors.{Result, not_found}
use dp1_feed_v.Models.{Bytes, UuidValue, Time, Row, Playlist}
use dp1_feed_v.Platform.{Platform}
use dp1_feed_v.Auth.{or_error}
use dp1_feed_v.Store.Tables.{
  DocTable, holds, find_id, find_slug, require_document, insert_document, update_document,
  delete_document,
}

-- A row of `playlist_item_index`.
pub record ItemRow : Type 0 where
  pub item_id : UuidValue
  pub playlist_id : UuidValue
  pub playlist_created_at : Time
  pub position : ℕ

-- A row of `playlist_group_members` or `channel_members`.
pub record Member : Type 0 where
  pub container : UuidValue
  pub playlist_id : UuidValue
  pub position : ℕ

-- A row of `playlist_sources`.
pub record Source : Type 0 where
  pub uri : String
  pub playlist_id : UuidValue

pub record Db : Type 0 where
  pub playlists : DocTable
  pub groups : DocTable
  pub channels : DocTable
  pub items : List ItemRow
  pub group_members : List Member
  pub channel_members : List Member
  pub sources : List Source

-- `insertPlaylistItemIndexFromBody`: an element without a UUID id, or an id that a playlist repeats,
-- fails the statement. `seen` are the ids of the elements before.
unfoldable pub item_rows :
    Platform → UuidValue → Time → ℕ → List UuidValue → List (Option String) → Option (List ItemRow)
item_rows p id created position seen [] = some []
item_rows p id created position seen (none ∷ elems) = none
item_rows p id created position seen (some s ∷ elems) =
    let rest = λ (item : UuidValue). item_rows p id created (suc position) (item ∷ seen) elems in
    elim (p.cast_uuid s) [
      | none ↦ none
      | some item ↦ if holds item seen then none else elim (rest item) [
        | none ↦ none
        | some rows ↦ some (
            record {
              item_id = item;
              playlist_id = id;
              playlist_created_at = created;
              position = position;
            }
            ∷ rows)
      ]
    ]

unfoldable pub items_elsewhere : UuidValue → List ItemRow → List ItemRow
items_elsewhere id [] = []
items_elsewhere id (r ∷ rows) =
    let rest = items_elsewhere id rows in if nat_eq r.playlist_id id then rest else r ∷ rest

unfoldable pub members_elsewhere : UuidValue → List Member → List Member
members_elsewhere id [] = []
members_elsewhere id (m ∷ ms) =
    let rest = members_elsewhere id ms in if nat_eq m.playlist_id id then rest else m ∷ rest

unfoldable pub sources_elsewhere : UuidValue → List Source → List Source
sources_elsewhere id [] = []
sources_elsewhere id (s ∷ ss) =
    let rest = sources_elsewhere id ss in if nat_eq s.playlist_id id then rest else s ∷ rest

-- The distinct channels that list a playlist, sorted (`collectDistinctChannels`).
insert_distinct : UuidValue → List UuidValue → List UuidValue
insert_distinct id [] = id ∷ []
insert_distinct id (j ∷ ids) =
    let rest = insert_distinct id ids in
    if nat_eq id j then j ∷ ids else if leb id j then id ∷ j ∷ ids else j ∷ rest

unfoldable pub channels_listing : UuidValue → List Member → List UuidValue
unfolding insert_distinct
channels_listing id [] = []
channels_listing id (m ∷ ms) =
    let rest = channels_listing id ms in
    if nat_eq m.playlist_id id then insert_distinct m.container rest else rest

pub record PlaylistRecord : Type 0 where
  pub row : Row
  pub body : Playlist

-- `listedPlaylistSQL` restricts the lookup by slug
unfoldable pub find_listed : Platform → String → List Row → Option Row
find_listed p slug [] = none
find_listed p slug (r ∷ rows) =
    if r.slug == slug && p.is_listed r.raw then some r else find_listed p slug rows

module _ (p : Platform) where
  unfoldable pub get_playlist : String → Db → Result PlaylistRecord
  get_playlist key db = do
    r ← or_error (not_found ∷ []) (elim (p.parse_uuid key) [
      | some id ↦ find_id id db.playlists.rows
      | none ↦ find_listed p key db.playlists.rows
    ])
    body ← or_error [] (p.decode_playlist r.raw)
    ok (record { row = r; body = body })

  unfoldable pub create_playlist : Time → UuidValue → String → Bytes → Db → Result Db
  unfolding item_rows
  create_playlist now id slug raw db = do
    require_document raw
    t ← insert_document db.playlists (record {
      id = id;
      slug = slug;
      raw = p.jsonb_text raw;
      created_at = now;
      updated_at = now;
    })
    rows ← or_error [] (item_rows p id now 0 [] (p.body_item_ids raw))
    ok (record db { playlists = t; items = rows ++ db.items })

  -- `resolveDocumentID`
  unfoldable pub resolve_document_id : String → List Row → Result UuidValue
  resolve_document_id key rows = elim (p.parse_uuid key) [
    | some id ↦ ok id
    | none ↦ do r ← or_error (not_found ∷ []) (find_slug key rows); ok r.id
  ]

  -- The listing is the second part: what the read after the commit found, if it was asked for and
  -- succeeded (`read`).
  unfoldable pub update_playlist :
      Time → String → Bytes → Time → Bool → Bool → Db → Result (Db × List UuidValue)
  unfolding item_rows
  update_playlist now key raw expected report read db = do
    require_document raw
    id ← resolve_document_id key db.playlists.rows
    before ← or_error (not_found ∷ []) (find_id id db.playlists.rows)
    t ← update_document now id (p.jsonb_text raw) (p.body_slug raw) expected db.playlists
    rows ← or_error [] (item_rows p id before.created_at 0 [] (p.body_item_ids raw))
    ok (
      record db { playlists = t; items = rows ++ items_elsewhere id db.items },
      if report && read then channels_listing id db.channel_members else [],
    )

  -- The rows that refer to the playlist go with it (ON DELETE CASCADE). The listing is read from the
  -- state before the delete.
  unfoldable pub delete_playlist : String → Time → Bool → Bool → Db → Result (Db × List UuidValue)
  delete_playlist key expected report read db = do
    id ← resolve_document_id key db.playlists.rows
    t ← delete_document id expected db.playlists
    ok (
      record db {
        playlists = t;
        items = items_elsewhere id db.items;
        group_members = members_elsewhere id db.group_members;
        channel_members = members_elsewhere id db.channel_members;
        sources = sources_elsewhere id db.sources;
      },
      if report && read then channels_listing id db.channel_members else [],
    )
