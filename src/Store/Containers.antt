-- ===== src/Store/Containers.antt =====
-- The transactions on groups and channels.
use dp1_feed_v.Shared.{
  none, some, ℕ, suc, String, List, [], ◌∷◌, ◌++◌, nat_eq, if◌then◌else◌, ok, ◌>>=◌, ◌>>◌,
}
use dp1_feed_v.Errors.{Result, not_found}
use dp1_feed_v.Auth.{or_error}
use dp1_feed_v.Models.{Bytes, UuidValue, Time, Row, IngestedPlaylist, Group, Channel}
use dp1_feed_v.Platform.{Platform}
use dp1_feed_v.Store.Tables.{
  find_id, find_slug, require_document, require_not_tombstoned, insert_row, update_document,
  delete_document,
}
use dp1_feed_v.Store.Playlists.{Db, Member, resolve_document_id}
use dp1_feed_v.Store.Ingest.{insert_missing_playlists_batch}

-- `PlaylistGroupInput` and `ChannelInput`.
pub record ContainerInput : Type 0 where
  pub id : UuidValue
  pub slug : String
  pub raw : Bytes
  pub playlists : List IngestedPlaylist

-- `insertPlaylistGroupMembersBatch` and `insertChannelMembersBatch`: one row for each reference, in order.
unfoldable pub members : UuidValue → ℕ → List IngestedPlaylist → List Member
members container position [] = []
members container position (q ∷ qs) =
    record { container = container; playlist_id = q.id; position = position }
    ∷ members container (suc position) qs

-- `DELETE FROM … WHERE … = $1` on the membership rows
unfoldable pub members_of_others : UuidValue → List Member → List Member
members_of_others container [] = []
members_of_others container (m ∷ ms) =
    let rest = members_of_others container ms in
    if nat_eq m.container container then rest else m ∷ rest

abbrev pub container_row : Platform → Time → ContainerInput → Row
container_row p now c = record {
  id = c.id;
  slug = c.slug;
  raw = p.jsonb_text c.raw;
  created_at = now;
  updated_at = now;
}

pub record GroupRecord : Type 0 where
  pub row : Row
  pub body : Group

-- `ChannelRecord` without the digest of the members' generations, which only the ETag reads.
pub record ChannelRecord : Type 0 where
  pub row : Row
  pub body : Channel

module _ (p : Platform) where
  -- `WHERE id = $1` for a key that is a UUID, and else `WHERE slug = $1`
  unfoldable pub find_document : String → List Row → Result Row
  find_document key rows =
      or_error (not_found ∷ [])
        (elim (p.parse_uuid key) [ some id ↦ find_id id rows | none ↦ find_slug key rows ])

  unfoldable pub get_playlist_group : String → Db → Result GroupRecord
  get_playlist_group key db = do
    r ← find_document key db.groups.rows
    body ← or_error [] (p.decode_group r.raw)
    ok (record { row = r; body = body })

  unfoldable pub get_channel : String → Db → Result ChannelRecord
  get_channel key db = do
    r ← find_document key db.channels.rows
    body ← or_error [] (p.decode_channel r.raw)
    ok (record { row = r; body = body })

  unfoldable pub create_playlist_group : Time → ContainerInput → Db → Result Db
  create_playlist_group now c db = do
    require_not_tombstoned db.groups c.id
    linked ← insert_missing_playlists_batch p now c.playlists db
    require_document c.raw
    t ← insert_row linked.groups (container_row p now c)
    ok (record linked {
      groups = t;
      group_members = members c.id 0 c.playlists ++ linked.group_members;
    })

  -- The id and slug of the input are not read: the row is the one that `key` names.
  unfoldable pub update_playlist_group : Time → String → ContainerInput → Time → Db → Result Db
  update_playlist_group now key c expected db = do
    id ← resolve_document_id p key db.groups.rows
    linked ← insert_missing_playlists_batch p now c.playlists db
    require_document c.raw
    t ← update_document now id (p.jsonb_text c.raw) (p.body_slug c.raw) expected linked.groups
    ok (record linked {
      groups = t;
      group_members = members id 0 c.playlists ++ members_of_others id linked.group_members;
    })

  -- `deleteDocumentRow`; the membership rows go by ON DELETE CASCADE.
  unfoldable pub delete_playlist_group : String → Time → Db → Result Db
  delete_playlist_group key expected db = do
    id ← resolve_document_id p key db.groups.rows
    t ← delete_document id expected db.groups
    ok (record db { groups = t; group_members = members_of_others id db.group_members })

  unfoldable pub create_channel : Time → ContainerInput → Db → Result Db
  create_channel now c db = do
    require_not_tombstoned db.channels c.id
    linked ← insert_missing_playlists_batch p now c.playlists db
    require_document c.raw
    t ← insert_row linked.channels (container_row p now c)
    ok (record linked {
      channels = t;
      channel_members = members c.id 0 c.playlists ++ linked.channel_members;
    })

  unfoldable pub update_channel : Time → String → ContainerInput → Time → Db → Result Db
  update_channel now key c expected db = do
    id ← resolve_document_id p key db.channels.rows
    linked ← insert_missing_playlists_batch p now c.playlists db
    require_document c.raw
    t ← update_document now id (p.jsonb_text c.raw) (p.body_slug c.raw) expected linked.channels
    ok (record linked {
      channels = t;
      channel_members = members id 0 c.playlists ++ members_of_others id linked.channel_members;
    })

  unfoldable pub delete_channel : String → Time → Db → Result Db
  delete_channel key expected db = do
    id ← resolve_document_id p key db.channels.rows
    t ← delete_document id expected db.channels
    ok (record db { channels = t; channel_members = members_of_others id db.channel_members })
