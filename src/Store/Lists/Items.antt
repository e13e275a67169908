-- ===== src/Store/Lists/Items.antt =====
-- The item lists of internal/store/pg/store.go: `GetPlaylistItems`, `ListPlaylistItems` and
-- `GetPlaylistItem`. The column `item`, and the decoding of its JSON, is a function of the row.
pub mod Visible
pub mod Copies
use dp1_feed_v.Shared.{
  ℕ, String, Bool, true, false, not, ◌&&◌, ◌||◌, ◌==◌, Option, none, some, List, [], ◌∷◌, any,
  filter, nat_eq, if◌then◌else◌, ok, err, ◌>>=◌, wrap, trim_space,
}
use dp1_feed_v.Errors.{Result, not_found, invalid_cursor}
use dp1_feed_v.Models.{UuidValue, Row}
use dp1_feed_v.Platform.{Platform}
use dp1_feed_v.Auth.{or_error}
use dp1_feed_v.Store.Tables.{find_id}
use dp1_feed_v.Store.Keyset.{SortOrder, ascending, Key, order_by}
use dp1_feed_v.Store.Keyset.Lists.{read_rows, keyset_page}
use dp1_feed_v.Store.Cursors.{Codec, encode_playlist_item_cursor, decode_playlist_item_cursor}
use dp1_feed_v.Store.Playlists.{Db, Member, ItemRow, find_listed}
use dp1_feed_v.Store.Lists.{ListParams, resolve_list_limit}
use dp1_feed_v.Store.Lists.Memberships.{resolve_container}

abbrev pub position_key : ItemRow → Key
position_key i = record { first = i.position; second = 0; third = 0 }

abbrev pub item_key : ItemRow → Key
item_key i = record { first = i.playlist_created_at; second = i.position; third = i.item_id }

-- The order in which `GetPlaylistItem` takes the first of several copies.
abbrev pub copy_key : ItemRow → Key
copy_key i = record { first = i.playlist_created_at; second = i.playlist_id; third = 0 }

-- A listed playlist has this id.
unfoldable pub in_listed_playlist : Platform → List Row → ItemRow → Bool
in_listed_playlist p playlists i = elim (find_id i.playlist_id playlists) [
  | none ↦ false
  | some r ↦ p.is_listed r.raw
]

-- A row of the membership table puts the item's playlist into the container.
unfoldable pub in_container : UuidValue → List Member → ItemRow → Bool
in_container container ms i =
    any (λ m. nat_eq m.playlist_id i.playlist_id && nat_eq m.container container) ms

-- The items that a list is about: those of listed playlists, or with a container filter those of its
-- members. `none` is a container that does not exist.
unfoldable pub item_scope : Platform → String → String → Db → Option (ItemRow → Bool)
unfolding in_listed_playlist in_container
item_scope p channel group db =
    if channel == "" && group == ""
    then some (in_listed_playlist p db.playlists.rows)
    else if not (channel == "")
    then elim (resolve_container p channel db.channels.rows) [
      | none ↦ none
      | some r ↦ some (in_container r.id db.channel_members)
    ]
    else elim (resolve_container p group db.groups.rows) [
      | none ↦ none
      | some r ↦ some (in_container r.id db.group_members)
    ]

module _ {Item : Type 0} (p : Platform) (decode_item : ItemRow → Option Item) where
  -- By id the playlist need not be listed, and by slug it must.
  unfoldable pub get_playlist_items : String → Db → Result (List (ItemRow × Item))
  get_playlist_items key db = read_rows decode_item (
      order_by position_key ascending (elim (p.parse_uuid key) [
        | some id ↦ filter (λ i. nat_eq i.playlist_id id) db.items
        | none ↦ elim (find_listed p key db.playlists.rows) [
          | none ↦ []
          | some r ↦ filter (λ i. nat_eq i.playlist_id r.id) db.items
        ]
      ]))

  -- The oldest listed copy.
  unfoldable pub get_playlist_item : UuidValue → Db → Result (ItemRow × Item)
  unfolding in_listed_playlist
  get_playlist_item id db =
      elim (order_by copy_key ascending
        (filter (λ i. nat_eq i.item_id id && in_listed_playlist p db.playlists.rows i) db.items)) [
          | [] ↦ err (not_found ∷ [])
          | i ∷ rest ↦ do b ← or_error [] (decode_item i); ok (i, b)
        ]

module _ (c : Codec) where
  unfoldable pub item_boundary : String → Result (Option Key)
  item_boundary cursor = if cursor == "" then ok none else do
    i ← wrap (invalid_cursor ∷◌) (decode_playlist_item_cursor c cursor)
    ok (some (record { first = i.created_at; second = i.position; third = i.item_id }))

  unfoldable pub item_token : ItemRow → String
  item_token i =
      encode_playlist_item_cursor c
        (record { created_at = i.playlist_created_at; position = i.position; item_id = i.item_id })

  -- The cursor is decoded before the container is looked up.
  unfoldable pub list_playlist_items :
      {Item : Type 0}
      → Platform
      → (ItemRow → Option Item)
      → ListParams
      → Db
      → Result (List (ItemRow × Item) × String)
  unfolding item_boundary item_token item_scope
  list_playlist_items p decode_item q db = do
    limit ← resolve_list_limit q.limit
    b ← item_boundary q.cursor
    elim (item_scope p (trim_space q.channel_filter) (trim_space q.playlist_group_filter) db) [
      | none ↦ ok ([], "")
      | some keep ↦
          keyset_page item_key decode_item item_token q.sort limit b (filter keep db.items)
    ]
