-- ===== src/Exec/Reads.antt =====
-- The list reads of executor.go: the store's lists behind the switch for the extensions.
use dp1_feed_v.Shared.{
  String, ◌||◌, ◌==◌, Option, List, [], ◌∷◌, map, ok, require, ◌>>=◌, ◌>>◌, trim_space,
}
use dp1_feed_v.Errors.{Result, extensions_disabled}
use dp1_feed_v.Models.{UuidValue, Row, Playlist, Group, Channel}
use dp1_feed_v.Platform.{Platform}
use dp1_feed_v.Store.{Db, ItemRow}
use dp1_feed_v.Store.Cursors.{Codec}
use dp1_feed_v.Store.Lists.{ListParams, list_playlist_groups, list_channels}
use dp1_feed_v.Store.Lists.Memberships.{list_playlists}
use dp1_feed_v.Store.Lists.Items.{get_playlist_item, list_playlist_items}
use dp1_feed_v.Exec.Settings.{Impl}

module _ (c : Codec) (p : Platform) (e : Impl) where
  unfoldable pub list_playlist_records : ListParams → Db → Result (List (Row × Playlist) × String)
  list_playlist_records q db = do
    require (e.extensions_enabled || trim_space q.channel_filter == "") (extensions_disabled ∷ [])
    list_playlists c p q db

  unfoldable pub list_group_records : ListParams → Db → Result (List (Row × Group) × String)
  list_group_records q db = list_playlist_groups c p q db

  unfoldable pub list_channel_records : ListParams → Db → Result (List (Row × Channel) × String)
  list_channel_records q db = do
    require e.extensions_enabled (extensions_disabled ∷ [])
    list_channels c p q db

  unfoldable pub list_items :
      {Item : Type 0} → (ItemRow → Option Item) → ListParams → Db → Result (List Item × String)
  list_items decode_item q db = do
    require (e.extensions_enabled || q.channel_filter == "") (extensions_disabled ∷ [])
    page ← list_playlist_items c p decode_item q db
    ok (map (λ r. r.1) page.0, page.1)

-- `GetPlaylistItem`
unfoldable pub item_by_id :
    {Item : Type 0} → Platform → (ItemRow → Option Item) → UuidValue → Db → Result Item
item_by_id p decode_item id db = do r ← get_playlist_item p decode_item id db; ok (r.1)
