-- ===== src/Store/Lists/Items/Visible.antt =====
-- A client that follows the tokens of the item list reads every item in scope, in order.
use dp1_feed_v.Shared.{
  ℕ, ◌≡◌, ◌<◌, refl, sym, ap, ◌∙◌, subst, Bool, true, false, ◌&&◌, ◌==◌, Option, none, some, List,
  ok, length, all, filter, ltb, leb, trim_space, all-filter, filter-true, arith,
}
use dp1_feed_v.Platform.{Platform}
use dp1_feed_v.Store.Playlists.{Db, ItemRow}
use dp1_feed_v.Store.Keyset.{past, order_by}
use dp1_feed_v.Store.Keyset.Order.{IsDistinct, filter-IsDistinct}
use dp1_feed_v.Store.Keyset.Lists.{read_rows, list_page, follow_pages}
use dp1_feed_v.Store.Keyset.Lists.Walks.{follow_pages-page}
use dp1_feed_v.Store.Cursors.{
  Codec, PlaylistItemCursorPayload, playlist_item_wire, encode_playlist_item_cursor, max_int32,
}
use dp1_feed_v.Store.Cursors.Tokens.{
  IsCodec, json_time_end, uuid_end, decode_playlist_item_cursor-encode_playlist_item_cursor,
}
use dp1_feed_v.Store.Lists.{ListParams, resolve_list_limit}
use dp1_feed_v.Store.Lists.Directories.{resolve_list_limit_bounds}
use dp1_feed_v.Store.Lists.Items.{
  item_key, item_scope, item_boundary, item_token, list_playlist_items,
}

-- An item whose time, position and id a cursor can carry.
unfoldable pub is_citable_item : ItemRow → Bool
is_citable_item i =
    (ltb 0 i.playlist_created_at && ltb i.playlist_created_at json_time_end)
    && (ltb 0 i.item_id && (ltb i.item_id uuid_end && leb i.position max_int32))

module _ (c : Codec) (codec : IsCodec c) where
  token-boundary :
      (i : ItemRow)
      → is_citable_item i ≡ true
      → ((item_token c i == "") ≡ false)
        × (item_boundary c (item_token c i) ≡ ok (some (item_key i)))
  unfolding is_citable_item item_token item_boundary encode_playlist_item_cursor
  token-boundary i h =
      let payload : PlaylistItemCursorPayload ℕ = record {
        created_at = i.playlist_created_at;
        position = i.position;
        item_id = i.item_id;
      } in
      let u : i.playlist_created_at < json_time_end = ground arith in
      let nonempty = codec.item_nonempty (playlist_item_wire payload) u in
      let back =
        decode_playlist_item_cursor-encode_playlist_item_cursor c codec payload (ground arith) u
          (ground arith) (ground arith) (ground arith) in
      (nonempty, rw (nonempty, back, encode_playlist_item_cursor) refl)

  -- With a codec that reads back what it wrote, a limit that the store accepts, a container that exists
  -- where one is asked for, and items that differ in playlist time, position or id, that a token can
  -- name, and that decode where they are in scope: following the tokens of `ListPlaylistItems` from the
  -- first page on, for more pages than there are items in scope, gives each of them once, in the order by
  -- playlist time, position and id.
  pub follow_pages-list_playlist_items :
      {Item : Type 0} (p : Platform) (decode_item : ItemRow → Option Item) (q : ListParams)
      (db : Db) (limit fuel : ℕ) (keep : ItemRow → Bool) (out : List (ItemRow × Item))
      → resolve_list_limit q.limit ≡ ok limit
      → item_scope p (trim_space q.channel_filter) (trim_space q.playlist_group_filter) db
        ≡ some keep
      → IsDistinct item_key db.items
      → all is_citable_item db.items ≡ true
      → length (order_by item_key q.sort (filter keep db.items)) < fuel
      → read_rows decode_item (order_by item_key q.sort (filter keep db.items)) ≡ ok out
      → follow_pages
          (λ cursor. list_playlist_items c p decode_item (record q { cursor = cursor }) db)
          fuel
          ""
        ≡ ok out
  unfolding list_playlist_items list_page item_boundary past
  follow_pages-list_playlist_items p decode_item q db limit fuel keep out r s d v f h =
      let sorted = order_by item_key q.sort (filter keep db.items) in
      let whole : filter (past item_key q.sort none) sorted ≡ sorted = filter-true sorted in
      rw (r, s, list_playlist_items)
        (follow_pages-page item_key decode_item (item_token c) q.sort (item_boundary c)
          is_citable_item token-boundary fuel limit (filter keep db.items) "" none out
          (resolve_list_limit_bounds q.limit limit r).0 (filter-IsDistinct item_key keep db.items d)
          (all-filter is_citable_item keep db.items v) refl
          (subst (λ (xs : List ItemRow). length xs < fuel) (sym whole) f)
          (ap (read_rows decode_item) whole ∙ h))
