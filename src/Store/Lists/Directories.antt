-- ===== src/Store/Lists/Directories.antt =====
-- A client that follows the tokens of a created_at list reads every row that the filters keep, in order.
use dp1_feed_v.Shared.{
  ℕ, ℤ, pos, negsuc, ◌≡◌, ◌<◌, ◌≤◌, refl, sym, ap, ◌∙◌, subst, String, Bool, true, false, ◌&&◌,
  ◌==◌, Option, none, some, List, ok, ◌>>=◌, trim_space, length, all, filter, ltb, nat_eq, leb,
  Bool-cases, inl, inr, ok-injective, ltb→lt, and-left, and-right, arith, all-filter, filter-true,
}
use dp1_feed_v.Errors.{Result}
use dp1_feed_v.Models.{Bytes, Row, Playlist, Group, Channel}
use dp1_feed_v.Platform.{Platform}
use dp1_feed_v.Store.Playlists.{Db}
use dp1_feed_v.Store.Keyset.{SortOrder, past, order_by}
use dp1_feed_v.Store.Keyset.Order.{IsDistinct, filter-IsDistinct}
use dp1_feed_v.Store.Keyset.Lists.{read_rows, follow_pages}
use dp1_feed_v.Store.Keyset.Lists.Walks.{follow_pages-page}
use dp1_feed_v.Store.Cursors.{Codec, CursorPayload, encode_cursor}
use dp1_feed_v.Store.Cursors.Tokens.{IsCodec, json_time_end, uuid_end, decode_cursor-encode_cursor}
use dp1_feed_v.Store.Lists.{
  ListParams, resolve_list_limit, row_key, created_at_boundary, created_at_token, created_at_list,
  playlist_directory_filters, list_playlist_directory, list_playlist_groups, list_channels,
  playlist_group_filters, channel_filters,
}
use dp1_feed_v.Store.Lists.Memberships.{list_playlists}

-- A row whose time and id a cursor can carry.
unfoldable pub is_citable : Row → Bool
is_citable r =
    (ltb 0 r.created_at && ltb r.created_at json_time_end) && (ltb 0 r.id && ltb r.id uuid_end)

-- The rows that a filter keeps, in the order of a list.
abbrev pub directory : SortOrder → (Row → Bool) → List Row → List Row
directory o keep rows = order_by row_key o (filter keep rows)

pub resolve_list_limit_bounds : (z : ℤ) (n : ℕ) → resolve_list_limit z ≡ ok n → (0 < n) × (n ≤ 512)
unfolding resolve_list_limit
resolve_list_limit_bounds (negsuc m) n h =
    let e : 100 ≡ n = ok-injective h in (omega (arith, e), omega (arith, e))
resolve_list_limit_bounds (pos m) n h = elim (Bool-cases (nat_eq m 0)) [
  | inl z ↦ let e : 100 ≡ n = ok-injective (rw z at h) in (omega (arith, e), omega (arith, e))
  | inr s ↦ elim (Bool-cases (leb m 512)) [
    | inl le ↦
        let e : m ≡ n = ok-injective (rw (s, le) at h) in (ground (arith, e), ground (arith, e))
    | inr gt ↦ (let bad = rw (s, gt) at h in cc)
  ]
]

module _ (c : Codec) (codec : IsCodec c) where
  token-boundary :
      (r : Row)
      → is_citable r ≡ true
      → ((created_at_token c r == "") ≡ false)
        × (created_at_boundary c (created_at_token c r) ≡ ok (some (row_key r)))
  unfolding is_citable created_at_token created_at_boundary encode_cursor
  token-boundary r h =
      let t = and-left (ltb 0 r.created_at && ltb r.created_at json_time_end) _ h in
      let i = and-right (ltb 0 r.created_at && ltb r.created_at json_time_end) _ h in
      let u = ltb→lt r.created_at json_time_end (and-right (ltb 0 r.created_at) _ t) in
      let payload : CursorPayload = record { created_at = r.created_at; id = r.id } in
      let nonempty = codec.cursor_nonempty payload u in
      let back =
        decode_cursor-encode_cursor c codec payload
          (ltb→lt 0 r.created_at (and-left (ltb 0 r.created_at) _ t)) u
          (ltb→lt 0 r.id (and-left (ltb 0 r.id) _ i))
          (ltb→lt r.id uuid_end (and-right (ltb 0 r.id) _ i)) in
      (nonempty, rw nonempty (rw (back, encode_cursor) refl))

  follow_pages-created_at_list :
      {B : Type 0} (decode : Bytes → Option B) (o : SortOrder) (limit fuel : ℕ) (keep : Row → Bool)
      (rows : List Row) (out : List (Row × B))
      → 0 < limit
      → IsDistinct row_key rows
      → all is_citable rows ≡ true
      → length (order_by row_key o (filter keep rows)) < fuel
      → read_rows (λ (r : Row). decode r.raw) (order_by row_key o (filter keep rows)) ≡ ok out
      → follow_pages (created_at_list c decode o limit keep rows) fuel "" ≡ ok out
  unfolding created_at_list past created_at_boundary
  follow_pages-created_at_list decode o limit fuel keep rows out l d v f h =
      let sorted = order_by row_key o (filter keep rows) in
      let whole : filter (past row_key o none) sorted ≡ sorted = filter-true sorted in
      follow_pages-page row_key (λ r. decode r.raw) (created_at_token c) o (created_at_boundary c)
        is_citable token-boundary fuel limit (filter keep rows) "" none out l
        (filter-IsDistinct row_key keep rows d) (all-filter is_citable keep rows v) refl
        (subst (λ (xs : List Row). length xs < fuel) (sym whole) f)
        (ap (read_rows (λ r. decode r.raw)) whole ∙ h)

  -- The page under a limit that the store resolves first.
  resolved :
      {B : Type 0} (z : ℤ) (limit fuel : ℕ) (get : ℕ → String → Result (List (Row × B) × String))
      (out : List (Row × B))
      → resolve_list_limit z ≡ ok limit
      → follow_pages (get limit) fuel "" ≡ ok out
      → follow_pages (λ cursor. resolve_list_limit z >>= λ n. get n cursor) fuel "" ≡ ok out
  resolved z limit fuel get out r h =
      ap (λ (m : Result ℕ). follow_pages (λ cursor. m >>= λ n. get n cursor) fuel "") r ∙ h

  module _ (p : Platform) (q : ListParams) (db : Db) (limit fuel : ℕ) where
    -- With a codec that reads back what it wrote, a limit that the store accepts, and groups that differ
    -- in time or id, whose times and ids a token can carry, and whose bodies decode where the filter
    -- keeps them: following the tokens of `ListPlaylistGroups` from the first page on, for more pages
    -- than there are such groups, gives each of them once, in the order by time and id.
    pub follow_pages-list_playlist_groups :
        (out : List (Row × Group))
        → resolve_list_limit q.limit ≡ ok limit
        → IsDistinct row_key db.groups.rows
        → all is_citable db.groups.rows ≡ true
        → length (directory q.sort (playlist_group_filters p q) db.groups.rows) < fuel
        → read_rows
            (λ (r : Row). p.decode_group r.raw)
            (directory q.sort (playlist_group_filters p q) db.groups.rows)
          ≡ ok out
        → follow_pages
            (λ cursor. list_playlist_groups c p (record q { cursor = cursor }) db)
            fuel
            ""
          ≡ ok out
    unfolding list_playlist_groups playlist_group_filters
    follow_pages-list_playlist_groups out r d v f h =
        resolved q.limit limit fuel
          (λ n cursor.
            created_at_list c p.decode_group q.sort n (playlist_group_filters p q) db.groups.rows
              cursor)
          out r
          (follow_pages-created_at_list p.decode_group q.sort limit fuel
            (playlist_group_filters p q) db.groups.rows out
            (resolve_list_limit_bounds q.limit limit r).0 d v f h)

    -- With a codec that reads back what it wrote, a limit that the store accepts, and channels that
    -- differ in time or id, whose times and ids a token can carry, and whose bodies decode where the
    -- filters keep them: following the tokens of `ListChannels` from the first page on, for more pages
    -- than there are channels that the curator and publisher filters keep, gives each of them once, in
    -- the order by time and id.
    pub follow_pages-list_channels :
        (out : List (Row × Channel))
        → resolve_list_limit q.limit ≡ ok limit
        → IsDistinct row_key db.channels.rows
        → all is_citable db.channels.rows ≡ true
        → length (directory q.sort (channel_filters p q) db.channels.rows) < fuel
        → read_rows
            (λ (r : Row). p.decode_channel r.raw)
            (directory q.sort (channel_filters p q) db.channels.rows)
          ≡ ok out
        → follow_pages (λ cursor. list_channels c p (record q { cursor = cursor }) db) fuel ""
          ≡ ok out
    unfolding list_channels channel_filters
    follow_pages-list_channels out r d v f h =
        resolved q.limit limit fuel
          (λ n cursor.
            created_at_list c p.decode_channel q.sort n (channel_filters p q) db.channels.rows
              cursor)
          out r
          (follow_pages-created_at_list p.decode_channel q.sort limit fuel (channel_filters p q)
            db.channels.rows out (resolve_list_limit_bounds q.limit limit r).0 d v f h)

    -- Without a container filter, with a codec that reads back what it wrote, a limit that the store
    -- accepts, and playlists that differ in time or id, whose times and ids a token can carry, and whose
    -- bodies decode where the filters keep them: following the tokens of `ListPlaylists` from the first
    -- page on, for more pages than there are listed playlists that the curator filter keeps, gives each
    -- of them once, in the order by time and id.
    pub follow_pages-list_playlists :
        (out : List (Row × Playlist))
        → (trim_space q.channel_filter == "") ≡ true
        → (trim_space q.playlist_group_filter == "") ≡ true
        → resolve_list_limit q.limit ≡ ok limit
        → IsDistinct row_key db.playlists.rows
        → all is_citable db.playlists.rows ≡ true
        → length (
            directory q.sort
              (playlist_directory_filters p (trim_space q.curator_filter))
              db.playlists.rows)
          < fuel
        → read_rows
            (λ (r : Row). p.decode_playlist r.raw)
            (directory q.sort
              (playlist_directory_filters p (trim_space q.curator_filter))
              db.playlists.rows)
          ≡ ok out
        → follow_pages (λ cursor. list_playlists c p (record q { cursor = cursor }) db) fuel ""
          ≡ ok out
    unfolding list_playlists list_playlist_directory
    follow_pages-list_playlists out e g r d v f h =
        let keep = playlist_directory_filters p (trim_space q.curator_filter) in
        rw (e, g, list_playlists)
          (resolved q.limit limit fuel
            (λ n cursor. created_at_list c p.decode_playlist q.sort n keep db.playlists.rows cursor)
            out r
            (follow_pages-created_at_list p.decode_playlist q.sort limit fuel keep db.playlists.rows
              out (resolve_list_limit_bounds q.limit limit r).0 d v f h))
