-- ===== src/Store/Lists.antt =====
-- internal/store/pagination.go, and the created_at lists of internal/store/pg/store.go: playlists,
-- playlist groups and channels by `(created_at, id)`, under the filters of each.
pub mod Memberships
pub mod Items
pub mod Directories
pub mod Limits
use dp1_feed_v.Shared.{
  ℕ, zero, ℤ, pos, negsuc, String, Bool, true, false, not, ◌&&◌, ◌||◌, ◌==◌, Option, none, some,
  List, [], ◌∷◌, nat_eq, leb, if◌then◌else◌, Outcome, ok, err, require, ◌>>=◌, ◌>>◌, wrap,
  trim_space, filter,
}
use dp1_feed_v.Errors.{Result, list_limit_exceeded, invalid_cursor, invalid_list_filter}
use dp1_feed_v.Models.{Bytes, Row, Playlist, Group, Channel}
use dp1_feed_v.Platform.{Platform}
use dp1_feed_v.Store.Keyset.{SortOrder, Key}
use dp1_feed_v.Store.Keyset.Lists.{list_page}
use dp1_feed_v.Store.Cursors.{Codec, encode_cursor, decode_cursor}
use dp1_feed_v.Store.Playlists.{Db}

abbrev pub store_default_list_limit : ℕ
store_default_list_limit = 100

abbrev pub store_max_list_limit : ℕ
store_max_list_limit = 512

unfoldable pub resolve_list_limit : ℤ → Result ℕ
resolve_list_limit (negsuc n) = ok store_default_list_limit
resolve_list_limit (pos n) =
    if nat_eq n 0
    then ok store_default_list_limit
    else if leb n store_max_list_limit
    then ok n
    else err (list_limit_exceeded ∷ [])

-- `ListPlaylistsParams`, and the filters of `ListPlaylistItemsParams`.
pub record ListParams : Type 0 where
  pub limit : ℤ
  pub cursor : String
  pub sort : SortOrder
  pub channel_filter : String
  pub playlist_group_filter : String
  pub curator_filter : String
  pub publisher_filter : String

abbrev pub row_key : Row → Key
row_key r = record { first = r.created_at; second = r.id; third = 0 }

-- A filter that is set only for a value other than the empty text.
unfoldable pub when_set : String → (String → Bool) → Bool
when_set value test = value == "" || test value

-- `body -> … = $n`, which a missing member does not satisfy
unfoldable pub holds_text : Option String → String → Bool
holds_text none value = false
holds_text (some s) value = s == value

module _ (p : Platform) where
  -- `playlistDirectoryFilters`
  unfoldable pub playlist_directory_filters : String → Row → Bool
  unfolding when_set
  playlist_directory_filters curator r =
      p.is_listed r.raw && when_set curator (p.curators_hold r.raw)

  -- `groupCuratorFilter`, if it is set.
  unfoldable pub playlist_group_filters : ListParams → Row → Bool
  unfolding when_set holds_text
  playlist_group_filters q r =
      when_set (trim_space q.curator_filter) (holds_text (p.body_curator r.raw))

  -- `curatorsKeyFilter` and `publisherKeyFilter`, each if it is set.
  unfoldable pub channel_filters : ListParams → Row → Bool
  unfolding when_set holds_text
  channel_filters q r =
      when_set (trim_space q.curator_filter) (p.curators_hold r.raw)
      && when_set (trim_space q.publisher_filter) (holds_text (p.body_publisher_key r.raw))

module _ (c : Codec) where
  -- The cursor part of `createdAtListQuery`.
  unfoldable pub created_at_boundary : String → Result (Option Key)
  created_at_boundary cursor = if cursor == "" then ok none else do
    p ← wrap (invalid_cursor ∷◌) (decode_cursor c cursor)
    ok (some (record { first = p.created_at; second = p.id; third = 0 }))

  unfoldable pub created_at_token : Row → String
  created_at_token r = encode_cursor c (record { created_at = r.created_at; id = r.id })

  -- `createdAtListQuery`, and the reading of its rows.
  unfoldable pub created_at_list :
      {B : Type 0}
      → (Bytes → Option B)
      → SortOrder
      → ℕ
      → (Row → Bool)
      → List Row
      → String
      → Result (List (Row × B) × String)
  unfolding created_at_boundary created_at_token
  created_at_list decode o limit keep rows cursor =
      list_page row_key (λ r. decode r.raw) created_at_token o created_at_boundary limit
        (filter keep rows) cursor

  module _ (p : Platform) where
    -- `ListPlaylists` without a container filter.
    unfoldable pub list_playlist_directory :
        ListParams → ℕ → Db → Result (List (Row × Playlist) × String)
    unfolding playlist_directory_filters created_at_list
    list_playlist_directory q limit db =
        created_at_list p.decode_playlist q.sort limit
          (playlist_directory_filters p (trim_space q.curator_filter)) db.playlists.rows q.cursor

    unfoldable pub list_playlist_groups : ListParams → Db → Result (List (Row × Group) × String)
    unfolding created_at_list
    list_playlist_groups q db = do
      limit ← resolve_list_limit q.limit
      created_at_list p.decode_group q.sort limit (playlist_group_filters p q) db.groups.rows
          q.cursor

    unfoldable pub list_channels : ListParams → Db → Result (List (Row × Channel) × String)
    unfolding created_at_list
    list_channels q db = do
      limit ← resolve_list_limit q.limit
      created_at_list p.decode_channel q.sort limit (channel_filters p q) db.channels.rows q.cursor
