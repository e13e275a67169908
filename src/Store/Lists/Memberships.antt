-- ===== src/Store/Lists/Memberships.antt =====
-- Lists of the playlists of one channel or playlist group, in the order of the membership positions:
-- `ListPlaylists` with a container filter, `ListPlaylistsInGroup` and `ListPlaylistsInChannel`.
pub mod Orders
pub mod Revisions
use dp1_feed_v.Shared.{
  ℕ, String, Bool, true, false, not, ◌&&◌, ◌||◌, ◌==◌, Option, none, some, List, [], ◌∷◌, nat_eq,
  if◌then◌else◌, ok, err, require, ◌>>=◌, ◌>>◌, wrap, trim_space,
}
use dp1_feed_v.Errors.{Result, invalid_cursor, invalid_list_filter}
use dp1_feed_v.Models.{UuidValue, Time, Row, Playlist}
use dp1_feed_v.Platform.{Platform}
use dp1_feed_v.Store.Tables.{find_id, find_slug}
use dp1_feed_v.Store.Keyset.{SortOrder, unset, ascending, descending, Key, order_by}
use dp1_feed_v.Store.Keyset.Lists.{read_rows, keyset_page}
use dp1_feed_v.Store.Cursors.{
  Codec, MembershipCursorPayload, show_sort, encode_membership_cursor, decode_membership_cursor,
  membership_kind_channel, membership_kind_playlist_group,
}
use dp1_feed_v.Store.Playlists.{Db, Member}
use dp1_feed_v.Store.Containers.{get_playlist_group, get_channel}
use dp1_feed_v.Store.Lists.{ListParams, resolve_list_limit, list_playlist_directory}

-- `FROM … m JOIN playlists p ON p.id = m.playlist_id WHERE m.… = $2`, with the positions.
unfoldable pub member_rows : UuidValue → List Member → List Row → List (Row × ℕ)
member_rows container [] rows = []
member_rows container (m ∷ ms) rows =
    let rest = member_rows container ms rows in
    if nat_eq m.container container
    then elim (find_id m.playlist_id rows) [ none ↦ rest | some r ↦ (r, m.position) ∷ rest ]
    else rest

abbrev pub member_key : Row × ℕ → Key
member_key m = record { first = m.1; second = 0; third = 0 }

-- `if sort == "" { sort = SortAsc }`
unfoldable pub canonical : SortOrder → SortOrder
canonical unset = ascending
canonical ascending = ascending
canonical descending = descending

unfoldable pub resolve_container : Platform → String → List Row → Option Row
resolve_container p key rows = elim (p.parse_uuid key) [
  | some id ↦ find_id id rows
  | none ↦ find_slug key rows
]

-- A cursor that is presented must be for this kind, container and direction, and for the revision that
-- the container has now.
unfoldable pub check_membership_cursor :
    String → Row → SortOrder → Option (MembershipCursorPayload ℕ) → Result (Option Key)
check_membership_cursor kind container sort none = ok none
check_membership_cursor kind container sort (some cur) = do
  require (cur.kind == kind && nat_eq cur.container container.id && cur.sort == show_sort sort)
      (invalid_cursor ∷ [])
  require (nat_eq cur.rev container.updated_at) (invalid_cursor ∷ [])
  ok (some (record { first = cur.position; second = 0; third = 0 }))

-- The records alone.
abbrev pub records_of : List ((Row × ℕ) × Playlist) → List (Row × Playlist)
records_of [] = []
records_of ((m, body) ∷ out) = (m.0, body) ∷ records_of out

module _ (c : Codec) where
  unfoldable pub membership_cursor_of : String → Result (Option (MembershipCursorPayload ℕ))
  membership_cursor_of cursor =
      if cursor == ""
      then ok none
      else do m ← wrap (invalid_cursor ∷◌) (decode_membership_cursor c cursor); ok (some m)

  unfoldable pub membership_token : String → Row → SortOrder → Row × ℕ → String
  membership_token kind container sort m = encode_membership_cursor c (record {
    kind = kind;
    container = container.id;
    sort = show_sort sort;
    rev = container.updated_at;
    position = m.1;
  })

  module _ (p : Platform) where
    -- The page of a container that was found.
    unfoldable pub membership_page :
        String
        → SortOrder
        → ℕ
        → Option Key
        → List Member
        → List Row
        → Row
        → Result (List ((Row × ℕ) × Playlist) × String)
    unfolding membership_token
    membership_page kind sort limit boundary ms rows container =
        keyset_page member_key (λ m. p.decode_playlist (m.0).raw)
          (membership_token kind container sort) sort limit boundary
          (member_rows container.id ms rows)

    -- One kind of container, with its two tables. The cursor is decoded before the container is looked up,
    -- and an unknown container is an empty page.
    unfoldable pub list_container :
        String
        → String
        → List Row
        → List Member
        → ListParams
        → ℕ
        → Db
        → Result (List ((Row × ℕ) × Playlist) × String)
    unfolding membership_cursor_of membership_page
    list_container kind key containers ms q limit db = do
      cur ← membership_cursor_of q.cursor
      elim (resolve_container p key containers) [
        | none ↦ ok ([], "")
        | some container ↦ do
          boundary ← check_membership_cursor kind container (canonical q.sort) cur
          membership_page kind (canonical q.sort) limit boundary ms db.playlists.rows container
      ]

    unfoldable pub list_playlists_by_membership :
        ListParams → ℕ → String → String → Db → Result (List ((Row × ℕ) × Playlist) × String)
    unfolding list_container
    list_playlists_by_membership q limit channel group db =
        if not (channel == "")
        then list_container membership_kind_channel channel db.channels.rows db.channel_members q
            limit db
        else list_container membership_kind_playlist_group group db.groups.rows db.group_members q
            limit db

    unfoldable pub list_playlists : ListParams → Db → Result (List (Row × Playlist) × String)
    list_playlists q db = do
      limit ← resolve_list_limit q.limit
      let channel = trim_space q.channel_filter in
          let group = trim_space q.playlist_group_filter in
          if not (channel == "") || not (group == "")
          then (do
            require (trim_space q.curator_filter == "") (invalid_list_filter ∷ [])
            page ← list_playlists_by_membership q limit channel group db
            ok (records_of (page.0), page.1))
          else list_playlist_directory c p q limit db

-- `ListPlaylistsInGroup` and `ListPlaylistsInChannel`: the container must exist and be readable; its
-- members are then looked up by the same key.
module _ (p : Platform) where
  members_in : String → List Row → List Member → List Row → List (Row × ℕ)
  members_in key containers ms rows = elim (p.parse_uuid key) [
    | some id ↦ member_rows id ms rows
    | none ↦ elim (find_slug key containers) [ none ↦ [] | some r ↦ member_rows r.id ms rows ]
  ]

  unfoldable pub list_playlists_in_group : String → Db → Result (List (Row × Playlist))
  unfolding members_in
  list_playlists_in_group key db = do
    g ← get_playlist_group p key db
    out ←
        read_rows (λ (m : Row × ℕ). p.decode_playlist (m.0).raw)
          (order_by member_key ascending
            (members_in key db.groups.rows db.group_members db.playlists.rows))
    ok (records_of out)

  unfoldable pub list_playlists_in_channel : String → Db → Result (List (Row × Playlist))
  unfolding members_in
  list_playlists_in_channel key db = do
    ch ← get_channel p key db
    out ←
        read_rows (λ (m : Row × ℕ). p.decode_playlist (m.0).raw)
          (order_by member_key ascending
            (members_in key db.channels.rows db.channel_members db.playlists.rows))
    ok (records_of out)
