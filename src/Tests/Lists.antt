-- ===== src/Tests/Lists.antt =====
-- Lists of a small world: two playlists, a channel of both, a group, and tokens of the letters codec.
use dp1_feed_v.Shared.{ℕ, pos, ◌≡◌, refl, true, [], ◌∷◌, ok, trim_space, lower_eq, arith}
use dp1_feed_v.Models.{Row}
use dp1_feed_v.Store.{Db, find_id}
use dp1_feed_v.Store.Keyset.{
  ascending, parse_sort_order, is_descending, key_lt, key_eq, precedes, insert_sorted, order_by,
}
use dp1_feed_v.Store.Keyset.Lists.{read_rows, follow_pages}
use dp1_feed_v.Store.Cursors.{
  CursorPayload, MembershipCursorPayload, PlaylistItemCursorPayload, show_sort, is_sort_text,
  encode_cursor, decode_cursor, encode_membership_cursor, decode_membership_cursor,
  encode_playlist_item_cursor, decode_playlist_item_cursor, membership_kind_channel,
}
use dp1_feed_v.Store.Cursors.Tokens.{
  decode_cursor-encode_cursor, decode_membership_cursor-encode_membership_cursor,
  decode_playlist_item_cursor-encode_playlist_item_cursor,
}
use dp1_feed_v.Store.Lists.{ListParams, resolve_list_limit, when_set, playlist_directory_filters}
use dp1_feed_v.Store.Lists.Directories.{is_citable, follow_pages-list_playlists}
use dp1_feed_v.Store.Lists.Memberships.{
  list_playlists, list_container, member_rows, canonical, resolve_container,
}
use dp1_feed_v.Store.Lists.Memberships.Orders.{follow_pages-list_container}
use dp1_feed_v.Tests.World.{
  libraries, one_playlist, stored_row, stored_playlist, new_playlist, count_sevens,
}
use dp1_feed_v.Tests.Cursors.{letters_codec, letters_codec-IsCodec}

abbrev place : CursorPayload
place = record { created_at = 100; id = 2 }

abbrev pub member_place : MembershipCursorPayload ℕ
member_place = record {
  kind = membership_kind_channel;
  container = 9;
  sort = "asc";
  rev = 200;
  position = 1;
}

abbrev item_place : PlaylistItemCursorPayload ℕ
item_place = record { created_at = 100; position = 0; item_id = 7 }

decode_cursor-encode_cursor_example :
    decode_cursor letters_codec (encode_cursor letters_codec place) ≡ ok place
decode_cursor-encode_cursor_example =
    decode_cursor-encode_cursor letters_codec letters_codec-IsCodec place (omega arith)
      (omega arith) (omega arith) (omega arith)

known_sort : is_sort_text "asc" ≡ true
unfolding is_sort_text parse_sort_order trim_space lower_eq
known_sort = refl

shown : "asc" ≡ show_sort ascending
unfolding show_sort
shown = refl

decode_membership_cursor-encode_membership_cursor_example :
    decode_membership_cursor letters_codec (encode_membership_cursor letters_codec member_place)
    ≡ ok member_place
decode_membership_cursor-encode_membership_cursor_example =
    decode_membership_cursor-encode_membership_cursor letters_codec letters_codec-IsCodec
      member_place ascending refl (omega arith) (omega arith) shown known_sort (omega arith)
      (omega arith) (omega arith)

decode_playlist_item_cursor-encode_playlist_item_cursor_example :
    decode_playlist_item_cursor letters_codec (encode_playlist_item_cursor letters_codec item_place)
    ≡ ok item_place
decode_playlist_item_cursor-encode_playlist_item_cursor_example =
    decode_playlist_item_cursor-encode_playlist_item_cursor letters_codec letters_codec-IsCodec
      item_place (omega arith) (omega arith) (omega arith) (omega arith) (omega arith)

member_token_accepted :
    decode_membership_cursor letters_codec (encode_membership_cursor letters_codec member_place)
    ≡ ok member_place
member_token_accepted =
    decode_membership_cursor-encode_membership_cursor letters_codec letters_codec-IsCodec
      member_place ascending refl (omega arith) (omega arith) shown known_sort (omega arith)
      (omega arith) (omega arith)

abbrev later_row : Row
later_row = record { id = 3; slug = "later"; raw = 5 ∷ []; created_at = 300; updated_at = 300 }

abbrev pub radio_row : Row
radio_row = record { id = 9; slug = "radio"; raw = 7 ∷ []; created_at = 100; updated_at = 200 }

abbrev pub two_playlists : Db
two_playlists = record one_playlist {
  playlists = record { rows = later_row ∷ stored_row ∷ []; deleted = [] };
  groups = record { rows = radio_row ∷ []; deleted = [] };
  channels = record { rows = radio_row ∷ []; deleted = [] };
  channel_members =
      record { container = 9; playlist_id = 2; position = 1 }
      ∷ record { container = 9; playlist_id = 3; position = 0 }
      ∷ [];
}

-- Pages of one row.
abbrev pub one_by_one : ListParams
one_by_one = record {
  limit = pos 1;
  cursor = "";
  sort = ascending;
  channel_filter = "";
  playlist_group_filter = "";
  curator_filter = "";
  publisher_filter = "";
}

follow_pages-list_playlists_example :
    follow_pages
      (λ cursor.
        list_playlists letters_codec libraries
          (record one_by_one { cursor = cursor })
          two_playlists)
      3
      ""
    ≡ ok ((stored_row, stored_playlist) ∷ (later_row, new_playlist) ∷ [])
unfolding trim_space resolve_list_limit key_eq is_citable order_by insert_sorted precedes key_lt
    is_descending playlist_directory_filters when_set read_rows
follow_pages-list_playlists_example =
    follow_pages-list_playlists letters_codec letters_codec-IsCodec libraries one_by_one
      two_playlists 1 3 ((stored_row, stored_playlist) ∷ (later_row, new_playlist) ∷ []) refl refl
      refl (refl, (refl, tt)) refl (omega arith) refl

follow_pages-list_container_example :
    follow_pages
      (λ cursor.
        list_container letters_codec libraries membership_kind_channel "777777777"
          (radio_row ∷ [])
          two_playlists.channel_members
          (record one_by_one { cursor = cursor })
          1
          two_playlists)
      3
      ""
    ≡ ok (((later_row, 0), new_playlist) ∷ ((stored_row, 1), stored_playlist) ∷ [])
unfolding trim_space resolve_container count_sevens find_id key_eq order_by insert_sorted precedes
    key_lt is_descending member_rows canonical read_rows
follow_pages-list_container_example =
    follow_pages-list_container letters_codec libraries membership_kind_channel "777777777"
      (radio_row ∷ []) two_playlists.channel_members one_by_one two_playlists radio_row
      letters_codec-IsCodec 1 3
      (((later_row, 0), new_playlist) ∷ ((stored_row, 1), stored_playlist) ∷ []) refl
      (record {
        kind_known = refl;
        id_positive = omega arith;
        id_bounded = omega arith;
        revision_positive = omega arith;
        revision_bounded = omega arith;
      })
      (omega arith) (refl, (refl, tt)) refl (omega arith) refl
