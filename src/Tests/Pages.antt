-- ===== src/Tests/Pages.antt =====
-- Pages of the small world, as the store and the HTTP layer answer them, and a token across a replace.
use dp1_feed_v.Shared.{
  negsuc, ◌≡◌, refl, String, true, false, ◌||◌, not, Option, some, none, [], ◌∷◌, all, ok, err,
  trim_space, lower_eq, arith,
}
use dp1_feed_v.Errors.{invalid_cursor}
use dp1_feed_v.Models.{Bytes}
use dp1_feed_v.Store.{Db, ItemRow, find_id}
use dp1_feed_v.Store.Keyset.{
  ascending, parse_sort_order, is_descending, key_lt, key_eq, precedes, insert_sorted, order_by,
  past, select_rows, page_of,
}
use dp1_feed_v.Store.Keyset.Lists.{read_rows, list_page, follow_pages}
use dp1_feed_v.Store.Lists.{
  ListParams, resolve_list_limit, when_set, playlist_directory_filters, list_playlist_directory,
}
use dp1_feed_v.Store.Lists.Memberships.{list_playlists, membership_token, canonical}
use dp1_feed_v.Store.Lists.Memberships.Revisions.{list_playlists-stale}
use dp1_feed_v.Store.Lists.Items.{
  in_listed_playlist, get_playlist_item, item_scope, list_playlist_items,
}
use dp1_feed_v.Store.Lists.Items.Copies.{is_listed_copy, not_older, get_playlist_item_oldest}
use dp1_feed_v.Store.Lists.Items.Visible.{is_citable_item, follow_pages-list_playlist_items}
use dp1_feed_v.Store.Cursors.{membership_kind_channel}
use dp1_feed_v.Http.Queries.{ListQuery, ListResponse, new_list_response, handle_list_playlists}
use dp1_feed_v.Http.Queries.Pages.{handle_list_playlists_listed}
use dp1_feed_v.Exec.Reads.{list_playlist_records}
use dp1_feed_v.Tests.World.{
  libraries, one_playlist, stored_row, stored_playlist, settings, count_sevens,
}
use dp1_feed_v.Tests.Cursors.{letters_codec, letters_codec-IsCodec}
use dp1_feed_v.Tests.Channels.{
  radio, relisting, with_channel, channel_relisted, named_by_nine, relist_channel,
}
use dp1_feed_v.Tests.Lists.{one_by_one}

abbrev whole : ListParams
whole = record one_by_one { limit = negsuc 4 }

first_page :
    list_playlists letters_codec libraries whole one_playlist
    ≡ ok ((stored_row, stored_playlist) ∷ [], "")
unfolding list_playlists trim_space resolve_list_limit list_playlist_directory order_by
    insert_sorted precedes key_lt is_descending playlist_directory_filters when_set read_rows
    page_of past list_page select_rows
first_page = refl

-- The channel is asked for by its id.
abbrev of_radio : ListParams
of_radio = record one_by_one { channel_filter = "777777777" }

list_playlists-stale_example :
    list_playlists letters_codec libraries
      (record of_radio {
        cursor =
            membership_token letters_codec membership_kind_channel radio
              (canonical ascending)
              (stored_row, 0);
      })
      channel_relisted
    ≡ err (invalid_cursor ∷ [])
unfolding trim_space resolve_list_limit count_sevens find_id
list_playlists-stale_example =
    list_playlists-stale letters_codec letters_codec-IsCodec libraries of_radio channel_relisted
      1000 "777777777" 9 relisting 200 with_channel radio ascending (stored_row, 0) 1 named_by_nine
      relist_channel refl
      (record {
        kind_known = refl;
        id_positive = omega arith;
        id_bounded = omega arith;
        revision_positive = omega arith;
        revision_bounded = omega arith;
      })
      refl refl refl refl refl

abbrev song : ItemRow
song = record { item_id = 7; playlist_id = 2; playlist_created_at = 100; position = 0 }

abbrev with_song : Db
with_song = record one_playlist { items = song ∷ [] }

abbrev title : ItemRow → Option String
title i = some "title"

song_found : get_playlist_item libraries title 7 with_song ≡ ok (song, "title")
unfolding get_playlist_item order_by insert_sorted find_id
song_found = refl

get_playlist_item_oldest_example :
    (is_listed_copy libraries 7 with_song song ≡ true)
    × (all (λ j. not (is_listed_copy libraries 7 with_song j) || not_older song j) (song ∷ [])
        ≡ true)
unfolding is_listed_copy in_listed_playlist find_id key_eq
get_playlist_item_oldest_example =
    get_playlist_item_oldest libraries title 7 with_song song "title" (refl, tt) song_found

follow_pages-list_playlist_items_example :
    follow_pages
      (λ cursor.
        list_playlist_items letters_codec libraries title
          (record one_by_one { cursor = cursor })
          with_song)
      2
      ""
    ≡ ok ((song, "title") ∷ [])
unfolding trim_space resolve_list_limit item_scope in_listed_playlist find_id key_eq is_citable_item
    order_by insert_sorted read_rows
follow_pages-list_playlist_items_example =
    follow_pages-list_playlist_items letters_codec letters_codec-IsCodec libraries title one_by_one
      with_song 1 2 (in_listed_playlist libraries with_song.playlists.rows) ((song, "title") ∷ [])
      refl refl (refl, tt) refl (omega arith) refl

abbrev query : ListQuery
query = record {
  limit = "5000";
  cursor = "";
  sort = none;
  channel = "";
  playlist_group = " ";
  curator = "";
  publisher = "";
}

abbrev answer : ListResponse Bytes
answer = record { items = (1 ∷ []) ∷ []; cursor = ""; has_more = false }

answer_runs : handle_list_playlists letters_codec libraries settings query one_playlist ≡ ok answer
unfolding handle_list_playlists parse_sort_order lower_eq list_playlist_records new_list_response
    list_playlists trim_space resolve_list_limit list_playlist_directory order_by insert_sorted
    precedes key_lt is_descending playlist_directory_filters when_set read_rows page_of past
    list_page select_rows
answer_runs = refl

handle_list_playlists_listed_example : all libraries.is_listed ((1 ∷ []) ∷ []) ≡ true
unfolding trim_space
handle_list_playlists_listed_example =
    handle_list_playlists_listed letters_codec libraries settings query one_playlist answer refl
      refl answer_runs
