-- ===== src/Tests/Tags.antt =====
-- The stored playlist, served and asked for again.
use dp1_feed_v.Shared.{
  ◌≡◌, refl, String, true, [], ◌∷◌, ok, trim_space, trim_prefix, split_commas, is_plain,
}
use dp1_feed_v.Models.{Bytes}
use dp1_feed_v.Store.{get_playlist, find_id}
use dp1_feed_v.Http.Conditional.{
  Served, write_bytes_individual_get, serve_individual_get, handle_get_playlist,
}
use dp1_feed_v.Http.Conditional.Revalidation.{handle_get_playlist-revalidated}
use dp1_feed_v.Tests.World.{libraries, one_playlist, count_sevens}

abbrev digest : Bytes → String
digest b = "0a"

abbrev full : Served
full = record { status = 200; etag = "\"0a\""; body = 1 ∷ [] }

digest-plain : (b : Bytes) → is_plain (digest b) ≡ true
unfolding is_plain
digest-plain b = refl

served_whole : handle_get_playlist digest libraries "\"0b\", *" "77" one_playlist ≡ ok full
unfolding handle_get_playlist get_playlist find_id count_sevens write_bytes_individual_get
    serve_individual_get trim_space trim_prefix split_commas
served_whole = refl

handle_get_playlist-revalidated_example :
    handle_get_playlist digest libraries "\"0a\"" "77" one_playlist
    ≡ ok (record { status = 304; etag = "\"0a\""; body = [] })
handle_get_playlist-revalidated_example =
    handle_get_playlist-revalidated digest libraries "\"0b\", *" "77" one_playlist full digest-plain
      served_whole
