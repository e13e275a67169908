-- ===== src/Tests/Resolution.antt =====
-- Two references, one of them twice: one to this feed and one to a remote playlist that it holds.
use dp1_feed_v.Shared.{
  String, ◌≡◌, refl, some, List, [], ◌∷◌, ok, trim_space, trim_suffix_slash, has_prefix,
  trim_prefix, byte_length,
}
use dp1_feed_v.Models.{IngestedPlaylist}
use dp1_feed_v.Store.{find_id, get_playlist}
use dp1_feed_v.Exec.{
  Fetcher, Snapshots, distinct_keys, is_local_playlist_url, link_fetched, local_playlist_key,
  playlist_api_prefix, playlist_id_from_body, require_uri_lengths, resolve_each,
  resolve_one_playlist_ref, resolve_playlist_uris, resolved_at,
}
use dp1_feed_v.Exec.Resolution.{IsResolved, resolve_playlist_uris-IsResolved}
use dp1_feed_v.Tests.World.{call, count_sevens, dp1, libraries, one_playlist, settings, sevens}

-- The origin answers anew each time.
abbrev web : Fetcher
web = some (λ n uri. ok (8 ∷ n ∷ []))

abbrev snapshots : Snapshots
snapshots = λ n. one_playlist

abbrev references : List String
references =
    "https://feed.example/api/v1/playlists/77" ∷ " https://other.example/p"
    ∷ "https://other.example/p" ∷ []

abbrev local : IngestedPlaylist
local = record { id = 2; slug = "mornings"; raw = 1 ∷ []; source_uri = "" }

abbrev remote : IngestedPlaylist
remote = record { id = 2; slug = "mornings"; raw = 1 ∷ []; source_uri = "https://other.example/p" }

references_resolve :
    resolve_playlist_uris libraries dp1 settings call web snapshots references
    ≡ ok (local ∷ remote ∷ remote ∷ [])
unfolding resolve_playlist_uris require_uri_lengths byte_length distinct_keys trim_space
    resolve_each resolve_one_playlist_ref is_local_playlist_url playlist_api_prefix
    trim_suffix_slash has_prefix local_playlist_key trim_prefix get_playlist find_id link_fetched
    playlist_id_from_body resolved_at sevens count_sevens
references_resolve = refl

resolve_playlist_uris-IsResolved_example :
    IsResolved libraries dp1 settings call web snapshots references (local ∷ remote ∷ remote ∷ [])
resolve_playlist_uris-IsResolved_example =
    resolve_playlist_uris-IsResolved libraries dp1 settings call web snapshots references
      (local ∷ remote ∷ remote ∷ []) references_resolve
