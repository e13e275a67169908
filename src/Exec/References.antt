-- ===== src/Exec/References.antt =====
-- internal/executor/ingest_resolve.go: the playlists that a group or channel refers to. The fetcher is an
-- argument, `none` where none is configured; its errors wrap the sentinels of internal/fetcher. What a fetch
-- answers and which state a read finds depend on the number of the resolution that they belong to, so that
-- two resolutions of one reference may differ. The source resolves the distinct references in parallel; here
-- they are resolved in order, which differs only in which of several errors is returned.
use dp1_feed_v.Shared.{
  ℕ, suc, ◌+◌, String, Bool, true, false, ◌||◌, Option, none, some, List, [], ◌∷◌, map, any, length,
  ◌==◌, nat_eq, leb, if◌then◌else◌, ok, err, require, ◌>>=◌, ◌>>◌, trim_space, trim_suffix_slash,
  has_prefix, trim_prefix, byte_length,
}
use Prim.Native.String.{◌++◌}
use dp1_feed_v.Errors.{
  Error, Result, wraps, status_error, blocked_destination, oversized_error, not_found,
  too_many_references, resolved_too_large, playlist_uri_too_long, no_playlist_references,
}
use dp1_feed_v.Models.{Bytes, UuidValue, IngestedPlaylist}
use dp1_feed_v.Platform.{Platform, ValidatorSigner}
use dp1_feed_v.Auth.{or_error, require_slug, require_item_ids, parse_user_provided_created}
use dp1_feed_v.Store.{Db, Source, PlaylistRecord, find_id, get_playlist}
use dp1_feed_v.Exec.Settings.{Impl, Call}
use dp1_feed_v.Exec.Steps.{parse_validated_playlist, verify_playlist_owner_signatures}

abbrev pub Fetcher : Type 0
Fetcher = Option (ℕ → String → Result Bytes)

-- The states of the database that the resolutions read, by their numbers.
abbrev pub Snapshots : Type 0
Snapshots = ℕ → Db

unfoldable pub playlist_api_prefix : Impl → String
playlist_api_prefix e =
    let b = trim_suffix_slash (trim_space e.public_base) in
    if b == "" then "" else b ++ "/api/v1/playlists/"

unfoldable pub is_local_playlist_url : Impl → String → Bool
unfolding playlist_api_prefix
is_local_playlist_url e raw =
    let p = playlist_api_prefix e in if p == "" then false else has_prefix (trim_space raw) p

unfoldable pub local_playlist_key : Impl → String → String
unfolding playlist_api_prefix
local_playlist_key e raw = trim_prefix (trim_space raw) (playlist_api_prefix e)

-- `StatusError.Transient` of internal/fetcher
abbrev transient : ℕ → Bool
transient n = nat_eq n 429 || leb 500 n

-- The first `StatusError` of the chain decides; without one there was no usable answer.
transient_status : Error → Bool
transient_status [] = true
transient_status (status_error n ∷ e) = transient n
transient_status (s ∷ e) = transient_status e

unfoldable pub origin_unavailable : Error → Bool
unfolding transient_status
origin_unavailable e =
    if wraps e blocked_destination
    then false
    else if wraps e oversized_error
    then false
    else transient_status e

find_source : String → List Source → Option UuidValue
find_source uri [] = none
find_source uri (s ∷ ss) = if s.uri == uri then some s.playlist_id else find_source uri ss

module _ (p : Platform) where
  -- internal/store/pg/store.go, `GetPlaylistBySourceURI`
  unfoldable pub get_playlist_by_source_uri : String → Db → Result PlaylistRecord
  unfolding find_source
  get_playlist_by_source_uri uri db = do
    id ← or_error (not_found ∷ []) (find_source uri db.sources)
    r ← or_error (not_found ∷ []) (find_id id db.playlists.rows)
    body ← or_error [] (p.decode_playlist r.raw)
    ok (record { row = r; body = body })

  abbrev link : String → PlaylistRecord → IngestedPlaylist
  link uri rec = record {
    id = rec.row.id;
    slug = rec.row.slug;
    raw = rec.row.raw;
    source_uri = uri;
  }

  -- `lastKnownResolution`, or the failure of the fetch where nothing is cached.
  unfoldable pub last_known_or : Error → String → Db → Result IngestedPlaylist
  unfolding get_playlist_by_source_uri
  last_known_or e uri db = elim (get_playlist_by_source_uri uri db) [
    | err e' ↦ err e
    | ok rec ↦ ok (link uri rec)
  ]

  unfoldable pub playlist_id_from_body : Bytes → Option UuidValue
  playlist_id_from_body body = elim (p.body_id body) [
    | none ↦ none
    | some id ↦ p.parse_uuid (trim_space id)
  ]

module _ (p : Platform) (dp1 : ValidatorSigner) (e : Impl) (call : Call) (fetch : Fetcher) where
  -- A remote body that the feed does not hold: the checks of a create.
  unfoldable pub admit_remote : String → Bytes → Result IngestedPlaylist
  admit_remote uri body = do
    parsed ← parse_validated_playlist dp1 e body
    pl ← or_error [] parsed
    verify_playlist_owner_signatures dp1 body pl.signatures pl.curators
    id ← or_error [] (p.parse_uuid (trim_space pl.id))
    slug ← require_slug pl.slug
    require_item_ids p pl.items
    created ← parse_user_provided_created p call.now_identity (some pl.created)
    ok (record { id = id; slug = slug; raw = body; source_uri = uri })

  -- A fetched body: an id that the feed holds is linked as stored, and the body is not looked at.
  unfoldable pub link_fetched : String → Bytes → Db → Result IngestedPlaylist
  unfolding admit_remote playlist_id_from_body
  link_fetched uri body db = elim (playlist_id_from_body p body) [
    | none ↦ admit_remote uri body
    | some id ↦ elim (get_playlist p (p.show_uuid id) db) [
      | ok rec ↦ ok (link p uri rec)
      | err er ↦ if wraps er not_found then admit_remote uri body else err er
    ]
  ]

  -- The reference is trimmed. Where no fetcher is configured, or its error says that the origin did not
  -- answer, the last known resolution is used.
  unfoldable pub resolve_one_playlist_ref : ℕ → Db → String → Result IngestedPlaylist
  unfolding last_known_or link_fetched
  resolve_one_playlist_ref n db raw =
      let uri = trim_space raw in
      if uri == ""
      then err []
      else if is_local_playlist_url e uri
      then (if local_playlist_key e uri == ""
          then err []
          else do rec ← get_playlist p (local_playlist_key e uri) db; ok (link p "" rec))
      else elim fetch [
        | none ↦ last_known_or p [] uri db
        | some get ↦ elim (get n uri) [
          | err er ↦ if origin_unavailable er then last_known_or p er uri db else err er
          | ok body ↦ link_fetched uri body db
        ]
      ]

abbrev max_playlist_uri_length : ℕ
max_playlist_uri_length = 2048

-- `requireResolvableURILength` on every reference, as submitted.
unfoldable pub require_uri_lengths : List String → Result (Unit {0})
require_uri_lengths [] = ok tt
require_uri_lengths (u ∷ us) =
    require (leb (byte_length u) max_playlist_uri_length) (playlist_uri_too_long ∷ [])
    >> require_uri_lengths us

abbrev pub key_in : String → List String → Bool
key_in k keys = any (λ j. j == k) keys

-- The distinct trimmed references, in the order of their first occurrence.
unfoldable pub distinct_keys : List String → List String → List String
distinct_keys seen [] = []
distinct_keys seen (u ∷ us) = elim (key_in (trim_space u) seen) [
  | true ↦ distinct_keys seen us
  | false ↦ trim_space u ∷ distinct_keys (trim_space u ∷ seen) us
]

-- `out[i]`, which the source leaves at its zero value where nothing is resolved.
unfoldable pub resolved_at : List (String × IngestedPlaylist) → String → IngestedPlaylist
resolved_at [] key = record { id = 0; slug = ""; raw = []; source_uri = "" }
resolved_at (r ∷ rs) key = if r.0 == key then r.1 else resolved_at rs key

module _ (p : Platform) (dp1 : ValidatorSigner) (e : Impl) (call : Call) (fetch : Fetcher) where
  -- Each distinct reference once, charged to the budget of bytes; `n` is the number of the next resolution.
  unfoldable pub resolve_each :
      Snapshots → ℕ → ℕ → List String → Result (List (String × IngestedPlaylist))
  resolve_each seen n total [] = ok []
  resolve_each seen n total (uri ∷ order) = do
    ing ← resolve_one_playlist_ref p dp1 e call fetch n (seen n) uri
    require (nat_eq e.max_resolved_bytes 0 || leb (total + length ing.raw) e.max_resolved_bytes)
        (resolved_too_large ∷ [])
    rest ← resolve_each seen (suc n) (total + length ing.raw) order
    ok ((uri, ing) ∷ rest)

  unfoldable pub resolve_playlist_uris : Snapshots → List String → Result (List IngestedPlaylist)
  resolve_playlist_uris seen [] = err (no_playlist_references ∷ [])
  resolve_playlist_uris seen (u ∷ us) = do
    require (nat_eq e.max_refs 0 || leb (length (u ∷ us)) e.max_refs) (too_many_references ∷ [])
    require_uri_lengths (u ∷ us)
    resolved ← resolve_each seen 0 0 (distinct_keys [] (u ∷ us))
    ok (map (λ r. resolved_at resolved (trim_space r)) (u ∷ us))
