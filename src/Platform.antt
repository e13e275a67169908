-- ===== src/Platform.antt =====
-- What the executor takes from outside the repository: google/uuid, the RFC 3339 reader of `time`, the
-- JSON decoder, and dp1-go behind the `ValidatorSigner` interface of internal/dp1svc. Each is a field
-- that the definitions are given; nothing is assumed of any of them here.
use dp1_feed_v.Shared.{String, Bool, Option, List, Outcome, ok, err}
use dp1_feed_v.Errors.{Result, LibraryError, library_error}
use dp1_feed_v.Models.{Bytes, UuidValue, Time, Signature, Playlist, Group, Channel}

pub record Platform : Type 0 where
  -- `uuid.Parse` and `UUID.String`
  pub parse_uuid : String → Option UuidValue
  pub show_uuid : UuidValue → String
  -- `time.Parse` at the layouts RFC3339 and RFC3339Nano
  pub parse_rfc3339 : String → Option Time
  pub parse_rfc3339_nano : String → Option Time
  -- `json.Unmarshal` of an intent into a map: `none` if it fails, else whether "payloadHash" is a member
  pub declares_payload_hash : Bytes → Option Bool
  -- `json.Unmarshal` of stored bytes into the typed documents (`utils.DecodeJSONB`)
  pub decode_playlist : Bytes → Option Playlist
  pub decode_group : Bytes → Option Group
  pub decode_channel : Bytes → Option Channel
  -- the text that PostgreSQL gives back for a body cast to JSONB, which normalises it
  pub jsonb_text : Bytes → Bytes
  -- `json.Unmarshal` of a body into a struct with the one member "id"
  pub body_id : Bytes → Option String
  -- `body ->> 'slug'` of a document's bytes, `none` if absent
  pub body_slug : Bytes → Option String
  -- the test `listedPlaylistSQL` on a document's bytes
  pub is_listed : Bytes → Bool
  -- `body -> 'curators' @> [{"key": …}]`, `body ->> 'curator'` and `body -> 'publisher' ->> 'key'`
  pub curators_hold : Bytes → String → Bool
  pub body_curator : Bytes → Option String
  pub body_publisher_key : Bytes → Option String
  -- the cast `::uuid` of PostgreSQL
  pub cast_uuid : String → Option UuidValue
  -- the ids of the elements of the member "items", in order, as texts; `none` for an element without one
  pub body_item_ids : Bytes → List (Option String)

-- `dp1svc.ValidatorSigner`. A nil document without an error is `none`.
pub record ValidatorSigner : Type 0 where
  pub verify_playlist_signatures : Bytes → Outcome LibraryError (Bool × List Signature)
  pub verify_playlist_group_signatures : Bytes → Outcome LibraryError (Bool × List Signature)
  pub verify_channel_signatures : Bytes → Outcome LibraryError (Bool × List Signature)
  pub verify_signatures : Bytes → Outcome LibraryError (Bool × List Signature)
  pub sign_playlist : Bytes → Time → Outcome LibraryError Bytes
  pub sign_playlist_group : Bytes → Time → Outcome LibraryError Bytes
  pub sign_channel : Bytes → Time → Outcome LibraryError Bytes
  pub validate_playlist : Bytes → Outcome LibraryError (Option Playlist)
  pub validate_playlist_with_extension : Bytes → Outcome LibraryError (Option Playlist)
  pub validate_playlist_group : Bytes → Outcome LibraryError (Option Group)
  pub validate_channel : Bytes → Outcome LibraryError (Option Channel)
  pub payload_hash : Bytes → Outcome LibraryError String

-- `if err != nil { return fmt.Errorf("…: %w", err) }` round a call of a library.
abbrev pub lift {ℓ} : {A : Type ℓ} → Outcome LibraryError A → Result A
lift (ok a) = ok a
lift (err e) = err (library_error e)
