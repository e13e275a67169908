-- ===== src/Http/Writes.antt =====
-- internal/httpserver/bind.go and the handlers of handlers.go that write: the body is read strictly, passed to
-- the executor, and its result answered. The executor returns a document, so that the handlers' answer to a
-- nil one does not arise. gin's binding and `encoding/json` are given as functions.
use dp1_feed_v.Shared.{
  ℕ, String, true, Option, none, some, List, [], Outcome, ok, err, ◌>>=◌, ◌>>◌, nat_eq, length,
  require, not, if◌then◌else◌,
}
use dp1_feed_v.Models.{Bytes, PlaylistRequest, GroupRequest, ChannelRequest, SignedIntent}
use dp1_feed_v.Errors.{Result, Error, wraps, extensions_disabled}
use dp1_feed_v.Platform.{Platform, ValidatorSigner}
use dp1_feed_v.Store.{Db}
use dp1_feed_v.Exec
use dp1_feed_v.Exec.{Impl, Call, Event, Fetcher, Snapshots}
use dp1_feed_v.Http.Mapping.{HttpError, map_executor_error}
use dp1_feed_v.Http.Queries.{bad_request, mapped}
use dp1_feed_v.Http.Members.{Json, Shape, structure, opaque, field, no_fields, exact_members}
use dp1_feed_v.Http.Gate.{ReadBody, EnvelopeReader, require_signatures_gate}

-- `json.Valid` with `json.Unmarshal` into `any`; `json.Unmarshal` into the two halves of a replace, empty
-- where one is missing; and `binding.JSON.BindBody` into the request types, whose fields are the shapes.
pub record Binder : Type 0 where
  pub parse_json : Bytes → Option Json
  pub split_replace : Bytes → Option (Bytes × Bytes)
  pub bind_playlist : Bytes → Option PlaylistRequest
  pub bind_group : Bytes → Option GroupRequest
  pub bind_channel : Bytes → Option ChannelRequest
  pub bind_intent : Bytes → Option SignedIntent
  pub playlist_shape : Shape
  pub group_shape : Shape
  pub channel_shape : Shape
  pub intent_shape : Shape

-- `models.SignedReplaceRequest`, whose two members are raw.
abbrev pub replace_shape : Shape
replace_shape = structure (
    field "Document" true "document" opaque
      (field "Authorization" true "authorization" opaque no_fields))

pub data BindError : Type 0 where
  trailing_body : BindError
  unknown_field : String → BindError
  not_bound : BindError
  document_missing : BindError
  authorization_missing : BindError

unfoldable pub given {ℓ} : {A : Type ℓ} → BindError → Option A → Outcome BindError A
given e none = err e
given e (some a) = ok a

unfoldable pub spelled : Outcome String (Unit {0}) → Outcome BindError (Unit {0})
spelled (ok u) = ok tt
spelled (err name) = err (unknown_field name)

module _ (b : Binder) where
  -- One JSON value, its members spelled as the shape spells them.
  unfoldable pub check_exact_members : Shape → Bytes → Outcome BindError (Unit {0})
  unfolding given spelled
  check_exact_members shape raw =
      given trailing_body (b.parse_json raw) >>= λ (v : Json). spelled (exact_members v shape)

  unfoldable pub decode_document :
      {A : Type 0} → (Bytes → Option A) → Shape → Bytes → Outcome BindError A
  unfolding check_exact_members given
  decode_document bind shape raw = check_exact_members shape raw >> given not_bound (bind raw)

  -- The document of a replace as it was received, what it decodes to, and the intent with its own bytes.
  unfoldable pub bind_signed_replace :
      {A : Type 0}
      → (Bytes → Option A)
      → Shape
      → Bytes
      → Outcome BindError (Bytes × A × SignedIntent)
  unfolding check_exact_members decode_document given
  bind_signed_replace {A} bind shape raw = do
    check_exact_members replace_shape raw
    halves ← given not_bound (b.split_replace raw)
    require (not (nat_eq (length halves.0) 0)) document_missing
    require (not (nat_eq (length halves.1) 0)) authorization_missing
    doc ← decode_document bind shape halves.0
    intent ← decode_document b.bind_intent b.intent_shape halves.1
    ok (halves.0, doc, record intent { raw = halves.1 })

  -- `bindDeleteRequest`
  unfoldable pub bind_delete_request : Bytes → Outcome BindError SignedIntent
  unfolding decode_document
  bind_delete_request raw = do
    intent ← decode_document b.bind_intent b.intent_shape raw
    ok (record intent { raw = raw })

-- `if err != nil { writeError(…, http.StatusBadRequest, …) }` round a binding.
unfoldable pub bound : {A : Type 0} → Outcome BindError A → Outcome HttpError A
bound (ok a) = ok a
bound (err e) = err bad_request

abbrev pub extensions_off : HttpError
extensions_off = record { status = 404; code = "extensions_disabled" }

-- The errors of the channel handlers.
channel_error : Error → HttpError
channel_error e = if wraps e extensions_disabled then extensions_off else map_executor_error e

channel_mapped : {A : Type 0} → Result A → Outcome HttpError A
unfolding channel_error
channel_mapped (ok a) = ok a
channel_mapped (err e) = err (channel_error e)

-- A successful write: its status, its body, the database that it leaves and the events that it sends.
pub record Written : Type 0 where
  pub status : ℕ
  pub body : Bytes
  pub db : Db
  pub events : List Event

-- `seen` are the states of the database that the resolutions of references read, `db` that of the read and `db'` that of the write.
module _ (b : Binder) (p : Platform) (dp1 : ValidatorSigner) (e : Impl) (call : Call) where
  unfoldable pub handle_create_playlist : Bytes → Db → Outcome HttpError Written
  unfolding bound decode_document
  handle_create_playlist raw db = do
    req ← bound (decode_document b b.bind_playlist b.playlist_shape raw)
    done ← mapped (Exec.create_playlist p dp1 e call (record req { raw = raw }) db)
    ok (record { status = 201; body = done.0.raw; db = done.1; events = [] })

  unfoldable pub handle_replace_playlist : String → Bytes → Db → Db → Outcome HttpError Written
  unfolding bound bind_signed_replace
  handle_replace_playlist id raw db db' = do
    r ← bound (bind_signed_replace b b.bind_playlist b.playlist_shape raw)
    done ←
        mapped
          (Exec.replace_playlist p dp1 e call id (record (r.1) { raw = r.0 }) (some r.2) db db')
    ok (record { status = 200; body = done.0.raw; db = done.1; events = done.2 })

  unfoldable pub handle_delete_playlist : String → Bytes → Db → Db → Outcome HttpError Written
  unfolding bound bind_delete_request
  handle_delete_playlist id raw db db' = do
    req ← bound (bind_delete_request b raw)
    done ← mapped (Exec.delete_playlist p dp1 e call id (some req) db db')
    ok (record { status = 204; body = []; db = done.0; events = done.1 })

  unfoldable pub handle_create_playlist_group :
      Fetcher → Bytes → Snapshots → Db → Outcome HttpError Written
  unfolding bound decode_document
  handle_create_playlist_group fetch raw seen db = do
    req ← bound (decode_document b b.bind_group b.group_shape raw)
    done ← mapped (Exec.create_playlist_group p dp1 e call fetch (record req { raw = raw }) seen db)
    ok (record { status = 201; body = done.0.raw; db = done.1; events = [] })

  unfoldable pub handle_replace_playlist_group :
      Fetcher → String → Bytes → Db → Snapshots → Db → Outcome HttpError Written
  unfolding bound bind_signed_replace
  handle_replace_playlist_group fetch id raw db seen db' = do
    r ← bound (bind_signed_replace b b.bind_group b.group_shape raw)
    done ← mapped (
        Exec.replace_playlist_group p dp1 e call fetch id (record (r.1) { raw = r.0 }) (some r.2) db
          seen db')
    ok (record { status = 200; body = done.0.raw; db = done.1; events = [] })

  unfoldable pub handle_delete_playlist_group : String → Bytes → Db → Db → Outcome HttpError Written
  unfolding bound bind_delete_request
  handle_delete_playlist_group id raw db db' = do
    req ← bound (bind_delete_request b raw)
    done ← mapped (Exec.delete_playlist_group p dp1 e call id (some req) db db')
    ok (record { status = 204; body = []; db = done; events = [] })

  unfoldable pub handle_create_channel :
      Fetcher → Bytes → Snapshots → Db → Outcome HttpError Written
  unfolding bound decode_document channel_mapped
  handle_create_channel fetch raw seen db = do
    req ← bound (decode_document b b.bind_channel b.channel_shape raw)
    done ←
        channel_mapped (Exec.create_channel p dp1 e call fetch (record req { raw = raw }) seen db)
    ok (record { status = 201; body = done.0.raw; db = done.1; events = done.2 })

  unfoldable pub handle_replace_channel :
      Fetcher → String → Bytes → Db → Snapshots → Db → Outcome HttpError Written
  unfolding bound bind_signed_replace channel_mapped
  handle_replace_channel fetch id raw db seen db' = do
    r ← bound (bind_signed_replace b b.bind_channel b.channel_shape raw)
    done ← channel_mapped (
        Exec.replace_channel p dp1 e call fetch id (record (r.1) { raw = r.0 }) (some r.2) db seen
          db')
    ok (record { status = 200; body = done.0.raw; db = done.1; events = done.2 })

  unfoldable pub handle_delete_channel : String → Bytes → Db → Db → Outcome HttpError Written
  unfolding bound bind_delete_request channel_mapped
  handle_delete_channel id raw db db' = do
    req ← bound (bind_delete_request b raw)
    done ← channel_mapped (Exec.delete_channel p dp1 e call id (some req) db db')
    ok (record { status = 204; body = []; db = done.0; events = done.1 })

-- The route of a mutation: the gate, then the handler with the body that was read.
unfoldable pub gated :
    EnvelopeReader → ReadBody → (Bytes → Outcome HttpError Written) → Outcome HttpError Written
gated j read handle = require_signatures_gate j read >>= handle
