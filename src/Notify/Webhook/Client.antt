-- ===== src/Notify/Webhook/Client.antt =====
-- internal/notification/client.go: the P-256 keys, `WebhookClient` with its signed request, and `Dispatcher`.
-- JSON, SHA-256, ECDSA, base64, hexadecimal, the clock and the network are given as functions.
use Prim.Native.String
use dp1_feed_v.Shared.{
  ℕ, String, Bool, false, ◌&&◌, Option, none, some, List, [], ◌∷◌, ◌++◌, Outcome, ok, err, ltb, leb,
  nat_eq, length, if◌then◌else◌, trim_space, ◌>>=◌,
}
use dp1_feed_v.Models.{Bytes}
use dp1_feed_v.Exec.{Event}
use dp1_feed_v.Notify.Endpoint.{UrlParser, EndpointError, validate_webhook_endpoint}
use dp1_feed_v.Notify.Webhook.Octets.{big_endian}

-- An `ecdsa.PrivateKey` on P-256, by its scalar.
pub record PrivateKey : Type 0 where
  pub scalar : Bytes

-- `encoding/hex`, `crypto/ecdsa`, `crypto/sha256` and `encoding/base64`. `sign` and `public_bytes` may
-- fail; `text_bytes` is the conversion of a text to bytes.
pub record Crypto : Type 0 where
  pub decode_hex : String → Option Bytes
  pub parse_raw_private_key : Bytes → Option PrivateKey
  pub public_bytes : PrivateKey → Option Bytes
  pub sha256 : Bytes → Bytes
  pub sign : PrivateKey → Bytes → Option (ℕ × ℕ)
  pub base64_url : Bytes → String
  pub text_bytes : String → Bytes

pub data WebhookError : Type 0 where
  bad_endpoint : EndpointError → WebhookError
  key_not_hex : WebhookError
  key_out_of_range : WebhookError
  bad_public_key : WebhookError
  event_not_encoded : WebhookError
  event_not_signed : WebhookError
  request_not_created : WebhookError
  not_sent : WebhookError
  refused_with : ℕ → WebhookError

unfoldable pub parse_p256_private_key_hex : Crypto → String → Outcome WebhookError PrivateKey
parse_p256_private_key_hex c value = elim (c.decode_hex (trim_space value)) [
  | none ↦ err key_not_hex
  | some encoded ↦
      if nat_eq (length encoded) 32
      then elim (c.parse_raw_private_key encoded) [ none ↦ err key_out_of_range | some k ↦ ok k ]
      else err key_not_hex
]

unfoldable pub p256_public_key_string : Crypto → PrivateKey → Outcome WebhookError String
p256_public_key_string c k = elim (c.public_bytes k) [
  | none ↦ err bad_public_key
  | some encoded ↦ ok (String.◌++◌ "p256:" (c.base64_url encoded))
]

-- The HTTP client of a webhook follows no redirect.
pub record WebhookClient : Type 0 where
  pub endpoint : String
  pub private_key : PrivateKey
  pub public_key : String
  pub follows_redirects : Bool

abbrev pub endpoint_or : Outcome EndpointError String → Outcome WebhookError String
endpoint_or (ok e) = ok e
endpoint_or (err e) = err (bad_endpoint e)

-- The key is there by its type.
unfoldable pub new_webhook_client :
    UrlParser → Crypto → String → PrivateKey → Outcome WebhookError WebhookClient
unfolding p256_public_key_string
new_webhook_client parse c endpoint key =
    endpoint_or (validate_webhook_endpoint parse endpoint) >>= λ (e : String).
    p256_public_key_string c key >>= λ (p : String).
    ok (record { endpoint = e; private_key = key; public_key = p; follows_redirects = false })

pub record WebhookRequest : Type 0 where
  pub url : String
  pub content_type : String
  pub id : String
  pub timestamp : String
  pub public_key : String
  pub signature : String
  pub body : Bytes

-- The bytes that are signed: the id, the time and the body, with dots between them.
unfoldable pub signed_content : Crypto → String → String → Bytes → Bytes
signed_content c id timestamp body =
    c.text_bytes (String.◌++◌ id (String.◌++◌ "." (String.◌++◌ timestamp "."))) ++ body

unfoldable pub signature_text : Crypto → ℕ → ℕ → String
signature_text c r s = String.◌++◌ "p256=" (c.base64_url (big_endian 32 r ++ big_endian 32 s))

-- The request that carries a signature, if there is one.
unfoldable pub signed_request :
    Crypto
    → WebhookClient
    → String
    → String
    → Bytes
    → Option (ℕ × ℕ)
    → Outcome WebhookError WebhookRequest
unfolding signature_text
signed_request c client id timestamp body none = err event_not_signed
signed_request c client id timestamp body (some (r, s)) = ok (record {
  url = client.endpoint;
  content_type = "application/json";
  id = id;
  timestamp = timestamp;
  public_key = client.public_key;
  signature = signature_text c r s;
  body = body;
})

-- The request of `WebhookClient.Notify`, `id` from `newEventID` and `timestamp` the seconds of the clock.
unfoldable pub webhook_request :
    Crypto → WebhookClient → String → String → Bytes → Outcome WebhookError WebhookRequest
unfolding signed_content signed_request
webhook_request c client id timestamp body =
    signed_request c client id timestamp body
      (c.sign client.private_key (c.sha256 (signed_content c id timestamp body)))

-- The remote host: the status of its answer, or the error that there is none.
abbrev pub Network : Type 0
Network = WebhookRequest → Outcome WebhookError ℕ

-- A status of success.
delivered_with : Outcome WebhookError ℕ → Outcome WebhookError (Unit {0})
delivered_with (err e) = err e
delivered_with (ok status) =
    if leb 200 status && ltb status 300 then ok tt else err (refused_with status)

-- `WebhookClient.Notify`; `body` is what `json.Marshal` made of the event.
unfoldable pub notify :
    Crypto
    → Network
    → WebhookClient
    → String
    → String
    → Option Bytes
    → Outcome WebhookError (Unit {0})
unfolding webhook_request delivered_with
notify c net client id timestamp none = err event_not_encoded
notify c net client id timestamp (some body) =
    webhook_request c client id timestamp body >>= λ (r : WebhookRequest). delivered_with (net r)

-- A configured client, and what its `Notify` returns for an event.
pub record NamedClient : Type 0 where
  pub name : String
  pub notify : Event → Outcome WebhookError (Unit {0})

-- The line that a failed client leaves in the log.
pub record FailureLog : Type 0 where
  pub client : String
  pub event : Event
  pub error : WebhookError

failure_log : NamedClient → Event → Outcome WebhookError (Unit {0}) → List FailureLog
failure_log client event (ok u) = []
failure_log client event (err e) = (record { client = client.name; event = event; error = e }) ∷ []

-- `Dispatcher.Notify`, which returns no error: the lines that the clients leave, in the order of the list.
-- The source runs the clients concurrently, so that it may write the lines in another order.
unfoldable pub dispatch : List NamedClient → Event → List FailureLog
unfolding failure_log
dispatch [] event = []
dispatch (c ∷ cs) event = failure_log c event (c.notify event) ++ dispatch cs event
