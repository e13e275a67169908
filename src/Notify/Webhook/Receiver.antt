-- ===== src/Notify/Webhook/Receiver.antt =====
-- The other side of the signed webhook: a consumer that checks the headers of `WebhookClient.Notify` over
-- the body that it reads. Its own libraries are parameters, with the laws of ECDSA and base64.
use Prim.Native.String
use mathlib.Core.List.{append_assoc}
use dp1_feed_v.Shared.{
  ℕ, ◌<◌, ◌^◌, ◌≡◌, ◌∙◌, refl, ap, subst, String, Bool, true, false, ◌&&◌, Option, none, some, List,
  [], ◌∷◌, ◌++◌, ok, nat_eq, length, length-append, take, drop, bind-eq-ok, ok-injective, arith,
}
use dp1_feed_v.Models.{Bytes}
use dp1_feed_v.Notify.Endpoint.{UrlParser, validate_webhook_endpoint}
use dp1_feed_v.Notify.Webhook.Octets.{
  big_endian, number_from, length-big_endian, number_from-big_endian,
}
use dp1_feed_v.Notify.Webhook.Client.{
  PrivateKey, Crypto, WebhookClient, WebhookRequest, p256_public_key_string, endpoint_or,
  new_webhook_client, signed_content, signature_text, signed_request, webhook_request,
}

-- A consumer's reader of the signature header and its ECDSA check against a key text.
pub record Consumer : Type 0 where
  pub decode_signature : String → Option Bytes
  pub verify : String → Bytes → ℕ → ℕ → Bool

-- The documented behaviour of the two sides' libraries: the bytes of a text are those of its parts, a dot
-- is one byte, the header text of some bytes reads back as them, and what the key signs is two scalars that
-- its public key verifies.
pub record Laws (c : Crypto) (v : Consumer) : Type 0 where
  pub joins : (s t : String) → c.text_bytes (String.◌++◌ s t) ≡ c.text_bytes s ++ c.text_bytes t
  pub dot : c.text_bytes "." ≡ 46 ∷ []
  pub reads : (b : Bytes) → v.decode_signature (String.◌++◌ "p256=" (c.base64_url b)) ≡ some b
  pub verifies :
      (k : PrivateKey) (text : String) (digest : Bytes) (r s : ℕ)
      → p256_public_key_string c k ≡ ok text
      → c.sign k digest ≡ some (r, s)
      → (r < 256 ^ 32) × (s < 256 ^ 32) × (v.verify text digest r s ≡ true)

-- The bytes that a consumer checks, put together from what it reads: those of the header with the id, a dot,
-- those of the header with the time, a dot, and the body.
unfoldable pub checked_content : Bytes → Bytes → Bytes → Bytes
checked_content id timestamp body = id ++ (46 ∷ (timestamp ++ (46 ∷ body)))

-- The check of a signature of 64 bytes over the id, the time and the body of a request.
unfoldable pub check_scalars : Crypto → Consumer → WebhookRequest → Bytes → Bool
check_scalars c v q b =
    nat_eq (length b) 64
    && v.verify q.public_key
        (c.sha256 (checked_content (c.text_bytes q.id) (c.text_bytes q.timestamp) q.body))
        (number_from 0 (take 32 b)) (number_from 0 (drop 32 b))

check_decoded : Crypto → Consumer → WebhookRequest → Option Bytes → Bool
unfolding check_scalars
check_decoded c v q none = false
check_decoded c v q (some b) = check_scalars c v q b

unfoldable pub consumes : Crypto → Consumer → WebhookRequest → Bool
unfolding check_decoded
consumes c v q = check_decoded c v q (v.decode_signature q.signature)

module _ {ℓ} {A : Type ℓ} where
  take-append : (xs ys : List A) → take (length xs) (xs ++ ys) ≡ xs
  take-append [] ys = refl
  take-append (x ∷ xs) ys = ap (λ (r : List A). x ∷ r) (take-append xs ys)

  drop-append : (xs ys : List A) → drop (length xs) (xs ++ ys) ≡ ys
  drop-append [] ys = refl
  drop-append (x ∷ xs) ys = drop-append xs ys

  halves :
      (n : ℕ) (xs ys : List A) → length xs ≡ n → (take n (xs ++ ys) ≡ xs) × (drop n (xs ++ ys) ≡ ys)
  halves n xs ys e =
      subst (λ (k : ℕ). (take k (xs ++ ys) ≡ xs) × (drop k (xs ++ ys) ≡ ys)) e
        (take-append xs ys, drop-append xs ys)

-- The bytes of two scalars read back as them.
check_scalars_lem :
    (c : Crypto) (v : Consumer) (q : WebhookRequest) (r s : ℕ)
    → r < 256 ^ 32
    → s < 256 ^ 32
    → check_scalars c v q (big_endian 32 r ++ big_endian 32 s)
      ≡ v.verify q.public_key
          (c.sha256 (checked_content (c.text_bytes q.id) (c.text_bytes q.timestamp) q.body))
          r
          s
unfolding check_scalars
check_scalars_lem c v q r s small small' =
    let (front, back) = halves 32 (big_endian 32 r) (big_endian 32 s) (length-big_endian 32 r) in
    let wide : length (big_endian 32 r ++ big_endian 32 s) ≡ 64 = omega (
      arith,
      length-append (big_endian 32 r) (big_endian 32 s),
      length-big_endian 32 r,
      length-big_endian 32 s,
    ) in
    rw (front, back, wide, number_from-big_endian 32 r small, number_from-big_endian 32 s small')
      refl

-- What is signed is what is checked.
signed_content-checked :
    (c : Crypto) (v : Consumer) (id timestamp : String) (body : Bytes)
    → Laws c v
    → signed_content c id timestamp body
      ≡ checked_content (c.text_bytes id) (c.text_bytes timestamp) body
unfolding signed_content checked_content
signed_content-checked c v id timestamp body laws =
    rw
      (
        laws.joins id (String.◌++◌ "." (String.◌++◌ timestamp ".")),
        laws.joins "." (String.◌++◌ timestamp "."),
        laws.joins timestamp ".",
        laws.dot,
      )
      (append_assoc (c.text_bytes id) (46 ∷ (c.text_bytes timestamp ++ 46 ∷ [])) body
        ∙ ap (λ (l : Bytes). c.text_bytes id ++ (46 ∷ l))
            (append_assoc (c.text_bytes timestamp) (46 ∷ []) body))

-- What `NewWebhookClient` makes: its key is the one given, and its key text is that key's.
pub record IsClientOf (c : Crypto) (endpoint : String) (key : PrivateKey) (client : WebhookClient)
    : Type 0 where
  pub own_key : client.private_key ≡ key
  pub own_text : p256_public_key_string c key ≡ ok client.public_key

new_webhook_client-IsClientOf :
    (parse : UrlParser) (c : Crypto) (endpoint : String) (key : PrivateKey) (client : WebhookClient)
    → new_webhook_client parse c endpoint key ≡ ok client
    → IsClientOf c endpoint key client
unfolding new_webhook_client
new_webhook_client-IsClientOf parse c endpoint key client h =
    let (e, _, h1) = bind-eq-ok (endpoint_or (validate_webhook_endpoint parse endpoint)) _ h in
    let (text, known, h2) = bind-eq-ok (p256_public_key_string c key) _ h1 in
    subst (IsClientOf c endpoint key) (ok-injective h2)
      (record { own_key = refl; own_text = known })

signed_request-consumes :
    (c : Crypto) (v : Consumer) (client : WebhookClient) (id timestamp : String) (body : Bytes)
    (o : Option (ℕ × ℕ)) (q : WebhookRequest)
    → Laws c v
    → p256_public_key_string c client.private_key ≡ ok client.public_key
    → c.sign client.private_key (c.sha256 (signed_content c id timestamp body)) ≡ o
    → signed_request c client id timestamp body o ≡ ok q
    → (consumes c v q ≡ true) × (q.body ≡ body) × (q.url ≡ client.endpoint)
unfolding signed_request consumes signature_text check_decoded
signed_request-consumes c v client id timestamp body none q laws text e h = cc
signed_request-consumes c v client id timestamp body (some (r, s)) q laws text e h =
    let (small, small', good) = laws.verifies client.private_key client.public_key _ r s text e in
    subst
      (λ (x : WebhookRequest).
        (consumes c v x ≡ true) × (x.body ≡ body) × (x.url ≡ client.endpoint))
      (ok-injective h)
      (
        rw
            (
              laws.reads (big_endian 32 r ++ big_endian 32 s),
              check_scalars_lem c v _ r s small small',
              ← signed_content-checked c v id timestamp body laws,
            )
            good,
        refl,
        refl,
      )

-- A webhook client that `NewWebhookClient` made sends exactly the body that was encoded, to its
-- endpoint, and a consumer that checks the id, the time and the bytes that it reads against the headers
-- accepts the signature as one over id, dot, time, dot and body,
-- given libraries that read back and verify what they wrote and signed.
pub webhook_request-consumes :
    (parse : UrlParser) (c : Crypto) (v : Consumer) (endpoint : String) (key : PrivateKey)
    (client : WebhookClient) (id timestamp : String) (body : Bytes) (q : WebhookRequest)
    → Laws c v
    → new_webhook_client parse c endpoint key ≡ ok client
    → webhook_request c client id timestamp body ≡ ok q
    → (consumes c v q ≡ true) × (q.body ≡ body) × (q.url ≡ client.endpoint)
unfolding webhook_request
webhook_request-consumes parse c v endpoint key client id timestamp body q laws made h =
    let own = new_webhook_client-IsClientOf parse c endpoint key client made in
    signed_request-consumes c v client id timestamp body _ q laws (rw own.own_key own.own_text) refl
      h
