-- ===== src/Tests/Webhooks.antt =====
-- A webhook that is signed and checked, with a code of bytes as texts of two letters.
use Prim.Native.Char.{Char, code}
use Prim.Native.String
use Prim.Native.String.append
use Prim.Native.String.{[], ◌∷◌}
use dp1_feed_v.Shared.{
  ℕ, zero, suc, ◌+◌, ◌<◌, ◌^◌, ◌≡◌, refl, ap, ◌∙◌, String, true, false, ◌&&◌, Option, none, some,
  [], ◌∷◌, ◌++◌, ok, nat_eq, arith, if◌then◌else◌, trim_space, equal_fold,
}
use dp1_feed_v.Models.{Bytes}
use dp1_feed_v.Notify.Endpoint.{
  Url, UrlParser, validate_webhook_endpoint, is_web_url, check_endpoint,
}
use dp1_feed_v.Notify.Webhook.Client.{
  PrivateKey, Crypto, WebhookClient, WebhookRequest, p256_public_key_string, new_webhook_client,
  signature_text, signed_request, webhook_request,
}
use dp1_feed_v.Notify.Webhook.Receiver.{Consumer, Laws, consumes, webhook_request-consumes}

abbrev mark : Char
mark = "a"

abbrev stroke : Char
stroke = "b"

-- A number as that many marks and a stroke.
number_text : ℕ → String → String
number_text zero rest = stroke ∷ rest
number_text (suc n) rest = mark ∷ number_text n rest

bytes_text : Bytes → String
unfolding number_text
bytes_text [] = []
bytes_text (n ∷ ns) = number_text n (bytes_text ns)

read_bytes : ℕ → String → Bytes
read_bytes n [] = []
read_bytes n (c ∷ s) =
    let more = read_bytes (suc n) s in
    let rest = read_bytes 0 s in if nat_eq (code c) b'a' then more else n ∷ rest

read_bytes-number_text :
    (acc n : ℕ) (rest : String)
    → read_bytes acc (number_text n rest) ≡ (acc + n) ∷ read_bytes 0 rest
unfolding read_bytes number_text
read_bytes-number_text acc zero rest = ap (λ (k : ℕ). k ∷ read_bytes 0 rest) (omega arith)
read_bytes-number_text acc (suc n) rest =
    read_bytes-number_text (suc acc) n rest ∙ ap (λ (k : ℕ). k ∷ read_bytes 0 rest) (omega arith)

read_bytes-bytes_text : (b : Bytes) → read_bytes 0 (bytes_text b) ≡ b
unfolding bytes_text read_bytes
read_bytes-bytes_text [] = refl
read_bytes-bytes_text (n ∷ ns) =
    read_bytes-number_text 0 n (bytes_text ns)
    ∙ ap (λ (k : ℕ). k ∷ read_bytes 0 (bytes_text ns)) (omega arith)
    ∙ ap (λ (l : Bytes). n ∷ l) (read_bytes-bytes_text ns)

-- What stands behind the five characters `p256=`.
behind : String → Option String
behind (a ∷ b ∷ c ∷ d ∷ e ∷ s) = some s
behind s = none

read_header : Option String → Option Bytes
unfolding read_bytes
read_header none = none
read_header (some s) = some (read_bytes 0 s)

-- A text in front, one character more.
in_front : (c : Char) (t s r : String) → String.◌++◌ t s ≡ r → String.◌++◌ (c ∷ t) s ≡ c ∷ r
in_front c t s r e = append.cons c t s ∙ ap (λ (v : String). c ∷ v) e

behind-prefix : (s : String) → behind (String.◌++◌ "p256=" s) ≡ some s
unfolding behind
behind-prefix s = ap behind (
    in_front "p" "256=" s _ (
      in_front "2" "56=" s _
        (in_front "5" "6=" s _ (in_front "6" "=" s _ (in_front "=" "" s s (append.nil s))))))

-- The bytes of a text of ASCII characters.
text_codes : String → Bytes
text_codes [] = []
text_codes (c ∷ s) = code c ∷ text_codes s

text_codes-append : (s t : String) → text_codes (String.◌++◌ s t) ≡ text_codes s ++ text_codes t
unfolding text_codes
text_codes-append [] t = ap text_codes (append.nil t)
text_codes-append (c ∷ s) t =
    ap text_codes (append.cons c s t) ∙ ap (λ (l : Bytes). code c ∷ l) (text_codes-append s t)

abbrev crypto : Crypto
crypto = record {
  decode_hex = λ s. some [];
  parse_raw_private_key = λ raw. some (record { scalar = raw });
  public_bytes = λ k. some (4 ∷ []);
  sha256 = λ raw. raw;
  sign = λ k digest. some (5, 6);
  base64_url = bytes_text;
  text_bytes = text_codes;
}

abbrev consumer : Consumer
consumer = record {
  decode_signature = λ s. read_header (behind s);
  verify = λ key digest r s. nat_eq r 5 && nat_eq s 6;
}

small_scalars :
    (r s : ℕ)
    → ◌≡◌ {A = Option (ℕ × ℕ)} (some (5, 6)) (some (r, s))
    → (r < 256 ^ 32) × (s < 256 ^ 32) × ((nat_eq r 5 && nat_eq s 6) ≡ true)
small_scalars r s e =
    let er : 5 ≡ r = cc in let es : 6 ≡ s = cc in (omega arith, omega arith, rw (← er, ← es) refl)

laws : Laws crypto consumer
unfolding read_header behind text_codes
laws = record {
  joins = text_codes-append;
  dot = refl;
  reads = λ b.
      ap read_header (behind-prefix (bytes_text b))
      ∙ ap (λ (l : Bytes). some l) (read_bytes-bytes_text b);
  verifies = λ k text digest r s known signed. small_scalars r s signed;
}

abbrev endpoint_url : Url
endpoint_url = record {
  scheme = "https";
  host = "hooks.example";
  hostname = "hooks.example";
  has_user = false;
  raw_query = "";
  force_query = false;
  fragment = "";
}

abbrev parser : UrlParser
parser = λ s. some endpoint_url

abbrev key : PrivateKey
key = record { scalar = 9 ∷ [] }

abbrev client : WebhookClient
client = record {
  endpoint = "https://hooks.example";
  private_key = key;
  public_key = String.◌++◌ "p256:" (bytes_text (4 ∷ []));
  follows_redirects = false;
}

abbrev request : WebhookRequest
request = record {
  url = "https://hooks.example";
  content_type = "application/json";
  id = "evt_1";
  timestamp = "17";
  public_key = client.public_key;
  signature = signature_text crypto 5 6;
  body = 7 ∷ [];
}

client_made : new_webhook_client parser crypto " https://hooks.example" key ≡ ok client
unfolding new_webhook_client validate_webhook_endpoint is_web_url check_endpoint trim_space
    equal_fold p256_public_key_string
client_made = refl

webhook_request-consumes_example :
    (consumes crypto consumer request ≡ true)
    × (request.body ≡ 7 ∷ [])
    × (request.url ≡ client.endpoint)
unfolding webhook_request signed_request
webhook_request-consumes_example =
    webhook_request-consumes parser crypto consumer " https://hooks.example" key client "evt_1" "17"
      (7 ∷ []) request laws client_made refl
