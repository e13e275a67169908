-- ===== src/Notify/Endpoint.antt =====
-- internal/notification/client.go, `ValidateWebhookEndpoint`. The reader of `net/url` is a parameter.
use dp1_feed_v.Shared.{
  String, Bool, true, ◌==◌, not, ◌&&◌, ◌||◌, Option, none, some, Outcome, ok, err, require, ◌>>◌,
  ◌>>=◌, trim_space, equal_fold, ◌≡◌, refl, require-eq-ok, then-eq-ok, ok-injective, subst,
}

-- What `url.Parse` tells of a URL: `hostname` is the host without brackets and port.
pub record Url : Type 0 where
  pub scheme : String
  pub host : String
  pub hostname : String
  pub has_user : Bool
  pub raw_query : String
  pub force_query : Bool
  pub fragment : String

abbrev pub UrlParser : Type 0
UrlParser = String → Option Url

pub data EndpointError : Type 0 where
  endpoint_not_absolute : EndpointError
  endpoint_has_fragment : EndpointError
  endpoint_has_credentials : EndpointError
  endpoint_has_query : EndpointError

-- An absolute HTTP(S) URL: it has a host, and one of the two schemes in any case of letters.
unfoldable pub is_web_url : Url → Bool
is_web_url u =
    not (u.host == "")
    && (not (u.hostname == "") && (equal_fold u.scheme "http" || equal_fold u.scheme "https"))

abbrev parsed_or : Option Url → Outcome EndpointError Url
parsed_or none = err endpoint_not_absolute
parsed_or (some u) = ok u

-- The tests of a URL that was read.
unfoldable pub check_endpoint : Url → Outcome EndpointError (Unit {0})
check_endpoint u =
    require (is_web_url u) endpoint_not_absolute
    >> (require (u.fragment == "") endpoint_has_fragment
        >> (require (not u.has_user) endpoint_has_credentials
            >> require (u.raw_query == "" && not u.force_query) endpoint_has_query))

unfoldable pub validate_webhook_endpoint : UrlParser → String → Outcome EndpointError String
unfolding check_endpoint
validate_webhook_endpoint parse endpoint =
    let e = trim_space endpoint in parsed_or (parse e) >>= λ (u : Url). check_endpoint u >> ok e

-- A URL that a webhook can be posted to as it stands.
pub record IsEndpoint (u : Url) : Type 0 where
  pub web : is_web_url u ≡ true
  pub plain : u.fragment == "" ≡ true
  pub anonymous : not u.has_user ≡ true
  pub no_query : (u.raw_query == "" && not u.force_query) ≡ true

check_endpoint-IsEndpoint : (u : Url) → check_endpoint u ≡ ok tt → IsEndpoint u
unfolding check_endpoint
check_endpoint-IsEndpoint u h =
    let (a, h1) = then-eq-ok _ _ h in
    let (b, h2) = then-eq-ok _ _ h1 in
    let (c, d) = then-eq-ok _ _ h2 in
    record {
      web = require-eq-ok _ _ a;
      plain = require-eq-ok _ _ b;
      anonymous = require-eq-ok _ _ c;
      no_query = require-eq-ok _ _ d;
    }

parsed-IsEndpoint :
    (o : Option Url) (t : String) {e : String}
    → (parsed_or o >>= λ (u : Url). check_endpoint u >> ok t) ≡ ok e
    → (t ≡ e) × ((u : Url) × (o ≡ some u) × IsEndpoint u)
parsed-IsEndpoint none t h = cc
parsed-IsEndpoint (some u) t h =
    let (c, d) = then-eq-ok (check_endpoint u) _ h in
    (ok-injective d, (u, refl, check_endpoint-IsEndpoint u c))

-- An endpoint that is accepted is the trimmed text, and it reads as a URL that a webhook can be posted to.
pub validate_webhook_endpoint-IsEndpoint :
    (parse : UrlParser) (endpoint e : String)
    → validate_webhook_endpoint parse endpoint ≡ ok e
    → (trim_space endpoint ≡ e) × ((u : Url) × (parse e ≡ some u) × IsEndpoint u)
unfolding validate_webhook_endpoint
validate_webhook_endpoint-IsEndpoint parse endpoint e h =
    let (t, (u, p, i)) = parsed-IsEndpoint (parse (trim_space endpoint)) (trim_space endpoint) h in
    (t, (u, subst (λ (x : String). parse x ≡ some u) t p, i))
