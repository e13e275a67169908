-- ===== src/Config/Checks/Sound.antt =====
-- What an accepted configuration guarantees, and that the checks accept nothing else.
use dp1_feed_v.Shared.{
  String, Bool, true, false, ◌==◌, ◌&&◌, not, Option, none, some, List, [], ◌∷◌, Outcome, ok, err,
  ◌≡◌, refl, ap, subst, require-eq-ok, then-eq-ok, bind-eq-ok, ok-injective, trim_space, equal_fold,
  any,
}
use dp1_feed_v.Notify.Endpoint.{
  Url, UrlParser, EndpointError, IsEndpoint, is_web_url, validate_webhook_endpoint-IsEndpoint,
}
use dp1_feed_v.Config.Integers.{is_negative, is_positive, z_ltb, z_add}
use dp1_feed_v.Config.Settings.{
  ServerConfig, LoggingConfig, PlaylistConfig, NotificationConfig, NotificationClientConfig,
}
use dp1_feed_v.Config.Checks.Parts.{
  Web, stream_url_lem, check_cloudflare, check_timeouts, check_limits, named_endpoint,
  check_clients, check_base_url, check_public_base, is_local_host, is_unspecified_host,
}

-- Every write that the feed accepts has time to fetch a reference and to answer.
pub record HasTime (s : ServerConfig) (p : PlaylistConfig) : Type 0 where
  pub fetches : is_positive p.fetch_timeout ≡ true
  pub reserves : is_positive s.response_write_reserve ≡ true
  pub answers : z_ltb s.response_write_reserve s.write_timeout ≡ true
  pub outlasts : z_ltb (z_add p.fetch_timeout s.response_write_reserve) s.write_timeout ≡ true

pub record HasLimits (p : PlaylistConfig) : Type 0 where
  pub references : is_negative p.max_playlist_references ≡ false
  pub bytes : is_negative p.max_resolved_bytes ≡ false
  pub one_fits :
      is_positive p.max_resolved_bytes ≡ true
      → z_ltb p.max_resolved_bytes p.fetch_max_body_bytes ≡ false

-- A client with a name that is its own, and an endpoint that a webhook can be posted to.
pub record IsClient (parse : UrlParser) (c : NotificationClientConfig) : Type 0 where
  pub named : (c.name == "") ≡ false
  pub endpoint : (u : Url) × (parse c.url ≡ some u) × IsEndpoint u

-- The clients, each with a name that none of `names` nor of the clients before it has.
abbrev pub AreClients : UrlParser → List String → List NotificationClientConfig → Type 0
AreClients parse names [] = Unit
AreClients parse names (c ∷ cs) =
    IsClient parse c × (any (λ n. n == c.name) names ≡ false) × AreClients parse (c.name ∷ names) cs

pub not-true : (b : Bool) → not b ≡ true → b ≡ false
not-true true h = cc
not-true false h = refl

not_both : (a b : Bool) → not (a && b) ≡ true → a ≡ true → b ≡ false
not_both true b h e = not-true b h
not_both false b h e = cc

pub check_timeouts-HasTime :
    (s : ServerConfig) (p : PlaylistConfig) → check_timeouts s p ≡ ok tt → HasTime s p
unfolding check_timeouts
check_timeouts-HasTime s p h =
    let (a, h1) = then-eq-ok _ _ h in
    let (b, h2) = then-eq-ok _ _ h1 in
    let (c, d) = then-eq-ok _ _ h2 in
    record {
      fetches = require-eq-ok _ _ a;
      reserves = require-eq-ok _ _ b;
      answers = require-eq-ok _ _ c;
      outlasts = require-eq-ok _ _ d;
    }

pub check_limits-HasLimits : (p : PlaylistConfig) → check_limits p ≡ ok tt → HasLimits p
unfolding check_limits
check_limits-HasLimits p h =
    let (a, h1) = then-eq-ok _ _ h in
    let (b, c) = then-eq-ok _ _ h1 in
    record {
      references = not-true _ (require-eq-ok _ _ a);
      bytes = not-true _ (require-eq-ok _ _ c);
      one_fits = not_both _ _ (require-eq-ok _ _ b);
    }

named_endpoint_lem :
    (name : String) (m : Outcome EndpointError String) {e : String}
    → named_endpoint name m ≡ ok e
    → m ≡ ok e
unfolding named_endpoint
named_endpoint_lem name (ok x) h = ap (λ (z : String). ok z) (ok-injective h)
named_endpoint_lem name (err x) h = cc

pub check_clients-AreClients :
    (parse : UrlParser) (names : List String) (cs ds : List NotificationClientConfig)
    → check_clients parse names cs ≡ ok ds
    → AreClients parse names ds
unfolding check_clients
check_clients-AreClients parse names [] ds h =
    subst (λ (l : List NotificationClientConfig). AreClients parse names l) (ok-injective h) tt
check_clients-AreClients parse names (c ∷ cs) ds h =
    let (a, h1) = then-eq-ok _ _ h in
    let (b, h2) = then-eq-ok _ _ h1 in
    let (e, m, h3) = bind-eq-ok _ _ h2 in
    let (rest, r, h4) = bind-eq-ok _ _ h3 in
    let made = named_endpoint_lem (trim_space c.name) _ m in
    let (_, web) = validate_webhook_endpoint-IsEndpoint parse (trim_space c.url) e made in
    let first : NotificationClientConfig = record { name = trim_space c.name; url = e } in
    let good : AreClients parse names (first ∷ rest) = (
      record { named = not-true _ (require-eq-ok _ _ a); endpoint = web },
      not-true _ (require-eq-ok _ _ b),
      check_clients-AreClients parse (trim_space c.name ∷ names) cs rest r,
    ) in
    subst (λ (l : List NotificationClientConfig). AreClients parse names l) (ok-injective h4) good

-- An https URL without credentials, query and fragment.
pub record IsStreamUrl (u : Url) : Type 0 where
  pub hosted : (not (u.host == "") && not (u.hostname == "")) ≡ true
  pub secure : equal_fold u.scheme "https" ≡ true
  pub bare :
      (not u.has_user && (u.raw_query == "" && (not u.force_query && u.fragment == ""))) ≡ true

-- Remote logging has its URL and key, is named, and posts to an https URL with nothing but a path.
pub record IsStream (parse : UrlParser) (l : LoggingConfig) : Type 0 where
  pub keyed : (l.cloudflare.api_key == "") ≡ false
  pub named : (l.service == "") ≡ false
  pub placed : (l.environment == "") ≡ false
  pub target : (u : Url) × (parse l.cloudflare.stream_url ≡ some u) × IsStreamUrl u

check_cloudflare-IsStreamUrl :
    (o : Option Url) → stream_url_lem o ≡ ok tt → (u : Url) × (o ≡ some u) × IsStreamUrl u
unfolding stream_url_lem
check_cloudflare-IsStreamUrl none h = cc
check_cloudflare-IsStreamUrl (some u) h =
    let (a, h1) = then-eq-ok _ _ h in
    let (b, c) = then-eq-ok _ _ h1 in
    (
      u,
      refl,
      record {
        hosted = require-eq-ok _ _ a;
        secure = require-eq-ok _ _ b;
        bare = require-eq-ok _ _ c;
      },
    )

pub check_cloudflare-IsStream :
    (parse : UrlParser) (l : LoggingConfig)
    → (l.cloudflare.stream_url == "" && l.cloudflare.api_key == "") ≡ false
    → check_cloudflare parse l ≡ ok tt
    → IsStream parse l
unfolding check_cloudflare
check_cloudflare-IsStream parse l on h =
    let (a, h1) = then-eq-ok _ _ (rw on at h) in
    let (b, h2) = then-eq-ok _ _ h1 in
    let (c, h3) = then-eq-ok _ _ h2 in
    let (d, e) = then-eq-ok _ _ h3 in
    record {
      keyed = not-true _ (require-eq-ok _ _ b);
      named = not-true _ (require-eq-ok _ _ c);
      placed = not-true _ (require-eq-ok _ _ d);
      target = check_cloudflare-IsStreamUrl _ e;
    }

-- The public base that is told to the clients: an HTTP(S) URL of a host that they can reach.
pub record IsPublicBase (web : Web) (base : String) : Type 0 where
  pub url : Url
  pub parsed : web.parse_url base ≡ some url
  pub absolute : is_web_url url ≡ true
  pub remote : is_local_host web.parse_ip url.hostname ≡ false
  pub specified : is_unspecified_host web.parse_ip url.hostname ≡ false
  pub anonymous : url.has_user ≡ false

base_url-IsPublicBase :
    (web : Web) (base : String) (o : Option Url)
    → web.parse_url base ≡ o
    → check_base_url web.parse_ip base o ≡ ok tt
    → IsPublicBase web base
unfolding check_base_url
base_url-IsPublicBase web base none e h = cc
base_url-IsPublicBase web base (some u) e h =
    let (a, h1) = then-eq-ok _ _ h in
    let (b, h2) = then-eq-ok _ _ h1 in
    let (c, h3) = then-eq-ok _ _ h2 in
    let (_, d) = then-eq-ok _ _ h3 in
    record {
      url = u;
      parsed = e;
      absolute = require-eq-ok _ _ a;
      remote = not-true _ (require-eq-ok _ _ b);
      specified = not-true _ (require-eq-ok _ _ c);
      anonymous = not-true _ (require-eq-ok _ _ d);
    }

-- What a deployment with notification clients has besides.
pub record Notifies (web : Web) (s : ServerConfig) (p : PlaylistConfig) (n : NotificationConfig)
    : Type 0 where
  pub waits : is_positive n.timeout ≡ true
  pub outlasts :
      z_ltb (z_add (z_add p.fetch_timeout n.timeout) s.response_write_reserve) s.write_timeout
      ≡ true
  pub keyed : (trim_space n.private_key_hex == "") ≡ false
  pub based : IsPublicBase web p.public_base_url

pub check_public_base-IsPublicBase :
    (web : Web) (c : NotificationClientConfig) (cs : List NotificationClientConfig)
    (raw base : String)
    → check_public_base web (c ∷ cs) raw ≡ ok base
    → IsPublicBase web base
unfolding check_public_base
check_public_base-IsPublicBase web c cs raw base h =
    let (a, b) = then-eq-ok _ _ h in
    subst (IsPublicBase web) (ok-injective b) (base_url-IsPublicBase web _ _ refl a)
