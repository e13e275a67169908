-- ===== src/Config/Laws/Valid.antt =====
-- What the start of the server can rely on: the configuration that `validate` accepts, and its default.
use dp1_feed_v.Shared.{
  String, true, false, ◌==◌, ◌&&◌, List, [], ◌∷◌, ok, ◌≡◌, ◌⊎◌, sym, subst, inl, inr, Bool-cases,
  require-eq-ok, then-eq-ok, bind-eq-ok, ok-injective, trim_space,
}
use dp1_feed_v.Config.Integers.{is_negative}
use dp1_feed_v.Config.Settings.{Config, LoggingConfig, NotificationClientConfig}
use dp1_feed_v.Config.Checks.Parts.{
  Web, trim_logging, check_cloudflare, check_notifications, check_clients, check_public_base,
  checked, adjusted, validate,
}
use dp1_feed_v.Config.Checks.Sound.{
  HasTime, HasLimits, IsStream, AreClients, Notifies, not-true, check_timeouts-HasTime,
  check_limits-HasLimits, check_clients-AreClients, check_cloudflare-IsStream,
  check_public_base-IsPublicBase,
}

-- A configuration that the server can be started with.
pub record IsValid (web : Web) (c : Config) : Type 0 where
  pub stored : (c.database.url == "") ≡ false
  pub fresh : is_negative c.auth.intent_max_clock_skew ≡ false
  pub bounded : is_negative c.server.max_request_bytes ≡ false
  pub logged :
      ((c.logging.cloudflare.stream_url == "" && c.logging.cloudflare.api_key == "") ≡ true)
      ⊎ IsStream web.parse_url c.logging
  pub signs : (trim_space c.playlist.signing_key_hex == "") ≡ false
  pub in_time : HasTime c.server c.playlist
  pub limited : HasLimits c.playlist
  pub clients : AreClients web.parse_url [] c.notifications.clients
  pub notifies : (c.notifications.clients ≡ []) ⊎ Notifies web c.server c.playlist c.notifications

logged_lem :
    (web : Web) (l : LoggingConfig)
    → check_cloudflare web.parse_url l ≡ ok tt
    → ((l.cloudflare.stream_url == "" && l.cloudflare.api_key == "") ≡ true)
      ⊎ IsStream web.parse_url l
logged_lem web l h =
    elim (Bool-cases (l.cloudflare.stream_url == "" && l.cloudflare.api_key == "")) [
      | inl e ↦ inl e
      | inr e ↦ inr (check_cloudflare-IsStream web.parse_url l e h)
    ]

notifies_lem :
    (web : Web) (c : Config) (given clients : List NotificationClientConfig) (base : String)
    → check_notifications c.server c.playlist c.notifications given ≡ ok tt
    → check_clients web.parse_url [] given ≡ ok clients
    → check_public_base web given c.playlist.public_base_url ≡ ok base
    → (clients ≡ [])
      ⊎ Notifies web
          (checked c clients base).server
          (checked c clients base).playlist
          (checked c clients base).notifications
unfolding check_clients check_notifications checked
notifies_lem web c [] clients base h k b = inl (sym (ok-injective k))
notifies_lem web c (x ∷ xs) clients base h k b =
    let (w, h1) = then-eq-ok _ _ h in
    let (o, y) = then-eq-ok _ _ h1 in
    inr (record {
      waits = require-eq-ok _ _ w;
      outlasts = require-eq-ok _ _ o;
      keyed = not-true _ (require-eq-ok _ _ y);
      based = check_public_base-IsPublicBase web x xs _ base b;
    })

record IsAdjusted (web : Web) (c d : Config) : Type 0 where
  clients : List NotificationClientConfig
  base : String
  checks : check_clients web.parse_url [] c.notifications.clients ≡ ok clients
  based : check_public_base web c.notifications.clients c.playlist.public_base_url ≡ ok base
  made : checked c clients base ≡ d

adjusted-IsAdjusted : (web : Web) (c d : Config) → adjusted web c ≡ ok d → IsAdjusted web c d
unfolding adjusted
adjusted-IsAdjusted web c d h =
    let (clients, k, h1) =
      bind-eq-ok (check_clients web.parse_url [] c.notifications.clients) _ h in
    let (base, p, made) =
      bind-eq-ok (check_public_base web c.notifications.clients c.playlist.public_base_url) _ h1 in
    record { clients = clients; base = base; checks = k; based = p; made = ok-injective made }

-- A configuration that `validate` accepts has a database and a signing key, no negative clock skew, request
-- size, reference count or resolved size, a fetch bound that the resolved size admits, remote
-- logging off or complete, a write timeout that outlasts one fetch and the reserve, and, where it has
-- notification clients, distinct names, endpoints that can be posted to, a key, time to notify, and a public
-- base that is not local. The sums of timeouts are those of int64.
pub validate-IsValid : (web : Web) (c d : Config) → validate web c ≡ ok d → IsValid web d
unfolding validate checked
validate-IsValid web c d h =
    let (a, h1) = then-eq-ok _ _ h in
    let (b, h2) = then-eq-ok _ _ h1 in
    let (m, h3) = then-eq-ok _ _ h2 in
    let (l, h4) = then-eq-ok _ _ h3 in
    let (s, h5) = then-eq-ok _ _ h4 in
    let (t, h6) = then-eq-ok _ _ h5 in
    let (n, h7) = then-eq-ok _ _ h6 in
    let (w, h8) = then-eq-ok _ _ h7 in
    let r : IsAdjusted web c d = adjusted-IsAdjusted web c d h8 in
    subst (IsValid web) r.made (record {
      stored = not-true _ (require-eq-ok _ _ a);
      fresh = not-true _ (require-eq-ok _ _ b);
      bounded = not-true _ (require-eq-ok _ _ m);
      logged = logged_lem web (trim_logging c.logging) l;
      signs = not-true _ (require-eq-ok _ _ s);
      in_time = check_timeouts-HasTime _ _ t;
      limited = check_limits-HasLimits _ n;
      clients = check_clients-AreClients web.parse_url [] _ r.clients r.checks;
      notifies = notifies_lem web c _ r.clients r.base w r.checks r.based;
    })
