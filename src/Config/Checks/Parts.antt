-- ===== src/Config/Checks/Parts.antt =====
-- internal/config/config.go, `validate`, cut at its paragraphs. `url.Parse` and `net.ParseIP` are parameters.
use Prim.Native.Char.{code}
use Prim.Native.String.{[], ◌∷◌}
use dp1_feed_v.Shared.{
  String, Bool, false, ◌==◌, ◌||◌, ◌&&◌, not, Option, none, some, List, [], ◌∷◌, Outcome, ok, err,
  require, ◌>>◌, ◌>>=◌, if◌then◌else◌, trim_space, trim_right_slashes, equal_fold, any, nat_eq,
}
use dp1_feed_v.Notify.Endpoint.{
  Url, UrlParser, EndpointError, is_web_url, validate_webhook_endpoint,
}
use dp1_feed_v.Config.Integers.{is_negative, is_positive, z_ltb, z_add}
use dp1_feed_v.Config.Settings.{
  Config, ServerConfig, LoggingConfig, PlaylistConfig, NotificationConfig, NotificationClientConfig,
}

pub data ConfigError : Type 0 where
  database_url_required : ConfigError
  negative_clock_skew : ConfigError
  negative_max_request_bytes : ConfigError
  stream_url_required : ConfigError
  stream_api_key_required : ConfigError
  log_service_required : ConfigError
  log_environment_required : ConfigError
  stream_url_not_absolute : ConfigError
  stream_url_not_https : ConfigError
  stream_url_with_extras : ConfigError
  signing_key_required : ConfigError
  fetch_timeout_not_positive : ConfigError
  reserve_not_positive : ConfigError
  write_timeout_within_reserve : ConfigError
  write_timeout_within_fetch : ConfigError
  negative_playlist_references : ConfigError
  resolved_bytes_below_fetch_cap : ConfigError
  negative_resolved_bytes : ConfigError
  notification_timeout_not_positive : ConfigError
  write_timeout_within_notification : ConfigError
  webhook_key_required : ConfigError
  client_name_required : ConfigError
  client_name_duplicated : String → ConfigError
  client_url : String → EndpointError → ConfigError
  public_base_not_absolute : ConfigError
  public_base_loopback : ConfigError
  public_base_unspecified : ConfigError
  public_base_with_query : ConfigError
  public_base_with_credentials : ConfigError

-- What `net.ParseIP` tells of an address.
pub record Ip : Type 0 where
  pub is_loopback : Bool
  pub is_unspecified : Bool

pub record Web : Type 0 where
  pub parse_url : UrlParser
  pub parse_ip : String → Option Ip

abbrev blank : String → Bool
blank s = trim_space s == ""

unfoldable pub trim_logging : LoggingConfig → LoggingConfig
trim_logging l = record l {
  service = trim_space l.service;
  environment = trim_space l.environment;
  cloudflare = record {
    stream_url = trim_space l.cloudflare.stream_url;
    api_key = trim_space l.cloudflare.api_key;
  };
}

-- The stream URL as it was read.
unfoldable pub stream_url_lem : Option Url → Outcome ConfigError (Unit {0})
stream_url_lem none = err stream_url_not_absolute
stream_url_lem (some u) =
    require (not (u.host == "") && not (u.hostname == "")) stream_url_not_absolute
    >> (require (equal_fold u.scheme "https") stream_url_not_https
        >> require
            (not u.has_user && (u.raw_query == "" && (not u.force_query && u.fragment == "")))
            stream_url_with_extras)

-- Remote logging is off, or complete.
unfoldable pub check_cloudflare : UrlParser → LoggingConfig → Outcome ConfigError (Unit {0})
unfolding stream_url_lem
check_cloudflare parse l =
    if l.cloudflare.stream_url == "" && l.cloudflare.api_key == ""
    then ok tt
    else (require (not (l.cloudflare.stream_url == "")) stream_url_required
        >> (require (not (l.cloudflare.api_key == "")) stream_api_key_required
            >> (require (not (l.service == "")) log_service_required
                >> (require (not (l.environment == "")) log_environment_required
                    >> stream_url_lem (parse l.cloudflare.stream_url)))))

unfoldable pub check_timeouts : ServerConfig → PlaylistConfig → Outcome ConfigError (Unit {0})
check_timeouts s p =
    require (is_positive p.fetch_timeout) fetch_timeout_not_positive
    >> (require (is_positive s.response_write_reserve) reserve_not_positive
        >> (require (z_ltb s.response_write_reserve s.write_timeout) write_timeout_within_reserve
            >> require (z_ltb (z_add p.fetch_timeout s.response_write_reserve) s.write_timeout)
                write_timeout_within_fetch))

unfoldable pub check_limits : PlaylistConfig → Outcome ConfigError (Unit {0})
check_limits p =
    require (not (is_negative p.max_playlist_references)) negative_playlist_references
    >> (require
          (not
            (is_positive p.max_resolved_bytes && z_ltb p.max_resolved_bytes p.fetch_max_body_bytes))
          resolved_bytes_below_fetch_cap
        >> require (not (is_negative p.max_resolved_bytes)) negative_resolved_bytes)

-- What is asked of a deployment with these notification clients, before they are looked at.
unfoldable pub check_notifications :
    ServerConfig
    → PlaylistConfig
    → NotificationConfig
    → List NotificationClientConfig
    → Outcome ConfigError (Unit {0})
check_notifications s p n [] = ok tt
check_notifications s p n (c ∷ cs) =
    require (is_positive n.timeout) notification_timeout_not_positive
    >> (require
          (z_ltb (z_add (z_add p.fetch_timeout n.timeout) s.response_write_reserve) s.write_timeout)
          write_timeout_within_notification
        >> require (not (blank n.private_key_hex)) webhook_key_required)

-- The endpoint of a client, or the error with its name.
unfoldable pub named_endpoint : String → Outcome EndpointError String → Outcome ConfigError String
named_endpoint name (ok e) = ok e
named_endpoint name (err e) = err (client_url name e)

-- The loop over the clients; `names` are the names before.
unfoldable pub check_clients :
    UrlParser
    → List String
    → List NotificationClientConfig
    → Outcome ConfigError (List NotificationClientConfig)
unfolding named_endpoint
check_clients parse names [] = ok []
check_clients parse names (c ∷ cs) =
    let name = trim_space c.name in
    let rest = check_clients parse (name ∷ names) cs in
    require (not (name == "")) client_name_required
    >> (require (not (any (λ n. n == name) names)) (client_name_duplicated name)
        >> (named_endpoint name (validate_webhook_endpoint parse (trim_space c.url))
            >>= λ (e : String). rest >>= λ (ds : List NotificationClientConfig).
                ok ((record { name = name; url = e }) ∷ ds)))

-- `strings.TrimSuffix(s, ".")`
trim_dot : String → String
trim_dot [] = []
trim_dot (c ∷ []) = if nat_eq (code c) b'.' then [] else c ∷ []
trim_dot (c ∷ d ∷ s) = c ∷ trim_dot (d ∷ s)

-- The first part of `strings.Cut(s, "%")`: the text before a zone.
before_zone : String → String
before_zone [] = []
before_zone (c ∷ s) = let rest = before_zone s in if nat_eq (code c) b'%' then [] else c ∷ rest

-- `strings.Contains(s, "#")`
has_hash : String → Bool
has_hash [] = false
has_hash (c ∷ s) = nat_eq (code c) b'#' || has_hash s

loops_back : Option Ip → Bool
loops_back none = false
loops_back (some ip) = ip.is_loopback

unspecified : Option Ip → Bool
unspecified none = false
unspecified (some ip) = ip.is_unspecified

-- The host of a public base, its dot and zone removed.
unfoldable pub is_local_host : (String → Option Ip) → String → Bool
unfolding trim_dot before_zone loops_back
is_local_host parse_ip hostname =
    equal_fold (trim_dot hostname) "localhost"
    || loops_back (parse_ip (before_zone (trim_dot hostname)))

unfoldable pub is_unspecified_host : (String → Option Ip) → String → Bool
unfolding trim_dot before_zone unspecified
is_unspecified_host parse_ip hostname = unspecified (parse_ip (before_zone (trim_dot hostname)))

-- The public base as it was read, `base` its text.
unfoldable pub check_base_url :
    (String → Option Ip) → String → Option Url → Outcome ConfigError (Unit {0})
unfolding is_local_host is_unspecified_host has_hash
check_base_url parse_ip base none = err public_base_not_absolute
check_base_url parse_ip base (some u) =
    require (is_web_url u) public_base_not_absolute
    >> (require (not (is_local_host parse_ip u.hostname)) public_base_loopback
        >> (require (not (is_unspecified_host parse_ip u.hostname)) public_base_unspecified
            >> (require (u.raw_query == "" && (not u.force_query && not (has_hash base)))
                  public_base_with_query
                >> require (not u.has_user) public_base_with_credentials)))

-- Where there are clients, the public base that they are told, trimmed and checked.
unfoldable pub check_public_base :
    Web → List NotificationClientConfig → String → Outcome ConfigError String
unfolding check_base_url
check_public_base web [] base = ok base
check_public_base web (c ∷ cs) base =
    let b = trim_right_slashes (trim_space base) in
    check_base_url web.parse_ip b (web.parse_url b) >> ok b

-- The configuration that the checks leave.
unfoldable pub checked : Config → List NotificationClientConfig → String → Config
unfolding trim_logging
checked c clients base = record c {
  logging = trim_logging c.logging;
  notifications = record (c.notifications) { clients = clients };
  playlist = record (c.playlist) { public_base_url = base };
}

-- The end of `validate`: the clients and the public base, trimmed and checked.
unfoldable pub adjusted : Web → Config → Outcome ConfigError Config
unfolding check_clients check_public_base checked
adjusted web c =
    check_clients web.parse_url [] c.notifications.clients
    >>= λ (clients : List NotificationClientConfig).
        check_public_base web c.notifications.clients c.playlist.public_base_url
        >>= λ (base : String). ok (checked c clients base)

unfoldable pub validate : Web → Config → Outcome ConfigError Config
unfolding trim_logging check_cloudflare check_timeouts check_limits check_notifications adjusted
validate web c =
    require (not (c.database.url == "")) database_url_required
    >> (require (not (is_negative c.auth.intent_max_clock_skew)) negative_clock_skew
        >> (require (not (is_negative c.server.max_request_bytes)) negative_max_request_bytes
            >> (check_cloudflare web.parse_url (trim_logging c.logging)
                >> (require (not (blank c.playlist.signing_key_hex)) signing_key_required
                    >> (check_timeouts c.server c.playlist
                        >> (check_limits c.playlist
                            >> (check_notifications c.server c.playlist c.notifications
                                  c.notifications.clients
                                >> adjusted web c)))))))
