-- ===== src/Config/Environment.antt =====
-- internal/config/config.go, `applyEnv`: the variables of the environment in the order in which they are
-- read, each with the field that it overrides. The readers of `time`, `strconv` and `encoding/json` are
-- parameters, but for `strconv.Atoi`.

use dp1_feed_v.Shared.{
  String, Bool, ◌==◌, ◌||◌, Option, none, some, List, [], ◌∷◌, ℤ, Outcome, ok, err, ◌>>=◌,
  if◌then◌else◌, trim_space, trim_right_slashes, split_commas, equal_fold,
}
use dp1_feed_v.Http.Queries.{atoi}
use dp1_feed_v.Config.Settings.{
  Config, ServerConfig, LoggingConfig, PlaylistConfig, NotificationClientConfig,
}

-- `time.ParseDuration`, `strconv.ParseInt` in base 10 at 64 bits, and `json.Unmarshal` into a list of
-- notification clients.
pub record Readers : Type 0 where
  pub parse_duration : String → Option ℤ
  pub parse_int64 : String → Option ℤ
  pub decode_clients : String → Option (List NotificationClientConfig)

pub data EnvError : Type 0 where
  bad_intent_max_clock_skew : EnvError
  bad_max_request_bytes : EnvError
  bad_max_playlist_references : EnvError
  bad_max_resolved_bytes : EnvError
  bad_notification_clients : EnvError

-- `strings.EqualFold(v, "true") || v == "1"`
is_true : String → Bool
is_true v = equal_fold v "true" || v == "1"

-- The parts of a list of origins that are not blank.
origins_of : List String → List String
origins_of [] = []
origins_of (part ∷ parts) =
    let rest = origins_of parts in if trim_space part == "" then rest else trim_space part ∷ rest

set_origins : List String → Config → Config
set_origins [] c = c
set_origins (o ∷ os) c = record c { cors = record { allow_origins = o ∷ os } }

-- A port that does not read as a number is passed over.
set_port : Option ℤ → Config → Config
set_port none c = c
set_port (some p) c = record c { server = record (c.server) { port = p } }

-- A variable that takes any text, or one whose text must read as a value.
pub data Override : Type 0 where
  plain : String → (String → Config → Config) → Override
  read : String → (String → Option (Config → Config)) → EnvError → Override

abbrev server_in : (ServerConfig → ServerConfig) → Config → Config
server_in f c = record c { server = f c.server }

abbrev logging_in : (LoggingConfig → LoggingConfig) → Config → Config
logging_in f c = record c { logging = f c.logging }

abbrev playlist_in : (PlaylistConfig → PlaylistConfig) → Config → Config
playlist_in f c = record c { playlist = f c.playlist }

-- What a reader's value does to the configuration.
abbrev pub mapped {ℓ} : {A : Type ℓ} → (A → Config → Config) → Option A → Option (Config → Config)
mapped f none = none
mapped f (some a) = some (f a)

module _ (r : Readers) where
  unfoldable pub overrides : List Override
  unfolding is_true origins_of set_origins set_port
  overrides =
      plain "DP1_FEED_DATABASE_URL" (λ v c. record c { database = record (c.database) { url = v } })
      ∷ read "DP1_FEED_INTENT_MAX_CLOCK_SKEW"
          (λ v.
            mapped (λ d c. record c { auth = record { intent_max_clock_skew = d } })
              (r.parse_duration v))
          bad_intent_max_clock_skew
      ∷ read "DP1_FEED_MAX_REQUEST_BYTES"
          (λ v. mapped (λ n. server_in (λ s. record s { max_request_bytes = n })) (r.parse_int64 v))
          bad_max_request_bytes
      ∷ read "DP1_FEED_MAX_PLAYLIST_REFERENCES"
          (λ v. mapped (λ n. playlist_in (λ p. record p { max_playlist_references = n })) (atoi v))
          bad_max_playlist_references
      ∷ read "DP1_FEED_MAX_RESOLVED_BYTES"
          (λ v.
            mapped (λ n. playlist_in (λ p. record p { max_resolved_bytes = n })) (r.parse_int64 v))
          bad_max_resolved_bytes
      ∷ plain "DP1_FEED_SERVER_HOST" (λ v. server_in (λ s. record s { host = v }))
      ∷ plain "DP1_FEED_SERVER_PORT" (λ v. set_port (atoi v))
      ∷ plain "DP1_FEED_LOG_DEBUG" (λ v. logging_in (λ l. record l { debug = is_true v }))
      ∷ plain "DP1_FEED_LOG_SERVICE" (λ v. logging_in (λ l. record l { service = v }))
      ∷ plain "DP1_FEED_LOG_ENVIRONMENT" (λ v. logging_in (λ l. record l { environment = v }))
      ∷ plain "DP1_FEED_CLOUDFLARE_STREAM_URL" (λ v.
        logging_in (λ l. record l { cloudflare = record (l.cloudflare) { stream_url = v } }))
      ∷ plain "DP1_FEED_CLOUDFLARE_API_KEY"
          (λ v. logging_in (λ l. record l { cloudflare = record (l.cloudflare) { api_key = v } }))
      ∷ plain "DP1_FEED_EXTENSIONS_ENABLED"
          (λ v c. record c { extensions = record { enabled = is_true v } })
      ∷ plain "DP1_FEED_SIGNING_KEY_HEX" (λ v. playlist_in (λ p. record p { signing_key_hex = v }))
      ∷ plain "DP1_FEED_PUBLIC_BASE_URL"
          (λ v. playlist_in (λ p. record p { public_base_url = trim_right_slashes v }))
      ∷ plain "DP1_FEED_ALLOW_PRIVATE_FETCH_DESTINATIONS"
          (λ v. playlist_in (λ p. record p { allow_private_fetch_destinations = is_true v }))
      ∷ plain "DP1_FEED_CORS_ALLOW_ORIGINS" (λ v. set_origins (origins_of (split_commas v)))
      ∷ read "DP1_FEED_NOTIFICATION_CLIENTS"
          (λ v.
            mapped (λ l c. record c { notifications = record (c.notifications) { clients = l } })
              (r.decode_clients v))
          bad_notification_clients
      ∷ plain "DP1_FEED_WEBHOOK_PRIVATE_KEY_HEX"
          (λ v c. record c { notifications = record (c.notifications) { private_key_hex = v } })
      ∷ []

-- A value that was read sets its field; one that was not is an error.
unfoldable pub set_or : Option (Config → Config) → EnvError → Config → Outcome EnvError Config
set_or none e c = err e
set_or (some f) e c = ok (f c)

-- `os.Getenv`, the empty text where a variable is missing.
module _ (env : String → String) where
  unfoldable pub apply_override : Override → Config → Outcome EnvError Config
  unfolding set_or
  apply_override (plain name f) c = if env name == "" then ok c else ok (f (env name) c)
  apply_override (read name f e) c = if env name == "" then ok c else set_or (f (env name)) e c

  unfoldable pub apply_overrides : List Override → Config → Outcome EnvError Config
  unfolding apply_override
  apply_overrides [] c = ok c
  apply_overrides (o ∷ os) c = apply_override o c >>= apply_overrides os

unfoldable pub apply_env : Readers → (String → String) → Config → Outcome EnvError Config
unfolding apply_overrides
apply_env r env c = apply_overrides env (overrides r) c
