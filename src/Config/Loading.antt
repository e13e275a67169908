-- ===== src/Config/Loading.antt =====
-- internal/config/config.go, `Load` and what it derives from the keys. The file system and the YAML reader are
-- functions: the bytes of a file, and the fields that a document sets on a configuration.
use dp1_feed_v.Shared.{
  String, ◌==◌, Option, none, some, Outcome, ok, err, ◌>>=◌, if◌then◌else◌, trim_space,
}
use dp1_feed_v.Models.{Bytes}
use dp1_feed_v.Dp1svc.Keys.{
  Ed25519, KeyError, signing_kid_not_derived, ed25519_private_key_from_hex,
}
use dp1_feed_v.Notify.Webhook.Client.{
  PrivateKey, Crypto, WebhookError, parse_p256_private_key_hex, p256_public_key_string,
}
use dp1_feed_v.Config.Settings.{Config, default_config}
use dp1_feed_v.Config.Environment.{Readers, EnvError, apply_env}
use dp1_feed_v.Config.Checks.Parts.{Web, ConfigError, validate}

pub data LoadError : Type 0 where
  config_read : LoadError
  config_yaml : LoadError
  environment : EnvError → LoadError
  invalid : ConfigError → LoadError
  playlist_signing_key : KeyError → LoadError
  webhook_key : WebhookError → LoadError

-- `filepath.Clean` and `os.ReadFile`, `yaml.Unmarshal` over a configuration, and what the parts use.
pub record Machine : Type 0 where
  pub read_file : String → Option Bytes
  pub unmarshal : Bytes → Config → Option Config
  pub getenv : String → String
  pub readers : Readers
  pub web : Web
  pub ed25519 : Ed25519
  pub crypto : Crypto

or_fail {ℓ} : {A : Type ℓ} → LoadError → Option A → Outcome LoadError A
or_fail e none = err e
or_fail e (some a) = ok a

unfoldable pub labelled {ℓ κ} :
    {E : Type κ} {A : Type ℓ} → (E → LoadError) → Outcome E A → Outcome LoadError A
labelled f (ok a) = ok a
labelled f (err e) = err (f e)

unfoldable pub read_config : Machine → String → Outcome LoadError Config
unfolding or_fail default_config
read_config m path =
    if path == ""
    then ok default_config
    else (or_fail config_read (m.read_file path) >>= λ (b : Bytes).
        or_fail config_yaml (m.unmarshal b default_config))

unfoldable pub with_kid : Config → Option String → Outcome KeyError Config
with_kid c none = err signing_kid_not_derived
with_kid c (some kid) = ok (record c { playlist = record (c.playlist) { signing_kid = kid } })

unfoldable pub derive_signing_kid : Ed25519 → Config → Outcome KeyError Config
unfolding with_kid
derive_signing_kid e c =
    ed25519_private_key_from_hex e c.playlist.signing_key_hex >>= λ (priv : Bytes).
    with_kid c (e.did_key (e.public priv))

unfoldable pub derive_webhook_public_key : Crypto → Config → Outcome WebhookError Config
derive_webhook_public_key k c =
    if trim_space c.notifications.private_key_hex == ""
    then ok c
    else (parse_p256_private_key_hex k c.notifications.private_key_hex >>= λ (key : PrivateKey).
        p256_public_key_string k key >>= λ (text : String).
        ok (record c { notifications = record (c.notifications) { public_key = text } }))

unfoldable pub load : Machine → String → Outcome LoadError Config
unfolding read_config labelled derive_signing_kid derive_webhook_public_key
load m path = read_config m path >>= λ (a : Config).
    labelled environment (apply_env m.readers m.getenv a) >>= λ (b : Config).
    labelled invalid (validate m.web b) >>= λ (c : Config).
    labelled playlist_signing_key (derive_signing_kid m.ed25519 c) >>= λ (d : Config).
    labelled webhook_key (derive_webhook_public_key m.crypto d)
