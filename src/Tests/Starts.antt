-- ===== src/Tests/Starts.antt =====
-- The start of a server from its defaults and one variable, and the checks of its timeouts.
use dp1_feed_v.Shared.{
  ◌≡◌, ◌↔◌, refl, String, false, ◌==◌, none, some, [], ◌∷◌, ok, pos, arith, if◌then◌else◌,
  trim_space,
}
use dp1_feed_v.Models.{Bytes}
use dp1_feed_v.Dp1svc.Keys.{ed25519_private_key_from_hex}
use dp1_feed_v.Notify.Endpoint.{Url}
use dp1_feed_v.Config.Integers.{is_negative, is_positive, z_ltb, z_add}
use dp1_feed_v.Config.Settings.{Config, ServerConfig, PlaylistConfig, default_config}
use dp1_feed_v.Config.Environment.{Readers, overrides, apply_env}
use dp1_feed_v.Config.Checks.Parts.{check_timeouts, validate}
use dp1_feed_v.Config.Loading.{Machine, load, read_config}
use dp1_feed_v.Config.Laws.Valid.{IsValid}
use dp1_feed_v.Config.Laws.Loads.{HasKid, load-IsValid}
use dp1_feed_v.Config.Laws.Timeouts.{check_timeouts_overflow}
use dp1_feed_v.Config.Laws.Variables.{IsReadable, apply_env_iff}

abbrev seed : Bytes
seed =
    0 ∷ 0 ∷ 0 ∷ 0 ∷ 0 ∷ 0 ∷ 0 ∷ 0 ∷ 0 ∷ 0 ∷ 0 ∷ 0 ∷ 0 ∷ 0 ∷ 0 ∷ 0 ∷ 0 ∷ 0 ∷ 0 ∷ 0 ∷ 0 ∷ 0 ∷ 0 ∷ 0
    ∷ 0 ∷ 0 ∷ 0 ∷ 0 ∷ 0 ∷ 0 ∷ 0 ∷ 0 ∷ []

abbrev web_url : Url
web_url = record {
  scheme = "https";
  host = "feed.example";
  hostname = "feed.example";
  has_user = false;
  raw_query = "";
  force_query = false;
  fragment = "";
}

abbrev readers : Readers
readers = record {
  parse_duration = λ s. some (pos 7);
  parse_int64 = λ s. some (pos 9);
  decode_clients = λ s. none;
}

-- Only the signing key is set.
abbrev variables : String → String
variables name = if name == "DP1_FEED_SIGNING_KEY_HEX" then "ab" else ""

abbrev machine : Machine
machine = record {
  read_file = λ path. none;
  unmarshal = λ raw c. some c;
  getenv = variables;
  readers = readers;
  web = record { parse_url = λ s. some web_url; parse_ip = λ s. none };
  ed25519 = record {
    decode_hex = λ s. some seed;
    new_key_from_seed = λ s. s;
    public = λ k. k;
    did_key = λ k. some "did:key:z";
  };
  crypto = record {
    decode_hex = λ s. none;
    parse_raw_private_key = λ raw. none;
    public_bytes = λ k. none;
    sha256 = λ raw. raw;
    sign = λ k digest. none;
    base64_url = λ raw. "";
    text_bytes = λ s. [];
  };
}

abbrev loaded : Config
loaded = record default_config {
  playlist = record (default_config.playlist) { signing_key_hex = "ab"; signing_kid = "did:key:z" };
}

load_runs : load machine "" ≡ ok loaded
unfolding load read_config default_config apply_env overrides validate is_negative trim_space
    is_positive z_ltb z_add ed25519_private_key_from_hex
load_runs = refl

load-IsValid_example : IsValid machine.web loaded × HasKid machine.ed25519 loaded
load-IsValid_example = load-IsValid machine "" loaded load_runs

apply_env_iff_example :
    ((d : Config) × (apply_env readers variables default_config ≡ ok d))
    ↔ IsReadable readers variables
apply_env_iff_example = apply_env_iff readers variables default_config

-- A fetch timeout of 2^63 - 1 nanoseconds, against a write timeout of two seconds.
abbrev hasty : ServerConfig
hasty = record (default_config.server) { write_timeout = pos 2000000000 }

abbrev patient : PlaylistConfig
patient = record (default_config.playlist) { fetch_timeout = pos 9223372036854775807 }

check_timeouts_overflow_example : check_timeouts hasty patient ≡ ok tt
unfolding default_config
check_timeouts_overflow_example =
    check_timeouts_overflow hasty patient 9223372036854775807 1000000000 2000000000 refl refl refl
      (omega arith) (omega arith) (omega arith) (omega arith) (omega arith)
