-- ===== src/Logger/Options.antt =====
-- internal/logger/logger.go, `StreamConfig` with its checks, and the bounds that `newStreamSender` of
-- cloudflare.go takes from it. A length of time is counted in nanoseconds.
use dp1_feed_v.Shared.{
  ℕ, zero, suc, ◌+◌, ◌-◌, ◌*◌, ◌/◌, String, ◌==◌, not, ◌||◌, Bool, false, Option, none, some, ℤ,
  pos, negsuc, Outcome, ok, require, ◌>>◌, trim_space,
}

abbrev pub default_batch_size : ℕ
default_batch_size = 100

abbrev pub second : ℕ
second = 1000000000

abbrev pub default_flush_interval : ℕ
default_flush_interval = second

abbrev pub default_queue_size : ℕ
default_queue_size = 1024

abbrev pub default_max_batch_bytes : ℕ
default_max_batch_bytes = 4194304

abbrev pub default_max_queue_bytes : ℕ
default_max_queue_bytes = 8388608

abbrev pub default_request_timeout : ℕ
default_request_timeout = 5 * second

abbrev pub default_drop_report_rate : ℕ
default_drop_report_rate = 60 * second

abbrev pub default_max_pending_records : ℕ
default_max_pending_records = default_batch_size - 1 + default_queue_size

abbrev pub default_max_pending_bytes : ℕ
default_max_pending_bytes =
    default_max_batch_bytes + default_max_queue_bytes + default_max_pending_records

abbrev pub default_max_count_closures : ℕ
default_max_count_closures = default_max_pending_records / default_batch_size

abbrev pub default_max_byte_closures : ℕ
default_max_byte_closures =
    (2 * default_max_pending_bytes + default_max_batch_bytes - 1) / default_max_batch_bytes

abbrev pub default_max_drain_requests : ℕ
default_max_drain_requests = 1 + default_max_count_closures + default_max_byte_closures + 1

abbrev pub default_shutdown_timeout : ℕ
default_shutdown_timeout = (default_max_drain_requests + 1) * default_request_timeout

-- A client of `net/http`: the time that a request may take, and whether it follows a redirect.
pub record HttpClient : Type 0 where
  pub timeout : ℕ
  pub follows_redirects : Bool

pub record StreamConfig : Type 0 where
  pub url : String
  pub api_key : String
  pub service : String
  pub environment : String
  pub http_client : Option HttpClient
  pub batch_size : ℤ
  pub flush_interval : ℤ
  pub queue_size : ℤ
  pub max_batch_bytes : ℤ
  pub max_queue_bytes : ℤ

unfoldable pub configured : StreamConfig → Bool
configured cfg = not (trim_space cfg.url == "") || not (trim_space cfg.api_key == "")

pub data ConfigError : Type 0 where
  stream_url_required : ConfigError
  api_key_required : ConfigError
  service_required : ConfigError
  environment_required : ConfigError

unfoldable pub validate : StreamConfig → Outcome ConfigError (Unit {0})
validate cfg =
    require (not (trim_space cfg.url == "")) stream_url_required
    >> (require (not (trim_space cfg.api_key == "")) api_key_required
        >> (require (not (trim_space cfg.service == "")) service_required
            >> require (not (trim_space cfg.environment == "")) environment_required))

-- What the delivery goroutine and the producers read and never change.
pub record Options : Type 0 where
  pub url : String
  pub api_key : String
  pub client : HttpClient
  pub batch_size : ℕ
  pub flush_interval : ℕ
  pub queue_size : ℕ
  pub max_batch_bytes : ℕ
  pub max_queue_bytes : ℕ

-- The value, or the default where it is not positive.
unfoldable pub positive_or : ℕ → ℤ → ℕ
positive_or d (pos zero) = d
positive_or d (pos (suc n)) = suc n
positive_or d (negsuc n) = d

default_client : HttpClient
default_client = record { timeout = default_request_timeout; follows_redirects = false }

client_or : HttpClient → Option HttpClient → HttpClient
client_or d none = d
client_or d (some c) = c

-- `newStreamSender` up to the start of the goroutine: the sender that it makes is `Sender.fresh`.
unfoldable pub new_stream_options : StreamConfig → Outcome ConfigError Options
unfolding validate positive_or default_client client_or
new_stream_options cfg =
    validate cfg
    >> ok (record {
      url = trim_space cfg.url;
      api_key = trim_space cfg.api_key;
      client = client_or default_client cfg.http_client;
      batch_size = positive_or default_batch_size cfg.batch_size;
      flush_interval = positive_or default_flush_interval cfg.flush_interval;
      queue_size = positive_or default_queue_size cfg.queue_size;
      max_batch_bytes = positive_or default_max_batch_bytes cfg.max_batch_bytes;
      max_queue_bytes = positive_or default_max_queue_bytes cfg.max_queue_bytes;
    })
