-- ===== src/Logger/Capacity/Positive.antt =====
-- The bounds that `newStreamSender` hands to a sender.
use dp1_feed_v.Shared.{
  ℕ, zero, suc, ◌<◌, ◌≡◌, ℤ, pos, negsuc, ok, then-eq-ok, ok-injective, arith, subst,
}
use dp1_feed_v.Logger.Options.{StreamConfig, Options, positive_or, validate, new_stream_options}
use dp1_feed_v.Logger.Capacity.Worker.{IsPositive}

positive_or-pos : (d : ℕ) (v : ℤ) → 0 < d → 0 < positive_or d v
unfolding positive_or
positive_or-pos d (pos zero) h = h
positive_or-pos d (pos (suc n)) h = omega arith
positive_or-pos d (negsuc n) h = h

-- A configuration that is accepted makes a sender whose bounds are all positive.
pub new_stream_options-IsPositive :
    (cfg : StreamConfig) (o : Options) → new_stream_options cfg ≡ ok o → IsPositive o
unfolding new_stream_options
new_stream_options-IsPositive cfg o h =
    let (_, made) = then-eq-ok (validate cfg) _ h in
    subst IsPositive (ok-injective made) (record {
      batch_size = positive_or-pos _ cfg.batch_size (omega arith);
      queue_size = positive_or-pos _ cfg.queue_size (omega arith);
      max_batch_bytes = positive_or-pos _ cfg.max_batch_bytes (omega arith);
      max_queue_bytes = positive_or-pos _ cfg.max_queue_bytes (omega arith);
    })
