-- ===== src/Logger/Shutdown/Requests.antt =====
-- The number of requests that the goroutine makes once it has taken the close request.
use native.Mathlib.Nat.{le-div_iff_mul-le}
use dp1_feed_v.Shared.{
  ℕ, suc, ◌+◌, ◌-◌, ◌*◌, ◌/◌, ◌≤◌, ◌<◌, ◌≡◌, subst, length, length-append, Option, none, some,
  arith,
}
use dp1_feed_v.Models.{Bytes}
use dp1_feed_v.Logger.Records.{byte_total-append, weight, weight-byte_total}
use dp1_feed_v.Logger.Options.{
  Options, default_batch_size, default_queue_size, default_max_batch_bytes, default_max_queue_bytes,
  default_max_drain_requests,
}
use dp1_feed_v.Logger.Sender.{Context}
use dp1_feed_v.Logger.Worker.{Net}
use dp1_feed_v.Logger.Run.{System, closing, start, Run}
use dp1_feed_v.Logger.Capacity.{
  IsPositive, held, SystemBounds, Run-SystemBounds, start-SystemBounds,
}
use dp1_feed_v.Logger.Order.{Run-Lifecycle, Run-InOrder, start-InOrder}
use dp1_feed_v.Logger.Shutdown.Drain.{pending, Drained, still, over, Run-Drained}

-- The goroutine has the bounds that `newStreamSender` gives it where the configuration sets none.
pub record HasDefaults (o : Options) : Type 0 where
  pub batch_size : o.batch_size ≡ default_batch_size
  pub queue_size : o.queue_size ≡ default_queue_size
  pub max_batch_bytes : o.max_batch_bytes ≡ default_max_batch_bytes
  pub max_queue_bytes : o.max_queue_bytes ≡ default_max_queue_bytes

held_short : (x : Option Bytes) → length (held x) ≤ 1
held_short none = omega arith
held_short (some r) = omega arith

-- What is pending is within the bounds of the queue, one record in hand.
pending_bounds :
    {o : Options} {s : System}
    → SystemBounds o s
    → (length (pending s) ≤ o.queue_size + 1)
      × (weight (pending s) ≤ o.max_queue_bytes + (o.queue_size + 1))
pending_bounds {o} {s} b =
    let few : length (pending s) ≤ o.queue_size + 1 = omega (
      arith,
      length-append (held s.received) s.sender.records,
      held_short s.received,
      b.queue.few_records,
    ) in
    (
      few,
      omega (
        arith,
        weight-byte_total (pending s),
        byte_total-append (held s.received) s.sender.records,
        b.queue.counted,
        b.queue.few_bytes,
      ),
    )

module _ {o : Options} {s t : System} where
  -- The cost of a drain that may have ended.
  Drained-posts :
      Drained o s t
      → (c : ℕ) × (b : ℕ) × (length t.worker.attempts ≤ length s.worker.attempts + (c + b + 1))
        × (c * o.batch_size ≤ length s.worker.batch + length (pending s))
        × (b * (o.max_batch_bytes - 1) ≤ weight s.worker.batch + 2 * weight (pending s))
  Drained-posts (still at d) = (
    d.cost.full,
    d.cost.heavy,
    omega (arith, d.cost.posted),
    omega (arith, d.cost.counted, d.all_counted),
    omega (arith, d.cost.weighed, d.all_weighed),
  )
  Drained-posts (over at e d) = (
    d.cost.full,
    d.cost.heavy,
    omega (arith, d.cost.posted),
    omega (arith, d.cost.counted, d.all_counted),
    omega (arith, d.cost.weighed, d.all_weighed),
  )

  few_posts :
      0 < o.batch_size
      → 1 < o.max_batch_bytes
      → Drained o s t
      → length t.worker.attempts
        ≤ length s.worker.attempts
          + ((length s.worker.batch + length (pending s)) / o.batch_size
              + (weight s.worker.batch + 2 * weight (pending s)) / (o.max_batch_bytes - 1)
              + 1)
  few_posts p q d =
      let (c, b, posted, counted, weighed) = Drained-posts d in
      let few : c ≤ (length s.worker.batch + length (pending s)) / o.batch_size =
        (le-div_iff_mul-le p).1 counted in
      let some_room : 0 < o.max_batch_bytes - 1 = omega arith in
      let few' : b ≤ (weight s.worker.batch + 2 * weight (pending s)) / (o.max_batch_bytes - 1) =
        (le-div_iff_mul-le some_room).1 weighed in
      omega arith

  default_posts :
      HasDefaults o
      → SystemBounds o s
      → Drained o s t
      → suc (length t.worker.attempts) ≤ length s.worker.attempts + default_max_drain_requests
  default_posts h b d =
      let (c, n, posted, counted, weighed) = Drained-posts d in
      let (few, light) = pending_bounds b in
      let full : c * default_batch_size ≤ length s.worker.batch + length (pending s) =
        subst (λ (k : ℕ). c * k ≤ length s.worker.batch + length (pending s)) h.batch_size
          counted in
      let heavy : n * (default_max_batch_bytes - 1)
          ≤ weight s.worker.batch + 2 * weight (pending s) =
        subst (λ (k : ℕ). n * (k - 1) ≤ weight s.worker.batch + 2 * weight (pending s))
          h.max_batch_bytes weighed in
      omega (arith, b.worker.short, b.worker.light, h.batch_size, h.queue_size, h.max_queue_bytes)

module _ (o : Options) (net : Net) (p : IsPositive o) where
  run-Drained :
      {n k : ℕ} {s t : System} {ctx : Context}
      → Run o net n start s
      → s.phase ≡ closing ctx
      → Run o net k s t
      → SystemBounds o s × Drained o s t
  run-Drained {s} before at r =
      let b = Run-SystemBounds o net p (start-SystemBounds o net p) before in
      (
        b,
        Run-Drained o s net p b (Run-InOrder o net (start-InOrder o net) before)
            (Run-Lifecycle o net before) at r,
      )

  -- From the moment the goroutine takes the close request, whatever producers do meanwhile, it makes no
  -- more requests than one for each batch size of the records that it still has, one for each batch of bytes
  -- of them counted twice, and a last one.
  pub drain_requests :
      {n k : ℕ} {s t : System} {ctx : Context}
      → 1 < o.max_batch_bytes
      → Run o net n start s
      → s.phase ≡ closing ctx
      → Run o net k s t
      → length t.worker.attempts
        ≤ length s.worker.attempts
          + ((length s.worker.batch + length (pending s)) / o.batch_size
              + (weight s.worker.batch + 2 * weight (pending s)) / (o.max_batch_bytes - 1)
              + 1)
  drain_requests q before at r = few_posts p.batch_size q (run-Drained before at r).1

  -- With the default bounds, the requests of a shutdown are fewer than `defaultMaxDrainRequests`, which
  -- leaves one of them to a request in flight.
  pub default_drain_requests :
      {n k : ℕ} {s t : System} {ctx : Context}
      → HasDefaults o
      → Run o net n start s
      → s.phase ≡ closing ctx
      → Run o net k s t
      → suc (length t.worker.attempts) ≤ length s.worker.attempts + default_max_drain_requests
  default_drain_requests h before at r = let (b, d) = run-Drained before at r in default_posts h b d
