-- ===== src/Logger/Capacity/Worker.antt =====
-- The bounds of the delivery goroutine's batch, kept by `flush` and `appendRecord`.
use dp1_feed_v.Shared.{
  ◌+◌, ◌≤◌, ◌<◌, ◌≡◌, ◌⊎◌, refl, Bool-cases, inl, inr, List, [], ◌∷◌, ◌++◌, length, length-append,
  All, ltb, leb, false, ◌&&◌, arith, Option, none,
}
use dp1_feed_v.Models.{Bytes}
use dp1_feed_v.Logger.Records.{weight, array_body, weight-append, length-array_body}
use dp1_feed_v.Logger.Options.{Options}
use dp1_feed_v.Logger.Sender.{Context, Error}
use dp1_feed_v.Logger.Worker.{
  Net, Attempt, Worker, flush_batch, flush_of, flush, make_room, put, send_full, append_record,
}

-- A sender that `newStreamSender` made has positive bounds.
pub record IsPositive (o : Options) : Type 0 where
  pub batch_size : 0 < o.batch_size
  pub queue_size : 0 < o.queue_size
  pub max_batch_bytes : 0 < o.max_batch_bytes
  pub max_queue_bytes : 0 < o.max_queue_bytes

-- The batch has a record, no more of them than the batch size, and its body is within the byte limit.
pub record IsSendable (o : Options) (a : Attempt) : Type 0 where
  pub some_record : 0 < length a.batch
  pub counted : length a.batch ≤ o.batch_size
  pub bounded : length (array_body a.batch) ≤ o.max_batch_bytes

pub record WorkerBounds (o : Options) (w : Worker) : Type 0 where
  pub short : length w.batch < o.batch_size
  pub measured : w.batch_bytes ≡ 2 + weight w.batch
  pub light : weight w.batch < o.max_batch_bytes
  pub sendable : All (IsSendable o) w.attempts

pub All-append {ℓ κ} :
    {A : Type ℓ} (P : A → Type κ) (xs : List A) (y : A) → All P xs → P y → All P (xs ++ y ∷ [])
All-append P [] y h q = (q, tt)
All-append P (x ∷ xs) y (p, h) q = (p, All-append P xs y h q)

-- A batch whose records are within the limits is sendable.
full-IsSendable :
    (o : Options) (rs : List Bytes) (e : Option Error)
    → 0 < length rs
    → length rs ≤ o.batch_size
    → weight rs < o.max_batch_bytes
    → IsSendable o (record { batch = rs; result = e })
full-IsSendable o [] e some_r n w = absurd (omega arith)
full-IsSendable o (r ∷ rs) e some_r n w = record {
  some_record = some_r;
  counted = n;
  bounded = omega (arith, length-array_body r rs);
}

-- The bounds with room for one more record: what holds between the append and the test behind it.
record Filled (o : Options) (w : Worker) : Type 0 where
  counted : length w.batch ≤ o.batch_size
  measured : w.batch_bytes ≡ 2 + weight w.batch
  light : weight w.batch < o.max_batch_bytes
  sendable : All (IsSendable o) w.attempts

module _ (o : Options) (net : Net) (p : IsPositive o) where
  flush_batch-WorkerBounds :
      (ctx : Context) (w : Worker)
      → 0 < length w.batch
      → Filled o w
      → WorkerBounds o (flush_batch o net ctx w).1
  unfolding flush_batch weight
  flush_batch-WorkerBounds ctx w some_r h = record {
    short = p.batch_size;
    measured = omega arith;
    light = p.max_batch_bytes;
    sendable =
        All-append (IsSendable o) w.attempts (record { batch = w.batch; result = _ }) h.sendable
          (full-IsSendable o w.batch _ some_r h.counted h.light);
  }

  flush_cases :
      (ctx : Context) (rs : List Bytes) (w : Worker)
      → ((rs ≡ []) × (flush_of o net ctx rs w ≡ (none, w)))
        ⊎ ((0 < length rs) × (flush_of o net ctx rs w ≡ flush_batch o net ctx w))
  unfolding flush_of
  flush_cases ctx [] w = inl (refl, refl)
  flush_cases ctx (r ∷ rs) w = inr (omega arith, refl)

  flush-Filled : (ctx : Context) (w : Worker) → Filled o w → WorkerBounds o (flush o net ctx w).1
  unfolding flush weight
  flush-Filled ctx w h = elim (flush_cases ctx w.batch w) [
    | inl (empty, e) ↦ rw e (record {
      short = rw empty p.batch_size;
      measured = h.measured;
      light = h.light;
      sendable = h.sendable;
    })
    | inr (some_r, e) ↦ rw e (flush_batch-WorkerBounds ctx w some_r h)
  ]

  to_filled : (w : Worker) → WorkerBounds o w → Filled o w
  to_filled w h = record {
    counted = omega (arith, h.short);
    measured = h.measured;
    light = h.light;
    sendable = h.sendable;
  }

  pub flush-WorkerBounds :
      (ctx : Context) (w : Worker) → WorkerBounds o w → WorkerBounds o (flush o net ctx w).1
  flush-WorkerBounds ctx w h = flush-Filled ctx w (to_filled w h)

  flush-empty : (ctx : Context) (w : Worker) → (flush o net ctx w).1.batch ≡ []
  unfolding flush flush_batch
  flush-empty ctx w = elim (flush_cases ctx w.batch w) [
    | inl (empty, e) ↦ rw e empty
    | inr (_, e) ↦ rw e refl
  ]

  roomy :
      (rs : List Bytes) (w : Worker) (r : Bytes)
      → (ltb 0 (length rs) && ltb o.max_batch_bytes (w.batch_bytes + (length r + 1))) ≡ false
      → w.batch_bytes ≡ 2 + weight rs
      → length r + 2 ≤ o.max_batch_bytes
      → weight rs + (length r + 1) < o.max_batch_bytes
  unfolding weight
  roomy [] w r e m fits = omega arith
  roomy (x ∷ xs) w r e m fits = ground arith

  -- Behind `make_room` there is room for the record.
  make_room_lem :
      (ctx : Context) (r : Bytes) (w : Worker)
      → length r + 2 ≤ o.max_batch_bytes
      → WorkerBounds o w
      → WorkerBounds o (make_room o net ctx r w)
        × (weight (make_room o net ctx r w).batch + (length r + 1) < o.max_batch_bytes)
  unfolding make_room weight
  make_room_lem ctx r w fits h =
      elim (Bool-cases
        (ltb 0 (length w.batch) && ltb o.max_batch_bytes (w.batch_bytes + (length r + 1)))) [
          | inl e ↦ rw e (flush-WorkerBounds ctx w h, rw (flush-empty ctx w) (omega arith))
          | inr e ↦ rw e (h, roomy w.batch w r e h.measured fits)
        ]

  put_lem :
      (r : Bytes) (w : Worker)
      → weight w.batch + (length r + 1) < o.max_batch_bytes
      → WorkerBounds o w
      → Filled o (put r w)
  unfolding put weight
  put_lem r w light h = record {
    counted = omega (arith, length-append w.batch (r ∷ []), h.short);
    measured = omega (arith, weight-append w.batch (r ∷ []), h.measured);
    light = omega (arith, weight-append w.batch (r ∷ []));
    sendable = h.sendable;
  }

  send_full_lem : (ctx : Context) (w : Worker) → Filled o w → WorkerBounds o (send_full o net ctx w)
  unfolding send_full
  send_full_lem ctx w h = elim (Bool-cases (leb o.batch_size (length w.batch))) [
    | inl e ↦ rw e (flush-Filled ctx w h)
    | inr e ↦ rw e (record {
      short = ground arith;
      measured = h.measured;
      light = h.light;
      sendable = h.sendable;
    })
  ]

  pub append_record-WorkerBounds :
      (ctx : Context) (r : Bytes) (w : Worker)
      → length r + 2 ≤ o.max_batch_bytes
      → WorkerBounds o w
      → WorkerBounds o (append_record o net ctx r w)
  unfolding append_record
  append_record-WorkerBounds ctx r w fits h =
      let (roomy, light) = make_room_lem ctx r w fits h in
      send_full_lem ctx (put r (make_room o net ctx r w)) (put_lem r _ light roomy)
