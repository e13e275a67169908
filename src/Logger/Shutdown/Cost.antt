-- ===== src/Logger/Shutdown/Cost.antt =====
-- What `appendRecord` costs in requests: a request is made since the batch is full, or since the next
-- record would make it too heavy. The first kind is paid for by a batch of records, and the second by the
-- bytes of the batch with those of the next record, so that each byte is counted twice at most.
use native.Mathlib.Nat.{add-mul}
use dp1_feed_v.Shared.{
  ℕ, ◌+◌, ◌-◌, ◌*◌, ◌≤◌, ◌<◌, ◌≡◌, refl, Bool-cases, inl, inr, List, [], ◌∷◌, length, length-append,
  ltb, leb, ◌&&◌, and-right, arith, ltb→lt,
}
use dp1_feed_v.Models.{Bytes}
use dp1_feed_v.Logger.Records.{weight, weight-append}
use dp1_feed_v.Logger.Options.{Options}
use dp1_feed_v.Logger.Sender.{Context}
use dp1_feed_v.Logger.Worker.{
  Net, Worker, flush_batch, flush_of, flush, make_room, put, send_full, append_record,
}
use dp1_feed_v.Logger.Capacity.{WorkerBounds}

-- From the first worker to the second at most `full` and `heavy` requests of the two kinds and `final`
-- others were made, while `n` records were appended, that weigh `m` counted twice.
pub record Cost (o : Options) (before after : Worker) (n m final : ℕ) : Type 0 where
  pub full : ℕ
  pub heavy : ℕ
  pub posted : length after.attempts ≤ length before.attempts + (full + heavy + final)
  pub counted : full * o.batch_size + length after.batch ≤ length before.batch + n
  pub weighed : heavy * (o.max_batch_bytes - 1) + weight after.batch ≤ weight before.batch + m

module _ (o : Options) where
  pub no-Cost : (w : Worker) → Cost o w w 0 0 0
  no-Cost w = record {
    full = 0;
    heavy = 0;
    posted = omega arith;
    counted = omega arith;
    weighed = omega arith;
  }

  pub trans-Cost :
      {w w' w'' : Worker} {n n' m m' f f' : ℕ}
      → Cost o w w' n m f
      → Cost o w' w'' n' m' f'
      → Cost o w w'' (n + n') (m + m') (f + f')
  trans-Cost h g = record {
    full = h.full + g.full;
    heavy = h.heavy + g.heavy;
    posted = omega (arith, h.posted, g.posted);
    counted = omega (arith, h.counted, g.counted, add-mul h.full g.full o.batch_size);
    weighed = omega (arith, h.weighed, g.weighed, add-mul h.heavy g.heavy (o.max_batch_bytes - 1));
  }

  put-Cost : (r : Bytes) (w : Worker) → Cost o w (put r w) 1 (length r + 1) 0
  unfolding put weight
  put-Cost r w = record {
    full = 0;
    heavy = 0;
    posted = omega arith;
    counted = omega (arith, length-append w.batch (r ∷ []));
    weighed = omega (arith, weight-append w.batch (r ∷ []));
  }

module _ (o : Options) (net : Net) where
  flush_of_posts :
      (ctx : Context) (bs : List Bytes) (w : Worker)
      → w.batch ≡ bs
      → (length (flush_of o net ctx bs w).1.attempts ≤ length w.attempts + 1)
        × (length (flush_of o net ctx bs w).1.batch ≡ 0)
        × (weight (flush_of o net ctx bs w).1.batch ≡ 0)
  unfolding flush_of flush_batch weight
  flush_of_posts ctx [] w e = (omega arith, rw e refl, rw e refl)
  flush_of_posts ctx (b ∷ bs) w e = (
    omega (arith, length-append w.attempts (record { batch = w.batch; result = _ } ∷ [])),
    refl,
    refl,
  )

  flush_posts :
      (ctx : Context) (w : Worker)
      → (length (flush o net ctx w).1.attempts ≤ length w.attempts + 1)
        × (length (flush o net ctx w).1.batch ≡ 0)
        × (weight (flush o net ctx w).1.batch ≡ 0)
  unfolding flush
  flush_posts ctx w = flush_of_posts ctx w.batch w refl

  -- A flush makes at most one request.
  pub flush-Cost : (ctx : Context) (w : Worker) → Cost o w (flush o net ctx w).1 0 0 1
  flush-Cost ctx w =
      let (posted, empty, light) = flush_posts ctx w in
      record {
        full = 0;
        heavy = 0;
        posted = omega arith;
        counted = omega arith;
        weighed = omega arith;
      }

  -- A batch that is too heavy for the next record pays with both.
  heavy_flush :
      (ctx : Context) (r : Bytes) (w : Worker)
      → w.batch_bytes ≡ 2 + weight w.batch
      → o.max_batch_bytes < w.batch_bytes + (length r + 1)
      → Cost o w (flush o net ctx w).1 0 (length r + 1) 0
  heavy_flush ctx r w measured heavy =
      let (posted, empty, light) = flush_posts ctx w in
      record {
        full = 0;
        heavy = 1;
        posted = omega arith;
        counted = omega arith;
        weighed = omega arith;
      }

  -- A full batch pays with its records.
  full_flush :
      (ctx : Context) (w : Worker)
      → o.batch_size ≤ length w.batch
      → Cost o w (flush o net ctx w).1 0 0 0
  full_flush ctx w enough =
      let (posted, empty, light) = flush_posts ctx w in
      record {
        full = 1;
        heavy = 0;
        posted = omega arith;
        counted = omega arith;
        weighed = omega arith;
      }

  make_room-Cost :
      (ctx : Context) (r : Bytes) (w : Worker)
      → WorkerBounds o w
      → Cost o w (make_room o net ctx r w) 0 (length r + 1) 0
  unfolding make_room
  make_room-Cost ctx r w h =
      elim (Bool-cases
        (ltb 0 (length w.batch) && ltb o.max_batch_bytes (w.batch_bytes + (length r + 1)))) [
          | inl e ↦ rw e (heavy_flush ctx r w h.measured (ltb→lt _ _ (and-right _ _ e)))
          | inr e ↦ rw e (record {
            full = 0;
            heavy = 0;
            posted = omega arith;
            counted = omega arith;
            weighed = omega arith;
          })
        ]

  send_full-Cost : (ctx : Context) (w : Worker) → Cost o w (send_full o net ctx w) 0 0 0
  unfolding send_full
  send_full-Cost ctx w = elim (Bool-cases (leb o.batch_size (length w.batch))) [
    | inl e ↦ rw e (full_flush ctx w (ground arith))
    | inr e ↦ rw e (no-Cost o w)
  ]

  -- The append of one record.
  pub append_record-Cost :
      (ctx : Context) (r : Bytes) (w : Worker)
      → WorkerBounds o w
      → Cost o w (append_record o net ctx r w) 1 (2 * (length r + 1)) 0
  unfolding append_record
  append_record-Cost ctx r w h =
      let w' : Worker = make_room o net ctx r w in
      let c : Cost o w (append_record o net ctx r w) 1 (length r + 1 + (length r + 1 + 0)) 0 =
        trans-Cost o (make_room-Cost ctx r w h)
          (trans-Cost o (put-Cost o r w') (send_full-Cost ctx (put r w'))) in
      record {
        full = c.full;
        heavy = c.heavy;
        posted = c.posted;
        counted = c.counted;
        weighed = omega (arith, c.weighed);
      }
