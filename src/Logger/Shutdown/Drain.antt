-- ===== src/Logger/Shutdown/Drain.antt =====
-- What the goroutine still has to send, and has spent, once it has taken the close request.
use dp1_feed_v.Shared.{
  ℕ, ◌+◌, ◌*◌, ◌≡◌, ◌≢◌, refl, List, ◌∷◌, ◌++◌, length, true, Option, none, some, arith,
}
use dp1_feed_v.Models.{Bytes}
use dp1_feed_v.Logger.Records.{weight}
use dp1_feed_v.Logger.Options.{Options}
use dp1_feed_v.Logger.Sender.{Context, report_drop, mark_dequeued, close}
use dp1_feed_v.Logger.Worker.{Net, Worker, flush, append_record}
use dp1_feed_v.Logger.Run.{
  System, Phase, closing, stopped, Runs, enqueue_step, append_step, stop_step, Work, Call, Run,
  receive, append, begin_flush, end_drain, end_flush, tick, notice, begin_close, stop, call_enqueue,
  call_report, call_close, here, worked, called,
}
use dp1_feed_v.Logger.Capacity.{IsPositive, WorkerBounds, held, SystemBounds, Run-SystemBounds}
use dp1_feed_v.Logger.Order.{
  stopped_of, enqueue_closed, close-records, Lifecycle, InOrder, Lifecycle-of, leaving,
}
use dp1_feed_v.Logger.Shutdown.Cost.{Cost, no-Cost, trans-Cost, append_record-Cost, flush-Cost}

-- The records in the goroutine's hands and in the queue.
abbrev pub pending : System → List Bytes
pending s = held s.received ++ s.sender.records

-- Since the state `s`, these records are still to come, and the others have cost these requests.
pub record Draining (o : Options) (s : System) (w : Worker) (rs : List Bytes) (final : ℕ)
    : Type 0 where
  pub appended : ℕ
  pub load : ℕ
  pub cost : Cost o s.worker w appended load final
  pub all_counted : appended + length rs ≡ length (pending s)
  pub all_weighed : load + 2 * weight rs ≡ 2 * weight (pending s)

-- The goroutine drains the queue, or has returned with nothing in hand.
pub data Drained (o : Options) (s t : System) : Type 0 where
  still :
      {ctx : Context} → t.phase ≡ closing ctx → Draining o s t.worker (pending t) 0 → Drained o s t
  over : t.phase ≡ stopped → t.received ≡ none → Draining o s t.worker (pending t) 1 → Drained o s t

module _ (o : Options) (s : System) where
  begin_Drained : {ctx : Context} → s.phase ≡ closing ctx → Drained o s s
  begin_Drained at = still at (record {
    appended = 0;
    load = 0;
    cost = no-Cost o s.worker;
    all_counted = omega arith;
    all_weighed = omega arith;
  })

  received_lem :
      (r : Bytes) (rest rs : List Bytes) (x : Option Bytes)
      → x ≡ none
      → rs ≡ r ∷ rest
      → r ∷ rest ≡ held x ++ rs
  received_lem r rest rs x empty e = rw (empty, e) refl

  pending_lem :
      (r : Bytes) (rs : List Bytes) (x : Option Bytes) → x ≡ some r → held x ++ rs ≡ r ∷ rs
  pending_lem r rs x e = rw e refl

  Runs-on : (p : Phase) → Runs p → p ≢ stopped
  Runs-on p run h = stopped_of p run h

  module _ (net : Net) where
    append-Draining :
        (ctx : Context) (r : Bytes) (rs : List Bytes) (w : Worker)
        → WorkerBounds o w
        → Draining o s w (r ∷ rs) 0
        → Draining o s (append_record o net ctx r w) rs 0
    unfolding weight
    append-Draining ctx r rs w h d = record {
      appended = d.appended + 1;
      load = d.load + 2 * (length r + 1);
      cost = trans-Cost o d.cost (append_record-Cost o net ctx r w h);
      all_counted = omega (arith, d.all_counted);
      all_weighed = omega (arith, d.all_weighed);
    }

    stop-Draining :
        (ctx : Context) (rs : List Bytes) (w : Worker)
        → Draining o s w rs 0
        → Draining o s (flush o net ctx w).1 rs 1
    stop-Draining ctx rs w d = record {
      appended = d.appended + 0;
      load = d.load + 0;
      cost = trans-Cost o d.cost (flush-Cost o net ctx w);
      all_counted = omega (arith, d.all_counted);
      all_weighed = omega (arith, d.all_weighed);
    }

    Work-Drained :
        {t u : System} → Work o net t u → SystemBounds o t → Drained o s t → Drained o s u
    unfolding append_step stop_step mark_dequeued
    Work-Drained {t} (receive r rest run empty e) b (still at d) =
        still at (rw (received_lem r rest t.sender.records t.received empty e) d)
    Work-Drained {t} (receive r rest run empty e) b (over at none_held d) =
        absurd (Runs-on t.phase run at)
    Work-Drained {t} (append r e) b (still at d) = still at (
        append-Draining _ r t.sender.records t.worker b.worker
          (rw (pending_lem r t.sender.records t.received e) at d))
    Work-Drained {t} (append r e) b (over at none_held d) = cc
    Work-Drained (begin_flush ctx f empty) b (still at d) = cc
    Work-Drained (begin_flush ctx f empty) b (over at none_held d) = cc
    Work-Drained (end_drain ctx f empty e) b (still at d) = cc
    Work-Drained (end_drain ctx f empty e) b (over at none_held d) = cc
    Work-Drained (end_flush ctx f empty) b (still at d) = cc
    Work-Drained (end_flush ctx f empty) b (over at none_held d) = cc
    Work-Drained (tick f empty) b (still at d) = cc
    Work-Drained (tick f empty) b (over at none_held d) = cc
    Work-Drained (notice now e f empty n) b (still at d) = cc
    Work-Drained (notice now e f empty n) b (over at none_held d) = cc
    Work-Drained (begin_close ctx rest f empty e) b (still at d) = cc
    Work-Drained (begin_close ctx rest f empty e) b (over at none_held d) = cc
    Work-Drained {t} (stop ctx f empty e) b (still at d) =
        over refl empty (stop-Draining ctx (pending t) t.worker d)
    Work-Drained (stop ctx f empty e) b (over at none_held d) = cc

    enqueue-Draining :
        {final : ℕ} (r : Bytes) (t : System)
        → t.sender.closed ≡ true
        → Draining o s t.worker (pending t) final
        → Draining o s t.worker (pending (enqueue_step o net r t)) final
    unfolding enqueue_step
    enqueue-Draining r t c d = rw (enqueue_closed o r t.sender c) d

    close-Draining :
        {final : ℕ} (ctx : Context) (t : System)
        → Draining o s t.worker (pending t) final
        → Draining o s t.worker (held t.received ++ (close ctx t.sender).records) final
    close-Draining ctx t d = rw (close-records ctx t.sender) d

    Call-Drained :
        {t u : System} → Call o net t u → t.sender.closed ≡ true → Drained o s t → Drained o s u
    unfolding enqueue_step report_drop
    Call-Drained {t} (call_enqueue r) c (still at d) = still at (enqueue-Draining r t c d)
    Call-Drained {t} (call_enqueue r) c (over at e d) = over at e (enqueue-Draining r t c d)
    Call-Drained {t} (call_report x) c (still at d) = still at d
    Call-Drained {t} (call_report x) c (over at e d) = over at e d
    Call-Drained {t} (call_close ctx) c (still at d) = still at (close-Draining ctx t d)
    Call-Drained {t} (call_close ctx) c (over at e d) = over at e (close-Draining ctx t d)

    left_closed : (t : System) → Lifecycle t → Drained o s t → t.sender.closed ≡ true
    unfolding leaving
    left_closed t h (still at d) = h.left (rw at refl)
    left_closed t h (over at e d) = h.left (rw at refl)

    pub Run-Drained :
        {k : ℕ} {t : System} {ctx : Context}
        → IsPositive o
        → SystemBounds o s
        → InOrder s
        → Lifecycle s
        → s.phase ≡ closing ctx
        → Run o net k s t
        → Drained o s t
    Run-Drained p b ord life at here = begin_Drained at
    Run-Drained p b ord life at (worked r w) =
        Work-Drained w (Run-SystemBounds o net p b r) (Run-Drained p b ord life at r)
    Run-Drained p b ord life at (called {t = t} r c) =
        let d = Run-Drained p b ord life at r in
        Call-Drained c (left_closed t (Lifecycle-of o net ord life r) d) d
