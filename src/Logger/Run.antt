-- ===== src/Logger/Run.antt =====
-- internal/logger/cloudflare.go, `run` with `drainRecords`: the goroutine's cases of `select` and the calls
-- of producers as steps of one system. A record is received in one step and marked dequeued and appended
-- in the next, so that producers may come in between; a delivery is one step, since only the goroutine's
-- own variables take part in it. `accepted` and `answers` keep the records that were admitted and what the
-- calls of `flush` were answered, the oldest first.
use dp1_feed_v.Shared.{ℕ, zero, suc, true, Option, none, some, List, [], ◌∷◌, ◌++◌, ◌≡◌}
use dp1_feed_v.Models.{Bytes}
use dp1_feed_v.Logger.Options.{Options}
use dp1_feed_v.Logger.Sender.{
  Context, background, Error, Sender, fresh, report_drop, enqueue, mark_dequeued, close,
}
use dp1_feed_v.Logger.Worker.{Net, Worker, fresh_worker, flush, append_record, report}

-- Where the goroutine stands: at the `select`, in `drainRecords` for a flush or for the close, behind the
-- drain of a flush and before its answer, or behind its return.
pub data Phase : Type 0 where
  selecting : Phase
  flushing : Context → Phase
  answering : Context → Phase
  closing : Context → Phase
  stopped : Phase

pub record System : Type 0 where
  pub sender : Sender
  pub worker : Worker
  pub phase : Phase
  pub received : Option Bytes
  pub accepted : List Bytes
  pub answers : List (Option Error)

unfoldable pub start : System
unfolding fresh fresh_worker
start = record {
  sender = fresh;
  worker = fresh_worker;
  phase = selecting;
  received = none;
  accepted = [];
  answers = [];
}

-- The context that `appendRecord` is called with.
unfoldable pub append_context : Phase → Context
append_context selecting = background
append_context (flushing ctx) = ctx
append_context (answering ctx) = ctx
append_context (closing ctx) = ctx
append_context stopped = background

-- A worker that receives records.
pub data Runs : Phase → Type 0 where
  at_select : Runs selecting
  in_flush : {ctx : Context} → Runs (flushing ctx)
  in_close : {ctx : Context} → Runs (closing ctx)

-- The answer of a flush that finds no error of its own is the last error there was.
unfoldable pub flush_answer : Option Error → Option Error → Option Error
flush_answer none last = last
flush_answer (some e) last = some e

-- What `enqueue` has admitted joins `accepted`.
unfoldable pub admitted : Option Error → Bytes → List Bytes → List Bytes
admitted none r rs = rs ++ r ∷ []
admitted (some _) r rs = rs

module _ (o : Options) (net : Net) where
  unfoldable pub enqueue_step : Bytes → System → System
  unfolding enqueue admitted
  enqueue_step r s = record s {
    sender = (enqueue o r s.sender).1;
    accepted = admitted (enqueue o r s.sender).0 r s.accepted;
  }

  unfoldable pub append_step : Bytes → System → System
  unfolding mark_dequeued append_record append_context
  append_step r s = record s {
    sender = mark_dequeued r s.sender;
    worker = append_record o net (append_context s.phase) r s.worker;
    received = none;
  }

  -- The end of a flush request: the caller gets its answer.
  unfoldable pub flush_step : Context → System → System
  unfolding flush flush_answer
  flush_step ctx s =
      let done = flush o net ctx s.worker in
      record s {
        worker = done.1;
        phase = selecting;
        answers = s.answers ++ flush_answer done.0 done.1.last_err ∷ [];
      }

  unfoldable pub tick_step : System → System
  unfolding flush
  tick_step s = record s { worker = (flush o net background s.worker).1 }

  -- The end of the close: the remaining batch is sent, and `done` is closed.
  unfoldable pub stop_step : Context → System → System
  unfolding flush
  stop_step ctx s =
      let done = flush o net ctx s.worker in
      record s {
        sender = record (s.sender) { close_err = done.1.last_err; done = true };
        worker = done.1;
        phase = stopped;
      }

  -- What the goroutine does next.
  pub data Work : System → System → Type 0 where
    receive :
        {s : System} (r : Bytes) (rest : List Bytes)
        → Runs s.phase
        → s.received ≡ none
        → s.sender.records ≡ r ∷ rest
        → Work s (record s { sender = record (s.sender) { records = rest }; received = some r })
    append : {s : System} (r : Bytes) → s.received ≡ some r → Work s (append_step r s)
    begin_flush :
        {s : System} (ctx : Context)
        → s.phase ≡ selecting
        → s.received ≡ none
        → Work s (record s { phase = flushing ctx })
    end_drain :
        {s : System} (ctx : Context)
        → s.phase ≡ flushing ctx
        → s.received ≡ none
        → s.sender.records ≡ []
        → Work s (record s { phase = answering ctx })
    end_flush :
        {s : System} (ctx : Context)
        → s.phase ≡ answering ctx
        → s.received ≡ none
        → Work s (flush_step ctx s)
    tick : {s : System} → s.phase ≡ selecting → s.received ≡ none → Work s (tick_step s)
    notice :
        {s : System} (now : ℕ) (e : Error)
        → s.phase ≡ selecting
        → s.received ≡ none
        → s.sender.drop_notices ≡ some e
        → Work s (record s {
          sender = record (s.sender) { drop_notices = none };
          worker = report now s.sender.dropped_records e s.worker;
        })
    begin_close :
        {s : System} (ctx : Context) (rest : List Context)
        → s.phase ≡ selecting
        → s.received ≡ none
        → s.sender.close_requests ≡ ctx ∷ rest
        → Work s
            (record s { sender = record (s.sender) { close_requests = rest }; phase = closing ctx })
    stop :
        {s : System} (ctx : Context)
        → s.phase ≡ closing ctx
        → s.received ≡ none
        → s.sender.records ≡ []
        → Work s (stop_step ctx s)

  -- A call of a producer, or of `close`.
  pub data Call : System → System → Type 0 where
    call_enqueue : {s : System} (r : Bytes) → Call s (enqueue_step r s)
    call_report : {s : System} (e : Error) → Call s (record s { sender = report_drop e s.sender })
    call_close : {s : System} (ctx : Context) → Call s (record s { sender = close ctx s.sender })

  -- A run of any length, with the number of steps that the goroutine takes in it.
  pub data Run : ℕ → System → System → Type 0 where
    here : {s : System} → Run zero s s
    worked : {n : ℕ} {s t u : System} → Run n s t → Work t u → Run (suc n) s u
    called : {n : ℕ} {s t u : System} → Run n s t → Call t u → Run n s u
