-- ===== src/Tests/Logs.antt =====
-- A stream sender that is given two records and closed between them.
use dp1_feed_v.Shared.{
  suc, ◌≡◌, refl, ◌≢◌, [], ◌∷◌, ◌++◌, ◌*◌, none, some, true, false, arith, ◌+◌, ◌≤◌, ◌⊎◌, ◌↔◌, All,
  length,
}
use dp1_feed_v.Models.{Bytes}
use dp1_feed_v.Logger.Options.{
  Options, default_max_drain_requests, default_batch_size, default_queue_size,
  default_max_batch_bytes, default_max_queue_bytes, default_flush_interval, default_request_timeout,
}
use dp1_feed_v.Logger.Sender.{caller, admit, enqueue, mark_dequeued, close}
use dp1_feed_v.Logger.Worker.{
  Net, answered, flush_of, flush, put, make_room, send_full, append_record,
}
use dp1_feed_v.Logger.Run.{
  System, closing, flushing, answering, flush_answer, stopped, at_select, in_close, start,
  append_context, admitted, enqueue_step, append_step, flush_step, stop_step, Work, Run, receive,
  append, begin_flush, end_drain, end_flush, begin_close, stop, call_enqueue, call_close, here,
  worked, called,
}
use dp1_feed_v.Logger.Capacity.{IsPositive, SystemBounds, run_bounds, held}
use dp1_feed_v.Logger.Order.{
  delivered, Succeeded, run_in_order, IsAnswered, flush-IsAnswered, stopped_delivers,
}
use dp1_feed_v.Logger.Shutdown.{default_drain_requests, close_terminates}

abbrev options : Options
options = record {
  url = "https://stream.example";
  api_key = "k";
  client = record { timeout = default_request_timeout; follows_redirects = false };
  batch_size = default_batch_size;
  flush_interval = default_flush_interval;
  queue_size = default_queue_size;
  max_batch_bytes = default_max_batch_bytes;
  max_queue_bytes = default_max_queue_bytes;
}

abbrev net : Net
net = λ ctx before request. answered 200 none none

positive : IsPositive options
positive = record {
  batch_size = omega arith;
  queue_size = omega arith;
  max_batch_bytes = omega arith;
  max_queue_bytes = omega arith;
}

abbrev first : Bytes
first = 123 ∷ 125 ∷ []

abbrev second : Bytes
second = 49 ∷ []

abbrev both_queued : System
both_queued = enqueue_step options net second (enqueue_step options net first start)

abbrev first_received : System
first_received = record both_queued {
  sender = record (both_queued.sender) { records = second ∷ [] };
  received = some first;
}

abbrev first_appended : System
first_appended = append_step options net first first_received

abbrev close_called : System
close_called = record first_appended { sender = close (caller 7) first_appended.sender }

abbrev draining : System
draining = record close_called {
  sender = record (close_called.sender) { close_requests = [] };
  phase = closing (caller 7);
}

abbrev second_received : System
second_received = record draining {
  sender = record (draining.sender) { records = [] };
  received = some second;
}

abbrev second_appended : System
second_appended = append_step options net second second_received

abbrev ended : System
ended = stop_step options net (caller 7) second_appended

until_append : Run options net 2 start first_appended
unfolding enqueue_step enqueue admit admitted append_step start mark_dequeued append_record
    make_room put send_full flush flush_of append_context close
until_append =
    worked
      (worked (called (called here (call_enqueue first)) (call_enqueue second))
        (receive first (second ∷ []) at_select refl refl))
      (append first refl)

before_close : Run options net 3 start draining
unfolding enqueue_step enqueue admit admitted append_step start mark_dequeued append_record
    make_room put send_full flush flush_of append_context close
before_close =
    worked (called until_append (call_close (caller 7))) (begin_close (caller 7) [] refl refl refl)

drained : Run options net 3 draining ended
unfolding enqueue_step enqueue admit admitted append_step start mark_dequeued append_record
    make_room put send_full flush flush_of append_context close
drained =
    worked (worked (worked here (receive second [] in_close refl refl)) (append second refl))
      (stop (caller 7) refl refl refl)

whole : Run options net 6 start ended
unfolding enqueue_step enqueue admit admitted append_step start mark_dequeued append_record
    make_room put send_full flush flush_of append_context close
whole =
    worked
      (worked (worked before_close (receive second [] in_close refl refl)) (append second refl))
      (stop (caller 7) refl refl refl)

run_in_order_example :
    delivered first_appended.worker.attempts
      ++ first_appended.worker.batch
      ++ (held first_appended.received ++ first_appended.sender.records)
    ≡ first_appended.accepted
run_in_order_example = run_in_order options net until_append

stopped_delivers_example :
    (ended.sender.done ≡ true)
    × (delivered ended.worker.attempts ≡ ended.accepted)
    × ((ended.sender.close_err ≡ none) ↔ All Succeeded ended.worker.attempts)
unfolding stop_step
stopped_delivers_example = stopped_delivers options net whole refl

run_bounds_example : SystemBounds options ended
run_bounds_example = run_bounds options net positive whole

default_drain_requests_example :
    suc (length ended.worker.attempts)
    ≤ length draining.worker.attempts + default_max_drain_requests
default_drain_requests_example =
    default_drain_requests options net positive
      (record {
        batch_size = refl;
        queue_size = refl;
        max_batch_bytes = refl;
        max_queue_bytes = refl;
      })
      before_close refl drained

close_terminates_example :
    (3 ≤ 2 * length draining.sender.records + length (held draining.received) + 1)
    × ((ended.phase ≡ stopped) ⊎ ((u : System) × Work options net ended u))
close_terminates_example = close_terminates options net before_close refl drained

-- The state in which the flush of an empty queue is requested: one record is in the batch.
abbrev one_queued : System
one_queued = enqueue_step options net first start

abbrev one_received : System
one_received = record one_queued {
  sender = record (one_queued.sender) { records = [] };
  received = some first;
}

abbrev one_appended : System
one_appended = append_step options net first one_received

abbrev flush_requested : System
flush_requested = record one_appended { phase = flushing (caller 1) }

-- A record is admitted between the drain and the answer.
abbrev flush_drained : System
flush_drained =
    enqueue_step options net second (record flush_requested { phase = answering (caller 1) })

until_request : Run options net 2 start one_appended
unfolding enqueue_step enqueue admit admitted append_step start mark_dequeued append_record
    make_room put send_full flush flush_of append_context close
until_request =
    worked (worked (called here (call_enqueue first)) (receive first [] at_select refl refl))
      (append first refl)

until_answer : Run options net 2 one_appended flush_drained
unfolding enqueue_step enqueue admit admitted append_step start mark_dequeued append_record
    make_room put send_full flush flush_of append_context close
until_answer =
    called
      (worked (worked here (begin_flush (caller 1) refl refl))
        (end_drain (caller 1) refl refl refl))
      (call_enqueue second)

one_answer : flush_drained.answers ++ none ∷ [] ≢ flush_drained.answers
unfolding enqueue_step append_step start
one_answer h = cc

flush-IsAnswered_example :
    IsAnswered one_appended.accepted flush_drained (flush_step options net (caller 1) flush_drained)
unfolding enqueue_step enqueue admit admitted append_step start mark_dequeued append_record
    make_room put send_full flush flush_of append_context flush_step flush_answer
flush-IsAnswered_example =
    flush-IsAnswered options net until_request refl until_answer (end_flush (caller 1) refl refl)
      one_answer
