-- ===== src/Logger/Sender.antt =====
-- internal/logger/cloudflare.go, the part of `streamSender` that producers and the delivery goroutine
-- share under the mutex: the record queue with its byte count, the flag `closed`, and the slot of one drop
-- notice. `pending_bytes` counts the bytes of records that were admitted, so that `-` does not stop at 0.
use dp1_feed_v.Shared.{
  ℕ, ◌+◌, ◌-◌, ◌%◌, ◌^◌, Bool, true, false, Option, none, some, List, [], ◌∷◌, ◌++◌, length, ltb,
  if◌then◌else◌, String,
}
use dp1_feed_v.Models.{Bytes}
use dp1_feed_v.Logger.Options.{Options}

-- The context of a request: the background, or one that a caller brings.
pub data Context : Type 0 where
  background : Context
  caller : ℕ → Context

pub data Error : Type 0 where
  sender_closed : Error
  record_too_large : ℕ → ℕ → Error
  queue_bytes_exceeded : ℕ → Error
  queue_full : Error
  encode_failed : String → Error
  build_failed : String → Error
  send_failed : String → Error
  bad_status : ℕ → Error
  read_failed : String → Error
  close_failed : String → Error

pub record Sender : Type 0 where
  pub records : List Bytes
  pub close_requests : List Context
  pub drop_notices : Option Error
  pub done : Bool
  pub closed : Bool
  pub pending_bytes : ℕ
  pub close_err : Option Error
  pub dropped_records : ℕ

unfoldable pub fresh : Sender
fresh = record {
  records = [];
  close_requests = [];
  drop_notices = none;
  done = false;
  closed = false;
  pending_bytes = 0;
  close_err = none;
  dropped_records = 0;
}

-- The full slot keeps its notice.
slot : Option Error → Error → Option Error
slot none e = some e
slot (some first) e = some first

-- The counter is an atomic.Uint64.
unfoldable pub report_drop : Error → Sender → Sender
unfolding slot
report_drop e s = record s {
  dropped_records = (s.dropped_records + 1) % 2 ^ 64;
  drop_notices = slot s.drop_notices e;
}

-- The record goes behind the others.
unfoldable pub admit : Bytes → Sender → Sender
admit r s = record s { records = s.records ++ r ∷ []; pending_bytes = s.pending_bytes + length r }

-- The error, or `none` where the record was admitted.
unfoldable pub enqueue : Options → Bytes → Sender → Option Error × Sender
unfolding admit
enqueue o r s =
    if s.closed
    then (some sender_closed, s)
    else if ltb o.max_batch_bytes (length r + 2)
    then (some (record_too_large (length r) o.max_batch_bytes), s)
    else if ltb o.max_queue_bytes (s.pending_bytes + length r)
    then (some (queue_bytes_exceeded o.max_queue_bytes), s)
    else if ltb (length s.records) o.queue_size
    then (none, admit r s)
    else (some queue_full, s)

unfoldable pub mark_dequeued : Bytes → Sender → Sender
mark_dequeued r s = record s { pending_bytes = s.pending_bytes - length r }

-- The first half of `close`: the caller then waits for `done`.
unfoldable pub close : Context → Sender → Sender
close ctx s =
    if s.closed
    then s
    else record s { closed = true; close_requests = s.close_requests ++ ctx ∷ [] }
