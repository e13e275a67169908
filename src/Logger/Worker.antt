-- ===== src/Logger/Worker.antt =====
-- internal/logger/cloudflare.go, the variables of the delivery goroutine of `run` and its closures
-- `flush`, `appendRecord` and `reportDrop`, with `deliver`. The client and the remote stream are a function:
-- what they answer a request with, the requests before it given. `attempts` and `diagnostics` keep what was
-- posted and printed, the oldest first.
use Prim.Native.String
use dp1_feed_v.Shared.{
  ℕ, ◌+◌, ◌-◌, String, Bool, false, ◌||◌, ◌&&◌, Option, none, some, List, [], ◌∷◌, ◌++◌, length,
  ltb, leb, if◌then◌else◌,
}
use dp1_feed_v.Models.{Bytes}
use dp1_feed_v.Logger.Records.{array_body}
use dp1_feed_v.Logger.Options.{Options, default_drop_report_rate}
use dp1_feed_v.Logger.Sender.{
  Context, Error, build_failed, send_failed, bad_status, read_failed, close_failed,
}

pub record Request : Type 0 where
  pub url : String
  pub authorization : String
  pub content_type : String
  pub body : Bytes

-- The request could not be built, or not be sent, or was answered: then with a status, and possibly an
-- error of reading or of closing the body.
pub data Exchange : Type 0 where
  unbuilt : String → Exchange
  unsent : String → Exchange
  answered : ℕ → Option String → Option String → Exchange

-- A batch that was given to `deliver`, and what it returned.
pub record Attempt : Type 0 where
  pub batch : List Bytes
  pub result : Option Error

abbrev pub Net : Type 0
Net = Context → List Attempt → Request → Exchange

pub data Diagnostic : Type 0 where
  record_dropped : ℕ → Error → Diagnostic
  delivery_failed : Error → Diagnostic

pub record Worker : Type 0 where
  pub batch : List Bytes
  pub batch_bytes : ℕ
  pub last_err : Option Error
  pub last_drop_report : Option ℕ
  pub attempts : List Attempt
  pub diagnostics : List Diagnostic

unfoldable pub fresh_worker : Worker
fresh_worker = record {
  batch = [];
  batch_bytes = 2;
  last_err = none;
  last_drop_report = none;
  attempts = [];
  diagnostics = [];
}

-- The error of an answer with a status of success.
body_error : Option String → Option String → Option Error
body_error (some e) _ = some (read_failed e)
body_error none (some e) = some (close_failed e)
body_error none none = none

unfoldable pub exchange_error : Exchange → Option Error
unfolding body_error
exchange_error (unbuilt e) = some (build_failed e)
exchange_error (unsent e) = some (send_failed e)
exchange_error (answered status drain_err close_err) =
    if ltb status 200 || leb 300 status
    then some (bad_status status)
    else body_error drain_err close_err

unfoldable pub stream_request : Options → List Bytes → Request
stream_request o batch = record {
  url = o.url;
  authorization = String.◌++◌ "Bearer " o.api_key;
  content_type = "application/json";
  body = array_body batch;
}

-- Newest last.
failed : Option Error → List Diagnostic → List Diagnostic
failed none ds = ds
failed (some e) ds = ds ++ delivery_failed e ∷ []

unfoldable pub latest : Option Error → Option Error → Option Error
latest none before = before
latest (some e) _ = some e

-- The append itself.
unfoldable pub put : Bytes → Worker → Worker
put r w = record w { batch = w.batch ++ r ∷ []; batch_bytes = w.batch_bytes + (length r + 1) }

module _ (o : Options) (net : Net) where
  unfoldable pub deliver : Context → Worker → Option Error
  unfolding exchange_error stream_request
  deliver ctx w = exchange_error (net ctx w.attempts (stream_request o w.batch))

  -- `flush` on a batch that is not empty.
  unfoldable pub flush_batch : Context → Worker → Option Error × Worker
  unfolding deliver failed latest
  flush_batch ctx w =
      let e = deliver ctx w in
      (
        e,
        record w {
          batch = [];
          batch_bytes = 2;
          last_err = latest e w.last_err;
          attempts = w.attempts ++ (record { batch = w.batch; result = e }) ∷ [];
          diagnostics = failed e w.diagnostics;
        },
      )

  -- Nothing is sent where there is nothing to send.
  unfoldable pub flush_of : Context → List Bytes → Worker → Option Error × Worker
  unfolding flush_batch
  flush_of ctx [] w = (none, w)
  flush_of ctx (_ ∷ _) w = flush_batch ctx w

  unfoldable pub flush : Context → Worker → Option Error × Worker
  unfolding flush_of
  flush ctx w = flush_of ctx w.batch w

  -- `appendRecord` up to the append: the batch makes room.
  unfoldable pub make_room : Context → Bytes → Worker → Worker
  unfolding flush
  make_room ctx r w =
      if ltb 0 (length w.batch) && ltb o.max_batch_bytes (w.batch_bytes + (length r + 1))
      then (flush ctx w).1
      else w

  -- `appendRecord` behind the append: a full batch is sent.
  unfoldable pub send_full : Context → Worker → Worker
  unfolding flush
  send_full ctx w = if leb o.batch_size (length w.batch) then (flush ctx w).1 else w

  unfoldable pub append_record : Context → Bytes → Worker → Worker
  unfolding make_room put send_full
  append_record ctx r w = send_full ctx (put r (make_room ctx r w))

-- A report was made less than a minute ago.
unfoldable pub recently : Option ℕ → ℕ → Bool
recently none now = false
recently (some last) now = ltb (now - last) default_drop_report_rate

-- The closure `reportDrop` of `run`, at the time `now` and with the count of `droppedRecords`.
unfoldable pub report : ℕ → ℕ → Error → Worker → Worker
unfolding recently
report now dropped e w = if recently w.last_drop_report now then w else record w {
  last_drop_report = some now;
  diagnostics = w.diagnostics ++ record_dropped dropped e ∷ [];
}
