-- ===== src/Logger/Order/Flushing.antt =====
-- What a call of `flush` on the stream sender is answered, and when.
use mathlib.Core.List.{append_assoc, append-nil}
use dp1_feed_v.Shared.{
  ℕ, ◌≡◌, ◌≢◌, refl, sym, ◌∙◌, ap, ◌↔◌, List, [], ◌∷◌, ◌++◌, Option, none, some, All,
}
use dp1_feed_v.Models.{Bytes}
use dp1_feed_v.Logger.Options.{Options}
use dp1_feed_v.Logger.Sender.{Context, Error, enqueue}
use dp1_feed_v.Logger.Worker.{Net, Worker, flush}
use dp1_feed_v.Logger.Run.{
  System, Phase, selecting, answering, Runs, at_select, in_flush, in_close, start, admitted,
  enqueue_step, append_step, flush_step, tick_step, stop_step, Work, Call, Run, receive, append,
  begin_flush, end_drain, end_flush, tick, notice, begin_close, stop, call_enqueue, call_report,
  call_close, here, worked, called,
}
use dp1_feed_v.Logger.Capacity.{held}
use dp1_feed_v.Logger.Order.Worker.{
  delivered, Succeeded, flush_answer_lem, flush-Keeps, last_failure_iff,
}
use dp1_feed_v.Logger.Order.Delivery.{InOrder, Run-InOrder, start-InOrder}

-- The first list, and more.
abbrev pub Prefix : List Bytes → List Bytes → Type 0
Prefix xs ys = (more : List Bytes) × (xs ++ more ≡ ys)

Prefix-append : (xs ys zs : List Bytes) → Prefix xs ys → Prefix xs (ys ++ zs)
Prefix-append xs ys zs (more, e) =
    (more ++ zs, sym (append_assoc xs more zs) ∙ ap (λ (l : List Bytes). l ++ zs) e)

-- Since a state in which these records had been admitted: they still are, and between the drain of a flush
-- and its answer they have all been taken from the queue, and nothing is in hand.
record Since (old : List Bytes) (t : System) : Type 0 where
  pub kept : Prefix old t.accepted
  pub settled :
      (ctx : Context)
      → t.phase ≡ answering ctx
      → (t.received ≡ none) × Prefix old (delivered t.worker.attempts ++ t.worker.batch)

not_answering : (p : Phase) (ctx : Context) → Runs p → p ≢ answering ctx
not_answering p ctx at_select h = cc
not_answering p ctx in_flush h = cc
not_answering p ctx in_close h = cc

-- With nothing in hand or queued, what was admitted is what was taken.
emptied :
    (old taken rs all : List Bytes) (x : Option Bytes)
    → x ≡ none
    → rs ≡ []
    → taken ++ (held x ++ rs) ≡ all
    → Prefix old all
    → Prefix old taken
emptied old taken rs all x empty e h (more, k) =
    (more, k ∙ sym (rw (empty, e) at h) ∙ append-nil taken)

module _ (o : Options) (net : Net) (old : List Bytes) where
  Work-Since : {t u : System} → Work o net t u → InOrder t → Since old t → Since old u
  unfolding append_step flush_step tick_step stop_step
  Work-Since {t} (receive r rest run empty e) ord h = record {
    kept = h.kept;
    settled = λ ctx at. absurd (not_answering t.phase ctx run at);
  }
  Work-Since {t} (append r e) ord h = record {
    kept = h.kept;
    settled = λ ctx at. let empty = (h.settled ctx at).0 in cc;
  }
  Work-Since (begin_flush ctx f empty) ord h = record { kept = h.kept; settled = λ c at. cc }
  Work-Since {t} (end_drain ctx f empty e) ord h = record {
    kept = h.kept;
    settled = λ c at.
        let (more, k) =
          emptied old ord.taken t.sender.records t.accepted t.received empty e ord.ordered h.kept in
        (empty, (more, k ∙ sym ord.keeps.carried));
  }
  Work-Since (end_flush ctx f empty) ord h = record { kept = h.kept; settled = λ c at. cc }
  Work-Since (tick f empty) ord h = record { kept = h.kept; settled = λ c at. cc }
  Work-Since (notice now e f empty n) ord h = record { kept = h.kept; settled = λ c at. cc }
  Work-Since (begin_close ctx rest f empty e) ord h = record { kept = h.kept; settled = λ c at. cc }
  Work-Since (stop ctx f empty e) ord h = record { kept = h.kept; settled = λ c at. cc }

  admitted-Prefix :
      (e : Option Error) (r : Bytes) (all : List Bytes)
      → Prefix old all
      → Prefix old (admitted e r all)
  unfolding admitted
  admitted-Prefix none r all h = Prefix-append old all (r ∷ []) h
  admitted-Prefix (some e) r all h = h

  Call-Since : {t u : System} → Call o net t u → Since old t → Since old u
  unfolding enqueue_step
  Call-Since {t} (call_enqueue r) h = record {
    kept = admitted-Prefix (enqueue o r t.sender).0 r t.accepted h.kept;
    settled = h.settled;
  }
  Call-Since (call_report e) h = record { kept = h.kept; settled = h.settled }
  Call-Since (call_close ctx) h = record { kept = h.kept; settled = h.settled }

  Run-Since : {k : ℕ} {s t : System} → InOrder s → Since old s → Run o net k s t → Since old t
  Run-Since ord h here = h
  Run-Since ord h (worked r w) = Work-Since w (Run-InOrder o net ord r) (Run-Since ord h r)
  Run-Since ord h (called r c) = Call-Since c (Run-Since ord h r)

-- What a flush has been answered with: a further answer, everything of these records in requests, and no
-- error exactly when no request has failed.
pub record IsAnswered (old : List Bytes) (t u : System) : Type 0 where
  pub sent : Prefix old (delivered u.worker.attempts)
  pub answer : Option Error
  pub added : u.answers ≡ t.answers ++ answer ∷ []
  pub honest : (answer ≡ none) ↔ All Succeeded u.worker.attempts

module _ (o : Options) (net : Net) where
  answered_lem :
      {old : List Bytes} {t u : System}
      → InOrder t
      → Since old t
      → Work o net t u
      → u.answers ≢ t.answers
      → IsAnswered old t u
  unfolding append_step flush_step tick_step stop_step
  answered_lem ord h (receive r rest run empty e) n = absurd (n refl)
  answered_lem ord h (append r e) n = absurd (n refl)
  answered_lem ord h (begin_flush ctx f empty) n = absurd (n refl)
  answered_lem ord h (end_drain ctx f empty e) n = absurd (n refl)
  answered_lem {t = t} ord h (end_flush ctx f empty) n =
      let (none_held, (more, k)) = h.settled ctx f in
      let (keeps, sent) = flush-Keeps o net ctx ord.taken t.worker ord.keeps in
      let w : Worker = (flush o net ctx t.worker).1 in
      record {
        sent = (
          more,
          k
              ∙ ord.keeps.carried
              ∙ sym keeps.carried
              ∙ ap (λ (b : List Bytes). delivered w.attempts ++ b) sent
              ∙ append-nil (delivered w.attempts),
        );
        answer = w.last_err;
        added = rw (flush_answer_lem o net ctx t.worker) refl;
        honest = rw keeps.honest (last_failure_iff w.attempts);
      }
  answered_lem ord h (tick f empty) n = absurd (n refl)
  answered_lem ord h (notice now e f empty m) n = absurd (n refl)
  answered_lem ord h (begin_close ctx rest f empty e) n = absurd (n refl)
  answered_lem ord h (stop ctx f empty e) n = absurd (n refl)

  -- When a step of the goroutine answers a call of `flush`, everything that had been admitted at any moment
  -- at which the goroutine had not yet taken that call (it stood at its `select`) is in a request, whatever
  -- producers did since; and the answer is no error exactly when no request since the start has failed.
  pub flush-IsAnswered :
      {n k : ℕ} {s t u : System}
      → Run o net n start s
      → s.phase ≡ selecting
      → Run o net k s t
      → Work o net t u
      → u.answers ≢ t.answers
      → IsAnswered s.accepted t u
  flush-IsAnswered {s} before at r w n =
      let ord = Run-InOrder o net (start-InOrder o net) before in
      let first : Since s.accepted s = record {
        kept = ([], append-nil s.accepted);
        settled = λ ctx z. cc;
      } in
      answered_lem (Run-InOrder o net ord r) (Run-Since o net s.accepted ord first r) w n
