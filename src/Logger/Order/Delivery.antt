-- ===== src/Logger/Order/Delivery.antt =====
-- The order of records in every run of the stream sender.
use mathlib.Core.List.{append_assoc, append-nil}
use dp1_feed_v.Shared.{
  ℕ, ◌≡◌, refl, sym, ◌∙◌, ap, ◌↔◌, Bool-cases, inl, inr, List, [], ◌∷◌, ◌++◌, Option, none, some,
  All,
}
use dp1_feed_v.Models.{Bytes}
use dp1_feed_v.Logger.Options.{Options}
use dp1_feed_v.Logger.Sender.{
  Context, background, Sender, report_drop, admit, enqueue, mark_dequeued, close,
}
use dp1_feed_v.Logger.Worker.{Net, Worker, flush}
use dp1_feed_v.Logger.Run.{
  System, start, admitted, enqueue_step, append_step, flush_step, tick_step, stop_step, Work, Call,
  Run, receive, append, begin_flush, end_drain, end_flush, tick, notice, begin_close, stop,
  call_enqueue, call_report, call_close, here, worked, called,
}
use dp1_feed_v.Logger.Capacity.{held, enqueue_cases}
use dp1_feed_v.Logger.Order.Worker.{
  Keeps, delivered, Succeeded, last_failure, flush-Keeps, append_record-Keeps, report-Keeps,
  last_failure_iff,
}

-- What the goroutine has sent or keeps, then what it holds, then the queue, are what was admitted.
pub record InOrder (s : System) : Type 0 where
  pub taken : List Bytes
  pub keeps : Keeps s.worker taken
  pub ordered : taken ++ (held s.received ++ s.sender.records) ≡ s.accepted

pub close-records : (ctx : Context) (s : Sender) → (close ctx s).records ≡ s.records
unfolding close
close-records ctx s = elim (Bool-cases s.closed) [ inl c ↦ simp c refl | inr c ↦ simp c refl ]

module _ (o : Options) (net : Net) where
  receive_lem :
      (r : Bytes) (rest rs taken all : List Bytes) (x : Option Bytes)
      → x ≡ none
      → rs ≡ r ∷ rest
      → taken ++ (held x ++ rs) ≡ all
      → taken ++ (r ∷ rest) ≡ all
  receive_lem r rest rs taken all x empty e h = rw (empty, e) at h

  append_lem :
      (r : Bytes) (rs taken all : List Bytes) (x : Option Bytes)
      → x ≡ some r
      → taken ++ (held x ++ rs) ≡ all
      → taken ++ r ∷ [] ++ rs ≡ all
  append_lem r rs taken all x e h = append_assoc taken (r ∷ []) rs ∙ (rw e at h)

  all_taken :
      (taken rs all : List Bytes) (x : Option Bytes)
      → x ≡ none
      → rs ≡ []
      → taken ++ (held x ++ rs) ≡ all
      → taken ++ [] ≡ all
  all_taken taken rs all x empty e h = rw (empty, e) at h

  Work-InOrder : {s t : System} → Work o net s t → InOrder s → InOrder t
  unfolding append_step flush_step tick_step stop_step mark_dequeued
  Work-InOrder {s} (receive r rest run empty e) h = record {
    taken = h.taken;
    keeps = h.keeps;
    ordered = receive_lem r rest s.sender.records h.taken s.accepted s.received empty e h.ordered;
  }
  Work-InOrder {s} (append r e) h = record {
    taken = h.taken ++ r ∷ [];
    keeps = append_record-Keeps o net _ r h.taken s.worker h.keeps;
    ordered = append_lem r s.sender.records h.taken s.accepted s.received e h.ordered;
  }
  Work-InOrder (begin_flush ctx at empty) h = record {
    taken = h.taken;
    keeps = h.keeps;
    ordered = h.ordered;
  }
  Work-InOrder (end_drain ctx at empty e) h = record {
    taken = h.taken;
    keeps = h.keeps;
    ordered = h.ordered;
  }
  Work-InOrder {s} (end_flush ctx at empty) h = record {
    taken = h.taken;
    keeps = (flush-Keeps o net ctx h.taken s.worker h.keeps).0;
    ordered = h.ordered;
  }
  Work-InOrder {s} (tick at empty) h = record {
    taken = h.taken;
    keeps = (flush-Keeps o net background h.taken s.worker h.keeps).0;
    ordered = h.ordered;
  }
  Work-InOrder {s} (notice now e at empty n) h = record {
    taken = h.taken;
    keeps = report-Keeps now s.sender.dropped_records e h.taken s.worker h.keeps;
    ordered = h.ordered;
  }
  Work-InOrder (begin_close ctx rest at empty e) h = record {
    taken = h.taken;
    keeps = h.keeps;
    ordered = h.ordered;
  }
  Work-InOrder {s} (stop ctx at empty e) h = record {
    taken = h.taken;
    keeps = (flush-Keeps o net ctx h.taken s.worker h.keeps).0;
    ordered = h.ordered;
  }

  enqueue_lem :
      (r : Bytes) (s : System) (taken : List Bytes)
      → taken ++ (held s.received ++ s.sender.records) ≡ s.accepted
      → taken ++ (held s.received ++ (enqueue o r s.sender).1.records)
        ≡ admitted (enqueue o r s.sender).0 r s.accepted
  unfolding admit admitted
  enqueue_lem r s taken h = elim (enqueue_cases o r s.sender) [
    | inl (_, _, _, e) ↦ rw e (
        ap (λ (xs : List Bytes). taken ++ xs)
          (sym (append_assoc (held s.received) s.sender.records (r ∷ [])))
        ∙ sym (append_assoc taken (held s.received ++ s.sender.records) (r ∷ []))
        ∙ ap (λ (xs : List Bytes). xs ++ r ∷ []) h)
    | inr (_, e) ↦ rw e h
  ]

  Call-InOrder : {s t : System} → Call o net s t → InOrder s → InOrder t
  unfolding enqueue_step report_drop
  Call-InOrder {s} (call_enqueue r) h = record {
    taken = h.taken;
    keeps = h.keeps;
    ordered = enqueue_lem r s h.taken h.ordered;
  }
  Call-InOrder (call_report e) h = record { taken = h.taken; keeps = h.keeps; ordered = h.ordered }
  Call-InOrder {s} (call_close ctx) h = record {
    taken = h.taken;
    keeps = h.keeps;
    ordered = rw (close-records ctx s.sender) h.ordered;
  }

  pub Run-InOrder : {n : ℕ} {s t : System} → InOrder s → Run o net n s t → InOrder t
  Run-InOrder h here = h
  Run-InOrder h (worked r w) = Work-InOrder w (Run-InOrder h r)
  Run-InOrder h (called r c) = Call-InOrder c (Run-InOrder h r)

  pub start-InOrder : InOrder start
  unfolding start delivered last_failure
  start-InOrder = record {
    taken = [];
    keeps = record { carried = refl; honest = refl };
    ordered = refl;
  }

  -- In every run, the records of the requests, of the batch, the one in hand and those of the queue are, in
  -- this order, exactly the records that were admitted: none is lost, repeated or overtaken.
  pub run_in_order :
      {n : ℕ} {s : System}
      → Run o net n start s
      → delivered s.worker.attempts ++ s.worker.batch ++ (held s.received ++ s.sender.records)
        ≡ s.accepted
  run_in_order {s} r =
      let h = Run-InOrder start-InOrder r in
      ap (λ (xs : List Bytes). xs ++ (held s.received ++ s.sender.records)) h.keeps.carried
      ∙ h.ordered

  -- With nothing in hand or queued, a flush leaves nothing that was admitted unsent.
  pub flushed :
      {s : System} (ctx : Context)
      → InOrder s
      → s.received ≡ none
      → s.sender.records ≡ []
      → let w = (flush o net ctx s.worker).1 in
        (delivered w.attempts ≡ s.accepted) × ((w.last_err ≡ none) ↔ All Succeeded w.attempts)
  flushed {s} ctx h empty e =
      let (keeps, sent) = flush-Keeps o net ctx h.taken s.worker h.keeps in
      let w : Worker = (flush o net ctx s.worker).1 in
      (
        sym (append-nil (delivered w.attempts))
            ∙ sym (ap (λ (b : List Bytes). delivered w.attempts ++ b) sent)
            ∙ keeps.carried
            ∙ sym (append-nil h.taken)
            ∙ all_taken h.taken s.sender.records s.accepted s.received empty e h.ordered,
        rw keeps.honest (last_failure_iff w.attempts),
      )
