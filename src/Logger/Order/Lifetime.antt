-- ===== src/Logger/Order/Lifetime.antt =====
-- What the close of the stream sender leaves behind, in every run.
use dp1_feed_v.Shared.{
  ℕ, ◌≡◌, ◌≢◌, refl, ◌∙◌, ◌↔◌, Bool, Bool-cases, inl, inr, [], true, false, none, some, All,
}
use dp1_feed_v.Models.{Bytes}
use dp1_feed_v.Logger.Options.{Options}
use dp1_feed_v.Logger.Sender.{
  Context, Sender, report_drop, admit, enqueue, mark_dequeued, close, sender_closed,
}
use dp1_feed_v.Logger.Worker.{Net}
use dp1_feed_v.Logger.Run.{
  System, Phase, selecting, flushing, answering, closing, stopped, Runs, at_select, in_flush,
  in_close, start, admitted, enqueue_step, append_step, flush_step, tick_step, stop_step, Work,
  Call, Run, receive, append, begin_flush, end_drain, end_flush, tick, notice, begin_close, stop,
  call_enqueue, call_report, call_close, here, worked, called,
}
use dp1_feed_v.Logger.Capacity.{enqueue_cases}
use dp1_feed_v.Logger.Order.Worker.{delivered, Succeeded}
use dp1_feed_v.Logger.Order.Delivery.{InOrder, flushed, Run-InOrder, start-InOrder}

-- The goroutine has taken a close request.
unfoldable pub leaving : Phase → Bool
leaving selecting = false
leaving (flushing ctx) = false
leaving (answering ctx) = false
leaving (closing ctx) = true
leaving stopped = true

-- The goroutine has returned with nothing left to send, and `close` tells whether all went well.
pub record Ended (s : System) : Type 0 where
  pub empty : s.received ≡ none
  pub ended : s.sender.done ≡ true
  pub complete : delivered s.worker.attempts ≡ s.accepted
  pub honest : (s.sender.close_err ≡ none) ↔ All Succeeded s.worker.attempts

pub record Lifecycle (s : System) : Type 0 where
  pub requested : s.sender.close_requests ≢ [] → s.sender.closed ≡ true
  pub left : leaving s.phase ≡ true → s.sender.closed ≡ true
  pub over : s.phase ≡ stopped → Ended s

pub stopped_of : (p : Phase) → Runs p → p ≢ stopped
stopped_of p at_select h = cc
stopped_of p in_flush h = cc
stopped_of p in_close h = cc

pub enqueue_closed :
    (o : Options) (r : Bytes) (s : Sender)
    → s.closed ≡ true
    → enqueue o r s ≡ (some sender_closed, s)
unfolding enqueue
enqueue_closed o r s c = simp c refl

pub close-keeps :
    (ctx : Context) (s : Sender)
    → ((close ctx s).closed ≡ true)
      × ((close ctx s).done ≡ s.done)
      × ((close ctx s).close_err ≡ s.close_err)
unfolding close
close-keeps ctx s = elim (Bool-cases s.closed) [
  | inl c ↦ simp c (refl, refl, refl)
  | inr c ↦ simp c (refl, refl, refl)
]

module _ (o : Options) (net : Net) where
  -- A goroutine that does something with nothing in hand has not returned.
  Work-Lifecycle : {s t : System} → Work o net s t → InOrder s → Lifecycle s → Lifecycle t
  unfolding append_step flush_step tick_step stop_step mark_dequeued leaving
  Work-Lifecycle {s} (receive r rest run empty e) ord h = record {
    requested = h.requested;
    left = h.left;
    over = λ q. absurd (stopped_of s.phase run q);
  }
  Work-Lifecycle {s} (append r e) ord h = record {
    requested = h.requested;
    left = h.left;
    over = λ q. let f = (h.over q).empty in cc;
  }
  Work-Lifecycle {s} (begin_flush ctx at empty) ord h = record {
    requested = h.requested;
    left = λ q. cc;
    over = λ q. cc;
  }
  Work-Lifecycle {s} (end_drain ctx at empty e) ord h = record {
    requested = h.requested;
    left = λ q. cc;
    over = λ q. cc;
  }
  Work-Lifecycle {s} (end_flush ctx at empty) ord h = record {
    requested = h.requested;
    left = λ q. cc;
    over = λ q. cc;
  }
  Work-Lifecycle {s} (tick at empty) ord h = record {
    requested = h.requested;
    left = h.left;
    over = λ q. cc;
  }
  Work-Lifecycle {s} (notice now e at empty n) ord h = record {
    requested = h.requested;
    left = h.left;
    over = λ q. cc;
  }
  Work-Lifecycle {s} (begin_close ctx rest at empty e) ord h = record {
    requested = λ q. h.requested (λ z. cc);
    left = λ q. h.requested (λ z. cc);
    over = λ q. cc;
  }
  Work-Lifecycle {s} (stop ctx at empty e) ord h =
      let (all, honest) = flushed o net {s = s} ctx ord empty e in
      record {
        requested = h.requested;
        left = λ q. h.left (rw at refl);
        over = λ q. record { empty = empty; ended = refl; complete = all; honest = honest };
      }

  enqueue-keeps :
      (r : Bytes) (s : Sender)
      → ((enqueue o r s).1.closed ≡ s.closed)
        × ((enqueue o r s).1.close_requests ≡ s.close_requests)
        × ((enqueue o r s).1.done ≡ s.done)
        × ((enqueue o r s).1.close_err ≡ s.close_err)
  unfolding admit
  enqueue-keeps r s = elim (enqueue_cases o r s) [
    | inl (_, _, _, e) ↦ rw e (refl, refl, refl, refl)
    | inr (_, e) ↦ rw e (refl, refl, refl, refl)
  ]

  -- Behind the close, nothing more is admitted.
  enqueue-Ended :
      (r : Bytes) (s : System) → s.sender.closed ≡ true → Ended s → Ended (enqueue_step o net r s)
  unfolding enqueue_step admitted
  enqueue-Ended r s c h =
      rw (enqueue_closed o r s.sender c)
        (record { empty = h.empty; ended = h.ended; complete = h.complete; honest = h.honest })

  Call-Lifecycle : {s t : System} → Call o net s t → Lifecycle s → Lifecycle t
  unfolding enqueue_step report_drop leaving
  Call-Lifecycle {s} (call_enqueue r) h =
      let (c, q, _, _) = enqueue-keeps r s.sender in
      record {
        requested = λ z. c ∙ h.requested (λ n. z (q ∙ n));
        left = λ l. c ∙ h.left l;
        over = λ z. enqueue-Ended r s (h.left (rw z refl)) (h.over z);
      }
  Call-Lifecycle {s} (call_report e) h = record {
    requested = h.requested;
    left = h.left;
    over = λ z.
        let f = h.over z in
        record { empty = f.empty; ended = f.ended; complete = f.complete; honest = f.honest };
  }
  Call-Lifecycle {s} (call_close ctx) h =
      let (c, d, e) = close-keeps ctx s.sender in
      record {
        requested = λ _. c;
        left = λ _. c;
        over = λ z.
            let f = h.over z in
            record {
              empty = f.empty;
              ended = d ∙ f.ended;
              complete = f.complete;
              honest = rw e f.honest;
            };
      }

  start-Lifecycle : Lifecycle start
  unfolding start leaving
  start-Lifecycle = record { requested = λ h. absurd (h refl); left = λ h. cc; over = λ h. cc }

  pub Lifecycle-of :
      {n : ℕ} {s t : System} → InOrder s → Lifecycle s → Run o net n s t → Lifecycle t
  Lifecycle-of ord h here = h
  Lifecycle-of ord h (worked r w) =
      Work-Lifecycle w (Run-InOrder o net ord r) (Lifecycle-of ord h r)
  Lifecycle-of ord h (called r c) = Call-Lifecycle c (Lifecycle-of ord h r)

  pub Run-Lifecycle : {n : ℕ} {s : System} → Run o net n start s → Lifecycle s
  Run-Lifecycle r = Lifecycle-of (start-InOrder o net) start-Lifecycle r

  -- When the goroutine has returned, `close` gets its result: every record that was ever admitted has been
  -- in a request (one that could not be built counts, as failed), once and in the order of admission, and the result is no error exactly when no request
  -- has failed.
  pub stopped_delivers :
      {n : ℕ} {s : System}
      → Run o net n start s
      → s.phase ≡ stopped
      → (s.sender.done ≡ true)
        × (delivered s.worker.attempts ≡ s.accepted)
        × ((s.sender.close_err ≡ none) ↔ All Succeeded s.worker.attempts)
  stopped_delivers {s} r z = let f = (Run-Lifecycle r).over z in (f.ended, f.complete, f.honest)
