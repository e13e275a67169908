-- ===== src/Logger/Capacity/Sender.antt =====
-- The bounds of the record queue, and of the whole system in every run.
use dp1_feed_v.Shared.{
  ℕ, ◌+◌, ◌≤◌, ◌<◌, ◌⊎◌, ◌≡◌, refl, subst, Bool-cases, inl, inr, List, [], ◌∷◌, length,
  length-append, All, ltb, arith, Option, none, some,
}
use dp1_feed_v.Models.{Bytes}
use dp1_feed_v.Logger.Records.{byte_total, byte_total-append, weight}
use dp1_feed_v.Logger.Options.{Options}
use dp1_feed_v.Logger.Sender.{
  Context, background, Error, sender_closed, record_too_large, queue_bytes_exceeded, queue_full,
  Sender, report_drop, admit, enqueue, mark_dequeued, close,
}
use dp1_feed_v.Logger.Worker.{Net, Worker, report, recently}
use dp1_feed_v.Logger.Run.{
  System, start, enqueue_step, append_step, flush_step, tick_step, stop_step, Work, Call, Run,
  receive, append, begin_flush, end_drain, end_flush, tick, notice, begin_close, stop, call_enqueue,
  call_report, call_close, here, worked, called,
}
use dp1_feed_v.Logger.Capacity.Worker.{
  IsPositive, WorkerBounds, All-append, append_record-WorkerBounds, flush-WorkerBounds,
}

-- The record that the goroutine has received and not yet appended.
abbrev pub held : Option Bytes → List Bytes
held none = []
held (some r) = r ∷ []

abbrev pub Fits : Options → Bytes → Type 0
Fits o r = length r + 2 ≤ o.max_batch_bytes

pub record QueueBounds (o : Options) (records : List Bytes) (pending_bytes : ℕ)
    (received : Option Bytes) : Type 0 where
  pub fit : All (Fits o) records
  pub held_fit : All (Fits o) (held received)
  pub counted : pending_bytes ≡ byte_total records + byte_total (held received)
  pub few_bytes : pending_bytes ≤ o.max_queue_bytes
  pub few_records : length records ≤ o.queue_size

-- The bounds of a sender, with the record in the goroutine's hands.
abbrev pub SenderBounds : Options → Sender → Option Bytes → Type 0
SenderBounds o s received = QueueBounds o s.records s.pending_bytes received

pub record SystemBounds (o : Options) (s : System) : Type 0 where
  pub worker : WorkerBounds o s.worker
  pub queue : SenderBounds o s.sender s.received

module _ (o : Options) where
  admit-QueueBounds :
      (r : Bytes) (s : Sender) (x : Option Bytes)
      → length r + 2 ≤ o.max_batch_bytes
      → s.pending_bytes + length r ≤ o.max_queue_bytes
      → length s.records < o.queue_size
      → SenderBounds o s x
      → SenderBounds o (admit r s) x
  unfolding admit byte_total
  admit-QueueBounds r s x fits small room h = record {
    fit = All-append (Fits o) s.records r h.fit fits;
    held_fit = h.held_fit;
    counted = omega (arith, byte_total-append s.records (r ∷ []), h.counted);
    few_bytes = small;
    few_records = omega (arith, length-append s.records (r ∷ []));
  }

  -- A record is admitted within all bounds, or nothing changes.
  pub enqueue_cases :
      (r : Bytes) (s : Sender)
      → ((length r + 2 ≤ o.max_batch_bytes)
          × (s.pending_bytes + length r ≤ o.max_queue_bytes)
          × (length s.records < o.queue_size)
          × (enqueue o r s ≡ (none, admit r s)))
        ⊎ ((e : Error) × (enqueue o r s ≡ (some e, s)))
  unfolding enqueue
  enqueue_cases r s = elim (Bool-cases s.closed) [
    | inl c ↦ inr (sender_closed, simp c refl)
    | inr c ↦ simp c (elim (Bool-cases (ltb o.max_batch_bytes (length r + 2))) [
      | inl b ↦ inr (record_too_large (length r) o.max_batch_bytes, simp b refl)
      | inr b ↦ simp b (elim (Bool-cases (ltb o.max_queue_bytes (s.pending_bytes + length r))) [
        | inl q ↦ inr (queue_bytes_exceeded o.max_queue_bytes, simp q refl)
        | inr q ↦ simp q (elim (Bool-cases (ltb (length s.records) o.queue_size)) [
          | inl n ↦ inl (ground arith, ground arith, ground arith, simp n refl)
          | inr n ↦ inr (queue_full, simp n refl)
        ])
      ])
    ])
  ]

  enqueue-QueueBounds :
      (r : Bytes) (s : Sender) (x : Option Bytes)
      → SenderBounds o s x
      → SenderBounds o (enqueue o r s).1 x
  enqueue-QueueBounds r s x h = elim (enqueue_cases r s) [
    | inl (fits, small, room, e) ↦ rw e (admit-QueueBounds r s x fits small room h)
    | inr (_, e) ↦ rw e h
  ]

  close-QueueBounds :
      (ctx : Context) (s : Sender) (x : Option Bytes)
      → SenderBounds o s x
      → SenderBounds o (close ctx s) x
  unfolding close
  close-QueueBounds ctx s x h = elim (Bool-cases s.closed) [ inl c ↦ simp c h | inr c ↦ simp c h ]

  mark_dequeued-QueueBounds :
      (r : Bytes) (s : Sender) (x : Option Bytes)
      → x ≡ some r
      → SenderBounds o s x
      → Fits o r × SenderBounds o (mark_dequeued r s) none
  unfolding mark_dequeued byte_total
  mark_dequeued-QueueBounds r s x e h =
      let g : SenderBounds o s (some r) = subst (SenderBounds o s) e h in
      (
        g.held_fit.0,
        record {
          fit = g.fit;
          held_fit = tt;
          counted = omega (arith, g.counted);
          few_bytes = omega (arith, g.few_bytes);
          few_records = g.few_records;
        },
      )

  receive-QueueBounds :
      (r : Bytes) (rest rs : List Bytes) (n : ℕ) (x : Option Bytes)
      → x ≡ none
      → rs ≡ r ∷ rest
      → QueueBounds o rs n x
      → QueueBounds o rest n (some r)
  unfolding byte_total
  receive-QueueBounds r rest rs n x empty e h =
      let g : QueueBounds o (r ∷ rest) n none =
        subst (λ (y : Option Bytes). QueueBounds o (r ∷ rest) n y) empty
          (subst (λ (ys : List Bytes). QueueBounds o ys n x) e h) in
      record {
        fit = g.fit.1;
        held_fit = (g.fit.0, tt);
        counted = omega (arith, g.counted);
        few_bytes = g.few_bytes;
        few_records = omega (arith, g.few_records);
      }

  report-WorkerBounds :
      (now n : ℕ) (e : Error) (w : Worker) → WorkerBounds o w → WorkerBounds o (report now n e w)
  unfolding report
  report-WorkerBounds now n e w h = elim (Bool-cases (recently w.last_drop_report now)) [
    | inl c ↦ rw c h
    | inr c ↦
        rw c (record {
          short = h.short;
          measured = h.measured;
          light = h.light;
          sendable = h.sendable;
        })
  ]

module _ (o : Options) (net : Net) (p : IsPositive o) where
  pub Work-SystemBounds : {s t : System} → Work o net s t → SystemBounds o s → SystemBounds o t
  unfolding append_step flush_step tick_step stop_step
  Work-SystemBounds {s} (receive r rest run empty e) h = record {
    worker = h.worker;
    queue = receive-QueueBounds o r rest s.sender.records _ s.received empty e h.queue;
  }
  Work-SystemBounds {s} (append r e) h =
      let (fits, queue) = mark_dequeued-QueueBounds o r s.sender s.received e h.queue in
      record {
        worker = append_record-WorkerBounds o net p _ r s.worker fits h.worker;
        queue = queue;
      }
  Work-SystemBounds (begin_flush ctx at empty) h = record { worker = h.worker; queue = h.queue }
  Work-SystemBounds (end_drain ctx at empty e) h = record { worker = h.worker; queue = h.queue }
  Work-SystemBounds {s} (end_flush ctx at empty) h = record {
    worker = flush-WorkerBounds o net p ctx s.worker h.worker;
    queue = h.queue;
  }
  Work-SystemBounds {s} (tick at empty) h = record {
    worker = flush-WorkerBounds o net p background s.worker h.worker;
    queue = h.queue;
  }
  Work-SystemBounds {s} (notice now e at empty n) h = record {
    worker = report-WorkerBounds o now s.sender.dropped_records e s.worker h.worker;
    queue = h.queue;
  }
  Work-SystemBounds (begin_close ctx rest at empty e) h = record {
    worker = h.worker;
    queue = h.queue;
  }
  Work-SystemBounds {s} (stop ctx at empty e) h = record {
    worker = flush-WorkerBounds o net p ctx s.worker h.worker;
    queue = h.queue;
  }

  pub Call-SystemBounds : {s t : System} → Call o net s t → SystemBounds o s → SystemBounds o t
  unfolding enqueue_step report_drop
  Call-SystemBounds {s} (call_enqueue r) h = record {
    worker = h.worker;
    queue = enqueue-QueueBounds o r s.sender s.received h.queue;
  }
  Call-SystemBounds (call_report e) h = record { worker = h.worker; queue = h.queue }
  Call-SystemBounds {s} (call_close ctx) h = record {
    worker = h.worker;
    queue = close-QueueBounds o ctx s.sender s.received h.queue;
  }

  pub start-SystemBounds : SystemBounds o start
  unfolding start byte_total weight
  start-SystemBounds = record {
    worker = record {
      short = p.batch_size;
      measured = refl;
      light = p.max_batch_bytes;
      sendable = tt;
    };
    queue = record {
      fit = tt;
      held_fit = tt;
      counted = refl;
      few_bytes = omega arith;
      few_records = omega arith;
    };
  }

  pub Run-SystemBounds :
      {n : ℕ} {s t : System} → SystemBounds o s → Run o net n s t → SystemBounds o t
  Run-SystemBounds h here = h
  Run-SystemBounds h (worked r w) = Work-SystemBounds w (Run-SystemBounds h r)
  Run-SystemBounds h (called r c) = Call-SystemBounds c (Run-SystemBounds h r)

  -- In every run of a sender with positive bounds the queue holds no more records and bytes than its bounds
  -- allow, the byte count is that of the records queued and in hand, the batch is short of a full one, and
  -- every request so far carried at least one and at most a batch of records in a body within the limit.
  pub run_bounds : {n : ℕ} {s : System} → Run o net n start s → SystemBounds o s
  run_bounds r = Run-SystemBounds start-SystemBounds r
