-- ===== src/Logger/Order/Worker.antt =====
-- The records that the goroutine has sent and those it keeps, and the last error of its attempts.
use mathlib.Core.List.{append_assoc, append-nil}
use dp1_feed_v.Shared.{
  ℕ, ◌≡◌, ◌≢◌, refl, sym, ◌∙◌, ap, ◌↔◌, Bool-cases, Option-cases, inl, inr, List, [], ◌∷◌, ◌++◌,
  length, ltb, leb, ◌&&◌, Option, none, some, All, ◌+◌,
}
use dp1_feed_v.Models.{Bytes}
use dp1_feed_v.Logger.Options.{Options}
use dp1_feed_v.Logger.Sender.{Context, Error}
use dp1_feed_v.Logger.Run.{flush_answer}
use dp1_feed_v.Logger.Worker.{
  Net, Attempt, Worker, latest, deliver, flush_batch, flush_of, flush, put, make_room, send_full,
  append_record, report, recently,
}

-- The records of all attempts, in the order they were posted.
unfoldable pub delivered : List Attempt → List Bytes
delivered [] = []
delivered (a ∷ rest) = a.batch ++ delivered rest

abbrev pub Succeeded : Attempt → Type 0
Succeeded a = a.result ≡ none

-- The error of the last attempt that failed.
unfoldable pub last_failure : Option Error → List Attempt → Option Error
last_failure e [] = e
last_failure e (a ∷ rest) = last_failure (latest a.result e) rest

delivered-append :
    (rest : List Attempt) (a : Attempt) → delivered (rest ++ a ∷ []) ≡ delivered rest ++ a.batch
unfolding delivered
delivered-append [] a = append-nil a.batch
delivered-append (b ∷ rest) a =
    rw (delivered-append rest a) (sym (append_assoc b.batch (delivered rest) a.batch))

last_failure-append :
    (e : Option Error) (rest : List Attempt) (a : Attempt)
    → last_failure e (rest ++ a ∷ []) ≡ latest a.result (last_failure e rest)
unfolding last_failure
last_failure-append e [] a = refl
last_failure-append e (b ∷ rest) a = last_failure-append (latest b.result e) rest a

-- The worker has sent or keeps exactly these records, in this order, and remembers its last failure.
pub record Keeps (w : Worker) (rs : List Bytes) : Type 0 where
  pub carried : delivered w.attempts ++ w.batch ≡ rs
  pub honest : w.last_err ≡ last_failure none w.attempts

module _ (o : Options) (net : Net) where
  flush_of-Keeps :
      (ctx : Context) (bs rs : List Bytes) (w : Worker)
      → w.batch ≡ bs
      → Keeps w rs
      → Keeps (flush_of o net ctx bs w).1 rs × ((flush_of o net ctx bs w).1.batch ≡ [])
  unfolding flush_of flush_batch
  flush_of-Keeps ctx [] rs w e h = (h, e)
  flush_of-Keeps ctx (b ∷ bs) rs w e h = (
    record {
      carried =
          append-nil _
          ∙ delivered-append w.attempts (record { batch = w.batch; result = _ })
          ∙ h.carried;
      honest =
          ap (latest _) h.honest
          ∙ sym (last_failure-append none w.attempts (record { batch = w.batch; result = _ }));
    },
    refl,
  )

  pub flush-Keeps :
      (ctx : Context) (rs : List Bytes) (w : Worker)
      → Keeps w rs
      → Keeps (flush o net ctx w).1 rs × ((flush o net ctx w).1.batch ≡ [])
  unfolding flush
  flush-Keeps ctx rs w h = flush_of-Keeps ctx w.batch rs w refl h

  answer_of :
      (ctx : Context) (bs : List Bytes) (w : Worker)
      → flush_answer (flush_of o net ctx bs w).0 (flush_of o net ctx bs w).1.last_err
        ≡ (flush_of o net ctx bs w).1.last_err
  unfolding flush_of flush_batch flush_answer latest
  answer_of ctx [] w = refl
  answer_of ctx (b ∷ bs) w = elim (Option-cases (deliver o net ctx w)) [
    | inl n ↦ rw n refl
    | inr (x, f) ↦ rw f refl
  ]

  -- The answer to a call of `flush` is the last error of the goroutine.
  pub flush_answer_lem :
      (ctx : Context) (w : Worker)
      → flush_answer (flush o net ctx w).0 (flush o net ctx w).1.last_err
        ≡ (flush o net ctx w).1.last_err
  unfolding flush
  flush_answer_lem ctx w = answer_of ctx w.batch w

  make_room-Keeps :
      (ctx : Context) (r : Bytes) (rs : List Bytes) (w : Worker)
      → Keeps w rs
      → Keeps (make_room o net ctx r w) rs
  unfolding make_room
  make_room-Keeps ctx r rs w h =
      elim (Bool-cases
        (ltb 0 (length w.batch) && ltb o.max_batch_bytes (w.batch_bytes + (length r + 1)))) [
          | inl e ↦ rw e (flush-Keeps ctx rs w h).0
          | inr e ↦ rw e h
        ]

  send_full-Keeps :
      (ctx : Context) (rs : List Bytes) (w : Worker) → Keeps w rs → Keeps (send_full o net ctx w) rs
  unfolding send_full
  send_full-Keeps ctx rs w h = elim (Bool-cases (leb o.batch_size (length w.batch))) [
    | inl e ↦ rw e (flush-Keeps ctx rs w h).0
    | inr e ↦ rw e h
  ]

  put-Keeps :
      (r : Bytes) (rs : List Bytes) (w : Worker) → Keeps w rs → Keeps (put r w) (rs ++ r ∷ [])
  unfolding put
  put-Keeps r rs w h = record {
    carried =
        sym (append_assoc (delivered w.attempts) w.batch (r ∷ []))
        ∙ ap (λ (xs : List Bytes). xs ++ r ∷ []) h.carried;
    honest = h.honest;
  }

  pub append_record-Keeps :
      (ctx : Context) (r : Bytes) (rs : List Bytes) (w : Worker)
      → Keeps w rs
      → Keeps (append_record o net ctx r w) (rs ++ r ∷ [])
  unfolding append_record
  append_record-Keeps ctx r rs w h =
      send_full-Keeps ctx _ (put r (make_room o net ctx r w))
        (put-Keeps r rs (make_room o net ctx r w) (make_room-Keeps ctx r rs w h))

pub report-Keeps :
    (now n : ℕ) (e : Error) (rs : List Bytes) (w : Worker)
    → Keeps w rs
    → Keeps (report now n e w) rs
unfolding report
report-Keeps now n e rs w h = elim (Bool-cases (recently w.last_drop_report now)) [
  | inl c ↦ rw c h
  | inr c ↦ rw c (record { carried = h.carried; honest = h.honest })
]

still_failed : (e : Error) (rest : List Attempt) → last_failure (some e) rest ≢ none
unfolding last_failure latest
still_failed e [] h = cc
still_failed e (a ∷ rest) h = elim (Option-cases a.result) [
  | inl n ↦ still_failed e rest (rw n at h)
  | inr (x, f) ↦ still_failed x rest (rw f at h)
]

All-Succeeded : (rest : List Attempt) → last_failure none rest ≡ none → All Succeeded rest
unfolding last_failure latest
All-Succeeded [] h = tt
All-Succeeded (a ∷ rest) h = elim (Option-cases a.result) [
  | inl n ↦ (n, All-Succeeded rest (rw n at h))
  | inr (x, f) ↦ absurd (still_failed x rest (rw f at h))
]

none_failed : (rest : List Attempt) → All Succeeded rest → last_failure none rest ≡ none
unfolding last_failure latest
none_failed [] h = refl
none_failed (a ∷ rest) (n, h) = rw n (none_failed rest h)

-- There is no last failure exactly when every attempt succeeded.
pub last_failure_iff : (rest : List Attempt) → (last_failure none rest ≡ none) ↔ All Succeeded rest
last_failure_iff rest = (All-Succeeded rest, none_failed rest)
