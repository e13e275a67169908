-- ===== src/Logger/Shutdown/Ending.antt =====
-- The goroutine that has taken the close request returns, whatever producers do meanwhile.
use dp1_feed_v.Shared.{
  ℕ, suc, ◌+◌, ◌*◌, ◌≤◌, ◌≡◌, refl, ◌⊎◌, inl, inr, List, [], ◌∷◌, length, true, Option, none, some,
  arith,
}
use dp1_feed_v.Models.{Bytes}
use dp1_feed_v.Logger.Options.{Options}
use dp1_feed_v.Logger.Sender.{Context, report_drop, mark_dequeued}
use dp1_feed_v.Logger.Worker.{Net}
use dp1_feed_v.Logger.Run.{
  System, Phase, selecting, flushing, answering, closing, stopped, Runs, at_select, in_flush,
  in_close, start, enqueue_step, append_step, stop_step, Work, Call, Run, receive, append,
  begin_flush, end_drain, end_flush, tick, notice, begin_close, stop, call_enqueue, call_report,
  call_close, here, worked, called,
}
use dp1_feed_v.Logger.Capacity.{held}
use dp1_feed_v.Logger.Order.{
  enqueue_closed, close-records, leaving, Lifecycle, Run-Lifecycle, Lifecycle-of, InOrder,
  Run-InOrder, start-InOrder,
}

-- The steps that the goroutine has left: two for each record of the queue, one for the one in hand, and
-- one to return.
pub steps_left : Phase → Option Bytes → List Bytes → ℕ
steps_left stopped x rs = 0
steps_left selecting x rs = 2 * length rs + length (held x) + 1
steps_left (flushing ctx) x rs = 2 * length rs + length (held x) + 1
steps_left (answering ctx) x rs = 2 * length rs + length (held x) + 1
steps_left (closing ctx) x rs = 2 * length rs + length (held x) + 1

abbrev left_of : System → ℕ
left_of s = steps_left s.phase s.received s.sender.records

module _ (o : Options) (net : Net) where
  receive_left :
      (p : Phase) (r : Bytes) (rest rs : List Bytes) (x : Option Bytes)
      → Runs p
      → x ≡ none
      → rs ≡ r ∷ rest
      → suc (steps_left p (some r) rest) ≤ steps_left p x rs
  unfolding steps_left
  receive_left p r rest rs x at_select empty e = rw (empty, e) (omega arith)
  receive_left p r rest rs x in_flush empty e = rw (empty, e) (omega arith)
  receive_left p r rest rs x in_close empty e = rw (empty, e) (omega arith)

  append_left :
      (p : Phase) (r : Bytes) (rs : List Bytes) (x : Option Bytes)
      → x ≡ some r
      → (p ≡ stopped → x ≡ none)
      → suc (steps_left p none rs) ≤ steps_left p x rs
  unfolding steps_left
  append_left selecting r rs x e h = rw e (omega arith)
  append_left (flushing ctx) r rs x e h = rw e (omega arith)
  append_left (answering ctx) r rs x e h = rw e (omega arith)
  append_left (closing ctx) r rs x e h = rw e (omega arith)
  append_left stopped r rs x e h = let f = h refl in cc

  stop_left :
      (p : Phase) (ctx : Context) (x : Option Bytes) (rs : List Bytes)
      → p ≡ closing ctx
      → 1 ≤ steps_left p x rs
  unfolding steps_left
  stop_left p ctx x rs e = rw e (omega arith)

  Work_left :
      {t u : System}
      → Work o net t u
      → leaving t.phase ≡ true
      → Lifecycle t
      → (suc (left_of u) ≤ left_of t) × (leaving u.phase ≡ true)
  unfolding append_step stop_step mark_dequeued steps_left leaving
  Work_left {t} (receive r rest run empty e) l h =
      (receive_left t.phase r rest t.sender.records t.received run empty e, l)
  Work_left {t} (append r e) l h =
      (append_left t.phase r t.sender.records t.received e (λ q. (h.over q).empty), l)
  Work_left (begin_flush ctx f empty) l h = let bad = rw f at l in cc
  Work_left (end_drain ctx f empty e) l h = let bad = rw f at l in cc
  Work_left (end_flush ctx f empty) l h = let bad = rw f at l in cc
  Work_left (tick f empty) l h = let bad = rw f at l in cc
  Work_left (notice now e f empty n) l h = let bad = rw f at l in cc
  Work_left (begin_close ctx rest f empty e) l h = let bad = rw f at l in cc
  Work_left {t} (stop ctx f empty e) l h =
      (stop_left t.phase ctx t.received t.sender.records f, refl)

  Call_left :
      {t u : System}
      → Call o net t u
      → leaving t.phase ≡ true
      → Lifecycle t
      → (left_of u ≡ left_of t) × (u.phase ≡ t.phase)
  unfolding enqueue_step report_drop
  Call_left {t} (call_enqueue r) l h = rw (enqueue_closed o r t.sender (h.left l)) (refl, refl)
  Call_left (call_report e) l h = (refl, refl)
  Call_left {t} (call_close ctx) l h = rw (close-records ctx t.sender) (refl, refl)

  Run_left :
      {k : ℕ} {s t : System}
      → InOrder s
      → Lifecycle s
      → leaving s.phase ≡ true
      → Run o net k s t
      → (k + left_of t ≤ left_of s) × (leaving t.phase ≡ true)
  Run_left ord life l here = (omega arith, l)
  Run_left ord life l (worked {t = t} r w) =
      let (n, m) = Run_left ord life l r in
      let (n', m') = Work_left w m (Lifecycle-of o net ord life r) in (omega arith, m')
  Run_left ord life l (called {t = t} r c) =
      let (n, m) = Run_left ord life l r in
      let (n', e) = Call_left c m (Lifecycle-of o net ord life r) in (omega arith, rw e m)

  -- A goroutine that is leaving has a next step or has returned.
  next_of :
      (t : System) (p : Phase) (x : Option Bytes) (rs : List Bytes)
      → t.phase ≡ p
      → t.received ≡ x
      → t.sender.records ≡ rs
      → leaving p ≡ true
      → (t.phase ≡ stopped) ⊎ ((u : System) × Work o net t u)
  unfolding leaving
  next_of t selecting x rs e f g l = cc
  next_of t (flushing ctx) x rs e f g l = cc
  next_of t (answering ctx) x rs e f g l = cc
  next_of t (closing ctx) (some r) rs e f g l = inr (append_step o net r t, append r f)
  next_of t (closing ctx) none [] e f g l = inr (stop_step o net ctx t, stop ctx e f g)
  next_of t (closing ctx) none (r ∷ rest) e f g l = inr (_, receive r rest (rw e in_close) f g)
  next_of t stopped x rs e f g l = inl e

  leaving_of : {p : Phase} {ctx : Context} → p ≡ closing ctx → leaving p ≡ true
  unfolding leaving
  leaving_of e = rw e refl

  closing_steps :
      {k : ℕ} {ctx : Context} (m : ℕ) (p : Phase) (x : Option Bytes) (rs : List Bytes)
      → p ≡ closing ctx
      → k + m ≤ steps_left p x rs
      → k ≤ 2 * length rs + length (held x) + 1
  unfolding steps_left
  closing_steps m p x rs e h = let h' = rw e at h in omega arith

  -- Once the goroutine has taken the close request it returns, whatever producers do meanwhile: it takes at
  -- most two steps for each record that is queued, one for the record in hand and one more, and as long as
  -- it has not returned it has a step to take.
  pub close_terminates :
      {n k : ℕ} {s t : System} {ctx : Context}
      → Run o net n start s
      → s.phase ≡ closing ctx
      → Run o net k s t
      → (k ≤ 2 * length s.sender.records + length (held s.received) + 1)
        × ((t.phase ≡ stopped) ⊎ ((u : System) × Work o net t u))
  close_terminates {s} {t} before at r =
      let life = Run-Lifecycle o net before in
      let (few, l) =
        Run_left (Run-InOrder o net (start-InOrder o net) before) life (leaving_of at) r in
      (
        closing_steps (left_of t) s.phase s.received s.sender.records at few,
        next_of t t.phase t.received t.sender.records refl refl refl l,
      )
