-- ===== src/SensorCommands/CommandRunner/Invariant.antt =====
-- command_runner.c: the invariant of a runner and its threads, and the steps of a thread.
use ie0417_dev_b.Base.{
  ℕ, ◌+◌, ◌≡◌, refl, sym, ◌∙◌, Bool, Option, none, some, List, [], ◌∷◌, ◌++◌, arith, append-nil,
  if◌then◌else◌, subst,
}
use mathlib.Core.Path.{transport}
use ie0417_dev_b.Process.{Ptr}
use ie0417_dev_b.Utlist.{Utlist}
use ie0417_dev_b.SensorCommands.CommandQueue.{
  CmdQNode, CmdQueue, Answers, AreSound, Call, sent, received, recv_failed, send_malloc, recv_wait,
  call_step,
}
use ie0417_dev_b.SensorCommands.CommandRunner.{
  Thread, idle, sending, consuming, executing, stopped, System, appends, takes, thread_step, enter,
  Step, act, call, start,
}
use ie0417_dev_b.SensorCommands.CommandRunner.Weights.{
  total, total-split, slot, claim, unposted, holds, failed, of_thread,
}
use ie0417_dev_b.SensorCommands.CommandRunner.Balance.{
  Balance, queued, call_step-Balance, call_step-fifo, call_step-max_len,
}

module _ {C : Type 0} (is_stop : C → Bool) (L : Utlist (Ptr (CmdQNode C))) where
  open L use {Dl, items, head}

  -- What a step of a thread keeps, for any numbers of other threads at each place.
  record Kept (q q' : CmdQueue Dl) (p p' : Thread C) : Type 0 where
    balance :
        (s c u m f : ℕ)
        → Balance L q
            (s + of_thread slot p)
            (c + of_thread claim p)
            (u + of_thread unposted p)
            (m + of_thread holds p)
            (f + of_thread failed p)
        → Balance L q'
            (s + of_thread slot p')
            (c + of_thread claim p')
            (u + of_thread unposted p')
            (m + of_thread holds p')
            (f + of_thread failed p')
    fifo :
        (a t : List C)
        → a ≡ t ++ queued L q
        → a ++ appends p ≡ (t ++ takes p (head q.head)) ++ queued L q'
    bound : q'.max_len ≡ q.max_len

  -- At a place that no weight counts.
  record IsQuiet (p : Thread C) : Type 0 where
    no_slot : of_thread slot p ≡ 0
    no_claim : of_thread claim p ≡ 0
    no_post : of_thread unposted p ≡ 0
    no_lock : of_thread holds p ≡ 0
    no_fault : of_thread failed p ≡ 0

  pub enter-inv :
      (f : Call C → Thread C) (r : Option (CmdQueue Dl × Call C)) {q' : CmdQueue Dl} {p' : Thread C}
      → enter is_stop L f r ≡ some (q', p')
      → (k' : Call C) × (r ≡ some (q', k')) × (p' ≡ f k')
  enter-inv f none e = cc
  enter-inv f (some (q, k)) e = (k, ground arith, ground arith)

  module _ (ans : Answers) (ok : AreSound ans) (q q' : CmdQueue Dl) where
    sending-Kept :
        (k k' : Call C) → call_step L ans q k ≡ some (q', k') → Kept q q' (sending k) (sending k')
    unfolding appends takes
    sending-Kept k k' e = record {
      balance = λ s c u m f. call_step-Balance L ans ok q q' k k' s c u m f e;
      fifo = λ a t. call_step-fifo L ans q q' k k' a t e;
      bound = call_step-max_len L ans q q' k k' e;
    }

    consuming-Kept :
        (k k' : Call C)
        → call_step L ans q k ≡ some (q', k')
        → Kept q q' (consuming k) (consuming k')
    unfolding appends takes
    consuming-Kept k k' e = record {
      balance = λ s c u m f. call_step-Balance L ans ok q q' k k' s c u m f e;
      fifo = λ a t. call_step-fifo L ans q q' k k' a t e;
      bound = call_step-max_len L ans q q' k k' e;
    }

    -- A step that leaves the queue alone, from `p` to `r`, both at places of weight 0.
    quiet-Kept :
        (p r p' : Thread C)
        → ◌≡◌ {A = Option (CmdQueue Dl × Thread C)} (some (q, r)) (some (q', p'))
        → (appends p ≡ []) × (takes p (head q.head) ≡ [])
        → IsQuiet p
        → IsQuiet r
        → Kept q q' p p'
    quiet-Kept p r p' e h v v' = record {
      balance = λ s c u m f b. ground arith;
      fifo = λ a t i. ground (arith, append-nil a, append-nil t);
      bound = ground arith;
    }

    thread_step-Kept :
        (p p' : Thread C) → thread_step is_stop L ans q p ≡ some (q', p') → Kept q q' p p'
    unfolding thread_step appends takes
    thread_step-Kept idle p' e = cc
    thread_step-Kept (sending (sent r)) p' e =
        quiet-Kept _ idle p' e (refl, refl) (ground arith) (ground arith)
    thread_step-Kept (sending k) p' e =
        let (k', step, is) = enter-inv sending (call_step L ans q k) e in
        rw is (sending-Kept k k' step)
    thread_step-Kept (consuming (recv_failed r)) p' e =
        quiet-Kept _ stopped p' e (refl, refl) (ground arith) (ground arith)
    thread_step-Kept (consuming (received c)) p' e =
        quiet-Kept _ (if is_stop c then stopped else executing c) p' e (refl, refl) (ground arith)
          (ground arith)
    thread_step-Kept (consuming k) p' e =
        let (k', step, is) = enter-inv consuming (call_step L ans q k) e in
        rw is (consuming-Kept k k' step)
    thread_step-Kept (executing c) p' e =
        quiet-Kept _ (consuming recv_wait) p' e (refl, refl) (ground arith) (ground arith)
    thread_step-Kept stopped p' e = cc

  -- The commands that a step appends go behind those in the queue, and those that it takes out
  -- were the first ones.
  pub thread_step-queued :
      (ans : Answers)
      → AreSound ans
      → (q q' : CmdQueue Dl) (p p' : Thread C) → thread_step is_stop L ans q p ≡ some (q', p')
      → queued L q ++ appends p ≡ takes p (head q.head) ++ queued L q'
  thread_step-queued ans ok q q' p p' e =
      (thread_step-Kept ans ok q q' p p' e).fifo (queued L q) [] refl

  abbrev pub Totals : CmdQueue Dl → List (Thread C) → Type 0
  Totals q l =
      Balance L q (total (of_thread slot) l) (total (of_thread claim) l)
        (total (of_thread unposted) l) (total (of_thread holds) l) (total (of_thread failed) l)

  -- `max` is the limit that the queue was made with.
  pub record Inv (max : ℕ) (s : System C Dl) : Type 0 where
    pub balance : Totals s.queue s.threads
    pub fifo : s.appended ≡ s.taken ++ queued L s.queue
    pub bound : s.queue.max_len ≡ max

  call-Kept : {q : CmdQueue Dl} {c : C} → Kept q q idle (sending (send_malloc c))
  unfolding appends takes
  call-Kept = record {
    balance = λ s c u m f b. b;
    fifo = λ a t h. ground (arith, append-nil a, append-nil t);
    bound = refl;
  }

  others : (Call C → ℕ) → (xs ys : List (Thread C)) → ℕ
  others w xs ys = total (of_thread w) xs + total (of_thread w) ys

  total-others :
      (w : Call C → ℕ) (xs ys : List (Thread C)) (p : Thread C)
      → total (of_thread w) (xs ++ p ∷ ys) ≡ others w xs ys + of_thread w p
  unfolding others
  total-others w xs ys p = omega (arith, total-split (of_thread w) xs p ys)

  Balance-split :
      (q : CmdQueue Dl) (xs ys : List (Thread C)) (p : Thread C)
      → Balance L q
          (others slot xs ys + of_thread slot p)
          (others claim xs ys + of_thread claim p)
          (others unposted xs ys + of_thread unposted p)
          (others holds xs ys + of_thread holds p)
          (others failed xs ys + of_thread failed p)
        ≡ Balance L q
            (total (of_thread slot) (xs ++ p ∷ ys))
            (total (of_thread claim) (xs ++ p ∷ ys))
            (total (of_thread unposted) (xs ++ p ∷ ys))
            (total (of_thread holds) (xs ++ p ∷ ys))
            (total (of_thread failed) (xs ++ p ∷ ys))
  Balance-split q xs ys p = rw (
    total-others slot xs ys p,
    total-others claim xs ys p,
    total-others unposted xs ys p,
    total-others holds xs ys p,
    total-others failed xs ys p,
  )

  -- If `p` goes to `p'`, and that keeps the balance whatever the others are, the totals balance.
  Totals-step :
      (q q' : CmdQueue Dl) (l xs ys : List (Thread C)) (p p' : Thread C)
      → l ≡ xs ++ p ∷ ys
      → Kept q q' p p'
      → Totals q l
      → Totals q' (xs ++ p' ∷ ys)
  Totals-step q q' l xs ys p p' e kept b = transport (Balance-split q' xs ys p') (
      kept.balance (others slot xs ys) (others claim xs ys) (others unposted xs ys)
        (others holds xs ys) (others failed xs ys)
        (transport (sym (Balance-split q xs ys p)) (subst (Totals q) e b)))

  pub Step-Inv : (max : ℕ) {s t : System C Dl} → Step is_stop L s t → Inv max s → Inv max t
  unfolding total
  Step-Inv max {s} (act xs ys p p' q ans e ok step) inv =
      let kept = thread_step-Kept ans ok s.queue q p p' step in
      record {
        balance = Totals-step s.queue q s.threads xs ys p p' e kept inv.balance;
        fifo = kept.fifo s.appended s.taken inv.fifo;
        bound = kept.bound ∙ inv.bound;
      }
  Step-Inv max {s} (call xs ys c e) inv = record {
    balance =
        Totals-step s.queue s.queue s.threads xs ys idle (sending (send_malloc c)) e call-Kept
          inv.balance;
    fifo = inv.fifo;
    bound = inv.bound;
  }
  Step-Inv max {s} start inv = record {
    balance = let b = inv.balance in ground arith;
    fifo = inv.fifo;
    bound = inv.bound;
  }
