-- ===== src/SensorCommands/CommandRunner/Execution.antt =====
-- command_runner.c: the histories of a runner with at most one consumer thread, and the stop signal.
use ie0417_dev_b.Base.{
  ℕ, zero, suc, ◌≤◌, ◌≡◌, refl, sym, ap, ◌∙◌, Bool, true, false, some, List, [], ◌∷◌, ◌++◌, ℤ,
  arith, replicate, ◌⊎◌, inl, inr, if◌then◌else◌, append_assoc, All,
}
use ie0417_dev_b.Process.{Ptr}
use ie0417_dev_b.Utlist.{Utlist}
use ie0417_dev_b.SensorCommands.CommandQueue.{
  CmdQNode, CmdQueue, Answers, sent, received, recv_failed, send_malloc, call_step,
}
use ie0417_dev_b.SensorCommands.CommandRunner.{
  Thread, idle, sending, consuming, executing, stopped, System, thread_step, executes, Step, act,
  call, start, Reach, here, next,
}
use ie0417_dev_b.SensorCommands.CommandRunner.Weights.{total, total-split}
use ie0417_dev_b.SensorCommands.CommandRunner.Balance.{queued}
use ie0417_dev_b.SensorCommands.CommandRunner.Invariant.{enter-inv}
use ie0417_dev_b.SensorCommands.CommandRunner.Safety.{IsRunner, queue-fifo}
use ie0417_dev_b.SensorCommands.CommandRunner.Places.{Placed, Step-Placed, idle-Placed}
use ie0417_dev_b.SensorCommands.CommandRunner.Hands.{hands, is_consumer, is_active, hands-none}
use ie0417_dev_b.SensorCommands.CommandRunner.Order.{IsOrdered, Step-IsOrdered}
use ie0417_dev_b.SensorCommands.CommandRunner.Turns.{thread-role}

module _ {C : Type 0} (is_stop : C → Bool) (L : Utlist (Ptr (CmdQNode C))) where
  open L use {Dl}

  -- Consumers are only added.
  pub Step-consumers :
      {s t : System C Dl}
      → Step is_stop L s t
      → total is_consumer s.threads ≤ total is_consumer t.threads
  unfolding total
  Step-consumers {s} (act xs ys p p' q ans e ok step) = omega (
    arith,
    ap (total is_consumer) e ∙ total-split is_consumer xs p ys,
    total-split is_consumer xs p' ys,
    (thread-role is_stop L ans s.queue q p p' step).0,
  )
  Step-consumers (call xs ys c e) = omega (
    arith,
    ap (total is_consumer) e ∙ total-split is_consumer xs idle ys,
    total-split is_consumer xs (sending (send_malloc c)) ys,
  )
  Step-consumers start = omega arith

  Reach-IsOrdered :
      {s t : System C Dl}
      → Placed is_stop L s
      → IsOrdered is_stop L s
      → Reach is_stop L s t
      → total is_consumer t.threads ≤ 1
      → Placed is_stop L t × IsOrdered is_stop L t
  Reach-IsOrdered m h here one = (m, h)
  Reach-IsOrdered m h (next r step) one =
      let (m', h') = Reach-IsOrdered m h r (omega (arith, one, Step-consumers step)) in
      (Step-Placed is_stop L step m', Step-IsOrdered is_stop L step m' one h')

  -- The stop signal is not executed.
  abbrev pub about_to_stop : Thread C → ℕ
  about_to_stop (executing c) = if is_stop c then 1 else 0
  about_to_stop _ = 0

  abbrev pub AllRun : List C → Type 0
  AllRun l = All (λ c. is_stop c ≡ false) l

  AllRun-append : (l r : List C) → AllRun l → AllRun r → AllRun (l ++ r)
  AllRun-append [] r hl hr = hr
  AllRun-append (c ∷ l) r hl hr = (hl.0, AllRun-append l r hl.1 hr)

  thread-runs :
      (ans : Answers) (q q' : CmdQueue Dl) (p p' : Thread C)
      → thread_step is_stop L ans q p ≡ some (q', p')
      → about_to_stop p ≡ 0
      → (about_to_stop p' ≡ 0) × AllRun (executes p)
  unfolding thread_step executes
  thread-runs ans q q' idle p' s h = cc
  thread-runs ans q q' (sending (sent r)) p' s h = ground arith
  thread-runs ans q q' (sending k) p' s h =
      let (k', step, is) = enter-inv is_stop L sending (call_step L ans q k) s in ground arith
  thread-runs ans q q' (consuming (recv_failed r)) p' s h = ground arith
  thread-runs ans q q' (consuming (received c)) p' s h = ground arith
  thread-runs ans q q' (consuming k) p' s h =
      let (k', step, is) = enter-inv is_stop L consuming (call_step L ans q k) s in ground arith
  thread-runs ans q q' (executing c) p' s h = ground arith
  thread-runs ans q q' stopped p' s h = cc

  Runs : System C Dl → Type 0
  Runs s = (total about_to_stop s.threads ≡ 0) × AllRun s.executed

  Step-Runs : {s t : System C Dl} → Step is_stop L s t → Runs s → Runs t
  unfolding Runs total
  Step-Runs {s} (act xs ys p p' q ans e ok step) h =
      let old = ap (total about_to_stop) e ∙ total-split about_to_stop xs p ys in
      let (quiet, run) = thread-runs ans s.queue q p p' step (omega (arith, h.0, old)) in
      (
        omega (arith, h.0, old, total-split about_to_stop xs p' ys, quiet),
        AllRun-append s.executed (executes p) h.1 run,
      )
  Step-Runs (call xs ys c e) h = (
    omega (
      arith,
      h.0,
      ap (total about_to_stop) e ∙ total-split about_to_stop xs idle ys,
      total-split about_to_stop xs (sending (send_malloc c)) ys,
    ),
    h.1,
  )
  Step-Runs start h = (omega (arith, h.0), h.1)

  Reach-Runs : {s t : System C Dl} → Runs s → Reach is_stop L s t → Runs t
  Reach-Runs h here = h
  Reach-Runs h (next r step) = Step-Runs step (Reach-Runs h r)

  pub idle-none :
      (n : ℕ)
      → (total about_to_stop (replicate n idle) ≡ 0)
        × (total (is_consumer {C = C}) (replicate n idle) ≡ 0)
  unfolding total
  idle-none zero = (refl, refl)
  idle-none (suc n) = let (a, b) = idle-none n in (omega (arith, a), omega (arith, b))

  pub IsRunner-quiet :
      (max : ℤ) {s : System C Dl} → IsRunner is_stop L max s → total about_to_stop s.threads ≡ 0
  unfolding Runs
  IsRunner-quiet max r = (Reach-Runs ((idle-none r.clients).0, tt) r.reach).0

  -- In every reachable state no executed command is one whose `execute` is NULL, which the consumer
  -- treats as the stop signal.
  pub executed-AllRun : (max : ℤ) {s : System C Dl} → IsRunner is_stop L max s → AllRun s.executed
  unfolding Runs
  executed-AllRun max r = (Reach-Runs ((idle-none r.clients).0, tt) r.reach).1

  pub runner-IsOrdered :
      (max : ℤ) {s : System C Dl}
      → IsRunner is_stop L max s
      → total is_consumer s.threads ≤ 1
      → IsOrdered is_stop L s
  runner-IsOrdered max r one =
      let no_consumer = (idle-none r.clients).1 in
      let (none_held, none_active) = hands-none (replicate r.clients idle) no_consumer in
      (Reach-IsOrdered (idle-Placed is_stop L r.clients)
        (inl (sym none_held, none_active ∙ sym no_consumer)) r.reach one).1

  -- With at most one consumer thread, in every reachable state, the commands that were appended are
  -- the executed ones, in that order, then the one that the consumer holds, if any, then those in
  -- the queue; or the consumer has stopped, and one stop signal stands between the executed and the
  -- queued commands.
  pub executed-in_order :
      (max : ℤ) {s : System C Dl}
      → IsRunner is_stop L max s
      → total is_consumer s.threads ≤ 1
      → (s.appended ≡ s.executed ++ (hands s.threads ++ queued L s.queue))
        ⊎ ((c : C) × (is_stop c ≡ true)
            × (s.appended ≡ s.executed ++ c ∷ queued L s.queue)
            × (total is_active s.threads ≡ 0))
  executed-in_order max {s} r one =
      let fifo = queue-fifo is_stop L max r in
      elim (runner-IsOrdered max r one) [
        | inl (h, all_active) ↦ inl (
            fifo
            ∙ ap (λ l. l ++ queued L s.queue) h
            ∙ append_assoc s.executed (hands s.threads) (queued L s.queue))
        | inr (c, stop, h, quiet, some_consumer) ↦ inr (
          c,
          stop,
          fifo
              ∙ ap (λ l. l ++ queued L s.queue) h
              ∙ append_assoc s.executed (c ∷ []) (queued L s.queue),
          quiet,
        )
      ]
