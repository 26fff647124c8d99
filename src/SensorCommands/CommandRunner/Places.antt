-- ===== src/SensorCommands/CommandRunner/Places.antt =====
-- command_runner.c: which calls the threads of clients and of consumers are in.
use ie0417_dev_b.Base.{◌+◌, ℕ, zero, suc, ◌-◌, ◌≡◌, refl, ap, ◌∙◌, Bool, some, ℤ, arith, replicate}
use ie0417_dev_b.Process.{Ptr}
use ie0417_dev_b.Utlist.{Utlist}
use ie0417_dev_b.SensorCommands.CommandQueue.{
  CmdQNode, CmdQueue, Answers, AreSound, Call, send_malloc, send_wait, send_lock, send_test,
  send_full, send_append, send_unlock, send_post, sent, recv_free, received, recv_failed, call_step,
}
use ie0417_dev_b.SensorCommands.CommandRunner.{
  Thread, idle, sending, consuming, executing, stopped, System, thread_step, Step, act, call, start,
  Reach, here, next,
}
use ie0417_dev_b.SensorCommands.CommandRunner.Weights.{total, total-split}
use ie0417_dev_b.SensorCommands.CommandRunner.Invariant.{enter-inv}
use ie0417_dev_b.SensorCommands.CommandRunner.Safety.{IsRunner}

-- A thread in a place of the other kind of call.
abbrev pub receives : {C : Type 0} → Call C → ℕ
receives (send_malloc c) = 0
receives (send_wait n) = 0
receives (send_lock n) = 0
receives (send_test n) = 0
receives send_full = 0
receives (send_append n) = 0
receives send_unlock = 0
receives send_post = 0
receives (sent r) = 0
receives _ = 1

-- An error of the mutex, which an initialised mutex does not report, ends a consumer here.
abbrev pub broken : {C : Type 0} → Call C → ℕ
broken (recv_failed r) = 1
broken k = 0

abbrev pub misplaced : {C : Type 0} → Thread C → ℕ
misplaced (sending k) = receives k + broken k
misplaced (consuming k) = 1 - receives k + broken k
misplaced _ = 0

module _ {C : Type 0} (is_stop : C → Bool) (L : Utlist (Ptr (CmdQNode C))) where
  open L use {Dl}

  call-places :
      (ans : Answers)
      → AreSound ans
      → (q q' : CmdQueue Dl) (k k' : Call C) → call_step L ans q k ≡ some (q', k')
      → (receives k' ≡ receives k) × (broken k' ≡ 0)
  unfolding call_step
  call-places ans ok q q' (recv_free n) k' e = ground arith
  call-places ans ok q q' k k' e = ground arith

  step-placed :
      (ans : Answers)
      → AreSound ans
      → (q q' : CmdQueue Dl) (p p' : Thread C) → thread_step is_stop L ans q p ≡ some (q', p')
      → misplaced p ≡ 0
      → misplaced p' ≡ 0
  unfolding thread_step
  step-placed ans ok q q' idle p' e h = cc
  step-placed ans ok q q' (sending (sent r)) p' e h = ground arith
  step-placed ans ok q q' (sending k) p' e h =
      let (k', step, is) = enter-inv is_stop L sending (call_step L ans q k) e in
      ground (arith, call-places ans ok q q' k k' step)
  step-placed ans ok q q' (consuming (recv_failed r)) p' e h = ground arith
  step-placed ans ok q q' (consuming (received c)) p' e h = ground arith
  step-placed ans ok q q' (consuming k) p' e h =
      let (k', step, is) = enter-inv is_stop L consuming (call_step L ans q k) e in
      ground (arith, call-places ans ok q q' k k' step)
  step-placed ans ok q q' (executing c) p' e h = ground arith
  step-placed ans ok q q' stopped p' e h = cc

  abbrev pub Placed : System C Dl → Type 0
  Placed s = total misplaced s.threads ≡ 0

  pub Step-Placed : {s t : System C Dl} → Step is_stop L s t → Placed s → Placed t
  unfolding total
  Step-Placed (act xs ys p p' q ans e ok step) h =
      let old = ap (total misplaced) e ∙ total-split misplaced xs p ys in
      omega (
        arith,
        h,
        old,
        total-split misplaced xs p' ys,
        step-placed ans ok _ q p p' step (omega (arith, h, old)),
      )
  Step-Placed (call xs ys c e) h = omega (
    arith,
    h,
    ap (total misplaced) e,
    total-split misplaced xs idle ys,
    total-split misplaced xs (sending (send_malloc c)) ys,
  )
  Step-Placed start h = omega (arith, h)

  Reach-Placed : {s t : System C Dl} → Placed s → Reach is_stop L s t → Placed t
  Reach-Placed h here = h
  Reach-Placed h (next r step) = Step-Placed step (Reach-Placed h r)

  pub idle-Placed : (n : ℕ) → total (misplaced {C = C}) (replicate n idle) ≡ 0
  unfolding total
  idle-Placed zero = refl
  idle-Placed (suc n) = omega (arith, idle-Placed n)

  pub IsRunner-Placed : (max : ℤ) {s : System C Dl} → IsRunner is_stop L max s → Placed s
  IsRunner-Placed max r = Reach-Placed (idle-Placed r.clients) r.reach
