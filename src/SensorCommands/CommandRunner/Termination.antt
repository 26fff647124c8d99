-- ===== src/SensorCommands/CommandRunner/Termination.antt =====
-- command_runner.c: how many steps the threads of a runner can make without a new call.
use ie0417_dev_b.Base.{
  ℕ, zero, suc, ◌+◌, ◌*◌, ◌≤◌, ◌<◌, ◌≡◌, refl, ap, ◌∙◌, Bool, true, false, some, List, [], ◌∷◌,
  ◌++◌, arith, ◌⊎◌, inl, inr, All, Bool-cases, is_some,
}
use ie0417_dev_b.Process.{Ptr}
use ie0417_dev_b.Utlist.{Utlist}
use ie0417_dev_b.SensorCommands.CommandQueue.{
  CmdQNode, CmdQueue, Answers, AreSound, Call, send_malloc, send_wait, send_lock, send_test,
  send_full, send_append, send_unlock, send_post, sent, recv_wait, recv_lock, recv_pop, recv_free,
  recv_unlock, recv_post, received, recv_failed, aborted, call_step,
}
use ie0417_dev_b.SensorCommands.CommandRunner.{
  Thread, idle, sending, consuming, executing, stopped, System, thread_step, appends, takes,
  executes, act, Reach, next,
}
use ie0417_dev_b.SensorCommands.CommandRunner.Weights.{total, total-split}
use ie0417_dev_b.SensorCommands.CommandRunner.Invariant.{enter-inv}
use ie0417_dev_b.SensorCommands.CommandRunner.Progress.{Steps, good, Steps-at}

module _ {C : Type 0} where
  -- The steps that a thread still makes in its call, with those that a consumer makes for the
  -- command that the call posts.
  abbrev pub call_effort : Call C → ℕ
  call_effort (send_malloc c) = 16
  call_effort (send_wait n) = 15
  call_effort (send_lock n) = 14
  call_effort (send_test n) = 13
  call_effort send_full = 2
  call_effort (send_append n) = 12
  call_effort send_unlock = 11
  call_effort send_post = 10
  call_effort (sent r) = 1
  call_effort recv_wait = 0
  call_effort recv_lock = 7
  call_effort recv_pop = 6
  call_effort (recv_free n) = 5
  call_effort (recv_unlock c) = 4
  call_effort (recv_post c) = 3
  call_effort (received c) = 2
  call_effort (recv_failed r) = 1
  call_effort aborted = 0

  abbrev pub effort : Thread C → ℕ
  effort (sending k) = call_effort k
  effort (consuming k) = call_effort k
  effort (executing c) = 1
  effort _ = 0

module _ {C : Type 0} (is_stop : C → Bool) (L : Utlist (Ptr (CmdQNode C))) where
  open L use {Dl, head}

  -- A bound on the steps that are left: a command that was posted costs its consumer eight.
  abbrev pub steps_left : System C Dl → ℕ
  steps_left s = total effort s.threads + 8 * s.queue.occupied

  call-effort-lt :
      (ans : Answers)
      → AreSound ans
      → (q q' : CmdQueue Dl) (k k' : Call C) → call_step L ans q k ≡ some (q', k')
      → call_effort k' + 8 * q'.occupied < call_effort k + 8 * q.occupied
  unfolding call_step
  call-effort-lt ans ok q q' (recv_free n) k' e = ground arith
  call-effort-lt ans ok q q' k k' e = ground arith

  effort-lt :
      (ans : Answers)
      → AreSound ans
      → (q q' : CmdQueue Dl) (p p' : Thread C) → thread_step is_stop L ans q p ≡ some (q', p')
      → effort p' + 8 * q'.occupied < effort p + 8 * q.occupied
  unfolding thread_step
  effort-lt ans ok q q' idle p' e = cc
  effort-lt ans ok q q' (sending (sent r)) p' e = ground arith
  effort-lt ans ok q q' (sending k) p' e =
      let (k', step, is) = enter-inv is_stop L sending (call_step L ans q k) e in
      ground (arith, call-effort-lt ans ok q q' k k' step)
  effort-lt ans ok q q' (consuming (recv_failed r)) p' e = ground arith
  effort-lt ans ok q q' (consuming (received c)) p' e = ground arith
  effort-lt ans ok q q' (consuming k) p' e =
      let (k', step, is) = enter-inv is_stop L consuming (call_step L ans q k) e in
      ground (arith, call-effort-lt ans ok q q' k k' step)
  effort-lt ans ok q q' (executing c) p' e = ground arith
  effort-lt ans ok q q' stopped p' e = cc

  -- The state after a step.
  abbrev pub moved_to : (s : System C Dl) → Steps is_stop L s → System C Dl
  moved_to s k = record {
    queue = k.queue;
    threads = k.before ++ k.moved ∷ k.after;
    appended = s.appended ++ appends k.mover;
    taken = s.taken ++ takes k.mover (head s.queue.head);
    executed = s.executed ++ executes k.mover;
  }

  -- Steps of threads that lead from a state to `t`, with no new call and no new consumer.
  pub data Leads (t : System C Dl) : System C Dl → Type 0 where
    done : Leads t t
    move : {s : System C Dl} (k : Steps is_stop L s) → Leads t (moved_to s k) → Leads t s

  pub count : {t s : System C Dl} → Leads t s → ℕ
  count done = 0
  count (move k m) = suc (count m)

  moved_to-steps_left :
      (s : System C Dl) (k : Steps is_stop L s) → steps_left (moved_to s k) < steps_left s
  moved_to-steps_left s k = omega (
    arith,
    effort-lt k.ans k.sound s.queue k.queue k.mover k.moved k.step,
    ap (total effort) k.at ∙ total-split effort k.before k.mover k.after,
    total-split effort k.before k.moved k.after,
  )

  -- From any state, the steps that the threads make while no call and no thread begins are bounded:
  -- a sequence of them to another state has at most as many steps as the measure of the commands in
  -- the queue and in the hands of the threads falls between the two.
  pub count-le : {t s : System C Dl} (m : Leads t s) → count m + steps_left t ≤ steps_left s
  unfolding count
  count-le done = omega arith
  count-le {s = s} (move k m) = omega (arith, count-le m, moved_to-steps_left s k)

  pub Leads-Reach : {s0 t s : System C Dl} → Reach is_stop L s0 s → Leads t s → Reach is_stop L s0 t
  Leads-Reach r done = r
  Leads-Reach r (move k m) =
      Leads-Reach (next r (act k.before k.after k.mover k.moved k.queue k.ans k.at k.sound k.step))
        m

  -- A thread that can step at all can step where the primitives succeed.
  good-step :
      (ans : Answers)
      → AreSound ans
      → (q q' : CmdQueue Dl) (p p' : Thread C) → thread_step is_stop L ans q p ≡ some (q', p')
      → is_some (thread_step is_stop L (good is_stop L) q p) ≡ true
  unfolding thread_step call_step
  good-step ans ok q q' idle p' e = cc
  good-step ans ok q q' (sending (sent r)) p' e = refl
  good-step ans ok q q' (sending k) p' e = ground arith
  good-step ans ok q q' (consuming (recv_failed r)) p' e = refl
  good-step ans ok q q' (consuming k) p' e = ground arith
  good-step ans ok q q' (executing c) p' e = refl
  good-step ans ok q q' stopped p' e = cc

  abbrev Halts : CmdQueue Dl → Thread C → Type 0
  Halts q p = is_some (thread_step is_stop L (good is_stop L) q p) ≡ false

  find_mover :
      (q : CmdQueue Dl) (l : List (Thread C))
      → ((xs : List (Thread C)) × (p : Thread C) × (ys : List (Thread C)) × (l ≡ xs ++ p ∷ ys)
          × (is_some (thread_step is_stop L (good is_stop L) q p) ≡ true))
        ⊎ All (Halts q) l
  find_mover q [] = inr tt
  find_mover q (p ∷ l) = elim (Bool-cases (is_some (thread_step is_stop L (good is_stop L) q p))) [
    | inl can ↦ inl ([], p, l, refl, can)
    | inr halts ↦ elim (find_mover q l) [
      | inl (xs, m, ys, e, can) ↦ inl (p ∷ xs, m, ys, ap (λ r. p ∷ r) e, can)
      | inr all ↦ inr (halts, all)
    ]
  ]

  All-at :
      (q : CmdQueue Dl) (l xs ys : List (Thread C)) (p : Thread C)
      → All (Halts q) l
      → l ≡ xs ++ p ∷ ys
      → Halts q p
  All-at q [] [] ys p a e = cc
  All-at q [] (x ∷ xs) ys p a e = cc
  All-at q (r ∷ l) [] ys p a e = ground (arith, a.0)
  All-at q (r ∷ l) (x ∷ xs) ys p a e = All-at q l xs ys p a.1 (ground arith)

  Steps-or_none : (s : System C Dl) → Steps is_stop L s ⊎ (¬ Steps is_stop L s)
  Steps-or_none s = elim (find_mover s.queue s.threads) [
    | inl (xs, p, ys, e, can) ↦ inl (Steps-at is_stop L s xs ys p e can)
    | inr all ↦ inr (λ k. cc (
      All-at s.queue s.threads k.before k.after k.mover all k.at,
      good-step k.ans k.sound s.queue k.queue k.mover k.moved k.step,
    ))
  ]

  rests_within :
      (n : ℕ) (s : System C Dl)
      → steps_left s ≤ n
      → (t : System C Dl) × Leads t s × ¬ Steps is_stop L t
  rests_within zero s h = elim (Steps-or_none s) [
    | inr stuck ↦ (s, done, stuck)
    | inl k ↦ absurd (omega (arith, moved_to-steps_left s k))
  ]
  rests_within (suc n) s h = elim (Steps-or_none s) [
    | inr stuck ↦ (s, done, stuck)
    | inl k ↦
        let (t, m, stuck) =
          rests_within n (moved_to s k) (omega (arith, moved_to-steps_left s k)) in
        (t, move k m, stuck)
  ]

  -- From any state the threads come to rest without a new call or a new thread: there is a sequence
  -- of their steps to a state in which no thread can step.
  pub comes_to_rest : (s : System C Dl) → (t : System C Dl) × Leads t s × ¬ Steps is_stop L t
  comes_to_rest s = rests_within (steps_left s) s (omega arith)
