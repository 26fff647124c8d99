-- ===== src/SensorCommands/CommandRunner/View.antt =====
-- command_runner.c: the state of the abstract executor that a state of the threads stands for, and
-- what one step of one thread does to it.
use ie0417_dev_b.Base.{
  ℕ, ◌<◌, ◌≡◌, refl, sym, ap, Bool, true, false, ◌||◌, some, List, [], ◌∷◌, ◌++◌, arith, ◌⊎◌, inl,
  inr, append-nil, subst, map, Bool-cases, List-cases,
}
use ie0417_dev_b.Process.{Ptr}
use ie0417_dev_b.Utlist.{Utlist}
use ie0417_dev_b.SensorCommands.CommandQueue.{
  CmdQNode, CmdQueue, Answers, AreSound, Call, sent, recv_pop, received, recv_failed, send_append,
  call_step,
}
use ie0417_dev_b.SensorCommands.CommandRunner.{
  Thread, idle, sending, consuming, executing, stopped, System, thread_step, appends, executes,
  call_appends,
}
use ie0417_dev_b.SensorCommands.CommandRunner.Weights.{total, of_thread, slot}
use ie0417_dev_b.SensorCommands.CommandRunner.Balance.{queued}
use ie0417_dev_b.SensorCommands.CommandRunner.Invariant.{enter-inv}
use ie0417_dev_b.SensorCommands.CommandRunner.Places.{misplaced}
use ie0417_dev_b.SensorCommands.CommandRunner.Hands.{hand, hands, is_consumer}
use ie0417_dev_b.SensorCommands.CommandRunner.Execution.{about_to_stop}
use ie0417_dev_b.SensorCommands.CommandRunner.Executor.{Executor, Act, take, execute, halt}

module _ {C : Type 0} (is_stop : C → Bool) (L : Utlist (Ptr (CmdQNode C))) where
  open L use {Dl, head, items, head-items, items-delete}

  abbrev pub is_stopped : Thread C → Bool
  is_stopped stopped = true
  is_stopped _ = false

  abbrev pub any_stopped : List (Thread C) → Bool
  any_stopped [] = false
  any_stopped (p ∷ l) = is_stopped p || any_stopped l

  -- The state of the executor that a state of the threads stands for.
  abbrev pub view : System C Dl → Executor C
  view s = record {
    waiting = queued L s.queue;
    held = hands s.threads;
    executed = s.executed;
    ended = any_stopped s.threads;
  }

  -- The same, of one thread.
  abbrev pub view_of : CmdQueue Dl → Thread C → List C → Executor C
  view_of q p e = record { waiting = queued L q; held = hand p; executed = e; ended = is_stopped p }

  -- The executor stays as it is, or does one of its steps.
  abbrev pub Matches : ℕ → Executor C → Executor C → Type 0
  Matches n e f = (f ≡ e) ⊎ Act is_stop n e f

  stays :
      (n : ℕ) (q q' : CmdQueue Dl) (p p' : Thread C) (e e' : List C)
      → queued L q' ≡ queued L q
      → hand p' ≡ hand p
      → e' ≡ e
      → is_stopped p' ≡ is_stopped p
      → Matches n (view_of q p e) (view_of q' p' e')
  stays n q q' p p' e e' a b c d = inl (ground arith)

  pub acts : (n : ℕ) (e f g : Executor C) → Act is_stop n e f → g ≡ f → Matches n e g
  acts n e f g a i = inr (subst (Act is_stop n e) (sym i) a)

  call-Matches :
      (n : ℕ) (ans : Answers)
      → AreSound ans
      → (q q' : CmdQueue Dl) (k k' : Call C) (e : List C) → call_step L ans q k ≡ some (q', k')
      → misplaced (consuming k) ≡ 0
      → Matches n (view_of q (consuming k) e) (view_of q' (consuming k') (e ++ []))
  unfolding call_step
  call-Matches n ans ok q q' recv_pop k' e step placed = elim (List-cases (items q.head)) [
    | inl nil ↦ inl (ground (arith, head-items q.head, append-nil e))
    | inr (m, r, cons) ↦
        acts n (view_of q (consuming recv_pop) e) _ _
          (take m.val.cmd (map (λ m. m.val.cmd) r) (ap (map _) cons) refl refl)
          (ground (arith, head-items q.head, items-delete q.head m r cons, append-nil e))
  ]
  call-Matches n ans ok q q' k k' e step placed =
      stays n q q' (consuming k) (consuming k') e (e ++ []) (ground arith) (ground arith)
        (append-nil e) refl

  go_of : (c : C) → about_to_stop is_stop L (executing c) ≡ 0 → is_stop c ≡ false
  go_of c h = ground (arith, Bool-cases (is_stop c))

  pub consumer-Matches :
      (n : ℕ) (ans : Answers)
      → AreSound ans
      → (q q' : CmdQueue Dl) (p p' : Thread C) (e : List C)
      → thread_step is_stop L ans q p ≡ some (q', p')
      → 0 < is_consumer p
      → misplaced p ≡ 0
      → about_to_stop is_stop L p ≡ 0
      → Matches n (view_of q p e) (view_of q' p' (e ++ executes p))
  unfolding thread_step executes
  consumer-Matches n ans ok q q' idle p' e step consumer placed runs = absurd (omega arith)
  consumer-Matches n ans ok q q' (sending k) p' e step consumer placed runs = absurd (omega arith)
  consumer-Matches n ans ok q q' (consuming (recv_failed r)) p' e step consumer placed runs =
      absurd (omega arith)
  consumer-Matches n ans ok q q' (consuming (received c)) p' e step consumer placed runs =
      elim (Bool-cases (is_stop c)) [
        | inl stop ↦
            acts n (view_of q (consuming (received c)) e) _ _ (halt c refl stop)
              (ground (arith, append-nil e))
        | inr go ↦ inl (ground (arith, append-nil e))
      ]
  consumer-Matches n ans ok q q' (consuming k) p' e step consumer placed runs =
      let (k', made, is) = enter-inv is_stop L consuming (call_step L ans q k) step in
      rw is (call-Matches n ans ok q q' k k' e made placed)
  consumer-Matches n ans ok q q' (executing c) p' e step consumer placed runs =
      acts n (view_of q (executing c) e) _ _ (execute c refl (go_of c runs)) (ground arith)
  consumer-Matches n ans ok q q' stopped p' e step consumer placed runs = cc

  pub any_stopped-none : (l : List (Thread C)) → total is_consumer l ≡ 0 → any_stopped l ≡ false
  unfolding total
  any_stopped-none [] h = refl
  any_stopped-none (stopped ∷ l) h = absurd (omega arith)
  any_stopped-none (consuming k ∷ l) h = any_stopped-none l (omega arith)
  any_stopped-none (p ∷ l) h = any_stopped-none l (omega arith)

  pub any_stopped-alone :
      (xs ys : List (Thread C)) (p : Thread C)
      → total is_consumer xs ≡ 0
      → total is_consumer ys ≡ 0
      → any_stopped (xs ++ p ∷ ys) ≡ is_stopped p
  unfolding total
  any_stopped-alone [] ys p hx hy = ground (arith, any_stopped-none ys hy)
  any_stopped-alone (stopped ∷ xs) ys p hx hy = absurd (omega arith)
  any_stopped-alone (x ∷ xs) ys p hx hy = any_stopped-alone xs ys p (omega arith) hy

  pub any_stopped-same :
      (xs ys : List (Thread C)) (p p' : Thread C)
      → is_stopped p' ≡ is_stopped p
      → any_stopped (xs ++ p' ∷ ys) ≡ any_stopped (xs ++ p ∷ ys)
  any_stopped-same [] ys p p' h = rw h refl
  any_stopped-same (x ∷ xs) ys p p' h = ap (λ b. is_stopped x || b) (any_stopped-same xs ys p p' h)

  -- A client appends at most the command that it has a place for, and stays a client.
  pub client-appends :
      (ans : Answers) (q q' : CmdQueue Dl) (p p' : Thread C)
      → thread_step is_stop L ans q p ≡ some (q', p')
      → is_consumer p ≡ 0
      → (is_stopped p ≡ false)
        × (is_stopped p' ≡ false)
        × ((appends p ≡ []) ⊎ ((c : C) × (appends p ≡ c ∷ []) × (of_thread slot p ≡ 1)))
  unfolding thread_step appends call_appends
  client-appends ans q q' idle p' s h = cc
  client-appends ans q q' (sending (sent r)) p' s h = (refl, ground arith, inl refl)
  client-appends ans q q' (sending (send_append n)) p' s h =
      (refl, ground (arith), inr (n.val.cmd, refl, refl))
  client-appends ans q q' (sending k) p' s h =
      let (k', step, is) = enter-inv is_stop L sending (call_step L ans q k) s in
      (refl, ap is_stopped is, inl refl)
  client-appends ans q q' (consuming k) p' s h = absurd (omega arith)
  client-appends ans q q' (executing c) p' s h = absurd (omega arith)
  client-appends ans q q' stopped p' s h = cc
