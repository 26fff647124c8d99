-- ===== src/SensorCommands/CommandRunner/Progress.antt =====
-- command_runner.c: which threads of a runner can step, and when all of them wait.
use ie0417_dev_b.Base.{
  ℕ, ◌<◌, ◌≡◌, refl, ap, ◌∙◌, Bool, true, false, some, List, [], ◌∷◌, ◌++◌, ℤ, pos, arith, length,
  ◌⊎◌, inl, inr, Bool-cases, Option-cases, is_some,
}
use native.Mathlib.Decide.{dec_lt}
use ie0417_dev_b.Process.{Ptr}
use ie0417_dev_b.Utlist.{Utlist}
use ie0417_dev_b.SensorCommands.CommandQueue.{
  CmdQNode, CmdQueue, Answers, AreSound, send_wait, sent, recv_wait, received, call_step,
}
use ie0417_dev_b.SensorCommands.CommandRunner.{
  Thread, sending, consuming, executing, System, thread_step,
}
use ie0417_dev_b.SensorCommands.CommandRunner.Weights.{
  total, total-split, slot, claim, unposted, holds, failed, of_thread,
}
use ie0417_dev_b.SensorCommands.CommandRunner.Safety.{IsRunner, IsRunner-Inv}
use ie0417_dev_b.SensorCommands.CommandRunner.Places.{misplaced, IsRunner-Placed}
use ie0417_dev_b.SensorCommands.CommandRunner.Resting.{
  is_resting, length-zero, find_positive, holder-busy, slot-busy, claim-busy, post-busy,
}

module _ {C : Type 0} (is_stop : C → Bool) (L : Utlist (Ptr (CmdQNode C))) where
  open L use {Dl, items}

  -- Some thread can make its next step.
  pub record Steps (s : System C Dl) : Type 0 where
    pub before : List (Thread C)
    pub mover : Thread C
    pub after : List (Thread C)
    pub at : s.threads ≡ before ++ mover ∷ after
    pub ans : Answers
    pub sound : AreSound ans
    pub queue : CmdQueue Dl
    pub moved : Thread C
    pub step : thread_step is_stop L ans s.queue mover ≡ some (queue, moved)

  -- The answers of primitives that succeed, with a node at some address.
  abbrev pub good : Answers
  good = record { node = some 1; lock_ret = pos 0; unlock_ret = pos 0 }

  -- A thread that does not rest can step, unless it waits for the mutex.
  busy-step :
      (q : CmdQueue Dl) (p : Thread C)
      → is_resting p ≡ false
      → misplaced p ≡ 0
      → of_thread failed p ≡ 0
      → (0 < of_thread holds p) ⊎ (q.lock ≡ false)
      → is_some (thread_step is_stop L good q p) ≡ true
  unfolding thread_step call_step
  busy-step q (sending (sent k)) r m f h = refl
  busy-step q (sending k) r m f h = ground arith
  busy-step q (consuming (received c)) r m f h = refl
  busy-step q (consuming k) r m f h = ground arith
  busy-step q (executing c) r m f h = refl
  busy-step q p r m f h = cc

  sender-step :
      (q : CmdQueue Dl) (n : Ptr (CmdQNode C))
      → 0 < q.empty
      → is_some (thread_step is_stop L good q (sending (send_wait n))) ≡ true
  unfolding thread_step call_step
  sender-step q n h = ground arith

  receiver-step :
      (q : CmdQueue Dl)
      → 0 < q.occupied
      → is_some (thread_step is_stop L good q (consuming recv_wait)) ≡ true
  unfolding thread_step call_step
  receiver-step q h = ground arith

  -- The thread at a place of the list steps.
  pub Steps-at :
      (s : System C Dl) (xs ys : List (Thread C)) (p : Thread C)
      → s.threads ≡ xs ++ p ∷ ys
      → is_some (thread_step is_stop L good s.queue p) ≡ true
      → Steps s
  Steps-at s xs ys p e h = elim (Option-cases (thread_step is_stop L good s.queue p)) [
    | inl bad ↦ cc
    | inr (r, is) ↦ record {
      before = xs;
      mover = p;
      after = ys;
      at = e;
      ans = good;
      sound = record { lock_ok = refl; unlock_ok = refl };
      queue = r.0;
      moved = r.1;
      step = is;
    }
  ]

  module _ (max : ℤ) {s : System C Dl} (r : IsRunner is_stop L max s) where
    at_zero :
        (w : Thread C → ℕ) (xs ys : List (Thread C)) (p : Thread C)
        → s.threads ≡ xs ++ p ∷ ys
        → total w s.threads ≡ 0
        → w p ≡ 0
    at_zero w xs ys p e h = omega (arith, h, ap (total w) e ∙ total-split w xs p ys)

    busy-Steps :
        (xs ys : List (Thread C)) (p : Thread C)
        → s.threads ≡ xs ++ p ∷ ys
        → is_resting p ≡ false
        → (0 < of_thread holds p) ⊎ (s.queue.lock ≡ false)
        → Steps s
    busy-Steps xs ys p e busy lock =
        let (n, is, some_place, inv) = IsRunner-Inv is_stop L max r in
        Steps-at s xs ys p e (
          busy-step s.queue p busy (at_zero misplaced xs ys p e (IsRunner-Placed is_stop L max r))
            (at_zero (of_thread failed) xs ys p e inv.balance.none_failed) lock)

    -- In every reachable state in which some thread is inside a call and not waiting on a
    -- semaphore, or executes a command, some thread can make its next step.
    pub no_deadlock :
        (xs ys : List (Thread C)) (p : Thread C)
        → s.threads ≡ xs ++ p ∷ ys
        → is_resting p ≡ false
        → Steps s
    no_deadlock xs ys p e busy = elim (Bool-cases s.queue.lock) [
      | inl locked ↦
          let (n, is, some_place, inv) = IsRunner-Inv is_stop L max r in
          let (xs2, h, ys2, at, holding) =
            find_positive (of_thread holds) s.threads (ground (arith, inv.balance.mutex)) in
          busy-Steps xs2 ys2 h at (holder-busy h holding) (inl holding)
      | inr open_lock ↦ busy-Steps xs ys p e busy (inr open_lock)
    ]

    -- Where no thread can step, no place and no command is in the hands of a thread.
    resting-zero :
        ¬ Steps s
        → (w : Thread C → ℕ) → ((p : Thread C) → 0 < w p → is_resting p ≡ false)
        → total w s.threads ≡ 0
    resting-zero stuck w busy = elim (dec_lt 0 (total w s.threads)) [
      | yes h ↦
          let (xs, p, ys, e, at) = find_positive w s.threads h in
          absurd (stuck (no_deadlock xs ys p e (busy p at)))
      | no h ↦ omega arith
    ]

    -- No wake-up of a client is lost: in a reachable state where no thread can step, a client that
    -- waits in `sem_wait(&queue->empty)` faces a queue with as many commands as its configured
    -- size.
    pub stuck-full :
        ¬ Steps s
        → (xs ys : List (Thread C)) (node : Ptr (CmdQNode C))
        → s.threads ≡ xs ++ sending (send_wait node) ∷ ys
        → max ≡ pos (length (items s.queue.head))
    stuck-full stuck xs ys node e =
        let (n, is, some_place, inv) = IsRunner-Inv is_stop L max r in
        let b = inv.balance in
        elim (dec_lt 0 s.queue.empty) [
          | yes h ↦
              absurd
                (stuck (Steps-at s xs ys (sending (send_wait node)) e (sender-step s.queue node h)))
          | no h ↦
              is
              ∙ ap pos (
                  omega (
                    arith,
                    b.places,
                    b.size,
                    inv.bound,
                    resting-zero stuck (of_thread slot) slot-busy,
                  ))
        ]

    -- No wake-up of a consumer is lost: in a reachable state where no thread can step, a consumer
    -- that waits in `sem_wait(&queue->occupied)` faces an empty queue.
    pub stuck-empty :
        ¬ Steps s
        → (xs ys : List (Thread C)) → s.threads ≡ xs ++ consuming recv_wait ∷ ys
        → items s.queue.head ≡ []
    stuck-empty stuck xs ys e =
        let (n, is, some_place, inv) = IsRunner-Inv is_stop L max r in
        let b = inv.balance in
        elim (dec_lt 0 s.queue.occupied) [
          | yes h ↦
              absurd (stuck (Steps-at s xs ys (consuming recv_wait) e (receiver-step s.queue h)))
          | no h ↦ length-zero (items s.queue.head) (
              omega (
                arith,
                b.commands,
                b.size,
                resting-zero stuck (of_thread claim) claim-busy,
                resting-zero stuck (of_thread unposted) post-busy,
              ))
        ]
