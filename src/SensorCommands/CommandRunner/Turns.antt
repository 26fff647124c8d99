-- ===== src/SensorCommands/CommandRunner/Turns.antt =====
-- One step of one thread: what it takes out of the queue, what it executes, and what it then holds.
use ie0417_dev_b.Base.{
  ◌≡◌, refl, Bool, true, some, List, [], ◌∷◌, ◌++◌, arith, ◌⊎◌, inl, inr, Bool-cases, append-nil,
}
use ie0417_dev_b.Process.{Ptr}
use ie0417_dev_b.Utlist.{Utlist}
use ie0417_dev_b.SensorCommands.CommandQueue.{
  CmdQNode, CmdQueue, Answers, AreSound, Call, sent, recv_pop, recv_free, received, recv_failed,
  call_step,
}
use ie0417_dev_b.SensorCommands.CommandRunner.{
  Thread, idle, sending, consuming, executing, stopped, thread_step, takes, executes, call_takes,
}
use ie0417_dev_b.SensorCommands.CommandRunner.Invariant.{enter-inv}
use ie0417_dev_b.SensorCommands.CommandRunner.Places.{misplaced}
use ie0417_dev_b.SensorCommands.CommandRunner.Hands.{call_hand, hand, is_consumer, is_active}

module _ {C : Type 0} (is_stop : C → Bool) (L : Utlist (Ptr (CmdQNode C))) where
  open L use {Dl, head}

  -- One step of a consumer: what it took is what it executed and what it still holds, or it has
  -- stopped at a stop signal.
  abbrev pub Stepped : (t e : List C) → Thread C → Type 0
  Stepped t e p' =
      ((t ≡ e ++ hand p') × (is_active p' ≡ 1))
      ⊎ ((c : C) × (is_stop c ≡ true) × (t ≡ e ++ c ∷ []) × (p' ≡ stopped))

  call-hand :
      (ans : Answers)
      → AreSound ans
      → (q q' : CmdQueue Dl) (k k' : Call C) (t e : List C) → call_step L ans q k ≡ some (q', k')
      → t ≡ e ++ call_hand k
      → t ++ call_takes k (head q.head) ≡ (e ++ []) ++ call_hand k'
  unfolding call_step call_takes
  call-hand ans ok q q' recv_pop k' t e s h = ground (arith, append-nil t, append-nil e)
  call-hand ans ok q q' (recv_free n) k' t e s h = ground (arith, append-nil t, append-nil e)
  call-hand ans ok q q' k k' t e s h = ground (arith, append-nil t, append-nil e)

  pub thread-hand :
      (ans : Answers)
      → AreSound ans
      → (q q' : CmdQueue Dl) (p p' : Thread C) (t e : List C)
      → thread_step is_stop L ans q p ≡ some (q', p')
      → is_active p ≡ 1
      → misplaced p ≡ 0
      → t ≡ e ++ hand p
      → Stepped (t ++ takes p (head q.head)) (e ++ executes p) p'
  unfolding thread_step takes executes
  thread-hand ans ok q q' idle p' t e s a m h = absurd (omega arith)
  thread-hand ans ok q q' (sending k) p' t e s a m h = absurd (omega arith)
  thread-hand ans ok q q' (consuming (recv_failed r)) p' t e s a m h = absurd (omega arith)
  thread-hand ans ok q q' (consuming (received c)) p' t e s a m h = elim (Bool-cases (is_stop c)) [
    | inl stop ↦ inr (c, stop, ground (arith, append-nil t, append-nil e), ground arith)
    | inr go ↦ inl (ground (arith, append-nil t, append-nil e), ground arith)
  ]
  thread-hand ans ok q q' (consuming k) p' t e s a m h =
      let (k', step, is) = enter-inv is_stop L consuming (call_step L ans q k) s in
      rw is (inl (call-hand ans ok q q' k k' t e step h, refl))
  thread-hand ans ok q q' (executing c) p' t e s a m h =
      inl (ground (arith, append-nil t, append-nil (e ++ c ∷ [])), ground arith)
  thread-hand ans ok q q' stopped p' t e s a m h = absurd (omega arith)

  pub thread-role :
      (ans : Answers) (q q' : CmdQueue Dl) (p p' : Thread C)
      → thread_step is_stop L ans q p ≡ some (q', p')
      → (is_consumer p' ≡ is_consumer p) × (is_consumer p ≡ is_active p)
  unfolding thread_step
  thread-role ans q q' idle p' s = cc
  thread-role ans q q' (sending (sent r)) p' s = ground arith
  thread-role ans q q' (sending k) p' s =
      let (k', step, is) = enter-inv is_stop L sending (call_step L ans q k) s in rw is (refl, refl)
  thread-role ans q q' (consuming (recv_failed r)) p' s = ground arith
  thread-role ans q q' (consuming (received c)) p' s = ground arith
  thread-role ans q q' (consuming k) p' s =
      let (k', step, is) = enter-inv is_stop L consuming (call_step L ans q k) s in
      rw is (refl, refl)
  thread-role ans q q' (executing c) p' s = ground arith
  thread-role ans q q' stopped p' s = cc

  -- A step of a client takes and executes nothing.
  pub client-step :
      (ans : Answers) (q q' : CmdQueue Dl) (p p' : Thread C)
      → thread_step is_stop L ans q p ≡ some (q', p')
      → is_consumer p ≡ 0
      → misplaced p ≡ 0
      → (takes p (head q.head) ≡ []) × (executes p ≡ []) × (hand p ≡ []) × (hand p' ≡ [])
  unfolding thread_step takes executes call_takes
  client-step ans q q' (sending (sent r)) p' s h m = ground arith
  client-step ans q q' (sending k) p' s h m =
      let (k', step, is) = enter-inv is_stop L sending (call_step L ans q k) s in ground arith
  client-step ans q q' idle p' s h m = cc
  client-step ans q q' (consuming k) p' s h m = absurd (omega arith)
  client-step ans q q' (executing c) p' s h m = absurd (omega arith)
  client-step ans q q' stopped p' s h m = cc
