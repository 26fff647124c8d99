-- ===== src/SensorCmds/AnyAnswer.antt =====
-- src/lab4/c/sensor_commands/tools/sensor_cmds/main.c: the requests of the first experiment, whatever
-- is answered.
use ie0417_dev_b.Base.{
  ℕ, zero, suc, ◌≡◌, refl, ap, sym, true, Option, none, some, List, [], ◌∷◌, ◌++◌, ℤ, pos,
  is_nonzero, replicate, if◌then◌else◌, Bool-cases, inl, inr, bytes,
}
use ie0417_dev_b.Process.{World, Run, Ptr, text}
use ie0417_dev_b.Utlist.{Utlist}
use ie0417_dev_b.SensorCommands.Types.{Command}
use ie0417_dev_b.SensorCommands.Command.{command_destroy, msg_command_create}
use ie0417_dev_b.SensorCommands.CommandQueue.{CmdQNode, InitAnswers, send_malloc}
use ie0417_dev_b.SensorCommands.CommandRunner.Api.{
  command_runner_create, command_runner_destroy, command_runner_stop_result, command_runner_start,
}
use ie0417_dev_b.SensorCmds.{
  minus_one, Runner, test_message, runner_cfg, call_start, send_times, after_sends,
  basic_command_experiment,
}
use ie0417_dev_b.SensorCmds.Talk.{
  Request, create_thread, queue_send, join_thread, Talk, T, done, asks, return, and_ask, if_null,
  Reply, play,
}
use ie0417_dev_b.SensorCmds.Basic.{stop_signal, all_requests}

-- The program asks for no more than the items of the list, in order, and may end early.
abbrev Asks : {A : Type 0} → List Request → Talk A → Type 0
Asks l (done o) = Unit
Asks [] (asks q w k) = ⊥
Asks (p ∷ l) (asks q w k) = (p ≡ q) × ((z : ℤ) (w' : World) → Asks l (k z w'))

module _ {A : Type 0} where
  Asks-run :
      {B : Type 0} (l : List Request) (o : Run B) (k : B → T A)
      → ((b : B) (w : World) → Asks l (k b w))
      → Asks l (and_ask (done o) k)
  Asks-run l none k a = tt
  Asks-run l (some (b, w)) k a = a b w

  -- A test of a result, where the program returns unless it is zero.
  Asks-if :
      (l : List Request) (z : ℤ) (y : A) (k : T A) (w : World)
      → Asks l (k w)
      → Asks l ((if is_nonzero z then return y else k) w)
  Asks-if l z y k w h = elim (Bool-cases (is_nonzero z)) [ inl b ↦ rw b tt | inr b ↦ rw b h ]

  Asks-test :
      {B : Type 0} (l : List Request) (z : ℤ) (y : B) (k : T B) (f : B → T A) (w : World)
      → (is_nonzero z ≡ true → Asks l (f y w))
      → Asks l (and_ask (k w) f)
      → Asks l (and_ask ((if is_nonzero z then return y else k) w) f)
  Asks-test l z y k f w g h = elim (Bool-cases (is_nonzero z)) [
    | inl b ↦ rw b (g b)
    | inr b ↦ rw b h
  ]

  -- The requests are the start of the list.
  Asks-play :
      (l : List Request) (t : Talk A) (r : List Reply)
      → Asks l t
      → (more : List Request) × ((play t r).0 ++ more ≡ l)
  unfolding play
  Asks-play l (done o) r a = (l, refl)
  Asks-play [] (asks q w k) r a = absurd a
  Asks-play (p ∷ l) (asks q w k) [] a = (l, ap (λ x. x ∷ l) (sym a.0))
  Asks-play (p ∷ l) (asks q w k) ((z, o) ∷ r) a =
      let (more, e) = Asks-play l (k z (record w { out = w.out ++ o })) r (a.1 z _) in
      (more, rw (e, a.0) refl)

module _ (L : Utlist (Ptr (CmdQNode (Ptr Command)))) (r : Runner L) (cmd : Ptr Command)
    (signal : ℕ) where
  abbrev stop_requests : List Request
  stop_requests = queue_send (send_malloc (stop_signal signal)) ∷ join_thread ∷ []

  -- The end of the experiment, after the stop.
  abbrev finish : ℤ → T ℤ
  finish stopped = if is_nonzero stopped then return minus_one else (λ w.
      and_ask (done (command_destroy (some cmd) w))
        λ x w'. and_ask (done (command_runner_destroy L (some r) w')) λ y. return (pos 0))

  finish-Asks : (l : List Request) (z : ℤ) (w : World) → Asks l (finish z w)
  finish-Asks l z w = Asks-if l z minus_one _ w (
      Asks-run l (command_destroy (some cmd) w) _
        λ x w'. Asks-run l (command_runner_destroy L (some r) w') (λ y. return (pos 0)) λ y w2. tt)

  after_sends-Asks : (z : ℤ) (w : World) → Asks stop_requests (after_sends L r cmd signal z w)
  unfolding after_sends
  after_sends-Asks z w = Asks-if stop_requests z minus_one _ w (
    refl,
    λ y w1.
        Asks-test (join_thread ∷ []) y y _ finish w1 (λ b. finish-Asks (join_thread ∷ []) y w1)
          (refl, λ j w2. finish-Asks [] (command_runner_stop_result L y j) w2),
  )

  after_sends-fails :
      (l : List Request) (z : ℤ) (w : World)
      → is_nonzero z ≡ true
      → Asks l (after_sends L r cmd signal z w)
  unfolding after_sends
  after_sends-fails l z w b = rw b tt

  send_times-Asks :
      (n : ℕ) (w : World)
      → Asks
          (replicate n (queue_send (send_malloc cmd)) ++ stop_requests)
          (and_ask (send_times L r cmd n w) (after_sends L r cmd signal))
  unfolding send_times
  send_times-Asks zero w = after_sends-Asks (pos 0) w
  send_times-Asks (suc n) w = (
    refl,
    λ z w1.
        Asks-test (replicate n (queue_send (send_malloc cmd)) ++ stop_requests) z z
          (send_times L r cmd n) (after_sends L r cmd signal) w1 (λ b. after_sends-fails _ z w1 b)
          (send_times-Asks n w1),
  )

  started-Asks :
      (n : ℕ) (w : World)
      → Asks (create_thread ∷ (replicate n (queue_send (send_malloc cmd)) ++ stop_requests)) (
          and_ask (call_start L r w) λ started.
            if is_nonzero started
            then return minus_one
            else (λ w1. and_ask (send_times L r cmd n w1) (after_sends L r cmd signal)))
  unfolding call_start
  started-Asks n w = (
    refl,
    λ z w1.
        Asks-if (replicate n (queue_send (send_malloc cmd)) ++ stop_requests)
          (command_runner_start L (some r) z).0 minus_one _ w1 (send_times-Asks n w1),
  )

module _ (L : Utlist (Ptr (CmdQNode (Ptr Command)))) (signal : ℕ) where
  -- The program asks for the requests of the experiment with some command.
  abbrev Starts : Talk ℤ → Type 0
  Starts t = (cmd : Ptr Command) × Asks (all_requests L cmd signal) t

  Starts-run :
      {B : Type 0} (o : Run (Option B)) (z : ℤ) (k : B → T ℤ)
      → ((b : B) (w : World) → Starts (k b w))
      → Starts (and_ask (done o) λ x. if_null x (return z) k)
  Starts-run none z k a = (stop_signal signal, tt)
  Starts-run (some (none, w)) z k a = (stop_signal signal, tt)
  Starts-run (some (some b, w)) z k a = a b w

  basic-Starts : (ans : InitAnswers) (w : World) → Starts (basic_command_experiment L ans signal w)
  unfolding basic_command_experiment
  basic-Starts ans w =
      Starts-run (command_runner_create L ans (some runner_cfg) w) minus_one _ λ r w1.
        Starts-run (msg_command_create test_message w1) minus_one _ λ cmd w2. (
          cmd,
          started-Asks L r cmd signal 10 (record w2 {
            out = w2.out ++ text (bytes "++++++++++ CommandRunner experiment ++++++++++\n") ∷ [];
          }),
        )

  -- Whatever memory is granted and whatever is answered, what `basic_command_experiment` asks for
  -- is a first part of this: to create the consumer thread, to send one command ten times, to send
  -- the stop signal, and to join the thread.
  pub basic-in_order :
      (ans : InitAnswers) (w : World) (l : List Reply)
      → (cmd : Ptr Command) × (more : List Request) × ((play
              (basic_command_experiment L ans signal w)
              l).0
            ++ more
          ≡ all_requests L cmd signal)
  basic-in_order ans w l =
      let (cmd, a) = basic-Starts ans w in
      let (more, e) =
        Asks-play (all_requests L cmd signal) (basic_command_experiment L ans signal w) l a in
      (cmd, more, e)
