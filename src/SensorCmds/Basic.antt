-- ===== src/SensorCmds/Basic.antt =====
-- src/lab4/c/sensor_commands/tools/sensor_cmds/main.c: the experiment with one message command.
use ie0417_dev_b.Base.{
  ℕ, zero, suc, ◌+◌, ◌≡◌, refl, ap, ◌∙◌, true, false, none, some, List, [], ◌∷◌, ◌++◌, ℤ, pos,
  length, replicate, arith, ◌==◌,
}
use ie0417_dev_b.Process.{World, Ptr, Output, text, free}
use ie0417_dev_b.Base.{bytes}
use ie0417_dev_b.Utlist.{Utlist}
use ie0417_dev_b.SensorCommands.Types.{Command}
use ie0417_dev_b.SensorCommands.Command.{command_destroy}
use ie0417_dev_b.SensorCommands.Command.Lifecycle.{
  msg_command, msg_command_create-ok, allocated_two,
}
use ie0417_dev_b.SensorCommands.CommandQueue.{
  CmdQNode, InitAnswers, send_malloc, all_up, cmd_queue_uninit,
}
use ie0417_dev_b.SensorCommands.CommandQueue.Init.{fresh}
use ie0417_dev_b.SensorCommands.CommandRunner.Api.{runner_create-fresh, command_runner_destroy}
use ie0417_dev_b.SensorCmds.{
  Runner, test_message, runner_cfg, send_times, after_sends, basic_command_experiment,
}
use ie0417_dev_b.SensorCmds.Talk.{
  Request, create_thread, queue_send, join_thread, T, and_ask, Reply, Ending, finished, play,
}

-- Every request is granted; the list has what is written before each answer.
abbrev pub granted : List (List Output) → List Reply
granted [] = []
granted (o ∷ l) = (pos 0, o) ∷ granted l

-- The output of other threads.
abbrev pub written : List Output → List (List Output) → List Output
written out [] = out
written out (o ∷ l) = written (out ++ o) l

-- The primitives of the queue are granted.
pub record IsGranted (ans : InitAnswers) : Type 0 where
  pub empty_ok : ans.empty_ret ≡ pos 0
  pub occupied_ok : ans.occupied_ret ≡ pos 0
  pub mutex_ok : ans.mutex_ret ≡ pos 0

-- The stop signal.
abbrev pub stop_signal : ℕ → Ptr Command
stop_signal signal = record { addr = signal; val = record { priv = none; execute = none } }

abbrev pub before : {A : Type 0} → List Request → List Request × Ending A → List Request × Ending A
before r (rs, e) = (r ++ rs, e)

cmd-destroyed :
    (cmd : Ptr Command) (w : World) (n : ℕ) (l : List ℕ)
    → cmd.addr ≡ n + 1 + 1
    → command_destroy (some cmd) (record w { live = (n + 1 + 1) ∷ l })
      ≡ some (pos 0, record w { live = l })
unfolding command_destroy
cmd-destroyed cmd w n l f =
    let own : ((n + 1 + 1) == (n + 1 + 1)) ≡ true = ground arith in rw (f, own) refl

module _ (L : Utlist (Ptr (CmdQNode (Ptr Command)))) where
  send_times-granted :
      {A : Type 0} (r : Runner L) (cmd : Ptr Command) (n : ℕ) (k : ℤ → T A) (w : World)
      (outs : List (List Output)) (l : List Reply)
      → length outs ≡ n
      → play (and_ask (send_times L r cmd n w) k) (granted outs ++ l)
        ≡ before
            (replicate n (queue_send (send_malloc cmd)))
            (play (k (pos 0) (record w { out = written w.out outs })) l)
  unfolding send_times play
  send_times-granted r cmd zero k w [] l e = refl
  send_times-granted r cmd zero k w (o ∷ outs) l e = absurd (omega (arith, e))
  send_times-granted r cmd (suc n) k w [] l e = absurd (omega (arith, e))
  send_times-granted r cmd (suc n) k w (o ∷ outs) l e =
      ap (before (queue_send (send_malloc cmd) ∷ []))
        (send_times-granted r cmd n k (record w { out = w.out ++ o }) outs l (omega (arith, e)))

  runner-destroyed :
      (r : Runner L) (w : World) (n : ℕ) (l : List ℕ)
      → r.addr ≡ n
      → command_runner_destroy L (some r) (record w { live = (n + 1) ∷ n ∷ l })
        ≡ some ((pos 0, some (cmd_queue_uninit r.val.primitives)), record w { live = (n + 1) ∷ l })
  unfolding command_runner_destroy free
  runner-destroyed r w n l e =
      let other : (n == (n + 1)) ≡ false = ground arith in
      let own : (n == n) ≡ true = ground arith in rw (e, other, own, other, own) refl

  after-granted :
      (r : Runner L) (cmd : Ptr Command) (signal : ℕ) (w : World) (stopped joined out : List Output)
      (n : ℕ) (l : List ℕ)
      → r.addr ≡ n
      → cmd.addr ≡ n + 1 + 1
      → play
          (after_sends L r cmd signal
            (pos 0)
            (record w { live = (n + 1 + 1) ∷ (n + 1) ∷ n ∷ l; out = out }))
          ((pos 0, stopped) ∷ (pos 0, joined) ∷ [])
        ≡ (
          queue_send (send_malloc (stop_signal signal)) ∷ join_thread ∷ [],
          finished
              (some (pos 0, record w { live = (n + 1) ∷ l; out = (out ++ stopped) ++ joined })),
        )
  unfolding after_sends play
  after-granted r cmd signal w stopped joined out n l e f =
      let end = record w { out = (out ++ stopped) ++ joined } in
      rw (cmd-destroyed cmd end n ((n + 1) ∷ n ∷ l) f, runner-destroyed r end n l e) refl

  -- What the experiment asks for.
  abbrev pub all_requests : Ptr Command → (signal : ℕ) → List Request
  all_requests cmd signal =
      create_thread
      ∷ (replicate 10 (queue_send (send_malloc cmd))
          ++ queue_send (send_malloc (stop_signal signal)) ∷ join_thread ∷ [])

  -- The world after the experiment.
  abbrev pub basic_end :
      World → (started stopped joined : List Output) → (outs : List (List Output)) → World
  basic_end w started stopped joined outs = record w {
    next = w.next + 1 + 1 + 1;
    live = (w.next + 1) ∷ w.live;
    out =
        (written
            ((w.out ++ text (bytes "++++++++++ CommandRunner experiment ++++++++++\n") ∷ [])
              ++ started)
            outs
          ++ stopped)
        ++ joined;
  }

  -- With memory and where every request is granted, `basic_command_experiment` creates the consumer
  -- thread, sends its message command ten times, sends the stop signal and joins the thread, in
  -- that order, and returns 0; of its blocks only that of the message stays allocated.
  pub basic-sends_all :
      (ans : InitAnswers) (signal : ℕ) (w : World) (started stopped joined : List Output)
      (outs : List (List Output))
      → IsGranted ans
      → ((n : ℕ) → w.oom n ≡ false)
      → length outs ≡ 10
      → play
          (basic_command_experiment L ans signal w)
          ((pos 0, started) ∷ (granted outs ++ (pos 0, stopped) ∷ (pos 0, joined) ∷ []))
        ≡ (
          all_requests (msg_command (record w { next = w.next + 1 }) test_message) signal,
          finished (some (pos 0, basic_end w started stopped joined outs)),
        )
  unfolding basic_command_experiment play
  basic-sends_all ans signal w started stopped joined outs g m e =
      let w1 = record w { next = w.next + 1; live = w.next ∷ w.live } in
      let cmd = msg_command w1 test_message in
      let r : Runner L = record {
        addr = w.next;
        val = record { queue = fresh L 100; primitives = all_up };
      } in
      let out =
        (w.out ++ text (bytes "++++++++++ CommandRunner experiment ++++++++++\n") ∷ [])
        ++ started in
      let w2 = record (allocated_two w1) { out = out } in
      rw
        (
          runner_create-fresh L ans (some runner_cfg) w 100 (refl, omega arith, omega arith)
              (m w.next) g.empty_ok g.occupied_ok g.mutex_ok,
          msg_command_create-ok test_message w1 (m (w.next + 1)) (m (w.next + 1 + 1)),
        )
        (ap (before (create_thread ∷ [])) (
          send_times-granted r cmd 10 (after_sends L r cmd signal) w2 outs _ e
          ∙ ap (before (replicate 10 (queue_send (send_malloc cmd)))) (
              after-granted r cmd signal w2 stopped joined (written out outs) w.next w.live refl
                refl)))
