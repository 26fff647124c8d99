-- ===== src/SensorCmds/Executes.antt =====
-- The experiment with one message command on top of the threads of its runner.
use ie0417_dev_b.Base.{
  ℕ, zero, suc, ◌+◌, ◌≤◌, ◌≡◌, refl, ap, ◌∙◌, false, List, [], ◌∷◌, ◌++◌, ℤ, pos, replicate, length,
}
use ie0417_dev_b.Process.{World, Ptr, Output}
use ie0417_dev_b.Utlist.{Utlist}
use ie0417_dev_b.SensorCommands.Types.{Command}
use ie0417_dev_b.SensorCommands.Command.Lifecycle.{msg_command}
use ie0417_dev_b.SensorCommands.CommandQueue.{CmdQNode, InitAnswers, send_malloc}
use ie0417_dev_b.SensorCommands.CommandRunner.{Thread, stopped, System}
use ie0417_dev_b.SensorCommands.CommandRunner.Api.{is_stop}
use ie0417_dev_b.SensorCommands.CommandRunner.Weights.{total}
use ie0417_dev_b.SensorCommands.CommandRunner.Hands.{is_consumer}
use ie0417_dev_b.SensorCommands.CommandRunner.Balance.{queued}
use ie0417_dev_b.SensorCommands.CommandRunner.Safety.{IsRunner}
use ie0417_dev_b.SensorCommands.CommandRunner.Execution.{AllRun}
use ie0417_dev_b.SensorCommands.CommandRunner.Drain.{stopped-all_executed}
use ie0417_dev_b.SensorCmds.{test_message, basic_command_experiment}
use ie0417_dev_b.SensorCmds.Talk.{Request, queue_send, join_thread, play}
use ie0417_dev_b.SensorCmds.Basic.{IsGranted, granted, stop_signal, basic-sends_all}

-- The commands that a program sends, in order.
abbrev pub sent_commands : List Request → List (Ptr Command)
sent_commands [] = []
sent_commands (queue_send (send_malloc c) ∷ l) = c ∷ sent_commands l
sent_commands (_ ∷ l) = sent_commands l

module _ (L : Utlist (Ptr (CmdQNode (Ptr Command)))) where
  open L use {Dl}

  sent-replicate :
      (n : ℕ) (c : Ptr Command) (l : List Request)
      → sent_commands (replicate n (queue_send (send_malloc c)) ++ l)
        ≡ replicate n c ++ sent_commands l
  sent-replicate zero c l = refl
  sent-replicate (suc n) c l = ap (λ x. c ∷ x) (sent-replicate n c l)

  AllRun-replicate :
      (n : ℕ) (c : Ptr Command) → is_stop c ≡ false → AllRun is_stop L (replicate n c)
  AllRun-replicate zero c h = tt
  AllRun-replicate (suc n) c h = (h, AllRun-replicate n c h)

  -- The first experiment on top of the threads: with memory and where every request is granted, in
  -- a reachable state of a runner with at most one consumer to which exactly the commands of the
  -- experiment were appended, once the consumer has stopped, the executed commands are ten times
  -- the message command of the experiment, and the queue is empty.
  pub basic-executes :
      (ans : InitAnswers) (signal : ℕ) (w : World) (started stopping joined : List Output)
      (outs : List (List Output))
      → IsGranted ans
      → ((n : ℕ) → w.oom n ≡ false)
      → length outs ≡ 10
      → (max : ℤ) {s : System (Ptr Command) Dl} → IsRunner is_stop L max s
      → total is_consumer s.threads ≤ 1
      → s.appended
        ≡ sent_commands
            (play
              (basic_command_experiment L ans signal w)
              ((pos 0, started) ∷ (granted outs ++ (pos 0, stopping) ∷ (pos 0, joined) ∷ []))).0
      → (xs ys : List (Thread (Ptr Command))) → s.threads ≡ xs ++ stopped ∷ ys
      → (s.executed ≡ replicate 10 (msg_command (record w { next = w.next + 1 }) test_message))
        × (queued L s.queue ≡ [])
  basic-executes ans signal w started stopping joined outs g m e max r one app xs ys at =
      let run = basic-sends_all L ans signal w started stopping joined outs g m e in
      let cmd = msg_command (record w { next = w.next + 1 }) test_message in
      let all =
        app
        ∙ ap (λ p. sent_commands p.0) run
        ∙ sent-replicate 10 cmd
            (queue_send (send_malloc (stop_signal signal)) ∷ join_thread ∷ []) in
      stopped-all_executed is_stop L max r one (replicate 10 cmd) (stop_signal signal) all
        (AllRun-replicate 10 cmd refl) refl xs ys at
