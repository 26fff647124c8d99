-- ===== src/SensorCmds/Finish.antt =====
-- src/lab4/c/sensor_commands/tools/sensor_cmds/main.c: the end of the second experiment.
use ie0417_dev_b.Base.{
  ℕ, ◌≡◌, refl, Option, none, some, List, [], ◌∷◌, ◌++◌, ℤ, pos, is_nonzero, if◌then◌else◌,
}
use ie0417_dev_b.Process.{World, Ptr, Output}
use ie0417_dev_b.Process.Frees.{Freeable, freed, free-Freeable}
use ie0417_dev_b.Utlist.{Utlist}
use ie0417_dev_b.Uthash.{Uthash}
use ie0417_dev_b.Cjson.{Cjson}
use ie0417_dev_b.SensorCommands.Types.{Command}
use ie0417_dev_b.SensorCommands.Command.{command_destroy}
use ie0417_dev_b.SensorCommands.Factory.{SensorConstructor}
use ie0417_dev_b.SensorCommands.CommandQueue.{CmdQNode, send_malloc}
use ie0417_dev_b.SensorCommands.CommandRunner.Api.{command_runner_destroy}
use ie0417_dev_b.SensorCommands.Manager.{SensorHashEntry, Manager, sensor_manager_destroy}
use ie0417_dev_b.SensorCommands.Manager.Frees.{owns, manager-free}
use ie0417_dev_b.SensorCmds.{Runner, minus_one, call_stop, destroy_commands}
use ie0417_dev_b.SensorCmds.Talk.{
  queue_send, join_thread, T, done, return, lift, and_ask, ◌>>=◌, ◌>>◌, if_null, play, finished,
}
use ie0417_dev_b.SensorCmds.Basic.{granted, stop_signal}
use ie0417_dev_b.SensorCmds.ReadLoop.{Commands, cmd_blocks}

commands-free :
    (cmds : Commands) (rest : List ℕ) (w : World)
    → Freeable (cmd_blocks cmds ++ rest) w
    → (w' : World) × (destroy_commands cmds w ≡ done (some (tt, w'))) × Freeable rest w'
unfolding destroy_commands command_destroy
commands-free [] rest w h = (w, refl, h)
commands-free (none ∷ l) rest w h = commands-free l rest w h
commands-free (some c ∷ l) rest w h =
    let (ran, h') = free-Freeable c.addr (cmd_blocks l ++ rest) w h in
    let (w', run, r) = commands-free l rest (freed c.addr w) h' in (w', rw ran run, r)

module _ (L : Utlist (Ptr (CmdQNode (Ptr Command)))) (J : Cjson) (F : Uthash SensorConstructor)
    (H : Uthash SensorHashEntry) (r : Runner L) (smgr : Ptr (Manager J F H)) (signal : ℕ) where
  -- What `sensor_command_experiment` does after its first loop.
  abbrev pub after_loop : Option Commands → T ℤ
  after_loop commands = if_null commands (return minus_one) λ cmds. do
    stopped ← call_stop L r signal
    if is_nonzero stopped then return minus_one else (do
      destroy_commands cmds
      lift (sensor_manager_destroy J F H smgr)
      lift (command_runner_destroy L (some r))
      return (pos 0))

  runner-free :
      (w : World)
      → Freeable (r.addr ∷ []) w
      → (w' : World) × (and_ask (done (command_runner_destroy L (some r) w)) (λ x. return (pos 0))
          ≡ done (some (pos 0, w')))
  unfolding command_runner_destroy
  runner-free w h = (freed r.addr w, rw (h.0.0, (free-Freeable r.addr [] w h).0) refl)

  pub after_loop-run :
      (cmds : Commands) (w : World) (o o' : List Output) (outs : List (List Output))
      → Freeable (cmd_blocks cmds ++ owns J F H smgr (r.addr ∷ [])) w
      → (w' : World) × (play (after_loop (some cmds) w) (granted (o ∷ o' ∷ outs)) ≡ (
        queue_send (send_malloc (stop_signal signal)) ∷ join_thread ∷ [],
        finished (some (pos 0, w')),
      ))
  unfolding call_stop play
  after_loop-run cmds w o o' outs h =
      let w1 : World = record w { out = (w.out ++ o) ++ o' } in
      let (w2, run2, h2) = commands-free cmds (owns J F H smgr (r.addr ∷ [])) w1 h in
      let (w3, run3, h3) = manager-free J F H smgr (r.addr ∷ []) w2 h2 in
      let (w4, run4) = runner-free w3 h3 in (w4, rw (run2, run3, run4) refl)
