-- ===== src/SensorCmds/Prints.antt =====
-- src/lab4/c/sensor_commands/tools/sensor_cmds/main.c: what the consumer thread prints of the read
-- commands that the second experiment sends.
use ie0417_dev_b.Base.{
  ℕ, ◌≤◌, ◌≡◌, refl, subst, true, false, some, List, [], ◌∷◌, ◌++◌, ℤ, CString, All, length, ◌==◌,
}
use ie0417_dev_b.Process.{World, Ptr, Output, mem}
use ie0417_dev_b.Utlist.{Utlist}
use ie0417_dev_b.Uthash.{Uthash}
use ie0417_dev_b.Cjson.{Cjson}
use ie0417_dev_b.SensorCommands.Types.{Command}
use ie0417_dev_b.SensorCommands.Factory.{SensorConstructor}
use ie0417_dev_b.SensorCommands.Manager.{SensorHashEntry, Manager}
use ie0417_dev_b.SensorCommands.Manager.Load.{Config, NoOom}
use ie0417_dev_b.SensorCommands.Manager.Lookup.{names}
use ie0417_dev_b.SensorCommands.Manager.AnyMemory.{HoldsAll}
use ie0417_dev_b.SensorCommands.CommandQueue.{CmdQNode}
use ie0417_dev_b.SensorCommands.CommandRunner.{Thread, stopped, System}
use ie0417_dev_b.SensorCommands.CommandRunner.Api.{is_stop}
use ie0417_dev_b.SensorCommands.CommandRunner.Weights.{total}
use ie0417_dev_b.SensorCommands.CommandRunner.Hands.{is_consumer}
use ie0417_dev_b.SensorCommands.CommandRunner.Safety.{IsRunner}
use ie0417_dev_b.SensorCommands.CommandRunner.Execution.{AllRun}
use ie0417_dev_b.SensorCommands.CommandRunner.Drain.{stopped-all_executed}
use ie0417_dev_b.SensorCmds.{Runner, send_read_commands}
use ie0417_dev_b.SensorCmds.Basic.{granted, stop_signal}
use ie0417_dev_b.SensorCmds.Talk.{Request, play}
use ie0417_dev_b.SensorCmds.Reads.{ends, skips, sends}
use ie0417_dev_b.SensorCmds.AllReads.{SendsAll}
use ie0417_dev_b.SensorCmds.ReadLoop.{send_read_commands-All}
use ie0417_dev_b.SensorCmds.Executes.{sent_commands}
use ie0417_dev_b.SensorCmds.Reports.{
  run_commands, Reports, IsLiveCommand, HoldsAll-IsReady, run-Reports,
}

module _ (J : Cjson) (F : Uthash SensorConstructor) (H : Uthash SensorHashEntry) where
  open H use {items}

  module _ (L : Utlist (Ptr (CmdQNode (Ptr Command)))) where
    SendsAll-AllRun :
        (smgr : Ptr (Manager J F H)) (names : List CString) (rs : List Request)
        → SendsAll J F H smgr names rs
        → AllRun is_stop L (sent_commands rs)
    SendsAll-AllRun smgr names rs (ends e) = tt
    SendsAll-AllRun smgr (name ∷ names) rs (skips f s) = SendsAll-AllRun smgr names rs s
    SendsAll-AllRun smgr (name ∷ names) (r ∷ rs) (sends is s) =
        (rw is.execute refl, SendsAll-AllRun smgr names rs s)

    -- The second experiment on top of the threads: with memory for every allocation, every request
    -- granted, names that are not empty and a manager that holds the sensors of a configuration, in
    -- a reachable state of a runner with at most one consumer to which exactly the commands of the
    -- experiment and a stop signal were appended, once the consumer has stopped, executing the
    -- commands it executed, in a process that still has the blocks of the sensors and of the
    -- commands, does not fault and prints, in the order of the names, the two lines of a listed
    -- sensor of each name that is listed, and nothing else.
    pub reads-Reports :
        (r : Runner L) (smgr : Ptr (Manager J F H)) (l : Config) (names : List CString) (w : World)
        (outs : List (List Output)) (signal : ℕ)
        → NoOom w
        → mem smgr.addr w.live ≡ true
        → HoldsAll w l (items smgr.val.sensor_ht)
        → All (λ name. (length name == 0) ≡ false) names
        → length names ≤ length outs
        → (max : ℤ) {s : System (Ptr Command) L.Dl} → IsRunner is_stop L max s
        → total is_consumer s.threads ≤ 1
        → s.appended
          ≡ sent_commands (play (send_read_commands L J F H r smgr names w) (granted outs)).0
            ++ stop_signal signal ∷ []
        → (xs ys : List (Thread (Ptr Command))) → s.threads ≡ xs ++ stopped ∷ ys
        → (w' : World) → HoldsAll w' l (items smgr.val.sensor_ht)
        → All (IsLiveCommand w') s.executed
        → (o : List Output) × (run_commands s.executed w'
            ≡ some (tt, record w' { out = w'.out ++ o }))
          × Reports l names o
    reads-Reports r smgr l names w outs signal m self h n e max {s} is one app xs ys at w' h' live =
        let rs = (play (send_read_commands L J F H r smgr names w) (granted outs)).0 in
        let sent =
          send_read_commands-All J F H smgr L r names n w (HoldsAll-IsReady J F H w l smgr m self h)
            outs e in
        let all : s.executed ≡ sent_commands rs =
          (stopped-all_executed is_stop L max is one (sent_commands rs) (stop_signal signal) app
            (SendsAll-AllRun smgr names rs sent) refl xs ys at).0 in
        rw all (
          run-Reports J F H w' l smgr names rs w'.out h' sent
            (subst (All (IsLiveCommand w')) all live))
