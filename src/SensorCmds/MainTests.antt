-- ===== src/SensorCmds/MainTests.antt =====
-- The program on a process with memory, with the configuration file of the sample.
use ie0417_dev_b.Base.{
  ℕ, ◌+◌, ◌≡◌, refl, some, List, [], ◌∷◌, ◌++◌, pos, CString, bytes, arith, replicate,
  length-replicate,
}
use ie0417_dev_b.Process.{World, Output}
use ie0417_dev_b.Options.{path_max, all_config}
use ie0417_dev_b.SensorCommands.Command.Lifecycle.{msg_command}
use ie0417_dev_b.SensorCommands.CommandQueue.{InitAnswers, send_malloc}
use ie0417_dev_b.SensorCommands.CommandRunner.Schedules.{L}
use ie0417_dev_b.SensorCommands.Manager.Sample.{
  J, F, H, files, listed, world, has_memory, is_config,
}
use ie0417_dev_b.SensorCmds.{test_message, sensor_names, main}
use ie0417_dev_b.SensorCmds.Talk.{Request, create_thread, queue_send, join_thread, finished, play}
use ie0417_dev_b.SensorCmds.Basic.{IsGranted, granted, stop_signal, all_requests}
use ie0417_dev_b.SensorCmds.Experiment.{ReadsListed}
use ie0417_dev_b.SensorCmds.MainRun.{Outputs, main-runs}

abbrev answers : InitAnswers
answers = record { empty_ret = pos 0; occupied_ret = pos 0; mutex_ret = pos 0 }

abbrev are_granted : IsGranted answers
are_granted = record { empty_ok = refl; occupied_ok = refl; mutex_ok = refl }

abbrev cfg_name : CString
cfg_name = bytes "sensors_cfg.json"

abbrev nothing : List (List Output)
nothing = replicate 8 []

abbrev outputs : Outputs L J F H 9
outputs = record { started = []; sends = replicate 10 []; stopped = []; joined = []; ten = refl }

main-runs_example :
    (rs : List Request) × (w' : World) × (play
        (main L J F H
          (all_config (bytes "other.json" ∷ cfg_name ∷ []))
          (pos 0, bytes "1.0")
          (replicate (path_max + 1) 7)
          answers
          answers
          9
          files
          world)
        ((pos 0, [])
          ∷ ((granted (replicate 10 []) ++ (pos 0, []) ∷ (pos 0, []) ∷ []) ++ granted nothing))
      ≡ (
        all_requests L (msg_command (record world { next = 2 }) test_message) 9
            ++ create_thread ∷ (rs ++ queue_send (send_malloc (stop_signal 9)) ∷ join_thread ∷ []),
        finished (some (pos 0, w')),
      ))
    × ReadsListed listed sensor_names rs
main-runs_example =
    main-runs L J F H 9 (bytes "other.json" ∷ []) cfg_name (replicate (path_max + 1) 7)
      (bytes "1.0") answers answers files listed world outputs nothing
      (length-replicate {A = ℕ} (path_max + 1) 7) (ground arith) (omega arith) are_granted
      are_granted has_memory is_config (omega arith)
