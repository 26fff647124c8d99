-- ===== src/SensorCmds/ReadTests.antt =====
-- The second experiment with a manager of two sensors and two names, of which one is listed.
use ie0417_dev_b.Base.{
  subst, ap, Option, some, pos, ◌++◌, ℕ, ◌≤◌, ◌≡◌, refl, true, some, List, [], ◌∷◌, ◌++◌, pos,
  CString, bytes, arith, replicate,
}
use ie0417_dev_b.Process.{World, Ptr, Output, mem, level_reading, read_command}
use ie0417_dev_b.SensorCommands.Types.{Command, CmdData, ssr_read_cmd_data}
use ie0417_dev_b.Process.{level_reading, read_command}
use ie0417_dev_b.SensorCommands.Command.{ssr_read_cmd_exec}
use ie0417_dev_b.SensorCommands.Sensor.{sensor_read}
use ie0417_dev_b.SensorCommands.CommandQueue.{InitAnswers, cmd_queue_init, all_up}
use ie0417_dev_b.SensorCommands.CommandQueue.Init.{fresh}
use ie0417_dev_b.SensorCommands.CommandRunner.{stopped, idle, thread_step, appends, executes}
use ie0417_dev_b.SensorCommands.CommandRunner.Api.{is_stop}
use ie0417_dev_b.SensorCommands.CommandRunner.Schedules.{
  L, Run, turn, turns, calls, initial, starts,
}
use ie0417_dev_b.SensorCommands.CommandRunner.Weights.{total}
use ie0417_dev_b.SensorCommands.CommandRunner.Hands.{is_consumer}
use ie0417_dev_b.SensorCommands.CommandRunner.Safety.{IsRunner}
use ie0417_dev_b.SensorCommands.Manager.{
  Manager, sensor_manager_sensor_get, sensor_manager_read_cmd_create,
}
use ie0417_dev_b.SensorCommands.Manager.Sample.{J, F, H, config, document, listed, world}
use ie0417_dev_b.SensorCommands.Manager.Load.{lev, added, entries_of, sensor_of}
use ie0417_dev_b.SensorCommands.Manager.Create.{prepared, manager}
use ie0417_dev_b.SensorCommands.Manager.ReadCommand.{read_cmd}
use ie0417_dev_b.SensorCommands.Manager.AnyMemory.{HoldsAll}
use ie0417_dev_b.SensorCmds.{Runner, send_read_commands, after_create}
use ie0417_dev_b.SensorCmds.Basic.{stop_signal}
use ie0417_dev_b.SensorCmds.Reports.{run_commands, Reports}
use ie0417_dev_b.SensorCmds.Talk.{play}
use ie0417_dev_b.SensorCmds.Prints.{reads-Reports}

abbrev smgr : Ptr (Manager J F H)
smgr = manager J F H 1 config document (entries_of 6 listed)

abbrev loaded : World
loaded = added (prepared world) listed

abbrev names : List CString
names = bytes "level-eie301" ∷ bytes "temp-eie999" ∷ []

holds : HoldsAll loaded listed (entries_of 6 listed)
holds = (
  record { block = 6; key = refl; sensor = refl; live_entry = refl; live = (refl, refl) },
  (record { block = 9; key = refl; sensor = refl; live_entry = refl; live = (refl, refl) }, tt),
)

-- The read command of the sensor "level-eie301".
abbrev command : Ptr Command
command = read_cmd 12 (sensor_of lev 9 (bytes "level-eie301"))

abbrev answers : InitAnswers
answers = record { empty_ret = pos 0; occupied_ret = pos 0; mutex_ret = pos 0 }

abbrev a_runner : Runner L
a_runner = record { addr = 20; val = record { queue = fresh L 100; primitives = all_up } }

abbrev finished : Run 100
finished =
    turns
      (starts (
        turns (calls (turns (calls initial 0 command) (replicate 8 0)) 0 (stop_signal 21))
          (replicate 8 0)))
      (replicate 20 0)

test_finished :
    (finished.last.threads ≡ stopped ∷ idle ∷ idle ∷ []) × (finished.last.executed ≡ command ∷ [])
unfolding turns turn calls starts thread_step executes
test_finished = (refl, refl)

runner : IsRunner is_stop L (pos 100) finished.last
unfolding cmd_queue_init
runner = record {
  answers = answers;
  made = fresh L 100;
  up = all_up;
  init = refl;
  clients = 2;
  reach = finished.reach;
}

one_consumer : total is_consumer finished.last.threads ≤ 1
unfolding turns turn calls starts thread_step total
one_consumer = omega arith

-- The process with the blocks of the command.
abbrev executing : World
executing = record loaded {
  next = 14;
  live = 13 ∷ 12 ∷ 11 ∷ 10 ∷ 9 ∷ 8 ∷ 7 ∷ 6 ∷ 5 ∷ 4 ∷ 3 ∷ 2 ∷ 1 ∷ [];
}

executing_holds : HoldsAll executing listed (entries_of 6 listed)
executing_holds = (
  record { block = 6; key = refl; sensor = refl; live_entry = refl; live = (refl, refl) },
  (record { block = 9; key = refl; sensor = refl; live_entry = refl; live = (refl, refl) }, tt),
)

abbrev data_addr : Option CmdData → ℕ
data_addr (some (ssr_read_cmd_data d)) = d.addr
data_addr _ = 0

test_prints :
    run_commands finished.last.executed executing
    ≡ some (
      tt,
      record executing {
        out =
            executing.out
            ++ level_reading (bytes "level-eie301")
              ∷ read_command (bytes "level") (bytes "level-eie301") (pos 100) (bytes "meters")
              ∷ [];
      },
    )
unfolding turns turn calls starts thread_step executes run_commands ssr_read_cmd_exec sensor_read
test_prints = refl

reads-Reports_example :
    (o : List Output) × (run_commands finished.last.executed executing
      ≡ some (tt, record executing { out = executing.out ++ o }))
    × Reports listed names o
unfolding turns turn calls starts thread_step executes appends send_read_commands play
    sensor_manager_read_cmd_create sensor_manager_sensor_get after_create
reads-Reports_example =
    reads-Reports J F H L a_runner smgr listed names loaded ([] ∷ [] ∷ []) 21 (λ n. refl) refl holds
      (refl, (refl, tt)) (omega arith) (pos 100) runner one_consumer refl [] (idle ∷ idle ∷ []) refl
      executing executing_holds
      ((refl, λ d e. subst (λ a. mem a executing.live ≡ true) (ap data_addr e) refl), tt)
