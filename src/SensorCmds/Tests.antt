-- ===== src/SensorCmds/Tests.antt =====
-- The program on a process with memory, and its commands in a runner.
use ie0417_dev_b.Base.{
  ℕ, zero, suc, ◌+◌, ◌≤◌, ◌≡◌, refl, false, none, some, List, [], ◌∷◌, ◌++◌, pos, bytes, arith,
  length, replicate, length-replicate,
}
use ie0417_dev_b.Process.{World, Ptr, Output}
use ie0417_dev_b.Uthash.{Uthash, association_list}
use ie0417_dev_b.Cjson.{Cjson}
use ie0417_dev_b.Options.{path_max, all_config, parse_options, parse_options-last}
use ie0417_dev_b.SensorCommands.Types.{Command, Sensor}
use ie0417_dev_b.SensorCommands.Command.{c_string}
use ie0417_dev_b.SensorCommands.Command.Lifecycle.{msg_command}
use ie0417_dev_b.SensorCommands.CommandQueue.{InitAnswers, cmd_queue_init, all_up}
use ie0417_dev_b.SensorCommands.CommandQueue.Init.{fresh}
use ie0417_dev_b.SensorCommands.CommandRunner.{stopped, idle, thread_step, appends}
use ie0417_dev_b.SensorCommands.CommandRunner.Api.{is_stop}
use ie0417_dev_b.SensorCommands.CommandRunner.Schedules.{L, Run, turns, calls, initial, starts}
use ie0417_dev_b.SensorCommands.CommandRunner.Balance.{queued}
use ie0417_dev_b.SensorCommands.CommandRunner.Weights.{total}
use ie0417_dev_b.SensorCommands.CommandRunner.Hands.{is_consumer}
use ie0417_dev_b.SensorCommands.CommandRunner.Safety.{IsRunner}
use ie0417_dev_b.SensorCmds.{
  Runner, sensor_names, send_read_commands, test_message, basic_command_experiment,
}
use ie0417_dev_b.SensorCmds.Talk.{Reply, Request, play}
use ie0417_dev_b.SensorCmds.Basic.{IsGranted, stop_signal, all_requests}
use ie0417_dev_b.SensorCmds.Reads.{Sends, send_read_commands-Sends}
use ie0417_dev_b.SensorCmds.AnyAnswer.{basic-in_order}
use ie0417_dev_b.SensorCommands.Factory.{SensorConstructor}
use ie0417_dev_b.SensorCommands.Manager.{SensorHashEntry, Manager}
use ie0417_dev_b.SensorCmds.Executes.{basic-executes}

abbrev world : World
world = record { next = 1; live = []; oom = λ n. false; junk = λ n i. 0; out = []; open_files = 0 }

abbrev answers : InitAnswers
answers = record { empty_ret = pos 0; occupied_ret = pos 0; mutex_ret = pos 0 }

abbrev are_granted : IsGranted answers
are_granted = record { empty_ok = refl; occupied_ok = refl; mutex_ok = refl }

abbrev outs : List (List Output)
outs = replicate 10 []

abbrev message_command : Ptr Command
message_command = msg_command (record world { next = 2 }) test_message

sends : ℕ → Run 100
unfolding turns calls
sends zero = initial
sends (suc n) = turns (calls (sends n) 0 message_command) (replicate 8 0)

abbrev all_executed : Run 100
all_executed =
    turns (starts (turns (calls (sends 10) 0 (stop_signal 9)) (replicate 8 0))) (replicate 90 0)

test_all_executed : all_executed.last.threads ≡ stopped ∷ idle ∷ idle ∷ []
unfolding sends turns calls starts thread_step
test_all_executed = refl

runner : IsRunner is_stop L (pos 100) all_executed.last
unfolding cmd_queue_init
runner = record {
  answers = answers;
  made = fresh L 100;
  up = all_up;
  init = refl;
  clients = 2;
  reach = all_executed.reach;
}

one_consumer : total is_consumer all_executed.last.threads ≤ 1
unfolding sends turns calls starts thread_step total
one_consumer = omega arith

basic-executes_example :
    (all_executed.last.executed ≡ replicate 10 message_command)
    × (queued L all_executed.last.queue ≡ [])
unfolding sends turns calls starts thread_step appends play basic_command_experiment
basic-executes_example =
    basic-executes L answers 9 world [] [] [] outs are_granted (λ n. refl) refl (pos 100) runner
      one_consumer refl [] (idle ∷ idle ∷ []) refl

parse_options-last_example :
    (array : List ℕ) × (parse_options
        (all_config (bytes "a.json" ∷ bytes "b.json" ∷ []))
        (replicate (path_max + 1) 7)
      ≡ some array)
    × (length array ≡ path_max + 1)
    × (c_string array ≡ some (bytes "b.json"))
parse_options-last_example =
    parse_options-last (bytes "a.json" ∷ []) (bytes "b.json") (replicate (path_max + 1) 7)
      (length-replicate {A = ℕ} (path_max + 1) 7) (ground arith) (omega arith)

-- Every text is the same value, which is an item of itself.
abbrev J : Cjson
J = record {
  Json = Unit;
  parse = λ s. some (some tt);
  get_object_item = λ o k. o;
  get_array_size = λ j. 0;
  get_array_item = λ j i. none;
  get_string_value = λ j. none;
  get_object_item-null = λ key. refl;
}

abbrev F : Uthash SensorConstructor
F = association_list SensorConstructor

abbrev H : Uthash SensorHashEntry
H = association_list SensorHashEntry

abbrev level : Ptr Sensor
level = record {
  addr = 1;
  val = record {
    info = record { name = some (bytes "level-eie202"); type = none; unit = none };
    ops = none;
    priv = none;
  };
}

-- A manager with one of the sensors that the program reads.
abbrev manager : Ptr (Manager J F H)
manager = record {
  addr = 3;
  val = record {
    cfg = record { cfg_filename = bytes "sensors_cfg.json" };
    cfg_cjson = tt;
    sf = record { addr = 4; val = record { ctor_ht = [] } };
    sensor_ht = (bytes "level-eie202", record { addr = 2; val = record { ssr = level } }) ∷ [];
  };
}

abbrev holds_manager : World
holds_manager = record world { next = 5; live = 4 ∷ 3 ∷ 2 ∷ 1 ∷ [] }

abbrev a_runner : Runner L
a_runner = record { addr = 6; val = record { queue = fresh L 100; primitives = all_up } }

abbrev replies : List Reply
replies = (pos 0, []) ∷ []

send_read_commands-Sends_example :
    Sends J F H manager.val.sensor_ht sensor_names
      (play (send_read_commands L J F H a_runner manager sensor_names holds_manager) replies).0
send_read_commands-Sends_example =
    send_read_commands-Sends J F H L a_runner manager sensor_names holds_manager replies

-- The second send fails.
abbrev second_fails : List Reply
second_fails = (pos 0, []) ∷ (pos 0, []) ∷ (pos 12, []) ∷ []

basic-in_order_example :
    (cmd : Ptr Command) × (more : List Request) × ((play
          (basic_command_experiment L answers 9 world)
          second_fails).0
        ++ more
      ≡ all_requests L cmd 9)
basic-in_order_example = basic-in_order L 9 answers world second_fails
