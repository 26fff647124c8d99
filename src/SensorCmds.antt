-- ===== src/SensorCmds.antt =====
-- src/lab4/c/sensor_commands/tools/sensor_cmds/main.c: the program sensor_cmds.
pub mod Talk
pub mod Basic
pub mod AnyAnswer
mod Tests
pub mod Exit
pub mod Executes
pub mod Reads
pub mod AllReads
pub mod ReadLoop
pub mod Finish
pub mod Experiment
pub mod MainRun
pub mod Reports
pub mod Prints
mod ReadTests
mod MainTests
use ie0417_dev_b.Base.{
  ℕ, zero, suc, ◌+◌, Option, none, some, List, [], ◌∷◌, ◌++◌, ℤ, pos, negsuc, is_nonzero, CString,
  bytes, length, replicate, ◌==◌, if◌then◌else◌,
}
use ie0417_dev_b.Process.{M, Ptr, pure, fault, malloc, print, text}
use ie0417_dev_b.Process
use ie0417_dev_b.Utlist.{Utlist}
use ie0417_dev_b.Uthash.{Uthash}
use ie0417_dev_b.Cjson.{Cjson}
use ie0417_dev_b.Files.{Files}
use ie0417_dev_b.Options.{GetoptAnswer, minus_einval, parse_options}
use ie0417_dev_b.SensorCommands.Types.{Command}
use ie0417_dev_b.SensorCommands.Command.{msg_command_create, command_destroy, c_string}
use ie0417_dev_b.SensorCommands.Factory.{SensorConstructor}
use ie0417_dev_b.SensorCommands.CommandQueue.{CmdQNode, InitAnswers}
use ie0417_dev_b.SensorCommands.CommandRunner.Api.{
  CommandRunnerConfig, CommandRunner, Entry, returns, enters, command_runner_create,
  command_runner_start, command_runner_send, command_runner_stop, command_runner_stop_result,
  command_runner_destroy,
}
use ie0417_dev_b.SensorCommands.Manager.{
  SensorHashEntry, SensorManagerConfig, Manager, sensor_manager_create,
  sensor_manager_read_cmd_create, sensor_manager_destroy,
}
use ie0417_dev_b.SensorCmds.Talk.{
  Request, create_thread, queue_send, join_thread, T, return, lift, ask, ◌>>=◌, ◌>>◌, if_null,
}

abbrev pub minus_one : ℤ
minus_one = negsuc 0

-- A call that returns at once or sends a command.
abbrev pub run_entry : Entry → T ℤ
run_entry (returns z) = return z
run_entry (enters k) = ask (queue_send k)

abbrev pub test_message : CString
test_message = bytes "This is a command test message!\n"

abbrev pub runner_cfg : CommandRunnerConfig
runner_cfg = record { q_max_size = pos 100 }

module _ (L : Utlist (Ptr (CmdQNode (Ptr Command)))) where
  open L use {Dl}

  abbrev pub Runner : Type 0
  Runner = Ptr (CommandRunner Dl)

  -- The calls of the runner's functions, with the other threads' part in them.
  unfoldable pub call_start : Runner → T ℤ
  unfolding command_runner_start
  call_start r = do created ← ask create_thread; return (command_runner_start L (some r) created).0

  unfoldable pub call_send : Runner → Option (Ptr Command) → T ℤ
  unfolding command_runner_send
  call_send r cmd = run_entry (command_runner_send L (some r) cmd)

  unfoldable pub call_stop : Runner → (signal : ℕ) → T ℤ
  unfolding command_runner_stop command_runner_stop_result
  call_stop r signal = do
    sent ← run_entry (command_runner_stop L (some r) signal)
    if is_nonzero sent
        then return sent
        else (do joined ← ask join_thread; return (command_runner_stop_result L sent joined))

  -- The loop that sends one command `n` times, up to the first failure.
  unfoldable pub send_times : Runner → Ptr Command → ℕ → T ℤ
  unfolding call_send
  send_times r cmd zero = return (pos 0)
  send_times r cmd (suc n) = do
    ret ← call_send r (some cmd)
    let rest = send_times r cmd n
    if is_nonzero ret then return ret else rest

  -- From the end of the loop to the end of the function. `signal` is the block of the stop signal.
  unfoldable pub after_sends : Runner → Ptr Command → (signal : ℕ) → (sent : ℤ) → T ℤ
  unfolding call_stop command_destroy command_runner_destroy
  after_sends r msg_cmd signal sent = if is_nonzero sent then return minus_one else (do
    stopped ← call_stop r signal
    if is_nonzero stopped then return minus_one else (do
      lift (command_destroy (some msg_cmd))
      lift (command_runner_destroy L (some r))
      return (pos 0)))

  unfoldable pub basic_command_experiment : InitAnswers → (signal : ℕ) → T ℤ
  unfolding command_runner_create msg_command_create print call_start send_times after_sends
  basic_command_experiment ans signal = do
    runner ← lift (command_runner_create L ans (some runner_cfg))
    if_null runner (return minus_one) λ r. do
      cmd ← lift (msg_command_create test_message)
      if_null cmd (return minus_one) λ msg_cmd. do
        lift (print (text (bytes "++++++++++ CommandRunner experiment ++++++++++\n")))
        started ← call_start r
        if is_nonzero started
            then return minus_one
            else (do sent ← send_times r msg_cmd 10; after_sends r msg_cmd signal sent)

-- `cfg_filename` is an array, which `fopen` reads up to a zero byte, after the allocation of the
-- manager.
unfoldable pub create_manager :
    (J : Cjson) (F : Uthash SensorConstructor) (H : Uthash SensorHashEntry)
    → Files
    → (cfg_filename : List ℕ) → M (Option (Ptr (Manager J F H)))
unfolding c_string malloc sensor_manager_create
create_manager J F H files cfg_filename w = elim (c_string cfg_filename) [
  | none ↦ Process.and_then (malloc w) (λ p. Process.if_null p (pure none) (λ a. fault))
  | some f ↦ sensor_manager_create J F H files (record { cfg_filename = f }) w
]

abbrev pub sensor_names : List CString
sensor_names =
    bytes "level-eie202"
    ∷ bytes "temp-eie206"
    ∷ bytes "temp-eie204"
    ∷ bytes "level-eie301"
    ∷ bytes "temp-eie208"
    ∷ []

-- The second loop over `commands`.
unfoldable pub destroy_commands : List (Option (Ptr Command)) → T (Unit {0})
unfolding command_destroy
destroy_commands [] = return tt
destroy_commands (cmd ∷ l) = do lift (command_destroy cmd); destroy_commands l

-- The rest of a round of the first loop, with what follows it.
unfoldable pub after_create :
    (L : Utlist (Ptr (CmdQNode (Ptr Command))))
    → Runner L
    → (name : CString) → Option (Ptr Command)
    → (rest : T (Option (List (Option (Ptr Command))))) → T (Option (List (Option (Ptr Command))))
unfolding call_send print
after_create L r name none rest = do
  lift (
      print
        (text (bytes "Failed to get read command for sensor with name " ++ (name ++ bytes "\n"))))
  cmds ← rest
  if_null cmds (return none) λ cs. return (some (none ∷ cs))
after_create L r name (some c) rest = do
  ret ← call_send L r (some c)
  if is_nonzero ret
      then return none
      else (do cmds ← rest; if_null cmds (return none) λ cs. return (some (some c ∷ cs)))

module _ (L : Utlist (Ptr (CmdQNode (Ptr Command)))) (J : Cjson) (F : Uthash SensorConstructor)
    (H : Uthash SensorHashEntry) where
  -- The first loop, with the names that are left. The result is `commands`, or NULL where the function
  -- returns -1.
  unfoldable pub send_read_commands :
      Runner L → Ptr (Manager J F H) → List CString → T (Option (List (Option (Ptr Command))))
  unfolding sensor_manager_read_cmd_create after_create
  send_read_commands r smgr [] = return (some [])
  send_read_commands r smgr (name ∷ l) =
      let rest = send_read_commands r smgr l in
      if length name == 0 then return (some (replicate (suc (length l)) none)) else (do
        cmd ← lift (sensor_manager_read_cmd_create J F H smgr (some name))
        after_create L r name cmd rest)

  unfoldable pub sensor_command_experiment :
      InitAnswers → (signal : ℕ) → Files → (cfg_filename : List ℕ) → T ℤ
  unfolding command_runner_create print call_start create_manager send_read_commands call_stop
      destroy_commands sensor_manager_destroy command_runner_destroy
  sensor_command_experiment ans signal files cfg_filename = do
    runner ← lift (command_runner_create L ans (some runner_cfg))
    if_null runner (return minus_one) λ r. do
      lift (print (text (bytes "++++++++++ SensorManager experiment ++++++++++\n")))
      started ← call_start L r
      if is_nonzero started then return minus_one else (do
        manager ← lift (create_manager J F H files cfg_filename)
        if_null manager (return minus_one) λ smgr. do
          commands ← send_read_commands r smgr sensor_names
          if_null commands (return minus_one) λ cmds. do
            stopped ← call_stop L r signal
            if is_nonzero stopped then return minus_one else (do
              destroy_commands cmds
              lift (sensor_manager_destroy J F H smgr)
              lift (command_runner_destroy L (some r))
              return (pos 0)))

  -- `version` is what `sensor_commands_version` returns and writes, and `uninit` what `cfg_filename`
  -- holds at first.
  unfoldable pub main :
      List GetoptAnswer
      → (version : ℤ × CString) → (uninit : List ℕ) → (basic sensor : InitAnswers) → (signal : ℕ)
      → Files
      → T ℤ
  unfolding parse_options print basic_command_experiment sensor_command_experiment
  main options (ret, version) uninit basic sensor signal files =
      if_null (parse_options options uninit) (return minus_einval) λ cfg_filename.
        if is_nonzero ret then return ret else (do
          lift (print (text (bytes "lib version: " ++ (version ++ bytes "\n"))))
          basic_command_experiment L basic signal
          sensor_command_experiment sensor signal files cfg_filename
          return ret)
