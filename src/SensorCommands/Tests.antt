-- ===== src/SensorCommands/Tests.antt =====
-- Commands, factories and sensors in a process that has memory, and in one that runs out of it.
use ie0417_dev_b.Base.{
  ◌≡◌, ◌≢◌, refl, ◌==◌, ltb, if◌then◌else◌, false, All, none, some, [], ◌∷◌, pos, CString, bytes,
  arith, length, take,
}
use ie0417_dev_b.Process.{World, ◌>>=◌, text}
use ie0417_dev_b.Uthash.{Uthash, association_list}
use ie0417_dev_b.SensorCommands.Command.{command_execute, msg_command_create, msg_cmd_max_size}
use ie0417_dev_b.SensorCommands.Command.Lifecycle.{printed, msg_command-prints}
use ie0417_dev_b.SensorCommands.Factory.{SensorConstructor, sensor_factory_sensor_create}
use ie0417_dev_b.SensorCommands.Factory.Laws.{
  IsFactory, factory, create_by_type, sensor_create-by_type,
}

-- A process in which nothing happened yet.
abbrev world : World
world = record { next = 1; live = []; oom = λ n. false; junk = λ n i. 0; out = []; open_files = 0 }

abbrev F : Uthash SensorConstructor
F = association_list SensorConstructor

-- The process with a factory in block 1 and its constructors in blocks 2 and 3.
abbrev with_factory : World
with_factory = record {
  next = 4;
  live = 3 ∷ 2 ∷ 1 ∷ [];
  oom = λ n. false;
  junk = λ n i. 0;
  out = [];
  open_files = 0;
}

abbrev hello : CString
hello = 72 ∷ 105 ∷ []

no_zero : All (λ c. c ≢ 0) hello
no_zero = (ground arith, (ground arith, tt))

msg_command-prints_example : (do c ← msg_command_create hello; command_execute c) world ≡ (
    if ltb (length hello) msg_cmd_max_size
    then some (pos 0, printed world (text hello))
    else if world.junk 1 msg_cmd_max_size == 0
    then some (pos 0, printed world (text (take msg_cmd_max_size hello)))
    else none)
msg_command-prints_example = msg_command-prints hello world no_zero refl refl

complete : IsFactory F with_factory (factory F 1) 2 3
complete = record { live_self = refl; live_temp = refl; live_level = refl; ctors = refl }

sensor_create-by_type_example :
    sensor_factory_sensor_create F (factory F 1) (some (bytes "level")) (some hello) with_factory
    ≡ create_by_type F (bytes "level") (some hello) with_factory
sensor_create-by_type_example =
    sensor_create-by_type F with_factory (factory F 1) 2 3 complete (bytes "level") (some hello)
