-- ===== src/SensorCommands/Manager/Tests.antt =====
-- The theorems on a manager, for the configuration of the sample, and an array whose last sensor has a
-- type that no constructor has.
use ie0417_dev_b.Base.{◌≡◌, refl, false, Option, none, some, [], ◌∷◌, bytes, arith, ◌==◌}
use ie0417_dev_b.Process.{World, Ptr, ◌>>=◌, sensor_added}
use ie0417_dev_b.Files.{junk_bytes}
use ie0417_dev_b.SensorCommands.Types.{Sensor}
use ie0417_dev_b.SensorCommands.Command.{command_execute, c_string}
use ie0417_dev_b.SensorCommands.Factory.{sensor_factory_create, sensor_factory_sensor_create}
use ie0417_dev_b.SensorCommands.Sensor.{temp_sensor_create}
use ie0417_dev_b.SensorCommands.Factory.Laws.{IsFactory, factory}
use ie0417_dev_b.SensorCommands.Manager.{
  Manager, minus_one, cjson_handle_create, sensor_ht_loop, sensor_ht_create, sensor_manager_create,
  sensor_manager_sensor_get, sensor_manager_read_cmd_create,
}
use ie0417_dev_b.SensorCommands.Manager.Load.{temp, Config, entries_of, added, Describes, NoOom}
use ie0417_dev_b.SensorCommands.Manager.Create.{prepared, manager, sensor_manager_create-load}
use ie0417_dev_b.SensorCommands.Manager.Created.{Created, sensor_manager_create-Created}
use ie0417_dev_b.SensorCommands.Manager.Destroy.{left_over, manager_destroy-create}
use ie0417_dev_b.Process.{pure, if_null}
use ie0417_dev_b.SensorCommands.Manager.{sensor_manager_destroy}
use ie0417_dev_b.SensorCommands.Manager.Lookup.{IsLoaded, Lookup, sensor_get-Lookup, added-AllLive}
use ie0417_dev_b.SensorCommands.Manager.ReadCommand.{Answered, read_cmd-Answered}
use ie0417_dev_b.SensorCommands.Manager.Errors.{IsBad, unknown_type, sensor_ht_loop-bad}
use ie0417_dev_b.SensorCommands.Manager.Sample.{
  Json, sensor, document, J, F, H, files, config, listed, world, has_memory, is_config, string,
  close, item,
}

sensor_manager_create-load_example :
    (t : H.Table) × (sensor_manager_create J F H files config world
      ≡ some (some (manager J F H 1 config document t), added (prepared world) listed))
    × (H.items t ≡ entries_of 6 listed)
sensor_manager_create-load_example =
    sensor_manager_create-load J F H world files config listed has_memory is_config

-- The process does not grant the block of the second constructor.
abbrev scarce : World
scarce = record world { oom = λ n. n == 5 }

sensor_manager_create-Created_example :
    Created J F H scarce listed (sensor_manager_create J F H files config scarce)
sensor_manager_create-Created_example =
    sensor_manager_create-Created J F H scarce files config listed is_config

-- The first sensor is made, and the second is not.
test_scarce :
    sensor_manager_create J F H files config scarce
    ≡ some (
      none,
      record scarce {
        next = 9;
        live = 8 ∷ 7 ∷ 6 ∷ 4 ∷ 3 ∷ 2 ∷ 1 ∷ [];
        out = sensor_added (bytes "temp-eie101") (bytes "temperature") ∷ [];
      },
    )
unfolding sensor_manager_create cjson_handle_create sensor_factory_create sensor_ht_create c_string
    junk_bytes sensor_factory_sensor_create temp_sensor_create
test_scarce = refl

abbrev loaded : World
loaded = added (prepared world) listed

abbrev smgr : Ptr (Manager J F H)
smgr = manager J F H 1 config document (entries_of 6 listed)

is_loaded : IsLoaded J F H loaded smgr 6 listed
is_loaded = record { live_self = refl; table = refl; live = added-AllLive (prepared world) listed }

loaded_memory : NoOom loaded
loaded_memory n = refl

sensor_get-Lookup_example :
    (o : Option (Ptr Sensor)) × (sensor_manager_sensor_get J F H smgr
        (some (bytes "level-eie301"))
        loaded
      ≡ some (o, loaded))
    × Lookup J F H loaded (bytes "level-eie301") listed o
sensor_get-Lookup_example =
    sensor_get-Lookup J F H loaded smgr 6 listed is_loaded (bytes "level-eie301")

read_cmd-Answered_example : Answered J F H loaded (bytes "temp-eie101") listed (
    (do
      c ← sensor_manager_read_cmd_create J F H smgr (some (bytes "temp-eie101"))
      command_execute c)
      loaded)
read_cmd-Answered_example =
    read_cmd-Answered J F H loaded smgr 6 listed is_loaded loaded_memory (bytes "temp-eie101")

-- An array whose last item has a type that no constructor has.
abbrev bad_sensors : Json
bad_sensors =
    item (sensor (bytes "temperature") (bytes "temp-eie101"))
      (item (sensor (bytes "humidity") (bytes "hum-eie101")) close)

abbrev before_bad : Config
before_bad = (temp, bytes "temp-eie101") ∷ []

bad_described : Describes J bad_sensors 0 before_bad
bad_described = (
  record {
    type_item = string (bytes "temperature");
    name_item = string (bytes "temp-eie101");
    has_type = refl;
    has_name = refl;
    type_string = refl;
    name_string = refl;
  },
  tt,
)

is_bad : IsBad J bad_sensors 1
is_bad =
    unknown_type (string (bytes "humidity")) (string (bytes "hum-eie101")) (bytes "humidity") refl
      refl refl refl refl

abbrev with_factory : World
with_factory = record {
  next = 4;
  live = 3 ∷ 2 ∷ 1 ∷ [];
  oom = λ n. false;
  junk = λ n i. 0;
  out = [];
  open_files = 0;
}

factory_memory : NoOom with_factory
factory_memory n = refl

complete : IsFactory F with_factory (factory F 1) 2 3
complete = record { live_self = refl; live_temp = refl; live_level = refl; ctors = refl }

sensor_ht_loop-bad_example :
    (t' : H.Table) × (sensor_ht_loop J F H (factory F 1) bad_sensors 2 0 [] with_factory
      ≡ some ((minus_one, t'), added with_factory before_bad))
    × (H.items t' ≡ entries_of 4 before_bad)
sensor_ht_loop-bad_example =
    sensor_ht_loop-bad J F H with_factory (factory F 1) 2 3 factory_memory complete bad_sensors 0
      before_bad bad_described is_bad 2 (ground arith) []

manager_destroy-create_example :
    (do
      m ← sensor_manager_create J F H files config
      if_null m (pure tt) (sensor_manager_destroy J F H))
      world
    ≡ some (tt, record (added (prepared world) listed) { live = left_over J F H world listed })
manager_destroy-create_example =
    manager_destroy-create J F H world files config listed has_memory is_config

test_left_over : left_over J F H world listed ≡ 10 ∷ 9 ∷ 7 ∷ 6 ∷ 2 ∷ []
test_left_over = refl
