-- ===== src/SensorCommands/Manager/ReadCommand.antt =====
-- manager.c: the command that reads a sensor, from its creation to its output.
use ie0417_dev_b.Base.{
  ℕ, ◌+◌, ◌≡◌, refl, ap, ◌∙◌, false, Option, none, some, List, [], ◌∷◌, ◌++◌, ℤ, pos, negsuc,
  CString, bytes, arith, append_assoc,
}
use ie0417_dev_b.Process.{World, Ptr, Output, level_reading, temp_reading, read_command, ◌>>=◌}
use ie0417_dev_b.Uthash.{Uthash}
use ie0417_dev_b.Cjson.{Cjson}
use ie0417_dev_b.SensorCommands.Types.{Sensor, Command, ssr_read_cmd_data, ssr_read_cmd_exec_fn}
use ie0417_dev_b.SensorCommands.Command.{command_execute, ssr_read_cmd_exec}
use ie0417_dev_b.SensorCommands.Sensor.Lifecycle.{sensor_read-level, sensor_read-temp}
use ie0417_dev_b.SensorCommands.Factory.{SensorConstructor}
use ie0417_dev_b.SensorCommands.Manager.{
  SensorHashEntry, Manager, sensor_manager_sensor_get, sensor_manager_read_cmd_create,
}
use ie0417_dev_b.SensorCommands.Manager.Load.{Kind, temp, lev, type_of, sensor_of, Config, NoOom}
use ie0417_dev_b.SensorCommands.Manager.Lookup.{
  names, Listed, LiveAt, AllLive, IsLoaded, Lookup, hit, miss, sensor_get-Lookup,
}

-- What the implementation of a sensor prints and returns, and what the command prints of it.
abbrev pub reading : Kind → CString → Output
reading temp = temp_reading
reading lev = level_reading

abbrev pub value_of : Kind → ℤ
value_of temp = pos 42
value_of lev = pos 100

abbrev pub unit_of : Kind → CString
unit_of temp = bytes "celsius"
unit_of lev = bytes "meters"

abbrev pub report : Kind → CString → List Output
report k name = reading k name ∷ read_command (type_of k) name (value_of k) (unit_of k) ∷ []

-- The read command of a sensor, in blocks `a` and `a + 1`.
abbrev pub read_cmd : ℕ → Ptr Sensor → Ptr Command
read_cmd a s = record {
  addr = a + 1;
  val = record {
    priv = some (ssr_read_cmd_data (record { addr = a; val = record { ssr = s } }));
    execute = some ssr_read_cmd_exec_fn;
  };
}

-- The world after one allocation, and after two.
abbrev pub with_one : World → World
with_one w = record w { next = w.next + 1; live = w.next ∷ w.live }

abbrev pub with_two : World → World
with_two w = record w { next = w.next + 1 + 1; live = (w.next + 1) ∷ w.next ∷ w.live }

execute-read :
    (w : World) (k : Kind) (a : ℕ) (name : CString)
    → LiveAt (with_one w) a
    → command_execute (some (read_cmd w.next (sensor_of k a name))) (with_two w)
      ≡ some (
        pos 0,
        record w {
          next = w.next + 1 + 1;
          live = (w.next + 1) ∷ w.next ∷ w.live;
          out =
              (w.out ++ reading k name ∷ [])
              ++ read_command (type_of k) name (value_of k) (unit_of k) ∷ [];
        },
      )
unfolding command_execute ssr_read_cmd_exec
execute-read w temp a name l =
    ground (arith, sensor_read-temp (with_two w) a name (ground arith, ground arith))
execute-read w lev a name l =
    ground (arith, sensor_read-level (with_two w) a name (ground arith, ground arith))

execute-none : (w : World) → command_execute none w ≡ some (negsuc 0, w)
unfolding command_execute
execute-none w = refl

AllLive-grow : (w : World) (n : ℕ) (l : Config) → AllLive w n l → AllLive (with_one w) n l
AllLive-grow w n [] a = tt
AllLive-grow w n (x ∷ l) a =
    (ground arith, (ground arith, ground arith), AllLive-grow w (n + 1 + 1 + 1) l a.2)

module _ (J : Cjson) (F : Uthash SensorConstructor) (H : Uthash SensorHashEntry) where
  module _ (w : World) (p : Ptr (Manager J F H)) (key : CString) where
    create-found :
        (s : Ptr Sensor)
        → w.oom w.next ≡ false
        → w.oom (w.next + 1) ≡ false
        → sensor_manager_sensor_get J F H p (some key) (with_one w) ≡ some (some s, with_one w)
        → sensor_manager_read_cmd_create J F H p (some key) w
          ≡ some (some (read_cmd w.next s), with_two w)
    unfolding sensor_manager_read_cmd_create
    create-found s m m' get = rw (m, get) (ground arith)

    create-missing :
        w.oom w.next ≡ false
        → sensor_manager_sensor_get J F H p (some key) (with_one w) ≡ some (none, with_one w)
        → sensor_manager_read_cmd_create J F H p (some key) w ≡ some (none, with_one w)
    unfolding sensor_manager_read_cmd_create
    create-missing m get = rw (m, get) refl

  -- The report of a listed sensor of the name, after the output so far; or, where the name is not
  -- listed, no output, and the block that `sensor_manager_read_cmd_create` does not free.
  pub data Answered (w : World) (key : CString) (l : Config) : Option (ℤ × World) → Type 0 where
    reported :
        (k : Kind) {w' : World}
        → Listed k key l
        → w'.out ≡ w.out ++ report k key
        → Answered w key l (some (pos 0, w'))
    unknown : names key l ≡ false → Answered w key l (some (negsuc 0, with_one w))

  -- In a manager that holds the sensors of a configuration, with memory for every allocation,
  -- creating the read command of a name and executing it returns 0 and prints the two lines of a
  -- listed sensor of that name; for a name that is not listed the result is -1, nothing is printed,
  -- and the block of the command data stays allocated.
  pub read_cmd-Answered :
      (w : World) (p : Ptr (Manager J F H)) (n : ℕ) (l : Config)
      → IsLoaded J F H w p n l
      → NoOom w
      → (key : CString)
      → Answered w key l
          ((do c ← sensor_manager_read_cmd_create J F H p (some key); command_execute c) w)
  read_cmd-Answered w p n l m mem_ok key =
      let loaded : IsLoaded J F H (with_one w) p n l = record {
        live_self = ground (arith, m.live_self);
        table = m.table;
        live = AllLive-grow w n l m.live;
      } in
      let (o, run, found) = sensor_get-Lookup J F H (with_one w) p n l loaded key in go o run found
    where
      go :
          (o : Option (Ptr Sensor))
          → sensor_manager_sensor_get J F H p (some key) (with_one w) ≡ some (o, with_one w)
          → Lookup J F H (with_one w) key l o
          → Answered w key l
              ((do c ← sensor_manager_read_cmd_create J F H p (some key); command_execute c) w)
      go o run (miss is not_listed) =
          rw
            (
              create-missing w p key (mem_ok w.next) (run ∙ ap (λ x. some (x, with_one w)) is),
              execute-none (with_one w),
            )
            (unknown not_listed)
      go o run (hit k a is listed live yes_listed) =
          rw
            (
              create-found w p key (sensor_of k a key) (mem_ok w.next) (mem_ok (w.next + 1))
                  (run ∙ ap (λ x. some (x, with_one w)) is),
              execute-read w k a key live,
            )
            (reported k listed (append_assoc w.out (reading k key ∷ []) _))
