-- ===== src/SensorCommands/Sensor/Lifecycle.antt =====
-- sensor.c, level.c and temp.c: what creating and reading a sensor does.
use ie0417_dev_b.Base.{
  ℕ, ◌+◌, ◌≡◌, true, false, Option, none, some, [], ◌∷◌, ◌++◌, pos, CString, arith, bytes,
}
use ie0417_dev_b.Process.{World, Ptr, mem, level_reading, temp_reading}
use ie0417_dev_b.SensorCommands.Types.{Sensor, level_state, temp_state}
use ie0417_dev_b.SensorCommands.Sensor.{
  sensor_read, level_sensor_create, temp_sensor_create, level_sensor_ops, temp_sensor_ops,
}

-- The sensor that a constructor builds: its state in block `a`, itself in block `a + 1`.
abbrev pub level_sensor : ℕ → Option CString → Ptr Sensor
level_sensor a name = record {
  addr = a + 1;
  val = record {
    info = record { name = name; type = some (bytes "level"); unit = some (bytes "meters") };
    ops = some level_sensor_ops;
    priv = some (level_state (record { addr = a; val = record { value = pos 100 } }));
  };
}

abbrev pub temp_sensor : ℕ → Option CString → Ptr Sensor
temp_sensor a name = record {
  addr = a + 1;
  val = record {
    info = record { name = name; type = some (bytes "temperature"); unit = some (bytes "celsius") };
    ops = some temp_sensor_ops;
    priv = some (temp_state (record { addr = a; val = record { value = pos 42 } }));
  };
}

-- The result of a constructor, by which allocations succeed.
abbrev pub constructed : World → Ptr Sensor → Option (Option (Ptr Sensor) × World)
constructed w s = elim (w.oom w.next) [
  | true ↦ some (none, record w { next = w.next + 1 })
  | false ↦ elim (w.oom (w.next + 1)) [
    | true ↦ some (none, record w { next = w.next + 1 + 1; live = w.next ∷ w.live })
    | false ↦
        some (some s, record w { next = w.next + 1 + 1; live = (w.next + 1) ∷ w.next ∷ w.live })
  ]
]

pub constructed-ok :
    (w : World) (s : Ptr Sensor)
    → w.oom w.next ≡ false
    → w.oom (w.next + 1) ≡ false
    → constructed w s
      ≡ some (some s, record w { next = w.next + 1 + 1; live = (w.next + 1) ∷ w.next ∷ w.live })
constructed-ok w s p q = ground arith

pub level_sensor_create-constructed :
    (name : Option CString) (w : World)
    → level_sensor_create name w ≡ constructed w (level_sensor w.next name)
unfolding level_sensor_create
level_sensor_create-constructed name w = ground arith

pub temp_sensor_create-constructed :
    (name : Option CString) (w : World)
    → temp_sensor_create name w ≡ constructed w (temp_sensor w.next name)
unfolding temp_sensor_create
temp_sensor_create-constructed name w = ground arith

-- Both blocks of a sensor are allocated.
abbrev pub IsLive : World → ℕ → Type 0
IsLive w a = (mem (a + 1) w.live ≡ true) × (mem a w.live ≡ true)

pub sensor_read-level :
    (w : World) (a : ℕ) (name : CString)
    → IsLive w a
    → sensor_read (level_sensor a (some name)) w
      ≡ some (pos 100, record w { out = w.out ++ level_reading name ∷ [] })
unfolding sensor_read
sensor_read-level w a name h = ground arith

pub sensor_read-temp :
    (w : World) (a : ℕ) (name : CString)
    → IsLive w a
    → sensor_read (temp_sensor a (some name)) w
      ≡ some (pos 42, record w { out = w.out ++ temp_reading name ∷ [] })
unfolding sensor_read
sensor_read-temp w a name h = ground arith

-- A sensor with no operation reads as 0 and prints nothing.
pub sensor_read-no_ops :
    (w : World) (p : Ptr Sensor)
    → mem p.addr w.live ≡ true
    → (p.val.ops ≡ none)
    → sensor_read p w ≡ some (pos 0, w)
unfolding sensor_read
sensor_read-no_ops w p h e = ground arith
