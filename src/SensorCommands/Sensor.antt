-- ===== src/SensorCommands/Sensor.antt =====
-- sensor.c, level.c and temp.c: a sensor, its two implementations, and its reading.
pub mod Lifecycle
use ie0417_dev_b.Base.{Option, none, some, ℤ, pos, bytes, CString}
use ie0417_dev_b.Process.{
  M, Ptr, pure, fault, ◌>>=◌, ◌>>◌, if_null, malloc, free, deref, load, str, print, level_reading,
  temp_reading,
}
use ie0417_dev_b.SensorCommands.Types.{
  SensorInfo, SensorOps, ReadFn, level_sensor_read, temp_sensor_read, Priv, level_state, temp_state,
  Sensor, LevelSensorState, TempSensorState,
}

unfoldable pub sensor_create : SensorInfo → Option SensorOps → Option Priv → M (Option (Ptr Sensor))
unfolding malloc
sensor_create info ops priv = do
  p ← malloc
  if_null p (pure none)
      λ a. pure (some (record { addr = a; val = record { info = info; ops = ops; priv = priv } }))

unfoldable pub level_read : SensorInfo → Option Priv → M ℤ
unfolding str print deref
level_read info (some (level_state s)) = do
  name ← str info.name
  print (level_reading name)
  state ← deref s
  pure state.value
level_read info _ = fault

unfoldable pub temp_read : SensorInfo → Option Priv → M ℤ
unfolding str print deref
temp_read info (some (temp_state s)) = do
  name ← str info.name
  print (temp_reading name)
  state ← deref s
  pure state.value
temp_read info _ = fault

-- The call through `ops->read`.
abbrev pub call_read : ReadFn → SensorInfo → Option Priv → M ℤ
call_read level_sensor_read = level_read
call_read temp_sensor_read = temp_read

abbrev pub level_sensor_ops : SensorOps
level_sensor_ops = record { read = some level_sensor_read }

abbrev pub temp_sensor_ops : SensorOps
temp_sensor_ops = record { read = some temp_sensor_read }

-- A reading is a `double` that was an `int`, so the integer stands for it.
unfoldable pub sensor_read : Ptr Sensor → M ℤ
unfolding deref level_read temp_read
sensor_read p = do
  ssr ← deref p
  if_null ssr.ops (pure (pos 0))
      λ ops. if_null ops.read (pure (pos 0)) λ read. call_read read ssr.info ssr.priv

unfoldable pub sensor_destroy : Ptr Sensor → M (Unit {0})
unfolding free
sensor_destroy p = free p.addr

unfoldable pub level_sensor_create : Option CString → M (Option (Ptr Sensor))
unfolding malloc sensor_create
level_sensor_create name = do
  p ← malloc
  if_null p (pure none) λ a.
      sensor_create
        (record { name = name; type = some (bytes "level"); unit = some (bytes "meters") })
        (some level_sensor_ops)
        (some (level_state (record { addr = a; val = record { value = pos 100 } })))

unfoldable pub temp_sensor_create : Option CString → M (Option (Ptr Sensor))
unfolding malloc sensor_create
temp_sensor_create name = do
  p ← malloc
  if_null p (pure none) λ a.
      sensor_create
        (record { name = name; type = some (bytes "temperature"); unit = some (bytes "celsius") })
        (some temp_sensor_ops)
        (some (temp_state (record { addr = a; val = record { value = pos 42 } })))
