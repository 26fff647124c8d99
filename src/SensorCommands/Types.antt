-- ===== src/SensorCommands/Types.antt =====
-- The structures of sensor.h and command.h, and those that their `void *` fields point to.
use ie0417_dev_b.Base.{Option, List, CString, ℕ, ℤ}
use ie0417_dev_b.Process.{Ptr}

-- A `const char *` that may be NULL.
pub record SensorInfo : Type 0 where
  pub name : Option CString
  pub type : Option CString
  pub unit : Option CString

-- The functions that a `read` field points to.
pub data ReadFn : Type 0 where
  level_sensor_read temp_sensor_read : ReadFn

pub record SensorOps : Type 0 where
  pub read : Option ReadFn

pub record LevelSensorState : Type 0 where
  pub value : ℤ

pub record TempSensorState : Type 0 where
  pub value : ℤ

-- What the `priv` field of a sensor points to.
pub data Priv : Type 0 where
  level_state : Ptr LevelSensorState → Priv
  temp_state : Ptr TempSensorState → Priv

pub record Sensor : Type 0 where
  pub info : SensorInfo
  pub ops : Option SensorOps
  pub priv : Option Priv

-- The functions that an `execute` field points to.
pub data ExecFn : Type 0 where
  msg_cmd_exec_fn ssr_read_cmd_exec_fn : ExecFn

-- `msg` lists the bytes of the array.
pub record MsgCmdData : Type 0 where
  pub msg : List ℕ

pub record SsrReadCmdData : Type 0 where
  pub ssr : Ptr Sensor

-- What the `data` field of a command points to.
pub data CmdData : Type 0 where
  msg_cmd_data : Ptr MsgCmdData → CmdData
  ssr_read_cmd_data : Ptr SsrReadCmdData → CmdData

-- `priv` is the field `data`.
pub record Command : Type 0 where
  pub priv : Option CmdData
  pub execute : Option ExecFn
