-- ===== src/SensorCommands/Command.antt =====
-- command.c: commands, and the message command.
pub mod Lifecycle
use ie0417_dev_b.Base.{
  ℕ, zero, suc, ◌==◌, if◌then◌else◌, Option, none, some, List, [], ◌∷◌, ◌++◌, ℤ, pos, negsuc,
  CString,
}
use ie0417_dev_b.Process.{
  M, World, Ptr, pure, fault, ◌>>=◌, ◌>>◌, if_null, malloc, free, deref, str, print, text,
  read_command,
}
use ie0417_dev_b.SensorCommands.Types.{
  Sensor, ExecFn, msg_cmd_exec_fn, ssr_read_cmd_exec_fn, MsgCmdData, SsrReadCmdData, CmdData,
  msg_cmd_data, ssr_read_cmd_data, Command,
}
use ie0417_dev_b.SensorCommands.Sensor.{sensor_read}

abbrev pub msg_cmd_max_size : ℕ
msg_cmd_max_size = 256

unfoldable pub command_create : Option CmdData → Option ExecFn → M (Option (Ptr Command))
unfolding malloc free
command_create priv execute = do
  p ← malloc
  if_null p (pure none) λ a.
      if_null execute (do free a; pure none)
        λ f. pure (some (record { addr = a; val = record { priv = priv; execute = some f } }))

-- `strncpy(dst, src, n)`: the `n` bytes that it writes.
unfoldable pub strncpy : CString → ℕ → List ℕ
strncpy src zero = []
strncpy [] (suc n) = 0 ∷ strncpy [] n
strncpy (c ∷ src) (suc n) = c ∷ strncpy src n

-- The string that an array holds; `none` if no byte of it is zero, so that reading runs past its end.
unfoldable pub c_string : List ℕ → Option CString
c_string [] = none
c_string (c ∷ cs) =
    if c == 0 then some [] else elim (c_string cs) [ none ↦ none | some s ↦ some (c ∷ s) ]

-- The static function `msg_cmd_exec_fn`, on its `void *` argument.
unfoldable pub msg_cmd_exec : Option CmdData → M ℤ
unfolding deref str print
msg_cmd_exec (some (msg_cmd_data p)) = do
  d ← deref p
  s ← str (c_string d.msg)
  print (text s)
  pure (pos 0)
msg_cmd_exec _ = fault

-- The static function `ssr_read_cmd_exec_fn` of manager.c.
unfoldable pub ssr_read_cmd_exec : Option CmdData → M ℤ
unfolding deref str print
ssr_read_cmd_exec (some (ssr_read_cmd_data p)) = do
  d ← deref p
  val ← sensor_read d.ssr
  ssr ← deref d.ssr
  type ← str ssr.info.type
  name ← str ssr.info.name
  unit ← str ssr.info.unit
  print (read_command type name val unit)
  pure (pos 0)
ssr_read_cmd_exec _ = fault

-- The call through `cmd->execute`; a call through NULL is a fault.
abbrev pub call_execute : Option ExecFn → Option CmdData → M ℤ
call_execute none d = fault
call_execute (some msg_cmd_exec_fn) d = msg_cmd_exec d
call_execute (some ssr_read_cmd_exec_fn) d = ssr_read_cmd_exec d

unfoldable pub command_execute : Option (Ptr Command) → M ℤ
unfolding deref
command_execute cmd =
    if_null cmd (pure (negsuc 0)) λ p. do c ← deref p; call_execute c.execute c.priv

unfoldable pub command_destroy : Option (Ptr Command) → M ℤ
unfolding free
command_destroy cmd = if_null cmd (pure (negsuc 0)) λ p. do free p.addr; pure (pos 0)

-- The last byte of the array is not written: it is whatever the new block holds.
unfoldable pub msg_command_create : CString → M (Option (Ptr Command))
unfolding malloc command_create
msg_command_create msg w =
    (do
      p ← malloc
      if_null p (pure none) λ a.
          command_create
            (some (
              msg_cmd_data (record {
                addr = a;
                val = record {
                  msg = strncpy msg msg_cmd_max_size ++ w.junk a msg_cmd_max_size ∷ [];
                };
              })))
            (some msg_cmd_exec_fn))
      w
