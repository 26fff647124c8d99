-- ===== src/DeviceServer/Command.antt =====
-- src/lab3/src/command.c: the commands of the device server.
use ie0417_dev_b.Base.{ℕ, Option, none, some, CString, bytes}
use ie0417_dev_b.Process.{M, Ptr, pure, fault, ◌>>=◌, ◌>>◌, if_null, malloc, free, deref}

-- What the commands use of cJSON. `print` is NULL where it finds no memory.
pub record CjsonText : Type 1 where
  pub Json : Type 0
  pub create_object : Json
  pub create_string : CString → Json
  pub add_item_to_object : Json → CString → Json → Json
  pub parse : CString → Option Json
  pub print : Json → Option CString

-- The functions that an `execute` field points to.
pub data CommandFn : Type 0 where
  exec_func_msg_fn exec_func_pipo_fn : CommandFn

-- `priv` points to a string of the program.
pub record CommandInfo : Type 0 where
  pub name : CString
  pub priv : Option CString
  pub execute : Option CommandFn

-- What `*resp_msg` points to: the result of `cJSON_Print`, or the block that was there before.
pub data Response : Type 0 where
  printed : Option CString → Response
  block : Option ℕ → Response

unfoldable pub command_create :
    CString → Option CString → Option CommandFn → M (Option (Ptr CommandInfo))
unfolding malloc free
command_create name priv execute = do
  p ← malloc
  if_null p (pure none) λ a.
      if_null execute (do free a; pure none)
        λ f.
          pure (
            some (record { addr = a; val = record { name = name; priv = priv; execute = some f } }))

-- `free(NULL)` does nothing.
unfoldable pub command_destroy : Option (Ptr CommandInfo) → M (Unit {0})
unfolding free
command_destroy cmd = if_null cmd (pure tt) λ p. free p.addr

abbrev pub message : CString
message = bytes "message"

abbrev pub ping_pong : CString
ping_pong = bytes "ping_pong"

unfoldable pub message_command_create : Option CString → M (Option (Ptr CommandInfo))
unfolding command_create
message_command_create priv = command_create message priv (some exec_func_msg_fn)

unfoldable pub ping_pong_command_create : Option CString → M (Option (Ptr CommandInfo))
unfolding command_create
ping_pong_command_create priv = command_create ping_pong priv (some exec_func_pipo_fn)

module _ (J : CjsonText) where
  open J use {create_object, create_string, add_item_to_object, parse, print}

  unfoldable pub exec_func_msg : CString → Option ℕ → Response
  exec_func_msg req_msg resp_msg =
      let message = create_string (bytes "Esto fue un mensaje") in
      printed (print (add_item_to_object create_object (bytes "message") message))

  unfoldable pub exec_func_pipo : CString → Option ℕ → Response
  exec_func_pipo req_msg resp_msg = elim (parse req_msg) [
    | none ↦ block resp_msg
    | some data' ↦ printed (print data')
  ]

  -- The call through `cmd->execute`; a call through NULL is a fault.
  abbrev pub call_execute : Option CommandFn → CString → Option ℕ → M Response
  call_execute none req_msg resp_msg = fault
  call_execute (some exec_func_msg_fn) req_msg resp_msg = pure (exec_func_msg req_msg resp_msg)
  call_execute (some exec_func_pipo_fn) req_msg resp_msg = pure (exec_func_pipo req_msg resp_msg)

  unfoldable pub command_execute : Ptr CommandInfo → CString → Option ℕ → M Response
  unfolding deref exec_func_msg exec_func_pipo
  command_execute p req_msg resp_msg = do cmd ← deref p; call_execute cmd.execute req_msg resp_msg
