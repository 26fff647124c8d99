-- ===== src/SensorCommands/Command/Lifecycle.antt =====
-- command.c: what creating, executing and destroying a command does to memory and output.
use ie0417_dev_b.Base.{
  ℕ, zero, suc, ◌+◌, ◌≡◌, ◌≢◌, ◌==◌, ltb, if◌then◌else◌, false, Option, none, some, List, [], ◌∷◌,
  ◌++◌, pos, CString, arith, length, take, All,
}
use ie0417_dev_b.Process.{World, Ptr, Output, ◌>>=◌, text}
use ie0417_dev_b.SensorCommands.Types.{Command, CmdData, ExecFn, msg_cmd_data, msg_cmd_exec_fn}
use ie0417_dev_b.SensorCommands.Command.{
  command_create, command_execute, command_destroy, msg_command_create, msg_cmd_exec, strncpy,
  c_string, msg_cmd_max_size,
}

-- The blocks allocated after a run that did not fault.
abbrev pub live_after : {A : Type 0} → Option (A × World) → Option (List ℕ)
live_after none = none
live_after (some (a, w)) = some w.live

-- `command_create` followed by `command_destroy` leaves the allocated blocks as they were, also
-- where the creation fails.
pub create_destroy :
    (d : Option CmdData) (f : Option ExecFn) (w : World)
    → live_after ((do c ← command_create d f; command_destroy c) w) ≡ some w.live
unfolding command_create command_destroy
create_destroy d f w = ground arith

-- The string that the array holds after the copy.
pub c_string-strncpy :
    (msg : CString) (n j : ℕ)
    → All (λ c. c ≢ 0) msg
    → c_string (strncpy msg n ++ j ∷ [])
      ≡ (if ltb (length msg) n then some msg else if j == 0 then some (take n msg) else none)
unfolding c_string strncpy
c_string-strncpy [] zero j h = ground arith
c_string-strncpy (c ∷ msg) zero j h = ground arith
c_string-strncpy [] (suc n) j h = ground arith
c_string-strncpy (c ∷ msg) (suc n) j h = ground (arith, c_string-strncpy msg n j h.1)

-- `w` after two allocations and one line of output.
abbrev pub printed : World → Output → World
printed w o = record w {
  next = w.next + 1 + 1;
  live = (w.next + 1) ∷ w.next ∷ w.live;
  out = w.out ++ o ∷ [];
}

-- The message command that `msg_command_create` builds from blocks `a` and `b`.
abbrev pub msg_command : World → CString → Ptr Command
msg_command w msg = record {
  addr = w.next + 1;
  val = record {
    priv = some (
        msg_cmd_data (record {
          addr = w.next;
          val = record {
            msg = strncpy msg msg_cmd_max_size ++ w.junk w.next msg_cmd_max_size ∷ [];
          };
        }));
    execute = some msg_cmd_exec_fn;
  };
}

abbrev pub allocated_two : World → World
allocated_two w = record w { next = w.next + 1 + 1; live = (w.next + 1) ∷ w.next ∷ w.live }

pub msg_command_create-ok :
    (msg : CString) (w : World)
    → w.oom w.next ≡ false
    → w.oom (w.next + 1) ≡ false
    → msg_command_create msg w ≡ some (some (msg_command w msg), allocated_two w)
unfolding msg_command_create
msg_command_create-ok msg w p q = ground arith

command_execute-msg :
    (msg : CString) (w : World)
    → command_execute (some (msg_command w msg)) (allocated_two w)
      ≡ elim (c_string (strncpy msg msg_cmd_max_size ++ w.junk w.next msg_cmd_max_size ∷ [])) [
        | none ↦ none
        | some s ↦ some (pos 0, printed w (text s))
      ]
unfolding command_execute msg_cmd_exec
command_execute-msg msg w = ground arith

-- With memory for two allocations, a message command prints its message when it is executed if the
-- message has less than 256 bytes; a longer one is cut to 256 bytes where the last byte of the new
-- block happens to be 0, and reads past the block where it is not.
pub msg_command-prints :
    (msg : CString) (w : World)
    → All (λ c. c ≢ 0) msg
    → w.oom w.next ≡ false
    → w.oom (w.next + 1) ≡ false
    → (do c ← msg_command_create msg; command_execute c) w ≡ (
        if ltb (length msg) msg_cmd_max_size
        then some (pos 0, printed w (text msg))
        else if w.junk w.next msg_cmd_max_size == 0
        then some (pos 0, printed w (text (take msg_cmd_max_size msg)))
        else none)
msg_command-prints msg w h p q =
    rw
      (
        msg_command_create-ok msg w p q,
        command_execute-msg msg w,
        c_string-strncpy msg msg_cmd_max_size (w.junk w.next msg_cmd_max_size) h,
      )
      (ground arith)

-- Where its data is granted memory, a message command that is created and destroyed leaves the
-- block of its data allocated.
pub msg_command-leak :
    (msg : CString) (w : World)
    → w.oom w.next ≡ false
    → live_after ((do c ← msg_command_create msg; command_destroy c) w) ≡ some (w.next ∷ w.live)
unfolding msg_command_create command_destroy
msg_command-leak msg w p = ground arith
