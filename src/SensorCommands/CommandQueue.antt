-- ===== src/SensorCommands/CommandQueue.antt =====
-- command_runner.c: the bounded queue of commands. A call of `cmd_queue_send` or `cmd_queue_recv`
-- is a sequence of atomic steps of its thread, so that threads can be interleaved.
pub mod Init
use ie0417_dev_b.Base.{
  ℕ, zero, suc, ◌+◌, ◌-◌, ◌≡◌, Bool, true, false, Option, none, some, List, ℤ, pos, negsuc,
  is_nonzero, leb, if◌then◌else◌,
}
use ie0417_dev_b.Process.{Ptr}
use ie0417_dev_b.Utlist.{Utlist}

-- SEM_VALUE_MAX of limits.h, ERANGE and ENOMEM of errno.h.
abbrev pub sem_value_max : ℕ
sem_value_max = 2147483647

abbrev pub erange : ℤ
erange = pos 34

abbrev pub enomem : ℤ
enomem = pos 12

-- `struct CmdQNode`; its `next` and `prev` belong to the list.
pub record CmdQNode (C : Type 0) : Type 0 where
  pub cmd : C

-- `struct CmdQueue`. A semaphore is its value; the mutex says whether it is locked.
pub record CmdQueue (Dl : Type 0) : Type 0 where
  pub head : Dl
  pub len : ℕ
  pub max_len : ℕ
  pub empty : ℕ
  pub occupied : ℕ
  pub lock : Bool

-- Which of the three primitives are initialised.
pub record Primitives : Type 0 where
  pub empty_up : Bool
  pub occupied_up : Bool
  pub lock_up : Bool

abbrev pub all_down : Primitives
all_down = record { empty_up = false; occupied_up = false; lock_up = false }

abbrev pub all_up : Primitives
all_up = record { empty_up = true; occupied_up = true; lock_up = true }

-- What the primitives answer: the two calls of `sem_init`, and `pthread_mutex_init`.
pub record InitAnswers : Type 0 where
  pub empty_ret : ℤ
  pub occupied_ret : ℤ
  pub mutex_ret : ℤ

-- What the primitives answer to a step: `malloc`, `pthread_mutex_lock` and `pthread_mutex_unlock`.
pub record Answers : Type 0 where
  pub node : Option ℕ
  pub lock_ret : ℤ
  pub unlock_ret : ℤ

-- An initialised default mutex reports no error.
pub record AreSound (ans : Answers) : Type 0 where
  pub lock_ok : ans.lock_ret ≡ pos 0
  pub unlock_ok : ans.unlock_ret ≡ pos 0

-- Where a thread stands in a call, with the locals that are live there.
pub data Call (C : Type 0) : Type 0 where
  send_malloc : C → Call C
  send_wait : Ptr (CmdQNode C) → Call C
  send_lock : Ptr (CmdQNode C) → Call C
  send_test : Ptr (CmdQNode C) → Call C
  send_full : Call C
  send_append : Ptr (CmdQNode C) → Call C
  send_unlock : Call C
  send_post : Call C
  sent : ℤ → Call C
  recv_wait : Call C
  recv_lock : Call C
  recv_pop : Call C
  recv_free : Ptr (CmdQNode C) → Call C
  recv_unlock : C → Call C
  recv_post : C → Call C
  received : C → Call C
  recv_failed : ℤ → Call C
  aborted : Call C

unfoldable pub cmd_queue_uninit : Primitives → Primitives
cmd_queue_uninit up = record up { occupied_up = false; empty_up = false; lock_up = false }

module _ {C : Type 0} (L : Utlist (Ptr (CmdQNode C))) where
  open L use {Dl, null, append, delete}

  -- `max_len` is positive and below SEM_VALUE_MAX where a queue is made.
  unfoldable pub cmd_queue_init : InitAnswers → ℤ → ℤ × Option (CmdQueue Dl) × Primitives
  cmd_queue_init ans (negsuc n) = (erange, none, all_down)
  cmd_queue_init ans (pos zero) = (erange, none, all_down)
  cmd_queue_init ans (pos (suc n)) =
      if leb sem_value_max (suc n)
      then (erange, none, all_down)
      else if is_nonzero ans.empty_ret
      then (ans.empty_ret, none, all_down)
      else let up = record all_down { empty_up = true } in
        if is_nonzero ans.occupied_ret
        then (ans.occupied_ret, none, record up { empty_up = false })
        else let up' = record up { occupied_up = true } in
          if is_nonzero ans.mutex_ret
          then (ans.mutex_ret, none, record up' { occupied_up = false; empty_up = false })
          else (
            pos 0,
            some (record {
              head = null;
              len = 0;
              max_len = suc n;
              empty = suc n;
              occupied = 0;
              lock = false;
            }),
            record up' { lock_up = true },
          )

  -- The next step of a thread in a call; `none` where it waits, or has left the call.
  unfoldable pub call_step : Answers → CmdQueue Dl → Call C → Option (CmdQueue Dl × Call C)
  call_step ans q (send_malloc c) = elim ans.node [
    | none ↦ some (q, sent enomem)
    | some a ↦ some (q, send_wait (record { addr = a; val = record { cmd = c } }))
  ]
  call_step ans q (send_wait n) = elim q.empty [
    | zero ↦ none
    | suc k ↦ some (record q { empty = k }, send_lock n)
  ]
  call_step ans q (send_lock n) =
      if is_nonzero ans.lock_ret
      then some (q, sent ans.lock_ret)
      else if q.lock
      then none
      else some (record q { lock = true }, send_test n)
  call_step ans q (send_test n) =
      if leb q.max_len q.len then some (q, send_full) else some (q, send_append n)
  call_step ans q send_full =
      some ((if is_nonzero ans.unlock_ret then q else record q { lock = false }), sent erange)
  call_step ans q (send_append n) =
      some (record q { head = append q.head n; len = q.len + 1 }, send_unlock)
  call_step ans q send_unlock =
      if is_nonzero ans.unlock_ret
      then some (q, sent ans.unlock_ret)
      else some (record q { lock = false }, send_post)
  call_step ans q send_post = some (record q { occupied = q.occupied + 1 }, sent (pos 0))
  call_step ans q recv_wait = elim q.occupied [
    | zero ↦ none
    | suc k ↦ some (record q { occupied = k }, recv_lock)
  ]
  call_step ans q recv_lock =
      if is_nonzero ans.lock_ret
      then some (q, recv_failed ans.lock_ret)
      else if q.lock
      then none
      else some (record q { lock = true }, recv_pop)
  call_step ans q recv_pop = elim (L.head q.head) [
    | none ↦ some (q, aborted)
    | some n ↦ some (record q { head = delete q.head n; len = q.len - 1 }, recv_free n)
  ]
  call_step ans q (recv_free n) = some (q, recv_unlock n.val.cmd)
  call_step ans q (recv_unlock c) =
      if is_nonzero ans.unlock_ret
      then some (q, recv_failed ans.unlock_ret)
      else some (record q { lock = false }, recv_post c)
  call_step ans q (recv_post c) = some (record q { empty = q.empty + 1 }, received c)
  call_step ans q (sent r) = none
  call_step ans q (received c) = none
  call_step ans q (recv_failed r) = none
  call_step ans q aborted = none
