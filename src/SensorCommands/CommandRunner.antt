-- ===== src/SensorCommands/CommandRunner.antt =====
-- command_runner.c: the consumer thread, and the threads of a process that share one runner,
-- interleaved in any order.
pub mod Places
pub mod Termination
pub mod Drain
pub mod Turns
pub mod Resting
mod Tests
pub mod Schedules
pub mod Api
pub mod Hands
pub mod Execution
pub mod Executor
pub mod View
pub mod Refinement
pub mod Order
pub mod Progress
pub mod Safety
pub mod Balance
pub mod Weights
pub mod Invariant
use ie0417_dev_b.Base.{
  ℕ, ◌+◌, ◌≡◌, Bool, true, false, Option, none, some, List, [], ◌∷◌, ◌++◌, ℤ, pos, negsuc,
  is_nonzero, if◌then◌else◌,
}
use ie0417_dev_b.Process.{Ptr}
use ie0417_dev_b.Utlist.{Utlist}
use ie0417_dev_b.SensorCommands.CommandQueue.{
  CmdQNode, CmdQueue, Primitives, all_down, InitAnswers, Answers, AreSound, Call, send_malloc,
  send_append, sent, recv_wait, recv_pop, received, recv_failed, cmd_queue_init, cmd_queue_uninit,
  call_step,
}

-- A thread of a client, which may be in a call of `cmd_queue_send`, or a consumer thread.
pub data Thread (C : Type 0) : Type 0 where
  idle : Thread C
  sending : Call C → Thread C
  consuming : Call C → Thread C
  executing : C → Thread C
  stopped : Thread C

-- The process as far as it concerns one runner. The last three fields are histories: the commands
-- in the order in which they were appended, taken out, and executed.
pub record System (C Dl : Type 0) : Type 0 where
  pub queue : CmdQueue Dl
  pub threads : List (Thread C)
  pub appended : List C
  pub taken : List C
  pub executed : List C

module _ {C : Type 0} where
  -- What the next step of a thread adds to a history. `takes` is given the head of the queue.
  unfoldable pub call_appends : Call C → List C
  call_appends (send_append n) = n.val.cmd ∷ []
  call_appends _ = []

  unfoldable pub appends : Thread C → List C
  unfolding call_appends
  appends (sending k) = call_appends k
  appends (consuming k) = call_appends k
  appends _ = []

  unfoldable pub call_takes : Call C → Option (Ptr (CmdQNode C)) → List C
  call_takes recv_pop (some n) = n.val.cmd ∷ []
  call_takes recv_pop none = []
  call_takes _ n = []

  unfoldable pub takes : Thread C → Option (Ptr (CmdQNode C)) → List C
  unfolding call_takes
  takes (sending k) n = call_takes k n
  takes (consuming k) n = call_takes k n
  takes _ n = []

  unfoldable pub executes : Thread C → List C
  executes (executing c) = c ∷ []
  executes _ = []

module _ {C : Type 0} (is_stop : C → Bool) (L : Utlist (Ptr (CmdQNode C))) where
  open L use {Dl, head}

  abbrev pub enter :
      (Call C → Thread C) → Option (CmdQueue Dl × Call C) → Option (CmdQueue Dl × Thread C)
  enter f none = none
  enter f (some (q, k)) = some (q, f k)

  -- The loop of `cmd_runner_consumer` on top of the steps of `cmd_queue_recv`, and a client's call.
  unfoldable pub thread_step : Answers → CmdQueue Dl → Thread C → Option (CmdQueue Dl × Thread C)
  unfolding call_step
  thread_step ans q idle = none
  thread_step ans q (sending (sent r)) = some (q, idle)
  thread_step ans q (sending k) = enter sending (call_step L ans q k)
  thread_step ans q (consuming (recv_failed r)) = some (q, stopped)
  thread_step ans q (consuming (received c)) = some (q, if is_stop c then stopped else executing c)
  thread_step ans q (consuming k) = enter consuming (call_step L ans q k)
  thread_step ans q (executing c) = some (q, consuming recv_wait)
  thread_step ans q stopped = none

  -- One step of one thread, which stands behind the threads `xs` and before `ys`.
  pub data Step (s : System C Dl) : System C Dl → Type 0 where
    act :
        (xs ys : List (Thread C)) (p p' : Thread C) (q : CmdQueue Dl) (ans : Answers)
        → s.threads ≡ xs ++ p ∷ ys
        → AreSound ans
        → thread_step ans s.queue p ≡ some (q, p')
        → Step s (record {
          queue = q;
          threads = xs ++ p' ∷ ys;
          appended = s.appended ++ appends p;
          taken = s.taken ++ takes p (head s.queue.head);
          executed = s.executed ++ executes p;
        })
    call :
        (xs ys : List (Thread C)) (c : C)
        → s.threads ≡ xs ++ idle ∷ ys
        → Step s (record s { threads = xs ++ sending (send_malloc c) ∷ ys })
    start : Step s (record s { threads = consuming recv_wait ∷ s.threads })

  -- Clients with a new runner.
  abbrev pub new_system : CmdQueue Dl → List (Thread C) → System C Dl
  new_system q clients = record {
    queue = q;
    threads = clients;
    appended = [];
    taken = [];
    executed = [];
  }

  pub data Reach (s : System C Dl) : System C Dl → Type 0 where
    here : Reach s s
    next : {t u : System C Dl} → Reach s t → Step t u → Reach s u
