-- ===== src/SensorCommands/CommandRunner/Api.antt =====
-- The functions of command_runner.h around the queue and the consumer thread.
use ie0417_dev_b.Base.{
  ℕ, zero, suc, ◌+◌, ◌≡◌, ◌<◌, refl, Bool, true, false, not, Option, none, some, is_some, List, ◌∷◌,
  ℤ, pos, negsuc, is_nonzero, if◌then◌else◌, arith,
}
use ie0417_dev_b.Process.{World, M, Ptr, pure, fault, ◌>>=◌, ◌>>◌, if_null, malloc, free, deref}
use ie0417_dev_b.Utlist.{Utlist}
use ie0417_dev_b.SensorCommands.Types.{Command}
use ie0417_dev_b.SensorCommands.CommandQueue.{
  CmdQNode, CmdQueue, Primitives, all_up, InitAnswers, Call, send_malloc, cmd_queue_init,
  cmd_queue_uninit, sem_value_max,
}
use ie0417_dev_b.SensorCommands.CommandQueue.Init.{fresh}

pub record CommandRunnerConfig : Type 0 where
  pub q_max_size : ℤ

-- `struct CommandRunner` as it is made, with the primitives of its queue. The thread id is not kept:
-- a thread goes by its place among the threads.
pub record CommandRunner (Dl : Type 0) : Type 0 where
  pub queue : CmdQueue Dl
  pub primitives : Primitives

-- The stop signal: a command whose `execute` is NULL.
abbrev pub is_stop : Ptr Command → Bool
is_stop c = not (is_some c.val.execute)

-- A call returns at once, or enters `cmd_queue_send`.
pub data Entry : Type 0 where
  returns : ℤ → Entry
  enters : Call (Ptr Command) → Entry

module _ (L : Utlist (Ptr (CmdQNode (Ptr Command)))) where
  open L use {Dl}

  unfoldable pub command_runner_create :
      InitAnswers → Option CommandRunnerConfig → M (Option (Ptr (CommandRunner Dl)))
  unfolding malloc free cmd_queue_init
  command_runner_create ans cfg = if_null cfg (pure none) λ c. do
    p ← malloc
    if_null p (pure none) λ a. do
      let (ret, made, up) = cmd_queue_init L ans c.q_max_size
      if is_nonzero ret
          then (do free a; pure none)
          else if_null made fault
              λ q. pure (some (record { addr = a; val = record { queue = q; primitives = up } }))

  -- With the answer of `pthread_create`: the result, and whether a consumer thread starts.
  unfoldable pub command_runner_start : Option (Ptr (CommandRunner Dl)) → ℤ → ℤ × Bool
  command_runner_start none created = (negsuc 0, false)
  command_runner_start (some r) created =
      if is_nonzero created then (created, false) else (pos 0, true)

  unfoldable pub command_runner_send :
      Option (Ptr (CommandRunner Dl)) → Option (Ptr Command) → Entry
  command_runner_send none cmd = returns (negsuc 0)
  command_runner_send (some r) none = returns (negsuc 0)
  command_runner_send (some r) (some cmd) = enters (send_malloc cmd)

  -- `signal` is the block of the local variable `cmd`, which is all zero.
  unfoldable pub command_runner_stop : Option (Ptr (CommandRunner Dl)) → (signal : ℕ) → Entry
  command_runner_stop none signal = returns (negsuc 0)
  command_runner_stop (some r) signal =
      enters (send_malloc (record { addr = signal; val = record { priv = none; execute = none } }))

  -- What `command_runner_stop` returns after the send, with the answer of `pthread_join`.
  unfoldable pub command_runner_stop_result : (sent joined : ℤ) → ℤ
  command_runner_stop_result sent joined =
      if is_nonzero sent then sent else if is_nonzero joined then joined else pos 0

  unfoldable pub command_runner_destroy :
      Option (Ptr (CommandRunner Dl)) → M (ℤ × Option Primitives)
  unfolding deref free cmd_queue_uninit
  command_runner_destroy r = if_null r (pure (negsuc 0, none)) λ p. do
    c ← deref p
    let up = cmd_queue_uninit c.primitives
    free p.addr
    pure (pos 0, some up)

  -- The limits within which a queue is made.
  abbrev pub InRange : Option CommandRunnerConfig → ℕ → Type 0
  InRange cfg n = (cfg ≡ some (record { q_max_size = pos n })) × (0 < n) × (n < sem_value_max)

  -- With memory, primitives that are granted, and a size that is positive and below SEM_VALUE_MAX,
  -- `command_runner_create` returns a runner with an empty queue of that size.
  pub runner_create-fresh :
      (ans : InitAnswers) (cfg : Option CommandRunnerConfig) (w : World) (n : ℕ)
      → InRange cfg n
      → w.oom w.next ≡ false
      → ans.empty_ret ≡ pos 0
      → ans.occupied_ret ≡ pos 0
      → ans.mutex_ret ≡ pos 0
      → command_runner_create ans cfg w
        ≡ some (
          some (record { addr = w.next; val = record { queue = fresh L n; primitives = all_up } }),
          record w { next = w.next + 1; live = w.next ∷ w.live },
        )
  unfolding command_runner_create
  runner_create-fresh ans cfg w zero r m e o x = absurd (omega arith)
  runner_create-fresh ans cfg w (suc n) (is, positive, small) m e o x = rw is (ground arith)

  abbrev pub live_of : {A : Type 0} → Option (A × World) → Option (List ℕ)
  live_of none = none
  live_of (some (a, w)) = some w.live

  -- Whatever the configuration and the answers of the primitives are, `command_runner_create`
  -- followed by `command_runner_destroy` does not fault and leaves the allocated blocks as they
  -- were, also where the creation fails.
  pub runner_create_destroy :
      (ans : InitAnswers) (cfg : Option CommandRunnerConfig) (w : World)
      → live_of ((do r ← command_runner_create ans cfg; command_runner_destroy r) w) ≡ some w.live
  unfolding command_runner_create command_runner_destroy
  runner_create_destroy ans none w = refl
  runner_create_destroy ans (some c) w = ground arith
