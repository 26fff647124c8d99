-- ===== src/SensorCommands/CommandRunner/Weights.antt =====
-- Numbers of threads at a place of a call, as weighted sums over the threads.
use ie0417_dev_b.Base.{ℕ, ◌+◌, ◌≡◌, Bool, true, false, List, [], ◌∷◌, ◌++◌, arith}
use ie0417_dev_b.SensorCommands.CommandQueue.{
  Call, send_lock, send_test, send_full, send_append, send_unlock, send_post, recv_lock, recv_pop,
  recv_free, recv_unlock, recv_post, aborted,
}
use ie0417_dev_b.SensorCommands.CommandRunner.{Thread, sending, consuming}

module _ {A : Type 0} (w : A → ℕ) where
  unfoldable pub total : List A → ℕ
  total [] = 0
  total (x ∷ xs) = w x + total xs

  pub total-split :
      (xs : List A) (x : A) (ys : List A) → total (xs ++ x ∷ ys) ≡ total xs + w x + total ys
  unfolding total
  total-split [] x ys = omega arith
  total-split (z ∷ xs) x ys = omega (arith, total-split xs x ys)

module _ {C : Type 0} where
  -- Took a place from `empty`, with no command in the queue for it, or has yet to give one back.
  abbrev pub slot : Call C → ℕ
  slot (send_lock n) = 1
  slot (send_test n) = 1
  slot send_full = 1
  slot (send_append n) = 1
  slot (recv_free n) = 1
  slot (recv_unlock c) = 1
  slot (recv_post c) = 1
  slot _ = 0

  -- Took a command from `occupied` and has not yet popped it.
  abbrev pub claim : Call C → ℕ
  claim recv_lock = 1
  claim recv_pop = 1
  claim _ = 0

  -- Put a command into the queue and has not yet posted `occupied`.
  abbrev pub unposted : Call C → ℕ
  unposted send_unlock = 1
  unposted send_post = 1
  unposted _ = 0

  -- Holds the mutex.
  abbrev pub holds : Call C → ℕ
  holds (send_test n) = 1
  holds send_full = 1
  holds (send_append n) = 1
  holds send_unlock = 1
  holds recv_pop = 1
  holds (recv_free n) = 1
  holds (recv_unlock c) = 1
  holds _ = 0

  -- Found the queue full after the wait, or found no node: the two checks that should never hit.
  abbrev pub failed : Call C → ℕ
  failed send_full = 1
  failed aborted = 1
  failed _ = 0

  abbrev pub of_thread : (Call C → ℕ) → Thread C → ℕ
  of_thread w (sending k) = w k
  of_thread w (consuming k) = w k
  of_thread w _ = 0

abbrev pub free : Bool → ℕ
free true = 0
free false = 1
