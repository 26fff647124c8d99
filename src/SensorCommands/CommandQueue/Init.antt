-- ===== src/SensorCommands/CommandQueue/Init.antt =====
-- `cmd_queue_init`: when a queue is made, and what is left initialised when it is not.
use ie0417_dev_b.Base.{
  ℕ, zero, suc, ◌<◌, ◌≡◌, refl, true, false, none, some, ℤ, pos, negsuc, is_nonzero, arith, ◌⊎◌,
  inl, inr, leb, Bool-cases,
}
use ie0417_dev_b.Process.{Ptr}
use ie0417_dev_b.Utlist.{Utlist}
use ie0417_dev_b.SensorCommands.CommandQueue.{
  CmdQNode, CmdQueue, Primitives, all_down, all_up, InitAnswers, sem_value_max, cmd_queue_init,
  erange,
}

module _ {C : Type 0} (L : Utlist (Ptr (CmdQNode C))) where
  open L use {Dl, null}

  -- An empty queue with `n` places.
  abbrev pub fresh : ℕ → CmdQueue Dl
  fresh n = record { head = null; len = 0; max_len = n; empty = n; occupied = 0; lock = false }

  -- `cmd_queue_init` either returns a code that is not 0 and leaves none of its primitives
  -- initialised, or returns 0 and makes an empty queue with all of them, of a size that is positive
  -- and below SEM_VALUE_MAX.
  pub init-all_or_nothing :
      (ans : InitAnswers) (max : ℤ)
      → ((r : ℤ) × (cmd_queue_init L ans max ≡ (r, none, all_down)) × (is_nonzero r ≡ true))
        ⊎ ((n : ℕ) × (cmd_queue_init L ans max ≡ (pos 0, some (fresh n), all_up))
            × (max ≡ pos n)
            × (0 < n)
            × (n < sem_value_max))
  unfolding cmd_queue_init
  init-all_or_nothing ans (negsuc n) = inl (erange, refl, refl)
  init-all_or_nothing ans (pos zero) = inl (erange, refl, refl)
  init-all_or_nothing ans (pos (suc n)) = elim (Bool-cases (leb sem_value_max (suc n))) [
    | inl over ↦ inl (erange, rw over, refl)
    | inr fits ↦ elim (Bool-cases (is_nonzero ans.empty_ret)) [
      | inl bad ↦ inl (ans.empty_ret, rw (fits, bad), bad)
      | inr good ↦ elim (Bool-cases (is_nonzero ans.occupied_ret)) [
        | inl bad ↦ inl (ans.occupied_ret, rw (fits, good, bad), bad)
        | inr good' ↦ elim (Bool-cases (is_nonzero ans.mutex_ret)) [
          | inl bad ↦ inl (ans.mutex_ret, rw (fits, good, good', bad), bad)
          | inr good'' ↦
              inr (suc n, rw (fits, good, good', good''), refl, omega arith, ground (arith, fits))
        ]
      ]
    ]
  ]

  -- A queue that was made is fresh.
  pub init-fresh :
      (ans : InitAnswers) (max ret : ℤ) {q : CmdQueue Dl} {up : Primitives}
      → cmd_queue_init L ans max ≡ (ret, some q, up)
      → (n : ℕ) × (max ≡ pos n) × (0 < n) × (q ≡ fresh n)
  unfolding cmd_queue_init
  init-fresh ans (negsuc n) ret e = absurd (ground arith)
  init-fresh ans (pos zero) ret e = absurd (ground arith)
  init-fresh ans (pos (suc n)) ret e = (suc n, ground arith, ground arith, ground arith)
