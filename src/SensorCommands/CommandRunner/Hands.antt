-- ===== src/SensorCommands/CommandRunner/Hands.antt =====
-- What the consumer threads hold, and how many there are.
use ie0417_dev_b.Base.{ℕ, ◌≤◌, ◌≡◌, refl, List, [], ◌∷◌, ◌++◌, arith, append-nil, append_assoc}
use ie0417_dev_b.SensorCommands.CommandQueue.{Call, recv_free, recv_unlock, recv_post, received}
use ie0417_dev_b.SensorCommands.CommandRunner.{Thread, idle, sending, consuming, executing, stopped}
use ie0417_dev_b.SensorCommands.CommandRunner.Weights.{total}

module _ {C : Type 0} where
  -- The command that a consumer has taken out of the queue and not yet executed.
  abbrev pub call_hand : Call C → List C
  call_hand (recv_free n) = n.val.cmd ∷ []
  call_hand (recv_unlock c) = c ∷ []
  call_hand (recv_post c) = c ∷ []
  call_hand (received c) = c ∷ []
  call_hand _ = []

  abbrev pub hand : Thread C → List C
  hand (consuming k) = call_hand k
  hand (executing c) = c ∷ []
  hand _ = []

  abbrev pub hands : List (Thread C) → List C
  hands [] = []
  hands (p ∷ l) = hand p ++ hands l

  -- Consumer threads, and those that have not stopped.
  abbrev pub is_consumer : Thread C → ℕ
  is_consumer (consuming k) = 1
  is_consumer (executing c) = 1
  is_consumer stopped = 1
  is_consumer _ = 0

  abbrev pub is_active : Thread C → ℕ
  is_active (consuming k) = 1
  is_active (executing c) = 1
  is_active _ = 0

  pub hands-none :
      (l : List (Thread C)) → total is_consumer l ≡ 0 → (hands l ≡ []) × (total is_active l ≡ 0)
  unfolding total
  hands-none [] h = (refl, refl)
  hands-none (idle ∷ l) h = let (a, b) = hands-none l (omega arith) in (a, omega (arith, b))
  hands-none (sending k ∷ l) h = let (a, b) = hands-none l (omega arith) in (a, omega (arith, b))
  hands-none (consuming k ∷ l) h = absurd (omega arith)
  hands-none (executing c ∷ l) h = absurd (omega arith)
  hands-none (stopped ∷ l) h = absurd (omega arith)

  pub hands-split :
      (xs : List (Thread C)) (p : Thread C) (ys : List (Thread C))
      → hands (xs ++ p ∷ ys) ≡ hands xs ++ (hand p ++ hands ys)
  hands-split [] p ys = refl
  hands-split (x ∷ xs) p ys = rw (hands-split xs p ys, append_assoc)

  pub hands-alone :
      (xs ys : List (Thread C)) (p : Thread C)
      → total is_consumer xs ≡ 0
      → total is_consumer ys ≡ 0
      → hands (xs ++ p ∷ ys) ≡ hand p
  hands-alone xs ys p hx hy =
      rw (hands-split xs p ys, (hands-none xs hx).0, (hands-none ys hy).0) (append-nil (hand p))

  pub hands-same :
      (xs ys : List (Thread C)) (p p' : Thread C)
      → hand p ≡ hand p'
      → hands (xs ++ p ∷ ys) ≡ hands (xs ++ p' ∷ ys)
  hands-same xs ys p p' h = rw (hands-split xs p ys, hands-split xs p' ys, h)

  pub active-le : (p : Thread C) → (is_active p ≤ is_consumer p) × (is_active p ≤ 1)
  active-le idle = omega arith
  active-le p = omega arith
