-- ===== src/SensorCommands/CommandRunner/Resting.antt =====
-- Threads that wait at a semaphore or are outside of any call, and those that are not.
use ie0417_dev_b.Base.{ℕ, ◌<◌, ◌≡◌, refl, ap, Bool, true, false, List, [], ◌∷◌, ◌++◌, arith, length}
use native.Mathlib.Decide.{dec_lt}
use ie0417_dev_b.SensorCommands.CommandQueue.{send_wait, recv_wait, recv_free}
use ie0417_dev_b.SensorCommands.CommandRunner.{Thread, idle, sending, consuming, executing, stopped}
use ie0417_dev_b.SensorCommands.CommandRunner.Weights.{
  total, slot, claim, unposted, holds, of_thread,
}

-- A thread that is outside of any call, or waits on a semaphore.
abbrev pub is_resting : {C : Type 0} → Thread C → Bool
is_resting idle = true
is_resting stopped = true
is_resting (sending (send_wait n)) = true
is_resting (sending k) = false
is_resting (consuming recv_wait) = true
is_resting (consuming k) = false
is_resting (executing c) = false

pub length-zero : {A : Type 0} (l : List A) → length l ≡ 0 → l ≡ []
length-zero [] h = refl
length-zero (x ∷ l) h = absurd (omega arith)

pub find_positive :
    {A : Type 0} (w : A → ℕ) (l : List A)
    → 0 < total w l
    → (xs : List A) × (p : A) × (ys : List A) × (l ≡ xs ++ p ∷ ys) × (0 < w p)
unfolding total
find_positive w [] h = absurd (omega arith)
find_positive w (x ∷ l) h = elim (dec_lt 0 (w x)) [
  | yes p ↦ ([], x, l, refl, p)
  | no n ↦
      let (xs, p, ys, e, pos_p) = find_positive w l (omega arith) in
      (x ∷ xs, p, ys, ap (λ t. x ∷ t) e, pos_p)
]

module _ {C : Type 0} where
  pub holder-busy : (p : Thread C) → 0 < of_thread holds p → is_resting p ≡ false
  holder-busy (sending (recv_free n)) h = refl
  holder-busy (sending k) h = ground arith
  holder-busy (consuming (recv_free n)) h = refl
  holder-busy (consuming k) h = ground arith
  holder-busy idle h = absurd (omega arith)
  holder-busy p h = absurd (omega arith)

  pub slot-busy : (p : Thread C) → 0 < of_thread slot p → is_resting p ≡ false
  slot-busy (sending (recv_free n)) h = refl
  slot-busy (sending k) h = ground arith
  slot-busy (consuming (recv_free n)) h = refl
  slot-busy (consuming k) h = ground arith
  slot-busy idle h = absurd (omega arith)
  slot-busy p h = absurd (omega arith)

  pub claim-busy : (p : Thread C) → 0 < of_thread claim p → is_resting p ≡ false
  claim-busy (sending (recv_free n)) h = absurd (omega arith)
  claim-busy (sending k) h = ground arith
  claim-busy (consuming (recv_free n)) h = absurd (omega arith)
  claim-busy (consuming k) h = ground arith
  claim-busy idle h = absurd (omega arith)
  claim-busy p h = absurd (omega arith)

  pub post-busy : (p : Thread C) → 0 < of_thread unposted p → is_resting p ≡ false
  post-busy (sending (recv_free n)) h = absurd (omega arith)
  post-busy (sending k) h = ground arith
  post-busy (consuming (recv_free n)) h = absurd (omega arith)
  post-busy (consuming k) h = ground arith
  post-busy idle h = absurd (omega arith)
  post-busy p h = absurd (omega arith)
