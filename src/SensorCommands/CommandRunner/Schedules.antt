-- ===== src/SensorCommands/CommandRunner/Schedules.antt =====
-- Schedules of the threads of a runner with two clients, as lists of the threads that make a step.
use ie0417_dev_b.Base.{
  ℕ, zero, suc, ◌≡◌, refl, ap, All, Option, none, some, List, [], ◌∷◌, ◌++◌, pos, subst, arith,
  replicate,
}
use ie0417_dev_b.Process.{Ptr}
use ie0417_dev_b.Utlist.{Utlist, list_of}
use ie0417_dev_b.SensorCommands.Types.{Command}
use ie0417_dev_b.SensorCommands.CommandQueue.{CmdQNode, CmdQueue, Answers}
use ie0417_dev_b.SensorCommands.CommandQueue.Init.{fresh}
use ie0417_dev_b.SensorCommands.CommandRunner.{
  Thread, idle, System, thread_step, act, call, start, Reach, here, next, new_system,
}
use ie0417_dev_b.SensorCommands.CommandRunner.Api.{is_stop}
use ie0417_dev_b.SensorCommands.CommandRunner.Progress.{Steps}

abbrev pub C : Type 0
C = Ptr Command

abbrev pub L : Utlist (Ptr (CmdQNode C))
L = list_of (Ptr (CmdQNode C))

abbrev pub S : Type 0
S = System C L.Dl

abbrev pub good : Answers
good = record { node = some 1; lock_ret = pos 0; unlock_ret = pos 0 }

-- A state that a runner with `n` places and two clients reaches.
pub record Run (n : ℕ) : Type 0 where
  pub last : S
  pub reach : Reach is_stop L (new_system is_stop L (fresh L n) (replicate 2 idle)) last

abbrev Place : List (Thread C) → Type 0
Place l = (xs : List (Thread C)) × (p : Thread C) × (ys : List (Thread C)) × (l ≡ xs ++ p ∷ ys)

unfoldable pick : ℕ → (l : List (Thread C)) → Option (Place l)
pick i [] = none
pick zero (p ∷ l) = some ([], p, l, refl)
pick (suc i) (p ∷ l) = elim (pick i l) [
  | none ↦ none
  | some (xs, q, ys, e) ↦ some (p ∷ xs, q, ys, ap (λ t. p ∷ t) e)
]

unfoldable turn_of :
    {n : ℕ} (r : Run n) (xs ys : List (Thread C)) (p : Thread C)
    → r.last.threads ≡ xs ++ p ∷ ys
    → (o : Option (CmdQueue L.Dl × Thread C)) → thread_step is_stop L good r.last.queue p ≡ o
    → Run n
turn_of r xs ys p e none is = r
turn_of r xs ys p e (some (q, p')) is = record {
  last = _;
  reach = next r.reach (act xs ys p p' q good e (record { lock_ok = refl; unlock_ok = refl }) is);
}

-- Thread `i` makes its next step, if it can.
unfoldable pub turn : {n : ℕ} → Run n → ℕ → Run n
unfolding turn_of pick
turn r i = elim (pick i r.last.threads) [
  | none ↦ r
  | some (xs, p, ys, e) ↦ turn_of r xs ys p e (thread_step is_stop L good r.last.queue p) refl
]

unfoldable pub turns : {n : ℕ} → Run n → List ℕ → Run n
unfolding turn
turns r [] = r
turns r (i ∷ l) = turns (turn r i) l

unfoldable call_of :
    {n : ℕ} (r : Run n) (xs ys : List (Thread C)) (p : Thread C)
    → r.last.threads ≡ xs ++ p ∷ ys
    → C
    → Run n
call_of r xs ys idle e c = record { last = _; reach = next r.reach (call xs ys c e) }
call_of r xs ys p e c = r

-- The client with index `i` sends a command.
unfoldable pub calls : {n : ℕ} → Run n → ℕ → C → Run n
unfolding call_of pick
calls r i c = elim (pick i r.last.threads) [
  | none ↦ r
  | some (xs, p, ys, e) ↦ call_of r xs ys p e c
]

abbrev pub initial : {n : ℕ} → Run n
initial = record { last = _; reach = here }

unfoldable pub starts : {n : ℕ} → Run n → Run n
starts r = record { last = _; reach = next r.reach start }

All-at :
    (P : Thread C → Type 0) (l xs ys : List (Thread C)) (p : Thread C)
    → All P l
    → l ≡ xs ++ p ∷ ys
    → P p
All-at P [] [] ys p a e = cc
All-at P [] (x ∷ xs) ys p a e = cc
All-at P (q ∷ l) [] ys p a e = subst P (ground arith) a.0
All-at P (q ∷ l) (x ∷ xs) ys p a e = All-at P l xs ys p a.1 (ground arith)

pub halted :
    (s : S)
    → All (λ p. (ans : Answers) → thread_step is_stop L ans s.queue p ≡ none) s.threads
    → ¬ Steps is_stop L s
halted s a k =
    let stays =
      All-at (λ p. (ans : Answers) → thread_step is_stop L ans s.queue p ≡ none) s.threads k.before
        k.after k.mover a k.at in
    absurd (ground (arith, stays k.ans, k.step))
