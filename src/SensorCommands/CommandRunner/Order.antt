-- ===== src/SensorCommands/CommandRunner/Order.antt =====
-- command_runner.c: what the consumer has taken, against what it has executed and holds.
use ie0417_dev_b.Base.{
  ◌≤◌, ◌<◌, ◌≡◌, refl, sym, ap, ◌∙◌, Bool, true, some, List, [], ◌∷◌, ◌++◌, arith, ◌⊎◌, inl, inr,
  append-nil,
}
use native.Mathlib.Decide.{dec_lt}
use ie0417_dev_b.Process.{Ptr}
use ie0417_dev_b.Utlist.{Utlist}
use ie0417_dev_b.SensorCommands.CommandQueue.{CmdQNode, CmdQueue, Answers, AreSound, send_malloc}
use ie0417_dev_b.SensorCommands.CommandRunner.{
  Thread, idle, sending, System, thread_step, Step, act, call, start, appends, takes, executes,
}
use ie0417_dev_b.SensorCommands.CommandRunner.Weights.{total, total-split}
use ie0417_dev_b.SensorCommands.CommandRunner.Places.{misplaced, Placed}
use ie0417_dev_b.SensorCommands.CommandRunner.Hands.{
  hands, is_consumer, is_active, hands-none, hands-alone, hands-same, active-le,
}
use ie0417_dev_b.SensorCommands.CommandRunner.Turns.{thread-hand, thread-role, client-step}

module _ {C : Type 0} (is_stop : C → Bool) (L : Utlist (Ptr (CmdQNode C))) where
  open L use {Dl, head}

  -- What the consumer has taken is what it has executed, and what it holds; or, once it has
  -- stopped, the stop signal.
  abbrev pub IsOrdered : System C Dl → Type 0
  IsOrdered s =
      ((s.taken ≡ s.executed ++ hands s.threads)
        × (total is_active s.threads ≡ total is_consumer s.threads))
      ⊎ ((c : C) × (is_stop c ≡ true)
          × (s.taken ≡ s.executed ++ c ∷ [])
          × (total is_active s.threads ≡ 0)
          × (0 < total is_consumer s.threads))

  -- The state after a step of the thread between `xs` and `ys`.
  abbrev pub after :
      System C Dl
      → List (Thread C)
      → List (Thread C)
      → Thread C
      → Thread C
      → CmdQueue Dl
      → System C Dl
  after s xs ys p p' q = record {
    queue = q;
    threads = xs ++ p' ∷ ys;
    appended = s.appended ++ appends p;
    taken = s.taken ++ takes p (head s.queue.head);
    executed = s.executed ++ executes p;
  }

  module _ (s : System C Dl) (xs ys : List (Thread C)) where
    by_consumer :
        (p p' : Thread C) (q : CmdQueue Dl) (ans : Answers)
        → s.threads ≡ xs ++ p ∷ ys
        → AreSound ans
        → thread_step is_stop L ans s.queue p ≡ some (q, p')
        → total is_consumer (xs ++ p' ∷ ys) ≤ 1
        → misplaced p ≡ 0
        → 0 < is_consumer p
        → IsOrdered s
        → IsOrdered (after s xs ys p p' q)
    by_consumer p p' q ans e ok step one placed consumer (inl (h, all_active)) =
        let role = thread-role is_stop L ans s.queue q p p' step in
        let nx : total is_consumer xs ≡ 0 =
          omega (arith, one, total-split is_consumer xs p' ys, role.0) in
        let ny : total is_consumer ys ≡ 0 =
          omega (arith, one, total-split is_consumer xs p' ys, role.0) in
        let held = h ∙ ap (λ l. s.executed ++ l) (ap hands e ∙ hands-alone xs ys p nx ny) in
        let stepped =
          thread-hand is_stop L ans ok s.queue q p p' s.taken s.executed step
            (omega (arith, role.1, active-le p)) placed held in
        elim stepped [
          | inl (t, active) ↦ inl (
            t ∙ ap (λ l. (s.executed ++ executes p) ++ l) (sym (hands-alone xs ys p' nx ny)),
            omega (
              arith,
              total-split is_active xs p' ys,
              total-split is_consumer xs p' ys,
              (hands-none xs nx).1,
              (hands-none ys ny).1,
              active,
              one,
              active-le p',
            ),
          )
          | inr (c, stop, t, is) ↦ inr (
            c,
            stop,
            t,
            omega (
              arith,
              total-split is_active xs p' ys,
              (hands-none xs nx).1,
              (hands-none ys ny).1,
              ap is_active is,
            ),
            omega (arith, total-split is_consumer xs p' ys, role.0),
          )
        ]
    by_consumer p p' q ans e ok step one placed consumer (inr (c, stop, h, z, some_consumer)) =
        absurd (
          omega (
            arith,
            z,
            ap (total is_active) e ∙ total-split is_active xs p ys,
            (thread-role is_stop L ans s.queue q p p' step).1,
          ))

    by_client :
        (p p' : Thread C) (q : CmdQueue Dl) (ans : Answers)
        → s.threads ≡ xs ++ p ∷ ys
        → thread_step is_stop L ans s.queue p ≡ some (q, p')
        → misplaced p ≡ 0
        → is_consumer p ≡ 0
        → IsOrdered s
        → IsOrdered (after s xs ys p p' q)
    by_client p p' q ans e step placed client h =
        let (none_taken, none_run, hp, hp') =
          client-step is_stop L ans s.queue q p p' step client placed in
        let taken_same = ap (λ l. s.taken ++ l) none_taken ∙ append-nil s.taken in
        let run_same = ap (λ l. s.executed ++ l) none_run ∙ append-nil s.executed in
        let hands_same = ap hands e ∙ hands-same xs ys p p' (hp ∙ sym hp') in
        let role = thread-role is_stop L ans s.queue q p p' step in
        elim h [
          | inl (left, all_active) ↦ inl (
            taken_same
                ∙ left
                ∙ ap (λ l. s.executed ++ l) hands_same
                ∙ ap (λ l. l ++ hands (xs ++ p' ∷ ys)) (sym run_same),
            omega (
              arith,
              ap (total is_active) e ∙ total-split is_active xs p ys,
              total-split is_active xs p' ys,
              ap (total is_consumer) e ∙ total-split is_consumer xs p ys,
              total-split is_consumer xs p' ys,
              active-le p,
              active-le p',
              role.0,
            ),
          )
          | inr (c, stop, left, z, some_consumer) ↦ inr (
            c,
            stop,
            taken_same ∙ left ∙ ap (λ l. l ++ c ∷ []) (sym run_same),
            omega (
              arith,
              ap (total is_active) e ∙ total-split is_active xs p ys,
              total-split is_active xs p' ys,
              active-le p',
              role.0,
            ),
            omega (
              arith,
              ap (total is_consumer) e ∙ total-split is_consumer xs p ys,
              total-split is_consumer xs p' ys,
              role.0,
            ),
          )
        ]

    by_call :
        (c : C)
        → s.threads ≡ xs ++ idle ∷ ys
        → IsOrdered s
        → IsOrdered (record s { threads = xs ++ sending (send_malloc c) ∷ ys })
    by_call k e (inl (left, all_active)) = inl (
      left
          ∙ ap (λ l. s.executed ++ l)
              (ap hands e ∙ hands-same xs ys idle (sending (send_malloc k)) refl),
      omega (
        arith,
        ap (total is_active) e ∙ total-split is_active xs idle ys,
        total-split is_active xs (sending (send_malloc k)) ys,
        ap (total is_consumer) e ∙ total-split is_consumer xs idle ys,
        total-split is_consumer xs (sending (send_malloc k)) ys,
      ),
    )
    by_call k e (inr (c, stop, left, z, some_consumer)) = inr (
      c,
      stop,
      left,
      omega (
        arith,
        ap (total is_active) e ∙ total-split is_active xs idle ys,
        total-split is_active xs (sending (send_malloc k)) ys,
      ),
      omega (
        arith,
        ap (total is_consumer) e ∙ total-split is_consumer xs idle ys,
        total-split is_consumer xs (sending (send_malloc k)) ys,
      ),
    )

  pub Step-IsOrdered :
      {s t : System C Dl}
      → Step is_stop L s t
      → Placed is_stop L s
      → total is_consumer t.threads ≤ 1
      → IsOrdered s
      → IsOrdered t
  unfolding total
  Step-IsOrdered {s} (act xs ys p p' q ans e ok step) m one h =
      let placed : misplaced p ≡ 0 =
        omega (arith, m, ap (total misplaced) e ∙ total-split misplaced xs p ys) in
      elim (dec_lt 0 (is_consumer p)) [
        | yes consumer ↦ by_consumer s xs ys p p' q ans e ok step one placed consumer h
        | no client ↦ by_client s xs ys p p' q ans e step placed (omega arith) h
      ]
  Step-IsOrdered {s} (call xs ys c e) m one h = by_call s xs ys c e h
  Step-IsOrdered {s} start m one (inl (h, all_active)) = inl (h, omega arith)
  Step-IsOrdered {s} start m one (inr (c, stop, h, z, some_consumer)) = absurd (omega arith)
