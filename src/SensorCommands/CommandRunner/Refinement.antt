-- ===== src/SensorCommands/CommandRunner/Refinement.antt =====
-- command_runner.c: the threads of a runner with one consumer do what the abstract executor does.
use ie0417_dev_b.Base.{
  ℕ, ◌≤◌, ◌<◌, ◌≡◌, refl, sym, ap, ◌∙◌, Bool, some, List, [], ◌∷◌, ◌++◌, pos, arith, replicate, ◌⊎◌,
  inl, inr, append-nil, length, map, subst,
}
use native.Mathlib.Decide.{dec_lt}
use ie0417_dev_b.Process.{Ptr}
use ie0417_dev_b.Utlist.{Utlist}
use ie0417_dev_b.SensorCommands.CommandQueue.{
  CmdQNode, CmdQueue, Answers, AreSound, send_malloc, InitAnswers, Primitives, cmd_queue_init,
}
use ie0417_dev_b.SensorCommands.CommandRunner.{
  Thread, idle, sending, System, thread_step, appends, Step, act, call, start, Reach, here, next,
  new_system,
}
use ie0417_dev_b.SensorCommands.CommandRunner.Weights.{total, total-split, of_thread, slot}
use ie0417_dev_b.SensorCommands.CommandRunner.Balance.{queued}
use ie0417_dev_b.SensorCommands.CommandRunner.Invariant.{Inv, thread_step-queued}
use ie0417_dev_b.SensorCommands.CommandRunner.Places.{misplaced, Placed, IsRunner-Placed}
use ie0417_dev_b.SensorCommands.CommandRunner.Hands.{
  is_consumer, hands-alone, hands-same, hands-none,
}
use ie0417_dev_b.SensorCommands.CommandRunner.Order.{after}
use ie0417_dev_b.SensorCommands.CommandRunner.Turns.{client-step, thread-role}
use ie0417_dev_b.SensorCommands.CommandRunner.Execution.{
  about_to_stop, idle-none, Step-consumers, IsRunner-quiet,
}
use ie0417_dev_b.SensorCommands.CommandRunner.Executor.{
  Executor, Act, submit, Acts, none_yet, and_then, new_executor,
}
use ie0417_dev_b.SensorCommands.CommandRunner.Safety.{IsRunner, IsRunner-Inv}
use ie0417_dev_b.SensorCommands.CommandQueue.Init.{init-fresh}
use ie0417_dev_b.SensorCommands.CommandRunner.View.{
  view, view_of, Matches, acts, any_stopped-none, any_stopped-alone, any_stopped-same,
  client-appends, consumer-Matches,
}

module _ {C : Type 0} (is_stop : C → Bool) (L : Utlist (Ptr (CmdQNode C))) where
  open L use {Dl, head, items, items-null}

  -- A state whose only consumer is this thread looks like it.
  view-alone :
      (s : System C Dl) (xs ys : List (Thread C)) (p : Thread C)
      → s.threads ≡ xs ++ p ∷ ys
      → total is_consumer (xs ++ p ∷ ys) ≤ 1
      → 0 < is_consumer p
      → view is_stop L s ≡ view_of is_stop L s.queue p s.executed
  view-alone s xs ys p e one consumer =
      let split = total-split is_consumer xs p ys in
      let nx : total is_consumer xs ≡ 0 = omega (arith, one, split) in
      let ny : total is_consumer ys ≡ 0 = omega (arith, one, split) in
      rw (e, hands-alone xs ys p nx ny, any_stopped-alone is_stop L xs ys p nx ny) refl

  length-commands : (l : List (Ptr (CmdQNode C))) → length (map (λ n. n.val.cmd) l) ≡ length l
  length-commands [] = refl
  length-commands (n ∷ l) = omega (arith, length-commands l)

  module _ (n : ℕ) (s : System C Dl) (inv : Inv is_stop L n s) (xs ys : List (Thread C)) where
    by_consumer :
        (p p' : Thread C) (q : CmdQueue Dl) (ans : Answers)
        → s.threads ≡ xs ++ p ∷ ys
        → AreSound ans
        → thread_step is_stop L ans s.queue p ≡ some (q, p')
        → total is_consumer (xs ++ p' ∷ ys) ≤ 1
        → 0 < is_consumer p
        → misplaced p ≡ 0
        → about_to_stop is_stop L p ≡ 0
        → Matches is_stop L n (view is_stop L s) (view is_stop L (after is_stop L s xs ys p p' q))
    by_consumer p p' q ans e ok step one consumer placed runs =
        let role = (thread-role is_stop L ans s.queue q p p' step).0 in
        let one' : total is_consumer (xs ++ p ∷ ys) ≤ 1 =
          omega
            (arith, one, total-split is_consumer xs p ys, total-split is_consumer xs p' ys, role) in
        let consumer' : 0 < is_consumer p' = omega (arith, consumer, role) in
        rw
          (
            view-alone s xs ys p e one' consumer,
            view-alone (after is_stop L s xs ys p p' q) xs ys p' refl one consumer',
          )
          (consumer-Matches is_stop L n ans ok s.queue q p p' s.executed step consumer placed runs)

    -- A thread that took a place from `empty` finds one in the queue.
    room :
        (p : Thread C)
        → s.threads ≡ xs ++ p ∷ ys
        → of_thread slot p ≡ 1
        → length (queued L s.queue) < n
    room p e place = omega (
      arith,
      place,
      length-commands (items s.queue.head),
      inv.balance.size,
      inv.balance.places,
      inv.bound,
      ap (total (of_thread slot)) e ∙ total-split (of_thread slot) xs p ys,
    )

    by_client :
        (p p' : Thread C) (q : CmdQueue Dl) (ans : Answers)
        → s.threads ≡ xs ++ p ∷ ys
        → AreSound ans
        → thread_step is_stop L ans s.queue p ≡ some (q, p')
        → is_consumer p ≡ 0
        → misplaced p ≡ 0
        → Matches is_stop L n (view is_stop L s) (view is_stop L (after is_stop L s xs ys p p' q))
    by_client p p' q ans e ok step client placed =
        let (quiet, quiet', appended) = client-appends is_stop L ans s.queue q p p' step client in
        let (none_taken, none_run, hp, hp') =
          client-step is_stop L ans s.queue q p p' step client placed in
        let moved = thread_step-queued is_stop L ans ok s.queue q p p' step in
        let run_same = ap (λ l. s.executed ++ l) none_run ∙ append-nil s.executed in
        let hands_same = hands-same xs ys p' p (hp' ∙ sym hp) in
        let stopped_same = any_stopped-same is_stop L xs ys p p' (quiet' ∙ sym quiet) in
        let behind : queued L q ≡ queued L s.queue ++ appends p =
          sym (moved ∙ ap (λ l. l ++ queued L q) none_taken) in
        elim appended [
          | inl none_appended ↦ inl (
              rw
                (
                  behind,
                  none_appended,
                  append-nil (queued L s.queue),
                  hands_same,
                  run_same,
                  stopped_same,
                  e,
                )
                refl)
          | inr (c, one_appended, place) ↦
              acts is_stop L n (view is_stop L s) _ _ (submit c (room p e place))
                (rw (behind, one_appended, hands_same, run_same, stopped_same, e) refl)
        ]

  Step-Matches :
      (n : ℕ) {s t : System C Dl}
      → Inv is_stop L n s
      → Placed is_stop L s
      → total (about_to_stop is_stop L) s.threads ≡ 0
      → total is_consumer t.threads ≤ 1
      → Step is_stop L s t
      → Matches is_stop L n (view is_stop L s) (view is_stop L t)
  Step-Matches n {s} inv m quiet one (act xs ys p p' q ans e ok step) =
      let placed : misplaced p ≡ 0 =
        omega (arith, m, ap (total misplaced) e ∙ total-split misplaced xs p ys) in
      let runs : about_to_stop is_stop L p ≡ 0 = omega (
        arith,
        quiet,
        ap (total (about_to_stop is_stop L)) e ∙ total-split (about_to_stop is_stop L) xs p ys,
      ) in
      elim (dec_lt 0 (is_consumer p)) [
        | yes consumer ↦ by_consumer n s inv xs ys p p' q ans e ok step one consumer placed runs
        | no client ↦ by_client n s inv xs ys p p' q ans e ok step (omega arith) placed
      ]
  Step-Matches n {s} inv m quiet one (call xs ys c e) = inl (
      rw
        (
          hands-same xs ys (sending (send_malloc c)) idle refl,
          any_stopped-same is_stop L xs ys idle (sending (send_malloc c)) refl,
          e,
        )
        refl)
  Step-Matches n {s} inv m quiet one start = inl refl

  runner-Matches :
      (n : ℕ) {s t : System C Dl}
      → IsRunner is_stop L (pos n) s
      → Step is_stop L s t
      → total is_consumer t.threads ≤ 1
      → Matches is_stop L n (view is_stop L s) (view is_stop L t)
  runner-Matches n {s} r step one =
      let (m, is, some_place, inv) = IsRunner-Inv is_stop L (pos n) r in
      Step-Matches n (subst (λ k. Inv is_stop L k s) (ground arith) inv)
        (IsRunner-Placed is_stop L (pos n) r) (IsRunner-quiet is_stop L (pos n) r) one step

  Acts-Matches :
      (n : ℕ) (e f g : Executor C)
      → Acts is_stop n e f
      → Matches is_stop L n f g
      → Acts is_stop n e g
  Acts-Matches n e f g done (inl same) = subst (Acts is_stop n e) (sym same) done
  Acts-Matches n e f g done (inr step) = and_then done step

  runner-Acts :
      (n : ℕ) (ans : InitAnswers) (made : CmdQueue Dl) (up : Primitives)
      (init : cmd_queue_init L ans (pos n) ≡ (pos 0, some made, up)) (clients : ℕ) {s : System C Dl}
      → Reach is_stop L (new_system is_stop L made (replicate clients idle)) s
      → total is_consumer s.threads ≤ 1
      → Acts is_stop n new_executor (view is_stop L s)
  runner-Acts n ans made up init clients here one =
      let (m, is, some_place, new) = init-fresh L ans (pos n) (pos 0) init in
      let no_consumer = (idle-none is_stop L clients).1 in
      subst (Acts is_stop n new_executor)
        (rw
          (
            new,
            items-null,
            (hands-none (replicate clients idle) no_consumer).0,
            any_stopped-none is_stop L (replicate clients idle) no_consumer,
          )
          refl)
        none_yet
  runner-Acts n ans made up init clients (next r step) one =
      let mid : IsRunner is_stop L (pos n) _ = record {
        answers = ans;
        made = made;
        up = up;
        init = init;
        clients = clients;
        reach = r;
      } in
      Acts-Matches n new_executor _ _
        (runner-Acts n ans made up init clients r
          (omega (arith, one, Step-consumers is_stop L step)))
        (runner-Matches n mid step one)

  -- The threads of a runner refine an abstract executor: a queue of at most n commands that are
  -- held and executed one at a time, up to a stop signal. With at most one consumer thread, every
  -- reachable state of a runner of size n stands for a state that the executor reaches, and every
  -- step of a thread leaves that state as it is or is one step of the executor.
  pub runner-refines :
      (n : ℕ) {s t : System C Dl}
      → IsRunner is_stop L (pos n) s
      → Step is_stop L s t
      → total is_consumer t.threads ≤ 1
      → Acts is_stop n new_executor (view is_stop L s)
        × ((view is_stop L t ≡ view is_stop L s)
            ⊎ Act is_stop n (view is_stop L s) (view is_stop L t))
  runner-refines n {s} r step one = (
    runner-Acts n r.answers r.made r.up r.init r.clients r.reach
        (omega (arith, one, Step-consumers is_stop L step)),
    runner-Matches n r step one,
  )
