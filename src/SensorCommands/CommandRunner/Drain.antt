-- ===== src/SensorCommands/CommandRunner/Drain.antt =====
-- command_runner.c: which commands have been executed when the threads rest, and when the consumer
-- has stopped.
use ie0417_dev_b.Base.{
  ℕ, ◌+◌, ◌≤◌, ◌≡◌, refl, sym, ap, ◌∙◌, Bool, true, List, [], ◌∷◌, ◌++◌, ℤ, arith, ◌⊎◌, inl, inr,
  map, append-nil, append_assoc,
}
use native.Mathlib.Decide.{dec_lt}
use ie0417_dev_b.Process.{Ptr}
use ie0417_dev_b.Utlist.{Utlist}
use ie0417_dev_b.SensorCommands.CommandQueue.{CmdQNode, send_wait, recv_wait}
use ie0417_dev_b.SensorCommands.CommandRunner.{Thread, sending, consuming, stopped, System}
use ie0417_dev_b.SensorCommands.CommandRunner.Weights.{total, total-split}
use ie0417_dev_b.SensorCommands.CommandRunner.Balance.{queued}
use ie0417_dev_b.SensorCommands.CommandRunner.Safety.{IsRunner, IsRunner-Inv, queue-fifo}
use ie0417_dev_b.SensorCommands.CommandRunner.Hands.{
  hands, is_consumer, is_active, hands-alone, active-le,
}
use ie0417_dev_b.SensorCommands.CommandRunner.Resting.{find_positive}
use ie0417_dev_b.SensorCommands.CommandRunner.Progress.{Steps, no_deadlock, stuck-full, stuck-empty}
use ie0417_dev_b.SensorCommands.CommandRunner.Execution.{
  AllRun, executed-AllRun, executed-in_order, runner-IsOrdered,
}

-- A client in a call of `cmd_queue_send`.
abbrev pub in_call : {C : Type 0} → Thread C → ℕ
in_call (sending k) = 1
in_call _ = 0

total-active-le : {C : Type 0} (l : List (Thread C)) → total is_active l ≤ total is_consumer l
unfolding total
total-active-le [] = omega arith
total-active-le (p ∷ l) = omega (arith, total-active-le l, active-le p)

module _ {C : Type 0} (is_stop : C → Bool) (L : Utlist (Ptr (CmdQNode C))) where
  open L use {Dl, items}

  -- The first stop signal of a list stands at one place.
  first_stop :
      (xs ys l : List C) (c d : C)
      → AllRun is_stop L xs
      → AllRun is_stop L ys
      → is_stop c ≡ true
      → is_stop d ≡ true
      → xs ++ c ∷ [] ≡ ys ++ d ∷ l
      → (ys ≡ xs) × (l ≡ [])
  first_stop [] [] l c d hx hy p q e = ground arith
  first_stop [] (y ∷ ys) l c d hx hy p q e = absurd (ground (arith, hy.0))
  first_stop (x ∷ xs) [] l c d hx hy p q e = absurd (ground (arith, hx.0))
  first_stop (x ∷ xs) (y ∷ ys) l c d hx hy p q e =
      ground (arith, first_stop xs ys l c d hx.1 hy.1 p q)

  module _ (max : ℤ) {s : System C Dl} (r : IsRunner is_stop L max s) where
    waiting-queued :
        ¬ Steps is_stop L s
        → (xs ys : List (Thread C)) → s.threads ≡ xs ++ consuming recv_wait ∷ ys
        → queued L s.queue ≡ []
    waiting-queued stuck xs ys e = ap (map _) (stuck-empty is_stop L max r stuck xs ys e)

    none-in_call :
        ¬ Steps is_stop L s
        → (xs ys : List (Thread C)) → s.threads ≡ xs ++ consuming recv_wait ∷ ys
        → (zs ws : List (Thread C)) (p : Thread C) → s.threads ≡ zs ++ p ∷ ws
        → in_call p ≡ 0
    none-in_call stuck xs ys e zs ws (sending (send_wait n)) at =
        let (k, is, some_place, inv) = IsRunner-Inv is_stop L max r in
        let empty = stuck-empty is_stop L max r stuck xs ys e in
        let full = stuck-full is_stop L max r stuck zs ws n at in
        absurd (ground (arith, is, full, empty, some_place))
    none-in_call stuck xs ys e zs ws (sending k) at =
        absurd (stuck (no_deadlock is_stop L max r zs ws (sending k) at refl))
    none-in_call stuck xs ys e zs ws p at = refl

    -- In every reachable state with at most one consumer thread in which no thread can step and the
    -- consumer waits for a command, every command that was appended has been executed, in that
    -- order, and no client is inside a call of `cmd_queue_send`.
    pub rest-all_executed :
        total is_consumer s.threads ≤ 1
        → ¬ Steps is_stop L s
        → (xs ys : List (Thread C)) → s.threads ≡ xs ++ consuming recv_wait ∷ ys
        → (s.executed ≡ s.appended) × (total in_call s.threads ≡ 0)
    rest-all_executed one stuck xs ys e = (all (executed-in_order is_stop L max r one), no_call)
      where
        split : total is_consumer s.threads ≡ total is_consumer xs + 1 + total is_consumer ys
        split = ap (total is_consumer) e ∙ total-split is_consumer xs (consuming recv_wait) ys

        none_held : hands s.threads ≡ []
        none_held =
            ap hands e
            ∙ hands-alone xs ys (consuming recv_wait) (omega (arith, split, one))
                (omega (arith, split, one))

        all :
            (s.appended ≡ s.executed ++ (hands s.threads ++ queued L s.queue))
              ⊎ ((c : C) × (is_stop c ≡ true)
                  × (s.appended ≡ s.executed ++ c ∷ queued L s.queue)
                  × (total is_active s.threads ≡ 0))
            → s.executed ≡ s.appended
        all (inl h) = sym (h ∙ rw (none_held, waiting-queued stuck xs ys e) (append-nil s.executed))
        all (inr (c, stop, h, quiet)) = absurd (
            omega (
              arith,
              quiet,
              ap (total is_active) e ∙ total-split is_active xs (consuming recv_wait) ys,
            ))

        no_call : total in_call s.threads ≡ 0
        no_call = elim (dec_lt 0 (total in_call s.threads)) [
          | yes h ↦
              let (zs, p, ws, at, calling) = find_positive in_call s.threads h in
              absurd (omega (arith, calling, none-in_call stuck xs ys e zs ws p at))
          | no h ↦ omega arith
        ]

    -- In every reachable state with at most one consumer thread where the appended commands are
    -- some commands that are not stop signals followed by one stop signal, once the consumer has
    -- stopped it has executed exactly those commands, in that order, and the queue is empty.
    pub stopped-all_executed :
        total is_consumer s.threads ≤ 1
        → (cmds : List C) (c : C) → s.appended ≡ cmds ++ c ∷ []
        → AllRun is_stop L cmds
        → is_stop c ≡ true
        → (xs ys : List (Thread C)) → s.threads ≡ xs ++ stopped ∷ ys
        → (s.executed ≡ cmds) × (queued L s.queue ≡ [])
    stopped-all_executed one cmds c sent_all runs stop xs ys e =
        elim (runner-IsOrdered is_stop L max r one) [
          | inl (h, all_active) ↦ absurd (
              omega (
                arith,
                all_active,
                ap (total is_active) e ∙ total-split is_active xs stopped ys,
                ap (total is_consumer) e ∙ total-split is_consumer xs stopped ys,
                total-active-le xs,
                total-active-le ys,
              ))
          | inr (d, stop', h, quiet, some_consumer) ↦
              first_stop cmds s.executed (queued L s.queue) c d runs
                (executed-AllRun is_stop L max r) stop stop'
                (sym sent_all
                  ∙ queue-fifo is_stop L max r
                  ∙ ap (λ l. l ++ queued L s.queue) h
                  ∙ append_assoc s.executed (d ∷ []) (queued L s.queue))
        ]
