-- ===== src/SensorCommands/CommandRunner/Tests.antt =====
-- Schedules of the threads of a runner, and the theorems on the states that they lead to.
use ie0417_dev_b.Base.{
  ℕ, ◌+◌, ◌≤◌, ◌<◌, ◌≡◌, ◌≢◌, refl, true, false, Option, none, some, [], ◌∷◌, ◌++◌, ◌⊎◌, ℤ, pos,
  arith, length, replicate, if◌then◌else◌, is_nonzero,
}
use ie0417_dev_b.Process.{World, Ptr, ◌>>=◌}
use ie0417_dev_b.SensorCommands.Types.{msg_cmd_exec_fn}
use ie0417_dev_b.SensorCommands.CommandQueue.{
  CmdQNode, InitAnswers, send_full, send_test, aborted, all_down, all_up, cmd_queue_init,
  sem_value_max,
}
use ie0417_dev_b.SensorCommands.CommandQueue.Init.{fresh, init-all_or_nothing}
use ie0417_dev_b.SensorCommands.CommandRunner.{
  idle, sending, consuming, stopped, thread_step, appends, takes, executes, Step, act,
}
use ie0417_dev_b.SensorCommands.CommandRunner.Api.{
  is_stop, CommandRunnerConfig, command_runner_create, command_runner_destroy, live_of,
  runner_create_destroy,
}
use ie0417_dev_b.SensorCommands.CommandRunner.Weights.{total, of_thread, holds}
use ie0417_dev_b.SensorCommands.CommandRunner.Balance.{queued}
use ie0417_dev_b.SensorCommands.CommandRunner.Hands.{hands, is_consumer, is_active}
use ie0417_dev_b.SensorCommands.CommandRunner.Safety.{
  IsRunner, queue-bounded, mutex-exclusive, checks-hold, queue-fifo,
}
use ie0417_dev_b.SensorCommands.CommandRunner.Progress.{Steps, no_deadlock, stuck-full}
use ie0417_dev_b.SensorCommands.CommandRunner.Drain.{in_call, rest-all_executed}
use ie0417_dev_b.SensorCommands.CommandRunner.Termination.{
  Leads, count, steps_left, count-le, comes_to_rest,
}
use ie0417_dev_b.SensorCommands.CommandRunner.Schedules.{
  C, L, S, Run, good, turn, turns, calls, initial, starts, halted,
}
use ie0417_dev_b.SensorCommands.CommandRunner.Executor.{Act, Acts, new_executor}
use ie0417_dev_b.SensorCommands.CommandRunner.View.{view}
use ie0417_dev_b.SensorCommands.CommandRunner.Refinement.{runner-refines}
use ie0417_dev_b.SensorCommands.CommandRunner.Execution.{executed-in_order}

abbrev command : ℕ → C
command a = record { addr = a; val = record { priv = none; execute = some msg_cmd_exec_fn } }

abbrev stop_signal : C
stop_signal = record { addr = 9; val = record { priv = none; execute = none } }

abbrev sound_answers : InitAnswers
sound_answers = record { empty_ret = pos 0; occupied_ret = pos 0; mutex_ret = pos 0 }

runner : (r : Run 2) → IsRunner is_stop L (pos 2) r.last
unfolding cmd_queue_init
runner r = record {
  answers = sound_answers;
  made = fresh L 2;
  up = all_up;
  init = refl;
  clients = 2;
  reach = r.reach;
}

-- Client 0 sends command 1 and is in the middle of sending command 2.
abbrev middle : Run 2
middle =
    turns (calls (turns (calls initial 0 (command 1)) (replicate 8 0)) 0 (command 2))
      (0 ∷ 0 ∷ 0 ∷ [])

test_middle : (middle.last.queue.lock ≡ true) × (middle.last.appended ≡ command 1 ∷ [])
unfolding turns turn calls thread_step appends takes executes
test_middle = (refl, refl)

-- Command 1 is executed, and the consumer has stopped at the stop signal behind it.
abbrev finished : Run 2
finished =
    let sends_both =
      turns (calls (turns (calls initial 0 (command 1)) (replicate 8 0)) 1 stop_signal)
        (replicate 8 1) in
    turns (starts sends_both) (replicate 16 0)

test_finished :
    (finished.last.threads ≡ stopped ∷ idle ∷ idle ∷ [])
    × (finished.last.executed ≡ command 1 ∷ [])
    × (finished.last.taken ≡ command 1 ∷ stop_signal ∷ [])
unfolding turns turn calls starts thread_step appends takes executes
test_finished = (refl, refl, refl)

-- Both places are taken, and client 1 waits to send a third command.
abbrev full : Run 2
full =
    let two_sent =
      turns (calls (turns (calls initial 0 (command 1)) (replicate 8 0)) 0 (command 2))
        (replicate 8 0) in
    turns (calls two_sent 1 (command 3)) (1 ∷ [])

one_consumer : total is_consumer finished.last.threads ≤ 1
unfolding turns turn calls starts thread_step total
one_consumer = omega arith

full-stuck : ¬ Steps is_stop L full.last
unfolding turns turn calls starts thread_step
full-stuck = halted full.last (λ ans. refl, (λ ans. refl, tt))

abbrev second : Ptr (CmdQNode C)
second = record { addr = 1; val = record { cmd = command 2 } }

abbrev third : Ptr (CmdQNode C)
third = record { addr = 1; val = record { cmd = command 3 } }

executed-in_order_example :
    (finished.last.appended
      ≡ finished.last.executed ++ (hands finished.last.threads ++ queued L finished.last.queue))
    ⊎ ((c : C) × (is_stop c ≡ true)
        × (finished.last.appended ≡ finished.last.executed ++ c ∷ queued L finished.last.queue)
        × (total is_active finished.last.threads ≡ 0))
executed-in_order_example = executed-in_order is_stop L (pos 2) (runner finished) one_consumer

checks-hold_example :
    (sending (send_test second) ≢ sending send_full)
    × (sending (send_test second) ≢ consuming aborted)
unfolding turns turn calls thread_step
checks-hold_example =
    checks-hold is_stop L (pos 2) (runner middle) [] (idle ∷ []) (sending (send_test second)) refl

no_deadlock_example : Steps is_stop L middle.last
unfolding turns turn calls thread_step
no_deadlock_example =
    no_deadlock is_stop L (pos 2) (runner middle) [] (idle ∷ []) (sending (send_test second)) refl
      refl

stuck-full_example : pos 2 ≡ pos (length (L.items full.last.queue.head))
unfolding turns turn calls thread_step
stuck-full_example = stuck-full is_stop L (pos 2) (runner full) full-stuck (idle ∷ []) [] third refl

queue-fifo_example : finished.last.appended ≡ finished.last.taken ++ queued L finished.last.queue
queue-fifo_example = queue-fifo is_stop L (pos 2) (runner finished)

mutex-exclusive_example :
    total (of_thread holds) middle.last.threads ≡ (if middle.last.queue.lock then 1 else 0)
mutex-exclusive_example = mutex-exclusive is_stop L (pos 2) (runner middle)

queue-bounded_example :
    (n : ℕ) × (pos 2 ≡ pos n)
    × (length (L.items full.last.queue.head) ≤ n)
    × (full.last.queue.len ≡ length (L.items full.last.queue.head))
    × (full.last.queue.empty + full.last.queue.occupied ≤ n)
queue-bounded_example = queue-bounded is_stop L (pos 2) (runner full)

init-all_or_nothing_example :
    ((r : ℤ) × (cmd_queue_init L sound_answers (pos 2) ≡ (r, none, all_down))
      × (is_nonzero r ≡ true))
    ⊎ ((n : ℕ) × (cmd_queue_init L sound_answers (pos 2) ≡ (pos 0, some (fresh L n), all_up))
        × (pos 2 ≡ pos n)
        × (0 < n)
        × (n < sem_value_max))
init-all_or_nothing_example = init-all_or_nothing L sound_answers (pos 2)

-- A process with memory, in which nothing happened yet.
abbrev world : World
world = record { next = 1; live = []; oom = λ n. false; junk = λ n i. 0; out = []; open_files = 0 }

abbrev config : Option CommandRunnerConfig
config = some (record { q_max_size = pos 2 })

runner_create_destroy_example :
    live_of L
      ((do r ← command_runner_create L sound_answers config; command_runner_destroy L r) world)
    ≡ some []
runner_create_destroy_example = runner_create_destroy L sound_answers config world

-- The consumer has executed command 1 and waits again.
abbrev drained : Run 2
drained = turns (starts (turns (calls initial 0 (command 1)) (replicate 8 0))) (replicate 8 0)

drained-stuck : ¬ Steps is_stop L drained.last
unfolding turns turn calls starts thread_step
drained-stuck = halted drained.last (λ ans. refl, (λ ans. refl, (λ ans. refl, tt)))

drained_consumer : total is_consumer drained.last.threads ≤ 1
unfolding turns turn calls starts thread_step total
drained_consumer = omega arith

rest-all_executed_example :
    (drained.last.executed ≡ drained.last.appended) × (total in_call drained.last.threads ≡ 0)
unfolding turns turn calls starts thread_step
rest-all_executed_example =
    rest-all_executed is_stop L (pos 2) (runner drained) drained_consumer drained-stuck []
      (idle ∷ idle ∷ []) refl

comes_to_rest_example : (t : S) × Leads is_stop L t middle.last × ¬ Steps is_stop L t
comes_to_rest_example = comes_to_rest is_stop L middle.last

abbrev rest : (t : S) × Leads is_stop L t middle.last × ¬ Steps is_stop L t
rest = comes_to_rest is_stop L middle.last

count-le_example :
    count is_stop L rest.1 + steps_left is_stop L rest.0 ≤ steps_left is_stop L middle.last
count-le_example = count-le is_stop L rest.1

-- The consumer has taken command 1 out of the queue and holds it.
abbrev holding : Run 2
holding = turns (starts (turns (calls initial 0 (command 1)) (replicate 8 0))) (replicate 7 0)

abbrev executed : Run 2
executed = turns holding (0 ∷ [])

last-Step : Step is_stop L holding.last executed.last
unfolding turns turn calls starts thread_step
last-Step =
    act [] (idle ∷ idle ∷ []) _ _ _ good refl (record { lock_ok = refl; unlock_ok = refl }) refl

executed_consumer : total is_consumer executed.last.threads ≤ 1
unfolding turns turn calls starts thread_step total
executed_consumer = omega arith

runner-refines_example :
    Acts is_stop 2 new_executor (view is_stop L holding.last)
    × ((view is_stop L executed.last ≡ view is_stop L holding.last)
        ⊎ Act is_stop 2 (view is_stop L holding.last) (view is_stop L executed.last))
runner-refines_example = runner-refines is_stop L 2 (runner holding) last-Step executed_consumer

test_executed :
    ((view is_stop L holding.last).held ≡ command 1 ∷ [])
    × ((view is_stop L executed.last).held ≡ [])
    × ((view is_stop L executed.last).executed ≡ command 1 ∷ [])
unfolding turns turn calls starts thread_step appends takes executes
test_executed = (refl, refl, refl)
