-- ===== src/SensorCommands/CommandRunner/Safety.antt =====
-- What holds of a runner in every state that its threads can reach.
use ie0417_dev_b.Base.{
  ℕ, zero, suc, ◌+◌, ◌≤◌, ◌<◌, ◌≡◌, ◌≢◌, refl, sym, ap, Bool, some, List, ◌∷◌, ◌++◌, map, ℤ, pos,
  arith, length, replicate, subst, if◌then◌else◌,
}
use ie0417_dev_b.Process.{Ptr}
use ie0417_dev_b.Utlist.{Utlist}
use ie0417_dev_b.SensorCommands.CommandQueue.{
  CmdQNode, CmdQueue, InitAnswers, Primitives, Call, cmd_queue_init, send_full, aborted,
}
use ie0417_dev_b.SensorCommands.CommandQueue.Init.{fresh, init-fresh}
use ie0417_dev_b.SensorCommands.CommandRunner.{
  Thread, idle, sending, consuming, System, Reach, here, next, new_system,
}
use ie0417_dev_b.SensorCommands.CommandRunner.Weights.{
  total, total-split, slot, claim, unposted, holds, failed, of_thread,
}
use ie0417_dev_b.SensorCommands.CommandRunner.Balance.{queued}
use ie0417_dev_b.SensorCommands.CommandRunner.Invariant.{Inv, Step-Inv}

module _ {C : Type 0} (is_stop : C → Bool) (L : Utlist (Ptr (CmdQNode C))) where
  open L use {Dl, items, items-null}

  total-idle : (w : Call C → ℕ) (n : ℕ) → total (of_thread w) (replicate n idle) ≡ 0
  unfolding total
  total-idle w zero = refl
  total-idle w (suc n) = omega (arith, total-idle w n)

  fresh-Inv :
      (n clients : ℕ) → Inv is_stop L n (new_system is_stop L (fresh L n) (replicate clients idle))
  fresh-Inv n k = record {
    balance = record {
      places = omega (arith, total-idle slot k);
      commands = omega (arith, total-idle claim k, total-idle unposted k);
      size = sym (ap length items-null);
      mutex = omega (arith, total-idle holds k);
      none_failed = total-idle failed k;
    };
    fifo = sym (ap (map _) items-null);
    bound = refl;
  }

  pub Reach-Inv :
      (n : ℕ) {s t : System C Dl} → Inv is_stop L n s → Reach is_stop L s t → Inv is_stop L n t
  Reach-Inv n inv here = inv
  Reach-Inv n inv (next r step) = Step-Inv is_stop L n step (Reach-Inv n inv r)

  -- The states of a runner whose queue was made by `cmd_queue_init` and has some clients.
  pub record IsRunner (max : ℤ) (s : System C Dl) : Type 0 where
    pub answers : InitAnswers
    pub made : CmdQueue Dl
    pub up : Primitives
    pub init : cmd_queue_init L answers max ≡ (pos 0, some made, up)
    pub clients : ℕ
    pub reach : Reach is_stop L (new_system is_stop L made (replicate clients idle)) s

  pub IsRunner-Inv :
      (max : ℤ) {s : System C Dl}
      → IsRunner max s
      → (n : ℕ) × (max ≡ pos n) × (0 < n) × Inv is_stop L n s
  IsRunner-Inv max r =
      let (n, is, some_place, new) = init-fresh L r.answers max (pos 0) r.init in
      (
        n,
        is,
        some_place,
        Reach-Inv n
            (subst (λ q. Inv is_stop L n (new_system is_stop L q (replicate r.clients idle)))
              (sym new) (fresh-Inv n r.clients))
            r.reach,
      )

  module _ (max : ℤ) {s : System C Dl} (r : IsRunner max s) where
    -- In every reachable state the configured size is a natural number n, the queue holds at most n
    -- commands, `len` is their number, and the values of the two semaphores add up to at most n.
    pub queue-bounded :
        (n : ℕ) × (max ≡ pos n)
        × (length (items s.queue.head) ≤ n)
        × (s.queue.len ≡ length (items s.queue.head))
        × (s.queue.empty + s.queue.occupied ≤ n)
    queue-bounded =
        let (n, is, some_place, inv) = IsRunner-Inv max r in
        let b = inv.balance in
        (
          n,
          is,
          omega (arith, b.size, b.places, inv.bound),
          b.size,
          omega (arith, b.size, b.places, b.commands, inv.bound),
        )

    -- In every reachable state the number of threads between the lock and the unlock of the mutex
    -- is 1 while the mutex is locked, and 0 while it is not.
    pub mutex-exclusive : total (of_thread holds) s.threads ≡ (if s.queue.lock then 1 else 0)
    mutex-exclusive =
        let (n, is, some_place, inv) = IsRunner-Inv max r in ground (arith, inv.balance.mutex)

    -- In every reachable state, under any interleaving of any number of clients and consumers, no
    -- thread is in the ERANGE branch of `cmd_queue_send`, and none has failed the assertion of
    -- `cmd_queue_recv`.
    pub checks-hold :
        (xs ys : List (Thread C)) (p : Thread C)
        → s.threads ≡ xs ++ p ∷ ys
        → (p ≢ sending send_full) × (p ≢ consuming aborted)
    checks-hold xs ys p e =
        let (n, is, some_place, inv) = IsRunner-Inv max r in
        let b = inv.balance in
        let zero_at : of_thread failed p ≡ 0 = omega (
          arith,
          b.none_failed,
          ap (total (of_thread failed)) e,
          total-split (of_thread failed) xs p ys,
        ) in
        (λ is. ground (arith, zero_at), λ is. ground (arith, zero_at))

    -- In every reachable state the commands appended to the queue are those taken out of it, in the
    -- same order, followed by those in it.
    pub queue-fifo : s.appended ≡ s.taken ++ queued L s.queue
    queue-fifo = (IsRunner-Inv max r).3.fifo
