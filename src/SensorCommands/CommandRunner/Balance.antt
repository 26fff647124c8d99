-- ===== src/SensorCommands/CommandRunner/Balance.antt =====
-- How one step of a call changes the queue, and the numbers of threads at each place.
use ie0417_dev_b.Base.{
  ℕ, ◌+◌, ◌≡◌, ap, ◌∙◌, some, List, [], ◌∷◌, ◌++◌, map, arith, length, length-append, List-cases,
  append-nil, append_assoc, inl, inr,
}
use mathlib.Core.List.{map-append}
use ie0417_dev_b.Process.{Ptr}
use ie0417_dev_b.Utlist.{Utlist}
use ie0417_dev_b.SensorCommands.CommandQueue.{
  CmdQNode, CmdQueue, Answers, AreSound, Call, call_step,
}
use ie0417_dev_b.SensorCommands.CommandRunner.{call_appends, call_takes}
use ie0417_dev_b.SensorCommands.CommandRunner.Weights.{slot, claim, unposted, holds, failed, free}

module _ {C : Type 0} (L : Utlist (Ptr (CmdQNode C))) where
  open L use {Dl, items, items-append, head-items, items-delete}

  -- The semaphores, the length and the mutex, against the numbers of threads at each place.
  pub record Balance (q : CmdQueue Dl) (slots claims posts holders faults : ℕ) : Type 0 where
    pub places : q.empty + slots + q.len ≡ q.max_len
    pub commands : q.len ≡ q.occupied + claims + posts
    pub size : q.len ≡ length (items q.head)
    pub mutex : holders + free q.lock ≡ 1
    pub none_failed : faults ≡ 0

  -- The commands in the queue, from the head on.
  abbrev pub queued : CmdQueue Dl → List C
  queued q = map (λ n. n.val.cmd) (items q.head)

  pub call_step-Balance :
      (ans : Answers)
      → AreSound ans
      → (q q' : CmdQueue Dl) (k k' : Call C) (s c u m f : ℕ) → call_step L ans q k ≡ some (q', k')
      → Balance q (s + slot k) (c + claim k) (u + unposted k) (m + holds k) (f + failed k)
      → Balance q' (s + slot k') (c + claim k') (u + unposted k') (m + holds k') (f + failed k')
  unfolding call_step
  call_step-Balance ans ok q q' (Call.send_append n) k' s c u m f e b =
      ground (arith, items-append q.head n, length-append (items q.head) (n ∷ []))
  call_step-Balance ans ok q q' Call.recv_pop k' s c u m f e b = elim (List-cases (items q.head)) [
    | inl nil ↦ absurd (omega (arith, b.commands, b.size ∙ ap length nil))
    | inr (n, r, cons) ↦ ground (arith, head-items q.head, items-delete q.head n r cons)
  ]
  call_step-Balance ans ok q q' k k' s c u m f e b = ground arith

  pub call_step-fifo :
      (ans : Answers) (q q' : CmdQueue Dl) (k k' : Call C) (a t : List C)
      → call_step L ans q k ≡ some (q', k')
      → a ≡ t ++ queued q
      → a ++ call_appends k ≡ (t ++ call_takes k (L.head q.head)) ++ queued q'
  unfolding call_step call_appends call_takes
  call_step-fifo ans q q' (Call.send_append n) k' a t e h = ground (
    arith,
    items-append q.head n,
    map-append (λ (n : Ptr (CmdQNode C)). n.val.cmd) (items q.head) (n ∷ []),
    append_assoc t (queued q) (n.val.cmd ∷ []),
    append-nil t,
  )
  call_step-fifo ans q q' Call.recv_pop k' a t e h = elim (List-cases (items q.head)) [
    | inl nil ↦ ground (arith, head-items q.head, append-nil a, append-nil t)
    | inr (n, r, cons) ↦ ground (
      arith,
      head-items q.head,
      items-delete q.head n r cons,
      append-nil a,
      append_assoc t (n.val.cmd ∷ []) (map (λ (n : Ptr (CmdQNode C)). n.val.cmd) r),
    )
  ]
  call_step-fifo ans q q' (Call.recv_free n) k' a t e h = ground (arith, append-nil a, append-nil t)
  call_step-fifo ans q q' k k' a t e h = ground (arith, append-nil a, append-nil t)

  pub call_step-max_len :
      (ans : Answers) (q q' : CmdQueue Dl) (k k' : Call C)
      → call_step L ans q k ≡ some (q', k')
      → q'.max_len ≡ q.max_len
  unfolding call_step
  call_step-max_len ans q q' (Call.recv_free n) k' e = ground arith
  call_step-max_len ans q q' k k' e = ground arith
