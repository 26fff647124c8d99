-- ===== src/DeviceServer/CommandManager/AnyMemory.antt =====
-- src/lab3/src/command_manager.c: adding a command when allocations may be refused.
use ie0417_dev_b.Base.{
  ◌+◌, ◌≡◌, refl, ◌∙◌, true, false, none, some, is_some, ◌∷◌, CString, bytes_eq, arith,
  if◌then◌else◌, Bool-cases, inl, inr,
}
use ie0417_dev_b.Process.{Run, World, mem}
use ie0417_dev_b.Uthash.{Uthash, has_key}
use ie0417_dev_b.DeviceServer.Command.{message}
use ie0417_dev_b.DeviceServer.CommandManager.{
  CommandHashEntry, CommandManager, command_manager_command_add,
}
use ie0417_dev_b.DeviceServer.CommandManager.Add.{name_for, with_two, entry_at, add-run, add-known}

-- The world after two allocations that were both refused, and after one that was granted and one
-- that was refused.
abbrev both_refused : World → World
both_refused w = record w { next = w.next + 1 + 1 }

abbrev entry_refused : World → World
entry_refused w = record w { next = w.next + 1 + 1; live = w.next ∷ w.live }

module _ (H : Uthash CommandHashEntry) where
  open H use {Table, find, items, add_keyptr, is_some-find}

  -- What becomes of a name that the table does not have.
  abbrev pub added_or_not : CommandManager Table → CString → World → Run (CommandManager Table)
  added_or_not m name w =
      if w.oom w.next
      then (if w.oom (w.next + 1) then some (m, both_refused w) else none)
      else (if w.oom (w.next + 1)
          then some (m, entry_refused w)
          else some (
            record m { cmd_ht = add_keyptr m.cmd_ht (name_for name) (entry_at H w.next name).1 },
            with_two w,
          ))

  module _ (w : World) (m : CommandManager Table) (name : CString) (h : mem m.addr w.live ≡ true)
      (is : is_some (find m.cmd_ht name) ≡ false) where
    add-no_entry :
        w.oom w.next ≡ false
        → w.oom (w.next + 1) ≡ true
        → command_manager_command_add H m name w ≡ some (m, entry_refused w)
    unfolding command_manager_command_add
    add-no_entry p q = elim (Bool-cases (bytes_eq name message)) [
      | inl b ↦ rw (h, is, b) (ground arith)
      | inr b ↦ rw (h, is, b) (ground arith)
    ]

    add-no_command :
        w.oom w.next ≡ true
        → command_manager_command_add H m name w
          ≡ (if w.oom (w.next + 1) then some (m, both_refused w) else none)
    unfolding command_manager_command_add
    add-no_command p = elim (Bool-cases (bytes_eq name message)) [
      | inl b ↦ rw (h, is, b) (ground arith)
      | inr b ↦ rw (h, is, b) (ground arith)
    ]

  -- What `command_manager_command_add` does for whatever memory is granted: a name that the table
  -- has changes nothing; for any other name, with memory for both allocations a command is added,
  -- where only the entry is refused the table stays and the block of the command is lost, where
  -- both are refused nothing is added, and where the command is refused and the entry granted it
  -- faults, since it reads the name of a command that is NULL.
  pub command_add-any_memory :
      (w : World) (m : CommandManager Table) (name : CString)
      → mem m.addr w.live ≡ true
      → command_manager_command_add H m name w
        ≡ (if has_key name (items m.cmd_ht) then some (m, w) else added_or_not m name w)
  command_add-any_memory w m name h = elim (Bool-cases (has_key name (items m.cmd_ht))) [
    | inl e ↦ add-known H w m name h (is_some-find m.cmd_ht name ∙ e) ∙ rw e refl
    | inr e ↦
        let is = is_some-find m.cmd_ht name ∙ e in
        elim (Bool-cases (w.oom w.next)) [
          | inl p ↦ add-no_command w m name h is p ∙ rw (e, p) refl
          | inr p ↦ elim (Bool-cases (w.oom (w.next + 1))) [
            | inl q ↦ add-no_entry w m name h is p q ∙ rw (e, p, q) refl
            | inr q ↦ add-run H w m name h p q is ∙ rw (e, p, q) refl
          ]
        ]
  ]
