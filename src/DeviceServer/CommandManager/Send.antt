-- ===== src/DeviceServer/CommandManager/Send.antt =====
-- src/lab3/src/command_manager.c: executing and removing the commands of the table.
use ie0417_dev_b.Base.{
  ℕ, ◌+◌, ◌≡◌, refl, sym, ap, ◌∙◌, subst, true, false, ◌⊎◌, inl, inr, Option, none, some, is_some,
  List, [], ◌∷◌, CString, arith, if◌then◌else◌, Option-cases,
}
use ie0417_dev_b.Process.{World, Ptr, mem, remove}
use ie0417_dev_b.Uthash.{Uthash, has_key, Entry, erase_entry}
use ie0417_dev_b.DeviceServer.Command.{
  CjsonText, CommandFn, exec_func_msg_fn, exec_func_pipo_fn, Response, exec_func_msg,
  exec_func_pipo,
}
use ie0417_dev_b.DeviceServer.CommandManager.{
  CommandHashEntry, CommandManager, command_manager_cmd_send, command_manager_command_remove,
}
use ie0417_dev_b.DeviceServer.CommandManager.Add.{fn_for}

-- An entry whose command has its name and the function of that name, with both blocks allocated.
pub record IsEntry (w : World) (k : CString) (p : Ptr CommandHashEntry) : Type 0 where
  pub live_entry : mem p.addr w.live ≡ true
  pub live_command : mem p.val.cmd.addr w.live ≡ true
  pub name : p.val.cmd.val.name ≡ k
  pub execute : p.val.cmd.val.execute ≡ some (fn_for k)

abbrev pub IsTable : World → List (CString × Ptr CommandHashEntry) → Type 0
IsTable w [] = Unit
IsTable w ((k, p) ∷ l) = IsEntry w k p × IsTable w l

pub Entry-IsEntry :
    (w : World) (k : CString) (p : Ptr CommandHashEntry) (l : List (CString × Ptr CommandHashEntry))
    → IsTable w l
    → Entry k p l
    → IsEntry w k p
Entry-IsEntry w k p [] h e = absurd e
Entry-IsEntry w k p ((j, q) ∷ l) h (inl (i, is)) =
    subst (λ x. IsEntry w x p) i (subst (IsEntry w j) is h.0)
Entry-IsEntry w k p (x ∷ l) h (inr e) = Entry-IsEntry w k p l h.1 e

-- The world after one allocation.
abbrev pub with_one : World → World
with_one w = record w { next = w.next + 1; live = w.next ∷ w.live }

module _ (H : Uthash CommandHashEntry) (J : CjsonText) where
  open H use {Table, find, items, is_some-find, find-Entry}

  -- What the function of a command answers to a request.
  abbrev pub answer : CommandFn → CString → Option ℕ → Response
  answer exec_func_msg_fn json buff = exec_func_msg J json buff
  answer exec_func_pipo_fn json buff = exec_func_pipo J json buff

  module _ (w : World) (m : CommandManager Table) (name json : CString) where
    send-missing :
        w.oom w.next ≡ false
        → mem m.addr w.live ≡ true
        → find m.cmd_ht name ≡ none
        → command_manager_cmd_send H J m name json none w ≡ none
    unfolding command_manager_cmd_send
    send-missing o h e = rw (o, e) (ground arith)

    send-found :
        (q : Ptr CommandHashEntry) (f : CommandFn)
        → w.oom w.next ≡ false
        → mem m.addr w.live ≡ true
        → find m.cmd_ht name ≡ some q
        → mem q.addr w.live ≡ true
        → mem q.val.cmd.addr w.live ≡ true
        → q.val.cmd.val.execute ≡ some f
        → command_manager_cmd_send H J m name json none w
          ≡ some (answer f json (some w.next), with_one w)
    unfolding command_manager_cmd_send
    send-found q exec_func_msg_fn o h e l c x = rw (o, e) (ground arith)
    send-found q exec_func_pipo_fn o h e l c x = rw (o, e) (ground arith)

    -- In a table of well-formed entries, with memory for the request buffer and no buffer before,
    -- `command_manager_cmd_send` to a name of the table gives the answer of the function of that
    -- name, and to any other name it faults, since it reads the command of an entry that is NULL.
    pub cmd_send-answers :
        w.oom w.next ≡ false
        → mem m.addr w.live ≡ true
        → IsTable w (items m.cmd_ht)
        → command_manager_cmd_send H J m name json none w ≡ (
            if has_key name (items m.cmd_ht)
            then some (answer (fn_for name) json (some w.next), with_one w)
            else none)
    cmd_send-answers o h t = elim (Option-cases (find m.cmd_ht name)) [
      | inl e ↦ rw (← (is_some-find m.cmd_ht name), e) (send-missing o h e)
      | inr (q, e) ↦
          let is = Entry-IsEntry w name q (items m.cmd_ht) t (find-Entry m.cmd_ht name q e) in
          rw (← (is_some-find m.cmd_ht name), e)
            (send-found q (fn_for name) o h e is.live_entry is.live_command is.execute)
    ]

module _ (H : Uthash CommandHashEntry) where
  open H use {Table, find, items, is_some-find, find-Entry}

  module _ (w : World) (m : CommandManager Table) (name : CString) where
    remove-missing :
        mem m.addr w.live ≡ true
        → find m.cmd_ht name ≡ none
        → command_manager_command_remove H m name w ≡ some (m, w)
    unfolding command_manager_command_remove
    remove-missing h e = rw (h, e) refl

    pub remove-found :
        (q : Ptr CommandHashEntry)
        → mem m.addr w.live ≡ true
        → find m.cmd_ht name ≡ some q
        → IsEntry w name q
        → command_manager_command_remove H m name w
          ≡ some
              (record m { cmd_ht = H.delete m.cmd_ht q }, record w { live = remove q.addr w.live })
    unfolding command_manager_command_remove
    remove-found q h e is =
        rw (h, e, is.live_entry, is.live_command, ap (find m.cmd_ht) is.name ∙ e, is.live_entry)
          refl

    -- In a table of well-formed entries, `command_manager_command_remove` takes one command of the
    -- name out of the table and frees the block of its entry, and no other block; for a name that
    -- is not in the table it changes nothing.
    pub command_remove-items :
        mem m.addr w.live ≡ true
        → IsTable w (items m.cmd_ht)
        → ((has_key name (items m.cmd_ht) ≡ false)
            × (command_manager_command_remove H m name w ≡ some (m, w)))
          ⊎ ((q : Ptr CommandHashEntry) × (t : Table) × Entry name q (items m.cmd_ht)
              × (items t ≡ erase_entry q.addr (items m.cmd_ht))
              × (command_manager_command_remove H m name w
                  ≡ some (record m { cmd_ht = t }, record w { live = remove q.addr w.live })))
    command_remove-items h t = elim (Option-cases (find m.cmd_ht name)) [
      | inl e ↦ inl (sym (is_some-find m.cmd_ht name) ∙ ap is_some e, remove-missing h e)
      | inr (q, e) ↦
          let entry = find-Entry m.cmd_ht name q e in
          inr (
            q,
            H.delete m.cmd_ht q,
            entry,
            H.items-delete m.cmd_ht q,
            remove-found q h e (Entry-IsEntry w name q (items m.cmd_ht) t entry),
          )
    ]
