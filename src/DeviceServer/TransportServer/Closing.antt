-- ===== src/DeviceServer/TransportServer/Closing.antt =====
-- src/lab3/src/transport_server.c: how the server thread takes its two commands out again.
use ie0417_dev_b.Base.{
  ℕ, ◌+◌, ◌≡◌, refl, sym, ap, ◌∙◌, subst, true, false, some, is_some, List, [], ◌∷◌, CString,
  bytes_eq, bytes_eq_refl, length, arith, Option-cases, inl, inr,
}
use ie0417_dev_b.Process.{
  World, pure, Ptr, mem, remove, mem-remove, length-remove, free, ◌>>=◌, ◌>>◌,
}
use ie0417_dev_b.Uthash.{Uthash, has_key, Entry}
use ie0417_dev_b.DeviceServer.Command.{message, ping_pong}
use ie0417_dev_b.DeviceServer.CommandManager.{
  CommandHashEntry, CommandManager, command_manager_command_remove, command_manager_destroy,
}
use ie0417_dev_b.DeviceServer.CommandManager.Add.{entry_at}
use ie0417_dev_b.DeviceServer.CommandManager.Send.{IsEntry, IsTable, remove-found}
use ie0417_dev_b.DeviceServer.CommandManager.Table.{IsWellFormed, first_entry}
use ie0417_dev_b.DeviceServer.TransportServer.{Frame}

Entry-has_key :
    {X : Type 0} (k : CString) (q : Ptr X) (l : List (CString × Ptr X))
    → Entry k q l
    → has_key k l ≡ true
Entry-has_key k q [] e = absurd e
Entry-has_key k q ((j, p) ∷ l) (inl (i, is)) = ground (arith, ap (bytes_eq j) i, bytes_eq_refl j)
Entry-has_key k q ((j, p) ∷ l) (inr e) = ground (arith, Entry-has_key k q l e)

Entry-first :
    {X : Type 0} (k : CString) (p q : Ptr X) (l : List (CString × Ptr X))
    → has_key k l ≡ false
    → Entry k q ((k, p) ∷ l)
    → p ≡ q
Entry-first k p q l h (inl (i, is)) = is
Entry-first k p q l h (inr e) = absurd (ground (arith, Entry-has_key k q l e))

module _ (H : Uthash CommandHashEntry) where
  open H use {
    Table, null, find, items, delete, add_keyptr, items-add, items-null, items-delete, is_some-find,
    find-Entry,
  }

  find-first :
      (t : Table) (k : CString) (p : Ptr CommandHashEntry)
      (l : List (CString × Ptr CommandHashEntry))
      → items t ≡ (k, p) ∷ l
      → has_key k l ≡ false
      → find t k ≡ some p
  find-first t k p l is h = elim (Option-cases (find t k)) [
    | inl e ↦
        let has = sym (is_some-find t k) ∙ ap is_some e in
        absurd (ground (arith, sym (ap (has_key k) is) ∙ has, bytes_eq_refl k))
    | inr (q, e) ↦
        e ∙ ap some (sym (Entry-first k p q l h (subst (Entry k q) is (find-Entry t k q e))))
  ]

  remove-first :
      (w : World) (m : CommandManager Table) (k : CString) (p : Ptr CommandHashEntry)
      (l : List (CString × Ptr CommandHashEntry))
      → mem m.addr w.live ≡ true
      → items m.cmd_ht ≡ (k, p) ∷ l
      → has_key k l ≡ false
      → IsEntry w k p
      → (t : Table) × (command_manager_command_remove H m k w
          ≡ some (record m { cmd_ht = t }, record w { live = remove p.addr w.live }))
        × (items t ≡ l)
  remove-first w m k p l h is n e = (
    delete m.cmd_ht p,
    remove-found H w m k p h (find-first m.cmd_ht k p l is n) e,
    items-delete m.cmd_ht p ∙ rw is (ground arith),
  )

  -- The table of the thread, whose manager is in block `a`.
  abbrev pub server_table : ℕ → Table
  server_table a =
      add_keyptr (add_keyptr null message (first_entry H (a + 1) message)) ping_pong
        (entry_at H (a + 1 + 1 + 1) ping_pong).1

  pub items-server_table :
      (a : ℕ)
      → items (server_table a)
        ≡ (message, first_entry H (a + 1) message)
          ∷ (ping_pong, (entry_at H (a + 1 + 1 + 1) ping_pong).1)
          ∷ []
  items-server_table a =
      let t = add_keyptr null message (first_entry H (a + 1) message) in
      rw
        (
          items-add t ping_pong (entry_at H (a + 1 + 1 + 1) ping_pong).1,
          items-add null message (first_entry H (a + 1) message),
          items-null,
        )
        refl

  -- Both commands are removed, and the manager is destroyed.
  module _ (a : ℕ) (w : World) where
    pub closing :
        (replies : List Frame)
        → IsWellFormed H w (record { addr = a; cmd_ht = server_table a })
        → (w' : World) × ((do
          m1 ←
              command_manager_command_remove H
                (record { addr = a; cmd_ht = server_table a })
                message
          m2 ← command_manager_command_remove H m1 ping_pong
          command_manager_destroy H m2
          pure replies)
              w
            ≡ some (replies, w'))
          × (length w'.live + 3 ≡ length w.live)
    unfolding command_manager_destroy free
    closing replies h =
        let all = subst (IsTable w) (items-server_table a) h.table in
        let (t1, run1, is1) =
          remove-first w (record { addr = a; cmd_ht = server_table a }) message _ _ h.live_self
            (items-server_table a) refl all.0 in
        let live1 = remove (a + 1 + 1) w.live in
        let w1 = record w { live = live1 } in
        let second = all.1.0 in
        let here = mem-remove a (a + 1 + 1) w.live (omega arith) h.live_self in
        let entry =
          mem-remove (a + 1 + 1 + 1 + 1) (a + 1 + 1) w.live (omega arith) second.live_entry in
        let (t2, run2, is2) =
          remove-first w1 (record { addr = a; cmd_ht = t1 }) ping_pong _ [] here is1 refl
            (record {
              live_entry = entry;
              live_command =
                  mem-remove (a + 1 + 1 + 1) (a + 1 + 1) w.live (omega arith) second.live_command;
              name = refl;
              execute = refl;
            }) in
        let live2 = remove (a + 1 + 1 + 1 + 1) live1 in
        let here2 = mem-remove a (a + 1 + 1 + 1 + 1) live1 (omega arith) here in
        (
          record w { live = remove a live2 },
          rw (run1, run2, here2, is2, here2) refl,
          omega (
            arith,
            length-remove (a + 1 + 1) w.live all.0.live_entry,
            length-remove (a + 1 + 1 + 1 + 1) live1 entry,
            length-remove a live2 here2,
          ),
        )
