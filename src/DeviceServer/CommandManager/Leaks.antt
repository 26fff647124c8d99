-- ===== src/DeviceServer/CommandManager/Leaks.antt =====
-- src/lab3/src/command_manager.c: the blocks of a manager from its creation to its destruction.
use ie0417_dev_b.Base.{
  ℕ, ◌+◌, ◌≡◌, refl, ap, ◌∙◌, subst, false, some, List, [], ◌∷◌, ◌++◌, CString, length, arith,
  Bool-cases, inl, inr, if◌then◌else◌,
}
use ie0417_dev_b.Process.{M, World, pure, ◌>>=◌}
use ie0417_dev_b.Process.Frees.{freed}
use ie0417_dev_b.Uthash.{Uthash, has_key}
use ie0417_dev_b.DeviceServer.CommandManager.{
  CommandHashEntry, CommandManager, command_manager_create, command_manager_command_add,
  command_manager_command_remove, command_manager_destroy,
}
use ie0417_dev_b.DeviceServer.CommandManager.Add.{name_for, with_two, command_add-items}
use ie0417_dev_b.DeviceServer.CommandManager.Send.{command_remove-items}
use ie0417_dev_b.DeviceServer.CommandManager.Table.{
  first_entry, with_three, create-run, made-IsEntry,
}
use ie0417_dev_b.DeviceServer.CommandManager.Owned.{
  Kept, Owns, destroy-count, known-Owns, added-Owns, removed-Owns,
}

-- A call on a manager that changes its table.
pub data Change : Type 0 where
  adds : (name : CString) → Change
  removes : (name : CString) → Change

module _ (H : Uthash CommandHashEntry) where
  open H use {Table, items, null, add_keyptr, items-null, items-add}

  -- How many commands are created when the name is added.
  abbrev pub made : CommandManager Table → CString → ℕ
  made m name = if has_key name (items m.cmd_ht) then 0 else 1

  -- Several calls one after the other, and how many commands they create.
  abbrev pub change_all : CommandManager Table → List Change → M (CommandManager Table × ℕ)
  change_all m [] = pure (m, 0)
  change_all m (adds name ∷ l) = do
    m1 ← command_manager_command_add H m name
    (m2, n) ← change_all m1 l
    pure (m2, made m name + n)
  change_all m (removes name ∷ l) = do m1 ← command_manager_command_remove H m name; change_all m1 l

  add-Owns :
      (w0 : World) (n : ℕ) (w : World) (m : CommandManager Table) (name : CString)
      → Owns H w0 n w m
      → (m' : CommandManager Table) × (w' : World) × (command_manager_command_add H m name w
          ≡ some (m', w'))
        × Owns H w0 (n + made m name) w' m'
  add-Owns w0 n w m name h =
      let (t, run, is) =
        command_add-items H w m name h.live_self (h.memory w.next) (h.memory (w.next + 1)) in
      elim (Bool-cases (has_key name (items m.cmd_ht))) [
        | inl e ↦ (
          record m { cmd_ht = t },
          w,
          run ∙ rw e refl,
          subst (λ k. Owns H w0 k w (record m { cmd_ht = t })) (rw e (omega arith))
              (known-Owns H w0 n w m t h (is ∙ rw e refl)),
        )
        | inr e ↦ (
          record m { cmd_ht = t },
          with_two w,
          run ∙ rw e refl,
          rw e (added-Owns H w0 n w m name t h (is ∙ rw e refl)),
        )
      ]

  remove-Owns :
      (w0 : World) (n : ℕ) (w : World) (m : CommandManager Table) (name : CString)
      → Owns H w0 n w m
      → (m' : CommandManager Table) × (w' : World) × (command_manager_command_remove H m name w
          ≡ some (m', w'))
        × Owns H w0 n w' m'
  remove-Owns w0 n w m name h = elim (command_remove-items H w m name h.live_self h.table) [
    | inl (e, run) ↦ (m, w, run, h)
    | inr (q, t, e, is, run) ↦
        (record m { cmd_ht = t }, freed q.addr w, run, removed-Owns H w0 n w m name q t h e is)
  ]

  change_all-Owns :
      (w0 : World) (n : ℕ) (w : World) (m : CommandManager Table) (l : List Change)
      → Owns H w0 n w m
      → (m' : CommandManager Table) × (k : ℕ) × (w' : World) × (change_all m l w
          ≡ some ((m', k), w'))
        × Owns H w0 (n + k) w' m'
  change_all-Owns w0 n w m [] h = (m, 0, w, refl, subst (λ k. Owns H w0 k w m) (omega arith) h)
  change_all-Owns w0 n w m (adds name ∷ l) h =
      let (m1, w1, run, h1) = add-Owns w0 n w m name h in
      let (m2, k, w2, rest, h2) = change_all-Owns w0 (n + made m name) w1 m1 l h1 in
      (
        m2,
        made m name + k,
        w2,
        rw (run, rest) refl,
        subst (λ j. Owns H w0 j w2 m2) (omega arith) h2,
      )
  change_all-Owns w0 n w m (removes name ∷ l) h =
      let (m1, w1, run, h1) = remove-Owns w0 n w m name h in
      let (m2, k, w2, rest, h2) = change_all-Owns w0 n w1 m1 l h1 in
      (m2, k, w2, rw (run, rest) refl, h2)

  create-Owns :
      (w : World) (name : CString)
      → ((k : ℕ) → w.oom k ≡ false)
      → (m : CommandManager Table) × (w' : World) × (command_manager_create H name w
          ≡ some (some m, w'))
        × Owns H w 1 w' m
  create-Owns w name o =
      let p = first_entry H (w.next + 1) name in
      let new : items (add_keyptr null (name_for name) p) ≡ (name_for name, p) ∷ [] =
        items-add null (name_for name) p ∙ ap (λ l. l ++ (name_for name, p) ∷ []) items-null in
      let own =
        made-IsEntry (with_three H w) (w.next + 1) (w.next + 1 + 1) name _ (ground arith)
          (ground arith) in
      (
        record { addr = w.next; cmd_ht = add_keyptr null (name_for name) p },
        with_three H w,
        create-run H w name (o w.next) (o (w.next + 1)) (o (w.next + 1 + 1)),
        record {
          memory = o;
          live_self = ground arith;
          table = rw new (own, tt);
          spaced = rw new (omega arith, refl, tt);
          below = rw new (omega arith, tt);
          older = omega arith;
          newer = omega arith;
          kept = λ a y i. ground (arith, i);
          count = rw new (omega arith);
        },
      )

  -- With memory for every allocation, creating a manager, adding and removing names in any sequence
  -- and destroying the manager never faults. What was allocated before, in blocks of earlier
  -- numbers, stays allocated, and at the end one more block is allocated for each command that was
  -- created: the first one, and one for every name added that the table did not have.
  pub create_change_destroy-leaves :
      (w : World) (name : CString) (l : List Change)
      → ((k : ℕ) → w.oom k ≡ false)
      → (m : CommandManager Table) × (w1 : World) × (m' : CommandManager Table) × (n : ℕ)
        × (w2 : World) × (w3 : World) × (command_manager_create H name w ≡ some (some m, w1))
        × (change_all m l w1 ≡ some ((m', n), w2))
        × (command_manager_destroy H m' w2 ≡ some (tt, w3))
        × Kept w.next w w3
        × (length w3.live ≡ length w.live + (1 + n))
  create_change_destroy-leaves w name l o =
      let (m, w1, new, h) = create-Owns w name o in
      let (m', n, w2, changed, h') = change_all-Owns w 1 w1 m l h in
      let (w3, gone, keep, c) = destroy-count H w (1 + n) w2 m' h' in
      (m, w1, m', n, w2, w3, new, changed, gone, keep, c)
