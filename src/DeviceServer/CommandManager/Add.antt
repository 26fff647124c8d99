-- ===== src/DeviceServer/CommandManager/Add.antt =====
-- src/lab3/src/command_manager.c: what adding a command does to the table.
use ie0417_dev_b.Base.{
  ℕ, ◌+◌, ◌≤◌, ◌≡◌, refl, sym, ap, ◌∙◌, subst, true, false, ◌||◌, some, is_some, List, [], ◌∷◌,
  ◌++◌, CString, bytes, bytes_eq, bytes_eq_sound, bytes_eq_refl, arith, if◌then◌else◌, Bool-cases,
  inl, inr,
}
use ie0417_dev_b.Process.{World, Ptr, mem}
use ie0417_dev_b.Uthash.{Uthash, has_key}
use ie0417_dev_b.DeviceServer.Command.{
  CommandFn, exec_func_msg_fn, exec_func_pipo_fn, CommandInfo, message, ping_pong,
}
use ie0417_dev_b.DeviceServer.CommandManager.{
  CommandHashEntry, CommandManager, command_manager_command_add,
}

-- The name and the function of the command that is made for a name.
abbrev pub name_for : CString → CString
name_for name = if bytes_eq name message then message else ping_pong

abbrev pub fn_for : CString → CommandFn
fn_for name = if bytes_eq name message then exec_func_msg_fn else exec_func_pipo_fn

abbrev pub command_at : ℕ → CString → CString → Ptr CommandInfo
command_at a name attributes = record {
  addr = a;
  val = record { name = name_for name; priv = some attributes; execute = some (fn_for name) };
}

-- The world after two allocations.
abbrev pub with_two : World → World
with_two w = record w { next = w.next + 1 + 1; live = (w.next + 1) ∷ w.next ∷ w.live }

-- How many entries have the key.
abbrev pub count_key : {X : Type 0} → CString → List (CString × Ptr X) → ℕ
count_key k [] = 0
count_key k ((j, p) ∷ l) = (if bytes_eq j k then 1 else 0) + count_key k l

module _ {X : Type 0} where
  count_key-append :
      (k j : CString) (p : Ptr X) (l : List (CString × Ptr X))
      → count_key k (l ++ (j, p) ∷ []) ≡ count_key k l + (if bytes_eq j k then 1 else 0)
  count_key-append k j p [] = omega arith
  count_key-append k j p ((i, q) ∷ l) = omega (arith, count_key-append k j p l)

  count_key-none :
      (k : CString) (l : List (CString × Ptr X)) → has_key k l ≡ false → count_key k l ≡ 0
  count_key-none k [] h = refl
  count_key-none k ((j, p) ∷ l) h = ground (arith, count_key-none k l)

  has_key-append :
      (k j : CString) (p : Ptr X) (l : List (CString × Ptr X))
      → has_key k (l ++ (j, p) ∷ []) ≡ has_key k l || bytes_eq j k
  has_key-append k j p [] = ground arith
  has_key-append k j p ((i, q) ∷ l) = ground (arith, has_key-append k j p l)

module _ (H : Uthash CommandHashEntry) where
  open H use {Table, find, items, add_keyptr, items-add, is_some-find}

  -- The entry that is added for a name in blocks `a` and `a + 1`.
  abbrev pub entry_at : ℕ → CString → CString × Ptr CommandHashEntry
  entry_at a name = (
    name_for name,
    record { addr = a + 1; val = record { cmd = command_at a name (bytes "This is a attribute") } },
  )

  pub add-run :
      (w : World) (m : CommandManager Table) (name : CString)
      → mem m.addr w.live ≡ true
      → w.oom w.next ≡ false
      → w.oom (w.next + 1) ≡ false
      → is_some (find m.cmd_ht name) ≡ false
      → command_manager_command_add H m name w
        ≡ some (
          record m { cmd_ht = add_keyptr m.cmd_ht (name_for name) (entry_at w.next name).1 },
          with_two w,
        )
  unfolding command_manager_command_add
  add-run w m name h p q is = elim (Bool-cases (bytes_eq name message)) [
    | inl b ↦ rw (h, is, b) (ground arith)
    | inr b ↦ rw (h, is, b) (ground arith)
  ]

  pub add-known :
      (w : World) (m : CommandManager Table) (name : CString)
      → mem m.addr w.live ≡ true
      → is_some (find m.cmd_ht name) ≡ true
      → command_manager_command_add H m name w ≡ some (m, w)
  unfolding command_manager_command_add
  add-known w m name h is = rw (h, is) refl

  -- With memory for two allocations, adding a name that the table has changes nothing, and for any
  -- other name a command is added at the end of the table, under "message" for that name and under
  -- "ping_pong" for every other.
  pub command_add-items :
      (w : World) (m : CommandManager Table) (name : CString)
      → mem m.addr w.live ≡ true
      → w.oom w.next ≡ false
      → w.oom (w.next + 1) ≡ false
      → (t : Table) × (command_manager_command_add H m name w
          ≡ some (record m { cmd_ht = t }, if has_key name (items m.cmd_ht) then w else with_two w))
        × (items t ≡ (
            if has_key name (items m.cmd_ht)
            then items m.cmd_ht
            else items m.cmd_ht ++ entry_at w.next name ∷ []))
  command_add-items w m name h p q = elim (Bool-cases (has_key name (items m.cmd_ht))) [
    | inl e ↦ (m.cmd_ht, add-known w m name h (is_some-find m.cmd_ht name ∙ e) ∙ rw e, rw e refl)
    | inr e ↦ (
      add_keyptr m.cmd_ht (name_for name) (entry_at w.next name).1,
      add-run w m name h p q (is_some-find m.cmd_ht name ∙ e) ∙ rw e,
      rw e (items-add m.cmd_ht (name_for name) (entry_at w.next name).1),
    )
  ]

  -- No two commands of the table have the same name.
  abbrev pub IsUnique : Table → Type 0
  IsUnique t = (k : CString) → count_key k (items t) ≤ 1

  IsUnique-add :
      (t : Table) (name : CString) (e : Ptr CommandHashEntry)
      → IsUnique t
      → has_key name (items t) ≡ false
      → IsUnique (add_keyptr t name e)
  IsUnique-add t name e u h k =
      let count = ap (count_key k) (items-add t name e) ∙ count_key-append k name e (items t) in
      elim (Bool-cases (bytes_eq name k)) [
        | inl b ↦
            let absent = subst (λ x. has_key x (items t) ≡ false) (bytes_eq_sound name k b) h in
            ground (arith, count, count_key-none k (items t) absent)
        | inr b ↦ ground (arith, count, u k)
      ]

  -- With memory for two allocations, adding one of the names "message" and "ping_pong" to a table
  -- of distinct names keeps the names distinct, and the name is then in the table.
  command_add-IsUnique :
      (w : World) (m : CommandManager Table) (name : CString)
      → mem m.addr w.live ≡ true
      → w.oom w.next ≡ false
      → w.oom (w.next + 1) ≡ false
      → name_for name ≡ name
      → IsUnique m.cmd_ht
      → (m' : CommandManager Table) × (w' : World) × (command_manager_command_add H m name w
          ≡ some (m', w'))
        × IsUnique m'.cmd_ht
        × (has_key name (items m'.cmd_ht) ≡ true)
  command_add-IsUnique w m name h p q own u = elim (Bool-cases (has_key name (items m.cmd_ht))) [
    | inl e ↦ (m, w, add-known w m name h (is_some-find m.cmd_ht name ∙ e), u, e)
    | inr e ↦ (
      record m { cmd_ht = add_keyptr m.cmd_ht (name_for name) (entry_at w.next name).1 },
      with_two w,
      add-run w m name h p q (is_some-find m.cmd_ht name ∙ e),
      IsUnique-add m.cmd_ht (name_for name) (entry_at w.next name).1 u
          (subst (λ x. has_key x (items m.cmd_ht) ≡ false) (sym own) e),
      ap (has_key name) (items-add m.cmd_ht (name_for name) (entry_at w.next name).1)
          ∙ has_key-append name (name_for name) (entry_at w.next name).1 (items m.cmd_ht)
          ∙ ground (arith, ap (λ x. bytes_eq x name) own ∙ bytes_eq_refl name),
    )
  ]

  -- With memory for two allocations, adding a name that is neither "message" nor "ping_pong" and
  -- that the table does not have adds one more command with the name "ping_pong", even if there is
  -- one, and the name that was asked for is still not in the table.
  pub command_add-other_name :
      (w : World) (m : CommandManager Table) (name : CString)
      → mem m.addr w.live ≡ true
      → w.oom w.next ≡ false
      → w.oom (w.next + 1) ≡ false
      → bytes_eq name message ≡ false
      → bytes_eq ping_pong name ≡ false
      → has_key name (items m.cmd_ht) ≡ false
      → (m' : CommandManager Table) × (w' : World) × (command_manager_command_add H m name w
          ≡ some (m', w'))
        × (count_key ping_pong (items m'.cmd_ht) ≡ count_key ping_pong (items m.cmd_ht) + 1)
        × (has_key name (items m'.cmd_ht) ≡ false)
  command_add-other_name w m name h p q a b e =
      let entry = (entry_at w.next name).1 in
      let new = items-add m.cmd_ht (name_for name) entry in
      let made : name_for name ≡ ping_pong = rw a refl in
      (
        record m { cmd_ht = add_keyptr m.cmd_ht (name_for name) entry },
        with_two w,
        add-run w m name h p q (is_some-find m.cmd_ht name ∙ e),
        ap (count_key ping_pong) new
            ∙ count_key-append ping_pong (name_for name) entry (items m.cmd_ht)
            ∙ rw made refl,
        ap (has_key name) new
            ∙ has_key-append name (name_for name) entry (items m.cmd_ht)
            ∙ rw (made, e, b) refl,
      )
