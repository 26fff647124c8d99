-- ===== src/DeviceServer/CommandManager/Table.antt =====
-- src/lab3/src/command_manager.c: what a well-formed manager is, and the operations on it.
use ie0417_dev_b.Base.{
  ℕ, ◌+◌, ◌≡◌, refl, sym, ap, ◌∙◌, subst, true, false, some, List, [], ◌∷◌, ◌++◌, CString, bytes,
  bytes_eq, arith, if◌then◌else◌, Bool-cases, inl, inr,
}
use ie0417_dev_b.Process.{World, Ptr, mem}
use ie0417_dev_b.Uthash.{Uthash, has_key}
use ie0417_dev_b.DeviceServer.Command.{message}
use ie0417_dev_b.DeviceServer.CommandManager.{
  CommandHashEntry, CommandManager, command_manager_create, command_manager_command_add,
}
use ie0417_dev_b.DeviceServer.CommandManager.Add.{
  name_for, fn_for, command_at, with_two, entry_at, command_add-items, IsUnique, count_key,
}
use ie0417_dev_b.DeviceServer.CommandManager.Send.{IsEntry, IsTable}

fn_for-name_for : (name : CString) → fn_for name ≡ fn_for (name_for name)
fn_for-name_for name = elim (Bool-cases (bytes_eq name message)) [
  | inl b ↦ rw b refl
  | inr b ↦ rw b refl
]

-- The command made for a name in block `a`, in an entry of block `b`.
pub made-IsEntry :
    (w : World) (a b : ℕ) (name attributes : CString)
    → mem a w.live ≡ true
    → mem b w.live ≡ true
    → IsEntry w
        (name_for name)
        (record { addr = b; val = record { cmd = command_at a name attributes } })
made-IsEntry w a b name attributes h k = record {
  live_entry = k;
  live_command = h;
  name = refl;
  execute = ap some (fn_for-name_for name);
}

pub IsTable-grow :
    (w : World) (l : List (CString × Ptr CommandHashEntry)) → IsTable w l → IsTable (with_two w) l
IsTable-grow w [] h = tt
IsTable-grow w ((k, p) ∷ l) h = (
  record {
    live_entry = ground (arith, h.0.live_entry);
    live_command = ground (arith, h.0.live_command);
    name = h.0.name;
    execute = h.0.execute;
  },
  IsTable-grow w l h.1,
)

pub IsTable-append :
    (w : World) (l r : List (CString × Ptr CommandHashEntry))
    → IsTable w l
    → IsTable w r
    → IsTable w (l ++ r)
IsTable-append w [] r h k = k
IsTable-append w (x ∷ l) r h k = (h.0, IsTable-append w l r h.1 k)

module _ (H : Uthash CommandHashEntry) where
  open H use {Table, null, items, add_keyptr, items-add, items-null}

  -- What holds of a manager between two calls.
  pub record IsWellFormed (w : World) (m : CommandManager Table) : Type 0 where
    pub live_self : mem m.addr w.live ≡ true
    pub table : IsTable w (items m.cmd_ht)

  -- The entry that `command_manager_create` makes.
  abbrev pub first_entry : ℕ → CString → Ptr CommandHashEntry
  first_entry a name = record {
    addr = a + 1;
    val = record {
      cmd =
          command_at a name
            (if bytes_eq name message then bytes "Atribute msg" else bytes "Atribute ping_pong");
    };
  }

  abbrev pub with_three : World → World
  with_three w = record w {
    next = w.next + 1 + 1 + 1;
    live = (w.next + 1 + 1) ∷ (w.next + 1) ∷ w.next ∷ w.live;
  }

  pub create-run :
      (w : World) (name : CString)
      → w.oom w.next ≡ false
      → w.oom (w.next + 1) ≡ false
      → w.oom (w.next + 1 + 1) ≡ false
      → command_manager_create H name w
        ≡ some (
          some (record {
            addr = w.next;
            cmd_ht = add_keyptr null (name_for name) (first_entry (w.next + 1) name);
          }),
          with_three w,
        )
  unfolding command_manager_create
  create-run w name p q r = elim (Bool-cases (bytes_eq name message)) [
    | inl b ↦ rw b (ground arith)
    | inr b ↦ rw b (ground arith)
  ]

  -- With memory for three allocations, `command_manager_create` makes a well-formed manager whose
  -- table has one command: "message" for that name, and "ping_pong" for every other.
  pub manager_create-IsWellFormed :
      (w : World) (name : CString)
      → w.oom w.next ≡ false
      → w.oom (w.next + 1) ≡ false
      → w.oom (w.next + 1 + 1) ≡ false
      → (m : CommandManager Table) × (w' : World) × (command_manager_create H name w
          ≡ some (some m, w'))
        × (items m.cmd_ht ≡ (name_for name, first_entry (w.next + 1) name) ∷ [])
        × IsWellFormed w' m
        × IsUnique H m.cmd_ht
  manager_create-IsWellFormed w name p q r =
      let new : items (add_keyptr null (name_for name) (first_entry (w.next + 1) name))
          ≡ (name_for name, first_entry (w.next + 1) name) ∷ [] =
        items-add null (name_for name) (first_entry (w.next + 1) name)
        ∙ ap (λ l. l ++ (name_for name, first_entry (w.next + 1) name) ∷ []) items-null in
      (
        record {
          addr = w.next;
          cmd_ht = add_keyptr null (name_for name) (first_entry (w.next + 1) name);
        },
        with_three w,
        create-run w name p q r,
        new,
        record {
          live_self = ground arith;
          table = subst (IsTable (with_three w)) (sym new) (
            made-IsEntry (with_three w) (w.next + 1) (w.next + 1 + 1) name _ (ground arith)
                (ground arith),
            tt,
          );
        },
        λ k. ground (arith, ap (count_key k) new),
      )

  -- With memory for two allocations, `command_manager_command_add` on a well-formed manager gives a
  -- well-formed manager, whatever the name is.
  pub command_add-IsWellFormed :
      (w : World) (m : CommandManager Table) (name : CString)
      → w.oom w.next ≡ false
      → w.oom (w.next + 1) ≡ false
      → IsWellFormed w m
      → (m' : CommandManager Table) × (w' : World) × (command_manager_command_add H m name w
          ≡ some (m', w'))
        × IsWellFormed w' m'
  command_add-IsWellFormed w m name p q h =
      let (t, run, is) = command_add-items H w m name h.live_self p q in
      elim (Bool-cases (has_key name (items m.cmd_ht))) [
        | inl e ↦ (
          record m { cmd_ht = t },
          w,
          run ∙ rw e refl,
          record {
            live_self = h.live_self;
            table = subst (IsTable w) (sym (is ∙ rw e refl)) h.table;
          },
        )
        | inr e ↦ (
          record m { cmd_ht = t },
          with_two w,
          run ∙ rw e refl,
          record {
            live_self = ground (arith, h.live_self);
            table = subst (IsTable (with_two w)) (sym (is ∙ rw e refl)) (
                IsTable-append (with_two w) (items m.cmd_ht) (entry_at H w.next name ∷ [])
                  (IsTable-grow w (items m.cmd_ht) h.table)
                  (
                    made-IsEntry (with_two w) w.next (w.next + 1) name _ (ground arith)
                        (ground arith),
                    tt,
                  ));
          },
        )
      ]
