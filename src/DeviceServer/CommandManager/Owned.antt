-- ===== src/DeviceServer/CommandManager/Owned.antt =====
-- src/lab3/src/command_manager.c: the blocks that a manager frees, after each of its operations.
use ie0417_dev_b.Base.{
  ℕ, ◌+◌, ◌≤◌, ◌<◌, ◌≡◌, refl, ap, true, false, some, List, [], ◌∷◌, ◌++◌, CString, length, arith,
}
use ie0417_dev_b.Process.{World, Ptr, mem, mem-remove, length-remove}
use ie0417_dev_b.Process.Frees.{
  Freeable, Above, Below, freed, free-Freeable, All-append, Below-weaken, Distinct-append,
}
use ie0417_dev_b.Uthash.{Uthash, Entry, erase_entry}
use ie0417_dev_b.DeviceServer.CommandManager.{
  CommandHashEntry, CommandManager, command_manager_destroy, command_ht_destroy,
  command_ht_destroy_loop,
}
use ie0417_dev_b.DeviceServer.CommandManager.Add.{name_for, with_two, entry_at}
use ie0417_dev_b.DeviceServer.CommandManager.Send.{IsTable, Entry-IsEntry}
use ie0417_dev_b.DeviceServer.CommandManager.Spacing.{
  Entries, addresses, Spaced, Spaced-snoc, Spaced-Above, Spaced-Distinct, IsTable-AllLive,
  Entry-far, Spaced-erase, Below-erase, length-erase, IsTable-erase,
}
use ie0417_dev_b.DeviceServer.CommandManager.Table.{made-IsEntry, IsTable-grow, IsTable-append}

addresses-append :
    (l : Entries) (k : CString) (p : Ptr CommandHashEntry)
    → addresses (l ++ (k, p) ∷ []) ≡ addresses l ++ p.addr ∷ []
addresses-append [] k p = refl
addresses-append ((j, q) ∷ l) k p = ap (λ x. q.addr ∷ x) (addresses-append l k p)

length-snoc : {X : Type 0} (l : List X) (x : X) → length (l ++ x ∷ []) ≡ length l + 1
length-snoc [] x = refl
length-snoc (y ∷ l) x = omega (arith, length-snoc l x)

-- The blocks older than `n` that are allocated stay so.
abbrev pub Kept : ℕ → World → World → Type 0
Kept n w w' = (a : ℕ) → a < n → mem a w.live ≡ true → mem a w'.live ≡ true

Kept-freed : (n b : ℕ) (w : World) → n ≤ b → Kept n w (freed b w)
Kept-freed n b w h a l i = mem-remove a b w.live (λ e. omega (arith, h, l, e)) i

module _ (H : Uthash CommandHashEntry) where
  open H use {Table, items, null, add_keyptr, items-null, items-add}

  -- The blocks that destroying the manager frees are allocated, and besides them `n` blocks more
  -- than in an earlier world, whose blocks are all kept.
  pub record Owns (w0 : World) (n : ℕ) (w : World) (m : CommandManager Table) : Type 0 where
    pub memory : (k : ℕ) → w.oom k ≡ false
    pub live_self : mem m.addr w.live ≡ true
    pub table : IsTable w (items m.cmd_ht)
    pub spaced : Spaced m.addr (items m.cmd_ht)
    pub below : Below w.next (addresses (items m.cmd_ht))
    pub older : m.addr < w.next
    pub newer : w0.next ≤ m.addr
    pub kept : Kept w0.next w0 w
    pub count : length w.live ≡ length w0.live + 1 + length (items m.cmd_ht) + n

  entries-free :
      (n : ℕ) (l : Entries) (t : Table) (rest : List ℕ) (w : World)
      → Freeable (addresses l ++ rest) w
      → Above n (addresses l)
      → (t' : Table) × (w' : World) × (command_ht_destroy_loop H l t w ≡ some (t', w'))
        × Freeable rest w'
        × Kept n w w'
        × (length w'.live + length l ≡ length w.live)
  unfolding command_ht_destroy_loop
  entries-free n [] t rest w h b = (t, w, refl, h, λ a _ i. i, omega arith)
  entries-free n ((k, p) ∷ l) t rest w h (b, bs) =
      let (ran, h') = free-Freeable p.addr (addresses l ++ rest) w h in
      let (t', w', run, r, keep, c) = entries-free n l (H.delete t p) rest (freed p.addr w) h' bs in
      (
        t',
        w',
        rw ran run,
        r,
        λ a y i. keep a y (Kept-freed n p.addr w b a y i),
        omega (arith, c, length-remove p.addr w.live h.0.0),
      )

  owned-Freeable :
      (w0 : World) (n : ℕ) (w : World) (m : CommandManager Table)
      → Owns w0 n w m
      → Freeable (addresses (items m.cmd_ht) ++ m.addr ∷ []) w
  owned-Freeable w0 n w m h =
      let l = items m.cmd_ht in
      (
        All-append (λ a. mem a w.live ≡ true) (addresses l) (m.addr ∷ [])
            (IsTable-AllLive w l h.table) (h.live_self, tt),
        Distinct-append (m.addr + 1) (addresses l) (m.addr ∷ []) (Spaced-Distinct m.addr l h.spaced)
            (tt, tt) (Spaced-Above m.addr (m.addr + 1) l (omega arith) h.spaced) (omega arith, tt),
      )

  pub destroy-count :
      (w0 : World) (n : ℕ) (w : World) (m : CommandManager Table)
      → Owns w0 n w m
      → (w' : World) × (command_manager_destroy H m w ≡ some (tt, w'))
        × Kept w0.next w0 w'
        × (length w'.live ≡ length w0.live + n)
  unfolding command_manager_destroy command_ht_destroy
  destroy-count w0 n w m h =
      let l = items m.cmd_ht in
      let above = Spaced-Above m.addr w0.next l (omega (arith, h.newer)) h.spaced in
      let (t', w1, run, r, keep, c) =
        entries-free w0.next l m.cmd_ht (m.addr ∷ []) w (owned-Freeable w0 n w m h) above in
      let (ran, _) = free-Freeable m.addr [] w1 r in
      (
        freed m.addr w1,
        rw (h.live_self, run) ran,
        λ a y i. Kept-freed w0.next m.addr w1 h.newer a y (keep a y (h.kept a y i)),
        omega (arith, c, h.count, length-remove m.addr w1.live r.0.0),
      )

  pub known-Owns :
      (w0 : World) (n : ℕ) (w : World) (m : CommandManager Table) (t : Table)
      → Owns w0 n w m
      → items t ≡ items m.cmd_ht
      → Owns w0 n w (record m { cmd_ht = t })
  known-Owns w0 n w m t h e = record {
    memory = h.memory;
    live_self = h.live_self;
    table = rw e h.table;
    spaced = rw e h.spaced;
    below = rw e h.below;
    older = h.older;
    newer = h.newer;
    kept = h.kept;
    count = rw e h.count;
  }

  pub added-Owns :
      (w0 : World) (n : ℕ) (w : World) (m : CommandManager Table) (name : CString) (t : Table)
      → Owns w0 n w m
      → items t ≡ items m.cmd_ht ++ entry_at H w.next name ∷ []
      → Owns w0 (n + 1) (with_two w) (record m { cmd_ht = t })
  added-Owns w0 n w m name t h e =
      let l = items m.cmd_ht in
      let entry = (entry_at H w.next name).1 in
      let more = addresses-append l (name_for name) entry in
      let own =
        made-IsEntry (with_two w) w.next (w.next + 1) name _ (ground arith) (ground arith) in
      record {
        memory = h.memory;
        live_self = ground (arith, h.live_self);
        table = rw e (
            IsTable-append (with_two w) l (entry_at H w.next name ∷ []) (IsTable-grow w l h.table)
              (own, tt));
        spaced =
            rw e (
              Spaced-snoc m.addr w.next l (name_for name) entry h.spaced h.older h.below refl refl);
        below =
            rw (e, more)
              (All-append (λ a. a < w.next + 1 + 1) (addresses l) ((w.next + 1) ∷ [])
                (Below-weaken w.next (w.next + 1 + 1) (addresses l) (omega arith) h.below)
                (omega arith, tt));
        older = omega (arith, h.older);
        newer = h.newer;
        kept = λ a y i. ground (arith, h.kept a y i);
        count = rw e (omega (arith, h.count, length-snoc l (entry_at H w.next name)));
      }

  pub removed-Owns :
      (w0 : World) (n : ℕ) (w : World) (m : CommandManager Table) (name : CString)
      (q : Ptr CommandHashEntry) (t : Table)
      → Owns w0 n w m
      → Entry name q (items m.cmd_ht)
      → items t ≡ erase_entry q.addr (items m.cmd_ht)
      → Owns w0 n (freed q.addr w) (record m { cmd_ht = t })
  removed-Owns w0 n w m name q t h e is =
      let l = items m.cmd_ht in
      let far = Entry-far m.addr l name q h.spaced e in
      let live = (Entry-IsEntry w name q l h.table e).live_entry in
      record {
        memory = h.memory;
        live_self = mem-remove m.addr q.addr w.live (λ i. omega (arith, far, i)) h.live_self;
        table = rw is (IsTable-erase w m.addr l name q h.spaced e h.table);
        spaced = rw is (Spaced-erase m.addr q.addr l h.spaced);
        below = rw is (Below-erase w.next q.addr l h.below);
        older = h.older;
        newer = h.newer;
        kept =
            λ a y i. Kept-freed w0.next q.addr w (omega (arith, far, h.newer)) a y (h.kept a y i);
        count = rw is (
            omega (
              arith,
              h.count,
              length-remove q.addr w.live live,
              length-erase m.addr l name q h.spaced e,
            ));
      }
