-- ===== src/DeviceServer/CommandManager/Spacing.antt =====
-- src/lab3/src/command_manager.c: tables whose blocks were allocated one entry after the other.
use ie0417_dev_b.Base.{
  ℕ, ◌+◌, ◌≤◌, ◌<◌, ◌==◌, ◌≡◌, ◌≢◌, ap, true, false, List, [], ◌∷◌, ◌++◌, CString, length, arith,
  inl, inr, Bool-cases,
}
use ie0417_dev_b.Process.{World, Ptr, mem-remove}
use ie0417_dev_b.Process.Frees.{AllLive, Distinct, Above, Below, freed, below-Above}
use ie0417_dev_b.Uthash.{Entry, erase_entry}
use ie0417_dev_b.DeviceServer.CommandManager.{CommandHashEntry}
use ie0417_dev_b.DeviceServer.CommandManager.Send.{IsEntry, IsTable}

abbrev pub Entries : Type 0
Entries = List (CString × Ptr CommandHashEntry)

abbrev pub addresses : Entries → List ℕ
addresses [] = []
addresses ((k, p) ∷ l) = p.addr ∷ addresses l

-- Each entry has the block after that of its command, and both come after block `n` and the entries
-- before.
abbrev pub Spaced : ℕ → Entries → Type 0
Spaced n [] = Unit
Spaced n ((k, p) ∷ l) = (n + 2 ≤ p.addr) × (p.addr ≡ p.val.cmd.addr + 1) × Spaced p.addr l

Spaced-weaken : (n m : ℕ) (l : Entries) → n ≤ m → Spaced m l → Spaced n l
Spaced-weaken n m [] h s = tt
Spaced-weaken n m ((k, p) ∷ l) h (x, c, s) = (omega (arith, h, x), c, s)

pub Spaced-snoc :
    (n b : ℕ) (l : Entries) (k : CString) (p : Ptr CommandHashEntry)
    → Spaced n l
    → n < b
    → Below b (addresses l)
    → p.val.cmd.addr ≡ b
    → p.addr ≡ b + 1
    → Spaced n (l ++ (k, p) ∷ [])
Spaced-snoc n b [] k p s h below c a = (omega (arith, h, a), omega (arith, c, a), tt)
Spaced-snoc n b ((j, q) ∷ l) k p (x, d, s) h (y, below) c a =
    (x, d, Spaced-snoc q.addr b l k p s y below c a)

pub Spaced-Above : (n m : ℕ) (l : Entries) → m ≤ n + 2 → Spaced n l → Above m (addresses l)
Spaced-Above n m [] h s = tt
Spaced-Above n m ((k, p) ∷ l) h (x, c, s) =
    (omega (arith, h, x), Spaced-Above p.addr m l (omega (arith, h, x)) s)

pub Spaced-Distinct : (n : ℕ) (l : Entries) → Spaced n l → Distinct (addresses l)
Spaced-Distinct n [] s = tt
Spaced-Distinct n ((k, p) ∷ l) (x, c, s) = (
  below-Above (p.addr + 1) p.addr (addresses l) (omega arith)
      (Spaced-Above p.addr (p.addr + 1) l (omega arith) s),
  Spaced-Distinct p.addr l s,
)

pub IsTable-AllLive : (w : World) (l : Entries) → IsTable w l → AllLive w.live (addresses l)
IsTable-AllLive w [] h = tt
IsTable-AllLive w ((k, p) ∷ l) (e, h) = (e.live_entry, IsTable-AllLive w l h)

pub Entry-far :
    (n : ℕ) (l : Entries) (k : CString) (q : Ptr CommandHashEntry)
    → Spaced n l
    → Entry k q l
    → n + 2 ≤ q.addr
Entry-far n [] k q s e = absurd e
Entry-far n ((j, p) ∷ l) k q (x, c, s) (inl (i, is)) = omega (arith, x, ap (λ r. r.addr) is)
Entry-far n ((j, p) ∷ l) k q (x, c, s) (inr e) = omega (arith, x, Entry-far p.addr l k q s e)

-- Erasing an entry.
pub Spaced-erase : (n a : ℕ) (l : Entries) → Spaced n l → Spaced n (erase_entry a l)
Spaced-erase n a [] s = tt
Spaced-erase n a ((k, p) ∷ l) (x, c, s) = elim (Bool-cases (a == p.addr)) [
  | inl e ↦ rw e (Spaced-weaken n p.addr l (omega (arith, x)) s)
  | inr e ↦ rw e (x, c, Spaced-erase p.addr a l s)
]

pub Below-erase :
    (b a : ℕ) (l : Entries) → Below b (addresses l) → Below b (addresses (erase_entry a l))
Below-erase b a [] h = tt
Below-erase b a ((k, p) ∷ l) (x, h) = elim (Bool-cases (a == p.addr)) [
  | inl e ↦ rw e h
  | inr e ↦ rw e (x, Below-erase b a l h)
]

pub length-erase :
    (n : ℕ) (l : Entries) (k : CString) (q : Ptr CommandHashEntry)
    → Spaced n l
    → Entry k q l
    → length (erase_entry q.addr l) + 1 ≡ length l
length-erase n [] k q s e = absurd e
length-erase n ((j, p) ∷ l) k q (x, c, s) (inl (i, is)) =
    let same : (q.addr == p.addr) ≡ true = ground (arith, ap (λ r. r.addr) is) in
    rw same (omega arith)
length-erase n ((j, p) ∷ l) k q (x, c, s) (inr e) =
    let other : (q.addr == p.addr) ≡ false = ground (arith, Entry-far p.addr l k q s e) in
    rw other (omega (arith, length-erase p.addr l k q s e))

IsEntry-freed :
    (w : World) (a : ℕ) (k : CString) (p : Ptr CommandHashEntry)
    → p.addr ≢ a
    → p.val.cmd.addr ≢ a
    → IsEntry w k p
    → IsEntry (freed a w) k p
IsEntry-freed w a k p n m h = record {
  live_entry = mem-remove p.addr a w.live n h.live_entry;
  live_command = mem-remove p.val.cmd.addr a w.live m h.live_command;
  name = h.name;
  execute = h.execute;
}

IsTable-freed :
    (w : World) (a n : ℕ) (l : Entries) → a ≤ n → Spaced n l → IsTable w l → IsTable (freed a w) l
IsTable-freed w a n [] h s t = tt
IsTable-freed w a n ((k, p) ∷ l) h (x, c, s) (e, t) = (
  IsEntry-freed w a k p (λ i. omega (arith, h, x, i)) (λ i. omega (arith, h, x, c, i)) e,
  IsTable-freed w a p.addr l (omega (arith, h, x)) s t,
)

-- Erasing an entry and freeing its block leaves the other entries as they were.
pub IsTable-erase :
    (w : World) (n : ℕ) (l : Entries) (k : CString) (q : Ptr CommandHashEntry)
    → Spaced n l
    → Entry k q l
    → IsTable w l
    → IsTable (freed q.addr w) (erase_entry q.addr l)
IsTable-erase w n [] k q s e t = absurd e
IsTable-erase w n ((j, p) ∷ l) k q (x, c, s) (inl (i, is)) (e, t) =
    let same : (q.addr == p.addr) ≡ true = ground (arith, ap (λ r. r.addr) is) in
    rw same (IsTable-freed w q.addr p.addr l (omega (arith, ap (λ r. r.addr) is)) s t)
IsTable-erase w n ((j, p) ∷ l) k q (x, c, s) (inr i) (e, t) =
    let far = Entry-far p.addr l k q s i in
    let other : (q.addr == p.addr) ≡ false = ground (arith, far) in
    rw other (
      IsEntry-freed w q.addr j p (λ b. omega (arith, far, b)) (λ b. omega (arith, far, c, b)) e,
      IsTable-erase w p.addr l k q s i t,
    )
