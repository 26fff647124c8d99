-- ===== src/DeviceServer/TransportServer/Memory.antt =====
-- src/lab3/src/transport_server.c: the blocks of a request, and what is read of them.
use ie0417_dev_b.Base.{
  Bool-cases, Option-cases, inl, inr, subst, true, false, ℕ, ◌≡◌, ◌≢◌, refl, true, false, none,
  some, List, [], ◌∷◌, ◌++◌, CString, ◌==◌, arith, All,
}
use ie0417_dev_b.Process.{World, Ptr, mem}
use ie0417_dev_b.Uthash.{Uthash}
use ie0417_dev_b.SensorCommands.Command.{c_string}
use ie0417_dev_b.DeviceServer.CommandManager.{CommandHashEntry, CommandManager}
use ie0417_dev_b.DeviceServer.CommandManager.Send.{IsTable}
use ie0417_dev_b.DeviceServer.CommandManager.Table.{IsWellFormed}

-- Every allocation is granted.
abbrev pub NoOom : World → Type 0
NoOom w = (n : ℕ) → w.oom n ≡ false

-- A text before its terminator is read whatever stands behind.
pub c_string-append :
    (s r : List ℕ) (t : CString) → c_string s ≡ some t → c_string (s ++ r) ≡ some t
unfolding c_string
c_string-append [] r t h = absurd (ground arith)
c_string-append (c ∷ s) r t h = elim (Bool-cases (c == 0)) [
  | inl z ↦ ground (arith, h)
  | inr n ↦ elim (Option-cases (c_string s)) [
    | inl e ↦ absurd (ground (arith, h))
    | inr (u, e) ↦ ground (arith, h, c_string-append s r u e)
  ]
]

pub c_string-end : (s : CString) → All (λ c. c ≢ 0) s → c_string (s ++ 0 ∷ []) ≡ some s
unfolding c_string
c_string-end [] h = refl
c_string-end (c ∷ s) h = ground (arith, c_string-end s h.1)

-- A block that the text fills is not the string of it.
pub c_string-full : (s : CString) → All (λ c. c ≢ 0) s → c_string s ≡ none
unfolding c_string
c_string-full [] h = refl
c_string-full (c ∷ s) h = ground (arith, c_string-full s h.1)

-- What is read as a string has no zero byte.
pub c_string-proper : (s : List ℕ) (t : CString) → c_string s ≡ some t → All (λ c. c ≢ 0) t
unfolding c_string
c_string-proper [] t h = absurd (ground arith)
c_string-proper (c ∷ s) t h = elim (Bool-cases (c == 0)) [
  | inl z ↦ let is : [] ≡ t = ground (arith, h) in subst (All (λ b. b ≢ 0)) is tt
  | inr n ↦ elim (Option-cases (c_string s)) [
    | inl e ↦ absurd (ground (arith, h))
    | inr (u, e) ↦
        let is : c ∷ u ≡ t = ground (arith, h) in
        subst (All (λ b. b ≢ 0)) is ((λ z. ground (arith, z)), c_string-proper s u e)
  ]
]

-- A manager stays well-formed as long as no block is freed.
IsTable-live :
    (w w' : World) (l : List (CString × Ptr CommandHashEntry))
    → ((a : ℕ) → mem a w.live ≡ true → mem a w'.live ≡ true)
    → IsTable w l
    → IsTable w' l
IsTable-live w w' [] s h = tt
IsTable-live w w' ((k, p) ∷ l) s h = (
  record {
    live_entry = s p.addr h.0.live_entry;
    live_command = s p.val.cmd.addr h.0.live_command;
    name = h.0.name;
    execute = h.0.execute;
  },
  IsTable-live w w' l s h.1,
)

pub IsWellFormed-live :
    (H : Uthash CommandHashEntry) (w w' : World) (m : CommandManager H.Table)
    → ((a : ℕ) → mem a w.live ≡ true → mem a w'.live ≡ true)
    → IsWellFormed H w m
    → IsWellFormed H w' m
IsWellFormed-live H w w' m s h = record {
  live_self = s m.addr h.live_self;
  table = IsTable-live w w' (H.items m.cmd_ht) s h.table;
}
