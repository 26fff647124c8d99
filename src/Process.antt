-- ===== src/Process.antt =====
-- The process that the C code runs in: allocated blocks, standard output, and a monad over them
-- in which undefined behaviour is a fault.
pub mod Growth
pub mod Frees
pub mod Post
use ie0417_dev_b.Base.{
  ℕ, ◌+◌, Bool, true, false, Option, none, some, List, [], ◌∷◌, ◌++◌, ◌==◌, if◌then◌else◌, CString,
  ℤ, ◌≡◌, ◌≢◌, refl, arith, length,
}

-- What the code writes to standard output, a constructor for each format string.
pub data Output : Type 0 where
  text : CString → Output
  level_reading : (name : CString) → Output
  temp_reading : (name : CString) → Output
  read_command : (type name : CString) (val : ℤ) (unit : CString) → Output
  sensor_added : (name type : CString) → Output
  request_received : (name : CString) (size : ℕ) (payload : CString) → Output
  thread_started : (tid : ℕ) → Output
  thread_finished : (tid : ℕ) → Output

-- A block goes by the number of its allocation. `oom n` says that allocation `n` returns NULL,
-- and `junk n i` is what byte `i` of block `n` holds before it is written.
pub record World : Type 0 where
  pub next : ℕ
  pub live : List ℕ
  pub oom : ℕ → Bool
  pub junk : ℕ → ℕ → ℕ
  pub out : List Output
  -- how many files are open
  pub open_files : ℕ

-- `none` is a fault.
abbrev pub Run : Type 0 → Type 0
Run A = Option (A × World)

abbrev pub M : Type 0 → Type 0
M A = World → Run A

abbrev pub pure : {A : Type 0} → A → M A
pure a w = some (a, w)

abbrev pub fault : {A : Type 0} → M A
fault w = none

module _ {A B : Type 0} where
  abbrev pub and_then : Run A → (A → M B) → Run B
  and_then none k = none
  and_then (some (a, w)) k = k a w

  infixl 5 ◌>>=◌ ◌>>◌
  abbrev pub ◌>>=◌ : M A → (A → M B) → M B
  ◌>>=◌ m k w = and_then (m w) k

  abbrev pub ◌>>◌ : M A → M B → M B
  ◌>>◌ m k w = and_then (m w) (λ _. k)

  -- `if (p == NULL) …` with what follows in the other case.
  abbrev pub if_null : Option A → M B → (A → M B) → M B
  if_null none on_null k = on_null
  if_null (some a) on_null k = k a

pub if_null-none :
    {A B : Type 0} (o : Option A) (k : A → M B) (w : World)
    → ((a : A) → k a w ≡ none)
    → if_null o fault k w ≡ none
if_null-none none k w h = refl
if_null-none (some a) k w h = h a

-- A pointer to a heap object that is written only while it is set up: its block, and its contents.
pub record Ptr (A : Type 0) : Type 0 where
  pub addr : ℕ
  pub val : A

abbrev pub mem : ℕ → List ℕ → Bool
mem a [] = false
mem a (b ∷ bs) = if a == b then true else mem a bs

abbrev pub remove : ℕ → List ℕ → List ℕ
remove a [] = []
remove a (b ∷ bs) = if a == b then bs else b ∷ remove a bs

pub and_then-none :
    {A B : Type 0} (m : Run A) (k : A → M B)
    → ((a : A) (w : World) → k a w ≡ none)
    → and_then m k ≡ none
and_then-none none k h = refl
and_then-none (some (a, w)) k h = h a w

module _ (a : ℕ) where
  pub mem-cons : (b : ℕ) (l : List ℕ) → mem a l ≡ true → mem a (b ∷ l) ≡ true
  mem-cons b l h = ground (arith, h)

  pub mem-append : (k l : List ℕ) → mem a l ≡ true → mem a (k ++ l) ≡ true
  mem-append [] l h = h
  mem-append (b ∷ k) l h = mem-cons b (k ++ l) (mem-append k l h)

  pub mem-remove : (b : ℕ) (l : List ℕ) → a ≢ b → mem a l ≡ true → mem a (remove b l) ≡ true
  mem-remove b [] n h = h
  mem-remove b (c ∷ l) n h = ground (arith, mem-remove b l)

  pub length-remove : (l : List ℕ) → mem a l ≡ true → length (remove a l) + 1 ≡ length l
  length-remove [] h = absurd (ground arith)
  length-remove (b ∷ l) h = ground (arith, length-remove l)

-- `malloc` and `calloc`.
unfoldable pub malloc : M (Option ℕ)
malloc w =
    if w.oom w.next
    then some (none, record w { next = w.next + 1 })
    else some (some w.next, record w { next = w.next + 1; live = w.next ∷ w.live })

-- `free(p)` for a `p` that is not NULL: a fault unless the block is allocated.
unfoldable pub free : ℕ → M (Unit {0})
free a w = if mem a w.live then some (tt, record w { live = remove a w.live }) else none

-- An access through a pointer: a fault unless the block is allocated.
unfoldable pub deref : {A : Type 0} → Ptr A → M A
deref p w = if mem p.addr w.live then some (p.val, w) else none

-- The same for a pointer that may be NULL.
unfoldable pub load : {A : Type 0} → Option (Ptr A) → M A
unfolding deref
load none w = none
load (some p) w = deref p w

-- A string argument of `%s`, `strlen` or `strcmp`: a fault if it is NULL.
unfoldable pub str : Option CString → M CString
str none w = none
str (some s) w = some (s, w)

unfoldable pub print : Output → M (Unit {0})
print o w = some (tt, record w { out = w.out ++ o ∷ [] })
