-- ===== src/Process/Frees.antt =====
-- Freeing several blocks one after the other.
use ie0417_dev_b.Base.{ℕ, ◌≤◌, ◌<◌, ◌≡◌, ◌≢◌, sym, true, some, List, [], ◌∷◌, ◌++◌, All, arith}
use ie0417_dev_b.Process.{World, mem, remove, mem-remove, free}
use ie0417_dev_b.Process.Growth.{Grows}

abbrev pub AllLive : List ℕ → List ℕ → Type 0
AllLive live l = All (λ a. mem a live ≡ true) l

abbrev pub Distinct : List ℕ → Type 0
Distinct [] = Unit
Distinct (a ∷ l) = All (λ b. a ≢ b) l × Distinct l

pub AllLive-behind : (k l live : List ℕ) → AllLive live (k ++ l) → AllLive live l
AllLive-behind [] l live h = h
AllLive-behind (a ∷ k) l live (m, h) = AllLive-behind k l live h

-- The blocks are allocated, and no two of them are the same.
abbrev pub Freeable : List ℕ → World → Type 0
Freeable l w = AllLive w.live l × Distinct l

abbrev pub Above : ℕ → List ℕ → Type 0
Above n l = All (λ a. n ≤ a) l

abbrev pub Below : ℕ → List ℕ → Type 0
Below n l = All (λ a. a < n) l

abbrev pub freed : ℕ → World → World
freed a w = record w { live = remove a w.live }

AllLive-remove :
    (a : ℕ) (l live : List ℕ) → All (λ b. a ≢ b) l → AllLive live l → AllLive (remove a live) l
AllLive-remove a [] live d h = tt
AllLive-remove a (b ∷ l) live (n, d) (m, h) =
    (mem-remove b a live (λ e. n (sym e)) m, AllLive-remove a l live d h)

-- Freeing the first of them leaves the others.
pub free-Freeable :
    (a : ℕ) (l : List ℕ) (w : World)
    → Freeable (a ∷ l) w
    → (free a w ≡ some (tt, freed a w)) × Freeable l (freed a w)
unfolding free
free-Freeable a l w ((m, h), (d, ds)) = (ground (arith, m), (AllLive-remove a l w.live d h, ds))

pub All-append : (P : ℕ → Type 0) (k l : List ℕ) → All P k → All P l → All P (k ++ l)
All-append P [] l h hl = hl
All-append P (a ∷ k) l (h, hs) hl = (h, All-append P k l hs hl)

pub above-Below : (n a : ℕ) (l : List ℕ) → n ≤ a → Below n l → All (λ b. a ≢ b) l
above-Below n a [] h b = tt
above-Below n a (c ∷ l) h (x, b) = (λ e. omega (arith, h, x, e), above-Below n a l h b)

pub below-Above : (n a : ℕ) (l : List ℕ) → a < n → Above n l → All (λ b. a ≢ b) l
below-Above n a [] h b = tt
below-Above n a (c ∷ l) h (x, b) = (λ e. omega (arith, h, x, e), below-Above n a l h b)

pub Distinct-append :
    (n : ℕ) (k l : List ℕ) → Distinct k → Distinct l → Above n k → Below n l → Distinct (k ++ l)
Distinct-append n [] l dk dl a b = dl
Distinct-append n (x ∷ k) l (d, dk) dl (h, a) b =
    (All-append (λ b. x ≢ b) k l d (above-Below n x l h b), Distinct-append n k l dk dl a b)

-- More blocks that are older than some number.
pub Below-weaken : (n m : ℕ) (l : List ℕ) → n ≤ m → Below n l → Below m l
Below-weaken n m [] h b = tt
Below-weaken n m (a ∷ l) h (x, b) = (omega (arith, h, x), Below-weaken n m l h b)

pub Freeable-append :
    (n : ℕ) (k l : List ℕ) (w : World)
    → Freeable k w
    → Freeable l w
    → Above n k
    → Below n l
    → Freeable (k ++ l) w
Freeable-append n k l w (m, d) (m', d') a b =
    (All-append (λ a. mem a w.live ≡ true) k l m m', Distinct-append n k l d d' a b)

pub Freeable-cons :
    (a : ℕ) (l : List ℕ) (w : World)
    → mem a w.live ≡ true
    → Below a l
    → Freeable l w
    → Freeable (a ∷ l) w
Freeable-cons a l w m b (h, d) = ((m, h), (above-Below a a l (omega arith) b, d))

pub Freeable-grow : (l : List ℕ) (w w' : World) → Grows w w' → Freeable l w → Freeable l w'
Freeable-grow [] w w' g h = h
Freeable-grow (a ∷ l) w w' g ((m, h), (d, ds)) =
    let (h', ds') = Freeable-grow l w w' g (h, ds) in ((g.live a m, h'), (d, ds'))
