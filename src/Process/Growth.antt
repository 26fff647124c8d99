-- ===== src/Process/Growth.antt =====
-- Code that only allocates: what it keeps, and when an allocation of it was refused.
use ie0417_dev_b.Base.{ℕ, ◌+◌, ◌≤◌, ◌<◌, ◌≡◌, refl, sym, ap, ◌∙◌, true, List, ◌∷◌, arith}
use ie0417_dev_b.Process.{World, Output, mem, mem-cons}

-- Blocks that are allocated stay so, and allocations are numbered on.
pub record Grows (w w' : World) : Type 0 where
  pub live : (a : ℕ) → mem a w.live ≡ true → mem a w'.live ≡ true
  pub next : w.next ≤ w'.next
  pub oom : w'.oom ≡ w.oom

pub Grows-refl : (w : World) → Grows w w
Grows-refl w = record { live = λ a h. h; next = omega arith; oom = refl }

pub Grows-trans : {w w1 w2 : World} → Grows w w1 → Grows w1 w2 → Grows w w2
Grows-trans g h = record {
  live = λ a m. h.live a (g.live a m);
  next = omega (arith, g.next, h.next);
  oom = h.oom ∙ g.oom;
}

-- An allocation that was refused, one that was granted, and some output.
pub Grows-denied : (w : World) → Grows w (record w { next = w.next + 1 })
Grows-denied w = record { live = λ a h. h; next = omega arith; oom = refl }

pub Grows-granted :
    (w : World) (o : List Output)
    → Grows w (record w { next = w.next + 1; live = w.next ∷ w.live; out = o })
Grows-granted w o = record {
  live = λ a h. mem-cons a w.next w.live h;
  next = omega arith;
  oom = refl;
}

-- An allocation was refused since the first of the two worlds.
abbrev pub Denied : World → World → Type 0
Denied w w' = (n : ℕ) × (w.next ≤ n) × (n < w'.next) × (w.oom n ≡ true)

pub Denied-grow : (w w1 w2 : World) → Grows w1 w2 → Denied w w1 → Denied w w2
Denied-grow w w1 w2 g (n, a, b, o) = (n, a, omega (arith, b, g.next), o)

-- The next allocation is refused.
pub Denied-next :
    (w w1 : World)
    → Grows w w1
    → w1.oom w1.next ≡ true
    → Denied w (record w1 { next = w1.next + 1 })
Denied-next w w1 g o = (w1.next, g.next, omega arith, ap (λ f. f w1.next) (sym g.oom) ∙ o)

pub Grows-out : (w : World) (o : List Output) → Grows w (record w { out = o })
Grows-out w o = record { live = λ a h. h; next = omega arith; oom = refl }
