-- ===== src/Process/Post.antt =====
-- What holds of the result of code, where it does not fault.
use ie0417_dev_b.Base.{◌≡◌, refl, Option, none, some}
use ie0417_dev_b.Process.{World, Run, M, fault, and_then, if_null}

abbrev pub Post : {A : Type 0} → (A → Type 0) → Run A → Type 0
Post P none = Unit
Post P (some (a, w)) = P a

module _ {A B : Type 0} (Q : B → Type 0) where
  pub after-Post :
      (m : Run A) (k : A → M B) → ((a : A) (w : World) → Post Q (k a w)) → Post Q (and_then m k)
  after-Post none k h = tt
  after-Post (some (a, w)) k h = h a w

  pub and_then-Post :
      (P : A → Type 0) (m : Run A) (k : A → M B)
      → Post P m
      → ((a : A) (w : World) → P a → Post Q (k a w))
      → Post Q (and_then m k)
  and_then-Post P none k p h = tt
  and_then-Post P (some (a, w)) k p h = h a w p

  pub null-Post :
      (o : Option A) (k : A → M B) (w : World)
      → ((a : A) (w' : World) → Post Q (k a w'))
      → Post Q (if_null o fault k w)
  null-Post none k w h = tt
  null-Post (some a) k w h = h a w

-- What follows faults for every result there may be.
pub Post-none :
    {A B : Type 0} (P : A → Type 0) (m : Run A) (k : A → M B)
    → Post P m
    → ((a : A) (w : World) → P a → k a w ≡ none)
    → and_then m k ≡ none
Post-none P none k p h = refl
Post-none P (some (a, w)) k p h = h a w p
