-- ===== src/Utlist.antt =====
-- What the programs use of the doubly linked lists of utlist.h, with the documented laws.
use ie0417_dev_b.Base.{◌≡◌, refl, ap, Option, List, [], ◌∷◌, ◌++◌, head?}

-- `items` is the order from the head on. Only the head is deleted by the programs.
pub record Utlist (N : Type 0) : Type 1 where
  pub Dl : Type 0
  pub null : Dl
  pub append : Dl → N → Dl
  pub head : Dl → Option N
  pub delete : Dl → N → Dl
  pub items : Dl → List N
  pub items-null : items null ≡ []
  pub items-append : (l : Dl) (n : N) → items (append l n) ≡ items l ++ n ∷ []
  pub head-items : (l : Dl) → head l ≡ head? (items l)
  pub items-delete : (l : Dl) (n : N) (r : List N) → items l ≡ n ∷ r → items (delete l n) ≡ r

module _ {N : Type 0} where
  abbrev pub tail_of : List N → List N
  tail_of [] = []
  tail_of (x ∷ xs) = xs

-- The laws hold of lists.
abbrev pub list_of : (N : Type 0) → Utlist N
list_of N = record {
  Dl = List N;
  null = [];
  append = λ l n. l ++ n ∷ [];
  head = head?;
  delete = λ l n. tail_of l;
  items = λ l. l;
  items-null = refl;
  items-append = λ l n. refl;
  head-items = λ l. refl;
  items-delete = λ l n r e. ap tail_of e;
}
