-- ===== src/Uthash.antt =====
-- What the programs use of uthash.h: a table from strings to entries, and its documented laws.
-- An entry is a heap object, told apart by its address. A table keeps duplicate keys.
use ie0417_dev_b.Base.{
  ℕ, ◌≡◌, refl, Bool, false, ◌||◌, Option, none, some, is_some, List, [], ◌∷◌, ◌++◌, ◌⊎◌, inl, inr,
  CString, bytes_eq, bytes_eq_sound, ◌==◌, if◌then◌else◌, Bool-cases, arith,
}
use ie0417_dev_b.Process.{Ptr}

module _ {X : Type 0} where
  -- Some entry has the key.
  abbrev pub has_key : CString → List (CString × Ptr X) → Bool
  has_key k [] = false
  has_key k ((j, p) ∷ l) = bytes_eq j k || has_key k l

  -- The entry stands in the table under the key.
  abbrev pub Entry : CString → Ptr X → List (CString × Ptr X) → Type 0
  Entry k p [] = ⊥
  Entry k p ((j, q) ∷ l) = ((j ≡ k) × (q ≡ p)) ⊎ Entry k p l

  abbrev pub erase_entry : ℕ → List (CString × Ptr X) → List (CString × Ptr X)
  erase_entry a [] = []
  erase_entry a ((j, q) ∷ l) = if a == q.addr then l else (j, q) ∷ erase_entry a l

-- `items` is the order of HASH_ITER, in which entries were added.
pub record Uthash (X : Type 0) : Type 1 where
  pub Table : Type 0
  pub null : Table
  pub add_keyptr : Table → CString → Ptr X → Table
  pub find : Table → CString → Option (Ptr X)
  pub delete : Table → Ptr X → Table
  pub items : Table → List (CString × Ptr X)
  pub items-null : items null ≡ []
  pub items-add :
      (t : Table) (k : CString) (p : Ptr X) → items (add_keyptr t k p) ≡ items t ++ (k, p) ∷ []
  pub items-delete : (t : Table) (p : Ptr X) → items (delete t p) ≡ erase_entry p.addr (items t)
  pub is_some-find : (t : Table) (k : CString) → is_some (find t k) ≡ has_key k (items t)
  pub find-Entry : (t : Table) (k : CString) (p : Ptr X) → find t k ≡ some p → Entry k p (items t)

module _ {X : Type 0} where
  abbrev pub find_first : List (CString × Ptr X) → CString → Option (Ptr X)
  find_first [] k = none
  find_first ((j, p) ∷ l) k = if bytes_eq j k then some p else find_first l k

  pub is_some-find_first :
      (l : List (CString × Ptr X)) (k : CString) → is_some (find_first l k) ≡ has_key k l
  is_some-find_first [] k = refl
  is_some-find_first ((j, p) ∷ l) k = ground (arith, is_some-find_first l k)

  pub find_first-Entry :
      (l : List (CString × Ptr X)) (k : CString) (p : Ptr X) → find_first l k ≡ some p → Entry k p l
  find_first-Entry [] k p h = cc
  find_first-Entry ((j, q) ∷ l) k p h = elim (Bool-cases (bytes_eq j k)) [
    | inl e ↦ inl (bytes_eq_sound j k e, ground arith)
    | inr e ↦ inr (find_first-Entry l k p (ground arith))
  ]

-- The laws hold of an association list that is searched from the front.
abbrev pub association_list : (X : Type 0) → Uthash X
association_list X = record {
  Table = List (CString × Ptr X);
  null = [];
  add_keyptr = λ t k p. t ++ (k, p) ∷ [];
  find = find_first;
  delete = λ t p. erase_entry p.addr t;
  items = λ t. t;
  items-null = refl;
  items-add = λ t k p. refl;
  items-delete = λ t p. refl;
  is_some-find = is_some-find_first;
  find-Entry = find_first-Entry;
}
