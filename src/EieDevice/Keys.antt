-- ===== src/EieDevice/Keys.antt =====
-- src/proyecto/eie_device/tools/eie_device/main.c: the keys that the program waits for.
use ie0417_dev_b.Base.{
  ℕ, zero, suc, ◌≡◌, ◌≢◌, refl, ◌||◌, ◌==◌, none, some, List, [], ◌∷◌, take, All, arith, ◌⊎◌, inl,
  inr, Bool-cases,
}
use ie0417_dev_b.EieDevice.Program.{wait_for_quit}

-- One of the keys is a Q or a q.
abbrev pub HoldsQuit : List ℕ → Type 0
HoldsQuit [] = ⊥
HoldsQuit (c ∷ l) = ((c ≡ 81) ⊎ (c ≡ 113)) ⊎ HoldsQuit l

abbrev pub NoQuit : List ℕ → Type 0
NoQuit l = All (λ c. (c ≢ 81) × (c ≢ 113)) l

wait-end : (n : ℕ) → wait_for_quit n [] ≡ none
unfolding wait_for_quit
wait-end zero = refl
wait-end (suc n) = wait-end n

-- The loop ends within `n` rounds just if one of the first `n` keys is a Q or a q.
pub wait-keys :
    (n : ℕ) (input : List ℕ)
    → (HoldsQuit (take n input) × (rest : List ℕ) × (wait_for_quit n input ≡ some rest))
      ⊎ (NoQuit (take n input) × (wait_for_quit n input ≡ none))
unfolding wait_for_quit
wait-keys zero input = inr (tt, refl)
wait-keys (suc n) [] = inr (tt, wait-end n)
wait-keys (suc n) (c ∷ l) = elim (Bool-cases (c == 81 || c == 113)) [
  | inl e ↦ inl (inl (ground (arith, e)), l, rw e refl)
  | inr e ↦
      let other : (c ≢ 81) × (c ≢ 113) =
        ((λ i. ground (arith, e, i)), (λ i. ground (arith, e, i))) in
      elim (wait-keys n l) [
        | inl (q, rest, run) ↦ inl (inr q, rest, rw e run)
        | inr (none_of, run) ↦ inr ((other, none_of), rw e run)
      ]
]
