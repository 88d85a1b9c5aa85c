-- ===== src/Pcqueue/Totals.antt =====
-- Counts over the threads.
use rcsw.Base.{ℕ, ◌+◌, ◌<◌, ◌≡◌, refl, ap, inl, inr, List, [], ◌∷◌, ◌++◌, arith, lt-or-le}

module _ {ℓ} {P : Type ℓ} where
  -- The sum of a weight over a list of threads.
  unfoldable pub total : (P → ℕ) → List P → ℕ
  total weight [] = 0
  total weight (pc ∷ ts) = weight pc + total weight ts

  -- What the others weigh.
  pub total-split :
      (weight : P → ℕ) (before : List P) (pc : P) (after : List P)
      → total weight (before ++ pc ∷ after) ≡ total weight before + total weight after + weight pc
  unfolding total
  total-split weight [] pc after = omega arith
  total-split weight (x ∷ before) pc after = omega (arith, total-split weight before pc after)

  -- A total that is not zero has a thread that weighs.
  pub total-some :
      (weight : P → ℕ) (ts : List P)
      → 0 < total weight ts
      → (before : List P) × (pc : P) × (after : List P) × (ts ≡ before ++ pc ∷ after)
        × (0 < weight pc)
  unfolding total
  total-some weight [] h = absurd (omega arith)
  total-some weight (pc ∷ ts) h = elim (lt-or-le 0 (weight pc)) [
    | inl c ↦ ([], pc, ts, refl, c)
    | inr c ↦
        let (before, pc', after, e, w) = total-some weight ts (omega arith) in
        (pc ∷ before, pc', after, ap (◌∷◌ pc) e, w)
  ]
