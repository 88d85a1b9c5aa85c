-- ===== src/Base/Prefixes.antt =====
-- Prefixes of a list that is rearranged: what stands behind a stretch cancels.
use mathlib.Core.Path.{◌≡◌, refl, sym, ap, ◌∙◌}
use mathlib.Core.List.{perm-append_right_iff, List, [], ◌∷◌, ◌++◌, Perm}
use Prim.Native.Nat.{ℕ, zero, suc, ◌+◌}
use native.Mathlib.Omega.{arith}
use rcsw.Base.Lists.{get_or, take, drop, length-drop, ext_get_or}
use rcsw.Base.Arrays.{Rearranged}

module _ {ℓ} {A : Type ℓ} where
  take-drop : (n : ℕ) (xs : List A) → take n xs ++ drop n xs ≡ xs
  take-drop zero xs = refl
  take-drop (suc n) [] = refl
  take-drop (suc n) (x ∷ xs) = ap (◌∷◌ x) (take-drop n xs)

  get_or-drop : (n k : ℕ) (xs : List A) (d : A) → get_or (drop n xs) k d ≡ get_or xs (n + k) d
  get_or-drop zero k xs d = ap (λ i. get_or xs i d) {x = k} {y = 0 + k} (omega arith)
  get_or-drop (suc n) k [] d = refl
  get_or-drop (suc n) k (x ∷ xs) d =
      let next : suc n + k ≡ suc (n + k) = omega arith in rw next (get_or-drop n k xs d)

  -- Moves up to `hi` permute the prefix that ends there.
  pub Rearranged-prefix :
      (d : A) (lo hi : ℕ) (xs ys : List A)
      → Rearranged d lo hi xs ys
      → Perm (take (hi + 1) ys) (take (hi + 1) xs)
  Rearranged-prefix d lo hi xs ys r =
      let n = hi + 1 in
      let same : drop n ys ≡ drop n xs =
        ext_get_or (drop n ys) (drop n xs) d
          (omega (arith, length-drop n ys, length-drop n xs, r.size))
          (λ k h.
            get_or-drop n k ys d ∙ r.behind (n + k) (omega arith) ∙ sym (get_or-drop n k xs d)) in
      (perm-append_right_iff (drop n xs)).0
        (rw (sym same, take-drop n ys) (rw (same, take-drop n xs) r.perm))
