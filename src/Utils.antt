-- ===== src/Utils.antt =====
-- The helpers of src/utils/utils.c that compute: the reflection of bits, the reversal and the
-- permutations of an array, and the test for zero. An array is the list of its entries.
use rcsw.Base.{
  ℕ, zero, suc, ◌+◌, ◌-◌, ◌*◌, ◌/◌, ◌%◌, ◌^◌, ◌≤◌, ◌<◌, min, max, ◌≡◌, refl, sym, ap, ap₂, ◌∙◌, ◌≢◌,
  ◌↔◌, ◌⊎◌, inl, inr, Bool, true, false, not, ◌&&◌, ◌||◌, Option, none, some, List, [], ◌∷◌, ◌++◌,
  map, Perm, arith, ltb, leb, ◌==◌, if◌then◌else◌, Bool-cases, Option-cases, lt-or-le, lt→ltb,
  le→not-ltb, test_true, Nat-cases, le→leb, lt→not-leb, and_false, load-fault, store-fault, ==_iff,
  test_false, true-ne-false, cmp_le_of_≼, not-cmp_gt_self, Exec, done, fault, out_of_fuel, ◌>>=◌,
  load, store, load-done, store-done, Ends, ends, Ends-bind, Ends-map, Ends-if, Ends-if_and,
  Ends-inv, Errno, unset, einval, enospc, eagain, enomem, Status, ok, error, Element, cmp_le,
  cmp_gt, cmp_lt, cmp_eq, IsOrder, ◌≼◌, alloc, length, get_elem?, get_or, set, take, drop,
  replicate, length-append, length-set, length-take, length-drop, length-replicate,
  get_elem?-eq-get_or, get_or-set, get_or-set_ne, set-set, set_self, exchange-perm, get_or-set_self,
  get_or-append, get_or-take, ext_get_or, exchange, get_or-exchange, length-exchange,
  get_or-exchange_left, get_or-exchange_right, get_or-exchange_other, Rearranged, Rearranged-refl,
  Rearranged-trans, Rearranged-widen, exchange-Rearranged, ≼_of_cmp_le, ≼_of_not-cmp_gt,
  ≼_of_cmp_eq, ≼_of_cmp_lt, ≼_refl, ≼_of_not, ≼_of_cmp_gt, ≼_of_not-cmp_le, ≼_of_not-cmp_lt,
}
use mathlib.Core.Path.{subst}
use mathlib.Core.List.Perm
use Prim.Native.Nat.{bit_and, bit_or}
pub mod Reflect
pub mod Orders
pub mod Permute
mod Tests

-- The loop of `util_reflect32`, with `left` bits to go: `(n_bits - 1) - bit` is `left - 1`. The
-- shift of 1 is below 2 ^ 32 when `n_bits` is at most 32.
unfoldable pub reflect_loop : (left word reflection : ℕ) → ℕ
reflect_loop zero word reflection = reflection
reflect_loop (suc left) word reflection =
    reflect_loop left (word / 2)
      (if not (bit_and word 1 == 0) then bit_or reflection (2 ^ left) else reflection)

unfoldable pub util_reflect32 : (word n_bits : ℕ) → ℕ
util_reflect32 word n_bits = reflect_loop n_bits word 0

module _ {ℓ} {A : Type ℓ} where
  unfoldable pub arr32_elt_swap : List A → (i j : ℕ) → Exec (List A)
  arr32_elt_swap v i j = do t ← load v i; x ← load v j; v' ← store v i x; store v' j t

  -- The loop of `arr8_reverse`, from both ends.
  unfoldable pub reverse_loop : (fuel : ℕ) → List A → (i j : ℕ) → Exec (List A)
  reverse_loop zero arr i j = out_of_fuel
  reverse_loop (suc fuel) arr i j =
      if ltb i j
      then (do
        tmp ← load arr i
        x ← load arr j
        arr' ← store arr i x
        arr'' ← store arr' j tmp
        reverse_loop fuel arr'' (i + 1) (j - 1))
      else done arr

  -- `size - 1` is a `size_t`.
  unfoldable pub arr8_reverse : List A → (size : ℕ) → Exec (List A)
  arr8_reverse arr size = reverse_loop (size + 1) arr 0 ((size + (2 ^ 64 - 1)) % 2 ^ 64)

  -- The array, and what `fp` was called with, the last call first.
  -- The loop over `j`, with `left` rounds to go; `inner` is the call at `start + 1`.
  unfoldable pub permute_loop :
      (inner : List A → List (List A) → Exec (List A × List (List A)))
      → (left : ℕ) → List A
      → (start j : ℕ) → List (List A)
      → Exec (List A × List (List A))
  permute_loop inner zero arr start j calls = done (arr, calls)
  permute_loop inner (suc left) arr start j calls = do
    arr1 ← arr32_elt_swap arr start j
    (arr2, calls') ← inner arr1 calls
    arr3 ← arr32_elt_swap arr2 start j
    permute_loop inner left arr3 start (j + 1) calls'

  -- `arr32_permute` at `start`, with `rest` for `size - start`.
  unfoldable pub permute_from :
      (rest : ℕ) → (start : ℕ) → List A → List (List A) → Exec (List A × List (List A))
  permute_from zero start arr calls = done (arr, arr ∷ calls)
  permute_from (suc rest) start arr calls =
      permute_loop (permute_from rest (start + 1)) (suc rest) arr start start calls

  unfoldable pub arr32_permute : List A → (size start : ℕ) → Exec (List A × List (List A))
  arr32_permute arr size start =
      if ltb size start then done (arr, []) else permute_from (size - start) start arr []
