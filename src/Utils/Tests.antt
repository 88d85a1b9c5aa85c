-- ===== src/Utils/Tests.antt =====
-- Runs of the helpers, and the theorems at concrete words and arrays.
use rcsw.Base.{
  ◌-◌, ◌/◌, ◌%◌, ℕ, ◌^◌, ◌<◌, ◌≡◌, refl, List, [], ◌∷◌, arith, done, fault, load, store, Ends,
  length,
}
use rcsw.Utils.{
  reflect_loop, util_reflect32, arr32_elt_swap, reverse_loop, arr8_reverse, permute_loop,
  permute_from, arr32_permute,
}
use rcsw.Utils.Reflect.{util_reflect32-util_reflect32}
use rcsw.Utils.Orders.{IsDistinct}
use rcsw.Utils.Permute.{factorial, Visited, arr32_permute-Visited}

util_reflect32-byte : util_reflect32 0xb1 8 ≡ 0x8d
unfolding util_reflect32 reflect_loop
util_reflect32-byte = refl

util_reflect32-util_reflect32_example :
    (util_reflect32 0xb1 8 < 2 ^ 8)
    × (util_reflect32 0xb1 8 / 2 ^ 2 % 2 ≡ 0xb1 / 2 ^ (8 - 1 - 2) % 2)
    × (util_reflect32 (util_reflect32 0xb1 8) 8 ≡ 0xb1)
util_reflect32-util_reflect32_example =
    util_reflect32-util_reflect32 0xb1 8 2 (omega arith) (omega arith) (omega arith)

abbrev digits : List ℕ
digits = 1 ∷ 2 ∷ 3 ∷ []

arr8_reverse-digits : arr8_reverse digits 3 ≡ done (3 ∷ 2 ∷ 1 ∷ [])
unfolding arr8_reverse reverse_loop load store
arr8_reverse-digits = refl

-- With size 0 the upper index wraps.
arr8_reverse-none : arr8_reverse digits 0 ≡ fault
unfolding arr8_reverse reverse_loop load
arr8_reverse-none = refl

arr32_permute-digits :
    arr32_permute digits 3 1 ≡ done (digits, (1 ∷ 3 ∷ 2 ∷ []) ∷ (1 ∷ 2 ∷ 3 ∷ []) ∷ [])
unfolding arr32_permute permute_from permute_loop arr32_elt_swap load store
arr32_permute-digits = refl

digits-IsDistinct : IsDistinct 0 1 digits
digits-IsDistinct i k a b c e =
    let x : i ≡ 1 = omega arith in
    let y : k ≡ 2 = omega arith in absurd (omega (arith, (rw (x, y) at e)))

arr32_permute-Visited_example :
    Ends
      (Visited 0 1 digits (factorial (length digits - 1)))
      (arr32_permute digits (length digits) 1)
arr32_permute-Visited_example = arr32_permute-Visited 0 digits 1 (omega arith) digits-IsDistinct
