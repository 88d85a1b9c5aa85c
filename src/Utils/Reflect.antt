-- ===== src/Utils/Reflect.antt =====
-- The reflection of bits undoes itself.
use rcsw.Base.{
  ◌-◌, ℕ, zero, suc, ◌+◌, ◌*◌, ◌/◌, ◌%◌, ◌^◌, ◌≤◌, ◌<◌, ◌≡◌, sym, ap, ◌∙◌, ◌⊎◌, inl, inr, arith,
}
use Prim.Native.Nat.{bit_or}
use rcsw.Base.Words.{pow-suc, pow-pos, mul_double, mod-pow, div-pow, bit_or-parts, bit_and-mask}
use rcsw.Utils.{reflect_loop, util_reflect32}
use native.Mathlib.Nat.{mod-eq_of_lt, div-eq_of_lt, mul-add-div_right, mul-add-mod_self_right}

digit : (word : ℕ) → (word % 2 ≡ 0) ⊎ (word % 2 ≡ 1)
digit word = grind arith

-- The digits in reverse, from the lowest one on.
unfoldable pub reversed : (n word : ℕ) → ℕ
reversed zero word = 0
reversed (suc n) word = word % 2 * 2 ^ n + reversed n (word / 2)

reversed-bound : (n word : ℕ) → reversed n word < 2 ^ n
unfolding reversed
reversed-bound zero word = omega arith
reversed-bound (suc n) word = elim (digit word) [
  | inl d ↦ rw d (omega (arith, pow-suc n, reversed-bound n (word / 2)))
  | inr d ↦ rw d (omega (arith, pow-suc n, reversed-bound n (word / 2)))
]

-- The same from the highest digit on.
reversed_high :
    (n word : ℕ) → reversed (suc n) word ≡ reversed n (word % 2 ^ n) * 2 + word / 2 ^ n % 2
unfolding reversed
reversed_high zero word = omega arith
reversed_high (suc n) word =
    let ih = reversed_high n (word / 2) in
    let part : word % 2 ^ suc n / 2 ≡ word / 2 % 2 ^ n = omega (arith, mod-pow word n) in
    let low : word % 2 ^ suc n % 2 ≡ word % 2 = omega (arith, mod-pow word n) in
    let up : word % 2 * 2 ^ suc n ≡ word % 2 * 2 ^ n * 2 =
      ap (λ p. word % 2 * p) (pow-suc n) ∙ mul_double (word % 2) (2 ^ n) in
    rw (part, low, div-pow word n) (omega (arith, ih, up))

reversed_twice : (n word : ℕ) → word < 2 ^ n → reversed n (reversed n word) ≡ word
unfolding reversed
reversed_twice zero word h = omega arith
reversed_twice (suc n) word h =
    let b = word % 2 in
    let r = reversed n (word / 2) in
    let small = reversed-bound n (word / 2) in
    let high : (b * 2 ^ n + r) / 2 ^ n ≡ b =
      mul-add-div_right (pow-pos n) b r ∙ omega (arith, div-eq_of_lt small) in
    let low : (b * 2 ^ n + r) % 2 ^ n ≡ r =
      mul-add-mod_self_right b (2 ^ n) r ∙ mod-eq_of_lt small in
    let ih = reversed_twice n (word / 2) (omega (arith, h, pow-suc n)) in
    reversed_high n (b * 2 ^ n + r) ∙ omega (arith, ap (λ x. reversed n x) low ∙ ih, high)

-- A digit below a remainder is a digit of the word.
digit-mod : (k n word : ℕ) → k < n → word % 2 ^ n / 2 ^ k % 2 ≡ word / 2 ^ k % 2
digit-mod k zero word h = absurd (omega arith)
digit-mod zero (suc n) word h = omega (arith, mod-pow word n)
digit-mod (suc k) (suc n) word h =
    let part : word % 2 ^ suc n / 2 ≡ word / 2 % 2 ^ n = omega (arith, mod-pow word n) in
    rw (div-pow (word % 2 ^ suc n) k, div-pow word k, part) (digit-mod k n (word / 2) (omega arith))

-- The digit at each place is the one that was as far from the other end.
reversed-digit : (n word k : ℕ) → k < n → reversed n word / 2 ^ k % 2 ≡ word / 2 ^ (n - 1 - k) % 2
reversed-digit zero word k h = absurd (omega arith)
reversed-digit (suc n) word zero h =
    let place : suc n - 1 - 0 ≡ n = omega arith in rw place (omega (arith, reversed_high n word))
reversed-digit (suc n) word (suc k) h =
    let half : reversed (suc n) word / 2 ≡ reversed n (word % 2 ^ n) =
      omega (arith, reversed_high n word) in
    let place : n - 1 - k ≡ n - suc k = omega arith in
    let goal_place : suc n - 1 - suc k ≡ n - suc k = omega arith in
    rw
      (
        div-pow (reversed (suc n) word) k,
        half,
        reversed-digit n (word % 2 ^ n) k (omega arith),
        place,
        goal_place,
      )
      (digit-mod (n - suc k) n word (omega arith))

-- The loop adds the reversed digits below those that it has.
reflect_loop-reversed :
    (left word h : ℕ) → reflect_loop left word (h * 2 ^ left) ≡ h * 2 ^ left + reversed left word
unfolding reflect_loop reversed
reflect_loop-reversed zero word h = omega arith
reflect_loop-reversed (suc left) word h =
    let p = 2 ^ left in
    let rest = reversed left (word / 2) in
    let wide : h * 2 ^ suc left ≡ h * 2 * p = ap (λ q. h * q) (pow-suc left) ∙ regroup h p in
    let one_digit = bit_and-mask 1 word in
    elim (digit word) [
      | inl d ↦
          rw (one_digit ∙ d, d, wide) (reflect_loop-reversed left (word / 2) (h * 2) ∙ omega arith)
      | inr d ↦
          let joined : bit_or (h * 2 ^ suc left) p ≡ (h * 2 + 1) * p =
            bit_or-parts (suc left) h p (omega (arith, pow-suc left, pow-pos left))
            ∙ ap (λ x. x + p) wide
            ∙ one_more h p in
          rw (one_digit ∙ d, d, joined)
            (reflect_loop-reversed left (word / 2) (h * 2 + 1) ∙ omega (arith, wide, one_more h p))
    ]
  where
    regroup : (h p : ℕ) → h * (p * 2) ≡ h * 2 * p
    regroup h p = grind arith

    one_more : (h p : ℕ) → h * 2 * p + p ≡ (h * 2 + 1) * p
    one_more h p = grind arith

-- The reflection of the lowest `n` bits of a word of `n` bits, for `n` up to 32, has `n` bits; the
-- one at each place `k` is the one that the word has at the place `n - 1 - k`; and a second
-- reflection gives the word back.
pub util_reflect32-util_reflect32 :
    (word n k : ℕ)
    → word < 2 ^ n
    → n ≤ 32
    → k < n
    → (util_reflect32 word n < 2 ^ n)
      × (util_reflect32 word n / 2 ^ k % 2 ≡ word / 2 ^ (n - 1 - k) % 2)
      × (util_reflect32 (util_reflect32 word n) n ≡ word)
unfolding util_reflect32
util_reflect32-util_reflect32 word n k h b p =
    rw (once word, once (reversed n word))
      (reversed-bound n word, reversed-digit n word k p, reversed_twice n word h)
  where
    once : (w : ℕ) → reflect_loop n w 0 ≡ reversed n w
    once w =
        let z : 0 * 2 ^ n ≡ 0 = omega arith in
        ap (reflect_loop n w) (sym z) ∙ reflect_loop-reversed n w 0 ∙ omega (arith, z)
