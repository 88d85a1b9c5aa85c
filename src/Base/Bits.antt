-- ===== src/Base/Bits.antt =====
-- The binary digits of native numbers: `^`, `&` and `|` of the code at variables.
use Prim.Native.Nat.{
  ℕ, zero, suc, ◌+◌, ◌-◌, ◌*◌, ◌/◌, ◌%◌, ◌≤◌, ◌<◌, min, max, bit_and, bit_or, bit_xor, digits,
  bitwise, differ, bit_and-bitwise, bit_or-bitwise, bit_xor-bitwise,
}
use mathlib.Core.Path.{◌≡◌, refl, sym, ap, ap₂, ◌∙◌}
use native.Mathlib.Omega.{arith}

-- Any operation on digits: a round more changes nothing, once all digits are through.
one_more :
    (z : ℕ → ℕ) (f : ℕ → ℕ → ℕ) (n a b : ℕ) → a ≤ n → digits z f (suc n) a b ≡ digits z f n a b
one_more z f zero (suc a) b h = absurd (omega arith)
one_more z f zero zero b h = refl
one_more z f (suc n) zero b h = refl
one_more z f (suc n) (suc a) b h =
    ap (λ x. x * 2 + f (suc a % 2) (b % 2)) (one_more z f n (suc a / 2) (b / 2) (omega arith))

more_rounds :
    (z : ℕ → ℕ) (f : ℕ → ℕ → ℕ) (k n a b : ℕ) → a ≤ n → digits z f (k + n) a b ≡ digits z f n a b
more_rounds z f zero n a b h = ap (λ m. digits z f m a b) {x = 0 + n} {y = n} (omega arith)
more_rounds z f (suc k) n a b h =
    let next : suc k + n ≡ suc (k + n) = omega arith in
    rw next (one_more z f (k + n) a b (omega arith) ∙ more_rounds z f k n a b h)

-- So it works from the lowest digit up.
bitwise-step :
    (z : ℕ → ℕ) (f : ℕ → ℕ → ℕ) (a b : ℕ)
    → bitwise z f (suc a) b ≡ bitwise z f (suc a / 2) (b / 2) * 2 + f (suc a % 2) (b % 2)
bitwise-step z f a b =
    let half = suc a / 2 in
    let rounds : a ≡ a - half + half = omega arith in
    ap (λ x. x * 2 + f (suc a % 2) (b % 2))
      (ap (λ n. digits z f n half (b / 2)) rounds
        ∙ more_rounds z f (a - half) half half (b / 2) (omega arith))

differ_sum : (x y : ℕ) → x < 2 → y < 2 → differ x y ≡ (x + y) % 2
differ_sum zero y p q = omega arith
differ_sum (suc zero) zero p q = refl
differ_sum (suc zero) (suc zero) p q = refl
differ_sum (suc zero) (suc (suc y)) p q = absurd (omega arith)
differ_sum (suc (suc x)) y p q = absurd (omega arith)

-- The lowest digit, and the rest.
pub bit_xor-step : (a b : ℕ) → bit_xor a b ≡ bit_xor (a / 2) (b / 2) * 2 + (a % 2 + b % 2) % 2
bit_xor-step zero b = omega (arith, bit_xor-bitwise 0 b, bit_xor-bitwise 0 (b / 2))
bit_xor-step (suc a) b = omega (
  arith,
  bit_xor-bitwise (suc a) b,
  bitwise-step (λ b. b) differ a b,
  bit_xor-bitwise (suc a / 2) (b / 2),
  differ_sum (suc a % 2) (b % 2) (omega arith) (omega arith),
)

pub bit_and-step : (a b : ℕ) → bit_and a b ≡ bit_and (a / 2) (b / 2) * 2 + min (a % 2) (b % 2)
bit_and-step zero b = omega (arith, bit_and-bitwise 0 b, bit_and-bitwise 0 (b / 2))
bit_and-step (suc a) b = omega (
  arith,
  bit_and-bitwise (suc a) b,
  bitwise-step (λ b. 0) min a b,
  bit_and-bitwise (suc a / 2) (b / 2),
)

pub bit_or-step : (a b : ℕ) → bit_or a b ≡ bit_or (a / 2) (b / 2) * 2 + max (a % 2) (b % 2)
bit_or-step zero b = omega (arith, bit_or-bitwise 0 b, bit_or-bitwise 0 (b / 2))
bit_or-step (suc a) b = omega (
  arith,
  bit_or-bitwise (suc a) b,
  bitwise-step (λ b. b) max a b,
  bit_or-bitwise (suc a / 2) (b / 2),
)

pub bit_xor-half : (a b : ℕ) → bit_xor a b / 2 ≡ bit_xor (a / 2) (b / 2)
bit_xor-half a b = omega (arith, bit_xor-step a b)

pub bit_xor-low : (a b : ℕ) → bit_xor a b % 2 ≡ (a % 2 + b % 2) % 2
bit_xor-low a b = omega (arith, bit_xor-step a b)

-- Numbers with the same digits are the same.
same_digits : (a b : ℕ) → a / 2 ≡ b / 2 → a % 2 ≡ b % 2 → a ≡ b
same_digits a b p q = omega arith

pub zero-bit_xor : (b : ℕ) → bit_xor 0 b ≡ b
zero-bit_xor b = bit_xor-bitwise 0 b

pub bit_xor_comm : (a b : ℕ) → bit_xor a b ≡ bit_xor b a
bit_xor_comm a b = go (a + b) a b (omega arith)
  where
    go : (n a b : ℕ) → a + b ≤ n → bit_xor a b ≡ bit_xor b a
    go zero a b h = let p : a ≡ b = omega arith in ap₂ bit_xor p (sym p)
    go (suc n) zero zero h = refl
    go (suc n) (suc a) b h = omega (
      arith,
      bit_xor-step (suc a) b,
      bit_xor-step b (suc a),
      go n (suc a / 2) (b / 2) (omega arith),
    )
    go (suc n) zero (suc b) h =
        omega
          (arith, bit_xor-step 0 (suc b), bit_xor-step (suc b) 0, go n 0 (suc b / 2) (omega arith))

pub bit_xor_assoc : (a b c : ℕ) → bit_xor (bit_xor a b) c ≡ bit_xor a (bit_xor b c)
bit_xor_assoc a b c = go (a + b + c) a b c (omega arith)
  where
    halves :
        (a b c : ℕ)
        → bit_xor (bit_xor (a / 2) (b / 2)) (c / 2) ≡ bit_xor (a / 2) (bit_xor (b / 2) (c / 2))
        → bit_xor (bit_xor a b) c ≡ bit_xor a (bit_xor b c)
    halves a b c ih =
        same_digits _ _
          (bit_xor-half (bit_xor a b) c
            ∙ ap (λ x. bit_xor x (c / 2)) (bit_xor-half a b)
            ∙ ih
            ∙ sym (bit_xor-half a (bit_xor b c) ∙ ap (bit_xor (a / 2)) (bit_xor-half b c)))
          (omega (
            arith,
            bit_xor-low (bit_xor a b) c,
            bit_xor-low a (bit_xor b c),
            bit_xor-low a b,
            bit_xor-low b c,
          ))

    go : (n a b c : ℕ) → a + b + c ≤ n → bit_xor (bit_xor a b) c ≡ bit_xor a (bit_xor b c)
    go zero a b c h =
        let x : a ≡ 0 = omega arith in
        let y : b ≡ 0 = omega arith in let z : c ≡ 0 = omega arith in rw (x, y, z) refl
    go (suc n) zero zero zero h = refl
    go (suc n) (suc a) b c h = halves (suc a) b c (go n (suc a / 2) (b / 2) (c / 2) (omega arith))
    go (suc n) zero (suc b) c h = halves 0 (suc b) c (go n 0 (suc b / 2) (c / 2) (omega arith))
    go (suc n) zero zero (suc c) h = halves 0 0 (suc c) (go n 0 0 (suc c / 2) (omega arith))

pub bit_xor_self : (a : ℕ) → bit_xor a a ≡ 0
bit_xor_self a = go a a (omega arith)
  where
    go : (n a : ℕ) → a ≤ n → bit_xor a a ≡ 0
    go n zero h = refl
    go zero (suc a) h = absurd (omega arith)
    go (suc n) (suc a) h =
        omega (arith, bit_xor-step (suc a) (suc a), go n (suc a / 2) (omega arith))

-- A second time undoes the first.
pub bit_xor_cancel : (a b : ℕ) → bit_xor a (bit_xor a b) ≡ b
bit_xor_cancel a b =
    sym (bit_xor_assoc a a b) ∙ ap (λ x. bit_xor x b) (bit_xor_self a) ∙ zero-bit_xor b

pub bit_xor-injective : (a b c : ℕ) → bit_xor a b ≡ bit_xor a c → b ≡ c
bit_xor-injective a b c e = sym (bit_xor_cancel a b) ∙ ap (bit_xor a) e ∙ bit_xor_cancel a c
