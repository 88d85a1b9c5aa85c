-- ===== src/Base/Words.antt =====
-- Words of `k` digits: bounds, parts, masks and single digits.
use Prim.Native.Nat.{ℕ, zero, suc, ◌+◌, ◌-◌, ◌*◌, ◌/◌, ◌%◌, ◌^◌, ◌≤◌, ◌<◌, bit_and, bit_or, bit_xor}
use mathlib.Core.Path.{◌≡◌, refl, sym, ap, ap₂, ◌∙◌}
use native.Mathlib.Omega.{arith}
use native.Mathlib.Nat.{div-div-eq-div-mul, mod-add-div'}
use rcsw.Base.Bits.{bit_xor-step, bit_and-step, bit_or-step, zero-bit_xor, bit_xor_comm}

pub pow-suc : (k : ℕ) → 2 ^ suc k ≡ 2 ^ k * 2
pow-suc k = omega arith

pub mul_double : (h p : ℕ) → h * (p * 2) ≡ h * p * 2
mul_double h p = grind arith

pub pow-pos : (k : ℕ) → 0 < 2 ^ k
pow-pos zero = omega arith
pow-pos (suc k) = omega (arith, pow-pos k)

pub div-pow : (a k : ℕ) → a / 2 ^ suc k ≡ a / 2 / 2 ^ k
div-pow a k =
    let e : 2 ^ suc k ≡ 2 * 2 ^ k = omega arith in
    ap (λ p. a / p) e ∙ sym (div-div-eq-div-mul a 2 (2 ^ k))

-- Numbers of `k` digits stay so.
pub bit_xor-bound : (k a b : ℕ) → a < 2 ^ k → b < 2 ^ k → bit_xor a b < 2 ^ k
bit_xor-bound zero a b p q =
    let x : a ≡ 0 = omega arith in let y : b ≡ 0 = omega arith in rw (x, y) (omega arith)
bit_xor-bound (suc k) a b p q =
    omega (arith, bit_xor-step a b, bit_xor-bound k (a / 2) (b / 2) (omega arith) (omega arith))

-- The digits above the lowest `k` ones, and those.
pub bit_xor-parts : (k h l : ℕ) → l < 2 ^ k → bit_xor (h * 2 ^ k) l ≡ h * 2 ^ k + l
bit_xor-parts zero h l p =
    let x : l ≡ 0 = omega arith in
    rw x (bit_xor_comm (h * 1) 0 ∙ zero-bit_xor (h * 1) ∙ omega arith)
bit_xor-parts (suc k) h l p =
    let double : h * 2 ^ suc k ≡ h * 2 ^ k * 2 =
      ap (λ p. h * p) (pow-suc k) ∙ mul_double h (2 ^ k) in
    let half : h * 2 ^ suc k / 2 ≡ h * 2 ^ k = omega (arith, double) in
    let ih = bit_xor-parts k h (l / 2) (omega arith) in
    omega (arith, double, bit_xor-step (h * 2 ^ suc k) l, ap (λ x. bit_xor x (l / 2)) half ∙ ih)

bit_and-zero : (a : ℕ) → bit_and a 0 ≡ 0
bit_and-zero a = go a a (omega arith)
  where
    go : (n a : ℕ) → a ≤ n → bit_and a 0 ≡ 0
    go zero (suc a) h = absurd (omega arith)
    go n zero h = refl
    go (suc n) (suc a) h = omega (arith, bit_and-step (suc a) 0, go n (suc a / 2) (omega arith))

-- `(a & 2 ^ k) >> k` is one digit.
pub bit_and-digit : (k a : ℕ) → bit_and a (2 ^ k) / 2 ^ k ≡ a / 2 ^ k % 2
bit_and-digit zero a = omega (arith, bit_and-step a 1, bit_and-zero (a / 2))
bit_and-digit (suc k) a =
    let half : 2 ^ suc k / 2 ≡ 2 ^ k = omega arith in
    let step : bit_and a (2 ^ suc k) / 2 ≡ bit_and (a / 2) (2 ^ k) =
      omega (arith, bit_and-step a (2 ^ suc k), ap (bit_and (a / 2)) half) in
    div-pow (bit_and a (2 ^ suc k)) k
    ∙ ap (λ x. x / 2 ^ k) step
    ∙ bit_and-digit k (a / 2)
    ∙ ap (λ x. x % 2) (sym (div-pow a k))

pub mod-pow : (a k : ℕ) → a % 2 ^ suc k ≡ a / 2 % 2 ^ k * 2 + a % 2
mod-pow a k =
    let x = a / 2 / 2 ^ k in
    let whole = mod-add-div' a (2 ^ suc k) in
    let part = mod-add-div' (a / 2) (2 ^ k) in
    let same : a / 2 ^ suc k * 2 ^ suc k ≡ x * 2 ^ k * 2 =
      ap₂ (λ q p. q * p) (div-pow a k) (pow-suc k) ∙ mul_double x (2 ^ k) in
    omega (arith, whole, part, same)

-- `a & (2 ^ k - 1)` is a remainder.
pub bit_and-mask : (k a : ℕ) → bit_and a (2 ^ k - 1) ≡ a % 2 ^ k
bit_and-mask zero a = rw (bit_and-zero a) (omega arith)
bit_and-mask (suc k) a =
    let half : (2 ^ suc k - 1) / 2 ≡ 2 ^ k - 1 = omega arith in
    let odd : (2 ^ suc k - 1) % 2 ≡ 1 = omega (arith, pow-pos k) in
    let rest = ap (bit_and (a / 2)) half ∙ bit_and-mask k (a / 2) in
    omega (arith, bit_and-step a (2 ^ suc k - 1), rest, odd, mod-pow a k)

bit_or-zero : (a : ℕ) → bit_or a 0 ≡ a
bit_or-zero a = go a a (omega arith)
  where
    go : (n a : ℕ) → a ≤ n → bit_or a 0 ≡ a
    go n zero h = refl
    go zero (suc a) h = absurd (omega arith)
    go (suc n) (suc a) h = omega (arith, bit_or-step (suc a) 0, go n (suc a / 2) (omega arith))

-- An even number takes a lowest digit.
pub bit_or-low : (a b : ℕ) → b < 2 → bit_or (a * 2) b ≡ a * 2 + b
bit_or-low a b h =
    let x : a * 2 / 2 ≡ a = omega arith in
    let y : b / 2 ≡ 0 = omega arith in
    omega (arith, bit_or-step (a * 2) b, ap₂ bit_or x y, bit_or-zero a)

-- Lower digits go beside those above them.
pub bit_or-parts : (k h l : ℕ) → l < 2 ^ k → bit_or (h * 2 ^ k) l ≡ h * 2 ^ k + l
bit_or-parts zero h l p = let x : l ≡ 0 = omega arith in rw x (bit_or-zero (h * 1) ∙ omega arith)
bit_or-parts (suc k) h l p =
    let double : h * 2 ^ suc k ≡ h * 2 ^ k * 2 =
      ap (λ p. h * p) (pow-suc k) ∙ mul_double h (2 ^ k) in
    let half : h * 2 ^ suc k / 2 ≡ h * 2 ^ k = omega (arith, double) in
    let ih = bit_or-parts k h (l / 2) (omega arith) in
    omega (arith, double, bit_or-step (h * 2 ^ suc k) l, ap (λ x. bit_or x (l / 2)) half ∙ ih)
