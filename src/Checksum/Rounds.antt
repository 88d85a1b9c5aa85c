-- ===== src/Checksum/Rounds.antt =====
-- The rounds of the CRC over single bits, which are linear, and the two inner loops of the code.
use rcsw.Base.{
  ℕ, zero, suc, ◌+◌, ◌-◌, ◌*◌, ◌/◌, ◌%◌, ◌^◌, ◌<◌, ◌≡◌, refl, sym, ap, ap₂, ◌∙◌, ◌⊎◌, inl, inr, not,
  arith, ◌==◌, if◌then◌else◌,
}
use rcsw.Checksum.{rev32, eth_polynomial, remainder_loop, mask_loop}
use rcsw.Base.Bits.{bit_xor-half, bit_xor-low, bit_xor_assoc, bit_xor_comm, zero-bit_xor}
use rcsw.Base.Words.{pow-suc, mul_double, bit_xor-bound, bit_xor-parts, bit_and-mask}
use Prim.Native.Nat.{bit_and, bit_xor}

abbrev pub poly : ℕ
poly = rev32 eth_polynomial

-- The feedback of a digit that is shifted out.
abbrev pub feedback : ℕ → ℕ
feedback zero = 0
feedback (suc d) = poly

-- One round: a shift to the right and the feedback.
unfoldable pub feed : ℕ → ℕ
feed r = bit_xor (r / 2) (feedback (r % 2))

unfoldable pub feeds : (k r : ℕ) → ℕ
feeds zero r = r
feeds (suc k) r = feeds k (feed r)

digit : (r : ℕ) → (r % 2 ≡ 0) ⊎ (r % 2 ≡ 1)
digit r = grind arith

feedback-linear :
    (a b d : ℕ) → a < 2 → b < 2 → d ≡ (a + b) % 2 → feedback d ≡ bit_xor (feedback a) (feedback b)
feedback-linear zero zero d p q e = rw e refl
feedback-linear zero (suc zero) d p q e = rw e refl
feedback-linear (suc zero) zero d p q e = rw e refl
feedback-linear (suc zero) (suc zero) d p q e = rw e refl
feedback-linear (suc (suc a)) b d p q e = absurd (omega arith)
feedback-linear a (suc (suc b)) d p q e = absurd (omega arith)

-- Four terms, the middle two exchanged.
bit_xor_middle :
    (a b c d : ℕ) → bit_xor (bit_xor a b) (bit_xor c d) ≡ bit_xor (bit_xor a c) (bit_xor b d)
bit_xor_middle a b c d =
    bit_xor_assoc a b (bit_xor c d)
    ∙ ap (bit_xor a)
        (sym (bit_xor_assoc b c d) ∙ ap (λ x. bit_xor x d) (bit_xor_comm b c) ∙ bit_xor_assoc c b d)
    ∙ sym (bit_xor_assoc a c (bit_xor b d))

feed-linear : (a b : ℕ) → feed (bit_xor a b) ≡ bit_xor (feed a) (feed b)
unfolding feed
feed-linear a b =
    ap₂ bit_xor (bit_xor-half a b) (
      feedback-linear (a % 2) (b % 2) (bit_xor a b % 2) (omega arith) (omega arith)
        (bit_xor-low a b))
    ∙ bit_xor_middle (a / 2) (b / 2) (feedback (a % 2)) (feedback (b % 2))

feeds-linear : (k a b : ℕ) → feeds k (bit_xor a b) ≡ bit_xor (feeds k a) (feeds k b)
unfolding feeds
feeds-linear zero a b = refl
feeds-linear (suc k) a b = ap (feeds k) (feed-linear a b) ∙ feeds-linear k (feed a) (feed b)

feed-even : (a : ℕ) → feed (a * 2) ≡ a
unfolding feed
feed-even a =
    let half : a * 2 / 2 ≡ a = omega arith in
    let low : a * 2 % 2 ≡ 0 = omega arith in rw (half, low) (bit_xor_comm a 0 ∙ zero-bit_xor a)

-- Zeros that are shifted out leave nothing.
feeds-zeros : (k a : ℕ) → feeds k (a * 2 ^ k) ≡ a
unfolding feeds
feeds-zeros zero a = omega arith
feeds-zeros (suc k) a =
    ap (feeds k) (ap feed (double_pow a k) ∙ feed-even (a * 2 ^ k)) ∙ feeds-zeros k a
  where
    double_pow : (a k : ℕ) → a * 2 ^ suc k ≡ a * 2 ^ k * 2
    double_pow a k = ap (λ p. a * p) (pow-suc k) ∙ mul_double a (2 ^ k)

-- A byte at a time: what is above the lowest byte is only shifted.
pub feeds-byte :
    (crc byte : ℕ)
    → feeds 8 (bit_xor crc byte) ≡ bit_xor (crc / 2 ^ 8) (feeds 8 (bit_xor (crc % 2 ^ 8) byte))
feeds-byte crc byte =
    let h = crc / 2 ^ 8 in
    let l = crc % 2 ^ 8 in
    let parts : crc ≡ bit_xor (h * 2 ^ 8) l = omega (arith, bit_xor-parts 8 h l (omega arith)) in
    ap (λ c. feeds 8 (bit_xor c byte)) parts
    ∙ ap (feeds 8) (bit_xor_assoc (h * 2 ^ 8) l byte)
    ∙ feeds-linear 8 (h * 2 ^ 8) (bit_xor l byte)
    ∙ ap (λ x. bit_xor x (feeds 8 (bit_xor l byte))) (feeds-zeros 8 h)

one-digit : (r d : ℕ) → r % 2 ≡ d → bit_and r 1 ≡ d
one-digit r d e = bit_and-mask 1 r ∙ e

remainder_round :
    (r : ℕ) → (if not (bit_and r 1 == 0) then bit_xor (r / 2) poly else r / 2) ≡ feed r
unfolding feed
remainder_round r = elim (digit r) [
  | inl d ↦ rw (one-digit r 0 d, d) (sym (bit_xor_comm (r / 2) 0 ∙ zero-bit_xor (r / 2)))
  | inr d ↦ rw (one-digit r 1 d, d) refl
]

mask_round : (r : ℕ) → bit_xor (r / 2) (bit_and poly ((2 ^ 32 - bit_and r 1) % 2 ^ 32)) ≡ feed r
unfolding feed
mask_round r = elim (digit r) [
  | inl d ↦ rw (one-digit r 0 d, d) refl
  | inr d ↦ rw (one-digit r 1 d, d) refl
]

-- Both inner loops of the code are such rounds.
pub remainder_loop-feeds : (k r : ℕ) → remainder_loop k r ≡ feeds k r
unfolding remainder_loop feeds
remainder_loop-feeds zero r = refl
remainder_loop-feeds (suc k) r =
    ap (remainder_loop k) (remainder_round r) ∙ remainder_loop-feeds k (feed r)

pub mask_loop-feeds : (k r : ℕ) → mask_loop k r ≡ feeds k r
unfolding mask_loop feeds
mask_loop-feeds zero r = refl
mask_loop-feeds (suc k) r = ap (mask_loop k) (mask_round r) ∙ mask_loop-feeds k (feed r)

-- Rounds keep a word of 32 bits.
feed-bound : (r : ℕ) → r < 2 ^ 32 → feed r < 2 ^ 32
unfolding feed
feed-bound r h = elim (digit r) [
  | inl d ↦ rw d (bit_xor-bound 32 (r / 2) 0 (omega arith) (omega arith))
  | inr d ↦ rw d (bit_xor-bound 32 (r / 2) poly (omega arith) (omega arith))
]

pub feeds-bound : (k r : ℕ) → r < 2 ^ 32 → feeds k r < 2 ^ 32
unfolding feeds
feeds-bound zero r h = h
feeds-bound (suc k) r h = feeds-bound k (feed r) (feed-bound r h)

-- What a byte does to the checksum.
pub mask_loop-byte :
    (crc byte : ℕ)
    → bit_xor (crc / 2 ^ 8) (feeds 8 (bit_xor (crc % 2 ^ 8) byte)) ≡ mask_loop 8 (bit_xor crc byte)
mask_loop-byte crc byte = sym (mask_loop-feeds 8 (bit_xor crc byte) ∙ feeds-byte crc byte)

pub mask_loop-bound :
    (crc byte : ℕ) → crc < 2 ^ 32 → byte < 256 → mask_loop 8 (bit_xor crc byte) < 2 ^ 32
mask_loop-bound crc byte h k =
    rw (mask_loop-feeds 8 (bit_xor crc byte))
      (feeds-bound 8 (bit_xor crc byte) (bit_xor-bound 32 crc byte h (omega arith)))
