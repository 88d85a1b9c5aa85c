-- ===== src/Checksum/Rotate.antt =====
-- The checksums that rotate: a single word that is altered always shows.
use rcsw.Base.{
  ℕ, zero, suc, ◌+◌, ◌-◌, ◌*◌, ◌/◌, ◌%◌, ◌^◌, ◌≤◌, ◌<◌, ◌≡◌, sym, ap, ap₂, ◌∙◌, ◌≢◌, inl, inr, true,
  List, arith, test_true, Nat-cases, Exec, load-done, Ends, ends, length, get_or,
}
use mathlib.Core.Path.{subst}
use rcsw.Checksum.{rotate, xchks_loop, xchks8, xchks16, xchks32}
use rcsw.Base.Bits.{bit_xor-injective, bit_xor_comm}
use rcsw.Base.Words.{
  bit_or-low, bit_and-digit, bit_xor-bound, bit_and-mask, mod-pow, pow-suc, pow-pos,
}
use Prim.Native.Nat.{bit_and, bit_xor}
use native.Mathlib.Nat.{mod-add-div', mod-lt, div-lt_iff_lt-mul}

-- The rotation in terms of the lower digits and the top one.
rotate-parts : (v c : ℕ) → rotate (suc v) c ≡ c % 2 ^ v * 2 + c / 2 ^ v % 2
unfolding rotate
rotate-parts v c =
    let same : suc v - 1 ≡ v = omega arith in
    let up : c * 2 % 2 ^ suc v ≡ c % 2 ^ v * 2 = double_mod v c in
    rw (same, up, bit_and-digit v c) (bit_or-low (c % 2 ^ v) (c / 2 ^ v % 2) (omega arith))
  where
    double_mod : (v c : ℕ) → c * 2 % 2 ^ suc v ≡ c % 2 ^ v * 2
    double_mod v c =
        let half : c * 2 / 2 ≡ c = omega arith in
        mod-pow (c * 2) v ∙ omega (arith, ap (λ x. x % 2 ^ v) half)

rotate-bound : (v c : ℕ) → rotate (suc v) c < 2 ^ suc v
rotate-bound v c = omega (arith, rotate-parts v c, mod-lt c (pow-pos v), pow-suc v)

top_digit : (v c : ℕ) → c < 2 ^ suc v → c / 2 ^ v < 2
top_digit v c p = (div-lt_iff_lt-mul (pow-pos v)).1 (omega (arith, p, pow-suc v))

rotate-injective :
    (v c d : ℕ) → c < 2 ^ suc v → d < 2 ^ suc v → rotate (suc v) c ≡ rotate (suc v) d → c ≡ d
rotate-injective v c d p q e =
    let low : c % 2 ^ v ≡ d % 2 ^ v = omega (arith, e, rotate-parts v c, rotate-parts v d) in
    let top : c / 2 ^ v ≡ d / 2 ^ v =
      omega (arith, e, rotate-parts v c, rotate-parts v d, top_digit v c p, top_digit v d q) in
    sym (mod-add-div' c (2 ^ v)) ∙ ap₂ (λ x y. x + y * 2 ^ v) low top ∙ mod-add-div' d (2 ^ v)

-- Both buffers hold `n` words of `w` bits, which are the same but for the one at `p`.
pub record OneAltered (w n p : ℕ) (a b : List ℕ) : Type 0 where
  pub long : n ≤ length a
  pub long' : n ≤ length b
  pub words : (k : ℕ) → k < n → get_or a k 0 < 2 ^ w
  pub words' : (k : ℕ) → k < n → get_or b k 0 < 2 ^ w
  pub inside : p < n
  pub altered : get_or a p 0 ≢ get_or b p 0
  pub others : (k : ℕ) → k < n → k ≢ p → get_or a k 0 ≡ get_or b k 0

-- Both end, with different words.
abbrev pub Apart : (w : ℕ) → Exec ℕ → Exec ℕ → Type 0
Apart w m n = Ends (λ c. Ends (λ d. (c < 2 ^ w) × (d < 2 ^ w) × (c ≢ d)) n) m

module _ (v n p : ℕ) (a b : List ℕ) (o : OneAltered (suc v) n p a b) where
  round-bound : (c x : ℕ) → x < 2 ^ suc v → bit_xor (rotate (suc v) c) x < 2 ^ suc v
  round-bound c x h = bit_xor-bound (suc v) (rotate (suc v) c) x (rotate-bound v c) h

  -- Behind the altered word the states stay apart.
  behind-Apart :
      (left i c d : ℕ)
      → i + left ≡ n
      → p < i
      → c < 2 ^ suc v
      → d < 2 ^ suc v
      → c ≢ d
      → Apart (suc v) (xchks_loop (suc v) left a i c) (xchks_loop (suc v) left b i d)
  unfolding xchks_loop
  behind-Apart zero i c d e h cb db ne = ends (ends (cb, db, ne))
  behind-Apart (suc left) i c d e h cb db ne =
      let x = get_or a i 0 in
      let y = get_or b i 0 in
      let same : x ≡ y = o.others i (omega arith) (λ q. omega arith) in
      rw (load-done a i 0 (omega (arith, o.long)), load-done b i 0 (omega (arith, o.long')))
        (behind-Apart left (i + 1) (bit_xor (rotate (suc v) c) x) (bit_xor (rotate (suc v) d) y)
          (omega arith) (omega arith) (round-bound c x (o.words i (omega arith)))
          (round-bound d y (o.words' i (omega arith)))
          (λ q. ne (
            rotate-injective v c d cb db (
              bit_xor-injective x (rotate (suc v) c) (rotate (suc v) d) (
                bit_xor_comm x (rotate (suc v) c)
                ∙ q
                ∙ ap (bit_xor (rotate (suc v) d)) (sym same)
                ∙ bit_xor_comm (rotate (suc v) d) x)))))

  xchks_loop-Apart :
      (left i c : ℕ)
      → i + left ≡ n
      → i ≤ p
      → c < 2 ^ suc v
      → Apart (suc v) (xchks_loop (suc v) left a i c) (xchks_loop (suc v) left b i c)
  unfolding xchks_loop
  xchks_loop-Apart zero i c e h cb = absurd (omega (arith, o.inside))
  xchks_loop-Apart (suc left) i c e h cb =
      let x = get_or a i 0 in
      let y = get_or b i 0 in
      rw (load-done a i 0 (omega (arith, o.long)), load-done b i 0 (omega (arith, o.long')))
        (elim (Nat-cases i p) [
          | inl q ↦
              behind-Apart left (i + 1) (bit_xor (rotate (suc v) c) x)
                (bit_xor (rotate (suc v) c) y) (omega arith) (omega arith)
                (round-bound c x (o.words i (omega arith)))
                (round-bound c y (o.words' i (omega arith)))
                (λ r. o.altered (
                  subst (λ k. get_or a k 0 ≡ get_or b k 0) q
                    (bit_xor-injective (rotate (suc v) c) x y r)))
          | inr q ↦
              let same : x ≡ y = o.others i (omega arith) q in
              rw (sym same) (
                xchks_loop-Apart left (i + 1) (bit_xor (rotate (suc v) c) x) (omega arith)
                  (omega arith) (round-bound c x (o.words i (omega arith))))
        ])

even-size : (k : ℕ) → bit_and k 1 ≡ k % 2
even-size k = bit_and-mask 1 k

quad-size : (k : ℕ) → bit_and k 3 ≡ k % 4
quad-size k = bit_and-mask 2 k

-- Two buffers of `n` words each that differ in one word, at any place, have different checksums
-- from the same seed: for `xchks8` of `n` bytes, and for `xchks16` and `xchks32` of `2 * n` and
-- `4 * n` aligned bytes. None reads outside its buffer, and each checksum fits its word.
pub xchks-Apart :
    (n p s8 s16 s32 : ℕ) (a8 b8 a16 b16 a32 b32 : List ℕ)
    → s8 < 2 ^ 8
    → s16 < 2 ^ 16
    → s32 < 2 ^ 32
    → OneAltered 8 n p a8 b8
    → OneAltered 16 n p a16 b16
    → OneAltered 32 n p a32 b32
    → Apart 8 (xchks8 a8 n s8) (xchks8 b8 n s8)
      × Apart 16 (xchks16 true a16 (2 * n) s16) (xchks16 true b16 (2 * n) s16)
      × Apart 32 (xchks32 true a32 (4 * n) s32) (xchks32 true b32 (4 * n) s32)
unfolding xchks8 xchks16 xchks32
xchks-Apart n p s8 s16 s32 a8 b8 a16 b16 a32 b32 h8 h16 h32 o8 o16 o32 = (
  xchks_loop-Apart 7 n p a8 b8 o8 n 0 s8 (omega arith) (omega arith) h8,
  rw (test_true (bit_and (2 * n) 1) 0 (omega (arith, even-size (2 * n))), half)
      (xchks_loop-Apart 15 n p a16 b16 o16 n 0 s16 (omega arith) (omega arith) h16),
  rw (test_true (bit_and (4 * n) 3) 0 (omega (arith, quad-size (4 * n))), quarter)
      (xchks_loop-Apart 31 n p a32 b32 o32 n 0 s32 (omega arith) (omega arith) h32),
)
  where
    half : 2 * n / 2 ≡ n
    half = omega arith

    quarter : 4 * n / 4 ≡ n
    quarter = omega arith
