-- ===== src/Checksum/Sum.antt =====
-- The checksums that add: the sum of the words, whose order does not matter.
use rcsw.Base.{
  ℕ, zero, suc, ◌+◌, ◌*◌, ◌/◌, ◌%◌, ◌^◌, ◌≤◌, ◌<◌, ◌≡◌, refl, sym, ap, ◌∙◌, true, List, [], ◌∷◌,
  arith, ◌==◌, test_true, done, load-done, length, get_or,
}
use rcsw.Checksum.{achks_loop, achks8, achks16, achks32}
use rcsw.Base.Words.{bit_and-mask, pow-pos}
use Prim.Native.Nat.{bit_and}
use native.Mathlib.Nat.{mod-lt, mod-eq_of_lt, mod-add-mod}

-- The sum of the first `n` words.
unfoldable pub sum_of : (n : ℕ) → List ℕ → ℕ
sum_of zero xs = 0
sum_of (suc n) [] = 0
sum_of (suc n) (x ∷ xs) = x + sum_of n xs

unfoldable sum_from : (n : ℕ) → List ℕ → (i : ℕ) → ℕ
sum_from zero xs i = 0
sum_from (suc n) xs i = get_or xs i 0 + sum_from n xs (i + 1)

sum_from-cons :
    (n : ℕ) (x : ℕ) (xs : List ℕ) (i : ℕ) → sum_from n (x ∷ xs) (suc i) ≡ sum_from n xs i
unfolding sum_from
sum_from-cons zero x xs i = refl
sum_from-cons (suc n) x xs i =
    let next : suc i + 1 ≡ suc (i + 1) = omega arith in
    rw next (ap (λ s. get_or xs i 0 + s) (sum_from-cons n x xs (i + 1)))

sum_from-sum_of : (n : ℕ) (xs : List ℕ) → n ≤ length xs → sum_from n xs 0 ≡ sum_of n xs
unfolding sum_from sum_of
sum_from-sum_of zero xs h = refl
sum_from-sum_of (suc n) [] h = absurd (omega arith)
sum_from-sum_of (suc n) (x ∷ xs) h =
    ap (λ s. x + s) (sum_from-cons n x xs 0 ∙ sum_from-sum_of n xs (omega arith))

achks_loop-sum :
    (w left : ℕ) (buf : List ℕ) (i chks : ℕ)
    → i + left ≤ length buf
    → chks < 2 ^ w
    → achks_loop w left buf i chks ≡ done ((chks + sum_from left buf i) % 2 ^ w)
unfolding achks_loop sum_from
achks_loop-sum w zero buf i chks h b =
    let same : chks + 0 ≡ chks = omega arith in rw same (ap done (sym (mod-eq_of_lt b)))
achks_loop-sum w (suc left) buf i chks h b =
    let x = get_or buf i 0 in
    let rest = sum_from left buf (i + 1) in
    rw (load-done buf i 0 (omega arith)) (
      achks_loop-sum w left buf (i + 1) ((chks + x) % 2 ^ w) (omega arith)
        (mod-lt (chks + x) (pow-pos w))
      ∙ ap done (
          mod-add-mod (chks + x) (2 ^ w) rest
          ∙ ap (λ s. s % 2 ^ w) {x = chks + x + rest} {y = chks + (x + rest)} (omega arith)))

-- From a seed that fits, each of the checksums that add is the seed and the words of the buffer,
-- summed up and reduced once: `achks8` of `n` bytes, `achks16` and `achks32` of `2 * n` and `4 * n`
-- aligned bytes, when the buffer holds `n` words. None reads outside the buffer.
pub achks-sum :
    (n s8 s16 s32 : ℕ) (buf : List ℕ)
    → n ≤ length buf
    → s8 < 2 ^ 8
    → s16 < 2 ^ 16
    → s32 < 2 ^ 32
    → (achks8 buf n s8 ≡ done ((s8 + sum_of n buf) % 2 ^ 8))
      × (achks16 true buf (2 * n) s16 ≡ done ((s16 + sum_of n buf) % 2 ^ 16))
      × (achks32 true buf (4 * n) s32 ≡ done ((s32 + sum_of n buf) % 2 ^ 32))
unfolding achks8 achks16 achks32
achks-sum n s8 s16 s32 buf h b8 b16 b32 =
    let even : (bit_and (2 * n) 1 == 0) ≡ true =
      test_true _ 0 (bit_and-mask 1 (2 * n) ∙ omega arith) in
    let quad : (bit_and (4 * n) 3 == 0) ≡ true =
      test_true _ 0 (bit_and-mask 2 (4 * n) ∙ omega arith) in
    let half : 2 * n / 2 ≡ n = omega arith in
    let quarter : 4 * n / 4 ≡ n = omega arith in
    (
      rw (sym (sum_from-sum_of n buf h)) (achks_loop-sum 8 n buf 0 s8 (omega arith) b8),
      rw (even, half, sym (sum_from-sum_of n buf h))
          (achks_loop-sum 16 n buf 0 s16 (omega arith) b16),
      rw (quad, quarter, sym (sum_from-sum_of n buf h))
          (achks_loop-sum 32 n buf 0 s32 (omega arith) b32),
    )
