-- ===== src/Checksum/Tests.antt =====
-- Runs of the checksums, against the check values of the nine digits.
use rcsw.Base.{
  ◌⊎◌, ◌≡◌, ℕ, zero, suc, ◌-◌, ◌+◌, ◌%◌, ◌^◌, ◌≤◌, ◌<◌, refl, ◌≢◌, true, List, [], ◌∷◌, arith, done,
  load, Ends, get_or, replicate,
}
use rcsw.Checksum.Sum.{sum_of, achks-sum}
use rcsw.Checksum.Rotate.{OneAltered, Apart, xchks-Apart}
use rcsw.Checksum.Crc.{IsTable, zeros, crc32_ethl-crc32_eth}
use rcsw.Checksum.Brown.{crc32_brown-crc32_eth}
use rcsw.Checksum.{
  achks8, achks16, achks32, xchks16, xchks32, xchks8, crc32_ethl, crc32_eth, eth_loop, mask_loop,
  crc32_brown, brown_loop,
}

abbrev nine : List ℕ
nine = 49 ∷ 50 ∷ 51 ∷ 52 ∷ 53 ∷ 54 ∷ 55 ∷ 56 ∷ 57 ∷ []

crc32_eth-nine : crc32_eth nine 9 ≡ done 0xcbf43926
unfolding crc32_eth eth_loop mask_loop load
crc32_eth-nine = refl

crc32_brown-nine : crc32_brown nine 0 9 ≡ done (2 ^ 32 - 1 - 0xcbf43926)
unfolding crc32_brown brown_loop load
crc32_brown-nine = refl

-- Three words, and the same with another one in the middle.
abbrev three : ℕ → List ℕ
three x = 1 ∷ x ∷ 3 ∷ []

three-small : (x k : ℕ) → x < 256 → get_or (three x) k 0 < 256
three-small x zero h = omega arith
three-small x (suc zero) h = h
three-small x (suc (suc zero)) h = omega arith
three-small x (suc (suc (suc k))) h = omega arith

three-same : (k : ℕ) → k ≢ 1 → get_or (three 2) k 0 ≡ get_or (three 7) k 0
three-same zero h = refl
three-same (suc zero) h = absurd (h refl)
three-same (suc (suc zero)) h = refl
three-same (suc (suc (suc k))) h = refl

altered : (w : ℕ) → 256 ≤ 2 ^ w → OneAltered w 3 1 (three 2) (three 7)
altered w h = record {
  long = omega arith;
  long' = omega arith;
  words = λ k p. omega (arith, three-small 2 k (omega arith));
  words' = λ k p. omega (arith, three-small 7 k (omega arith));
  inside = omega arith;
  altered = λ e. omega (arith, e);
  others = λ k p q. three-same k q;
}

xchks-Apart_example :
    Apart 8 (xchks8 (three 2) 3 0) (xchks8 (three 7) 3 0)
    × Apart 16 (xchks16 true (three 2) 6 1) (xchks16 true (three 7) 6 1)
    × Apart 32 (xchks32 true (three 2) 12 2) (xchks32 true (three 7) 12 2)
xchks-Apart_example =
    xchks-Apart 3 1 0 1 2 (three 2) (three 7) (three 2) (three 7) (three 2) (three 7) (omega arith)
      (omega arith) (omega arith) (altered 8 (omega arith)) (altered 16 (omega arith))
      (altered 32 (omega arith))

crc32_ethl-crc32_eth_example :
    Ends
      (λ (crc, t).
        (((0 < 3) × IsTable t) ⊎ ((◌≡◌ {A = ℕ} 3 0) × (t ≡ replicate 256 0)))
        × (crc < 2 ^ 32)
        × (crc32_eth (three 2) 3 ≡ done crc))
      (crc32_ethl (replicate 256 0) (three 2) 3)
crc32_ethl-crc32_eth_example =
    crc32_ethl-crc32_eth (replicate 256 0) (three 2) 3 (zeros refl refl) (omega arith)
      (λ k p. three-small 2 k (omega arith)) (omega arith)

crc32_brown-crc32_eth_example :
    Ends
      (λ crc. (crc < 2 ^ 32) × (crc32_eth (three 2) 3 ≡ done (2 ^ 32 - 1 - crc)))
      (crc32_brown (three 2) 0 3)
crc32_brown-crc32_eth_example =
    crc32_brown-crc32_eth (three 2) 3 (omega arith) (λ k p. three-small 2 k (omega arith))
      (omega arith) (omega arith)

achks-sum_example :
    (achks8 (three 2) 3 5 ≡ done ((5 + sum_of 3 (three 2)) % 2 ^ 8))
    × (achks16 true (three 2) 6 5 ≡ done ((5 + sum_of 3 (three 2)) % 2 ^ 16))
    × (achks32 true (three 2) 12 5 ≡ done ((5 + sum_of 3 (three 2)) % 2 ^ 32))
achks-sum_example =
    achks-sum 3 5 5 5 (three 2) (omega arith) (omega arith) (omega arith) (omega arith)
