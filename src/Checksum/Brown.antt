-- ===== src/Checksum/Brown.antt =====
-- `crc32_brown`, whose table is a constant, against `crc32_eth`.
use rcsw.Base.{
  Bool-cases, Nat-cases, inl, inr, if◌then◌else◌, true, false, ℕ, zero, suc, ◌+◌, ◌-◌, ◌*◌, ◌/◌,
  ◌%◌, ◌^◌, ◌≤◌, ◌<◌, ◌≡◌, refl, ap, ◌∙◌, Bool, true, List, arith, ◌==◌, lt→ltb, ==_iff, done, load,
  load-done, Ends, ends, Ends-map, length, get_or,
}
use rcsw.Checksum.{
  crc32_brown_table, brown_loop, crc32_brown, eth_initial_remainder, mask_loop, eth_loop,
  int_rounds, crc32_eth,
}
use rcsw.Checksum.Crc.{IsTable}
use rcsw.Checksum.Rounds.{mask_loop-byte, mask_loop-bound, feed, feeds}
use rcsw.Base.Bits.{bit_xor_assoc, bit_xor_comm}
use rcsw.Base.Words.{bit_xor-bound, bit_xor-parts, bit_and-mask}
use Prim.Native.Nat.{bit_and, bit_xor}

-- A test of each number from `n - 1` down.
passes : (ℕ → Bool) → (n : ℕ) → Bool
passes test zero = true
passes test (suc n) = if test n then passes test n else false

passes-each : (test : ℕ → Bool) (n : ℕ) → passes test n ≡ true → (k : ℕ) → k < n → test k ≡ true
unfolding passes
passes-each test zero h k l = absurd (omega arith)
passes-each test (suc n) h k l = elim (Bool-cases (test n)) [
  | inl q ↦ elim (Nat-cases k n) [
    | inl e ↦ ap test e ∙ q
    | inr e ↦ passes-each test n (ground (arith, h, q)) k (omega arith)
  ]
  | inr q ↦ absurd (ground (arith, h, q))
]

every_entry : passes (λ b. get_or crc32_brown_table b 0 == feeds 8 b) 256 ≡ true
unfolding passes feeds feed
every_entry = refl

-- The constant table is the one that `crc32_ethl_init` makes.
crc32_brown_table-IsTable : IsTable crc32_brown_table
crc32_brown_table-IsTable = record {
  size = refl;
  entries = λ b h.
      (==_iff (get_or crc32_brown_table b 0) (feeds 8 b)).0
        (passes-each (λ b. get_or crc32_brown_table b 0 == feeds 8 b) 256 every_entry b h);
}

low_byte :
    (crc byte : ℕ) → byte < 256 → bit_and (bit_xor crc byte) 0xff ≡ bit_xor (crc % 2 ^ 8) byte
low_byte crc byte h =
    let high = crc / 2 ^ 8 in
    let low = crc % 2 ^ 8 in
    let parts : crc ≡ bit_xor (high * 2 ^ 8) low =
      omega (arith, bit_xor-parts 8 high low (omega arith)) in
    let small : bit_xor low byte < 2 ^ 8 = bit_xor-bound 8 low byte (omega arith) h in
    let sum : bit_xor crc byte ≡ high * 2 ^ 8 + bit_xor low byte =
      ap (λ c. bit_xor c byte) parts
      ∙ bit_xor_assoc (high * 2 ^ 8) low byte
      ∙ bit_xor-parts 8 high (bit_xor low byte) small in
    bit_and-mask 8 (bit_xor crc byte) ∙ omega (arith, sum, small)

brown_loop-eth_loop :
    (left : ℕ) (buf : List ℕ) (i crc : ℕ)
    → i + left ≤ length buf
    → ((k : ℕ) → k < i + left → get_or buf k 0 < 256)
    → crc < 2 ^ 32
    → Ends (λ c. (c < 2 ^ 32) × (eth_loop left buf i crc ≡ done c)) (brown_loop left buf i crc)
unfolding brown_loop eth_loop
brown_loop-eth_loop zero buf i crc h bytes b = ends (b, refl)
brown_loop-eth_loop (suc left) buf i crc h bytes b =
    let byte = get_or buf i 0 in
    let small : byte < 256 = bytes i (omega arith) in
    let low = bit_xor (crc % 2 ^ 8) byte in
    let inside : low < 256 = bit_xor-bound 8 (crc % 2 ^ 8) byte (omega arith) small in
    let got : load crc32_brown_table (bit_and (bit_xor crc byte) 0xff) ≡ done (feeds 8 low) =
      ap (load crc32_brown_table) (low_byte crc byte small)
      ∙ load-done crc32_brown_table low 0 (omega (arith, inside, crc32_brown_table-IsTable.size))
      ∙ ap done (crc32_brown_table-IsTable.entries low inside) in
    let next : bit_xor (feeds 8 low) (crc / 2 ^ 8) ≡ mask_loop 8 (bit_xor crc byte) =
      bit_xor_comm (feeds 8 low) (crc / 2 ^ 8) ∙ mask_loop-byte crc byte in
    rw (load-done buf i 0 (omega arith), got, next)
      (brown_loop-eth_loop left buf (i + 1) (mask_loop 8 (bit_xor crc byte)) (omega arith)
        (λ k p. bytes k (omega arith)) (mask_loop-bound crc byte b small))

-- On a buffer of at least `n` bytes, `n` positive and below 2 ^ 31, `crc32_brown` from 0 ends
-- without a read outside the buffer or its table, and gives the complement of what `crc32_eth`
-- gives: it starts from the complement of `crc`, but does not complement the result.
pub crc32_brown-crc32_eth :
    (buf : List ℕ) (n : ℕ)
    → n ≤ length buf
    → ((k : ℕ) → k < n → get_or buf k 0 < 256)
    → 0 < n
    → n < 2 ^ 31
    → Ends
        (λ crc. (crc < 2 ^ 32) × (crc32_eth buf n ≡ done (2 ^ 32 - 1 - crc)))
        (crc32_brown buf 0 n)
unfolding crc32_brown crc32_eth
crc32_brown-crc32_eth buf n h bytes p small =
    let rounds : int_rounds n ≡ n = ground (arith, small) in
    rw (lt→ltb 0 n p, rounds)
      (Ends-map
        (brown_loop-eth_loop n buf 0 eth_initial_remainder (omega arith)
          (λ k q. bytes k (omega arith)) (omega arith))
        λ crc (bound, same). (bound, rw same refl))
