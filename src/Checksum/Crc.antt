-- ===== src/Checksum/Crc.antt =====
-- The CRC of Ethernet with and without the table, `crc32_ethl` and `crc32_eth`.
use rcsw.Base.{
  Ends-assoc, ◌⊎◌, ℕ, zero, suc, ◌+◌, ◌%◌, ◌^◌, ◌≤◌, ◌<◌, ◌≡◌, refl, sym, ap, ◌∙◌, inl, inr, not,
  List, arith, ◌==◌, if◌then◌else◌, lt-or-le, lt→ltb, le→not-ltb, Nat-cases, done, ◌>>=◌, load,
  load-done, store-done, Ends, ends, Ends-bind, Ends-if, length, get_or, set, length-set,
  get_or-set_ne, get_or-set_self,
}
use mathlib.Core.Path.{subst}
use rcsw.Checksum.{
  eth_initial_remainder, remainder_loop, init_loop, crc32_ethl_init, ethl_loop, crc32_ethl,
  mask_loop, eth_loop, int_rounds, crc32_eth,
}
use rcsw.Base.Words.{bit_xor-bound, bit_and-mask}
use Prim.Native.Nat.{bit_and, bit_xor}
use rcsw.Checksum.Rounds.{mask_loop-byte, mask_loop-bound, feed, feeds, remainder_loop-feeds}

-- A table whose entry at each byte is what the rounds leave of that byte.
pub record IsTable (table : List ℕ) : Type 0 where
  pub size : length table ≡ 256
  pub entries : (b : ℕ) → b < 256 → get_or table b 0 ≡ feeds 8 b

-- From `b` to the last byte the loop writes each entry.
init_loop-fills :
    (fuel : ℕ) (table : List ℕ) (b : ℕ)
    → b + fuel ≡ 256
    → 0 < fuel
    → length table ≡ 256
    → ((k : ℕ) → k < b → get_or table k 0 ≡ feeds 8 k)
    → Ends IsTable (init_loop fuel table b)
unfolding init_loop
init_loop-fills zero table b e f h done_so_far = absurd (omega arith)
init_loop-fills (suc fuel) table b e f h done_so_far =
    let t' = set table b (remainder_loop 8 b) in
    let filled : (k : ℕ) → k < b + 1 → get_or t' k 0 ≡ feeds 8 k = λ k p. elim (Nat-cases k b) [
      | inl q ↦
          subst (λ k. get_or t' k 0 ≡ feeds 8 k) (sym q)
            (get_or-set_self table b (remainder_loop 8 b) 0 (omega arith)
              ∙ remainder_loop-feeds 8 b)
      | inr q ↦
          get_or-set_ne table b k (remainder_loop 8 b) 0 (λ r. q (sym r))
          ∙ done_so_far k (omega arith)
    ] in
    let long : length t' ≡ 256 = length-set table b (remainder_loop 8 b) ∙ h in
    rw (store-done table b (remainder_loop 8 b) (omega arith)) (
      Ends-if (not ((b + 1) % 2 ^ 8 == 0))
        (λ q.
          let next : (b + 1) % 2 ^ 8 ≡ b + 1 = ground (arith, q) in
          rw next (init_loop-fills fuel t' (b + 1) (omega arith) (ground (arith, q)) long filled))
        (λ q.
          let last : b + 1 ≡ 256 = ground (arith, q) in
          ends (record { size = long; entries = λ k p. filled k (omega arith) })))

pub crc32_ethl_init-IsTable :
    (table : List ℕ) → length table ≡ 256 → Ends IsTable (crc32_ethl_init table)
unfolding crc32_ethl_init
crc32_ethl_init-IsTable table h =
    init_loop-fills 256 table 0 (omega arith) (omega arith) h (λ k p. absurd (omega arith))

-- One round of the table-driven loop is eight rounds of the other.
table-round :
    (table : List ℕ) (crc byte : ℕ)
    → IsTable table
    → byte < 256
    → load table (bit_xor (bit_and crc 0xff) byte) ≡ done (feeds 8 (bit_xor (crc % 2 ^ 8) byte))
table-round table crc byte t h =
    let low : bit_and crc 0xff ≡ crc % 2 ^ 8 = bit_and-mask 8 crc in
    let inside : bit_xor (crc % 2 ^ 8) byte < 256 =
      bit_xor-bound 8 (crc % 2 ^ 8) byte (omega arith) h in
    ap (λ l. load table (bit_xor l byte)) low
    ∙ load-done table (bit_xor (crc % 2 ^ 8) byte) 0 (omega (arith, inside, t.size))
    ∙ ap done (t.entries (bit_xor (crc % 2 ^ 8) byte) inside)

ethl_loop-eth_loop :
    (left : ℕ) (table buf : List ℕ) (i crc : ℕ)
    → IsTable table
    → i + left ≤ length buf
    → ((k : ℕ) → k < i + left → get_or buf k 0 < 256)
    → crc < 2 ^ 32
    → Ends (λ c. (c < 2 ^ 32) × (eth_loop left buf i crc ≡ done c)) (ethl_loop left table buf i crc)
unfolding ethl_loop eth_loop
ethl_loop-eth_loop zero table buf i crc t h bytes b = ends (b, refl)
ethl_loop-eth_loop (suc left) table buf i crc t h bytes b =
    let byte = get_or buf i 0 in
    let small : byte < 256 = bytes i (omega arith) in
    rw
      (load-done buf i 0 (omega arith), table-round table crc byte t small, mask_loop-byte crc byte)
      (ethl_loop-eth_loop left table buf (i + 1) (mask_loop 8 (bit_xor crc byte)) t (omega arith)
        (λ k p. bytes k (omega arith)) (mask_loop-bound crc byte b small))

-- The static table: as the program starts, with zeros, or filled.
pub data TableState (table : List ℕ) : Type 0 where
  zeros : length table ≡ 256 → get_or table 1 0 ≡ 0 → TableState table
  filled : IsTable table → TableState table

first_entry : feeds 8 1 ≡ 0x7707_3096
unfolding feeds feed
first_entry = refl

ready :
    (table : List ℕ)
    → TableState table
    → Ends IsTable
        (do first ← load table 1; if first == 0 then crc32_ethl_init table else done table)
ready table (zeros size z) =
    rw (load-done table 1 0 (omega (arith, size)), z) (crc32_ethl_init-IsTable table size)
ready table (filled t) =
    rw (load-done table 1 0 (omega (arith, t.size)), t.entries 1 (omega arith) ∙ first_entry)
      (ends t)

-- On a buffer of at least `n` bytes, `n` below 2 ^ 31, with the static table as the program
-- starts or as an earlier call left it, `crc32_ethl` ends: the table is then filled, or, for no bytes
-- at all, as it was; the result is a word, and `crc32_eth`, which uses no table, gives the same one.
pub crc32_ethl-crc32_eth :
    (table buf : List ℕ) (n : ℕ)
    → TableState table
    → n ≤ length buf
    → ((k : ℕ) → k < n → get_or buf k 0 < 256)
    → n < 2 ^ 31
    → Ends
        (λ (crc, t).
          (((0 < n) × IsTable t) ⊎ ((n ≡ 0) × (t ≡ table)))
          × (crc < 2 ^ 32)
          × (crc32_eth buf n ≡ done crc))
        (crc32_ethl table buf n)
unfolding crc32_ethl crc32_eth
crc32_ethl-crc32_eth table buf n state h bytes small = elim (lt-or-le 0 n) [
  | inl p ↦ rw (lt→ltb 0 n p) (
      Ends-assoc (load table 1) _ _ (
        Ends-bind (ready table state) λ table' t.
          Ends-bind
            (ethl_loop-eth_loop n table' buf 0 eth_initial_remainder t (omega arith)
              (λ k q. bytes k (omega arith)) (omega arith))
            λ crc (bound, same). rw (rounds, same) (ends (inl (p, t), omega arith, refl))))
  | inr p ↦ rw (le→not-ltb 0 n p) (ends (inr (omega arith, refl), omega arith, refl))
]
  where
    rounds : int_rounds n ≡ n
    rounds = ground (arith, small)
