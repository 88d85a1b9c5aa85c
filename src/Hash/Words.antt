-- ===== src/Hash/Words.antt =====
-- The hashes are words, for every key: no read outside the key, and `hash_djb` is a number in base
-- 33.
use rcsw.Base.{
  ℕ, zero, suc, ◌+◌, ◌*◌, ◌%◌, ◌^◌, ◌≤◌, ◌<◌, ◌≡◌, ap, List, arith, lt→ltb, done, load-done, Ends,
  ends, Ends-bind, length, get_or,
}
use rcsw.Hash.{
  default_loop, default_finish, hash_default, fnv1a_loop, hash_fnv1a, djb_loop, hash_djb,
}
use rcsw.Base.Words.{bit_xor-bound}

default_loop-bound :
    (left : ℕ) (key : List ℕ) (i hash : ℕ)
    → i + left ≤ length key
    → hash < 2 ^ 32
    → Ends (λ h. h < 2 ^ 32) (default_loop left key i hash)
unfolding default_loop
default_loop-bound zero key i hash h b = ends b
default_loop-bound (suc left) key i hash h b = rw (load-done key i 0 (omega arith)) (
    default_loop-bound left key (i + 1) _ (omega arith)
      (bit_xor-bound 32 _ _ (omega arith) (omega arith)))

default_finish-bound : (h : ℕ) → default_finish h < 2 ^ 32
default_finish-bound h = omega arith

fnv1a_loop-bound :
    (left : ℕ) (key : List ℕ) (i hash : ℕ)
    → i + left ≤ length key
    → hash < 2 ^ 32
    → Ends (λ h. h < 2 ^ 32) (fnv1a_loop left key i hash)
unfolding fnv1a_loop
fnv1a_loop-bound zero key i hash h b = ends b
fnv1a_loop-bound (suc left) key i hash h b =
    rw (load-done key i 0 (omega arith))
      (fnv1a_loop-bound left key (i + 1) _ (omega arith) (omega arith))

-- The bytes from `i` on as digits behind `seed`.
unfoldable pub in_base_33 : (left : ℕ) → (key : List ℕ) → (i seed : ℕ) → ℕ
in_base_33 zero key i seed = seed
in_base_33 (suc left) key i seed = in_base_33 left key (i + 1) (seed * 33 + get_or key i 0)

djb_loop-in_base_33 :
    (left : ℕ) (key : List ℕ) (i hash seed : ℕ)
    → i + left ≤ length key
    → hash ≡ seed % 2 ^ 32
    → djb_loop left key i hash ≡ done (in_base_33 left key i seed % 2 ^ 32)
unfolding djb_loop in_base_33
djb_loop-in_base_33 zero key i hash seed h e = ap done e
djb_loop-in_base_33 (suc left) key i hash seed h e = rw (load-done key i 0 (omega arith)) (
    djb_loop-in_base_33 left key (i + 1) _ (seed * 33 + get_or key i 0) (omega arith)
      (omega (arith, e)))

-- Every key of `len` bytes or more, `len` positive, has all three hashes, and each is a word of
-- 32 bits; that of `hash_djb` is the number whose digits in base 33 are 5381 and then
-- the first `len` bytes, reduced once.
pub hashes-bound :
    (key : List ℕ) (len : ℕ)
    → 0 < len
    → len ≤ length key
    → Ends (λ h. h < 2 ^ 32) (hash_default key len)
      × Ends (λ h. h < 2 ^ 32) (hash_fnv1a key len)
      × (hash_djb key len ≡ done (in_base_33 len key 0 5381 % 2 ^ 32))
unfolding hash_default hash_fnv1a hash_djb
hashes-bound key len p h = rw (lt→ltb 0 len p) (
  Ends-bind (default_loop-bound len key 0 0 (omega arith) (omega arith))
      (λ c b. ends (default_finish-bound c)),
  fnv1a_loop-bound len key 0 _ (omega arith) (omega arith),
  djb_loop-in_base_33 len key 0 5381 5381 (omega arith) (omega arith),
)
