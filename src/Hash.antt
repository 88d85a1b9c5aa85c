-- ===== src/Hash.antt =====
-- The hash functions of src/utils/hash.c, on the list of the bytes of a key. `uint32_t` wraps at
-- 2 ^ 32; `<< k` and `>> k` are a product and a quotient by `2 ^ k`.
use rcsw.Base.{
  ℕ, zero, suc, ◌+◌, ◌-◌, ◌*◌, ◌/◌, ◌%◌, ◌^◌, ◌≤◌, ◌<◌, min, max, ◌≡◌, refl, sym, ap, ap₂, ◌∙◌, ◌≢◌,
  ◌↔◌, ◌⊎◌, inl, inr, Bool, true, false, not, ◌&&◌, ◌||◌, Option, none, some, List, [], ◌∷◌, ◌++◌,
  map, Perm, arith, ltb, leb, ◌==◌, if◌then◌else◌, Bool-cases, Option-cases, lt-or-le, lt→ltb,
  le→not-ltb, test_true, Nat-cases, le→leb, lt→not-leb, and_false, load-fault, store-fault, ==_iff,
  test_false, true-ne-false, cmp_le_of_≼, not-cmp_gt_self, Exec, done, fault, out_of_fuel, ◌>>=◌,
  load, store, load-done, store-done, Ends, ends, Ends-bind, Ends-map, Ends-if, Ends-if_and,
  Ends-inv, Errno, unset, einval, enospc, eagain, enomem, Status, ok, error, Element, cmp_le,
  cmp_gt, cmp_lt, cmp_eq, IsOrder, ◌≼◌, alloc, length, get_elem?, get_or, set, take, drop,
  replicate, length-append, length-set, length-take, length-drop, length-replicate,
  get_elem?-eq-get_or, get_or-set, get_or-set_ne, set-set, set_self, exchange-perm, get_or-set_self,
  get_or-append, get_or-take, ext_get_or, exchange, get_or-exchange, length-exchange,
  get_or-exchange_left, get_or-exchange_right, get_or-exchange_other, Rearranged, Rearranged-refl,
  Rearranged-trans, Rearranged-widen, exchange-Rearranged, ≼_of_cmp_le, ≼_of_not-cmp_gt,
  ≼_of_cmp_eq, ≼_of_cmp_lt, ≼_refl, ≼_of_not, ≼_of_cmp_gt, ≼_of_not-cmp_le, ≼_of_not-cmp_lt,
}
use mathlib.Core.Path.{subst}
use mathlib.Core.List.Perm
use Prim.Native.Nat.{bit_xor}
pub mod Words
mod Tests

abbrev pub fnv_prime : ℕ
fnv_prime = 16777619

abbrev pub fnv_offset_basis : ℕ
fnv_offset_basis = 2166136261

-- The loop of `hash_default`, with `left` bytes to go.
unfoldable pub default_loop : (left : ℕ) → (key : List ℕ) → (i hash : ℕ) → Exec ℕ
default_loop zero key i hash = done hash
default_loop (suc left) key i hash = do
  x ← load key i
  let h1 = (hash + x) % 2 ^ 32
  let h2 = (h1 + h1 * 2 ^ 10 % 2 ^ 32) % 2 ^ 32
  default_loop left key (i + 1) (bit_xor h2 (h2 / 2 ^ 6))

-- What `hash_default` does after its loop.
abbrev pub default_finish : ℕ → ℕ
default_finish hash =
    let h1 = (hash + hash * 2 ^ 3 % 2 ^ 32) % 2 ^ 32 in
    let h2 = bit_xor h1 (h1 / 2 ^ 11) in (h2 + h2 * 2 ^ 15 % 2 ^ 32) % 2 ^ 32

unfoldable pub hash_default : (key : List ℕ) → (len : ℕ) → Exec ℕ
hash_default key len =
    if ltb 0 len then (do h ← default_loop len key 0 0; done (default_finish h)) else done 0

unfoldable pub fnv1a_loop : (left : ℕ) → (key : List ℕ) → (i hash : ℕ) → Exec ℕ
fnv1a_loop zero key i hash = done hash
fnv1a_loop (suc left) key i hash = do
  x ← load key i
  fnv1a_loop left key (i + 1) (bit_xor hash x * fnv_prime % 2 ^ 32)

unfoldable pub hash_fnv1a : (key : List ℕ) → (len : ℕ) → Exec ℕ
hash_fnv1a key len = if ltb 0 len then fnv1a_loop len key 0 fnv_offset_basis else done 0

unfoldable pub djb_loop : (left : ℕ) → (key : List ℕ) → (i hash : ℕ) → Exec ℕ
djb_loop zero key i hash = done hash
djb_loop (suc left) key i hash = do
  x ← load key i
  djb_loop left key (i + 1) (((hash * 2 ^ 5 % 2 ^ 32 + hash) % 2 ^ 32 + x) % 2 ^ 32)

unfoldable pub hash_djb : (key : List ℕ) → (len : ℕ) → Exec ℕ
hash_djb key len = if ltb 0 len then djb_loop len key 0 5381 else done 0
