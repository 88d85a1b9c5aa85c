-- ===== src/Allocm.antt =====
-- The allocation manager: src/ds/allocm.c with include/rcsw/ds/allocm.h. The map is a list of
-- entries, each with `none` for the value -1.
use rcsw.Base.{
  ℕ, zero, suc, ◌+◌, ◌-◌, ◌*◌, ◌/◌, ◌%◌, ◌^◌, ◌≤◌, ◌<◌, min, max, ◌≡◌, refl, sym, ap, ap₂, ◌∙◌, ◌≢◌,
  ◌↔◌, ◌⊎◌, inl, inr, Bool, true, false, not, ◌&&◌, ◌||◌, Option, none, some, List, [], ◌∷◌, ◌++◌,
  map, Perm, arith, ltb, leb, ◌==◌, if◌then◌else◌, Bool-cases, Option-cases, lt-or-le, lt→ltb,
  le→not-ltb, test_true, Nat-cases, le→leb, lt→not-leb, and_false, load-fault, store-fault, ==_iff,
  test_false, true-ne-false, cmp_le_of_≼, not-cmp_gt_self, Exec, done, fault, out_of_fuel, ◌>>=◌,
  load, store, load-done, store-done, Ends, ends, Ends-bind, Ends-map, Ends-if, Ends-if_and,
  Ends-inv, Errno, unset, einval, enospc, eagain, enomem, Status, ok, error, Element, cmp_le,
  cmp_gt, cmp_lt, cmp_eq, IsOrder, ◌≼◌, alloc, length, get_elem?, get_or, set, take, drop,
  replicate, length-append, length-set, length-take, length-drop, length-replicate,
  get_elem?-eq-get_or, get_or-set, get_or-set_ne, set-set, set_self, exchange-perm, get_or-set_self,
  get_or-append, get_or-take, ext_get_or, exchange, get_or-exchange, length-exchange,
  get_or-exchange_left, get_or-exchange_right, get_or-exchange_other, Rearranged, Rearranged-refl,
  Rearranged-trans, Rearranged-widen, exchange-Rearranged, ≼_of_cmp_le, ≼_of_not-cmp_gt,
  ≼_of_cmp_eq, ≼_of_cmp_lt, ≼_refl, ≼_of_not, ≼_of_cmp_gt, ≼_of_not-cmp_le, ≼_of_not-cmp_lt,
}
use mathlib.Core.Path.{subst}
use mathlib.Core.List.Perm
pub mod Probe
mod Tests

-- The marks of an entry, and its test.
abbrev pub mark_free : Option ℕ
mark_free = none

abbrev pub is_free : Option ℕ → Bool
is_free none = true
is_free (some v) = false

-- The loop of `allocm_init`, with `left` entries to go.
unfoldable pub init_entries : (left : ℕ) → List (Option ℕ) → (i : ℕ) → Exec (List (Option ℕ))
init_entries zero entries i = done entries
init_entries (suc left) entries i = do
  entries' ← store entries i mark_free
  init_entries left entries' (i + 1)

unfoldable pub allocm_init : List (Option ℕ) → (max_elts : ℕ) → Exec (List (Option ℕ))
allocm_init entries max_elts = init_entries max_elts entries 0

-- The loop of `allocm_probe`; the result is `none` for -1.
unfoldable pub probe_loop :
    (fuel : ℕ) → List (Option ℕ) → (max_elts index i : ℕ) → (wrap : Bool) → Exec (Option ℕ)
probe_loop zero entries max_elts index i wrap = out_of_fuel
probe_loop (suc fuel) entries max_elts index i wrap =
    if not wrap || not (i == index)
    then (do
      v ← load entries i
      let from_start = probe_loop fuel entries max_elts index 0 true
      let further = probe_loop fuel entries max_elts index (i + 1) wrap
      (if is_free v then done (some i) else if i + 1 == max_elts then from_start else further))
    else done none

-- One round for each entry, and one to stop.
unfoldable pub allocm_probe : List (Option ℕ) → (max_elts index : ℕ) → Exec (Option ℕ)
allocm_probe entries max_elts index = probe_loop (max_elts + 1) entries max_elts index index false
