-- ===== src/Search.antt =====
-- Binary search: src/algorithm/search.c. The upper index is kept as `stop`, one past `high`, since
-- `high` may be -1; -1 as a result is `none`. A sum or an offset that overflows an `int` is a fault.
pub mod Correct
mod Tests
use rcsw.Base.{
  ℕ, zero, suc, ◌+◌, ◌-◌, ◌*◌, ◌/◌, ◌%◌, ◌^◌, ◌≤◌, ◌<◌, min, max, ◌≡◌, refl, sym, ap, ap₂, ◌∙◌, ◌≢◌,
  ◌↔◌, ◌⊎◌, inl, inr, Bool, true, false, not, ◌&&◌, ◌||◌, Option, none, some, List, [], ◌∷◌, ◌++◌,
  map, Perm, arith, ltb, leb, ◌==◌, if◌then◌else◌, Bool-cases, Option-cases, lt-or-le, lt→ltb,
  le→not-ltb, test_true, test_false, true-ne-false, cmp_le_of_≼, not-cmp_gt_self, Exec, done, fault,
  out_of_fuel, ◌>>=◌, load, store, load-done, store-done, Ends, ends, Ends-bind, Ends-map, Ends-if,
  Ends-if_and, Ends-inv, Errno, unset, einval, enospc, eagain, enomem, Status, ok, error, Element,
  cmp_le, cmp_gt, cmp_lt, cmp_eq, IsOrder, ◌≼◌, alloc, length, get_elem?, get_or, set, take, drop,
  replicate, length-append, length-set, length-take, length-drop, length-replicate,
  get_elem?-eq-get_or, get_or-set, get_or-set_ne, set-set, set_self, exchange-perm, get_or-set_self,
  get_or-append, get_or-take, ext_get_or, exchange, get_or-exchange, length-exchange,
  get_or-exchange_left, get_or-exchange_right, get_or-exchange_other, Rearranged, Rearranged-refl,
  Rearranged-trans, Rearranged-widen, exchange-Rearranged, ≼_of_cmp_le, ≼_of_not-cmp_gt,
  ≼_of_cmp_eq, ≼_of_cmp_lt, ≼_refl, ≼_of_not, ≼_of_cmp_gt, ≼_of_not-cmp_le, ≼_of_not-cmp_lt,
}

-- `(a + b) / 2` and `index * (int)elt_size` in `int`s that are not negative: an overflow is undefined.
unfoldable pub int_half : (a b : ℕ) → Exec ℕ
int_half a b = if ltb (a + b) (2 ^ 31) then done ((a + b) / 2) else fault

unfoldable pub int_offset : (index elt_size : ℕ) → Exec ℕ
int_offset index elt_size = if ltb (index * elt_size) (2 ^ 31) then done index else fault

module _ {ℓ} {A : Type ℓ} ⦃el : Element A⦄ where
  pub bsearch_iter_loop : ℕ → List A → A → (elt_size low stop : ℕ) → Exec (Option ℕ)
  unfolding int_half int_offset
  bsearch_iter_loop zero arr e elt_size low stop = out_of_fuel
  bsearch_iter_loop (suc fuel) arr e elt_size low stop =
      if ltb low stop
      then (do
        index ← int_half low (stop - 1)
        place ← int_offset index elt_size
        x ← load arr place
        let left_half = bsearch_iter_loop fuel arr e elt_size low index
        let right_half = bsearch_iter_loop fuel arr e elt_size (index + 1) stop
        (if cmp_eq x e then done (some index) else if cmp_lt e x then left_half else right_half))
      else done none

  unfoldable pub bsearch_iter : List A → A → (elt_size low stop : ℕ) → Exec (Option ℕ)
  bsearch_iter arr e elt_size low stop = bsearch_iter_loop (suc stop) arr e elt_size low stop

  unfoldable pub bsearch_rec_fuel : ℕ → List A → A → (elt_size low stop : ℕ) → Exec (Option ℕ)
  unfolding int_half int_offset
  bsearch_rec_fuel zero arr e elt_size low stop = out_of_fuel
  bsearch_rec_fuel (suc fuel) arr e elt_size low stop =
      if ltb low stop
      then (do
        mid ← int_half (stop - 1) low
        place ← int_offset mid elt_size
        x ← load arr place
        let lower_half = bsearch_rec_fuel fuel arr e elt_size low mid
        let upper_half = bsearch_rec_fuel fuel arr e elt_size (mid + 1) stop
        (if cmp_eq e x
            then done (some mid)
            else if cmp_lt e x
            then (if low == mid then done none else lower_half)
            else (if (stop - 1) == mid then done none else upper_half)))
      else done none

  unfoldable pub bsearch_rec : List A → A → (elt_size low stop : ℕ) → Exec (Option ℕ)
  bsearch_rec arr e elt_size low stop = bsearch_rec_fuel (suc stop) arr e elt_size low stop
