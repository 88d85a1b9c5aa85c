-- ===== src/EditDist.antt =====
-- `edit_dist_iter` of src/algorithm/edit_dist.c. The sequences are lists, whose lengths `m` and `n`
-- are what the callback `seq_len` gives; the callback `cmpe` is an argument. A table entry is
-- an `int`, with `none` for -1; sizes and distances fit an `int`.
use rcsw.Base.{
  ℕ, zero, suc, ◌+◌, ◌-◌, ◌*◌, ◌/◌, ◌%◌, ◌^◌, ◌≤◌, ◌<◌, min, max, ◌≡◌, refl, sym, ap, ap₂, ◌∙◌, ◌≢◌,
  ◌↔◌, ◌⊎◌, inl, inr, Bool, true, false, not, ◌&&◌, ◌||◌, Option, none, some, List, [], ◌∷◌, ◌++◌,
  map, Perm, arith, ltb, leb, ◌==◌, if◌then◌else◌, Bool-cases, Option-cases, lt-or-le, lt→ltb,
  le→not-ltb, test_true, Nat-cases, le→leb, lt→not-leb, and_false, load-fault, store-fault, ==_iff,
  test_false, true-ne-false, cmp_le_of_≼, not-cmp_gt_self, Exec, done, fault, out_of_fuel, ◌>>=◌,
  load, store, load-done, store-done, Ends, ends, Ends-bind, Ends-map, Ends-if, Ends-if_and,
  Ends-inv, Errno, unset, einval, enospc, eagain, enomem, Status, ok, error, Element, cmp_le,
  cmp_gt, cmp_lt, cmp_eq, IsOrder, ◌≼◌, alloc, length, get_elem?, get_or, set, take, drop,
  replicate, length-append, length-set, length-take, length-drop, length-replicate,
  get_elem?-eq-get_or, get_or-set, get_or-set_ne, set-set, set_self, exchange-perm, get_or-set_self,
  get_or-append, get_or-take, ext_get_or, exchange, get_or-exchange, length-exchange,
  get_or-exchange_left, get_or-exchange_right, get_or-exchange_other, Rearranged, Rearranged-refl,
  Rearranged-trans, Rearranged-widen, exchange-Rearranged, ≼_of_cmp_le, ≼_of_not-cmp_gt,
  ≼_of_cmp_eq, ≼_of_cmp_lt, ≼_refl, ≼_of_not, ≼_of_cmp_gt, ≼_of_not-cmp_le, ≼_of_not-cmp_lt,
}
use mathlib.Core.Path.{subst}
use mathlib.Core.List.Perm
pub mod Table
pub mod Bounds
mod Tests

-- `1 + c` and the smaller of two entries.
abbrev pub add_one : Option ℕ → Option ℕ
add_one none = some 0
add_one (some k) = some (suc k)

abbrev pub lesser : Option ℕ → Option ℕ → Option ℕ
lesser none y = none
lesser (some x) none = none
lesser (some x) (some y) = some (min x y)

-- `RCSW_MIN3`
abbrev pub least : Option ℕ → Option ℕ → Option ℕ → Option ℕ
least x y z = lesser x (lesser y z)

-- `memset(c, -1, count * sizeof(int))`
abbrev pub fill : (count : ℕ) → List (Option ℕ) → Exec (List (Option ℕ))
fill count c = if leb count (length c) then done (replicate count none ++ drop count c) else fault

module _ {ℓ} {A : Type ℓ} (cmpe : A → A → Bool) where
  -- What the loops put into the entry for `i` and `j`, in a table with `m` entries to a row.
  unfoldable pub cell : (a b : List A) → (m : ℕ) → List (Option ℕ) → (i j : ℕ) → Exec (Option ℕ)
  cell a b m c zero j = done (some j)
  cell a b m c (suc i) zero = done (some (suc i))
  cell a b m c (suc i) (suc j) = do
    x ← load a i
    y ← load b j
    (if cmpe x y then load c (i * m + j) else (do
      substitute ← load c (i * m + j)
      delete ← load c (i * m + suc j)
      insert ← load c (suc i * m + j)
      done (add_one (least substitute delete insert))))

  -- The inner loop, with `left` entries of row `i` to go.
  unfoldable pub row_loop :
      (left : ℕ) → (a b : List A) → (m : ℕ) → List (Option ℕ) → (i j : ℕ) → Exec (List (Option ℕ))
  row_loop zero a b m c i j = done c
  row_loop (suc left) a b m c i j = do
    v ← cell a b m c i j
    c' ← store c (i * m + j) v
    row_loop left a b m c' i (j + 1)

  -- The outer loop, with `left` rows to go.
  unfoldable pub table_loop :
      (left : ℕ) → (a b : List A) → (m n : ℕ) → List (Option ℕ) → (i : ℕ) → Exec (List (Option ℕ))
  table_loop zero a b m n c i = done c
  table_loop (suc left) a b m n c i = do
    c' ← row_loop (n + 1) a b m c i 0
    table_loop left a b m n c' (i + 1)

  unfoldable pub edit_dist_iter : (a b : List A) → (m n : ℕ) → List (Option ℕ) → Exec (Option ℕ)
  edit_dist_iter a b m n c = do
    c0 ← fill (m * n) c
    c1 ← table_loop (m + 1) a b m n c0 0
    load c1 (m * m + n)

-- The number of entries that `edit_dist_init` asks for.
abbrev pub table_size : (m n : ℕ) → ℕ
table_size m n = (m + 1) * (n + 1)
