-- ===== src/Sort.antt =====
-- Sorting in place: `partition`, `qsort_rec`, `qsort_iter` and `insertion_sort` of
-- src/algorithm/sort.c. Elements are entries of one list, so the offset `i * elt_size` is the index
-- `i`. Indices are `int`s that never fall below zero, but for `pivot - 1` at pivot 0: it is only
-- compared with `min_index`, as an upper end, and 0 in place of -1 gives every test the same answer.
use rcsw.Base.{
  ℕ, zero, suc, ◌+◌, ◌-◌, ◌*◌, ◌/◌, ◌%◌, ◌^◌, ◌≤◌, ◌<◌, min, max, ◌≡◌, refl, sym, ap, ap₂, ◌∙◌, ◌≢◌,
  ◌↔◌, ◌⊎◌, inl, inr, Bool, true, false, not, ◌&&◌, ◌||◌, Option, none, some, List, [], ◌∷◌, ◌++◌,
  map, Perm, arith, ltb, leb, ◌==◌, if◌then◌else◌, Bool-cases, Option-cases, lt-or-le, Exec, done,
  fault, out_of_fuel, ◌>>=◌, load, store, load-done, store-done, Ends, ends, Ends-bind, Ends-map,
  Ends-if, Ends-inv, Errno, unset, einval, enospc, eagain, enomem, Status, ok, error, Element,
  cmp_le, cmp_gt, cmp_lt, cmp_eq, IsOrder, ◌≼◌, alloc, length, get_elem?, get_or, set, take, drop,
  replicate, length-append, length-set, length-take, length-drop, length-replicate,
  get_elem?-eq-get_or, get_or-set, get_or-set_ne, get_or-append, get_or-take, ext_get_or,
}
pub mod Partition
pub mod Parting
pub mod Qsort
pub mod Sides
pub mod Iter
mod Tests
pub mod Insertion

-- `stack[++top] = v` on a stack of `size` entries, top first.
unfoldable pub push_stack : (size : ℕ) → List ℕ → ℕ → Exec (List ℕ)
push_stack size stack v = if ltb (length stack) size then done (v ∷ stack) else fault

-- A pending stretch, pushed if it is longer than one element.
unfoldable pub push_range : (size : ℕ) → List ℕ → (lo hi : ℕ) → Exec (List ℕ)
push_range size stack lo hi =
    if ltb lo hi
    then (do stack' ← push_stack size stack lo; push_stack size stack' hi)
    else done stack

module _ {ℓ} {A : Type ℓ} ⦃el : Element A⦄ where
  -- The three `memmove`s through `tmp`.
  unfoldable pub swap_at : List A → ℕ → ℕ → Exec (List A)
  swap_at arr i j = do tmp ← load arr i; x ← load arr j; arr' ← store arr i x; store arr' j tmp

  -- `while (cmpe(arr[left], pivot) <= 0 && left < max_index) left++`; the pivot is `arr[min_index]`.
  pub scan_left : ℕ → List A → (lo hi left : ℕ) → Exec ℕ
  scan_left zero arr lo hi left = out_of_fuel
  scan_left (suc fuel) arr lo hi left = do
    x ← load arr left
    p ← load arr lo
    let more = scan_left fuel arr lo hi (left + 1)
    if cmp_le x p && ltb left hi then more else done left

  -- `while (cmpe(arr[right], pivot) > 0 && right > 0) right--`
  pub scan_right : ℕ → List A → (lo right : ℕ) → Exec ℕ
  scan_right zero arr lo right = out_of_fuel
  scan_right (suc fuel) arr lo right = do
    x ← load arr right
    p ← load arr lo
    let more = scan_right fuel arr lo (right - 1)
    if cmp_gt x p && ltb 0 right then more else done right

  -- One round of the outer loop: both scans, and the exchange if they have not crossed.
  unfoldable pub partition_round : List A → (lo hi left right : ℕ) → Exec (List A × ℕ × ℕ)
  partition_round arr lo hi left right = do
    l ← scan_left (suc hi) arr lo hi left
    r ← scan_right (suc hi) arr lo right
    arr' ← if ltb l r then swap_at arr l r else done arr
    done (arr', l, r)

  pub partition_loop : ℕ → List A → (lo hi left right : ℕ) → Exec (List A × ℕ)
  partition_loop zero arr lo hi left right = out_of_fuel
  partition_loop (suc fuel) arr lo hi left right =
      if ltb left right
      then (do
        (arr', l, r) ← partition_round arr lo hi left right
        partition_loop fuel arr' lo hi l r)
      else done (arr, right)

  -- The array, and the index that the pivot ends at.
  unfoldable pub partition : List A → (lo hi : ℕ) → Exec (List A × ℕ)
  partition arr lo hi = do
    (arr', right) ← partition_loop (suc (suc hi)) arr lo hi lo hi
    arr'' ← swap_at arr' lo right
    done (arr'', right)

  pub qsort_rec_fuel : ℕ → List A → (lo hi : ℕ) → Exec (List A)
  qsort_rec_fuel zero arr lo hi = out_of_fuel
  qsort_rec_fuel (suc fuel) arr lo hi =
      if ltb lo hi
      then (do
        (arr1, p) ← partition arr lo hi
        arr2 ← qsort_rec_fuel fuel arr1 lo (p - 1)
        qsort_rec_fuel fuel arr2 (p + 1) hi)
      else done arr

  -- One call per index is deep enough.
  unfoldable pub qsort_rec : List A → (lo hi : ℕ) → Exec (List A)
  qsort_rec arr lo hi = qsort_rec_fuel (suc (suc hi)) arr lo hi

  pub qsort_iter_loop : ℕ → (size : ℕ) → List A → List ℕ → Exec (List A)
  qsort_iter_loop zero size arr stack = out_of_fuel
  qsort_iter_loop (suc fuel) size arr [] = done arr
  qsort_iter_loop (suc fuel) size arr (hi ∷ []) = fault
  qsort_iter_loop (suc fuel) size arr (hi ∷ lo ∷ stack) = do
    (arr', p) ← partition arr lo hi
    stack' ← push_range size stack lo (p - 1)
    stack'' ← push_range size stack' (p + 1) hi
    qsort_iter_loop fuel size arr' stack''

  unfoldable pub qsort_iter : List A → (max_index : ℕ) → Exec (List A)
  qsort_iter arr max_index = do
    stack ← push_stack (max_index + 1) [] 0
    stack' ← push_stack (max_index + 1) stack max_index
    qsort_iter_loop (suc (suc max_index)) (max_index + 1) arr stack'

  -- The inner loop of `insertion_sort`, with `p` for `j + 1`: the place where the key will go.
  pub shift : List A → (key : A) (p : ℕ) → Exec (List A × ℕ)
  shift arr key zero = done (arr, 0)
  shift arr key (suc j) = do
    x ← load arr j
    if cmp_gt x key then (do arr' ← store arr (suc j) x; shift arr' key j) else done (arr, suc j)

  -- The outer loop, with `left` rounds to go.
  pub insertion_loop : (left : ℕ) → List A → (i : ℕ) → Exec (List A)
  insertion_loop zero arr i = done arr
  insertion_loop (suc left) arr i = do
    key ← load arr i
    (arr', p) ← shift arr key i
    arr'' ← store arr' p key
    insertion_loop left arr'' (i + 1)

  unfoldable pub insertion_sort : List A → (n_elts : ℕ) → Exec (List A)
  insertion_sort arr n_elts = insertion_loop (n_elts - 1) arr 1
