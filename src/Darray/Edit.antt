-- ===== src/Darray/Edit.antt =====
-- Insertion, removal and sorting of the dynamic array: `darray_insert`, `darray_remove` and
-- `darray_sort` of src/ds/darray.c. `float` quotients of sizes below 2 ^ 24 compare with 0.25 as the
-- exact ones do, so the load test is written with products.
use rcsw.Base.{
  ℕ, zero, suc, ◌+◌, ◌-◌, ◌*◌, ◌/◌, max, Bool, true, false, not, ◌&&◌, ◌||◌, Option, none, List,
  ◌++◌, ltb, leb, ◌==◌, if◌then◌else◌, Exec, done, fault, ◌>>=◌, load, store, unset, einval, enospc,
  Status, ok, error, Element, length, take, drop,
}
use rcsw.Darray.{Darray, Realloc, sub_size, is_capped, is_full, extend, shrink, idx_serve}
use rcsw.Sort.{qsort_rec, qsort_iter}

-- `enum exec_type`
pub data ExecType : Type 0 where
  recursive iterative other : ExecType

-- `(float)current / (float)capacity <= 0.25`
abbrev pub is_sparse : ℕ → ℕ → Bool
is_sparse current capacity = ltb 0 capacity && leb (4 * current) capacity

module _ {ℓ} {A : Type ℓ} where
  -- A sort of the block, and the mark that it is sorted.
  abbrev pub mark_sorted : Darray A → Exec (List A) → Exec (Status × Darray A)
  mark_sorted a m = do es ← m; done (ok, record a { elements = es; sorted = true })

  unfoldable pub sort : ⦃el : Element A⦄ → Darray A → ExecType → Exec (Status × Darray A)
  sort a type =
      if not a.has_cmpe
      then done (error einval, a)
      else if leb a.current 1 || a.sorted
      then done (ok, a)
      else elim type [
        | ExecType.recursive ↦ mark_sorted a (qsort_rec a.elements 0 (a.current - 1))
        | ExecType.iterative ↦ mark_sorted a (qsort_iter a.elements (a.current - 1))
        | ExecType.other ↦ done (error unset, a)
      ]

  -- `for (i = current; i > index; --i) arr[i] = arr[i - 1]`
  unfoldable pub shift_up : List A → (index i : ℕ) → Exec (List A)
  shift_up es index zero = done es
  shift_up es index (suc i) =
      if ltb index (suc i)
      then (do x ← load es i; es' ← store es (suc i) x; shift_up es' index i)
      else done es

  -- A sort whose status is not read.
  abbrev pub resort : ⦃el : Element A⦄ → Darray A → Exec (Status × Darray A)
  resort a = do (st, a') ← sort a ExecType.iterative; done (ok, a')

  -- The part of `darray_insert` after the space is there.
  unfoldable pub place : ⦃el : Element A⦄ → Darray A → A → (index : ℕ) → Exec (Status × Darray A)
  place a e index = do
    es ←
        if a.ordered
        then shift_up a.elements index a.current
        else (do x ← load a.elements index; store a.elements a.current x)
    es' ← store es index e
    let a' = record a { elements = es'; current = a.current + 1 }
    (if a.keep_sorted then resort (record a' { sorted = false }) else done (ok, a'))

  abbrev pub place_if_ok :
      ⦃el : Element A⦄ → A → (index : ℕ) → Status × Darray A → Exec (Status × Darray A)
  place_if_ok e index (ok, a) = place a e index
  place_if_ok e index (error n, a) = done (error n, a)

  unfoldable pub insert :
      ⦃el : Element A⦄ → Realloc A → Darray A → A → (index : ℕ) → Exec (Status × Darray A)
  unfolding is_full
  insert realloc a e index =
      if leb index a.current
      then if is_full a && is_capped a.max_elts
        then done (error enospc, a)
        else if leb a.capacity a.current
        then place_if_ok e index (extend realloc a (max (a.capacity * 2) 1))
        else place a e index
      else done (error einval, a)

  -- `memmove(arr + index, arr + index + 1, n)` in elements.
  unfoldable pub move_down : List A → (index n : ℕ) → Exec (List A)
  move_down es index n =
      if leb (index + 1 + n) (length es)
      then done (take index es ++ (take n (drop (index + 1) es) ++ drop (index + n) es))
      else fault

  -- The part of `darray_remove` that closes the gap, when the size is not one.
  unfoldable pub close_gap : Darray A → (index : ℕ) → Exec (List A)
  close_gap a index =
      if a.keep_sorted
      then move_down a.elements index (sub_size (sub_size a.current 1) index)
      else (do x ← load a.elements (sub_size a.current 1); store a.elements index x)

  -- The part of `darray_remove` that gives memory back.
  unfoldable pub release : Realloc A → Darray A → Status × Darray A
  release realloc a =
      if is_sparse a.current a.capacity && not a.noalloc_data
      then shrink realloc a (a.capacity / 2)
      else (ok, a)

  -- `darray_remove` after the copy to the caller.
  unfoldable pub take_out :
      ⦃el : Element A⦄ → Realloc A → Darray A → (index : ℕ) → Exec (Status × Darray A)
  take_out ⦃el⦄ realloc a index =
      if a.current == 1
      then (do
        es ← store a.elements index el.filled
        done (ok, record a { elements = es; current = 0 }))
      else (do
        es ← close_gap a index
        done (release realloc (record a { elements = es; current = sub_size a.current 1 })))

  -- `want` is `e != NULL`; the option is what is written through `e`.
  unfoldable pub remove :
      ⦃el : Element A⦄
      → Realloc A
      → Darray A
      → (want : Bool) (index : ℕ) → Exec (Status × Option A × Darray A)
  unfolding idx_serve take_out
  remove ⦃el⦄ realloc a want index =
      if leb index a.current
      then (do
        (st, out) ← if want then idx_serve a index else done (ok, none)
        (st', a') ← take_out realloc a index
        done (st', out, a'))
      else done (error einval, none, a)
