-- ===== src/Binheap.antt =====
-- The binary heap: src/ds/binheap.c with the inline accessors of include/rcsw/ds/binheap.h, over the
-- dynamic array. Slot 0 of the array is the temporary slot of `binheap_swap`; the elements are in the
-- slots from 1 on. The two branches on RCSW_DS_BINHEAP_MIN differ in the sign that is tested.
use rcsw.Base.{
  ℕ, zero, suc, ◌+◌, ◌-◌, ◌*◌, ◌/◌, ◌%◌, ◌^◌, ◌≤◌, ◌<◌, min, max, ◌≡◌, refl, sym, ap, ap₂, ◌∙◌, ◌≢◌,
  ◌↔◌, ◌⊎◌, inl, inr, Bool, true, false, not, ◌&&◌, ◌||◌, Option, none, some, List, [], ◌∷◌, ◌++◌,
  map, Perm, arith, ltb, leb, ◌==◌, if◌then◌else◌, Bool-cases, Option-cases, lt-or-le, lt→ltb,
  le→not-ltb, test_true, le→leb, lt→not-leb, and_false, load-fault, store-fault, ==_iff, test_false,
  true-ne-false, cmp_le_of_≼, not-cmp_gt_self, Exec, done, fault, out_of_fuel, ◌>>=◌, load, store,
  load-done, store-done, Ends, ends, Ends-bind, Ends-map, Ends-if, Ends-if_and, Ends-inv, Errno,
  unset, einval, enospc, eagain, enomem, Status, ok, error, Element, cmp_le, cmp_gt, cmp_lt, cmp_eq,
  IsOrder, ◌≼◌, alloc, length, get_elem?, get_or, set, take, drop, replicate, length-append,
  length-set, length-take, length-drop, length-replicate, get_elem?-eq-get_or, get_or-set,
  get_or-set_ne, set-set, set_self, exchange-perm, get_or-set_self, get_or-append, get_or-take,
  ext_get_or, exchange, get_or-exchange, length-exchange, get_or-exchange_left,
  get_or-exchange_right, get_or-exchange_other, Rearranged, Rearranged-refl, Rearranged-trans,
  Rearranged-widen, exchange-Rearranged, ≼_of_cmp_le, ≼_of_not-cmp_gt, ≼_of_cmp_eq, ≼_of_cmp_lt,
  ≼_refl, ≼_of_not, ≼_of_cmp_gt, ≼_of_not-cmp_le, ≼_of_not-cmp_lt,
}
use mathlib.Core.Path.{subst}
use mathlib.Core.Option
use rcsw.Darray.{as_size, Darray, Realloc, sub_size, data_set, set_size}
use rcsw.Darray as Array
use rcsw.Darray.Edit.{insert, take_out}
-- `struct binheap_params`; `none` in `max_elts` is what the cast to `int` makes -1.
pub mod Order
pub mod Up
pub mod Down
pub mod Insert
pub mod Extract
pub mod Update
pub mod Build
pub mod Make
mod Tests

pub record Params : Type 0 where
  pub max_elts : Option ℕ
  pub elt_size : ℕ
  pub init_size : ℕ
  pub has_cmpe : Bool
  pub noalloc_handle : Bool
  pub noalloc_data : Bool
  pub keep_sorted : Bool
  pub ordered : Bool
  pub is_min : Bool

-- `struct binheap`; `is_min` is the flag RCSW_DS_BINHEAP_MIN.
pub record Binheap {ℓ} (A : Type ℓ) : Type ℓ where
  pub arr : Darray A
  pub is_min : Bool

-- What `binheap_init` returns.
pub data Made {ℓ} (A : Type ℓ) : Type ℓ where
  made : Binheap A → Made A
  null : Errno → Made A

-- The parameters of the array, whose handle is inside the heap; one slot is for the swaps.
unfoldable pub array_params : Params → Array.Params
array_params p = record {
  max_elts = Option.map (λ n. n + 1) p.max_elts;
  elt_size = p.elt_size;
  init_size = max 1 (p.init_size + 1);
  has_cmpe = p.has_cmpe;
  noalloc_handle = true;
  noalloc_data = p.noalloc_data;
  keep_sorted = p.keep_sorted;
  ordered = p.ordered;
}

module _ {ℓ} {A : Type ℓ} where
  unfoldable pub is_full : Binheap A → Bool
  is_full heap = Array.is_full heap.arr

  unfoldable pub is_empty : Binheap A → Bool
  is_empty heap = heap.arr.current == 1

  unfoldable pub size : Binheap A → ℕ
  size heap = sub_size heap.arr.current 1

  -- The rest of `binheap_init`, after the array: one slot in use, with zeros.
  unfoldable pub init_slot : ⦃el : Element A⦄ → (is_min : Bool) → Array.Made A → Exec (Made A)
  init_slot ⦃el⦄ is_min (Array.null e) = done (null eagain)
  init_slot ⦃el⦄ is_min (Array.made a) =
      if leb 1 a.capacity
      then (do
        es ← store a.elements 0 el.zeroed
        done (made (record { arr = record a { elements = es; current = 1 }; is_min = is_min })))
      else done (null eagain)

  unfoldable pub init :
      ⦃el : Element A⦄
      → Params
      → (ptr_handle ptr_data malloc1 malloc2 : Bool) → (memory : List A) → Exec (Made A)
  unfolding alloc array_params init_slot
  init p ptr_handle ptr_data malloc1 malloc2 memory =
      if not (as_size p.max_elts == 0) && ltb 0 p.elt_size && p.has_cmpe
      then if alloc p.noalloc_handle ptr_handle malloc1
        then init_slot p.is_min (Array.init (array_params p) true ptr_data true malloc2 memory)
        else done (null eagain)
      else done (null einval)

  -- The slot that `binheap_peek` points to, or NULL.
  unfoldable pub peek : Binheap A → Option ℕ
  unfolding is_empty
  peek heap = if is_empty heap then none else some 1

  unfoldable pub clear : ⦃el : Element A⦄ → Binheap A → Exec (Status × Binheap A)
  clear heap = do (st, a) ← Array.clear heap.arr; done (st, record heap { arr = a })

  -- Through the temporary slot; an index 0 makes it do nothing.
  unfoldable pub swap : List A → (i1 i2 : ℕ) → Exec (List A)
  swap es i1 i2 = if (i1 == 0) || (i2 == 0) then done es else do
    x ← load es i1
    es1 ← store es 0 x
    y ← load es1 i2
    es2 ← store es1 i1 y
    z ← load es2 0
    store es2 i2 z

  module _ ⦃el : Element A⦄ where
    -- The test on the sign in `sift_down`, of a child against the best so far.
    abbrev pub is_better : (is_min : Bool) → A → A → Bool
    is_better is_min child best = if is_min then cmp_lt child best else cmp_gt child best

    -- The test on the sign in `sift_up`, of the parent against its child.
    abbrev pub is_worse : (is_min : Bool) → A → A → Bool
    is_worse is_min parent child = if is_min then cmp_gt parent child else cmp_lt parent child

    -- One of the two `if`s of `sift_down`.
    unfoldable pub pick : (is_min : Bool) (n : ℕ) → List A → (child best : ℕ) → Exec ℕ
    pick is_min n es child best =
        if leb child n
        then (do
          c ← load es child
          b ← load es best
          done (if is_better is_min c b then child else best))
        else done best

    pub sift_down_fuel : ℕ → (is_min : Bool) (n : ℕ) → List A → (m : ℕ) → Exec (List A)
    sift_down_fuel zero is_min n es m = out_of_fuel
    sift_down_fuel (suc fuel) is_min n es m = do
      left ← pick is_min n es (2 * m) m
      best ← pick is_min n es (2 * m + 1) left
      (if best == m
          then done es
          else do es' ← swap es m best; sift_down_fuel fuel is_min n es' best)

    -- The index at least doubles with each call.
    unfoldable pub sift_down : (is_min : Bool) (n : ℕ) → List A → (m : ℕ) → Exec (List A)
    sift_down is_min n es m = sift_down_fuel (suc n) is_min n es m

    pub sift_up_fuel : ℕ → (is_min : Bool) → List A → (i : ℕ) → Exec (List A)
    sift_up_fuel zero is_min es i = out_of_fuel
    sift_up_fuel (suc fuel) is_min es i = if i == 0 then done es else do
      p ← load es (i / 2)
      x ← load es i
      (if is_worse is_min p x
          then (do es' ← swap es i (i / 2); sift_up_fuel fuel is_min es' (i / 2))
          else done es)

    unfoldable pub sift_up : (is_min : Bool) → List A → (i : ℕ) → Exec (List A)
    sift_up is_min es i = sift_up_fuel (suc i) is_min es i

    -- A status of the array, and the step that the heap takes after `OK`.
    abbrev pub then_sift :
        Binheap A → (Darray A → Exec (List A)) → Status × Darray A → Exec (Status × Binheap A)
    then_sift heap sift (ok, a) = do
      es ← sift a
      done (ok, record heap { arr = record a { elements = es } })
    then_sift heap sift (error n, a) = done (error n, record heap { arr = a })

    unfoldable pub insert_key : Realloc A → Binheap A → A → Exec (Status × Binheap A)
    unfolding is_full
    insert_key realloc heap e = if is_full heap then done (error einval, heap) else do
      out ← insert realloc heap.arr e heap.arr.current
      then_sift heap (λ a. sift_up heap.is_min a.elements (sub_size a.current 1)) out

    -- `darray_remove` with the slot `dst` of the array itself as the place for the element.
    unfoldable pub remove_into : Realloc A → Darray A → (dst index : ℕ) → Exec (Status × Darray A)
    remove_into realloc a dst index =
        if leb index a.current
        then (do
          x ← load a.elements index
          es ← store a.elements dst x
          take_out realloc (record a { elements = es }) index)
        else done (error einval, a)

    -- `want` is `e != NULL`.
    unfoldable pub extract :
        Realloc A → Binheap A → (want : Bool) → Exec (Status × Option A × Binheap A)
    unfolding is_empty remove_into
    extract realloc heap want = if is_empty heap then done (error einval, none, heap) else do
      top ← if want then (do x ← load heap.arr.elements 1; done (some x)) else done none
      out ← remove_into realloc heap.arr 1 (sub_size heap.arr.current 1)
      (st, heap') ←
          then_sift heap (λ a. sift_down heap.is_min (sub_size a.current 1) a.elements 1) out
      done (st, top, heap')

    unfoldable pub update_key : Binheap A → (index : ℕ) → A → Exec (Status × Binheap A)
    update_key heap index v = if index == 0 then done (error einval, heap) else do
      out ← data_set heap.arr index v
      then_sift heap (λ a. sift_up heap.is_min a.elements index) out

    unfoldable pub delete_key :
        Realloc A → Binheap A → (index : ℕ) → (minmax : A) → Exec (Status × Binheap A)
    unfolding update_key extract
    delete_key realloc heap index minmax = if index == 0 then done (error einval, heap) else do
      (st, heap') ← update_key heap index minmax
      (st', out, heap'') ← extract realloc heap' false
      done (st', heap'')

    -- The copy loop of `binheap_make`.
    unfoldable pub fill_loop :
        Realloc A → Darray A → (keys : List A) → (i : ℕ) → Exec (Status × Darray A)
    fill_loop realloc a [] i = done (ok, a)
    fill_loop realloc a (x ∷ keys) i = do
      (st, a') ← insert realloc a x (i + 1)
      elim st [ ok ↦ fill_loop realloc a' keys (i + 1) | error n ↦ done (error n, a') ]

    -- The loop from the middle to the root, with `k - 1` rounds to go.
    unfoldable pub sift_loop : (is_min : Bool) (n : ℕ) → List A → (k : ℕ) → Exec (List A)
    sift_loop is_min n es zero = done es
    sift_loop is_min n es (suc k) =
        if ltb 1 (suc k)
        then (do es' ← sift_down is_min n es k; sift_loop is_min n es' k)
        else done es

    -- The list `keys` is `data`, of `n_elts` elements.
    unfoldable pub make : Realloc A → Binheap A → (keys : List A) → Exec (Status × Binheap A)
    unfolding fill_loop sift_loop
    make realloc heap [] = done (error einval, heap)
    make realloc heap (x ∷ keys) = do
      (st, a) ← fill_loop realloc heap.arr (x ∷ keys) 0
      elim st [
        | ok ↦
            let (st', a') = set_size a (length (x ∷ keys) + 1) in
            then_sift heap
              (λ b.
                sift_loop heap.is_min (sub_size b.current 1) b.elements
                  (sub_size b.current 1 / 2 + 1))
              (st', a')
        | error n ↦ done (error n, record heap { arr = a })
      ]
