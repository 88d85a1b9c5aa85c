-- ===== src/Darray.antt =====
-- The dynamic array: src/ds/darray.c with the inline accessors of include/rcsw/ds/darray.h. This
-- module has the structure, its memory, and the operations that read or walk it; Darray/Edit
-- has insertion, removal and sorting. `realloc` of the C library is an argument: it gives a new
-- block or NULL, and the old block's entries are in it, as `IsRealloc` states.
use rcsw.Base.{
  ℕ, zero, suc, ◌+◌, ◌-◌, ◌*◌, ◌/◌, ◌%◌, ◌^◌, ◌≤◌, ◌<◌, min, max, ◌≡◌, refl, sym, ap, ap₂, ◌∙◌, ◌≢◌,
  ◌↔◌, ◌⊎◌, inl, inr, Bool, true, false, not, ◌&&◌, ◌||◌, Option, none, some, List, [], ◌∷◌, ◌++◌,
  map, Perm, arith, ltb, leb, ◌==◌, if◌then◌else◌, Bool-cases, Option-cases, lt-or-le, lt→ltb,
  le→not-ltb, test_true, test_false, true-ne-false, cmp_le_of_≼, not-cmp_gt_self, Exec, done, fault,
  out_of_fuel, ◌>>=◌, load, store, load-done, store-done, Ends, ends, Ends-bind, Ends-map, Ends-if,
  Ends-if_and, Ends-inv, Errno, unset, einval, enospc, eagain, enomem, Status, ok, error, Element,
  cmp_le, cmp_gt, cmp_lt, cmp_eq, IsOrder, ◌≼◌, alloc, length, get_elem?, get_or, set, take, drop,
  replicate, length-append, length-set, length-take, length-drop, length-replicate,
  get_elem?-eq-get_or, get_or-set, get_or-set_ne, set-set, set_self, exchange-perm, get_or-set_self,
  get_or-append, get_or-take, ext_get_or, exchange, get_or-exchange, length-exchange,
  get_or-exchange_left, get_or-exchange_right, get_or-exchange_other, Rearranged, Rearranged-refl,
  Rearranged-trans, Rearranged-widen, exchange-Rearranged, ≼_of_cmp_le, ≼_of_not-cmp_gt,
  ≼_of_cmp_eq, ≼_of_cmp_lt, ≼_refl, ≼_of_not, ≼_of_cmp_gt, ≼_of_not-cmp_le, ≼_of_not-cmp_lt,
}
use rcsw.Search.{bsearch_rec}
pub mod Edit
pub mod Spec
pub mod Gap
pub mod Grow
pub mod Insert
pub mod Sorted
pub mod Remove
pub mod Trim
pub mod Query
pub mod Tests

-- `struct darray_params` and the bits of `flags` that are read; `none` in `max_elts` is -1.
pub record Params : Type 0 where
  pub max_elts : Option ℕ
  pub elt_size : ℕ
  pub init_size : ℕ
  pub has_cmpe : Bool
  pub noalloc_handle : Bool
  pub noalloc_data : Bool
  pub keep_sorted : Bool
  pub ordered : Bool

-- `struct darray`: `elements` has one entry for each slot of the block that the pointer has;
-- `keep_sorted` and `ordered` are the flags RCSW_DS_SORTED and RCSW_DS_ORDERED.
pub record Darray {ℓ} (A : Type ℓ) : Type ℓ where
  pub elements : List A
  pub current : ℕ
  pub capacity : ℕ
  pub sorted : Bool
  pub max_elts : Option ℕ
  pub has_cmpe : Bool
  pub noalloc_data : Bool
  pub keep_sorted : Bool
  pub ordered : Bool

-- What `darray_init` returns.
pub data Made {ℓ} (A : Type ℓ) : Type ℓ where
  made : Darray A → Made A
  null : Errno → Made A

-- `realloc(elements, n * elt_size)`
abbrev pub Realloc {ℓ} : Type ℓ → Type ℓ
Realloc A = List A → ℕ → Option (List A)

pub record IsRealloc {ℓ} {A : Type ℓ} (realloc : Realloc A) : Type ℓ where
  pub size : (xs ys : List A) (n : ℕ) → realloc xs n ≡ some ys → length ys ≡ n
  pub keeps :
      (xs ys : List A) (n i : ℕ) (d : A)
      → realloc xs n ≡ some ys
      → i < n
      → i < length xs
      → get_or ys i d ≡ get_or xs i d

-- `size_t` subtraction, and `(size_t)max_elts`.
abbrev pub sub_size : ℕ → ℕ → ℕ
sub_size a b = (a + (2 ^ 64 - b)) % 2 ^ 64

abbrev pub as_size : Option ℕ → ℕ
as_size none = 2 ^ 64 - 1
as_size (some n) = n

abbrev pub is_capped : Option ℕ → Bool
is_capped none = false
is_capped (some n) = true

-- `max_elts == -1 || n < (size_t)max_elts`
abbrev pub fits_cap : Option ℕ → ℕ → Bool
fits_cap none n = true
fits_cap (some m) n = ltb n m

module _ {ℓ} {A : Type ℓ} where
  unfoldable pub is_full : Darray A → Bool
  is_full a = a.current == as_size a.max_elts

  unfoldable pub is_empty : Darray A → Bool
  is_empty a = a.current == 0

  unfoldable pub set_size : Darray A → ℕ → Status × Darray A
  set_size a n = if leb n a.capacity then (ok, record a { current = n }) else (error einval, a)

  -- The fields that `darray_init` sets.
  unfoldable pub fresh : Params → (block : List A) (capacity : ℕ) → Darray A
  fresh p block capacity = record {
    elements = block;
    current = 0;
    capacity = capacity;
    sorted = false;
    max_elts = p.max_elts;
    has_cmpe = p.has_cmpe;
    noalloc_data = p.noalloc_data;
    keep_sorted = p.keep_sorted;
    ordered = p.ordered;
  }

  -- The block is the caller's with NOALLOC_DATA (NULL if `ptr_data` is false), and else from
  -- `malloc`, which may fail unnoticed: then `elements` is NULL, with no slots. The arguments
  -- `malloc1` and `malloc2` say whether `malloc` succeeds for the handle and for the block. An error
  -- on a NULL handle, too, leaves EAGAIN, which is set after `darray_destroy`.
  unfoldable pub init :
      Params → (ptr_handle ptr_data malloc1 malloc2 : Bool) → (memory : List A) → Made A
  unfolding alloc fresh
  init p ptr_handle ptr_data malloc1 malloc2 memory =
      let finish =
        λ (a : Darray A). if p.keep_sorted && not p.has_cmpe then null eagain else made a in
      if ltb 0 p.elt_size && not (as_size p.max_elts == 0)
      then if alloc p.noalloc_handle ptr_handle malloc1
        then if p.noalloc_data
          then finish
              (fresh p (if alloc true ptr_data malloc2 then memory else []) (as_size p.max_elts))
          else if fits_cap p.max_elts p.init_size
          then if ltb 0 p.init_size
            then finish (fresh p (if alloc false ptr_data malloc2 then memory else []) p.init_size)
            else finish (fresh p [] 0)
          else null eagain
        else null eagain
      else null einval

  -- A failed `realloc` leaves the new size in `capacity`: `old_size` is the new size.
  unfoldable pub extend : Realloc A → Darray A → (size : ℕ) → Status × Darray A
  extend realloc a size =
      if a.noalloc_data then (error eagain, a) else elim (realloc a.elements size) [
        | none ↦ (error enomem, record a { capacity = size })
        | some es ↦ (ok, record a { elements = es; capacity = size })
      ]

  unfoldable pub shrink : Realloc A → Darray A → (size : ℕ) → Status × Darray A
  shrink realloc a size =
      if ltb 0 size
      then if a.noalloc_data then (error eagain, a) else elim (realloc a.elements size) [
        | none ↦ (error eagain, a)
        | some es ↦
            (ok, record a { elements = es; capacity = size; current = min (size - 1) a.current })
      ]
      else (ok, record a { capacity = size; current = 0 })

  unfoldable pub resize : Realloc A → Darray A → (size : ℕ) → Status × Darray A
  unfolding extend shrink
  resize realloc a size =
      if ltb a.capacity size
      then extend realloc a size
      else if ltb size a.capacity
      then shrink realloc a size
      else (ok, a)

  unfoldable pub data_set : Darray A → (index : ℕ) → A → Exec (Status × Darray A)
  data_set a index e = do es ← store a.elements index e; done (ok, record a { elements = es })

  unfoldable pub idx_serve : Darray A → (index : ℕ) → Exec (Status × Option A)
  idx_serve a index =
      if leb index a.current
      then (do x ← load a.elements index; done (ok, some x))
      else done (error einval, none)

  -- `memset(elements, 0, current * elt_size)`
  unfoldable pub data_clear : ⦃el : Element A⦄ → Darray A → Exec (Status × Darray A)
  data_clear ⦃el⦄ a =
      if ltb (length a.elements) a.current
      then fault
      else done
          (ok, record a { elements = replicate a.current el.zeroed ++ drop a.current a.elements })

  unfoldable pub clear : ⦃el : Element A⦄ → Darray A → Exec (Status × Darray A)
  unfolding data_clear
  clear a = do (st, a') ← data_clear a; done (ok, record a' { current = 0 })

  -- The scan of an unsorted array, with `left` entries to go: it goes on after a match, so the
  -- last match counts.
  unfoldable pub scan_loop :
      ⦃el : Element A⦄ → (left : ℕ) → List A → A → (i : ℕ) → (rval : Option ℕ) → Exec (Option ℕ)
  scan_loop zero es e i rval = done rval
  scan_loop (suc left) es e i rval = do
    x ← load es i
    scan_loop left es e (i + 1) (if cmp_eq e x then some i else rval)

  unfoldable pub idx_query : ⦃el : Element A⦄ → (elt_size : ℕ) → Darray A → A → Exec (Option ℕ)
  unfolding scan_loop
  idx_query elt_size a e =
      if a.has_cmpe
      then if a.sorted
        then bsearch_rec a.elements e elt_size 0 a.current
        else scan_loop a.current a.elements e 0 none
      else done none

  -- The loop of `darray_map`, with `left` entries to go.
  unfoldable pub map_loop : (A → A) → (left : ℕ) → List A → (i : ℕ) → Exec (List A)
  map_loop f zero es i = done es
  map_loop f (suc left) es i = do x ← load es i; es' ← store es i (f x); map_loop f left es' (i + 1)

  unfoldable pub map_elts : Darray A → (A → A) → Exec (Status × Darray A)
  unfolding map_loop
  map_elts a f = do es ← map_loop f a.current a.elements 0; done (ok, record a { elements = es })

  unfoldable pub inject_loop {κ} :
      {R : Type κ} → (A → R → R) → (left : ℕ) → List A → (i : ℕ) → R → Exec R
  inject_loop f zero es i r = done r
  inject_loop f (suc left) es i r = do x ← load es i; inject_loop f left es (i + 1) (f x r)

  unfoldable pub inject {κ} : {R : Type κ} → Darray A → (A → R → R) → R → Exec (Status × R)
  unfolding inject_loop
  inject a f r = do r' ← inject_loop f a.current a.elements 0 r; done (ok, r')
