-- ===== src/Rbuffer.antt =====
-- The ring buffer: src/ds/rbuffer.c with the inline accessors of include/rcsw/ds/rbuffer.h.
-- A slot of `elements` is one element, so a copy of `elt_size` bytes is one load and one store.
-- Handles are never NULL here; an optional out-parameter is the argument `want`.
use rcsw.Base.{
  ℕ, zero, suc, ◌+◌, ◌-◌, ◌%◌, ◌^◌, ◌≡◌, Bool, true, false, not, ◌&&◌, ◌||◌, Option, none, some,
  List, [], ◌∷◌, ltb, ◌==◌, if◌then◌else◌, Exec, done, fault, out_of_fuel, ◌>>=◌, load, store,
  Errno, unset, einval, enospc, Status, ok, error, Element, cmp_eq, alloc, length, replicate, drop,
  ◌++◌,
}
pub mod Inv
pub mod Queue
pub mod Refine
pub mod Query
pub mod Run
pub mod Walk
mod Tests

-- `struct rbuffer_params` and the bits of `flags` that this module reads.
pub record Params : Type 0 where
  pub max_elts : ℕ
  pub elt_size : ℕ
  pub has_cmpe : Bool
  pub as_fifo : Bool
  pub noalloc_handle : Bool
  pub noalloc_data : Bool

-- `struct rbuffer`; `has_cmpe` is `cmpe != NULL`.
pub record Rbuffer {ℓ} (A : Type ℓ) : Type ℓ where
  pub elements : List A
  pub current : ℕ
  pub max_elts : ℕ
  pub start : ℕ
  pub as_fifo : Bool
  pub has_cmpe : Bool

-- What `rbuffer_init` returns: a handle, or NULL with an `errno`.
pub data Made {ℓ} (A : Type ℓ) : Type ℓ where
  made : Rbuffer A → Made A
  null : Errno → Made A

-- `size_t` addition.
abbrev pub add_size : ℕ → ℕ → ℕ
add_size a b = (a + b) % 2 ^ 64

module _ {ℓ} {A : Type ℓ} where
  unfoldable pub is_full : Rbuffer A → Bool
  is_full rb = rb.current == rb.max_elts

  unfoldable pub is_empty : Rbuffer A → Bool
  is_empty rb = rb.current == 0

  -- `memory` is the block that the elements live in; the two flags before it say whether the
  -- caller's pointers are non-NULL, and the two after them whether `malloc` succeeds. A NULL handle
  -- reaches `rbuffer_destroy`, whose check sets EINVAL.
  unfoldable pub init : Params → (ptr_handle ptr_data malloc1 malloc2 : Bool) → List A → Made A
  unfolding alloc
  init p ptr_handle ptr_data malloc1 malloc2 memory =
      if ltb 0 p.max_elts && ltb 0 p.elt_size
      then if alloc p.noalloc_handle ptr_handle malloc1
        then if alloc p.noalloc_data ptr_data malloc2
          then made (record {
            elements = memory;
            current = 0;
            max_elts = p.max_elts;
            start = 0;
            as_fifo = p.as_fifo;
            has_cmpe = p.has_cmpe;
          })
          else null unset
        else null einval
      else null einval

  -- The slot that `rbuffer_data_get` points to.
  unfoldable pub data_get : Rbuffer A → ℕ → ℕ
  data_get rb idx = idx % rb.max_elts

  -- The part of `rbuffer_add` after the copy.
  unfoldable pub advance : Rbuffer A → List A → Rbuffer A
  unfolding is_full
  advance rb es =
      if is_full rb
      then record rb { elements = es; start = add_size rb.start 1 % rb.max_elts }
      else record rb { elements = es; current = add_size rb.current 1 }

  unfoldable pub add : Rbuffer A → A → Exec (Status × Rbuffer A)
  unfolding is_full advance data_get
  add rb e = if rb.as_fifo && is_full rb then done (error enospc, rb) else do
    es ← store rb.elements (data_get rb (add_size rb.start rb.current % rb.max_elts)) e
    done (ok, advance rb es)

  unfoldable pub serve_front : Rbuffer A → Exec (Status × Option A)
  unfolding is_empty data_get
  serve_front rb =
      if is_empty rb
      then done (error einval, none)
      else do e ← load rb.elements (data_get rb rb.start); done (ok, some e)

  -- A slot, or NULL.
  unfoldable pub front : Rbuffer A → Option ℕ
  unfolding is_empty data_get
  front rb = if is_empty rb then none else some (data_get rb rb.start)

  -- `want` is `e != NULL`; the option is what is written through `e`.
  unfoldable pub remove : Rbuffer A → (want : Bool) → Exec (Status × Option A × Rbuffer A)
  unfolding is_empty
  remove rb want = if is_empty rb then done (error einval, none, rb) else do
    (st, out) ← if want then serve_front rb else done (ok, none)
    done
        (ok, out, record rb { start = add_size rb.start 1 % rb.max_elts; current = rb.current - 1 })

  -- `memset(elements, 0, n * elt_size)`
  unfoldable pub memset : ⦃el : Element A⦄ → List A → ℕ → Exec (List A)
  memset ⦃el⦄ es n = if ltb (length es) n then fault else done (replicate n el.zeroed ++ drop n es)

  unfoldable pub clear : ⦃el : Element A⦄ → Rbuffer A → Exec (Status × Rbuffer A)
  unfolding memset
  clear rb = do
    es ← memset rb.elements rb.current
    done (ok, record rb { elements = es; current = 0; start = 0 })

  -- The `while` loop of `rbuffer_index_query`: every slot is visited from `start` on and round.
  unfoldable pub query_loop :
      ⦃el : Element A⦄ → ℕ → Rbuffer A → A → (wrap : Bool) (i : ℕ) → Exec (Option ℕ)
  query_loop zero rb e wrap i = out_of_fuel
  query_loop (suc fuel) rb e wrap i =
      let next =
        if (i + 1) == rb.max_elts
        then query_loop fuel rb e true 0
        else query_loop fuel rb e wrap (i + 1) in
      if not wrap || not (i == rb.start)
      then (do x ← load rb.elements (data_get rb i); if cmp_eq e x then done (some i) else next)
      else done none

  -- `none` is ERROR, which is -1.
  unfoldable pub index_query : ⦃el : Element A⦄ → Rbuffer A → A → Exec (Option ℕ)
  index_query rb e =
      if rb.has_cmpe then query_loop (suc rb.max_elts) rb e false rb.start else done none

  -- The loop of `rbuffer_map` with `left` elements to go.
  unfoldable pub map_loop : (f : A → A) (left : ℕ) → Rbuffer A → (count : ℕ) → Exec (Rbuffer A)
  map_loop f zero rb count = done rb
  map_loop f (suc left) rb count = do
    x ← load rb.elements (data_get rb (add_size rb.start count % rb.max_elts))
    es ← store rb.elements (data_get rb (add_size rb.start count % rb.max_elts)) (f x)
    map_loop f left (record rb { elements = es }) (count + 1)

  unfoldable pub map_elts : Rbuffer A → (A → A) → Exec (Status × Rbuffer A)
  unfolding map_loop data_get
  map_elts rb f = do rb' ← map_loop f rb.current rb 0; done (ok, rb')

  -- The loop of `rbuffer_inject`; the callback reads the element and updates the result.
  unfoldable pub inject_loop {κ} :
      {R : Type κ} → (A → R → R) → (left : ℕ) → Rbuffer A → ℕ → R → Exec R
  inject_loop f zero rb count r = done r
  inject_loop f (suc left) rb count r = do
    x ← load rb.elements (data_get rb (add_size rb.start count % rb.max_elts))
    inject_loop f left rb (count + 1) (f x r)

  unfoldable pub inject {κ} : {R : Type κ} → Rbuffer A → (A → R → R) → R → Exec (Status × R)
  unfolding inject_loop data_get
  inject rb f r = do r' ← inject_loop f rb.current rb 0 r; done (ok, r')
