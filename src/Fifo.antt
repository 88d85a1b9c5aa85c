-- ===== src/Fifo.antt =====
-- The FIFO: src/ds/fifo.c with the inline accessors of include/rcsw/ds/fifo.h, over the ring buffer.
use rcsw.Base.{
  ℕ, zero, suc, ◌+◌, ◌-◌, ◌*◌, ◌/◌, ◌%◌, ◌^◌, ◌≤◌, ◌<◌, min, max, ◌≡◌, refl, sym, ap, ap₂, ◌∙◌, ◌≢◌,
  ◌↔◌, ◌⊎◌, inl, inr, Bool, true, false, not, ◌&&◌, ◌||◌, Option, none, some, List, [], ◌∷◌, ◌++◌,
  map, Perm, arith, ltb, leb, ◌==◌, if◌then◌else◌, Bool-cases, Option-cases, lt-or-le, lt→ltb,
  le→not-ltb, test_true, Nat-cases, le→leb, lt→not-leb, and_false, load-fault, store-fault, ==_iff,
  test_false, true-ne-false, cmp_le_of_≼, not-cmp_gt_self, Exec, done, fault, out_of_fuel, ◌>>=◌,
  load, store, load-done, store-done, Ends, ends, Ends-bind, Ends-map, Ends-if, Ends-if_and,
  Ends-inv, Errno, unset, einval, enospc, eagain, enomem, Status, ok, error, Element, cmp_le,
  cmp_gt, cmp_lt, cmp_eq, IsOrder, ◌≼◌, alloc, length, get_elem?, get_or, set, take, drop,
  replicate, length-append, length-set, length-take, length-drop, length-replicate,
  get_elem?-eq-get_or, get_or-set, get_or-set_ne, set-set, set_self, exchange-perm, get_or-set_self,
  get_or-append, get_or-take, ext_get_or, exchange, get_or-exchange, length-exchange,
  get_or-exchange_left, get_or-exchange_right, get_or-exchange_other, Rearranged, Rearranged-refl,
  Rearranged-trans, Rearranged-widen, exchange-Rearranged, ≼_of_cmp_le, ≼_of_not-cmp_gt,
  ≼_of_cmp_eq, ≼_of_cmp_lt, ≼_refl, ≼_of_not, ≼_of_cmp_gt, ≼_of_not-cmp_le, ≼_of_not-cmp_lt,
}
use mathlib.Core.Path.{subst}
use mathlib.Core.List.Perm
use rcsw.Rbuffer as Ring
use rcsw.Rbuffer.{Rbuffer}
pub mod Order
mod Tests

-- `struct fifo_params` and the bits of `flags` that are read.
pub record Params : Type 0 where
  pub max_elts : ℕ
  pub elt_size : ℕ
  pub noalloc_handle : Bool
  pub noalloc_data : Bool

-- `struct fifo`.
pub record Fifo {ℓ} (A : Type ℓ) : Type ℓ where
  pub rb : Rbuffer A
  pub elt_size : ℕ

-- What `fifo_init` returns.
pub data Made {ℓ} (A : Type ℓ) : Type ℓ where
  made : Fifo A → Made A
  null : Errno → Made A

-- The parameters of the ring buffer: it refuses elements when full, its handle is inside the FIFO.
abbrev pub ring_params : Params → Ring.Params
ring_params p = record {
  max_elts = p.max_elts;
  elt_size = p.elt_size;
  has_cmpe = false;
  as_fifo = true;
  noalloc_handle = true;
  noalloc_data = p.noalloc_data;
}

module _ {ℓ} {A : Type ℓ} where
  -- Any failure of the ring buffer leaves EAGAIN.
  abbrev pub wrap : Params → Ring.Made A → Made A
  wrap p (Ring.made rb) = made (record { rb = rb; elt_size = p.elt_size })
  wrap p (Ring.null e) = null eagain

  -- The arguments are those of `rbuffer_init`.
  unfoldable pub init : Params → (ptr_handle ptr_data malloc1 malloc2 : Bool) → List A → Made A
  unfolding alloc
  init p ptr_handle ptr_data malloc1 malloc2 memory =
      if ltb 0 p.max_elts && ltb 0 p.elt_size
      then if alloc p.noalloc_handle ptr_handle malloc1
        then wrap p (Ring.init (ring_params p) true ptr_data true malloc2 memory)
        else null eagain
      else null einval

  unfoldable pub add : Fifo A → A → Exec (Status × Fifo A)
  add fifo e = do (st, rb) ← Ring.add fifo.rb e; done (st, record fifo { rb = rb })

  unfoldable pub remove : Fifo A → (want : Bool) → Exec (Status × Option A × Fifo A)
  remove fifo want = do
    (st, out, rb) ← Ring.remove fifo.rb want
    done (st, out, record fifo { rb = rb })

  unfoldable pub clear : ⦃el : Element A⦄ → Fifo A → Exec (Status × Fifo A)
  clear fifo = do (st, rb) ← Ring.clear fifo.rb; done (st, record fifo { rb = rb })

  unfoldable pub map_elts : Fifo A → (A → A) → Exec (Status × Fifo A)
  map_elts fifo f = do (st, rb) ← Ring.map_elts fifo.rb f; done (st, record fifo { rb = rb })

  unfoldable pub inject {κ} : {R : Type κ} → Fifo A → (A → R → R) → R → Exec (Status × R)
  inject fifo f r = Ring.inject fifo.rb f r

  unfoldable pub is_full : Fifo A → Bool
  is_full fifo = Ring.is_full fifo.rb

  unfoldable pub is_empty : Fifo A → Bool
  is_empty fifo = Ring.is_empty fifo.rb

  unfoldable pub front : Fifo A → Option ℕ
  front fifo = Ring.front fifo.rb
