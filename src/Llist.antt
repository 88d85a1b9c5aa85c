-- ===== src/Llist.antt =====
-- The doubly linked list: src/ds/llist.c and src/ds/llist_node.c with include/rcsw/ds/llist.h. The
-- contents of a data block stand in the node that points at it, or the caller's pointer where the
-- list does not own its data. The links of a fresh node are NULL here; the code writes both
-- before it reads one. `none` for `max_elts` is -1.
use rcsw.Base.{
  ℕ, zero, suc, ◌+◌, ◌-◌, ◌*◌, ◌/◌, ◌%◌, ◌^◌, ◌≤◌, ◌<◌, min, max, ◌≡◌, refl, sym, ap, ap₂, ◌∙◌, ◌≢◌,
  ◌↔◌, ◌⊎◌, inl, inr, Bool, true, false, not, ◌&&◌, ◌||◌, Option, none, some, List, [], ◌∷◌, ◌++◌,
  map, Perm, arith, ltb, leb, ◌==◌, if◌then◌else◌, Bool-cases, Option-cases, lt-or-le, lt→ltb,
  le→not-ltb, test_true, Nat-cases, le→leb, lt→not-leb, and_false, load-fault, store-fault, ==_iff,
  test_false, true-ne-false, cmp_le_of_≼, not-cmp_gt_self, Exec, done, fault, out_of_fuel, ◌>>=◌,
  load, store, load-done, store-done, Ends, ends, Ends-bind, Ends-map, Ends-if, Ends-if_and,
  Ends-inv, Errno, unset, einval, enospc, eagain, enomem, Status, ok, error, Element, cmp_le,
  cmp_gt, cmp_lt, cmp_eq, IsOrder, ◌≼◌, alloc, length, get_elem?, get_or, set, take, drop,
  replicate, length-append, length-set, length-take, length-drop, length-replicate,
  get_elem?-eq-get_or, get_or-set, get_or-set_ne, set-set, set_self, exchange-perm, get_or-set_self,
  get_or-append, get_or-take, ext_get_or, exchange, get_or-exchange, length-exchange,
  get_or-exchange_left, get_or-exchange_right, get_or-exchange_other, Rearranged, Rearranged-refl,
  Rearranged-trans, Rearranged-widen, exchange-Rearranged, ≼_of_cmp_le, ≼_of_not-cmp_gt,
  ≼_of_cmp_eq, ≼_of_cmp_lt, ≼_refl, ≼_of_not, ≼_of_cmp_gt, ≼_of_not-cmp_le, ≼_of_not-cmp_lt,
}
use mathlib.Core.Path.{subst}
use mathlib.Core.List.Perm
use rcsw.Nodes.{
  Node, Heap, same_ptr, is_null, write, load_node, set_next, set_prev, next_of, mergesort_rec,
}
pub mod Relink
pub mod Edit
pub mod Links
pub mod Unlink
pub mod Unlinked
pub mod Pool
pub mod Space
pub mod Inv
pub mod Create
pub mod Insert
pub mod Remove
pub mod Query
pub mod Sorted
pub mod Filter
pub mod Init
mod Tests
use rcsw.Allocm.{mark_free, allocm_init, allocm_probe}

pub record Llist {ℓ} (A : Type ℓ) : Type ℓ where
  pub heap : Heap A
  pub first : Option ℕ
  pub last : Option ℕ
  pub current : ℕ
  pub max_elts : Option ℕ
  pub sorted : Bool
  pub has_cmpe : Bool
  pub noalloc_meta : Bool
  pub noalloc_data : Bool
  pub disown : Bool
  pub by_ptr : Bool
  pub keep_sorted : Bool
  pub node_map : List (Option ℕ)
  pub db_map : List (Option ℕ)

-- `allocm_mark_inuse`.
abbrev pub mark_inuse : Option ℕ
mark_inuse = some 0

-- What `malloc` answers: an address for a node, and whether there is room for a data block.
pub record Malloc {ℓ} (A : Type ℓ) : Type ℓ where
  pub node : Heap A → Option ℕ
  pub block : Bool

-- A free entry of a map of the application's memory, marked as in use.
unfoldable pub acquire :
    List (Option ℕ) → (max_elts current : ℕ) → Exec (Option ℕ × List (Option ℕ))
acquire entries max_elts current = do
  idx ← allocm_probe entries max_elts current
  elim idx [
    | none ↦ done (none, entries)
    | some i ↦ do entries' ← store entries i mark_inuse; done (some i, entries')
  ]

abbrev pub int_max : Option ℕ → ℕ
int_max none = 2 ^ 64 - 1
int_max (some m) = m

-- `llist_isfull(list) && list->max_elts != -1`
abbrev pub at_limit : (current : ℕ) → Option ℕ → Bool
at_limit current none = false
at_limit current (some m) = current == m

-- `struct llist_params`, less the callbacks.
pub record Params : Type 0 where
  pub max_elts : Option ℕ
  pub elt_size : ℕ
  pub has_cmpe : Bool
  pub noalloc_handle : Bool
  pub noalloc_meta : Bool
  pub noalloc_data : Bool
  pub disown : Bool
  pub by_ptr : Bool
  pub keep_sorted : Bool

-- What `llist_init` returns.
pub data Made {ℓ} (A : Type ℓ) : Type ℓ where
  made : Llist A → Made A
  null : Errno → Made A

-- One of the two maps: NULL memory and a list without a limit are refused.
unfoldable pub init_map :
    (noalloc ptr : Bool) → Option ℕ → List (Option ℕ) → Exec (Option (List (Option ℕ)))
init_map noalloc ptr limit entries =
    if noalloc
    then if ptr
      then elim limit [
        | none ↦ done none
        | some m ↦ do entries' ← allocm_init entries m; done (some entries')
      ]
      else done none
    else done (some entries)

abbrev pub zero_limit : Option ℕ → Bool
zero_limit none = false
zero_limit (some m) = m == 0

module _ {ℓ} {A : Type ℓ} where
  -- A list without nodes. The memory is that of the nodes as the caller or `malloc` has it.
  abbrev pub fresh : Params → Heap A → (nodes blocks : List (Option ℕ)) → Llist A
  fresh p heap nodes blocks = record {
    heap = heap;
    first = none;
    last = none;
    current = 0;
    max_elts = p.max_elts;
    sorted = false;
    has_cmpe = p.has_cmpe;
    noalloc_meta = p.noalloc_meta;
    noalloc_data = p.noalloc_data;
    disown = p.disown;
    by_ptr = p.by_ptr;
    keep_sorted = p.keep_sorted;
    node_map = nodes;
    db_map = blocks;
  }

  unfoldable pub init :
      Params
      → (ptr_handle malloc_ok ptr_meta ptr_elements : Bool) → Heap A
      → (nodes blocks : List (Option ℕ)) → Exec (Made A)
  init p ptr_handle malloc_ok ptr_meta ptr_elements heap nodes blocks =
      if zero_limit p.max_elts || p.elt_size == 0
      then done (null einval)
      else if alloc p.noalloc_handle ptr_handle malloc_ok
      then (do
        nodes' ← init_map p.noalloc_meta ptr_meta p.max_elts nodes
        elim nodes' [
          | none ↦ done (null enomem)
          | some ns ↦ do
            blocks' ← init_map p.noalloc_data ptr_elements p.max_elts blocks
            elim blocks' [ none ↦ done (null enomem) | some bs ↦ done (made (fresh p heap ns bs)) ]
        ])
      else done (null enomem)

module _ {ℓ} {A : Type ℓ} where
  abbrev pub is_empty : Llist A → Bool
  is_empty l = l.current == 0

  abbrev pub borrows : Llist A → Bool
  borrows l = l.disown || l.by_ptr

  unfoldable pub node_alloc : Malloc A → Llist A → Exec (Option ℕ × Llist A)
  node_alloc malloc l =
      if l.noalloc_meta
      then (do
        (idx, entries) ← acquire l.node_map (int_max l.max_elts) l.current
        done (idx, record l { node_map = entries }))
      else done (malloc.node l.heap, l)

  unfoldable pub node_dealloc : Llist A → ℕ → Exec (Llist A)
  node_dealloc l p =
      if l.noalloc_meta
      then (do entries ← store l.node_map p mark_free; done (record l { node_map = entries }))
      else done (record l { heap = write l.heap p none })

  -- The result is the index of the block, or 0 for one from `malloc`.
  unfoldable pub datablock_alloc : Malloc A → Llist A → Exec (Option ℕ × Llist A)
  datablock_alloc malloc l =
      if l.noalloc_data
      then (do
        (idx, entries) ← acquire l.db_map (int_max l.max_elts) l.current
        done (idx, record l { db_map = entries }))
      else done (if malloc.block then some 0 else none, l)

  unfoldable pub datablock_dealloc : Llist A → ℕ → Exec (Llist A)
  datablock_dealloc l block =
      if borrows l
      then done l
      else if l.noalloc_data
      then (do entries ← store l.db_map block mark_free; done (record l { db_map = entries }))
      else done l

  unfoldable pub node_destroy : Llist A → ℕ → Exec (Llist A)
  node_destroy l p = do
    n ← load_node l.heap (some p)
    l' ← datablock_dealloc l n.block
    node_dealloc l' p

  abbrev pub fill_node : Llist A → ℕ → (block : ℕ) → A → Llist A
  fill_node l p block e = record l {
    heap = write l.heap p (some (record { next = none; prev = none; value = e; block = block }));
  }

  -- A node without a data block has nothing but itself to give back.
  abbrev pub fill_or_dealloc : (p : ℕ) → A → Option ℕ × Llist A → Exec (Option ℕ × Llist A)
  fill_or_dealloc p e (some b, l) = done (some p, fill_node l p b e)
  fill_or_dealloc p e (none, l) = do l' ← node_dealloc l p; done (none, l')

  unfoldable pub node_create : Malloc A → Llist A → A → Exec (Option ℕ × Llist A)
  node_create malloc l e = do
    (p, l1) ← node_alloc malloc l
    elim p [
      | none ↦ done (none, l1)
      | some a ↦
          if borrows l1
          then done (some a, fill_node l1 a 0 e)
          else (do got ← datablock_alloc malloc l1; fill_or_dealloc a e got)
    ]
