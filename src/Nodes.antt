-- ===== src/Nodes.antt =====
-- The nodes of the linked lists and the memory that they stand in: `struct llist_node` of
-- include/rcsw/ds/llist.h, and the mergesort of src/algorithm/sort.c, which works on them. A pointer is
-- an address or `none` for NULL, and each access to a field through a pointer is a step that
-- faults at NULL and where no node is.
use rcsw.Base.{
  ℕ, zero, suc, ◌+◌, ◌-◌, ◌*◌, ◌/◌, ◌%◌, ◌^◌, ◌≤◌, ◌<◌, min, max, ◌≡◌, refl, sym, ap, ap₂, ◌∙◌, ◌≢◌,
  ◌↔◌, ◌⊎◌, inl, inr, Bool, true, false, not, ◌&&◌, ◌||◌, Option, none, some, List, [], ◌∷◌, ◌++◌,
  map, Perm, arith, ltb, leb, ◌==◌, if◌then◌else◌, Bool-cases, Option-cases, lt-or-le, lt→ltb,
  le→not-ltb, test_true, Nat-cases, le→leb, lt→not-leb, and_false, load-fault, store-fault, ==_iff,
  test_false, true-ne-false, cmp_le_of_≼, not-cmp_gt_self, Exec, done, fault, out_of_fuel, ◌>>=◌,
  load, store, load-done, store-done, Ends, ends, Ends-bind, Ends-map, Ends-if, Ends-if_and,
  Ends-inv, Errno, unset, einval, enospc, eagain, enomem, Status, ok, error, Element, cmp_le,
  cmp_gt, cmp_lt, cmp_eq, IsOrder, ◌≼◌, alloc, length, get_elem?, get_or, set, take, drop,
  replicate, length-append, length-set, length-take, length-drop, length-replicate,
  get_elem?-eq-get_or, get_or-set, get_or-set_ne, set-set, set_self, exchange-perm, get_or-set_self,
  get_or-append, get_or-take, ext_get_or, exchange, get_or-exchange, length-exchange,
  get_or-exchange_left, get_or-exchange_right, get_or-exchange_other, Rearranged, Rearranged-refl,
  Rearranged-trans, Rearranged-widen, exchange-Rearranged, ≼_of_cmp_le, ≼_of_not-cmp_gt,
  ≼_of_cmp_eq, ≼_of_cmp_lt, ≼_refl, ≼_of_not, ≼_of_cmp_gt, ≼_of_not-cmp_le, ≼_of_not-cmp_lt,
}
use mathlib.Core.Path.{subst}
use mathlib.Core.List.Perm
pub mod Chain
pub mod Relink
pub mod Merged
pub mod Nexts
pub mod Merge
pub mod MergeLoop
pub mod Mergesort
pub mod MergesortRec

pub record Node {ℓ} (A : Type ℓ) : Type ℓ where
  pub next : Option ℕ
  pub prev : Option ℕ
  pub value : A
  pub block : ℕ

abbrev pub Heap {ℓ} : Type ℓ → Type ℓ
Heap A = ℕ → Option (Node A)

-- `a == b` of two pointers.
abbrev pub same_ptr : Option ℕ → Option ℕ → Bool
same_ptr none none = true
same_ptr none (some b) = false
same_ptr (some a) none = false
same_ptr (some a) (some b) = a == b

abbrev pub is_null : Option ℕ → Bool
is_null none = true
is_null (some a) = false

module _ {ℓ} {A : Type ℓ} where
  unfoldable pub write : Heap A → ℕ → Option (Node A) → Heap A
  write h p c a = if a == p then c else h a

  abbrev pub found : Option (Node A) → Exec (Node A)
  found none = fault
  found (some n) = done n

  unfoldable pub load_node : Heap A → Option ℕ → Exec (Node A)
  load_node h none = fault
  load_node h (some p) = found (h p)

  -- `p->next = q` and `p->prev = q`.
  unfoldable pub set_next : Heap A → Option ℕ → Option ℕ → Exec (Heap A)
  set_next h none q = fault
  set_next h (some p) q = do n ← found (h p); done (write h p (some (record n { next = q })))

  unfoldable pub set_prev : Heap A → Option ℕ → Option ℕ → Exec (Heap A)
  set_prev h none q = fault
  set_prev h (some p) q = do n ← found (h p); done (write h p (some (record n { prev = q })))

  -- The next node of `p`, where the loops of the code go.
  abbrev pub next_of : Heap A → Option ℕ → Exec (Option ℕ)
  next_of h p = do n ← load_node h p; done n.next

  -- The rest of a round after `next` has been chosen: the links of `next`, and `result`.
  unfoldable pub attach :
      Heap A → (next result tail : Option ℕ) → (isdouble : Bool) → Exec (Heap A × Option ℕ)
  attach h next result tail isdouble = do
    h' ← (if is_null result then done h else set_next h tail next)
    h'' ← (if isdouble then set_prev h' next tail else done h')
    done (h'', if is_null result then next else result)

  module _ ⦃el : Element A⦄ where
    -- The loop that finds the middle: gives `last` and `right`.
    unfoldable pub find_half :
        (fuel : ℕ) → Heap A → (last right temp : Option ℕ) → Exec (Option ℕ × Option ℕ)
    find_half zero h last right temp = out_of_fuel
    find_half (suc fuel) h last right none = done (last, right)
    find_half (suc fuel) h last right (some t) = do
      q ← next_of h (some t)
      let stop = done (last, right)
      let go_on = (do
        right' ← next_of h right
        temp' ← next_of h q
        find_half fuel h right right' temp')
      (if is_null q then stop else go_on)

    -- Which of the two lists gives its first node to the result.
    unfoldable pub takes_left : Heap A → (left right : Option ℕ) → Exec Bool
    takes_left h left none = done true
    takes_left h none (some r) = done false
    takes_left h (some l) (some r) = do
      n ← load_node h (some l)
      m ← load_node h (some r)
      done (cmp_le n.value m.value)

    unfoldable pub merge_loop :
        (fuel : ℕ)
        → Heap A
        → (left right result tail : Option ℕ) → (isdouble : Bool) → Exec (Heap A × Option ℕ)
    merge_loop zero h left right result tail isdouble = out_of_fuel
    merge_loop (suc fuel) h left right result tail isdouble =
        let round = (do
          b ← takes_left h left right
          let next = if b then left else right
          after ← next_of h next
          (h', result') ← attach h next result tail isdouble
          merge_loop fuel h' (if b then after else left) (if b then right else after) result' next
              isdouble) in
        if is_null left && is_null right then done (h, result) else round

    -- `depth` bounds the levels of the recursion, `size` the rounds of its loops.
    unfoldable pub mergesort_fuel :
        (depth size : ℕ) → Heap A → (list : Option ℕ) → (isdouble : Bool) → Exec (Heap A × Option ℕ)
    mergesort_fuel zero size h list isdouble = out_of_fuel
    mergesort_fuel (suc depth) size h none isdouble = done (h, none)
    mergesort_fuel (suc depth) size h (some p) isdouble = do
      q ← next_of h (some p)
      let sorted = done (h, some p)
      let split = (do
        (last, right) ← find_half size h (some p) (some p) (some p)
        h1 ← set_next h last none
        (h2, left') ← mergesort_fuel depth size h1 (some p) isdouble
        (h3, right') ← mergesort_fuel depth size h2 right isdouble
        merge_loop size h3 left' right' none none isdouble)
      (if is_null q then sorted else split)

    -- For a list of `n` nodes.
    unfoldable pub mergesort_rec :
        (n : ℕ) → Heap A → (list : Option ℕ) → (isdouble : Bool) → Exec (Heap A × Option ℕ)
    mergesort_rec n h list isdouble = mergesort_fuel (n + 1) (n + 1) h list isdouble
