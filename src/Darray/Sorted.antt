-- ===== src/Darray/Sorted.antt =====
-- Insertion into an array with the SORTED flag: `darray_insert`, `darray_sort` and `qsort_iter`
-- together.
use rcsw.Sort.{qsort_iter}
use rcsw.Darray.Edit.{mark_sorted, ExecType, place, insert, sort}
use rcsw.Base.{
  ℕ, zero, suc, ◌+◌, ◌-◌, ◌≤◌, ◌<◌, ◌≡◌, refl, inl, inr, true, false, not, ◌||◌, some, List, [],
  ◌∷◌, ◌++◌, Perm, arith, leb, Bool-cases, le→leb, lt→not-leb, store-done, Ends, ends, Ends-bind,
  Ends-if, Status, ok, Element, IsOrder, length, get_or, set, take, length-append, length-set,
  perm-set, Rearranged-prefix,
}
use mathlib.Core.Path.{subst}
use mathlib.Core.List.Perm
use rcsw.Darray.{Darray, Realloc}
use rcsw.Darray.Spec.{contents, insert_swap, insert_at-perm, length-contents}
use rcsw.Darray.Grow.{IsValid}
use rcsw.Darray.Insert.{inserted, gap-inserted, full_or_room}
use rcsw.Sort.Qsort.{IsSortedOn, short-SortsOn}
use mathlib.Core.List.{perm_append_comm}
use rcsw.Sort.Iter.{qsort_iter-SortsOn}

module _ {ℓ} {A : Type ℓ} ⦃el : Element A⦄ where
  get_or-end : (xs : List A) (i : ℕ) (d : A) → get_or (xs ++ get_or xs i d ∷ []) i d ≡ get_or xs i d
  get_or-end [] zero d = refl
  get_or-end [] (suc i) d = refl
  get_or-end (x ∷ xs) zero d = refl
  get_or-end (x ∷ xs) (suc i) d = get_or-end xs i d

  -- Either edit has the old elements and the new one.
  insert_swap-perm :
      (xs : List A) (index : ℕ) (e : A) → index ≤ length xs → Perm (insert_swap xs index e) (e ∷ xs)
  unfolding insert_swap
  insert_swap-perm xs index e h =
      let x = get_or xs index e in
      let moved =
        rw (get_or-end xs index e) at
          (perm-set e (xs ++ x ∷ []) index e (omega (arith, length-append xs (x ∷ [])))) in
      Perm.cons_inv (Perm.trans moved (perm_append_comm (e ∷ xs) (x ∷ [])))

  inserted-perm :
      (a : Darray A) (e : A) (index : ℕ)
      → index ≤ a.current
      → a.current ≤ length a.elements
      → Perm (inserted a index e) (e ∷ contents a)
  unfolding inserted
  inserted-perm a e index h b =
      let size = length-contents a.elements a.current b in
      elim (Bool-cases a.ordered) [
        | inl q ↦ rw q (insert_at-perm (contents a) index e)
        | inr q ↦ rw q (insert_swap-perm (contents a) index e (omega arith))
      ]

  -- An array whose elements in use are in order, and are `xs` in some order; it is marked when it
  -- has been sorted.
  pub record InOrder (xs : List A) (out : Status × Darray A) : Type ℓ where
    pub fine : out.0 ≡ ok
    pub valid : IsValid out.1
    pub order : IsSortedOn out.1.elements 0 (out.1.current - 1)
    pub same : Perm (contents out.1) xs
    pub mark : 1 < out.1.current → out.1.sorted ≡ true

  reordered :
      {xs ys : List A} {out : Status × Darray A}
      → InOrder xs out
      → Perm xs ys
      → InOrder ys (ok, out.1)
  reordered p perm = record {
    fine = refl;
    valid = p.valid;
    order = p.order;
    same = Perm.trans p.same perm;
    mark = p.mark;
  }

  module _ (ord : IsOrder A) where
    qsorted-InOrder :
        (a : Darray A)
        → IsValid a
        → 1 < a.current
        → Ends (InOrder (contents a)) (mark_sorted a (qsort_iter a.elements (a.current - 1)))
    qsorted-InOrder a v h =
        let last : a.current - 1 + 1 ≡ a.current = omega arith in
        Ends-bind
          (qsort_iter-SortsOn ord a.elements (a.current - 1) (omega arith)
            (omega (arith, v.bound, v.slots)))
          λ es (moved, order). ends (record {
            fine = refl;
            valid = record {
              slots = omega (arith, v.slots, moved.size);
              bound = v.bound;
              capped = v.capped;
            };
            order = order;
            same =
                subst (λ n. Perm (take n es) (take n a.elements)) last
                  (Rearranged-prefix el.zeroed 0 (a.current - 1) a.elements es moved);
            mark = λ c. refl;
          })

    short-InOrder : (a : Darray A) → IsValid a → a.current ≤ 1 → InOrder (contents a) (ok, a)
    short-InOrder a v h = record {
      fine = refl;
      valid = v;
      order = (short-SortsOn ord a.elements 0 (a.current - 1) (omega arith)).1;
      same = Perm.refl (contents a);
      mark = λ c. absurd (omega arith);
    }

    -- The sort at the end of an insertion.
    sort-InOrder :
        (a : Darray A)
        → IsValid a
        → a.has_cmpe ≡ true
        → a.sorted ≡ false
        → Ends (InOrder (contents a)) (sort a ExecType.iterative)
    unfolding sort
    sort-InOrder a v callback unsorted =
        Ends-if (not a.has_cmpe) (λ q. absurd (ground (arith, q, callback)))
          (λ _.
            Ends-if (leb a.current 1 || a.sorted)
              (λ q. ends (short-InOrder a v (ground (arith, q, unsorted))))
              (λ q. qsorted-InOrder a v (ground (arith, q, unsorted))))

    place-InOrder :
        (a : Darray A) (e : A) (index : ℕ)
        → IsValid a
        → index ≤ a.current
        → a.current < a.capacity
        → ((m : ℕ) → a.max_elts ≡ some m → a.current < m)
        → a.keep_sorted ≡ true
        → a.has_cmpe ≡ true
        → Ends (InOrder (e ∷ contents a)) (place a e index)
    unfolding place
    place-InOrder a e index v h free room keep callback =
        Ends-bind (gap-inserted a e index h (omega (arith, v.slots))) λ es (size, edit).
          let a' = record a {
            elements = set es index e;
            current = a.current + 1;
            sorted = false;
          } in
          let valid : IsValid a' = record {
            slots = omega (arith, v.slots, size, length-set es index e);
            bound = omega arith;
            capped = λ m q. omega (arith, room m q);
          } in
          let holds : Perm (take (a.current + 1) (set es index e)) (e ∷ contents a) =
            rw edit (inserted-perm a e index h (omega (arith, v.slots))) in
          rw (store-done es index e (omega (arith, size, v.slots))) (
            Ends-if a.keep_sorted
              (λ _.
                Ends-bind (sort-InOrder a' valid callback refl) λ out p. ends (reordered p holds))
              (λ q. absurd (ground (arith, q, keep))))

    -- `darray_insert` at any place up to the size of a valid array with the SORTED flag, a
    -- comparison that is an order, a free slot and room below the cap ends well. The array is again
    -- valid, holds the new element and the old ones, is in order whatever its order was before
    -- and, with two elements or more, is marked as sorted.
    pub insert-InOrder :
        (realloc : Realloc A) (a : Darray A) (e : A) (index : ℕ)
        → IsValid a
        → index ≤ a.current
        → a.current < a.capacity
        → ((m : ℕ) → a.max_elts ≡ some m → a.current < m)
        → a.keep_sorted ≡ true
        → a.has_cmpe ≡ true
        → Ends (InOrder (e ∷ contents a)) (insert realloc a e index)
    unfolding insert
    insert-InOrder realloc a e index v h free room keep callback =
        rw (le→leb index a.current h, lt→not-leb a.capacity a.current free)
          (elim (full_or_room a.current a.max_elts v.capped) [
            | inl (q, r) ↦ absurd (omega (arith, room a.current r))
            | inr (q, _) ↦ rw q (place-InOrder a e index v h free room keep callback)
          ])
