-- ===== src/Binheap/Make.antt =====
-- `binheap_make`, the copy loop and the sifts together.
use rcsw.Base.{
  none, ℕ, suc, ◌+◌, ◌-◌, ◌/◌, ◌^◌, ◌<◌, ◌≡◌, refl, sym, ap, ◌∙◌, false, List, [], ◌∷◌, ◌++◌, Perm,
  arith, le→leb, done, Ends, ends, Ends-bind, Ends-map, Status, ok, error, Element, IsOrder, length,
  take, drop, length-append, some, true, enospc, eagain, enomem,
}
use mathlib.Core.Path.{subst}
use mathlib.Core.List.{append-nil, append_assoc}
use rcsw.Darray.{Darray, Realloc, IsRealloc, sub_size, set_size}
use rcsw.Darray.Spec.{contents, length-contents}
use rcsw.Darray.Grow.{IsValid}
use rcsw.Darray.Insert.{
  Configured, inserted, Inserted, placed, full, fixed, starved, insert-Inserted, inserted-end,
}
use rcsw.Binheap.{then_sift, Binheap, fill_loop, make, sift_loop}
use rcsw.Binheap.Order.{HeapFrom}
use rcsw.Binheap.Insert.{IsHeap, keys}
use rcsw.Binheap.Build.{sift_loop-heapifies}

module _ {ℓ} {A : Type ℓ} ⦃el : Element A⦄ where
  -- How the copy ends: the elements are behind those that were there, or an insertion failed.
  data Copied (realloc : Realloc A) (a : Darray A) (xs : List A) : Status × Darray A → Type ℓ where
    copied :
        {a' : Darray A}
        → IsValid a'
        → contents a' ≡ contents a ++ xs
        → a'.keep_sorted ≡ false
        → Copied realloc a xs (ok, a')
    stopped_limit :
        {m : ℕ} {a' : Darray A}
        → a.max_elts ≡ some m
        → m < a.current + length xs
        → Copied realloc a xs (error enospc, a')
    stopped_block :
        {a' : Darray A}
        → a.noalloc_data ≡ true
        → a.capacity < a.current + length xs
        → Copied realloc a xs (error eagain, a')
    stopped_memory :
        {a' : Darray A}
        → a.noalloc_data ≡ false
        → realloc a'.elements a'.capacity ≡ none
        → Copied realloc a xs (error enomem, a')

  -- How `binheap_make` ends: in an error, the elements and the temporary slot are too many for
  -- the cap or for the caller's block, or `realloc` has refused to grow the block as far as it got.
  pub data MadeHeap (realloc : Realloc A) (heap : Binheap A) (xs : List A)
      : Status × Binheap A → Type ℓ where
    heaped :
        {heap' : Binheap A}
        → IsHeap heap'
        → heap'.is_min ≡ heap.is_min
        → Perm (keys heap') xs
        → MadeHeap realloc heap xs (ok, heap')
    limited :
        {m : ℕ} {heap' : Binheap A}
        → heap.arr.max_elts ≡ some m
        → m < length xs + 1
        → MadeHeap realloc heap xs (error enospc, heap')
    fixed_block :
        {heap' : Binheap A}
        → heap.arr.noalloc_data ≡ true
        → heap.arr.capacity < length xs + 1
        → MadeHeap realloc heap xs (error eagain, heap')
    out_of_memory :
        {heap' : Binheap A}
        → heap.arr.noalloc_data ≡ false
        → realloc heap'.arr.elements heap'.arr.capacity ≡ none
        → MadeHeap realloc heap xs (error enomem, heap')

  current_after :
      (a a' : Darray A) (xs : List A)
      → IsValid a
      → IsValid a'
      → contents a' ≡ contents a ++ xs
      → a'.current ≡ a.current + length xs
  current_after a a' xs v v' e = omega (
    arith,
    v.bound,
    v.slots,
    v'.bound,
    v'.slots,
    length-contents a.elements a.current (omega (arith, v.bound, v.slots)),
    length-contents a'.elements a'.current (omega (arith, v'.bound, v'.slots)),
    ap length e,
    length-append (contents a) xs,
  )

  Copied-cons :
      (realloc : Realloc A) (a a' : Darray A) (x : A) (xs : List A)
      → Configured a a'
      → a'.current ≡ a.current + 1
      → contents a' ≡ contents a ++ x ∷ []
      → (out : Status × Darray A) → Copied realloc a' xs out
      → Copied realloc a (x ∷ xs) out
  Copied-cons realloc a a' x xs k n e _ (copied v e' p) =
      copied v (e' ∙ ap (λ ys. ys ++ xs) e ∙ append_assoc (contents a) (x ∷ []) xs) p
  Copied-cons realloc a a' x xs k n e _ (stopped_limit l h) =
      stopped_limit (sym k.limit ∙ l) (omega (arith, n, h))
  Copied-cons realloc a a' x xs k n e _ (stopped_block q h) =
      let own : a.noalloc_data ≡ true = sym k.owner ∙ q in
      stopped_block own (omega (arith, n, h, k.block own))
  Copied-cons realloc a a' x xs k n e _ (stopped_memory q r) = stopped_memory (sym k.owner ∙ q) r

  drop-append : (ys xs : List A) → length ys ≡ 1 → drop 1 (ys ++ xs) ≡ xs
  drop-append [] xs h = absurd (omega arith)
  drop-append (y ∷ []) xs h = refl
  drop-append (y ∷ z ∷ ys) xs h = absurd (omega arith)

  module _ (realloc : Realloc A) (law : IsRealloc realloc) where
    fill_loop-Copied :
        (xs : List A) (a : Darray A) (i : ℕ)
        → IsValid a
        → a.keep_sorted ≡ false
        → a.current ≡ i + 1
        → Ends (Copied realloc a xs) (fill_loop realloc a xs i)
    unfolding fill_loop
    fill_loop-Copied [] a i v plain c = ends (copied v (sym (append-nil (contents a))) plain)
    fill_loop-Copied (x ∷ xs) a i v plain c =
        Ends-bind (insert-Inserted realloc law a x (i + 1) v (omega (arith, c)) plain)
          (one_more (λ a' v' p' c'. fill_loop-Copied xs a' (i + 1) v' p' c'))
      where
        one_more :
            ((a' : Darray A)
              → IsValid a'
              → a'.keep_sorted ≡ false
              → a'.current ≡ i + 1 + 1
              → Ends (Copied realloc a' xs) (fill_loop realloc a' xs (i + 1)))
            → (out : Status × Darray A) → Inserted realloc a x (i + 1) out
            → Ends (Copied realloc a (x ∷ xs)) (elim out.0 [
              | ok ↦ fill_loop realloc out.1 xs (i + 1)
              | error n ↦ done (error n, out.1)
            ])
        one_more rest _ (placed {a' = a'} v' e flags) =
            let appended : contents a' ≡ contents a ++ x ∷ [] =
              e
              ∙ ap (λ k. inserted a k x) (sym c)
              ∙ inserted-end a x (omega (arith, v.bound, v.slots)) in
            let size : a'.current ≡ a.current + 1 = current_after a a' (x ∷ []) v v' appended in
            Ends-map (rest a' v' (flags.sorts ∙ plain) (omega (arith, c, size)))
              (λ out f. Copied-cons realloc a a' x xs flags size appended out f)
        one_more rest _ (full h) = ends (stopped_limit h (omega arith))
        one_more rest _ (fixed h k) = ends (stopped_block h (omega (arith, k)))
        one_more rest _ (starved h k r) = ends (stopped_memory h r)

    module _ (ord : IsOrder A) where
      Copied-MadeHeap :
          (heap : Binheap A) (xs : List A)
          → IsValid heap.arr
          → heap.arr.current ≡ 1
          → length xs + 1 < 2 ^ 64
          → (out : Status × Darray A) → Copied realloc heap.arr xs out
          → Ends (MadeHeap realloc heap xs) (elim out.0 [
            | ok ↦
                then_sift heap
                  (λ b.
                    sift_loop heap.is_min
                      (sub_size b.current 1)
                      b.elements
                      (sub_size b.current 1 / 2 + 1))
                  (set_size out.1 (length xs + 1))
            | error n ↦ done (error n, record heap { arr = out.1 })
          ])
      unfolding set_size
      Copied-MadeHeap heap xs v c word _ (copied {a' = a} v' e plain) =
          let n = length xs in
          let size = current_after heap.arr a xs v v' e in
          let same : sub_size (n + 1) 1 ≡ n = omega (arith, word) in
          let first : length (contents heap.arr) ≡ 1 =
            length-contents heap.arr.elements heap.arr.current (omega (arith, v.bound, v.slots))
            ∙ c in
          let copy : drop 1 (take (suc n) a.elements) ≡ xs =
            ap (λ k. drop 1 (take k a.elements)) {x = suc n} {y = a.current}
              (omega (arith, size, c))
            ∙ ap (drop 1) e
            ∙ drop-append (contents heap.arr) xs first in
          let next : suc n ≡ n + 1 = omega arith in
          rw (le→leb (n + 1) a.capacity (omega (arith, v'.bound, size, c)), same)
            (Ends-bind
              (sift_loop-heapifies ord heap.is_min n a.elements
                (omega (arith, v'.bound, v'.slots, size, c)))
              λ es s. ends (
                heaped
                  (record {
                    valid = record {
                      slots = omega (arith, v'.slots, s.size);
                      bound = omega (arith, v'.bound, size, c);
                      capped = λ m q. omega (arith, v'.capped m q, size, c);
                    };
                    temporary = omega arith;
                    plain = plain;
                    order =
                        subst (λ k. HeapFrom heap.is_min 1 k es) {x = n} {y = n + 1 - 1}
                          (omega arith) s.order;
                  })
                  refl
                  (subst (λ k. Perm (drop 1 (take k es)) xs) next
                    (subst (λ ys. Perm (drop 1 (take (suc n) es)) ys) copy s.perm))))
      Copied-MadeHeap heap xs v c word _ (stopped_limit l h) =
          ends (limited l (omega (arith, c, h)))
      Copied-MadeHeap heap xs v c word _ (stopped_block q h) =
          ends (fixed_block q (omega (arith, c, h)))
      Copied-MadeHeap heap xs v c word _ (stopped_memory q r) = ends (out_of_memory q r)

      -- `binheap_make` of one element or more on a heap that holds none, by a comparison that is an
      -- order, with a `realloc` that keeps the old entries and fewer than 2 ^ 64 - 1 elements: it
      -- ends. Either the heap holds the given elements and is in heap order; or the elements and the
      -- temporary slot are too many for the cap (ENOSPC) or for a block of the caller (EAGAIN), or
      -- `realloc` has refused the size that the capacity then shows (ENOMEM).
      pub make-MadeHeap :
          (heap : Binheap A) (xs : List A)
          → IsValid heap.arr
          → heap.arr.keep_sorted ≡ false
          → heap.arr.current ≡ 1
          → 0 < length xs
          → length xs + 1 < 2 ^ 64
          → Ends (MadeHeap realloc heap xs) (make realloc heap xs)
      unfolding make
      make-MadeHeap heap [] v plain c h word = absurd (omega arith)
      make-MadeHeap heap (x ∷ xs) v plain c h word =
          Ends-bind (fill_loop-Copied (x ∷ xs) heap.arr 0 v plain c)
            (Copied-MadeHeap heap (x ∷ xs) v c word)
