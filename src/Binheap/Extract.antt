-- ===== src/Binheap/Extract.antt =====
-- Extraction from the heap: `binheap_extract`.
use rcsw.Base.{
  ℕ, zero, suc, ◌-◌, ◌/◌, ◌^◌, ◌≤◌, ◌<◌, ◌≡◌, refl, sym, ap, ◌∙◌, inl, inr, Bool, true, false,
  Option, none, some, List, [], ◌∷◌, ◌++◌, Perm, arith, if◌then◌else◌, Nat-cases, le→leb,
  test_false, done, ◌>>=◌, load, load-done, store-done, Ends, ends, Ends-bind, Ends-map, eagain,
  Status, ok, error, Element, IsOrder, length, get_or, set, take, drop, length-set, get_or-set_ne,
  get_or-take, ◌*◌,
}
use mathlib.Core.Path.{subst}
use mathlib.Core.List.Perm
use rcsw.Binheap.{Binheap, is_empty, remove_into, extract, then_sift, sift_down}
use rcsw.Binheap.Order.{slot, Above, HeapFrom, Sifted, above_trans, above_refl}
use rcsw.Binheap.Down.{HeapButDown, sift_down_fuel-Sifted}
use rcsw.Binheap.Insert.{IsHeap, keys, snoc-perm}
use rcsw.Darray.{Darray, Realloc, IsRealloc, sub_size}
use rcsw.Darray.Spec.{contents, length-contents}
use rcsw.Darray.Grow.{IsValid}
use rcsw.Darray.Remove.{Answered, sub_size-exact, removed, removed-end, take_out-removed}

module _ {ℓ} {A : Type ℓ} ⦃el : Element A⦄ where
  -- The elements in use once the last one has overwritten the first.
  overwritten-perm :
      (es : List A) (n : ℕ)
      → 1 ≤ n
      → n < length es
      → Perm (slot es 1 ∷ drop 1 (take n (set es 1 (slot es n)))) (drop 1 (take (suc n) es))
  overwritten-perm (t ∷ y ∷ es) (suc zero) a b = Perm.refl (y ∷ [])
  overwritten-perm (t ∷ y ∷ es) (suc (suc n)) a b = Perm.cons y (
      subst (λ xs. Perm (slot es n ∷ take n es) xs) (take-suc es n (omega arith))
        (Perm.symm (snoc-perm (take n es) (slot es n))))
    where
      take-suc :
          (xs : List A) (k : ℕ) → k < length xs → take k xs ++ slot xs k ∷ [] ≡ take (suc k) xs
      take-suc [] k h = absurd (omega arith)
      take-suc (x ∷ xs) zero h = refl
      take-suc (x ∷ xs) (suc k) h = ap (◌∷◌ x) (take-suc xs k (omega arith))
  overwritten-perm (t ∷ y ∷ es) zero a b = absurd (omega arith)
  overwritten-perm (t ∷ []) n a b = absurd (omega arith)
  overwritten-perm [] n a b = absurd (omega arith)

  -- How an extraction ends: the first key is above the others, it goes to the caller who wants
  -- it, and it leaves the heap, which is in order unless `realloc` has refused to halve its block.
  pub data Extracted (realloc : Realloc A) (heap : Binheap A) (want : Bool)
      : Status × Option A × Binheap A → Type ℓ where
    popped :
        {heap' : Binheap A}
        → ((k : ℕ)
            → 1 ≤ k
            → k ≤ heap.arr.current - 1
            → Above heap.is_min (slot heap.arr.elements 1) (slot heap.arr.elements k))
        → IsHeap heap'
        → heap'.is_min ≡ heap.is_min
        → Perm (slot heap.arr.elements 1 ∷ keys heap') (keys heap)
        → Extracted realloc heap want
            (ok, (if want then some (slot heap.arr.elements 1) else none), heap')
    unsifted :
        {heap' : Binheap A}
        → heap.arr.noalloc_data ≡ false
        → 4 * (heap.arr.current - 1) ≤ heap.arr.capacity
        → realloc heap'.arr.elements (heap.arr.capacity / 2) ≡ none
        → Perm (slot heap.arr.elements 1 ∷ keys heap') (keys heap)
        → Extracted realloc heap want
            (error eagain, (if want then some (slot heap.arr.elements 1) else none), heap')

  module _ (ord : IsOrder A) where
    -- In a heap the first slot stands above every slot.
    pub HeapFrom-top :
        (fuel : ℕ) (is_min : Bool) (n : ℕ) (es : List A)
        → HeapFrom is_min 1 n es
        → (k : ℕ) → k < fuel
        → 1 ≤ k
        → k ≤ n
        → Above is_min (slot es 1) (slot es k)
    HeapFrom-top zero is_min n es h k f a b = absurd (omega arith)
    HeapFrom-top (suc fuel) is_min n es h k f a b = elim (Nat-cases k 1) [
      | inl e ↦ rw e (above_refl ord is_min (slot es 1))
      | inr e ↦
          above_trans ord is_min _ _ _
            (HeapFrom-top fuel is_min n es h (k / 2) (omega arith) (omega arith) (omega arith))
            (h k (omega arith) b (omega arith))
    ]

    -- The array after `darray_remove` of its last element into the first slot.
    module _ (realloc : Realloc A) (heap : Binheap A) (g : IsHeap heap) (n : ℕ)
        (full : heap.arr.current ≡ suc n) (some_key : 1 ≤ n) (word : heap.arr.current < 2 ^ 64)
        (a : Darray A) (v : IsValid a)
        (c : contents a ≡ take n (set heap.arr.elements 1 (slot heap.arr.elements n)))
        (flags : a.keep_sorted ≡ heap.arr.keep_sorted) where
      abbrev es : List A
      es = heap.arr.elements

      room : n < length es
      room = omega (arith, g.valid.bound, g.valid.slots)

      new_size : a.current ≡ n
      new_size = omega (
        arith,
        length-contents a.elements a.current (omega (arith, v.bound, v.slots)),
        ap length c,
        length-set es 1 (slot es n),
        length-contents (set es 1 (slot es n)) n (omega (arith, length-set es 1 (slot es n), room)),
      )

      old_slot : (k : ℕ) → 2 ≤ k → k < n → slot a.elements k ≡ slot es k
      old_slot k h b =
          sym (get_or-take a.current a.elements k el.zeroed (omega (arith, new_size)))
          ∙ ap (λ xs. get_or xs k el.zeroed) c
          ∙ get_or-take n (set es 1 (slot es n)) k el.zeroed b
          ∙ get_or-set_ne es 1 k (slot es n) el.zeroed (omega arith)

      new-HeapButDown : HeapButDown heap.is_min 1 (n - 1) 1 a.elements
      new-HeapButDown = record {
        rest = λ j u w x ne.
            rw (old_slot (j / 2) (omega arith) (omega arith), old_slot j u (omega arith))
              (g.order j u (omega (arith, full)) x);
        skip = λ j u w d x y. absurd (omega arith);
      }

      in_use : Perm (slot es 1 ∷ drop 1 (take n a.elements)) (keys heap)
      in_use =
          let shown : take n a.elements ≡ take n (set es 1 (slot es n)) =
            ap (λ k. take k a.elements) (sym new_size) ∙ c in
          rw (shown, full) (overwritten-perm es n some_key room)

      kept-IsHeap :
          (out : List A)
          → Sifted heap.is_min 1 (n - 1) a.elements out
          → IsHeap (record heap { arr = record a { elements = out } })
            × Perm (slot es 1 ∷ drop 1 (take a.current out)) (keys heap)
      kept-IsHeap out r = (
        record {
          valid = record {
            slots = omega (arith, v.slots, r.size);
            bound = v.bound;
            capped = v.capped;
          };
          temporary = omega (arith, new_size);
          plain = flags ∙ g.plain;
          order = λ j u w x. r.order j u (omega (arith, new_size)) x;
        },
        Perm.trans (Perm.cons (slot es 1) kept) in_use,
      )
        where
          kept : Perm (drop 1 (take a.current out)) (drop 1 (take n a.elements))
          kept =
              let again : suc (n - 1) ≡ n = omega arith in
              rw new_size
                (subst (λ k. Perm (drop 1 (take k out)) (drop 1 (take k a.elements))) again r.perm)

      sift-Extracted :
          (want : Bool) (st : Status)
          → Answered realloc heap.arr.noalloc_data heap.arr.capacity n (st, a)
          → Ends
              (λ out.
                Extracted realloc heap want
                  (out.0, (if want then some (slot heap.arr.elements 1) else none), out.1))
              (then_sift heap
                (λ b. sift_down heap.is_min (sub_size b.current 1) b.elements 1)
                (st, a))
      unfolding sift_down
      sift-Extracted want (error k) (e, own, few, r) =
          let many : n ≡ heap.arr.current - 1 = omega (arith, full) in
          rw e (ends (unsifted own (omega (arith, few, many)) r (rw new_size in_use)))
      sift-Extracted want ok status =
          let last : sub_size a.current 1 ≡ n - 1 =
            sub_size-exact a.current 1 (omega (arith, new_size)) (omega (arith, new_size, full))
            ∙ omega (arith, new_size) in
          rw last (
            Ends-bind
              (sift_down_fuel-Sifted ord (suc (n - 1)) heap.is_min 1 (n - 1) 1 a.elements
                (omega arith) (omega arith) (omega arith) (omega arith)
                (omega (arith, new_size, v.bound, v.slots)) new-HeapButDown)
              λ out r.
                let (heap_again, same) = kept-IsHeap out r in
                ends (
                  popped
                    (λ k u w.
                      HeapFrom-top (suc k) heap.is_min (heap.arr.current - 1) es g.order k
                        (omega arith) u w)
                    heap_again refl same))

    remove_into-last :
        (realloc : Realloc A)
        → IsRealloc realloc
        → (heap : Binheap A) → IsHeap heap
        → (n : ℕ) → heap.arr.current ≡ suc n
        → 1 ≤ n
        → heap.arr.current < 2 ^ 64
        → Ends
            (λ out.
              IsValid out.1
              × (contents out.1 ≡ take n (set heap.arr.elements 1 (slot heap.arr.elements n)))
              × (out.1.keep_sorted ≡ heap.arr.keep_sorted)
              × Answered realloc heap.arr.noalloc_data heap.arr.capacity n out)
            (remove_into realloc heap.arr 1 n)
    unfolding remove_into removed
    remove_into-last realloc law heap g n full some_key word =
        let es = heap.arr.elements in
        let es1 = set es 1 (slot es n) in
        let room : n < length es = omega (arith, g.valid.bound, g.valid.slots) in
        let size = length-set es 1 (slot es n) in
        let valid : IsValid (record heap.arr { elements = es1 }) = record {
          slots = omega (arith, g.valid.slots, size);
          bound = g.valid.bound;
          capped = g.valid.capped;
        } in
        rw
          (
            le→leb n heap.arr.current (omega arith),
            load-done es n el.zeroed room,
            store-done es 1 (slot es n) (omega arith),
          )
          (Ends-map
            (take_out-removed realloc law (record heap.arr { elements = es1 }) n el.zeroed valid
              (omega arith) word)
            λ out (v, c, flags, status). (
              v,
              c
                  ∙ removed-end (record heap.arr { elements = es1 }) n el.zeroed g.plain full
                      (omega (arith, g.valid.bound, g.valid.slots, size)),
              flags,
              answered out status,
            ))
      where
        answered :
            (out : Status × Darray A)
            → Answered realloc heap.arr.noalloc_data heap.arr.capacity (heap.arr.current - 1) out
            → Answered realloc heap.arr.noalloc_data heap.arr.capacity n out
        answered out status =
            subst (λ k. Answered realloc heap.arr.noalloc_data heap.arr.capacity k out)
              {x = heap.arr.current - 1} {y = n} (omega (arith, full)) status

    -- `binheap_extract` of a heap that has a key, by a comparison that is an order, with a `realloc`
    -- that keeps the old entries and a size below 2 ^ 64: it ends. The key in the first slot is above every
    -- key; it is what the caller gets, if he wants it, and it leaves the heap; the result is again a
    -- heap with the answer OK, unless its block is its own, is now at most a quarter full, and `realloc` has
    -- refused to halve it (EAGAIN).
    pub extract-Extracted :
        (realloc : Realloc A)
        → IsRealloc realloc
        → (heap : Binheap A) (want : Bool) → IsHeap heap
        → 2 ≤ heap.arr.current
        → heap.arr.current < 2 ^ 64
        → Ends (Extracted realloc heap want) (extract realloc heap want)
    unfolding extract is_empty
    extract-Extracted realloc law heap want g some_key word =
        let n = heap.arr.current - 1 in
        let last = sub_size-exact heap.arr.current 1 (omega arith) word in
        rw (test_false heap.arr.current 1 (omega arith), last)
          (Ends-bind (top want) λ t e.
            Ends-bind (remove_into-last realloc law heap g n (omega arith) (omega arith) word)
              λ (st, a) (v, c, flags, status).
                Ends-bind
                  (sift-Extracted realloc heap g n (omega arith) (omega arith) word a v c flags want
                    st status)
                  λ out r. rw e (ends r))
      where
        top :
            (w : Bool)
            → Ends
                (λ t. t ≡ (if w then some (slot heap.arr.elements 1) else none))
                (if w then (do x ← load heap.arr.elements 1; done (some x)) else done none)
        top true =
            rw
              (load-done heap.arr.elements 1 el.zeroed
                (omega (arith, g.valid.bound, g.valid.slots)))
              (ends refl)
        top false = ends refl
