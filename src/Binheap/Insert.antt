-- ===== src/Binheap/Insert.antt =====
-- What a heap is, and insertion into it: `binheap_insert`.
use rcsw.Darray as Array
use rcsw.Darray as Array
use rcsw.Base.{
  ◌*◌, max, Option, none, some, true, ◌≢◌, ◌==◌, ==_iff, true-ne-false, test_true, einval, eagain,
  enomem, ℕ, suc, ◌+◌, ◌-◌, ◌/◌, ◌^◌, ◌≤◌, ◌<◌, ◌≡◌, refl, sym, ap, ◌∙◌, false, List, [], ◌∷◌, ◌++◌,
  Perm, arith, Ends, ends, Ends-bind, Ends-if, Status, ok, error, Element, IsOrder, length, get_or,
  take, drop, length-append, get_or-append, get_or-take,
}
use mathlib.Core.Path.{subst}
use mathlib.Core.List.Perm
use rcsw.Binheap.{Binheap, is_full, insert_key, then_sift, sift_up}
use rcsw.Binheap.Order.{slot, HeapFrom, Sifted}
use rcsw.Binheap.Up.{HeapButUp, sift_up_fuel-Sifted}
use rcsw.Darray.{as_size, Darray, Realloc, IsRealloc, sub_size}
use rcsw.Darray.Spec.{contents, length-contents}
use rcsw.Darray.Grow.{IsValid}
use rcsw.Darray.Insert.{
  Inserted, placed, full, fixed, starved, inserted, inserted-end, insert-Inserted,
}
use rcsw.Darray.Remove.{sub_size-exact}

module _ {ℓ} {A : Type ℓ} ⦃el : Element A⦄ where
  -- The elements of a heap: those behind the temporary slot.
  abbrev pub keys : Binheap A → List A
  keys heap = drop 1 (contents heap.arr)

  pub record IsHeap (heap : Binheap A) : Type ℓ where
    pub valid : IsValid heap.arr
    pub temporary : 1 ≤ heap.arr.current
    pub plain : heap.arr.keep_sorted ≡ false
    pub order : HeapFrom heap.is_min 1 (heap.arr.current - 1) heap.arr.elements

  -- How an insertion ends.
  pub data KeyInserted (realloc : Realloc A) (heap : Binheap A) (e : A)
      : Status × Binheap A → Type ℓ where
    pushed :
        {heap' : Binheap A}
        → IsHeap heap'
        → heap'.is_min ≡ heap.is_min
        → Perm (keys heap') (e ∷ keys heap)
        → KeyInserted realloc heap e (ok, heap')
    limited :
        heap.arr.max_elts ≡ some heap.arr.current → KeyInserted realloc heap e (error einval, heap)
    fixed_block :
        heap.arr.noalloc_data ≡ true
        → heap.arr.capacity ≡ heap.arr.current
        → KeyInserted realloc heap e (error eagain, heap)
    out_of_memory :
        {heap' : Binheap A}
        → heap.arr.noalloc_data ≡ false
        → heap.arr.capacity ≡ heap.arr.current
        → realloc heap.arr.elements (max (heap.arr.capacity * 2) 1) ≡ none
        → heap'.arr.elements ≡ heap.arr.elements
        → heap'.arr.current ≡ heap.arr.current
        → KeyInserted realloc heap e (error enomem, heap')

  is_full-limit :
      (heap : Binheap A)
      → heap.arr.current + 1 < 2 ^ 64
      → is_full heap ≡ true
      → heap.arr.max_elts ≡ some heap.arr.current
  unfolding is_full Array.is_full
  is_full-limit heap word q = at_limit heap.arr.current heap.arr.max_elts word q
    where
      at_limit : (n : ℕ) (o : Option ℕ) → n + 1 < 2 ^ 64 → (n == as_size o) ≡ true → o ≡ some n
      at_limit n none word q = absurd (omega (arith, (==_iff n (2 ^ 64 - 1)).0 q))
      at_limit n (some m) word q = ap some (sym ((==_iff n m).0 q))

  not_full-below :
      (heap : Binheap A) → is_full heap ≡ false → heap.arr.max_elts ≢ some heap.arr.current
  unfolding is_full Array.is_full
  not_full-below heap q e =
      true-ne-false (sym (test_true heap.arr.current heap.arr.current refl) ∙ sym same ∙ q)
    where
      same :
          (heap.arr.current == as_size heap.arr.max_elts) ≡ (heap.arr.current == heap.arr.current)
      same = ap (λ o. heap.arr.current == as_size o) e

  pub snoc-perm : (xs : List A) (e : A) → Perm (xs ++ e ∷ []) (e ∷ xs)
  snoc-perm [] e = Perm.refl (e ∷ [])
  snoc-perm (x ∷ xs) e = Perm.trans (Perm.cons x (snoc-perm xs e)) (Perm.swap e x xs)

  drop-snoc : (xs : List A) (e : A) → 1 ≤ length xs → Perm (drop 1 (xs ++ e ∷ [])) (e ∷ drop 1 xs)
  drop-snoc [] e h = absurd (omega arith)
  drop-snoc (x ∷ xs) e h = snoc-perm xs e

  module _ (ord : IsOrder A) where
    -- The array after the insertion at its end.
    module _ (realloc : Realloc A) (heap : Binheap A) (e : A) (g : IsHeap heap)
        (word : heap.arr.current + 1 < 2 ^ 64) (a : Darray A) (v : IsValid a)
        (c : contents a ≡ inserted heap.arr heap.arr.current e)
        (flags : a.keep_sorted ≡ heap.arr.keep_sorted) where
      abbrev m : ℕ
      m = heap.arr.current

      appended : contents a ≡ contents heap.arr ++ e ∷ []
      appended = c ∙ inserted-end heap.arr e (omega (arith, g.valid.bound, g.valid.slots))

      old_size : length (contents heap.arr) ≡ m
      old_size = length-contents heap.arr.elements m (omega (arith, g.valid.bound, g.valid.slots))

      new_size : a.current ≡ suc m
      new_size = omega (
        arith,
        old_size,
        length-contents a.elements a.current (omega (arith, v.bound, v.slots)),
        ap length appended,
        length-append (contents heap.arr) (e ∷ []),
      )

      old_slot : (k : ℕ) → k < m → slot a.elements k ≡ slot heap.arr.elements k
      old_slot k h =
          sym (get_or-take a.current a.elements k el.zeroed (omega (arith, new_size)))
          ∙ ap (λ xs. get_or xs k el.zeroed) appended
          ∙ get_or-append (contents heap.arr) (e ∷ []) k el.zeroed (omega (arith, old_size))
          ∙ get_or-take m heap.arr.elements k el.zeroed h

      in_use : Perm (drop 1 (take (suc m) a.elements)) (e ∷ keys heap)
      in_use =
          let shown : take (suc m) a.elements ≡ contents heap.arr ++ e ∷ [] =
            ap (λ k. take k a.elements) (sym new_size) ∙ appended in
          subst (λ xs. Perm (drop 1 xs) (e ∷ keys heap)) (sym shown)
            (drop-snoc (contents heap.arr) e (omega (arith, old_size, g.temporary)))

      new-HeapButUp : HeapButUp heap.is_min m m a.elements
      new-HeapButUp = record {
        rest = λ j u w ne.
            rw (old_slot (j / 2) (omega arith), old_slot j (omega arith))
              (g.order j u (omega arith) (omega arith));
        skip = λ j u w d x. absurd (omega arith);
      }

      pushed-IsHeap :
          (out : List A)
          → Sifted heap.is_min 1 m a.elements out
          → KeyInserted realloc heap e (ok, record heap { arr = record a { elements = out } })
      pushed-IsHeap out r =
          pushed
            (record {
              valid = record {
                slots = omega (arith, v.slots, r.size);
                bound = v.bound;
                capped = v.capped;
              };
              temporary = omega (arith, new_size);
              plain = flags ∙ g.plain;
              order = λ j u w x. r.order j u (omega (arith, new_size)) x;
            })
            refl
            (subst (λ k. Perm (drop 1 (take k out)) (e ∷ keys heap)) (sym new_size)
              (Perm.trans r.perm in_use))

      sift_up-pushes :
          Ends
            (KeyInserted realloc heap e)
            (then_sift heap (λ b. sift_up heap.is_min b.elements (sub_size b.current 1)) (ok, a))
      unfolding sift_up
      sift_up-pushes =
          let last : sub_size a.current 1 ≡ m =
            sub_size-exact a.current 1 (omega (arith, new_size)) (omega (arith, new_size))
            ∙ omega (arith, new_size) in
          rw last (
            Ends-bind
              (sift_up_fuel-Sifted ord (suc m) heap.is_min m m a.elements (omega arith)
                (omega arith) (omega (arith, new_size, v.bound, v.slots)) new-HeapButUp)
              λ out r. ends (pushed-IsHeap out r))

    sift-Inserted :
        (realloc : Realloc A) (heap : Binheap A) (e : A)
        → IsHeap heap
        → heap.arr.current + 1 < 2 ^ 64
        → heap.arr.max_elts ≢ some heap.arr.current
        → (out : Status × Darray A) → Inserted realloc heap.arr e heap.arr.current out
        → Ends
            (KeyInserted realloc heap e)
            (then_sift heap (λ b. sift_up heap.is_min b.elements (sub_size b.current 1)) out)
    sift-Inserted realloc heap e g word below _ (placed {a' = a} v c flags) =
        sift_up-pushes realloc heap e g word a v c flags.sorts
    sift-Inserted realloc heap e g word below _ (full h) = absurd (below h)
    sift-Inserted realloc heap e g word below _ (fixed h k) = ends (fixed_block h k)
    sift-Inserted realloc heap e g word below _ (starved h k r) =
        ends (out_of_memory h k r refl refl)

    -- `binheap_insert` on a heap, by a comparison that is an order, with a `realloc` that keeps the
    -- old entries and fewer than 2 ^ 64 - 1 slots in use: it ends. Either the heap has the new element
    -- beside the old ones and is again in heap order; or its cap is reached (EINVAL), or its block is the caller's
    -- and is full (EAGAIN), and the heap is the same; or a full block of its own cannot grow (ENOMEM), and the heap has
    -- the same entries.
    pub insert_key-KeyInserted :
        (realloc : Realloc A)
        → IsRealloc realloc
        → (heap : Binheap A) (e : A) → IsHeap heap
        → heap.arr.current + 1 < 2 ^ 64
        → Ends (KeyInserted realloc heap e) (insert_key realloc heap e)
    unfolding insert_key
    insert_key-KeyInserted realloc law heap e g word =
        Ends-if (is_full heap) (λ q. ends (limited (is_full-limit heap word q)))
          (λ q.
            Ends-bind
              (insert-Inserted realloc law heap.arr e heap.arr.current g.valid (omega arith)
                g.plain)
              λ out i. sift-Inserted realloc heap e g word (not_full-below heap q) out i)
