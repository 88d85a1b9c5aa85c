-- ===== src/Binheap/Update.antt =====
-- Raising a key, `binheap_update_key`, and the state after `binheap_clear`.
use rcsw.Base.{
  perm-set, ℕ, zero, suc, ◌-◌, ◌/◌, ◌^◌, ◌≤◌, ◌<◌, ◌≡◌, refl, sym, ◌≢◌, inl, inr, Bool, false, List,
  [], ◌∷◌, Perm, arith, le→not-ltb, Nat-cases, test_false, store-done, Ends, ends, Ends-bind,
  Status, ok, Element, IsOrder, length, set, take, drop, length-set, length-take, get_or-set_ne,
  get_or-set_self, get_or-take,
}
use mathlib.Core.Path.{subst}
use mathlib.Core.List.Perm
use rcsw.Binheap.{Binheap, is_empty, size, clear, update_key, sift_up}
use rcsw.Binheap.Order.{slot, Above, HeapFrom, above_trans, take-set}
use rcsw.Binheap.Up.{HeapButUp, sift_up_fuel-Sifted}
use rcsw.Binheap.Insert.{IsHeap, keys}
use rcsw.Darray.{Darray, data_set, sub_size}
use rcsw.Darray as Array
use rcsw.Darray.Grow.{IsValid}

module _ {ℓ} {A : Type ℓ} ⦃el : Element A⦄ where
  -- A key is traded for another one.
  set-keys :
      (es : List A) (n i : ℕ) (v : A)
      → 1 ≤ i
      → i < n
      → n ≤ length es
      → Perm (slot es i ∷ drop 1 (take n (set es i v))) (v ∷ drop 1 (take n es))
  set-keys (x ∷ es) (suc n) (suc i) v a b h =
      subst (λ y. Perm (y ∷ take n (set es i v)) (v ∷ take n es))
        (get_or-take n es i el.zeroed (omega arith))
        (subst (λ ys. Perm (slot (take n es) i ∷ ys) (v ∷ take n es)) (sym (take-set es n i v))
          (perm-set el.zeroed (take n es) i v (omega (arith, length-take n es))))
  set-keys es n zero v a b h = absurd (omega arith)
  set-keys es zero (suc i) v a b h = absurd (omega arith)
  set-keys [] (suc n) (suc i) v a b h = absurd (omega arith)

  -- The heap after an update: `v` has taken the place of the key.
  pub record KeyUpdated (heap : Binheap A) (index : ℕ) (v : A) (out : Status × Binheap A)
      : Type ℓ where
    pub fine : out.0 ≡ ok
    pub heap_again : IsHeap out.1
    pub perm : Perm (slot heap.arr.elements index ∷ keys out.1) (v ∷ keys heap)

  module _ (ord : IsOrder A) where
    raised-HeapButUp :
        (is_min : Bool) (n i : ℕ) (es : List A) (v : A)
        → HeapFrom is_min 1 n es
        → 1 ≤ i
        → i ≤ n
        → n < length es
        → Above is_min v (slot es i)
        → HeapButUp is_min n i (set es i v)
    raised-HeapButUp is_min n i es v h a b long up =
        let here = get_or-set_self es i v el.zeroed (omega arith) in
        let there : (k : ℕ) → i ≢ k → slot (set es i v) k ≡ slot es k =
          λ k ne. get_or-set_ne es i k v el.zeroed ne in
        record {
          rest = λ j u w ne. elim (Nat-cases (j / 2) i) [
            | inl e ↦
                rw (e, here, there j (λ q. ne (sym q)))
                  (above_trans ord is_min _ _ _ up (rw e at (h j u w (omega arith))))
            | inr e ↦
                rw (there (j / 2) (λ q. e (sym q)), there j (λ q. ne (sym q)))
                  (h j u w (omega arith))
          ];
          skip = λ j u w e x.
              rw (there (i / 2) (omega arith), there j (omega arith))
                (above_trans ord is_min _ _ _ (h i x b (omega arith))
                  (rw e at (h j u w (omega arith))));
        }

    -- By a comparison that is an order, `binheap_update_key` of a key in the heap, with a new key that may stand above it: the status is
    -- OK, the new key takes the place of the old one among the keys, and the result is a heap.
    pub update_key-KeyUpdated :
        (heap : Binheap A) (index : ℕ) (v : A)
        → IsHeap heap
        → 1 ≤ index
        → index < heap.arr.current
        → Above heap.is_min v (slot heap.arr.elements index)
        → Ends (KeyUpdated heap index v) (update_key heap index v)
    unfolding update_key data_set sift_up
    update_key-KeyUpdated heap index v g a b up =
        let es = heap.arr.elements in
        let n = heap.arr.current - 1 in
        let n_size : suc n ≡ heap.arr.current = omega arith in
        let long : n < length es = omega (arith, g.valid.bound, g.valid.slots) in
        let size' = length-set es index v in
        rw (test_false index 0 (omega arith), store-done es index v (omega arith))
          (Ends-bind
            (sift_up_fuel-Sifted ord (suc index) heap.is_min n index (set es index v) (omega arith)
              (omega arith) (omega (arith, size'))
              (raised-HeapButUp heap.is_min n index es v g.order a (omega arith) long up))
            λ out r. ends (record {
              fine = refl;
              heap_again = record {
                valid = record {
                  slots = omega (arith, g.valid.slots, r.size, size');
                  bound = g.valid.bound;
                  capped = g.valid.capped;
                };
                temporary = g.temporary;
                plain = g.plain;
                order = r.order;
              };
              perm =
                  let moved =
                    subst (λ k. Perm (drop 1 (take k out)) (drop 1 (take k (set es index v))))
                      n_size r.perm in
                  Perm.trans (Perm.cons (slot es index) moved) (
                    set-keys es heap.arr.current index v a b
                      (omega (arith, g.valid.bound, g.valid.slots)));
            }))

  -- `binheap_clear` of a valid heap ends with OK and no element in use, not even the temporary slot:
  -- the heap does not count as empty, and its size wraps around.
  pub clear-wraps :
      (heap : Binheap A)
      → IsValid heap.arr
      → Ends
          (λ out.
            (out.0 ≡ ok)
            × (out.1.arr.current ≡ 0)
            × (is_empty out.1 ≡ false)
            × (size out.1 ≡ 2 ^ 64 - 1))
          (clear heap)
  unfolding clear is_empty size Array.clear Array.data_clear
  clear-wraps heap v =
      let fits =
        le→not-ltb (length heap.arr.elements) heap.arr.current (omega (arith, v.bound, v.slots)) in
      rw fits (ends (refl, refl, refl, refl))
