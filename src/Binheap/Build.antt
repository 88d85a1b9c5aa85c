-- ===== src/Binheap/Build.antt =====
-- The loop of `binheap_make` that turns any elements into a heap.
use rcsw.Base.{
  ℕ, zero, suc, ◌+◌, ◌/◌, ◌<◌, refl, ◌∙◌, inl, inr, Bool, List, arith, lt→ltb, le→not-ltb,
  Nat-cases, Ends, ends, Ends-bind, Ends-map, Element, IsOrder, length, take, drop,
}
use mathlib.Core.List.Perm
use rcsw.Binheap.{sift_loop, sift_down}
use rcsw.Binheap.Order.{Sifted, HeapFrom}
use rcsw.Binheap.Down.{HeapButDown, sift_down_fuel-Sifted}

module _ {ℓ} {A : Type ℓ} ⦃el : Element A⦄ (ord : IsOrder A) where
  sift_loop-Sifted :
      (is_min : Bool) (n : ℕ) (es : List A) (k : ℕ)
      → n < length es
      → HeapFrom is_min k n es
      → Ends (Sifted is_min 1 n es) (sift_loop is_min n es k)
  unfolding sift_loop sift_down
  sift_loop-Sifted is_min n es zero b h = ends (record {
    size = refl;
    perm = Perm.refl (drop 1 (take (suc n) es));
    order = λ j u w x. h j u w (omega arith);
  })
  sift_loop-Sifted is_min n es (suc k) b h = elim (Nat-cases k 0) [
    | inl e ↦ rw (le→not-ltb 1 (suc k) (omega arith)) (
        ends (record {
          size = refl;
          perm = Perm.refl (drop 1 (take (suc n) es));
          order = λ j u w x. h j u w (omega arith);
        }))
    | inr e ↦
        let but : HeapButDown is_min k n k es = record {
          rest = λ j u w x ne. h j u w (omega arith);
          skip = λ j u w x y z. absurd (omega arith);
        } in
        rw (lt→ltb 1 (suc k) (omega arith)) (
          Ends-bind
            (sift_down_fuel-Sifted ord (suc n) is_min k n k es (omega arith) (omega arith)
              (omega arith) (omega arith) b but)
            λ es' r.
              Ends-map (sift_loop-Sifted is_min n es' k (omega (arith, r.size)) r.order) λ out s.
                record { size = s.size ∙ r.size; perm = Perm.trans s.perm r.perm; order = s.order })
  ]

  -- With a comparison that is an order, the loop of `binheap_make` from the middle element down to the first, on a block with any `n`
  -- elements behind the temporary slot, ends with the same elements in heap order.
  pub sift_loop-heapifies :
      (is_min : Bool) (n : ℕ) (es : List A)
      → n < length es
      → Ends (Sifted is_min 1 n es) (sift_loop is_min n es (n / 2 + 1))
  sift_loop-heapifies is_min n es b =
      sift_loop-Sifted is_min n es (n / 2 + 1) b (λ j u w x. absurd (omega arith))
