-- ===== src/Binheap/Up.antt =====
-- `binheap_sift_up`: a heap with one key out of place becomes a heap.
use rcsw.Base.{
  ℕ, zero, suc, ◌/◌, ◌≤◌, ◌<◌, ◌≡◌, refl, sym, ◌∙◌, ◌≢◌, inl, inr, Bool, List, arith, lt-or-le,
  Nat-cases, test_true, test_false, done, load-done, Ends, ends, Ends-bind, Ends-map, Ends-if,
  Element, IsOrder, length, take, drop,
}
use mathlib.Core.List.Perm
use rcsw.Binheap.{swap, is_worse, sift_up_fuel}
use rcsw.Binheap.Order.{
  slot, Above, Sifted, Swapped, swap-Swapped, above_trans, above_of_worse, above_of_not_worse,
}

module _ {ℓ} {A : Type ℓ} ⦃el : Element A⦄ where
  -- A heap but for slot `i`, whose parent is above its children.
  pub record HeapButUp (is_min : Bool) (n i : ℕ) (es : List A) : Type 0 where
    pub rest : (j : ℕ) → 2 ≤ j → j ≤ n → j ≢ i → Above is_min (slot es (j / 2)) (slot es j)
    pub skip :
        (j : ℕ) → 2 ≤ j → j ≤ n → j / 2 ≡ i → 2 ≤ i → Above is_min (slot es (i / 2)) (slot es j)

  module _ (ord : IsOrder A) where
    -- One round of the loop moves the key to the parent's slot.
    module _ (is_min : Bool) (n i : ℕ) (es zs : List A) (low : 2 ≤ i) (high : i ≤ n)
        (h : HeapButUp is_min n i es) (s : Swapped es i (i / 2) zs)
        (up : Above is_min (slot es i) (slot es (i / 2))) where
      climbed-rest :
          (j : ℕ) → 2 ≤ j → j ≤ n → j ≢ i / 2 → Above is_min (slot zs (j / 2)) (slot zs j)
      climbed-rest j a b ne = elim (Nat-cases j i) [
        | inl e ↦ rw (e, s.left, s.right) up
        | inr e ↦
            let same = s.other j (omega arith) (λ q. e (sym q)) (λ q. ne (sym q)) in
            elim (Nat-cases (j / 2) (i / 2)) [
              | inl f ↦
                  let below = h.rest j a b e in
                  rw (f, same, s.right)
                    (above_trans ord is_min (slot es i) (slot es (i / 2)) (slot es j) up
                      (rw f at below))
              | inr f ↦ elim (Nat-cases (j / 2) i) [
                | inl g ↦ rw (g, same, s.left) (h.skip j a b g low)
                | inr g ↦
                    let parent = s.other (j / 2) (omega arith) (λ q. g (sym q)) (λ q. f (sym q)) in
                    rw (parent, same) (h.rest j a b e)
              ]
            ]
      ]

      climbed-skip :
          (j : ℕ)
          → 2 ≤ j
          → j ≤ n
          → j / 2 ≡ i / 2
          → 2 ≤ i / 2
          → Above is_min (slot zs (i / 2 / 2)) (slot zs j)
      climbed-skip j a b e c =
          let grand = s.other (i / 2 / 2) (omega arith) (omega arith) (omega arith) in
          let parent = h.rest (i / 2) c (omega arith) (omega arith) in
          elim (Nat-cases j i) [
            | inl f ↦ rw (f, grand, s.left) parent
            | inr f ↦
                let same = s.other j (omega arith) (λ q. f (sym q)) (omega arith) in
                let below = h.rest j a b f in
                rw (grand, same) (above_trans ord is_min _ _ _ parent (rw e at below))
          ]

    -- The key is in place, or it has no parent.
    in-place :
        (is_min : Bool) (n i : ℕ) (es : List A)
        → HeapButUp is_min n i es
        → ((j : ℕ) → 2 ≤ j → j ≡ i → Above is_min (slot es (j / 2)) (slot es j))
        → Sifted is_min 1 n es es
    in-place is_min n i es h last = record {
      size = refl;
      perm = Perm.refl (drop 1 (take (suc n) es));
      order = λ j c d _. elim (Nat-cases j i) [ inl g ↦ last j c g | inr g ↦ h.rest j c d g ];
    }

    swap-root : (es : List A) (i : ℕ) → 0 < i → i < 2 → swap es i (i / 2) ≡ done es
    unfolding swap
    swap-root es i a b = rw (test_false i 0 (omega arith), test_true (i / 2) 0 (omega arith)) refl

    pub sift_up_fuel-Sifted :
        (fuel : ℕ) (is_min : Bool) (n i : ℕ) (es : List A)
        → i < fuel
        → i ≤ n
        → n < length es
        → HeapButUp is_min n i es
        → Ends (Sifted is_min 1 n es) (sift_up_fuel fuel is_min es i)
    unfolding sift_up_fuel
    sift_up_fuel-Sifted zero is_min n i es f a b h = absurd (omega arith)
    sift_up_fuel-Sifted (suc fuel) is_min n i es f a b h = elim (Nat-cases i 0) [
      | inl e ↦
          rw (test_true i 0 e) (ends (in-place is_min n i es h (λ j c q. absurd (omega arith))))
      | inr e ↦
          rw
            (
              test_false i 0 e,
              load-done es (i / 2) el.zeroed (omega arith),
              load-done es i el.zeroed (omega arith),
            )
            (Ends-if (is_worse is_min (slot es (i / 2)) (slot es i))
              (λ q.
                let better = above_of_worse ord is_min (slot es (i / 2)) (slot es i) q in
                elim (lt-or-le i 2) [
                  | inl c ↦ rw (swap-root es i (omega arith) c) (
                      sift_up_fuel-Sifted fuel is_min n (i / 2) es (omega arith) (omega arith) b
                        (record {
                          rest = λ j u v w. h.rest j u v (omega arith);
                          skip = λ j u v w y. absurd (omega arith);
                        }))
                  | inr c ↦
                      Ends-bind
                        (swap-Swapped es i (i / 2) (omega arith) (omega arith) (omega arith)
                          (omega arith) (omega arith))
                        λ zs s.
                          Ends-map
                            (sift_up_fuel-Sifted fuel is_min n (i / 2) zs (omega arith)
                              (omega arith) (omega (arith, s.size))
                              (record {
                                rest = climbed-rest is_min n i es zs c a h s better;
                                skip = climbed-skip is_min n i es zs c a h s better;
                              }))
                            λ out t. record {
                              size = t.size ∙ s.size;
                              perm = Perm.trans t.perm (s.perm n a (omega arith) b);
                              order = t.order;
                            }
                ])
              (λ q. ends (
                in-place is_min n i es h (λ j c g.
                  let fine = above_of_not_worse ord is_min (slot es (i / 2)) (slot es i) q in
                  rw g fine))))
    ]
