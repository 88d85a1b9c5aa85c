-- ===== src/Binheap/Down.antt =====
-- `binheap_sift_down`: where the two stretches below a slot are heaps, the slot is made one.
use rcsw.Base.{
  ℕ, zero, suc, ◌+◌, ◌*◌, ◌/◌, ◌≤◌, ◌<◌, ◌≡◌, refl, sym, ap, ◌∙◌, ◌≢◌, ◌⊎◌, inl, inr, Bool, List,
  arith, ◌==◌, if◌then◌else◌, Bool-cases, lt-or-le, test_true, Nat-cases, le→leb, lt→not-leb,
  test_false, Exec, done, ◌>>=◌, load-done, Ends, ends, Ends-bind, Ends-map, Element, IsOrder,
  length, take, drop, Ends-assoc,
}
use mathlib.Core.Path.{subst}
use mathlib.Core.List.Perm
use rcsw.Binheap.{swap, is_better, pick, sift_down_fuel}
use rcsw.Binheap.Order.{
  slot, Above, Sifted, Swapped, swap-Swapped, above_trans, above_refl, above_of_better,
  above_of_not_better,
}

module _ {ℓ} {A : Type ℓ} ⦃el : Element A⦄ where
  -- From slot `k` on a heap but for the children of slot `m`, whose parent is above them.
  pub record HeapButDown (is_min : Bool) (k n m : ℕ) (es : List A) : Type 0 where
    pub rest :
        (j : ℕ) → 2 ≤ j → j ≤ n → k ≤ j / 2 → j / 2 ≢ m → Above is_min (slot es (j / 2)) (slot es j)
    pub skip :
        (j : ℕ)
        → 2 ≤ j
        → j ≤ n
        → j / 2 ≡ m
        → k ≤ m / 2
        → 2 ≤ m
        → Above is_min (slot es (m / 2)) (slot es j)

  -- What one `if` chooses: the child, if there is one, or the best so far, whichever is above.
  record Picked (is_min : Bool) (n : ℕ) (es : List A) (child best out : ℕ) : Type 0 where
    from : (out ≡ best) ⊎ ((out ≡ child) × (child ≤ n))
    over_best : Above is_min (slot es out) (slot es best)
    over_child : child ≤ n → Above is_min (slot es out) (slot es child)

  module _ (ord : IsOrder A) where
    pick-Picked :
        (is_min : Bool) (n : ℕ) (es : List A) (child best : ℕ)
        → n < length es
        → (child ≤ n → best < length es)
        → Ends (Picked is_min n es child best) (pick is_min n es child best)
    unfolding pick
    pick-Picked is_min n es child best b room = elim (lt-or-le n child) [
      | inl h ↦ rw (lt→not-leb child n h) (
          ends (record {
            from = inl refl;
            over_best = above_refl ord is_min (slot es best);
            over_child = λ g. absurd (omega arith);
          }))
      | inr h ↦
          rw
            (
              le→leb child n h,
              load-done es child el.zeroed (omega arith),
              load-done es best el.zeroed (room h),
            )
            (elim (Bool-cases (is_better is_min (slot es child) (slot es best))) [
              | inl q ↦ rw q (
                  ends (record {
                    from = inr (refl, h);
                    over_best = above_of_better ord is_min (slot es child) (slot es best) q;
                    over_child = λ g. above_refl ord is_min (slot es child);
                  }))
              | inr q ↦ rw q (
                  ends (record {
                    from = inl refl;
                    over_best = above_refl ord is_min (slot es best);
                    over_child =
                        λ g. above_of_not_better ord is_min (slot es child) (slot es best) q;
                  }))
            ])
    ]

    -- The choice among a slot and its children.
    record Chosen (is_min : Bool) (n m : ℕ) (es : List A) (best : ℕ) : Type 0 where
      from : (best ≡ m) ⊎ ((best / 2 ≡ m) × (best ≤ n))
      above : (j : ℕ) → j ≤ n → j / 2 ≡ m → Above is_min (slot es best) (slot es j)
      over : Above is_min (slot es best) (slot es m)

    pick-Chosen :
        (is_min : Bool) (n m : ℕ) (es : List A)
        → n < length es
        → 0 < m
        → Ends
            (Chosen is_min n m es)
            (pick is_min n es (2 * m) m >>= (λ left. pick is_min n es (2 * m + 1) left))
    pick-Chosen is_min n m es b pos =
        Ends-bind (pick-Picked is_min n es (2 * m) m b (λ h. omega arith)) λ left p.
          Ends-map
            (pick-Picked is_min n es (2 * m + 1) left b
              (λ h. elim p.from [ inl e ↦ omega arith | inr (e, g) ↦ omega arith ]))
            λ best q. record {
              from = elim q.from [
                | inl e ↦ elim p.from [
                  | inl g ↦ inl (e ∙ g)
                  | inr (g, u) ↦ inr (omega arith, omega arith)
                ]
                | inr (e, u) ↦ inr (omega arith, omega arith)
              ];
              above = λ j c e. elim (Nat-cases j (2 * m)) [
                | inl g ↦
                    rw g (above_trans ord is_min _ _ _ q.over_best (p.over_child (omega arith)))
                | inr g ↦
                    let last : j ≡ 2 * m + 1 = omega arith in rw last (q.over_child (omega arith))
              ];
              over = above_trans ord is_min _ _ _ q.over_best p.over_best;
            }

    -- One call moves the key to the chosen child's slot.
    module _ (is_min : Bool) (k n m c : ℕ) (es zs : List A) (pos : 0 < m) (from : k ≤ m)
        (child : c / 2 ≡ m) (high : c ≤ n) (h : HeapButDown is_min k n m es)
        (t : Chosen is_min n m es c) (s : Swapped es m c zs) where
      sunk-rest :
          (j : ℕ)
          → 2 ≤ j
          → j ≤ n
          → k ≤ j / 2
          → j / 2 ≢ c
          → Above is_min (slot zs (j / 2)) (slot zs j)
      sunk-rest j a b g ne = elim (Nat-cases (j / 2) m) [
        | inl e ↦ elim (Nat-cases j c) [
          | inl f ↦ rw (e, s.left, f, s.right) t.over
          | inr f ↦
              let same = s.other j (omega arith) (omega arith) (λ q. f (sym q)) in
              rw (e, s.left, same) (t.above j b e)
        ]
        | inr e ↦
            let parent = s.other (j / 2) (omega arith) (λ q. e (sym q)) (λ q. ne (sym q)) in
            elim (Nat-cases j m) [
              | inl f ↦
                  let down = h.skip c (omega arith) high child (omega arith) (omega arith) in
                  let top : j / 2 ≡ m / 2 = ap (λ x. x / 2) f in rw (parent, top, f, s.left) down
              | inr f ↦
                  let other : c ≢ j = λ q. e (ap (λ x. x / 2) (sym q) ∙ child) in
                  rw (parent, s.other j (omega arith) (λ q. f (sym q)) other) (h.rest j a b g e)
            ]
      ]

      sunk-skip : (j : ℕ) → 2 ≤ j → j ≤ n → j / 2 ≡ c → Above is_min (slot zs (c / 2)) (slot zs j)
      sunk-skip j a b e =
          let same = s.other j (omega arith) (omega arith) (omega arith) in
          let below = h.rest j a b (omega arith) (omega arith) in
          rw (child, s.left, same) (rw e at below)

    pub sift_down_fuel-Sifted :
        (fuel : ℕ) (is_min : Bool) (k n m : ℕ) (es : List A)
        → n < fuel + m
        → 0 < fuel
        → 0 < m
        → k ≤ m
        → n < length es
        → HeapButDown is_min k n m es
        → Ends (Sifted is_min k n es) (sift_down_fuel fuel is_min n es m)
    unfolding sift_down_fuel
    sift_down_fuel-Sifted zero is_min k n m es f some_fuel pos from b h = absurd (omega arith)
    sift_down_fuel-Sifted (suc fuel) is_min k n m es f some_fuel pos from b h =
        Ends-assoc (pick is_min n es (2 * m) m) (pick is_min n es (2 * m + 1)) after (
          Ends-bind (pick-Chosen is_min n m es b pos) λ c t. elim (Nat-cases c m) [
            | inl e ↦ rw (test_true c m e) (ends (settled c t e))
            | inr e ↦
                let (child, high) = chosen-child c t e in
                rw (test_false c m e) (
                  Ends-bind
                    (swap-Swapped es m c pos (omega arith) (omega arith) (omega arith)
                      (omega arith))
                    λ zs s.
                      Ends-map
                        (sift_down_fuel-Sifted fuel is_min k n c zs (omega arith) (omega arith)
                          (omega arith) (omega arith) (omega (arith, s.size))
                          (record {
                            rest = sunk-rest is_min k n m c es zs pos from child high h t s;
                            skip = λ j u v w _ _.
                                sunk-skip is_min k n m c es zs pos from child high h t s j u v w;
                          }))
                        λ out r. record {
                          size = r.size ∙ s.size;
                          perm = Perm.trans r.perm (s.perm n (omega arith) high b);
                          order = r.order;
                        })
          ])
      where
        after : ℕ → Exec (List A)
        after best =
            if best == m
            then done es
            else (do es' ← swap es m best; sift_down_fuel fuel is_min n es' best)

        settled : (c : ℕ) → Chosen is_min n m es c → c ≡ m → Sifted is_min k n es es
        settled c t e = record {
          size = refl;
          perm = Perm.refl (drop 1 (take (suc n) es));
          order = λ j u v w. elim (Nat-cases (j / 2) m) [
            | inl g ↦
                let top : c ≡ j / 2 = e ∙ sym g in
                subst (λ x. Above is_min (slot es x) (slot es j)) top (t.above j v g)
            | inr g ↦ h.rest j u v w g
          ];
        }

        chosen-child : (c : ℕ) → Chosen is_min n m es c → c ≢ m → (c / 2 ≡ m) × (c ≤ n)
        chosen-child c t e = elim t.from [ inl g ↦ absurd (e g) | inr g ↦ g ]
