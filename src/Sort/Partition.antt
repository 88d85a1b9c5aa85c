-- ===== src/Sort/Partition.antt =====
-- `partition`: the scans stop inside the stretch, and the pivot parts it.
use mathlib.Core.Path.{subst}
use rcsw.Base.{
  not-cmp_gt_self, Ends-if_and, ℕ, zero, suc, ◌+◌, ◌-◌, ◌≤◌, ◌<◌, ◌≡◌, ap, ◌∙◌, inl, inr, true,
  false, List, arith, ltb, lt-or-le, done, load, load-done, store-done, Ends, ends, Ends-map,
  Element, cmp_le, cmp_gt, IsOrder, ◌≼◌, length, get_or, set, length-set, exchange, ≼_of_cmp_le,
  ≼_of_not-cmp_gt, ≼_of_cmp_gt,
}
use rcsw.Sort.{swap_at, scan_left, scan_right}

module _ {ℓ} {A : Type ℓ} ⦃el : Element A⦄ where
  abbrev pub entry : List A → ℕ → A
  entry arr k = get_or arr k el.zeroed

  pub load-entry : (arr : List A) (k : ℕ) → k < length arr → load arr k ≡ done (entry arr k)
  load-entry arr k h = load-done arr k el.zeroed h

  pub swap_at-exchange :
      (arr : List A) (i j : ℕ)
      → i < length arr
      → j < length arr
      → swap_at arr i j ≡ done (exchange el.zeroed arr i j)
  unfolding swap_at
  swap_at-exchange arr i j hi hj = rw (
    load-entry arr i hi,
    load-entry arr j hj,
    store-done arr i (entry arr j) hi,
    store-done (set arr i (entry arr j)) j (entry arr i)
        (omega (arith, length-set arr i (entry arr j))),
  )

  -- Where the left scan stops, started at `left`: all before are at most the pivot, and the entry
  -- there is not below the pivot, unless it is the last one.
  pub record LeftStop (arr : List A) (hi : ℕ) (pivot : A) (left l : ℕ) : Type 0 where
    pub from : left ≤ l
    pub to : l ≤ hi
    pub passed : (k : ℕ) → left ≤ k → k < l → entry arr k ≼ pivot
    pub stopped : l < hi → cmp_le (entry arr l) pivot ≡ false

  -- Where the right scan stops, started at `right`.
  pub record RightStop (arr : List A) (lo : ℕ) (pivot : A) (right r : ℕ) : Type 0 where
    pub from : lo ≤ r
    pub to : r ≤ right
    pub passed : (k : ℕ) → r < k → k ≤ right → pivot ≼ entry arr k
    pub stopped : entry arr r ≼ pivot

  module _ (ord : IsOrder A) (arr : List A) (lo hi : ℕ) (pivot : A) (at_lo : entry arr lo ≡ pivot)
      (lo_le : lo ≤ hi) (hi_in : hi < length arr) where
    pub scan_left-LeftStop :
        (fuel left : ℕ)
        → left ≤ hi
        → hi - left < fuel
        → Ends (LeftStop arr hi pivot left) (scan_left fuel arr lo hi left)
    unfolding scan_left
    scan_left-LeftStop zero left h f = absurd (omega arith)
    scan_left-LeftStop (suc fuel) left h f =
        rw (load-entry arr left (omega arith), load-entry arr lo (omega arith), at_lo)
          (Ends-if_and (cmp_le (entry arr left) pivot) (ltb left hi)
            (λ q t.
              Ends-map (scan_left-LeftStop fuel (left + 1) (ground arith) (ground arith)) λ l s.
                record {
                  from = omega (arith, s.from);
                  to = s.to;
                  passed = λ k a b. elim (lt-or-le left k) [
                    | inl c ↦ s.passed k (omega arith) b
                    | inr c ↦
                        let same : left ≡ k = omega arith in
                        subst (λ m. entry arr m ≼ pivot) same (≼_of_cmp_le (entry arr left) pivot q)
                  ];
                  stopped = s.stopped;
                })
            (λ q. ends (record {
              from = omega arith;
              to = h;
              passed = λ k a b. absurd (omega arith);
              stopped = λ _. q;
            }))
            (λ q t. ends (record {
              from = omega arith;
              to = h;
              passed = λ k a b. absurd (omega arith);
              stopped = λ c. absurd (ground arith);
            })))

    -- An entry above the pivot does not stand at its place.
    not_at_pivot : (k : ℕ) → lo ≤ k → cmp_gt (entry arr k) pivot ≡ true → lo < k
    not_at_pivot k h q = elim (lt-or-le lo k) [
      | inl c ↦ c
      | inr c ↦
          let same : k ≡ lo = omega arith in
          let here : entry arr k ≡ pivot = ap (entry arr) same ∙ at_lo in
          absurd (not-cmp_gt_self ord pivot (subst (λ x. cmp_gt x pivot ≡ true) here q))
    ]

    pub scan_right-RightStop :
        (fuel right : ℕ)
        → lo ≤ right
        → right ≤ hi
        → right < fuel
        → Ends (RightStop arr lo pivot right) (scan_right fuel arr lo right)
    unfolding scan_right
    scan_right-RightStop zero right h h' f = absurd (omega arith)
    scan_right-RightStop (suc fuel) right h h' f =
        rw (load-entry arr right (omega arith), load-entry arr lo (omega arith), at_lo)
          (Ends-if_and (cmp_gt (entry arr right) pivot) (ltb 0 right)
            (λ q t.
              let above = not_at_pivot right h q in
              Ends-map
                (scan_right-RightStop fuel (right - 1) (omega arith) (omega arith) (omega arith))
                λ r s. record {
                  from = s.from;
                  to = omega (arith, s.to);
                  passed = λ k a b. elim (lt-or-le k right) [
                    | inl c ↦ s.passed k a (omega arith)
                    | inr c ↦
                        let same : right ≡ k = omega arith in
                        subst (λ m. pivot ≼ entry arr m) same
                          (≼_of_cmp_gt ord (entry arr right) pivot q)
                  ];
                  stopped = s.stopped;
                })
            (λ q. ends (record {
              from = h;
              to = omega arith;
              passed = λ k a b. absurd (omega arith);
              stopped = ≼_of_not-cmp_gt (entry arr right) pivot q;
            }))
            (λ q t. let above = not_at_pivot right h q in absurd (ground arith)))
