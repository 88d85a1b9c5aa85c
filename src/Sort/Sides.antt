-- ===== src/Sort/Sides.antt =====
-- The two sides of a pivot, the right one sorted first, as `qsort_iter` does.
use rcsw.Base.{
  ℕ, ◌+◌, ◌-◌, ◌≤◌, ◌<◌, ◌≡◌, ap, ◌∙◌, inl, inr, List, arith, lt-or-le, Element, IsOrder, ◌≼◌,
  Rearranged-trans, Rearranged-widen,
}
use rcsw.Sort.Partition.{entry}
use rcsw.Sort.Parting.{Partitioned}
use rcsw.Sort.Qsort.{IsSortedOn, SortsOn}

module _ {ℓ} {A : Type ℓ} ⦃el : Element A⦄ where
  -- Both sides of the pivot sorted, the right one first.
  module _ (ord : IsOrder A) (lo hi q : ℕ) (arr arr1 arr2 arr3 : List A)
      (p : Partitioned arr lo hi (arr1, q)) (right : SortsOn (q + 1) hi arr1 arr2)
      (left : SortsOn lo (q - 1) arr2 arr3) where
    -- Up to the pivot the entries of `arr3` are entries of `arr1` there.
    from_left :
        (k : ℕ) → lo ≤ k → k ≤ q → (j : ℕ) × (lo ≤ j) × (j ≤ q) × (entry arr3 k ≡ entry arr1 j)
    from_left k a b = elim (lt-or-le (q - 1) k) [
      | inl c ↦ (k, a, b, left.0.behind k c ∙ right.0.before k (omega arith))
      | inr c ↦
          let (j, a', b', e) = left.0.inside k a c in
          (j, a', omega arith, e ∙ right.0.before j (omega arith))
    ]

    pivot_same : entry arr3 q ≡ entry arr1 q
    pivot_same = elim (lt-or-le (q - 1) q) [
      | inl c ↦ left.0.behind q c ∙ right.0.before q (omega arith)
      | inr c ↦
          let (j, a', b', e) = from_left q p.pivot_in.0 (omega arith) in
          e ∙ ap (entry arr1) {x = j} {y = q} (omega (arith, p.pivot_in.0))
    ]

    low_side : (k : ℕ) → lo ≤ k → k ≤ q → entry arr3 k ≼ entry arr3 q
    low_side k a b = let (j, a', b', e) = from_left k a b in rw (e, pivot_same) (p.low j a' b')

    high_side : (k : ℕ) → q < k → k ≤ hi → entry arr3 q ≼ entry arr3 k
    high_side k a b =
        let (j, a', b', e) = right.0.inside k (omega arith) b in
        rw (pivot_same, left.0.behind k (omega arith), e) (p.high j (omega arith) b')

    sides-IsSortedOn : IsSortedOn arr3 lo hi
    sides-IsSortedOn i j a b c = elim (lt-or-le j q) [
      | inl d ↦ left.1 i j a b (omega arith)
      | inr d ↦ elim (lt-or-le q i) [
        | inl e ↦
            rw (left.0.behind i (omega arith), left.0.behind j (omega arith))
              (right.1 i j (omega arith) b c)
        | inr e ↦ elim (lt-or-le q j) [
          | inl f ↦ ord.trans _ _ _ (low_side i a e) (high_side j f c)
          | inr f ↦ let same : j ≡ q = omega arith in rw same (low_side i a e)
        ]
      ]
    ]

    pub sides-SortsOn : SortsOn lo hi arr arr3
    sides-SortsOn = (
      Rearranged-trans el.zeroed p.kept (
          Rearranged-trans el.zeroed
            (Rearranged-widen el.zeroed (omega (arith, p.pivot_in.0)) (omega arith) right.0)
            (Rearranged-widen el.zeroed (omega arith) (omega (arith, p.pivot_in.1)) left.0)),
      sides-IsSortedOn,
    )
