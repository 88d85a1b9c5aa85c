-- ===== src/Sort/Qsort.antt =====
-- `qsort_rec` sorts the stretch that it is given and moves nothing else.
use mathlib.Core.Path.{subst}
use rcsw.Base.{
  ℕ, zero, suc, ◌+◌, ◌-◌, ◌≤◌, ◌<◌, ◌≡◌, ap, ◌∙◌, ◌⊎◌, inl, inr, List, arith, lt-or-le, lt→ltb,
  le→not-ltb, Ends, ends, Ends-bind, Ends-map, Element, IsOrder, ◌≼◌, length, Rearranged,
  Rearranged-refl, Rearranged-trans, Rearranged-widen, ≼_refl,
}
use rcsw.Sort.{qsort_rec_fuel, qsort_rec}
use rcsw.Sort.Partition.{entry}
use rcsw.Sort.Parting.{Partitioned, partition-Partitioned}

module _ {ℓ} {A : Type ℓ} ⦃el : Element A⦄ where
  abbrev pub IsSortedOn : List A → (lo hi : ℕ) → Type 0
  IsSortedOn arr lo hi = (i j : ℕ) → lo ≤ i → i ≤ j → j ≤ hi → entry arr i ≼ entry arr j

  -- The same elements, moved only in the stretch, which has come to be in order.
  abbrev pub SortsOn : (lo hi : ℕ) → List A → List A → Type ℓ
  SortsOn lo hi arr out = Rearranged el.zeroed lo hi arr out × IsSortedOn out lo hi

  module _ (ord : IsOrder A) (lo hi q : ℕ) (arr arr1 arr2 arr3 : List A)
      (p : Partitioned arr lo hi (arr1, q)) (left : SortsOn lo (q - 1) arr1 arr2)
      (right : SortsOn (q + 1) hi arr2 arr3) where
    -- Once both sides are sorted, what stands up to the pivot is still at most the pivot.
    below : (k : ℕ) → lo ≤ k → k ≤ q → entry arr3 k ≼ entry arr1 q
    below k a b = rw (right.0.before k (omega arith)) (elim (lt-or-le (q - 1) k) [
      | inl c ↦ rw (left.0.behind k c) (p.low k a b)
      | inr c ↦ let (j, a', b', e) = left.0.inside k a c in rw e (p.low j a' (omega arith))
    ])

    pivot_kept : entry arr3 q ≡ entry arr1 q
    pivot_kept = right.0.before q (omega arith) ∙ elim (lt-or-le (q - 1) q) [
      | inl c ↦ left.0.behind q c
      | inr c ↦
          let (j, a', b', e) = left.0.inside q p.pivot_in.0 c in
          e ∙ ap (entry arr1) {x = j} {y = q} (omega (arith, p.pivot_in.0))
    ]

    above : (k : ℕ) → q < k → k ≤ hi → entry arr1 q ≼ entry arr3 k
    above k a b =
        let (j, a', b', e) = right.0.inside k (omega arith) b in
        rw (e, left.0.behind j (omega arith)) (p.high j (omega arith) b')

    pub join-IsSortedOn : IsSortedOn arr3 lo hi
    join-IsSortedOn i j a b c = elim (lt-or-le q i) [
      | inl d ↦ right.1 i j (omega arith) b c
      | inr d ↦ elim (lt-or-le j q) [
        | inl e ↦
            rw (right.0.before i (omega arith), right.0.before j (omega arith))
              (left.1 i j a b (omega arith))
        | inr e ↦ elim (lt-or-le q j) [
          | inl f ↦ ord.trans _ _ _ (below i a d) (above j f c)
          | inr f ↦ let same : j ≡ q = omega arith in rw (same, pivot_kept) (below i a d)
        ]
      ]
    ]

    join-SortsOn : SortsOn lo hi arr arr3
    join-SortsOn = (
      Rearranged-trans el.zeroed p.kept (
          Rearranged-trans el.zeroed
            (Rearranged-widen el.zeroed (omega arith) (omega (arith, p.pivot_in.1)) left.0)
            (Rearranged-widen el.zeroed (omega (arith, p.pivot_in.0)) (omega arith) right.0)),
      join-IsSortedOn,
    )

  module _ (ord : IsOrder A) where
    pub short-SortsOn : (arr : List A) (lo hi : ℕ) → hi ≤ lo → SortsOn lo hi arr arr
    short-SortsOn arr lo hi h = (
      Rearranged-refl el.zeroed lo hi arr,
      λ i j a b c.
          let same : i ≡ j = omega arith in
          subst (λ m. entry arr i ≼ entry arr m) same (≼_refl ord (entry arr i)),
    )

    qsort_rec_fuel-SortsOn :
        (fuel : ℕ) (arr : List A) (lo hi : ℕ)
        → hi < length arr ⊎ (hi ≤ lo)
        → hi - lo < fuel
        → Ends (SortsOn lo hi arr) (qsort_rec_fuel fuel arr lo hi)
    unfolding qsort_rec_fuel
    qsort_rec_fuel-SortsOn zero arr lo hi h f = absurd (omega arith)
    qsort_rec_fuel-SortsOn (suc fuel) arr lo hi h f = elim (lt-or-le lo hi) [
      | inl c ↦
          let inside : hi < length arr = omega arith in
          rw (lt→ltb lo hi c) (
            Ends-bind (partition-Partitioned ord arr lo hi (omega arith) inside) λ (arr1, q) p.
              Ends-bind
                (qsort_rec_fuel-SortsOn fuel arr1 lo (q - 1)
                  (inl (omega (arith, p.kept.size, p.pivot_in.1))) (omega (arith, p.pivot_in.1)))
                λ arr2 left.
                  Ends-map
                    (qsort_rec_fuel-SortsOn fuel arr2 (q + 1) hi
                      (inl (omega (arith, left.0.size, p.kept.size))) (omega (arith, p.pivot_in.0)))
                    λ arr3 right. join-SortsOn ord lo hi q arr arr1 arr2 arr3 p left right)
      | inr c ↦ rw (le→not-ltb lo hi c) (ends (short-SortsOn arr lo hi c))
    ]

    -- With a comparison that is an order and `hi` inside the array, `qsort_rec` ends without a
    -- fault; the stretch from `lo` to `hi` is then in order, and holds
    -- the elements that it held, with all others in their places.
    pub qsort_rec-SortsOn :
        (arr : List A) (lo hi : ℕ)
        → hi < length arr
        → Ends (SortsOn lo hi arr) (qsort_rec arr lo hi)
    unfolding qsort_rec
    qsort_rec-SortsOn arr lo hi h =
        qsort_rec_fuel-SortsOn (suc (suc hi)) arr lo hi (inl h) (omega arith)
