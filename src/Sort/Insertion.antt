-- ===== src/Sort/Insertion.antt =====
-- `insertion_sort` sorts the array.
use mathlib.Core.Path.{subst}
use mathlib.Core.List.Perm
use rcsw.Base.{
  ℕ, zero, suc, ◌+◌, ◌-◌, ◌≤◌, ◌<◌, ◌≡◌, refl, ap, ap₂, ◌∙◌, ◌≢◌, inl, inr, List, Perm, arith,
  lt-or-le, store-done, Ends, ends, Ends-bind, Ends-map, Ends-if, Element, cmp_gt, IsOrder, ◌≼◌,
  length, set, length-set, get_or-set_ne, set-set, set_self, exchange-perm, get_or-set_self,
  ≼_of_not-cmp_gt, ≼_refl, ≼_of_cmp_gt,
}
use rcsw.Sort.{shift, insertion_loop, insertion_sort}
use rcsw.Sort.Partition.{entry, load-entry}
use rcsw.Sort.Qsort.{IsSortedOn}

module _ {ℓ} {A : Type ℓ} ⦃el : Element A⦄ where
  -- What the inner loop leaves, started below place `p`: the place `q` for the key, and the entries
  -- from there on moved up by one.
  record Shifted (arr : List A) (key : A) (p : ℕ) (out : List A × ℕ) : Type ℓ where
    size : length out.0 ≡ length arr
    place : out.1 ≤ p
    perm : Perm (set out.0 out.1 key) (set arr p key)
    before : (k : ℕ) → k < out.1 → entry out.0 k ≡ entry arr k
    moved : (k : ℕ) → out.1 ≤ k → k < p → entry out.0 (k + 1) ≡ entry arr k
    behind : (k : ℕ) → p < k → entry out.0 k ≡ entry arr k
    above : (k : ℕ) → out.1 ≤ k → k < p → key ≼ entry arr k
    stop : (k : ℕ) → k + 1 ≡ out.1 → entry arr k ≼ key

  -- Moving the hole down by one exchanges the key with the entry that moves up.
  hole-perm :
      (arr : List A) (key : A) (j : ℕ)
      → suc j < length arr
      → Perm (set (set arr (suc j) (entry arr j)) j key) (set arr (suc j) key)
  hole-perm arr key j h =
      let ys = set arr (suc j) key in
      let low : entry ys j ≡ entry arr j =
        get_or-set_ne arr (suc j) j key el.zeroed (omega arith) in
      let top : entry ys (suc j) ≡ key = get_or-set_self arr (suc j) key el.zeroed h in
      let size = length-set arr (suc j) key in
      let traded : set (set ys (suc j) (entry ys j)) j (entry ys (suc j))
          ≡ set (set arr (suc j) (entry arr j)) j key =
        ap₂ (λ x y. set (set ys (suc j) x) j y) low top
        ∙ ap (λ zs. set zs j key) (set-set arr (suc j) key (entry arr j)) in
      subst (λ zs. Perm zs ys) traded
        (exchange-perm el.zeroed ys (suc j) j (omega arith) (omega arith))

  module _ (ord : IsOrder A) where
    shift-Shifted :
        (arr : List A) (key : A) (p : ℕ)
        → p < length arr
        → Ends (Shifted arr key p) (shift arr key p)
    unfolding shift
    shift-Shifted arr key zero h = ends (record {
      size = refl;
      place = omega arith;
      perm = Perm.refl (set arr 0 key);
      before = λ k a. refl;
      moved = λ k a b. absurd (omega arith);
      behind = λ k a. refl;
      above = λ k a b. absurd (omega arith);
      stop = λ k a. absurd (omega arith);
    })
    shift-Shifted arr key (suc j) h =
        let arr1 = set arr (suc j) (entry arr j) in
        let up : (k : ℕ) → suc j ≢ k → entry arr1 k ≡ entry arr k =
          λ k ne. get_or-set_ne arr (suc j) k (entry arr j) el.zeroed ne in
        rw (load-entry arr j (omega arith)) (
          Ends-if (cmp_gt (entry arr j) key)
            (λ q. rw (store-done arr (suc j) (entry arr j) h) (
              Ends-map
                (shift-Shifted arr1 key j (omega (arith, length-set arr (suc j) (entry arr j))))
                λ (out, m) s. record {
                  size = s.size ∙ length-set arr (suc j) (entry arr j);
                  place = omega (arith, s.place);
                  perm = Perm.trans s.perm (hole-perm arr key j h);
                  before = λ k a. s.before k a ∙ up k (omega (arith, s.place));
                  moved = λ k a b. elim (lt-or-le k j) [
                    | inl c ↦ s.moved k a c ∙ up k (omega arith)
                    | inr c ↦
                        s.behind (k + 1) (omega arith)
                        ∙ ap (entry arr1) {x = k + 1} {y = suc j} (omega arith)
                        ∙ get_or-set_self arr (suc j) (entry arr j) el.zeroed h
                        ∙ ap (entry arr) {x = j} {y = k} (omega arith)
                  ];
                  behind = λ k a. s.behind k (omega arith) ∙ up k (omega arith);
                  above = λ k a b. elim (lt-or-le k j) [
                    | inl c ↦ rw (← up k (omega arith)) (s.above k a c)
                    | inr c ↦
                        let same : j ≡ k = omega arith in
                        subst (λ m. key ≼ entry arr m) same (≼_of_cmp_gt ord (entry arr j) key q)
                  ];
                  stop = λ k a. rw (← up k (omega (arith, s.place))) (s.stop k a);
                }))
            (λ q. ends (record {
              size = refl;
              place = omega arith;
              perm = Perm.refl (set arr (suc j) key);
              before = λ k a. refl;
              moved = λ k a b. absurd (omega arith);
              behind = λ k a. refl;
              above = λ k a b. absurd (omega arith);
              stop = λ k a.
                  let same : j ≡ k = omega arith in
                  subst (λ m. entry arr m ≼ key) same (≼_of_not-cmp_gt (entry arr j) key q);
            })))

    module _ (arr : List A) (p q : ℕ) (out : List A) (h : p < length arr)
        (sorted : IsSortedOn arr 0 (p - 1)) (s : Shifted arr (entry arr p) p (out, q)) where
      -- The array after the key is written, by place.
      abbrev written : List A
      written = set out q (entry arr p)

      at_before : (k : ℕ) → k < q → entry written k ≡ entry arr k
      at_before k a = get_or-set_ne out q k (entry arr p) el.zeroed (omega arith) ∙ s.before k a

      at_place : entry written q ≡ entry arr p
      at_place = get_or-set_self out q (entry arr p) el.zeroed (omega (arith, s.size, s.place))

      at_moved : (k : ℕ) → q < k → k ≤ p → entry written k ≡ entry arr (k - 1)
      at_moved k a b =
          get_or-set_ne out q k (entry arr p) el.zeroed (omega arith)
          ∙ ap (entry out) {x = k} {y = k - 1 + 1} (omega arith)
          ∙ s.moved (k - 1) (omega arith) (omega arith)

      below_key : (k : ℕ) → k < q → entry arr k ≼ entry arr p
      below_key k a =
          ord.trans _ _ _ (sorted k (q - 1) (omega arith) (omega arith) (omega (arith, s.place)))
            (s.stop (q - 1) (omega arith))

      from_key : (k : ℕ) → q ≤ k → k ≤ p → entry arr p ≼ entry written k
      from_key k a b = elim (lt-or-le q k) [
        | inl c ↦ rw (at_moved k c b) (s.above (k - 1) (omega arith) (omega arith))
        | inr c ↦ let same : k ≡ q = omega arith in rw (same, at_place) (≼_refl ord (entry arr p))
      ]

      -- One round of the outer loop: the prefix in order grows by one.
      round-IsSortedOn : IsSortedOn written 0 p
      round-IsSortedOn i j a b c = elim (lt-or-le i q) [
        | inl d ↦ rw (at_before i d) (elim (lt-or-le j q) [
          | inl e ↦ rw (at_before j e) (sorted i j a b (omega (arith, s.place)))
          | inr e ↦ ord.trans _ _ _ (below_key i d) (from_key j e c)
        ])
        | inr d ↦ elim (lt-or-le q i) [
          | inl e ↦
              rw (at_moved i e (omega arith), at_moved j (omega arith) c)
                (sorted (i - 1) (j - 1) (omega arith) (omega arith) (omega arith))
          | inr e ↦
              let same : i ≡ q = omega arith in rw (same, at_place) (from_key j (omega arith) c)
        ]
      ]

    insertion_loop-sorts :
        (left : ℕ) (arr : List A) (i : ℕ)
        → 0 < i
        → i + left ≡ length arr
        → IsSortedOn arr 0 (i - 1)
        → Ends (λ out. Perm out arr × IsSortedOn out 0 (length arr - 1)) (insertion_loop left arr i)
    unfolding insertion_loop
    insertion_loop-sorts zero arr i pos e sorted =
        ends (Perm.refl arr, λ k m a b c. sorted k m a b (omega arith))
    insertion_loop-sorts (suc left) arr i pos e sorted =
        let key = entry arr i in
        rw (load-entry arr i (omega arith)) (
          Ends-bind (shift-Shifted arr key i (omega arith)) λ (arr', p) s.
            let size = length-set arr' p key in
            rw (store-done arr' p key (omega (arith, s.size, s.place))) (
              Ends-map
                (insertion_loop-sorts left (set arr' p key) (i + 1) (omega arith)
                  (omega (arith, s.size))
                  (λ k m a b c.
                    round-IsSortedOn arr i p arr' (omega arith) sorted s k m a b (omega arith)))
                λ out (perm, order). (
                  Perm.trans perm
                      (subst (λ zs. Perm (set arr' p key) zs) (set_self arr i el.zeroed) s.perm),
                  λ k m a b c. order k m a b (omega (arith, s.size)),
                )))

    -- With a comparison that is an order, `insertion_sort` over a whole, non-empty array ends without a fault, with the same elements in
    -- order.
    pub insertion_sort-sorts :
        (arr : List A)
        → 0 < length arr
        → Ends
            (λ out. Perm out arr × IsSortedOn out 0 (length arr - 1))
            (insertion_sort arr (length arr))
    unfolding insertion_sort
    insertion_sort-sorts arr h =
        insertion_loop-sorts (length arr - 1) arr 1 (omega arith) (omega arith) (λ i j a b c.
          let same : i ≡ j = omega arith in
          subst (λ m. entry arr i ≼ entry arr m) same (≼_refl ord (entry arr i)))
