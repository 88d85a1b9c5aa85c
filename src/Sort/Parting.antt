-- ===== src/Sort/Parting.antt =====
-- The loop of `partition`: what holds between its rounds, and what it leaves.
use mathlib.Core.Path.{subst}
use rcsw.Base.{
  true-ne-false, cmp_le_of_≼, get_or-exchange_other, get_or-exchange_right, le→not-ltb, lt→ltb,
  get_or-exchange_left, ℕ, zero, suc, ◌-◌, ◌≤◌, ◌<◌, ◌≡◌, refl, sym, ◌∙◌, inl, inr, List, arith,
  lt-or-le, Ends, ends, Ends-bind, Ends-map, Element, IsOrder, ◌≼◌, length, exchange,
  length-exchange, Rearranged, Rearranged-refl, Rearranged-trans, Rearranged-widen,
  exchange-Rearranged, ≼_refl,
}
use rcsw.Sort.{partition_round, partition_loop, partition}
use rcsw.Sort.Partition.{
  entry, swap_at-exchange, LeftStop, RightStop, scan_left-LeftStop, scan_right-RightStop,
}

module _ {ℓ} {A : Type ℓ} ⦃el : Element A⦄ (lo hi : ℕ) (pivot : A) where
  -- The state between two rounds: the pivot is still in its place, what lies up to both pointers is
  -- at most the pivot, and what lies behind the right one is at least the pivot.
  pub record Parting (arr : List A) (left right : ℕ) : Type ℓ where
    pub at_lo : entry arr lo ≡ pivot
    pub hi_in : hi < length arr
    pub left_in : (lo ≤ left) × (left ≤ hi)
    pub right_in : (lo ≤ right) × (right ≤ hi)
    pub low : (k : ℕ) → lo ≤ k → k ≤ left → k ≤ right → entry arr k ≼ pivot
    pub high : (k : ℕ) → right < k → k ≤ hi → pivot ≼ entry arr k

  -- A round that starts with the pointers apart moves the left one, and keeps the state.
  record Round (arr : List A) (left right : ℕ) (out : List A × ℕ × ℕ) : Type ℓ where
    kept : Rearranged el.zeroed lo hi arr out.0
    parting : Parting out.0 out.1 out.2
    moved : left < out.1

  module _ (arr : List A) (left right l r : ℕ) (v : Parting arr left right) (apart : left < right)
      (sl : LeftStop arr hi pivot left l) (sr : RightStop arr lo pivot right r) where
    -- Up to the place where the left scan stopped.
    low_to_l : (k : ℕ) → lo ≤ k → k < l → entry arr k ≼ pivot
    low_to_l k a b = elim (lt-or-le left k) [
      | inl c ↦ sl.passed k (omega arith) b
      | inr c ↦ v.low k a c (omega arith)
    ]

    high_from_r : (k : ℕ) → r < k → k ≤ hi → pivot ≼ entry arr k
    high_from_r k a b = elim (lt-or-le right k) [ inl c ↦ v.high k c b | inr c ↦ sr.passed k a c ]

    crossed : r ≤ l → left < l → Round arr left right (arr, l, r)
    crossed c m = record {
      kept = Rearranged-refl el.zeroed lo hi arr;
      parting = record {
        at_lo = v.at_lo;
        hi_in = v.hi_in;
        left_in = (omega (arith, v.left_in.0), sl.to);
        right_in = (sr.from, omega (arith, sr.to, v.right_in.1));
        low = λ k a b b'. elim (lt-or-le k l) [
          | inl d ↦ low_to_l k a d
          | inr d ↦
              let same : r ≡ k = omega arith in subst (λ m. entry arr m ≼ pivot) same sr.stopped
        ];
        high = high_from_r;
      };
      moved = m;
    }

    uncrossed : l < r → left < l → Round arr left right (exchange el.zeroed arr l r, l, r)
    uncrossed c m =
        let l_lo : lo ≤ l = omega (arith, v.left_in.0) in
        let r_hi : r ≤ hi = omega (arith, sr.to, v.right_in.1) in
        let l_in : l < length arr = omega (arith, v.hi_in) in
        let r_in : r < length arr = omega (arith, v.hi_in) in
        let new_l = get_or-exchange_left el.zeroed arr l r l_in r_in (omega arith) in
        let new_r = get_or-exchange_right el.zeroed arr l r l_in r_in in
        let other = get_or-exchange_other el.zeroed arr l r l_in r_in in
        record {
          kept = exchange-Rearranged el.zeroed lo hi l r arr l_lo sl.to sr.from r_hi v.hi_in;
          parting = record {
            at_lo = other lo (omega (arith, v.left_in.0)) (omega (arith, v.left_in.0)) ∙ v.at_lo;
            hi_in = omega (arith, v.hi_in, length-exchange el.zeroed arr l r);
            left_in = (l_lo, sl.to);
            right_in = (sr.from, r_hi);
            low = λ k a b b'. elim (lt-or-le k l) [
              | inl d ↦ rw (other k (omega arith) (omega arith)) (low_to_l k a d)
              | inr d ↦
                  let same : l ≡ k = omega arith in
                  subst (λ m. entry (exchange el.zeroed arr l r) m ≼ pivot) same
                    (rw new_l sr.stopped)
            ];
            high = λ k a b. rw (other k (omega arith) (omega arith)) (high_from_r k a b);
          };
          moved = m;
        }

  -- The left scan passes the entry that it starts at.
  has_moved :
      (arr : List A) (left right l : ℕ)
      → Parting arr left right
      → left < right
      → LeftStop arr hi pivot left l
      → left < l
  has_moved arr left right l v apart sl = elim (lt-or-le left l) [
    | inl c ↦ c
    | inr c ↦
        let same : l ≡ left = omega (arith, sl.from) in
        let stop = sl.stopped (omega (arith, v.right_in.1)) in
        let le =
          cmp_le_of_≼ (entry arr l) pivot
            (rw same (v.low left v.left_in.0 (omega arith) (omega arith))) in
        absurd (true-ne-false (sym le ∙ stop))
  ]

  module _ (ord : IsOrder A) (lo_le : lo ≤ hi) where
    -- A round ends, without a read or a write outside the array.
    partition_round-Round :
        (arr : List A) (left right : ℕ)
        → Parting arr left right
        → left < right
        → Ends (Round arr left right) (partition_round arr lo hi left right)
    unfolding partition_round
    partition_round-Round arr left right v apart =
        Ends-bind
          (scan_left-LeftStop ord arr lo hi pivot v.at_lo lo_le v.hi_in (suc hi) left v.left_in.1
            (omega arith))
          λ l sl.
            Ends-bind
              (scan_right-RightStop ord arr lo hi pivot v.at_lo lo_le v.hi_in (suc hi) right
                v.right_in.0 v.right_in.1 (omega (arith, v.right_in.1)))
              λ r sr.
                let moved : left < l = has_moved arr left right l v apart sl in
                elim (lt-or-le l r) [
                  | inl c ↦
                      rw
                        (
                          lt→ltb l r c,
                          swap_at-exchange arr l r (omega (arith, v.hi_in, sl.to))
                              (omega (arith, v.hi_in, sl.to)),
                        )
                        (ends (uncrossed arr left right l r v apart sl sr c moved))
                  | inr c ↦
                      rw (le→not-ltb l r c)
                        (ends (crossed arr left right l r v apart sl sr c moved))
                ]

    -- The loop ends with the pointers crossed.
    record Parted (arr : List A) (out : List A × ℕ) : Type ℓ where
      kept : Rearranged el.zeroed lo hi arr out.0
      at_lo : entry out.0 lo ≡ pivot
      right_in : (lo ≤ out.1) × (out.1 ≤ hi)
      low : (k : ℕ) → lo ≤ k → k ≤ out.1 → entry out.0 k ≼ pivot
      high : (k : ℕ) → out.1 < k → k ≤ hi → pivot ≼ entry out.0 k

    partition_loop-Parted :
        (fuel : ℕ) (arr : List A) (left right : ℕ)
        → Parting arr left right
        → hi - left < fuel
        → Ends (Parted arr) (partition_loop fuel arr lo hi left right)
    unfolding partition_loop
    partition_loop-Parted zero arr left right v f = absurd (omega arith)
    partition_loop-Parted (suc fuel) arr left right v f = elim (lt-or-le left right) [
      | inl c ↦ rw (lt→ltb left right c) (
          Ends-bind (partition_round-Round arr left right v c) λ out s.
            Ends-map
              (partition_loop-Parted fuel out.0 out.1 out.2 s.parting
                (omega (arith, s.moved, v.right_in.1)))
              λ out' t. record {
                kept = Rearranged-trans el.zeroed s.kept t.kept;
                at_lo = t.at_lo;
                right_in = t.right_in;
                low = t.low;
                high = t.high;
              })
      | inr c ↦ rw (le→not-ltb left right c) (
          ends (record {
            kept = Rearranged-refl el.zeroed lo hi arr;
            at_lo = v.at_lo;
            right_in = v.right_in;
            low = λ k a b. v.low k a (omega arith) b;
            high = v.high;
          }))
    ]

-- What `partition` leaves: the pivot stands at the index that it returns, nothing before it in the
-- stretch is greater, nothing behind it is smaller, and the elements have only moved in the stretch.
module _ {ℓ} {A : Type ℓ} ⦃el : Element A⦄ where
  pub record Partitioned (arr : List A) (lo hi : ℕ) (out : List A × ℕ) : Type ℓ where
    pub kept : Rearranged el.zeroed lo hi arr out.0
    pub pivot_in : (lo ≤ out.1) × (out.1 ≤ hi)
    pub low : (k : ℕ) → lo ≤ k → k ≤ out.1 → entry out.0 k ≼ entry out.0 out.1
    pub high : (k : ℕ) → out.1 < k → k ≤ hi → entry out.0 out.1 ≼ entry out.0 k

  -- With a comparison that is an order, `partition` ends without a fault on a stretch inside the
  -- array, and partitions it: up to the index that it returns no entry is greater than the entry
  -- there, behind it none is less, and entries have moved only inside the stretch.
  pub partition-Partitioned :
      (ord : IsOrder A) (arr : List A) (lo hi : ℕ)
      → lo ≤ hi
      → hi < length arr
      → Ends (Partitioned arr lo hi) (partition arr lo hi)
  unfolding partition
  partition-Partitioned ord arr lo hi h h' =
      Ends-bind
        (partition_loop-Parted lo hi (entry arr lo) ord h (suc (suc hi)) arr lo hi start
          (omega arith))
        λ (arr', q) t.
          let hi_in : hi < length arr' = omega (arith, t.kept.size) in
          let ex =
            exchange-Rearranged el.zeroed lo q lo q arr' (omega arith) t.right_in.0 t.right_in.0
              (omega arith) (omega (arith, t.right_in.1)) in
          let mid : entry (exchange el.zeroed arr' lo q) q ≡ entry arr lo =
            get_or-exchange_right el.zeroed arr' lo q (omega arith) (omega (arith, t.right_in.1))
            ∙ t.at_lo in
          rw (swap_at-exchange arr' lo q (omega arith) (omega (arith, t.right_in.1))) (
            ends (record {
              kept =
                  Rearranged-trans el.zeroed t.kept
                    (Rearranged-widen el.zeroed (omega arith) t.right_in.1 ex);
              pivot_in = t.right_in;
              low = λ k a b. let (j, a', b', e) = ex.inside k a b in rw (e, mid) (t.low j a' b');
              high = λ k a b. rw (ex.behind k a, mid) (t.high k a b);
            }))
    where
      start : Parting lo hi (entry arr lo) arr lo hi
      start = record {
        at_lo = refl;
        hi_in = h';
        left_in = (omega arith, h);
        right_in = (h, omega arith);
        low = λ k a b b'.
            let same : lo ≡ k = omega arith in
            subst (λ m. entry arr m ≼ entry arr lo) same (≼_refl ord (entry arr lo));
        high = λ k a b. absurd (omega arith);
      }
