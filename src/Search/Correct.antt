-- ===== src/Search/Correct.antt =====
-- Both binary searches decide whether a sorted stretch holds a match.
use rcsw.Base.{
  flip_sign, Ordering, ℕ, zero, suc, ◌+◌, ◌-◌, ◌/◌, ◌≤◌, ◌<◌, ◌≡◌, sym, ◌∙◌, ◌≢◌, inl, inr, true,
  false, Option, none, some, List, arith, ◌==◌, Bool-cases, lt-or-le, lt→ltb, le→not-ltb, Ends,
  ends, Ends-map, Ends-if, Element, cmp_lt, cmp_eq, IsOrder, ◌≼◌, length, ≼_of_cmp_eq, ◌*◌, ◌^◌,
  refl, done,
}
use native.Mathlib.Nat.{mul-le-mul_right}
use rcsw.Search.{
  int_half, int_offset, bsearch_iter_loop, bsearch_iter, bsearch_rec_fuel, bsearch_rec,
}
use rcsw.Sort.Partition.{entry, load-entry}

product-below : (m n k : ℕ) → m < n → n * k < 2 ^ 31 → m * k < 2 ^ 31
product-below m n k a h = omega (arith, mul-le-mul_right {m = m} {n = n} k (omega arith))

int_half-exact : (a b : ℕ) → a + b < 2 ^ 31 → int_half a b ≡ done ((a + b) / 2)
unfolding int_half
int_half-exact a b h = rw (lt→ltb (a + b) (2 ^ 31) h) refl

int_offset-exact : (index k : ℕ) → index * k < 2 ^ 31 → int_offset index k ≡ done index
unfolding int_offset
int_offset-exact index k h = rw (lt→ltb (index * k) (2 ^ 31) h) refl

module _ {ℓ} {A : Type ℓ} ⦃el : Element A⦄ where
  -- The entries from `low` up to `stop` are in order.
  abbrev pub IsSortedTo : List A → (low stop : ℕ) → Type 0
  IsSortedTo arr low stop = (i j : ℕ) → low ≤ i → i ≤ j → j < stop → entry arr i ≼ entry arr j

  -- An index of a match, or the fact that there is none.
  pub data Decides (arr : List A) (e : A) (low stop : ℕ) : Option ℕ → Type 0 where
    found :
        (i : ℕ)
        → low ≤ i
        → i < stop
        → cmp_eq e (entry arr i) ≡ true
        → Decides arr e low stop (some i)
    absent :
        ((k : ℕ) → low ≤ k → k < stop → cmp_eq e (entry arr k) ≡ false)
        → Decides arr e low stop none

  module _ (ord : IsOrder A) (arr : List A) (e : A) where
    cmp_eq-flip : (x : A) → cmp_eq x e ≡ cmp_eq e x
    cmp_eq-flip x = flipped (el.cmpe x e) (el.cmpe e x) (ord.flip x e)
      where
        flipped :
            (o o' : Ordering)
            → o' ≡ flip_sign o
            → (elim o [ Ordering.eq ↦ true | _ ↦ false ])
              ≡ elim o' [ Ordering.eq ↦ true | _ ↦ false ]
        flipped o o' h = ground arith

    -- What matches an element lies on both sides of it.
    match-below : (x : A) → cmp_eq e x ≡ true → x ≼ e
    match-below x h = ≼_of_cmp_eq x e (cmp_eq-flip x ∙ h)

    not-lt-of-≼ : (x : A) → x ≼ e → ¬ (cmp_lt e x ≡ true)
    not-lt-of-≼ x h t = above (el.cmpe e x) t (el.cmpe x e) (ord.flip e x) h
      where
        above :
            (o : Ordering)
            → elim o [ Ordering.lt ↦ true | _ ↦ false ] ≡ true
            → (o' : Ordering) → o' ≡ flip_sign o
            → o' ≢ Ordering.gt
            → ⊥
        above o t o' h n = ground arith

    -- In the right half of an entry that is greater there is no match, nor in the left half of one
    -- that is smaller.
    none-right :
        (low stop m k : ℕ)
        → IsSortedTo arr low stop
        → low ≤ m
        → cmp_lt e (entry arr m) ≡ true
        → m ≤ k
        → k < stop
        → cmp_eq e (entry arr k) ≡ false
    none-right low stop m k sorted a t b c = elim (Bool-cases (cmp_eq e (entry arr k))) [
      | inr n ↦ n
      | inl q ↦ absurd (
          not-lt-of-≼ (entry arr m)
            (ord.trans _ _ _ (sorted m k a b c) (match-below (entry arr k) q)) t)
    ]

    none-left :
        (low stop m k : ℕ)
        → IsSortedTo arr low stop
        → m < stop
        → cmp_eq e (entry arr m) ≡ false
        → cmp_lt e (entry arr m) ≡ false
        → low ≤ k
        → k ≤ m
        → cmp_eq e (entry arr k) ≡ false
    none-left low stop m k sorted a n t b c = elim (Bool-cases (cmp_eq e (entry arr k))) [
      | inr n' ↦ n'
      | inl q ↦ absurd (
          greater (el.cmpe e (entry arr m)) n t
            (ord.trans _ _ _ (≼_of_cmp_eq e (entry arr k) q) (sorted k m b c a)))
    ]
      where
        greater :
            (o : Ordering)
            → elim o [ Ordering.eq ↦ true | _ ↦ false ] ≡ false
            → elim o [ Ordering.lt ↦ true | _ ↦ false ] ≡ false
            → o ≢ Ordering.gt
            → ⊥
        greater o n t h = ground arith

    -- The answer for a half is the answer for the whole.
    in-left :
        (low stop m : ℕ) {r : Option ℕ}
        → IsSortedTo arr low stop
        → low ≤ m
        → m < stop
        → cmp_lt e (entry arr m) ≡ true
        → Decides arr e low m r
        → Decides arr e low stop r
    in-left low stop m sorted a b t (found i c d q) = found i c (omega arith) q
    in-left low stop m sorted a b t (absent n) = absent λ k c d. elim (lt-or-le k m) [
      | inl f ↦ n k c f
      | inr f ↦ none-right low stop m k sorted a t f d
    ]

    in-right :
        (low stop m : ℕ) {r : Option ℕ}
        → IsSortedTo arr low stop
        → low ≤ m
        → m < stop
        → cmp_eq e (entry arr m) ≡ false
        → cmp_lt e (entry arr m) ≡ false
        → Decides arr e (m + 1) stop r
        → Decides arr e low stop r
    in-right low stop m sorted a b n t (found i c d q) = found i (omega arith) d q
    in-right low stop m sorted a b n t (absent n') = absent λ k c d. elim (lt-or-le m k) [
      | inl f ↦ n' k (omega arith) d
      | inr f ↦ none-left low stop m k sorted b n t c f
    ]

    module _ (elt_size : ℕ) where
      bsearch_iter_loop-Decides :
          (fuel low stop : ℕ)
          → IsSortedTo arr low stop
          → stop ≤ length arr
          → stop ≤ 2 ^ 30
          → stop * elt_size < 2 ^ 31
          → stop - low < fuel
          → Ends (Decides arr e low stop) (bsearch_iter_loop fuel arr e elt_size low stop)
      unfolding bsearch_iter_loop
      bsearch_iter_loop-Decides zero low stop sorted h s o f = absurd (omega arith)
      bsearch_iter_loop-Decides (suc fuel) low stop sorted h s o f = elim (lt-or-le low stop) [
        | inr c ↦ rw (le→not-ltb low stop c) (ends (absent λ k a b. absurd (omega arith)))
        | inl c ↦
            let m = (low + (stop - 1)) / 2 in
            let lo_m : low ≤ m = omega arith in
            let m_st : m < stop = omega arith in
            rw
              (
                lt→ltb low stop c,
                int_half-exact low (stop - 1) (omega arith),
                int_offset-exact m elt_size (product-below m stop elt_size m_st o),
                load-entry arr m (omega arith),
              )
              (Ends-if (cmp_eq (entry arr m) e)
                (λ q. ends (found m lo_m m_st (sym (cmp_eq-flip (entry arr m)) ∙ q)))
                (λ q.
                  Ends-if (cmp_lt e (entry arr m))
                    (λ t.
                      Ends-map
                        (bsearch_iter_loop-Decides fuel low m
                          (λ i j a b d. sorted i j a b (omega arith)) (omega arith) (omega arith)
                          (product-below m stop elt_size m_st o) (omega arith))
                        (λ r d. in-left low stop m sorted lo_m m_st t d))
                    (λ t.
                      Ends-map
                        (bsearch_iter_loop-Decides fuel (m + 1) stop
                          (λ i j a b d. sorted i j (omega arith) b d) h s o (omega arith))
                        (λ r d.
                          in-right low stop m sorted lo_m m_st (sym (cmp_eq-flip (entry arr m)) ∙ q)
                            t d))))
      ]

      -- With a comparison that is an order, `bsearch_iter` on a sorted stretch inside the array that stops
      -- within the first 2 ^ 30 elements and the first 2 ^ 31 - 1 bytes ends without a fault, also of its
      -- `int` arithmetic, and decides whether the stretch holds a match: an index of one, or -1 if
      -- there is none.
      pub bsearch_iter-Decides :
          (low stop : ℕ)
          → IsSortedTo arr low stop
          → stop ≤ length arr
          → stop ≤ 2 ^ 30
          → stop * elt_size < 2 ^ 31
          → Ends (Decides arr e low stop) (bsearch_iter arr e elt_size low stop)
      unfolding bsearch_iter
      bsearch_iter-Decides low stop sorted h s o =
          bsearch_iter_loop-Decides (suc stop) low stop sorted h s o (omega arith)

      bsearch_rec_fuel-Decides :
          (fuel low stop : ℕ)
          → IsSortedTo arr low stop
          → stop ≤ length arr
          → stop ≤ 2 ^ 30
          → stop * elt_size < 2 ^ 31
          → stop - low < fuel
          → Ends (Decides arr e low stop) (bsearch_rec_fuel fuel arr e elt_size low stop)
      unfolding bsearch_rec_fuel
      bsearch_rec_fuel-Decides zero low stop sorted h s o f = absurd (omega arith)
      bsearch_rec_fuel-Decides (suc fuel) low stop sorted h s o f = elim (lt-or-le low stop) [
        | inr c ↦ rw (le→not-ltb low stop c) (ends (absent λ k a b. absurd (omega arith)))
        | inl c ↦
            let m = (stop - 1 + low) / 2 in
            let lo_m : low ≤ m = omega arith in
            let m_st : m < stop = omega arith in
            rw
              (
                lt→ltb low stop c,
                int_half-exact (stop - 1) low (omega arith),
                int_offset-exact m elt_size (product-below m stop elt_size m_st o),
                load-entry arr m (omega arith),
              )
              (Ends-if (cmp_eq e (entry arr m)) (λ q. ends (found m lo_m m_st q))
                (λ q.
                  Ends-if (cmp_lt e (entry arr m))
                    (λ t.
                      Ends-if (low == m)
                        (λ u. ends (
                          in-left low stop m sorted lo_m m_st t
                            (absent λ k a b. absurd (ground arith))))
                        (λ u.
                          Ends-map
                            (bsearch_rec_fuel-Decides fuel low m
                              (λ i j a b d. sorted i j a b (omega arith)) (omega arith)
                              (omega arith) (product-below m stop elt_size m_st o) (omega arith))
                            (λ r d. in-left low stop m sorted lo_m m_st t d)))
                    (λ t.
                      Ends-if ((stop - 1) == m)
                        (λ u. ends (
                          in-right low stop m sorted lo_m m_st q t
                            (absent λ k a b. absurd (ground arith))))
                        (λ u.
                          Ends-map
                            (bsearch_rec_fuel-Decides fuel (m + 1) stop
                              (λ i j a b d. sorted i j (omega arith) b d) h s o (omega arith))
                            (λ r d. in-right low stop m sorted lo_m m_st q t d)))))
      ]

      -- With a comparison that is an order, `bsearch_rec` on a sorted stretch inside the array that stops
      -- within the first 2 ^ 30 elements and the first 2 ^ 31 - 1 bytes ends without a fault, also of its
      -- `int` arithmetic, and decides whether the stretch holds a match: an index of one, or -1 if
      -- there is none.
      pub bsearch_rec-Decides :
          (low stop : ℕ)
          → IsSortedTo arr low stop
          → stop ≤ length arr
          → stop ≤ 2 ^ 30
          → stop * elt_size < 2 ^ 31
          → Ends (Decides arr e low stop) (bsearch_rec arr e elt_size low stop)
      unfolding bsearch_rec
      bsearch_rec-Decides low stop sorted h s o =
          bsearch_rec_fuel-Decides (suc stop) low stop sorted h s o (omega arith)
