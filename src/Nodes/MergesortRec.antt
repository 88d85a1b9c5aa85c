-- ===== src/Nodes/MergesortRec.antt =====
-- The recursion of the mergesort.
use rcsw.Base.{
  ℕ, zero, suc, ◌+◌, ◌/◌, ◌≤◌, ◌<◌, ◌≡◌, refl, sym, ap, ◌∙◌, inl, inr, true, false, Option, none,
  some, List, [], ◌∷◌, ◌++◌, arith, ◌>>=◌, Ends, ends, Ends-bind, Ends-map, Element, IsOrder,
  length, length-append,
}
use mathlib.Core.Path.{subst}
use rcsw.Nodes.{Heap, set_next, merge_loop, mergesort_fuel, mergesort_rec}
use rcsw.Nodes.Chain.{
  Cell, has, has-append, head_or, last_or, last_or-append, head_or-append, Distinct, Distinct-split,
  Distinct-middle, snoc-cases,
}
use rcsw.Nodes.Relink.{load_node-done}
use rcsw.Nodes.Nexts.{Nexts, Chain-Nexts, frame-Nexts, Nexts-split, Nexts-cut}
use rcsw.Nodes.Merged.{merge, Sorts, Sorts-merge}
use rcsw.Nodes.Merge.{Merging, Apart-sym}
use rcsw.Nodes.MergeLoop.{merge_loop-MergedOf}
use rcsw.Nodes.Mergesort.{
  Halves, SortedAt, Sorts-nil, Sorts-refl, find_half-Halves, halves, head_or-snoc,
}

module _ {ℓ} {A : Type ℓ} ⦃el : Element A⦄ where
  module _ (ord : IsOrder A) (depth size : ℕ) where
    -- What the recursive calls do.
    abbrev Sorter : Type ℓ
    Sorter =
        (h : Heap A) (xs : List (Cell A))
        → length xs < depth
        → length xs < size
        → Nexts h xs none
        → Distinct xs
        → Ends (SortedAt h xs) (mergesort_fuel depth size h (head_or xs none) true)

    -- The two halves are sorted and merged.
    halves-SortedAt :
        Sorter
        → (h : Heap A) (us rs : List (Cell A)) → 1 ≤ length us
        → length us ≤ length rs
        → length us + length rs ≤ depth
        → length us + length rs < size
        → Nexts h us none
        → Nexts h rs none
        → Distinct (us ++ rs)
        → Ends (SortedAt h (us ++ rs)) (
            mergesort_fuel depth size h (head_or us none) true >>= (λ (h2, left').
              mergesort_fuel depth size h2 (head_or rs none) true
              >>= (λ (h3, right'). merge_loop size h3 left' right' none none true)))
    halves-SortedAt sorter h us rs p q f g ku kr d =
        let (du, dr, apart) = Distinct-split us rs d in
        Ends-bind (sorter h us (omega arith) (omega arith) ku du) (λ (h2, left') s.
          Ends-bind
            (sorter h2 rs (omega arith) (omega arith)
              (frame-Nexts h h2 rs none kr (λ a e. s.outside a (Apart-sym us rs apart a e))) dr)
            (λ (h3, right') t.
              let merging : Merging h3 [] s.cells t.cells = record {
                stale = head_or s.cells none;
                leads = inl refl;
                chain = tt;
                left =
                    frame-Nexts h2 h3 s.cells none s.nexts
                      (λ a e. t.outside a (apart a (sym (s.sorts.same_nodes a) ∙ e)));
                right = t.nexts;
                d_out = tt;
                d_left = s.sorts.distinct du;
                d_right = t.sorts.distinct dr;
                out_left = λ a e. cc;
                out_right = λ a e. cc;
                sides = λ a e. t.sorts.same_nodes a ∙ apart a (sym (s.sorts.same_nodes a) ∙ e);
              } in
              rw (s.top, t.top)
                (Ends-map
                  (merge_loop-MergedOf size h3 [] s.cells t.cells
                    (omega (arith, s.sorts.count, t.sorts.count)) merging)
                  (λ z (e, k, same). record {
                    cells = merge s.cells t.cells;
                    sorts = Sorts-merge ord us rs s.cells t.cells d apart s.sorts t.sorts;
                    top = e;
                    nexts = Chain-Nexts z.0 none (merge s.cells t.cells) none k;
                    chain = λ _. k;
                    outside = λ a o.
                        let o1 : has a us ≡ false = ground (arith, has-append a us rs, o) in
                        let o2 : has a rs ≡ false = ground (arith, has-append a us rs, o) in
                        same a refl (s.sorts.same_nodes a ∙ o1) (t.sorts.same_nodes a ∙ o2)
                        ∙ t.outside a o2
                        ∙ s.outside a o1;
                  }))))

    mergesort-split :
        Sorter
        → (h : Heap A) (c c2 : Cell A) (xs : List (Cell A)) → length (c ∷ c2 ∷ xs) < suc depth
        → length (c ∷ c2 ∷ xs) < size
        → Nexts h (c ∷ c2 ∷ xs) none
        → Distinct (c ∷ c2 ∷ xs)
        → Ends (SortedAt h (c ∷ c2 ∷ xs)) (mergesort_fuel (suc depth) size h (some c.at) true)
    unfolding mergesort_fuel
    mergesort-split sorter h c c2 xs f g k d = rw (load_node-done h c.at _ k.0.1) (
        Ends-bind
          (find_half-Halves size h [] (c ∷ c2 ∷ xs) (c ∷ c2 ∷ xs) (some c.at) g (omega arith) k k)
          cut)
      where
        -- The first half ends in `w`.
        cut_at :
            (ws : List (Cell A)) (w : Cell A) (rs : List (Cell A))
            → c ∷ c2 ∷ xs ≡ (ws ++ w ∷ []) ++ rs
            → length (ws ++ w ∷ []) ≤ length rs
            → Ends (SortedAt h (c ∷ c2 ∷ xs)) (
                set_next h (some w.at) none >>= (λ h1.
                  mergesort_fuel depth size h1 (some c.at) true >>= (λ (h2, left').
                    mergesort_fuel depth size h2 (head_or rs none) true
                    >>= (λ (h3, right'). merge_loop size h3 left' right' none none true))))
        cut_at ws w rs e q =
            let us = ws ++ w ∷ [] in
            let d' : Distinct (us ++ rs) = subst Distinct e d in
            let k' : Nexts h (us ++ rs) none = subst (λ zs. Nexts h zs none) e k in
            let (du, dr, apart) = Distinct-split us rs d' in
            let (ku, kr) = Nexts-split h us rs none k' in
            let n : length us + length rs ≡ length (c ∷ c2 ∷ xs) =
              omega (arith, length-append us rs, ap length e) in
            let top : head_or us none ≡ some c.at =
              head_or-snoc ws w none (head_or rs none)
              ∙ sym (head_or-append us rs none)
              ∙ ap (λ zs. head_or zs none) (sym e) in
            Ends-bind (Nexts-cut h ws w (head_or rs none) none ku (Distinct-middle ws w [] du).0)
              (λ h1 (k1, same).
                subst
                  (λ p. Ends (SortedAt h (c ∷ c2 ∷ xs)) (
                    mergesort_fuel depth size h1 p true >>= (λ (h2, left').
                      mergesort_fuel depth size h2 (head_or rs none) true
                      >>= (λ (h3, right'). merge_loop size h3 left' right' none none true))))
                  top
                  (Ends-map
                    (halves-SortedAt sorter h1 us rs (omega (arith, length-append ws (w ∷ []))) q
                      (omega (arith, n, f)) (omega (arith, n, g)) k1
                      (frame-Nexts h h1 rs none kr (λ a i.
                        same a
                          (ground (arith, has-append a ws (w ∷ []), Apart-sym us rs apart a i))))
                      d')
                    (λ z s. record {
                      cells = s.cells;
                      sorts = subst (λ zs. Sorts zs s.cells) (sym e) s.sorts;
                      top = s.top;
                      nexts = s.nexts;
                      chain = λ _. s.chain (omega (arith, n, length-append us rs));
                      outside = λ a o.
                          let o' : has a (us ++ rs) ≡ false = subst (λ zs. has a zs ≡ false) e o in
                          s.outside a o'
                          ∙ same a
                              (ground (arith, has-append a us rs, has-append a ws (w ∷ []), o'));
                    })))

        cut :
            (z : Option ℕ × Option ℕ)
            → Halves (c ∷ c2 ∷ xs) (some c.at) (0 + length (c ∷ c2 ∷ xs) / 2) z
            → Ends (SortedAt h (c ∷ c2 ∷ xs)) (
                set_next h z.0 none >>= (λ h1.
                  mergesort_fuel depth size h1 (some c.at) true >>= (λ (h2, left').
                    mergesort_fuel depth size h2 z.1 true
                    >>= (λ (h3, right'). merge_loop size h3 left' right' none none true))))
        cut z (halves us rs e p q) = elim (snoc-cases us) [
          | inl s ↦ absurd (omega (arith, p, ap length s))
          | inr (ws, w, s) ↦
              subst
                (λ o. Ends (SortedAt h (c ∷ c2 ∷ xs)) (
                  set_next h o none >>= (λ h1.
                    mergesort_fuel depth size h1 (some c.at) true >>= (λ (h2, left').
                      mergesort_fuel depth size h2 (head_or rs none) true
                      >>= (λ (h3, right'). merge_loop size h3 left' right' none none true)))))
                (sym (ap (λ vs. last_or vs (some c.at)) s ∙ last_or-append ws (w ∷ []) (some c.at)))
                (cut_at ws w rs (e ∙ ap (λ vs. vs ++ rs) s)
                  (subst (λ vs. length vs ≤ length rs) s q))
        ]

  mergesort_fuel-SortedAt : (ord : IsOrder A) (depth size : ℕ) → Sorter ord depth size
  unfolding mergesort_fuel
  mergesort_fuel-SortedAt ord zero size h xs f g k d = absurd (omega arith)
  mergesort_fuel-SortedAt ord (suc depth) size h [] f g k d = ends (record {
    cells = [];
    sorts = Sorts-nil;
    top = refl;
    nexts = tt;
    chain = λ q. tt;
    outside = λ a o. refl;
  })
  mergesort_fuel-SortedAt ord (suc depth) size h (c ∷ []) f g k d =
      rw (load_node-done h c.at _ k.0.1) (
        ends (record {
          cells = c ∷ [];
          sorts = Sorts-refl c;
          top = refl;
          nexts = k;
          chain = λ q. absurd (omega arith);
          outside = λ a o. refl;
        }))
  mergesort_fuel-SortedAt ord (suc depth) size h (c ∷ c2 ∷ xs) f g k d =
      mergesort-split ord depth size (mergesort_fuel-SortedAt ord depth size) h c c2 xs f g k d

  -- `mergesort_rec` of a list of distinct nodes, linked forward, ends well with enough rounds for
  -- its nodes: the same nodes, in ascending order of their elements, linked forward from the result
  -- and, where there are two or more, backward too. No other node changes.
  pub mergesort_rec-SortedAt :
      (ord : IsOrder A) (h : Heap A) (xs : List (Cell A))
      → Nexts h xs none
      → Distinct xs
      → Ends (SortedAt h xs) (mergesort_rec (length xs) h (head_or xs none) true)
  unfolding mergesort_rec
  mergesort_rec-SortedAt ord h xs k d =
      mergesort_fuel-SortedAt ord (length xs + 1) (length xs + 1) h xs (omega arith) (omega arith) k
        d
