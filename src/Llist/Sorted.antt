-- ===== src/Llist/Sorted.antt =====
-- The sort of a list by its links.
use rcsw.Base.{
  ℕ, zero, suc, ◌+◌, ◌≤◌, ◌<◌, ◌≡◌, refl, sym, ap, ◌∙◌, ◌⊎◌, inl, inr, Bool, true, false, not, ◌||◌,
  Option, none, some, List, [], ◌∷◌, map, arith, leb, ◌==◌, if◌then◌else◌, Bool-cases, test_true,
  Exec, done, ◌>>=◌, Ends, ends, Ends-bind, Ends-if, einval, eagain, Status, ok, error, Element,
  IsOrder, length,
}
use mathlib.Core.Path.{subst}
use rcsw.Nodes.{Heap, mergesort_rec}
use rcsw.Nodes.Chain.{Cell, last_or, Chain}
use rcsw.Nodes.Relink.{load_node-done}
use rcsw.Nodes.Nexts.{Chain-Nexts}
use rcsw.Nodes.Merged.{Sorts, keyed, Unrepeated}
use rcsw.Nodes.Mergesort.{SortedAt}
use rcsw.Nodes.MergesortRec.{mergesort_rec-SortedAt}
use rcsw.Llist.{Llist}
use rcsw.Llist.Edit.{walk_loop, sort_rec}
use rcsw.Llist.Pool.{mem, Marks-ext}
use rcsw.Llist.Space.{NoRepeat, Pool}
use rcsw.Llist.Inv.{IsList, Within, SameSetup, SameSetup-change}

module _ {ℓ} {A : Type ℓ} where
  mem-map : (f : Cell A → ℕ) (a : ℕ) (xs : List (Cell A)) → mem a (map f xs) ≡ keyed f a xs
  mem-map f a [] = refl
  mem-map f a (c ∷ xs) = ap (λ b. (a == f c) || b) (mem-map f a xs)

  Unrepeated-from : (f : Cell A → ℕ) (xs : List (Cell A)) → NoRepeat (map f xs) → Unrepeated f xs
  Unrepeated-from f [] n = tt
  Unrepeated-from f (c ∷ xs) (out, n) = (sym (mem-map f (f c) xs) ∙ out, Unrepeated-from f xs n)

  Unrepeated-to : (f : Cell A → ℕ) (xs : List (Cell A)) → Unrepeated f xs → NoRepeat (map f xs)
  Unrepeated-to f [] n = tt
  Unrepeated-to f (c ∷ xs) (out, n) = (mem-map f (f c) xs ∙ out, Unrepeated-to f xs n)

module _ {ℓ} {A : Type ℓ} ⦃el : Element A⦄ where
  -- A part of the application's memory is held by the nodes in any order.
  Sorts-Pool :
      (f : Cell A → ℕ) {on : Bool} {entries : List (Option ℕ)} {limit : Option ℕ}
      (xs ys : List (Cell A))
      → Sorts xs ys
      → Pool on entries limit (map f xs)
      → Pool on entries limit (map f ys)
  Sorts-Pool f xs ys s k = record {
    capped = k.capped;
    marks =
        λ o. Marks-ext (λ a. mem-map f a ys ∙ s.same_keys f a ∙ sym (mem-map f a xs)) (k.marks o);
    no_repeat = λ o. Unrepeated-to f ys (s.unrepeated f (Unrepeated-from f xs (k.no_repeat o)));
  }

  walk_loop-last :
      (fuel : ℕ) (h : Heap A) (before : Option ℕ) (c : Cell A) (xs : List (Cell A)) (count : ℕ)
      → length xs < fuel
      → Chain h before (c ∷ xs) none
      → walk_loop fuel h (some c.at) count ≡ done (last_or (c ∷ xs) none, count + length xs)
  unfolding walk_loop
  walk_loop-last zero h before c xs count f k = absurd (omega arith)
  walk_loop-last (suc fuel) h before c [] count f k =
      rw (load_node-done h c.at _ k.0) (ap (λ n. done (some c.at, n)) (omega arith))
  walk_loop-last (suc fuel) h before c (d ∷ xs) count f k = rw (load_node-done h c.at _ k.0) (
      walk_loop-last fuel h (some c.at) d xs (count + 1) (omega arith) k.1
      ∙ ap (λ n. done (last_or (d ∷ xs) none, n)) {x = count + 1 + length xs}
          {y = count + suc (length xs)} (omega arith))

  -- How `llist_sort` ends on a list of the nodes `xs`.
  pub data ListSorted (l : Llist A) (xs : List (Cell A)) : Status × Llist A → Type ℓ where
    incomparable : l.has_cmpe ≡ false → ListSorted l xs (error einval, l)
    trusted : l.has_cmpe ≡ true → (length xs ≤ 1) ⊎ (l.sorted ≡ true) → ListSorted l xs (ok, l)
    sorted_now :
        {l' : Llist A} (ys : List (Cell A))
        → l.has_cmpe ≡ true
        → l.sorted ≡ false
        → Sorts xs ys
        → l'.sorted ≡ true
        → IsList l' ys
        → SameSetup l l'
        → ListSorted l xs (ok, l')

  module _ (ord : IsOrder A) (l : Llist A) (xs : List (Cell A)) (v : IsList l xs) where
    abbrev finish : Heap A × Option ℕ → Exec (Status × Llist A)
    finish (h, top) = walk_loop (l.current + 1) h top 1 >>= (λ (tmp, count). done (
      if count == l.current then ok else error eagain,
      record l { heap = h; first = top; sorted = true; last = tmp },
    ))

    finish-ListSorted :
        2 ≤ length xs
        → l.has_cmpe ≡ true
        → l.sorted ≡ false
        → (r : Heap A × Option ℕ) → SortedAt l.heap xs r
        → Ends (ListSorted l xs) (finish r)
    finish-ListSorted two callback off r s = by_cells s.cells refl
      where
        by_cells : (ys : List (Cell A)) → s.cells ≡ ys → Ends (ListSorted l xs) (finish r)
        by_cells [] e = absurd (omega (arith, two, s.sorts.count, ap length e))
        by_cells (c ∷ ys) e =
            let k : Chain r.0 none (c ∷ ys) none =
              subst (λ zs. Chain r.0 none zs none) e (s.chain two) in
            let so : Sorts xs (c ∷ ys) = subst (Sorts xs) e s.sorts in
            let n : 1 + length ys ≡ l.current = omega (arith, so.count, v.count) in
            rw
              (
                s.top,
                e,
                walk_loop-last (l.current + 1) r.0 none c ys 1 (omega (arith, n)) k,
                test_true (1 + length ys) l.current n,
              )
              (ends (
                sorted_now (c ∷ ys) callback off so refl
                  (record {
                    chain = k;
                    distinct = so.distinct v.distinct;
                    at_ends = record { first_at = refl; last_at = refl };
                    count = v.count ∙ sym so.count;
                    fits = omega (arith, so.count, v.fits);
                    within = subst (λ m. Within m l.max_elts) (sym so.count) v.within;
                    nodes = Sorts-Pool (λ d. d.at) xs (c ∷ ys) so v.nodes;
                    blocks = Sorts-Pool (λ d. d.block) xs (c ∷ ys) so v.blocks;
                  })
                  ((SameSetup-change l r.0 _ _ _ true l.node_map l.db_map))))

    pub sort_rec-ListSorted : Ends (ListSorted l xs) (sort_rec l)
    unfolding sort_rec
    sort_rec-ListSorted =
        Ends-if (not l.has_cmpe) (λ e. ends (incomparable (ground (arith, e))))
          (λ e.
            let callback : l.has_cmpe ≡ true = ground (arith, e) in
            Ends-if (leb l.current 1 || l.sorted) (λ t. ends (trusted callback (few t)))
              (λ t. Ends-bind merged (finish-ListSorted (two t) callback (off t))))
      where
        few : (leb l.current 1 || l.sorted) ≡ true → (length xs ≤ 1) ⊎ (l.sorted ≡ true)
        few t = elim (Bool-cases l.sorted) [
          | inl s ↦ inr s
          | inr s ↦ inl (ground (arith, t, s, v.count))
        ]

        two : (leb l.current 1 || l.sorted) ≡ false → 2 ≤ length xs
        two t = ground (arith, t, v.count)

        off : (leb l.current 1 || l.sorted) ≡ false → l.sorted ≡ false
        off t = elim (Bool-cases l.sorted) [ inl s ↦ ground (arith, t, s) | inr s ↦ s ]

        merged : Ends (SortedAt l.heap xs) (mergesort_rec l.current l.heap l.first true)
        merged =
            subst (λ n. Ends (SortedAt l.heap xs) (mergesort_rec n l.heap l.first true))
              (sym v.count)
              (subst (λ p. Ends (SortedAt l.heap xs) (mergesort_rec (length xs) l.heap p true))
                (sym v.at_ends.first_at)
                (mergesort_rec-SortedAt ord l.heap xs (Chain-Nexts l.heap none xs none v.chain)
                  v.distinct))
