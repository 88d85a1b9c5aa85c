-- ===== src/Nodes/MergeLoop.antt =====
-- The loop that merges two sorted halves, from any point of it on.
use rcsw.Base.{
  ℕ, zero, suc, ◌+◌, ◌<◌, ◌≡◌, refl, sym, ap, ◌∙◌, inl, inr, true, false, Option, none, some, List,
  [], ◌∷◌, ◌++◌, arith, Bool-cases, Exec, done, ◌>>=◌, Ends, ends, Ends-bind, Ends-map, Element,
  cmp_le, length,
}
use mathlib.Core.Path.{subst}
use mathlib.Core.List.{append_assoc, append-nil}
use rcsw.Nodes.{Heap, takes_left, attach, merge_loop}
use rcsw.Nodes.Chain.{Cell, has-append, head_or, last_or, last_or-append, Chain}
use rcsw.Nodes.Relink.{load_node-done}
use rcsw.Nodes.Nexts.{Nexts}
use rcsw.Nodes.Merged.{merge}
use rcsw.Nodes.Merge.{Merging, Merging-sym, Untouched, attach-Attached}

module _ {ℓ} {A : Type ℓ} ⦃el : Element A⦄ where
  -- All nodes are in one chain, merged, and no others have changed.
  abbrev pub MergedOf :
      (h : Heap A) (out ls rs : List (Cell A)) → (zs : List (Cell A)) → Heap A × Option ℕ → Type ℓ
  MergedOf h out ls rs zs (g, p) =
      (p ≡ head_or zs none) × Chain g none zs none × Untouched out ls rs h g

  merge-nil : (ls : List (Cell A)) → merge ls [] ≡ ls
  unfolding merge
  merge-nil [] = refl
  merge-nil (c ∷ ls) = refl

  left-first :
      (h : Heap A) (c d : Cell A) (ls rs : List (Cell A))
      → Nexts h (c ∷ ls) none
      → Nexts h (d ∷ rs) none
      → takes_left h (some c.at) (some d.at) ≡ done (cmp_le c.datum d.datum)
  unfolding takes_left
  left-first h c d ls rs ((p, e), k) ((q, e'), k') =
      rw (load_node-done h c.at _ e, load_node-done h d.at _ e') refl

  -- One round of the loop that takes `c`, followed by the others.
  round-MergedOf :
      (h : Heap A) (out ls rs zs : List (Cell A)) (c : Cell A)
      (rest : Heap A × Option ℕ → Exec (Heap A × Option ℕ))
      → Merging h out (c ∷ ls) rs
      → ((g : Heap A)
          → Merging g (out ++ c ∷ []) ls rs
          → Ends (MergedOf g (out ++ c ∷ []) ls rs zs) (rest (g, head_or (out ++ c ∷ []) none)))
      → Ends
          (MergedOf h out (c ∷ ls) rs zs)
          (attach h (some c.at) (head_or out none) (last_or out none) true >>= rest)
  round-MergedOf h out ls rs zs c rest m more =
      Ends-bind (attach-Attached c ls rs h out m) (λ (g, r) (e, m', same). rw e (
        Ends-map (more g m') (λ z (q, k, same'). (
          q,
          k,
          λ a o n n'.
              same' a (ground (arith, has-append a out (c ∷ []), o, n)) (ground (arith, n)) n'
              ∙ same a o n n',
        ))))

  snoc-last : (out : List (Cell A)) (c : Cell A) → last_or (out ++ c ∷ []) none ≡ some c.at
  snoc-last out c = last_or-append out (c ∷ []) none

  module _ (fuel : ℕ) where
    -- What the loop does with the rounds that are left.
    abbrev Runs : Heap A → (out ls rs : List (Cell A)) → Type ℓ
    Runs h out ls rs =
        Merging h out ls rs
        → Ends (MergedOf h out ls rs (out ++ merge ls rs)) (
            merge_loop fuel h (head_or ls none) (head_or rs none) (head_or out none)
              (last_or out none) true)

    abbrev after_left :
        (c : Cell A) (ls rs : List (Cell A)) → Heap A × Option ℕ → Exec (Heap A × Option ℕ)
    after_left c ls rs (g, r) =
        merge_loop fuel g (head_or ls none) (head_or rs none) r (some c.at) true

    abbrev after_right :
        (d : Cell A) (ls rs : List (Cell A)) → Heap A × Option ℕ → Exec (Heap A × Option ℕ)
    after_right d ls rs (g, r) =
        merge_loop fuel g (head_or ls none) (head_or rs none) r (some d.at) true

    module _ (h : Heap A) (out : List (Cell A)) (c : Cell A) (ls rs : List (Cell A)) where
      by_left :
          merge (c ∷ ls) rs ≡ c ∷ merge ls rs
          → ((g : Heap A) → Runs g (out ++ c ∷ []) ls rs)
          → Merging h out (c ∷ ls) rs
          → Ends (MergedOf h out (c ∷ ls) rs (out ++ merge (c ∷ ls) rs)) (
              attach h (some c.at) (head_or out none) (last_or out none) true
              >>= after_left c ls rs)
      by_left e ih m =
          subst
            (λ zs. Ends (MergedOf h out (c ∷ ls) rs zs) (
              attach h (some c.at) (head_or out none) (last_or out none) true
              >>= after_left c ls rs))
            (append_assoc out (c ∷ []) (merge ls rs) ∙ ap (λ t. out ++ t) (sym e))
            (round-MergedOf h out ls rs _ c (after_left c ls rs) m (λ g m'.
              subst
                (λ t. Ends (MergedOf g (out ++ c ∷ []) ls rs ((out ++ c ∷ []) ++ merge ls rs)) (
                  merge_loop fuel g (head_or ls none) (head_or rs none)
                    (head_or (out ++ c ∷ []) none) t true))
                (snoc-last out c) (ih g m')))

    module _ (h : Heap A) (out : List (Cell A)) (d : Cell A) (ls rs : List (Cell A)) where
      by_right :
          merge ls (d ∷ rs) ≡ d ∷ merge ls rs
          → ((g : Heap A) → Runs g (out ++ d ∷ []) ls rs)
          → Merging h out ls (d ∷ rs)
          → Ends (MergedOf h out ls (d ∷ rs) (out ++ merge ls (d ∷ rs))) (
              attach h (some d.at) (head_or out none) (last_or out none) true
              >>= after_right d ls rs)
      by_right e ih m =
          subst
            (λ zs. Ends (MergedOf h out ls (d ∷ rs) zs) (
              attach h (some d.at) (head_or out none) (last_or out none) true
              >>= after_right d ls rs))
            (append_assoc out (d ∷ []) (merge ls rs) ∙ ap (λ t. out ++ t) (sym e))
            (Ends-map
              (round-MergedOf h out rs ls ((out ++ d ∷ []) ++ merge ls rs) d (after_right d ls rs)
                (Merging-sym m)
                (λ g m'.
                  Ends-map
                    (subst
                      (λ t.
                        Ends (MergedOf g (out ++ d ∷ []) ls rs ((out ++ d ∷ []) ++ merge ls rs)) (
                          merge_loop fuel g (head_or ls none) (head_or rs none)
                            (head_or (out ++ d ∷ []) none) t true))
                      (snoc-last out d) (ih g (Merging-sym m')))
                    (λ r (q, k, same). (q, k, λ a o n n'. same a o n' n))))
              (λ r (q, k, same). (q, k, λ a o n n'. same a o n' n)))

  nil-merge : (rs : List (Cell A)) → merge [] rs ≡ rs
  unfolding merge
  nil-merge rs = refl

  merge-left :
      (c d : Cell A) (ls rs : List (Cell A))
      → cmp_le c.datum d.datum ≡ true
      → merge (c ∷ ls) (d ∷ rs) ≡ c ∷ merge ls (d ∷ rs)
  unfolding merge
  merge-left c d ls rs e = rw e refl

  merge-right :
      (c d : Cell A) (ls rs : List (Cell A))
      → cmp_le c.datum d.datum ≡ false
      → merge (c ∷ ls) (d ∷ rs) ≡ d ∷ merge (c ∷ ls) rs
  unfolding merge
  merge-right c d ls rs e = rw e refl

  -- The merge of two lists of nodes in ascending order, from any point of it on.
  pub merge_loop-MergedOf :
      (fuel : ℕ) (h : Heap A) (out ls rs : List (Cell A))
      → length ls + length rs < fuel
      → Merging h out ls rs
      → Ends (MergedOf h out ls rs (out ++ merge ls rs)) (
          merge_loop fuel h
            (head_or ls none)
            (head_or rs none)
            (head_or out none)
            (last_or out none)
            true)
  unfolding merge_loop takes_left
  merge_loop-MergedOf zero h out ls rs f m = absurd (omega arith)
  merge_loop-MergedOf (suc fuel) h out [] [] f m =
      let unmerged : out ++ merge [] [] ≡ out =
        ap (λ t. out ++ t) (merge-nil []) ∙ append-nil out in
      let ended : m.stale ≡ none = elim m.leads [ inl e ↦ e | inr e ↦ e ] in
      ends (
        ap (λ zs. head_or zs none) (sym unmerged),
        subst (λ zs. Chain h none zs none) (sym unmerged)
            (subst (λ q. Chain h none out q) ended m.chain),
        λ a o n n'. refl,
      )
  merge_loop-MergedOf (suc fuel) h out (c ∷ ls) [] f m = rw (load_node-done h c.at _ m.left.0.1) (
      by_left fuel h out c ls [] (merge-nil (c ∷ ls) ∙ ap (λ t. c ∷ t) (sym (merge-nil ls)))
        (λ g. merge_loop-MergedOf fuel g (out ++ c ∷ []) ls [] (omega arith)) m)
  merge_loop-MergedOf (suc fuel) h out [] (d ∷ rs) f m = rw (load_node-done h d.at _ m.right.0.1) (
      by_right fuel h out d [] rs (nil-merge (d ∷ rs) ∙ ap (λ t. d ∷ t) (sym (nil-merge rs)))
        (λ g. merge_loop-MergedOf fuel g (out ++ d ∷ []) [] rs (omega arith)) m)
  merge_loop-MergedOf (suc fuel) h out (c ∷ ls) (d ∷ rs) f m =
      rw (left-first h c d ls rs m.left m.right) (elim (Bool-cases (cmp_le c.datum d.datum)) [
        | inl e ↦
            rw (e, load_node-done h c.at _ m.left.0.1)
              (by_left fuel h out c ls (d ∷ rs) (merge-left c d ls rs e)
                (λ g. merge_loop-MergedOf fuel g (out ++ c ∷ []) ls (d ∷ rs) (omega arith)) m)
        | inr e ↦
            rw (e, load_node-done h d.at _ m.right.0.1)
              (by_right fuel h out d (c ∷ ls) rs (merge-right c d ls rs e)
                (λ g. merge_loop-MergedOf fuel g (out ++ d ∷ []) (c ∷ ls) rs (omega arith)) m)
      ])
