-- ===== src/Llist/Unlinked.antt =====
-- A node is taken out from behind others, and any node.
use mathlib.Core.List.{append-nil}
use rcsw.Base.{
  ◌≡◌, sym, ap, ap₂, ◌∙◌, inl, inr, true, false, none, some, List, [], ◌∷◌, ◌++◌, arith, ◌==◌, Ends,
  ends,
}
use mathlib.Core.Path.{subst}
use rcsw.Nodes.{same_ptr}
use rcsw.Nodes.Chain.{
  Cell, has, has-append, head_or, last_or, last_or-append, head_or-append, node_of, Chain, Distinct,
  Distinct-middle, Distinct-split, snoc-cases, write-other, frame-write, Chain-append, Chain-split,
}
use rcsw.Nodes.Relink.{
  load_node-done, with_next, with_prev, set_next-last, Chain-with_next, set_prev-first,
  Chain-with_prev,
}
use rcsw.Llist.{Llist}
use rcsw.Llist.Relink.{unlink}
use rcsw.Llist.Links.{head_or-snoc}
use rcsw.Llist.Unlink.{
  Goal, Stands, Unlinked, last-ne, not_in-head, same, unlink-front, unlink-only, w-in,
}

module _ {ℓ} {A : Type ℓ} where
  module _ (l : Llist A) (c : Cell A) where
    -- The node is behind `ws ++ w ∷ []`.
    module _ (ws : List (Cell A)) (w : Cell A) (ys : List (Cell A))
        (s : Stands l c (ws ++ w ∷ []) ys) where
      abbrev xs : List (Cell A)
      xs = ws ++ w ∷ []

      apart : (has c.at xs ≡ false) × (has c.at ys ≡ false) × Distinct (xs ++ ys)
      apart = Distinct-middle xs c ys s.distinct

      halves : Chain l.heap none xs (some c.at) × Chain l.heap (last_or xs none) (c ∷ ys) none
      halves = Chain-split l.heap none xs (c ∷ ys) none s.chain

      w-last : last_or xs none ≡ some w.at
      w-last = last_or-append ws (w ∷ []) none

      holds : l.heap c.at ≡ some (node_of c (head_or ys none) (some w.at))
      holds = halves.1.0 ∙ ap (λ p. some (node_of c (head_or ys none) p)) w-last

      not_first : same_ptr l.first (some c.at) ≡ false
      not_first =
          ap (λ p. same_ptr p (some c.at)) (s.at_ends.first_at ∙ head_or-append xs (c ∷ ys) none)
          ∙ ahead ws apart.0
        where
          ahead :
              (vs : List (Cell A))
              → has c.at (vs ++ w ∷ []) ≡ false
              → same_ptr (head_or (vs ++ w ∷ []) (some c.at)) (some c.at) ≡ false
          ahead [] out = ground (arith, out)
          ahead (v ∷ vs) out = ground (arith, out)

      other : (c.at == w.at) ≡ false
      other = ground (arith, has-append c.at ws (w ∷ []), apart.0)

      kept : l.first ≡ head_or (xs ++ ys) none
      kept =
          s.at_ends.first_at
          ∙ head_or-append xs (c ∷ ys) none
          ∙ head_or-snoc ws w (some c.at) (head_or ys none)
          ∙ sym (head_or-append xs ys none)

    unlink-back :
        (ws : List (Cell A)) (w : Cell A)
        → Stands l c (ws ++ w ∷ []) []
        → Ends (Unlinked l ((ws ++ w ∷ []) ++ []) c) (unlink l c.at)
    unfolding unlink
    unlink-back ws w s =
        let t2 : same_ptr l.last (some c.at) ≡ true =
          ap (λ p. same_ptr p (some c.at))
            (s.at_ends.last_at ∙ last_or-append (ws ++ w ∷ []) (c ∷ []) none)
          ∙ same c.at in
        let k : Chain l.heap none (ws ++ w ∷ []) (some c.at) = (halves ws w [] s).0 in
        let g = with_next l.heap none ws w none in
        rw
          (
            load_node-done l.heap c.at _ (holds ws w [] s),
            not_first ws w [] s,
            t2,
            set_next-last l.heap none ws w (some c.at) none k,
          )
          (ends (record {
            linked = record {
              heap = g;
              state =
                  ap₂ (λ f p. record l { heap = g; first = f; last = p }) (kept ws w [] s)
                    (sym
                      (ap (λ zs. last_or zs none) (append-nil (ws ++ w ∷ [])) ∙ w-last ws w [] s));
              chain =
                  subst (λ zs. Chain g none zs none) (sym (append-nil (ws ++ w ∷ [])))
                    (Chain-with_next l.heap none ws w (some c.at) none k
                      (Distinct-split (ws ++ w ∷ []) (c ∷ []) s.distinct).0);
            };
            next = none;
            prev = some w.at;
            held = write-other l.heap w.at c.at _ (other ws w [] s) ∙ holds ws w [] s;
          }))

    unlink-middle :
        (ws : List (Cell A)) (w z : Cell A) (zs : List (Cell A))
        → Stands l c (ws ++ w ∷ []) (z ∷ zs)
        → Ends (Unlinked l ((ws ++ w ∷ []) ++ z ∷ zs) c) (unlink l c.at)
    unfolding unlink
    unlink-middle ws w z zs s =
        let (out, out', d) = apart ws w (z ∷ zs) s in
        let (dx, dy, split) = Distinct-split (ws ++ w ∷ []) (z ∷ zs) d in
        let t2 : same_ptr l.last (some c.at) ≡ false =
          ap (λ p. same_ptr p (some c.at))
            (s.at_ends.last_at ∙ last_or-append (ws ++ w ∷ []) (c ∷ z ∷ zs) none)
          ∙ last-ne z zs c (some c.at) out' in
        let k = (halves ws w (z ∷ zs) s).0 in
        let k' = (halves ws w (z ∷ zs) s).1.1 in
        let h = with_prev l.heap z zs none (some w.at) in
        let g = with_next h none ws w (some z.at) in
        let k1 : Chain h none (ws ++ w ∷ []) (some c.at) =
          frame-write l.heap z.at _ none (ws ++ w ∷ []) (some c.at) k
            (not_in-head (ws ++ w ∷ []) z zs split) in
        rw
          (
            load_node-done l.heap c.at _ (holds ws w (z ∷ zs) s),
            not_first ws w (z ∷ zs) s,
            t2,
            set_prev-first l.heap (some c.at) z zs none (some w.at) k',
            set_next-last h none ws w (some c.at) (some z.at) k1,
          )
          (ends (record {
            linked = record {
              heap = g;
              state =
                  ap₂ (λ f p. record l { heap = g; first = f; last = p }) (kept ws w (z ∷ zs) s)
                    (s.at_ends.last_at
                      ∙ last_or-append (ws ++ w ∷ []) (c ∷ z ∷ zs) none
                      ∙ sym (last_or-append (ws ++ w ∷ []) (z ∷ zs) none));
              chain =
                  Chain-append g none (ws ++ w ∷ []) (z ∷ zs) none
                    (Chain-with_next h none ws w (some c.at) (some z.at) k1 dx)
                    (subst (λ p. Chain g p (z ∷ zs) none) (sym (w-last ws w (z ∷ zs) s))
                      (frame-write h w.at _ (some w.at) (z ∷ zs) none
                        (Chain-with_prev l.heap (some c.at) z zs none (some w.at) k' dy.0)
                        (split w.at (w-in w ws))));
            };
            next = some z.at;
            prev = some w.at;
            held =
                write-other h w.at c.at _ (other ws w (z ∷ zs) s)
                ∙ write-other l.heap z.at c.at _ (ground (arith, out'))
                ∙ holds ws w (z ∷ zs) s;
          }))

    -- Taking out a node of the list leaves the others, linked in the same order.
    pub unlink-Unlinked : (xs ys : List (Cell A)) → Goal l c xs ys
    unlink-Unlinked xs ys = elim (snoc-cases xs) [
      | inl e ↦ subst (λ us. Goal l c us ys) (sym e) (at_front ys)
      | inr (ws, w, e) ↦ subst (λ us. Goal l c us ys) (sym e) (behind ws w ys)
    ]
      where
        at_front : (ys : List (Cell A)) → Goal l c [] ys
        at_front [] = unlink-only l c
        at_front (z ∷ zs) = unlink-front l c z zs

        behind : (ws : List (Cell A)) (w : Cell A) (ys : List (Cell A)) → Goal l c (ws ++ w ∷ []) ys
        behind ws w [] = unlink-back ws w
        behind ws w (z ∷ zs) = unlink-middle ws w z zs
