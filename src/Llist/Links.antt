-- ===== src/Llist/Links.antt =====
-- What the links of the list are after a node has come in at an end.
use rcsw.Base.{
  ℕ, ◌≡◌, refl, sym, ap, ap₂, ◌∙◌, inl, inr, false, Option, none, some, List, [], ◌∷◌, ◌++◌, arith,
  ◌==◌, Exec, Ends, ends,
}
use mathlib.Core.Path.{subst}
use rcsw.Nodes.{Heap, write}
use rcsw.Nodes.Chain.{
  has-append, Cell, has, head_or, last_or, last_or-append, head_or-append, node_of, Chain, Distinct,
  snoc-cases, write-at, write-other, frame-write, Chain-append,
}
use rcsw.Nodes.Relink.{
  set_next-done, set_prev-done, with_next, with_prev, set_next-last, Chain-with_next,
  set_prev-first, Chain-with_prev,
}
use rcsw.Llist.{Llist}
use rcsw.Llist.Relink.{link_behind, link_before}

module _ {ℓ} {A : Type ℓ} where
  -- `l` with other links, which make a list of the nodes `xs`.
  pub record Linked (l : Llist A) (xs : List (Cell A)) (l' : Llist A) : Type ℓ where
    pub heap : Heap A
    pub state : l' ≡ record l { heap = heap; first = head_or xs none; last = last_or xs none }
    pub chain : Chain heap none xs none

  pub head_or-snoc :
      (ys : List (Cell A)) (y : Cell A) (d d' : Option ℕ)
      → head_or (ys ++ y ∷ []) d ≡ head_or (ys ++ y ∷ []) d'
  head_or-snoc [] y d d' = refl
  head_or-snoc (x ∷ ys) y d d' = refl

  -- The ends of a list are where the fields of the handle say.
  pub record HasEnds (l : Llist A) (xs : List (Cell A)) : Type ℓ where
    pub first_at : l.first ≡ head_or xs none
    pub last_at : l.last ≡ last_or xs none

  module _ (l : Llist A) (c : Cell A) (q p : Option ℕ)
      (new : l.heap c.at ≡ some (node_of c q p)) where
    link_behind-empty : Ends (Linked l (c ∷ [])) (link_behind l c.at none)
    unfolding link_behind
    link_behind-empty =
        rw
          (
            set_next-done l.heap c.at none _ new,
            set_prev-done _ c.at none _ (write-at l.heap c.at _),
          )
          (ends (record { heap = _; state = refl; chain = (write-at _ c.at _, tt) }))

    link_before-empty : Ends (Linked l (c ∷ [])) (link_before l c.at none)
    unfolding link_before
    link_before-empty =
        rw
          (
            set_prev-done l.heap c.at none _ new,
            set_next-done _ c.at none _ (write-at l.heap c.at _),
          )
          (ends (record { heap = _; state = refl; chain = (write-at _ c.at _, tt) }))

    module _ (ys : List (Cell A)) (y : Cell A) (k : Chain l.heap none (ys ++ y ∷ []) none)
        (d : Distinct (ys ++ y ∷ [])) (out : has c.at (ys ++ y ∷ []) ≡ false)
        (v : HasEnds l (ys ++ y ∷ [])) where
      cleared : Heap A
      cleared = write l.heap c.at (some (node_of c none p))

      k1 : Chain cleared none (ys ++ y ∷ []) none
      unfolding cleared
      k1 = frame-write l.heap c.at _ none (ys ++ y ∷ []) none k out

      apart : (c.at == y.at) ≡ false
      apart = ground (arith, has-append c.at ys (y ∷ []), out)

      joined : Heap A
      joined = with_next cleared none ys y (some c.at)

      still : joined c.at ≡ some (node_of c none p)
      unfolding joined cleared
      still = write-other cleared y.at c.at _ apart ∙ write-at l.heap c.at _

      final : Heap A
      final = write joined c.at (some (node_of c none (some y.at)))

      link_behind-last : Ends (Linked l ((ys ++ y ∷ []) ++ c ∷ [])) (link_behind l c.at (some y.at))
      unfolding link_behind joined cleared final
      link_behind-last =
          rw
            (
              set_next-done l.heap c.at none _ new,
              set_next-last cleared none ys y none (some c.at) k1,
              set_prev-done joined c.at (some y.at) _ still,
            )
            (ends (record {
              heap = final;
              state =
                  ap₂ (λ f z. record l { heap = final; first = f; last = z })
                    (v.first_at
                      ∙ head_or-snoc ys y none (some c.at)
                      ∙ sym (head_or-append (ys ++ y ∷ []) (c ∷ []) none))
                    (sym (last_or-append (ys ++ y ∷ []) (c ∷ []) none));
              chain =
                  Chain-append final none (ys ++ y ∷ []) (c ∷ []) none
                    (frame-write joined c.at _ none (ys ++ y ∷ []) (some c.at)
                      (Chain-with_next cleared none ys y none (some c.at) k1 d) out)
                    (
                      write-at joined c.at _
                          ∙ ap (λ z. some (node_of c none z))
                              (sym (last_or-append ys (y ∷ []) none)),
                      tt,
                    );
            }))

    module _ (z : Cell A) (zs : List (Cell A)) (k : Chain l.heap none (z ∷ zs) none)
        (d : Distinct (z ∷ zs)) (out : has c.at (z ∷ zs) ≡ false) (v : HasEnds l (z ∷ zs)) where
      tied : Heap A
      tied =
          write (write l.heap c.at (some (node_of c q none))) c.at
            (some (node_of c (some z.at) none))

      k2 : Chain tied none (z ∷ zs) none
      unfolding tied
      k2 =
          frame-write _ c.at _ none (z ∷ zs) none
            (frame-write l.heap c.at _ none (z ∷ zs) none k out) out

      topped : Heap A
      topped = with_prev tied z zs none (some c.at)

      link_before-first : Ends (Linked l (c ∷ z ∷ zs)) (link_before l c.at (some z.at))
      unfolding link_before tied topped
      link_before-first =
          rw
            (
              set_prev-done l.heap c.at none _ new,
              set_next-done _ c.at (some z.at) _ (write-at l.heap c.at _),
              set_prev-first tied none z zs none (some c.at) k2,
            )
            (ends (record {
              heap = topped;
              state = ap (λ y. record l { heap = topped; first = some c.at; last = y }) v.last_at;
              chain = (
                write-other tied z.at c.at _ (ground (arith, out)) ∙ write-at _ c.at _,
                Chain-with_prev tied none z zs none (some c.at) k2 d.0,
              );
            }))

  module _ (l : Llist A) (c : Cell A) (q p : Option ℕ)
      (new : l.heap c.at ≡ some (node_of c q p)) where
    abbrev Joins : List (Cell A) → List (Cell A) → Exec (Llist A) → Type ℓ
    Joins xs ys call =
        Chain l.heap none xs none
        → Distinct xs
        → has c.at xs ≡ false
        → HasEnds l xs
        → Ends (Linked l ys) call

    pub link_behind-Linked :
        (xs : List (Cell A)) → Joins xs (xs ++ c ∷ []) (link_behind l c.at l.last)
    link_behind-Linked xs = elim (snoc-cases xs) [
      | inl e ↦
          subst (λ zs. Joins zs (zs ++ c ∷ []) (link_behind l c.at l.last)) (sym e)
            (λ k d out v.
              subst (λ z. Ends (Linked l (c ∷ [])) (link_behind l c.at z)) (sym v.last_at)
                (link_behind-empty l c q p new))
      | inr (ys, y, e) ↦
          subst (λ zs. Joins zs (zs ++ c ∷ []) (link_behind l c.at l.last)) (sym e)
            (λ k d out v.
              subst (λ z. Ends (Linked l ((ys ++ y ∷ []) ++ c ∷ [])) (link_behind l c.at z))
                (sym (v.last_at ∙ last_or-append ys (y ∷ []) none))
                (link_behind-last l c q p new ys y k d out v))
    ]

    pub link_before-Linked : (xs : List (Cell A)) → Joins xs (c ∷ xs) (link_before l c.at l.first)
    link_before-Linked [] k d out v =
        subst (λ z. Ends (Linked l (c ∷ [])) (link_before l c.at z)) (sym v.first_at)
          (link_before-empty l c q p new)
    link_before-Linked (z ∷ zs) k d out v =
        subst (λ y. Ends (Linked l (c ∷ z ∷ zs)) (link_before l c.at y)) (sym v.first_at)
          (link_before-first l c q p new z zs k d out v)
