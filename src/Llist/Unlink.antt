-- ===== src/Llist/Unlink.antt =====
-- A node is taken out of the chain: alone and at the front.
use rcsw.Base.{
  ℕ, ◌≡◌, refl, sym, ap, ◌∙◌, inl, inr, true, false, ◌||◌, Option, none, some, List, [], ◌∷◌, ◌++◌,
  arith, ◌==◌, Bool-cases, true-ne-false, Ends, ends,
}
use rcsw.Nodes.{same_ptr}
use rcsw.Nodes.Chain.{
  Cell, has, has-append, head_or, last_or, node_of, Chain, Distinct, write-other, Apart,
}
use rcsw.Nodes.Relink.{load_node-done, with_prev, set_prev-first, Chain-with_prev}
use rcsw.Llist.{Llist}
use rcsw.Llist.Relink.{unlink}
use rcsw.Llist.Links.{Linked, HasEnds}

pub same : (a : ℕ) → (a == a) ≡ true
same a = ground arith

module _ {ℓ} {A : Type ℓ} where
  -- The list has the other nodes, and the node itself is still in the memory.
  pub record Unlinked (l : Llist A) (xs : List (Cell A)) (c : Cell A) (l' : Llist A) : Type ℓ where
    pub linked : Linked l xs l'
    pub next : Option ℕ
    pub prev : Option ℕ
    pub held : linked.heap c.at ≡ some (node_of c next prev)

  head-ne :
      (x : Cell A) (xs : List (Cell A)) (c : Cell A) (d : Option ℕ)
      → has c.at (x ∷ xs) ≡ false
      → same_ptr (head_or (x ∷ xs) d) (some c.at) ≡ false
  head-ne x xs c d out = ground (arith, out)

  pub last-ne :
      (x : Cell A) (xs : List (Cell A)) (c : Cell A) (d : Option ℕ)
      → has c.at (x ∷ xs) ≡ false
      → same_ptr (last_or (x ∷ xs) d) (some c.at) ≡ false
  last-ne x [] c d out = ground (arith, out)
  last-ne x (y ∷ xs) c d out = last-ne y xs c (some x.at) (ground (arith, out))

  pub w-in : (w : Cell A) (ws : List (Cell A)) → has w.at (ws ++ w ∷ []) ≡ true
  w-in w ws = ground (arith, has-append w.at ws (w ∷ []))

  pub not_in-head :
      (xs : List (Cell A)) (z : Cell A) (zs : List (Cell A))
      → Apart xs (z ∷ zs)
      → has z.at xs ≡ false
  not_in-head xs z zs split = elim (Bool-cases (has z.at xs)) [
    | inl e ↦ absurd (true-ne-false (sym (ap (λ b. b || has z.at zs) (same z.at)) ∙ split z.at e))
    | inr e ↦ e
  ]

  module _ (l : Llist A) (c : Cell A) where
    -- What the caller of `unlink` knows of a node between `xs` and `ys`.
    pub record Stands (xs ys : List (Cell A)) : Type ℓ where
      pub chain : Chain l.heap none (xs ++ c ∷ ys) none
      pub distinct : Distinct (xs ++ c ∷ ys)
      pub at_ends : HasEnds l (xs ++ c ∷ ys)

    abbrev pub Goal : List (Cell A) → List (Cell A) → Type ℓ
    Goal xs ys = Stands xs ys → Ends (Unlinked l (xs ++ ys) c) (unlink l c.at)

    pub unlink-only : Goal [] []
    unfolding unlink
    unlink-only s =
        let t1 : same_ptr l.first (some c.at) ≡ true =
          ap (λ p. same_ptr p (some c.at)) s.at_ends.first_at ∙ same c.at in
        let t2 : same_ptr l.last (some c.at) ≡ true =
          ap (λ p. same_ptr p (some c.at)) s.at_ends.last_at ∙ same c.at in
        rw (load_node-done l.heap c.at _ s.chain.0, t1, t2)
          (ends (record {
            linked = record { heap = l.heap; state = refl; chain = tt };
            next = none;
            prev = none;
            held = s.chain.0;
          }))

    pub unlink-front : (z : Cell A) (zs : List (Cell A)) → Goal [] (z ∷ zs)
    unfolding unlink
    unlink-front z zs s =
        let t1 : same_ptr l.first (some c.at) ≡ true =
          ap (λ p. same_ptr p (some c.at)) s.at_ends.first_at ∙ same c.at in
        let t2 : same_ptr l.last (some c.at) ≡ false =
          ap (λ p. same_ptr p (some c.at)) s.at_ends.last_at
          ∙ last-ne z zs c (some c.at) s.distinct.0 in
        let k : Chain l.heap (some c.at) (z ∷ zs) none = s.chain.1 in
        rw
          (
            load_node-done l.heap c.at _ s.chain.0,
            t1,
            t2,
            set_prev-first l.heap (some c.at) z zs none none k,
          )
          (ends (record {
            linked = record {
              heap = with_prev l.heap z zs none none;
              state =
                  ap
                    (λ p. record l {
                      heap = with_prev l.heap z zs none none;
                      first = some z.at;
                      last = p;
                    })
                    s.at_ends.last_at;
              chain = Chain-with_prev l.heap (some c.at) z zs none none k s.distinct.1.0;
            };
            next = some z.at;
            prev = none;
            held = write-other l.heap z.at c.at _ (ground (arith, s.distinct.0)) ∙ s.chain.0;
          }))
