-- ===== src/Nodes/Nexts.antt =====
-- Stretches of nodes of which only the forward links are known.
use rcsw.Base.{
  ℕ, ◌≡◌, sym, ap, ◌∙◌, inl, inr, true, false, Option, some, List, [], ◌∷◌, ◌++◌, arith, ◌==◌,
  Bool-cases, ==_iff, true-ne-false, Ends, ends,
}
use rcsw.Nodes.{Node, Heap, write, set_next}
use rcsw.Nodes.Relink.{set_next-done}
use rcsw.Nodes.Chain.{
  Cell, has, head_or, head_or-append, node_of, Chain, write-at, write-other, SameOutside,
}

module _ {ℓ} {A : Type ℓ} where
  -- From node to node of `xs` and on to `after`; where the nodes point back to is left open.
  abbrev pub Nexts : Heap A → List (Cell A) → (after : Option ℕ) → Type ℓ
  Nexts h [] after = Unit {ℓ}
  Nexts h (c ∷ xs) after =
      ((p : Option ℕ) × (h c.at ≡ some (node_of c (head_or xs after) p))) × Nexts h xs after

  pub Chain-Nexts :
      (h : Heap A) (before : Option ℕ) (xs : List (Cell A)) (after : Option ℕ)
      → Chain h before xs after
      → Nexts h xs after
  Chain-Nexts h before [] after k = tt
  Chain-Nexts h before (c ∷ xs) after (e, k) = ((before, e), Chain-Nexts h (some c.at) xs after k)

  pub frame-Nexts :
      (h g : Heap A) (xs : List (Cell A)) (after : Option ℕ)
      → Nexts h xs after
      → ((a : ℕ) → has a xs ≡ true → g a ≡ h a)
      → Nexts g xs after
  frame-Nexts h g [] after k same = tt
  frame-Nexts h g (c ∷ xs) after ((p, e), k) same = (
    (p, same c.at (ground arith) ∙ e),
    frame-Nexts h g xs after k (λ a q. same a (ground (arith, q))),
  )

  pub Nexts-write :
      (h : Heap A) (p : ℕ) (n : Option (Node A)) (xs : List (Cell A)) (after : Option ℕ)
      → Nexts h xs after
      → has p xs ≡ false
      → Nexts (write h p n) xs after
  Nexts-write h p n xs after k out = frame-Nexts h (write h p n) xs after k (λ a q.
      write-other h p a n (elim (Bool-cases (a == p)) [
        | inl e ↦ absurd (true-ne-false (sym q ∙ ap (λ b. has b xs) ((==_iff a p).0 e) ∙ out))
        | inr e ↦ e
      ]))

  pub Nexts-split :
      (h : Heap A) (xs ys : List (Cell A)) (after : Option ℕ)
      → Nexts h (xs ++ ys) after
      → Nexts h xs (head_or ys after) × Nexts h ys after
  Nexts-split h [] ys after k = (tt, k)
  Nexts-split h (c ∷ xs) ys after ((p, e), k) =
      let (k1, k2) = Nexts-split h xs ys after k in
      (((p, e ∙ ap (λ q. some (node_of c q p)) (head_or-append xs ys after)), k1), k2)

  pub Nexts-append :
      (h : Heap A) (xs ys : List (Cell A)) (after : Option ℕ)
      → Nexts h xs (head_or ys after)
      → Nexts h ys after
      → Nexts h (xs ++ ys) after
  Nexts-append h [] ys after k l = l
  Nexts-append h (c ∷ xs) ys after ((p, e), k) l = (
    (p, e ∙ ap (λ q. some (node_of c q p)) (sym (head_or-append xs ys after))),
    Nexts-append h xs ys after k l,
  )

  -- The last of `ys ++ y ∷ []` is made to point to `q`.
  pub Nexts-cut :
      (h : Heap A) (ys : List (Cell A)) (y : Cell A) (after q : Option ℕ)
      → Nexts h (ys ++ y ∷ []) after
      → has y.at ys ≡ false
      → Ends (λ g. Nexts g (ys ++ y ∷ []) q × SameOutside (y ∷ []) h g) (set_next h (some y.at) q)
  Nexts-cut h ys y after q k out =
      let ((p, e), _) = (Nexts-split h ys (y ∷ []) after k).1 in
      let g = write h y.at (some (node_of y q p)) in
      rw (set_next-done h y.at q _ e) (
        ends (
          Nexts-append g ys (y ∷ []) q
              (Nexts-write h y.at _ ys (some y.at) (Nexts-split h ys (y ∷ []) after k).0 out)
              ((p, write-at h y.at _), tt),
          λ a o. write-other h y.at a _ (ground (arith, o)),
        ))
