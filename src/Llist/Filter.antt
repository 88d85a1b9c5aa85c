-- ===== src/Llist/Filter.antt =====
-- The removal of all elements that a predicate picks.
use rcsw.Base.{
  ℕ, zero, suc, ◌+◌, ◌<◌, ◌≡◌, refl, sym, ap, ap₂, ◌∙◌, ◌≢◌, inl, inr, Bool, true, false, not, ◌&&◌,
  Option, none, some, List, [], ◌∷◌, ◌++◌, arith, if◌then◌else◌, Bool-cases, true-ne-false, Ends,
  ends, Ends-bind, Ends-map, Status, ok, Element, length,
}
use mathlib.Core.Path.{subst}
use mathlib.Core.List.{append_assoc}
use rcsw.Nodes.Chain.{Cell, head_or, Chain-split}
use rcsw.Nodes.Relink.{load_node-done}
use rcsw.Llist.{Llist}
use rcsw.Llist.Edit.{matches, remove, remove_match, filter_loop, filter2}
use rcsw.Llist.Inv.{IsList, SameSetup, SameSetup-refl, SameSetup-trans}
use rcsw.Llist.Query.{
  NoMatch, passes, FirstGone, empty, unsearched, absent, removed, remove-FirstGone,
}

module _ {ℓ} {A : Type ℓ} ⦃el : Element A⦄ (same : A → A → Bool) (pred : A → Bool) where
  -- What stays: the nodes whose elements the predicate does not pick.
  abbrev pub kept : List (Cell A) → List (Cell A)
  kept [] = []
  kept (c ∷ xs) = if pred c.datum then kept xs else c ∷ kept xs

  data AllKept : List (Cell A) → Type ℓ where
    none_left : AllKept []
    keeps : {c : Cell A} {xs : List (Cell A)} → pred c.datum ≡ false → AllKept xs → AllKept (c ∷ xs)

  AllKept-snoc :
      (xs : List (Cell A)) (c : Cell A) → AllKept xs → pred c.datum ≡ false → AllKept (xs ++ c ∷ [])
  AllKept-snoc [] c none_left p = keeps p none_left
  AllKept-snoc (x ∷ xs) c (keeps q k) p = keeps q (AllKept-snoc xs c k p)

  -- The list can be searched, an element matches itself, and the predicate does not tell apart
  -- elements that match.
  pub record IsFair (l : Llist A) : Type ℓ where
    pub searched : (not l.has_cmpe && not l.by_ptr) ≡ false
    pub itself : (x : A) → matches same l x x ≡ true
    pub agrees : (x y : A) → matches same l x y ≡ true → pred x ≡ pred y

  IsFair-setup : {l l' : Llist A} → SameSetup l l' → IsFair l → IsFair l'
  IsFair-setup s f = record {
    searched = rw (s.has_cmpe, s.by_ptr) f.searched;
    itself = λ x. rw s.by_ptr (f.itself x);
    agrees = λ x y h. f.agrees x y (rw (sym s.by_ptr) h);
  }

  module _ (l : Llist A) (f : IsFair l) (c d : Cell A) (ys vs : List (Cell A)) where
    -- The first match of a picked element behind kept ones is the element itself.
    first-match :
        (ks us : List (Cell A))
        → AllKept ks
        → pred c.datum ≡ true
        → NoMatch same l c.datum us
        → matches same l d.datum c.datum ≡ true
        → ks ++ c ∷ ys ≡ us ++ d ∷ vs
        → us ++ vs ≡ ks ++ ys
    first-match [] [] k p n m e = cc
    first-match [] (u ∷ us) k p (passes q n) m e =
        let s : c ≡ u = cc in
        absurd
          (true-ne-false (sym (f.itself c.datum) ∙ ap (λ w. matches same l w.datum c.datum) s ∙ q))
    first-match (x ∷ ks) [] (keeps q k) p n m e =
        let s : x ≡ d = cc in
        absurd (
          true-ne-false
            (sym p ∙ sym (f.agrees d.datum c.datum m) ∙ sym (ap (λ w. pred w.datum) s) ∙ q))
    first-match (x ∷ ks) (u ∷ us) (keeps q k) p (passes r n) m e =
        let s : x ≡ u = cc in
        let t : ks ++ c ∷ ys ≡ us ++ d ∷ vs = cc in
        ap₂ (λ w zs. w ∷ zs) (sym s) (first-match ks us k p n m t)

  some-node : (ks : List (Cell A)) (c : Cell A) (ys : List (Cell A)) → ks ++ c ∷ ys ≢ []
  some-node [] c ys e = cc
  some-node (k ∷ ks) c ys e = cc

  missed :
      (l : Llist A) (f : IsFair l) (ks : List (Cell A)) (c : Cell A) (ys : List (Cell A))
      → NoMatch same l c.datum (ks ++ c ∷ ys)
      → ⊥
  missed l f [] c ys (passes q n) = true-ne-false (sym (f.itself c.datum) ∙ q)
  missed l f (k ∷ ks) c ys (passes q n) = missed l f ks c ys n

  abbrev Now : Llist A → List (Cell A) → Status × Llist A → Type ℓ
  Now l xs (st, l') = (st ≡ ok) × IsList l' xs × SameSetup l l'

  remove-Now :
      (l : Llist A) (f : IsFair l) (ks : List (Cell A)) (c : Cell A) (ys : List (Cell A))
      → IsList l (ks ++ c ∷ ys)
      → AllKept ks
      → pred c.datum ≡ true
      → Ends (Now l (ks ++ ys)) (remove same l c.datum)
  remove-Now l f ks c ys v k p = Ends-map (remove-FirstGone same l (ks ++ c ∷ ys) c.datum v) answer
    where
      answer :
          (r : Status × Llist A) → FirstGone same l (ks ++ c ∷ ys) c.datum r → Now l (ks ++ ys) r
      answer r (empty e) = absurd (some-node ks c ys e)
      answer r (unsearched a b) = absurd (true-ne-false (sym (rw (a, b) refl) ∙ f.searched))
      answer r (absent b n) = absurd (missed l f ks c ys n)
      answer r (removed {l'} us d vs b e n m w s) =
          (refl, subst (IsList l') (first-match l f c d ys vs ks us k p n m e) w, s)

  -- The node that the walk has passed and that is to go, if there is one.
  data Pending (l : Llist A) (ks ys : List (Cell A)) : Option ℕ → Type ℓ where
    nothing : IsList l (ks ++ ys) → Pending l ks ys none
    waits :
        (c : Cell A) → IsList l (ks ++ c ∷ ys) → pred c.datum ≡ true → Pending l ks ys (some c.at)

  remove_match-Now :
      (l : Llist A) (f : IsFair l) (ks ys : List (Cell A)) (match : Option ℕ)
      → AllKept ks
      → Pending l ks ys match
      → Ends (Now l (ks ++ ys)) (remove_match same l match)
  remove_match-Now l f ks ys match k (nothing v) = ends (refl, v, SameSetup-refl l)
  remove_match-Now l f ks ys match k (waits c v p) =
      rw (load_node-done l.heap c.at _ (Chain-split l.heap none ks (c ∷ ys) none v.chain).1.0)
        (remove-Now l f ks c ys v k p)

  filter_loop-Now :
      (fuel : ℕ) (l : Llist A) (f : IsFair l) (ks ys : List (Cell A)) (match : Option ℕ)
      → length ys < fuel
      → AllKept ks
      → Pending l ks ys match
      → Ends (Now l (ks ++ kept ys)) (filter_loop same fuel l pred (head_or ys none) match)
  unfolding filter_loop
  filter_loop-Now zero l f ks ys match h k w = absurd (omega arith)
  filter_loop-Now (suc fuel) l f ks [] match h k w = remove_match-Now l f ks [] match k w
  filter_loop-Now (suc fuel) l f ks (c ∷ ys) match h k w =
      Ends-bind (remove_match-Now l f ks (c ∷ ys) match k w) (λ (st, l') (e, v, s).
        let f' = IsFair-setup s f in
        let walk : Ends (Now l' (ks ++ kept (c ∷ ys))) (
            filter_loop same fuel l' pred (head_or ys none)
              (if pred c.datum then some c.at else none)) =
          elim (Bool-cases (pred c.datum)) [
            | inl p ↦
                rw p (filter_loop-Now fuel l' f' ks ys (some c.at) (omega arith) k (waits c v p))
            | inr p ↦
                rw (p, sym (append_assoc ks (c ∷ []) (kept ys)))
                  (filter_loop-Now fuel l' f' (ks ++ c ∷ []) ys none (omega arith)
                    (AllKept-snoc ks c k p)
                    (nothing (subst (IsList l') (sym (append_assoc ks (c ∷ []) ys)) v)))
          ] in
        rw
          (e, load_node-done l'.heap c.at _ (Chain-split l'.heap none ks (c ∷ ys) none v.chain).1.0)
          (Ends-map walk (λ r (o, v', s'). (o, v', SameSetup-trans s s'))))

  -- `llist_filter2` ends well on a list that can be searched, if the predicate gives one answer for
  -- elements that match: exactly the elements that it picks are gone, and the others stay in
  -- their order, on the nodes that they had.
  pub filter2-kept :
      (l : Llist A) (xs : List (Cell A))
      → IsFair l
      → IsList l xs
      → Ends (λ (st, l'). (st ≡ ok) × IsList l' (kept xs) × SameSetup l l') (filter2 same l pred)
  unfolding filter2
  filter2-kept l xs f v =
      subst (λ n. Ends (Now l (kept xs)) (filter_loop same (n + 1) l pred l.first none))
        (sym v.count)
        (subst (λ p. Ends (Now l (kept xs)) (filter_loop same (length xs + 1) l pred p none))
          (sym v.at_ends.first_at)
          (filter_loop-Now (length xs + 1) l f [] xs none (omega arith) none_left (nothing v)))
