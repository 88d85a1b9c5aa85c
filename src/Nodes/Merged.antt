-- ===== src/Nodes/Merged.antt =====
-- The merge of two lists of cells, and what it means that one list of cells sorts another.
use rcsw.Base.{
  ℕ, ◌+◌, ◌≡◌, refl, sym, ap₂, ◌∙◌, inl, inr, Bool, true, false, ◌||◌, List, [], ◌∷◌, ◌++◌, Perm,
  arith, ◌==◌, if◌then◌else◌, Bool-cases, ==_iff, true-ne-false, Element, cmp_le, IsOrder, ◌≼◌,
  length, length-append, ≼_of_cmp_le, ≼_of_not-cmp_le,
}
use mathlib.Core.Path.{subst}
use mathlib.Core.List.Perm
use mathlib.Core.List.{append-nil, perm_middle}
use rcsw.Nodes.Chain.{Cell, has, has-append, Distinct, Distinct-split, Apart}

module _ {ℓ} {A : Type ℓ} where
  -- Whether a number is a key of a cell, and that no two cells have one key.
  abbrev pub keyed : (f : Cell A → ℕ) → ℕ → List (Cell A) → Bool
  keyed f a [] = false
  keyed f a (c ∷ xs) = (a == f c) || keyed f a xs

  abbrev pub Unrepeated : (f : Cell A → ℕ) → List (Cell A) → Type 0
  Unrepeated f [] = Unit {0}
  Unrepeated f (c ∷ xs) = (keyed f (f c) xs ≡ false) × Unrepeated f xs

module _ {ℓ} {A : Type ℓ} ⦃el : Element A⦄ where
  -- The lesser head first, and the left one where neither is less.
  unfoldable pub merge : List (Cell A) → List (Cell A) → List (Cell A)
  merge [] rs = rs
  merge (c ∷ ls) [] = c ∷ ls
  merge (c ∷ ls) (d ∷ rs) =
      let left_first = c ∷ merge ls (d ∷ rs) in
      let right_first = d ∷ merge (c ∷ ls) rs in
      if cmp_le c.datum d.datum then left_first else right_first

  -- `a` is not above an element of the list, and no element is above a later one.
  abbrev pub Below : A → List (Cell A) → Type 0
  Below a [] = Unit {0}
  Below a (c ∷ xs) = (a ≼ c.datum) × Below a xs

  abbrev pub Ascending : List (Cell A) → Type 0
  Ascending [] = Unit {0}
  Ascending (c ∷ xs) = Below c.datum xs × Ascending xs

  -- `ys` has the cells of `xs`, in ascending order.
  pub record Sorts (xs ys : List (Cell A)) : Type ℓ where
    pub perm : Perm ys xs
    pub same_nodes : (a : ℕ) → has a ys ≡ has a xs
    pub distinct : Distinct xs → Distinct ys
    pub ascending : Ascending ys
    pub count : length ys ≡ length xs
    pub same_keys : (f : Cell A → ℕ) (a : ℕ) → keyed f a ys ≡ keyed f a xs
    pub unrepeated : (f : Cell A → ℕ) → Unrepeated f xs → Unrepeated f ys

  merge-perm : (ls rs : List (Cell A)) → Perm (merge ls rs) (ls ++ rs)
  unfolding merge
  merge-perm [] rs = Perm.refl rs
  merge-perm (c ∷ ls) [] = subst (Perm (c ∷ ls)) (sym (append-nil (c ∷ ls))) (Perm.refl (c ∷ ls))
  merge-perm (c ∷ ls) (d ∷ rs) = elim (Bool-cases (cmp_le c.datum d.datum)) [
    | inl e ↦ rw e (Perm.cons c (merge-perm ls (d ∷ rs)))
    | inr e ↦
        rw e
          (Perm.trans (Perm.cons d (merge-perm (c ∷ ls) rs)) (Perm.symm (perm_middle (c ∷ ls) rs)))
  ]

  module _ (f : Cell A → ℕ) where
    keyed-append :
        (a : ℕ) (xs ys : List (Cell A)) → keyed f a (xs ++ ys) ≡ (keyed f a xs || keyed f a ys)
    keyed-append a [] ys = refl
    keyed-append a (c ∷ xs) ys = ground (arith, keyed-append a xs ys)

    keyed-merge :
        (a : ℕ) (ls rs : List (Cell A)) → keyed f a (merge ls rs) ≡ (keyed f a ls || keyed f a rs)
    unfolding merge
    keyed-merge a [] rs = refl
    keyed-merge a (c ∷ ls) [] = ground arith
    keyed-merge a (c ∷ ls) (d ∷ rs) = elim (Bool-cases (cmp_le c.datum d.datum)) [
      | inl e ↦ rw e (ground (arith, keyed-merge a ls (d ∷ rs)))
      | inr e ↦ rw e (ground (arith, keyed-merge a (c ∷ ls) rs))
    ]

    abbrev Parted : List (Cell A) → List (Cell A) → Type 0
    Parted ls rs = (a : ℕ) → keyed f a ls ≡ true → keyed f a rs ≡ false

    Unrepeated-split :
        (ls rs : List (Cell A))
        → Unrepeated f (ls ++ rs)
        → Unrepeated f ls × Unrepeated f rs × Parted ls rs
    Unrepeated-split [] rs u = (tt, u, λ a q. cc)
    Unrepeated-split (c ∷ ls) rs (out, u) =
        let (ul, ur, apart) = Unrepeated-split ls rs u in
        let at_c : (keyed f (f c) ls ≡ false) × (keyed f (f c) rs ≡ false) =
          ground (arith, keyed-append (f c) ls rs, out) in
        (
          (at_c.0, ul),
          ur,
          λ a q. elim (Bool-cases (a == f c)) [
            | inl e ↦ rw ((==_iff a (f c)).0 e) at_c.1
            | inr e ↦ apart a (ground (arith, q, e))
          ],
        )

    Unrepeated-merge :
        (ls rs : List (Cell A))
        → Unrepeated f ls
        → Unrepeated f rs
        → Parted ls rs
        → Unrepeated f (merge ls rs)
    unfolding merge
    Unrepeated-merge [] rs dl dr apart = dr
    Unrepeated-merge (c ∷ ls) [] dl dr apart = dl
    Unrepeated-merge (c ∷ ls) (d ∷ rs) (ol, dl) (or, dr) apart =
        let across : (keyed f (f c) (d ∷ rs) ≡ false) = apart (f c) (ground arith) in
        elim (Bool-cases (cmp_le c.datum d.datum)) [
          | inl e ↦ rw e (
            ground (arith, keyed-merge (f c) ls (d ∷ rs), ol, across),
            Unrepeated-merge ls (d ∷ rs) dl (or, dr) (λ a h. apart a (ground (arith, h))),
          )
          | inr e ↦ rw e (
            ground (
              arith,
              keyed-merge (f d) (c ∷ ls) rs,
              or,
              not_left (f d) (keyed f (f d) rs) (apart (f d)),
            ),
            Unrepeated-merge (c ∷ ls) rs (ol, dl) dr (λ a h. ground (arith, apart a h)),
          )
        ]
      where
        not_left :
            (a : ℕ) (b : Bool)
            → (keyed f a (c ∷ ls) ≡ true → ((a == a) || b) ≡ false)
            → keyed f a (c ∷ ls) ≡ false
        not_left a b free = elim (Bool-cases (keyed f a (c ∷ ls))) [
          | inl e ↦ absurd (true-ne-false (sym (ground arith) ∙ free e))
          | inr e ↦ e
        ]

  length-merge : (ls rs : List (Cell A)) → length (merge ls rs) ≡ length ls + length rs
  unfolding merge
  length-merge [] rs = omega arith
  length-merge (c ∷ ls) [] = omega arith
  length-merge (c ∷ ls) (d ∷ rs) = elim (Bool-cases (cmp_le c.datum d.datum)) [
    | inl e ↦ rw e (omega (arith, length-merge ls (d ∷ rs)))
    | inr e ↦ rw e (omega (arith, length-merge (c ∷ ls) rs))
  ]

  module _ (ord : IsOrder A) where
    Below-trans : (a b : A) (xs : List (Cell A)) → a ≼ b → Below b xs → Below a xs
    Below-trans a b [] h w = tt
    Below-trans a b (c ∷ xs) h (p, w) = (ord.trans a b c.datum h p, Below-trans a b xs h w)

    Below-merge : (a : A) (ls rs : List (Cell A)) → Below a ls → Below a rs → Below a (merge ls rs)
    unfolding merge
    Below-merge a [] rs wl wr = wr
    Below-merge a (c ∷ ls) [] wl wr = wl
    Below-merge a (c ∷ ls) (d ∷ rs) (p, wl) (q, wr) = elim (Bool-cases (cmp_le c.datum d.datum)) [
      | inl e ↦ rw e (p, Below-merge a ls (d ∷ rs) wl (q, wr))
      | inr e ↦ rw e (q, Below-merge a (c ∷ ls) rs (p, wl) wr)
    ]

    Ascending-merge :
        (ls rs : List (Cell A)) → Ascending ls → Ascending rs → Ascending (merge ls rs)
    unfolding merge
    Ascending-merge [] rs al ar = ar
    Ascending-merge (c ∷ ls) [] al ar = al
    Ascending-merge (c ∷ ls) (d ∷ rs) (wl, al) (wr, ar) =
        elim (Bool-cases (cmp_le c.datum d.datum)) [
          | inl e ↦
              let h = ≼_of_cmp_le c.datum d.datum e in
              rw e (
                Below-merge c.datum ls (d ∷ rs) wl (h, Below-trans c.datum d.datum rs h wr),
                Ascending-merge ls (d ∷ rs) al (wr, ar),
              )
          | inr e ↦
              let h = ≼_of_not-cmp_le ord c.datum d.datum e in
              rw e (
                Below-merge d.datum (c ∷ ls) rs (h, Below-trans d.datum c.datum ls h wl) wr,
                Ascending-merge (c ∷ ls) rs (wl, al) ar,
              )
        ]

    -- Sorted halves, merged.
    pub Sorts-merge :
        (ls rs ls' rs' : List (Cell A))
        → Distinct (ls ++ rs)
        → Apart ls rs
        → Sorts ls ls'
        → Sorts rs rs'
        → Sorts (ls ++ rs) (merge ls' rs')
    Sorts-merge ls rs ls' rs' d apart sl sr =
        let (dl, dr, _) = Distinct-split ls rs d in
        record {
          perm = Perm.trans (merge-perm ls' rs') (Perm.append sl.perm sr.perm);
          same_nodes = λ a.
              keyed-merge (λ c. c.at) a ls' rs'
              ∙ ap₂ (λ x y. x || y) (sl.same_nodes a) (sr.same_nodes a)
              ∙ sym (has-append a ls rs);
          distinct = λ _.
              Unrepeated-merge (λ c. c.at) ls' rs' (sl.distinct dl) (sr.distinct dr)
                (λ a h. sr.same_nodes a ∙ apart a (sym (sl.same_nodes a) ∙ h));
          ascending = Ascending-merge ls' rs' sl.ascending sr.ascending;
          count = omega (arith, length-merge ls' rs', length-append ls rs, sl.count, sr.count);
          same_keys = λ f a.
              keyed-merge f a ls' rs'
              ∙ ap₂ (λ x y. x || y) (sl.same_keys f a) (sr.same_keys f a)
              ∙ sym (keyed-append f a ls rs);
          unrepeated = λ f u.
              let (ul, ur, part) = Unrepeated-split f ls rs u in
              Unrepeated-merge f ls' rs' (sl.unrepeated f ul) (sr.unrepeated f ur)
                (λ a h. sr.same_keys f a ∙ part a (sym (sl.same_keys f a) ∙ h));
        }
