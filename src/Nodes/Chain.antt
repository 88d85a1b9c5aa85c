-- ===== src/Nodes/Chain.antt =====
-- Stretches of doubly linked nodes: the cells that they stand for, and what leaves them alone.
use rcsw.Base.{
  ℕ, ◌≡◌, refl, sym, ap, ◌∙◌, ◌⊎◌, inl, inr, Bool, true, false, ◌||◌, Option, some, List, [], ◌∷◌,
  ◌++◌, arith, ◌==◌, Bool-cases, ==_iff, true-ne-false,
}
use rcsw.Nodes.{Node, Heap, write}

-- The address, the data block and the contents of a node.
pub record Cell {ℓ} (A : Type ℓ) : Type ℓ where
  pub at : ℕ
  pub block : ℕ
  pub datum : A

module _ {ℓ} {A : Type ℓ} where
  abbrev pub has : ℕ → List (Cell A) → Bool
  has a [] = false
  has a (c ∷ xs) = (a == c.at) || has a xs

  abbrev pub head_or : List (Cell A) → Option ℕ → Option ℕ
  head_or [] d = d
  head_or (c ∷ xs) d = some c.at

  abbrev pub last_or : List (Cell A) → Option ℕ → Option ℕ
  last_or [] d = d
  last_or (c ∷ xs) d = last_or xs (some c.at)

  abbrev pub node_of : Cell A → (next prev : Option ℕ) → Node A
  node_of c next prev = record { next = next; prev = prev; value = c.datum; block = c.block }

  -- The nodes of `xs` follow each other; the first points back to `before`, the last on to `after`.
  abbrev pub Chain : Heap A → (before : Option ℕ) → List (Cell A) → (after : Option ℕ) → Type ℓ
  Chain h before [] after = Unit {ℓ}
  Chain h before (c ∷ xs) after =
      (h c.at ≡ some (node_of c (head_or xs after) before)) × Chain h (some c.at) xs after

  abbrev pub Distinct : List (Cell A) → Type 0
  Distinct [] = Unit {0}
  Distinct (c ∷ xs) = (has c.at xs ≡ false) × Distinct xs

  abbrev pub SameOutside : List (Cell A) → Heap A → Heap A → Type ℓ
  SameOutside xs h g = (a : ℕ) → has a xs ≡ false → g a ≡ h a

  pub write-at : (h : Heap A) (p : ℕ) (n : Option (Node A)) → write h p n p ≡ n
  unfolding write
  write-at h p n = ground arith

  pub write-other :
      (h : Heap A) (p a : ℕ) (n : Option (Node A)) → (a == p) ≡ false → write h p n a ≡ h a
  unfolding write
  write-other h p a n e = rw e refl

  pub has-append : (a : ℕ) (xs ys : List (Cell A)) → has a (xs ++ ys) ≡ (has a xs || has a ys)
  has-append a [] ys = refl
  has-append a (c ∷ xs) ys = ground (arith, has-append a xs ys)

  pub head_or-append :
      (xs ys : List (Cell A)) (d : Option ℕ) → head_or (xs ++ ys) d ≡ head_or xs (head_or ys d)
  head_or-append [] ys d = refl
  head_or-append (c ∷ xs) ys d = refl

  pub last_or-append :
      (xs ys : List (Cell A)) (d : Option ℕ) → last_or (xs ++ ys) d ≡ last_or ys (last_or xs d)
  last_or-append [] ys d = refl
  last_or-append (c ∷ xs) ys d = last_or-append xs ys (some c.at)

  -- A chain survives what spares its own nodes.
  pub frame :
      {h g : Heap A} (before : Option ℕ) (xs : List (Cell A)) (after : Option ℕ)
      → Chain h before xs after
      → ((a : ℕ) → has a xs ≡ true → g a ≡ h a)
      → Chain g before xs after
  frame before [] after k same = tt
  frame before (c ∷ xs) after (e, k) same = (
    same c.at (ground arith) ∙ e,
    frame (some c.at) xs after k (λ a q. same a (ground (arith, q))),
  )

  pub frame-write :
      (h : Heap A) (p : ℕ) (n : Option (Node A)) (before : Option ℕ) (xs : List (Cell A))
      (after : Option ℕ)
      → Chain h before xs after
      → has p xs ≡ false
      → Chain (write h p n) before xs after
  frame-write h p n before xs after k out =
      frame before xs after k (λ a q. write-other h p a n (apart a q))
    where
      apart : (a : ℕ) → has a xs ≡ true → (a == p) ≡ false
      apart a q = elim (Bool-cases (a == p)) [
        | inl e ↦ absurd (true-ne-false (sym q ∙ ap (λ b. has b xs) ((==_iff a p).0 e) ∙ out))
        | inr e ↦ e
      ]

  pub Chain-append :
      (h : Heap A) (before : Option ℕ) (xs ys : List (Cell A)) (after : Option ℕ)
      → Chain h before xs (head_or ys after)
      → Chain h (last_or xs before) ys after
      → Chain h before (xs ++ ys) after
  Chain-append h before [] ys after k l = l
  Chain-append h before (c ∷ xs) ys after (e, k) l = (
    e ∙ ap (λ q. some (node_of c q before)) (sym (head_or-append xs ys after)),
    Chain-append h (some c.at) xs ys after k l,
  )

  pub Chain-split :
      (h : Heap A) (before : Option ℕ) (xs ys : List (Cell A)) (after : Option ℕ)
      → Chain h before (xs ++ ys) after
      → Chain h before xs (head_or ys after) × Chain h (last_or xs before) ys after
  Chain-split h before [] ys after k = (tt, k)
  Chain-split h before (c ∷ xs) ys after (e, k) =
      let (k1, k2) = Chain-split h (some c.at) xs ys after k in
      ((e ∙ ap (λ q. some (node_of c q before)) (head_or-append xs ys after), k1), k2)

  abbrev pub Apart : List (Cell A) → List (Cell A) → Type 0
  Apart xs ys = (a : ℕ) → has a xs ≡ true → has a ys ≡ false

  pub Distinct-split :
      (xs ys : List (Cell A)) → Distinct (xs ++ ys) → Distinct xs × Distinct ys × Apart xs ys
  Distinct-split [] ys d = (tt, d, λ a q. cc)
  Distinct-split (c ∷ xs) ys (out, d) =
      let (dx, dy, apart) = Distinct-split xs ys d in
      let here : (has c.at xs ≡ false) × (has c.at ys ≡ false) =
        ground (arith, has-append c.at xs ys, out) in
      (
        (here.0, dx),
        dy,
        λ a q. elim (Bool-cases (a == c.at)) [
          | inl e ↦ rw ((==_iff a c.at).0 e) here.1
          | inr e ↦ apart a (ground (arith, q, e))
        ],
      )

  pub Distinct-append :
      (xs ys : List (Cell A)) → Distinct xs → Distinct ys → Apart xs ys → Distinct (xs ++ ys)
  Distinct-append [] ys dx dy apart = dy
  Distinct-append (c ∷ xs) ys (out, dx) dy apart = (
    rw (has-append c.at xs ys, out) (apart c.at (ground arith)),
    Distinct-append xs ys dx dy (λ a q. apart a (ground (arith, q))),
  )

  -- A node in the middle of a chain, and the others.
  pub Distinct-middle :
      (xs : List (Cell A)) (c : Cell A) (ys : List (Cell A))
      → Distinct (xs ++ c ∷ ys)
      → (has c.at xs ≡ false) × (has c.at ys ≡ false) × Distinct (xs ++ ys)
  Distinct-middle xs c ys d =
      let (dx, (out, dy), apart) = Distinct-split xs (c ∷ ys) d in
      (
        elim (Bool-cases (has c.at xs)) [
          | inl e ↦ absurd (true-ne-false (sym (here c.at ys) ∙ apart c.at e))
          | inr e ↦ e
        ],
        out,
        Distinct-append xs ys dx dy (λ a q. ground (arith, apart a q)),
      )
    where
      here : (a : ℕ) (zs : List (Cell A)) → ((a == a) || has a zs) ≡ true
      here a zs = ground arith

  -- A list is empty or has a last entry.
  pub snoc-cases :
      (xs : List (Cell A)) → (xs ≡ []) ⊎ ((ys : List (Cell A)) × (y : Cell A) × (xs ≡ ys ++ y ∷ []))
  snoc-cases [] = inl refl
  snoc-cases (c ∷ xs) = elim (snoc-cases xs) [
    | inl e ↦ inr ([], c, ap (λ r. c ∷ r) e)
    | inr (ys, y, e) ↦ inr (c ∷ ys, y, ap (λ r. c ∷ r) e)
  ]
