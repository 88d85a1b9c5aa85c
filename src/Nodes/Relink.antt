-- ===== src/Nodes/Relink.antt =====
-- A write to the link at either end of a chain.
use rcsw.Base.{ℕ, ◌≡◌, ap, false, Option, some, List, [], ◌∷◌, ◌++◌, done, ◌>>=◌}
use rcsw.Nodes.{Node, Heap, write, found, load_node, set_next, set_prev}
use rcsw.Nodes.Chain.{
  Cell, has, head_or, last_or, node_of, Chain, Distinct, Distinct-middle, write-at, frame-write,
  Chain-append, Chain-split,
}

module _ {ℓ} {A : Type ℓ} where
  pub load_node-done :
      (h : Heap A) (p : ℕ) (n : Node A) → h p ≡ some n → load_node h (some p) ≡ done n
  unfolding load_node
  load_node-done h p n e = ap found e

  pub set_next-done :
      (h : Heap A) (p : ℕ) (q : Option ℕ) (n : Node A)
      → h p ≡ some n
      → set_next h (some p) q ≡ done (write h p (some (record n { next = q })))
  unfolding set_next
  set_next-done h p q n e =
      ap (λ r. found r >>= (λ m. done (write h p (some (record m { next = q }))))) e

  pub set_prev-done :
      (h : Heap A) (p : ℕ) (q : Option ℕ) (n : Node A)
      → h p ≡ some n
      → set_prev h (some p) q ≡ done (write h p (some (record n { prev = q })))
  unfolding set_prev
  set_prev-done h p q n e =
      ap (λ r. found r >>= (λ m. done (write h p (some (record m { prev = q }))))) e

  -- The memory after the last node of `ys ++ y ∷ []` is made to point to `q`, and after the first
  -- of `z ∷ zs` is made to point back to `q`.
  abbrev pub with_next :
      Heap A → (before : Option ℕ) → List (Cell A) → Cell A → (q : Option ℕ) → Heap A
  with_next h before ys y q = write h y.at (some (node_of y q (last_or ys before)))

  abbrev pub with_prev : Heap A → Cell A → List (Cell A) → (after q : Option ℕ) → Heap A
  with_prev h z zs after q = write h z.at (some (node_of z (head_or zs after) q))

  module _ (h : Heap A) (before : Option ℕ) (ys : List (Cell A)) (y : Cell A) (after q : Option ℕ)
      (k : Chain h before (ys ++ y ∷ []) after) where
    pub last-holds : h y.at ≡ some (node_of y after (last_or ys before))
    last-holds = let (k1, (e, _)) = Chain-split h before ys (y ∷ []) after k in e

    pub set_next-last : set_next h (some y.at) q ≡ done (with_next h before ys y q)
    set_next-last = set_next-done h y.at q _ last-holds

    pub Chain-with_next :
        Distinct (ys ++ y ∷ []) → Chain (with_next h before ys y q) before (ys ++ y ∷ []) q
    Chain-with_next d =
        let (k1, _) = Chain-split h before ys (y ∷ []) after k in
        let (out, _, _) = Distinct-middle ys y [] d in
        Chain-append _ before ys (y ∷ []) q (frame-write h y.at _ before ys (some y.at) k1 out)
          (write-at h y.at _, tt)

  module _ (h : Heap A) (before : Option ℕ) (z : Cell A) (zs : List (Cell A)) (after q : Option ℕ)
      (k : Chain h before (z ∷ zs) after) where
    pub set_prev-first : set_prev h (some z.at) q ≡ done (with_prev h z zs after q)
    set_prev-first = set_prev-done h z.at q _ k.0

    pub Chain-with_prev : has z.at zs ≡ false → Chain (with_prev h z zs after q) q (z ∷ zs) after
    Chain-with_prev out = (write-at h z.at _, frame-write h z.at _ (some z.at) zs after k.1 out)
