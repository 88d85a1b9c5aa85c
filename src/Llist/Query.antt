-- ===== src/Llist/Query.antt =====
-- The search for an element, and its removal.
use rcsw.Base.{
  ℕ, zero, suc, ◌+◌, ◌<◌, ◌≡◌, refl, sym, ap, inl, inr, Bool, true, false, not, ◌&&◌, Option, none,
  some, List, [], ◌∷◌, ◌++◌, arith, ◌==◌, Bool-cases, ==_iff, Exec, done, ◌>>=◌, Ends, ends,
  Ends-bind, Ends-map, Ends-if, einval, Status, ok, error, Element, length,
}
use mathlib.Core.Path.{subst}
use rcsw.Nodes.Chain.{Cell, head_or, Chain}
use rcsw.Nodes.Relink.{load_node-done}
use rcsw.Llist.{Llist}
use rcsw.Llist.Relink.{delete}
use rcsw.Llist.Edit.{matches, query_loop, node_query, remove}
use rcsw.Llist.Inv.{IsList, SameSetup}
use rcsw.Llist.Remove.{delete-Left}

module _ {ℓ} {A : Type ℓ} where
  module _ ⦃el : Element A⦄ (same : A → A → Bool) where
    -- No element of a stretch matches `e`.
    pub data NoMatch (l : Llist A) (e : A) : List (Cell A) → Type ℓ where
      no_more : NoMatch l e []
      passes :
          {c : Cell A} {xs : List (Cell A)}
          → matches same l c.datum e ≡ false
          → NoMatch l e xs
          → NoMatch l e (c ∷ xs)

    -- The first node of `xs` whose element matches, if there is one.
    pub data Queried (l : Llist A) (e : A) (xs : List (Cell A)) : Option ℕ → Type ℓ where
      missing : NoMatch l e xs → Queried l e xs none
      at_node :
          (us : List (Cell A)) (c : Cell A) (vs : List (Cell A))
          → xs ≡ us ++ c ∷ vs
          → NoMatch l e us
          → matches same l c.datum e ≡ true
          → Queried l e xs (some c.at)

    module _ (l : Llist A) (e : A) where
      Queried-skip :
          (c : Cell A) (xs : List (Cell A)) (r : Option ℕ)
          → matches same l c.datum e ≡ false
          → Queried l e xs r
          → Queried l e (c ∷ xs) r
      Queried-skip c xs r p (missing n) = missing (passes p n)
      Queried-skip c xs r p (at_node us d vs q n m) =
          at_node (c ∷ us) d vs (ap (λ ys. c ∷ ys) q) (passes p n) m

      query_loop-Queried :
          (fuel : ℕ) (before : Option ℕ) (xs : List (Cell A))
          → length xs < fuel
          → Chain l.heap before xs none
          → Ends (Queried l e xs) (query_loop same fuel l e (head_or xs none))
      unfolding query_loop
      query_loop-Queried zero before xs h k = absurd (omega arith)
      query_loop-Queried (suc fuel) before [] h k = ends (missing no_more)
      query_loop-Queried (suc fuel) before (c ∷ xs) h (k, ks) =
          rw (load_node-done l.heap c.at _ k) (
            Ends-if (matches same l c.datum e) (λ m. ends (at_node [] c xs refl no_more m))
              (λ m.
                Ends-map (query_loop-Queried fuel (some c.at) xs (omega arith) ks)
                  (λ r q. Queried-skip c xs r m q)))

    -- How `llist_remove` ends.
    pub data FirstGone (l : Llist A) (xs : List (Cell A)) (e : A) : Status × Llist A → Type ℓ where
      empty : xs ≡ [] → FirstGone l xs e (error einval, l)
      unsearched : l.has_cmpe ≡ false → l.by_ptr ≡ false → FirstGone l xs e (ok, l)
      absent : (not l.has_cmpe && not l.by_ptr) ≡ false → NoMatch l e xs → FirstGone l xs e (ok, l)
      removed :
          {l' : Llist A} (us : List (Cell A)) (c : Cell A) (vs : List (Cell A))
          → (not l.has_cmpe && not l.by_ptr) ≡ false
          → xs ≡ us ++ c ∷ vs
          → NoMatch l e us
          → matches same l c.datum e ≡ true
          → IsList l' (us ++ vs)
          → SameSetup l l'
          → FirstGone l xs e (ok, l')

    empty-or : (xs : List (Cell A)) → (length xs == 0) ≡ true → xs ≡ []
    empty-or [] h = refl
    empty-or (c ∷ xs) h = absurd (omega (arith, (==_iff (length (c ∷ xs)) 0).0 h))

    module _ (l : Llist A) (xs : List (Cell A)) (e : A) (v : IsList l xs) where
      pub node_query-Queried :
          (not l.has_cmpe && not l.by_ptr) ≡ false → Ends (Queried l e xs) (node_query same l e)
      unfolding node_query
      node_query-Queried h = rw h (
          subst (λ n. Ends (Queried l e xs) (query_loop same (n + 1) l e l.first)) (sym v.count)
            (subst (λ p. Ends (Queried l e xs) (query_loop same (length xs + 1) l e p))
              (sym v.at_ends.first_at)
              (query_loop-Queried l e (length xs + 1) none xs (omega arith) v.chain)))

      both : (a b : Bool) → (not a && not b) ≡ true → (a ≡ false) × (b ≡ false)
      both false false h = (refl, refl)
      both a b h = cc

      no_query : (not l.has_cmpe && not l.by_ptr) ≡ true → node_query same l e ≡ done none
      unfolding node_query
      no_query h = rw h refl

      abbrev after : Option ℕ → Exec (Status × Llist A)
      after p = elim p [ none ↦ done (ok, l) | some a ↦ delete l a >>= (λ r. done (ok, r.1)) ]

      -- `llist_remove` on a list ends well. Of the elements that match, the first one goes, and
      -- the others stay in their order; without a match, or with neither a comparison function nor
      -- the flag DB_PTR, nothing changes and OK is answered. Only an empty list is an error.
      pub remove-FirstGone : Ends (FirstGone l xs e) (remove same l e)
      unfolding remove
      remove-FirstGone =
          Ends-if (l.current == 0)
            (λ z. ends (empty (empty-or xs (subst (λ n. (n == 0) ≡ true) v.count z))))
            (λ z. elim (Bool-cases (not l.has_cmpe && not l.by_ptr)) [
              | inl h ↦ nothing h
              | inr h ↦ Ends-bind (node_query-Queried h) (taken h)
            ])
        where
          from_none :
              (l.has_cmpe ≡ false) × (l.by_ptr ≡ false)
              → node_query same l e ≡ done none
              → Ends (FirstGone l xs e) (node_query same l e >>= after)
          from_none b q = rw q (ends (unsearched b.0 b.1))

          nothing :
              (not l.has_cmpe && not l.by_ptr) ≡ true
              → Ends (FirstGone l xs e) (node_query same l e >>= after)
          nothing h = from_none (both l.has_cmpe l.by_ptr h) (no_query h)

          taken :
              (not l.has_cmpe && not l.by_ptr) ≡ false
              → (p : Option ℕ) → Queried l e xs p
              → Ends (FirstGone l xs e) (after p)
          taken h p (missing n) = ends (absent h n)
          taken h p (at_node us c vs q n m) =
              Ends-bind (delete-Left l us c vs (subst (IsList l) q v))
                (λ r d. ends (removed us c vs h q n m d.1 d.2))
