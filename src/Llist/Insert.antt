-- ===== src/Llist/Insert.antt =====
-- Insertion at either end of a list.
use rcsw.Base.{
  ℕ, ◌+◌, ◌%◌, ◌^◌, ◌≤◌, ◌<◌, ◌≡◌, refl, sym, ap, ◌∙◌, inl, inr, Bool, true, false, ◌&&◌, Option,
  none, some, List, [], ◌∷◌, ◌++◌, map, arith, Nat-cases, and_false, ==_iff, test_false,
  true-ne-false, done, ◌>>=◌, Ends, ends, Ends-bind, Ends-if, enospc, enomem, Status, ok, error,
  Element, IsOrder, length, length-append,
}
use mathlib.Core.Path.{subst}
use mathlib.Core.List.{map-append}
use native.Mathlib.Nat.{mod-eq_of_lt}
use rcsw.Nodes.{Heap}
use rcsw.Nodes.Chain.{
  Cell, has, head_or, last_or, Chain, Distinct, Distinct-append, write-at, frame-write,
}
use rcsw.Llist.{Llist, Malloc, at_limit}
use rcsw.Llist.Relink.{link_behind, link_before}
use rcsw.Llist.Edit.{count_in, append, prepend}
use rcsw.Llist.Links.{link_behind-Linked, link_before-Linked}
use rcsw.Llist.Space.{Pool, Pool-snoc}
use rcsw.Llist.Inv.{
  IsList, own_blocks, Within, IsLawful, Starved, SameSetup, SameSetup-change, SameSetup-trans,
}
use rcsw.Nodes.Merged.{Sorts}
use rcsw.Nodes.Mergesort.{Sorts-nil, Sorts-refl}
use rcsw.Llist.Sorted.{ListSorted, incomparable, trusted, sorted_now, sort_rec-ListSorted}
use rcsw.Llist.Create.{Created, created, not_created, node_create-Created}

Within-suc :
    (limit : Option ℕ) (n : ℕ) → Within n limit → at_limit n limit ≡ false → Within (n + 1) limit
Within-suc none n w f = tt
Within-suc (some m) n w f = ground (arith, w, f)

limit_reached : (limit : Option ℕ) (n : ℕ) → at_limit n limit ≡ true → limit ≡ some n
limit_reached none n h = cc
limit_reached (some m) n h = ap some (sym ((==_iff n m).0 h))

module _ {ℓ} {A : Type ℓ} ⦃el : Element A⦄ where
  -- A list with the flag SORTED and a comparison function is sorted after an insertion.
  pub data Arranged (l : Llist A) (zs : List (Cell A)) : List (Cell A) → Type ℓ where
    as_placed : (l.keep_sorted && l.has_cmpe) ≡ false → Arranged l zs zs
    in_order : {ys : List (Cell A)} → Sorts zs ys → Arranged l zs ys

  one-Sorts : (zs : List (Cell A)) → length zs ≤ 1 → Sorts zs zs
  one-Sorts [] h = Sorts-nil
  one-Sorts (c ∷ []) h = Sorts-refl c
  one-Sorts (c ∷ d ∷ zs) h = absurd (omega arith)

  -- How an insertion of `e` ends: `place` puts a node among those of the list.
  pub data Inserted (malloc : Malloc A) (l : Llist A) (xs : List (Cell A)) (e : A)
      (place : Cell A → List (Cell A)) : Status × Llist A → Type ℓ where
    full : l.max_elts ≡ some (length xs) → Inserted malloc l xs e place (error enospc, l)
    starved :
        {l' : Llist A}
        → Starved malloc l
        → IsList l' xs
        → SameSetup l l'
        → Inserted malloc l xs e place (error enomem, l')
    inserted :
        {l' : Llist A} (c : Cell A) (ys : List (Cell A))
        → c.datum ≡ e
        → Arranged l (place c) ys
        → IsList l' ys
        → SameSetup l l'
        → Inserted malloc l xs e place (ok, l')

  module _ (malloc : Malloc A) (l : Llist A) (xs : List (Cell A)) (e : A)
      (place : Cell A → List (Cell A)) (v : IsList l xs)
      (ordered : l.keep_sorted ≡ true → IsOrder A) (small : length xs + 1 < 2 ^ 64)
      (open_end : at_limit l.current l.max_elts ≡ false) where
    -- The node is linked: it is counted, and the list has it.
    count_in-Inserted :
        (c : Cell A) (nodes blocks : List (Option ℕ)) (heap : Heap A)
        → c.datum ≡ e
        → Chain heap none (place c) none
        → Distinct (place c)
        → length (place c) ≡ length xs + 1
        → Pool l.noalloc_meta nodes l.max_elts (map (λ d. d.at) (place c))
        → Pool (own_blocks l) blocks l.max_elts (map (λ d. d.block) (place c))
        → Ends (Inserted malloc l xs e place) (
            count_in (record l {
              heap = heap;
              first = head_or (place c) none;
              last = last_or (place c) none;
              node_map = nodes;
              db_map = blocks;
            }))
    unfolding count_in
    count_in-Inserted c nodes blocks heap q k d n ps bs =
        Ends-if l.keep_sorted
          (λ on.
            Ends-bind (sort_rec-ListSorted (ordered on) (counted false) (place c) (good false))
              (λ (st, l') r. resorted st l' r))
          (λ off.
            ends
              (inserted c (place c) q (as_placed (rw off refl)) (good l.sorted) (setup l.sorted)))
      where
        counted : Bool → Llist A
        counted sorted = record l {
          heap = heap;
          first = head_or (place c) none;
          last = last_or (place c) none;
          current = (l.current + 1) % 2 ^ 64;
          sorted = sorted;
          node_map = nodes;
          db_map = blocks;
        }

        good : (sorted : Bool) → IsList (counted sorted) (place c)
        good sorted = record {
          chain = k;
          distinct = d;
          at_ends = record { first_at = refl; last_at = refl };
          fits = omega (arith, n, small);
          count = ap (λ m. (m + 1) % 2 ^ 64) v.count ∙ mod-eq_of_lt small ∙ sym n;
          within =
              subst (λ m. Within m l.max_elts) (sym n)
                (Within-suc l.max_elts (length xs) v.within
                  (subst (λ m. at_limit m l.max_elts ≡ false) v.count open_end));
          nodes = ps;
          blocks = bs;
        }

        setup : (sorted : Bool) → SameSetup l (counted sorted)
        setup sorted = (SameSetup-change l heap _ _ _ sorted nodes blocks)

        resorted :
            (st : Status) (l' : Llist A)
            → ListSorted (counted false) (place c) (st, l')
            → Ends (Inserted malloc l xs e place) (done (ok, l'))
        resorted st l' (incomparable f) = ends (
            inserted c (place c) q (as_placed (rw (f, and_false l.keep_sorted) refl)) (good false)
              (setup false))
        resorted st l' (trusted b (inl h)) =
            ends
              (inserted c (place c) q (in_order (one-Sorts (place c) h)) (good false) (setup false))
        resorted st l' (trusted b (inr h)) = absurd (true-ne-false (sym h))
        resorted st l' (sorted_now ys b off s t w u) =
            ends (inserted c ys q (in_order s) w (SameSetup-trans (setup false) u))

  module _ (malloc : Malloc A) (lawful : IsLawful malloc) (l : Llist A) (xs : List (Cell A)) (e : A)
      (v : IsList l xs) (ordered : l.keep_sorted ≡ true → IsOrder A)
      (small : length xs + 1 < 2 ^ 64) where
    apart-one :
        (c : Cell A) → has c.at xs ≡ false → (a : ℕ) → has a xs ≡ true → has a (c ∷ []) ≡ false
    apart-one c out a h = elim (Nat-cases a c.at) [
      | inl s ↦ absurd (true-ne-false (sym h ∙ ap (λ b. has b xs) s ∙ out))
      | inr s ↦ rw (test_false a c.at s) refl
    ]

    -- Insertion at the end and at the front ends well: the new node, with the element, stands behind
    -- (before) the others, which keep their places, data and blocks; with the flag SORTED and a
    -- comparison that orders, the nodes are then in ascending order. ENOSPC is answered only at the
    -- limit and ENOMEM only if `malloc` has nothing for a node or a block that the list takes
    -- from it; both leave the nodes of the list as they were. So a list on the application's memory
    -- takes elements up to its limit.
    pub append-Inserted :
        Ends (Inserted malloc l xs e (λ c. xs ++ c ∷ [])) (append malloc l e)
        × Ends (Inserted malloc l xs e (λ c. c ∷ xs)) (prepend malloc l e)
    unfolding append prepend
    append-Inserted = (
      Ends-if (at_limit l.current l.max_elts)
          (λ f. ends (
            full (
              limit_reached l.max_elts (length xs)
                (subst (λ n. at_limit n l.max_elts ≡ true) v.count f))))
          (λ f. Ends-bind (node_create-Created malloc l xs lawful v f e) (behind f)),
      Ends-if (at_limit l.current l.max_elts)
          (λ f. ends (
            full (
              limit_reached l.max_elts (length xs)
                (subst (λ n. at_limit n l.max_elts ≡ true) v.count f))))
          (λ f. Ends-bind (node_create-Created malloc l xs lawful v f e) (in_front f)),
    )
      where
        behind :
            at_limit l.current l.max_elts ≡ false
            → (r : Option ℕ × Llist A) → Created malloc l xs e r
            → Ends (Inserted malloc l xs e (λ c. xs ++ c ∷ [])) (elim r.0 [
              | none ↦ done (error enomem, r.1)
              | some a ↦ link_behind r.1 a r.1.last >>= (λ l2. count_in l2)
            ])
        behind f r (not_created s w u) = ends (starved s w u)
        behind f r (created {c} {nodes} {blocks} q out ps bs) =
            Ends-bind
              (link_behind-Linked _ c none none (write-at l.heap c.at _) xs
                (frame-write l.heap c.at _ none xs none v.chain out) v.distinct out
                (record { first_at = v.at_ends.first_at; last_at = v.at_ends.last_at }))
              (λ l2 k.
                subst (λ s. Ends (Inserted malloc l xs e (λ d. xs ++ d ∷ [])) (count_in s))
                  (sym k.state)
                  (count_in-Inserted malloc l xs e (λ d. xs ++ d ∷ []) v ordered small f c nodes
                    blocks k.heap q k.chain
                    (Distinct-append xs (c ∷ []) v.distinct (refl, tt) (apart-one c out))
                    (length-append xs (c ∷ []))
                    (subst (Pool l.noalloc_meta nodes l.max_elts)
                      (sym (map-append (λ d. d.at) xs (c ∷ []))) (Pool-snoc _ c.at ps))
                    (subst (Pool (own_blocks l) blocks l.max_elts)
                      (sym (map-append (λ d. d.block) xs (c ∷ []))) (Pool-snoc _ c.block bs))))

        in_front :
            at_limit l.current l.max_elts ≡ false
            → (r : Option ℕ × Llist A) → Created malloc l xs e r
            → Ends (Inserted malloc l xs e (λ c. c ∷ xs)) (elim r.0 [
              | none ↦ done (error enomem, r.1)
              | some a ↦ link_before r.1 a r.1.first >>= (λ l2. count_in l2)
            ])
        in_front f r (not_created s w u) = ends (starved s w u)
        in_front f r (created {c} {nodes} {blocks} q out ps bs) =
            Ends-bind
              (link_before-Linked _ c none none (write-at l.heap c.at _) xs
                (frame-write l.heap c.at _ none xs none v.chain out) v.distinct out
                (record { first_at = v.at_ends.first_at; last_at = v.at_ends.last_at }))
              (λ l2 k.
                subst (λ s. Ends (Inserted malloc l xs e (λ d. d ∷ xs)) (count_in s)) (sym k.state)
                  (count_in-Inserted malloc l xs e (λ d. d ∷ xs) v ordered small f c nodes blocks
                    k.heap q k.chain (out, v.distinct) (omega arith) ps bs))
