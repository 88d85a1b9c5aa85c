-- ===== src/Llist/Remove.antt =====
-- Deletion of a node of a list, with what it gives back.
use rcsw.Base.{
  ℕ, suc, ◌+◌, ◌-◌, ◌%◌, ◌^◌, ◌≤◌, ◌≡◌, refl, sym, Bool, true, false, Option, none, some, List, ◌∷◌,
  ◌++◌, map, arith, and_false, done, ◌>>=◌, store, Ends, ends, Ends-bind, Ends-if, length,
  length-append,
}
use mathlib.Core.Path.{subst}
use mathlib.Core.List.{map-append}
use rcsw.Nodes.{Heap, write, load_node}
use rcsw.Nodes.Chain.{
  Cell, has, head_or, last_or, node_of, Chain, Distinct, Distinct-middle, has-append, frame-write,
}
use rcsw.Nodes.Relink.{load_node-done}
use rcsw.Llist.{Llist, borrows, node_destroy, node_dealloc, datablock_dealloc}
use rcsw.Llist.Relink.{delete}
use rcsw.Llist.Unlinked.{unlink-Unlinked}
use rcsw.Llist.Space.{Pool, Pool-off, Pool-release}
use rcsw.Llist.Inv.{IsList, own_blocks, Within, SameSetup, SameSetup-change}

Within-less : (limit : Option ℕ) (m n : ℕ) → Within n limit → m ≤ n → Within m limit
Within-less none m n w h = tt
Within-less (some k) m n w h = omega arith

module _ {ℓ} {A : Type ℓ} where
  module _ (l : Llist A) (xs : List (Cell A)) (c : Cell A) (ys : List (Cell A))
      (v : IsList l (xs ++ c ∷ ys)) where
    middle : (has c.at xs ≡ false) × (has c.at ys ≡ false) × Distinct (xs ++ ys)
    middle = Distinct-middle xs c ys v.distinct

    gone : has c.at (xs ++ ys) ≡ false
    gone = rw (has-append c.at xs ys, middle.0) middle.1

    shorter : length (xs ++ c ∷ ys) ≡ suc (length (xs ++ ys))
    shorter = omega (arith, length-append xs (c ∷ ys), length-append xs ys)

    release-at :
        (f : Cell A → ℕ) {on : Bool} {entries : List (Option ℕ)}
        → on ≡ true
        → Pool on entries l.max_elts (map f (xs ++ c ∷ ys))
        → Ends
            (λ entries'. Pool on entries' l.max_elts (map f (xs ++ ys)))
            (store entries (f c) none)
    release-at f {on} {entries} o k =
        subst (λ us. Ends (λ entries'. Pool on entries' l.max_elts us) (store entries (f c) none))
          (sym (map-append f xs ys))
          (Pool-release (map f xs) (f c) (map f ys) o
            (subst (Pool on entries l.max_elts) (map-append f xs (c ∷ ys)) k))

    module _ (heap : Heap A) (k : Chain heap none (xs ++ ys) none) where
      -- The list without the node, before its memory has been given back.
      cut : (blocks : List (Option ℕ)) → Llist A
      cut blocks = record l {
        heap = heap;
        first = head_or (xs ++ ys) none;
        last = last_or (xs ++ ys) none;
        current = (l.current + (2 ^ 64 - 1)) % 2 ^ 64;
        db_map = blocks;
      }

      setup :
          (h : Heap A) (nodes blocks : List (Option ℕ))
          → SameSetup l (record (cut blocks) { heap = h; node_map = nodes })
      unfolding cut
      setup h nodes blocks = (SameSetup-change l h _ _ _ l.sorted nodes blocks)

      IsList-cut :
          (h : Heap A) (nodes blocks : List (Option ℕ))
          → Chain h none (xs ++ ys) none
          → Pool l.noalloc_meta nodes l.max_elts (map (λ d. d.at) (xs ++ ys))
          → Pool (own_blocks l) blocks l.max_elts (map (λ d. d.block) (xs ++ ys))
          → IsList (record (cut blocks) { heap = h; node_map = nodes }) (xs ++ ys)
      unfolding cut
      IsList-cut h nodes blocks ch ps bs = record {
        chain = ch;
        distinct = middle.2;
        at_ends = record { first_at = refl; last_at = refl };
        count = omega (arith, v.count, shorter, v.fits);
        fits = omega (arith, shorter, v.fits);
        within = Within-less l.max_elts _ _ v.within (omega (arith, shorter));
        nodes = ps;
        blocks = bs;
      }

      abbrev Left : Llist A → Type ℓ
      Left l' = IsList l' (xs ++ ys) × SameSetup l l'

      node_dealloc-Left :
          (blocks : List (Option ℕ))
          → Pool (own_blocks l) blocks l.max_elts (map (λ d. d.block) (xs ++ ys))
          → Ends Left (node_dealloc (cut blocks) c.at)
      unfolding node_dealloc cut
      node_dealloc-Left blocks bs =
          Ends-if l.noalloc_meta
            (λ on.
              Ends-bind (release-at (λ d. d.at) on v.nodes)
                (λ nodes ps. ends (IsList-cut heap nodes blocks k ps bs, setup heap nodes blocks)))
            (λ off.
              let h = write heap c.at none in
              ends (
                IsList-cut h l.node_map blocks
                    (frame-write heap c.at none none (xs ++ ys) none k gone)
                    (Pool-off _ _ off v.nodes) bs,
                setup h l.node_map blocks,
              ))

      node_destroy-Left :
          (next prev : Option ℕ)
          → heap c.at ≡ some (node_of c next prev)
          → Ends Left (node_destroy (cut l.db_map) c.at)
      unfolding node_destroy datablock_dealloc cut
      node_destroy-Left next prev e = rw (load_node-done heap c.at _ e) (
          Ends-bind
            {P = λ l'.
              (blocks : List (Option ℕ)) × (l' ≡ cut blocks)
              × Pool (own_blocks l) blocks l.max_elts (map (λ d. d.block) (xs ++ ys))}
            (Ends-if (borrows l)
              (λ b.
                ends
                  (l.db_map, refl, Pool-off _ _ (rw (b, and_false l.noalloc_data) refl) v.blocks))
              (λ b.
                Ends-if l.noalloc_data
                  (λ on.
                    Ends-bind (release-at (λ d. d.block) (rw (b, on) refl) v.blocks)
                      (λ blocks bs. ends (blocks, refl, bs)))
                  (λ off. ends (l.db_map, refl, Pool-off _ _ (rw off refl) v.blocks))))
            (λ l' p.
              subst (λ s. Ends Left (node_dealloc s c.at)) (sym p.1) (node_dealloc-Left p.0 p.2)))

    -- `llist_delete` of a node of the list ends well: the others stay linked in their order, the
    -- element is handed over, and node and block are free again.
    pub delete-Left :
        Ends (λ (x, l'). (x ≡ c.datum) × IsList l' (xs ++ ys) × SameSetup l l') (delete l c.at)
    unfolding delete cut
    delete-Left =
        Ends-bind
          (unlink-Unlinked l c xs ys
            (record { chain = v.chain; distinct = v.distinct; at_ends = v.at_ends }))
          (λ l1 u.
            let rest : Ends (λ (x, l'). (x ≡ c.datum) × IsList l' (xs ++ ys) × SameSetup l l')
                (node_destroy (cut u.linked.heap u.linked.chain l.db_map) c.at
                  >>= (λ l2. done (c.datum, l2))) =
              Ends-bind (node_destroy-Left u.linked.heap u.linked.chain u.next u.prev u.held)
                (λ l2 p. ends (refl, p.0, p.1)) in
            subst
              (λ s.
                Ends (λ (x, l'). (x ≡ c.datum) × IsList l' (xs ++ ys) × SameSetup l l')
                  (load_node s.heap (some c.at) >>= (λ n.
                    node_destroy (record s { current = (s.current + (2 ^ 64 - 1)) % 2 ^ 64 }) c.at
                    >>= (λ l2. done (n.value, l2)))))
              (sym u.linked.state) (rw (load_node-done u.linked.heap c.at _ u.held) rest))
