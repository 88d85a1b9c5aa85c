-- ===== src/Llist/Create.antt =====
-- A node and its data block, from the application's memory or from `malloc`.
use rcsw.Base.{
  ℕ, ◌<◌, ◌≡◌, refl, sym, ◌∙◌, Bool, true, false, not, ◌&&◌, Option, none, some, List, [], ◌∷◌, map,
  arith, if◌then◌else◌, and_false, done, ◌>>=◌, Ends, ends, Ends-bind, Ends-if, length,
}
use mathlib.Core.Path.{subst}
use rcsw.Nodes.{Heap, write}
use rcsw.Nodes.Chain.{Cell, has, node_of, frame-write}
use rcsw.Llist.{
  Llist, Malloc, borrows, acquire, int_max, at_limit, node_alloc, node_dealloc, datablock_alloc,
  fill_node, fill_or_dealloc, node_create,
}
use rcsw.Llist.Pool.{mem}
use rcsw.Llist.Space.{Pool, Pool-off, Pool-acquire, Pool-release}
use rcsw.Llist.Inv.{
  IsList, own_blocks, Within, IsLawful, SameSetup, SameSetup-change, SameSetup-refl, Starved,
  has-at, length-map, holds-node,
}

-- There is room for one more where a limit is set and not reached.
room :
    (limit : Option ℕ) (n : ℕ)
    → limit ≡ some (int_max limit)
    → Within n limit
    → at_limit n limit ≡ false
    → n < int_max limit
room none n e w f = cc
room (some m) n e w f = ground (arith, w, f)

module _ {ℓ} {A : Type ℓ} (malloc : Malloc A) (l : Llist A) (xs : List (Cell A)) where
  -- The node that `node_alloc` gives is not one of the list, nor is the block one of its blocks.
  data NodeGot : Option ℕ × Llist A → Type ℓ where
    node_got :
        {a : ℕ} {entries : List (Option ℕ)}
        → has a xs ≡ false
        → Pool l.noalloc_meta entries l.max_elts (a ∷ map (λ c. c.at) xs)
        → NodeGot (some a, record l { node_map = entries })
    node_missed : Starved malloc l → NodeGot (none, l)

  data BlockGot (entries : List (Option ℕ)) : Option ℕ × Llist A → Type ℓ where
    block_got :
        {b : ℕ} {entries' : List (Option ℕ)}
        → Pool (own_blocks l) entries' l.max_elts (b ∷ map (λ c. c.block) xs)
        → BlockGot entries (some b, record l { node_map = entries; db_map = entries' })
    block_missed : Starved malloc l → BlockGot entries (none, record l { node_map = entries })

  -- What `node_create` leaves: a node with the element outside the list, or the list as it was.
  pub data Created (e : A) : Option ℕ × Llist A → Type ℓ where
    created :
        {c : Cell A} {nodes blocks : List (Option ℕ)}
        → c.datum ≡ e
        → has c.at xs ≡ false
        → Pool l.noalloc_meta nodes l.max_elts (c.at ∷ map (λ c. c.at) xs)
        → Pool (own_blocks l) blocks l.max_elts (c.block ∷ map (λ c. c.block) xs)
        → Created e (
          some c.at,
          record l {
            heap = write l.heap c.at (some (node_of c none none));
            node_map = nodes;
            db_map = blocks;
          },
        )
    not_created :
        {l' : Llist A} → Starved malloc l → IsList l' xs → SameSetup l l' → Created e (none, l')

  module _ (lawful : IsLawful malloc) (v : IsList l xs)
      (open_end : at_limit l.current l.max_elts ≡ false) where
    few :
        (f : Cell A → ℕ)
        → l.max_elts ≡ some (int_max l.max_elts)
        → length (map f xs) < int_max l.max_elts
    few f capped = rw (length-map f xs) (
        room l.max_elts (length xs) capped v.within
          (subst (λ n. at_limit n l.max_elts ≡ false) v.count open_end))

    -- A search in one of the maps, from the number of nodes on.
    search_map :
        (f : Cell A → ℕ) {on : Bool} {entries : List (Option ℕ)}
        → on ≡ true
        → Pool on entries l.max_elts (map f xs)
        → Ends
            (λ (r, entries').
              (a : ℕ) × (r ≡ some a)
              × (mem a (map f xs) ≡ false)
              × Pool on entries' l.max_elts (a ∷ map f xs))
            (acquire entries (int_max l.max_elts) l.current)
    search_map f {on} {entries} o k =
        subst
          (λ n.
            Ends
              (λ (r, entries').
                (a : ℕ) × (r ≡ some a)
                × (mem a (map f xs) ≡ false)
                × Pool on entries' l.max_elts (a ∷ map f xs))
              (acquire entries (int_max l.max_elts) n))
          (length-map f xs ∙ sym v.count) (Pool-acquire (map f xs) o k (few f (k.capped o)))

    node_alloc-NodeGot : Ends NodeGot (node_alloc malloc l)
    unfolding node_alloc
    node_alloc-NodeGot =
        Ends-if l.noalloc_meta
          (λ on.
            Ends-bind (search_map (λ c. c.at) on v.nodes)
              (λ r g. rw g.1 (ends (node_got (sym (has-at g.0 xs) ∙ g.2) g.3))))
          (λ off. from_malloc off (malloc.node l.heap) refl)
      where
        from_malloc :
            l.noalloc_meta ≡ false
            → (r : Option ℕ) → malloc.node l.heap ≡ r
            → Ends NodeGot (done (malloc.node l.heap, l))
        from_malloc off none e = rw e (ends (node_missed (Starved.no_node off e)))
        from_malloc off (some a) e = rw e (
            ends (
              node_got (holds-node l.heap none xs none a v.chain (lawful l.heap a e))
                (Pool-off _ _ off v.nodes)))

    owned : borrows l ≡ false → l.noalloc_data ≡ true → own_blocks l ≡ true
    owned b on = rw (b, on) refl

    not_owned : (b : Bool) → b ≡ false → (b && not (borrows l)) ≡ false
    not_owned b e = rw e refl

    datablock_alloc-BlockGot :
        (entries : List (Option ℕ))
        → borrows l ≡ false
        → Ends (BlockGot entries) (datablock_alloc malloc (record l { node_map = entries }))
    unfolding datablock_alloc
    datablock_alloc-BlockGot entries b =
        Ends-if l.noalloc_data
          (λ on.
            Ends-bind (search_map (λ c. c.block) (owned b on) v.blocks)
              (λ r g. rw g.1 (ends (block_got g.3))))
          (λ off.
            Ends-if-value malloc.block
              (block_got (Pool-off _ _ (not_owned l.noalloc_data off) v.blocks))
              (λ e. block_missed (Starved.no_block b off e)))
      where
        Ends-if-value :
            (m : Bool)
            → BlockGot entries (some 0, record l { node_map = entries })
            → (m ≡ false → BlockGot entries (none, record l { node_map = entries }))
            → Ends
                (BlockGot entries)
                (done (if m then some 0 else none, record l { node_map = entries }))
        Ends-if-value true p q = ends p
        Ends-if-value false p q = ends (q refl)

    -- Giving back the node that was got leaves the list as it was.
    node_dealloc-IsList :
        (a : ℕ) (entries : List (Option ℕ))
        → has a xs ≡ false
        → Pool l.noalloc_meta entries l.max_elts (a ∷ map (λ c. c.at) xs)
        → Ends
            (λ l'. IsList l' xs × SameSetup l l')
            (node_dealloc (record l { node_map = entries }) a)
    unfolding node_dealloc
    node_dealloc-IsList a entries out k =
        Ends-if l.noalloc_meta
          (λ on. Ends-bind (Pool-release [] a (map (λ c. c.at) xs) on k) (λ entries' k'. ends (
            record {
              chain = v.chain;
              distinct = v.distinct;
              at_ends = record { first_at = v.at_ends.first_at; last_at = v.at_ends.last_at };
              count = v.count;
              fits = v.fits;
              within = v.within;
              nodes = k';
              blocks = v.blocks;
            },
            setup entries' l.heap,
          )))
          (λ off. ends (
            record {
              chain = frame-write l.heap a none none xs none v.chain out;
              distinct = v.distinct;
              at_ends = record { first_at = v.at_ends.first_at; last_at = v.at_ends.last_at };
              count = v.count;
              fits = v.fits;
              within = v.within;
              nodes = Pool-off _ _ off k;
              blocks = v.blocks;
            },
            setup entries (write l.heap a none),
          ))
      where
        setup :
            (es : List (Option ℕ)) (h : Heap A) → SameSetup l (record l { node_map = es; heap = h })
        setup es h = (SameSetup-change l h l.first l.last l.current l.sorted es l.db_map)

    borrowed : borrows l ≡ true → own_blocks l ≡ false
    borrowed b = rw (b, and_false l.noalloc_data) refl

    pub node_create-Created : (e : A) → Ends (Created e) (node_create malloc l e)
    unfolding node_create
    node_create-Created e = Ends-bind node_alloc-NodeGot with_node
      where
        with_block :
            (a : ℕ) (entries : List (Option ℕ))
            → has a xs ≡ false
            → Pool l.noalloc_meta entries l.max_elts (a ∷ map (λ c. c.at) xs)
            → (r : Option ℕ × Llist A) → BlockGot entries r
            → Ends (Created e) (fill_or_dealloc a e r)
        with_block a entries out k r (block_got {b} k') =
            ends (created {c = record { at = a; block = b; datum = e }} refl out k k')
        with_block a entries out k r (block_missed s) =
            Ends-bind (node_dealloc-IsList a entries out k) (λ l' p. ends (not_created s p.0 p.1))

        with_node :
            (r : Option ℕ × Llist A)
            → NodeGot r
            → Ends (Created e) (elim r.0 [
              | none ↦ done (none, r.1)
              | some a ↦
                  if borrows r.1
                  then done (some a, fill_node r.1 a 0 e)
                  else datablock_alloc malloc r.1 >>= (λ got. fill_or_dealloc a e got)
            ])
        with_node r (node_missed s) = ends (not_created s v (SameSetup-refl l))
        with_node r (node_got {a} {entries} out k) =
            Ends-if (borrows l)
              (λ b. ends (
                created {c = record { at = a; block = 0; datum = e }} refl out k
                  (Pool-off _ _ (borrowed b) v.blocks)))
              (λ b. Ends-bind (datablock_alloc-BlockGot entries b) (with_block a entries out k))
