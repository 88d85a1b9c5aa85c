-- ===== src/Llist/Inv.antt =====
-- What a list handle, its memory and its maps have to do with the nodes of the list.
use rcsw.Base.{
  ℕ, suc, ◌^◌, ◌≤◌, ◌<◌, ◌≡◌, refl, sym, ap, ◌∙◌, ◌≢◌, inl, inr, Bool, false, not, ◌&&◌, ◌||◌,
  Option, none, some, List, [], ◌∷◌, map, ◌==◌, Nat-cases, test_false, length,
}
use rcsw.Nodes.{Node, Heap}
use rcsw.Nodes.Chain.{Cell, has, Chain, Distinct}
use rcsw.Llist.{Llist, Malloc, borrows}
use rcsw.Llist.Links.{HasEnds}
use rcsw.Llist.Pool.{mem}
use rcsw.Llist.Space.{Pool}

-- At most as many nodes as a limit says.
abbrev pub Within : ℕ → Option ℕ → Type 0
Within n none = Unit {0}
Within n (some m) = n ≤ m

module _ {ℓ} {A : Type ℓ} where
  abbrev pub own_blocks : Llist A → Bool
  own_blocks l = l.noalloc_data && not (borrows l)

  -- `l` is a list of the nodes `xs`, in this order.
  pub record IsList (l : Llist A) (xs : List (Cell A)) : Type ℓ where
    pub chain : Chain l.heap none xs none
    pub distinct : Distinct xs
    pub at_ends : HasEnds l xs
    pub count : l.current ≡ length xs
    pub fits : length xs < 2 ^ 64
    pub within : Within (length xs) l.max_elts
    pub nodes : Pool l.noalloc_meta l.node_map l.max_elts (map (λ c. c.at) xs)
    pub blocks : Pool (own_blocks l) l.db_map l.max_elts (map (λ c. c.block) xs)

  -- What the caller set up stays as it was.
  pub record SameSetup (l l' : Llist A) : Type ℓ where
    pub max_elts : l'.max_elts ≡ l.max_elts
    pub has_cmpe : l'.has_cmpe ≡ l.has_cmpe
    pub noalloc_meta : l'.noalloc_meta ≡ l.noalloc_meta
    pub noalloc_data : l'.noalloc_data ≡ l.noalloc_data
    pub disown : l'.disown ≡ l.disown
    pub by_ptr : l'.by_ptr ≡ l.by_ptr
    pub keep_sorted : l'.keep_sorted ≡ l.keep_sorted

  -- The operations change no other fields than these.
  pub SameSetup-change :
      (l : Llist A) (heap : Heap A) (first last : Option ℕ) (current : ℕ) (sorted : Bool)
      (nodes blocks : List (Option ℕ))
      → SameSetup l (record l {
        heap = heap;
        first = first;
        last = last;
        current = current;
        sorted = sorted;
        node_map = nodes;
        db_map = blocks;
      })
  SameSetup-change l heap first last current sorted nodes blocks = record {
    max_elts = refl;
    has_cmpe = refl;
    noalloc_meta = refl;
    noalloc_data = refl;
    disown = refl;
    by_ptr = refl;
    keep_sorted = refl;
  }

  pub SameSetup-refl : (l : Llist A) → SameSetup l l
  SameSetup-refl l = SameSetup-change l l.heap l.first l.last l.current l.sorted l.node_map l.db_map

  pub SameSetup-trans : {l l1 l2 : Llist A} → SameSetup l l1 → SameSetup l1 l2 → SameSetup l l2
  SameSetup-trans s t = record {
    max_elts = t.max_elts ∙ s.max_elts;
    has_cmpe = t.has_cmpe ∙ s.has_cmpe;
    noalloc_meta = t.noalloc_meta ∙ s.noalloc_meta;
    noalloc_data = t.noalloc_data ∙ s.noalloc_data;
    disown = t.disown ∙ s.disown;
    by_ptr = t.by_ptr ∙ s.by_ptr;
    keep_sorted = t.keep_sorted ∙ s.keep_sorted;
  }

  -- `malloc` gives an address where nothing stands.
  abbrev pub IsLawful : Malloc A → Type ℓ
  IsLawful malloc = (h : Heap A) (p : ℕ) → malloc.node h ≡ some p → h p ≡ none

  -- `malloc` has no memory left for what the list needs of it.
  pub data Starved (malloc : Malloc A) (l : Llist A) : Type ℓ where
    no_node : l.noalloc_meta ≡ false → malloc.node l.heap ≡ none → Starved malloc l
    no_block : borrows l ≡ false → l.noalloc_data ≡ false → malloc.block ≡ false → Starved malloc l

  pub has-at : (a : ℕ) (xs : List (Cell A)) → mem a (map (λ c. c.at) xs) ≡ has a xs
  has-at a [] = refl
  has-at a (c ∷ xs) = ap (λ b. (a == c.at) || b) (has-at a xs)

  pub length-map : (f : Cell A → ℕ) (xs : List (Cell A)) → length (map f xs) ≡ length xs
  length-map f [] = refl
  length-map f (c ∷ xs) = ap suc (length-map f xs)

  -- The nodes of a list are in the memory.
  pub holds-node :
      (h : Heap A) (before : Option ℕ) (xs : List (Cell A)) (after : Option ℕ) (a : ℕ)
      → Chain h before xs after
      → h a ≡ none
      → has a xs ≡ false
  holds-node h before [] after a k e = refl
  holds-node h before (c ∷ xs) after a (k, ks) e = elim (Nat-cases a c.at) [
    | inl s ↦ absurd (some-ne-none (sym k ∙ sym (ap h s) ∙ e))
    | inr s ↦ rw (test_false a c.at s) (holds-node h (some c.at) xs after a ks e)
  ]
    where
      some-ne-none : {n : Node A} → some n ≢ none
      some-ne-none p = cc
