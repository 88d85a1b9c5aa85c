-- ===== src/Llist/Init.antt =====
-- A new list has no nodes, and all of the application's memory is free.
use rcsw.Base.{
  ℕ, zero, suc, ◌+◌, ◌≤◌, ◌<◌, ◌≡◌, refl, sym, ap, ◌∙◌, ◌≢◌, inl, inr, Bool, true, false, not, ◌&&◌,
  ◌||◌, Option, none, some, List, [], arith, Nat-cases, test_false, true-ne-false, done, ◌>>=◌,
  store-done, Ends, ends, Ends-bind, Ends-map, enomem, alloc, length, get_or, set, length-set,
  get_or-set_ne, get_or-set_self,
}
use rcsw.Allocm.{mark_free, is_free, init_entries, allocm_init}
use rcsw.Nodes.{Heap}
use rcsw.Llist.{Llist, Params, made, null, init_map, zero_limit, fresh, init, int_max}
use rcsw.Llist.Space.{Pool}
use rcsw.Llist.Inv.{IsList, Within}

-- The entries from `i` on are free, and those below are what they were.
record Cleared (entries : List (Option ℕ)) (i left : ℕ) (entries' : List (Option ℕ)) : Type 0 where
  long : length entries' ≡ length entries
  below : (j : ℕ) → j < i → get_or entries' j none ≡ get_or entries j none
  free : (j : ℕ) → i ≤ j → j < i + left → get_or entries' j none ≡ none

init_entries-Cleared :
    (left : ℕ) (entries : List (Option ℕ)) (i : ℕ)
    → i + left ≤ length entries
    → Ends (Cleared entries i left) (init_entries left entries i)
unfolding init_entries
init_entries-Cleared zero entries i h =
    ends (record { long = refl; below = λ j p. refl; free = λ j p q. absurd (omega arith) })
init_entries-Cleared (suc left) entries i h = rw (store-done entries i mark_free (omega arith)) (
    Ends-map
      (init_entries-Cleared left (set entries i mark_free) (i + 1)
        (omega (arith, length-set entries i mark_free)))
      (λ es k. record {
        long = k.long ∙ length-set entries i mark_free;
        below = λ j p.
            k.below j (omega arith)
            ∙ get_or-set_ne entries i j mark_free none (λ e. omega (arith, e, p));
        free = λ j p q. elim (Nat-cases j i) [
          | inl e ↦
              k.below j (omega (arith, e))
              ∙ ap (λ n. get_or (set entries i mark_free) n none) e
              ∙ get_or-set_self entries i mark_free none (omega arith)
          | inr e ↦ k.free j (omega (arith, e, p)) (omega (arith, q))
        ];
      }))

-- The memory for a map that is asked for is there: enough of it, and a limit is set.
abbrev pub Supplied : (noalloc ptr : Bool) → Option ℕ → List (Option ℕ) → Type 0
Supplied noalloc ptr limit entries =
    noalloc ≡ true
    → (ptr ≡ true) × (limit ≡ some (int_max limit)) × (int_max limit ≤ length entries)

data Mapped (noalloc : Bool) (limit : Option ℕ) : Option (List (Option ℕ)) → Type 0 where
  mapped :
      {entries : List (Option ℕ)}
      → Pool noalloc entries limit []
      → Mapped noalloc limit (some entries)

init_map-Mapped :
    (noalloc ptr : Bool) (limit : Option ℕ) (entries : List (Option ℕ))
    → Supplied noalloc ptr limit entries
    → Ends (Mapped noalloc limit) (init_map noalloc ptr limit entries)
unfolding init_map allocm_init
init_map-Mapped false ptr limit entries s =
    ends (mapped (record { capped = λ o. cc; marks = λ o. cc; no_repeat = λ o. cc }))
init_map-Mapped true false limit entries s = absurd (true-ne-false (sym (s refl).0))
init_map-Mapped true true none entries s = absurd (cc (s refl).1)
init_map-Mapped true true (some m) entries s =
    Ends-bind (init_entries-Cleared m entries 0 (omega (arith, (s refl).2))) (λ es k. ends (
      mapped (record {
        capped = λ o. refl;
        marks = λ o. record {
          room = omega (arith, k.long, (s refl).2);
          marked = λ i p. ap is_free (k.free i (omega arith) (omega (arith, p)));
          inside = λ i e. cc;
        };
        no_repeat = λ o. tt;
      })))

Pool-less :
    {on on' : Bool} {entries : List (Option ℕ)} {limit : Option ℕ} {us : List ℕ}
    → (on' ≡ true → on ≡ true)
    → Pool on entries limit us
    → Pool on' entries limit us
Pool-less less k = record {
  capped = λ o. k.capped (less o);
  marks = λ o. k.marks (less o);
  no_repeat = λ o. k.no_repeat (less o);
}

Within-nil : (limit : Option ℕ) → Within 0 limit
Within-nil none = tt
Within-nil (some m) = omega arith

module _ {ℓ} {A : Type ℓ} where
  -- `llist_init` with room for elements, a handle and the memory that its flags ask for (none of it
  -- NULL, and a limit set) makes a list without nodes, on which every entry of the maps is free.
  pub init-IsList :
      (p : Params) (ptr_handle malloc_ok ptr_meta ptr_elements : Bool) (heap : Heap A)
      (nodes blocks : List (Option ℕ))
      → zero_limit p.max_elts ≡ false
      → p.elt_size ≢ 0
      → alloc p.noalloc_handle ptr_handle malloc_ok ≡ true
      → Supplied p.noalloc_meta ptr_meta p.max_elts nodes
      → Supplied p.noalloc_data ptr_elements p.max_elts blocks
      → Ends
          (λ m. (l : Llist A) × (m ≡ made l) × (l ≡ fresh p heap l.node_map l.db_map) × IsList l [])
          (init p ptr_handle malloc_ok ptr_meta ptr_elements heap nodes blocks)
  unfolding init
  init-IsList p ptr_handle malloc_ok ptr_meta ptr_elements heap nodes blocks z e a s t =
      rw (z, test_false p.elt_size 0 e, a)
        (Ends-bind (init_map-Mapped p.noalloc_meta ptr_meta p.max_elts nodes s) with_nodes)
    where
      with_blocks :
          (ns : List (Option ℕ))
          → Pool p.noalloc_meta ns p.max_elts []
          → (r : Option (List (Option ℕ))) → Mapped p.noalloc_data p.max_elts r
          → Ends
              (λ m.
                (l : Llist A) × (m ≡ made l) × (l ≡ fresh p heap l.node_map l.db_map) × IsList l [])
              (elim r [ none ↦ done (null enomem) | some bs ↦ done (made (fresh p heap ns bs)) ])
      with_blocks ns k r (mapped {entries} k') = ends (
        fresh p heap ns entries,
        refl,
        refl,
        record {
          chain = tt;
          distinct = tt;
          at_ends = record { first_at = refl; last_at = refl };
          count = refl;
          fits = omega arith;
          within = Within-nil p.max_elts;
          nodes = k;
          blocks = Pool-less (and_left p.noalloc_data (not (p.disown || p.by_ptr))) k';
        },
      )
        where
          and_left : (x y : Bool) → (x && y) ≡ true → x ≡ true
          and_left true y h = refl
          and_left false y h = cc

      with_nodes :
          (r : Option (List (Option ℕ)))
          → Mapped p.noalloc_meta p.max_elts r
          → Ends
              (λ m.
                (l : Llist A) × (m ≡ made l) × (l ≡ fresh p heap l.node_map l.db_map) × IsList l [])
              (elim r [
                | none ↦ done (null enomem)
                | some ns ↦ do
                  blocks' ← init_map p.noalloc_data ptr_elements p.max_elts blocks
                  elim blocks' [
                    | none ↦ done (null enomem)
                    | some bs ↦ done (made (fresh p heap ns bs))
                  ]
              ])
      with_nodes r (mapped {entries} k) =
          Ends-bind (init_map-Mapped p.noalloc_data ptr_elements p.max_elts blocks t)
            (with_blocks entries k)
