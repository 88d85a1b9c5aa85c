-- ===== src/Llist/Tests.antt =====
-- Runs of the linked list on the application's memory, and instances of its theorems.
use rcsw.Base.{
  ℕ, zero, suc, ◌<◌, ◌≡◌, refl, ap, Bool, true, false, not, Option, none, some, List, [], ◌∷◌,
  arith, ◌==◌, Exec, done, fault, ◌>>=◌, load, store, Ends, enospc, Status, ok, error, cmp_eq,
  alloc, get_or, replicate,
}
use rcsw.Samples.{nat_element, nat-IsOrder}
use rcsw.Nodes.{
  mergesort_rec, mergesort_fuel, find_half, takes_left, attach, merge_loop, Heap, write, load_node,
  set_next, set_prev,
}
use rcsw.Nodes.Chain.{Cell, node_of}
use rcsw.Allocm.{is_free, init_entries, allocm_init, probe_loop, allocm_probe}
use rcsw.Llist.{
  Llist, Malloc, Params, made, fresh, acquire, init_map, init, node_alloc, node_dealloc,
  datablock_alloc, datablock_dealloc, node_destroy, node_create,
}
use rcsw.Llist.Relink.{link_behind, link_before, unlink, delete}
use rcsw.Llist.Edit.{
  count_in, walk_loop, append, prepend, query_loop, node_query, sort_rec, remove, filter2,
  inject_loop, inject,
}
use rcsw.Llist.Inv.{IsList, IsLawful, SameSetup}
use rcsw.Llist.Init.{init-IsList}
use rcsw.Llist.Insert.{Inserted, append-Inserted}
use rcsw.Llist.Query.{FirstGone, remove-FirstGone}
use rcsw.Llist.Filter.{filter2-kept}

-- Room for three elements, in memory of the application.
abbrev params : Params
params = record {
  max_elts = some 3;
  elt_size = 4;
  has_cmpe = true;
  noalloc_handle = true;
  noalloc_meta = true;
  noalloc_data = true;
  disown = false;
  by_ptr = false;
  keep_sorted = false;
}

abbrev no_malloc : Malloc ℕ
no_malloc = record { node = λ h. none; block = false }

abbrev never : ℕ → ℕ → Bool
never x y = false

abbrev bare : Heap ℕ
bare a = none

abbrev start : Exec (Llist ℕ)
start =
    init params true false true true bare (replicate 3 (some 0)) (replicate 3 (some 0))
    >>= (λ m. elim m [ made l ↦ done l | _ ↦ fault ])

-- What the calls answer, and the elements from the last to the first.
abbrev listed : Llist ℕ → Exec (List ℕ)
listed l = inject l (λ x xs. x ∷ xs) [] >>= (λ r. done r.1)

-- 5 and 7 at the end, 3 in front, one too many; then 5 out and 9 at the end.
abbrev calls : Exec (Status × Status × List ℕ × Status × List ℕ)
calls = do
  l ← start
  (s1, l1) ← append no_malloc l 5
  (s2, l2) ← append no_malloc l1 7
  (s3, l3) ← prepend no_malloc l2 3
  (s4, l4) ← append no_malloc l3 8
  xs ← listed l4
  (s5, l5) ← remove never l4 5
  (s6, l6) ← append no_malloc l5 9
  ys ← listed l6
  done (s3, s4, xs, s6, ys)

calls-run : calls ≡ done (ok, error enospc, 7 ∷ 5 ∷ 3 ∷ [], ok, 9 ∷ 7 ∷ 3 ∷ [])
unfolding init init_map acquire allocm_init init_entries allocm_probe probe_loop load store
    node_alloc node_dealloc datablock_alloc datablock_dealloc node_destroy node_create link_behind
    link_before unlink delete count_in append prepend query_loop node_query remove inject_loop
    inject write load_node set_next set_prev alloc
calls-run = refl

abbrev c0 : Cell ℕ
c0 = record { at = 0; block = 1; datum = 5 }

abbrev c2 : Cell ℕ
c2 = record { at = 2; block = 0; datum = 7 }

-- Two of three elements: the nodes 0 and 2, with the blocks 1 and 0.
abbrev two_nodes : Llist ℕ
two_nodes =
    record (fresh params
      (write (write bare 0 (some (node_of c0 (some 2) none))) 2 (some (node_of c2 none (some 0))))
      (some 0 ∷ none ∷ some 0 ∷ []) (some 0 ∷ some 0 ∷ none ∷ [])) {
        first = some 0;
        last = some 2;
        current = 2;
        keep_sorted = true;
      }

marked-below :
    (b1 b2 b3 : Option ℕ) (used : ℕ → Bool)
    → is_free b1 ≡ not (used 0)
    → is_free b2 ≡ not (used 1)
    → is_free b3 ≡ not (used 2)
    → (i : ℕ) → i < 3
    → is_free (get_or (b1 ∷ b2 ∷ b3 ∷ []) i none) ≡ not (used i)
marked-below b1 b2 b3 used p q r zero h = p
marked-below b1 b2 b3 used p q r (suc zero) h = q
marked-below b1 b2 b3 used p q r (suc (suc zero)) h = r
marked-below b1 b2 b3 used p q r (suc (suc (suc i))) h = absurd (omega arith)

two_nodes-IsList : IsList two_nodes (c0 ∷ c2 ∷ [])
unfolding write
two_nodes-IsList = record {
  chain = (refl, (refl, tt));
  distinct = (refl, (refl, tt));
  at_ends = record { first_at = refl; last_at = refl };
  count = refl;
  fits = omega arith;
  within = omega arith;
  nodes = record {
    capped = λ o. refl;
    marks = λ o. record {
      room = omega arith;
      marked = marked-below (some 0) none (some 0) _ refl refl refl;
      inside = λ i e. ground (arith, e);
    };
    no_repeat = λ o. (refl, (refl, tt));
  };
  blocks = record {
    capped = λ o. refl;
    marks = λ o. record {
      room = omega arith;
      marked = marked-below (some 0) (some 0) none _ refl refl refl;
      inside = λ i e. ground (arith, e);
    };
    no_repeat = λ o. (refl, (refl, tt));
  };
}

no_malloc-IsLawful : IsLawful no_malloc
no_malloc-IsLawful h p e = cc

init-IsList_example :
    Ends
      (λ m.
        (l : Llist ℕ) × (m ≡ made l) × (l ≡ fresh params bare l.node_map l.db_map) × IsList l [])
      (init params true false true true bare (replicate 3 (some 0)) (replicate 3 (some 0)))
unfolding alloc
init-IsList_example =
    init-IsList params true false true true bare (replicate 3 (some 0)) (replicate 3 (some 0)) refl
      (omega arith) refl (λ o. (refl, refl, omega arith)) (λ o. (refl, refl, omega arith))

append-Inserted_example :
    Ends
      (Inserted no_malloc two_nodes (c0 ∷ c2 ∷ []) 9 (λ c. c0 ∷ c2 ∷ c ∷ []))
      (append no_malloc two_nodes 9)
    × Ends
        (Inserted no_malloc two_nodes (c0 ∷ c2 ∷ []) 9 (λ c. c ∷ c0 ∷ c2 ∷ []))
        (prepend no_malloc two_nodes 9)
append-Inserted_example =
    append-Inserted no_malloc no_malloc-IsLawful two_nodes (c0 ∷ c2 ∷ []) 9 two_nodes-IsList
      (λ on. nat-IsOrder) (omega arith)

remove-FirstGone_example :
    Ends (FirstGone never two_nodes (c0 ∷ c2 ∷ []) 7) (remove never two_nodes 7)
remove-FirstGone_example = remove-FirstGone never two_nodes (c0 ∷ c2 ∷ []) 7 two_nodes-IsList

filter2-kept_example :
    Ends
      (λ (st, l'). (st ≡ ok) × IsList l' (c2 ∷ []) × SameSetup two_nodes l')
      (filter2 never two_nodes (λ x. x == 5))
filter2-kept_example =
    filter2-kept never (λ x. x == 5) two_nodes (c0 ∷ c2 ∷ [])
      (record {
        searched = refl;
        itself = λ x. ground arith;
        agrees = λ x y h. ap (λ z. z == 5) (equal x y h);
      })
      two_nodes-IsList
  where
    equal : (x y : ℕ) → cmp_eq x y ≡ true → x ≡ y
    equal x y h = ground (arith, h)

-- Two elements, sorted; and a lesser one more behind, which a second sort leaves there.
abbrev sorts : Exec (List ℕ × List ℕ)
sorts = do
  l ← start
  (s1, l1) ← append no_malloc l 7
  (s2, l2) ← append no_malloc l1 3
  (s3, l3) ← sort_rec l2
  xs ← listed l3
  (s4, l4) ← append no_malloc l3 1
  (s5, l5) ← sort_rec l4
  ys ← listed l5
  done (xs, ys)

sorts-run : sorts ≡ done (7 ∷ 3 ∷ [], 1 ∷ 7 ∷ 3 ∷ [])
unfolding init init_map acquire allocm_init init_entries allocm_probe probe_loop load store
    node_alloc node_dealloc datablock_alloc datablock_dealloc node_destroy node_create link_behind
    link_before unlink delete count_in append prepend query_loop node_query remove inject_loop
    inject write load_node set_next set_prev alloc sort_rec walk_loop mergesort_rec mergesort_fuel
    find_half takes_left attach merge_loop
sorts-run = refl
