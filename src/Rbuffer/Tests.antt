-- ===== src/Rbuffer/Tests.antt =====
-- Runs of the ring buffer, and each theorem at a concrete buffer.
use rcsw.Base.{
  ℕ, suc, ◌≡◌, refl, true, false, none, some, List, [], ◌∷◌, arith, done, load, store, Ends, einval,
  enospc, ok, error,
}
use rcsw.Samples.{nat_element}
use rcsw.Rbuffer.{
  Params, Rbuffer, add, remove, index_query, map_elts, is_full, advance, serve_front,
}
use rcsw.Rbuffer.Inv.{IsValid}
use rcsw.Rbuffer.Refine.{contents}
use rcsw.Rbuffer.Query.{Found, index_query-Found}
use rcsw.Rbuffer.Walk.{map_elts-map}
use rcsw.Rbuffer.Run.{Call, put, get, look, run, run_queue, run_refines}

abbrev params : Params
params = record {
  max_elts = 3;
  elt_size = 4;
  has_cmpe = true;
  as_fifo = false;
  noalloc_handle = false;
  noalloc_data = true;
}

-- 8 and 9, round the end of the block; 7 is what an element left behind.
abbrev wrapped : Rbuffer ℕ
wrapped = record {
  elements = 9 ∷ 7 ∷ 8 ∷ [];
  current = 2;
  max_elts = 3;
  start = 2;
  as_fifo = false;
  has_cmpe = true;
}

abbrev full_ring : Rbuffer ℕ
full_ring = record wrapped { current = 3 }

abbrev drained : Rbuffer ℕ
drained = record wrapped { current = 0; start = 1 }

abbrev calls : List (Call ℕ)
calls = put 1 ∷ put 2 ∷ look ∷ get true ∷ get false ∷ get true ∷ get true ∷ []

wrapped-IsValid : IsValid wrapped
wrapped-IsValid = omega arith

overwrites :
    run full_ring calls
    ≡ done (
        (ok, none)
        ∷ (ok, none)
        ∷ (ok, some 7)
        ∷ (ok, some 7)
        ∷ (ok, none)
        ∷ (ok, some 2)
        ∷ (error einval, none)
        ∷ [])
unfolding run add remove serve_front advance is_full load store
overwrites = refl

refuses :
    add (record full_ring { as_fifo = true }) 5
    ≡ done (error enospc, record full_ring { as_fifo = true })
unfolding add
refuses = refl

run_refines_example : run wrapped calls ≡ done (run_queue false 3 (8 ∷ 9 ∷ []) calls)
run_refines_example = run_refines 0 calls wrapped-IsValid

index_query-Found_example : Ends (Found wrapped 9) (index_query wrapped 9)
index_query-Found_example = index_query-Found wrapped 9 wrapped-IsValid refl

map_elts-map_example :
    Ends
      (λ r.
        (r.0 ≡ ok)
        × (contents 0 r.1 ≡ 9 ∷ 10 ∷ [])
        × IsValid r.1
        × (r.1 ≡ record wrapped { elements = r.1.elements }))
      (map_elts wrapped suc)
map_elts-map_example = map_elts-map 0 suc wrapped-IsValid
