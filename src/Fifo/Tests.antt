-- ===== src/Fifo/Tests.antt =====
-- The order theorem at a concrete FIFO of two elements.
use rcsw.Base.{ℕ, ◌≡◌, refl, true, false, List, [], ◌∷◌, ◌++◌, arith, Ends}
use rcsw.Fifo.{Fifo, Params, made, init}
use rcsw.Fifo.Order.{Call, put, take_one, run_calls, init-run_calls}
use rcsw.Rbuffer.Refine.{contents}

abbrev params : Params
params = record { max_elts = 2; elt_size = 4; noalloc_handle = false; noalloc_data = true }

abbrev calls : List (Call ℕ)
calls = put 5 ∷ put 6 ∷ put 7 ∷ take_one ∷ put 8 ∷ []

init-run_calls_example :
    (fifo : Fifo ℕ) × (init params true true true true (0 ∷ 0 ∷ []) ≡ made fifo)
    × Ends (λ r. r.0 ≡ r.1 ++ contents 0 r.2.rb) (run_calls fifo calls)
init-run_calls_example =
    init-run_calls 0 params (0 ∷ 0 ∷ []) calls (omega arith) (omega arith) (omega arith) refl
