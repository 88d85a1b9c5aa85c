-- ===== src/EditDist/Tests.antt =====
-- Runs of the table, and the theorems at concrete sequences.
use rcsw.Base.{
  ℕ, ◌≡◌, refl, Option, some, List, [], ◌∷◌, arith, ◌==◌, done, fault, load, store, replicate,
}
use rcsw.EditDist.{cell, row_loop, table_loop, edit_dist_iter, table_size}
use rcsw.EditDist.Table.{distance, next_row, edit_dist_iter-distance}
use rcsw.EditDist.Bounds.{edit_dist_iter-fault}

abbrev blank : (m n : ℕ) → List (Option ℕ)
blank m n = replicate (table_size m n) (some 77)

abbrev long : List ℕ
long = 1 ∷ 2 ∷ 3 ∷ []

abbrev short : List ℕ
short = 1 ∷ 3 ∷ []

edit_dist_iter-long : edit_dist_iter ◌==◌ long short 3 2 (blank 3 2) ≡ done (some 1)
unfolding edit_dist_iter table_loop row_loop cell load store
edit_dist_iter-long = refl

-- Where the rows of the table overlap: 2 insertions are needed, and the answer is 0.
edit_dist_iter-overlap :
    (edit_dist_iter ◌==◌ (1 ∷ []) (1 ∷ 1 ∷ 1 ∷ []) 1 3 (blank 1 3) ≡ done (some 0))
    × (distance ◌==◌ 0 (1 ∷ []) (1 ∷ 1 ∷ 1 ∷ []) 1 3 ≡ 2)
unfolding edit_dist_iter table_loop row_loop cell load store distance next_row
edit_dist_iter-overlap = (refl, refl)

edit_dist_iter-distance_example :
    edit_dist_iter ◌==◌ long short 3 2 (blank 3 2) ≡ done (some (distance ◌==◌ 0 long short 3 2))
edit_dist_iter-distance_example =
    edit_dist_iter-distance ◌==◌ 0 long short 3 2 (blank 3 2) refl refl refl refl

edit_dist_iter-fault_example : edit_dist_iter ◌==◌ long (1 ∷ []) 3 1 (blank 3 1) ≡ fault
edit_dist_iter-fault_example =
    edit_dist_iter-fault ◌==◌ long (1 ∷ []) 3 1 (blank 3 1) (omega arith) refl
