-- ===== src/Sort/Tests.antt =====
-- Runs of the sorting routines, and each theorem at a concrete array.
use rcsw.Sort.Parting.{Partitioned, partition-Partitioned}
use rcsw.Base.{ℕ, ◌≡◌, refl, List, [], ◌∷◌, Perm, arith, done, fault, load, store, Ends}
use rcsw.Samples.{nat_element, nat-IsOrder}
use rcsw.Sort.{
  swap_at, scan_left, scan_right, partition_round, partition_loop, partition, qsort_rec_fuel,
  qsort_rec, push_range, push_stack, qsort_iter_loop, qsort_iter, shift, insertion_loop,
  insertion_sort,
}
use rcsw.Sort.Qsort.{IsSortedOn, SortsOn, qsort_rec-SortsOn}
use rcsw.Sort.Iter.{qsort_iter-SortsOn}
use rcsw.Sort.Insertion.{insertion_sort-sorts}

abbrev sample : List ℕ
sample = 5 ∷ 2 ∷ 9 ∷ 2 ∷ 0 ∷ 7 ∷ []

qsort_rec-sample : qsort_rec sample 0 5 ≡ done (0 ∷ 2 ∷ 2 ∷ 5 ∷ 7 ∷ 9 ∷ [])
unfolding qsort_rec qsort_rec_fuel partition partition_loop partition_round scan_left scan_right
    swap_at load store
qsort_rec-sample = refl

qsort_iter-sample : qsort_iter sample 5 ≡ done (0 ∷ 2 ∷ 2 ∷ 5 ∷ 7 ∷ 9 ∷ [])
unfolding qsort_iter qsort_iter_loop push_range push_stack partition partition_loop partition_round
    scan_left scan_right swap_at load store
qsort_iter-sample = refl

insertion_sort-sample : insertion_sort sample 6 ≡ done (0 ∷ 2 ∷ 2 ∷ 5 ∷ 7 ∷ 9 ∷ [])
unfolding insertion_sort insertion_loop shift load store
insertion_sort-sample = refl

qsort_rec-SortsOn_example : Ends (SortsOn 0 5 sample) (qsort_rec sample 0 5)
qsort_rec-SortsOn_example = qsort_rec-SortsOn nat-IsOrder sample 0 5 (omega arith)

insertion_sort-sorts_example :
    Ends (λ out. Perm out sample × IsSortedOn out 0 5) (insertion_sort sample 6)
insertion_sort-sorts_example = insertion_sort-sorts nat-IsOrder sample (omega arith)

qsort_iter-SortsOn_example : Ends (SortsOn 0 5 sample) (qsort_iter sample 5)
qsort_iter-SortsOn_example = qsort_iter-SortsOn nat-IsOrder sample 5 (omega arith) (omega arith)

-- A single element: the stack has one entry, and two are pushed.
qsort_iter-short : qsort_iter {A = ℕ} (4 ∷ []) 0 ≡ fault
unfolding qsort_iter push_stack
qsort_iter-short = refl

partition-Partitioned_example : Ends (Partitioned sample 1 4) (partition sample 1 4)
partition-Partitioned_example =
    partition-Partitioned nat-IsOrder sample 1 4 (omega arith) (omega arith)
