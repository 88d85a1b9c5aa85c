-- ===== src/Search/Tests.antt =====
-- Runs of the binary searches, and each theorem at a concrete array.
use rcsw.Base.{ℕ, ◌≡◌, refl, none, some, List, [], ◌∷◌, arith, done, load, Ends}
use rcsw.Samples.{nat_element, nat-IsOrder}
use rcsw.Search.{
  int_half, int_offset, bsearch_iter_loop, bsearch_iter, bsearch_rec_fuel, bsearch_rec,
}
use rcsw.Search.Correct.{IsSortedTo, Decides, bsearch_iter-Decides, bsearch_rec-Decides}

abbrev table : List ℕ
table = 2 ∷ 3 ∷ 3 ∷ 8 ∷ []

table-IsSortedTo : IsSortedTo table 0 4
table-IsSortedTo i j a b c = grind arith

searches : (bsearch_iter table 8 4 0 4 ≡ done (some 3)) × (bsearch_rec table 5 4 0 4 ≡ done none)
unfolding bsearch_iter bsearch_iter_loop bsearch_rec bsearch_rec_fuel int_half int_offset load
searches = (refl, refl)

bsearch_iter-Decides_example : Ends (Decides table 3 0 4) (bsearch_iter table 3 4 0 4)
bsearch_iter-Decides_example =
    bsearch_iter-Decides nat-IsOrder table 3 4 0 4 table-IsSortedTo (omega arith) (omega arith)
      (omega arith)

bsearch_rec-Decides_example : Ends (Decides table 3 0 4) (bsearch_rec table 3 4 0 4)
bsearch_rec-Decides_example =
    bsearch_rec-Decides nat-IsOrder table 3 4 0 4 table-IsSortedTo (omega arith) (omega arith)
      (omega arith)
