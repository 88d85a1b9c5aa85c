-- ===== src/Samples.antt =====
-- Elements for the tests: unsigned numbers, compared as a `cmpe` callback compares them.
use Prim.Native.Nat.{Ordering, compare}
use rcsw.Base.{flip_sign, ℕ, ◌≡◌, ◌≢◌, arith, Element, IsOrder}

instance abbrev pub nat_element : Element ℕ
nat_element = record { cmpe = compare; zeroed = 0; filled = 0xffff_ffff }

compare-flip : (a b : ℕ) → compare b a ≡ flip_sign (compare a b)
compare-flip a b = ground arith

compare_trans :
    (a b c : ℕ) → compare a b ≢ Ordering.gt → compare b c ≢ Ordering.gt → compare a c ≢ Ordering.gt
compare_trans a b c h k = ground arith

pub nat-IsOrder : IsOrder ℕ
nat-IsOrder = record { flip = compare-flip; trans = compare_trans }
