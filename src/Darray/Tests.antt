-- ===== src/Darray/Tests.antt =====
-- Runs of the dynamic array, and each theorem at a concrete array.
use rcsw.Samples.{nat-IsOrder, nat_element}
use rcsw.Darray.Sorted.{InOrder, insert-InOrder}
use rcsw.Base.{
  take, ℕ, zero, suc, ◌<◌, ◌≡◌, refl, ap, Bool, true, false, none, some, List, [], ◌∷◌, arith, done,
  fault, load, store, Ends, ok, length, get_or,
}
use mathlib.Core.Path.{subst}
use rcsw.Darray.{extend, is_full, resize, Darray, Realloc, IsRealloc, idx_query}
use rcsw.Darray.Edit.{place, insert, remove, shift_up}
use rcsw.Darray.Query.{LastMatch, idx_query-LastMatch, insert-stays_marked}
use rcsw.Search.{int_half, int_offset, bsearch_rec, bsearch_rec_fuel}
use rcsw.Darray.Grow.{IsValid}
use rcsw.Darray.Insert.{inserted, Inserted, insert-Inserted}
use rcsw.Darray.Remove.{Removed, remove-Removed}
use rcsw.Darray.Trim.{Resized, resize-Resized, insert-after_starved}
use mathlib.Core.Option.{some-injective}

-- A `realloc` that always succeeds, with zeros behind the old entries.
abbrev padded : List ℕ → ℕ → List ℕ
padded xs zero = []
padded [] (suc n) = 0 ∷ padded [] n
padded (x ∷ xs) (suc n) = x ∷ padded xs n

abbrev pub plenty : Realloc ℕ
plenty xs n = some (padded xs n)

length-padded : (xs : List ℕ) (n : ℕ) → length (padded xs n) ≡ n
length-padded xs zero = refl
length-padded [] (suc n) = ap suc (length-padded [] n)
length-padded (x ∷ xs) (suc n) = ap suc (length-padded xs n)

get_or-padded :
    (xs : List ℕ) (n i d : ℕ) → i < n → i < length xs → get_or (padded xs n) i d ≡ get_or xs i d
get_or-padded xs zero i d h k = absurd (omega arith)
get_or-padded [] (suc n) i d h k = absurd (omega arith)
get_or-padded (x ∷ xs) (suc n) zero d h k = refl
get_or-padded (x ∷ xs) (suc n) (suc i) d h k = get_or-padded xs n i d (omega arith) (omega arith)

pub plenty-IsRealloc : IsRealloc plenty
plenty-IsRealloc = record {
  size = λ xs ys n e.
      subst (λ zs. length zs ≡ n) (some-injective (padded xs n) ys e) (length-padded xs n);
  keeps = λ xs ys n i d e h k.
      subst (λ zs. get_or zs i d ≡ get_or xs i d) (some-injective (padded xs n) ys e)
        (get_or-padded xs n i d h k);
}

abbrev array : (ordered : Bool) → Darray ℕ
array ordered = record {
  elements = 5 ∷ 3 ∷ 8 ∷ [];
  current = 3;
  capacity = 3;
  sorted = false;
  max_elts = none;
  has_cmpe = true;
  noalloc_data = false;
  keep_sorted = false;
  ordered = ordered;
}

array-IsValid : (b : Bool) → IsValid (array b)
array-IsValid b = record { slots = omega arith; bound = omega arith; capped = λ m e. cc }

insert-array :
    insert plenty (array true) 7 1
    ≡ done (
      ok,
      record (array true) { elements = 5 ∷ 7 ∷ 3 ∷ 8 ∷ 0 ∷ 0 ∷ []; current = 4; capacity = 6 },
    )
unfolding insert place shift_up is_full extend load store
insert-array = refl

insert-Inserted_example : Ends (Inserted plenty (array true) 7 1) (insert plenty (array true) 7 1)
insert-Inserted_example =
    insert-Inserted plenty plenty-IsRealloc (array true) 7 1 (array-IsValid true) (omega arith) refl

remove-Removed_example : Ends (Removed (array false) true 0 0) (remove plenty (array false) true 0)
remove-Removed_example =
    remove-Removed plenty plenty-IsRealloc (array false) true 0 0 (array-IsValid false)
      (omega arith) (omega arith)

resize-Resized_example : Resized (array true) 2 (resize plenty (array true) 2)
resize-Resized_example =
    resize-Resized plenty plenty-IsRealloc (array true) 2 (5 ∷ 3 ∷ []) 0 (array-IsValid true) refl
      (omega arith) refl

insert-after_starved_example : insert plenty (record (array true) { capacity = 6 }) 7 1 ≡ fault
insert-after_starved_example =
    insert-after_starved plenty (array true) 7 1 refl refl refl (omega arith)

-- The array after `darray_sort`, and the one with a greater element put in front.
abbrev marked : Darray ℕ
marked = record (array true) { elements = 3 ∷ 5 ∷ 8 ∷ 0 ∷ []; capacity = 4; sorted = true }

insert-stays_marked_example :
    Ends
      (λ out. (out.0 ≡ ok) × (out.1.sorted ≡ true) × (take 4 out.1.elements ≡ inserted marked 0 9))
      (insert plenty marked 9 0)
insert-stays_marked_example =
    insert-stays_marked plenty marked 9 0
      (record { slots = omega arith; bound = omega arith; capped = λ m e. cc }) (omega arith)
      (omega arith) refl refl refl

idx_query-missed :
    idx_query 4 (record marked { elements = 9 ∷ 3 ∷ 5 ∷ 8 ∷ []; current = 4 }) 9 ≡ done none
unfolding idx_query bsearch_rec bsearch_rec_fuel int_half int_offset load
idx_query-missed = refl

idx_query-LastMatch_example :
    Ends (LastMatch {A = ℕ} (5 ∷ 3 ∷ 8 ∷ []) 3 3) (idx_query 4 (array true) 3)
idx_query-LastMatch_example = idx_query-LastMatch 4 (array true) 3 (array-IsValid true) refl refl

insert-InOrder_example :
    Ends
      (InOrder {A = ℕ} (1 ∷ 3 ∷ 5 ∷ 8 ∷ []))
      (insert plenty (record marked { elements = 3 ∷ 5 ∷ 8 ∷ 0 ∷ []; keep_sorted = true }) 1 3)
insert-InOrder_example =
    insert-InOrder nat-IsOrder plenty
      (record marked { elements = 3 ∷ 5 ∷ 8 ∷ 0 ∷ []; keep_sorted = true }) 1 3
      (record { slots = omega arith; bound = omega arith; capped = λ m e. cc }) (omega arith)
      (omega arith) (λ m e. cc) refl refl
