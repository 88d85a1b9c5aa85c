-- ===== src/Binheap/Tests.antt =====
-- Runs of the heap, and each theorem at a concrete heap.
use rcsw.Base.{
  ℕ, zero, suc, ◌-◌, ◌/◌, ◌^◌, ◌≤◌, ◌≡◌, refl, true, false, none, [], ◌∷◌, arith, done, load, store,
  Ends, ok, ◌≼◌, get_or,
}
use rcsw.Binheap.{
  Binheap, insert_key, extract, update_key, clear, is_empty, size, sift_up, sift_up_fuel, swap,
  sift_loop, make,
}
use rcsw.Binheap.Order.{Sifted}
use rcsw.Binheap.Make.{MadeHeap, make-MadeHeap}
use rcsw.Binheap.Build.{sift_loop-heapifies}
use rcsw.Binheap.Insert.{IsHeap, KeyInserted, insert_key-KeyInserted}
use rcsw.Binheap.Extract.{Extracted, extract-Extracted}
use rcsw.Binheap.Update.{KeyUpdated, update_key-KeyUpdated, clear-wraps}
use rcsw.Darray.Grow.{IsValid}
use rcsw.Darray.Tests.{plenty, plenty-IsRealloc}
use rcsw.Samples.{nat_element, nat-IsOrder}

-- A min-heap of 2, 5, 3 and 9.
abbrev heap : Binheap ℕ
heap = record {
  arr = record {
    elements = 0 ∷ 2 ∷ 5 ∷ 3 ∷ 9 ∷ 0 ∷ [];
    current = 5;
    capacity = 6;
    sorted = false;
    max_elts = none;
    has_cmpe = true;
    noalloc_data = false;
    keep_sorted = false;
    ordered = false;
  };
  is_min = true;
}

heap-IsValid : IsValid heap.arr
heap-IsValid = record { slots = omega arith; bound = omega arith; capped = λ m e. cc }

heap-IsHeap : IsHeap heap
heap-IsHeap = record {
  valid = heap-IsValid;
  temporary = omega arith;
  plain = refl;
  order = ordered;
}
  where
    ordered :
        (j : ℕ)
        → 2 ≤ j
        → j ≤ 4
        → 1 ≤ j / 2
        → get_or heap.arr.elements (j / 2) 0 ≼ get_or heap.arr.elements j 0
    ordered zero a b c = absurd (omega arith)
    ordered (suc zero) a b c = absurd (omega arith)
    ordered (suc (suc zero)) a b c = ground arith
    ordered (suc (suc (suc zero))) a b c = ground arith
    ordered (suc (suc (suc (suc zero)))) a b c = ground arith
    ordered (suc (suc (suc (suc (suc j))))) a b c = absurd (omega arith)

sift_up-sample :
    sift_up {A = ℕ} true (0 ∷ 2 ∷ 5 ∷ 3 ∷ 9 ∷ 1 ∷ []) 5 ≡ done (1 ∷ 1 ∷ 2 ∷ 3 ∷ 9 ∷ 5 ∷ [])
unfolding sift_up sift_up_fuel swap load store
sift_up-sample = refl

insert_key-KeyInserted_example : Ends (KeyInserted plenty heap 1) (insert_key plenty heap 1)
insert_key-KeyInserted_example =
    insert_key-KeyInserted nat-IsOrder plenty plenty-IsRealloc heap 1 heap-IsHeap (omega arith)

extract-Extracted_example : Ends (Extracted plenty heap true) (extract plenty heap true)
extract-Extracted_example =
    extract-Extracted nat-IsOrder plenty plenty-IsRealloc heap true heap-IsHeap (omega arith)
      (omega arith)

update_key-KeyUpdated_example : Ends (KeyUpdated heap 4 1) (update_key heap 4 1)
update_key-KeyUpdated_example =
    update_key-KeyUpdated nat-IsOrder heap 4 1 heap-IsHeap (omega arith) (omega arith)
      (ground arith)

clear-wraps_example :
    Ends
      (λ out.
        (out.0 ≡ ok)
        × (out.1.arr.current ≡ 0)
        × (is_empty out.1 ≡ false)
        × (size out.1 ≡ 2 ^ 64 - 1))
      (clear heap)
clear-wraps_example = clear-wraps heap heap-IsValid

sift_loop-heapifies_example :
    Ends
      (Sifted {A = ℕ} false 1 4 (0 ∷ 2 ∷ 9 ∷ 3 ∷ 5 ∷ []))
      (sift_loop false 4 (0 ∷ 2 ∷ 9 ∷ 3 ∷ 5 ∷ []) 3)
sift_loop-heapifies_example =
    sift_loop-heapifies nat-IsOrder false 4 (0 ∷ 2 ∷ 9 ∷ 3 ∷ 5 ∷ []) (omega arith)

-- The heap with nothing but its temporary slot.
abbrev empty_heap : Binheap ℕ
empty_heap = record heap { arr = record heap.arr { current = 1 } }

make-MadeHeap_example :
    Ends (MadeHeap plenty empty_heap (4 ∷ 1 ∷ 3 ∷ [])) (make plenty empty_heap (4 ∷ 1 ∷ 3 ∷ []))
make-MadeHeap_example =
    make-MadeHeap plenty plenty-IsRealloc nat-IsOrder empty_heap (4 ∷ 1 ∷ 3 ∷ [])
      (record { slots = omega arith; bound = omega arith; capped = λ m e. cc }) refl refl
      (omega arith) (omega arith)
