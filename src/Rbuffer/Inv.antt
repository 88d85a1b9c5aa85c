-- ===== src/Rbuffer/Inv.antt =====
-- The representation invariant of `struct rbuffer`, and that every call keeps it.
use native.Mathlib.Nat.{add-zero, mod-mod, mod-eq_of_lt}
use rcsw.Base.{
  ◌-◌, ◌&&◌, ◌++◌, refl, ap, ok, error, enospc, einval, drop, replicate, ℕ, ◌+◌, ◌%◌, ◌^◌, ◌≤◌, ◌<◌,
  ◌≡◌, Bool, true, false, none, some, List, arith, if◌then◌else◌, done, Ends, ends, Ends-if,
  load-done, store-done, Element, length, length-set, length-append, length-replicate, length-drop,
  get_or, set,
}
use rcsw.Rbuffer.{
  Params, Rbuffer, made, add_size, is_full, is_empty, init, data_get, advance, add, serve_front,
  remove, memset, clear,
}

-- The block holds `max_elts` slots, the indices lie inside it, and an index fits an `int`.
pub record IsValid {ℓ} {A : Type ℓ} (rb : Rbuffer A) : Type 0 where
  pub whole : length rb.elements ≡ rb.max_elts
  pub small : rb.max_elts < 2 ^ 31
  pub start_in : rb.start < rb.max_elts
  pub current_in : rb.current ≤ rb.max_elts

module _ {ℓ} {A : Type ℓ} where
  -- What `rbuffer_init` makes of a block of `max_elts` slots is valid and empty.
  pub init-IsValid :
      (p : Params) (ptr_handle ptr_data malloc1 malloc2 : Bool) (memory : List A) {rb : Rbuffer A}
      → length memory ≡ p.max_elts
      → p.max_elts < 2 ^ 31
      → init p ptr_handle ptr_data malloc1 malloc2 memory ≡ made rb
      → IsValid rb × (rb.current ≡ 0) × (rb.max_elts ≡ p.max_elts)
  unfolding init
  init-IsValid p ptr_handle ptr_data malloc1 malloc2 memory h s e = ground arith

  -- The slot of the `k`-th element from the front, and the one that `rbuffer_add` writes.
  abbrev pub slot : Rbuffer A → ℕ → ℕ
  slot rb k = (rb.start + k) % rb.max_elts

  abbrev pub tail : Rbuffer A → ℕ
  tail rb = slot rb rb.current

  pub data_get-slot :
      {rb : Rbuffer A} (k : ℕ)
      → IsValid rb
      → k ≤ rb.max_elts
      → data_get rb (add_size rb.start k % rb.max_elts) ≡ slot rb k
  unfolding data_get
  data_get-slot {rb} k v h =
      let exact : add_size rb.start k ≡ rb.start + k = omega arith in
      rw (exact, mod-mod (rb.start + k) rb.max_elts)

  pub slot-zero : {rb : Rbuffer A} → IsValid rb → slot rb 0 ≡ rb.start
  slot-zero {rb} v = rw (add-zero, mod-eq_of_lt v.start_in)

  pub slot-lt : {rb : Rbuffer A} (k : ℕ) → IsValid rb → slot rb k < length rb.elements
  slot-lt k v = omega arith

  -- Past the front the index wraps, and stays below the capacity.
  pub next_start : {rb : Rbuffer A} → IsValid rb → add_size rb.start 1 % rb.max_elts ≡ slot rb 1
  next_start {rb} v =
      let exact : add_size rb.start 1 ≡ rb.start + 1 = omega arith in
      ap (λ k. k % rb.max_elts) exact

  -- `add` does not fault: it refuses, or it stores at the tail and advances.
  pub add_lem :
      {rb : Rbuffer A} (e : A)
      → IsValid rb
      → add rb e ≡ (
          if rb.as_fifo && is_full rb
          then done (error enospc, rb)
          else done (ok, advance rb (set rb.elements (tail rb) e)))
  unfolding add
  add_lem {rb} e v =
      rw (data_get-slot rb.current v v.current_in, store-done rb.elements (tail rb) e (slot-lt _ v))

  pub advance-IsValid :
      {rb : Rbuffer A} (e : A) → IsValid rb → IsValid (advance rb (set rb.elements (tail rb) e))
  unfolding advance
  advance-IsValid {rb} e v = ground (arith, length-set rb.elements (tail rb) e)

  -- `rbuffer_add` ends without a fault and keeps the invariant.
  pub add-IsValid : {rb : Rbuffer A} (e : A) → IsValid rb → Ends (λ r. IsValid r.1) (add rb e)
  add-IsValid {rb} e v =
      rw (add_lem e v)
        (Ends-if (rb.as_fifo && is_full rb) (λ _. ends v) (λ _. ends (advance-IsValid e v)))

  -- The element at the front.
  pub serve_front_lem :
      {rb : Rbuffer A} (d : A)
      → IsValid rb
      → serve_front rb ≡ (
          if is_empty rb
          then done (error einval, none)
          else done (ok, some (get_or rb.elements rb.start d)))
  unfolding serve_front data_get
  serve_front_lem {rb} d v =
      rw (mod-eq_of_lt v.start_in, load-done rb.elements rb.start d (omega arith))

  -- The buffer without its front element.
  abbrev pub dropped : Rbuffer A → Rbuffer A
  dropped rb = record rb { start = slot rb 1; current = rb.current - 1 }

  pub remove_lem :
      {rb : Rbuffer A} (d : A) (want : Bool)
      → IsValid rb
      → remove rb want ≡ (
          if is_empty rb
          then done (error einval, none, rb)
          else done (ok, (if want then some (get_or rb.elements rb.start d) else none), dropped rb))
  unfolding remove is_empty
  remove_lem {rb} d true v = ground (arith, serve_front_lem d v, next_start v)
  remove_lem {rb} d false v = ground (arith, next_start v)

  pub dropped-IsValid : {rb : Rbuffer A} → IsValid rb → IsValid (dropped rb)
  dropped-IsValid v = omega arith

  module _ ⦃el : Element A⦄ where
    pub memset_lem :
        (es : List A) (n : ℕ)
        → n ≤ length es
        → memset es n ≡ done (replicate n el.zeroed ++ drop n es)
    unfolding memset
    memset_lem es n h = ground arith

    -- `rbuffer_clear` leaves a valid, empty buffer of the same capacity.
    pub clear-IsValid :
        {rb : Rbuffer A}
        → IsValid rb
        → Ends
            (λ r. (r.0 ≡ ok) × IsValid r.1 × (r.1.current ≡ 0) × (r.1.max_elts ≡ rb.max_elts))
            (clear rb)
    unfolding clear
    clear-IsValid {rb} v = rw (memset_lem rb.elements rb.current (omega arith)) (
        ends (
          refl,
          omega (
            arith,
            length-append (replicate rb.current el.zeroed) (drop rb.current rb.elements),
            length-replicate rb.current el.zeroed,
            length-drop rb.current rb.elements,
          ),
          refl,
          refl,
        ))
