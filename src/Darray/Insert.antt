-- ===== src/Darray/Insert.antt =====
-- Insertion into the dynamic array, on every branch: `darray_insert` without the SORTED flag.
use rcsw.Base.{
  true-ne-false, ℕ, suc, ◌+◌, ◌*◌, ◌≤◌, ◌<◌, max, ◌≡◌, refl, sym, ap, ◌∙◌, ◌⊎◌, inl, inr, true,
  false, ◌&&◌, Option, none, some, List, arith, leb, ◌==◌, if◌then◌else◌, Bool-cases, Option-cases,
  le→leb, ◌>>=◌, load, store, load-done, store-done, Ends, ends, Ends-bind, Ends-map, Ends-if,
  enospc, eagain, enomem, Status, ok, error, Element, length, get_or, set, take, length-set, ==_iff,
  ◌++◌, [], ◌∷◌,
}
use mathlib.Core.Path.{subst}
use rcsw.Darray.{Darray, Realloc, IsRealloc, is_capped, as_size, extend}
use mathlib.Core.Option.{some-injective}
use rcsw.Darray.Edit.{place_if_ok, place, insert, shift_up}
use rcsw.Darray.Spec.{
  insert_at-end, insert_swap-end, length-contents, contents, insert_at, insert_swap,
}
use rcsw.Darray.Grow.{IsValid, contents-realloc, extend-fixed, extend-starved, extend-grown}
use rcsw.Darray.Gap.{shift_up-inserts, swap-inserts}

below_cap : (n m k : ℕ) → m ≡ k → n ≤ m → (n == m) ≡ false → n < k
below_cap n m k e h q = ground (arith, e, h, q)

-- The space test of `darray_insert`.
pub full_or_room :
    (n : ℕ) (o : Option ℕ)
    → ((m : ℕ) → o ≡ some m → n ≤ m)
    → ((((n == as_size o) && is_capped o) ≡ true) × (o ≡ some n))
      ⊎ ((((n == as_size o) && is_capped o) ≡ false) × ((m : ℕ) → o ≡ some m → n < m))
full_or_room n none h = elim (Bool-cases (n == as_size none)) [
  | inl q ↦ inr (rw q refl, λ m e. cc)
  | inr q ↦ inr (rw q refl, λ m e. cc)
]
full_or_room n (some m) h = elim (Bool-cases (n == m)) [
  | inl q ↦ inl (rw q refl, ap some (sym ((==_iff n m).0 q)))
  | inr q ↦ inr (rw q refl, λ k e. below_cap n m k (some-injective m k e) (h m refl) q)
]

module _ {ℓ} {A : Type ℓ} where
  -- The list after an insertion, by the ORDERED flag.
  unfoldable pub inserted : Darray A → (index : ℕ) → A → List A
  inserted a index e =
      if a.ordered then insert_at (contents a) index e else insert_swap (contents a) index e

  pub inserted-end :
      (a : Darray A) (e : A)
      → a.current ≤ length a.elements
      → inserted a a.current e ≡ contents a ++ e ∷ []
  unfolding inserted
  inserted-end a e h =
      let size : length (contents a) ≡ a.current = length-contents a.elements a.current h in
      elim (Bool-cases a.ordered) [
        | inl q ↦ rw q (
            subst (λ n. insert_at (contents a) n e ≡ contents a ++ e ∷ []) size
              (insert_at-end (contents a) e))
        | inr q ↦ rw q (
            subst (λ n. insert_swap (contents a) n e ≡ contents a ++ e ∷ []) size
              (insert_swap-end (contents a) e))
      ]

  -- What `place` leaves: only the block and the size have changed.
  pub record Placed (a : Darray A) (e : A) (index : ℕ) (out : Status × Darray A) : Type ℓ where
    pub fine : out ≡ (ok, record a { elements = out.1.elements; current = a.current + 1 })
    pub size : length out.1.elements ≡ length a.elements
    pub edit : take (a.current + 1) out.1.elements ≡ inserted a index e

  -- What an insertion leaves as it is: the cap, the flags, and the size of a block of the caller.
  pub record Configured (a a' : Darray A) : Type 0 where
    pub limit : a'.max_elts ≡ a.max_elts
    pub sorts : a'.keep_sorted ≡ a.keep_sorted
    pub owner : a'.noalloc_data ≡ a.noalloc_data
    pub block : a.noalloc_data ≡ true → a'.capacity ≡ a.capacity

  -- The gap is open once either branch has run: a write at the place completes the edit.
  pub gap-inserted :
      (a : Darray A) (e : A) (index : ℕ)
      → index ≤ a.current
      → a.current < length a.elements
      → Ends
          (λ es.
            (length es ≡ length a.elements)
            × (take (a.current + 1) (set es index e) ≡ inserted a index e))
          (if a.ordered
            then shift_up a.elements index a.current
            else (do x ← load a.elements index; store a.elements a.current x))
  unfolding inserted
  gap-inserted a e index h b =
      let next : suc a.current ≡ a.current + 1 = omega arith in
      Ends-if a.ordered
        (λ q. rw q (
          Ends-map (shift_up-inserts a.elements index a.current e h b) λ es (size, edit). (
            size,
            subst (λ n. take n (set es index e) ≡ insert_at (contents a) index e) next edit,
          )))
        (λ q.
          let x = get_or a.elements index e in
          let got = load-done a.elements index e (omega arith) in
          let put = store-done a.elements a.current x b in
          rw (q, got, put)
            (ends (
              length-set a.elements a.current x,
              subst
                  (λ n.
                    take n (set (set a.elements a.current x) index e)
                    ≡ insert_swap (contents a) index e)
                  next (swap-inserts a.elements index a.current e h b),
            )))

  module _ ⦃el : Element A⦄ where
    pub place-Placed :
        (a : Darray A) (e : A) (index : ℕ)
        → index ≤ a.current
        → a.current < length a.elements
        → a.keep_sorted ≡ false
        → Ends (Placed a e index) (place a e index)
    unfolding place inserted
    place-Placed a e index h b unsorted = Ends-bind (gap-inserted a e index h b) λ es (size, edit).
        rw (store-done es index e (omega (arith, size)), unsorted)
          (ends (record { fine = refl; size = length-set es index e ∙ size; edit = edit }))

    -- The ways in which an insertion at a valid place ends.
    pub data Inserted (realloc : Realloc A) (a : Darray A) (e : A) (index : ℕ)
        : Status × Darray A → Type ℓ where
      placed :
          {a' : Darray A}
          → IsValid a'
          → contents a' ≡ inserted a index e
          → Configured a a'
          → Inserted realloc a e index (ok, a')
      full : a.max_elts ≡ some a.current → Inserted realloc a e index (error enospc, a)
      fixed :
          a.noalloc_data ≡ true
          → a.capacity ≡ a.current
          → Inserted realloc a e index (error eagain, a)
      starved :
          a.noalloc_data ≡ false
          → a.capacity ≡ a.current
          → realloc a.elements (max (a.capacity * 2) 1) ≡ none
          → Inserted realloc a e index
              (error enomem, record a { capacity = max (a.capacity * 2) 1 })

    -- With a free slot below the cap; `b` is `a` before its block grew.
    place-Inserted :
        (realloc : Realloc A) (b a : Darray A) (e : A) (index : ℕ)
        → IsValid a
        → index ≤ a.current
        → a.current < a.capacity
        → ((m : ℕ) → a.max_elts ≡ some m → a.current < m)
        → a.keep_sorted ≡ false
        → inserted a index e ≡ inserted b index e
        → Configured b a
        → Ends (Inserted realloc b e index) (place a e index)
    place-Inserted realloc b a e index v h free room unsorted same flags =
        Ends-map (place-Placed a e index h (omega (arith, v.slots)) unsorted) λ out p.
          let valid : IsValid (record a { elements = out.1.elements; current = a.current + 1 }) =
            record {
              slots = omega (arith, v.slots, p.size);
              bound = omega arith;
              capped = λ m q. omega (arith, room m q);
            } in
          let config : Configured b
              (record a { elements = out.1.elements; current = a.current + 1 }) =
            record {
              limit = flags.limit;
              sorts = flags.sorts;
              owner = flags.owner;
              block = flags.block;
            } in
          subst (Inserted realloc b e index) (sym p.fine) (
            placed {a' = record a { elements = out.1.elements; current = a.current + 1 }} valid
              (p.edit ∙ same) config)

    inserted-same :
        (a : Darray A) (ys : List A) (n : ℕ) (e : A) (index : ℕ)
        → take a.current ys ≡ contents a
        → inserted (record a { elements = ys; capacity = n }) index e ≡ inserted a index e
    unfolding inserted
    inserted-same a ys n e index kept = rw kept refl

    insert-grown :
        (realloc : Realloc A)
        → IsRealloc realloc
        → (a : Darray A) (e : A) (index : ℕ) → IsValid a
        → index ≤ a.current
        → a.capacity ≡ a.current
        → ((m : ℕ) → a.max_elts ≡ some m → a.current < m)
        → a.keep_sorted ≡ false
        → Ends
            (Inserted realloc a e index)
            (place_if_ok e index (extend realloc a (max (a.capacity * 2) 1)))
    insert-grown realloc law a e index v h tight room unsorted = elim (Bool-cases a.noalloc_data) [
      | inl q ↦ subst goal (sym (extend-fixed realloc a size q)) (ends (fixed q tight))
      | inr q ↦ elim (Option-cases (realloc a.elements size)) [
        | inl r ↦ subst goal (sym (extend-starved realloc a size q r)) (ends (starved q tight r))
        | inr (ys, r) ↦
            let long = law.size a.elements ys size r in
            let grown : IsValid (record a { elements = ys; capacity = size }) = record {
              slots = omega (arith, long);
              bound = omega (arith, v.bound);
              capped = v.capped;
            } in
            let kept =
              contents-realloc realloc law a.elements ys size a.current e r (omega arith)
                (omega (arith, v.bound, v.slots)) in
            subst goal (sym (extend-grown realloc a size q ys r)) (
              place-Inserted realloc a (record a { elements = ys; capacity = size }) e index grown h
                (omega arith) room unsorted (inserted-same a ys size e index kept)
                (record {
                  limit = refl;
                  sorts = refl;
                  owner = refl;
                  block = λ own. absurd (true-ne-false (sym own ∙ q));
                }))
      ]
    ]
      where
        size : ℕ
        size = max (a.capacity * 2) 1

        goal : Status × Darray A → Type ℓ
        goal o = Ends (Inserted realloc a e index) (place_if_ok e index o)

    -- `darray_insert` at a place up to the size of a valid array without the SORTED flag, with a
    -- `realloc` that keeps the old entries, ends. Either the element is at the place, with those
    -- behind it moved up (ORDERED) or the one that was there moved to the end (not ORDERED), and
    -- the array is again valid; or the cap is reached, or the memory is the caller's and is full, or
    -- `realloc` fails, and the array is the same, but for the capacity after the failure of `realloc`.
    pub insert-Inserted :
        (realloc : Realloc A)
        → IsRealloc realloc
        → (a : Darray A) (e : A) (index : ℕ) → IsValid a
        → index ≤ a.current
        → a.keep_sorted ≡ false
        → Ends (Inserted realloc a e index) (insert realloc a e index)
    unfolding insert
    insert-Inserted realloc law a e index v h unsorted =
        rw (le→leb index a.current h) (elim (full_or_room a.current a.max_elts v.capped) [
          | inl (q, r) ↦ rw q (ends (full r))
          | inr (q, room) ↦ rw q (
              Ends-if (leb a.capacity a.current)
                (λ p.
                  insert-grown realloc law a e index v h (ground (arith, p, v.bound)) room unsorted)
                (λ p.
                  place-Inserted realloc a a e index v h (ground (arith, p)) room unsorted refl
                    (record { limit = refl; sorts = refl; owner = refl; block = λ own. refl })))
        ])
