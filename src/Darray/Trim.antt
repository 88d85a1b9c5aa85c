-- ===== src/Darray/Trim.antt =====
-- Two edges of the memory of the dynamic array: the size after `darray_resize`, and an insertion
-- after one for which `realloc` failed.
use rcsw.Base.{
  ℕ, zero, suc, ◌-◌, ◌*◌, ◌≤◌, ◌<◌, min, max, ◌≡◌, refl, sym, ap, ap₂, ◌∙◌, inl, inr, false, ◌&&◌,
  none, some, List, arith, ltb, ◌==◌, if◌then◌else◌, Bool-cases, lt-or-le, lt→ltb, le→not-ltb,
  le→leb, lt→not-leb, done, fault, load-done, Status, ok, Element, length, get_or, take, and_false,
  load-fault, store-fault,
}
use mathlib.Core.Path.{subst}
use rcsw.Darray.{Darray, Realloc, IsRealloc, extend, shrink, resize, is_full, is_capped, as_size}
use rcsw.Darray.Edit.{place, insert, shift_up}
use rcsw.Darray.Spec.{contents}
use rcsw.Darray.Grow.{IsValid, contents-realloc, extend-grown}
use rcsw.Darray.Remove.{shrink-done}

module _ {ℓ} {A : Type ℓ} where
  -- The array after a resize that succeeds: a shrunk one keeps at most `size - 1` elements.
  pub record Resized (a : Darray A) (size : ℕ) (out : Status × Darray A) : Type ℓ where
    pub fine : out.0 ≡ ok
    pub valid : IsValid out.1
    pub slots : out.1.capacity ≡ size
    pub kept :
        contents out.1
        ≡ (if ltb size a.capacity then take (min (size - 1) a.current) a.elements else contents a)

  module _ (realloc : Realloc A) (a : Darray A) (size : ℕ) where
    resize-grows : a.capacity < size → resize realloc a size ≡ extend realloc a size
    unfolding resize
    resize-grows h =
        ap
          (λ b.
            if b
            then extend realloc a size
            else if ltb size a.capacity
            then shrink realloc a size
            else (ok, a))
          (lt→ltb a.capacity size h)

    resize-shrinks : size < a.capacity → resize realloc a size ≡ shrink realloc a size
    unfolding resize
    resize-shrinks h =
        ap₂
          (λ b c. if b then extend realloc a size else if c then shrink realloc a size else (ok, a))
          (le→not-ltb a.capacity size (omega arith)) (lt→ltb size a.capacity h)

    resize-keeps : size ≡ a.capacity → resize realloc a size ≡ (ok, a)
    unfolding resize
    resize-keeps e =
        ap₂
          (λ b c. if b then extend realloc a size else if c then shrink realloc a size else (ok, a))
          (le→not-ltb a.capacity size (omega arith)) (le→not-ltb size a.capacity (omega arith))

  -- `darray_resize` of a valid array that owns its block, to at least one slot, when `realloc`
  -- succeeds: the array is valid and has that capacity. A size from the capacity on keeps every
  -- element, and a smaller one keeps the first elements, at most one less than there are slots.
  pub resize-Resized :
      (realloc : Realloc A)
      → IsRealloc realloc
      → (a : Darray A) (size : ℕ) (ys : List A) (d : A) → IsValid a
      → a.noalloc_data ≡ false
      → 0 < size
      → realloc a.elements size ≡ some ys
      → Resized a size (resize realloc a size)
  resize-Resized realloc law a size ys d v own pos r =
      let long = law.size a.elements ys size r in
      elim (lt-or-le a.capacity size) [
        | inl h ↦
            subst goal (sym (resize-grows realloc a size h ∙ extend-grown realloc a size own ys r))
              (record {
                fine = refl;
                valid = record {
                  slots = omega (arith, long);
                  bound = omega (arith, v.bound);
                  capped = v.capped;
                };
                slots = refl;
                kept = rw (le→not-ltb size a.capacity (omega arith)) (
                    contents-realloc realloc law a.elements ys size a.current d r
                      (omega (arith, v.bound)) (omega (arith, v.bound, v.slots)));
              })
        | inr h ↦ elim (lt-or-le size a.capacity) [
          | inl k ↦
              subst goal
                (sym (resize-shrinks realloc a size k ∙ shrink-done realloc a size pos own ys r))
                (record {
                  fine = refl;
                  valid = record {
                    slots = omega (arith, long);
                    bound = omega arith;
                    capped = λ m e. omega (arith, v.capped m e);
                  };
                  slots = refl;
                  kept = rw (lt→ltb size a.capacity k) (
                      contents-realloc realloc law a.elements ys size (min (size - 1) a.current) d r
                        (omega arith) (omega (arith, v.bound, v.slots)));
                })
          | inr k ↦
              let same : size ≡ a.capacity = omega arith in
              subst goal (sym (resize-keeps realloc a size same)) (record {
                fine = refl;
                valid = v;
                slots = sym same;
                kept = rw (le→not-ltb size a.capacity (omega arith)) refl;
              })
        ]
      ]
    where
      goal : Status × Darray A → Type ℓ
      goal = Resized a size

  module _ ⦃el : Element A⦄ where
    shift_up-fault :
        (es : List A) (index n : ℕ) (d : A)
        → length es ≡ n
        → index < n
        → shift_up es index n ≡ fault
    unfolding shift_up
    shift_up-fault es index zero d h k = absurd (omega arith)
    shift_up-fault es index (suc n) d h k =
        rw
          (
            lt→ltb index (suc n) k,
            load-done es n d (omega arith),
            store-fault es (suc n) (get_or es n d) (omega arith),
          )
          refl

    shift_up-none : (es : List A) (i : ℕ) → shift_up es i i ≡ done es
    unfolding shift_up
    shift_up-none es zero = refl
    shift_up-none es (suc i) = rw (le→not-ltb (suc i) (suc i) (omega arith)) refl

    -- Without a free slot, opening the gap or writing into it is outside the block.
    place-fault :
        (a : Darray A) (e : A) (index : ℕ)
        → length a.elements ≡ a.current
        → index ≤ a.current
        → place a e index ≡ fault
    unfolding place
    place-fault a e index full h = elim (Bool-cases a.ordered) [
      | inl q ↦ elim (lt-or-le index a.current) [
        | inl k ↦ rw (q, shift_up-fault a.elements index a.current e full k) refl
        | inr k ↦
            let same : a.current ≡ index = omega arith in
            rw
              (
                q,
                same,
                shift_up-none a.elements index,
                store-fault a.elements index e (omega arith),
              )
              refl
      ]
      | inr q ↦ elim (lt-or-le index a.current) [
        | inl k ↦
            rw
              (
                q,
                load-done a.elements index e (omega arith),
                store-fault a.elements a.current (get_or a.elements index e) (omega arith),
              )
              refl
        | inr k ↦ rw (q, load-fault a.elements index (omega arith)) refl
      ]
    ]

    -- An array without a cap, full to its last slot, in the state that `insert-Inserted` gives for a
    -- failed `realloc`: the next insertion, at any place, writes outside the block.
    pub insert-after_starved :
        (realloc : Realloc A) (a : Darray A) (e : A) (index : ℕ)
        → length a.elements ≡ a.current
        → a.capacity ≡ a.current
        → a.max_elts ≡ none
        → index ≤ a.current
        → insert realloc (record a { capacity = max (a.capacity * 2) 1 }) e index ≡ fault
    unfolding insert is_full
    insert-after_starved realloc a e index full tight free h =
        let uncapped =
          ap (λ o. (a.current == as_size o) && is_capped o) free
          ∙ and_false (a.current == as_size none) in
        let no_growth = lt→not-leb (max (a.capacity * 2) 1) a.current (omega arith) in
        rw (le→leb index a.current h, uncapped, no_growth)
          (place-fault (record a { capacity = max (a.capacity * 2) 1 }) e index full h)
