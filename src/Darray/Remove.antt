-- ===== src/Darray/Remove.antt =====
-- Removal from the dynamic array: `darray_remove`, with the block that it gives back.
use rcsw.Base.{
  ℕ, zero, suc, ◌-◌, ◌*◌, ◌/◌, ◌^◌, ◌≤◌, ◌<◌, min, ◌≡◌, refl, sym, ap, ◌∙◌, ◌≢◌, inl, inr, Bool,
  true, false, not, ◌&&◌, Option, none, some, List, [], ◌∷◌, arith, ◌==◌, if◌then◌else◌, Bool-cases,
  Option-cases, lt→ltb, le→leb, true-ne-false, load-done, store-done, Ends, ends, Ends-bind,
  Ends-if, eagain, Status, ok, error, Element, length, get_or, take, length-set, ==_iff,
}
use mathlib.Core.Path.{subst}
use rcsw.Darray.{Darray, Realloc, IsRealloc, sub_size, shrink, idx_serve}
use rcsw.Darray.Edit.{close_gap, release, take_out, remove, is_sparse}
use rcsw.Darray.Spec.{
  remove_swap-end, take-take_le, length-contents, contents, remove_at, remove_swap,
}
use rcsw.Darray.Grow.{IsValid, contents-realloc}
use rcsw.Darray.Gap.{move_down-removes, swap-removes}

-- A difference that does not wrap.
pub sub_size-exact : (a b : ℕ) → b ≤ a → a < 2 ^ 64 → sub_size a b ≡ a - b
sub_size-exact a b h k = omega arith

sparse-bound : (c k : ℕ) → is_sparse c k ≡ true → 4 * c ≤ k
sparse-bound c k h = ground (arith, h)

sparse-inv :
    (c k : ℕ) (b : Bool) → (is_sparse c k && not b) ≡ true → (is_sparse c k ≡ true) × (b ≡ false)
sparse-inv c k b q = elim (Bool-cases (is_sparse c k)) [
  | inl p ↦ (p, released b (rw p at q))
  | inr p ↦ absurd (true-ne-false (sym q ∙ rw p refl))
]
  where
    released : (b : Bool) → not b ≡ true → b ≡ false
    released true e = sym e
    released false e = refl

module _ {ℓ} {A : Type ℓ} where
  module _ (realloc : Realloc A) (a : Darray A) (n : ℕ) (pos : 0 < n) where
    shrink-refused :
        a.noalloc_data ≡ false
        → realloc a.elements n ≡ none
        → shrink realloc a n ≡ (error eagain, a)
    unfolding shrink
    shrink-refused q r = simp (lt→ltb 0 n pos, q, r) refl

    pub shrink-done :
        a.noalloc_data ≡ false
        → (ys : List A) → realloc a.elements n ≡ some ys
        → shrink realloc a n
          ≡ (ok, record a { elements = ys; capacity = n; current = min (n - 1) a.current })
    unfolding shrink
    shrink-done q ys r = simp (lt→ltb 0 n pos, q, r) refl

  release-sparse :
      (realloc : Realloc A) (a : Darray A)
      → (is_sparse a.current a.capacity && not a.noalloc_data) ≡ true
      → release realloc a ≡ shrink realloc a (a.capacity / 2)
  unfolding release
  release-sparse realloc a q = ap (λ b. if b then shrink realloc a (a.capacity / 2) else (ok, a)) q

  -- The status of a removal that leaves `n` elements in a block of `capacity` slots: an error says
  -- that the block is not the caller's, is sparse, and that `realloc` has refused to halve it.
  abbrev pub Answered :
      Realloc A → (noalloc_data : Bool) → (capacity n : ℕ) → Status × Darray A → Type ℓ
  Answered realloc noalloc_data capacity n (ok, a) = Unit
  Answered realloc noalloc_data capacity n (error e, a) =
      (e ≡ eagain)
      × (noalloc_data ≡ false)
      × (4 * n ≤ capacity)
      × (realloc a.elements (capacity / 2) ≡ none)

  -- A block is given back without losing an element.
  record Released (realloc : Realloc A) (a : Darray A) (out : Status × Darray A) : Type ℓ where
    valid : IsValid out.1
    same : contents out.1 ≡ contents a
    flags : out.1.keep_sorted ≡ a.keep_sorted
    status : Answered realloc a.noalloc_data a.capacity a.current out

  release-Released :
      (realloc : Realloc A)
      → IsRealloc realloc
      → (a : Darray A) (d : A) → IsValid a
      → 0 < a.current
      → Released realloc a (release realloc a)
  unfolding release
  release-Released realloc law a d v pos =
      elim (Bool-cases (is_sparse a.current a.capacity && not a.noalloc_data)) [
        | inl q ↦
            let (p, own) = sparse-inv a.current a.capacity a.noalloc_data q in
            let few = sparse-bound a.current a.capacity p in
            let room : 0 < half = omega arith in
            elim (Option-cases (realloc a.elements half)) [
              | inl r ↦
                  subst goal
                    (sym (release-sparse realloc a q ∙ shrink-refused realloc a half room own r))
                    (record { valid = v; same = refl; flags = refl; status = (refl, own, few, r) })
              | inr (ys, r) ↦
                  let long = law.size a.elements ys half r in
                  let size : min (half - 1) a.current ≡ a.current = omega arith in
                  let kept =
                    contents-realloc realloc law a.elements ys half a.current d r (omega arith)
                      (omega (arith, v.bound, v.slots)) in
                  subst goal
                    (sym (release-sparse realloc a q ∙ shrink-done realloc a half room own ys r))
                    (record {
                      valid = record {
                        slots = omega (arith, long);
                        bound = omega arith;
                        capped = λ m e. omega (arith, v.capped m e);
                      };
                      same = rw size kept;
                      flags = refl;
                      status = tt;
                    })
            ]
        | inr q ↦ rw q (record { valid = v; same = refl; flags = refl; status = tt })
      ]
    where
      half : ℕ
      half = a.capacity / 2

      goal : Status × Darray A → Type ℓ
      goal = Released realloc a

  -- The list after a removal, by the SORTED flag.
  unfoldable pub removed : Darray A → (index : ℕ) → A → List A
  removed a index d =
      if a.keep_sorted then remove_at (contents a) index else remove_swap (contents a) index d

  pub removed-end :
      (a : Darray A) (n : ℕ) (d : A)
      → a.keep_sorted ≡ false
      → a.current ≡ suc n
      → a.current ≤ length a.elements
      → removed a n d ≡ take n a.elements
  unfolding removed
  removed-end a n d plain full h =
      let size = length-contents a.elements a.current h ∙ full in
      rw plain
        (remove_swap-end (contents a) n d size ∙ take-take_le a.elements n a.current (omega arith))

  -- What `darray_remove` leaves, and what it writes for the caller.
  pub record Removed (a : Darray A) (want : Bool) (index : ℕ) (d : A)
      (out : Status × Option A × Darray A) : Type ℓ where
    pub taken : out.1 ≡ (if want then some (get_or a.elements index d) else none)
    pub valid : IsValid out.2
    pub rest : contents out.2 ≡ removed a index d

  close_gap-removed :
      (a : Darray A) (index : ℕ) (d : A)
      → index < a.current
      → a.current ≤ length a.elements
      → a.current < 2 ^ 64
      → Ends
          (λ es. (length es ≡ length a.elements) × (take (a.current - 1) es ≡ removed a index d))
          (close_gap a index)
  unfolding close_gap removed
  close_gap-removed a index d h b word =
      let one = sub_size-exact a.current 1 (omega arith) word in
      let last = a.current - 1 in
      let tail = sub_size-exact last index (omega arith) (omega arith) in
      Ends-if a.keep_sorted
        (λ q. rw (q, one, tail) (move_down-removes a.elements index a.current h b))
        (λ q.
          rw
            (
              q,
              one,
              load-done a.elements last d (omega arith),
              store-done a.elements index (get_or a.elements last d) (omega arith),
            )
            (ends (
              length-set a.elements index (get_or a.elements last d),
              swap-removes d a.elements index a.current h b,
            )))

  removed-last :
      (es : List A) (d : A) (n index : ℕ) (b : Bool)
      → n ≡ 1
      → index < n
      → n ≤ length es
      → (if b then remove_at (take n es) index else remove_swap (take n es) index d) ≡ []
  unfolding remove_at remove_swap
  removed-last (x ∷ es) d (suc zero) zero true e h k = refl
  removed-last (x ∷ es) d (suc zero) zero false e h k = refl
  removed-last es d zero index b e h k = absurd (omega arith)
  removed-last es d (suc (suc n)) index b e h k = absurd (omega arith)
  removed-last es d (suc zero) (suc index) b e h k = absurd (omega arith)
  removed-last [] d (suc zero) zero b e h k = absurd (omega arith)

  module _ ⦃el : Element A⦄ where
    pub take_out-removed :
        (realloc : Realloc A)
        → IsRealloc realloc
        → (a : Darray A) (index : ℕ) (d : A) → IsValid a
        → index < a.current
        → a.current < 2 ^ 64
        → Ends
            (λ out.
              IsValid out.1
              × (contents out.1 ≡ removed a index d)
              × (out.1.keep_sorted ≡ a.keep_sorted)
              × Answered realloc a.noalloc_data a.capacity (a.current - 1) out)
            (take_out realloc a index)
    unfolding take_out removed
    take_out-removed realloc law a index d v h word = elim (Bool-cases (a.current == 1)) [
      | inl q ↦
          let one : a.current ≡ 1 = (==_iff a.current 1).0 q in
          rw (q, store-done a.elements index el.filled (omega (arith, v.slots, v.bound)))
            (ends (
              record {
                slots = omega (arith, v.slots, length-set a.elements index el.filled);
                bound = omega arith;
                capped = λ m e. omega arith;
              },
              sym (
                  removed-last a.elements d a.current index a.keep_sorted one h
                    (omega (arith, v.slots, v.bound))),
              refl,
              tt,
            ))
      | inr q ↦
          let many : a.current ≢ 1 = λ e. true-ne-false (sym ((==_iff a.current 1).1 e) ∙ q) in
          let exact = sub_size-exact a.current 1 (omega arith) word in
          rw (q, exact)
            (Ends-bind (close_gap-removed a index d h (omega (arith, v.slots, v.bound)) word)
              λ es (size, rest).
                let shorter : IsValid (record a { elements = es; current = a.current - 1 }) =
                  record {
                    slots = omega (arith, v.slots, size);
                    bound = omega (arith, v.bound);
                    capped = λ m e. omega (arith, v.capped m e);
                  } in
                let given =
                  release-Released realloc law (record a { elements = es; current = a.current - 1 })
                    d shorter (omega arith) in
                ends (given.valid, given.same ∙ rest, given.flags, given.status))
    ]

    -- `darray_remove` at a place below the size of a valid array, with a `realloc` that keeps the old
    -- entries and a size below 2 ^ 64: it ends; what is written for the caller is
    -- the element at the place; and whatever status the return of memory gives, the array is valid
    -- and holds the other elements, in their order with the SORTED flag, and with the last one in the
    -- place of the removed one without it.
    pub remove-Removed :
        (realloc : Realloc A)
        → IsRealloc realloc
        → (a : Darray A) (want : Bool) (index : ℕ) (d : A) → IsValid a
        → index < a.current
        → a.current < 2 ^ 64
        → Ends (Removed a want index d) (remove realloc a want index)
    unfolding remove idx_serve
    remove-Removed realloc law a true index d v h word =
        let served = load-done a.elements index d (omega (arith, v.slots, v.bound)) in
        rw (le→leb index a.current (omega arith), served)
          (Ends-bind (take_out-removed realloc law a index d v h word)
            λ (st, a') (valid, rest, _, _).
              ends (record { taken = refl; valid = valid; rest = rest }))
    remove-Removed realloc law a false index d v h word =
        rw (le→leb index a.current (omega arith)) (
          Ends-bind (take_out-removed realloc law a index d v h word)
            λ (st, a') (valid, rest, _, _).
              ends (record { taken = refl; valid = valid; rest = rest }))
