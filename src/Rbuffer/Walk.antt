-- ===== src/Rbuffer/Walk.antt =====
-- `rbuffer_map` and `rbuffer_inject`: each visits the elements from the front on, once each.
use native.Mathlib.Nat.{zero-add, add-zero}
use native.Mathlib.Numerals.{add-one}
use mathlib.Core.List.{append-nil, append_assoc}
use rcsw.Base.{
  get_or-set_ne, ℕ, zero, suc, ◌+◌, ◌≤◌, ◌<◌, ◌≡◌, refl, sym, ap, ap₂, ◌∙◌, List, [], ◌∷◌, ◌++◌,
  map, arith, done, load-done, store-done, Ends, ends, Ends-bind, Ends-map, ok, get_or, set,
  length-set,
}
use rcsw.Rbuffer.{Rbuffer, map_loop, map_elts, inject_loop, inject}
use rcsw.Rbuffer.Inv.{IsValid, slot, slot-lt, data_get-slot}
use rcsw.Rbuffer.Refine.{ring_ne, window-push, window, contents}

-- The left fold that `inject` makes.
abbrev pub fold {ℓ κ} : {A : Type ℓ} {R : Type κ} → (A → R → R) → List A → R → R
fold f [] r = r
fold f (x ∷ xs) r = fold f xs (f x r)

fold-append {ℓ κ} :
    {A : Type ℓ} {R : Type κ} (f : A → R → R) (xs ys : List A) (r : R)
    → fold f (xs ++ ys) r ≡ fold f ys (fold f xs r)
fold-append f [] ys r = refl
fold-append f (x ∷ xs) ys r = fold-append f xs ys (f x r)

module _ {ℓ} {A : Type ℓ} (d : A) where
  -- The elements of `rb` from the `k`-th on.
  abbrev pub rest : Rbuffer A → (k left : ℕ) → List A
  rest rb k zero = []
  rest rb k (suc left) = get_or rb.elements (slot rb k) d ∷ rest rb (k + 1) left

  inject_loop-fold {κ} :
      {R : Type κ} (f : A → R → R) (left : ℕ) {rb : Rbuffer A} (k : ℕ) (r : R)
      → IsValid rb
      → k + left ≤ rb.max_elts
      → inject_loop f left rb k r ≡ done (fold f (rest rb k left) r)
  unfolding inject_loop
  inject_loop-fold f zero k r v h = refl
  inject_loop-fold f (suc left) {rb} k r v h =
      rw (data_get-slot k v (omega arith), load-done rb.elements (slot rb k) d (slot-lt k v))
        (inject_loop-fold f left (k + 1) (f (get_or rb.elements (slot rb k) d) r) v (omega arith))

  window-rest :
      (rb : Rbuffer A) (k left : ℕ)
      → window d rb.elements rb.max_elts rb.start k ++ rest rb k left
        ≡ window d rb.elements rb.max_elts rb.start (k + left)
  window-rest rb k zero = rw (append-nil, add-zero)
  window-rest rb k (suc left) =
      let w = window d rb.elements rb.max_elts rb.start in
      sym (append_assoc (w k) (get_or rb.elements (slot rb k) d ∷ []) (rest rb (k + 1) left))
      ∙ sym (ap (λ m. w m ++ rest rb (k + 1) left) (add-one k))
      ∙ window-rest rb (k + 1) left
      ∙ ap w {x = k + 1 + left} {y = k + suc left} (omega arith)

  rest-contents : (rb : Rbuffer A) → rest rb 0 rb.current ≡ contents d rb
  rest-contents rb =
      window-rest rb 0 rb.current
      ∙ ap (window d rb.elements rb.max_elts rb.start) (zero-add rb.current)

  -- `rbuffer_inject` folds the callback over the elements from the oldest to the newest.
  pub inject-fold {κ} :
      {R : Type κ} {rb : Rbuffer A} (f : A → R → R) (r : R)
      → IsValid rb
      → inject rb f r ≡ done (ok, fold f (contents d rb) r)
  unfolding inject
  inject-fold {rb = rb} f r v =
      rw (inject_loop-fold f rb.current 0 r v (omega arith), rest-contents rb)

  -- Writing one slot leaves the later ones alone.
  rest-set :
      (rb : Rbuffer A) (k j left : ℕ) (x : A)
      → IsValid rb
      → k < j
      → j + left ≤ rb.max_elts
      → rest (record rb { elements = set rb.elements (slot rb k) x }) j left ≡ rest rb j left
  rest-set rb k j zero x v h b = refl
  rest-set rb k j (suc left) x v h b =
      ap₂ ◌∷◌
        (get_or-set_ne rb.elements (slot rb k) (slot rb j) x d
          (λ e. ring_ne rb.max_elts rb.start k j v.start_in h (omega arith) (sym e)))
        (rest-set rb k (j + 1) left x v (omega arith) (omega arith))

  -- What the loop of `rbuffer_map` leaves when it has `left` elements to go at the `k`-th.
  record Mapped (f : A → A) (rb : Rbuffer A) (k left : ℕ) (out : Rbuffer A) : Type ℓ where
    valid : IsValid out
    same : out ≡ record rb { elements = out.elements }
    elts :
        window d out.elements rb.max_elts rb.start (k + left)
        ≡ window d rb.elements rb.max_elts rb.start k ++ map f (rest rb k left)

  map_loop-Mapped :
      (f : A → A) (left : ℕ) (rb : Rbuffer A) (k : ℕ)
      → IsValid rb
      → k + left ≤ rb.max_elts
      → Ends (Mapped f rb k left) (map_loop f left rb k)
  unfolding map_loop
  map_loop-Mapped f zero rb k v h = ends (record {
    valid = v;
    same = refl;
    elts = ap (window d rb.elements rb.max_elts rb.start) (add-zero k) ∙ sym (append-nil _);
  })
  map_loop-Mapped f (suc left) rb k v h =
      let x = get_or rb.elements (slot rb k) d in
      let rb1 : Rbuffer A = record rb { elements = set rb.elements (slot rb k) (f x) } in
      let v1 : IsValid rb1 = omega (arith, length-set rb.elements (slot rb k) (f x)) in
      let w = window d rb.elements rb.max_elts rb.start in
      let w1 = window d rb1.elements rb.max_elts rb.start in
      rw
        (
          data_get-slot k v (omega arith),
          load-done rb.elements (slot rb k) d (slot-lt k v),
          store-done rb.elements (slot rb k) (f x) (slot-lt k v),
        )
        (Ends-map (map_loop-Mapped f left rb1 (k + 1) v1 (omega arith)) λ out m. record {
          valid = m.valid;
          same = m.same;
          elts =
              ap (window d out.elements rb.max_elts rb.start) {x = k + suc left} {y = k + 1 + left}
                (omega arith)
              ∙ m.elts
              ∙ ap₂ (λ a b. a ++ map f b)
                  (ap w1 (add-one k)
                    ∙ window-push d rb.elements rb.max_elts rb.start k (f x) (sym v.whole)
                        v.start_in (omega arith))
                  (rest-set rb k (k + 1) left (f x) v (omega arith) (omega arith))
              ∙ append_assoc (w k) (f x ∷ []) (map f (rest rb (k + 1) left));
        })

  -- `rbuffer_map` replaces each element of a valid buffer by the callback's result, in place and in
  -- order; the capacity, the indices and the invariant stay.
  pub map_elts-map :
      {rb : Rbuffer A} (f : A → A)
      → IsValid rb
      → Ends
          (λ r.
            (r.0 ≡ ok)
            × (contents d r.1 ≡ map f (contents d rb))
            × IsValid r.1
            × (r.1 ≡ record rb { elements = r.1.elements }))
          (map_elts rb f)
  unfolding map_elts
  map_elts-map {rb} f v = Ends-bind (map_loop-Mapped f rb.current rb 0 v (omega arith)) λ out m.
      ends (
        refl,
        ap (contents d) m.same
            ∙ ap (window d out.elements rb.max_elts rb.start) (sym (zero-add rb.current))
            ∙ m.elts
            ∙ ap (map f) (rest-contents rb),
        m.valid,
        m.same,
      )
