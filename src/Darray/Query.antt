-- ===== src/Darray/Query.antt =====
-- The search of an array that is not sorted: `darray_idx_query` and its scan.
use rcsw.Base.{
  ℕ, zero, suc, ◌+◌, ◌≤◌, ◌<◌, ◌≡◌, ap, ◌∙◌, inl, inr, Bool, true, false, ◌&&◌, Option, none, some,
  List, arith, ◌==◌, if◌then◌else◌, Bool-cases, lt-or-le, le→leb, lt→not-leb, and_false, load-done,
  Ends, ends, Ends-map, ok, Element, cmp_eq, length, get_or, take,
}
use mathlib.Core.Path.{subst}
use rcsw.Darray.{Darray, Realloc, scan_loop, idx_query, is_full, as_size, is_capped}
use rcsw.Darray.Edit.{insert}
use rcsw.Darray.Insert.{inserted, place-Placed}
use rcsw.Darray.Grow.{IsValid}

module _ {ℓ} {A : Type ℓ} ⦃el : Element A⦄ where
  abbrev matches : List A → A → ℕ → Bool
  matches es e k = cmp_eq e (get_or es k el.zeroed)

  -- The last entry below `n` that compares equal, if there is one.
  pub data LastMatch (es : List A) (e : A) (n : ℕ) : Option ℕ → Type 0 where
    absent : ((k : ℕ) → k < n → matches es e k ≡ false) → LastMatch es e n none
    last :
        {i : ℕ}
        → i < n
        → matches es e i ≡ true
        → ((k : ℕ) → i < k → k < n → matches es e k ≡ false)
        → LastMatch es e n (some i)

  LastMatch-next :
      (es : List A) (e : A) (n : ℕ) (r : Option ℕ)
      → LastMatch es e n r
      → LastMatch es e (n + 1) (if matches es e n then some n else r)
  LastMatch-next es e n r h = elim (Bool-cases (matches es e n)) [
    | inl q ↦ rw q (last (omega arith) q (λ k a b. absurd (omega arith)))
    | inr q ↦ rw q (keep r h q)
  ]
    where
      at : (k : ℕ) → matches es e n ≡ false → n ≤ k → k < n + 1 → matches es e k ≡ false
      at k q a b = let same : n ≡ k = omega arith in subst (λ m. matches es e m ≡ false) same q

      keep : (r : Option ℕ) → LastMatch es e n r → matches es e n ≡ false → LastMatch es e (n + 1) r
      keep none (absent f) q =
          absent (λ k b. elim (lt-or-le k n) [ inl c ↦ f k c | inr c ↦ at k q c b ])
      keep (some i) (last b m f) q =
          last (omega arith) m
            (λ k a b'. elim (lt-or-le k n) [ inl c ↦ f k a c | inr c ↦ at k q c b' ])

  scan_loop-LastMatch :
      (left : ℕ) (es : List A) (e : A) (i : ℕ) (r : Option ℕ)
      → i + left ≤ length es
      → LastMatch es e i r
      → Ends (LastMatch es e (i + left)) (scan_loop left es e i r)
  unfolding scan_loop
  scan_loop-LastMatch zero es e i r b h =
      let same : i ≡ i + 0 = omega arith in ends (subst (λ n. LastMatch es e n r) same h)
  scan_loop-LastMatch (suc left) es e i r b h =
      let same : i + 1 + left ≡ i + suc left = omega arith in
      rw (load-done es i el.zeroed (omega arith)) (
        subst
          (λ n.
            Ends (LastMatch es e n)
              (scan_loop left es e (i + 1) (if matches es e i then some i else r)))
          same
          (scan_loop-LastMatch left es e (i + 1) (if matches es e i then some i else r)
            (omega arith) (LastMatch-next es e i r h)))

  -- `darray_idx_query` of a valid array that is not marked as sorted ends, and gives the index of the
  -- last element that compares equal to the one asked for, or none if there is no such element.
  pub idx_query-LastMatch :
      (elt_size : ℕ) (a : Darray A) (e : A)
      → IsValid a
      → a.has_cmpe ≡ true
      → a.sorted ≡ false
      → Ends (LastMatch a.elements e a.current) (idx_query elt_size a e)
  unfolding idx_query
  idx_query-LastMatch elt_size a e v callback unsorted =
      let all : 0 + a.current ≡ a.current = omega arith in
      rw (callback, unsorted)
        (subst (λ n. Ends (LastMatch a.elements e n) (scan_loop a.current a.elements e 0 none)) all
          (scan_loop-LastMatch a.current a.elements e 0 none (omega (arith, v.bound, v.slots))
            (absent (λ k b. absurd (omega arith)))))

  -- An insertion, at any place and of any element, into an array that is marked as sorted and does
  -- not have the SORTED flag: with a free slot and no cap it succeeds, and the array is still marked,
  -- whatever the order of the elements is then.
  pub insert-stays_marked :
      (realloc : Realloc A) (a : Darray A) (e : A) (index : ℕ)
      → IsValid a
      → index ≤ a.current
      → a.current < a.capacity
      → a.max_elts ≡ none
      → a.keep_sorted ≡ false
      → a.sorted ≡ true
      → Ends
          (λ out.
            (out.0 ≡ ok)
            × (out.1.sorted ≡ true)
            × (take (a.current + 1) out.1.elements ≡ inserted a index e))
          (insert realloc a e index)
  unfolding insert is_full
  insert-stays_marked realloc a e index v h room free plain marked =
      let uncapped =
        ap (λ o. (a.current == as_size o) && is_capped o) free
        ∙ and_false (a.current == as_size none) in
      rw (le→leb index a.current h, uncapped, lt→not-leb a.capacity a.current room)
        (Ends-map (place-Placed a e index h (omega (arith, v.slots)) plain)
          λ out p. (ap (λ o. o.0) p.fine, ap (λ o. o.1.sorted) p.fine ∙ marked, p.edit))
