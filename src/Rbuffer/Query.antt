-- ===== src/Rbuffer/Query.antt =====
-- `rbuffer_index_query`: what the search round the ring returns, and that it stops.
use native.Mathlib.Nat.{mod-eq_of_lt}
use rcsw.Base.{
  sym, ap, ap₂, ◌∙◌, ℕ, zero, suc, ◌+◌, ◌≤◌, ◌<◌, ◌≡◌, Bool, true, false, Option, none, some, arith,
  leb, if◌then◌else◌, done, load-done, Ends, ends, Ends-if, Element, cmp_eq, get_or, lt-or-le, inl,
  inr,
}
use rcsw.Rbuffer.{Rbuffer, data_get, query_loop, index_query}
use rcsw.Rbuffer.Inv.{IsValid, slot, slot-lt, slot-zero}
use rcsw.Rbuffer.Refine.{wrap_once}

module _ {ℓ} {A : Type ℓ} ⦃el : Element A⦄ (rb : Rbuffer A) (e : A) where
  -- Does the `k`-th slot from the front hold a match?
  abbrev pub match_at : ℕ → Bool
  match_at k = cmp_eq e (get_or rb.elements (slot rb k) el.zeroed)

  abbrev NoMatchBelow : ℕ → Type 0
  NoMatchBelow k = (j : ℕ) → j < k → match_at j ≡ false

  -- The first match among all the slots, in ring order from the front; or none of them matches.
  pub data Found : Option ℕ → Type 0 where
    first :
        (k : ℕ) → k < rb.max_elts → match_at k ≡ true → NoMatchBelow k → Found (some (slot rb k))
    nowhere : NoMatchBelow rb.max_elts → Found none

  -- The flag `wrap` after `k` rounds.
  abbrev wrapped : ℕ → Bool
  wrapped k = leb rb.max_elts (rb.start + k)

  module _ (v : IsValid rb) where
    query_loop-step :
        (fuel k : ℕ)
        → k < rb.max_elts
        → query_loop (suc fuel) rb e (wrapped k) (slot rb k) ≡ (
            if match_at k
            then done (some (slot rb k))
            else query_loop fuel rb e (wrapped (k + 1)) (slot rb (k + 1)))
    unfolding query_loop data_get
    query_loop-step fuel k h = ground (
      arith,
      wrap_once rb.max_elts rb.start k v.start_in (omega arith),
      wrap_once rb.max_elts rb.start (k + 1) v.start_in (omega arith),
      load-done rb.elements (slot rb k) el.zeroed (slot-lt k v),
      mod-eq_of_lt {n = slot rb k} {m = rb.max_elts} (omega arith),
    )

    query_loop-end :
        (fuel : ℕ)
        → query_loop (suc fuel) rb e (wrapped rb.max_elts) (slot rb rb.max_elts) ≡ done none
    unfolding query_loop
    query_loop-end fuel =
        ground (arith, wrap_once rb.max_elts rb.start rb.max_elts v.start_in (omega arith))

    query_loop-Found :
        (fuel k : ℕ)
        → k ≤ rb.max_elts
        → k + fuel ≡ rb.max_elts + 1
        → NoMatchBelow k
        → Ends Found (query_loop fuel rb e (wrapped k) (slot rb k))
    query_loop-Found zero k h f n = absurd (omega arith)
    query_loop-Found (suc fuel) k h f n = elim (lt-or-le k rb.max_elts) [
      | inl p ↦ rw (query_loop-step fuel k p) (
          Ends-if (match_at k) (λ q. ends (first k p q n))
            (λ q. query_loop-Found fuel (k + 1) (omega arith) (omega arith) (λ j r. grind arith)))
      | inr p ↦
          let all : k ≡ rb.max_elts = omega arith in
          rw (all, query_loop-end fuel) (ends (nowhere (λ j r. n j (omega arith))))
    ]

    index_query-start :
        rb.has_cmpe ≡ true
        → index_query rb e ≡ query_loop (suc rb.max_elts) rb e (wrapped 0) (slot rb 0)
    unfolding index_query
    index_query-start c =
        let w : false ≡ wrapped 0 = ground arith in
        ap (λ b. if b then query_loop (suc rb.max_elts) rb e false rb.start else done none) c
        ∙ ap₂ (query_loop (suc rb.max_elts) rb e) w (sym (slot-zero v))

    -- The query ends within its `max_elts + 1` rounds, with the first match in ring order from the
    -- front among all the slots, those behind the last element included, or with ERROR if no slot
    -- holds a match.
    pub index_query-Found : rb.has_cmpe ≡ true → Ends Found (index_query rb e)
    index_query-Found c = rw (index_query-start c) (
        query_loop-Found (suc rb.max_elts) 0 (omega arith) (omega arith)
          (λ j r. absurd (omega arith)))
