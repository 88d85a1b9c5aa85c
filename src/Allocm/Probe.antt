-- ===== src/Allocm/Probe.antt =====
-- `allocm_probe` looks at every entry once, from the index on and round to it.
use rcsw.Base.{
  ℕ, zero, suc, ◌+◌, ◌-◌, ◌%◌, ◌≤◌, ◌<◌, ◌≡◌, sym, ap, ◌∙◌, ◌≢◌, inl, inr, Bool, true, false, not,
  ◌||◌, Option, none, some, List, arith, leb, ◌==◌, lt-or-le, Nat-cases, ==_iff, load-done, Ends,
  ends, Ends-if, length, get_or,
}
use mathlib.Core.Path.{subst}
use native.Mathlib.Nat.{mod-lt, mod-eq_of_lt, mod-eq-sub-mod}
use rcsw.Allocm.{is_free, probe_loop, allocm_probe}

module _ (entries : List (Option ℕ)) (max_elts index : ℕ) where
  -- The entry `k` steps behind the index, round the end.
  abbrev pub behind : ℕ → ℕ
  behind k = (index + k) % max_elts

  abbrev InUse : ℕ → Type 0
  InUse k = is_free (get_or entries (behind k) none) ≡ false

  -- The first free entry behind the index, or none where every entry is in use.
  pub data Probed : Option ℕ → Type 0 where
    found :
        (k : ℕ)
        → k < max_elts
        → is_free (get_or entries (behind k) none) ≡ true
        → ((j : ℕ) → j < k → is_free (get_or entries (behind j) none) ≡ false)
        → Probed (some (behind k))
    full : ((j : ℕ) → j < max_elts → is_free (get_or entries (behind j) none) ≡ false) → Probed none

  module _ (inside : index < max_elts) (long : max_elts ≤ length entries) where
    -- Before the end and past it.
    data Where (k : ℕ) : Type 0 where
      ahead : index + k < max_elts → behind k ≡ index + k → Where k
      round : max_elts ≤ index + k → behind k ≡ index + k - max_elts → Where k

    stands : (k : ℕ) → k ≤ max_elts → Where k
    stands k h = elim (lt-or-le (index + k) max_elts) [
      | inl p ↦ ahead p (mod-eq_of_lt p)
      | inr p ↦ round p (mod-eq-sub-mod p ∙ mod-eq_of_lt (omega (arith, inside, h)))
    ]

    goes_on :
        (k i : ℕ) (wrap : Bool)
        → k < max_elts
        → i ≡ behind k
        → wrap ≡ leb max_elts (index + k)
        → (not wrap || not (i == index)) ≡ true
    goes_on k i wrap h e w = elim (stands k (omega arith)) [
      | ahead p q ↦ ground (arith, w, p)
      | round p q ↦ ground (arith, w, p, q, e, h)
    ]

    ends_here :
        (k i : ℕ) (wrap : Bool)
        → k ≡ max_elts
        → i ≡ behind k
        → wrap ≡ leb max_elts (index + k)
        → (not wrap || not (i == index)) ≡ false
    ends_here k i wrap h e w = elim (stands k (omega arith)) [
      | ahead p q ↦ absurd (omega (arith, p, h))
      | round p q ↦ ground (arith, w, p, q, e, h)
    ]

    -- The step at the end of the map, and before it.
    wraps :
        (k i : ℕ)
        → k < max_elts
        → i ≡ behind k
        → i + 1 ≡ max_elts
        → (0 ≡ behind (k + 1)) × (true ≡ leb max_elts (index + (k + 1)))
    wraps k i h e l = elim (stands k (omega arith)) [
      | ahead p q ↦ elim (stands (k + 1) (omega arith)) [
        | ahead p' q' ↦ absurd (omega (arith, p', q, e, l))
        | round p' q' ↦ (omega (arith, q', q, e, l), ground (arith, p'))
      ]
      | round p q ↦ absurd (omega (arith, q, e, l, h, inside))
    ]

    steps :
        (k i : ℕ) (wrap : Bool)
        → k < max_elts
        → i ≡ behind k
        → wrap ≡ leb max_elts (index + k)
        → i + 1 ≢ max_elts
        → (i + 1 ≡ behind (k + 1)) × (wrap ≡ leb max_elts (index + (k + 1)))
    steps k i wrap h e w l = elim (stands k (omega arith)) [
      | ahead p q ↦ elim (stands (k + 1) (omega arith)) [
        | ahead p' q' ↦ (omega (arith, q', q, e), ground (arith, w, p, p'))
        | round p' q' ↦ absurd (l (omega (arith, p, p', q, e)))
      ]
      | round p q ↦ elim (stands (k + 1) (omega arith)) [
        | ahead p' q' ↦ absurd (omega (arith, p, p'))
        | round p' q' ↦ (omega (arith, q', q, e, p), ground (arith, w, p, p'))
      ]
    ]

    -- After `k` steps, `wrap` says whether the end has been passed.
    probe_loop-Probed :
        (fuel k i : ℕ) (wrap : Bool)
        → max_elts < k + fuel
        → k ≤ max_elts
        → i ≡ behind k
        → wrap ≡ leb max_elts (index + k)
        → ((j : ℕ) → j < k → InUse j)
        → Ends Probed (probe_loop fuel entries max_elts index i wrap)
    unfolding probe_loop
    probe_loop-Probed zero k i wrap f h e w used = absurd (omega arith)
    probe_loop-Probed (suc fuel) k i wrap f h e w used = elim (lt-or-le k max_elts) [
      | inl p ↦
          let low : i < length entries =
            omega (arith, e, mod-lt (index + k) {m = max_elts} (omega (arith, inside)), long) in
          rw (goes_on k i wrap p e w, load-done entries i none low)
            (Ends-if (is_free (get_or entries i none))
              (λ q. ends (
                subst (λ m. Probed (some m)) (sym e)
                  (found k p (subst (λ m. is_free (get_or entries m none) ≡ true) e q) used)))
              (λ q.
                let more : (j : ℕ) → j < k + 1 → InUse j = λ j r. elim (Nat-cases j k) [
                  | inl c ↦
                      subst InUse (sym c) (subst (λ m. is_free (get_or entries m none) ≡ false) e q)
                  | inr c ↦ used j (omega arith)
                ] in
                Ends-if (i + 1 == max_elts)
                  (λ c.
                    let (e', w') = wraps k i p e ((==_iff (i + 1) max_elts).0 c) in
                    probe_loop-Probed fuel (k + 1) 0 true (omega arith) (omega arith) e' w' more)
                  (λ c.
                    let (e', w') = steps k i wrap p e w (λ r. ground (arith, c, r)) in
                    probe_loop-Probed fuel (k + 1) (i + 1) wrap (omega arith) (omega arith) e' w'
                      more)))
      | inr p ↦
          rw (ends_here k i wrap (omega arith) e w) (ends (full (λ j r. used j (omega arith))))
    ]

  -- `allocm_probe` of a map of at least `max_elts` entries from an index below `max_elts` ends
  -- inside the map. It gives the first free entry behind the index, round the end, and -1 only
  -- if every entry is in use.
  pub allocm_probe-Probed :
      index < max_elts
      → max_elts ≤ length entries
      → Ends Probed (allocm_probe entries max_elts index)
  unfolding allocm_probe
  allocm_probe-Probed p q =
      probe_loop-Probed p q (max_elts + 1) 0 index false (omega arith) (omega arith)
        (sym (ap (λ k. k % max_elts) {x = index + 0} {y = index} (omega arith) ∙ mod-eq_of_lt p))
        (ground (arith, p)) (λ j h. absurd (omega arith))
