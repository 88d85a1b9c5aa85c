-- ===== src/Llist/Pool.antt =====
-- The maps of the application's memory: which entries are in use, and that a free one is found.
use rcsw.Base.{
  ℕ, zero, suc, ◌+◌, ◌-◌, ◌%◌, ◌≤◌, ◌<◌, ◌≡◌, refl, sym, ap, ◌∙◌, ◌≢◌, inl, inr, Bool, true, false,
  not, ◌||◌, Option, none, some, List, [], ◌∷◌, arith, ◌==◌, if◌then◌else◌, lt-or-le, test_true,
  Nat-cases, test_false, done, ◌>>=◌, store, store-done, Ends, ends, Ends-bind, length, get_or, set,
  length-set, get_or-set_ne, get_or-set_self,
}
use mathlib.Core.Path.{subst}
use rcsw.Llist.{acquire, mark_inuse}
use rcsw.Allocm.{is_free, mark_free}
use native.Mathlib.Nat.{mod-lt, mod-eq_of_lt, mod-eq-sub-mod}
use rcsw.Allocm.Probe.{Probed, allocm_probe-Probed}

abbrev pub mem : ℕ → List ℕ → Bool
mem a [] = false
mem a (b ∷ bs) = (a == b) || mem a bs

-- The entries in use of a map of `m` entries are those of `used`.
pub record Marks (entries : List (Option ℕ)) (m : ℕ) (used : ℕ → Bool) : Type 0 where
  pub room : m ≤ length entries
  pub marked : (i : ℕ) → i < m → is_free (get_or entries i none) ≡ not (used i)
  pub inside : (i : ℕ) → used i ≡ true → i < m

-- The entries of a list without `a`.
without : ℕ → List ℕ → List ℕ
without a [] = []
without a (b ∷ bs) = if a == b then without a bs else b ∷ without a bs

mem-without : (a c : ℕ) (bs : List ℕ) → a ≢ c → mem a bs ≡ true → mem a (without c bs) ≡ true
unfolding without
mem-without a c [] n h = h
mem-without a c (b ∷ bs) n h = ground (arith, mem-without a c bs n)

length-without-le : (c : ℕ) (bs : List ℕ) → length (without c bs) ≤ length bs
unfolding without
length-without-le c [] = omega arith
length-without-le c (b ∷ bs) = ground (arith, length-without-le c bs)

length-without : (c : ℕ) (bs : List ℕ) → mem c bs ≡ true → length (without c bs) < length bs
unfolding without
length-without c [] h = cc
length-without c (b ∷ bs) h = ground (arith, length-without c bs, length-without-le c bs)

-- A list with all the numbers below `m` has `m` entries at least.
pigeonhole : (m : ℕ) (bs : List ℕ) → ((i : ℕ) → i < m → mem i bs ≡ true) → m ≤ length bs
pigeonhole zero bs all = omega arith
pigeonhole (suc m) bs all =
    let rest : m ≤ length (without m bs) =
      pigeonhole m (without m bs)
        (λ i p. mem-without i m bs (λ e. omega (arith, e, p)) (all i (omega (arith, p)))) in
    omega (arith, rest, length-without m bs (all m (omega arith)))

pub Marks-ext :
    {entries : List (Option ℕ)} {m : ℕ} {used used' : ℕ → Bool}
    → ((i : ℕ) → used' i ≡ used i)
    → Marks entries m used
    → Marks entries m used'
Marks-ext same v = record {
  room = v.room;
  marked = λ i p. v.marked i p ∙ ap not (sym (same i));
  inside = λ i e. v.inside i (sym (same i) ∙ e);
}

-- A mark put on one entry.
Marks-set :
    {entries : List (Option ℕ)} {m : ℕ} {used : ℕ → Bool} (i : ℕ) (b : Bool) (v : Option ℕ)
    → Marks entries m used
    → i < m
    → is_free v ≡ not b
    → Marks (set entries i v) m (λ j. if j == i then b else used j)
Marks-set {entries} {m} {used} i b v k h e = record {
  room = omega (arith, length-set entries i v, k.room);
  marked = λ j p. at_entry j p;
  inside = λ j q. elim (Nat-cases j i) [
    | inl s ↦ omega (arith, s)
    | inr s ↦ k.inside j (ground (arith, q, s))
  ];
}
  where
    at_entry :
        (j : ℕ)
        → j < m
        → is_free (get_or (set entries i v) j none) ≡ not (if j == i then b else used j)
    at_entry j p = elim (Nat-cases j i) [
      | inl s ↦
          rw (s, get_or-set_self entries i v none (omega (arith, k.room)), test_true i i refl) e
      | inr s ↦
          rw (get_or-set_ne entries i j v none (λ t. s (sym t)), test_false j i s) (k.marked j p)
    ]

pub release-Marks :
    {entries : List (Option ℕ)} {m : ℕ} {used : ℕ → Bool} (i : ℕ)
    → Marks entries m used
    → used i ≡ true
    → Ends
        (λ entries'. Marks entries' m (λ j. if j == i then false else used j))
        (store entries i mark_free)
release-Marks {entries} i k u =
    rw (store-done entries i mark_free (omega (arith, k.inside i u, k.room)))
      (ends (Marks-set i false mark_free k (k.inside i u) refl))

-- A map with fewer entries in use than it has gives one that is not in use.
pub data Acquired (m : ℕ) (used : ℕ → Bool) : Option ℕ × List (Option ℕ) → Type 0 where
  acquired :
      {i : ℕ} {entries : List (Option ℕ)}
      → used i ≡ false
      → i < m
      → Marks entries m (λ j. if j == i then true else used j)
      → Acquired m used (some i, entries)

module _ {entries : List (Option ℕ)} (m : ℕ) (used : ℕ → Bool) (us : List ℕ)
    (k : Marks entries m used) (listed : (i : ℕ) → used i ≡ true → mem i us ≡ true)
    (few : length us < m) where
  -- Every entry is reached from the one that the search starts at.
  not_full : ((j : ℕ) → j < m → is_free (get_or entries ((length us + j) % m) none) ≡ false) → ⊥
  not_full all = omega (arith, few, pigeonhole m us at_entry)
    where
      taken : (i : ℕ) → i < m → is_free (get_or entries i none) ≡ false → mem i us ≡ true
      taken i p e = listed i (ground (arith, k.marked i p, e))

      at_entry : (i : ℕ) → i < m → mem i us ≡ true
      at_entry i p = elim (lt-or-le i (length us)) [
        | inl q ↦
            let j : ℕ = i + m - length us in
            let over : m ≤ length us + j = omega (arith, q, few) in
            let e : (length us + j) % m ≡ i =
              mod-eq-sub-mod over
              ∙ ap (λ t. t % m) {x = length us + j - m} {y = i} (omega (arith, few))
              ∙ mod-eq_of_lt p in
            taken i p (
              subst (λ t. is_free (get_or entries t none) ≡ false) e
                (all j (omega (arith, q, few))))
        | inr q ↦
            let j : ℕ = i - length us in
            let e : (length us + j) % m ≡ i =
              ap (λ t. t % m) {x = length us + j} {y = i} (omega arith) ∙ mod-eq_of_lt p in
            taken i p (subst (λ t. is_free (get_or entries t none) ≡ false) e (all j (omega arith)))
      ]

  pub acquire-Acquired : Ends (Acquired m used) (acquire entries m (length us))
  unfolding acquire
  acquire-Acquired = Ends-bind (allocm_probe-Probed entries m (length us) few k.room) answer
    where
      answer :
          (r : Option ℕ)
          → Probed entries m (length us) r
          → Ends (Acquired m used) (elim r [
            | none ↦ done (none, entries)
            | some i ↦ store entries i mark_inuse >>= (λ entries'. done (some i, entries'))
          ])
      answer r (Probed.full all) = absurd (not_full all)
      answer r (Probed.found j p free before) =
          let i : ℕ = (length us + j) % m in
          let low : i < m = mod-lt (length us + j) {m = m} (omega arith) in
          rw (store-done entries i mark_inuse (omega (arith, low, k.room))) (
            ends (
              acquired (ground (arith, k.marked i low, free)) low
                (Marks-set i true mark_inuse k low refl)))
