-- ===== src/Base/Arrays.antt =====
-- Exchanging two entries of an array, and arrays that differ by moves inside one stretch.
use Prim.Native.Nat.{ℕ, zero, suc, ◌≤◌, ◌<◌}
use mathlib.Core.Path.{◌≡◌, refl, sym, ◌∙◌}
use mathlib.Core.Logic.{inl, inr, ◌≢◌}
use mathlib.Core.List.{List, [], ◌∷◌, Perm}
use mathlib.Core.List.Perm
use native.Mathlib.Omega.{arith}
use rcsw.Base.Tests.{test_true, Bool-cases, test_false, ◌==◌, if◌then◌else◌, lt-or-le}
use rcsw.Base.Lists.{length, get_or, set, length-set, get_or-set}

module _ {ℓ} {A : Type ℓ} (d : A) where
  -- A write trades the old entry for the new one.
  pub perm-set :
      (xs : List A) (i : ℕ) (v : A) → i < length xs → Perm (get_or xs i d ∷ set xs i v) (v ∷ xs)
  perm-set [] i v h = absurd (omega arith)
  perm-set (x ∷ xs) zero v h = Perm.swap v x xs
  perm-set (x ∷ xs) (suc i) v h =
      let moved = Perm.cons x (perm-set xs i v (omega arith)) in
      Perm.trans (Perm.swap x _ _) (Perm.trans moved (Perm.swap v x xs))

  -- The array with entries `i` and `j` exchanged.
  abbrev pub exchange : List A → ℕ → ℕ → List A
  exchange xs i j = set (set xs i (get_or xs j d)) j (get_or xs i d)

  -- Writes to two places: the entry that each write trades away, both times.
  pub perm-set_set :
      (xs : List A) (i j : ℕ) (v : A)
      → i < length xs
      → j < length xs
      → get_or xs j d ≡ v
      → Perm (set (set xs i v) j (get_or xs i d)) xs
  perm-set_set xs i j v hi hj e =
      let ys = set xs i v in
      let hj' : j < length ys = omega (arith, length-set xs i v) in
      let same : get_or ys j d ≡ v = ground (arith, get_or-set xs i j v d hi, e) in
      let second = rw same at (perm-set ys j (get_or xs i d) hj') in
      Perm.cons_inv (Perm.trans second (perm-set xs i v hi))

  pub exchange-perm :
      (xs : List A) (i j : ℕ) → i < length xs → j < length xs → Perm (exchange xs i j) xs
  exchange-perm xs i j hi hj = perm-set_set xs i j (get_or xs j d) hi hj refl

  pub get_or-exchange :
      (xs : List A) (i j k : ℕ)
      → i < length xs
      → j < length xs
      → get_or (exchange xs i j) k d
        ≡ (if j == k then get_or xs i d else if i == k then get_or xs j d else get_or xs k d)
  get_or-exchange xs i j k hi hj = rw (
    get_or-set (set xs i (get_or xs j d)) j k (get_or xs i d) d
        (omega (arith, length-set xs i (get_or xs j d))),
    get_or-set xs i k (get_or xs j d) d hi,
  )

  module _ (xs : List A) (i j : ℕ) (hi : i < length xs) (hj : j < length xs) where
    pub get_or-exchange_left : i ≢ j → get_or (exchange xs i j) i d ≡ get_or xs j d
    get_or-exchange_left h =
        get_or-exchange xs i j i hi hj ∙ rw (test_false j i (λ e. h (sym e)), test_true i i refl)

    pub get_or-exchange_right : get_or (exchange xs i j) j d ≡ get_or xs i d
    get_or-exchange_right = get_or-exchange xs i j j hi hj ∙ rw (test_true j j refl)

    pub get_or-exchange_other :
        (k : ℕ) → i ≢ k → j ≢ k → get_or (exchange xs i j) k d ≡ get_or xs k d
    get_or-exchange_other k h h' =
        get_or-exchange xs i j k hi hj ∙ rw (test_false j k h', test_false i k h)

  pub length-exchange : (xs : List A) (i j : ℕ) → length (exchange xs i j) ≡ length xs
  length-exchange xs i j =
      length-set (set xs i (get_or xs j d)) j (get_or xs i d) ∙ length-set xs i (get_or xs j d)

  -- `ys` holds the entries of `xs`, and only those from `lo` to `hi` have moved, among themselves.
  pub record Rearranged (lo hi : ℕ) (xs ys : List A) : Type ℓ where
    pub size : length ys ≡ length xs
    pub perm : Perm ys xs
    pub before : (k : ℕ) → k < lo → get_or ys k d ≡ get_or xs k d
    pub behind : (k : ℕ) → hi < k → get_or ys k d ≡ get_or xs k d
    pub inside :
        (k : ℕ) → lo ≤ k → k ≤ hi → (j : ℕ) × (lo ≤ j) × (j ≤ hi) × (get_or ys k d ≡ get_or xs j d)

  pub Rearranged-refl : (lo hi : ℕ) (xs : List A) → Rearranged lo hi xs xs
  Rearranged-refl lo hi xs = record {
    size = refl;
    perm = Perm.refl xs;
    before = λ k h. refl;
    behind = λ k h. refl;
    inside = λ k p q. (k, p, q, refl);
  }

  pub Rearranged-trans :
      {lo hi : ℕ} {xs ys zs : List A}
      → Rearranged lo hi xs ys
      → Rearranged lo hi ys zs
      → Rearranged lo hi xs zs
  Rearranged-trans r s = record {
    size = s.size ∙ r.size;
    perm = Perm.trans s.perm r.perm;
    before = λ k h. s.before k h ∙ r.before k h;
    behind = λ k h. s.behind k h ∙ r.behind k h;
    inside = λ k p q.
        let (j, pj, qj, e) = s.inside k p q in
        let (i, pi, qi, e') = r.inside j pj qj in (i, pi, qi, e ∙ e');
  }

  -- Moves inside a stretch are moves inside any longer one.
  pub Rearranged-widen :
      {lo hi lo' hi' : ℕ} {xs ys : List A}
      → lo ≤ lo'
      → hi' ≤ hi
      → Rearranged lo' hi' xs ys
      → Rearranged lo hi xs ys
  Rearranged-widen {lo} {hi} {lo'} {hi'} h h' r = record {
    size = r.size;
    perm = r.perm;
    before = λ k p. r.before k (omega arith);
    behind = λ k p. r.behind k (omega arith);
    inside = λ k p q. elim (lt-or-le k lo') [
      | inl a ↦ (k, p, q, r.before k a)
      | inr a ↦ elim (lt-or-le hi' k) [
        | inl b ↦ (k, p, q, r.behind k b)
        | inr b ↦ let (j, pj, qj, e) = r.inside k a b in (j, omega arith, omega arith, e)
      ]
    ];
  }

  pub exchange-Rearranged :
      (lo hi i j : ℕ) (xs : List A)
      → lo ≤ i
      → i ≤ hi
      → lo ≤ j
      → j ≤ hi
      → hi < length xs
      → Rearranged lo hi xs (exchange xs i j)
  exchange-Rearranged lo hi i j xs a b a' b' h =
      let at = λ (k : ℕ). get_or-exchange xs i j k (omega arith) (omega arith) in
      record {
        size = length-exchange xs i j;
        perm = exchange-perm xs i j (omega arith) (omega arith);
        before = λ k p. at k ∙ skipped k (omega arith) (omega arith);
        behind = λ k p. at k ∙ skipped k (omega arith) (omega arith);
        inside = λ k p q. moved k p q (at k);
      }
    where
      skipped :
          (k : ℕ)
          → j ≢ k
          → i ≢ k
          → (if j == k then get_or xs i d else if i == k then get_or xs j d else get_or xs k d)
            ≡ get_or xs k d
      skipped k nj ni = rw (test_false j k nj, test_false i k ni)

      moved :
          (k : ℕ)
          → lo ≤ k
          → k ≤ hi
          → get_or (exchange xs i j) k d
            ≡ (if j == k then get_or xs i d else if i == k then get_or xs j d else get_or xs k d)
          → (m : ℕ) × (lo ≤ m) × (m ≤ hi) × (get_or (exchange xs i j) k d ≡ get_or xs m d)
      moved k p q e = elim (Bool-cases (j == k)) [
        | inl t ↦ (i, a, b, e ∙ rw t)
        | inr t ↦ elim (Bool-cases (i == k)) [
          | inl u ↦ (j, a', b', e ∙ rw (t, u))
          | inr u ↦ (k, p, q, e ∙ rw (t, u))
        ]
      ]
