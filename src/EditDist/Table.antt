-- ===== src/EditDist/Table.antt =====
-- The table of `edit_dist_iter` against the distance by recursion, where its rows fit the stride.
use rcsw.Base.{
  ℕ, zero, suc, ◌+◌, ◌*◌, ◌≤◌, ◌<◌, min, ◌≡◌, refl, sym, ap, ◌∙◌, inl, inr, Bool, Option, none,
  some, List, ◌++◌, arith, if◌then◌else◌, Bool-cases, Nat-cases, le→leb, done, load-done,
  store-done, Ends, ends, Ends-bind, Ends-map, Ends-inv, length, get_or, set, drop, replicate,
  length-append, length-set, length-drop, length-replicate, get_or-set_ne, get_or-set_self,
}
use mathlib.Core.Path.{subst}
use rcsw.EditDist.{cell, row_loop, table_loop, edit_dist_iter, table_size}

suc_times : (i m : ℕ) → suc i * m ≡ i * m + m
suc_times i m = grind arith

row_inside : (m i j : ℕ) → i ≤ m → j < m → i * m + j < (m + 1) * m
row_inside m i j p q = grind arith

module _ {ℓ} {A : Type ℓ} (cmpe : A → A → Bool) (d : A) where
  -- One row of distances from the row above it.
  unfoldable pub next_row : (a b : List A) → (i : ℕ) → (above : ℕ → ℕ) → ℕ → ℕ
  next_row a b i above zero = suc i
  next_row a b i above (suc j) =
      let left = next_row a b i above j in
      if cmpe (get_or a i d) (get_or b j d)
      then above j
      else suc (min (above j) (min (above (suc j)) left))

  -- The least number of substitutions, deletions and insertions that turn the first `i` elements of
  -- `a` into the first `j` of `b`, by recursion on the last elements.
  unfoldable pub distance : (a b : List A) → (i j : ℕ) → ℕ
  distance a b zero j = j
  distance a b (suc i) j = next_row a b i (distance a b i) j

  module _ (a b : List A) (m n : ℕ) (fits : n < m) (la : length a ≡ m) (lb : length b ≡ n) where
    -- The entries of row `i` below column `j`.
    abbrev HasRow : List (Option ℕ) → (i j : ℕ) → Type 0
    HasRow c i j = (k : ℕ) → k < j → get_or c (i * m + k) none ≡ some (distance a b i k)

    -- The row above row `i`, if there is one.
    unfoldable HasAbove : List (Option ℕ) → (i : ℕ) → Type 0
    HasAbove c zero = Unit
    HasAbove c (suc i) = HasRow c i (n + 1)

    cell-distance :
        (c : List (Option ℕ)) (i j : ℕ)
        → i ≤ m
        → j ≤ n
        → (m + 1) * m ≤ length c
        → HasAbove c i
        → HasRow c i j
        → cell cmpe a b m c i j ≡ done (some (distance a b i j))
    unfolding cell distance next_row HasAbove
    cell-distance c zero j p q l above row = refl
    cell-distance c (suc i) zero p q l above row = refl
    cell-distance c (suc i) (suc j) p q l above row =
        let s = row_inside m i j (omega arith) (omega arith) in
        let e = row_inside m i (suc j) (omega arith) (omega arith) in
        let r = row_inside m (suc i) j (omega arith) (omega arith) in
        let got_a = load-done a i d (omega arith) in
        let got_b = load-done b j d (omega arith) in
        let got_s = load-done c (i * m + j) none (omega arith) ∙ ap done (above j (omega arith)) in
        let got_e =
          load-done c (i * m + suc j) none (omega arith) ∙ ap done (above (suc j) (omega arith)) in
        let got_r =
          load-done c (suc i * m + j) none (omega arith) ∙ ap done (row j (omega arith)) in
        rw (got_a, got_b)
          (elim (Bool-cases (cmpe (get_or a i d) (get_or b j d))) [
            | inl t ↦ rw t got_s
            | inr t ↦ rw (t, got_s, got_e, got_r) refl
          ])

    HasAbove-set :
        (c : List (Option ℕ)) (i j : ℕ) (v : Option ℕ)
        → HasAbove c i
        → HasAbove (set c (i * m + j) v) i
    unfolding HasAbove
    HasAbove-set c zero j v h = tt
    HasAbove-set c (suc i) j v h = λ k p.
        get_or-set_ne c (suc i * m + j) (i * m + k) v none
          (λ e. omega (arith, e, suc_times i m, fits))
        ∙ h k p

    HasRow-set :
        (c : List (Option ℕ)) (i j : ℕ)
        → i * m + j < length c
        → HasRow c i j
        → HasRow (set c (i * m + j) (some (distance a b i j))) i (j + 1)
    HasRow-set c i j p h k q = elim (Nat-cases k j) [
      | inl e ↦
          subst
            (λ k.
              get_or (set c (i * m + j) (some (distance a b i j))) (i * m + k) none
              ≡ some (distance a b i k))
            (sym e) (get_or-set_self c (i * m + j) (some (distance a b i j)) none p)
      | inr e ↦
          get_or-set_ne c (i * m + j) (i * m + k) (some (distance a b i j)) none
            (λ r. e (omega (arith, r)))
          ∙ h k (omega arith)
    ]

    row_loop-HasRow :
        (left : ℕ) (c : List (Option ℕ)) (i j : ℕ)
        → j + left ≡ n + 1
        → i ≤ m
        → (m + 1) * m ≤ length c
        → HasAbove c i
        → HasRow c i j
        → Ends (λ c'. (length c' ≡ length c) × HasRow c' i (n + 1)) (row_loop cmpe left a b m c i j)
    unfolding row_loop
    row_loop-HasRow zero c i j e p l above row = ends (refl, λ k q. row k (omega arith))
    row_loop-HasRow (suc left) c i j e p l above row =
        let v = some (distance a b i j) in
        let size = length-set c (i * m + j) v in
        let inside : i * m + j < length c = omega (arith, row_inside m i j p (omega arith)) in
        rw (cell-distance c i j p (omega arith) l above row, store-done c (i * m + j) v inside)
          (Ends-map
            (row_loop-HasRow left (set c (i * m + j) v) i (j + 1) (omega arith) p
              (omega (arith, size)) (HasAbove-set c i j v above) (HasRow-set c i j inside row))
            λ c' (s, r). (s ∙ size, r))

    table_loop-HasAbove :
        (left : ℕ) (c : List (Option ℕ)) (i : ℕ)
        → i + left ≡ m + 1
        → (m + 1) * m ≤ length c
        → HasAbove c i
        → Ends
            (λ c'. (length c' ≡ length c) × HasAbove c' (suc m))
            (table_loop cmpe left a b m n c i)
    unfolding table_loop HasAbove
    table_loop-HasAbove zero c i e l above =
        let last : i ≡ suc m = omega arith in ends (refl, subst (HasAbove c) last above)
    table_loop-HasAbove (suc left) c i e l above =
        Ends-bind
          (row_loop-HasRow (n + 1) c i 0 (omega arith) (omega arith) l above
            (λ k q. absurd (omega arith)))
          λ c' (s, r).
            let next : suc i ≡ i + 1 = omega arith in
            Ends-map
              (table_loop-HasAbove left c' (i + 1) (omega arith) (omega (arith, l, s))
                (subst (HasAbove c') next r))
              λ c'' (s', h). (s' ∙ s, h)

    table_loop-HasRow :
        (c : List (Option ℕ))
        → (m + 1) * m ≤ length c
        → Ends
            (λ c'. (length c' ≡ length c) × HasRow c' m (n + 1))
            (table_loop cmpe (m + 1) a b m n c 0)
    unfolding HasAbove
    table_loop-HasRow c l = table_loop-HasAbove (m + 1) c 0 (omega arith) l tt

  small_table : (m n : ℕ) → n + 1 ≡ m → m * n ≤ (m + 1) * m
  small_table m n e = grind (arith, e)

  -- For a sequence of `m` elements and one of `n`, one fewer, and the table that `edit_dist_init`
  -- makes for them, `edit_dist_iter` stays inside the table and gives the least number of
  -- substitutions, deletions and insertions, as the recursion on the last elements defines it.
  pub edit_dist_iter-distance :
      (a b : List A) (m n : ℕ) (c : List (Option ℕ))
      → length a ≡ m
      → length b ≡ n
      → n + 1 ≡ m
      → length c ≡ table_size m n
      → edit_dist_iter cmpe a b m n c ≡ done (some (distance a b m n))
  unfolding edit_dist_iter
  edit_dist_iter-distance a b m n c la lb e size =
      let whole : length c ≡ (m + 1) * m = size ∙ ap (λ k. (m + 1) * k) e in
      let room : m * n ≤ length c = omega (arith, whole, small_table m n e) in
      let absent : Option ℕ = none in
      let c0 = replicate (m * n) absent ++ drop (m * n) c in
      let l0 : length c0 ≡ length c = omega (
        arith,
        room,
        length-append (replicate (m * n) none) (drop (m * n) c),
        length-replicate (m * n) absent,
        length-drop (m * n) c,
      ) in
      let (c1, ran, (l1, row)) =
        Ends-inv
          (table_loop-HasRow a b m n (omega (arith, e)) la lb c0 (omega (arith, l0, whole))) in
      rw (le→leb (m * n) (length c) room, ran)
        (load-done c1 (m * m + n) none
            (omega (arith, row_inside m m n (omega arith) (omega (arith, e)), l1, l0, whole))
          ∙ ap done (row n (omega arith)))
