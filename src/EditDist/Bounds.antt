-- ===== src/EditDist/Bounds.antt =====
-- `edit_dist_iter` where the stride of the table is too wide for it.
use rcsw.Base.{
  ℕ, zero, suc, ◌+◌, ◌-◌, ◌*◌, ◌≤◌, ◌<◌, ◌≡◌, refl, ap, ◌∙◌, inl, inr, Bool, true, false, Option,
  none, List, [], ◌∷◌, ◌++◌, arith, if◌then◌else◌, lt-or-le, le→leb, lt→not-leb, load-fault,
  store-fault, Exec, done, fault, ◌>>=◌, load, store, load-done, store-done, length, drop,
  replicate, length-append, length-set, length-drop, length-replicate,
}
use mathlib.Core.Path.{subst}
use rcsw.EditDist.{cell, row_loop, table_loop, fill, edit_dist_iter, table_size}

-- A call that faults, or ends with what `P` says; it never runs out of fuel.
data Outcome {ℓ κ} {A : Type ℓ} (P : A → Type κ) : Exec A → Type (ℓ ⊔ κ) where
  faults : Outcome P fault
  stops : {a : A} → P a → Outcome P (done a)

Outcome-bind {ℓ ℓ' κ κ'} :
    {A : Type ℓ} {B : Type ℓ'} {P : A → Type κ} {Q : B → Type κ'} {m : Exec A} {f : A → Exec B}
    → Outcome P m
    → ((a : A) → P a → Outcome Q (f a))
    → Outcome Q (m >>= f)
Outcome-bind faults k = faults
Outcome-bind (stops p) k = k _ p

Outcome-map {ℓ κ κ'} :
    {A : Type ℓ} {P : A → Type κ} {Q : A → Type κ'} {m : Exec A}
    → Outcome P m
    → ((a : A) → P a → Q a)
    → Outcome Q m
Outcome-map faults k = faults
Outcome-map (stops p) k = stops (k _ p)

Outcome-if {ℓ κ} :
    {A : Type ℓ} {P : A → Type κ} {x y : Exec A} (b : Bool)
    → Outcome P x
    → Outcome P y
    → Outcome P (if b then x else y)
Outcome-if true p q = p
Outcome-if false p q = q

-- What can only fault does.
Outcome-fault {ℓ κ} :
    {A : Type ℓ} {P : A → Type κ} {m : Exec A} → Outcome P m → ((a : A) → P a → ⊥) → m ≡ fault
Outcome-fault faults never = refl
Outcome-fault (stops p) never = absurd (never _ p)

load-Outcome {ℓ} : {A : Type ℓ} (xs : List A) (i : ℕ) → Outcome (λ x. i < length xs) (load xs i)
load-Outcome {A} [] i = let empty : List A = [] in rw (load-fault empty i (omega arith)) faults
load-Outcome (x ∷ xs) i = elim (lt-or-le i (length (x ∷ xs))) [
  | inl h ↦ rw (load-done (x ∷ xs) i x h) (stops h)
  | inr h ↦ rw (load-fault (x ∷ xs) i h) faults
]

store-Outcome {ℓ} :
    {A : Type ℓ} (xs : List A) (i : ℕ) (v : A)
    → Outcome (λ ys. (length ys ≡ length xs) × (i < length xs)) (store xs i v)
store-Outcome xs i v = elim (lt-or-le i (length xs)) [
  | inl h ↦ rw (store-done xs i v h) (stops (length-set xs i v, h))
  | inr h ↦ rw (store-fault xs i v h) faults
]

wide_row : (n k : ℕ) → table_size (n + 2 + k) n < (n + 2 + k) * (n + 2 + k) + (n + 1)
wide_row n k = grind arith

too_small : (m n : ℕ) → n + 1 < m → table_size m n < m * m + (n + 1)
too_small m n h =
    let same : n + 2 + (m - (n + 2)) ≡ m = omega arith in
    subst (λ m. table_size m n < m * m + (n + 1)) same (wide_row n (m - (n + 2)))

module _ {ℓ} {A : Type ℓ} (cmpe : A → A → Bool) (a b : List A) (m n : ℕ) where
  cell-Outcome : (c : List (Option ℕ)) (i j : ℕ) → Outcome (λ v. Unit {0}) (cell cmpe a b m c i j)
  unfolding cell
  cell-Outcome c zero j = stops tt
  cell-Outcome c (suc i) zero = stops tt
  cell-Outcome c (suc i) (suc j) = Outcome-bind (load-Outcome a i) λ x _.
      Outcome-bind (load-Outcome b j) λ y _. Outcome-if (cmpe x y) (elsewhere c (i * m + j)) (
        Outcome-bind (load-Outcome c (i * m + j)) λ s _.
          Outcome-bind (load-Outcome c (i * m + suc j))
            λ e _. Outcome-bind (load-Outcome c (suc i * m + j)) λ r _. stops tt)
    where
      elsewhere : (c : List (Option ℕ)) (k : ℕ) → Outcome (λ v. Unit {0}) (load c k)
      elsewhere c k = elim (lt-or-le k (length c)) [
        | inl h ↦ rw (load-done c k none h) (stops tt)
        | inr h ↦ rw (load-fault c k h) faults
      ]

  -- A row that is written has its last entry inside the table.
  row_loop-Outcome :
      (left : ℕ) (c : List (Option ℕ)) (i j : ℕ)
      → Outcome
          (λ c'. (length c' ≡ length c) × (0 < left → i * m + (j + left) ≤ length c))
          (row_loop cmpe left a b m c i j)
  unfolding row_loop
  row_loop-Outcome zero c i j = stops (refl, λ h. absurd (omega arith))
  row_loop-Outcome (suc left) c i j = Outcome-bind (cell-Outcome c i j) λ v _.
      Outcome-bind (store-Outcome c (i * m + j) v) λ c1 (l1, p).
        Outcome-map (row_loop-Outcome left c1 i (j + 1)) λ c2 (l2, q). (
          l2 ∙ l1,
          λ _. elim (lt-or-le 0 left) [ inl h ↦ omega (arith, q h, l1) | inr h ↦ omega (arith, p) ],
        )

  table_loop-Outcome :
      (left : ℕ) (c : List (Option ℕ)) (i : ℕ)
      → Outcome
          (λ c'. (length c' ≡ length c) × (0 < left → (i + left - 1) * m + (n + 1) ≤ length c))
          (table_loop cmpe left a b m n c i)
  unfolding table_loop
  table_loop-Outcome zero c i = stops (refl, λ h. absurd (omega arith))
  table_loop-Outcome (suc left) c i = Outcome-bind (row_loop-Outcome (n + 1) c i 0) λ c1 (l1, p).
      Outcome-map (table_loop-Outcome left c1 (i + 1)) λ c2 (l2, q). (
        l2 ∙ l1,
        λ _. elim (lt-or-le 0 left) [
          | inl h ↦
              let same : i + suc left - 1 ≡ i + 1 + left - 1 = omega arith in
              rw same (omega (arith, q h, l1))
          | inr h ↦
              let same : i + suc left - 1 ≡ i = omega arith in
              rw same (omega (arith, p (omega arith)))
        ],
      )

  -- For a sequence of `m` elements and a shorter one of `n`, two fewer or more, and the table that
  -- `edit_dist_init` makes for them, `edit_dist_iter` faults: whatever the elements, it writes or
  -- reads outside the table or a sequence.
  pub edit_dist_iter-fault :
      (c : List (Option ℕ))
      → n + 1 < m
      → length c ≡ table_size m n
      → edit_dist_iter cmpe a b m n c ≡ fault
  unfolding edit_dist_iter
  edit_dist_iter-fault c h size =
      Outcome-fault
        (Outcome-bind (filled c) λ c0 l0.
          Outcome-bind (table_loop-Outcome (m + 1) c0 0) λ c1 (l1, p).
            absurd (omega (arith, p (omega arith), stride, l0, size, too_small m n h)))
        (λ v p. p)
    where
      whole :
          (c : List (Option ℕ))
          → m * n ≤ length c
          → length (replicate (m * n) none ++ drop (m * n) c) ≡ length c
      whole c h =
          let absent : Option ℕ = none in
          omega (
            arith,
            h,
            length-append (replicate (m * n) absent) (drop (m * n) c),
            length-replicate (m * n) absent,
            length-drop (m * n) c,
          )

      filled : (c : List (Option ℕ)) → Outcome (λ c0. length c0 ≡ length c) (fill (m * n) c)
      filled c = elim (lt-or-le (length c) (m * n)) [
        | inl h ↦ rw (lt→not-leb (m * n) (length c) h) faults
        | inr h ↦ rw (le→leb (m * n) (length c) h) (stops (whole c h))
      ]

      stride : (0 + (m + 1) - 1) * m ≡ m * m
      stride = ap (λ k. k * m) {x = 0 + (m + 1) - 1} {y = m} (omega arith)
