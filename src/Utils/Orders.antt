-- ===== src/Utils/Orders.antt =====
-- Lists of arrangements that are all different, and exchanges of entries that are.
use rcsw.Base.{
  ◌≢◌, ℕ, ◌+◌, ◌≤◌, ◌<◌, ◌≡◌, refl, sym, ap, ◌∙◌, inl, inr, List, [], ◌∷◌, ◌++◌, arith, Nat-cases,
  done, load-done, store-done, length, get_or, set, length-set, ext_get_or, exchange,
  length-exchange, get_or-exchange_left, get_or-exchange_right, get_or-exchange_other,
}
use mathlib.Core.Path.{subst}
use rcsw.Utils.{arr32_elt_swap}

module _ {ℓ} {A : Type ℓ} where
  unfoldable pub Each {κ} : (List A → Type κ) → List (List A) → Type κ
  Each P [] = Unit
  Each P (v ∷ vs) = P v × Each P vs

  -- No two of the lists are equal.
  unfoldable pub Apart : List (List A) → Type ℓ
  Apart [] = Unit
  Apart (v ∷ vs) = Each (λ w. v ≢ w) vs × Apart vs

  pub Each-append {κ} :
      (P : List A → Type κ) (xs ys : List (List A)) → Each P xs → Each P ys → Each P (xs ++ ys)
  unfolding Each
  Each-append P [] ys p q = q
  Each-append P (x ∷ xs) ys (p, ps) q = (p, Each-append P xs ys ps q)

  pub Each-map {κ μ} :
      (P : List A → Type κ) (Q : List A → Type μ) (xs : List (List A))
      → ((v : List A) → P v → Q v)
      → Each P xs
      → Each Q xs
  unfolding Each
  Each-map P Q [] f p = tt
  Each-map P Q (x ∷ xs) f (p, ps) = (f x p, Each-map P Q xs f ps)

  pub Apart-append :
      (xs ys : List (List A))
      → Apart xs
      → Apart ys
      → Each (λ x. Each (λ y. x ≢ y) ys) xs
      → Apart (xs ++ ys)
  unfolding Each Apart
  Apart-append [] ys p q c = q
  Apart-append (x ∷ xs) ys (p, ps) q (c, cs) =
      (Each-append (λ w. x ≢ w) xs ys p c, Apart-append xs ys ps q cs)

  module _ (d : A) where
    pub exchange_twice :
        (xs : List A) (i j : ℕ)
        → i < length xs
        → j < length xs
        → exchange d (exchange d xs i j) i j ≡ xs
    exchange_twice xs i j p q =
        let l = length-exchange d xs i j in
        ext_get_or (exchange d ys i j) xs d (length-exchange d ys i j ∙ l) (λ k h.
          elim (Nat-cases k j) [
            | inl e ↦
                subst (λ m. get_or (exchange d ys i j) m d ≡ get_or xs m d) (sym e)
                  (get_or-exchange_right d ys i j (omega (arith, l)) (omega (arith, l)) ∙ back)
            | inr n ↦ elim (Nat-cases k i) [
              | inl e ↦
                  subst (λ m. get_or (exchange d ys i j) m d ≡ get_or xs m d) (sym e)
                    (get_or-exchange_left d ys i j (omega (arith, l)) (omega (arith, l))
                        (λ r. n (e ∙ r))
                      ∙ get_or-exchange_right d xs i j p q)
              | inr m ↦
                  get_or-exchange_other d ys i j (omega (arith, l)) (omega (arith, l)) k
                    (λ r. m (sym r)) (λ r. n (sym r))
                  ∙ get_or-exchange_other d xs i j p q k (λ r. m (sym r)) (λ r. n (sym r))
            ]
          ])
      where
        ys : List A
        ys = exchange d xs i j

        back : get_or ys i d ≡ get_or xs j d
        back = elim (Nat-cases i j) [
          | inl e ↦
              ap (λ m. get_or ys m d) e
              ∙ get_or-exchange_right d xs i j p q
              ∙ ap (λ m. get_or xs m d) e
          | inr n ↦ get_or-exchange_left d xs i j p q n
        ]

    pub arr32_elt_swap-exchange :
        (v : List A) (i j : ℕ)
        → i < length v
        → j < length v
        → arr32_elt_swap v i j ≡ done (exchange d v i j)
    unfolding arr32_elt_swap
    arr32_elt_swap-exchange v i j p q =
        rw
          (
            load-done v i d p,
            load-done v j d q,
            store-done v i (get_or v j d) p,
            store-done (set v i (get_or v j d)) j (get_or v i d)
                (omega (arith, length-set v i (get_or v j d))),
          )
          refl

    pub exchange-at_left :
        (xs : List A) (i j : ℕ)
        → i < length xs
        → j < length xs
        → get_or (exchange d xs i j) i d ≡ get_or xs j d
    exchange-at_left xs i j p q = elim (Nat-cases i j) [
      | inl e ↦
          ap (λ m. get_or (exchange d xs i j) m d) e
          ∙ get_or-exchange_right d xs i j p q
          ∙ ap (λ m. get_or xs m d) e
      | inr n ↦ get_or-exchange_left d xs i j p q n
    ]

    -- The entries from `start` on are all different.
    abbrev pub IsDistinct : (start : ℕ) → List A → Type ℓ
    IsDistinct start arr =
        (i k : ℕ) → start ≤ i → i < k → k < length arr → get_or arr i d ≢ get_or arr k d

    pub exchange-IsDistinct :
        (arr : List A) (start j : ℕ)
        → start ≤ j
        → j < length arr
        → IsDistinct start arr
        → IsDistinct (start + 1) (exchange d arr start j)
    exchange-IsDistinct arr start j h q differ i k a b c e = elim (Nat-cases i j) [
      | inl s ↦ differ start k (omega arith) (omega arith) inside (
          sym (get_or-exchange_right d arr start j p q)
          ∙ ap (λ m. get_or ys m d) (sym s)
          ∙ e
          ∙ other k (omega arith) inside (λ r. lt-irrefl i k b (s ∙ r)))
      | inr n ↦ elim (Nat-cases k j) [
        | inl s ↦ differ start i (omega arith) (omega arith) (omega (arith, inside)) (
            sym (get_or-exchange_right d arr start j p q)
            ∙ ap (λ m. get_or ys m d) (sym s)
            ∙ sym e
            ∙ other i (omega arith) (omega (arith, inside)) (λ r. n (sym r)))
        | inr m ↦ differ i k (omega arith) b inside (
            sym (other i (omega arith) (omega (arith, inside)) (λ r. n (sym r)))
            ∙ e
            ∙ other k (omega arith) inside (λ r. m (sym r)))
      ]
    ]
      where
        p : start < length arr
        p = omega arith

        ys : List A
        ys = exchange d arr start j

        inside : k < length arr
        inside = omega (arith, c, length-exchange d arr start j)

        other : (m : ℕ) → start < m → m < length arr → j ≢ m → get_or ys m d ≡ get_or arr m d
        other m u w n =
            get_or-exchange_other d arr start j p q m (λ r. absurd (omega (arith, r, u))) n

        lt-irrefl : (x y : ℕ) → x < y → x ≢ y
        lt-irrefl x y u r = omega (arith, u, r)
