-- ===== src/Darray/Spec.antt =====
-- What the dynamic array stands for, a list, and the edits of that list. `insert_at` moves what is
-- behind the place up by one; `insert_swap` sends only the entry at the place to the end.
use rcsw.Base.{
  set_self, ℕ, zero, suc, ◌+◌, ◌-◌, ◌≤◌, ◌<◌, ◌≡◌, refl, ap, List, [], ◌∷◌, ◌++◌, Perm, arith,
  length, get_or, set, take, drop, length-take,
}
use rcsw.Darray.{Darray}
use mathlib.Core.List.Perm

module _ {ℓ} {A : Type ℓ} where
  -- The elements that are in use.
  abbrev pub contents : Darray A → List A
  contents a = take a.current a.elements

  unfoldable pub insert_at : List A → (i : ℕ) → A → List A
  insert_at xs zero e = e ∷ xs
  insert_at [] (suc i) e = e ∷ []
  insert_at (x ∷ xs) (suc i) e = x ∷ insert_at xs i e

  unfoldable pub insert_swap : List A → (i : ℕ) → A → List A
  insert_swap xs i e = set (xs ++ get_or xs i e ∷ []) i e

  unfoldable pub remove_at : List A → (i : ℕ) → List A
  remove_at [] i = []
  remove_at (x ∷ xs) zero = xs
  remove_at (x ∷ xs) (suc i) = x ∷ remove_at xs i

  -- The last element takes the place of the removed one.
  unfoldable pub remove_swap : List A → (i : ℕ) → A → List A
  remove_swap xs i d = take (length xs - 1) (set xs i (get_or xs (length xs - 1) d))

  pub length-insert_at : (xs : List A) (i : ℕ) (e : A) → length (insert_at xs i e) ≡ suc (length xs)
  unfolding insert_at
  length-insert_at xs zero e = refl
  length-insert_at [] (suc i) e = refl
  length-insert_at (x ∷ xs) (suc i) e = ap suc (length-insert_at xs i e)

  pub insert_at-below :
      (xs : List A) (i k : ℕ) (e d : A)
      → i ≤ length xs
      → k < i
      → get_or (insert_at xs i e) k d ≡ get_or xs k d
  unfolding insert_at
  insert_at-below xs zero k e d h b = absurd (omega arith)
  insert_at-below [] (suc i) k e d h b = absurd (omega arith)
  insert_at-below (x ∷ xs) (suc i) zero e d h b = refl
  insert_at-below (x ∷ xs) (suc i) (suc k) e d h b =
      insert_at-below xs i k e d (omega arith) (omega arith)

  pub insert_at-here :
      (xs : List A) (i : ℕ) (e d : A) → i ≤ length xs → get_or (insert_at xs i e) i d ≡ e
  unfolding insert_at
  insert_at-here xs zero e d h = refl
  insert_at-here [] (suc i) e d h = absurd (omega arith)
  insert_at-here (x ∷ xs) (suc i) e d h = insert_at-here xs i e d (omega arith)

  pub insert_at-above :
      (xs : List A) (i k : ℕ) (e d : A)
      → i ≤ k
      → get_or (insert_at xs i e) (suc k) d ≡ get_or xs k d
  unfolding insert_at
  insert_at-above xs zero k e d h = refl
  insert_at-above [] (suc i) k e d h = refl
  insert_at-above (x ∷ xs) (suc i) zero e d h = absurd (omega arith)
  insert_at-above (x ∷ xs) (suc i) (suc k) e d h = insert_at-above xs i k e d (omega arith)

  -- Both insertions have the old elements and the new one.
  pub insert_at-perm : (xs : List A) (i : ℕ) (e : A) → Perm (insert_at xs i e) (e ∷ xs)
  unfolding insert_at
  insert_at-perm xs zero e = Perm.refl (e ∷ xs)
  insert_at-perm [] (suc i) e = Perm.refl (e ∷ [])
  insert_at-perm (x ∷ xs) (suc i) e =
      Perm.trans (Perm.cons x (insert_at-perm xs i e)) (Perm.swap e x xs)

  -- Removal undoes insertion.
  pub remove_at-insert_at :
      (xs : List A) (i : ℕ) (e : A) → i ≤ length xs → remove_at (insert_at xs i e) i ≡ xs
  unfolding insert_at remove_at
  remove_at-insert_at [] zero e h = refl
  remove_at-insert_at (x ∷ xs) zero e h = refl
  remove_at-insert_at [] (suc i) e h = absurd (omega arith)
  remove_at-insert_at (x ∷ xs) (suc i) e h = ap (◌∷◌ x) (remove_at-insert_at xs i e (omega arith))

  pub length-contents : (es : List A) (n : ℕ) → n ≤ length es → length (take n es) ≡ n
  length-contents es n h = omega (arith, length-take n es)

  -- At the end both insertions append.
  pub insert_at-end : (xs : List A) (e : A) → insert_at xs (length xs) e ≡ xs ++ e ∷ []
  unfolding insert_at
  insert_at-end [] e = refl
  insert_at-end (x ∷ xs) e = ap (◌∷◌ x) (insert_at-end xs e)

  pub insert_swap-end : (xs : List A) (e : A) → insert_swap xs (length xs) e ≡ xs ++ e ∷ []
  unfolding insert_swap
  insert_swap-end [] e = refl
  insert_swap-end (x ∷ xs) e = ap (◌∷◌ x) (insert_swap-end xs e)

  pub take-take_le : (es : List A) (m n : ℕ) → m ≤ n → take m (take n es) ≡ take m es
  take-take_le es zero n h = refl
  take-take_le es (suc m) zero h = absurd (omega arith)
  take-take_le [] (suc m) (suc n) h = refl
  take-take_le (y ∷ es) (suc m) (suc n) h = ap (◌∷◌ y) (take-take_le es m n (omega arith))

  -- Removing the last element.
  pub remove_swap-end :
      (xs : List A) (n : ℕ) (d : A) → length xs ≡ suc n → remove_swap xs n d ≡ take n xs
  unfolding remove_swap
  remove_swap-end xs n d h =
      let last : length xs - 1 ≡ n = omega arith in rw (last, set_self xs n d) refl

  -- A prefix whose length is that of its first part.
  pub take-take : (xs ys : List A) (n : ℕ) → n ≤ length xs → take n (take n xs ++ ys) ≡ take n xs
  take-take xs ys zero h = refl
  take-take [] ys (suc n) h = absurd (omega arith)
  take-take (x ∷ xs) ys (suc n) h = ap (◌∷◌ x) (take-take xs ys n (omega arith))

  -- The block after the `memmove` of a removal, as far as it is in use.
  pub remove_at-split :
      (xs : List A) (i n : ℕ)
      → i + 1 + n ≤ length xs
      → take (i + n) (take i xs ++ (take n (drop (i + 1) xs) ++ drop (i + n) xs))
        ≡ remove_at (take (i + 1 + n) xs) i
  unfolding remove_at
  remove_at-split [] i n h = absurd (omega arith)
  remove_at-split (x ∷ xs) zero n h =
      let none_before : 0 + n ≡ n = omega arith in
      let one_more : 1 + n ≡ suc n = omega arith in
      rw (none_before, one_more) (take-take xs (drop n (x ∷ xs)) n (omega arith))
  remove_at-split (x ∷ xs) (suc i) n h =
      let e1 : suc i + n ≡ suc (i + n) = omega arith in
      let e2 : suc i + 1 ≡ suc (i + 1) = omega arith in
      let e3 : suc (i + 1) + n ≡ suc (i + 1 + n) = omega arith in
      rw (e1, e2, e3) (ap (◌∷◌ x) (remove_at-split xs i n (omega arith)))
