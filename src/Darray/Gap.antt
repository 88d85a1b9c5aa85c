-- ===== src/Darray/Gap.antt =====
-- How `darray_insert` and `darray_remove` open and close the gap in the block of elements.
use rcsw.Base.{
  le→leb, ℕ, zero, suc, ◌+◌, ◌-◌, ◌≤◌, ◌<◌, ◌≡◌, refl, sym, ap, ◌∙◌, ◌≢◌, inl, inr, List, [], ◌∷◌,
  ◌++◌, arith, ltb, lt-or-le, load-done, store-done, Ends, ends, Ends-map, Ends-if, length, get_or,
  set, take, drop, length-append, length-set, length-take, length-drop, get_or-set_ne,
  get_or-set_self, get_or-take, ext_get_or,
}
use mathlib.Core.Path.{subst}
use rcsw.Darray.Edit.{shift_up, move_down}
use rcsw.Darray.Spec.{
  take-take_le, insert_at, insert_swap, remove_at, remove_swap, length-insert_at, insert_at-below,
  insert_at-here, insert_at-above, length-contents, remove_at-split,
}

module _ {ℓ} {A : Type ℓ} where
  -- The block after the shift: from `index` on, up to `i`, every entry has moved up by one.
  record ShiftedUp (d : A) (es : List A) (index i : ℕ) (out : List A) : Type ℓ where
    size : length out ≡ length es
    below : (k : ℕ) → k ≤ index → get_or out k d ≡ get_or es k d
    moved : (k : ℕ) → index ≤ k → k < i → get_or out (suc k) d ≡ get_or es k d
    behind : (k : ℕ) → i < k → get_or out k d ≡ get_or es k d

  shift_up-ShiftedUp :
      (d : A) (es : List A) (index i : ℕ)
      → i < length es
      → Ends (ShiftedUp d es index i) (shift_up es index i)
  unfolding shift_up
  shift_up-ShiftedUp d es index zero h = ends (record {
    size = refl;
    below = λ k p. refl;
    moved = λ k p q. absurd (omega arith);
    behind = λ k p. refl;
  })
  shift_up-ShiftedUp d es index (suc i) h =
      Ends-if (ltb index (suc i))
        (λ q.
          let es' = set es (suc i) (get_or es i d) in
          let size = length-set es (suc i) (get_or es i d) in
          let kept : (k : ℕ) → suc i ≢ k → get_or es' k d ≡ get_or es k d =
            λ k ne. get_or-set_ne es (suc i) k (get_or es i d) d ne in
          rw (load-done es i d (omega arith), store-done es (suc i) (get_or es i d) h)
            (Ends-map (shift_up-ShiftedUp d es' index i (omega arith)) λ out s. record {
              size = s.size ∙ size;
              below = λ k p. s.below k p ∙ kept k (ground (arith, q, p));
              moved = λ k p r. elim (lt-or-le k i) [
                | inl c ↦ s.moved k p c ∙ kept k (omega arith)
                | inr c ↦
                    ap (λ m. get_or out (suc m) d) {x = k} {y = i} (omega arith)
                    ∙ s.behind (suc i) (omega arith)
                    ∙ get_or-set_self es (suc i) (get_or es i d) d h
                    ∙ ap (λ m. get_or es m d) {x = i} {y = k} (omega arith)
              ];
              behind = λ k p. s.behind k (omega arith) ∙ kept k (omega arith);
            }))
        (λ q. ends (record {
          size = refl;
          below = λ k p. refl;
          moved = λ k p r. absurd (ground (arith, q));
          behind = λ k p. refl;
        }))

  -- The elements in use after the new one is written into the gap.
  pub shift_up-inserts :
      (es : List A) (index n : ℕ) (e : A)
      → index ≤ n
      → n < length es
      → Ends
          (λ out.
            (length out ≡ length es)
            × (take (suc n) (set out index e) ≡ insert_at (take n es) index e))
          (shift_up es index n)
  shift_up-inserts es index n e h bound =
      Ends-map (shift_up-ShiftedUp e es index n bound) λ out s. (s.size, filled out s)
    where
      front : List A
      front = take n es

      size : length front ≡ n
      size = length-contents es n (omega arith)

      at :
          (out : List A)
          → ShiftedUp e es index n out
          → (k : ℕ) → k < suc n
          → get_or (set out index e) k e ≡ get_or (insert_at front index e) k e
      at out s k b = elim (lt-or-le k index) [
        | inl c ↦
            get_or-set_ne out index k e e (omega arith)
            ∙ s.below k (omega arith)
            ∙ sym (get_or-take n es k e (omega arith))
            ∙ sym (insert_at-below front index k e e (omega (arith, size)) c)
        | inr c ↦ elim (lt-or-le index k) [
          | inl c' ↦ after out s (k - 1) (omega arith) k (omega arith) (omega arith)
          | inr c' ↦
              let same : k ≡ index = omega arith in
              rw (
                same,
                get_or-set_self out index e e (omega (arith, s.size)),
                insert_at-here front index e e (omega (arith, size)),
              )
        ]
      ]
        where
          after :
              (out : List A)
              → ShiftedUp e es index n out
              → (j : ℕ) → index ≤ j
              → (k : ℕ) → k ≡ suc j
              → k < suc n
              → get_or (set out index e) k e ≡ get_or (insert_at front index e) k e
          after out s j a k f b = rw f (
              get_or-set_ne out index (suc j) e e (omega arith)
              ∙ s.moved j a (omega arith)
              ∙ sym (get_or-take n es j e (omega arith))
              ∙ sym (insert_at-above front index j e e a))

      filled :
          (out : List A)
          → ShiftedUp e es index n out
          → take (suc n) (set out index e) ≡ insert_at front index e
      filled out s =
          let long = length-set out index e in
          let size' = length-contents (set out index e) (suc n) (omega (arith, long, s.size)) in
          ext_get_or (take (suc n) (set out index e)) (insert_at front index e) e
            (size' ∙ ap suc (sym size) ∙ sym (length-insert_at front index e))
            (λ k b.
              let b' : k < suc n = omega (arith, b, size') in
              get_or-take (suc n) (set out index e) k e b' ∙ at out s k b')

  take-set_end :
      (es : List A) (n : ℕ) (x : A)
      → n < length es
      → take (suc n) (set es n x) ≡ take n es ++ x ∷ []
  take-set_end [] n x h = absurd (omega arith)
  take-set_end (y ∷ es) zero x h = refl
  take-set_end (y ∷ es) (suc n) x h = ap (◌∷◌ y) (take-set_end es n x (omega arith))

  take-set-take :
      (es : List A) (m n i : ℕ) (v : A) → m ≤ n → take m (set (take n es) i v) ≡ take m (set es i v)
  take-set-take es zero n i v h = refl
  take-set-take es (suc m) zero i v h = absurd (omega arith)
  take-set-take [] (suc m) (suc n) i v h = refl
  take-set-take (y ∷ es) (suc m) (suc n) zero v h = ap (◌∷◌ v) (take-take_le es m n (omega arith))
  take-set-take (y ∷ es) (suc m) (suc n) (suc i) v h =
      ap (◌∷◌ y) (take-set-take es m n i v (omega arith))

  -- Without the ORDERED flag, the entry at the place goes to the end.
  pub swap-inserts :
      (es : List A) (index n : ℕ) (e : A)
      → index ≤ n
      → n < length es
      → take (suc n) (set (set es n (get_or es index e)) index e) ≡ insert_swap (take n es) index e
  unfolding insert_swap
  swap-inserts (x ∷ es) zero zero e h b = refl
  swap-inserts (x ∷ es) zero (suc n) e h b = ap (◌∷◌ e) (take-set_end es n x (omega arith))
  swap-inserts (x ∷ es) (suc index) zero e h b = absurd (omega arith)
  swap-inserts (x ∷ es) (suc index) (suc n) e h b =
      ap (◌∷◌ x) (swap-inserts es index n e (omega arith) (omega arith))
  swap-inserts [] index n e h b = absurd (omega arith)

  moved_down-size :
      (es : List A) (index m : ℕ)
      → index + 1 + m ≤ length es
      → length (take index es ++ (take m (drop (index + 1) es) ++ drop (index + m) es)) ≡ length es
  moved_down-size es index m h = omega (
    arith,
    length-append (take index es) (take m (drop (index + 1) es) ++ drop (index + m) es),
    length-append (take m (drop (index + 1) es)) (drop (index + m) es),
    length-take index es,
    length-take m (drop (index + 1) es),
    length-drop (index + 1) es,
    length-drop (index + m) es,
  )

  -- A removal with the SORTED flag, as far as the block is in use.
  pub move_down-removes :
      (es : List A) (index n : ℕ)
      → index < n
      → n ≤ length es
      → Ends
          (λ out. (length out ≡ length es) × (take (n - 1) out ≡ remove_at (take n es) index))
          (move_down es index (n - 1 - index))
  unfolding move_down
  move_down-removes es index n h b =
      let m = n - 1 - index in
      let all : index + 1 + m ≡ n = omega arith in
      let less : index + m ≡ n - 1 = omega arith in
      let out = take index es ++ (take m (drop (index + 1) es) ++ drop (index + m) es) in
      let kept = remove_at-split es index m (omega arith) in
      rw (le→leb (index + 1 + m) (length es) (omega arith)) (
        ends (
          moved_down-size es index m (omega arith),
          subst (λ k. take k out ≡ remove_at (take n es) index) less
              (subst (λ k. take (index + m) out ≡ remove_at (take k es) index) all kept),
        ))

  -- A removal without it: the last element moves.
  pub swap-removes :
      (d : A) (es : List A) (index n : ℕ)
      → index < n
      → n ≤ length es
      → take (n - 1) (set es index (get_or es (n - 1) d)) ≡ remove_swap (take n es) index d
  unfolding remove_swap
  swap-removes d es index n h b =
      let size = length-contents es n b in
      let last = get_or-take n es (n - 1) d (omega arith) in
      rw (size, last) (sym (take-set-take es (n - 1) n index (get_or es (n - 1) d) (omega arith)))
