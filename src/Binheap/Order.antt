-- ===== src/Binheap/Order.antt =====
-- The order of the heap by slots, and `binheap_swap`.
use rcsw.Base.{
  ℕ, zero, suc, ◌/◌, ◌≤◌, ◌<◌, ◌≡◌, refl, sym, ap, ◌∙◌, ◌≢◌, Bool, true, false, List, [], ◌∷◌, Perm,
  arith, test_false, done, load-done, store-done, Ends, ends, Element, IsOrder, ◌≼◌, length, get_or,
  set, take, drop, length-set, length-take, get_or-set_ne, exchange-perm, get_or-set_self,
  get_or-take, exchange, length-exchange, get_or-exchange_left, get_or-exchange_right,
  get_or-exchange_other, ≼_of_not-cmp_gt, ≼_of_cmp_lt, ≼_refl, ≼_of_cmp_gt, ≼_of_not-cmp_lt,
}
use mathlib.Core.Path.{subst}
use rcsw.Binheap.{swap, is_better, is_worse}

module _ {ℓ} {A : Type ℓ} ⦃el : Element A⦄ where
  abbrev pub slot : List A → ℕ → A
  slot es k = get_or es k el.zeroed

  -- `a` may stand above `b`.
  abbrev pub Above : (is_min : Bool) → A → A → Type 0
  Above true a b = a ≼ b
  Above false a b = b ≼ a

  -- Every slot from 2 up to `n` stands below its parent, if the parent is `k` or behind it.
  abbrev pub HeapFrom : (is_min : Bool) (k n : ℕ) → List A → Type 0
  HeapFrom is_min k n es =
      (j : ℕ) → 2 ≤ j → j ≤ n → k ≤ j / 2 → Above is_min (slot es (j / 2)) (slot es j)

  -- What a sift leaves: the elements behind the temporary slot, in heap order.
  pub record Sifted (is_min : Bool) (k n : ℕ) (es out : List A) : Type ℓ where
    pub size : length out ≡ length es
    pub perm : Perm (drop 1 (take (suc n) out)) (drop 1 (take (suc n) es))
    pub order : HeapFrom is_min k n out

  pub record Swapped (es : List A) (i j : ℕ) (out : List A) : Type ℓ where
    pub size : length out ≡ length es
    pub perm :
        (n : ℕ)
        → i ≤ n
        → j ≤ n
        → n < length es
        → Perm (drop 1 (take (suc n) out)) (drop 1 (take (suc n) es))
    pub left : slot out i ≡ slot es j
    pub right : slot out j ≡ slot es i
    pub other : (k : ℕ) → 0 < k → i ≢ k → j ≢ k → slot out k ≡ slot es k

  swap-exchange :
      (es : List A) (i j : ℕ)
      → 0 < i
      → 0 < j
      → i < length es
      → j < length es
      → swap es i j ≡ done (exchange el.zeroed (set es 0 (slot es i)) i j)
  unfolding swap
  swap-exchange es i j pi pj hi hj =
      let d = el.zeroed in
      let xs = set es 0 (slot es i) in
      let ys = set xs i (slot xs j) in
      let size = length-set es 0 (slot es i) in
      let size' = length-set xs i (slot xs j) in
      let kept : slot ys 0 ≡ slot xs i =
        get_or-set_ne xs i 0 (slot xs j) d (omega arith)
        ∙ get_or-set_self es 0 (slot es i) d (omega arith)
        ∙ sym (get_or-set_ne es 0 i (slot es i) d (omega arith)) in
      rw
        (
          test_false i 0 (omega arith),
          test_false j 0 (omega arith),
          load-done es i d hi,
          store-done es 0 (slot es i) (omega arith),
          load-done xs j d (omega (arith, size)),
          store-done xs i (slot xs j) (omega (arith, size)),
          load-done ys 0 d (omega (arith, size, size')),
          store-done ys j (slot ys 0) (omega (arith, size, size')),
          kept,
        )
        refl

  pub take-set : (es : List A) (n i : ℕ) (v : A) → take n (set es i v) ≡ set (take n es) i v
  take-set es zero i v = refl
  take-set [] (suc n) i v = refl
  take-set (x ∷ es) (suc n) zero v = refl
  take-set (x ∷ es) (suc n) (suc i) v = ap (◌∷◌ x) (take-set es n i v)

  take-exchange :
      (es : List A) (n i j : ℕ)
      → i < n
      → j < n
      → take n (exchange el.zeroed es i j) ≡ exchange el.zeroed (take n es) i j
  take-exchange es n i j hi hj =
      rw
        (
          take-set (set es i (slot es j)) n j (slot es i),
          take-set es n i (slot es j),
          get_or-take n es i el.zeroed hi,
          get_or-take n es j el.zeroed hj,
        )
        refl

  exchange-tail :
      (es : List A) (v : A) (i j n : ℕ)
      → 0 < i
      → 0 < j
      → i ≤ n
      → j ≤ n
      → n < length es
      → Perm
          (drop 1 (take (suc n) (exchange el.zeroed (set es 0 v) i j)))
          (drop 1 (take (suc n) es))
  exchange-tail (x ∷ es) v (suc i) (suc j) n pi pj hi hj h =
      let long = length-take n es in
      subst (λ ys. Perm ys (take n es)) (sym (take-exchange es n i j (omega arith) (omega arith)))
        (exchange-perm el.zeroed (take n es) i j (omega (arith, long)) (omega (arith, long)))
  exchange-tail es v zero j n pi pj hi hj h = absurd (omega arith)
  exchange-tail es v i zero n pi pj hi hj h = absurd (omega arith)
  exchange-tail [] v (suc i) (suc j) n pi pj hi hj h = absurd (omega arith)

  pub swap-Swapped :
      (es : List A) (i j : ℕ)
      → 0 < i
      → 0 < j
      → i ≢ j
      → i < length es
      → j < length es
      → Ends (Swapped es i j) (swap es i j)
  swap-Swapped es i j pi pj ne hi hj =
      let xs = set es 0 (slot es i) in
      let size = length-set es 0 (slot es i) in
      let behind : (k : ℕ) → 0 < k → slot xs k ≡ slot es k =
        λ k p. get_or-set_ne es 0 k (slot es i) el.zeroed (omega arith) in
      let hi' : i < length xs = omega (arith, size) in
      let hj' : j < length xs = omega (arith, size) in
      rw (swap-exchange es i j pi pj hi hj) (
        ends (record {
          size = length-exchange el.zeroed xs i j ∙ size;
          perm = λ n a b c. exchange-tail es (slot es i) i j n pi pj a b c;
          left = get_or-exchange_left el.zeroed xs i j hi' hj' ne ∙ behind j pj;
          right = get_or-exchange_right el.zeroed xs i j hi' hj' ∙ behind i pi;
          other = λ k p a b. get_or-exchange_other el.zeroed xs i j hi' hj' k a b ∙ behind k p;
        }))

  module _ (ord : IsOrder A) where
    pub above_trans :
        (is_min : Bool) (a b c : A) → Above is_min a b → Above is_min b c → Above is_min a c
    above_trans true a b c h k = ord.trans a b c h k
    above_trans false a b c h k = ord.trans c b a k h

    pub above_refl : (is_min : Bool) (a : A) → Above is_min a a
    above_refl true a = ≼_refl ord a
    above_refl false a = ≼_refl ord a

    pub above_of_better : (is_min : Bool) (c b : A) → is_better is_min c b ≡ true → Above is_min c b
    above_of_better true c b h = ≼_of_cmp_lt c b h
    above_of_better false c b h = ≼_of_cmp_gt ord c b h

    pub above_of_not_better :
        (is_min : Bool) (c b : A) → is_better is_min c b ≡ false → Above is_min b c
    above_of_not_better true c b h = ≼_of_not-cmp_lt ord c b h
    above_of_not_better false c b h = ≼_of_not-cmp_gt c b h

    pub above_of_worse : (is_min : Bool) (p x : A) → is_worse is_min p x ≡ true → Above is_min x p
    above_of_worse true p x h = ≼_of_cmp_gt ord p x h
    above_of_worse false p x h = ≼_of_cmp_lt p x h

    pub above_of_not_worse :
        (is_min : Bool) (p x : A) → is_worse is_min p x ≡ false → Above is_min p x
    above_of_not_worse true p x h = ≼_of_not-cmp_gt p x h
    above_of_not_worse false p x h = ≼_of_not-cmp_lt ord p x h
