-- ===== src/Sort/Iter.antt =====
-- `qsort_iter`: the pending stretches fit the stack, and the array is sorted when it is empty.
use rcsw.Base.{
  ℕ, zero, suc, ◌+◌, ◌-◌, ◌≤◌, ◌<◌, ◌≡◌, refl, sym, ap, ◌∙◌, ◌⊎◌, inl, inr, List, [], ◌∷◌, arith,
  lt-or-le, lt→ltb, le→not-ltb, done, Ends, ends, Ends-inv, Element, IsOrder, length,
}
use mathlib.Core.Path.{subst}
use rcsw.Sort.{partition, push_stack, push_range, qsort_iter_loop, qsort_iter}
use rcsw.Sort.Parting.{Partitioned, partition-Partitioned}
use rcsw.Sort.Sides.{sides-SortsOn}
use rcsw.Sort.Qsort.{SortsOn, short-SortsOn}

-- What a push of a stretch leaves on the stack: the stretch, if it is longer than one element.
record Pushed (size : ℕ) (stack : List ℕ) (lo hi : ℕ) : Type 0 where
  after : List ℕ
  ran : push_range size stack lo hi ≡ done after
  shape : ((lo < hi) × (after ≡ hi ∷ lo ∷ stack)) ⊎ ((hi ≤ lo) × (after ≡ stack))

push_range-Pushed :
    (size : ℕ) (stack : List ℕ) (lo hi : ℕ)
    → (lo < hi → length stack + 2 ≤ size)
    → Pushed size stack lo hi
unfolding push_range push_stack
push_range-Pushed size stack lo hi room = elim (lt-or-le lo hi) [
  | inl h ↦
      let first = lt→ltb (length stack) size (omega (arith, room h)) in
      let second = lt→ltb (suc (length stack)) size (omega (arith, room h)) in
      record {
        after = hi ∷ lo ∷ stack;
        ran = rw (lt→ltb lo hi h, first, second) refl;
        shape = inl (h, refl);
      }
  | inr h ↦ record { after = stack; ran = rw (le→not-ltb lo hi h) refl; shape = inr (h, refl) }
]

Pushed-room :
    {size : ℕ} {stack : List ℕ} {lo hi : ℕ} (p : Pushed size stack lo hi) (n : ℕ)
    → (lo < hi → length stack + 2 + n ≤ size)
    → length stack + n ≤ size
    → length p.after + n ≤ size
Pushed-room p n long short = elim p.shape [
  | inl (h, e) ↦ omega (arith, long h, ap length e)
  | inr (h, e) ↦ omega (arith, ap length e)
]

module _ {ℓ} {A : Type ℓ} ⦃el : Element A⦄ where
  -- The rounds from the stack `from` to the stack `to` have sorted a stretch, with a fuel to spare
  -- for each of its elements but one.
  record Swept (size fuel : ℕ) (arr : List A) (from to : List ℕ) (lo hi : ℕ) : Type ℓ where
    out : List A
    rest : ℕ
    sorted : SortsOn lo hi arr out
    spent : fuel ≤ rest + (hi - lo)
    same : qsort_iter_loop fuel size arr from ≡ qsort_iter_loop rest size out to

  -- One round whose partition and pushes are known.
  loop-step :
      (fuel size lo hi q : ℕ) (arr arr1 : List A) (stack s1 s2 : List ℕ)
      → partition arr lo hi ≡ done (arr1, q)
      → push_range size stack lo (q - 1) ≡ done s1
      → push_range size s1 (q + 1) hi ≡ done s2
      → qsort_iter_loop (suc fuel) size arr (hi ∷ lo ∷ stack) ≡ qsort_iter_loop fuel size arr1 s2
  unfolding qsort_iter_loop
  loop-step fuel size lo hi q arr arr1 stack s1 s2 a b c = rw (a, b, c) refl

  module _ (ord : IsOrder A) where
    -- Such a round, with both sides swept after it.
    round-Swept :
        (size fuel lo hi q : ℕ) (arr arr1 : List A) (stack s1 s2 : List ℕ)
        (p : Partitioned arr lo hi (arr1, q))
        → partition arr lo hi ≡ done (arr1, q)
        → push_range size stack lo (q - 1) ≡ done s1
        → push_range size s1 (q + 1) hi ≡ done s2
        → lo < hi
        → (right : Swept size fuel arr1 s2 s1 (q + 1) hi)
        → Swept size right.rest right.out s1 stack lo (q - 1)
        → Swept size (suc fuel) arr (hi ∷ lo ∷ stack) stack lo hi
    round-Swept size fuel lo hi q arr arr1 stack s1 s2 p a b c h right left = record {
      out = left.out;
      rest = left.rest;
      sorted = sides-SortsOn ord lo hi q arr arr1 right.out left.out p right.sorted left.sorted;
      spent = omega (arith, right.spent, left.spent, p.pivot_in.0, p.pivot_in.1);
      same = loop-step fuel size lo hi q arr arr1 stack s1 s2 a b c ∙ right.same ∙ left.same;
    }

    -- After a push: nothing to do for a short stretch.
    Pushed-Swept :
        (size fuel : ℕ) (arr : List A) (stack : List ℕ) (lo hi : ℕ) (p : Pushed size stack lo hi)
        → (lo < hi → Swept size fuel arr (hi ∷ lo ∷ stack) stack lo hi)
        → Swept size fuel arr p.after stack lo hi
    Pushed-Swept size fuel arr stack lo hi p sweep = elim p.shape [
      | inl (h, e) ↦ subst (λ s. Swept size fuel arr s stack lo hi) (sym e) (sweep h)
      | inr (h, e) ↦ record {
        out = arr;
        rest = fuel;
        sorted = short-SortsOn ord arr lo hi h;
        spent = omega arith;
        same = ap (qsort_iter_loop fuel size arr) e;
      }
    ]

    -- A stretch of at least two elements, with a free slot for each of them.
    sweep :
        (width size fuel : ℕ) (arr : List A) (stack : List ℕ) (lo hi : ℕ)
        → hi - lo ≤ width
        → hi - lo ≤ fuel
        → lo < hi
        → hi < length arr
        → length stack + (hi - lo + 1) ≤ size
        → Swept size fuel arr (hi ∷ lo ∷ stack) stack lo hi
    sweep zero size fuel arr stack lo hi w f h long room = absurd (omega arith)
    sweep width size zero arr stack lo hi w f h long room = absurd (omega arith)
    sweep (suc width) size (suc fuel) arr stack lo hi w f h long room =
        let ((arr1, q), parted, p) =
          Ends-inv (partition-Partitioned ord arr lo hi (omega arith) long) in
        let below = push_range-Pushed size stack lo (q - 1) (λ c. omega (arith, p.pivot_in.1)) in
        let space : length below.after + (hi - q) ≤ size =
          Pushed-room below (hi - q) (λ c. omega (arith, p.pivot_in.1))
            (omega (arith, p.pivot_in.0)) in
        let above = push_range-Pushed size below.after (q + 1) hi (λ c. omega arith) in
        let size1 = p.kept.size in
        let right = Pushed-Swept size fuel arr1 below.after (q + 1) hi above (λ c.
          sweep width size fuel arr1 below.after (q + 1) hi (omega (arith, p.pivot_in.0))
            (omega (arith, p.pivot_in.0)) c (omega (arith, size1)) (omega (arith, space))) in
        let left = Pushed-Swept size right.rest right.out stack lo (q - 1) below (λ c.
          sweep width size right.rest right.out stack lo (q - 1) (omega (arith, p.pivot_in.1))
            (omega (arith, p.pivot_in.1, right.spent)) c
            (omega (arith, size1, right.sorted.0.size, p.pivot_in.1))
            (omega (arith, p.pivot_in.1))) in
        round-Swept size fuel lo hi q arr arr1 stack below.after above.after p parted below.ran
          above.ran h right left

    emptied :
        (size : ℕ) (arr : List A) (fuel : ℕ)
        → 0 < fuel
        → qsort_iter_loop fuel size arr [] ≡ done arr
    unfolding qsort_iter_loop
    emptied size arr zero h = absurd (omega arith)
    emptied size arr (suc fuel) h = refl

    end_of_loop :
        {max_index : ℕ} {arr : List A}
        (s : Swept (max_index + 1) (suc (suc max_index)) arr (max_index ∷ 0 ∷ []) [] 0 max_index)
        → qsort_iter_loop (suc (suc max_index)) (max_index + 1) arr (max_index ∷ 0 ∷ [])
          ≡ done s.out
    unfolding qsort_iter_loop
    end_of_loop {max_index} s = s.same ∙ emptied _ _ s.rest (omega (arith, s.spent))

    -- With a comparison that is an order, at least two elements and the last index inside the array,
    -- `qsort_iter` ends, and its stack of one entry for each element never overflows; the
    -- array is then in order, and holds the elements that it held.
    pub qsort_iter-SortsOn :
        (arr : List A) (max_index : ℕ)
        → 0 < max_index
        → max_index < length arr
        → Ends (SortsOn 0 max_index arr) (qsort_iter arr max_index)
    unfolding qsort_iter push_stack
    qsort_iter-SortsOn arr max_index h long =
        let s =
          sweep max_index (max_index + 1) (suc (suc max_index)) arr [] 0 max_index (omega arith)
            (omega arith) h long (omega arith) in
        rw
          (
            lt→ltb 0 (max_index + 1) (omega arith),
            lt→ltb 1 (max_index + 1) (omega arith),
            end_of_loop s,
          )
          (ends s.sorted)
