-- ===== src/Nodes/Merge.antt =====
-- One round of the merge: a node of one of the rests goes to the end of what has been merged.
use rcsw.Base.{
  ℕ, ◌≡◌, refl, sym, ap, ◌∙◌, ◌⊎◌, inl, inr, true, false, ◌||◌, Option, none, some, List, [], ◌∷◌,
  ◌++◌, arith, ◌==◌, Bool-cases, Nat-cases, true-ne-false, Ends, ends,
}
use mathlib.Core.Path.{subst}
use rcsw.Nodes.{Heap, write, is_null, attach}
use rcsw.Nodes.Chain.{
  Cell, has, has-append, head_or, last_or, last_or-append, node_of, Chain, Distinct,
  Distinct-append, Apart, snoc-cases, write-at, write-other, frame-write, Chain-append,
}
use rcsw.Nodes.Relink.{set_prev-done, with_next, set_next-last, Chain-with_next}
use rcsw.Nodes.Nexts.{Nexts, Nexts-write}

module _ {ℓ} {A : Type ℓ} where
  -- `out` has been merged, with both links up to its last node, whose forward link still leads
  -- into one of the rests `ls` and `rs`.
  pub record Merging (h : Heap A) (out ls rs : List (Cell A)) : Type ℓ where
    pub stale : Option ℕ
    pub leads : (stale ≡ head_or ls none) ⊎ (stale ≡ head_or rs none)
    pub chain : Chain h none out stale
    pub left : Nexts h ls none
    pub right : Nexts h rs none
    pub d_out : Distinct out
    pub d_left : Distinct ls
    pub d_right : Distinct rs
    pub out_left : Apart out ls
    pub out_right : Apart out rs
    pub sides : Apart ls rs

  pub Apart-sym : (xs ys : List (Cell A)) → Apart xs ys → Apart ys xs
  Apart-sym xs ys k a h = elim (Bool-cases (has a xs)) [
    | inl e ↦ absurd (true-ne-false (sym h ∙ k a e))
    | inr e ↦ e
  ]

  pub Merging-sym :
      {h : Heap A} {out ls rs : List (Cell A)} → Merging h out ls rs → Merging h out rs ls
  Merging-sym {h} {out} {ls} {rs} m = record {
    stale = m.stale;
    leads = elim m.leads [ inl e ↦ inr e | inr e ↦ inl e ];
    chain = m.chain;
    left = m.right;
    right = m.left;
    d_out = m.d_out;
    d_left = m.d_right;
    d_right = m.d_left;
    out_left = m.out_right;
    out_right = m.out_left;
    sides = Apart-sym ls rs m.sides;
  }

  -- Only the nodes of the three stretches change.
  abbrev pub Untouched : (out ls rs : List (Cell A)) → Heap A → Heap A → Type ℓ
  Untouched out ls rs h g =
      (a : ℕ) → has a out ≡ false → has a ls ≡ false → has a rs ≡ false → g a ≡ h a

  not_null : (ws : List (Cell A)) (w : Cell A) → is_null (head_or (ws ++ w ∷ []) none) ≡ false
  not_null [] w = refl
  not_null (x ∷ ws) w = refl

  head_or-stays :
      (ws : List (Cell A)) (w c : Cell A)
      → head_or (ws ++ w ∷ []) none ≡ head_or ((ws ++ w ∷ []) ++ c ∷ []) none
  head_or-stays [] w c = refl
  head_or-stays (x ∷ ws) w c = refl

  here : (a : ℕ) (xs : List (Cell A)) → ((a == a) || has a xs) ≡ true
  here a xs = ground arith

  module _ (c : Cell A) (ls rs : List (Cell A)) where
    not_out : (out : List (Cell A)) → Apart out (c ∷ ls) → has c.at out ≡ false
    not_out out k = Apart-sym out (c ∷ ls) k c.at (here c.at ls)

    -- The node `c` goes from a rest to the end of what has been merged.
    abbrev Attached : (h : Heap A) (out : List (Cell A)) → Heap A × Option ℕ → Type ℓ
    Attached h out (g, r) =
        (r ≡ head_or (out ++ c ∷ []) none)
        × Merging g (out ++ c ∷ []) ls rs
        × Untouched out (c ∷ ls) rs h g

    moved :
        (h g : Heap A) (out : List (Cell A))
        → Merging h out (c ∷ ls) rs
        → Chain g none (out ++ c ∷ []) (head_or ls none)
        → Nexts g ls none
        → Nexts g rs none
        → Merging g (out ++ c ∷ []) ls rs
    moved h g out m k l r = record {
      stale = head_or ls none;
      leads = inl refl;
      chain = k;
      left = l;
      right = r;
      d_out =
          Distinct-append out (c ∷ []) m.d_out (refl, tt) (λ a e. ground (arith, m.out_left a e));
      d_left = m.d_left.1;
      d_right = m.d_right;
      out_left = λ a e. elim (Nat-cases a c.at) [
        | inl s ↦ subst (λ b. has b ls ≡ false) (sym s) m.d_left.0
        | inr s ↦ ground (arith, s, e, has-append a out (c ∷ []), m.out_left a)
      ];
      out_right = λ a e. elim (Nat-cases a c.at) [
        | inl s ↦ subst (λ b. has b rs ≡ false) (sym s) (m.sides c.at (here c.at ls))
        | inr s ↦ m.out_right a (ground (arith, s, e, has-append a out (c ∷ [])))
      ];
      sides = λ a e. m.sides a (ground (arith, e));
    }

    attach-first :
        (h : Heap A)
        → Merging h [] (c ∷ ls) rs
        → Ends (Attached h []) (attach h (some c.at) none none true)
    unfolding attach
    attach-first h m =
        let (p, e) = m.left.0 in
        let g = write h c.at (some (node_of c (head_or ls none) none)) in
        rw (set_prev-done h c.at none _ e) (
          ends (
            refl,
            moved h g [] m (write-at h c.at _, tt)
                (Nexts-write h c.at _ ls none m.left.1 m.d_left.0)
                (Nexts-write h c.at _ rs none m.right (m.sides c.at (here c.at ls))),
            λ a o n o'. write-other h c.at a _ (ground (arith, n)),
          ))

    attach-last :
        (h : Heap A) (ws : List (Cell A)) (w : Cell A)
        → Merging h (ws ++ w ∷ []) (c ∷ ls) rs
        → Ends
            (Attached h (ws ++ w ∷ []))
            (attach h (some c.at) (head_or (ws ++ w ∷ []) none) (some w.at) true)
    unfolding attach
    attach-last h ws w m =
        let (p, e) = m.left.0 in
        let out = ws ++ w ∷ [] in
        let h1 = with_next h none ws w (some c.at) in
        let n-out : has c.at out ≡ false = not_out out m.out_left in
        let apart : (c.at == w.at) ≡ false = ground (arith, has-append c.at ws (w ∷ []), n-out) in
        let w-in : has w.at out ≡ true = ground (arith, has-append w.at ws (w ∷ [])) in
        let w-left : has w.at (c ∷ ls) ≡ false = m.out_left w.at w-in in
        let e1 : h1 c.at ≡ some (node_of c (head_or ls none) p) =
          write-other h w.at c.at _ apart ∙ e in
        let g = write h1 c.at (some (node_of c (head_or ls none) (some w.at))) in
        rw
          (
            not_null ws w,
            set_next-last h none ws w m.stale (some c.at) m.chain,
            set_prev-done h1 c.at (some w.at) _ e1,
          )
          (ends (
            head_or-stays ws w c,
            moved h g out m
                (Chain-append g none out (c ∷ []) (head_or ls none)
                  (frame-write h1 c.at _ none out (some c.at)
                    (Chain-with_next h none ws w m.stale (some c.at) m.chain m.d_out) n-out)
                  (
                    write-at h1 c.at _
                        ∙ ap (λ z. some (node_of c (head_or ls none) z))
                            (sym (last_or-append ws (w ∷ []) none)),
                    tt,
                  ))
                (Nexts-write h1 c.at _ ls none
                  (Nexts-write h w.at _ ls none m.left.1 (ground (arith, w-left))) m.d_left.0)
                (Nexts-write h1 c.at _ rs none
                  (Nexts-write h w.at _ rs none m.right (m.out_right w.at w-in))
                  (m.sides c.at (here c.at ls))),
            λ a o n o'.
                write-other h1 c.at a _ (ground (arith, n))
                ∙ write-other h w.at a _ (ground (arith, has-append a ws (w ∷ []), o)),
          ))

    pub attach-Attached :
        (h : Heap A) (out : List (Cell A))
        → Merging h out (c ∷ ls) rs
        → Ends (Attached h out) (attach h (some c.at) (head_or out none) (last_or out none) true)
    attach-Attached h out = elim (snoc-cases out) [
      | inl e ↦
          subst
            (λ o.
              Merging h o (c ∷ ls) rs
              → Ends (Attached h o) (attach h (some c.at) (head_or o none) (last_or o none) true))
            (sym e) (attach-first h)
      | inr (ws, w, e) ↦
          subst
            (λ o.
              Merging h o (c ∷ ls) rs
              → Ends (Attached h o) (attach h (some c.at) (head_or o none) (last_or o none) true))
            (sym e)
            (λ m.
              subst
                (λ t.
                  Ends (Attached h (ws ++ w ∷ []))
                    (attach h (some c.at) (head_or (ws ++ w ∷ []) none) t true))
                (sym (last_or-append ws (w ∷ []) none)) (attach-last h ws w m))
    ]
