-- ===== src/Nodes/Mergesort.antt =====
-- The halves that the mergesort cuts a list into, and what it means that nodes are sorted.
use rcsw.Base.{
  ℕ, zero, suc, ◌+◌, ◌/◌, ◌≤◌, ◌<◌, ◌≡◌, refl, sym, ◌∙◌, Option, none, List, [], ◌∷◌, ◌++◌, arith,
  Ends, ends, Ends-map, Element, length, length-append,
}
use mathlib.Core.Path.{subst}
use mathlib.Core.List.Perm
use mathlib.Core.List.{append_assoc}
use rcsw.Nodes.{Heap, find_half}
use rcsw.Nodes.Chain.{Cell, head_or, last_or, last_or-append, Chain, SameOutside}
use rcsw.Nodes.Relink.{load_node-done}
use rcsw.Nodes.Nexts.{Nexts}
use rcsw.Nodes.Merged.{Sorts}

pub head_or-snoc {ℓ} :
    {A : Type ℓ} (ys : List (Cell A)) (y : Cell A) (d d' : Option ℕ)
    → head_or (ys ++ y ∷ []) d ≡ head_or (ys ++ y ∷ []) d'
head_or-snoc [] y d d' = refl
head_or-snoc (x ∷ ys) y d d' = refl

module _ {ℓ} {A : Type ℓ} ⦃el : Element A⦄ where
  -- The two halves that `find_half` finds: the first is not the longer one.
  pub data Halves (xs : List (Cell A)) (d : Option ℕ) (least : ℕ)
      : Option ℕ × Option ℕ → Type ℓ where
    halves :
        (us rs : List (Cell A))
        → xs ≡ us ++ rs
        → least ≤ length us
        → length us ≤ length rs
        → Halves xs d least (last_or us d, head_or rs none)

  pub find_half-Halves :
      (fuel : ℕ) (h : Heap A) (us rs ts : List (Cell A)) (d : Option ℕ)
      → length ts < fuel
      → length rs ≡ length us + length ts
      → Nexts h rs none
      → Nexts h ts none
      → Ends
          (Halves (us ++ rs) d (length us + length ts / 2))
          (find_half fuel h (last_or us d) (head_or rs none) (head_or ts none))
  unfolding find_half
  find_half-Halves zero h us rs ts d f n k l = absurd (omega arith)
  find_half-Halves (suc fuel) h us rs [] d f n k l =
      ends (halves us rs refl (omega arith) (omega arith))
  find_half-Halves (suc fuel) h us rs (t ∷ []) d f n k l =
      rw (load_node-done h t.at _ l.0.1) (ends (halves us rs refl (omega arith) (omega arith)))
  find_half-Halves (suc fuel) h us [] (t ∷ t2 ∷ ts) d f n k l = absurd (omega arith)
  find_half-Halves (suc fuel) h us (r ∷ rs) (t ∷ t2 ∷ ts) d f n k l =
      let rest : Ends (Halves ((us ++ r ∷ []) ++ rs) d (length (us ++ r ∷ []) + length ts / 2))
          (find_half fuel h (last_or (us ++ r ∷ []) d) (head_or rs none) (head_or ts none)) =
        find_half-Halves fuel h (us ++ r ∷ []) rs ts d (omega arith)
          (omega (arith, length-append us (r ∷ []))) k.1 l.1.1 in
      rw
        (
          load_node-done h t.at _ l.0.1,
          load_node-done h r.at _ k.0.1,
          load_node-done h t2.at _ l.1.0.1,
        )
        (subst
          (λ z.
            Ends (Halves (us ++ r ∷ rs) d (length us + length (t ∷ t2 ∷ ts) / 2))
              (find_half fuel h z (head_or rs none) (head_or ts none)))
          (last_or-append us (r ∷ []) d) (Ends-map rest (λ z w. wider z w)))
    where
      wider :
          (z : Option ℕ × Option ℕ)
          → Halves ((us ++ r ∷ []) ++ rs) d (length (us ++ r ∷ []) + length ts / 2) z
          → Halves (us ++ r ∷ rs) d (length us + length (t ∷ t2 ∷ ts) / 2) z
      wider z (halves vs ws e p q) =
          halves vs ws (sym (append_assoc us (r ∷ []) rs) ∙ e)
            (omega (arith, p, length-append us (r ∷ []))) q

  -- `ys` has the nodes of `xs`, in ascending order and linked forward from `p`; where there are two or
  -- more, backward too. No other node has changed.
  pub record SortedAt (h : Heap A) (xs : List (Cell A)) (out : Heap A × Option ℕ) : Type ℓ where
    pub cells : List (Cell A)
    pub sorts : Sorts xs cells
    pub top : out.1 ≡ head_or cells none
    pub nexts : Nexts out.0 cells none
    pub chain : 2 ≤ length xs → Chain out.0 none cells none
    pub outside : SameOutside xs h out.0

  pub Sorts-nil : Sorts {A = A} [] []
  Sorts-nil = record {
    perm = Perm.nil;
    same_nodes = λ a. refl;
    distinct = λ e. e;
    ascending = tt;
    count = refl;
    same_keys = λ f a. refl;
    unrepeated = λ f u. u;
  }

  pub Sorts-refl : (c : Cell A) → Sorts (c ∷ []) (c ∷ [])
  Sorts-refl c = record {
    perm = Perm.refl (c ∷ []);
    same_nodes = λ a. refl;
    distinct = λ d. d;
    ascending = (tt, tt);
    count = refl;
    same_keys = λ f a. refl;
    unrepeated = λ f u. u;
  }
