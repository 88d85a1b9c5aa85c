-- ===== src/Darray/Grow.antt =====
-- When the dynamic array is well-formed, and what `realloc` makes of its block.
use rcsw.Base.{
  ℕ, ◌≤◌, ◌<◌, ◌≡◌, refl, sym, ◌∙◌, true, false, none, some, List, arith, eagain, enomem, ok, error,
  length, take, get_or-take, ext_get_or,
}
use rcsw.Darray.{Darray, Realloc, IsRealloc, extend}
use rcsw.Darray.Spec.{length-contents}

module _ {ℓ} {A : Type ℓ} where
  -- The slots are there, the elements in use fit them, and a cap is kept.
  pub record IsValid (a : Darray A) : Type 0 where
    pub slots : a.capacity ≤ length a.elements
    pub bound : a.current ≤ a.capacity
    pub capped : (m : ℕ) → a.max_elts ≡ some m → a.current ≤ m

  -- The elements in use are those of the old block.
  pub contents-realloc :
      (realloc : Realloc A)
      → IsRealloc realloc
      → (xs ys : List A) (m n : ℕ) (d : A) → realloc xs m ≡ some ys
      → n ≤ m
      → n ≤ length xs
      → take n ys ≡ take n xs
  contents-realloc realloc law xs ys m n d e h k =
      let old = length-contents xs n k in
      let new = length-contents ys n (omega (arith, law.size xs ys m e)) in
      ext_get_or (take n ys) (take n xs) d (new ∙ sym old) λ i b.
        let b' : i < n = omega (arith, b, new) in
        get_or-take n ys i d b'
        ∙ law.keeps xs ys m i d e (omega arith) (omega arith)
        ∙ sym (get_or-take n xs i d b')

  module _ (realloc : Realloc A) (a : Darray A) (n : ℕ) where
    pub extend-fixed : a.noalloc_data ≡ true → extend realloc a n ≡ (error eagain, a)
    unfolding extend
    extend-fixed q = simp q refl

    pub extend-starved :
        a.noalloc_data ≡ false
        → realloc a.elements n ≡ none
        → extend realloc a n ≡ (error enomem, record a { capacity = n })
    unfolding extend
    extend-starved q r = simp (q, r) refl

    pub extend-grown :
        a.noalloc_data ≡ false
        → (ys : List A) → realloc a.elements n ≡ some ys
        → extend realloc a n ≡ (ok, record a { elements = ys; capacity = n })
    unfolding extend
    extend-grown q ys r = simp (q, r) refl
