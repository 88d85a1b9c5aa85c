-- ===== src/Llist/Space.antt =====
-- The part of the application's memory that a list has: its entries in use.
use rcsw.Llist.{int_max, acquire}
use rcsw.Base.{
  ℕ, ◌<◌, ◌≡◌, refl, sym, ◌∙◌, Bool, true, false, ◌||◌, Option, some, List, [], ◌∷◌, ◌++◌, arith,
  ◌==◌, true-ne-false, store, Ends, Ends-map, length,
}
use rcsw.Allocm.{mark_free}
use rcsw.Llist.Pool.{Acquired, Marks, Marks-ext, acquire-Acquired, acquired, mem, release-Marks}

abbrev pub NoRepeat : List ℕ → Type 0
NoRepeat [] = Unit {0}
NoRepeat (a ∷ us) = (mem a us ≡ false) × NoRepeat us

pub mem-append : (a : ℕ) (us vs : List ℕ) → mem a (us ++ vs) ≡ (mem a us || mem a vs)
mem-append a [] vs = refl
mem-append a (u ∷ us) vs = ground (arith, mem-append a us vs)

pub NoRepeat-snoc : (us : List ℕ) (a : ℕ) → NoRepeat us → mem a us ≡ false → NoRepeat (us ++ a ∷ [])
NoRepeat-snoc [] a n h = (refl, tt)
NoRepeat-snoc (u ∷ us) a (out, n) h =
    (ground (arith, mem-append u us (a ∷ []), h, out), NoRepeat-snoc us a n (ground (arith, h)))

pub NoRepeat-middle :
    (us : List ℕ) (a : ℕ) (vs : List ℕ)
    → NoRepeat (us ++ a ∷ vs)
    → (mem a us ≡ false) × (mem a vs ≡ false) × NoRepeat (us ++ vs)
NoRepeat-middle [] a vs (out, n) = (refl, out, n)
NoRepeat-middle (u ∷ us) a vs (out, n) =
    let (o1, o2, n') = NoRepeat-middle us a vs n in
    let apart : (a == u) ≡ false = ground (arith, mem-append u us (a ∷ vs), out) in
    (
      ground (arith, o1, apart),
      o2,
      (ground (arith, mem-append u us (a ∷ vs), mem-append u us vs, out), n'),
    )

-- The part of the application's memory that a list has, if any: its entries in use are `us`.
pub record Pool (on : Bool) (entries : List (Option ℕ)) (limit : Option ℕ) (us : List ℕ)
    : Type 0 where
  pub capped : on ≡ true → limit ≡ some (int_max limit)
  pub marks : on ≡ true → Marks entries (int_max limit) (λ a. mem a us)
  pub no_repeat : on ≡ true → NoRepeat us

module _ {on : Bool} {entries : List (Option ℕ)} {limit : Option ℕ} where
  pub Pool-snoc :
      (us : List ℕ) (a : ℕ) → Pool on entries limit (a ∷ us) → Pool on entries limit (us ++ a ∷ [])
  Pool-snoc us a k = record {
    capped = k.capped;
    marks = λ o. Marks-ext (λ i. ground (arith, mem-append i us (a ∷ []))) (k.marks o);
    no_repeat = λ o. NoRepeat-snoc us a (k.no_repeat o).1 (k.no_repeat o).0;
  }

  pub Pool-off : (us vs : List ℕ) → on ≡ false → Pool on entries limit us → Pool on entries limit vs
  Pool-off us vs e k = record {
    capped = k.capped;
    marks = λ o. absurd (true-ne-false (sym o ∙ e));
    no_repeat = λ o. absurd (true-ne-false (sym o ∙ e));
  }

  -- After a search for a free entry, and after an entry has been given back.
  pub Pool-acquire :
      (us : List ℕ)
      → on ≡ true
      → Pool on entries limit us
      → length us < int_max limit
      → Ends
          (λ (r, entries').
            (a : ℕ) × (r ≡ some a) × (mem a us ≡ false) × Pool on entries' limit (a ∷ us))
          (acquire entries (int_max limit) (length us))
  Pool-acquire us o k few =
      Ends-map (acquire-Acquired (int_max limit) (λ a. mem a us) us (k.marks o) (λ i h. h) few)
        (λ r g. result r g)
    where
      result :
          (r : Option ℕ × List (Option ℕ))
          → Acquired (int_max limit) (λ a. mem a us) r
          → (a : ℕ) × (r.0 ≡ some a) × (mem a us ≡ false) × Pool on r.1 limit (a ∷ us)
      result r (acquired {i} out low m) = (
        i,
        refl,
        out,
        record {
          capped = k.capped;
          marks = λ o'. Marks-ext (λ j. ground arith) m;
          no_repeat = λ o'. (out, k.no_repeat o');
        },
      )

  pub Pool-release :
      (us : List ℕ) (a : ℕ) (vs : List ℕ)
      → on ≡ true
      → Pool on entries limit (us ++ a ∷ vs)
      → Ends (λ entries'. Pool on entries' limit (us ++ vs)) (store entries a mark_free)
  Pool-release us a vs o k =
      let (o1, o2, n) = NoRepeat-middle us a vs (k.no_repeat o) in
      Ends-map (release-Marks a (k.marks o) (ground (arith, mem-append a us (a ∷ vs))))
        (λ entries' m. record {
          capped = k.capped;
          marks = λ o'.
              Marks-ext
                (λ j.
                  ground (
                    arith,
                    mem-append j us (a ∷ vs),
                    mem-append j us vs,
                    o1,
                    o2,
                    mem-append a us vs,
                  ))
                m;
          no_repeat = λ o'. n;
        })
