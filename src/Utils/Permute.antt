-- ===== src/Utils/Permute.antt =====
-- `arr32_permute` visits each arrangement once, and leaves the array as it was.
use rcsw.Base.{
  ◌≢◌, ℕ, zero, suc, ◌+◌, ◌-◌, ◌*◌, ◌≤◌, ◌<◌, ◌≡◌, refl, sym, ap, ◌∙◌, List, [], ◌∷◌, ◌++◌, Perm,
  arith, le→not-ltb, Exec, Ends, ends, Ends-bind, Ends-map, length, get_or, length-append,
  exchange-perm, exchange, length-exchange, get_or-exchange_other,
}
use mathlib.Core.Path.{subst}
use mathlib.Core.List.{append-nil, append_assoc}
use mathlib.Core.List.Perm
use rcsw.Utils.{permute_loop, permute_from, arr32_permute}
use rcsw.Utils.Orders.{
  Each, Apart, Each-append, Each-map, Apart-append, exchange_twice, arr32_elt_swap-exchange,
  exchange-at_left, IsDistinct, exchange-IsDistinct,
}

unfoldable pub factorial : ℕ → ℕ
factorial zero = 1
factorial (suc n) = suc n * factorial n

times : (left m : ℕ) → suc left * m ≡ m + left * m
times left m = grind arith

module _ {ℓ} {A : Type ℓ} where
  module _ (d : A) where
    -- The array again, and `count` more arrangements in front of `calls`, which agree with the array
    -- before `start` and are all different if the entries from there on are.
    record Rounds (start : ℕ) (arr : List A) (calls : List (List A)) (count : ℕ)
        (r : List A × List (List A)) : Type ℓ where
      restored : r.0 ≡ arr
      new : List (List A)
      log : r.1 ≡ new ++ calls
      many : length new ≡ count
      each : Each (λ v. Perm v arr) new
      fixed : Each (λ v. (k : ℕ) → k < start → get_or v k d ≡ get_or arr k d) new
      apart : IsDistinct d start arr → Apart new

    -- What `arr32_permute` does from `start` on: it leaves the array as it was, and calls its
    -- callback `count` times, each time with another arrangement of the array.
    pub record Visited (start : ℕ) (arr : List A) (count : ℕ) (r : List A × List (List A))
        : Type ℓ where
      pub restored : r.0 ≡ arr
      pub many : length r.1 ≡ count
      pub each : Each (λ v. Perm v arr) r.1
      pub fixed : Each (λ v. (k : ℕ) → k < start → get_or v k d ≡ get_or arr k d) r.1
      pub apart : Apart r.1

    -- The entry at `start` is one of those from `j` on.
    abbrev HasHead : (start j : ℕ) → (arr v : List A) → Type ℓ
    HasHead start j arr v =
        (m : ℕ) × (j ≤ m) × (m < length arr) × (get_or v start d ≡ get_or arr m d)

    heads-apart :
        (arr : List A) (start j : ℕ) (xs ys : List (List A))
        → IsDistinct d start arr
        → start ≤ j
        → Each (HasHead start (j + 1) arr) xs
        → Each (λ y. get_or y start d ≡ get_or arr j d) ys
        → Each (λ x. Each (λ y. x ≢ y) ys) xs
    heads-apart arr start j xs ys differ h p q =
        Each-map (HasHead start (j + 1) arr) (λ x. Each (λ y. x ≢ y) ys) xs
          (λ x (m, a, b, e).
            Each-map (λ y. get_or y start d ≡ get_or arr j d) (λ y. x ≢ y) ys
              (λ y f same.
                differ j m h (omega arith) b (sym f ∙ ap (λ v. get_or v start d) (sym same) ∙ e))
              q)
          p

    module _ (n m start : ℕ) (inner : List A → List (List A) → Exec (List A × List (List A)))
        (visit : (arr : List A) (calls : List (List A))
          → length arr ≡ n
          → Ends (Rounds (start + 1) arr calls m) (inner arr calls)) where
      -- What the rounds of the loop from `j` on leave.
      abbrev Tail : (left j : ℕ) → (arr : List A) → List (List A) → List A × List (List A) → Type ℓ
      Tail left j arr calls r =
          (w : Rounds start arr calls (left * m) r) × Each (HasHead start j arr) w.new

      module _ (left j : ℕ) (arr : List A) (s : start ≤ j) (q : j < length arr)
          (calls : List (List A)) {arr2 : List A} {calls' : List (List A)}
          (v : Rounds (start + 1) (exchange d arr start j) calls m (arr2, calls'))
          {r : List A × List (List A)} (w : Tail left (j + 1) arr calls' r) where
        abbrev ws : List (List A)
        ws = w.0.new

        p : start < length arr
        p = omega arith

        unmoved :
            (u : List A) (k : ℕ)
            → k < start
            → ((k : ℕ) → k < start + 1 → get_or u k d ≡ get_or (exchange d arr start j) k d)
            → get_or u k d ≡ get_or arr k d
        unmoved u k b f =
            f k (omega arith)
            ∙ get_or-exchange_other d arr start j p q k (λ e. omega (arith, e, b))
                (λ e. omega (arith, e, b, s))

        head-swapped : Each (λ u. get_or u start d ≡ get_or arr j d) v.new
        head-swapped =
            Each-map
              (λ u. (k : ℕ) → k < start + 1 → get_or u k d ≡ get_or (exchange d arr start j) k d)
              (λ u. get_or u start d ≡ get_or arr j d) v.new
              (λ u f. f start (omega arith) ∙ exchange-at_left d arr start j p q) v.fixed

        add-round : Tail (suc left) j arr calls r
        add-round = (
          record {
            restored = w.0.restored;
            new = ws ++ v.new;
            log = w.0.log ∙ ap (λ cs. ws ++ cs) v.log ∙ sym (append_assoc ws v.new calls);
            many = omega (arith, length-append ws v.new, w.0.many, v.many, times left m);
            each =
                Each-append (λ u. Perm u arr) ws v.new w.0.each
                  (Each-map (λ u. Perm u (exchange d arr start j)) (λ u. Perm u arr) v.new
                    (λ u e. Perm.trans e (exchange-perm d arr start j p q)) v.each);
            fixed =
                Each-append (λ u. (k : ℕ) → k < start → get_or u k d ≡ get_or arr k d) ws v.new
                  w.0.fixed
                  (Each-map
                    (λ u.
                      (k : ℕ) → k < start + 1 → get_or u k d ≡ get_or (exchange d arr start j) k d)
                    (λ u. (k : ℕ) → k < start → get_or u k d ≡ get_or arr k d) v.new
                    (λ u f k b. unmoved u k b f) v.fixed);
            apart = λ differ.
                Apart-append ws v.new (w.0.apart differ)
                  (v.apart (exchange-IsDistinct d arr start j s q differ))
                  (heads-apart arr start j ws v.new differ s w.1 head-swapped);
          },
          Each-append (HasHead start j arr) ws v.new
              (Each-map (HasHead start (j + 1) arr) (HasHead start j arr) ws
                (λ u (k, a, b, e). (k, omega arith, b, e)) w.1)
              (Each-map (λ u. get_or u start d ≡ get_or arr j d) (HasHead start j arr) v.new
                (λ u e. (j, omega arith, q, e)) head-swapped),
        )

      permute_loop-Tail :
          (left : ℕ) (arr : List A) (j : ℕ) (calls : List (List A))
          → length arr ≡ n
          → start ≤ j
          → j + left ≡ n
          → Ends (Tail left j arr calls) (permute_loop inner left arr start j calls)
      unfolding permute_loop Each Apart
      permute_loop-Tail zero arr j calls l s e = ends (
        record {
          restored = refl;
          new = [];
          log = refl;
          many = omega arith;
          each = tt;
          fixed = tt;
          apart = λ differ. tt;
        },
        tt,
      )
      permute_loop-Tail (suc left) arr j calls l s e =
          let p : start < length arr = omega arith in
          let q : j < length arr = omega arith in
          let swapped = exchange d arr start j in
          let l1 = length-exchange d arr start j in
          rw (arr32_elt_swap-exchange d arr start j p q) (
            Ends-bind (visit swapped calls (l1 ∙ l)) λ (arr2, calls') v.
              rw
                (
                  v.restored,
                  arr32_elt_swap-exchange d swapped start j (omega (arith, l1)) (omega (arith, l1)),
                  exchange_twice d arr start j p q,
                )
                (Ends-map (permute_loop-Tail left arr (j + 1) calls' l (omega arith) (omega arith))
                  λ r w. add-round left j arr s q calls v w))

    permute_from-Rounds :
        (rest start : ℕ) (arr : List A) (calls : List (List A))
        → start + rest ≡ length arr
        → Ends (Rounds start arr calls (factorial rest)) (permute_from rest start arr calls)
    unfolding permute_from factorial Each Apart
    permute_from-Rounds zero start arr calls e = ends (record {
      restored = refl;
      new = arr ∷ [];
      log = refl;
      many = refl;
      each = (Perm.refl arr, tt);
      fixed = (λ k b. refl, tt);
      apart = λ differ. (tt, tt);
    })
    permute_from-Rounds (suc rest) start arr calls e =
        Ends-map
          (permute_loop-Tail (length arr) (factorial rest) start (permute_from rest (start + 1))
            (λ arr' calls' l. permute_from-Rounds rest (start + 1) arr' calls' (omega (arith, l)))
            (suc rest) arr start calls refl (omega arith) (omega arith))
          λ r w. w.0

    -- `arr32_permute` from a place of an array up to its end, where the entries are all different,
    -- ends without a fault and leaves the array as it was. It calls its callback as many times as
    -- the factorial of the number of entries from the place on: each time with the entries of the array in
    -- another order, those before the place where they were.
    pub arr32_permute-Visited :
        (arr : List A) (start : ℕ)
        → start ≤ length arr
        → IsDistinct d start arr
        → Ends
            (Visited start arr (factorial (length arr - start)))
            (arr32_permute arr (length arr) start)
    unfolding arr32_permute
    arr32_permute-Visited arr start h differ = rw (le→not-ltb (length arr) start h) (
        Ends-map (permute_from-Rounds (length arr - start) start arr [] (omega arith)) λ r w.
          let all : r.1 ≡ w.new = w.log ∙ append-nil w.new in
          record {
            restored = w.restored;
            many = ap length all ∙ w.many;
            each = subst (Each (λ v. Perm v arr)) (sym all) w.each;
            fixed =
                subst (Each (λ v. (k : ℕ) → k < start → get_or v k d ≡ get_or arr k d)) (sym all)
                  w.fixed;
            apart = subst Apart (sym all) (w.apart differ);
          })
