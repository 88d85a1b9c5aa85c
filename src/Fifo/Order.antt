-- ===== src/Fifo/Order.antt =====
-- First in, first out: nothing that a FIFO accepts is lost, repeated or reordered.
use rcsw.Base.{
  ℕ, ◌^◌, ◌<◌, ◌≡◌, refl, sym, ap, ◌∙◌, inl, inr, Bool, true, false, Option, none, some, List, [],
  ◌∷◌, ◌++◌, arith, ◌==◌, Bool-cases, lt→ltb, Exec, done, ◌>>=◌, Ends, ends, Ends-bind, Ends-map,
  Status, ok, error, alloc, length,
}
use mathlib.Core.Path.{subst}
use rcsw.Fifo.{Fifo, Params, made, init, add, remove}
use rcsw.Rbuffer.{Rbuffer}
use rcsw.Rbuffer as Ring
use rcsw.Rbuffer.Inv.{IsValid}
use rcsw.Rbuffer.Refine.{contents, contents-empty, add_refines, remove_refines}
use rcsw.Rbuffer.Queue

-- A call of a client that reads what it removes.
pub data Call {ℓ} (A : Type ℓ) : Type ℓ where
  put : A → Call A
  take_one : Call A

module _ {ℓ} {A : Type ℓ} where
  -- The log of accepted elements, and of removed ones.
  unfoldable pub accept : Status → A → List A → List A
  accept ok e log = e ∷ log
  accept (error n) e log = log

  unfoldable pub taken : Option A → List A → List A
  taken none log = log
  taken (some x) log = x ∷ log

  -- A sequence of calls: the elements accepted, the elements removed, and the FIFO.
  unfoldable pub run_calls : Fifo A → List (Call A) → Exec (List A × List A × Fifo A)
  run_calls fifo [] = done ([], [], fifo)
  run_calls fifo (put e ∷ cs) = do
    (st, fifo') ← add fifo e
    (ins, outs, end) ← run_calls fifo' cs
    done (accept st e ins, outs, end)
  run_calls fifo (take_one ∷ cs) = do
    (st, out, fifo') ← remove fifo true
    (ins, outs, end) ← run_calls fifo' cs
    done (ins, taken out outs, end)

  append_assoc : (xs ys zs : List A) → (xs ++ ys) ++ zs ≡ xs ++ (ys ++ zs)
  append_assoc [] ys zs = refl
  append_assoc (x ∷ xs) ys zs = ap (◌∷◌ x) (append_assoc xs ys zs)

  append_nil : (xs : List A) → xs ++ [] ≡ xs
  append_nil [] = refl
  append_nil (x ∷ xs) = ap (◌∷◌ x) (append_nil xs)

  push-accept :
      (cap : ℕ) (q : List A) (e : A) (log : List A)
      → q ++ accept (Queue.push true cap q e).0 e log ≡ (Queue.push true cap q e).1 ++ log
  unfolding Queue.push accept
  push-accept cap q e log = elim (Bool-cases (length q == cap)) [
    | inl h ↦ rw h refl
    | inr h ↦ rw h (sym (append_assoc q (e ∷ []) log))
  ]

  pop-taken :
      (q log z c : List A)
      → (Queue.pop true q).2 ++ log ≡ z ++ c
      → q ++ log ≡ taken (Queue.pop true q).1 z ++ c
  unfolding Queue.pop taken
  pop-taken [] log z c h = h
  pop-taken (x ∷ q) log z c h = ap (◌∷◌ x) h

  module _ (d : A) where
    add-push :
        (fifo : Fifo A) (e : A)
        → IsValid fifo.rb
        → fifo.rb.as_fifo ≡ true
        → Ends
            (λ r.
              ((r.0, contents d r.1.rb) ≡ Queue.push true fifo.rb.max_elts (contents d fifo.rb) e)
              × IsValid r.1.rb
              × (r.1.rb.as_fifo ≡ true))
            (add fifo e)
    unfolding add
    add-push fifo e v f = Ends-bind (add_refines d e v) λ (st, rb) (same, valid, cap, mode). ends (
      subst (λ b. (st, contents d rb) ≡ Queue.push b fifo.rb.max_elts (contents d fifo.rb) e) f
          same,
      valid,
      mode ∙ f,
    )

    remove-pop :
        (fifo : Fifo A)
        → IsValid fifo.rb
        → fifo.rb.as_fifo ≡ true
        → Ends
            (λ r.
              ((r.0, r.1, contents d r.2.rb) ≡ Queue.pop true (contents d fifo.rb))
              × IsValid r.2.rb
              × (r.2.rb.as_fifo ≡ true))
            (remove fifo true)
    unfolding remove
    remove-pop fifo v f =
        Ends-bind (remove_refines d true v)
          λ (st, out, rb) (same, valid, cap, mode). ends (same, valid, mode ∙ f)

    -- The order is kept from any state on.
    run_calls-order :
        (cs : List (Call A)) (fifo : Fifo A)
        → IsValid fifo.rb
        → fifo.rb.as_fifo ≡ true
        → Ends (λ r. contents d fifo.rb ++ r.0 ≡ r.1 ++ contents d r.2.rb) (run_calls fifo cs)
    unfolding run_calls add remove
    run_calls-order [] fifo v f = ends (append_nil (contents d fifo.rb))
    run_calls-order (put e ∷ cs) fifo v f =
        Ends-bind (add-push fifo e v f) λ (st, fifo') (same, valid, mode).
          Ends-bind (run_calls-order cs fifo' valid mode) λ (ins, outs, end) kept.
            let step = push-accept fifo.rb.max_elts (contents d fifo.rb) e ins in
            ends (
              subst (λ p. contents d fifo.rb ++ accept p.0 e ins ≡ p.1 ++ ins) (sym same) step
              ∙ kept)
    run_calls-order (take_one ∷ cs) fifo v f =
        Ends-bind (remove-pop fifo v f) λ (st, out, fifo') (same, valid, mode).
          Ends-bind (run_calls-order cs fifo' valid mode) λ (ins, outs, end) kept.
            let step = pop-taken (contents d fifo.rb) ins outs (contents d end.rb) in
            ends (
              subst
                (λ p.
                  p.2 ++ ins ≡ outs ++ contents d end.rb
                  → contents d fifo.rb ++ ins ≡ taken p.1 outs ++ contents d end.rb)
                (sym same) step kept)

    -- What `fifo_init` makes of a block when every pointer is there.
    abbrev pub opened : Params → List A → Fifo A
    opened p memory = record {
      rb = record {
        elements = memory;
        current = 0;
        max_elts = p.max_elts;
        start = 0;
        as_fifo = true;
        has_cmpe = false;
      };
      elt_size = p.elt_size;
    }

    pub alloc-true : (b : Bool) → alloc b true true ≡ true
    unfolding alloc
    alloc-true true = refl
    alloc-true false = refl

    pub init-opened :
        (p : Params) (memory : List A)
        → 0 < p.max_elts
        → 0 < p.elt_size
        → init p true true true true memory ≡ made (opened p memory)
    unfolding init Ring.init alloc
    init-opened p memory a b =
        rw
          (
            lt→ltb 0 p.max_elts a,
            lt→ltb 0 p.elt_size b,
            alloc-true p.noalloc_handle,
            alloc-true p.noalloc_data,
          )
          refl

    -- A FIFO is made of a block of `max_elts` elements when every pointer is there. Then, for every
    -- sequence of additions and removals, no call faults, and the accepted elements are, in order,
    -- the removed ones followed by those that are still in the FIFO.
    pub init-run_calls :
        (p : Params) (memory : List A) (cs : List (Call A))
        → 0 < p.max_elts
        → p.max_elts < 2 ^ 31
        → 0 < p.elt_size
        → length memory ≡ p.max_elts
        → (fifo : Fifo A) × (init p true true true true memory ≡ made fifo)
          × Ends (λ r. r.0 ≡ r.1 ++ contents d r.2.rb) (run_calls fifo cs)
    init-run_calls p memory cs pos small unit block =
        let valid : IsValid (opened p memory).rb = record {
          whole = block;
          small = small;
          start_in = pos;
          current_in = omega arith;
        } in
        (
          opened p memory,
          init-opened p memory pos unit,
          Ends-map (run_calls-order cs (opened p memory) valid refl) λ r kept.
              subst (λ xs. xs ++ r.0 ≡ r.1 ++ contents d r.2.rb)
                (contents-empty d (opened p memory).rb refl) kept,
        )
