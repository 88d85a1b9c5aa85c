-- ===== src/Rbuffer/Run.antt =====
-- Whole sequences of calls on a ring buffer.
use rcsw.Base.{
  ℕ, ◌<◌, ◌≡◌, refl, ap₂, ◌∙◌, inl, inr, Bool, Option, none, List, [], ◌∷◌, arith, ◌==◌, Bool-cases,
  Exec, done, ◌>>=◌, Ends-inv, Status,
}
use rcsw.Rbuffer.{Rbuffer, add, remove, serve_front, is_empty}
use rcsw.Rbuffer.Inv.{IsValid, serve_front_lem}
use rcsw.Rbuffer.Refine.{contents, contents-empty, contents-front, add_refines, remove_refines}
use rcsw.Rbuffer.Queue

-- A call, and what the caller sees of it.
pub data Call {ℓ} (A : Type ℓ) : Type ℓ where
  put : A → Call A
  get : (want : Bool) → Call A
  look : Call A

abbrev pub Reply {ℓ} : Type ℓ → Type ℓ
Reply A = Status × Option A

module _ {ℓ} {A : Type ℓ} where
  unfoldable pub run : Rbuffer A → List (Call A) → Exec (List (Reply A))
  run rb [] = done []
  run rb (put e ∷ cs) = do (st, rb') ← add rb e; rs ← run rb' cs; done ((st, none) ∷ rs)
  run rb (get want ∷ cs) = do
    (st, out, rb') ← remove rb want
    rs ← run rb' cs
    done ((st, out) ∷ rs)
  run rb (look ∷ cs) = do r ← serve_front rb; rs ← run rb cs; done (r ∷ rs)

  -- The same calls on the queue.
  unfoldable pub run_queue : (as_fifo : Bool) (cap : ℕ) → List A → List (Call A) → List (Reply A)
  run_queue as_fifo cap q [] = []
  run_queue as_fifo cap q (put e ∷ cs) =
      let (st, q') = Queue.push as_fifo cap q e in (st, none) ∷ run_queue as_fifo cap q' cs
  run_queue as_fifo cap q (get want ∷ cs) =
      let (st, out, q') = Queue.pop want q in (st, out) ∷ run_queue as_fifo cap q' cs
  run_queue as_fifo cap q (look ∷ cs) = Queue.peek q ∷ run_queue as_fifo cap q cs

  module _ (d : A) where
    -- `rbuffer_serve_front` returns what the queue's `peek` returns.
    serve_front_refines :
        {rb : Rbuffer A} → IsValid rb → serve_front rb ≡ done (Queue.peek (contents d rb))
    unfolding Queue.peek is_empty
    serve_front_refines {rb} v = elim (Bool-cases (rb.current == 0)) [
      | inl q ↦ serve_front_lem d v ∙ rw (q, contents-empty d rb (ground arith))
      | inr q ↦
          let pos : 0 < rb.current = ground arith in
          serve_front_lem d v ∙ rw (q, contents-front d rb v pos)
    ]

    put-step :
        (e : A) (cs : List (Call A)) (rb : Rbuffer A) (st : Status) (rb' : Rbuffer A)
        → add rb e ≡ done (st, rb')
        → (st, contents d rb') ≡ Queue.push rb.as_fifo rb.max_elts (contents d rb) e
        → run rb' cs ≡ done (run_queue rb.as_fifo rb.max_elts (contents d rb') cs)
        → run rb (put e ∷ cs) ≡ done (run_queue rb.as_fifo rb.max_elts (contents d rb) (put e ∷ cs))
    unfolding run run_queue
    put-step e cs rb st rb' ran same rest = rw (ran, rest, ← same)

    get-step :
        (want : Bool) (cs : List (Call A)) (rb : Rbuffer A) (st : Status) (out : Option A)
        (rb' : Rbuffer A)
        → remove rb want ≡ done (st, out, rb')
        → (st, out, contents d rb') ≡ Queue.pop want (contents d rb)
        → run rb' cs ≡ done (run_queue rb.as_fifo rb.max_elts (contents d rb') cs)
        → run rb (get want ∷ cs)
          ≡ done (run_queue rb.as_fifo rb.max_elts (contents d rb) (get want ∷ cs))
    unfolding run run_queue
    get-step want cs rb st out rb' ran same rest = rw (ran, rest, ← same)

    -- No sequence of adds, removes and reads of the front tells a valid buffer from the queue of its
    -- contents: each call returns what the queue's returns, and none faults.
    pub run_refines :
        (cs : List (Call A)) {rb : Rbuffer A}
        → IsValid rb
        → run rb cs ≡ done (run_queue rb.as_fifo rb.max_elts (contents d rb) cs)
    unfolding run run_queue
    run_refines [] v = refl
    run_refines (put e ∷ cs) {rb} v =
        let ((st, rb'), ran, p) = Ends-inv (add_refines d e v) in
        put-step e cs rb st rb' ran p.0
          (run_refines cs p.1 ∙ ap₂ (λ f c. done (run_queue f c (contents d rb') cs)) p.3 p.2)
    run_refines (get want ∷ cs) {rb} v =
        let ((st, out, rb'), ran, p) = Ends-inv (remove_refines d want v) in
        get-step want cs rb st out rb' ran p.0
          (run_refines cs p.1 ∙ ap₂ (λ f c. done (run_queue f c (contents d rb') cs)) p.3 p.2)
    run_refines (look ∷ cs) {rb} v = rw (serve_front_refines v, run_refines cs v)
