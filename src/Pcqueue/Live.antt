-- ===== src/Pcqueue/Live.antt =====
-- The queue never locks up: what its threads can always do.
use rcsw.Base.{
  ℕ, ◌+◌, ◌-◌, ◌^◌, ◌<◌, ◌≡◌, refl, inl, inr, Bool, true, some, List, ◌∷◌, ◌++◌, arith, lt-or-le,
  lt→ltb, done, Ends-inv, length, replicate,
}
use mathlib.Core.Path.{subst}
use rcsw.Pcqueue.{
  Pcqueue, Params, made, init, Pc, idle, push_call, push_slot, push_added, pop_call, pop_slot,
  timedpop_call, timedpop_slot, pop_removed, timedpop_removed, peek_call, timedpeek_call, peek_slot,
  peek_read, returned, peeked, gave_up, served, thread_step, after_add, after_remove, System, Reach,
}
use rcsw.Pcqueue.Totals.{total, total-some}
use rcsw.Pcqueue.Accounts.{slot_weight, use_weight, Around, fifo_add-Grown, fifo_remove-Shrunk}
use rcsw.Pcqueue.Safety.{IsConsistent, IsConsistent-Around, init-IsConsistent}

module _ {ℓ} {A : Type ℓ} where
  -- The step of a thread ends and moves it.
  abbrev pub Runs : Pcqueue A → Pc A → Type ℓ
  Runs q pc = (q' : Pcqueue A) × (pc' : Pc A) × (thread_step served q pc ≡ done (some (q', pc')))

  -- Some thread can take a step inside its call.
  pub record CanMove (s : System A) : Type ℓ where
    pub before : List (Pc A)
    pub pc : Pc A
    pub after : List (Pc A)
    pub place : s.threads ≡ before ++ pc ∷ after
    pub runs : Runs s.queue pc

  -- A thread that has passed the wait of its call, and has not returned.
  abbrev pub IsInside : Pc A → Type 0
  IsInside pc = 0 < slot_weight pc + use_weight pc

  module _ (d : A) where
    inside-Runs :
        (max_elts slots uses : ℕ) (q : Pcqueue A) (pc : Pc A)
        → Around max_elts slots uses q pc
        → IsInside pc
        → Runs q pc
    unfolding thread_step
    inside-Runs m s u q (push_slot e) a h =
        let ((st, f), ran, _) =
          Ends-inv (fifo_add-Grown q.fifo e a.sound.valid (omega (arith, a.free, a.sound.cap))) in
        (record q { fifo = f }, after_add st, rw ran refl)
    inside-Runs m s u q push_added a h = (_, _, refl)
    inside-Runs m s u q (pop_slot want) a h =
        let ((st, out, f), ran, _) =
          Ends-inv (fifo_remove-Shrunk d q.fifo want a.sound.valid (omega (arith, a.full))) in
        (record q { fifo = f }, after_remove st out, rw ran refl)
    inside-Runs m s u q (pop_removed out) a h = (_, _, refl)
    inside-Runs m s u q (timedpop_slot want) a h =
        let ((st, out, f), ran, _) =
          Ends-inv (fifo_remove-Shrunk d q.fifo want a.sound.valid (omega (arith, a.full))) in
        (record q { fifo = f }, timedpop_removed st out, rw ran refl)
    inside-Runs m s u q (timedpop_removed st out) a h = (_, _, refl)
    inside-Runs m s u q peek_slot a h = (_, _, refl)
    inside-Runs m s u q (peek_read i) a h = (_, _, refl)
    inside-Runs m s u q idle a h = absurd (omega (arith, h))
    inside-Runs m s u q (push_call e) a h = absurd (omega (arith, h))
    inside-Runs m s u q (pop_call want) a h = absurd (omega (arith, h))
    inside-Runs m s u q (timedpop_call want) a h = absurd (omega (arith, h))
    inside-Runs m s u q peek_call a h = absurd (omega (arith, h))
    inside-Runs m s u q timedpeek_call a h = absurd (omega (arith, h))
    inside-Runs m s u q (returned st out) a h = absurd (omega (arith, h))
    inside-Runs m s u q (peeked i) a h = absurd (omega (arith, h))
    inside-Runs m s u q gave_up a h = absurd (omega (arith, h))

    thread-Runs :
        (max_elts : ℕ) (s : System A) (before : List (Pc A)) (pc : Pc A) (after : List (Pc A))
        → IsConsistent max_elts s
        → s.threads ≡ before ++ pc ∷ after
        → IsInside pc
        → Runs s.queue pc
    thread-Runs max_elts s before pc after c e h =
        let (a, _) =
          IsConsistent-Around max_elts s.queue pc before after
            (subst (λ ts. IsConsistent max_elts (record { queue = s.queue; threads = ts })) e c) in
        inside-Runs max_elts _ _ s.queue pc a h

    push-Runs : (q : Pcqueue A) (e : A) → 0 < q.slots_avail → Runs q (push_call e)
    unfolding thread_step
    push-Runs q e h = (
      record q { slots_avail = q.slots_avail - 1 },
      push_slot e,
      rw (lt→ltb 0 q.slots_avail h) refl,
    )

    pop-Runs : (q : Pcqueue A) (want : Bool) → 0 < q.slots_inuse → Runs q (pop_call want)
    unfolding thread_step
    pop-Runs q want h = (
      record q { slots_inuse = q.slots_inuse - 1 },
      pop_slot want,
      rw (lt→ltb 0 q.slots_inuse h) refl,
    )

    -- With both semaphores at zero some thread holds a slot or an element.
    holder :
        (max_elts : ℕ) (s : System A)
        → IsConsistent max_elts s
        → 0 < max_elts
        → s.queue.slots_avail ≡ 0
        → s.queue.slots_inuse ≡ 0
        → CanMove s
    holder max_elts s c h a i = elim (lt-or-le 0 (total slot_weight s.threads)) [
      | inl p ↦
          let (before, pc, after, e, w) = total-some slot_weight s.threads p in
          record {
            before = before;
            pc = pc;
            after = after;
            place = e;
            runs = thread-Runs max_elts s before pc after c e (omega (arith, w));
          }
      | inr p ↦
          let (before, pc, after, e, w) =
            total-some use_weight s.threads (omega (arith, c.free, c.full, a, i)) in
          record {
            before = before;
            pc = pc;
            after = after;
            place = e;
            runs = thread-Runs max_elts s before pc after c e (omega (arith, w));
          }
    ]

    -- In every state that the threads of a queue made as for `init-IsConsistent` can reach, a thread
    -- that has passed the wait of its call is never blocked and does not fault: its next step ends
    -- and takes it on.
    pub init-Runs :
        (p : Params) (memory : List A) (n : ℕ) (q : Pcqueue A) (s : System A) (before : List (Pc A))
        (pc : Pc A) (after : List (Pc A))
        → length memory ≡ p.max_elts
        → 0 < p.max_elts
        → p.max_elts < 2 ^ 31
        → 0 < p.elt_size
        → init p true true true true true memory ≡ made q
        → Reach (record { queue = q; threads = replicate n idle }) s
        → s.threads ≡ before ++ pc ∷ after
        → IsInside pc
        → Runs s.queue pc
    init-Runs p memory n q s before pc after l a b c e r place h =
        thread-Runs p.max_elts s before pc after (init-IsConsistent d p memory n q s l a b c e r)
          place h

    -- In every state that the threads of a queue made as for `init-IsConsistent` can reach, if one
    -- thread is at the start of a push and another at the start of a pop, some thread can take a
    -- step inside its call: a push and a pop never block each other.
    pub init-CanMove :
        (p : Params) (memory : List A) (n : ℕ) (q : Pcqueue A) (s : System A)
        (before after before' after' : List (Pc A)) (e : A) (want : Bool)
        → length memory ≡ p.max_elts
        → 0 < p.max_elts
        → p.max_elts < 2 ^ 31
        → 0 < p.elt_size
        → init p true true true true true memory ≡ made q
        → Reach (record { queue = q; threads = replicate n idle }) s
        → s.threads ≡ before ++ push_call e ∷ after
        → s.threads ≡ before' ++ pop_call want ∷ after'
        → CanMove s
    init-CanMove p memory n q s before after before' after' e want l a b c m r push pop =
        elim (lt-or-le 0 s.queue.slots_avail) [
          | inl h ↦ record {
            before = before;
            pc = push_call e;
            after = after;
            place = push;
            runs = push-Runs s.queue e h;
          }
          | inr h ↦ elim (lt-or-le 0 s.queue.slots_inuse) [
            | inl i ↦ record {
              before = before';
              pc = pop_call want;
              after = after';
              place = pop;
              runs = pop-Runs s.queue want i;
            }
            | inr i ↦
                holder p.max_elts s (init-IsConsistent d p memory n q s l a b c m r) a
                  (omega (arith, h)) (omega (arith, i))
          ]
        ]
