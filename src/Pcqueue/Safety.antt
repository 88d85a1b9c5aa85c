-- ===== src/Pcqueue/Safety.antt =====
-- What holds in every state that the threads can reach.
use rcsw.Fifo.Order.{opened, init-opened, alloc-true}
use rcsw.Base.{
  ◌∙◌, true, zero, suc, ◌<◌, ◌^◌, replicate, lt→ltb, refl, length, ℕ, ◌+◌, ◌≡◌, List, ◌∷◌, ◌++◌,
  arith, done, Ends, ends,
}
use mathlib.Core.Path.{sym, ap, subst}
use rcsw.Pcqueue.{
  Params, Made, made, null, init, fifo_params, idle, Pcqueue, Pc, System, Step, moves, starts,
  Reach, here, more, IsResting, IsCall, rests_idle, rests_returned, rests_peeked, rests_gave_up,
  calls_push, calls_pop, calls_timedpop, calls_peek, calls_timedpeek,
}
use rcsw.Pcqueue.Totals.{total, total-split}
use rcsw.Pcqueue.Accounts.{slot_weight, use_weight, error_weight, size, IsSound, Around, Next}
use rcsw.Pcqueue.Steps.{thread_step-Next}

Ends-done {ℓ} : {B : Type ℓ} {P : B → Type 0} {b : B} → Ends P (done b) → P b
Ends-done (ends p) = p

module _ {ℓ} {A : Type ℓ} where
  -- Each of the `max_elts` slots is free, in the hands of one thread, or filled; each filled slot is
  -- announced or in the hands of one thread; and no call that did not run out of time has failed.
  pub record IsConsistent (max_elts : ℕ) (s : System A) : Type 0 where
    pub sound : IsSound max_elts s.queue
    pub free : s.queue.slots_avail + total slot_weight s.threads + size s.queue ≡ max_elts
    pub full : s.queue.slots_inuse + total use_weight s.threads ≡ size s.queue
    pub fine : total error_weight s.threads ≡ 0

  abbrev others : (Pc A → ℕ) → (before after : List (Pc A)) → ℕ
  others weight before after = total weight before + total weight after

  pub IsConsistent-Around :
      (max_elts : ℕ) (q : Pcqueue A) (pc : Pc A) (before after : List (Pc A))
      → IsConsistent max_elts (record { queue = q; threads = before ++ pc ∷ after })
      → Around max_elts (others slot_weight before after) (others use_weight before after) q pc
        × (others error_weight before after ≡ 0)
  IsConsistent-Around max_elts q pc before after c = (
    record {
      sound = c.sound;
      free = omega (arith, c.free, total-split slot_weight before pc after);
      full = omega (arith, c.full, total-split use_weight before pc after);
      fine = omega (arith, c.fine, total-split error_weight before pc after);
    },
    omega (arith, c.fine, total-split error_weight before pc after),
  )

  Around-IsConsistent :
      (max_elts : ℕ) (q : Pcqueue A) (pc : Pc A) (before after : List (Pc A))
      → Around max_elts (others slot_weight before after) (others use_weight before after) q pc
      → others error_weight before after ≡ 0
      → IsConsistent max_elts (record { queue = q; threads = before ++ pc ∷ after })
  Around-IsConsistent max_elts q pc before after a e = record {
    sound = a.sound;
    free = omega (arith, a.free, total-split slot_weight before pc after);
    full = omega (arith, a.full, total-split use_weight before pc after);
    fine = omega (arith, a.fine, e, total-split error_weight before pc after);
  }

  IsResting-light : {pc : Pc A} → IsResting pc → (slot_weight pc ≡ 0) × (use_weight pc ≡ 0)
  IsResting-light rests_idle = (refl, refl)
  IsResting-light rests_returned = (refl, refl)
  IsResting-light rests_peeked = (refl, refl)
  IsResting-light rests_gave_up = (refl, refl)

  IsCall-light :
      {pc : Pc A} → IsCall pc → (slot_weight pc ≡ 0) × (use_weight pc ≡ 0) × (error_weight pc ≡ 0)
  IsCall-light calls_push = (refl, refl, refl)
  IsCall-light calls_pop = (refl, refl, refl)
  IsCall-light calls_timedpop = (refl, refl, refl)
  IsCall-light calls_peek = (refl, refl, refl)
  IsCall-light calls_timedpeek = (refl, refl, refl)

  module _ (d : A) where
    Step-IsConsistent :
        (max_elts : ℕ) {s s' : System A}
        → Step s s'
        → IsConsistent max_elts s
        → IsConsistent max_elts s'
    Step-IsConsistent max_elts (moves wake q q' pc pc' before after quiet ran) c =
        let (a, e) = IsConsistent-Around max_elts q pc before after c in
        let next =
          thread_step-Next d max_elts (others slot_weight before after)
            (others use_weight before after) wake q pc quiet a in
        Around-IsConsistent max_elts q' pc' before after
          (Ends-done (
            subst
              (Ends
                (Next max_elts (others slot_weight before after) (others use_weight before after)))
              ran next))
          e
    Step-IsConsistent max_elts (starts q pc pc' before after rests calls) c =
        let (a, e) = IsConsistent-Around max_elts q pc before after c in
        let (s0, u0) = IsResting-light rests in
        let (s1, u1, e1) = IsCall-light calls in
        Around-IsConsistent max_elts q pc' before after
          (record {
            sound = a.sound;
            free = omega (arith, a.free, s0, s1);
            full = omega (arith, a.full, u0, u1);
            fine = e1;
          })
          e

    pub Reach-IsConsistent :
        (max_elts : ℕ) {from s : System A}
        → IsConsistent max_elts from
        → Reach from s
        → IsConsistent max_elts s
    Reach-IsConsistent max_elts c here = c
    Reach-IsConsistent max_elts c (more r step) =
        Step-IsConsistent max_elts step (Reach-IsConsistent max_elts c r)

    resting_total :
        (n : ℕ) (weight : Pc A → ℕ) → weight idle ≡ 0 → total weight (replicate n idle) ≡ 0
    unfolding total
    resting_total zero weight h = refl
    resting_total (suc n) weight h = omega (arith, h, resting_total n weight h)

    -- The queue that is made of `max_elts` slots.
    abbrev fresh : Params → List A → Pcqueue A
    fresh p memory = record {
      fifo = opened d (fifo_params p) memory;
      slots_avail = p.max_elts;
      slots_inuse = 0;
    }

    init-fresh :
        (p : Params) (memory : List A)
        → 0 < p.max_elts
        → 0 < p.elt_size
        → init p true true true true true memory ≡ made (fresh p memory)
    unfolding init
    init-fresh p memory a b =
        rw
          (
            lt→ltb 0 p.max_elts a,
            lt→ltb 0 p.elt_size b,
            alloc-true d p.noalloc_handle,
            init-opened d (fifo_params p) memory a b,
          )
          refl

    queue_of : Made A → Pcqueue A → Pcqueue A
    queue_of (made q) q' = q
    queue_of (null e) q' = q'

    made-injective : {q q' : Pcqueue A} → Path (Made A) (made q) (made q') → q ≡ q'
    unfolding queue_of
    made-injective {q} e = ap (λ m. queue_of m q) e

    fresh-IsConsistent :
        (p : Params) (memory : List A) (n : ℕ)
        → length memory ≡ p.max_elts
        → 0 < p.max_elts
        → p.max_elts < 2 ^ 31
        → IsConsistent p.max_elts (record { queue = fresh p memory; threads = replicate n idle })
    fresh-IsConsistent p memory n l a b = record {
      sound = record {
        valid = record { whole = l; small = b; start_in = a; current_in = omega arith };
        refuses = refl;
        cap = refl;
      };
      free = omega (arith, resting_total n slot_weight refl);
      full = omega (arith, resting_total n use_weight refl);
      fine = resting_total n error_weight refl;
    }

    -- A queue is made of a block of `max_elts` elements when every pointer is there and the
    -- semaphores and the mutex can be made, and used by any number of threads. Whatever calls they
    -- make, in whatever order their steps come, if no signal interrupts a wait: the FIFO stays
    -- valid, its free slots, the slots that threads hold and its elements always add up to
    -- `max_elts`, its elements are announced or held by one thread each, and no call that has passed
    -- its wait has failed.
    pub init-IsConsistent :
        (p : Params) (memory : List A) (n : ℕ) (q : Pcqueue A) (s : System A)
        → length memory ≡ p.max_elts
        → 0 < p.max_elts
        → p.max_elts < 2 ^ 31
        → 0 < p.elt_size
        → init p true true true true true memory ≡ made q
        → Reach (record { queue = q; threads = replicate n idle }) s
        → IsConsistent p.max_elts s
    init-IsConsistent p memory n q s l a b c e r =
        let same = made-injective (sym (init-fresh p memory a c) ∙ e) in
        Reach-IsConsistent p.max_elts
          (subst (λ q. IsConsistent p.max_elts (record { queue = q; threads = replicate n idle }))
            same (fresh-IsConsistent p memory n l a b))
          r
