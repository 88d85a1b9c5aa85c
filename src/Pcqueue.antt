-- ===== src/Pcqueue.antt =====
-- The producer-consumer queue: src/multithread/pcqueue.c over the FIFO and the semaphores of
-- src/multithread/csem.c. A thread is at one point of one call; `thread_step` takes it to its next
-- point. The calls on the FIFO stand between `mutex_lock` and `mutex_unlock` of one mutex, and
-- each such section is one step. A semaphore is its count: a wait blocks at 0, as `sem_wait`
-- does, and can fail (a signal, or the time is up); a post adds one. Which value `errno` has
-- after a failed wait is left out.
use rcsw.Base.{
  ℕ, zero, suc, ◌+◌, ◌-◌, ◌*◌, ◌/◌, ◌%◌, ◌^◌, ◌≤◌, ◌<◌, min, max, ◌≡◌, refl, sym, ap, ap₂, ◌∙◌, ◌≢◌,
  ◌↔◌, ◌⊎◌, inl, inr, Bool, true, false, not, ◌&&◌, ◌||◌, Option, none, some, List, [], ◌∷◌, ◌++◌,
  map, Perm, arith, ltb, leb, ◌==◌, if◌then◌else◌, Bool-cases, Option-cases, lt-or-le, lt→ltb,
  le→not-ltb, test_true, Nat-cases, le→leb, lt→not-leb, and_false, load-fault, store-fault, ==_iff,
  test_false, true-ne-false, cmp_le_of_≼, not-cmp_gt_self, Exec, done, fault, out_of_fuel, ◌>>=◌,
  load, store, load-done, store-done, Ends, ends, Ends-bind, Ends-map, Ends-if, Ends-if_and,
  Ends-inv, Errno, unset, einval, enospc, eagain, enomem, Status, ok, error, Element, cmp_le,
  cmp_gt, cmp_lt, cmp_eq, IsOrder, ◌≼◌, alloc, length, get_elem?, get_or, set, take, drop,
  replicate, length-append, length-set, length-take, length-drop, length-replicate,
  get_elem?-eq-get_or, get_or-set, get_or-set_ne, set-set, set_self, exchange-perm, get_or-set_self,
  get_or-append, get_or-take, ext_get_or, exchange, get_or-exchange, length-exchange,
  get_or-exchange_left, get_or-exchange_right, get_or-exchange_other, Rearranged, Rearranged-refl,
  Rearranged-trans, Rearranged-widen, exchange-Rearranged, ≼_of_cmp_le, ≼_of_not-cmp_gt,
  ≼_of_cmp_eq, ≼_of_cmp_lt, ≼_refl, ≼_of_not, ≼_of_cmp_gt, ≼_of_not-cmp_le, ≼_of_not-cmp_lt,
}
use mathlib.Core.Path.{subst}
use mathlib.Core.List.Perm
use rcsw.Fifo
use rcsw.Fifo.{Fifo}
mod Tests
pub mod Totals
pub mod Accounts
pub mod Steps
pub mod Safety
pub mod Live

-- The fields of `struct pcqueue` that change.
pub record Pcqueue {ℓ} (A : Type ℓ) : Type ℓ where
  pub fifo : Fifo A
  pub slots_avail : ℕ
  pub slots_inuse : ℕ

-- `struct pcqueue_params` is another name of `struct fifo_params`.
abbrev pub Params : Type 0
Params = Fifo.Params

-- What `pcqueue_init` returns.
pub data Made {ℓ} (A : Type ℓ) : Type ℓ where
  made : Pcqueue A → Made A
  null : Errno → Made A

abbrev pub fifo_params : Params → Fifo.Params
fifo_params p = record {
  max_elts = p.max_elts;
  elt_size = p.elt_size;
  noalloc_handle = true;
  noalloc_data = p.noalloc_data;
}

-- How a wait on a semaphore ends.
pub data Wake : Type 0 where
  served failed : Wake

-- Where a thread is: between calls, before the wait of a call, after it, before the last post, and
-- returned. `gave_up` is the return after a failed wait of a timed call.
pub data Pc {ℓ} (A : Type ℓ) : Type ℓ where
  idle : Pc A
  push_call push_slot : A → Pc A
  push_added : Pc A
  pop_call pop_slot timedpop_call timedpop_slot : (want : Bool) → Pc A
  pop_removed : Option A → Pc A
  timedpop_removed : Status → Option A → Pc A
  peek_call timedpeek_call peek_slot : Pc A
  peek_read : Option ℕ → Pc A
  returned : Status → Option A → Pc A
  peeked : Option ℕ → Pc A
  gave_up : Pc A

module _ {ℓ} {A : Type ℓ} where
  -- `sems` says whether the semaphores and the mutex can be made.
  abbrev pub wrap : Params → (sems : Bool) → Fifo.Made A → Made A
  wrap p sems (Fifo.made f) =
      if sems
      then made (record { fifo = f; slots_avail = p.max_elts; slots_inuse = 0 })
      else null eagain
  wrap p sems (Fifo.null e) = null eagain

  -- The other arguments are those of `fifo_init`.
  unfoldable pub init : Params → (ptr_handle ptr_data malloc1 malloc2 sems : Bool) → List A → Made A
  init p ptr_handle ptr_data malloc1 malloc2 sems memory =
      if ltb 0 p.max_elts && ltb 0 p.elt_size
      then if alloc p.noalloc_handle ptr_handle malloc1
        then wrap p sems (Fifo.init (fifo_params p) true ptr_data true malloc2 memory)
        else null eagain
      else null einval

  -- After `fifo_add` and after `fifo_remove` of a pop without a time limit.
  abbrev pub after_add : Status → Pc A
  after_add ok = push_added
  after_add (error n) = returned (error n) none

  abbrev pub after_remove : Status → Option A → Pc A
  after_remove ok out = pop_removed out
  after_remove (error n) out = returned (error n) out

  -- `none` is a thread that is blocked, or that has nothing to do.
  abbrev pub take_avail : Pcqueue A → Pc A → Option (Pcqueue A × Pc A)
  take_avail q next =
      if ltb 0 q.slots_avail
      then some (record q { slots_avail = q.slots_avail - 1 }, next)
      else none

  abbrev pub take_inuse : Pcqueue A → Pc A → Option (Pcqueue A × Pc A)
  take_inuse q next =
      if ltb 0 q.slots_inuse
      then some (record q { slots_inuse = q.slots_inuse - 1 }, next)
      else none

  unfoldable pub thread_step : Wake → Pcqueue A → Pc A → Exec (Option (Pcqueue A × Pc A))
  thread_step wake q idle = done none
  thread_step served q (push_call e) = done (take_avail q (push_slot e))
  thread_step failed q (push_call e) = done (some (q, push_slot e))
  thread_step wake q (push_slot e) = do
    (st, f) ← Fifo.add q.fifo e
    done (some (record q { fifo = f }, after_add st))
  thread_step wake q push_added =
      done (some (record q { slots_inuse = q.slots_inuse + 1 }, returned ok none))
  thread_step served q (pop_call want) = done (take_inuse q (pop_slot want))
  thread_step failed q (pop_call want) = done (some (q, pop_slot want))
  thread_step wake q (pop_slot want) = do
    (st, out, f) ← Fifo.remove q.fifo want
    done (some (record q { fifo = f }, after_remove st out))
  thread_step wake q (pop_removed out) =
      done (some (record q { slots_avail = q.slots_avail + 1 }, returned ok out))
  thread_step served q (timedpop_call want) = done (take_inuse q (timedpop_slot want))
  thread_step failed q (timedpop_call want) = done (some (q, gave_up))
  thread_step wake q (timedpop_slot want) = do
    (st, out, f) ← Fifo.remove q.fifo want
    done (some (record q { fifo = f }, timedpop_removed st out))
  thread_step wake q (timedpop_removed st out) =
      done (some (record q { slots_avail = q.slots_avail + 1 }, returned st out))
  thread_step served q peek_call = done (take_inuse q peek_slot)
  thread_step failed q peek_call = done (some (q, peek_slot))
  thread_step served q timedpeek_call = done (take_inuse q peek_slot)
  thread_step failed q timedpeek_call = done (some (q, gave_up))
  thread_step wake q peek_slot = done (some (q, peek_read (Fifo.front q.fifo)))
  thread_step wake q (peek_read i) =
      done (some (record q { slots_inuse = q.slots_inuse + 1 }, peeked i))
  thread_step wake q (returned st out) = done none
  thread_step wake q (peeked i) = done none
  thread_step wake q gave_up = done none

-- The queue and its threads.
pub record System {ℓ} (A : Type ℓ) : Type ℓ where
  pub queue : Pcqueue A
  pub threads : List (Pc A)

module _ {ℓ} {A : Type ℓ} where
  -- A thread that is between calls, and the first point of a call.
  pub data IsResting : Pc A → Type ℓ where
    rests_idle : IsResting idle
    rests_returned : {st : Status} {out : Option A} → IsResting (returned st out)
    rests_peeked : {i : Option ℕ} → IsResting (peeked i)
    rests_gave_up : IsResting gave_up

  pub data IsCall : Pc A → Type ℓ where
    calls_push : {e : A} → IsCall (push_call e)
    calls_pop : {want : Bool} → IsCall (pop_call want)
    calls_timedpop : {want : Bool} → IsCall (timedpop_call want)
    calls_peek : IsCall peek_call
    calls_timedpeek : IsCall timedpeek_call

  -- A wait that fails only where a time limit is given: no signal interrupts a wait.
  abbrev pub is_quiet : Wake → Pc A → Bool
  is_quiet failed (push_call e) = false
  is_quiet failed (pop_call want) = false
  is_quiet failed peek_call = false
  is_quiet wake pc = true

  -- One thread does one step, or starts a call.
  pub data Step : System A → System A → Type ℓ where
    moves :
        (wake : Wake) (q q' : Pcqueue A) (pc pc' : Pc A) (before after : List (Pc A))
        → is_quiet wake pc ≡ true
        → thread_step wake q pc ≡ done (some (q', pc'))
        → Step
            (record { queue = q; threads = before ++ pc ∷ after })
            (record { queue = q'; threads = before ++ pc' ∷ after })
    starts :
        (q : Pcqueue A) (pc pc' : Pc A) (before after : List (Pc A))
        → IsResting pc
        → IsCall pc'
        → Step
            (record { queue = q; threads = before ++ pc ∷ after })
            (record { queue = q; threads = before ++ pc' ∷ after })

  -- Any number of steps of any threads, in any order.
  pub data Reach (from : System A) : System A → Type ℓ where
    here : Reach from from
    more : {s s' : System A} → Reach from s → Step s s' → Reach from s'
