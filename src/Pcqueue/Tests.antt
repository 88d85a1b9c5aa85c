-- ===== src/Pcqueue/Tests.antt =====
-- A queue of one slot, a pusher and a popper; each theorem at a state of theirs.
use rcsw.Base.{ℕ, ◌≡◌, refl, true, false, some, List, [], ◌∷◌, arith, done, store, alloc, replicate}
use rcsw.Fifo
use rcsw.Rbuffer as Ring
use rcsw.Pcqueue.{
  Pcqueue, Params, made, init, Pc, idle, push_call, push_slot, push_added, pop_call, served,
  thread_step, System, moves, starts, Reach, here, more, rests_idle, calls_push, calls_pop,
}
use rcsw.Pcqueue.Safety.{IsConsistent, init-IsConsistent}
use rcsw.Pcqueue.Live.{Runs, CanMove, init-Runs, init-CanMove}

abbrev one_slot : Params
one_slot = record { max_elts = 1; elt_size = 4; noalloc_handle = true; noalloc_data = true }

abbrev queue : (elements : List ℕ) → (current start avail inuse : ℕ) → Pcqueue ℕ
queue elements current start avail inuse = record {
  fifo = record {
    rb = record {
      elements = elements;
      current = current;
      max_elts = 1;
      start = start;
      as_fifo = true;
      has_cmpe = false;
    };
    elt_size = 4;
  };
  slots_avail = avail;
  slots_inuse = inuse;
}

abbrev state : Pcqueue ℕ → List (Pc ℕ) → System ℕ
state q ts = record { queue = q; threads = ts }

init-one_slot :
    init {A = ℕ} one_slot true true true true true (0 ∷ []) ≡ made (queue (0 ∷ []) 0 0 1 0)
unfolding init Fifo.init Ring.init alloc
init-one_slot = refl

-- The pusher has put 7 into the slot; then both want to start again.
added :
    thread_step served (queue (0 ∷ []) 0 0 0 0) (push_slot 7)
    ≡ done (some (queue (7 ∷ []) 1 0 0 0, push_added))
unfolding thread_step Fifo.add Ring.add Ring.advance Ring.is_full Ring.data_get store
added = refl

waited :
    thread_step {A = ℕ} served (queue (0 ∷ []) 0 0 1 0) (push_call 7)
    ≡ done (some (queue (0 ∷ []) 0 0 0 0, push_slot 7))
unfolding thread_step
waited = refl

abbrev from : System ℕ
from = state (queue (0 ∷ []) 0 0 1 0) (replicate 3 idle)

-- Three threads: the first has added its element, the second wants to push, the third to pop.
abbrev busy : System ℕ
busy = state (queue (7 ∷ []) 1 0 0 0) (push_added ∷ push_call 8 ∷ pop_call true ∷ [])

Reach-busy : Reach from busy
Reach-busy =
    more
      (more
        (more
          (more
            (more here (
              starts (queue (0 ∷ []) 0 0 1 0) idle (push_call 7) [] (idle ∷ idle ∷ []) rests_idle
                calls_push))
            (moves served (queue (0 ∷ []) 0 0 1 0) (queue (0 ∷ []) 0 0 0 0) (push_call 7)
              (push_slot 7) [] (idle ∷ idle ∷ []) refl waited))
          (moves served (queue (0 ∷ []) 0 0 0 0) (queue (7 ∷ []) 1 0 0 0) (push_slot 7) push_added
            [] (idle ∷ idle ∷ []) refl added))
        (starts (queue (7 ∷ []) 1 0 0 0) idle (push_call 8) (push_added ∷ []) (idle ∷ []) rests_idle
          calls_push))
      (starts (queue (7 ∷ []) 1 0 0 0) idle (pop_call true) (push_added ∷ push_call 8 ∷ []) []
        rests_idle calls_pop)

init-IsConsistent_example : IsConsistent 1 busy
init-IsConsistent_example =
    init-IsConsistent 0 one_slot (0 ∷ []) 3 (queue (0 ∷ []) 0 0 1 0) busy refl (omega arith)
      (omega arith) (omega arith) init-one_slot Reach-busy

init-Runs_example : Runs (queue (7 ∷ []) 1 0 0 0) push_added
init-Runs_example =
    init-Runs 0 one_slot (0 ∷ []) 3 (queue (0 ∷ []) 0 0 1 0) busy [] push_added
      (push_call 8 ∷ pop_call true ∷ []) refl (omega arith) (omega arith) (omega arith)
      init-one_slot Reach-busy refl (omega arith)

init-CanMove_example : CanMove busy
init-CanMove_example =
    init-CanMove 0 one_slot (0 ∷ []) 3 (queue (0 ∷ []) 0 0 1 0) busy (push_added ∷ [])
      (pop_call true ∷ []) (push_added ∷ push_call 8 ∷ []) [] 8 true refl (omega arith)
      (omega arith) (omega arith) init-one_slot Reach-busy refl refl
