-- ===== src/Pcqueue/Steps.antt =====
-- The steps of one thread against the accounts.
use rcsw.Base.{
  ℕ, ◌+◌, ◌≡◌, refl, sym, ◌∙◌, inl, inr, Bool, true, Option, none, some, arith, lt-or-le, lt→ltb,
  le→not-ltb, true-ne-false, Ends, ends, Ends-bind, ok, error,
}
use mathlib.Core.Path.{subst}
use rcsw.Pcqueue.{
  after_add, after_remove, Pcqueue, Pc, Wake, idle, push_call, push_slot, push_added, pop_call,
  pop_slot, timedpop_call, timedpop_slot, pop_removed, timedpop_removed, peek_call, timedpeek_call,
  peek_slot, peek_read, returned, peeked, gave_up, served, failed, thread_step, take_avail,
  take_inuse, is_quiet,
}
use rcsw.Pcqueue.Accounts.{
  slot_weight, use_weight, error_weight, Around, Next, Grown, Shrunk, fifo_add-Grown,
  fifo_remove-Shrunk,
}

module _ {ℓ} {A : Type ℓ} where
  module _ (d : A) (max_elts slots uses : ℕ) where
    abbrev Accounts : Pcqueue A → Pc A → Type 0
    Accounts q pc = Around max_elts slots uses q pc

    abbrev After : Option (Pcqueue A × Pc A) → Type 0
    After o = Next max_elts slots uses o

    -- The waits.
    take_avail-Around :
        (q : Pcqueue A) (e : A) → Accounts q (push_call e) → After (take_avail q (push_slot e))
    take_avail-Around q e a = elim (lt-or-le 0 q.slots_avail) [
      | inl h ↦ rw (lt→ltb 0 q.slots_avail h) (record {
        sound = record { valid = a.sound.valid; refuses = a.sound.refuses; cap = a.sound.cap };
        free = omega (arith, a.free);
        full = a.full;
        fine = refl;
      })
      | inr h ↦ rw (le→not-ltb 0 q.slots_avail h) tt
    ]

    take_inuse-Around :
        (q : Pcqueue A) (pc next : Pc A)
        → slot_weight pc ≡ 0
        → slot_weight next ≡ 0
        → use_weight pc ≡ 0
        → use_weight next ≡ 1
        → error_weight next ≡ 0
        → Accounts q pc
        → After (take_inuse q next)
    take_inuse-Around q pc next s0 s1 u0 u1 e a = elim (lt-or-le 0 q.slots_inuse) [
      | inl h ↦ rw (lt→ltb 0 q.slots_inuse h) (record {
        sound = record { valid = a.sound.valid; refuses = a.sound.refuses; cap = a.sound.cap };
        free = omega (arith, a.free, s0, s1);
        full = omega (arith, a.full, u0, u1);
        fine = e;
      })
      | inr h ↦ rw (le→not-ltb 0 q.slots_inuse h) tt
    ]

    add-Around :
        (wake : Wake) (q : Pcqueue A) (e : A)
        → Accounts q (push_slot e)
        → Ends After (thread_step wake q (push_slot e))
    unfolding thread_step Grown
    add-Around wake q e a =
        Ends-bind (fifo_add-Grown q.fifo e a.sound.valid (omega (arith, a.free, a.sound.cap)))
          λ (st, f) (s, v, m, c, n). ends (
            subst (λ s'. After (some (record q { fifo = f }, after_add s'))) (sym s)
              (record {
                sound = record { valid = v; refuses = m ∙ a.sound.refuses; cap = c ∙ a.sound.cap };
                free = omega (arith, a.free, n);
                full = omega (arith, a.full, n);
                fine = refl;
              }))

    remove-Around :
        (wake : Wake) (q : Pcqueue A) (want : Bool)
        → Accounts q (pop_slot want)
        → Ends After (thread_step wake q (pop_slot want))
    unfolding thread_step Shrunk
    remove-Around wake q want a =
        Ends-bind (fifo_remove-Shrunk d q.fifo want a.sound.valid (omega (arith, a.full)))
          λ (st, out, f) (s, v, m, c, n). ends (
            subst (λ s'. After (some (record q { fifo = f }, after_remove s' out))) (sym s)
              (record {
                sound = record { valid = v; refuses = m ∙ a.sound.refuses; cap = c ∙ a.sound.cap };
                free = omega (arith, a.free, a.full, n);
                full = omega (arith, a.full, n);
                fine = refl;
              }))

    timed_remove-Around :
        (wake : Wake) (q : Pcqueue A) (want : Bool)
        → Accounts q (timedpop_slot want)
        → Ends After (thread_step wake q (timedpop_slot want))
    unfolding thread_step Shrunk
    timed_remove-Around wake q want a =
        Ends-bind (fifo_remove-Shrunk d q.fifo want a.sound.valid (omega (arith, a.full)))
          λ (st, out, f) (s, v, m, c, n). ends (
            subst (λ s'. After (some (record q { fifo = f }, timedpop_removed s' out))) (sym s)
              (record {
                sound = record { valid = v; refuses = m ∙ a.sound.refuses; cap = c ∙ a.sound.cap };
                free = omega (arith, a.free, a.full, n);
                full = omega (arith, a.full, n);
                fine = refl;
              }))

    -- The posts.
    post_avail-Around :
        (q : Pcqueue A) (pc next : Pc A)
        → slot_weight pc ≡ 1
        → slot_weight next ≡ 0
        → use_weight pc ≡ use_weight next
        → error_weight next ≡ error_weight pc
        → Accounts q pc
        → Accounts (record q { slots_avail = q.slots_avail + 1 }) next
    post_avail-Around q pc next s0 s1 u e a = record {
      sound = record { valid = a.sound.valid; refuses = a.sound.refuses; cap = a.sound.cap };
      free = omega (arith, a.free, s0, s1);
      full = omega (arith, a.full, u);
      fine = e ∙ a.fine;
    }

    post_inuse-Around :
        (q : Pcqueue A) (pc next : Pc A)
        → slot_weight pc ≡ slot_weight next
        → use_weight pc ≡ 1
        → use_weight next ≡ 0
        → error_weight next ≡ 0
        → Accounts q pc
        → Accounts (record q { slots_inuse = q.slots_inuse + 1 }) next
    post_inuse-Around q pc next s u0 u1 e a = record {
      sound = record { valid = a.sound.valid; refuses = a.sound.refuses; cap = a.sound.cap };
      free = omega (arith, a.free, s);
      full = omega (arith, a.full, u0, u1);
      fine = e;
    }

    -- Every step of a thread ends, and keeps the accounts.
    pub thread_step-Next :
        (wake : Wake) (q : Pcqueue A) (pc : Pc A)
        → is_quiet wake pc ≡ true
        → Accounts q pc
        → Ends After (thread_step wake q pc)
    unfolding thread_step
    thread_step-Next wake q idle h a = ends tt
    thread_step-Next served q (push_call e) h a = ends (take_avail-Around q e a)
    thread_step-Next failed q (push_call e) h a = absurd (true-ne-false (sym h))
    thread_step-Next wake q (push_slot e) h a = add-Around wake q e a
    thread_step-Next wake q push_added h a =
        ends (post_inuse-Around q push_added (returned ok none) refl refl refl refl a)
    thread_step-Next served q (pop_call want) h a =
        ends (take_inuse-Around q (pop_call want) (pop_slot want) refl refl refl refl refl a)
    thread_step-Next failed q (pop_call want) h a = absurd (true-ne-false (sym h))
    thread_step-Next wake q (pop_slot want) h a = remove-Around wake q want a
    thread_step-Next wake q (pop_removed out) h a =
        ends (post_avail-Around q (pop_removed out) (returned ok out) refl refl refl refl a)
    thread_step-Next served q (timedpop_call want) h a =
        ends
          (take_inuse-Around q (timedpop_call want) (timedpop_slot want) refl refl refl refl refl a)
    thread_step-Next failed q (timedpop_call want) h a =
        ends (record { sound = a.sound; free = a.free; full = a.full; fine = refl })
    thread_step-Next wake q (timedpop_slot want) h a = timed_remove-Around wake q want a
    thread_step-Next wake q (timedpop_removed ok out) h a =
        ends (post_avail-Around q (timedpop_removed ok out) (returned ok out) refl refl refl refl a)
    thread_step-Next wake q (timedpop_removed (error n) out) h a = ends (
        post_avail-Around q (timedpop_removed (error n) out) (returned (error n) out) refl refl refl
          refl a)
    thread_step-Next served q peek_call h a =
        ends (take_inuse-Around q peek_call peek_slot refl refl refl refl refl a)
    thread_step-Next failed q peek_call h a = absurd (true-ne-false (sym h))
    thread_step-Next served q timedpeek_call h a =
        ends (take_inuse-Around q timedpeek_call peek_slot refl refl refl refl refl a)
    thread_step-Next failed q timedpeek_call h a =
        ends (record { sound = a.sound; free = a.free; full = a.full; fine = refl })
    thread_step-Next wake q peek_slot h a =
        ends (record { sound = a.sound; free = a.free; full = a.full; fine = refl })
    thread_step-Next wake q (peek_read i) h a =
        ends (post_inuse-Around q (peek_read i) (peeked i) refl refl refl refl a)
    thread_step-Next wake q (returned st out) h a = ends tt
    thread_step-Next wake q (peeked i) h a = ends tt
    thread_step-Next wake q gave_up h a = ends tt
