-- ===== src/Pcqueue/Accounts.antt =====
-- The accounts of the queue: every slot of the FIFO is free, filled, or in the hands of a thread.
use rcsw.Base.{
  ℕ, ◌+◌, ◌-◌, ◌<◌, ◌≡◌, refl, Bool, true, false, ◌&&◌, Option, none, some, arith, ◌==◌, test_false,
  Ends, ends, Ends-bind, Ends-if, Status, ok, error, set,
}
use rcsw.Rbuffer as Ring
use rcsw.Rbuffer.{add_size, Rbuffer}
use rcsw.Fifo
use rcsw.Fifo.{Fifo}
use rcsw.Rbuffer.Inv.{IsValid, add_lem, remove_lem, tail, dropped-IsValid, advance-IsValid}
use rcsw.Pcqueue.{
  Pcqueue, Pc, push_slot, push_added, pop_slot, timedpop_slot, pop_removed, timedpop_removed,
  peek_slot, peek_read, returned,
}

module _ {ℓ} {A : Type ℓ} where
  -- A slot that a thread holds: taken from the free ones and not yet filled, or emptied and not yet
  -- given back.
  abbrev pub slot_weight : Pc A → ℕ
  slot_weight (push_slot e) = 1
  slot_weight (pop_removed out) = 1
  slot_weight (timedpop_removed st out) = 1
  slot_weight pc = 0

  -- An element that a thread holds: added and not yet announced, or promised to it.
  abbrev pub use_weight : Pc A → ℕ
  use_weight push_added = 1
  use_weight (pop_slot want) = 1
  use_weight (timedpop_slot want) = 1
  use_weight peek_slot = 1
  use_weight (peek_read i) = 1
  use_weight pc = 0

  -- A call whose part in the FIFO has failed.
  abbrev pub error_weight : Pc A → ℕ
  error_weight (returned (error n) out) = 1
  error_weight (timedpop_removed (error n) out) = 1
  error_weight pc = 0

  abbrev pub size : Pcqueue A → ℕ
  size q = q.fifo.rb.current

  pub record IsSound (max_elts : ℕ) (q : Pcqueue A) : Type 0 where
    pub valid : IsValid q.fifo.rb
    pub refuses : q.fifo.rb.as_fifo ≡ true
    pub cap : q.fifo.rb.max_elts ≡ max_elts

  -- The accounts, with what the other threads hold.
  pub record Around (max_elts slots uses : ℕ) (q : Pcqueue A) (pc : Pc A) : Type 0 where
    pub sound : IsSound max_elts q
    pub free : q.slots_avail + (slots + slot_weight pc) + size q ≡ max_elts
    pub full : q.slots_inuse + (uses + use_weight pc) ≡ size q
    pub fine : error_weight pc ≡ 0

  abbrev pub Next : (max_elts slots uses : ℕ) → Option (Pcqueue A × Pc A) → Type 0
  Next max_elts slots uses none = Unit
  Next max_elts slots uses (some (q, pc)) = Around max_elts slots uses q pc

  unfoldable pub Grown : Rbuffer A → Status × Rbuffer A → Type 0
  Grown rb (st, out) =
      (st ≡ ok)
      × IsValid out
      × (out.as_fifo ≡ rb.as_fifo)
      × (out.max_elts ≡ rb.max_elts)
      × (out.current ≡ rb.current + 1)

  advance-Grown :
      (rb : Rbuffer A) (e : A)
      → IsValid rb
      → rb.current < rb.max_elts
      → Grown rb (ok, Ring.advance rb (set rb.elements (tail rb) e))
  unfolding Ring.advance Ring.is_full Grown
  advance-Grown rb e v h =
      let room : (rb.current == rb.max_elts) ≡ false = test_false _ _ (omega arith) in
      let exact : add_size rb.current 1 ≡ rb.current + 1 = omega (arith, v.small) in
      (refl, advance-IsValid e v, rw room refl, rw room refl, rw room exact)

  ring_add-Grown :
      (rb : Rbuffer A) (e : A)
      → IsValid rb
      → rb.current < rb.max_elts
      → Ends (Grown rb) (Ring.add rb e)
  unfolding Ring.is_full
  ring_add-Grown rb e v h = rw (add_lem e v) (
      Ends-if (rb.as_fifo && Ring.is_full rb) (λ q. absurd (not_full q))
        (λ _. ends (advance-Grown rb e v h)))
    where
      not_full : (rb.as_fifo && Ring.is_full rb) ≡ true → ⊥
      not_full q = ground (arith, q, h)

  unfoldable pub Shrunk : Rbuffer A → Status × Option A × Rbuffer A → Type 0
  Shrunk rb (st, o, out) =
      (st ≡ ok)
      × IsValid out
      × (out.as_fifo ≡ rb.as_fifo)
      × (out.max_elts ≡ rb.max_elts)
      × (out.current ≡ rb.current - 1)

  ring_remove-Shrunk :
      (d : A) (rb : Rbuffer A) (want : Bool)
      → IsValid rb
      → 0 < rb.current
      → Ends (Shrunk rb) (Ring.remove rb want)
  unfolding Shrunk Ring.is_empty
  ring_remove-Shrunk d rb want v h = rw (remove_lem d want v) (
      Ends-if (Ring.is_empty rb) (λ q. absurd (not_empty q))
        (λ _. ends (refl, dropped-IsValid v, refl, refl, refl)))
    where
      not_empty : Ring.is_empty rb ≡ true → ⊥
      not_empty q = ground (arith, q, h)

  pub fifo_add-Grown :
      (f : Fifo A) (e : A)
      → IsValid f.rb
      → f.rb.current < f.rb.max_elts
      → Ends (λ (st, f'). Grown f.rb (st, f'.rb)) (Fifo.add f e)
  unfolding Fifo.add
  fifo_add-Grown f e v h = Ends-bind (ring_add-Grown f.rb e v h) λ r g. ends g

  pub fifo_remove-Shrunk :
      (d : A) (f : Fifo A) (want : Bool)
      → IsValid f.rb
      → 0 < f.rb.current
      → Ends (λ (st, o, f'). Shrunk f.rb (st, o, f'.rb)) (Fifo.remove f want)
  unfolding Fifo.remove
  fifo_remove-Shrunk d f want v h = Ends-bind (ring_remove-Shrunk d f.rb want v h) λ r g. ends g
