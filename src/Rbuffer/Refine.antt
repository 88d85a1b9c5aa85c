-- ===== src/Rbuffer/Refine.antt =====
-- A valid ring buffer behaves as the queue of the elements that it holds.
use native.Mathlib.Nat.{add-zero, mod-add-mod, mod-eq_of_lt, mod-eq-sub-mod}
use rcsw.Base.{
  ℕ, zero, suc, ◌+◌, ◌-◌, ◌%◌, ◌≤◌, ◌<◌, ◌≡◌, ◌≢◌, refl, sym, ap, ap₂, ltb, ◌∙◌, Bool, false, ◌&&◌,
  List, [], ◌∷◌, ◌++◌, arith, ◌==◌, if◌then◌else◌, ok, length, length-append, drop, get_or, set,
  get_or-set, lt-or-le, inl, inr, Ends, ends, Ends-if,
}
use rcsw.Rbuffer.{Rbuffer, add, remove, advance, is_full, is_empty}
use rcsw.Rbuffer.Inv.{
  IsValid, slot, tail, next_start, add_lem, remove_lem, dropped, dropped-IsValid, advance-IsValid,
}
use rcsw.Rbuffer.Queue

-- A sum of two indices wraps at most once.
pub wrap_once :
    (cap s k : ℕ)
    → s < cap
    → k ≤ cap
    → (s + k) % cap ≡ (if ltb (s + k) cap then s + k else s + k - cap)
wrap_once cap s k hs hk = elim (lt-or-le (s + k) cap) [
  | inl p ↦ ground (arith, mod-eq_of_lt p)
  | inr p ↦ ground (arith, mod-eq-sub-mod p, mod-eq_of_lt {n = s + k - cap} {m = cap} (omega arith))
]

-- Fewer than `cap` steps round the ring do not come back to the same slot.
pub ring_ne : (cap s i j : ℕ) → s < cap → i < j → j < cap → (s + j) % cap ≢ (s + i) % cap
ring_ne cap s i j hs hi hj =
    ground (arith, wrap_once cap s i hs (omega arith), wrap_once cap s j hs (omega arith))

module _ {ℓ} {A : Type ℓ} (d : A) where
  -- The `n` elements from slot `s` on.
  abbrev pub window : List A → (cap s n : ℕ) → List A
  window es cap s zero = []
  window es cap s (suc n) = window es cap s n ++ get_or es ((s + n) % cap) d ∷ []

  pub length-window : (es : List A) (cap s n : ℕ) → length (window es cap s n) ≡ n
  length-window es cap s zero = refl
  length-window es cap s (suc n) = omega (
    arith,
    length-window es cap s n,
    length-append (window es cap s n) (get_or es ((s + n) % cap) d ∷ []),
  )

  -- Seen from the other end: the front element, and the window one slot further.
  window-front :
      (es : List A) (cap s n : ℕ)
      → s < cap
      → window es cap s (suc n) ≡ get_or es s d ∷ window es cap ((s + 1) % cap) n
  window-front es cap s zero h = rw (add-zero, mod-eq_of_lt h)
  window-front es cap s (suc n) h =
      let further : (s + suc n) % cap ≡ ((s + 1) % cap + n) % cap =
        ap (λ k. k % cap) (omega arith) ∙ sym (mod-add-mod (s + 1) cap n) in
      ap₂ (λ w x. w ++ get_or es x d ∷ []) (window-front es cap s n h) further

  -- A write outside a window leaves it alone.
  window-set :
      (es : List A) (cap s n k : ℕ) (v : A)
      → cap ≡ length es
      → s < cap
      → n ≤ k
      → k < cap
      → window (set es ((s + k) % cap) v) cap s n ≡ window es cap s n
  window-set es cap s zero k v hl hs hn hk = refl
  window-set es cap s (suc n) k v hl hs hn hk =
      ap₂ (λ w x. w ++ x ∷ []) (window-set es cap s n k v hl hs (omega arith) hk)
        (ground (
          arith,
          ring_ne cap s n k hs hn hk,
          get_or-set es ((s + k) % cap) ((s + n) % cap) v d (omega arith),
        ))

  -- A write just past a window extends it by that element.
  pub window-push :
      (es : List A) (cap s n : ℕ) (v : A)
      → cap ≡ length es
      → s < cap
      → n < cap
      → window (set es ((s + n) % cap) v) cap s (suc n) ≡ window es cap s n ++ v ∷ []
  window-push es cap s n v hl hs hn =
      ap₂ (λ w x. w ++ x ∷ []) (window-set es cap s n n v hl hs (omega arith) hn)
        (ground (arith, get_or-set es ((s + n) % cap) ((s + n) % cap) v d (omega arith)))

  abbrev pub contents : Rbuffer A → List A
  contents rb = window rb.elements rb.max_elts rb.start rb.current

  pub length-contents : (rb : Rbuffer A) → length (contents rb) ≡ rb.current
  length-contents rb = length-window rb.elements rb.max_elts rb.start rb.current

  advance_room :
      {rb : Rbuffer A} (es : List A)
      → IsValid rb
      → rb.current < rb.max_elts
      → advance rb es ≡ record rb { elements = es; current = suc rb.current }
  unfolding advance
  advance_room {rb} es v h = ground arith

  advance_full :
      {rb : Rbuffer A} (es : List A)
      → IsValid rb
      → rb.current ≡ rb.max_elts
      → advance rb es ≡ record rb { elements = es; start = slot rb 1 }
  unfolding advance
  advance_full {rb} es v h = ground (arith, next_start v)

  contents-advance_room :
      {rb : Rbuffer A} (e : A)
      → IsValid rb
      → rb.current < rb.max_elts
      → contents (advance rb (set rb.elements (tail rb) e)) ≡ contents rb ++ e ∷ []
  contents-advance_room {rb} e v h =
      ap contents (advance_room _ v h)
      ∙ window-push rb.elements rb.max_elts rb.start rb.current e (sym v.whole) v.start_in h

  -- A full window, written at its front and moved on by one slot.
  window-turn :
      (es : List A) (cap s m : ℕ) (e : A)
      → cap ≡ length es
      → s < cap
      → cap ≡ suc m
      → window (set es ((s + suc m) % cap) e) cap ((s + 1) % cap) (suc m)
        ≡ drop 1 (window es cap s (suc m) ++ e ∷ [])
  window-turn es cap s m e hl hs hm =
      let s1 = (s + 1) % cap in
      let same : (s + suc m) % cap ≡ (s1 + m) % cap =
        ap (λ k. k % cap) (omega arith) ∙ sym (mod-add-mod (s + 1) cap m) in
      ap (λ k. window (set es k e) cap s1 (suc m)) same
      ∙ window-push es cap s1 m e hl (omega arith) (omega arith)
      ∙ sym (ap (λ w. drop 1 (w ++ e ∷ [])) (window-front es cap s m hs))

  contents-advance_full :
      {rb : Rbuffer A} (e : A)
      → IsValid rb
      → rb.current ≡ rb.max_elts
      → contents (advance rb (set rb.elements (tail rb) e)) ≡ drop 1 (contents rb ++ e ∷ [])
  contents-advance_full {rb} e v h =
      ap contents (advance_full _ v h)
      ∙ (let count : rb.current ≡ suc (rb.max_elts - 1) = omega arith in
          rw count (
            window-turn rb.elements rb.max_elts rb.start (rb.max_elts - 1) e (sym v.whole)
              v.start_in (omega arith)))

  advance-kept :
      (rb : Rbuffer A) (es : List A)
      → ((advance rb es).max_elts ≡ rb.max_elts) × ((advance rb es).as_fifo ≡ rb.as_fifo)
  unfolding advance
  advance-kept rb es = ground arith

  push-advance :
      {rb : Rbuffer A} (e : A)
      → IsValid rb
      → (rb.as_fifo && is_full rb) ≡ false
      → (ok, contents (advance rb (set rb.elements (tail rb) e)))
        ≡ Queue.push rb.as_fifo rb.max_elts (contents rb) e
  unfolding Queue.push is_full
  push-advance {rb} e v q = elim (lt-or-le rb.current rb.max_elts) [
    | inl p ↦ ground (arith, length-contents rb, contents-advance_room e v p)
    | inr p ↦ ground (arith, length-contents rb, contents-advance_full e v (omega arith))
  ]

  -- What `rbuffer_add` returns is what the queue's `push` returns, and the buffer then holds the
  -- queue that `push` leaves; the call does not fault, and the invariant and the capacity stay.
  pub add_refines :
      {rb : Rbuffer A} (e : A)
      → IsValid rb
      → Ends
          (λ r.
            ((r.0, contents r.1) ≡ Queue.push rb.as_fifo rb.max_elts (contents rb) e)
            × IsValid r.1
            × (r.1.max_elts ≡ rb.max_elts)
            × (r.1.as_fifo ≡ rb.as_fifo))
          (add rb e)
  unfolding Queue.push is_full
  add_refines {rb} e v =
      let kept = advance-kept rb (set rb.elements (tail rb) e) in
      rw (add_lem e v) (
        Ends-if (rb.as_fifo && is_full rb)
          (λ q. ends (ground (arith, length-contents rb), v, refl, refl))
          (λ q. ends (push-advance e v q, advance-IsValid e v, kept.0, kept.1)))

  pub contents-empty : (rb : Rbuffer A) → rb.current ≡ 0 → contents rb ≡ []
  contents-empty rb h = ap (window rb.elements rb.max_elts rb.start) h

  pub contents-front :
      (rb : Rbuffer A)
      → IsValid rb
      → 0 < rb.current
      → contents rb ≡ get_or rb.elements rb.start d ∷ contents (dropped rb)
  contents-front rb v h =
      let count : rb.current ≡ suc (rb.current - 1) = omega arith in
      ap (window rb.elements rb.max_elts rb.start) count
      ∙ window-front rb.elements rb.max_elts rb.start (rb.current - 1) v.start_in

  -- `rbuffer_remove` likewise against `pop`.
  pub remove_refines :
      {rb : Rbuffer A} (want : Bool)
      → IsValid rb
      → Ends
          (λ r.
            ((r.0, r.1, contents r.2) ≡ Queue.pop want (contents rb))
            × IsValid r.2
            × (r.2.max_elts ≡ rb.max_elts)
            × (r.2.as_fifo ≡ rb.as_fifo))
          (remove rb want)
  unfolding Queue.pop is_empty
  remove_refines {rb} want v = rw (remove_lem d want v) (
      Ends-if (rb.current == 0) (λ q. ends (rw (contents-empty rb (ground arith)), v, refl, refl))
        (λ q.
          let pos : 0 < rb.current = ground arith in
          ends (rw (contents-front rb v pos), dropped-IsValid v, refl, refl)))
