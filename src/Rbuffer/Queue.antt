-- ===== src/Rbuffer/Queue.antt =====
-- What a ring buffer promises: a list of at most `cap` elements, oldest first. A full buffer that
-- acts as a FIFO refuses an element, any other forgets its oldest one.
use rcsw.Base.{
  ℕ, Bool, Option, none, some, List, [], ◌∷◌, ◌++◌, ◌==◌, if◌then◌else◌, Status, ok, error, einval,
  enospc, length, drop,
}

module _ {ℓ} {A : Type ℓ} where
  unfoldable pub push : (as_fifo : Bool) (cap : ℕ) → List A → A → Status × List A
  push as_fifo cap q e =
      if length q == cap
      then if as_fifo then (error enospc, q) else (ok, drop 1 (q ++ e ∷ []))
      else (ok, q ++ e ∷ [])

  unfoldable pub pop : (want : Bool) → List A → Status × Option A × List A
  pop want [] = (error einval, none, [])
  pop want (x ∷ q) = (ok, (if want then some x else none), q)

  unfoldable pub peek : List A → Status × Option A
  peek [] = (error einval, none)
  peek (x ∷ q) = (ok, some x)
