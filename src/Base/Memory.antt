-- ===== src/Base/Memory.antt =====
-- How a call on the memory ends, and the rules for calls that end well. A read or a write outside
-- an array is a fault; a loop that is cut off by its fuel is told apart from both.
use Prim.Native.Nat.{ℕ, zero, suc, ◌<◌, ◌≤◌}
use mathlib.Core.Path.{◌≡◌, refl}
use mathlib.Core.Bool.{Bool, true, false, ◌&&◌}
use mathlib.Core.List.{List, [], ◌∷◌}
use mathlib.Core.Option.{Option, none, some}
use native.Mathlib.Omega.{arith}
use rcsw.Base.Tests.{ltb, if◌then◌else◌}
use rcsw.Base.Lists.{length, get_elem?, get_or, set, get_elem?-eq-get_or}

pub data Exec {ℓ} (A : Type ℓ) : Type ℓ where
  done : A → Exec A
  fault out_of_fuel : Exec A

infixl 5 ◌>>=◌
abbrev pub ◌>>=◌ {ℓ κ} : {A : Type ℓ} {B : Type κ} → Exec A → (A → Exec B) → Exec B
done a >>= f = f a
fault >>= f = fault
out_of_fuel >>= f = out_of_fuel

pub from_option {ℓ} : {A : Type ℓ} → Option A → Exec A
from_option none = fault
from_option (some a) = done a

-- `arr[i]` as a value, and `arr[i] = v`.
unfoldable pub load {ℓ} : {A : Type ℓ} → List A → ℕ → Exec A
unfolding from_option
load arr i = from_option (get_elem? arr i)

unfoldable pub store {ℓ} : {A : Type ℓ} → List A → ℕ → A → Exec (List A)
store arr i v = if ltb i (length arr) then done (set arr i v) else fault

pub load-done {ℓ} :
    {A : Type ℓ} (arr : List A) (i : ℕ) (d : A)
    → i < length arr
    → load arr i ≡ done (get_or arr i d)
unfolding load
load-done arr i d h = ground (arith, get_elem?-eq-get_or arr i d h)

pub store-done {ℓ} :
    {A : Type ℓ} (arr : List A) (i : ℕ) (v : A)
    → i < length arr
    → store arr i v ≡ done (set arr i v)
unfolding store
store-done arr i v h = ground arith

pub store-fault {ℓ} :
    {A : Type ℓ} (arr : List A) (i : ℕ) (v : A) → length arr ≤ i → store arr i v ≡ fault
unfolding store
store-fault arr i v h = ground arith

pub load-fault {ℓ} : {A : Type ℓ} (arr : List A) (i : ℕ) → length arr ≤ i → load arr i ≡ fault
unfolding load from_option
load-fault [] i h = refl
load-fault (x ∷ arr) zero h = absurd (omega arith)
load-fault (x ∷ arr) (suc i) h = load-fault arr i (omega arith)

-- The call ends without a fault and within its fuel, with a value that satisfies `P`.
pub data Ends {ℓ κ} {A : Type ℓ} (P : A → Type κ) : Exec A → Type (ℓ ⊔ κ) where
  ends : {a : A} → P a → Ends P (done a)

module _ {ℓ κ} {A : Type ℓ} {P : A → Type κ} where
  pub Ends-bind {ℓ' κ'} :
      {B : Type ℓ'} {Q : B → Type κ'} {m : Exec A} {f : A → Exec B}
      → Ends P m
      → ((a : A) → P a → Ends Q (f a))
      → Ends Q (m >>= f)
  Ends-bind (ends p) k = k _ p

  pub Ends-map {κ'} : {Q : A → Type κ'} {m : Exec A} → Ends P m → ((a : A) → P a → Q a) → Ends Q m
  Ends-map (ends p) k = ends (k _ p)

  pub Ends-if :
      {x y : Exec A} (b : Bool)
      → (b ≡ true → Ends P x)
      → (b ≡ false → Ends P y)
      → Ends P (if b then x else y)
  Ends-if true p q = p refl
  Ends-if false p q = q refl

  -- A test of two conditions, the second read only after the first.
  pub Ends-if_and :
      {x y : Exec A} (b c : Bool)
      → (b ≡ true → c ≡ true → Ends P x)
      → (b ≡ false → Ends P y)
      → (b ≡ true → c ≡ false → Ends P y)
      → Ends P (if b && c then x else y)
  Ends-if_and true true p q r = p refl refl
  Ends-if_and true false p q r = r refl refl
  Ends-if_and false c p q r = q refl

  pub Ends-inv : {m : Exec A} → Ends P m → (a : A) × (m ≡ done a) × P a
  Ends-inv (ends p) = (_, refl, p)

-- Two calls in a row, bracketed the other way.
pub Ends-assoc {ℓ ℓ' ℓ'' κ} :
    {A : Type ℓ} {B : Type ℓ'} {C : Type ℓ''} {P : C → Type κ} (m : Exec A) (f : A → Exec B)
    (g : B → Exec C)
    → Ends P ((m >>= f) >>= g)
    → Ends P (m >>= (λ a. f a >>= g))
Ends-assoc (done a) f g h = h
Ends-assoc fault f g h = h
Ends-assoc out_of_fuel f g h = h
