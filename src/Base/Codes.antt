-- ===== src/Base/Codes.antt =====
-- Return codes with `errno`, and what a container is given about its elements.
use Prim.Native.Nat.{Ordering}
use mathlib.Core.Path.{◌≡◌}
use mathlib.Core.Logic.{◌≢◌}
use mathlib.Core.Bool.{Bool}
use rcsw.Base.Tests.{if◌then◌else◌}

-- The values of `errno` that the modelled calls set; `unset` where they return ERROR without one.
pub data Errno : Type 0 where
  unset einval enospc eagain enomem : Errno

-- `status_t` (include/rcsw/al/types.h): OK, or ERROR with the `errno` left behind.
pub data Status : Type 0 where
  ok : Status
  error : Errno → Status

-- `rcsw_alloc`: with a NOALLOC flag the caller's pointer is taken as it is, else `malloc` is
-- asked. The result says whether the pointer is non-NULL.
unfoldable pub alloc : (noalloc caller_ptr malloc_ok : Bool) → Bool
alloc noalloc caller_ptr malloc_ok = if noalloc then caller_ptr else malloc_ok

-- An element type as the library sees it: the comparison callback `cmpe`, of whose `int` result the
-- library reads only the sign, and the elements whose bytes are all 0x00 and all 0xff.
pub record Element {ℓ} (A : Type ℓ) : Type ℓ where
  pub cmpe : A → A → Ordering
  pub zeroed : A
  pub filled : A

abbrev pub flip_sign : Ordering → Ordering
flip_sign Ordering.lt = Ordering.gt
flip_sign Ordering.eq = Ordering.eq
flip_sign Ordering.gt = Ordering.lt

module _ {ℓ} {A : Type ℓ} ⦃el : Element A⦄ where
  -- `cmpe(a, b) <= 0`, `cmpe(a, b) > 0`, `cmpe(a, b) < 0` and `cmpe(a, b) == 0`
  abbrev pub cmp_le : A → A → Bool
  cmp_le a b = elim (el.cmpe a b) [ Ordering.gt ↦ Bool.false | _ ↦ Bool.true ]

  abbrev pub cmp_gt : A → A → Bool
  cmp_gt a b = elim (el.cmpe a b) [ Ordering.gt ↦ Bool.true | _ ↦ Bool.false ]

  abbrev pub cmp_lt : A → A → Bool
  cmp_lt a b = elim (el.cmpe a b) [ Ordering.lt ↦ Bool.true | _ ↦ Bool.false ]

  abbrev pub cmp_eq : A → A → Bool
  cmp_eq a b = elim (el.cmpe a b) [ Ordering.eq ↦ Bool.true | _ ↦ Bool.false ]

-- What the caller of a sorting or searching routine promises of `cmpe`: the sign of the result
-- changes with the order of the arguments, and "not greater" is transitive.
pub record IsOrder {ℓ} (A : Type ℓ) ⦃el : Element A⦄ : Type ℓ where
  pub flip : (a b : A) → el.cmpe b a ≡ flip_sign (el.cmpe a b)
  pub trans :
      (a b c : A)
      → el.cmpe a b ≢ Ordering.gt
      → el.cmpe b c ≢ Ordering.gt
      → el.cmpe a c ≢ Ordering.gt

module _ {ℓ} {A : Type ℓ} ⦃el : Element A⦄ where
  infix 50 ◌≼◌
  abbrev pub ◌≼◌ : A → A → Type 0
  a ≼ b = el.cmpe a b ≢ Ordering.gt

-- `RCSW_FPC_NV` with a status: the first condition that fails ends the call with EINVAL.
abbrev pub checked {ℓ} : {B : Type ℓ} → Bool → B → B → B
checked c failed rest = if c then rest else failed
