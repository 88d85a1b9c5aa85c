-- ===== src/Base/Orders.antt =====
-- What the laws of a comparison callback give: its tests read as the order `≼`.
use Prim.Native.Nat.{Ordering}
use mathlib.Core.Path.{◌≡◌, refl, ap}
use mathlib.Core.Logic.{◌≢◌}
use mathlib.Core.Bool.{true, false}
use native.Mathlib.Omega.{arith}
use rcsw.Base.Codes.{Element, IsOrder, ◌≼◌, flip_sign, cmp_le, cmp_gt, cmp_lt, cmp_eq}

module _ {ℓ} {A : Type ℓ} ⦃el : Element A⦄ where
  pub ≼_of_cmp_le : (a b : A) → cmp_le a b ≡ true → a ≼ b
  ≼_of_cmp_le a b h g = ground arith

  pub ≼_of_not-cmp_gt : (a b : A) → cmp_gt a b ≡ false → a ≼ b
  ≼_of_not-cmp_gt a b h g = ground arith

  pub ≼_of_cmp_eq : (a b : A) → cmp_eq a b ≡ true → a ≼ b
  ≼_of_cmp_eq a b h g = ground arith

  pub ≼_of_cmp_lt : (a b : A) → cmp_lt a b ≡ true → a ≼ b
  ≼_of_cmp_lt a b h g = ground arith

  pub cmp_le_of_≼ : (a b : A) → a ≼ b → cmp_le a b ≡ true
  cmp_le_of_≼ a b h = ground (arith, h)

  module _ (ord : IsOrder A) where
    pub ≼_refl : (a : A) → a ≼ a
    ≼_refl a = self (el.cmpe a a) (ord.flip a a)
      where
        self : (o : Ordering) → o ≡ flip_sign o → o ≢ Ordering.gt
        self Ordering.lt e g = cc
        self Ordering.eq e g = cc
        self Ordering.gt e g = cc

    -- What is not below is above.
    pub ≼_of_not : (a b : A) → el.cmpe a b ≡ Ordering.gt → b ≼ a
    ≼_of_not a b h g = cc (ord.flip a b, ap flip_sign h)

    pub ≼_of_cmp_gt : (a b : A) → cmp_gt a b ≡ true → b ≼ a
    ≼_of_cmp_gt a b h = ≼_of_not a b (is_gt (el.cmpe a b) h)
      where
        is_gt : (o : Ordering) → elim o [ Ordering.gt ↦ true | _ ↦ false ] ≡ true → o ≡ Ordering.gt
        is_gt Ordering.gt e = refl
        is_gt Ordering.lt e = cc
        is_gt Ordering.eq e = cc

    pub ≼_of_not-cmp_le : (a b : A) → cmp_le a b ≡ false → b ≼ a
    ≼_of_not-cmp_le a b h = ≼_of_not a b (is_gt (el.cmpe a b) h)
      where
        is_gt : (o : Ordering) → elim o [ Ordering.gt ↦ false | _ ↦ true ] ≡ false → o ≡ Ordering.gt
        is_gt Ordering.gt e = refl
        is_gt Ordering.lt e = cc
        is_gt Ordering.eq e = cc

    pub ≼_of_not-cmp_lt : (a b : A) → cmp_lt a b ≡ false → b ≼ a
    ≼_of_not-cmp_lt a b h g = above (el.cmpe a b) h (el.cmpe b a) (ord.flip a b) g
      where
        above :
            (o : Ordering)
            → elim o [ Ordering.lt ↦ true | _ ↦ false ] ≡ false
            → (o' : Ordering) → o' ≡ flip_sign o
            → o' ≢ Ordering.gt
        above Ordering.lt e o' f g' = cc
        above Ordering.eq e o' f g' = cc
        above Ordering.gt e o' f g' = cc

    -- No element is above itself.
    pub not-cmp_gt_self : (a : A) → ¬ (cmp_gt a a ≡ true)
    not-cmp_gt_self a h = ground (arith, ≼_refl a)
