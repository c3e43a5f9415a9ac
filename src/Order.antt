-- ===== src/Order.antt =====
-- The template parameter `T` of the queues: what `operator<` of the element types promises.
-- Distances are floats without NaN, so their order is a strict weak order.
use sptag.Base.{◌≡◌, Bool, true, false, arith}

pub record Ordered {ℓ} (T : Type ℓ) : Type ℓ where
  -- what `new T[n]` fills an array with
  pub default : T
  -- `operator<`
  pub less : T → T → Bool
  pub less_asymm : (a b : T) → less a b ≡ true → less b a ≡ false
  pub less_cotrans : (a b c : T) → less b a ≡ false → less c b ≡ false → less c a ≡ false

module _ {ℓ} {T : Type ℓ} ⦃order : Ordered T⦄ where
  abbrev pub less : T → T → Bool
  less a b = order.less a b

  -- `a` stands no later than `b`
  infix 50 ◌≼◌
  abbrev pub ◌≼◌ : T → T → Type 0
  a ≼ b = order.less b a ≡ false

  pub ≼_refl : (a : T) → a ≼ a
  ≼_refl a = ground (arith, order.less_asymm a a)

  pub ≼_trans : (a b c : T) → a ≼ b → b ≼ c → a ≼ c
  ≼_trans a b c = order.less_cotrans a b c

  pub ≼_of_less : (a b : T) → less a b ≡ true → a ≼ b
  ≼_of_less a b = order.less_asymm a b
