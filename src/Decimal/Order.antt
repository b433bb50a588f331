-- ===== src/Decimal/Order.antt =====
-- What the tests of the decimals say of differences and minima.
use crypto_exchange_lab.Prelude.{◌≡◌, ◌⊎◌, ◌∙◌, arith, true, false}
use crypto_exchange_lab.Decimal.{Decimal, Amount, nil, ◌⊖◌, ◌≺◌, ◌≼◌, minimum, is_zero, greater}
use crypto_exchange_lab.Decimal.Laws.{
  minus_self, cmp-minus, cmp_refl, cmp_flip, cmp_flip_gt, eq_of_cmp,
}

module _ ⦃d : Decimal⦄ where
  pub minus_pos : (a b : Amount) → b ≺ a → nil ≺ a ⊖ b
  minus_pos a b h = cmp-minus a b ∙ h

  pub is_zero-minus_self : (a : Amount) → is_zero (a ⊖ a) ≡ true
  is_zero-minus_self a = ground (arith, minus_self a, cmp_refl nil)

  pub is_zero-pos : (a : Amount) → nil ≺ a → is_zero a ≡ false
  is_zero-pos a h = ground (arith, cmp_flip nil a)

  pub greater-zero : (a : Amount) → a ≡ nil → greater a nil ≡ false
  greater-zero a e = ground (arith, cmp_refl nil)

  pub pos_of_greater : (a : Amount) → greater a nil ≡ true → nil ≺ a
  pos_of_greater a h = ground (arith, cmp_flip_gt a nil)

  -- Two positive amounts less their minimum: the second is used up, or the first is and some of
  -- the second is left.
  pub minus-minimum_cases :
      (a b : Amount)
      → ((minimum a b ≡ b) × (is_zero (b ⊖ minimum a b) ≡ true))
        ⊎ ((a ≺ b) × (minimum a b ≡ a) × (a ⊖ minimum a b ≡ nil) × (nil ≺ b ⊖ minimum a b))
  minus-minimum_cases a b = ground (
    arith,
    eq_of_cmp a b,
    is_zero-minus_self b,
    is_zero-minus_self a,
    minus_self a,
    minus_pos b a,
  )

  pub minimum_comm : (a b : Amount) → minimum a b ≡ minimum b a
  minimum_comm a b = ground (
    arith,
    eq_of_cmp a b,
    cmp_flip a b,
    cmp_flip_gt a b,
    cmp_flip b a,
    cmp_flip_gt b a,
    eq_of_cmp b a,
  )

  pub minimum-le_left : (a b : Amount) → minimum a b ≼ a
  minimum-le_left a b = ground (arith, cmp_refl a, cmp_flip_gt a b)

  pub minimum-le_right : (a b : Amount) → minimum a b ≼ b
  minimum-le_right a b = ground (arith, cmp_refl b)

  pub zero_of_not-greater : (a : Amount) → nil ≼ a → greater a nil ≡ false → a ≡ nil
  zero_of_not-greater a h g = ground (arith, eq_of_cmp a nil, cmp_flip a nil)
