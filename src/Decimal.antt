-- ===== src/Decimal.antt =====
-- The numbers of github.com/shopspring/decimal, which is not part of the repository: an interface
-- with the operations that the repository calls and the documented laws of exact decimal
-- arithmetic. Two decimals are equal here when `Equal` says so. Money amounts, prices and sizes of
-- every component are of this type (packages/go-common/money/money.go).
pub mod Laws
pub mod Order
pub mod Whole
use crypto_exchange_lab.Prelude.{◌≡◌, ◌≢◌, Bool, true, false, Option, some, String, ℕ, Ordering}

pub record Decimal : Type 1 where
  pub Carrier : Type 0
  pub zero_value : Carrier
  pub plus : Carrier → Carrier → Carrier
  pub minus : Carrier → Carrier → Carrier
  pub negate : Carrier → Carrier
  pub times : Carrier → Carrier → Carrier
  pub quotient : Carrier → Carrier → Carrier
  pub compared : Carrier → Carrier → Ordering
  pub of_nat : ℕ → Carrier
  pub text : Carrier → String
  pub of_text : String → Option Carrier
  -- `Add`, `Sub` and `Neg` are exact.
  pub plus_comm : (a b : Carrier) → plus a b ≡ plus b a
  pub plus_assoc : (a b c : Carrier) → plus (plus a b) c ≡ plus a (plus b c)
  pub plus-zero : (a : Carrier) → plus a zero_value ≡ a
  pub plus-negate : (a : Carrier) → plus a (negate a) ≡ zero_value
  pub minus-plus : (a b : Carrier) → minus a b ≡ plus a (negate b)
  -- `Mul` is exact.
  pub times_comm : (a b : Carrier) → times a b ≡ times b a
  pub times-plus : (a b c : Carrier) → times (plus a b) c ≡ plus (times a c) (times b c)
  -- `Cmp` is the order of the values.
  pub compared_refl : (a : Carrier) → compared a a ≡ Ordering.eq
  pub eq_of_compared : (a b : Carrier) → compared a b ≡ Ordering.eq → a ≡ b
  pub compared_flip : (a b : Carrier) → compared a b ≡ Ordering.lt → compared b a ≡ Ordering.gt
  pub compared_flip_gt : (a b : Carrier) → compared a b ≡ Ordering.gt → compared b a ≡ Ordering.lt
  pub compared_trans :
      (a b c : Carrier)
      → compared a b ≡ Ordering.lt
      → compared b c ≡ Ordering.lt
      → compared a c ≡ Ordering.lt
  pub compared-plus : (a b c : Carrier) → compared (plus a c) (plus b c) ≡ compared a b
  pub times_pos :
      (a b : Carrier)
      → compared zero_value a ≡ Ordering.lt
      → compared zero_value b ≡ Ordering.lt
      → compared zero_value (times a b) ≡ Ordering.lt
  -- `NewFromString` reads back what `String` prints.
  pub of_text-text : (a : Carrier) → of_text (text a) ≡ some a

module _ ⦃d : Decimal⦄ where
  abbrev pub Amount : Type 0
  Amount = d.Carrier

  abbrev pub nil : Amount
  nil = d.zero_value

  infixl 65 ◌⊕◌ ◌⊖◌
  infixl 70 ◌⊗◌
  abbrev pub ◌⊕◌ : Amount → Amount → Amount
  a ⊕ b = d.plus a b

  abbrev pub ◌⊖◌ : Amount → Amount → Amount
  a ⊖ b = d.minus a b

  abbrev pub ◌⊗◌ : Amount → Amount → Amount
  a ⊗ b = d.times a b

  abbrev pub neg : Amount → Amount
  neg a = d.negate a

  abbrev pub cmp : Amount → Amount → Ordering
  cmp a b = d.compared a b

  -- `LessThan`, `GreaterThan`, `LessThanOrEqual`, `GreaterThanOrEqual`, `Equal` and `IsZero`.
  abbrev pub less : Amount → Amount → Bool
  less a b = elim (cmp a b) [ Ordering.lt ↦ true | _ ↦ false ]

  abbrev pub greater : Amount → Amount → Bool
  greater a b = elim (cmp a b) [ Ordering.gt ↦ true | _ ↦ false ]

  abbrev pub less_or_equal : Amount → Amount → Bool
  less_or_equal a b = elim (cmp a b) [ Ordering.gt ↦ false | _ ↦ true ]

  abbrev pub greater_or_equal : Amount → Amount → Bool
  greater_or_equal a b = elim (cmp a b) [ Ordering.lt ↦ false | _ ↦ true ]

  abbrev pub equal : Amount → Amount → Bool
  equal a b = elim (cmp a b) [ Ordering.eq ↦ true | _ ↦ false ]

  abbrev pub is_zero : Amount → Bool
  is_zero a = equal a nil

  -- The strict and the weak order as propositions.
  infix 50 ◌≺◌ ◌≼◌
  abbrev pub ◌≺◌ : Amount → Amount → Type 0
  a ≺ b = cmp a b ≡ Ordering.lt

  abbrev pub ◌≼◌ : Amount → Amount → Type 0
  a ≼ b = cmp a b ≢ Ordering.gt

  -- `decimal.Min`.
  abbrev pub minimum : Amount → Amount → Amount
  minimum a b = elim (cmp a b) [ Ordering.gt ↦ b | _ ↦ a ]
