-- ===== src/Orders/Balanced.antt =====
-- The legs of a match as account-service reads them.
use crypto_exchange_lab.Prelude.{
  ◌≡◌, refl, sym as inverse, ap, ◌∙◌, String, List, [], ◌∷◌, ◌==◌, inl, inr, Bool-cases,
}
use crypto_exchange_lab.Decimal.{Decimal, Amount, nil, ◌⊕◌, neg}
use crypto_exchange_lab.Decimal.Laws.{plus_comm, plus_assoc, plus-zero, plus-neg, plus_left_zero}
use crypto_exchange_lab.Errors.{ok}
use crypto_exchange_lab.Account.Store.{LedgerLeg}
use crypto_exchange_lab.Account.Handler.{parse, parse_legs}
use crypto_exchange_lab.Account.Settlement.{leg_sum}
use crypto_exchange_lab.Orders.Store.{Symbol}
use crypto_exchange_lab.Orders.Settle.{MatchTrade, trade_legs}

module _ ⦃d : Decimal⦄ where
  pub parse-text : (x : Amount) → parse (d.text x) ≡ ok x
  unfolding parse
  parse-text x = rw (d.of_text-text x, parse) refl

  abbrev pub read_legs : Symbol → MatchTrade → Amount → Amount → List LedgerLeg
  read_legs sym mt n q =
      record { user_id = mt.buyer_user_id; asset = sym.quote_asset; amount = neg n }
      ∷ record { user_id = mt.buyer_user_id; asset = sym.base_asset; amount = q }
      ∷ record { user_id = mt.seller_user_id; asset = sym.base_asset; amount = neg q }
      ∷ record { user_id = mt.seller_user_id; asset = sym.quote_asset; amount = n }
      ∷ []

  cancels : (x : Amount) → neg x ⊕ (x ⊕ nil) ≡ nil
  cancels x = ap (λ y. neg x ⊕ y) (plus-zero x) ∙ plus_comm (neg x) x ∙ plus-neg x

  cancels_first : (x y : Amount) → x ⊕ (neg x ⊕ y) ≡ y
  cancels_first x y =
      inverse (plus_assoc x (neg x) y) ∙ ap (λ z. z ⊕ y) (plus-neg x) ∙ plus_left_zero y

  read_legs_balanced :
      (sym : Symbol) (mt : MatchTrade) (n q : Amount) (a : String)
      → leg_sum a (read_legs sym mt n q) ≡ nil
  unfolding leg_sum
  read_legs_balanced sym mt n q a = elim (Bool-cases (sym.quote_asset == a)) [
    | inl e ↦ elim (Bool-cases (sym.base_asset == a)) [
      | inl f ↦ rw (e, f) (ap (λ y. neg n ⊕ y) (cancels_first q (n ⊕ nil)) ∙ cancels n)
      | inr f ↦
          rw (e, f)
            (ap (λ y. neg n ⊕ y) (plus_left_zero (nil ⊕ (n ⊕ nil)) ∙ plus_left_zero (n ⊕ nil))
              ∙ cancels n)
    ]
    | inr e ↦ elim (Bool-cases (sym.base_asset == a)) [
      | inl f ↦
          rw (e, f)
            (plus_left_zero (q ⊕ (neg q ⊕ (nil ⊕ nil)))
              ∙ cancels_first q (nil ⊕ nil)
              ∙ plus-zero nil)
      | inr f ↦
          rw (e, f)
            (plus_left_zero (nil ⊕ (nil ⊕ (nil ⊕ nil)))
              ∙ plus_left_zero (nil ⊕ (nil ⊕ nil))
              ∙ plus_left_zero (nil ⊕ nil)
              ∙ plus-zero nil)
    ]
  ]

  pub parse_legs-trade_legs :
      (sym : Symbol) (mt : MatchTrade) (n q : Amount)
      → parse_legs (trade_legs sym mt n q) ≡ ok (read_legs sym mt n q)
  unfolding trade_legs parse_legs
  parse_legs-trade_legs sym mt n q =
      rw (parse-text (neg n), parse-text q, parse-text (neg q), parse-text n) refl

  -- Account-service reads the legs of any match, and they add up to zero in each asset.
  pub trade_legs_balanced :
      (sym : Symbol) (mt : MatchTrade) (notional q : Amount)
      → (legs : List LedgerLeg) × (parse_legs (trade_legs sym mt notional q) ≡ ok legs)
        × ((a : String) → leg_sum a legs ≡ nil)
  trade_legs_balanced sym mt n q =
      (read_legs sym mt n q, parse_legs-trade_legs sym mt n q, read_legs_balanced sym mt n q)
