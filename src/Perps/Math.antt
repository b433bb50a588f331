-- ===== src/Perps/Math.antt =====
-- packages/perps/math.go, one function each. `Div` is the interface's quotient.
use crypto_exchange_lab.Prelude.{ℕ, ltb, if◌then◌else◌}
use crypto_exchange_lab.Decimal.{Decimal, Amount, ◌⊕◌, ◌⊖◌, ◌⊗◌, neg, is_zero}
use crypto_exchange_lab.Exchange.{PositionSide}

module _ ⦃d : Decimal⦄ where
  unfoldable pub notional : Amount → Amount → Amount
  notional size mark_price = size ⊗ mark_price

  -- A leverage is a Go `int`; one below 1 counts as 1, so 0 stands for all negative ones.
  unfoldable pub initial_margin : Amount → ℕ → Amount
  initial_margin notional_value leverage =
      d.quotient notional_value (d.of_nat (if ltb leverage 1 then 1 else leverage))

  unfoldable pub maintenance_margin : Amount → Amount → Amount
  maintenance_margin notional_value maint_rate = notional_value ⊗ maint_rate

  -- Every side but SHORT gains when the price rises.
  unfoldable pub unrealized_pnl : PositionSide → Amount → Amount → Amount → Amount
  unrealized_pnl PositionSide.short size entry_price mark_price = (entry_price ⊖ mark_price) ⊗ size
  unrealized_pnl _ size entry_price mark_price = (mark_price ⊖ entry_price) ⊗ size

  unfoldable pub equity : Amount → Amount → Amount
  equity margin pnl = margin ⊕ pnl

  unfoldable pub margin_ratio : Amount → Amount → Amount
  margin_ratio equity_value maint_margin =
      if is_zero maint_margin then d.of_nat 999 else d.quotient equity_value maint_margin

  unfoldable pub realized_pnl : PositionSide → Amount → Amount → Amount → Amount
  unfolding unrealized_pnl
  realized_pnl side close_size entry_price exit_price =
      unrealized_pnl side close_size entry_price exit_price

  -- Every side but LONG receives at a positive rate.
  unfoldable pub funding_payment : PositionSide → Amount → Amount → Amount → Amount
  unfolding notional
  funding_payment PositionSide.long size mark_price rate = neg (notional size mark_price ⊗ rate)
  funding_payment _ size mark_price rate = notional size mark_price ⊗ rate

  unfoldable pub weighted_entry_price : Amount → Amount → Amount → Amount → Amount
  weighted_entry_price old_size old_entry add_size add_price =
      if is_zero (old_size ⊕ add_size)
      then add_price
      else d.quotient (old_size ⊗ old_entry ⊕ add_size ⊗ add_price) (old_size ⊕ add_size)
