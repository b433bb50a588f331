-- ===== src/Perps/Tests.antt =====
-- Runs of the perpetual engine on whole numbers, and the theorems at inputs that meet their
-- hypotheses.
use crypto_exchange_lab.Prelude.{◌≡◌, refl, [], ◌∷◌}
use crypto_exchange_lab.Prelude.Int.{pos, ◌+ℤ◌, ◌-ℤ◌, ◌*ℤ◌}
use crypto_exchange_lab.Decimal.Whole.{whole, of_text, text, quotient, negate}
use crypto_exchange_lab.Prelude.{some, none, ◌≢◌, String, ℕ}
use crypto_exchange_lab.Errors.{ok}
use crypto_exchange_lab.Account.Store.{Balance}
use crypto_exchange_lab.Perps.Store.{
  Market, Position, get_market, get_house_user_id, upsert_position,
}
use crypto_exchange_lab.Account.Store.{update_row}
use crypto_exchange_lab.Account.Ledger.{
  insert_unfreeze_ledger, insert_transaction, insert_entry, verify_ledger_balance,
}
use crypto_exchange_lab.Account.Operations.{unfreeze, settle_trade, apply_legs, release_all}
use crypto_exchange_lab.Account.Handler.{serve}
use crypto_exchange_lab.Perps.Client.{send_unfreeze, settle_balanced, negate_amount}
use crypto_exchange_lab.Stateful.{◌>>=◌}
use crypto_exchange_lab.Perps.Engine.{World}
use crypto_exchange_lab.Perps.Closing.{close_size}
use crypto_exchange_lab.Perps.Once.{close_size_again}
use crypto_exchange_lab.Exchange.{PositionSide}
use crypto_exchange_lab.Perps.Math.{realized_pnl}

abbrev row : String → ℕ → ℕ → Balance
row u x y = record { user_id = u; asset = "USDT"; available = pos x; frozen = pos y }

abbrev bitcoin : Market
bitcoin = record {
  symbol = "BTC-PERP";
  spot_symbol = "BTC/USDT";
  base_asset = "BTC";
  quote_asset = "USDT";
  max_leverage = 20;
  maint_margin_rate = pos 0;
  taker_fee_rate = pos 0;
}

abbrev long_position : Position
long_position = record {
  id = "p1";
  user_id = "alice";
  symbol = "BTC-PERP";
  side = PositionSide.long;
  size = pos 4;
  entry_price = pos 100;
  leverage = 10;
  margin = pos 40;
}

-- Alice holds a long of 4 at 100 with a margin of 40; the mark price is 110.
abbrev world : World
world = record {
  account = record {
    assets = "USDT" ∷ [];
    users =
        record { id = "alice"; username = "Alice" }
        ∷ record { id = "house"; username = "perp_house" }
        ∷ [];
    balances = row "alice" 60 40 ∷ row "house" 1000 0 ∷ [];
    transactions = [];
    entries = [];
  };
  perp = record {
    markets = bitcoin ∷ [];
    marks = record { symbol = "BTC-PERP"; price = pos 110 } ∷ [];
    positions = long_position ∷ [];
    events = [];
    rates = [];
    payments = [];
  };
}

-- Half of the position is left after the first close.
abbrev half : Position
half = record long_position { size = pos 2; margin = pos 20 }

abbrev halved : World
halved = (close_size long_position (pos 2) (pos 110) "CLOSE" "t1" world).1

half_closed :
    close_size long_position (pos 2) (pos 110) "CLOSE" "t1" world ≡ (ok (some half, pos 20), halved)
unfolding close_size ◌>>=◌ get_market send_unfreeze serve of_text text quotient ◌*ℤ◌ unfreeze
    update_row ◌+ℤ◌ ◌-ℤ◌ insert_unfreeze_ledger get_house_user_id realized_pnl settle_balanced
    negate_amount settle_trade insert_transaction apply_legs insert_entry release_all
    verify_ledger_balance negate upsert_position
half_closed = refl

close_size_again_example :
    close_size half (pos 2) (pos 120) "CLOSE" "t2" halved ≢ (ok (none, pos 40), halved)
close_size_again_example =
    close_size_again long_position half (pos 2) (pos 2) (pos 110) (pos 120) "CLOSE" "CLOSE" "t1"
      "t2" world halved halved (some half, pos 20) (none, pos 40) refl half_closed
