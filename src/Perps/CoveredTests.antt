-- ===== src/Perps/CoveredTests.antt =====
-- A round of the scanner over a position whose margin covers what its market asks for.
use Prim.Native.Nat.{ℕ, zero, suc, ◌+◌, ◌-◌, ◌/◌, ◌≤◌}
use native.Mathlib.Nat.{add-div_left}
use crypto_exchange_lab.Prelude.{
  ◌≡◌, ◌≢◌, ap, ◌∙◌, arith, Ordering, subst, String, [], ◌∷◌, some, none, Option,
}
use crypto_exchange_lab.Prelude.Int.{ℤ, pos, negsuc, ◌+ℤ◌, ◌-ℤ◌, ◌*ℤ◌}
use crypto_exchange_lab.Decimal.Whole.{whole, quotient, compared}
use crypto_exchange_lab.Exchange.{PositionSide}
use crypto_exchange_lab.Perps.Store.{Market, Position, get_market, get_mark_price}
use crypto_exchange_lab.Perps.Engine.{World}
use crypto_exchange_lab.Perps.Rounds.{run_scanner}
use crypto_exchange_lab.Perps.Covered.{IsDivision, IsCovered, IsCoveredAt, run_scanner_covered}

div-pos : (m n : ℕ) → suc n ≤ m → 1 ≤ m / suc n
div-pos m n h =
    let whole_part : m / suc n ≡ (m - suc n) / suc n + 1 =
      ap (λ (k : ℕ). k / suc n) (omega (arith, h)) ∙ add-div_left (m - suc n) (omega arith) in
    omega (arith, whole_part)

one-quotient :
    (a b : ℤ)
    → compared (pos 0) b ≡ Ordering.lt
    → compared b a ≢ Ordering.gt
    → compared (pos 1) (quotient a b) ≢ Ordering.gt
unfolding quotient
one-quotient (pos m) (pos (suc n)) h k = ground (arith, div-pos m n)
one-quotient (negsuc m) (pos (suc n)) h k = absurd (k (ground arith))
one-quotient a (pos zero) h k = absurd (ground arith)
one-quotient a (negsuc n) h k = absurd (ground arith)

division : IsDivision
division = record { one-many = ground arith; one-quotient = one-quotient }

abbrev bitcoin : Market
bitcoin = record {
  symbol = "BTC-PERP";
  spot_symbol = "BTC/USDT";
  base_asset = "BTC";
  quote_asset = "USDT";
  max_leverage = 20;
  maint_margin_rate = pos 1;
  taker_fee_rate = pos 0;
}

-- A short of 4 at 120 with a margin of 500.
abbrev short_position : Position
short_position = record {
  id = "p1";
  user_id = "alice";
  symbol = "BTC-PERP";
  side = PositionSide.short;
  size = pos 4;
  entry_price = pos 120;
  leverage = 1;
  margin = pos 500;
}

abbrev world : World
world = record {
  account = record { assets = []; users = []; balances = []; transactions = []; entries = [] };
  perp = record {
    markets = bitcoin ∷ [];
    marks = record { symbol = "BTC-PERP"; price = pos 110 } ∷ [];
    positions = short_position ∷ [];
    events = [];
    rates = [];
    payments = [];
  };
}

abbrev market_or : Option Market → Market
market_or none = bitcoin
market_or (some m) = m

abbrev mark_or : Option ℤ → ℤ
mark_or none = pos 110
mark_or (some x) = x

covered_at : IsCoveredAt short_position bitcoin (pos 110)
unfolding ◌*ℤ◌ ◌-ℤ◌ ◌+ℤ◌
covered_at = (ground arith, ground arith)

short-IsCovered : IsCovered world short_position
unfolding get_market get_mark_price
short-IsCovered m mark e f =
    subst (λ x. IsCoveredAt short_position x mark) (ap market_or e)
      (subst (λ x. IsCoveredAt short_position bitcoin x) (ap mark_or f) covered_at)

abbrev names : ℕ → String
names n = "t"

run_scanner_covered_example : run_scanner names world ≡ (0, world)
run_scanner_covered_example = run_scanner_covered division names world (short-IsCovered, tt)
