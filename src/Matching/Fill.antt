-- ===== src/Matching/Fill.antt =====
-- `fillAgainst` of book.go: one fill of a buyer against a seller.
use crypto_exchange_lab.Prelude.{ℕ, String, Option, none, some, if◌then◌else◌}
use crypto_exchange_lab.Decimal.{Decimal, Amount, ◌⊖◌, is_zero, minimum}
use crypto_exchange_lab.Matching.Book.{Order, Trade, is_market}

module _ ⦃d : Decimal⦄ where
  -- `buyer` and `seller` are never nil in the code; what rests is `none` when used up.
  pub record FillResult : Type 0 where
    pub buyer : Order
    pub seller : Order
    pub ask_remaining : Option Order
    pub bid_remaining : Option Order

  -- The seller's price, unless that is a market order's.
  unfoldable pub fill_price : Order → Order → Amount
  fill_price buyer seller =
      let first = if is_market seller then buyer.price else seller.price in
      let second = if is_zero first then seller.price else first in
      if is_zero second then buyer.price else second

  abbrev pub unless_empty : Order → Option Order
  unless_empty o = if is_zero o.remaining then none else some o

  unfoldable pub fill_against : String → ℕ → Order → Order → Trade × FillResult
  unfolding fill_price
  fill_against symbol now buyer seller =
      let qty = minimum buyer.remaining seller.remaining in
      let buyer' = record buyer { remaining = buyer.remaining ⊖ qty } in
      let seller' = record seller { remaining = seller.remaining ⊖ qty } in
      (
        record {
          symbol = symbol;
          buy_order_id = buyer.id;
          sell_order_id = seller.id;
          buyer_user_id = buyer.user_id;
          seller_user_id = seller.user_id;
          price = fill_price buyer seller;
          quantity = qty;
          timestamp = now;
        },
        record {
          buyer = buyer';
          seller = seller';
          ask_remaining = unless_empty seller';
          bid_remaining = unless_empty buyer';
        },
      )
