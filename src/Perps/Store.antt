-- ===== src/Perps/Store.antt =====
-- packages/perpstore/store.go on the tables of infra/postgres/migrations/004_phase3_perps.up.sql.
-- A query that finds no row is `none`. Times are not modelled: a row that is inserted stands first.
-- Nor are the foreign keys: a market or a user that is named is taken to exist.
use crypto_exchange_lab.Prelude.{
  ℕ, Bool, true, false, String, List, [], ◌∷◌, Option, none, some, if◌then◌else◌, ◌==◌, ◌&&◌,
  Ordering, leb,
}
use Prim.Native.String.{compare as compare_text}
use crypto_exchange_lab.Sort.{sort_slice}
use crypto_exchange_lab.Decimal.{Decimal, Amount, nil, greater}
use crypto_exchange_lab.Exchange.{PositionSide}
use crypto_exchange_lab.Account.Store.{User}

-- The values of the type `position_side`.
abbrev pub is_position_side : PositionSide → Bool
is_position_side PositionSide.long = true
is_position_side PositionSide.short = true
is_position_side (PositionSide.other s) = false

module _ ⦃d : Decimal⦄ where
  pub record Market : Type 0 where
    pub symbol : String
    pub spot_symbol : String
    pub base_asset : String
    pub quote_asset : String
    pub max_leverage : ℕ
    pub maint_margin_rate : Amount
    pub taker_fee_rate : Amount

  pub record Position : Type 0 where
    pub id : String
    pub user_id : String
    pub symbol : String
    pub side : PositionSide
    pub size : Amount
    pub entry_price : Amount
    pub leverage : ℕ
    pub margin : Amount

  pub record MarkPrice : Type 0 where
    pub symbol : String
    pub price : Amount

  pub record Event : Type 0 where
    pub user_id : String
    pub symbol : String
    pub event_type : String
    pub size : Amount
    pub price : Amount
    pub leverage : Option ℕ
    pub pnl : Option Amount
    pub ref_id : String

  pub record FundingRate : Type 0 where
    pub symbol : String
    pub rate : Amount

  pub record FundingPayment : Type 0 where
    pub user_id : String
    pub symbol : String
    pub rate : Amount
    pub payment : Amount
    pub mark_price : Amount
    pub position_size : Amount

  pub record PerpTables : Type 0 where
    pub markets : List Market
    pub marks : List MarkPrice
    pub positions : List Position
    pub events : List Event
    pub rates : List FundingRate
    pub payments : List FundingPayment

  abbrev pub text_before : String → String → Bool
  text_before x y = elim (compare_text x y) [ Ordering.lt ↦ true | _ ↦ false ]

  -- `ListMarkets`.
  unfoldable pub list_markets : PerpTables → List Market
  unfolding sort_slice
  list_markets t = sort_slice (λ (x : Market) y. text_before x.symbol y.symbol) t.markets

  -- `GetMarket`.
  unfoldable pub get_market : String → List Market → Option Market
  get_market s [] = none
  get_market s (m ∷ ms) = if m.symbol == s then some m else get_market s ms

  -- `GetMarkPrice`.
  unfoldable pub get_mark_price : String → List MarkPrice → Option Amount
  get_mark_price s [] = none
  get_mark_price s (m ∷ ms) = if m.symbol == s then some m.price else get_mark_price s ms

  -- `SetMarkPrice`.
  unfoldable pub set_mark_price : String → Amount → List MarkPrice → List MarkPrice
  set_mark_price s p [] = record { symbol = s; price = p } ∷ []
  set_mark_price s p (m ∷ ms) =
      if m.symbol == s then record { symbol = s; price = p } ∷ ms else m ∷ set_mark_price s p ms

  abbrev pub is_position : String → String → Position → Bool
  is_position u s p = p.user_id == u && p.symbol == s

  -- `GetPosition`.
  unfoldable pub get_position : String → String → List Position → Option Position
  get_position u s [] = none
  get_position u s (p ∷ ps) = if is_position u s p then some p else get_position u s ps

  unfoldable pub positions_of : String → List Position → List Position
  positions_of u [] = []
  positions_of u (p ∷ ps) =
      let rest = positions_of u ps in if p.user_id == u then p ∷ rest else rest

  -- `ListPositions`.
  unfoldable pub list_positions : String → List Position → List Position
  unfolding positions_of sort_slice
  list_positions u ps =
      sort_slice (λ (x : Position) y. text_before x.symbol y.symbol) (positions_of u ps)

  -- `ORDER BY symbol, user_id`.
  abbrev pub position_before : Position → Position → Bool
  position_before x y = elim (compare_text x.symbol y.symbol) [
    | Ordering.lt ↦ true
    | Ordering.eq ↦ text_before x.user_id y.user_id
    | Ordering.gt ↦ false
  ]

  -- `ListAllPositions`.
  unfoldable pub list_all_positions : List Position → List Position
  unfolding sort_slice
  list_all_positions ps = sort_slice position_before ps

  -- The CHECK constraints of `perp_positions`, and the type `position_side` of its column.
  abbrev pub is_allowed_position : Position → Bool
  is_allowed_position p =
      is_position_side p.side
      && greater p.size nil
      && greater p.margin nil
      && leb 1 p.leverage
      && leb p.leverage 100

  -- The row of the same user and symbol keeps its key and its id.
  abbrev pub overwrite : Position → Position → Position
  overwrite p old = record p { id = old.id }

  unfoldable pub put_position : Position → List Position → List Position
  put_position p [] = p ∷ []
  put_position p (old ∷ ps) =
      if is_position p.user_id p.symbol old then overwrite p old ∷ ps else old ∷ put_position p ps

  -- `UpsertPosition`: an error when the row breaks a constraint.
  unfoldable pub upsert_position : Position → List Position → Option (List Position)
  unfolding put_position
  upsert_position p ps = if is_allowed_position p then some (put_position p ps) else none

  -- `DeletePosition`.
  unfoldable pub delete_position : String → String → List Position → List Position
  delete_position u s [] = []
  delete_position u s (p ∷ ps) =
      let rest = delete_position u s ps in if is_position u s p then rest else p ∷ rest

  -- `InsertEvent`.
  abbrev pub insert_event : Event → PerpTables → PerpTables
  insert_event e t = record t { events = e ∷ t.events }

  -- `GetHouseUserID`.
  unfoldable pub get_house_user_id : List User → Option String
  get_house_user_id [] = none
  get_house_user_id (u ∷ us) =
      if u.username == "perp_house" then some u.id else get_house_user_id us

  -- `InsertFundingRate`.
  abbrev pub insert_funding_rate : String → Amount → PerpTables → PerpTables
  insert_funding_rate s r t = record t { rates = record { symbol = s; rate = r } ∷ t.rates }

  -- `LatestFundingRate`.
  unfoldable pub latest_funding_rate : String → List FundingRate → Option Amount
  latest_funding_rate s [] = none
  latest_funding_rate s (r ∷ rs) = if r.symbol == s then some r.rate else latest_funding_rate s rs

  -- `InsertFundingPayment`.
  abbrev pub insert_funding_payment : FundingPayment → PerpTables → PerpTables
  insert_funding_payment p t = record t { payments = p ∷ t.payments }
