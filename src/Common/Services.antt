-- ===== src/Common/Services.antt =====
-- The configuration of each service in services/, and the headers that its own `cors` or `withCORS`
-- sets. matching-engine uses `Middleware` of go-common, and liquidation-engine sets none.
use crypto_exchange_lab.Prelude.{List, [], ◌∷◌}
use crypto_exchange_lab.Prelude.Int.{pos}
use crypto_exchange_lab.Common.Env.{Env, Base, configured}
use crypto_exchange_lab.Common.Front.{Header, allow_origin, allow_methods, allow_headers}

unfoldable pub account_config : Env → Base
unfolding configured
account_config env = configured env "account-service" "ACCOUNT_SERVICE_HTTP_PORT" (pos 8081)

abbrev pub account_cors : List Header
account_cors = allow_origin ∷ allow_methods "GET, POST, OPTIONS" ∷ allow_headers ∷ []

unfoldable pub order_config : Env → Base
unfolding configured
order_config env = configured env "order-service" "ORDER_SERVICE_HTTP_PORT" (pos 8082)

abbrev pub order_cors : List Header
order_cors = allow_origin ∷ allow_methods "GET, POST, DELETE, OPTIONS" ∷ allow_headers ∷ []

unfoldable pub matching_config : Env → Base
unfolding configured
matching_config env = configured env "matching-engine" "MATCHING_ENGINE_HTTP_PORT" (pos 8083)

unfoldable pub orderbook_dex_config : Env → Base
unfolding configured
orderbook_dex_config env = configured env "orderbook-dex" "ORDERBOOK_DEX_HTTP_PORT" (pos 8084)

abbrev pub orderbook_dex_cors : List Header
orderbook_dex_cors = allow_origin ∷ allow_methods "GET, POST, DELETE, OPTIONS" ∷ allow_headers ∷ []

unfoldable pub hyperliquid_config : Env → Base
unfolding configured
hyperliquid_config env =
    configured env "hyperliquid-engine" "HYPERLIQUID_ENGINE_HTTP_PORT" (pos 8085)

abbrev pub hyperliquid_cors : List Header
hyperliquid_cors = allow_origin ∷ allow_methods "GET, POST, OPTIONS" ∷ allow_headers ∷ []

unfoldable pub risk_config : Env → Base
unfolding configured
risk_config env = configured env "risk-engine" "RISK_ENGINE_HTTP_PORT" (pos 8086)

abbrev pub risk_cors : List Header
risk_cors = allow_origin ∷ []

unfoldable pub liquidation_config : Env → Base
unfolding configured
liquidation_config env =
    configured env "liquidation-engine" "LIQUIDATION_ENGINE_HTTP_PORT" (pos 8087)

unfoldable pub funding_config : Env → Base
unfolding configured
funding_config env = configured env "funding-engine" "FUNDING_ENGINE_HTTP_PORT" (pos 8088)

abbrev pub funding_cors : List Header
funding_cors = allow_origin ∷ []

unfoldable pub gateway_config : Env → Base
unfolding configured
gateway_config env = configured env "rpc-gateway" "RPC_GATEWAY_HTTP_PORT" (pos 8089)

abbrev pub gateway_cors : List Header
gateway_cors = allow_origin ∷ allow_methods "GET, OPTIONS" ∷ allow_headers ∷ []

unfoldable pub indexer_config : Env → Base
unfolding configured
indexer_config env = configured env "indexer" "INDEXER_HTTP_PORT" (pos 8090)

abbrev pub indexer_cors : List Header
indexer_cors = allow_origin ∷ []
