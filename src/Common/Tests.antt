-- ===== src/Common/Tests.antt =====
-- The handlers of account-service and its configuration at concrete inputs.
use crypto_exchange_lab.Prelude.{ℕ, ◌+◌, ◌≡◌, refl, List, [], ◌∷◌, none, some, if◌then◌else◌, ◌==◌}
use crypto_exchange_lab.Prelude.Int.{pos, negsuc}
use crypto_exchange_lab.Chain.Text.{codes}
use crypto_exchange_lab.Common.Env.{Env, atoi, scan_int, get_env_int}
use crypto_exchange_lab.Common.Front.{
  Request, Metered, Labels, Handler, front, wrap, cors_middleware, inc,
}
use crypto_exchange_lab.Common.Counted.{answer_all}
use crypto_exchange_lab.Common.Services.{account_config, account_cors}

-- Only the port of account-service is set.
abbrev with_port : Env
with_port key = if key == "ACCOUNT_SERVICE_HTTP_PORT" then "9000 # local" else ""

own_port : (account_config with_port).http_port ≡ pos 9000
unfolding account_config
own_port = refl

refused : atoi (codes "9000 # local") ≡ none
unfolding atoi
refused = refl

negative : scan_int (codes " -12") ≡ some (negsuc 11)
unfolding scan_int
negative = refl

abbrev batch : Env
batch key = if key == "INDEXER_BATCH_SIZE" then "64" else ""

read_batch : get_env_int batch "INDEXER_BATCH_SIZE" (pos 8) ≡ pos 64
unfolding get_env_int
read_batch = refl

-- A service that counts what reaches its routes.
abbrev routes : Handler ℕ ℕ ℕ
routes r n = (record { headers = []; written = none; body = some (n + r.content) }, n + r.content)

abbrev asked : List (Request ℕ)
asked =
    record { method = "OPTIONS"; path = "/api"; content = 5 }
    ∷ record { method = "POST"; path = "/api"; content = 7 }
    ∷ record { method = "GET"; path = "/metrics"; content = 1 }
    ∷ []

abbrev fresh : Metered ℕ
fresh = record { counters = λ y. 0; inner = 0 }

abbrev preflight : Labels
preflight = record { service = "account-service"; method = "OPTIONS"; route = "/api"; status = 204 }

preflight_counted :
    (answer_all (front "account-service" account_cors routes) asked fresh).1.counters preflight ≡ 1
unfolding answer_all front wrap cors_middleware inc
preflight_counted = refl
