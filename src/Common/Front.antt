-- ===== src/Common/Front.antt =====
-- packages/go-common/metrics/metrics.go and packages/go-common/cors/cors.go: what stands in front of a
-- service's routes. Latencies and the gauge of running services are not modelled, and a handler
-- that panics is not either.
use crypto_exchange_lab.Prelude.{
  ℕ, ◌+◌, Bool, String, List, [], ◌∷◌, Option, none, some, if◌then◌else◌, ◌==◌, ◌&&◌, ◌++◌, nat_eqb,
}

-- What an `http.Request` says apart from its content.
pub record Request {ℓ} (Content : Type ℓ) : Type ℓ where
  pub method : String
  pub path : String
  pub content : Content

pub record Header : Type 0 where
  pub name : String
  pub value : String

-- What was written to an `http.ResponseWriter`: no status is 200.
pub record Response {ℓ} (Body : Type ℓ) : Type ℓ where
  pub headers : List Header
  pub written : Option ℕ
  pub body : Option Body

-- The labels of `cel_http_requests_total`.
pub record Labels : Type 0 where
  pub service : String
  pub method : String
  pub route : String
  pub status : ℕ

-- `httpRequests`, by labels.
abbrev pub Counters : Type 0
Counters = Labels → ℕ

unfoldable pub are_labels : Labels → Labels → Bool
are_labels x y =
    x.service == y.service
    && x.method == y.method
    && x.route == y.route
    && nat_eqb x.status y.status

-- `Inc`.
unfoldable pub inc : Labels → Counters → Counters
unfolding are_labels
inc x counters y = if are_labels x y then counters y + 1 else counters y

-- The state of a service behind `Wrap`.
pub record Metered (State : Type 0) : Type 0 where
  pub counters : Counters
  pub inner : State

-- `http.Handler` on the state of a service.
abbrev pub Handler : Type 0 → Type 0 → Type 0 → Type 0
Handler Content Body State = Request Content → State → Response Body × State

abbrev pub with_headers {ℓ} : {Body : Type ℓ} → List Header → Response Body → Response Body
with_headers hs r = record r { headers = hs ++ r.headers }

abbrev pub no_content {ℓ} : {Body : Type ℓ} → List Header → Response Body
no_content hs = record { headers = hs; written = some 204; body = none }

-- The status of `statusWriter`.
abbrev pub status_of {ℓ} : {Body : Type ℓ} → Response Body → ℕ
status_of r = elim r.written [ none ↦ 200 | some n ↦ n ]

abbrev pub labels_of {ℓ κ} :
    {Content : Type ℓ} {Body : Type κ} → String → Request Content → Response Body → Labels
labels_of service r answer = record {
  service = service;
  method = r.method;
  route = r.path;
  status = status_of answer;
}

module _ {Content Body State : Type 0} where
  -- `Middleware`, and `cors` and `withCORS` of the mains, with the headers that it sets. The routes set
  -- no header that it sets.
  unfoldable pub cors_middleware :
      List Header → Handler Content Body State → Request Content → State → Response Body × State
  cors_middleware allowed next r s =
      let (answer, after) = next r s in
      if r.method == "OPTIONS"
      then (no_content allowed, s)
      else (with_headers allowed answer, after)

  -- `Wrap`.
  unfoldable pub wrap :
      String
      → Handler Content Body State
      → Request Content
      → Metered State
      → Response Body × Metered State
  unfolding inc
  wrap service next r m =
      let (answer, after) = next r m.inner in
      if r.path == "/metrics" then (answer, record { counters = m.counters; inner = after }) else (
        answer,
        record { counters = inc (labels_of service r answer) m.counters; inner = after },
      )

  -- `Handler` of the `http.Server` in a main.
  unfoldable pub front :
      String
      → List Header
      → Handler Content Body State
      → Request Content
      → Metered State
      → Response Body × Metered State
  unfolding wrap cors_middleware
  front service allowed mux = wrap service (cors_middleware allowed mux)

-- The headers of `Middleware`.
abbrev pub allow_origin : Header
allow_origin = record { name = "Access-Control-Allow-Origin"; value = "*" }

abbrev pub allow_methods : String → Header
allow_methods value = record { name = "Access-Control-Allow-Methods"; value = value }

abbrev pub allow_headers : Header
allow_headers = record { name = "Access-Control-Allow-Headers"; value = "Content-Type" }

abbrev pub permissive : List Header
permissive = allow_origin ∷ allow_methods "GET, POST, DELETE, OPTIONS" ∷ allow_headers ∷ []
