-- ===== src/Common/Counted.antt =====
-- What a service does behind the handlers of its main, over a sequence of requests.
use crypto_exchange_lab.Prelude.{
  ℕ, ◌+◌, String, List, [], ◌∷◌, if◌then◌else◌, ◌==◌, ◌&&◌, not, Option, none, some, nat_eqb,
}
use crypto_exchange_lab.Common.Front.{Request, Header, Response, Labels, Handler}

-- The requests that reach the routes of a service.
abbrev pub routed {ℓ} : {Content : Type ℓ} → List (Request Content) → List (Request Content)
routed [] = []
routed (r ∷ rs) = let rest = routed rs in if r.method == "OPTIONS" then rest else r ∷ rest

-- The status that a client sees: 200 where the routes write none.
abbrev pub status_sent : Option ℕ → ℕ
status_sent none = 200
status_sent (some n) = n

-- How many of the requests have this method and this path, which is not /metrics, and an answer of
-- this status, on the service that the labels name.
abbrev pub counted {ℓ κ} :
    {Content : Type ℓ} {Body : Type κ}
    → String
    → Labels
    → List (Request Content × Response Body)
    → ℕ
counted service y [] = 0
counted service y ((r, answer) ∷ more) =
    let rest = counted service y more in
    if not (r.path == "/metrics")
      && (service == y.service
          && r.method == y.method
          && r.path == y.route
          && nat_eqb (status_sent answer.written) y.status)
    then 1 + rest
    else rest

module _ {Content Body State : Type 0} where
  -- The requests with their answers, and the state after them.
  unfoldable pub answer_all :
      Handler Content Body State
      → List (Request Content)
      → State
      → List (Request Content × Response Body) × State
  answer_all h [] s = ([], s)
  answer_all h (r ∷ rs) s =
      let (answer, after) = h r s in
      let (more, last) = answer_all h rs after in ((r, answer) ∷ more, last)

module _ {Content Body State : Type 0} (service : String) (allowed : List Header)
    (mux : Handler Content Body State) where
  -- The state that a request leaves behind the middleware.
  abbrev pub state_after : Request Content → State → State
  state_after r s = if r.method == "OPTIONS" then s else (mux r s).1
