-- ===== src/Chain/Indexer.antt =====
-- services/indexer/cmd/server/main.go: what the indexer starts from. The node at each URL is a
-- parameter. Logs are not modelled; where the service stops with one there is no start.
use crypto_exchange_lab.Prelude.{
  ℕ, ◌-◌, ◌^◌, String, List, [], ◌∷◌, ◌++◌, Option, none, some, if◌then◌else◌, ◌==◌, map,
}
use crypto_exchange_lab.Prelude.Int.{ℤ, pos, negsuc}
use crypto_exchange_lab.Common.Env.{Env, env_int}
use crypto_exchange_lab.Chain.Text.{Text, codes, lower}
use crypto_exchange_lab.Chain.Client.{Node}
use crypto_exchange_lab.Chain.Store.{Chain, ChainTables, get_chain, upsert_watched_contract}
use crypto_exchange_lab.Chain.Sync.{Syncer}

-- `watchEntry`.
pub record WatchEntry : Type 0 where
  pub addr : String
  pub label : String

-- `env`.
abbrev pub env_or : Env → String → String → String
env_or env k default = if env k == "" then default else env k

-- `add`.
abbrev pub add_watched : Env → String → String → List WatchEntry → List WatchEntry
add_watched env key label out =
    if env key == "" then out else out ++ record { addr = env key; label = label } ∷ []

-- `parseWatchList`.
unfoldable pub parse_watch_list : Env → List WatchEntry
parse_watch_list env =
    let pair = add_watched env "INDEXER_AMM_PAIR" "AMM Pair" [] in
    let router = add_watched env "INDEXER_AMM_ROUTER" "AMM Router" pair in
    let token = add_watched env "INDEXER_LAB_TOKEN" "LAB" router in
    let usd = add_watched env "INDEXER_LAB_USD" "LUSD" token in
    add_watched env "INDEXER_AMM_FACTORY" "AMM Factory" usd

abbrev pub label_of : WatchEntry → String
label_of w = if w.label == "" then w.addr else w.label

-- An error of the statement is logged.
abbrev pub or_logged : ChainTables → Option ChainTables → ChainTables
or_logged t none = t
or_logged t (some t') = t'

-- The loop over the watch list.
unfoldable pub upsert_all : String → List WatchEntry → ChainTables → ChainTables
unfolding upsert_watched_contract
upsert_all chain_key [] t = t
upsert_all chain_key (w ∷ ws) t =
    upsert_all chain_key ws
      (or_logged t (upsert_watched_contract chain_key (codes w.addr) (label_of w) t))

-- `uint64` of an int.
abbrev pub word_of : ℤ → ℕ
word_of (pos n) = n
word_of (negsuc n) = 2 ^ 64 - 1 - n

abbrev pub address_of : WatchEntry → Text
address_of w = lower (codes w.addr)

module _ (env : Env) (nodes : String → Node) where
  abbrev pub syncer_of : String → String → List WatchEntry → Syncer
  syncer_of chain_key rpc_url watch = record {
    node = nodes rpc_url;
    chain = chain_key;
    watch = map address_of watch;
    batch_max = word_of (env_int env "INDEXER_BATCH_SIZE" (pos 8));
  }

  -- Without the URL of a node the service stops.
  abbrev pub start_at : String → String → ChainTables → Option (Syncer × ChainTables)
  start_at chain_key rpc_url t =
      let watch = parse_watch_list env in
      if rpc_url == ""
      then none
      else some (syncer_of chain_key rpc_url watch, upsert_all chain_key watch t)

  -- So it does where the chain is not there, or not enabled.
  abbrev pub start_on : String → Option Chain → ChainTables → Option (Syncer × ChainTables)
  start_on chain_key none t = none
  start_on chain_key (some c) t = start_at chain_key (env_or env "SEPOLIA_RPC_URL" c.rpc_url) t

  -- `main`, up to the syncer.
  unfoldable pub start : ChainTables → Option (Syncer × ChainTables)
  unfolding parse_watch_list upsert_all env_int get_chain
  start t =
      let chain_key = env_or env "INDEXER_CHAIN" "sepolia" in
      start_on chain_key (get_chain chain_key t.chains) t
