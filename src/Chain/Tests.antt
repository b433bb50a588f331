-- ===== src/Chain/Tests.antt =====
-- A small chain that was indexed before, and a log of a mint.
use crypto_exchange_lab.Prelude.{
  ℕ, zero, suc, ◌≤◌, ◌<◌, ◌^◌, ◌≡◌, refl, sym, ap, subst, ◌∙◌, none, true, List, [], ◌∷◌, some,
  arith, ◌⊎◌, if◌then◌else◌, ◌==◌, All,
}
use crypto_exchange_lab.Errors.{Result, err, ok}
use crypto_exchange_lab.Stateful.{◌>>=◌}
use crypto_exchange_lab.Chain.Text.{Text, codes, print, lower, text_eqb}
use crypto_exchange_lab.Chain.Hex.{hex_to_uint64, hex_param}
use crypto_exchange_lab.Chain.Events.{EventType, Log, ParsedEvent, parse_log, topic_mint}
use crypto_exchange_lab.Chain.Client.{
  Node, Block, result, null_result, latest_block, get_block_by_number, uint_or_zero,
}
use crypto_exchange_lab.Chain.Store.{
  BlockRow, SyncState, ChainTables, get_sync_state, put_sync_state,
}
use crypto_exchange_lab.Chain.Sync.{Syncer, index_next, run_blocks, run_once, run_rounds}
use crypto_exchange_lab.Chain.RoundTrip.{hex_to_uint64-hex_param}
use crypto_exchange_lab.Chain.Topics.{parse_log_type}
use crypto_exchange_lab.Chain.Cursor.{IsAdvanced}
use crypto_exchange_lab.Chain.Gateway.{asking_block, asking_contracts, one_block, serve}
use crypto_exchange_lab.Common.Env.{Env}
use crypto_exchange_lab.Chain.Indexer.{start as launch}
use crypto_exchange_lab.Chain.Started.{lists, start-listed}
use crypto_exchange_lab.Chain.Served.{run_once_served}
use crypto_exchange_lab.Chain.Progress.{due, run_once-IsAdvanced, run_rounds-reach}

hex_to_uint64-hex_param_example : hex_to_uint64 (hex_param 48879) ≡ some 48879
hex_to_uint64-hex_param_example = hex_to_uint64-hex_param 48879 (omega arith)

abbrev minted : Log
minted = record {
  address = codes "0xAB";
  topics = topic_mint ∷ [];
  data_hex = codes "0x";
  block_number = codes "0x10";
  tx_hash = codes "0xdef";
  log_index = codes "0x2";
}

abbrev mint_event : ParsedEvent
mint_event = record {
  event_type = EventType.mint;
  contract_address = codes "0xab";
  tx_hash = codes "0xdef";
  log_index = 2;
  block_number = 16;
  payload = some (("kind", codes "mint") ∷ []);
}

mint_run : parse_log minted ≡ ok (some mint_event)
unfolding parse_log text_eqb lower
mint_run = refl

parse_log_type_example :
    (mint_event.event_type ≡ EventType.swap) ⊎ (mint_event.event_type ≡ EventType.mint)
parse_log_type_example = parse_log_type minted topic_mint [] mint_event refl refl mint_run

-- A node of three blocks without transactions.
abbrev node : Node
node = record {
  block_number = result (codes "0x2");
  block_by_number = λ p full.
      result (record { number = p; hash = p; parent_hash = []; timestamp = []; transactions = [] });
  transaction_by_hash = λ h. null_result;
  transaction_receipt = λ h. null_result;
  logs = λ f. null_result;
  balance = λ a. null_result;
}

abbrev syncer : Syncer
syncer = record { node = node; chain = "dev"; watch = []; batch_max = 1 }

abbrev row : ℕ → Text → BlockRow
row n h = record {
  chain = "dev";
  number = n;
  hash = h;
  parent_hash = [];
  timestamp = 0;
  tx_count = 0;
}

-- All three are in the tables already, and the cursor was set back.
abbrev tables : List SyncState → ChainTables
tables ss = record {
  chains = record { id = "dev"; chain_id = 5; name = "Dev"; rpc_url = ""; enabled = true } ∷ [];
  states = ss;
  watched = [];
  blocks = row 2 (codes "0x2") ∷ row 1 (codes "0x1") ∷ row 0 (codes "0x0") ∷ [];
  transactions = [];
  events = [];
}

abbrev start : ChainTables
start = tables (record { chain = "dev"; last_indexed_block = 0 } ∷ [])

at_start : get_sync_state "dev" start.states ≡ some 0
unfolding get_sync_state
at_start = refl

head_run : latest_block node ≡ ok 2
unfolding latest_block
head_run = refl

run_once-IsAdvanced_example : IsAdvanced "dev" (due 1 2 0) 0 0 (run_once syncer start)
run_once-IsAdvanced_example = run_once-IsAdvanced syncer 0 2 start at_start head_run (omega arith)

-- The tables but for the cursors.
abbrev IsIndexed : ChainTables → Type 0
IsIndexed t = (ss : List SyncState) × (t ≡ tables ss)

step_at :
    (n : ℕ) (ss : List SyncState)
    → n ≤ 2
    → ((index_next syncer n (tables ss)).0 ≡ ok tt) × IsIndexed (index_next syncer n (tables ss)).1
unfolding index_next ◌>>=◌ print
step_at zero ss h = (refl, (put_sync_state "dev" 0 ss, refl))
step_at (suc zero) ss h = (refl, (put_sync_state "dev" 1 ss, refl))
step_at (suc (suc zero)) ss h = (refl, (put_sync_state "dev" 2 ss, refl))
step_at (suc (suc (suc n))) ss h = absurd (omega (arith, h))

step_from :
    (n : ℕ) (t : ChainTables)
    → n ≤ 2
    → IsIndexed t
    → ((index_next syncer n t).0 ≡ ok tt) × IsIndexed (index_next syncer n t).1
step_from n t h (ss, e) =
    subst (λ s. ((index_next syncer n s).0 ≡ ok tt) × IsIndexed (index_next syncer n s).1) (sym e)
      (step_at n ss h)

run_rounds-reach_example : get_sync_state "dev" (run_rounds syncer 3 start).states ≡ some 2
run_rounds-reach_example =
    run_rounds-reach syncer 2 IsIndexed step_from 3 0 start at_start head_run (omega arith)
      (omega arith) (omega arith) (_, refl)

honest :
    (k : ℕ) (b : Block)
    → k < 2 ^ 64
    → get_block_by_number node k true ≡ ok b
    → uint_or_zero b.number ≡ k
unfolding get_block_by_number uint_or_zero
honest k b small h =
    let same : b.number ≡ hex_param k = sym (ap number_text h) in
    ap uint_or_zero same
    ∙ ap (λ o. elim o as (λ x. ℕ) [ none ↦ 0 | some n ↦ n ]) (hex_to_uint64-hex_param k small)
  where
    number_text : Result Block → Text
    number_text (ok x) = x.number
    number_text (err e) = []

round_run : (run_once syncer start).1 ≡ ok tt
unfolding run_once run_blocks index_next ◌>>=◌ print
round_run = refl

run_once_served_example :
    (b : BlockRow) × (serve (λ u. node) (asking_block "dev" (some 1)) (run_once syncer start).2
      ≡ one_block b)
    × (b.number ≡ 1)
run_once_served_example =
    run_once_served syncer (λ u. node) 0 2 1 start honest at_start head_run (omega arith) round_run
      (omega arith) (omega arith)

-- The indexer watches a pair on the chain of the tables.
abbrev environment : Env
environment key =
    if key == "INDEXER_CHAIN"
    then "dev"
    else if key == "SEPOLIA_RPC_URL"
    then "http://node"
    else if key == "INDEXER_AMM_PAIR"
    then "0xAB"
    else ""

abbrev pair_syncer : Syncer
pair_syncer = record { node = node; chain = "dev"; watch = codes "0xab" ∷ []; batch_max = 8 }

abbrev launched : ChainTables
launched = record start {
  watched = record { chain = "dev"; address = codes "0xab"; label = "AMM Pair" } ∷ [];
}

launch_run : launch environment (λ u. node) start ≡ some (pair_syncer, launched)
unfolding launch lower
launch_run = refl

start-listed_example :
    All
      (λ a.
        lists a (serve (λ u. node) (asking_contracts "dev") (run_rounds pair_syncer 2 launched))
        ≡ true)
      (codes "0xab" ∷ [])
start-listed_example = start-listed environment (λ u. node) start pair_syncer launched launch_run 2
