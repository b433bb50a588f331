-- ===== src/Chain/Sync.antt =====
-- packages/chainstore/sync.go. An error leaves what was written before it. An index is a uint64 word;
-- the loop of a round is run for as many blocks as it has, since no chain reaches 2 ^ 64 - 1.
use crypto_exchange_lab.Prelude.{
  ℕ, zero, suc, ◌+◌, ◌-◌, ◌%◌, ◌^◌, true, String, List, [], ◌∷◌, Option, none, some, if◌then◌else◌,
  ltb, nat_eqb, length, ◌&&◌,
}
use crypto_exchange_lab.Prelude.Int.{ℤ, pos, negsuc}
use crypto_exchange_lab.Errors.{Result, ok, err, broken}
use crypto_exchange_lab.Stateful.{Stateful, ◌>>=◌, ask, within}
use crypto_exchange_lab.Chain.Text.{Text, codes, to_text, is_empty}
use crypto_exchange_lab.Chain.Hex.{hex_to_big_int, hex_param}
use crypto_exchange_lab.Chain.Events.{Log, ParsedEvent, parse_log}
use crypto_exchange_lab.Chain.Client.{
  Node, Block, TxObject, Receipt, latest_block, get_block_by_number, get_transaction_receipt,
  get_logs, uint_or_zero, or_broken,
}
use crypto_exchange_lab.Chain.Store.{
  BlockRow, TxRow, EventRow, ChainTables, get_sync_state, set_sync_state,
}
use crypto_exchange_lab.Chain.Blocks.{insert_block, insert_transaction, insert_event}

-- `Syncer`: its store is the state of the calls.
pub record Syncer : Type 0 where
  pub node : Node
  pub chain : String
  pub watch : List Text
  pub batch_max : ℕ

-- A statement on the tables.
abbrev pub exec : (ChainTables → Option ChainTables) → Stateful {0} ChainTables Unit
exec statement = within (λ t. t) (λ t s. t) (λ t. or_broken (statement t))

abbrev pub first_topic : List Text → Text
first_topic [] = []
first_topic (t ∷ ts) = t

abbrev pub event_row : String → Log → ℕ → ParsedEvent → EventRow
event_row chain lg block_number p = record {
  chain = chain;
  block_number = block_number;
  tx_hash = lg.tx_hash;
  log_index = p.log_index;
  contract_address = p.contract_address;
  event_type = p.event_type;
  topic0 = first_topic lg.topics;
  raw_data = lg.data_hex;
  payload = p.payload;
}

abbrev pub insert_parsed : String → Log → ℕ → Option ParsedEvent → Stateful {0} ChainTables Unit
insert_parsed chain lg block_number none = ask (λ t. ok tt)
insert_parsed chain lg block_number (some p) =
    exec (λ t. some (insert_event (event_row chain lg block_number p) t))

-- `indexLog`.
unfoldable pub index_log : String → Log → ℕ → Stateful {0} ChainTables Unit
unfolding parse_log insert_event
index_log chain lg block_number = do
  parsed ← ask (λ t. parse_log lg)
  insert_parsed chain lg block_number parsed

unfoldable pub index_logs : String → List Log → ℕ → Stateful {0} ChainTables Unit
unfolding index_log
index_logs chain [] block_number = ask (λ t. ok tt)
index_logs chain (lg ∷ rest) block_number = do
  _ ← index_log chain lg block_number
  index_logs chain rest block_number

abbrev pub receipt_of : Node → Text → Option Receipt
receipt_of node hash =
    if is_empty hash
    then none
    else (elim (get_transaction_receipt node hash) [ ok r ↦ some r | err e ↦ none ])

abbrev pub logs_of : Option Receipt → List Log
logs_of none = []
logs_of (some r) = r.logs

abbrev pub number_of : (Receipt → Text) → Option Receipt → Option ℕ
number_of field none = none
number_of field (some r) = some (uint_or_zero (field r))

abbrev pub decimal : ℤ → Text
decimal (pos n) = to_text 10 n
decimal (negsuc n) = b'-' ∷ to_text 10 (suc n)

abbrev pub wei_of : Text → Text
wei_of value = elim (hex_to_big_int value) [ none ↦ codes "0" | some n ↦ decimal n ]

abbrev pub tx_row : String → ℕ → ℕ → TxObject → Option Receipt → TxRow
tx_row chain block_number i x receipt = record {
  chain = chain;
  hash = x.hash;
  block_number = block_number;
  tx_index = i;
  from_addr = x.from;
  to_addr = some x.to;
  value_wei = wei_of x.value;
  gas_used = number_of (λ r. r.gas_used) receipt;
  status = number_of (λ r. r.status) receipt;
}

-- A round of the loop over the transactions: the logs of the receipt, if there is one, and the row.
unfoldable pub index_tx : Syncer → ℕ → ℕ → Option TxObject → Stateful {0} ChainTables Unit
unfolding index_logs insert_transaction get_transaction_receipt hex_to_big_int uint_or_zero
index_tx sy block_number i none = ask (λ t. ok tt)
index_tx sy block_number i (some x) = do
  let receipt = receipt_of sy.node x.hash
  _ ← index_logs sy.chain (logs_of receipt) block_number
  exec (insert_transaction (tx_row sy.chain block_number i x receipt))

unfoldable pub index_txs : Syncer → ℕ → ℕ → List (Option TxObject) → Stateful {0} ChainTables Unit
unfolding index_tx
index_txs sy block_number i [] = ask (λ t. ok tt)
index_txs sy block_number i (x ∷ xs) = do
  _ ← index_tx sy block_number i x
  index_txs sy block_number (suc i) xs

abbrev pub logs_or_none : Result (List Log) → List Log
logs_or_none (ok lgs) = lgs
logs_or_none (err e) = []

-- The logs of the watched contracts.
abbrev pub watched_logs : Node → List Text → ℕ → List Log
watched_logs node [] n = []
watched_logs node (a ∷ more) n = logs_or_none (
    get_logs node (record { from_block = hex_param n; to_block = hex_param n; address = a ∷ more }))

abbrev pub block_row : String → Block → BlockRow
block_row chain b = record {
  chain = chain;
  number = uint_or_zero b.number;
  hash = b.hash;
  parent_hash = b.parent_hash;
  timestamp = uint_or_zero b.timestamp;
  tx_count = length b.transactions;
}

-- `indexBlock`.
unfoldable pub index_block : Syncer → ℕ → Stateful {0} ChainTables Unit
unfolding get_block_by_number insert_block index_txs index_logs get_logs uint_or_zero
index_block sy n = do
  b ← ask (λ t. get_block_by_number sy.node n true)
  _ ← exec (insert_block (block_row sy.chain b))
  _ ← index_txs sy (uint_or_zero b.number) 0 b.transactions
  index_logs sy.chain (watched_logs sy.node sy.watch n) (uint_or_zero b.number)

-- What a round of the loop of `RunOnce` does, before the count goes up.
unfoldable pub index_next : Syncer → ℕ → Stateful {0} ChainTables Unit
unfolding index_block set_sync_state
index_next sy n = do _ ← index_block sy n; exec (set_sync_state sy.chain n)

-- How many blocks were indexed, the error if there is one, and the tables.
abbrev pub Round : Type 0
Round = ℕ × Result {0} Unit × ChainTables

abbrev pub go_on : ℕ → (ChainTables → Round) → Result {0} Unit × ChainTables → Round
go_on indexed next (ok u, t) = next t
go_on indexed next (err e, t) = (indexed, err e, t)

-- The loop of `RunOnce` from block n, with the blocks that are left and those that are indexed.
unfoldable pub run_blocks : Syncer → ℕ → ℕ → ℕ → ChainTables → Round
unfolding index_next
run_blocks sy zero n indexed t = (indexed, ok tt, t)
run_blocks sy (suc left) n indexed t =
    go_on indexed (run_blocks sy left (n + 1) (indexed + 1)) (index_next sy n t)

-- A cursor of -1 is the word 2 ^ 64 - 1.
abbrev pub start_after : ℕ → ℕ → ℕ
start_after cursor head =
    let start = (cursor + 1) % 2 ^ 64 in if nat_eqb start 0 && ltb 3 head then head - 3 else start

-- `end`, in uint64.
abbrev pub end_of : ℕ → ℕ → ℕ → ℕ
end_of batch start head =
    let end = (start + batch + (2 ^ 64 - 1)) % 2 ^ 64 in if ltb head end then head else end

unfoldable pub run_from : Syncer → ℕ → ℕ → ChainTables → Round
unfolding run_blocks
run_from sy start head t =
    if ltb head start
    then (0, ok tt, t)
    else run_blocks sy (end_of sy.batch_max start head + 1 - start) start 0 t

abbrev pub run_at : Syncer → Result ℕ → ℕ → ChainTables → Round
run_at sy (err e) cursor t = (0, err e, t)
run_at sy (ok head) cursor t = run_from sy (start_after cursor head) head t

abbrev pub run_state : Syncer → Option ℕ → ChainTables → Round
run_state sy none t = (0, broken, t)
run_state sy (some cursor) t = run_at sy (latest_block sy.node) cursor t

-- `RunOnce`.
unfoldable pub run_once : Syncer → ChainTables → Round
unfolding run_from latest_block get_sync_state
run_once sy t = run_state sy (get_sync_state sy.chain t.states) t

-- The ticker of services/indexer: rounds one after the other, whose errors are logged.
unfoldable pub run_rounds : Syncer → ℕ → ChainTables → ChainTables
unfolding run_once
run_rounds sy zero t = t
run_rounds sy (suc k) t = run_rounds sy k (run_once sy t).2
