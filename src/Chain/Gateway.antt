-- ===== src/Chain/Gateway.antt =====
-- services/rpc-gateway/internal/handler/handler.go on the tables of the indexer and the nodes of the
-- chains (a parameter, by their URLs). A limit that is no positive number is 0, a block number that is
-- no int64 is `none`. JSON and the router are not modelled.
use crypto_exchange_lab.Prelude.{
  ℕ, zero, suc, ◌-◌, false, String, List, ◌∷◌, Option, none, some, if◌then◌else◌, ltb, nat_eqb,
  ◌&&◌, length,
}
use crypto_exchange_lab.Errors.{Code, Result, ok, err, reported, ◌>>=◌}
use crypto_exchange_lab.Chain.Text.{Text, lower}
use crypto_exchange_lab.Chain.Hex.{hex_to_big_int}
use crypto_exchange_lab.Chain.Client.{
  Node, Receipt, latest_block, get_block_by_number, get_transaction_by_hash,
  get_transaction_receipt, get_balance, uint_or_zero,
}
use crypto_exchange_lab.Chain.Store.{
  Chain, BlockRow, TxRow, EventRow, WatchedContract, ChainTables, list_chains, get_chain,
  get_sync_state, list_watched_contracts,
}
use crypto_exchange_lab.Chain.Blocks.{
  list_blocks, get_block, get_transaction, list_transactions_by_address, list_block_transactions,
  list_events,
}
use crypto_exchange_lab.Chain.Sync.{decimal, wei_of}

pub record ChainStatus : Type 0 where
  pub chain : Chain
  pub last_indexed_block : ℕ
  pub live_head : ℕ
  pub lag_blocks : ℕ

pub record LiveTx : Type 0 where
  pub hash : Text
  pub block_number : ℕ
  pub tx_index : ℕ
  pub from_addr : Text
  pub to_addr : Text
  pub value_wei : Text
  pub gas_used : Option ℕ
  pub status : Option ℕ

pub record LiveBlock : Type 0 where
  pub number : ℕ
  pub hash : Text
  pub parent_hash : Text
  pub timestamp : ℕ
  pub tx_count : ℕ

pub data Answer : Type 0 where
  chain_list : List Chain → Answer
  chain_status : ChainStatus → Answer
  block_list : List BlockRow → Answer
  one_block : BlockRow → Answer
  tx_list : List TxRow → Answer
  one_tx : TxRow → Answer
  live_tx : LiveTx → Answer
  balance : Text → Text → Answer
  event_list : List EventRow → Answer
  contract_list : List WatchedContract → Answer
  live_block : LiveBlock → Answer
  failed : Code → Answer

pub data Request : Type 0 where
  asking_chains : Request
  asking_status : String → Request
  asking_blocks : String → ℕ → Request
  asking_block : String → Option ℕ → Request
  asking_block_txs : String → Option ℕ → Request
  asking_tx : String → Text → Request
  asking_address_txs : String → Text → ℕ → Request
  asking_balance : String → Text → Request
  asking_events : String → String → ℕ → Request
  asking_contracts : String → Request
  asking_latest : String → Request

-- `queryInt`.
abbrev pub query_int : ℕ → ℕ → ℕ
query_int default zero = default
query_int default (suc n) = suc n

-- `strings.HasPrefix` and the prefix that is put in front otherwise.
abbrev pub with_0x : Text → Text
with_0x (c ∷ e ∷ s) =
    if nat_eqb c b'0' && nat_eqb e b'x' then c ∷ e ∷ s else b'0' ∷ b'x' ∷ c ∷ e ∷ s
with_0x s = b'0' ∷ b'x' ∷ s

-- `fail`.
abbrev pub or_fail : Result Answer → Answer
or_fail (ok a) = a
or_fail (err e) = failed (reported e)

abbrev pub found_or_fail {ℓ} : {A : Type ℓ} → Option A → (A → Answer) → Answer
found_or_fail none next = failed Code.not_found
found_or_fail (some a) next = next a

abbrev pub head_or_zero : Result ℕ → ℕ
head_or_zero (ok n) = n
head_or_zero (err e) = 0

-- The blocks by which the index is behind; none when the node does not answer.
unfoldable pub lag_of : Result ℕ → ℕ → ℕ
lag_of (ok head) last = if ltb last head then head - last else 0
lag_of (err e) last = 0

abbrev pub status_of : Chain → Result ℕ → Option ℕ → Answer
status_of c head none = failed Code.internal
status_of c head (some last) = chain_status (record {
  chain = c;
  last_indexed_block = last;
  live_head = head_or_zero head;
  lag_blocks = lag_of head last;
})

abbrev pub numbered : Option ℕ → (ℕ → Answer) → Answer
numbered none next = failed Code.invalid_argument
numbered (some n) next = next n

abbrev pub gas_of : Result Receipt → Option ℕ
gas_of (ok r) = some (uint_or_zero r.gas_used)
gas_of (err e) = none

abbrev pub receipt_status_of : Result Receipt → Option ℕ
receipt_status_of (ok r) = some (uint_or_zero r.status)
receipt_status_of (err e) = none

-- `fetchLiveTx`.
unfoldable pub fetch_live_tx : Node → Text → Result LiveTx
unfolding get_transaction_by_hash get_transaction_receipt uint_or_zero hex_to_big_int
fetch_live_tx node hash = do
  x ← get_transaction_by_hash node (with_0x hash)
  let receipt = get_transaction_receipt node (with_0x hash)
  ok (record {
    hash = x.hash;
    block_number = uint_or_zero x.block_number;
    tx_index = uint_or_zero x.transaction_index;
    from_addr = x.from;
    to_addr = x.to;
    value_wei = wei_of x.value;
    gas_used = gas_of receipt;
    status = receipt_status_of receipt;
  })

abbrev pub live_or_missing : Result LiveTx → Answer
live_or_missing (ok x) = live_tx x
live_or_missing (err e) = failed Code.not_found

module _ (nodes : String → Node) where
  -- `getTx`: what is not indexed is asked of the node.
  unfoldable pub tx_or_live : Option TxRow → Option Chain → Text → Answer
  unfolding fetch_live_tx
  tx_or_live (some x) c hash = one_tx x
  tx_or_live none none hash = failed Code.not_found
  tx_or_live none (some c) hash = live_or_missing (fetch_live_tx (nodes c.rpc_url) hash)

  -- `addrBalance`.
  unfoldable pub balance_of : Text → Chain → Answer
  unfolding get_balance
  balance_of addr c = or_fail (do
    bal ← get_balance (nodes c.rpc_url) (with_0x addr)
    ok (balance (lower (with_0x addr)) (decimal bal)))

  -- `liveLatestBlock`.
  unfoldable pub latest_of : Chain → Answer
  unfolding latest_block get_block_by_number uint_or_zero
  latest_of c = or_fail (do
    head ← latest_block (nodes c.rpc_url)
    b ← get_block_by_number (nodes c.rpc_url) head false
    ok (
        live_block (record {
          number = head;
          hash = b.hash;
          parent_hash = b.parent_hash;
          timestamp = uint_or_zero b.timestamp;
          tx_count = length b.transactions;
        })))

  -- The routes of `Register`.
  unfoldable pub serve : Request → ChainTables → Answer
  unfolding tx_or_live balance_of latest_of lag_of latest_block list_chains get_chain get_sync_state
      list_blocks get_block list_block_transactions get_transaction list_transactions_by_address
      list_events list_watched_contracts
  serve asking_chains t = chain_list (list_chains t.chains)
  serve (asking_status id) t =
      found_or_fail (get_chain id t.chains)
        (λ c. status_of c (latest_block (nodes c.rpc_url)) (get_sync_state id t.states))
  serve (asking_blocks id limit) t = block_list (list_blocks id (query_int 20 limit) t.blocks)
  serve (asking_block id number) t =
      numbered number (λ n. found_or_fail (get_block id n t.blocks) one_block)
  serve (asking_block_txs id number) t =
      numbered number (λ n. tx_list (list_block_transactions id n t.transactions))
  serve (asking_tx id hash) t =
      tx_or_live (get_transaction id hash t.transactions) (get_chain id t.chains) hash
  serve (asking_address_txs id addr limit) t =
      tx_list (list_transactions_by_address id addr (query_int 20 limit) t.transactions)
  serve (asking_balance id addr) t = found_or_fail (get_chain id t.chains) (balance_of addr)
  serve (asking_events id event_type limit) t =
      event_list (list_events id event_type (query_int 30 limit) t.events)
  serve (asking_contracts id) t = contract_list (list_watched_contracts id t.watched)
  serve (asking_latest id) t = found_or_fail (get_chain id t.chains) latest_of
