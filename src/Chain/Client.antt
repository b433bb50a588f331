-- ===== src/Chain/Client.antt =====
-- packages/chainrpc/client.go and the answers of types.go. What the node says to a request is a
-- parameter; a number outside a Go `int` or `int64` is not told apart from its 64-bit word.
use crypto_exchange_lab.Prelude.{ℕ, Bool, List, Option, none, some, if◌then◌else◌}
use crypto_exchange_lab.Prelude.Int.{ℤ}
use crypto_exchange_lab.Errors.{Result, ok, ◌>>=◌, broken}
use crypto_exchange_lab.Chain.Text.{Text, is_empty}
use crypto_exchange_lab.Chain.Hex.{hex_to_uint64, hex_to_big_int, hex_param}
use crypto_exchange_lab.Chain.Events.{Log}

-- An object in the list of a block's transactions, with "" for a member that is no string.
pub record TxObject : Type 0 where
  pub hash : Text
  pub from : Text
  pub to : Text
  pub value : Text

-- `Block`: a transaction that is no object is `none`.
pub record Block : Type 0 where
  pub number : Text
  pub hash : Text
  pub parent_hash : Text
  pub timestamp : Text
  pub transactions : List (Option TxObject)

-- `Transaction`.
pub record Transaction : Type 0 where
  pub hash : Text
  pub block_number : Text
  pub from : Text
  pub to : Text
  pub value : Text
  pub transaction_index : Text

-- `Receipt`.
pub record Receipt : Type 0 where
  pub transaction_hash : Text
  pub status : Text
  pub gas_used : Text
  pub logs : List Log

-- `LogFilter`, without topics.
pub record LogFilter : Type 0 where
  pub from_block : Text
  pub to_block : Text
  pub address : List Text

-- What comes back: nothing that is JSON, an error of the node, a null, a result of another shape, or
-- the result.
pub data Response {ℓ} (A : Type ℓ) : Type ℓ where
  unreadable rpc_error null_result other_shape : Response A
  result : A → Response A

-- The node's answers to `eth_blockNumber` and so on.
pub record Node : Type 0 where
  pub block_number : Response Text
  pub block_by_number : Text → Bool → Response Block
  pub transaction_by_hash : Text → Response Transaction
  pub transaction_receipt : Text → Response Receipt
  pub logs : LogFilter → Response (List Log)
  pub balance : Text → Response Text

-- `call`.
unfoldable pub call {ℓ} : {A : Type ℓ} → Response A → Result A
call unreadable = broken
call rpc_error = broken
call null_result = broken
call other_shape = broken
call (result a) = ok a

abbrev pub or_broken {ℓ} : {A : Type ℓ} → Option A → Result A
or_broken none = broken
or_broken (some a) = ok a

-- `BlockNumber`.
unfoldable pub latest_block : Node → Result ℕ
unfolding call hex_to_uint64
latest_block node = do h ← call node.block_number; or_broken (hex_to_uint64 h)

-- `GetBlockByNumber`, `GetTransactionByHash` and `GetTransactionReceipt`: an empty hash is an error.
unfoldable pub get_block_by_number : Node → ℕ → Bool → Result Block
unfolding call
get_block_by_number node n full = do
  b ← call (node.block_by_number (hex_param n) full)
  if is_empty b.hash then broken else ok b

unfoldable pub get_transaction_by_hash : Node → Text → Result Transaction
unfolding call
get_transaction_by_hash node hash = do
  t ← call (node.transaction_by_hash hash)
  if is_empty t.hash then broken else ok t

unfoldable pub get_transaction_receipt : Node → Text → Result Receipt
unfolding call
get_transaction_receipt node hash = do
  r ← call (node.transaction_receipt hash)
  if is_empty r.transaction_hash then broken else ok r

-- `GetLogs`.
unfoldable pub get_logs : Node → LogFilter → Result (List Log)
unfolding call
get_logs node filter = call (node.logs filter)

-- `GetBalance`.
unfoldable pub get_balance : Node → Text → Result ℤ
unfolding call hex_to_big_int
get_balance node address = do h ← call (node.balance address); or_broken (hex_to_big_int h)

-- `BlockNumberHex`, `BlockTimestampUnix` and `ReceiptStatus`, with 0 next to an error, as their
-- callers read them.
unfoldable pub uint_or_zero : Text → ℕ
unfolding hex_to_uint64
uint_or_zero h = elim (hex_to_uint64 h) [ none ↦ 0 | some n ↦ n ]
