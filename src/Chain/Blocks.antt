-- ===== src/Chain/Blocks.antt =====
-- packages/chainstore/indexer.go: the statements on blocks, transactions and events. A row that is
-- there already is kept as it is.
use crypto_exchange_lab.Prelude.{
  ℕ, Bool, true, false, String, List, [], ◌∷◌, Option, none, some, if◌then◌else◌, ◌==◌, ◌&&◌, ◌||◌,
  not, ltb, nat_eqb, take,
}
use crypto_exchange_lab.Sort.{sort_slice}
use crypto_exchange_lab.Chain.Text.{Text, text_eqb, lower, is_empty}
use crypto_exchange_lab.Chain.Events.{EventType}
use crypto_exchange_lab.Chain.Store.{BlockRow, TxRow, EventRow, ChainTables, has_chain}

-- `GetBlock`.
unfoldable pub get_block : String → ℕ → List BlockRow → Option BlockRow
get_block id n [] = none
get_block id n (b ∷ bs) = if b.chain == id && nat_eqb b.number n then some b else get_block id n bs

abbrev pub has_number : String → ℕ → List BlockRow → Bool
has_number id n [] = false
has_number id n (b ∷ bs) = b.chain == id && nat_eqb b.number n || has_number id n bs

-- The unique index on the hashes of a chain.
abbrev pub has_hash : String → Text → List BlockRow → Bool
has_hash id h [] = false
has_hash id h (b ∷ bs) = b.chain == id && text_eqb b.hash h || has_hash id h bs

abbrev pub lower_block : BlockRow → BlockRow
lower_block b = record b { hash = lower b.hash; parent_hash = lower b.parent_hash }

-- `InsertBlock`: a known number is skipped; an unknown chain, and a known hash under another number,
-- are errors.
unfoldable pub insert_block : BlockRow → ChainTables → Option ChainTables
unfolding has_chain
insert_block b t =
    if has_number b.chain b.number t.blocks
    then some t
    else if has_chain b.chain t.chains && not (has_hash b.chain (lower b.hash) t.blocks)
    then some (record t { blocks = lower_block b ∷ t.blocks })
    else none

abbrev pub lower_to : Option Text → Option Text
lower_to none = none
lower_to (some a) = if is_empty a then none else some (lower a)

abbrev pub lower_tx : TxRow → TxRow
lower_tx x = record x {
  hash = lower x.hash;
  from_addr = lower x.from_addr;
  to_addr = lower_to x.to_addr;
}

unfoldable pub get_transaction_row : String → Text → List TxRow → Option TxRow
get_transaction_row id h [] = none
get_transaction_row id h (x ∷ xs) =
    if x.chain == id && text_eqb x.hash h then some x else get_transaction_row id h xs

abbrev pub is_known {ℓ} : {A : Type ℓ} → Option A → Bool
is_known none = false
is_known (some a) = true

-- `InsertTransaction`: a known hash is skipped, an unknown block is an error.
unfoldable pub insert_transaction : TxRow → ChainTables → Option ChainTables
unfolding get_transaction_row
insert_transaction x t =
    if is_known (get_transaction_row x.chain (lower x.hash) t.transactions)
    then some t
    else if has_number x.chain x.block_number t.blocks
    then some (record t { transactions = lower_tx x ∷ t.transactions })
    else none

-- `GetTransaction`.
unfoldable pub get_transaction : String → Text → List TxRow → Option TxRow
unfolding get_transaction_row
get_transaction id h xs = get_transaction_row id (lower h) xs

abbrev pub has_event : String → Text → ℕ → List EventRow → Bool
has_event id h i [] = false
has_event id h i (e ∷ es) =
    e.chain == id && text_eqb e.tx_hash h && nat_eqb e.log_index i || has_event id h i es

abbrev pub lower_event : EventRow → EventRow
lower_event e = record e { tx_hash = lower e.tx_hash; contract_address = lower e.contract_address }

-- `InsertEvent`.
unfoldable pub insert_event : EventRow → ChainTables → ChainTables
insert_event e t =
    if has_event e.chain (lower e.tx_hash) e.log_index t.events
    then t
    else record t { events = lower_event e ∷ t.events }

-- The limits of the lists.
abbrev pub bounded : ℕ → ℕ → ℕ
bounded default limit = if nat_eqb limit 0 || ltb 100 limit then default else limit

unfoldable pub blocks_of : String → List BlockRow → List BlockRow
blocks_of id [] = []
blocks_of id (b ∷ bs) = let rest = blocks_of id bs in if b.chain == id then b ∷ rest else rest

abbrev pub later_block : BlockRow → BlockRow → Bool
later_block x y = ltb y.number x.number

-- `ListBlocks`.
unfoldable pub list_blocks : String → ℕ → List BlockRow → List BlockRow
unfolding blocks_of sort_slice
list_blocks id limit bs = take (bounded 20 limit) (sort_slice later_block (blocks_of id bs))

abbrev pub is_address : Text → Option Text → Bool
is_address a none = false
is_address a (some b) = text_eqb b a

unfoldable pub select_txs : (TxRow → Bool) → List TxRow → List TxRow
select_txs test [] = []
select_txs test (x ∷ xs) = let rest = select_txs test xs in if test x then x ∷ rest else rest

abbrev pub later_tx : TxRow → TxRow → Bool
later_tx x y =
    ltb y.block_number x.block_number
    || nat_eqb y.block_number x.block_number && ltb y.tx_index x.tx_index

-- `ListTransactionsByAddress`.
unfoldable pub list_transactions_by_address : String → Text → ℕ → List TxRow → List TxRow
unfolding select_txs sort_slice
list_transactions_by_address id a limit xs = take (bounded 20 limit) (
    sort_slice later_tx (
      select_txs
        (λ x. x.chain == id && (text_eqb x.from_addr (lower a) || is_address (lower a) x.to_addr))
        xs))

abbrev pub earlier_tx : TxRow → TxRow → Bool
earlier_tx x y = ltb x.tx_index y.tx_index

-- `ListBlockTransactions`.
unfoldable pub list_block_transactions : String → ℕ → List TxRow → List TxRow
unfolding select_txs sort_slice
list_block_transactions id n xs =
    sort_slice earlier_tx (select_txs (λ x. x.chain == id && nat_eqb x.block_number n) xs)

abbrev pub type_name : EventType → String
type_name EventType.swap = "Swap"
type_name EventType.mint = "Mint"
type_name EventType.burn = "Burn"
type_name EventType.transfer = "Transfer"

unfoldable pub select_events : String → String → List EventRow → List EventRow
select_events id f [] = []
select_events id f (e ∷ es) =
    let rest = select_events id f es in
    if e.chain == id && (f == "" || type_name e.event_type == f) then e ∷ rest else rest

abbrev pub later_event : EventRow → EventRow → Bool
later_event x y =
    ltb y.block_number x.block_number
    || nat_eqb y.block_number x.block_number && ltb y.log_index x.log_index

-- `ListEvents`.
unfoldable pub list_events : String → String → ℕ → List EventRow → List EventRow
unfolding select_events sort_slice
list_events id f limit es = take (bounded 30 limit) (sort_slice later_event (select_events id f es))
