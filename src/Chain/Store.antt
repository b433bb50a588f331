-- ===== src/Chain/Store.antt =====
-- packages/chainstore/chains.go and the rows of store.go, on the tables of migration 005 with their
-- keys. A number is a 64-bit word; the ranges of INT, SMALLINT and VARCHAR columns and times are left out.
use crypto_exchange_lab.Prelude.{
  ℕ, Bool, true, false, String, List, [], ◌∷◌, Option, none, some, if◌then◌else◌, ◌==◌, ◌&&◌, ltb,
  Ordering,
}
use Prim.Native.String.{compare as compare_text}
use crypto_exchange_lab.Sort.{sort_slice}
use crypto_exchange_lab.Chain.Text.{Text, text_eqb, lower}
use crypto_exchange_lab.Chain.Events.{EventType, Payload}

-- `Chain`, with the column `enabled`.
pub record Chain : Type 0 where
  pub id : String
  pub chain_id : ℕ
  pub name : String
  pub rpc_url : String
  pub enabled : Bool

-- `SyncState`.
pub record SyncState : Type 0 where
  pub chain : String
  pub last_indexed_block : ℕ

-- `Block`.
pub record BlockRow : Type 0 where
  pub chain : String
  pub number : ℕ
  pub hash : Text
  pub parent_hash : Text
  pub timestamp : ℕ
  pub tx_count : ℕ

-- `Transaction`.
pub record TxRow : Type 0 where
  pub chain : String
  pub hash : Text
  pub block_number : ℕ
  pub tx_index : ℕ
  pub from_addr : Text
  pub to_addr : Option Text
  pub value_wei : Text
  pub gas_used : Option ℕ
  pub status : Option ℕ

-- `Event`, with the first topic and the data of its log.
pub record EventRow : Type 0 where
  pub chain : String
  pub block_number : ℕ
  pub tx_hash : Text
  pub log_index : ℕ
  pub contract_address : Text
  pub event_type : EventType
  pub topic0 : Text
  pub raw_data : Text
  pub payload : Option Payload

-- `WatchedContract`.
pub record WatchedContract : Type 0 where
  pub chain : String
  pub address : Text
  pub label : String

pub record ChainTables : Type 0 where
  pub chains : List Chain
  pub states : List SyncState
  pub watched : List WatchedContract
  pub blocks : List BlockRow
  pub transactions : List TxRow
  pub events : List EventRow

abbrev pub chain_before : Chain → Chain → Bool
chain_before x y = ltb x.chain_id y.chain_id

unfoldable pub enabled_chains : List Chain → List Chain
enabled_chains [] = []
enabled_chains (c ∷ cs) = let rest = enabled_chains cs in if c.enabled then c ∷ rest else rest

-- `ListChains`.
unfoldable pub list_chains : List Chain → List Chain
unfolding enabled_chains sort_slice
list_chains cs = sort_slice chain_before (enabled_chains cs)

-- `GetChain`.
unfoldable pub get_chain : String → List Chain → Option Chain
get_chain id [] = none
get_chain id (c ∷ cs) = if c.id == id && c.enabled then some c else get_chain id cs

-- The foreign key on a chain.
unfoldable pub has_chain : String → List Chain → Bool
has_chain id [] = false
has_chain id (c ∷ cs) = if c.id == id then true else has_chain id cs

-- `GetSyncState`.
unfoldable pub get_sync_state : String → List SyncState → Option ℕ
get_sync_state id [] = none
get_sync_state id (s ∷ ss) =
    if s.chain == id then some s.last_indexed_block else get_sync_state id ss

unfoldable pub put_sync_state : String → ℕ → List SyncState → List SyncState
put_sync_state id n [] = record { chain = id; last_indexed_block = n } ∷ []
put_sync_state id n (s ∷ ss) =
    if s.chain == id
    then record { chain = id; last_indexed_block = n } ∷ ss
    else s ∷ put_sync_state id n ss

-- `SetSyncState`: an unknown chain is an error.
unfoldable pub set_sync_state : String → ℕ → ChainTables → Option ChainTables
unfolding put_sync_state has_chain
set_sync_state id n t =
    if has_chain id t.chains
    then some (record t { states = put_sync_state id n t.states })
    else none

unfoldable pub put_watched : WatchedContract → List WatchedContract → List WatchedContract
put_watched w [] = w ∷ []
put_watched w (v ∷ vs) =
    if v.chain == w.chain && text_eqb v.address w.address then w ∷ vs else v ∷ put_watched w vs

-- `UpsertWatchedContract`.
unfoldable pub upsert_watched_contract : String → Text → String → ChainTables → Option ChainTables
unfolding put_watched has_chain
upsert_watched_contract id address label t =
    if has_chain id t.chains
    then some (record t {
      watched =
          put_watched (record { chain = id; address = lower address; label = label }) t.watched;
    })
    else none

abbrev pub label_before : WatchedContract → WatchedContract → Bool
label_before x y = elim (compare_text x.label y.label) [ Ordering.lt ↦ true | _ ↦ false ]

unfoldable pub watched_of : String → List WatchedContract → List WatchedContract
watched_of id [] = []
watched_of id (w ∷ ws) = let rest = watched_of id ws in if w.chain == id then w ∷ rest else rest

-- `ListWatchedContracts`.
unfoldable pub list_watched_contracts : String → List WatchedContract → List WatchedContract
unfolding watched_of sort_slice
list_watched_contracts id ws = sort_slice label_before (watched_of id ws)
