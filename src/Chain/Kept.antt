-- ===== src/Chain/Kept.antt =====
-- What indexing a block keeps of the tables, the cursors among it.
use crypto_exchange_lab.Prelude.{
  ℕ, suc, ◌≡◌, subst, ◌∙◌, String, List, [], ◌∷◌, Option, none, some, arith,
}
use crypto_exchange_lab.Errors.{ok}
use crypto_exchange_lab.Stateful.{Keeps, bind-Keeps, ask-Keeps, within-Keeps}
use crypto_exchange_lab.Chain.Events.{Log, ParsedEvent}
use crypto_exchange_lab.Chain.Client.{TxObject, or_broken}
use crypto_exchange_lab.Chain.Store.{BlockRow, TxRow, EventRow, SyncState, ChainTables}
use crypto_exchange_lab.Chain.Blocks.{insert_block, insert_transaction, insert_event}
use crypto_exchange_lab.Chain.Sync.{
  Syncer, exec, event_row, block_row, tx_row, receipt_of, insert_parsed, index_log, index_logs,
  index_tx, index_txs, index_block,
}

pub or_broken_ok : (o : Option ChainTables) (t : ChainTables) → or_broken o ≡ ok t → o ≡ some t
or_broken_ok none t h = absurd cc
or_broken_ok (some u) t h = ground arith

some_inj : (t t' : ChainTables) → some t ≡ some t' → t ≡ t'
some_inj t t' h = ground arith

-- What each statement on blocks, transactions and events keeps of the tables.
pub record AreKept (Fine : ChainTables → Type 0) : Type 0 where
  pub block : (b : BlockRow) (t t' : ChainTables) → insert_block b t ≡ some t' → Fine t → Fine t'
  pub transaction :
      (x : TxRow) (t t' : ChainTables) → insert_transaction x t ≡ some t' → Fine t → Fine t'
  pub event : (e : EventRow) (t : ChainTables) → Fine t → Fine (insert_event e t)

module _ (Fine : ChainTables → Type 0) (kept : AreKept Fine) where
  exec-Keeps :
      (f : ChainTables → Option ChainTables)
      → ((t t' : ChainTables) → f t ≡ some t' → Fine t → Fine t')
      → Keeps Fine (exec f)
  exec-Keeps f h =
      within-Keeps Fine _ _ (λ t. or_broken (f t)) λ t t' e k. h t t' (or_broken_ok (f t) t' e) k

  event-Keeps :
      (e : EventRow) (t t' : ChainTables) → some (insert_event e t) ≡ some t' → Fine t → Fine t'
  event-Keeps e t t' h f = subst Fine (some_inj (insert_event e t) t' h) (kept.event e t f)

  insert_parsed-Keeps :
      (c : String) (lg : Log) (n : ℕ) (p : Option ParsedEvent) → Keeps Fine (insert_parsed c lg n p)
  insert_parsed-Keeps c lg n none = ask-Keeps Fine _
  insert_parsed-Keeps c lg n (some p) = exec-Keeps _ (event-Keeps (event_row c lg n p))

  pub index_logs-Keeps : (c : String) (lgs : List Log) (n : ℕ) → Keeps Fine (index_logs c lgs n)
  unfolding index_logs index_log
  index_logs-Keeps c [] n = ask-Keeps Fine _
  index_logs-Keeps c (lg ∷ rest) n =
      bind-Keeps Fine _ _ (bind-Keeps Fine _ _ (ask-Keeps Fine _) λ p. insert_parsed-Keeps c lg n p)
        λ u. index_logs-Keeps c rest n

  index_tx-Keeps : (sy : Syncer) (n i : ℕ) (x : Option TxObject) → Keeps Fine (index_tx sy n i x)
  unfolding index_tx
  index_tx-Keeps sy n i none = ask-Keeps Fine _
  index_tx-Keeps sy n i (some x) =
      bind-Keeps Fine _ _ (index_logs-Keeps sy.chain _ n)
        λ u. exec-Keeps _ (kept.transaction (tx_row sy.chain n i x (receipt_of sy.node x.hash)))

  pub index_txs-Keeps :
      (sy : Syncer) (n i : ℕ) (xs : List (Option TxObject)) → Keeps Fine (index_txs sy n i xs)
  unfolding index_txs
  index_txs-Keeps sy n i [] = ask-Keeps Fine _
  index_txs-Keeps sy n i (x ∷ xs) =
      bind-Keeps Fine _ _ (index_tx-Keeps sy n i x) λ u. index_txs-Keeps sy n (suc i) xs

  -- What the statements keep, the indexing of a block keeps, errors included.
  pub index_block-Keeps : (sy : Syncer) (n : ℕ) → Keeps Fine (index_block sy n)
  unfolding index_block
  index_block-Keeps sy n = bind-Keeps Fine _ _ (ask-Keeps Fine _) λ b.
      bind-Keeps Fine _ _ (exec-Keeps _ (kept.block (block_row sy.chain b))) λ u1.
        bind-Keeps Fine _ _ (index_txs-Keeps sy _ 0 b.transactions)
          λ u2. index_logs-Keeps sy.chain _ _

module _ (ss : List SyncState) where
  -- The cursors are these.
  pub record IsKept (t : ChainTables) : Type 0 where
    pub same_states : t.states ≡ ss

  insert_block-states :
      (b : BlockRow) (t t' : ChainTables) → insert_block b t ≡ some t' → t'.states ≡ t.states
  unfolding insert_block
  insert_block-states b t t' h = ground arith

  insert_transaction-states :
      (x : TxRow) (t t' : ChainTables) → insert_transaction x t ≡ some t' → t'.states ≡ t.states
  unfolding insert_transaction
  insert_transaction-states x t t' h = ground arith

  insert_event-states : (e : EventRow) (t : ChainTables) → (insert_event e t).states ≡ t.states
  unfolding insert_event
  insert_event-states e t = ground arith

  pub IsKept-AreKept : AreKept IsKept
  IsKept-AreKept = record {
    block = λ b t t' h k. record { same_states = insert_block-states b t t' h ∙ k.same_states };
    transaction =
        λ x t t' h k. record { same_states = insert_transaction-states x t t' h ∙ k.same_states };
    event = λ e t k. record { same_states = insert_event-states e t ∙ k.same_states };
  }
