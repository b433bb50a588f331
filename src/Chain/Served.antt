-- ===== src/Chain/Served.antt =====
-- The blocks of a round are there for the gateway.
use crypto_exchange_lab.Prelude.{
  ℕ, zero, suc, ◌+◌, ◌^◌, ◌≤◌, ◌<◌, ◌≡◌, refl, sym, ap, subst, true, String, List, [], ◌∷◌, Option,
  none, some, arith, Bool-cases, inl, inr, ◌==◌, ◌&&◌, eq_refl, ltb, nat_eqb,
}
use crypto_exchange_lab.Errors.{Result, ok, err}
use crypto_exchange_lab.Stateful.{Keeps, written, bind_action, bind-Keeps, within-Keeps}
use crypto_exchange_lab.Chain.Client.{
  Node, Block, or_broken, latest_block, get_block_by_number, uint_or_zero,
}
use crypto_exchange_lab.Chain.Store.{
  BlockRow, TxRow, EventRow, ChainTables, get_sync_state, set_sync_state,
}
use crypto_exchange_lab.Chain.Blocks.{
  get_block, has_number, insert_block, insert_transaction, insert_event,
}
use crypto_exchange_lab.Chain.Sync.{
  Syncer, Round, exec, go_on, block_row, watched_logs, index_block, index_next, run_blocks,
  run_once,
}
use crypto_exchange_lab.Chain.Kept.{
  AreKept, or_broken_ok, index_logs-Keeps, index_txs-Keeps, index_block-Keeps,
}
use crypto_exchange_lab.Chain.Progress.{due, run_once-run_blocks}
use crypto_exchange_lab.Chain.Gateway.{one_block, asking_block, serve}

-- A block of the chain with the number is there.
abbrev pub Has : String → ℕ → ChainTables → Type 0
Has id n t = has_number id n t.blocks ≡ true

insert_block_keeps :
    (id : String) (n : ℕ) (b : BlockRow) (t t' : ChainTables)
    → insert_block b t ≡ some t'
    → Has id n t
    → Has id n t'
unfolding insert_block
insert_block_keeps id n b t t' h k = ground arith

insert_transaction_keeps :
    (id : String) (n : ℕ) (x : TxRow) (t t' : ChainTables)
    → insert_transaction x t ≡ some t'
    → Has id n t
    → Has id n t'
unfolding insert_transaction
insert_transaction_keeps id n x t t' h k = ground arith

insert_event_keeps :
    (id : String) (n : ℕ) (e : EventRow) (t : ChainTables)
    → Has id n t
    → Has id n (insert_event e t)
unfolding insert_event
insert_event_keeps id n e t k = ground arith

Has-AreKept : (id : String) (n : ℕ) → AreKept (Has id n)
Has-AreKept id n = record {
  block = insert_block_keeps id n;
  transaction = insert_transaction_keeps id n;
  event = insert_event_keeps id n;
}

insert_block_there :
    (b : BlockRow) (t t' : ChainTables) → insert_block b t ≡ some t' → Has b.chain b.number t'
unfolding insert_block
insert_block_there b t t' h = ground (arith, eq_refl b.chain)

written_ok :
    (o : Option ChainTables) (t t' : ChainTables)
    → written (λ u s. u) t (or_broken o) ≡ (ok tt, t')
    → o ≡ some t'
written_ok none t t' h = absurd cc
written_ok (some u) t t' h = ap (λ x. some x.1) h

module _ (sy : Syncer)
    (honest : (n : ℕ) (b : Block)
      → n < 2 ^ 64
      → get_block_by_number sy.node n true ≡ ok b
      → uint_or_zero b.number ≡ n) where
  index_block-Has :
      (n : ℕ) (t t' : ChainTables)
      → n < 2 ^ 64
      → index_block sy n t ≡ (ok tt, t')
      → Has sy.chain n t'
  unfolding index_block
  index_block-Has n t t' small h =
      let (b, t1, p1, h1) = bind_action _ _ t t' tt h in
      let (u2, t2, p2, h2) = bind_action _ _ t1 t' tt h1 in
      let read : get_block_by_number sy.node n true ≡ ok b = ap (λ x. x.0) p1 in
      let there : Has sy.chain n t2 =
        subst (λ k. Has sy.chain k t2) (honest n b small read)
          (insert_block_there (block_row sy.chain b) t1 t2 (written_ok _ t1 t2 p2)) in
      let rest =
        bind-Keeps (Has sy.chain n) _ _
          (index_txs-Keeps (Has sy.chain n) (Has-AreKept sy.chain n) sy (uint_or_zero b.number) 0
            b.transactions)
          λ u.
            index_logs-Keeps (Has sy.chain n) (Has-AreKept sy.chain n) sy.chain
              (watched_logs sy.node sy.watch n) (uint_or_zero b.number) in
      subst (Has sy.chain n) (ap (λ x. x.1) h2) (rest.keeps t2 there)

  set_sync_state-blocks :
      (n : ℕ) (t t' : ChainTables) → set_sync_state sy.chain n t ≡ some t' → t'.blocks ≡ t.blocks
  unfolding set_sync_state
  set_sync_state-blocks n t t' h = ground arith

  cursor-Keeps : (m n : ℕ) → Keeps (Has sy.chain m) (exec (set_sync_state sy.chain n))
  cursor-Keeps m n =
      within-Keeps (Has sy.chain m) _ _ (λ t. or_broken (set_sync_state sy.chain n t))
        λ t t' e k.
          subst (λ bs. has_number sy.chain m bs ≡ true)
            (sym (set_sync_state-blocks n t t' (or_broken_ok (set_sync_state sy.chain n t) t' e))) k

  index_next-Keeps : (m n : ℕ) → Keeps (Has sy.chain m) (index_next sy n)
  unfolding index_next
  index_next-Keeps m n =
      bind-Keeps (Has sy.chain m) _ _
        (index_block-Keeps (Has sy.chain m) (Has-AreKept sy.chain m) sy n) λ u. cursor-Keeps m n

  index_next-Has :
      (n : ℕ) (t t' : ChainTables)
      → n < 2 ^ 64
      → index_next sy n t ≡ (ok tt, t')
      → Has sy.chain n t'
  unfolding index_next
  index_next-Has n t t' small h =
      let (u, t1, p, q) = bind_action _ _ t t' tt h in
      subst (Has sy.chain n) (ap (λ x. x.1) q)
        ((cursor-Keeps n n).keeps t1 (index_block-Has n t t1 small p))

  go_on-keeps :
      (m indexed : ℕ) (x : Result {0} Unit × ChainTables) (next : ChainTables → Round)
      → Has sy.chain m x.1
      → ((s : ChainTables) → Has sy.chain m s → Has sy.chain m (next s).2)
      → Has sy.chain m (go_on indexed next x).2
  go_on-keeps m indexed (ok u, s) next h k = k s h
  go_on-keeps m indexed (err e, s) next h k = h

  run_blocks-keeps :
      (m left n indexed : ℕ) (t : ChainTables)
      → Has sy.chain m t
      → Has sy.chain m (run_blocks sy left n indexed t).2
  unfolding run_blocks
  run_blocks-keeps m zero n indexed t h = h
  run_blocks-keeps m (suc left) n indexed t h =
      go_on-keeps m indexed (index_next sy n t) _ ((index_next-Keeps m n).keeps t h)
        λ s k. run_blocks-keeps m left (n + 1) (indexed + 1) s k

  go_on-Has :
      (m n left indexed : ℕ) (t : ChainTables) (x : Result {0} Unit × ChainTables)
      → m < 2 ^ 64
      → index_next sy n t ≡ x
      → ((s : ChainTables)
          → (run_blocks sy left (n + 1) (indexed + 1) s).1 ≡ ok tt
          → n + 1 ≤ m
          → Has sy.chain m (run_blocks sy left (n + 1) (indexed + 1) s).2)
      → (go_on indexed (run_blocks sy left (n + 1) (indexed + 1)) x).1 ≡ ok tt
      → n ≤ m
      → Has sy.chain m (go_on indexed (run_blocks sy left (n + 1) (indexed + 1)) x).2
  go_on-Has m n left indexed t (err e, s) small h rest good from = absurd cc
  go_on-Has m n left indexed t (ok u, s) small h rest good from = elim (Bool-cases (ltb n m)) [
    | inl e ↦ rest s good (ground arith)
    | inr e ↦
        let same : n ≡ m = ground arith in
        run_blocks-keeps m left (n + 1) (indexed + 1) s
          (subst (λ k. Has sy.chain k s) same (index_next-Has n t s (omega (arith, small)) h))
  ]

  run_blocks-Has :
      (m left n indexed : ℕ) (t : ChainTables)
      → m < 2 ^ 64
      → (run_blocks sy left n indexed t).1 ≡ ok tt
      → n ≤ m
      → m < n + left
      → Has sy.chain m (run_blocks sy left n indexed t).2
  unfolding run_blocks
  run_blocks-Has m zero n indexed t small good from to = absurd (omega arith)
  run_blocks-Has m (suc left) n indexed t small good from to =
      go_on-Has m n left indexed t (index_next sy n t) small refl
        (λ s g f. run_blocks-Has m left (n + 1) (indexed + 1) s small g f (omega arith)) good from

get_block_found :
    (id : String) (n : ℕ) (bs : List BlockRow)
    → has_number id n bs ≡ true
    → (b : BlockRow) × (get_block id n bs ≡ some b) × (b.number ≡ n)
unfolding get_block
get_block_found id n [] h = absurd cc
get_block_found id n (b ∷ bs) h = elim (Bool-cases (b.chain == id && nat_eqb b.number n)) [
  | inl e ↦ (b, rw e refl, ground arith)
  | inr e ↦ let (c, f, k) = get_block_found id n bs (ground arith) in (c, rw e f, k)
]

due_below : (batch head cursor : ℕ) → due batch head cursor ≤ batch
due_below batch head cursor = ground arith

-- After a round without an error, the gateway answers with a block for each number that was due, if the
-- node gives each block the number it is asked for: the indexer and the gateway together serve the chain.
pub run_once_served :
    (sy : Syncer) (nodes : String → Node) (cursor head n : ℕ) (t : ChainTables)
    → ((k : ℕ) (b : Block)
        → k < 2 ^ 64
        → get_block_by_number sy.node k true ≡ ok b
        → uint_or_zero b.number ≡ k)
    → get_sync_state sy.chain t.states ≡ some cursor
    → latest_block sy.node ≡ ok head
    → cursor + sy.batch_max + 1 < 2 ^ 64
    → (run_once sy t).1 ≡ ok tt
    → cursor < n
    → n ≤ cursor + due sy.batch_max head cursor
    → (b : BlockRow) × (serve nodes (asking_block sy.chain (some n)) (run_once sy t).2
        ≡ one_block b)
      × (b.number ≡ n)
unfolding serve
run_once_served sy nodes cursor head n t honest at latest fits good from to =
    let same = run_once-run_blocks sy cursor head t at latest fits in
    let there =
      run_blocks-Has sy honest n (due sy.batch_max head cursor) (cursor + 1) 0 t
        (omega (arith, due_below sy.batch_max head cursor, to, fits))
        (subst (λ r. r.1 ≡ ok tt) same good) (omega arith) (omega arith) in
    let (b, f, k) =
      get_block_found sy.chain n (run_once sy t).2.blocks
        (subst (λ r. has_number sy.chain n r.2.blocks ≡ true) (sym same) there) in
    (b, rw f refl, k)
