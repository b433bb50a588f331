-- ===== src/Chain/Started.antt =====
-- The contracts that the indexer watches, from its start on.
use crypto_exchange_lab.Prelude.{
  ℕ, ◌≡◌, refl, sym, ap, ◌∙◌, subst, Bool, true, false, String, List, [], ◌∷◌, some, ◌==◌, ◌&&◌,
  ◌||◌, map, All, All-map, arith, Bool-cases, Option-cases, inl, inr, eq_refl, false≢true, eq_iff,
}
use crypto_exchange_lab.Sort.{sort_slice, All-sort_slice}
use crypto_exchange_lab.Common.Env.{Env}
use crypto_exchange_lab.Chain.Text.{Text, codes, text_eqb, text_eqb_refl}
use crypto_exchange_lab.Chain.Client.{Node}
use crypto_exchange_lab.Chain.Store.{
  Chain, BlockRow, TxRow, EventRow, WatchedContract, ChainTables, has_chain, get_chain, put_watched,
  upsert_watched_contract, watched_of, label_before, list_watched_contracts, set_sync_state,
}
use crypto_exchange_lab.Chain.Blocks.{insert_block, insert_transaction, insert_event}
use crypto_exchange_lab.Chain.Sync.{Syncer, run_rounds}
use crypto_exchange_lab.Chain.Rounds.{run_rounds-Fine}
use crypto_exchange_lab.Chain.Gateway.{Answer, asking_contracts, serve}
use crypto_exchange_lab.Chain.Indexer.{
  WatchEntry, env_or, parse_watch_list, label_of, or_logged, upsert_all, address_of, syncer_of,
  start_at, start,
}

-- The address is among the contracts.
abbrev pub names : Text → List WatchedContract → Bool
names a [] = false
names a (w ∷ ws) = text_eqb w.address a || names a ws

-- The gateway's answer lists the address.
abbrev pub lists : Text → Answer → Bool
lists a (Answer.contract_list ws) = names a ws
lists a _ = false

-- The chain watches the address.
abbrev has_watched : String → Text → List WatchedContract → Bool
has_watched id a [] = false
has_watched id a (w ∷ ws) = w.chain == id && text_eqb w.address a || has_watched id a ws

text_eqb_eq : (s t : Text) → text_eqb s t ≡ true → s ≡ t
unfolding text_eqb
text_eqb_eq [] [] h = refl
text_eqb_eq [] (b ∷ t) h = absurd cc
text_eqb_eq (a ∷ s) [] h = absurd cc
text_eqb_eq (a ∷ s) (b ∷ t) h = ground (arith, text_eqb_eq s t)

has_watched-put_watched :
    (w : WatchedContract) (ws : List WatchedContract)
    → has_watched w.chain w.address (put_watched w ws) ≡ true
unfolding put_watched
has_watched-put_watched w [] = ground (arith, eq_refl w.chain, text_eqb_refl w.address)
has_watched-put_watched w (v ∷ vs) =
    ground (arith, eq_refl w.chain, text_eqb_refl w.address, has_watched-put_watched w vs)

put_watched_keeps :
    (id : String) (a : Text) (w : WatchedContract) (ws : List WatchedContract)
    → has_watched id a ws ≡ true
    → has_watched id a (put_watched w ws) ≡ true
unfolding put_watched
put_watched_keeps id a w [] h = absurd cc
put_watched_keeps id a w (v ∷ vs) h =
    elim (Bool-cases (v.chain == w.chain && text_eqb v.address w.address)) [
      | inr e ↦ ground (arith, e, put_watched_keeps id a w vs)
      | inl e ↦
          let same_chain : v.chain ≡ w.chain = (eq_iff v.chain w.chain).0 (ground (arith, e)) in
          let same_address = text_eqb_eq v.address w.address (ground (arith, e)) in
          ground (arith, h, e, ap (λ x. x == id) same_chain, ap (λ x. text_eqb x a) same_address)
    ]

has_chain-get_chain :
    (id : String) (cs : List Chain) (c : Chain) → get_chain id cs ≡ some c → has_chain id cs ≡ true
unfolding get_chain has_chain
has_chain-get_chain id [] c h = absurd cc
has_chain-get_chain id (d ∷ ds) c h = ground (arith, has_chain-get_chain id ds c)

names-watched_of :
    (id : String) (a : Text) (ws : List WatchedContract)
    → has_watched id a ws ≡ true
    → names a (watched_of id ws) ≡ true
unfolding watched_of
names-watched_of id a [] h = absurd cc
names-watched_of id a (w ∷ ws) h = ground (arith, names-watched_of id a ws)

-- What is none of the contracts is none of any part.
all_other :
    (a : Text) (ws : List WatchedContract)
    → names a ws ≡ false
    → All (λ (w : WatchedContract). text_eqb w.address a ≡ false) ws
all_other a [] h = tt
all_other a (w ∷ ws) h = (ground arith, all_other a ws (ground arith))

none_named :
    (a : Text) (ws : List WatchedContract)
    → All (λ (w : WatchedContract). text_eqb w.address a ≡ false) ws
    → names a ws ≡ false
none_named a [] h = refl
none_named a (w ∷ ws) h = ground (arith, h.0, none_named a ws h.1)

names-list_watched :
    (id : String) (a : Text) (ws : List WatchedContract)
    → has_watched id a ws ≡ true
    → names a (list_watched_contracts id ws) ≡ true
unfolding list_watched_contracts
names-list_watched id a ws h =
    elim (Bool-cases (names a (sort_slice label_before (watched_of id ws)))) [
      | inl e ↦ e
      | inr e ↦
          let missing : names a (watched_of id ws) ≡ false =
            none_named a (watched_of id ws)
              (All-sort_slice label_before _ (watched_of id ws) (all_other a _ e)) in
          absurd (false≢true (sym missing ∙ names-watched_of id a ws h))
    ]

module _ (id : String) (a : Text) where
  abbrev IsWatched : ChainTables → Type 0
  IsWatched t = has_watched id a t.watched ≡ true

  insert_block-IsWatched :
      (b : BlockRow) (t t' : ChainTables) → insert_block b t ≡ some t' → IsWatched t → IsWatched t'
  unfolding insert_block
  insert_block-IsWatched b t t' h k = ground arith

  insert_transaction-IsWatched :
      (x : TxRow) (t t' : ChainTables)
      → insert_transaction x t ≡ some t'
      → IsWatched t
      → IsWatched t'
  unfolding insert_transaction
  insert_transaction-IsWatched x t t' h k = ground arith

  insert_event-IsWatched :
      (e : EventRow) (t : ChainTables) → IsWatched t → IsWatched (insert_event e t)
  unfolding insert_event
  insert_event-IsWatched e t k = ground arith

  set_sync_state-IsWatched :
      (key : String) (n : ℕ) (t t' : ChainTables)
      → set_sync_state key n t ≡ some t'
      → IsWatched t
      → IsWatched t'
  unfolding set_sync_state
  set_sync_state-IsWatched key n t t' h k = ground arith

  run_rounds-IsWatched :
      (sy : Syncer) (k : ℕ) (t : ChainTables) → IsWatched t → IsWatched (run_rounds sy k t)
  run_rounds-IsWatched =
      run_rounds-Fine IsWatched
        (record {
          block = insert_block-IsWatched;
          transaction = insert_transaction-IsWatched;
          event = insert_event-IsWatched;
        })
        set_sync_state-IsWatched

  upsert_keeps :
      (w : WatchEntry) (key : String) (t : ChainTables)
      → IsWatched t
      → IsWatched (or_logged t (upsert_watched_contract key (codes w.addr) (label_of w) t))
  unfolding upsert_watched_contract
  upsert_keeps w key t k = elim (Bool-cases (has_chain key t.chains)) [
    | inl h ↦ rw h (put_watched_keeps id a _ t.watched k)
    | inr h ↦ rw h k
  ]

  upsert_all-IsWatched :
      (ws : List WatchEntry) (key : String) (t : ChainTables)
      → IsWatched t
      → IsWatched (upsert_all key ws t)
  unfolding upsert_all
  upsert_all-IsWatched [] key t k = k
  upsert_all-IsWatched (w ∷ ws) key t k = upsert_all-IsWatched ws key _ (upsert_keeps w key t k)

upserted :
    (key : String) (w : WatchEntry) (t : ChainTables)
    → has_chain key t.chains ≡ true
    → IsWatched key
        (address_of w)
        (or_logged t (upsert_watched_contract key (codes w.addr) (label_of w) t))
unfolding upsert_watched_contract
upserted key w t h = rw h (
    has_watched-put_watched (record { chain = key; address = address_of w; label = label_of w })
      t.watched)

upsert_chains :
    (key : String) (w : WatchEntry) (t : ChainTables)
    → (or_logged t (upsert_watched_contract key (codes w.addr) (label_of w) t)).chains ≡ t.chains
unfolding upsert_watched_contract
upsert_chains key w t = ground arith

all_upserted :
    (key : String) (ws : List WatchEntry) (t : ChainTables)
    → has_chain key t.chains ≡ true
    → All (λ a. IsWatched key a (upsert_all key ws t)) (map address_of ws)
unfolding upsert_all
all_upserted key [] t h = tt
all_upserted key (w ∷ ws) t h = (
  upsert_all-IsWatched key (address_of w) ws key _ (upserted key w t h),
  all_upserted key ws _ (ap (has_chain key) (upsert_chains key w t) ∙ h),
)

some_inj {ℓ} : {A : Type ℓ} (x y : A) → some x ≡ some y → x ≡ y
some_inj x y h = ground (arith, h)

module _ (env : Env) (nodes : String → Node) where
  start_at-IsWatched :
      (key url : String) (t : ChainTables) (sy : Syncer) (t' : ChainTables)
      → has_chain key t.chains ≡ true
      → start_at env nodes key url t ≡ some (sy, t')
      → All (λ a. IsWatched sy.chain a t') sy.watch
  start_at-IsWatched key url t sy t' h e = elim (Bool-cases (url == "")) [
    | inl f ↦ absurd (ground (arith, f))
    | inr f ↦
        let watch = parse_watch_list env in
        subst (λ (p : Syncer × ChainTables). All (λ a. IsWatched p.0.chain a p.1) p.0.watch)
          {x = (syncer_of env nodes key url watch, upsert_all key watch t)} {y = (sy, t')}
          (some_inj _ _ (rw f at e)) (all_upserted key watch t h)
  ]

  start-IsWatched :
      (t : ChainTables) (sy : Syncer) (t' : ChainTables)
      → start env nodes t ≡ some (sy, t')
      → All (λ a. IsWatched sy.chain a t') sy.watch
  unfolding start
  start-IsWatched t sy t' e =
      let key = env_or env "INDEXER_CHAIN" "sepolia" in
      elim (Option-cases (get_chain key t.chains)) [
        | inl f ↦ absurd (ground (arith, e, f))
        | inr (c, f) ↦
            start_at-IsWatched key (env_or env "SEPOLIA_RPC_URL" c.rpc_url) t sy t'
              (has_chain-get_chain key t.chains c f) (ground (arith, e, f))
      ]

  -- From a start of the indexer on, whatever its rounds do, the gateway lists every contract that the
  -- indexer watches, under the address in lower case.
  pub start-listed :
      (t : ChainTables) (sy : Syncer) (t' : ChainTables)
      → start env nodes t ≡ some (sy, t')
      → (k : ℕ)
      → All
          (λ a. lists a (serve nodes (asking_contracts sy.chain) (run_rounds sy k t')) ≡ true)
          sy.watch
  unfolding serve
  start-listed t sy t' e k =
      All-map (λ a w. names-list_watched sy.chain a _ (run_rounds-IsWatched sy.chain a sy k t' w))
        sy.watch (start-IsWatched t sy t' e)
