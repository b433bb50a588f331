-- ===== src/Chain/Rounds.antt =====
-- What the statements of the syncer keep of the tables, its rounds keep, errors among them.
use crypto_exchange_lab.Prelude.{
  ℕ, zero, suc, ◌+◌, ◌-◌, ◌≡◌, String, Option, none, some, ltb, Bool-cases, inl, inr,
}
use crypto_exchange_lab.Errors.{Result, ok, err}
use crypto_exchange_lab.Stateful.{Keeps, bind-Keeps, within-Keeps}
use crypto_exchange_lab.Chain.Client.{or_broken, latest_block}
use crypto_exchange_lab.Chain.Store.{ChainTables, get_sync_state, set_sync_state}
use crypto_exchange_lab.Chain.Sync.{
  Syncer, Round, index_next, go_on, run_blocks, end_of, start_after, run_from, run_at, run_state,
  run_once, run_rounds,
}
use crypto_exchange_lab.Chain.Kept.{AreKept, index_block-Keeps, or_broken_ok}

module _ (Fine : ChainTables → Type 0) (kept : AreKept Fine)
    (moved : (id : String) (n : ℕ) (t t' : ChainTables)
      → set_sync_state id n t ≡ some t'
      → Fine t
      → Fine t') where
  index_next-Keeps : (sy : Syncer) (n : ℕ) → Keeps Fine (index_next sy n)
  unfolding index_next
  index_next-Keeps sy n = bind-Keeps Fine _ _ (index_block-Keeps Fine kept sy n) λ u.
      within-Keeps Fine _ _ (λ t. or_broken (set_sync_state sy.chain n t))
        λ t t' e k. moved sy.chain n t t' (or_broken_ok (set_sync_state sy.chain n t) t' e) k

  go_on-Fine :
      (indexed : ℕ) (next : ChainTables → Round) (r : Result {0} Unit × ChainTables)
      → ((t : ChainTables) → Fine t → Fine (next t).2)
      → Fine r.1
      → Fine (go_on indexed next r).2
  go_on-Fine indexed next (ok u, t) h k = h t k
  go_on-Fine indexed next (err e, t) h k = k

  run_blocks-Fine :
      (sy : Syncer) (left n indexed : ℕ) (t : ChainTables)
      → Fine t
      → Fine (run_blocks sy left n indexed t).2
  unfolding run_blocks
  run_blocks-Fine sy zero n indexed t k = k
  run_blocks-Fine sy (suc left) n indexed t k =
      go_on-Fine indexed (run_blocks sy left (n + 1) (indexed + 1)) (index_next sy n t)
        (λ u l. run_blocks-Fine sy left (n + 1) (indexed + 1) u l)
        ((index_next-Keeps sy n).keeps t k)

  run_from-Fine :
      (sy : Syncer) (start head : ℕ) (t : ChainTables) → Fine t → Fine (run_from sy start head t).2
  unfolding run_from
  run_from-Fine sy start head t k = elim (Bool-cases (ltb head start)) [
    | inl e ↦ rw (e, run_from) k
    | inr e ↦
        rw (e, run_from)
          (run_blocks-Fine sy (end_of sy.batch_max start head + 1 - start) start 0 t k)
  ]

  run_at-Fine :
      (sy : Syncer) (head : Result ℕ) (cursor : ℕ) (t : ChainTables)
      → Fine t
      → Fine (run_at sy head cursor t).2
  run_at-Fine sy (err e) cursor t k = k
  run_at-Fine sy (ok head) cursor t k = run_from-Fine sy (start_after cursor head) head t k

  run_once-Fine :
      (sy : Syncer) (t : ChainTables) (cursor : Option ℕ) → Fine t → Fine (run_state sy cursor t).2
  run_once-Fine sy t none k = k
  run_once-Fine sy t (some cursor) k = run_at-Fine sy (latest_block sy.node) cursor t k

  pub run_rounds-Fine : (sy : Syncer) (k : ℕ) (t : ChainTables) → Fine t → Fine (run_rounds sy k t)
  unfolding run_rounds run_once
  run_rounds-Fine sy zero t s = s
  run_rounds-Fine sy (suc k) t s =
      run_rounds-Fine sy k _ (run_once-Fine sy t (get_sync_state sy.chain t.states) s)
