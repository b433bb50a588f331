-- ===== src/Chain/Progress.antt =====
-- What a round of the indexer comes to, and that rounds reach the head of the chain.
use crypto_exchange_lab.Prelude.{
  ℕ, zero, suc, ◌+◌, ◌-◌, ◌*◌, ◌^◌, ◌≤◌, ◌<◌, ◌≡◌, refl, subst, sym, ap, ◌∙◌, some, if◌then◌else◌,
  arith, Bool-cases, inl, inr, ltb,
}
use crypto_exchange_lab.Errors.{Result, ok, err}
use crypto_exchange_lab.Chain.Client.{latest_block}
use crypto_exchange_lab.Chain.Store.{ChainTables, get_sync_state}
use crypto_exchange_lab.Chain.Sync.{
  Syncer, Round, go_on, index_next, run_blocks, start_after, end_of, run_from, run_once, run_rounds,
}
use crypto_exchange_lab.Chain.Cursor.{IsAdvanced, run_blocks-IsAdvanced}

-- The blocks that a round has to index: up to the head, and no more than a batch.
abbrev pub due : ℕ → ℕ → ℕ → ℕ
due batch head cursor = if ltb batch (head - cursor) then batch else head - cursor

start_after_lem : (cursor head : ℕ) → cursor + 1 < 2 ^ 64 → start_after cursor head ≡ cursor + 1
start_after_lem cursor head h = ground arith

end_of_lem :
    (batch cursor head : ℕ)
    → cursor + batch + 1 < 2 ^ 64
    → cursor < head
    → end_of batch (cursor + 1) head + 1 - (cursor + 1) ≡ due batch head cursor
end_of_lem batch cursor head h k = ground arith

run_from-run_blocks :
    (sy : Syncer) (cursor head : ℕ) (t : ChainTables)
    → cursor + sy.batch_max + 1 < 2 ^ 64
    → run_from sy (cursor + 1) head t
      ≡ run_blocks sy (due sy.batch_max head cursor) (cursor + 1) 0 t
unfolding run_from run_blocks
run_from-run_blocks sy cursor head t fits = elim (Bool-cases (ltb head (cursor + 1))) [
  | inl e ↦ let none_due : due sy.batch_max head cursor ≡ 0 = ground arith in rw (e, none_due) refl
  | inr e ↦ rw (e, end_of_lem sy.batch_max cursor head fits (ground arith)) refl
]

-- A round is the loop over the blocks that are due.
pub run_once-run_blocks :
    (sy : Syncer) (cursor head : ℕ) (t : ChainTables)
    → get_sync_state sy.chain t.states ≡ some cursor
    → latest_block sy.node ≡ ok head
    → cursor + sy.batch_max + 1 < 2 ^ 64
    → run_once sy t ≡ run_blocks sy (due sy.batch_max head cursor) (cursor + 1) 0 t
unfolding run_once
run_once-run_blocks sy cursor head t at latest fits =
    rw (at, latest, start_after_lem cursor head (omega (arith, fits)))
      (run_from-run_blocks sy cursor head t fits)

-- A round from a cursor indexes the blocks behind it one after the other, at most a batch of them and
-- none above the head. The answer counts them and the cursor stands on the last of them, also when an
-- error ends the round early; without an error all that were due are indexed.
pub run_once-IsAdvanced :
    (sy : Syncer) (cursor head : ℕ) (t : ChainTables)
    → get_sync_state sy.chain t.states ≡ some cursor
    → latest_block sy.node ≡ ok head
    → cursor + sy.batch_max + 1 < 2 ^ 64
    → IsAdvanced sy.chain (due sy.batch_max head cursor) cursor 0 (run_once sy t)
run_once-IsAdvanced sy cursor head t at latest fits =
    subst (IsAdvanced sy.chain (due sy.batch_max head cursor) cursor 0)
      (sym (run_once-run_blocks sy cursor head t at latest fits))
      (run_blocks-IsAdvanced sy (due sy.batch_max head cursor) cursor 0 t at)

module _ (sy : Syncer) (head : ℕ) (Fine : ChainTables → Type 0)
    (step : (n : ℕ) (s : ChainTables)
      → n ≤ head
      → Fine s
      → ((index_next sy n s).0 ≡ ok tt) × Fine (index_next sy n s).1) where
  go_on-Fine :
      (indexed : ℕ) (x : Result {0} Unit × ChainTables) (next : ChainTables → Round)
      → x.0 ≡ ok tt
      → Fine x.1
      → ((s : ChainTables) → Fine s → ((next s).1 ≡ ok tt) × Fine (next s).2)
      → ((go_on indexed next x).1 ≡ ok tt) × Fine (go_on indexed next x).2
  go_on-Fine indexed (ok u, s) next h f rest = rest s f
  go_on-Fine indexed (err e, s) next h f rest = absurd cc

  run_blocks-Fine :
      (left n indexed : ℕ) (t : ChainTables)
      → n + left ≤ head + 1
      → Fine t
      → ((run_blocks sy left n indexed t).1 ≡ ok tt) × Fine (run_blocks sy left n indexed t).2
  unfolding run_blocks
  run_blocks-Fine zero n indexed t h f = (refl, f)
  run_blocks-Fine (suc left) n indexed t h f =
      let (good, kept) = step n t (omega (arith, h)) f in
      go_on-Fine indexed (index_next sy n t) _ good kept
        λ s g. run_blocks-Fine left (n + 1) (indexed + 1) s (omega (arith, h)) g

  run_once-Fine :
      (cursor : ℕ) (t : ChainTables)
      → get_sync_state sy.chain t.states ≡ some cursor
      → latest_block sy.node ≡ ok head
      → cursor + sy.batch_max + 1 < 2 ^ 64
      → cursor ≤ head
      → Fine t
      → ((run_once sy t).1 ≡ ok tt) × Fine (run_once sy t).2
  run_once-Fine cursor t at latest fits below f =
      subst (λ r. (r.1 ≡ ok tt) × Fine r.2)
        (sym (run_once-run_blocks sy cursor head t at latest fits))
        (run_blocks-Fine (due sy.batch_max head cursor) (cursor + 1) 0 t (ground arith) f)

  -- Where each block up to the head can be indexed (a property of the tables that indexing one keeps
  -- says so), rounds reach the head: enough of them for the batch leave the cursor on it.
  pub run_rounds-reach :
      (k cursor : ℕ) (t : ChainTables)
      → get_sync_state sy.chain t.states ≡ some cursor
      → latest_block sy.node ≡ ok head
      → head + sy.batch_max + 1 < 2 ^ 64
      → cursor ≤ head
      → head ≤ cursor + k * sy.batch_max
      → Fine t
      → get_sync_state sy.chain (run_rounds sy k t).states ≡ some head
  unfolding run_rounds
  run_rounds-reach zero cursor t at latest fits below enough f =
      at ∙ ap some (omega (arith, below, enough))
  run_rounds-reach (suc k) cursor t at latest fits below enough f =
      let round = run_once-IsAdvanced sy cursor head t at latest (omega (arith, fits, below)) in
      let (good, kept) = run_once-Fine cursor t at latest (omega (arith, fits, below)) below f in
      let by = round.all good in
      run_rounds-reach k (cursor + round.by) (run_once sy t).2 round.moved latest fits
        (ground (arith, by)) (ground (arith, by)) kept
