-- ===== src/Chain/Cursor.antt =====
-- The cursor of a round of the indexer, errors included, and that rounds reach the head.
use crypto_exchange_lab.Prelude.{
  ℕ, zero, suc, ◌+◌, ◌≤◌, ◌≡◌, refl, ap, ◌∙◌, String, List, [], ◌∷◌, some, arith, Bool-cases, inl,
  inr, ◌==◌, eq_refl,
}
use crypto_exchange_lab.Errors.{Result, ok, err}
use crypto_exchange_lab.Stateful.{◌>>=◌, follow}
use crypto_exchange_lab.Chain.Store.{
  SyncState, ChainTables, get_sync_state, put_sync_state, set_sync_state, has_chain,
}
use crypto_exchange_lab.Chain.Sync.{Syncer, Round, exec, go_on, index_block, index_next, run_blocks}
use crypto_exchange_lab.Chain.Kept.{IsKept, IsKept-AreKept, index_block-Keeps}

get_sync_state-put_sync_state :
    (id : String) (n : ℕ) (ss : List SyncState)
    → get_sync_state id (put_sync_state id n ss) ≡ some n
unfolding get_sync_state put_sync_state
get_sync_state-put_sync_state id n [] = rw (eq_refl id) refl
get_sync_state-put_sync_state id n (s ∷ ss) = elim (Bool-cases (s.chain == id)) [
  | inl e ↦ rw (e, eq_refl id) refl
  | inr e ↦ rw (e, e) (get_sync_state-put_sync_state id n ss)
]

-- The cursor after a round of the loop: at the block, or where it was.
abbrev IsMoved : String → ℕ → ChainTables → Result {0} Unit × ChainTables → Type 0
IsMoved id n t (ok u, after) = get_sync_state id after.states ≡ some n
IsMoved id n t (err e, after) = after.states ≡ t.states

set_cursor-IsMoved :
    (id : String) (n : ℕ) (t s : ChainTables)
    → s.states ≡ t.states
    → IsMoved id n t (exec (set_sync_state id n) s)
unfolding set_sync_state
set_cursor-IsMoved id n t s same = elim (Bool-cases (has_chain id s.chains)) [
  | inl e ↦ rw (e, set_sync_state) (get_sync_state-put_sync_state id n s.states)
  | inr e ↦ rw (e, set_sync_state) same
]

follow-IsMoved :
    (id : String) (n : ℕ) (t : ChainTables) (x : Result {0} Unit × ChainTables)
    → x.1.states ≡ t.states
    → IsMoved id n t (follow x (λ u. exec (set_sync_state id n)))
follow-IsMoved id n t (ok u, s) same = set_cursor-IsMoved id n t s same
follow-IsMoved id n t (err e, s) same = same

index_next-IsMoved :
    (sy : Syncer) (n : ℕ) (t : ChainTables) → IsMoved sy.chain n t (index_next sy n t)
unfolding index_next ◌>>=◌
index_next-IsMoved sy n t =
    follow-IsMoved sy.chain n t (index_block sy n t)
      ((index_block-Keeps (IsKept t.states) (IsKept-AreKept t.states) sy n).keeps t
        (record { same_states = refl })).same_states

-- What a run of the loop over `left` blocks did, from a cursor and a count.
pub record IsAdvanced (id : String) (left cursor indexed : ℕ) (r : Round) : Type 0 where
  pub by : ℕ
  pub counted : r.0 ≡ indexed + by
  pub moved : get_sync_state id r.2.states ≡ some (cursor + by)
  pub bounded : by ≤ left
  pub all : r.1 ≡ ok tt → by ≡ left

one_more :
    (id : String) (left cursor indexed : ℕ) (r : Round)
    → IsAdvanced id left (cursor + 1) (indexed + 1) r
    → IsAdvanced id (suc left) cursor indexed r
one_more id left cursor indexed r a = record {
  by = suc a.by;
  counted = a.counted ∙ omega arith;
  moved = a.moved ∙ ap some (omega arith);
  bounded = omega (arith, a.bounded);
  all = λ h. ap suc (a.all h);
}

go_on-IsAdvanced :
    (id : String) (left cursor indexed : ℕ) (t : ChainTables) (x : Result {0} Unit × ChainTables)
    (next : ChainTables → Round)
    → get_sync_state id t.states ≡ some cursor
    → IsMoved id (cursor + 1) t x
    → ((s : ChainTables)
        → get_sync_state id s.states ≡ some (cursor + 1)
        → IsAdvanced id left (cursor + 1) (indexed + 1) (next s))
    → IsAdvanced id (suc left) cursor indexed (go_on indexed next x)
go_on-IsAdvanced id left cursor indexed t (ok u, s) next at moved rest =
    one_more id left cursor indexed (next s) (rest s moved)
go_on-IsAdvanced id left cursor indexed t (err e, s) next at moved rest = record {
  by = 0;
  counted = omega arith;
  moved = ap (get_sync_state id) moved ∙ at ∙ ap some (omega arith);
  bounded = omega arith;
  all = λ h. absurd cc;
}

pub run_blocks-IsAdvanced :
    (sy : Syncer) (left cursor indexed : ℕ) (t : ChainTables)
    → get_sync_state sy.chain t.states ≡ some cursor
    → IsAdvanced sy.chain left cursor indexed (run_blocks sy left (cursor + 1) indexed t)
unfolding run_blocks
run_blocks-IsAdvanced sy zero cursor indexed t at = record {
  by = 0;
  counted = omega arith;
  moved = at ∙ ap some (omega arith);
  bounded = omega arith;
  all = λ h. refl;
}
run_blocks-IsAdvanced sy (suc left) cursor indexed t at =
    go_on-IsAdvanced sy.chain left cursor indexed t (index_next sy (cursor + 1) t) _ at
      (index_next-IsMoved sy (cursor + 1) t)
      λ s moved. run_blocks-IsAdvanced sy left (cursor + 1) (indexed + 1) s moved
