-- ===== src/Account/Settled.antt =====
-- What a successful `SettleTrade` of balances.go guarantees, and what it costs.
use crypto_exchange_lab.Prelude.{
  ℕ, ◌≤◌, ◌<◌, ◌≡◌, refl, sym, ap, subst, ◌∙◌, true, false, String, List, [], ◌∷◌, arith, ◌⊎◌, inl,
  inr, Bool-cases, eq_iff, eq_refl, length, All,
}
use crypto_exchange_lab.Decimal.{Decimal, Amount, nil, ◌⊕◌, neg}
use crypto_exchange_lab.Decimal.Laws.{
  plus_comm, plus_assoc, plus-zero, plus_left_zero, plus-neg, eq_of_cmp,
}
use crypto_exchange_lab.Errors.{ok, bind_ok}
use crypto_exchange_lab.Account.Store.{LedgerLeg, FreezeRelease, Tables, LedgerEntry, has_reference}
use crypto_exchange_lab.Account.Ledger.{
  insert_transaction, entry_sum, are_balanced, verify_ledger_balance, last_id,
}
use crypto_exchange_lab.Account.Operations.{
  consume, apply_legs, release_frozen, release_all, settle_trade,
}
use crypto_exchange_lab.Account.Rows.{held, only_of, held-update_row}
use crypto_exchange_lab.Account.Posting.{IsKept, IsKept-trans, release_frozen-IsReleased}
use crypto_exchange_lab.Account.Settlement.{
  leg_sum, release_sum, AllKnown, AreApplied, apply_legs-AreApplied, consume-held,
}

module _ ⦃d : Decimal⦄ where
  pub record AreReleased (frs : List FreezeRelease) (t t' : Tables) : Type 0 where
    pub kept : IsKept t t'
    pub entries_kept : t'.entries ≡ t.entries
    pub holdings : (a : String) → held a t'.balances ⊕ release_sum a frs ≡ held a t.balances

  only_of-neg : (a b : String) (x : Amount) → only_of a b (neg x) ⊕ only_of a b x ≡ nil
  only_of-neg a b x = ground (arith, plus_comm (neg x) x, plus-neg x, plus-zero nil)

  release_all-AreReleased :
      (frs : List FreezeRelease) (t t' : Tables) → release_all frs t ≡ ok t' → AreReleased frs t t'
  unfolding release_all release_sum
  release_all-AreReleased [] t t' e = subst (AreReleased [] t) same (record {
    kept = record { same_assets = refl; same_users = refl; same_transactions = refl };
    entries_kept = refl;
    holdings = λ a. plus-zero (held a t.balances);
  })
    where
      same : t ≡ t'
      same = ground arith
  release_all-AreReleased (fr ∷ frs) t t' e =
      let (u, p, q) = bind_ok (release_frozen fr t) (release_all frs) e in
      let one = release_frozen-IsReleased fr t u p in
      let rest = release_all-AreReleased frs u t' q in
      record {
        kept = IsKept-trans t u t' one.kept rest.kept;
        entries_kept = rest.entries_kept ∙ one.noted;
        holdings = λ a.
            let x = only_of a fr.asset fr.amount in
            ap (λ y. held a t'.balances ⊕ y) (plus_comm x (release_sum a frs))
            ∙ sym (plus_assoc (held a t'.balances) (release_sum a frs) x)
            ∙ ap (λ y. y ⊕ x)
                (rest.holdings a
                  ∙ held-update_row fr.user_id fr.asset _ (consume fr.amount) (neg fr.amount)
                      t.balances u.balances (consume-held fr.amount) one.moved a)
            ∙ plus_assoc (held a t.balances) (only_of a fr.asset (neg fr.amount)) x
            ∙ ap (λ y. held a t.balances ⊕ y) (only_of-neg a fr.asset fr.amount)
            ∙ plus-zero (held a t.balances);
      }

  -- A transaction that passes the check adds up to zero in each asset.
  are_balanced_sound :
      (txn : ℕ) (a : String) (some_entries all : List LedgerEntry)
      → are_balanced txn some_entries all ≡ true
      → (entry_sum txn a some_entries ≡ nil) ⊎ (entry_sum txn a all ≡ nil)
  unfolding are_balanced entry_sum
  are_balanced_sound txn a [] all h = inl refl
  are_balanced_sound txn a (e ∷ es) all h = ground (
    arith,
    are_balanced_sound txn a es all,
    eq_iff e.leg.asset a,
    eq_of_cmp (entry_sum txn e.leg.asset all) nil,
    ap (λ b. entry_sum txn b all) {x = e.leg.asset} {y = a},
  )

  -- Every ledger entry belongs to a transaction of the table.
  abbrev pub AllRecorded : Tables → Type 0
  AllRecorded t = All (λ e. e.transaction_id ≤ length t.transactions) t.entries

  no_entries :
      (n txn : ℕ) (a : String) (es : List LedgerEntry)
      → All (λ e. e.transaction_id ≤ n) es
      → n < txn
      → entry_sum txn a es ≡ nil
  unfolding entry_sum
  no_entries n txn a [] h lt = refl
  no_entries n txn a (e ∷ es) h lt = ground (arith, no_entries n txn a es h.1)

  pub insert_transaction_ok :
      (ref_type ref_id : String) (t t' : Tables)
      → insert_transaction ref_type ref_id t ≡ ok t'
      → t' ≡ record t {
        transactions = record { ref_type = ref_type; ref_id = ref_id } ∷ t.transactions;
      }
  unfolding insert_transaction
  insert_transaction_ok ref_type ref_id t t' h = ground arith

  -- The stages of a settlement whose reference was new.
  record IsSettled (ref_id : String) (legs : List LedgerLeg) (release : List FreezeRelease)
      (t t' : Tables) : Type 0 where
    opened : Tables
    opened_lem : opened ≡ record t {
      transactions = record { ref_type = "trade"; ref_id = ref_id } ∷ t.transactions;
    }
    credited : Tables
    legs_done : AreApplied (last_id opened) legs opened credited
    released : AreReleased release credited t'
    balanced : are_balanced (last_id opened) t'.entries t'.entries ≡ true

  settle_trade-IsSettled :
      (ref_id : String) (legs : List LedgerLeg) (release : List FreezeRelease) (t t' : Tables)
      → AllKnown t
      → has_reference "trade" ref_id t.transactions ≡ false
      → settle_trade ref_id legs release t ≡ ok t'
      → IsSettled ref_id legs release t t'
  unfolding settle_trade verify_ledger_balance
  settle_trade-IsSettled ref_id legs release t t' known fresh e =
      let (t1, p, q) =
        bind_ok (insert_transaction "trade" ref_id t) _ (rw (fresh, settle_trade) at e) in
      let (t2, r, s) = bind_ok (apply_legs (last_id t1) legs t1) _ q in
      let (t3, u, v) = bind_ok (release_all release t2) _ s in
      let o = insert_transaction_ok "trade" ref_id t t1 p in
      let same : t3 ≡ t' = ground arith in
      record {
        opened = t1;
        opened_lem = o;
        credited = t2;
        legs_done = apply_legs-AreApplied (last_id t1) legs t1 t2 (subst AllKnown (sym o) known) r;
        released = subst (AreReleased release t2) same (release_all-AreReleased release t2 t3 u);
        balanced = ground (arith, same);
      }

  -- A settlement under a new reference that succeeds has legs that add up to zero in every asset,
  -- and lowers what is held of each asset by exactly what it releases of frozen collateral.
  pub settle_trade-held :
      (ref_id : String) (legs : List LedgerLeg) (release : List FreezeRelease) (t t' : Tables)
      → AllKnown t
      → AllRecorded t
      → has_reference "trade" ref_id t.transactions ≡ false
      → settle_trade ref_id legs release t ≡ ok t'
      → (a : String)
      → (leg_sum a legs ≡ nil) × (held a t'.balances ⊕ release_sum a release ≡ held a t.balances)
  settle_trade-held ref_id legs release t t' known recorded fresh e a =
      let s = settle_trade-IsSettled ref_id legs release t t' known fresh e in
      let txn = last_id s.opened in
      let none_before : entry_sum txn a s.opened.entries ≡ nil =
        ap (entry_sum txn a) (ap (λ x. x.entries) s.opened_lem)
        ∙ no_entries (length t.transactions) txn a t.entries recorded
            (subst (λ x. length t.transactions < last_id x) (sym s.opened_lem) (omega arith)) in
      let after : entry_sum txn a t'.entries ≡ leg_sum a legs =
        ap (entry_sum txn a) s.released.entries_kept
        ∙ s.legs_done.sums a
        ∙ ap (λ x. x ⊕ leg_sum a legs) none_before
        ∙ plus_left_zero (leg_sum a legs) in
      let zero_sum : leg_sum a legs ≡ nil =
        elim (are_balanced_sound txn a t'.entries t'.entries s.balanced) [
          | inl z ↦ sym after ∙ z
          | inr z ↦ sym after ∙ z
        ] in
      (
        zero_sum,
        s.released.holdings a
            ∙ s.legs_done.holdings a
            ∙ ap (λ x. held a s.opened.balances ⊕ x) zero_sum
            ∙ plus-zero (held a s.opened.balances)
            ∙ ap (λ x. held a x.balances) s.opened_lem,
      )

  -- Once a settlement has succeeded, a second one under its reference, with any legs, succeeds and
  -- changes nothing.
  pub settle_trade_again :
      (ref_id : String) (legs more : List LedgerLeg) (release others : List FreezeRelease)
      (t t' : Tables)
      → AllKnown t
      → settle_trade ref_id legs release t ≡ ok t'
      → settle_trade ref_id more others t' ≡ ok t'
  unfolding settle_trade
  settle_trade_again ref_id legs more release others t t' known e =
      elim (Bool-cases (has_reference "trade" ref_id t.transactions)) [
        | inl seen ↦ ground arith
        | inr fresh ↦
            let s = settle_trade-IsSettled ref_id legs release t t' known fresh e in
            let same : t'.transactions ≡ s.opened.transactions =
              s.released.kept.same_transactions ∙ s.legs_done.kept.same_transactions in
            let now : has_reference "trade" ref_id t'.transactions ≡ true =
              ap (has_reference "trade" ref_id) (same ∙ ap (λ x. x.transactions) s.opened_lem)
              ∙ ground (arith, eq_refl "trade", eq_refl ref_id) in
            rw (now, settle_trade)
      ]
