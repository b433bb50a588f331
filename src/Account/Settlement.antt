-- ===== src/Account/Settlement.antt =====
-- `SettleTrade` of balances.go as a whole: what a settlement does to what is held of each asset.
use crypto_exchange_lab.Prelude.{
  ℕ, ◌≡◌, refl, sym, ap, subst, ◌∙◌, Bool, true, String, List, [], ◌∷◌, ◌++◌, arith, eq_iff, All,
}
use crypto_exchange_lab.Decimal.{Decimal, Amount, nil, ◌⊕◌, neg}
use crypto_exchange_lab.Decimal.Laws.{plus_comm, plus_assoc, plus-zero, plus_left_zero, minus-plus}
use crypto_exchange_lab.Errors.{ok, bind_ok}
use crypto_exchange_lab.Account.Store.{Balance, LedgerLeg, FreezeRelease, Tables, has_asset}
use crypto_exchange_lab.Account.Ledger.{entry_sum}
use crypto_exchange_lab.Account.Operations.{credit, consume, apply_trade_leg, apply_legs}
use crypto_exchange_lab.Account.Rows.{IsChanged, held, only_of, held-update_row, update_row-All}
use crypto_exchange_lab.Account.Posting.{IsKept, IsKept-trans, entered, apply_trade_leg-IsPosted}

module _ ⦃d : Decimal⦄ where
  -- What the legs of a settlement add up to in one asset, and what it releases of it.
  unfoldable pub leg_sum : String → List LedgerLeg → Amount
  leg_sum a [] = nil
  leg_sum a (l ∷ ls) = only_of a l.asset l.amount ⊕ leg_sum a ls

  unfoldable pub release_sum : String → List FreezeRelease → Amount
  release_sum a [] = nil
  release_sum a (f ∷ fs) = only_of a f.asset f.amount ⊕ release_sum a fs

  abbrev pub AllKnown : Tables → Type 0
  AllKnown t = All (λ r. has_asset r.asset t.assets ≡ true) t.balances

  credit-held :
      (x : Amount) (r : Balance)
      → ((credit x r).asset ≡ r.asset)
        × ((credit x r).available ⊕ (credit x r).frozen ≡ (r.available ⊕ r.frozen) ⊕ x)
  credit-held x r = (
    refl,
    plus_assoc r.available x r.frozen
        ∙ ap (λ y. r.available ⊕ y) (plus_comm x r.frozen)
        ∙ sym (plus_assoc r.available r.frozen x),
  )

  pub consume-held :
      (x : Amount) (r : Balance)
      → ((consume x r).asset ≡ r.asset)
        × ((consume x r).available ⊕ (consume x r).frozen ≡ (r.available ⊕ r.frozen) ⊕ neg x)
  consume-held x r = (
    refl,
    ap (λ y. r.available ⊕ y) (minus-plus r.frozen x)
        ∙ sym (plus_assoc r.available r.frozen (neg x)),
  )

  row_of :
      (P : Balance → Type 0) (front back : List Balance) (r : Balance)
      → All P (front ++ r ∷ back)
      → P r
  row_of P [] back r h = h.0
  row_of P (f ∷ front) back r h = row_of P front back r h.1

  changed_known :
      (u a : String) (test : Balance → Bool) (change : Balance → Balance) (t : Tables)
      (after : List Balance)
      → IsChanged u a test change t.balances after
      → AllKnown t
      → has_asset a t.assets ≡ true
  changed_known u a test change t after c h =
      let known =
        row_of (λ r. has_asset r.asset t.assets ≡ true) c.front c.back c.row
          (subst (All (λ r. has_asset r.asset t.assets ≡ true)) c.was h) in
      subst (λ b. has_asset b t.assets ≡ true) (ground (arith, c.has_key, eq_iff c.row.asset a))
        known

  -- The legs were credited, and each stands in the ledger.
  pub record AreApplied (txn : ℕ) (legs : List LedgerLeg) (t t' : Tables) : Type 0 where
    pub kept : IsKept t t'
    pub all_known : AllKnown t'
    pub holdings : (a : String) → held a t'.balances ≡ held a t.balances ⊕ leg_sum a legs
    pub sums :
        (a : String) → entry_sum txn a t'.entries ≡ entry_sum txn a t.entries ⊕ leg_sum a legs

  pub entry_sum-entered :
      (txn : ℕ) (leg : LedgerLeg) (t : Tables) (a : String)
      → has_asset leg.asset t.assets ≡ true
      → entry_sum txn a (entered txn leg t)
        ≡ only_of a leg.asset leg.amount ⊕ entry_sum txn a t.entries
  unfolding entry_sum
  entry_sum-entered txn leg t a k = ground (arith, plus_left_zero (entry_sum txn a t.entries))

  pub apply_legs-AreApplied :
      (txn : ℕ) (legs : List LedgerLeg) (t t' : Tables)
      → AllKnown t
      → apply_legs txn legs t ≡ ok t'
      → AreApplied txn legs t t'
  unfolding apply_legs leg_sum
  apply_legs-AreApplied txn [] t t' h e = subst (AreApplied txn [] t) same (record {
    kept = record { same_assets = refl; same_users = refl; same_transactions = refl };
    all_known = h;
    holdings = λ a. sym (plus-zero (held a t.balances));
    sums = λ a. sym (plus-zero (entry_sum txn a t.entries));
  })
    where
      same : t ≡ t'
      same = ground arith
  apply_legs-AreApplied txn (leg ∷ legs) t t' h e =
      let (u, p, q) = bind_ok (apply_trade_leg txn leg t) (apply_legs txn legs) e in
      let post = apply_trade_leg-IsPosted txn leg t u p in
      let known =
        changed_known leg.user_id leg.asset (λ b. true) (credit leg.amount) t u.balances post.moved
          h in
      let known_u : AllKnown u =
        subst (λ known_assets. All (λ r. has_asset r.asset known_assets ≡ true) u.balances)
          (sym post.kept.same_assets)
          (update_row-All (λ r. has_asset r.asset t.assets ≡ true) leg.user_id leg.asset (λ b. true)
            (credit leg.amount) t.balances u.balances post.moved (λ x. x) h) in
      let rest = apply_legs-AreApplied txn legs u t' known_u q in
      record {
        kept = IsKept-trans t u t' post.kept rest.kept;
        all_known = rest.all_known;
        holdings = λ a.
            rest.holdings a
            ∙ ap (λ x. x ⊕ leg_sum a legs)
                (held-update_row leg.user_id leg.asset (λ b. true) (credit leg.amount) leg.amount
                  t.balances u.balances (credit-held leg.amount) post.moved a)
            ∙ plus_assoc (held a t.balances) (only_of a leg.asset leg.amount) (leg_sum a legs);
        sums = λ a.
            rest.sums a
            ∙ ap (λ x. entry_sum txn a x ⊕ leg_sum a legs) post.noted
            ∙ ap (λ x. x ⊕ leg_sum a legs)
                (entry_sum-entered txn leg t a known
                  ∙ plus_comm (only_of a leg.asset leg.amount) (entry_sum txn a t.entries))
            ∙ plus_assoc (entry_sum txn a t.entries) (only_of a leg.asset leg.amount)
                (leg_sum a legs);
      }
