-- ===== src/Account/Soundness.antt =====
-- The invariant of the tables of account-service, kept by every operation that writes them.
use crypto_exchange_lab.Prelude.{
  ℕ, ◌≤◌, ◌≡◌, refl, sym, ap, subst, ◌∙◌, Bool, true, String, List, ◌∷◌, arith, ◌⊎◌, inl, inr,
  Bool-cases, All, All-map, length,
}
use crypto_exchange_lab.Decimal.{Decimal, Amount, less_or_equal, nil}
use crypto_exchange_lab.Errors.{ok, ◌>>=◌, bind_ok}
use crypto_exchange_lab.Account.Store.{User, Balance, Tables, has_asset, has_user, is_allowed}
use crypto_exchange_lab.Account.Ledger.{
  insert_transaction, insert_collateral_leg, insert_collateral_ledger, insert_freeze_ledger,
  insert_unfreeze_ledger, last_id,
}
use crypto_exchange_lab.Account.Operations.{lock, unlock, lock_row, unlock_row, freeze, unfreeze}
use crypto_exchange_lab.Account.Rows.{IsChanged, update_row-IsChanged, update_row-All}
use crypto_exchange_lab.Account.Posting.{applied_ok}
use crypto_exchange_lab.Account.Settled.{insert_transaction_ok}

module _ ⦃d : Decimal⦄ where
  -- A balance row is not below zero, and its asset and user are known.
  abbrev pub IsGood : List String → List User → Balance → Type 0
  IsGood assets users r =
      (is_allowed r ≡ true) × (has_asset r.asset assets ≡ true) × (has_user r.user_id users ≡ true)

  -- Every row is good, and every ledger entry belongs to a transaction.
  pub record IsSound (t : Tables) : Type 0 where
    pub good : All (IsGood t.assets t.users) t.balances
    pub recorded : All (λ e. e.transaction_id ≤ length t.transactions) t.entries

  -- An update of a row that changes neither its asset nor its user keeps the rows good.
  pub changed-IsGood :
      (assets : List String) (users : List User) (u a : String) (test : Balance → Bool)
      (change : Balance → Balance) (before after : List Balance)
      → ((r : Balance) → ((change r).asset ≡ r.asset) × ((change r).user_id ≡ r.user_id))
      → IsChanged u a test change before after
      → All (IsGood assets users) before
      → All (IsGood assets users) after
  changed-IsGood assets users u a test change before after same c =
      update_row-All (IsGood assets users) u a test change before after c λ g. (
        c.allowed,
        ap (λ x. has_asset x assets) (same c.row).0 ∙ g.1,
        ap (λ x. has_user x users) (same c.row).1 ∙ g.2,
      )

  pub insert_transaction-IsSound :
      (ref_type ref_id : String) (t t' : Tables)
      → insert_transaction ref_type ref_id t ≡ ok t'
      → IsSound t
      → IsSound t'
  insert_transaction-IsSound ref_type ref_id t t' h s =
      subst IsSound (sym (insert_transaction_ok ref_type ref_id t t' h))
        (record { good = s.good; recorded = All-map (λ e k. omega arith) t.entries s.recorded })

  -- A leg is left out, or it is the ledger's new entry.
  insert_collateral_leg_cases :
      (txn : ℕ) (u a : String) (x : Amount) (t t' : Tables)
      → insert_collateral_leg txn u a x t ≡ ok t'
      → (t' ≡ t)
        ⊎ (t' ≡ record t {
          entries =
              record { transaction_id = txn; leg = record { user_id = u; asset = a; amount = x } }
              ∷ t.entries;
        })
  unfolding insert_collateral_leg
  insert_collateral_leg_cases txn u a x t t' h = ground arith

  -- The tables are sound, with as many transactions as before.
  abbrev pub IsSoundAfter : Tables → Tables → Type 0
  IsSoundAfter t t' = IsSound t' × (length t'.transactions ≡ length t.transactions)

  insert_collateral_leg-IsSound :
      (txn : ℕ) (u a : String) (x : Amount) (t t' : Tables)
      → insert_collateral_leg txn u a x t ≡ ok t'
      → txn ≤ length t.transactions
      → IsSound t
      → IsSoundAfter t t'
  insert_collateral_leg-IsSound txn u a x t t' h le s =
      elim (insert_collateral_leg_cases txn u a x t t' h) [
        | inl q ↦ subst (IsSoundAfter t) (sym q) (s, refl)
        | inr q ↦
            subst (IsSoundAfter t) (sym q)
              (record { good = s.good; recorded = (le, s.recorded) }, refl)
      ]

  insert_collateral_ledger-IsSound :
      (u a : String) (x y : Amount) (ref_type ref_id suffix : String) (t t' : Tables)
      → insert_collateral_ledger u a x y ref_type ref_id suffix t ≡ ok t'
      → IsSound t
      → IsSound t'
  unfolding insert_collateral_ledger
  insert_collateral_ledger-IsSound u a x y ref_type ref_id suffix t t' h s =
      let (t1, p, q) = bind_ok (insert_transaction ref_type _ t) _ h in
      let (t2, r, k) = bind_ok (insert_collateral_leg (last_id t1) u a x t1) _ q in
      let s1 = insert_transaction-IsSound ref_type _ t t1 p s in
      let s2 = insert_collateral_leg-IsSound (last_id t1) u a x t1 t2 r (omega arith) s1 in
      (insert_collateral_leg-IsSound (last_id t1) u a y t2 t' k (omega (arith, s2.1)) s2.0).0

  lock_row-IsSound :
      (u a : String) (x : Amount) (t t' : Tables)
      → lock_row u a x t ≡ ok t'
      → IsSound t
      → IsSound t'
  lock_row-IsSound u a x t t' h s =
      let (rows, q, p) = applied_ok _ _ t t' h in
      subst IsSound (sym p) (record {
        good =
            changed-IsGood t.assets t.users u a _ (lock x) t.balances rows (λ r. (refl, refl))
              (update_row-IsChanged u a _ (lock x) t.balances rows q) s.good;
        recorded = s.recorded;
      })

  unlock_row-IsSound :
      (u a : String) (x : Amount) (t t' : Tables)
      → unlock_row u a x t ≡ ok t'
      → IsSound t
      → IsSound t'
  unlock_row-IsSound u a x t t' h s =
      let (rows, q, p) = applied_ok _ _ t t' h in
      subst IsSound (sym p) (record {
        good =
            changed-IsGood t.assets t.users u a _ (unlock x) t.balances rows (λ r. (refl, refl))
              (update_row-IsChanged u a _ (unlock x) t.balances rows q) s.good;
        recorded = s.recorded;
      })

  freeze_ok :
      (u a : String) (x : Amount) (ref_type ref_id : String) (t t' : Tables)
      → freeze u a x ref_type ref_id t ≡ ok t'
      → (lock_row u a x t >>= insert_freeze_ledger u a x ref_type ref_id) ≡ ok t'
  unfolding freeze
  freeze_ok u a x ref_type ref_id t t' h = elim (Bool-cases (less_or_equal x nil)) [
    | inl e ↦ absurd (ground arith)
    | inr e ↦ rw (e, freeze) at h
  ]

  unfreeze_ok :
      (u a : String) (x : Amount) (ref_type ref_id : String) (t t' : Tables)
      → unfreeze u a x ref_type ref_id t ≡ ok t'
      → (unlock_row u a x t >>= insert_unfreeze_ledger u a x ref_type ref_id) ≡ ok t'
  unfolding unfreeze
  unfreeze_ok u a x ref_type ref_id t t' h = elim (Bool-cases (less_or_equal x nil)) [
    | inl e ↦ absurd (ground arith)
    | inr e ↦ rw (e, unfreeze) at h
  ]

  pub freeze-IsSound :
      (u a : String) (x : Amount) (ref_type ref_id : String) (t t' : Tables)
      → freeze u a x ref_type ref_id t ≡ ok t'
      → IsSound t
      → IsSound t'
  unfolding insert_freeze_ledger
  freeze-IsSound u a x ref_type ref_id t t' h s =
      let (t1, q, r) = bind_ok (lock_row u a x t) _ (freeze_ok u a x ref_type ref_id t t' h) in
      insert_collateral_ledger-IsSound u a _ _ ref_type ref_id "freeze" t1 t' r
        (lock_row-IsSound u a x t t1 q s)

  pub unfreeze-IsSound :
      (u a : String) (x : Amount) (ref_type ref_id : String) (t t' : Tables)
      → unfreeze u a x ref_type ref_id t ≡ ok t'
      → IsSound t
      → IsSound t'
  unfolding insert_unfreeze_ledger
  unfreeze-IsSound u a x ref_type ref_id t t' h s =
      let (t1, q, r) = bind_ok (unlock_row u a x t) _ (unfreeze_ok u a x ref_type ref_id t t' h) in
      insert_collateral_ledger-IsSound u a _ _ ref_type ref_id "unfreeze" t1 t' r
        (unlock_row-IsSound u a x t t1 q s)
