-- ===== src/Account/Undone.antt =====
-- `Unfreeze` after `Freeze` under one reference.
use crypto_exchange_lab.Prelude.{
  ℕ, ◌≡◌, refl, sym, ap, ap₂, ◌∙◌, true, false, String, List, [], ◌∷◌, arith, inl, inr, Bool,
  Bool-cases, All, eq_iff,
}
use Prim.Native.String.{◌++◌ as ◌<>◌}
use crypto_exchange_lab.Decimal.{Decimal, Amount, nil, ◌⊕◌, greater_or_equal, is_zero, cmp, neg}
use crypto_exchange_lab.Decimal.Laws.{
  minus-plus_cancel, plus-minus_cancel, plus_left_zero, cmp_flip, cmp_flip_gt,
}
use crypto_exchange_lab.Errors.{ok}
use crypto_exchange_lab.Account.Store.{
  User, Balance, Tables, updated, is_row, is_allowed, has_asset, has_user, has_reference,
  update_row,
}
use crypto_exchange_lab.Account.Ledger.{
  insert_transaction, insert_entry, insert_collateral_leg, insert_collateral_ledger,
  insert_unfreeze_ledger, last_id,
}
use crypto_exchange_lab.Account.Operations.{lock, unlock, freeze, unfreeze}
use crypto_exchange_lab.Account.Rows.{behind_updated}
use crypto_exchange_lab.Account.Soundness.{IsGood, IsSound}
use crypto_exchange_lab.Account.Collateral.{freeze-IsFrozen}

module _ ⦃d : Decimal⦄ where
  unlock-lock : (x : Amount) (r : Balance) → unlock x (lock x r) ≡ r
  unlock-lock x r =
      ap₂ (λ y z. record r { available = y; frozen = z }) (minus-plus_cancel r.available x)
        (plus-minus_cancel r.frozen x)

  lock-covered :
      (x : Amount) (r : Balance) → is_allowed r ≡ true → greater_or_equal (lock x r).frozen x ≡ true
  lock-covered x r h =
      let more : cmp (nil ⊕ x) (r.frozen ⊕ x) ≡ cmp nil r.frozen = d.compared-plus nil r.frozen x in
      let below : cmp x (r.frozen ⊕ x) ≡ cmp nil r.frozen = rw (plus_left_zero x) at more in
      ground (
        arith,
        h,
        below,
        cmp_flip (r.frozen ⊕ x) x,
        cmp_flip_gt nil r.frozen,
        cmp_flip r.frozen nil,
      )

  -- What was locked in a row that is not below zero can be unlocked, and the rows are as before.
  unlock_rows :
      (assets : List String) (users : List User) (u a : String) (x : Amount) (rs rs' : List Balance)
      → All (IsGood assets users) rs
      → update_row u a (λ b. greater_or_equal b.available x) (lock x) rs ≡ updated rs'
      → update_row u a (λ b. greater_or_equal b.frozen x) (unlock x) rs' ≡ updated rs
  unfolding update_row
  unlock_rows assets users u a x [] rs' g h = absurd (ground arith)
  unlock_rows assets users u a x (r ∷ rs) rs' g h = elim (Bool-cases (is_row u a r)) [
    | inl e ↦
        let same : rs' ≡ lock x r ∷ rs = ground (arith, h, e) in
        let allowed = ap is_allowed (unlock-lock x r) ∙ g.0.0 in
        rw (same, e, lock-covered x r g.0.0, allowed) (ap (λ z. updated (z ∷ rs)) (unlock-lock x r))
    | inr e ↦
        let (rest, k, q) = behind_updated r _ rs' (rw e at h) in
        rw (q, e, unlock_rows assets users u a x rs rest g.1 k) refl
  ]

  leg_done :
      (txn : ℕ) (u a : String) (x : Amount) (t : Tables)
      → has_user u t.users ≡ true
      → (t' : Tables) × (insert_collateral_leg txn u a x t ≡ ok t')
        × (t'.balances ≡ t.balances)
        × (t'.users ≡ t.users)
  unfolding insert_collateral_leg insert_entry
  leg_done txn u a x t h = elim (Bool-cases (is_zero x)) [
    | inl z ↦ (t, ground (arith, z), refl, refl)
    | inr z ↦ elim (Bool-cases (has_asset a t.assets)) [
      | inl k ↦
          let entered = record t {
            entries =
                record { transaction_id = txn; leg = record { user_id = u; asset = a; amount = x } }
                ∷ t.entries;
          } in
          (entered, ground (arith, z, k, h), refl, refl)
      | inr k ↦ (t, ground (arith, z, k), refl, refl)
    ]
  ]

  collateral_entered :
      (u a : String) (x y : Amount) (k i suffix : String) (t : Tables)
      → has_user u t.users ≡ true
      → has_reference k (k <> ":" <> i <> ":" <> suffix) t.transactions ≡ false
      → (t' : Tables) × (insert_collateral_ledger u a x y k i suffix t ≡ ok t')
        × (t'.balances ≡ t.balances)
  unfolding insert_collateral_ledger insert_transaction
  collateral_entered u a x y k i suffix t h fresh =
      let t1 = record t {
        transactions =
            record { ref_type = k; ref_id = k <> ":" <> i <> ":" <> suffix } ∷ t.transactions;
      } in
      let (t2, p, b2, u2) = leg_done (last_id t1) u a x t1 h in
      let (t3, q, b3, u3) = leg_done (last_id t1) u a y t2 (ap (has_user u) u2 ∙ h) in
      (t3, rw (fresh, p) q, b3 ∙ b2)

  -- The user of a row that is updated is known.
  known_user :
      (assets : List String) (users : List User) (u a : String) (test : Balance → Bool)
      (change : Balance → Balance) (rs rs' : List Balance)
      → All (IsGood assets users) rs
      → update_row u a test change rs ≡ updated rs'
      → has_user u users ≡ true
  unfolding update_row
  known_user assets users u a test change [] rs' g h = absurd (ground arith)
  known_user assets users u a test change (r ∷ rs) rs' g h = elim (Bool-cases (is_row u a r)) [
    | inl e ↦ ap (λ z. has_user z users) (sym ((eq_iff r.user_id u).0 (ground (arith, e)))) ∙ g.0.2
    | inr e ↦
        let (rest, k, q) = behind_updated r _ rs' (rw e at h) in
        known_user assets users u a test change rs rest g.1 k
  ]

  -- On sound tables a freeze can be undone: unfreezing the amount under the same reference succeeds,
  -- if that reference was not unfrozen before, and the balances are those before the freeze.
  pub freeze-unfreeze :
      (u a : String) (x : Amount) (ref_type ref_id : String) (t t1 : Tables)
      → IsSound t
      → freeze u a x ref_type ref_id t ≡ ok t1
      → has_reference ref_type (ref_type <> ":" <> ref_id <> ":" <> "unfreeze") t1.transactions
        ≡ false
      → (t2 : Tables) × (unfreeze u a x ref_type ref_id t1 ≡ ok t2) × (t2.balances ≡ t.balances)
  unfolding unfreeze insert_unfreeze_ledger
  freeze-unfreeze u a x ref_type ref_id t t1 s h fresh =
      let f = freeze-IsFrozen u a x ref_type ref_id t t1 h in
      let user =
        ap (has_user u) f.same_users
        ∙ known_user t.assets t.users u a _ (lock x) t.balances t1.balances s.good f.rows in
      let back = unlock_rows t.assets t.users u a x t.balances t1.balances s.good f.rows in
      let (t2, q, b) =
        collateral_entered u a x (neg x) ref_type ref_id "unfreeze"
          (record t1 { balances = t.balances }) user fresh in
      (t2, rw (f.positive, back) q, b)
