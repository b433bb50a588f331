-- ===== src/Perps/Once.antt =====
-- `closeSize` of packages/perpservice/engine.go gives margin back under the position's id, which the
-- ledger takes once.
use crypto_exchange_lab.Prelude.{
  ◌≡◌, ◌≢◌, refl, sym, ap, subst, ◌∙◌, true, String, Option, none, some, arith, inl, inr,
  Bool-cases, eq_refl,
}
use Prim.Native.String.{◌++◌ as ◌<>◌}
use crypto_exchange_lab.Decimal.{Decimal, Amount, nil, ◌⊖◌, is_zero, less_or_equal}
use crypto_exchange_lab.Errors.{Result, ok, err}
use crypto_exchange_lab.Account.Store.{Tables, has_reference}
use crypto_exchange_lab.Account.Collateral.{unfreeze-IsUnfrozen, unfreeze_used}
use crypto_exchange_lab.Perps.Store.{Position, upsert_position}
use crypto_exchange_lab.Perps.Client.{send_unfreeze, settle_balanced}
use crypto_exchange_lab.Stateful.{◌>>=◌, bind_action}
use crypto_exchange_lab.Perps.Engine.{
  World, Action, answered, stored, on_account, save_position, ref_type_perp_margin,
}
use crypto_exchange_lab.Perps.Closing.{pay_pnl, keep_rest, reduced, close_size}
use crypto_exchange_lab.Perps.Requests.{send_unfreeze_ok, send_settle_trade_stays}

module _ ⦃d : Decimal⦄ where
  answered_ok : (w w' : World) (r : Result Tables) → answered w r ≡ (ok tt, w') → r ≡ ok w'.account
  answered_ok w w' (ok t) h = ap (λ x. ok x.1.account) h
  answered_ok w w' (err e) h = absurd cc

  -- The reference under which a position's margin is given back is in the ledger.
  abbrev pub IsUsed : String → World → Type 0
  IsUsed i w =
      has_reference ref_type_perp_margin (ref_type_perp_margin <> ":" <> i <> ":" <> "unfreeze")
        w.account.transactions
      ≡ true

  -- What an action that succeeds never takes out of the ledger.
  record StaysIn {ℓ} {A : Type ℓ} (i : String) (m : Action A) : Type ℓ where
    stays : (w w' : World) (a : A) → m w ≡ (ok a, w') → IsUsed i w → IsUsed i w'

  bind-StaysIn {ℓ κ} :
      {A : Type ℓ} {B : Type κ} (i : String) (first : Action A) (next : A → Action B)
      → StaysIn i first
      → ((a : A) → StaysIn i (next a))
      → StaysIn i (first >>= next)
  bind-StaysIn i first next h k = record {
    stays = λ w w' b e used.
        let (a, w1, p, q) = bind_action first next w w' b e in
        (k a).stays w1 w' b q (h.stays w w1 a p used);
  }

  same_account {ℓ} :
      {A : Type ℓ} (i : String) (m : Action A)
      → ((w : World) → (m w).1.account ≡ w.account)
      → StaysIn i m
  same_account i m same = record {
    stays = λ w w' a e used.
        subst
          (λ t.
            has_reference ref_type_perp_margin
              (ref_type_perp_margin <> ":" <> i <> ":" <> "unfreeze") t.transactions
            ≡ true)
          (sym (same w) ∙ ap (λ x. x.1.account) e) used;
  }

  stored-account : (w : World) (r : Option _) → (stored w w r).1.account ≡ w.account
  stored-account w none = refl
  stored-account w (some ps) = refl

  pay_pnl-StaysIn :
      (i trade_id user_id house_id : String) (pnl : Amount)
      → StaysIn i (pay_pnl trade_id user_id house_id pnl)
  unfolding pay_pnl settle_balanced
  pay_pnl-StaysIn i trade_id user_id house_id pnl = elim (Bool-cases (is_zero pnl)) [
    | inl e ↦ rw e (same_account i _ λ w. refl)
    | inr e ↦ rw e (record {
      stays = λ w w' a h used.
          send_settle_trade_stays _ _ _ w.account w'.account (answered_ok w w' _ h) used;
    })
  ]

  keep_rest-StaysIn :
      (i : String) (pos : Position) (size release : Amount) → StaysIn i (keep_rest pos size release)
  unfolding keep_rest
  keep_rest-StaysIn i pos size release = elim (Bool-cases (less_or_equal (pos.size ⊖ size) nil)) [
    | inl e ↦ rw e (bind-StaysIn i _ _ (same_account i _ λ w. refl) λ u. same_account i _ λ w. refl)
    | inr e ↦ rw e (
        bind-StaysIn i _ _
          (same_account i (save_position (reduced pos size release))
            λ w. stored-account w (upsert_position (reduced pos size release) w.perp.positions))
          λ u. same_account i _ λ w. refl)
  ]

  -- A close that succeeds has given margin back under the position's id.
  given_back :
      (pos : Position) (asset amount : String) (w w' : World)
      → on_account (send_unfreeze ref_type_perp_margin pos.user_id asset amount pos.id) w
        ≡ (ok tt, w')
      → IsUsed pos.id w'
  given_back pos asset amount w w' h =
      let (x, p) =
        send_unfreeze_ok ref_type_perp_margin pos.user_id asset amount pos.id w.account w'.account
          (answered_ok w w' _ h) in
      ap
        (has_reference ref_type_perp_margin
          (ref_type_perp_margin <> ":" <> pos.id <> ":" <> "unfreeze"))
        (unfreeze-IsUnfrozen pos.user_id asset x ref_type_perp_margin pos.id w.account w'.account
          p).noted
      ∙ ground (
        arith,
        eq_refl ref_type_perp_margin,
        eq_refl (ref_type_perp_margin <> ":" <> pos.id <> ":" <> "unfreeze"),
      )

  close_size-IsUsed :
      (pos : Position) (size mark : Amount) (event_type trade_id : String) (w w' : World) (r : _)
      → close_size pos size mark event_type trade_id w ≡ (ok r, w')
      → IsUsed pos.id w'
  unfolding close_size
  close_size-IsUsed pos size mark event_type trade_id w w' r h =
      let (mkt, w1, p1, h1) = bind_action _ _ w w' r h in
      let (u, w2, p2, h2) = bind_action _ _ w1 w' r h1 in
      let used = given_back pos mkt.quote_asset _ w1 w2 p2 in
      (bind-StaysIn pos.id _ _ (same_account pos.id _ λ v. refl) λ house_id.
          bind-StaysIn pos.id _ _ (pay_pnl-StaysIn pos.id _ _ _ _) λ u2.
            bind-StaysIn pos.id _ _ (keep_rest-StaysIn pos.id _ _ _) λ rest.
              bind-StaysIn pos.id _ _ (same_account pos.id _ λ v. refl)
                λ u3. same_account pos.id _ λ v. refl).stays
        w2 w' r h2 used

  close_size-unused :
      (pos : Position) (size mark : Amount) (event_type trade_id : String) (w w' : World) (r : _)
      → IsUsed pos.id w
      → close_size pos size mark event_type trade_id w ≢ (ok r, w')
  unfolding close_size
  close_size-unused pos size mark event_type trade_id w w' r used h =
      let (mkt, w1, p1, h1) = bind_action _ _ w w' r h in
      let (u, w2, p2, h2) = bind_action _ _ w1 w' r h1 in
      let (x, p) =
        send_unfreeze_ok ref_type_perp_margin pos.user_id mkt.quote_asset _ pos.id w1.account
          w2.account (answered_ok w1 w2 _ p2) in
      unfreeze_used pos.user_id mkt.quote_asset x ref_type_perp_margin pos.id w1.account w2.account
        (subst (IsUsed pos.id) (ap (λ x. x.1) p1) used) p

  -- Once a close of any size has succeeded, a close of a position with the same id fails on the
  -- state it left, whatever its size, price and owner are.
  pub close_size_again :
      (pos next : Position) (size more mark other_mark : Amount)
      (event_type other_type trade_id other_id : String) (w w' w'' : World)
      (r r' : Option Position × Amount)
      → next.id ≡ pos.id
      → close_size pos size mark event_type trade_id w ≡ (ok r, w')
      → close_size next more other_mark other_type other_id w' ≢ (ok r', w'')
  close_size_again pos next size more mark other_mark event_type other_type trade_id other_id w w'
        w'' r r' same h =
      close_size-unused next more other_mark other_type other_id w' w'' r' (
        subst (λ i. IsUsed i w') (sym same)
          (close_size-IsUsed pos size mark event_type trade_id w w' r h))
