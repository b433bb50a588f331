-- ===== src/Perps/Keeping.antt =====
-- The calls of the perpetual engine and the table of positions, errors included.
use crypto_exchange_lab.Prelude.{
  ◌≡◌, refl, sym, subst, String, List, Option, none, some, inl, inr, Bool-cases,
}
use crypto_exchange_lab.Decimal.{Decimal, Amount, nil, ◌⊖◌, is_zero, less_or_equal}
use crypto_exchange_lab.Errors.{Result, ok, err}
use crypto_exchange_lab.Account.Store.{Tables}
use crypto_exchange_lab.Perps.Store.{Position, PerpTables, upsert_position, delete_position}
use crypto_exchange_lab.Stateful.{Keeps, bind-Keeps, ask-Keeps}
use crypto_exchange_lab.Perps.Client.{send_freeze, send_unfreeze}
use crypto_exchange_lab.Perps.Posted.{KeepsTables, IsClientKept, posted-IsClientKept}
use crypto_exchange_lab.Perps.Engine.{
  OpenRequest, CloseRequest, World, answered, stored, on_account, on_perp, save_position,
  save_or_undo, open_position,
}
use crypto_exchange_lab.Perps.Closing.{pay_pnl, keep_rest, close_size, close_position, liquidate}
use crypto_exchange_lab.Perps.Positions.{
  AreValid, upsert_position-AreValid, delete_position-AreValid,
}

module _ ⦃d : Decimal⦄ where
  module _ (Fine : Tables → Type 0) (client : IsClientKept Fine) where
    -- The accounts are fine, in the sense of the parameter, and the positions are valid.
    pub record IsFine (w : World) : Type 0 where
      pub accounts : Fine w.account
      pub positions : AreValid w.perp.positions

    answered-IsFine :
        (w : World) (f : Tables → Result Tables)
        → KeepsTables Fine f
        → IsFine w
        → (r : Result Tables) → f w.account ≡ r
        → IsFine (answered w r).1
    answered-IsFine w f h s (ok t) e = record {
      accounts = h w.account t e s.accounts;
      positions = s.positions;
    }
    answered-IsFine w f h s (err x) e = s

    pub on_account-Keeps :
        (f : Tables → Result Tables) → KeepsTables Fine f → Keeps IsFine (on_account f)
    on_account-Keeps f h = record { keeps = λ w s. answered-IsFine w f h s (f w.account) refl }

    freeze-Keeps : (k u a x i : String) → Keeps IsFine (on_account (send_freeze k u a x i))
    freeze-Keeps k u a x i = on_account-Keeps _ (client.frozen k u a x i)

    unfreeze-Keeps : (k u a x i : String) → Keeps IsFine (on_account (send_unfreeze k u a x i))
    unfreeze-Keeps k u a x i = on_account-Keeps _ (client.unfrozen k u a x i)

    stored-IsFine :
        (w failed : World) (r : Option (List Position))
        → IsFine w
        → IsFine failed
        → ((ps : List Position) → r ≡ some ps → AreValid ps)
        → IsFine (stored w failed r).1
    stored-IsFine w failed none s f h = f
    stored-IsFine w failed (some ps) s f h = record { accounts = s.accounts; positions = h ps refl }

    save_position-Keeps : (p : Position) → Keeps IsFine (save_position p)
    save_position-Keeps p = record {
      keeps = λ w s.
          stored-IsFine w w (upsert_position p w.perp.positions) s s
            λ ps h. upsert_position-AreValid p w.perp.positions ps h s.positions;
    }

    -- A change of the perpetual tables that leaves the positions.
    pub on_perp-Keeps :
        (f : PerpTables → PerpTables)
        → ((t : PerpTables) → (f t).positions ≡ t.positions)
        → Keeps IsFine (on_perp f)
    on_perp-Keeps f same = record {
      keeps = λ w s. record {
        accounts = s.accounts;
        positions = subst AreValid (sym (same w.perp)) s.positions;
      };
    }

    delete-Keeps :
        (u s : String)
        → Keeps IsFine (on_perp (λ t. record t { positions = delete_position u s t.positions }))
    delete-Keeps u s = record {
      keeps = λ w v. record {
        accounts = v.accounts;
        positions = delete_position-AreValid u s w.perp.positions v.positions;
      };
    }

    save_or_undo-Keeps :
        (p : Position) (undo : Tables → Result Tables)
        → KeepsTables Fine undo
        → Keeps IsFine (save_or_undo p undo)
    unfolding save_or_undo
    save_or_undo-Keeps p undo k = record {
      keeps = λ w s.
          stored-IsFine w (on_account undo w).1 (upsert_position p w.perp.positions) s
            ((on_account-Keeps undo k).keeps w s)
            λ ps h. upsert_position-AreValid p w.perp.positions ps h s.positions;
    }

    pub open_position-Keeps :
        (req : OpenRequest) (pos_id freeze_ref : String)
        → Keeps IsFine (open_position req pos_id freeze_ref)
    unfolding open_position
    open_position-Keeps req pos_id freeze_ref = bind-Keeps IsFine _ _ (ask-Keeps IsFine _) λ mkt.
        bind-Keeps IsFine _ _ (ask-Keeps IsFine _) λ u1.
          bind-Keeps IsFine _ _ (ask-Keeps IsFine _) λ size.
            bind-Keeps IsFine _ _ (ask-Keeps IsFine _) λ mark.
              bind-Keeps IsFine _ _ (ask-Keeps IsFine _) λ existing.
                bind-Keeps IsFine _ _ (freeze-Keeps _ _ _ _ _) λ u2.
                  bind-Keeps IsFine _ _ (save_or_undo-Keeps _ _ (client.unfrozen _ _ _ _ _))
                    λ u3. bind-Keeps IsFine _ _ (on_perp-Keeps _ λ t. refl) λ u4. ask-Keeps IsFine _

    pay_pnl-Keeps :
        (trade_id user_id house_id : String) (pnl : Amount)
        → Keeps IsFine (pay_pnl trade_id user_id house_id pnl)
    unfolding pay_pnl
    pay_pnl-Keeps trade_id user_id house_id pnl = elim (Bool-cases (is_zero pnl)) [
      | inl e ↦ rw e (ask-Keeps IsFine _)
      | inr e ↦ rw e (on_account-Keeps _ (client.balanced _ _ _ _))
    ]

    keep_rest-Keeps :
        (pos : Position) (size release : Amount) → Keeps IsFine (keep_rest pos size release)
    unfolding keep_rest
    keep_rest-Keeps pos size release = elim (Bool-cases (less_or_equal (pos.size ⊖ size) nil)) [
      | inl e ↦
          rw e (bind-Keeps IsFine _ _ (delete-Keeps pos.user_id pos.symbol) λ u. ask-Keeps IsFine _)
      | inr e ↦ rw e (bind-Keeps IsFine _ _ (save_position-Keeps _) λ u. ask-Keeps IsFine _)
    ]

    close_size-Keeps :
        (pos : Position) (size mark : Amount) (event_type trade_id : String)
        → Keeps IsFine (close_size pos size mark event_type trade_id)
    unfolding close_size
    close_size-Keeps pos size mark event_type trade_id =
        bind-Keeps IsFine _ _ (ask-Keeps IsFine _) λ mkt.
          bind-Keeps IsFine _ _ (unfreeze-Keeps _ _ _ _ _) λ u1.
            bind-Keeps IsFine _ _ (ask-Keeps IsFine _) λ house_id.
              bind-Keeps IsFine _ _ (pay_pnl-Keeps _ _ _ _) λ u2.
                bind-Keeps IsFine _ _ (keep_rest-Keeps _ _ _)
                  λ rest. bind-Keeps IsFine _ _ (on_perp-Keeps _ λ t. refl) λ u4. ask-Keeps IsFine _

    pub close_position-Keeps :
        (req : CloseRequest) (trade_id : String) → Keeps IsFine (close_position req trade_id)
    unfolding close_position
    close_position-Keeps req trade_id = bind-Keeps IsFine _ _ (ask-Keeps IsFine _) λ pos.
        bind-Keeps IsFine _ _ (ask-Keeps IsFine _) λ mark.
          bind-Keeps IsFine _ _ (ask-Keeps IsFine _)
            λ size. close_size-Keeps pos size mark "CLOSE" trade_id

    pub liquidate-Keeps :
        (user_id symbol trade_id : String) → Keeps IsFine (liquidate user_id symbol trade_id)
    unfolding liquidate
    liquidate-Keeps user_id symbol trade_id = bind-Keeps IsFine _ _ (ask-Keeps IsFine _) λ pos.
        bind-Keeps IsFine _ _ (ask-Keeps IsFine _)
          λ mark. close_size-Keeps pos pos.size mark "LIQUIDATION" trade_id

  -- Nothing is said of the accounts.
  nothing_said : IsClientKept (λ t. Unit {0})
  nothing_said = posted-IsClientKept _ λ r t t' e u. tt

  trivially : (w : World) → AreValid w.perp.positions → IsFine (λ t. Unit {0}) nothing_said w
  trivially w s = record { accounts = tt; positions = s }

  -- Opening a position or adding to one keeps the positions valid, whatever is asked for and
  -- whether it succeeds or not.
  open_position-AreValid :
      (req : OpenRequest) (pos_id freeze_ref : String) (w : World)
      → AreValid w.perp.positions
      → AreValid (open_position req pos_id freeze_ref w).1.perp.positions
  open_position-AreValid req pos_id freeze_ref w s =
      ((open_position-Keeps _ nothing_said req pos_id freeze_ref).keeps w (trivially w s)).positions

  -- Closing a position, all or a part of it, keeps the positions valid, whether it succeeds or not.
  close_position-AreValid :
      (req : CloseRequest) (trade_id : String) (w : World)
      → AreValid w.perp.positions
      → AreValid (close_position req trade_id w).1.perp.positions
  close_position-AreValid req trade_id w s =
      ((close_position-Keeps _ nothing_said req trade_id).keeps w (trivially w s)).positions

  -- A liquidation keeps the positions valid, whether it succeeds or not.
  pub liquidate-AreValid :
      (user_id symbol trade_id : String) (w : World)
      → AreValid w.perp.positions
      → AreValid (liquidate user_id symbol trade_id w).1.perp.positions
  liquidate-AreValid user_id symbol trade_id w s =
      ((liquidate-Keeps _ nothing_said user_id symbol trade_id).keeps w (trivially w s)).positions
