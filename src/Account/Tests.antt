-- ===== src/Account/Tests.antt =====
-- Runs of account-service on whole numbers, and the theorems at inputs that meet their hypotheses.
use crypto_exchange_lab.Prelude.{◌≡◌, ◌≢◌, refl, String, List, [], ◌∷◌}
use crypto_exchange_lab.Prelude.Int.{ℤ, pos, negsuc, ◌+ℤ◌, ◌-ℤ◌}
use crypto_exchange_lab.Decimal.{◌⊕◌, nil}
use crypto_exchange_lab.Decimal.Whole.{whole, negate}
use crypto_exchange_lab.Errors.{ok}
use crypto_exchange_lab.Account.Store.{
  Balance, LedgerLeg, FreezeRelease, LedgerEntry, Tables, update_row,
}
use crypto_exchange_lab.Account.Ledger.{
  insert_transaction, insert_entry, insert_freeze_ledger, insert_unfreeze_ledger,
  verify_ledger_balance,
}
use crypto_exchange_lab.Account.Operations.{apply_legs, release_all, freeze, unfreeze, settle_trade}
use crypto_exchange_lab.Account.Rows.{held}
use crypto_exchange_lab.Account.Settlement.{leg_sum, release_sum}
use crypto_exchange_lab.Account.Settled.{settle_trade-held, settle_trade_again}
use crypto_exchange_lab.Account.Collateral.{freeze-held, unfreeze_twice}
use crypto_exchange_lab.Account.Soundness.{IsSound}
use crypto_exchange_lab.Account.Undone.{freeze-unfreeze}

abbrev row : String → String → ℤ → ℤ → Balance
row u a x y = record { user_id = u; asset = a; available = x; frozen = y }

abbrev leg : String → String → ℤ → LedgerLeg
leg u a x = record { user_id = u; asset = a; amount = x }

abbrev release : String → String → ℤ → FreezeRelease
release u a x = record { user_id = u; asset = a; amount = x }

-- Two users with a row for each of two assets; one buys with collateral that is already frozen.
abbrev start : Tables
start = record {
  assets = "BTC" ∷ "USDT" ∷ [];
  users =
      record { id = "alice"; username = "Alice" } ∷ record { id = "bob"; username = "Bob" } ∷ [];
  balances =
      row "alice" "USDT" (pos 60) (pos 40)
      ∷ row "alice" "BTC" (pos 0) (pos 0)
      ∷ row "bob" "USDT" (pos 0) (pos 0)
      ∷ row "bob" "BTC" (pos 5) (pos 0)
      ∷ [];
  transactions = [];
  entries = [];
}

abbrev legs : List LedgerLeg
legs =
    leg "alice" "USDT" (negsuc 39)
    ∷ leg "bob" "USDT" (pos 40)
    ∷ leg "bob" "BTC" (negsuc 1)
    ∷ leg "alice" "BTC" (pos 2)
    ∷ []

abbrev entry : LedgerLeg → LedgerEntry
entry l = record { transaction_id = 1; leg = l }

-- Alice is 80 short: 40 were for the trade, 40 were her collateral.
abbrev settled : Tables
settled = record start {
  balances =
      row "alice" "USDT" (pos 20) (pos 0)
      ∷ row "alice" "BTC" (pos 2) (pos 0)
      ∷ row "bob" "USDT" (pos 40) (pos 0)
      ∷ row "bob" "BTC" (pos 3) (pos 0)
      ∷ [];
  transactions = record { ref_type = "trade"; ref_id = "t1" } ∷ [];
  entries =
      entry (leg "alice" "BTC" (pos 2))
      ∷ entry (leg "bob" "BTC" (negsuc 1))
      ∷ entry (leg "bob" "USDT" (pos 40))
      ∷ entry (leg "alice" "USDT" (negsuc 39))
      ∷ [];
}

settle_start : settle_trade "t1" legs (release "alice" "USDT" (pos 40) ∷ []) start ≡ ok settled
unfolding settle_trade insert_transaction apply_legs insert_entry update_row ◌+ℤ◌ release_all ◌-ℤ◌
    verify_ledger_balance
settle_start = refl

settle_trade-held_example :
    (leg_sum "USDT" legs ≡ nil)
    × (held "USDT" settled.balances ⊕ release_sum "USDT" (release "alice" "USDT" (pos 40) ∷ [])
        ≡ held "USDT" start.balances)
settle_trade-held_example =
    settle_trade-held "t1" legs (release "alice" "USDT" (pos 40) ∷ []) start settled
      (refl, (refl, (refl, (refl, tt)))) tt refl settle_start "USDT"

settle_trade_again_example : settle_trade "t1" [] [] settled ≡ ok settled
settle_trade_again_example =
    settle_trade_again "t1" legs [] (release "alice" "USDT" (pos 40) ∷ []) [] start settled
      (refl, (refl, (refl, (refl, tt)))) settle_start

-- Alice freezes 10 more.
abbrev locked : Tables
locked = record start {
  balances =
      row "alice" "USDT" (pos 50) (pos 50)
      ∷ row "alice" "BTC" (pos 0) (pos 0)
      ∷ row "bob" "USDT" (pos 0) (pos 0)
      ∷ row "bob" "BTC" (pos 5) (pos 0)
      ∷ [];
  transactions = record { ref_type = "order"; ref_id = "order:o1:freeze" } ∷ [];
  entries = entry (leg "alice" "USDT" (pos 10)) ∷ entry (leg "alice" "USDT" (negsuc 9)) ∷ [];
}

frozen_run : freeze "alice" "USDT" (pos 10) "order" "o1" start ≡ ok locked
unfolding freeze update_row ◌-ℤ◌ ◌+ℤ◌ insert_freeze_ledger negate
frozen_run = refl

freeze-held_example : held "USDT" locked.balances ≡ held "USDT" start.balances
freeze-held_example =
    freeze-held "alice" "USDT" (pos 10) "order" "o1" start locked frozen_run "USDT"

-- Of her frozen 40, 15 are given back.
abbrev unlocked : Tables
unlocked = record start {
  balances =
      row "alice" "USDT" (pos 75) (pos 25)
      ∷ row "alice" "BTC" (pos 0) (pos 0)
      ∷ row "bob" "USDT" (pos 0) (pos 0)
      ∷ row "bob" "BTC" (pos 5) (pos 0)
      ∷ [];
  transactions = record { ref_type = "perp"; ref_id = "perp:p1:unfreeze" } ∷ [];
  entries = entry (leg "alice" "USDT" (negsuc 14)) ∷ entry (leg "alice" "USDT" (pos 15)) ∷ [];
}

unfrozen_run : unfreeze "alice" "USDT" (pos 15) "perp" "p1" start ≡ ok unlocked
unfolding unfreeze update_row ◌+ℤ◌ ◌-ℤ◌ insert_unfreeze_ledger negate
unfrozen_run = refl

unfreeze_twice_example : unfreeze "alice" "USDT" (pos 20) "perp" "p1" unlocked ≢ ok unlocked
unfreeze_twice_example =
    unfreeze_twice "alice" "alice" "USDT" "USDT" (pos 15) (pos 20) "perp" "p1" start unlocked
      unlocked unfrozen_run

start-IsSound : IsSound start
start-IsSound = record {
  good = ((refl, refl, refl), ((refl, refl, refl), ((refl, refl, refl), ((refl, refl, refl), tt))));
  recorded = tt;
}

freeze-unfreeze_example :
    (t2 : Tables) × (unfreeze "alice" "USDT" (pos 10) "order" "o1" locked ≡ ok t2)
    × (t2.balances ≡ start.balances)
freeze-unfreeze_example =
    freeze-unfreeze "alice" "USDT" (pos 10) "order" "o1" start locked start-IsSound frozen_run refl
