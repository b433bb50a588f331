-- ===== src/Loop.antt =====
-- A Go `for` loop with a condition, run for a bounded number of rounds, and its invariant rules. It
-- models no code by itself: the matching loops are instances of it.
use crypto_exchange_lab.Prelude.{ℕ, zero, suc, ◌<◌, ◌≡◌, Bool, true, false, arith}

module _ {ℓ} {S : Type ℓ} (test : S → Bool) (body : S → S) where
  -- Nothing of the later rounds is computed once the condition fails.
  unfoldable pub while : ℕ → S → S
  while zero now = now
  while (suc rounds) now = elim (test now) [ false ↦ now | true ↦ while rounds (body now) ]

module _ {ℓ κ} {S : Type ℓ} (Inv : S → Type κ) (test : S → Bool) (body : S → S) where
  -- A property that each round keeps holds when the rounds are over.
  pub while_keeps :
      ((now : S) → Inv now → test now ≡ true → Inv (body now))
      → (rounds : ℕ) (now : S) → Inv now
      → Inv (while test body rounds now)
  unfolding while
  while_keeps round zero now inv = inv
  while_keeps round (suc rounds) now inv =
      ground (arith, round now inv, while_keeps round rounds (body now))

module _ {ℓ κ} {S : Type ℓ} (Inv : S → Type κ) (left : S → ℕ) (test : S → Bool) (body : S → S) where
  -- With a count that each round lowers and that starts below the bound, the condition has failed
  -- by the end.
  pub while_ends :
      ((now : S) → Inv now → test now ≡ true → Inv (body now) × (left (body now) < left now))
      → (rounds : ℕ) (now : S) → left now < rounds
      → Inv now
      → test (while test body rounds now) ≡ false
  unfolding while
  while_ends round zero now few inv = absurd (omega arith)
  while_ends round (suc rounds) now few inv =
      ground (arith, round now inv, while_ends round rounds (body now))
