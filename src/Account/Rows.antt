-- ===== src/Account/Rows.antt =====
-- An UPDATE of one balance row: what it leaves alone, and how it moves the holdings of an asset.
use crypto_exchange_lab.Prelude.{
  ◌≡◌, refl, sym, ap, ap₂, subst, ◌∙◌, Bool, true, String, List, [], ◌∷◌, ◌++◌, if◌then◌else◌, ◌==◌,
  eq_iff, All, arith, inl, inr, Bool-cases,
}
use crypto_exchange_lab.Decimal.{Decimal, Amount, nil, ◌⊕◌}
use crypto_exchange_lab.Decimal.Laws.{plus_comm, plus_assoc, plus-zero}
use crypto_exchange_lab.Account.Store.{
  Balance, Update, no_rows, refused, updated, behind, is_row, is_allowed, update_row,
}

module _ ⦃d : Decimal⦄ where
  -- One row with the key passed the test, was changed and is allowed; the rows beside it stay.
  pub record IsChanged (user_id asset : String) (test : Balance → Bool) (change : Balance → Balance)
      (before after : List Balance) : Type 0 where
    pub row : Balance
    pub front : List Balance
    pub back : List Balance
    pub was : before ≡ front ++ row ∷ back
    pub is_now : after ≡ front ++ change row ∷ back
    pub has_key : is_row user_id asset row ≡ true
    pub passed : test row ≡ true
    pub allowed : is_allowed (change row) ≡ true

  pub behind_updated :
      (r : Balance) (u : Update) (rs : List Balance)
      → behind r u ≡ updated rs
      → (rest : List Balance) × (u ≡ updated rest) × (rs ≡ r ∷ rest)
  behind_updated r no_rows rs h = absurd (ground arith)
  behind_updated r refused rs h = absurd (ground arith)
  behind_updated r (updated rest) rs h = (rest, refl, ground arith)

  pub update_row-IsChanged :
      (u a : String) (test : Balance → Bool) (change : Balance → Balance)
      (before after : List Balance)
      → update_row u a test change before ≡ updated after
      → IsChanged u a test change before after
  unfolding update_row
  update_row-IsChanged u a test change [] after h = absurd (ground arith)
  update_row-IsChanged u a test change (r ∷ rs) after h = elim (Bool-cases (is_row u a r)) [
    | inl e ↦ record {
      row = r;
      front = [];
      back = rs;
      was = refl;
      is_now = ground arith;
      has_key = e;
      passed = ground arith;
      allowed = ground arith;
    }
    | inr e ↦
        let (rest, k, q) = behind_updated r (update_row u a test change rs) after (rw e at h) in
        let c = update_row-IsChanged u a test change rs rest k in
        record {
          row = c.row;
          front = r ∷ c.front;
          back = c.back;
          was = ap (◌∷◌ r) c.was;
          is_now = q ∙ ap (◌∷◌ r) c.is_now;
          has_key = c.has_key;
          passed = c.passed;
          allowed = c.allowed;
        }
  ]

  -- The whole of an asset: what all users hold, available and frozen.
  unfoldable pub held : String → List Balance → Amount
  held a [] = nil
  held a (r ∷ rs) = if r.asset == a then (r.available ⊕ r.frozen) ⊕ held a rs else held a rs

  abbrev pub only_of : String → String → Amount → Amount
  only_of a b x = if b == a then x else nil

  held-middle :
      (a : String) (front back : List Balance) (r r' : Balance) (x : Amount)
      → r'.asset ≡ r.asset
      → r'.available ⊕ r'.frozen ≡ (r.available ⊕ r.frozen) ⊕ x
      → held a (front ++ r' ∷ back) ≡ held a (front ++ r ∷ back) ⊕ only_of a r.asset x
  unfolding held
  held-middle a [] back r r' x same moved = elim (Bool-cases (r.asset == a)) [
    | inl e ↦
        rw (same, e, moved)
          (plus_assoc (r.available ⊕ r.frozen) x (held a back)
            ∙ ap (λ y. (r.available ⊕ r.frozen) ⊕ y) (plus_comm x (held a back))
            ∙ sym (plus_assoc (r.available ⊕ r.frozen) (held a back) x))
    | inr e ↦ rw (same, e) (sym (plus-zero (held a back)))
  ]
  held-middle a (f ∷ front) back r r' x same moved = elim (Bool-cases (f.asset == a)) [
    | inl e ↦
        rw (e, held-middle a front back r r' x same moved)
          (sym (
            plus_assoc (f.available ⊕ f.frozen) (held a (front ++ r ∷ back)) (only_of a r.asset x)))
    | inr e ↦ rw e (held-middle a front back r r' x same moved)
  ]

  is_row-asset : (u a : String) (r : Balance) → is_row u a r ≡ true → r.asset ≡ a
  is_row-asset u a r h = ground (arith, eq_iff r.asset a)

  -- A change that moves a row's holding by `x` moves that of its asset by `x`, and no other.
  pub held-update_row :
      (u a : String) (test : Balance → Bool) (change : Balance → Balance) (x : Amount)
      (before after : List Balance)
      → ((r : Balance)
          → ((change r).asset ≡ r.asset)
            × ((change r).available ⊕ (change r).frozen ≡ (r.available ⊕ r.frozen) ⊕ x))
      → IsChanged u a test change before after
      → (b : String) → held b after ≡ held b before ⊕ only_of b a x
  held-update_row u a test change x before after moves c b =
      ap (held b) c.is_now
      ∙ held-middle b c.front c.back c.row (change c.row) x (moves c.row).0 (moves c.row).1
      ∙ ap₂ ◌⊕◌ (ap (held b) (sym c.was))
          (ap (λ y. only_of b y x) (is_row-asset u a c.row c.has_key))

  All-middle :
      (P : Balance → Type 0) (front back : List Balance) (r r' : Balance)
      → (P r → P r')
      → All P (front ++ r ∷ back)
      → All P (front ++ r' ∷ back)
  All-middle P [] back r r' f h = (f h.0, h.1)
  All-middle P (p ∷ front) back r r' f h = (h.0, All-middle P front back r r' f h.1)

  -- What holds of every row, and of the changed one if it did before, holds afterwards.
  pub update_row-All :
      (P : Balance → Type 0) (u a : String) (test : Balance → Bool) (change : Balance → Balance)
      (before after : List Balance)
      → (c : IsChanged u a test change before after) → (P c.row → P (change c.row))
      → All P before
      → All P after
  update_row-All P u a test change before after c f h =
      subst (All P) (sym c.is_now)
        (All-middle P c.front c.back c.row (change c.row) f (subst (All P) c.was h))
