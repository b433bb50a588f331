-- ===== src/Matching/Cancel.antt =====
-- `Cancel` takes out one order and keeps the invariant of the book.
use crypto_exchange_lab.Prelude.{
  ◌≡◌, subst, Bool, false, String, List, [], ◌∷◌, ◌++◌, none, some, ◌==◌, eq_iff, All, arith, inl,
  inr, Bool-cases, Option-cases,
}
use crypto_exchange_lab.Decimal.{Decimal}
use crypto_exchange_lab.Sort.{IsSorted}
use crypto_exchange_lab.Matching.Book.{Order, remove_id}

module _ ⦃d : Decimal⦄ where
  abbrev pub IsOther : String → Order → Type 0
  IsOther i o = (o.id == i) ≡ false

  -- The first order with the id stood between the two parts, which are what is left.
  pub record IsTaken (i : String) (o : Order) (before : List Order) (after : List Order)
      : Type 0 where
    pub front : List Order
    pub back : List Order
    pub was : before ≡ front ++ o ∷ back
    pub is_now : after ≡ front ++ back
    pub same_id : o.id ≡ i
    pub is_first : All (IsOther i) front

  pub remove_id-IsTaken :
      (i : String) (os : List Order) (o : Order) (rest : List Order)
      → remove_id i os ≡ some (o, rest)
      → IsTaken i o os rest
  unfolding remove_id
  remove_id-IsTaken i [] o rest h = cc
  remove_id-IsTaken i (p ∷ os) o rest h = elim (Bool-cases (p.id == i)) [
    | inl e ↦ record {
      front = [];
      back = os;
      was = ground arith;
      is_now = ground arith;
      same_id = ground (arith, eq_iff p.id i);
      is_first = tt;
    }
    | inr e ↦ elim (Option-cases (remove_id i os)) [
      | inl n ↦ absurd (ground arith)
      | inr ((q, others), s) ↦
          let t = remove_id-IsTaken i os q others s in
          record {
            front = p ∷ t.front;
            back = t.back;
            was = ground (arith, t.was);
            is_now = ground (arith, t.is_now);
            same_id = ground (arith, t.same_id);
            is_first = (e, t.is_first);
          }
    ]
  ]

  pub remove_id-none : (i : String) (os : List Order) → remove_id i os ≡ none → All (IsOther i) os
  unfolding remove_id
  remove_id-none i [] h = tt
  remove_id-none i (p ∷ os) h = ground (arith, remove_id-none i os)

  pub remove_id-All :
      (P : Order → Type 0) (i : String) (os : List Order) (o : Order) (rest : List Order)
      → All P os
      → remove_id i os ≡ some (o, rest)
      → All P rest
  unfolding remove_id
  remove_id-All P i [] o rest a h = cc
  remove_id-All P i (p ∷ os) o rest a h = elim (Bool-cases (p.id == i)) [
    | inl e ↦ subst (All P) (ground arith) a.1
    | inr e ↦ elim (Option-cases (remove_id i os)) [
      | inl n ↦ absurd (ground arith)
      | inr ((q, others), s) ↦
          subst (All P) {x = p ∷ others} (ground arith) (a.0, remove_id-All P i os q others a.1 s)
    ]
  ]

  pub remove_id-IsSorted :
      (less : Order → Order → Bool) (i : String) (os : List Order) (o : Order) (rest : List Order)
      → IsSorted less os
      → remove_id i os ≡ some (o, rest)
      → IsSorted less rest
  unfolding remove_id
  remove_id-IsSorted less i [] o rest a h = cc
  remove_id-IsSorted less i (p ∷ os) o rest a h = elim (Bool-cases (p.id == i)) [
    | inl e ↦ subst (IsSorted less) (ground arith) a.1
    | inr e ↦ elim (Option-cases (remove_id i os)) [
      | inl n ↦ absurd (ground arith)
      | inr ((q, others), s) ↦ subst (IsSorted less) {x = p ∷ others} (ground arith) (
        remove_id-All (λ y. less y p ≡ false) i os q others a.0 s,
        remove_id-IsSorted less i os q others a.1 s,
      )
    ]
  ]
