-- ===== src/Perps/Positions.antt =====
-- The open positions: what the table promises of its rows, and that every call keeps it.
use crypto_exchange_lab.Prelude.{
  ◌≡◌, refl, ap₂, subst, ◌∙◌, true, false, String, List, [], ◌∷◌, none, some, arith, inl, inr,
  Bool-cases, eq_iff, All,
}
use crypto_exchange_lab.Decimal.{Decimal}
use crypto_exchange_lab.Perps.Store.{
  Position, is_position, get_position, is_allowed_position, put_position, upsert_position,
  delete_position,
}

module _ ⦃d : Decimal⦄ where
  -- No two rows have the same user and symbol.
  abbrev pub AllDistinct : List Position → Type 0
  AllDistinct [] = Unit
  AllDistinct (p ∷ ps) = (get_position p.user_id p.symbol ps ≡ none) × AllDistinct ps

  -- Every row has a side, a positive size and margin and a leverage from 1 to 100, and there is one
  -- row for a user and a symbol.
  pub record AreValid (ps : List Position) : Type 0 where
    pub allowed : All (λ p. is_allowed_position p ≡ true) ps
    pub distinct : AllDistinct ps

  is_position_flip :
      (p q : Position)
      → is_position p.user_id p.symbol q ≡ false
      → is_position q.user_id q.symbol p ≡ false
  is_position_flip p q h = ground (
    arith,
    eq_iff q.user_id p.user_id,
    eq_iff q.symbol p.symbol,
    eq_iff p.user_id q.user_id,
    eq_iff p.symbol q.symbol,
  )

  get_position-put_position :
      (u s : String) (p : Position) (ps : List Position)
      → get_position u s ps ≡ none
      → is_position u s p ≡ false
      → get_position u s (put_position p ps) ≡ none
  unfolding get_position put_position
  get_position-put_position u s p [] h k = ground arith
  get_position-put_position u s p (q ∷ ps) h k =
      elim (Bool-cases (is_position p.user_id p.symbol q)) [
        | inl e ↦ ground arith
        | inr e ↦ ground (arith, get_position-put_position u s p ps)
      ]

  put_position-AreValid :
      (p : Position) (ps : List Position)
      → is_allowed_position p ≡ true
      → AreValid ps
      → AreValid (put_position p ps)
  unfolding put_position get_position
  put_position-AreValid p [] h v = record { allowed = (h, tt); distinct = (refl, tt) }
  put_position-AreValid p (q ∷ ps) h v = elim (Bool-cases (is_position p.user_id p.symbol q)) [
    | inl e ↦ rw e (record {
      allowed = (h, v.allowed.1);
      distinct = (
        ap₂ (λ u s. get_position u s ps) (ground (arith, eq_iff q.user_id p.user_id))
              (ground (arith, eq_iff q.symbol p.symbol))
            ∙ v.distinct.0,
        v.distinct.1,
      );
    })
    | inr e ↦
        let rest =
          put_position-AreValid p ps h
            (record { allowed = v.allowed.1; distinct = v.distinct.1 }) in
        rw e (record {
          allowed = (v.allowed.0, rest.allowed);
          distinct = (
            get_position-put_position q.user_id q.symbol p ps v.distinct.0 (is_position_flip p q e),
            rest.distinct,
          );
        })
  ]

  pub upsert_position-AreValid :
      (p : Position) (ps after : List Position)
      → upsert_position p ps ≡ some after
      → AreValid ps
      → AreValid after
  unfolding upsert_position
  upsert_position-AreValid p ps after h v = elim (Bool-cases (is_allowed_position p)) [
    | inl e ↦ subst AreValid (ground arith) (put_position-AreValid p ps e v)
    | inr e ↦ absurd (ground arith)
  ]

  get_position-delete_position :
      (u s v r : String) (ps : List Position)
      → get_position u s ps ≡ none
      → get_position u s (delete_position v r ps) ≡ none
  unfolding get_position delete_position
  get_position-delete_position u s v r [] h = refl
  get_position-delete_position u s v r (p ∷ ps) h =
      ground (arith, get_position-delete_position u s v r ps)

  pub delete_position-AreValid :
      (u s : String) (ps : List Position) → AreValid ps → AreValid (delete_position u s ps)
  unfolding delete_position
  delete_position-AreValid u s [] v = v
  delete_position-AreValid u s (p ∷ ps) v =
      let rest =
        delete_position-AreValid u s ps
          (record { allowed = v.allowed.1; distinct = v.distinct.1 }) in
      elim (Bool-cases (is_position u s p)) [
        | inl e ↦ rw e rest
        | inr e ↦ rw e (record {
          allowed = (v.allowed.0, rest.allowed);
          distinct =
              (get_position-delete_position p.user_id p.symbol u s ps v.distinct.0, rest.distinct);
        })
      ]
