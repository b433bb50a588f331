-- ===== src/Matching/Totals.antt =====
-- Totals of fills and of resting quantities, and how each operation on lists moves them.
use crypto_exchange_lab.Prelude.{
  ◌≡◌, refl, sym, ap, ◌∙◌, Bool, List, [], ◌∷◌, ◌++◌, Bool-cases, inl, inr,
}
use crypto_exchange_lab.Decimal.{Decimal, Amount, nil, ◌⊕◌}
use crypto_exchange_lab.Decimal.Laws.{
  plus_left_zero, plus_assoc, plus_comm, plus_left_comm, plus-zero,
}
use crypto_exchange_lab.Sort.{insert, sort_onto, sort_slice}
use crypto_exchange_lab.Matching.Book.{Order, Trade}

module _ ⦃d : Decimal⦄ where
  unfoldable pub total_filled : List Trade → Amount
  total_filled [] = nil
  total_filled (t ∷ ts) = t.quantity ⊕ total_filled ts

  unfoldable pub total_left : List Order → Amount
  total_left [] = nil
  total_left (o ∷ os) = o.remaining ⊕ total_left os

  pub total_filled-append :
      (ts : List Trade) (t : Trade) → total_filled (ts ++ t ∷ []) ≡ total_filled ts ⊕ t.quantity
  unfolding total_filled
  total_filled-append [] t = plus_comm t.quantity nil
  total_filled-append (u ∷ ts) t =
      ap (λ x. u.quantity ⊕ x) (total_filled-append ts t)
      ∙ sym (plus_assoc u.quantity (total_filled ts) t.quantity)

  pub total_left-append :
      (os ps : List Order) → total_left (os ++ ps) ≡ total_left os ⊕ total_left ps
  unfolding total_left
  total_left-append [] ps = sym (plus_left_zero (total_left ps))
  total_left-append (o ∷ os) ps =
      ap (λ x. o.remaining ⊕ x) (total_left-append os ps)
      ∙ sym (plus_assoc o.remaining (total_left os) (total_left ps))

  module _ (less : Order → Order → Bool) where
    total_left-insert :
        (o : Order) (os : List Order) → total_left (insert less o os) ≡ o.remaining ⊕ total_left os
    unfolding insert total_left
    total_left-insert o [] = refl
    total_left-insert o (p ∷ os) = elim (Bool-cases (less o p)) [
      | inl e ↦ rw e
      | inr e ↦
          rw (e, total_left-insert o os) (plus_left_comm p.remaining o.remaining (total_left os))
    ]

    total_left-sort_onto :
        (acc os : List Order) → total_left (sort_onto less acc os) ≡ total_left os ⊕ total_left acc
    unfolding sort_onto total_left
    total_left-sort_onto acc [] = sym (plus_left_zero (total_left acc))
    total_left-sort_onto acc (o ∷ os) =
        rw (total_left-sort_onto (insert less o acc) os, total_left-insert o acc)
          (plus_left_comm (total_left os) o.remaining (total_left acc)
            ∙ sym (plus_assoc o.remaining (total_left os) (total_left acc)))

    -- Sorting a side keeps what rests on it.
    pub total_left-sort_slice : (os : List Order) → total_left (sort_slice less os) ≡ total_left os
    unfolding sort_slice total_left
    total_left-sort_slice os = total_left-sort_onto [] os ∙ plus-zero (total_left os)
