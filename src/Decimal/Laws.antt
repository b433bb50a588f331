-- ===== src/Decimal/Laws.antt =====
-- Consequences of the laws of the decimals: the group, the order, and the two together.
use crypto_exchange_lab.Prelude.{◌≡◌, ◌≢◌, refl, sym, ap, ap₂, subst, ◌∙◌, Ordering, arith}
use crypto_exchange_lab.Decimal.{Decimal, Amount, nil, ◌⊕◌, ◌⊖◌, ◌⊗◌, neg, cmp, ◌≺◌, ◌≼◌}

module _ ⦃d : Decimal⦄ where
  pub plus_comm : (a b : Amount) → a ⊕ b ≡ b ⊕ a
  plus_comm = d.plus_comm

  pub plus_assoc : (a b c : Amount) → (a ⊕ b) ⊕ c ≡ a ⊕ (b ⊕ c)
  plus_assoc = d.plus_assoc

  pub plus-zero : (a : Amount) → a ⊕ nil ≡ a
  plus-zero = d.plus-zero

  pub plus-neg : (a : Amount) → a ⊕ neg a ≡ nil
  plus-neg = d.plus-negate

  pub plus_left_zero : (a : Amount) → nil ⊕ a ≡ a
  plus_left_zero a = d.plus_comm nil a ∙ d.plus-zero a

  pub plus_left_comm : (a b c : Amount) → a ⊕ (b ⊕ c) ≡ b ⊕ (a ⊕ c)
  plus_left_comm a b c =
      sym (d.plus_assoc a b c) ∙ ap (λ x. x ⊕ c) (d.plus_comm a b) ∙ d.plus_assoc b a c

  pub plus_interchange : (a b c e : Amount) → (a ⊕ b) ⊕ (c ⊕ e) ≡ (a ⊕ c) ⊕ (b ⊕ e)
  plus_interchange a b c e = simp (plus_assoc, plus_left_comm)

  -- What was taken away and put back.
  pub minus-plus_cancel : (a b : Amount) → (a ⊖ b) ⊕ b ≡ a
  minus-plus_cancel a b =
      rw (d.minus-plus a b, plus_assoc a (neg b) b, plus_comm (neg b) b, plus-neg b) (plus-zero a)

  pub minus-plus : (a b : Amount) → a ⊖ b ≡ a ⊕ neg b
  minus-plus = d.minus-plus

  pub minus_self : (a : Amount) → a ⊖ a ≡ nil
  minus_self a = d.minus-plus a a ∙ plus-neg a

  pub minus-zero : (a : Amount) → a ⊖ nil ≡ a
  minus-zero a = sym (plus-zero (a ⊖ nil)) ∙ minus-plus_cancel a nil

  pub plus-minus_cancel : (a b : Amount) → (a ⊕ b) ⊖ b ≡ a
  plus-minus_cancel a b =
      minus-plus (a ⊕ b) b ∙ plus_assoc a b (neg b) ∙ ap (λ x. a ⊕ x) (plus-neg b) ∙ plus-zero a

  pub plus_cancel : (a b c : Amount) → a ⊕ c ≡ b ⊕ c → a ≡ b
  plus_cancel a b c h = sym (plus-minus_cancel a c) ∙ ap (λ x. x ⊖ c) h ∙ plus-minus_cancel b c

  pub neg_unique : (a b : Amount) → a ⊕ b ≡ nil → b ≡ neg a
  neg_unique a b h =
      plus_cancel b (neg a) a (plus_comm b a ∙ h ∙ sym (plus_comm (neg a) a ∙ plus-neg a))

  pub neg-neg : (a : Amount) → neg (neg a) ≡ a
  neg-neg a = sym (neg_unique (neg a) a (plus_comm (neg a) a ∙ plus-neg a))

  pub neg-zero : neg nil ≡ nil
  neg-zero = sym (neg_unique nil nil (plus-zero nil))

  pub neg-plus : (a b : Amount) → neg (a ⊕ b) ≡ neg a ⊕ neg b
  neg-plus a b = sym (
      neg_unique (a ⊕ b) (neg a ⊕ neg b)
        (plus_interchange a b (neg a) (neg b) ∙ rw (plus-neg a, plus-neg b) (plus-zero nil)))

  pub neg-minus : (a b : Amount) → neg (a ⊖ b) ≡ b ⊖ a
  neg-minus a b =
      rw (minus-plus a b, neg-plus a (neg b), neg-neg b, minus-plus b a) (plus_comm (neg a) b)

  -- Moving an amount from one sum to another leaves the whole.
  pub minus-plus_move : (a b x : Amount) → (a ⊖ x) ⊕ (b ⊕ x) ≡ a ⊕ b
  minus-plus_move a b x = rw (plus_comm b x, ← plus_assoc (a ⊖ x) x b, minus-plus_cancel a x)

  pub times_comm : (a b : Amount) → a ⊗ b ≡ b ⊗ a
  times_comm = d.times_comm

  pub times-plus : (a b c : Amount) → (a ⊕ b) ⊗ c ≡ (a ⊗ c) ⊕ (b ⊗ c)
  times-plus = d.times-plus

  pub zero-times : (c : Amount) → nil ⊗ c ≡ nil
  zero-times c = plus_cancel (nil ⊗ c) nil (nil ⊗ c) (
      sym (times-plus nil nil c) ∙ ap (λ x. x ⊗ c) (plus-zero nil) ∙ sym (plus_left_zero (nil ⊗ c)))

  pub neg-times : (a c : Amount) → neg a ⊗ c ≡ neg (a ⊗ c)
  neg-times a c =
      neg_unique (a ⊗ c) (neg a ⊗ c)
        (sym (times-plus a (neg a) c) ∙ ap (λ x. x ⊗ c) (plus-neg a) ∙ zero-times c)

  pub minus-times : (a b c : Amount) → (a ⊖ b) ⊗ c ≡ (a ⊗ c) ⊖ (b ⊗ c)
  minus-times a b c =
      rw (minus-plus a b, times-plus a (neg b) c, neg-times b c, minus-plus (a ⊗ c) (b ⊗ c))

  pub cmp_refl : (a : Amount) → cmp a a ≡ Ordering.eq
  cmp_refl = d.compared_refl

  pub eq_of_cmp : (a b : Amount) → cmp a b ≡ Ordering.eq → a ≡ b
  eq_of_cmp = d.eq_of_compared

  pub cmp_flip : (a b : Amount) → a ≺ b → cmp b a ≡ Ordering.gt
  cmp_flip = d.compared_flip

  pub cmp_flip_gt : (a b : Amount) → cmp a b ≡ Ordering.gt → b ≺ a
  cmp_flip_gt = d.compared_flip_gt

  pub lt_trans : (a b c : Amount) → a ≺ b → b ≺ c → a ≺ c
  lt_trans = d.compared_trans

  pub le_of_lt : (a b : Amount) → a ≺ b → a ≼ b
  le_of_lt a b h k = cc

  pub le_of_flip : (a b : Amount) → cmp b a ≢ Ordering.lt → a ≼ b
  le_of_flip a b h k = h (cmp_flip_gt a b k)

  pub flip_of_le : (a b : Amount) → a ≼ b → cmp b a ≢ Ordering.lt
  flip_of_le a b h k = h (cmp_flip b a k)

  pub lt_le_trans : (a b c : Amount) → a ≺ b → b ≼ c → a ≺ c
  lt_le_trans a b c h k = grind (arith, lt_trans a b c h, eq_of_cmp b c, h, k)

  pub le_lt_trans : (a b c : Amount) → a ≼ b → b ≺ c → a ≺ c
  le_lt_trans a b c h k = grind (arith, lt_trans a b c, eq_of_cmp a b, h, k)

  pub le_trans : (a b c : Amount) → a ≼ b → b ≼ c → a ≼ c
  le_trans a b c h k g = k (cmp_flip c b (lt_le_trans c a b (cmp_flip_gt a c g) h))

  pub le_refl : (a : Amount) → a ≼ a
  le_refl a k = ground (arith, cmp_refl a)

  -- Subtraction reads off the order.
  pub cmp-minus : (a b : Amount) → cmp nil (a ⊖ b) ≡ cmp b a
  cmp-minus a b =
      sym (d.compared-plus nil (a ⊖ b) b) ∙ ap₂ cmp (plus_left_zero b) (minus-plus_cancel a b)

  pub plus_mono : (a b c : Amount) → a ≼ b → a ⊕ c ≼ b ⊕ c
  plus_mono a b c h k = h (sym (d.compared-plus a b c) ∙ k)

  pub plus_nonneg : (a b : Amount) → nil ≼ a → nil ≼ b → nil ≼ a ⊕ b
  plus_nonneg a b h k =
      le_trans nil b (a ⊕ b) k (subst (λ x. x ≼ a ⊕ b) (plus_left_zero b) (plus_mono nil a b h))

  pub minus_nonneg : (a b : Amount) → b ≼ a → nil ≼ a ⊖ b
  minus_nonneg a b h k = h (sym (cmp-minus a b) ∙ k)

  pub times_pos : (a b : Amount) → nil ≺ a → nil ≺ b → nil ≺ a ⊗ b
  times_pos = d.times_pos

  pub ruleset group = (arith, plus_comm, plus_assoc, plus-zero, plus_left_zero, minus-plus_cancel)

  pub ruleset order = (arith, cmp_refl, eq_of_cmp, cmp_flip, cmp_flip_gt, lt_trans)
