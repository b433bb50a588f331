-- ===== src/Decimal/Whole.antt =====
-- The interface of the decimals can be met: whole numbers, printed as a sign and a row of strokes.
-- Their quotient is rounded towards zero on numbers of one sign. Tests and examples compute with them.
use Prim.Native.Char.{code}
use Prim.Native.Nat.{ℕ, zero, suc, ◌+◌, ◌*◌, ◌/◌, compare, Ordering}
use Prim.Native.String.{String}
use crypto_exchange_lab.Prelude.{◌≡◌, refl, ap, Option, some, arith, if◌then◌else◌, nat_eqb}
use crypto_exchange_lab.Prelude.Int.{
  ℤ, pos, negsuc, pos_part, neg_part, sub_ℕ, ◌+ℤ◌, ◌-ℤ◌, ◌*ℤ◌, +ℤ_parts, sub_ℕ_parts, eq_of_parts,
  int_laws,
}
use crypto_exchange_lab.Decimal.{Decimal}

abbrev pub compared : ℤ → ℤ → Ordering
compared a b = compare (pos_part a + neg_part b) (pos_part b + neg_part a)

unfoldable pub negate : ℤ → ℤ
negate a = pos 0 -ℤ a

unfoldable pub quotient : ℤ → ℤ → ℤ
quotient a b =
    sub_ℕ (pos_part a / pos_part b + neg_part a / neg_part b)
      (pos_part a / neg_part b + neg_part a / pos_part b)

pub plus_comm : (a b : ℤ) → a +ℤ b ≡ b +ℤ a
plus_comm a b = omega int_laws

pub plus_assoc : (a b c : ℤ) → a +ℤ b +ℤ c ≡ a +ℤ (b +ℤ c)
plus_assoc a b c = omega int_laws

pub plus-zero : (a : ℤ) → a +ℤ pos 0 ≡ a
plus-zero a = omega int_laws

pub plus-negate : (a : ℤ) → a +ℤ negate a ≡ pos 0
unfolding negate
plus-negate a = omega int_laws

pub minus-plus : (a b : ℤ) → a -ℤ b ≡ a +ℤ negate b
unfolding negate
minus-plus a b = omega int_laws

pub times_comm : (a b : ℤ) → a *ℤ b ≡ b *ℤ a
unfolding ◌*ℤ◌
times_comm a b = eq_of_parts _ _ (omega (arith, sub_ℕ_parts))

times_parts :
    (a b : ℤ)
    → pos_part (a *ℤ b) + (pos_part a * neg_part b + neg_part a * pos_part b)
      ≡ neg_part (a *ℤ b) + (pos_part a * pos_part b + neg_part a * neg_part b)
unfolding ◌*ℤ◌
times_parts a b = sub_ℕ_parts _ _

pub times-plus : (a b c : ℤ) → (a +ℤ b) *ℤ c ≡ a *ℤ c +ℤ b *ℤ c
times-plus a b c = eq_of_parts _ _ (
    omega (
      arith,
      times_parts (a +ℤ b) c,
      times_parts a c,
      times_parts b c,
      +ℤ_parts (a *ℤ c) (b *ℤ c),
      ap (λ (t : ℕ). t * pos_part c) (+ℤ_parts a b),
      ap (λ (t : ℕ). t * neg_part c) (+ℤ_parts a b),
    ))

pub times_pos :
    (a b : ℤ)
    → compared (pos 0) a ≡ Ordering.lt
    → compared (pos 0) b ≡ Ordering.lt
    → compared (pos 0) (a *ℤ b) ≡ Ordering.lt
unfolding ◌*ℤ◌
times_pos (pos (suc m)) (pos (suc n)) h k = ground arith
times_pos (pos zero) b h k = ground arith
times_pos (pos (suc m)) b h k = ground arith
times_pos (negsuc m) b h k = ground arith

pub compared_refl : (a : ℤ) → compared a a ≡ Ordering.eq
compared_refl a = ground arith

pub eq_of_compared : (a b : ℤ) → compared a b ≡ Ordering.eq → a ≡ b
eq_of_compared a b h = ground arith

pub compared_flip : (a b : ℤ) → compared a b ≡ Ordering.lt → compared b a ≡ Ordering.gt
compared_flip a b h = ground arith

pub compared_flip_gt : (a b : ℤ) → compared a b ≡ Ordering.gt → compared b a ≡ Ordering.lt
compared_flip_gt a b h = ground arith

pub compared_trans :
    (a b c : ℤ)
    → compared a b ≡ Ordering.lt
    → compared b c ≡ Ordering.lt
    → compared a c ≡ Ordering.lt
compared_trans a b c h k = ground arith

pub compared-plus : (a b c : ℤ) → compared (a +ℤ c) (b +ℤ c) ≡ compared a b
compared-plus a b c = ground (arith, +ℤ_parts a c, +ℤ_parts b c)

strokes : ℕ → String
strokes zero = String.[]
strokes (suc n) = String.◌∷◌ "1" (strokes n)

count : String → ℕ
count String.[] = zero
count (String.◌∷◌ c s) = suc (count s)

unfoldable pub text : ℤ → String
unfolding strokes
text (pos n) = strokes n
text (negsuc n) = String.◌∷◌ "-" (strokes (suc n))

-- A leading dash makes the number of strokes behind it negative.
signed : ℕ → String → ℤ
unfolding count negate
signed c s = if nat_eqb c b'-' then negate (pos (count s)) else pos (suc (count s))

unfoldable pub of_text : String → Option ℤ
unfolding signed
of_text String.[] = some (pos 0)
of_text (String.◌∷◌ c s) = some (signed (code c) s)

count-strokes : (n : ℕ) → count (strokes n) ≡ n
unfolding count strokes
count-strokes zero = refl
count-strokes (suc n) = ap suc (count-strokes n)

pub of_text-text : (a : ℤ) → of_text (text a) ≡ some a
unfolding of_text text strokes ◌-ℤ◌
of_text-text (pos zero) = refl
of_text-text (pos (suc n)) = ap (λ k. some (pos (suc k))) (count-strokes n)
of_text-text (negsuc n) = rw (count-strokes n) (ground arith)

-- The instance, which examples bring into scope.
instance abbrev pub whole : Decimal
whole = record {
  Carrier = ℤ;
  zero_value = pos 0;
  plus = ◌+ℤ◌;
  minus = ◌-ℤ◌;
  negate = negate;
  times = ◌*ℤ◌;
  quotient = quotient;
  compared = compared;
  of_nat = pos;
  text = text;
  of_text = of_text;
  plus_comm = plus_comm;
  plus_assoc = plus_assoc;
  plus-zero = plus-zero;
  plus-negate = plus-negate;
  minus-plus = minus-plus;
  times_comm = times_comm;
  times-plus = times-plus;
  compared_refl = compared_refl;
  eq_of_compared = eq_of_compared;
  compared_flip = compared_flip;
  compared_flip_gt = compared_flip_gt;
  compared_trans = compared_trans;
  compared-plus = compared-plus;
  times_pos = times_pos;
  of_text-text = of_text-text;
}
