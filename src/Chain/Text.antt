-- ===== src/Chain/Text.antt =====
-- Texts of a node's answers as lists of bytes, and numbers printed in a base: what Go's fmt and
-- math/big write. It models no code of the repository by itself.
use Prim.Native.Char.{code}
use crypto_exchange_lab.Prelude.{
  ℕ, zero, suc, ◌+◌, ◌-◌, ◌/◌, ◌%◌, ◌≡◌, refl, Bool, true, false, String, List, [], ◌∷◌,
  if◌then◌else◌, ltb, leb, nat_eqb, ◌&&◌, arith, length,
}

abbrev pub Text : Type 0
Text = List ℕ

abbrev pub codes : String → Text
codes String.[] = []
codes (String.◌∷◌ c s) = code c ∷ codes s

unfoldable pub text_eqb : Text → Text → Bool
text_eqb [] [] = true
text_eqb [] (b ∷ t) = false
text_eqb (a ∷ s) [] = false
text_eqb (a ∷ s) (b ∷ t) = nat_eqb a b && text_eqb s t

abbrev pub is_empty : Text → Bool
is_empty [] = true
is_empty (a ∷ s) = false

-- `strings.ToLower` and the database's LOWER, on ASCII.
abbrev pub lower_byte : ℕ → ℕ
lower_byte c = if leb b'A' c && leb c b'Z' then c + 32 else c

unfoldable pub lower : Text → Text
lower [] = []
lower (c ∷ s) = lower_byte c ∷ lower s

abbrev pub digit_byte : ℕ → ℕ
digit_byte d = if ltb d 10 then b'0' + d else b'a' + (d - 10)

-- The digits of a number in front of a text, one round for each digit.
unfoldable pub print : ℕ → ℕ → ℕ → Text → Text
print base zero n out = out
print base (suc rounds) n out = elim (ltb n base) [
  | true ↦ digit_byte n ∷ out
  | false ↦ print base rounds (n / base) (digit_byte (n % base) ∷ out)
]

-- A number has fewer digits than itself and one.
abbrev pub to_text : ℕ → ℕ → Text
to_text base n = print base (suc n) n []

pub text_eqb-length : (s t : Text) → text_eqb s t ≡ true → length s ≡ length t
unfolding text_eqb
text_eqb-length [] [] h = refl
text_eqb-length [] (b ∷ t) h = absurd cc
text_eqb-length (a ∷ s) [] h = absurd cc
text_eqb-length (a ∷ s) (b ∷ t) h =
    let rest : text_eqb s t ≡ true = ground arith in omega (arith, text_eqb-length s t rest)

pub text_eqb_refl : (s : Text) → text_eqb s s ≡ true
unfolding text_eqb
text_eqb_refl [] = refl
text_eqb_refl (a ∷ s) = ground (arith, text_eqb_refl s)

pub length-lower : (s : Text) → length (lower s) ≡ length s
unfolding lower
length-lower [] = refl
length-lower (c ∷ s) = omega (arith, length-lower s)
