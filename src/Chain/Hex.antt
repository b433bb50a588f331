-- ===== src/Chain/Hex.antt =====
-- packages/chainrpc/hex.go, with what it uses of Go: `Sscanf` with %x reads the hex digits in front of
-- a text (a value that is no uint64 is an error), `big.Int.SetString` reads a whole text with a sign.
-- The texts of errors are not modelled.
use crypto_exchange_lab.Prelude.{
  ℕ, zero, suc, ◌+◌, ◌-◌, ◌*◌, ◌%◌, ◌^◌, Bool, List, [], ◌∷◌, Option, none, some, if◌then◌else◌,
  ltb, leb, nat_eqb, ◌&&◌, ◌||◌, length,
}
use crypto_exchange_lab.Prelude.Int.{ℤ, pos, negsuc}
use crypto_exchange_lab.Chain.Text.{Text, to_text, is_empty}

abbrev pub is_between : ℕ → ℕ → ℕ → Bool
is_between low high c = leb low c && leb c high

unfoldable pub hex_value : ℕ → Option ℕ
hex_value c =
    if is_between b'0' b'9' c
    then some (c - b'0')
    else if is_between b'a' b'f' c
    then some (c - 87)
    else if is_between b'A' b'F' c
    then some (c - 55)
    else none

-- `strings.TrimPrefix` of a zero and a letter.
abbrev pub trim_prefix : ℕ → Text → Text
trim_prefix x [] = []
trim_prefix x (c ∷ []) = c ∷ []
trim_prefix x (c ∷ e ∷ s) = if nat_eqb c b'0' && nat_eqb e x then s else c ∷ e ∷ s

unfoldable pub trim : Text → Text
trim h = trim_prefix b'X' (trim_prefix b'x' h)

abbrev pub is_space : ℕ → Bool
is_space c = nat_eqb c b' ' || nat_eqb c 9 || nat_eqb c 11 || nat_eqb c 12 || nat_eqb c 13

unfoldable pub skip_space : Text → Text
skip_space [] = []
skip_space (c ∷ s) = let rest = skip_space s in if is_space c then rest else c ∷ s

-- The number that the hex digits in front of a text go on with.
unfoldable pub read_hex : ℕ → Text → ℕ
unfolding hex_value
read_hex v [] = v
read_hex v (c ∷ s) = elim (hex_value c) [ none ↦ v | some x ↦ read_hex (v * 16 + x) s ]

-- The same for a text of nothing but hex digits.
unfoldable pub all_hex : ℕ → Text → Option ℕ
unfolding hex_value
all_hex v [] = some v
all_hex v (c ∷ s) = elim (hex_value c) [ none ↦ none | some x ↦ all_hex (v * 16 + x) s ]

abbrev pub as_uint64 : ℕ → Option ℕ
as_uint64 n = if ltb n (2 ^ 64) then some n else none

abbrev pub scanned : Text → Option ℕ
scanned [] = none
scanned (c ∷ s) = elim (hex_value c) [ none ↦ none | some x ↦ as_uint64 (read_hex x s) ]

unfoldable pub sscanf_hex : Text → Option ℕ
unfolding read_hex skip_space
sscanf_hex h = scanned (skip_space h)

abbrev pub magnitude : Text → Option ℕ
magnitude [] = none
magnitude (c ∷ s) = all_hex 0 (c ∷ s)

abbrev pub minus : ℕ → ℤ
minus zero = pos 0
minus (suc n) = negsuc n

abbrev pub signed : (ℕ → ℤ) → Option ℕ → Option ℤ
signed sign none = none
signed sign (some n) = some (sign n)

unfoldable pub set_string : Text → Option ℤ
unfolding all_hex
set_string [] = none
set_string (c ∷ s) =
    if nat_eqb c b'-'
    then signed minus (magnitude s)
    else if nat_eqb c b'+'
    then signed pos (magnitude s)
    else signed pos (magnitude (c ∷ s))

-- `IsUint64` and `Uint64`.
abbrev pub big_uint64 : Option ℤ → Option ℕ
big_uint64 none = none
big_uint64 (some (pos n)) = as_uint64 n
big_uint64 (some (negsuc n)) = none

abbrev pub or_big : Text → Option ℕ → Option ℕ
or_big h (some n) = some n
or_big h none = big_uint64 (set_string h)

-- `hexToUint64`.
unfoldable pub hex_to_uint64 : Text → Option ℕ
unfolding trim sscanf_hex set_string
hex_to_uint64 h = if is_empty (trim h) then some 0 else or_big (trim h) (sscanf_hex (trim h))

-- `hexToBigInt`.
unfoldable pub hex_to_big_int : Text → Option ℤ
unfolding trim set_string
hex_to_big_int h = if is_empty (trim h) then some (pos 0) else set_string (trim h)

abbrev pub even_length : Text → Bool
even_length s = nat_eqb (length s % 2) 0

abbrev pub cons_byte : Option ℕ → Option ℕ → Option (List ℕ) → Option (List ℕ)
cons_byte (some x) (some y) (some bytes) = some ((x * 16 + y) ∷ bytes)
cons_byte _ _ _ = none

-- `hex.DecodeString`.
unfoldable pub decode_pairs : Text → Option (List ℕ)
unfolding hex_value
decode_pairs [] = some []
decode_pairs (c ∷ []) = none
decode_pairs (c ∷ e ∷ s) = cons_byte (hex_value c) (hex_value e) (decode_pairs s)

-- `decodeHexBytes`.
unfoldable pub decode_hex_bytes : Text → Option (List ℕ)
unfolding trim decode_pairs
decode_hex_bytes h = decode_pairs (if even_length (trim h) then trim h else b'0' ∷ trim h)

-- `fmt.Sprintf("0x%x", n)`, as the client asks for a block.
abbrev pub hex_param : ℕ → Text
hex_param n = b'0' ∷ b'x' ∷ to_text 16 n
