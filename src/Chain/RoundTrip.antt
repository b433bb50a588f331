-- ===== src/Chain/RoundTrip.antt =====
-- A number that the client prints for a node is read back.
use crypto_exchange_lab.Prelude.{
  ℕ, zero, suc, ◌+◌, ◌*◌, ◌/◌, ◌%◌, ◌^◌, ◌<◌, ◌≤◌, ◌≡◌, ◌≢◌, refl, sym, ap, ◌∙◌, [], ◌∷◌, some, ltb,
  arith, All, Bool-cases, inl, inr,
}
use crypto_exchange_lab.Chain.Text.{Text, print, digit_byte, to_text}
use crypto_exchange_lab.Chain.Hex.{
  hex_value, trim_prefix, trim, skip_space, read_hex, scanned, sscanf_hex, hex_to_uint64, hex_param,
}

hex_value-digit_byte : (n : ℕ) → n < 16 → hex_value (digit_byte n) ≡ some n
unfolding hex_value
hex_value-digit_byte n h = ground arith

-- A digit is neither white space nor the letter of a prefix.
digit_byte-plain :
    (n : ℕ) → n < 16 → (digit_byte n ≢ b' ') × (b'0' ≤ digit_byte n) × (digit_byte n < b'x')
digit_byte-plain n h = ground arith

read_digit :
    (n : ℕ) (v : ℕ) (s : Text) → n < 16 → read_hex v (digit_byte n ∷ s) ≡ read_hex (v * 16 + n) s
unfolding read_hex
read_digit n v s h = rw (hex_value-digit_byte n h, read_hex) refl

read_first : (n : ℕ) (s : Text) → n < 16 → read_hex 0 (digit_byte n ∷ s) ≡ read_hex n s
read_first n s h =
    let same : 0 * 16 + n ≡ n = omega arith in read_digit n 0 s h ∙ ap (λ v. read_hex v s) same

read_hex-print :
    (rounds n : ℕ) (out : Text) → n < rounds → read_hex 0 (print 16 rounds n out) ≡ read_hex n out
unfolding print
read_hex-print zero n out h = absurd (omega arith)
read_hex-print (suc rounds) n out h = elim (Bool-cases (ltb n 16)) [
  | inl e ↦ rw (e, print) (read_first n out (ground arith))
  | inr e ↦
      let whole : n / 16 * 16 + n % 16 ≡ n = omega arith in
      rw
        (
          e,
          print,
          read_hex-print rounds (n / 16) (digit_byte (n % 16) ∷ out) (ground arith),
          read_digit (n % 16) (n / 16) out (omega arith),
          whole,
        )
        refl
]

-- What is printed begins with a digit.
print_first :
    (rounds n : ℕ) (out : Text)
    → n < rounds
    → (x : ℕ) × (s : Text) × (print 16 rounds n out ≡ digit_byte x ∷ s) × (x < 16)
unfolding print
print_first zero n out h = absurd (omega arith)
print_first (suc rounds) n out h = elim (Bool-cases (ltb n 16)) [
  | inl e ↦ (n, out, rw (e, print) refl, ground arith)
  | inr e ↦
      let (x, s, q, b) = print_first rounds (n / 16) (digit_byte (n % 16) ∷ out) (ground arith) in
      (x, s, rw (e, print) q, b)
]

-- Nothing is trimmed off a text without the prefix's letter, which no digit is.
trim_prefix-All : (x : ℕ) (t : Text) → All (λ c. c ≢ x) t → trim_prefix x t ≡ t
trim_prefix-All x [] h = refl
trim_prefix-All x (c ∷ []) h = refl
trim_prefix-All x (c ∷ e ∷ s) (h, (k, rest)) = ground (arith, k)

print-All :
    (rounds n : ℕ) (out : Text)
    → n < rounds
    → All (λ c. c ≢ b'X') out
    → All (λ c. c ≢ b'X') (print 16 rounds n out)
unfolding print
print-All zero n out h k = absurd (omega arith)
print-All (suc rounds) n out h k = elim (Bool-cases (ltb n 16)) [
  | inl e ↦ rw (e, print) (not_x n (ground arith), k)
  | inr e ↦
      rw (e, print) (print-All rounds (n / 16) _ (ground arith) (not_x (n % 16) (omega arith), k))
]
  where
    not_x : (m : ℕ) → m < 16 → digit_byte m ≢ b'X'
    not_x m b = ground arith

skip_space-digit : (x : ℕ) (s : Text) → x < 16 → skip_space (digit_byte x ∷ s) ≡ digit_byte x ∷ s
unfolding skip_space
skip_space-digit x s h = ground arith

scanned_digits :
    (n x : ℕ) (s : Text)
    → x < 16
    → n < 2 ^ 64
    → read_hex 0 (digit_byte x ∷ s) ≡ n
    → sscanf_hex (digit_byte x ∷ s) ≡ some n
unfolding sscanf_hex
scanned_digits n x s h fits e =
    let value : read_hex x s ≡ n = sym (read_first x s h) ∙ e in
    rw (skip_space-digit x s h, scanned, hex_value-digit_byte x h, value) (ground arith)

-- The text of digits behind 0x is read as a number.
hex_to_uint64-digits :
    (n x : ℕ) (s t : Text)
    → t ≡ digit_byte x ∷ s
    → x < 16
    → n < 2 ^ 64
    → All (λ c. c ≢ b'X') t
    → read_hex 0 t ≡ n
    → hex_to_uint64 (b'0' ∷ b'x' ∷ t) ≡ some n
unfolding hex_to_uint64 trim
hex_to_uint64-digits n x s t q b h plain value =
    rw (trim_prefix-All b'X' t plain, q, scanned_digits n x s b h (rw q at value)) refl

-- A uint64 that the client prints for a node (0x and lower-case digits) is read back by hexToUint64.
pub hex_to_uint64-hex_param : (n : ℕ) → n < 2 ^ 64 → hex_to_uint64 (hex_param n) ≡ some n
unfolding read_hex
hex_to_uint64-hex_param n h =
    let (x, s, q, b) = print_first (suc n) n [] (omega arith) in
    hex_to_uint64-digits n x s (to_text 16 n) q b h (print-All (suc n) n [] (omega arith) tt)
      (read_hex-print (suc n) n [] (omega arith))
