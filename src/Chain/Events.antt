-- ===== src/Chain/Events.antt =====
-- packages/chainrpc/events.go and the log of types.go. A payload is the map that is marshalled. A panic of
-- Go is an error here: it leaves the writes made before it, as an error does.
use crypto_exchange_lab.Prelude.{
  ℕ, zero, suc, ◌+◌, ◌-◌, ◌*◌, String, List, [], ◌∷◌, ◌++◌, Option, none, some, if◌then◌else◌, ltb,
  leb, length, take, drop,
}
use crypto_exchange_lab.Errors.{Result, ok, ◌>>=◌, broken}
use crypto_exchange_lab.Chain.Text.{Text, codes, text_eqb, lower, to_text}
use crypto_exchange_lab.Chain.Hex.{hex_to_uint64, decode_hex_bytes}

abbrev pub topic_swap : Text
topic_swap = codes "0xd78ad95fa46c994b655be0babfbacf937b37edd20e8186735c10e87b6dab95f0"

abbrev pub topic_mint : Text
topic_mint = codes "0x4c209b5fc8ad507833f3d9d4e9f268f54e4f284623fe92f254bd23f3106daf13"

abbrev pub topic_burn : Text
topic_burn = codes "0xdccd412f0b943f337cfca98bacdbc111211dde3237e59ce95b53ad19113de21"

abbrev pub topic_transfer : Text
topic_transfer = codes "0xddf252ad1be2c89b69c2b068fc378daa952ba7f163c94a06c563440acf7ed"

-- `Log`.
pub record Log : Type 0 where
  pub address : Text
  pub topics : List Text
  pub data_hex : Text
  pub block_number : Text
  pub tx_hash : Text
  pub log_index : Text

pub data EventType : Type 0 where
  swap mint burn transfer : EventType

abbrev pub Payload : Type 0
Payload = List (String × Text)

-- `ParsedEvent`, whose payload may be missing.
pub record ParsedEvent : Type 0 where
  pub event_type : EventType
  pub contract_address : Text
  pub tx_hash : Text
  pub log_index : ℕ
  pub block_number : ℕ
  pub payload : Option Payload

-- `SetBytes`.
unfoldable pub big_endian : ℕ → List ℕ → ℕ
big_endian v [] = v
big_endian v (b ∷ bs) = big_endian (v * 256 + b) bs

-- `wordToDecimal`.
unfoldable pub word_to_decimal : List ℕ → Text
unfolding big_endian
word_to_decimal word = to_text 10 (big_endian 0 word)

abbrev pub word : ℕ → List ℕ → List ℕ
word k bytes = take 32 (drop (32 * k) bytes)

abbrev pub zeros : ℕ → List ℕ
zeros zero = []
zeros (suc n) = 0 ∷ zeros n

-- `decodeUint256Data`: more than 32 bytes are a slice out of range.
abbrev pub decimal_of : Option (List ℕ) → Result Text
decimal_of none = ok (codes "0")
decimal_of (some []) = ok (codes "0")
decimal_of (some (b ∷ bs)) =
    if ltb 32 (length (b ∷ bs))
    then broken
    else ok (word_to_decimal (zeros (32 - length (b ∷ bs)) ++ b ∷ bs))

unfoldable pub decode_uint256_data : Text → Result Text
unfolding decode_hex_bytes word_to_decimal
decode_uint256_data h = decimal_of (decode_hex_bytes h)

-- `"0x" + topic[26:]`.
abbrev pub topic_address : Text → Result Text
topic_address t = if ltb (length t) 26 then broken else ok (b'0' ∷ b'x' ∷ drop 26 t)

abbrev pub entry : String → Text → Result Payload
entry name t = do a ← topic_address t; ok ((name, a) ∷ [])

-- The address in the second topic, and that in the third, where they are.
unfoldable pub sender_of : List Text → Result Payload
sender_of (first ∷ t ∷ rest) = entry "sender" t
sender_of _ = ok []

unfoldable pub to_of : List Text → Result Payload
to_of (first ∷ second ∷ t ∷ rest) = entry "to" t
to_of _ = ok []

abbrev pub bytes_or_error : Option (List ℕ) → Result (List ℕ)
bytes_or_error none = broken
bytes_or_error (some bytes) = ok bytes

abbrev pub swap_amounts : List ℕ → Payload
swap_amounts bytes =
    ("amount0_in", word_to_decimal (word 0 bytes))
    ∷ ("amount1_in", word_to_decimal (word 1 bytes))
    ∷ ("amount0_out", word_to_decimal (word 2 bytes))
    ∷ ("amount1_out", word_to_decimal (word 3 bytes))
    ∷ []

abbrev pub swap_payload : List ℕ → List Text → Result (Option Payload)
swap_payload bytes topics = do
  sender ← sender_of topics
  to ← to_of topics
  ok (some (swap_amounts bytes ++ sender ++ to))

-- `decodeSwap`.
unfoldable pub decode_swap : Log → Result (Option Payload)
unfolding decode_hex_bytes sender_of to_of word_to_decimal
decode_swap lg = do
  bytes ← bytes_or_error (decode_hex_bytes lg.data_hex)
  if ltb (length bytes) 128 then ok none else swap_payload bytes lg.topics

abbrev pub amounts : List ℕ → Payload
amounts bytes =
    if leb 64 (length bytes)
    then ("amount0", word_to_decimal (word 0 bytes))
      ∷ ("amount1", word_to_decimal (word 1 bytes))
      ∷ []
    else []

-- `decodeMintBurn`.
unfoldable pub decode_mint_burn : String → Log → Result (Option Payload)
unfolding decode_hex_bytes sender_of word_to_decimal
decode_mint_burn kind lg = do
  bytes ← bytes_or_error (decode_hex_bytes lg.data_hex)
  sender ← sender_of lg.topics
  ok (some (("kind", codes kind) ∷ amounts bytes ++ sender))

abbrev pub number_or_zero : Option ℕ → ℕ
number_or_zero none = 0
number_or_zero (some n) = n

abbrev pub event : Log → EventType → Option Payload → ParsedEvent
event lg event_type payload = record {
  event_type = event_type;
  contract_address = lower lg.address;
  tx_hash = lg.tx_hash;
  log_index = number_or_zero (hex_to_uint64 lg.log_index);
  block_number = number_or_zero (hex_to_uint64 lg.block_number);
  payload = payload;
}

abbrev pub with_payload : Log → EventType → Result (Option Payload) → Result (Option ParsedEvent)
with_payload lg event_type payload = do p ← payload; ok (some (event lg event_type p))

-- A transfer of fewer than three topics is no event.
abbrev pub transfer_payload : Text → Text → Text → Result (Option Payload)
transfer_payload from to value = do
  f ← entry "from" from
  t ← entry "to" to
  v ← decode_uint256_data value
  ok (some (f ++ t ++ ("value", v) ∷ []))

unfoldable pub parse_transfer : Log → List Text → Result (Option ParsedEvent)
unfolding decode_uint256_data
parse_transfer lg (first ∷ from ∷ to ∷ rest) =
    with_payload lg EventType.transfer (transfer_payload from to lg.data_hex)
parse_transfer lg _ = ok none

-- The `switch` of `ParseLog` on the first topic.
unfoldable pub parse_topic : Log → Text → Result (Option ParsedEvent)
unfolding decode_swap decode_mint_burn parse_transfer hex_to_uint64
parse_topic lg t0 =
    if text_eqb t0 (lower topic_swap)
    then with_payload lg EventType.swap (decode_swap lg)
    else if text_eqb t0 (lower topic_mint)
    then with_payload lg EventType.mint (decode_mint_burn "mint" lg)
    else if text_eqb t0 (lower topic_burn)
    then with_payload lg EventType.burn (decode_mint_burn "burn" lg)
    else if text_eqb t0 (lower topic_transfer)
    then parse_transfer lg lg.topics
    else ok none

abbrev pub parse_topics : Log → List Text → Result (Option ParsedEvent)
parse_topics lg [] = ok none
parse_topics lg (t ∷ rest) = parse_topic lg (lower t)

-- `ParseLog`.
unfoldable pub parse_log : Log → Result (Option ParsedEvent)
unfolding parse_topic
parse_log lg = parse_topics lg lg.topics
