-- ===== src/Chain/Topics.antt =====
-- The topics that ParseLog knows.
use crypto_exchange_lab.Prelude.{
  ◌≡◌, ◌≢◌, sym, subst, ◌∙◌, false, List, ◌∷◌, Option, some, arith, Bool-cases, inl, inr, length,
  ◌⊎◌,
}
use crypto_exchange_lab.Errors.{Result, ok, err}
use crypto_exchange_lab.Chain.Text.{Text, text_eqb, lower, text_eqb-length, length-lower}
use crypto_exchange_lab.Chain.Events.{
  EventType, Log, Payload, ParsedEvent, topic_swap, topic_mint, topic_burn, topic_transfer,
  with_payload, decode_swap, decode_mint_burn, parse_topic, parse_topics, parse_log,
}

other_length : (t u : Text) → length t ≡ 66 → length u ≢ 66 → text_eqb (lower t) (lower u) ≡ false
other_length t u full other = elim (Bool-cases (text_eqb (lower t) (lower u))) [
  | inl e ↦ absurd (
      other (
        sym (length-lower u) ∙ sym (text_eqb-length (lower t) (lower u) e) ∙ length-lower t ∙ full))
  | inr e ↦ e
]

with_payload_type :
    (lg : Log) (k : EventType) (p : Result (Option Payload)) (ev : ParsedEvent)
    → with_payload lg k p ≡ ok (some ev)
    → ev.event_type ≡ k
with_payload_type lg k (err e) ev h = absurd cc
with_payload_type lg k (ok p) ev h = ground arith

parse_topic_type :
    (lg : Log) (t : Text) (ev : ParsedEvent)
    → length t ≡ 66
    → parse_topic lg (lower t) ≡ ok (some ev)
    → (ev.event_type ≡ EventType.swap) ⊎ (ev.event_type ≡ EventType.mint)
unfolding parse_topic
parse_topic_type lg t ev full h = elim (Bool-cases (text_eqb (lower t) (lower topic_swap))) [
  | inl e ↦ inl (with_payload_type lg EventType.swap (decode_swap lg) ev (rw (e, parse_topic) at h))
  | inr e ↦ elim (Bool-cases (text_eqb (lower t) (lower topic_mint))) [
    | inl f ↦ inr (
        with_payload_type lg EventType.mint (decode_mint_burn "mint" lg) ev
          (rw (e, f, parse_topic) at h))
    | inr f ↦
        let no_burn = other_length t topic_burn full (λ k. absurd (omega arith)) in
        let no_transfer = other_length t topic_transfer full (λ k. absurd (omega arith)) in
        absurd (ground arith)
  ]
]

-- A log whose first topic has the 66 characters of a topic (0x and 64 digits) is never decoded as a
-- burn or a transfer: the constants for those have 65 and 63.
pub parse_log_type :
    (lg : Log) (t : Text) (rest : List Text) (ev : ParsedEvent)
    → lg.topics ≡ t ∷ rest
    → length t ≡ 66
    → parse_log lg ≡ ok (some ev)
    → (ev.event_type ≡ EventType.swap) ⊎ (ev.event_type ≡ EventType.mint)
unfolding parse_log
parse_log_type lg t rest ev topics full h =
    parse_topic_type lg t ev full (subst (λ ts. parse_topics lg ts ≡ ok (some ev)) topics h)
