-- ===== src/Matching/Withdraw.antt =====
-- `Cancel` on the whole book: what it takes, when it takes nothing, and the invariant.
use crypto_exchange_lab.Prelude.{
  ◌≡◌, refl, String, Option, none, some, All, All-map, ◌⊎◌, inl, inr, Option-cases,
}
use crypto_exchange_lab.Decimal.{Decimal, ◌≺◌}
use crypto_exchange_lab.Matching.Book.{Order, Book, bid_before, ask_before, remove_id, cancel}
use crypto_exchange_lab.Matching.Termination.{IsLive}
use crypto_exchange_lab.Matching.Invariant.{IsValid}
use crypto_exchange_lab.Matching.Cancel.{
  IsOther, IsTaken, remove_id-IsTaken, remove_id-none, remove_id-All, remove_id-IsSorted,
}

module _ ⦃d : Decimal⦄ where
  -- The order came from the bids, or from the asks when no bid has the id.
  abbrev pub Took : String → Order → Book → Book → Type 0
  Took i o b c =
      (IsTaken i o b.bids c.bids × (c.asks ≡ b.asks))
      ⊎ (All (IsOther i) b.bids × IsTaken i o b.asks c.asks × (c.bids ≡ b.bids))

  -- What a call of `Cancel` did: it took the first order with the id and left the trades alone, or
  -- no order has the id and the book is as before.
  abbrev pub Outcome : String → Book → Option Order × Book → Type 0
  Outcome i b (some o, c) = Took i o b c × (c.trades ≡ b.trades)
  Outcome i b (none, c) = (c ≡ b) × All (IsOther i) b.bids × All (IsOther i) b.asks

  -- `Cancel` takes out the first bid with the id, or the first ask when no bid has it, and nothing
  -- else; when no order has the id it returns nil and leaves the book as it was.
  pub cancel-Outcome : (i : String) (b : Book) → Outcome i b (cancel i b)
  unfolding cancel
  cancel-Outcome i b = elim (Option-cases (remove_id i b.bids)) [
    | inr ((o, rest), e) ↦ rw (e, cancel) (inl (remove_id-IsTaken i b.bids o rest e, refl), refl)
    | inl e ↦ elim (Option-cases (remove_id i b.asks)) [
      | inr ((o, rest), k) ↦
          rw (e, k, cancel)
            (inr (remove_id-none i b.bids e, remove_id-IsTaken i b.asks o rest k, refl), refl)
      | inl k ↦ rw (e, k, cancel) (refl, remove_id-none i b.bids e, remove_id-none i b.asks k)
    ]
  ]

  -- A valid book is valid after `Cancel`, whatever the id.
  pub cancel-IsValid : (i : String) (b : Book) → IsValid b → IsValid (cancel i b).1
  unfolding cancel
  cancel-IsValid i b v = elim (Option-cases (remove_id i b.bids)) [
    | inr ((o, rest), e) ↦
        rw (e, cancel)
          (record {
            live_bids = remove_id-All IsLive i b.bids o rest v.live_bids e;
            live_asks = v.live_asks;
            sorted_bids = remove_id-IsSorted bid_before i b.bids o rest v.sorted_bids e;
            sorted_asks = v.sorted_asks;
            uncrossed =
                remove_id-All (λ bid. All (λ ask. bid.price ≺ ask.price) b.asks) i b.bids o rest
                  v.uncrossed e;
          })
    | inl e ↦ elim (Option-cases (remove_id i b.asks)) [
      | inr ((o, rest), k) ↦
          rw (e, k, cancel)
            (record {
              live_bids = v.live_bids;
              live_asks = remove_id-All IsLive i b.asks o rest v.live_asks k;
              sorted_bids = v.sorted_bids;
              sorted_asks = remove_id-IsSorted ask_before i b.asks o rest v.sorted_asks k;
              uncrossed =
                  All-map
                    (λ bid h. remove_id-All (λ ask. bid.price ≺ ask.price) i b.asks o rest h k)
                    b.bids v.uncrossed;
            })
      | inl k ↦ rw (e, k, cancel) v
    ]
  ]
