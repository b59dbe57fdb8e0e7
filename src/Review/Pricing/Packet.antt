-- ===== src/Review/Pricing/Packet.antt =====
-- The packet-wide cost limit: when it is defined, and what it covers.
use mathlib.Core.Option
use amazon_similar_search.Prelude.{
  ℕ, zero, suc, ◌+◌, ◌-◌, ◌*◌, ◌≤◌, min, ◌≡◌, ◌↔◌, Text, Option, none, some, List, [], ◌∷◌, length,
  arith, pos, Option-cases, inl, inr,
}
use amazon_similar_search.Review.Pricing.{
  OpenAiPricingPolicy, int, approved, max_review_input_tokens, max_review_output_tokens, ceil_ratio,
  request_rates, request_cost, reserve_request_cost_microusd, packet_loop, spent_total,
  maximum_packet_cost_microusd,
}

-- The reserved amount lies between the attempts' outputs and their outputs and inputs.
abbrev pub CanFund : ℕ → ℕ → Type 0
CanFund reserved attempts = (attempts * 12_000 ≤ reserved) × (reserved ≤ attempts * 272_000)

loop_step :
    (p : OpenAiPricingPolicy) (i : ℕ)
    → reserve_request_cost_microusd p
        (int (pos (min max_review_input_tokens i)))
        (int (pos max_review_output_tokens))
      ≡ some (request_cost p (min max_review_input_tokens i) 12_000)
unfolding reserve_request_cost_microusd
loop_step p i = ground arith

loop_left :
    (p : OpenAiPricingPolicy) (rounds remaining total : ℕ)
    → (cost : ℕ) × (packet_loop p rounds remaining total
        ≡ some (remaining - rounds * 260_000, cost))
unfolding packet_loop
loop_left p zero remaining total = (total, ground arith)
loop_left p (suc rounds) remaining total =
    let (cost, e) =
      loop_left p rounds (remaining - min max_review_input_tokens remaining)
        (total + request_cost p (min max_review_input_tokens remaining) 12_000) in
    (cost, rw (packet_loop, loop_step p remaining) (ground (arith, e)))

-- The packet's cost is computed exactly for the reservations that can fund the attempts; the raise
-- at the end of the loop is never reached.
pub maximum_packet_cost_defined :
    (p : OpenAiPricingPolicy) (reserved attempts : ℕ)
    → ((cost : ℕ) × (maximum_packet_cost_microusd p (int (pos reserved)) attempts ≡ some cost))
      ↔ CanFund reserved attempts
unfolding maximum_packet_cost_microusd spent_total
maximum_packet_cost_defined p reserved attempts = (
  λ (cost, h). (ground arith, ground arith),
  λ h.
      let (cost, e) = loop_left p attempts (reserved - attempts * 12_000) 0 in
      (cost, ground (arith, e)),
)

-- Reserving the cost of each request of a packet, and summing up.
abbrev pub reserve_all : OpenAiPricingPolicy → List (ℕ × ℕ) → Option ℕ
reserve_all p [] = some 0
reserve_all p ((i, o) ∷ rest) = elim (reserve_request_cost_microusd p (int (pos i)) (int (pos o))) [
  | none ↦ none
  | some cost ↦ Option.map (λ total. cost + total) (reserve_all p rest)
]

abbrev pub tokens : List (ℕ × ℕ) → ℕ
tokens [] = 0
tokens ((i, o) ∷ rest) = i + o + tokens rest

abbrev inputs : List (ℕ × ℕ) → ℕ
inputs [] = 0
inputs ((i, o) ∷ rest) = i + inputs rest

abbrev outputs : List (ℕ × ℕ) → ℕ
outputs [] = 0
outputs ((i, o) ∷ rest) = o + outputs rest

tokens-split : (rs : List (ℕ × ℕ)) → tokens rs ≡ inputs rs + outputs rs
tokens-split [] = omega arith
tokens-split ((i, o) ∷ rest) = omega (arith, tokens-split rest)

module _ (digest : Text) where
  request_upper :
      (i o cost : ℕ)
      → reserve_request_cost_microusd (approved digest) (int (pos i)) (int (pos o)) ≡ some cost
      → (4 * cost ≤ 25 * i + 120 * o + 3) × (o ≤ 12_000)
  unfolding reserve_request_cost_microusd request_cost request_rates ceil_ratio
  request_upper i o cost h = (ground arith, ground arith)

  request_lower :
      (i : ℕ) → i ≤ 260_000 → 25 * i + 1_440_000 ≤ 4 * request_cost (approved digest) i 12_000
  unfolding request_cost request_rates ceil_ratio
  request_lower i h = ground arith

  packet_upper :
      (rs : List (ℕ × ℕ)) {cost : ℕ}
      → reserve_all (approved digest) rs ≡ some cost
      → (4 * cost ≤ 25 * inputs rs + 120 * outputs rs + 3 * length rs)
        × (outputs rs ≤ 12_000 * length rs)
  packet_upper [] h = ground arith
  packet_upper ((i, o) ∷ rest) h =
      elim (Option-cases
        (reserve_request_cost_microusd (approved digest) (int (pos i)) (int (pos o)))) [
          | inl e ↦ ground arith
          | inr (c, e) ↦ elim (Option-cases (reserve_all (approved digest) rest)) [
            | inl f ↦ ground arith
            | inr (d, f) ↦ ground (arith, request_upper i o c e, packet_upper rest f)
          ]
        ]

  packet_lower :
      (rounds remaining total : ℕ) {cost : ℕ}
      → packet_loop (approved digest) rounds remaining total ≡ some (0, cost)
      → 4 * total + 25 * remaining + 1_440_000 * rounds ≤ 4 * cost
  unfolding packet_loop
  packet_lower zero remaining total h = ground arith
  packet_lower (suc rounds) remaining total h =
      let m = min max_review_input_tokens remaining in
      omega (
        arith,
        request_lower m (omega arith),
        packet_lower rounds (remaining - m) (total + request_cost (approved digest) m 12_000)
            (rw (packet_loop, loop_step (approved digest) remaining) at h),
      )

  maximum_needs_loop :
      (requests : List (ℕ × ℕ)) (reserved maximum : ℕ)
      → maximum_packet_cost_microusd (approved digest) (int (pos reserved)) (length requests)
        ≡ some maximum
      → (length requests * 12_000 ≤ reserved)
        × (packet_loop (approved digest) (length requests) (reserved - length requests * 12_000) 0
            ≡ some (0, maximum))
  unfolding maximum_packet_cost_microusd spent_total
  maximum_needs_loop requests reserved maximum h =
      let (cost, e) =
        loop_left (approved digest) (length requests) (reserved - length requests * 12_000) 0 in
      (ground arith, ground (arith, e))

  -- Whatever requests the attempts of a packet send within its token reservation, their reserved
  -- costs add up to at most the packet's maximum and three quarters of a micro-dollar per attempt.
  pub reserve_all-le-maximum :
      (requests : List (ℕ × ℕ)) (reserved maximum cost : ℕ)
      → maximum_packet_cost_microusd (approved digest) (int (pos reserved)) (length requests)
        ≡ some maximum
      → tokens requests ≤ reserved
      → reserve_all (approved digest) requests ≡ some cost
      → 4 * cost ≤ 4 * maximum + 3 * length requests
  reserve_all-le-maximum requests reserved maximum cost hm ht hc =
      let (left, all_spent) = maximum_needs_loop requests reserved maximum hm in
      omega (
        arith,
        left,
        packet_lower (length requests) (reserved - length requests * 12_000) 0 all_spent,
        packet_upper requests hc,
        tokens-split requests,
      )
