-- ===== src/Review/Pricing/Examples.antt =====
-- Tests of tools/ai_review/pricing_policy.py, and the theorems about it at concrete requests.
use amazon_similar_search.Prelude.{
  ◌+◌, ◌*◌, ◌≤◌, ℕ, ◌≡◌, ◌↔◌, refl, List, [], ◌∷◌, some, arith, pos,
}
use amazon_similar_search.Review.Pricing.{
  OpenAiPricingPolicy, int, approved, ceil_ratio, token_count, request_rates, request_cost,
  packet_loop, spent_total, reserve_request_cost_microusd, maximum_packet_cost_microusd,
}
use amazon_similar_search.Review.Pricing.Bounds.{billed, billed-le-reserve}
use amazon_similar_search.Review.Pricing.Packet.{
  CanFund, maximum_packet_cost_defined, reserve_all, reserve_all-le-maximum,
}

abbrev policy : OpenAiPricingPolicy
policy = approved []

reserve_run : reserve_request_cost_microusd policy (int (pos 1_000)) (int (pos 10)) ≡ some 6_550
unfolding reserve_request_cost_microusd token_count request_cost request_rates ceil_ratio
reserve_run = refl

billed-le-reserve_example : billed policy 500 400 100 10 ≤ 1_000_000 * (1_000_000 * 6_550)
billed-le-reserve_example = billed-le-reserve policy 500 400 100 10 reserve_run

-- The limit of a packet with the default reservation.
default_limit : maximum_packet_cost_microusd policy (int (pos 544_000)) 4 ≡ some 4_540_000
unfolding maximum_packet_cost_microusd packet_loop spent_total reserve_request_cost_microusd
    token_count request_cost request_rates ceil_ratio
default_limit = refl

maximum_packet_cost_defined_example :
    ((cost : ℕ) × (maximum_packet_cost_microusd policy (int (pos 544_000)) 4 ≡ some cost))
    ↔ CanFund 544_000 4
maximum_packet_cost_defined_example = maximum_packet_cost_defined policy 544_000 4

-- Requests of the same total size whose costs round up to two micro-dollars more than the limit.
abbrev uneven : List (ℕ × ℕ)
uneven = (259_999, 12_000) ∷ (235_999, 12_000) ∷ (1, 12_000) ∷ (1, 12_000) ∷ []

uneven_cost : reserve_all policy uneven ≡ some 4_540_002
unfolding reserve_request_cost_microusd token_count request_cost request_rates ceil_ratio
uneven_cost = refl

reserve_all-le-maximum_example : 4 * 4_540_002 ≤ 4 * 4_540_000 + 3 * 4
reserve_all-le-maximum_example =
    reserve_all-le-maximum [] uneven 544_000 4_540_000 4_540_002 default_limit (omega arith)
      uneven_cost
