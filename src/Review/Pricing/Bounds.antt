-- ===== src/Review/Pricing/Bounds.antt =====
-- The reserved cost of one request against every price that the request can be billed at.
use native.Mathlib.Nat.{mul-le-mul_left, mul-le-mul_right, le_refl}
use amazon_similar_search.Prelude.{
  ℕ, ◌+◌, ◌*◌, ◌≤◌, ◌<◌, max, ◌≡◌, some, arith, ltb, pos, if◌then◌else◌, Bool-cases, inl, inr,
}
use amazon_similar_search.Review.Pricing.{
  OpenAiPricingPolicy, int, multiplier_scale, ceil_ratio, request_rates, request_cost,
  reserve_request_cost_microusd,
}

-- `ceil_ratio n d` is the least q with n ≤ d * q.
pub ceil_ratio-le_iff :
    (n d q : ℕ) → 0 < d → (ceil_ratio n d ≤ q → n ≤ d * q) × (n ≤ d * q → ceil_ratio n d ≤ q)
unfolding ceil_ratio
ceil_ratio-le_iff n d q h = (λ p. grind arith, λ p. grind arith)

pub ceil_ratio_million : (n : ℕ) → n ≤ 1_000_000 * ceil_ratio n 1_000_000
unfolding ceil_ratio
ceil_ratio_million n = omega arith

pub ceil_ratio_million_least : (n q : ℕ) → n ≤ 1_000_000 * q → ceil_ratio n 1_000_000 ≤ q
unfolding ceil_ratio
ceil_ratio_million_least n q h = omega arith

-- What the provider bills, in millionths of a millionth of a micro-dollar: each input token is
-- fresh, cached or written to the cache, and the long-context multipliers apply past the threshold.
abbrev pub input_price : OpenAiPricingPolicy → ℕ → ℕ → ℕ → ℕ
input_price policy fresh cached written =
    fresh * policy.input_rate
    + cached * policy.cached_input_rate
    + written * policy.cache_write_input_rate

abbrev pub billed : OpenAiPricingPolicy → ℕ → ℕ → ℕ → ℕ → ℕ
billed policy fresh cached written output =
    if ltb policy.long_context_threshold_input_tokens (fresh + cached + written)
    then input_price policy fresh cached written * policy.long_context_input_multiplier_ppm
      + output * policy.output_rate * policy.long_context_output_multiplier_ppm
    else (input_price policy fresh cached written + output * policy.output_rate) * multiplier_scale

products_le : (a b c r s t m : ℕ) → r ≤ m → s ≤ m → t ≤ m → a * r + b * s + c * t ≤ (a + b + c) * m
products_le a b c r s t m hr hs ht =
    omega (arith, mul-le-mul_left a hr, mul-le-mul_left b hs, mul-le-mul_left c ht)

highest : OpenAiPricingPolicy → ℕ
highest p = max (max p.input_rate p.cached_input_rate) p.cache_write_input_rate

input_price_le :
    (p : OpenAiPricingPolicy) (a b c : ℕ) → input_price p a b c ≤ (a + b + c) * highest p
unfolding highest
input_price_le p a b c = products_le a b c _ _ _ _ (omega arith) (omega arith) (omega arith)

scaled_covers :
    (n r m x : ℕ)
    → x ≤ n * r
    → x * m ≤ 1_000_000 * (1_000_000 * ceil_ratio (n * ceil_ratio (r * m) 1_000_000) 1_000_000)
scaled_covers n r m x h = omega (
  arith,
  mul-le-mul_right m h,
  mul-le-mul_left n (ceil_ratio_million (r * m)),
  ceil_ratio_million (n * ceil_ratio (r * m) 1_000_000),
)

plain_covers :
    (n r x : ℕ) → x ≤ n * r → x * 1_000_000 ≤ 1_000_000 * (1_000_000 * ceil_ratio (n * r) 1_000_000)
plain_covers n r x h = omega (arith, ceil_ratio_million (n * r))

billed-le-request_cost :
    (p : OpenAiPricingPolicy) (a b c o : ℕ)
    → billed p a b c o ≤ 1_000_000 * (1_000_000 * request_cost p (a + b + c) o)
unfolding request_cost request_rates highest
billed-le-request_cost p a b c o =
    elim (Bool-cases (ltb p.long_context_threshold_input_tokens (a + b + c))) [
      | inl long ↦ rw long (
          omega (
            arith,
            scaled_covers (a + b + c) (highest p) p.long_context_input_multiplier_ppm _
                (input_price_le p a b c),
            scaled_covers o p.output_rate p.long_context_output_multiplier_ppm _ (le_refl _),
          ))
      | inr short ↦ rw short (
          omega (
            arith,
            plain_covers (a + b + c) (highest p) _ (input_price_le p a b c),
            plain_covers o p.output_rate _ (le_refl _),
          ))
    ]

-- However the provider splits the input into fresh, cached and cache-writing tokens, what it bills
-- for a request is at most the cost that was reserved for it, above the long-context threshold too.
pub billed-le-reserve :
    (p : OpenAiPricingPolicy) (fresh cached written output : ℕ) {cost : ℕ}
    → reserve_request_cost_microusd p (int (pos (fresh + cached + written))) (int (pos output))
      ≡ some cost
    → billed p fresh cached written output ≤ 1_000_000 * (1_000_000 * cost)
unfolding reserve_request_cost_microusd
billed-le-reserve p fresh cached written output h =
    ground (arith, billed-le-request_cost p fresh cached written output)
