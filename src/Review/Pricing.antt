-- ===== src/Review/Pricing.antt =====
-- tools/ai_review/pricing_policy.py: the pinned price list and the cost that is reserved before a
-- review request is sent. Raising `PricingPolicyError` is `none`. The proofs are in the modules
-- below.
pub mod Bounds
pub mod Packet
pub mod Examples
use amazon_similar_search.Prelude.{
  ℕ, zero, suc, ◌+◌, ◌-◌, ◌*◌, ◌/◌, min, max, ℤ, pos, Bool, ◌&&◌, ◌||◌, not, Option, none, some,
  Text, codes, eq_text, ltb, leb, ◌==◌, if◌then◌else◌,
}

abbrev pub tokens_per_rate_unit : ℕ
tokens_per_rate_unit = 1_000_000

abbrev pub multiplier_scale : ℕ
multiplier_scale = 1_000_000

abbrev pub max_review_attempts_per_packet : ℕ
max_review_attempts_per_packet = 4

abbrev pub max_review_input_tokens : ℕ
max_review_input_tokens = 260_000

abbrev pub max_review_output_tokens : ℕ
max_review_output_tokens = 12_000

abbrev pub default_packet_reserved_tokens : ℕ
default_packet_reserved_tokens = 544_000

abbrev pub absolute_packet_reserved_tokens : ℕ
absolute_packet_reserved_tokens = 1_088_000

pub record OpenAiPricingPolicy : Type 0 where
  pub schema_version : Text
  pub price_version : Text
  pub currency : Text
  pub model : Text
  pub service_tier : Text
  pub input_rate : ℕ  -- input_microusd_per_million_tokens
  pub cached_input_rate : ℕ  -- cached_input_microusd_per_million_tokens
  pub cache_write_input_rate : ℕ  -- cache_write_input_microusd_per_million_tokens
  pub output_rate : ℕ  -- output_microusd_per_million_tokens
  pub long_context_threshold_input_tokens : ℕ
  pub long_context_input_multiplier_ppm : ℕ
  pub long_context_output_multiplier_ppm : ℕ
  pub sha256 : Text

-- What a caller may hand over where a token count is expected.
pub data Argument : Type 0 where
  int : ℤ → Argument
  bool : Bool → Argument
  other : Argument

-- The bytes that `json.dumps` makes of `EXPECTED_OPENAI_PRICING_POLICY`, a constant.
pub canonical_openai_pricing_policy_bytes : Text
canonical_openai_pricing_policy_bytes =
    codes
      "{\"cache_write_input_microusd_per_million_tokens\":6250000,\"cached_input_microusd_per_million_tokens\":500000,\"currency\":\"USD\",\"input_microusd_per_million_tokens\":5000000,\"long_context_input_multiplier_ppm\":2000000,\"long_context_output_multiplier_ppm\":1500000,\"long_context_threshold_input_tokens\":272000,\"model\":\"gpt-5.6-sol\",\"output_microusd_per_million_tokens\":30000000,\"price_version\":\"2026-08-15\",\"schema_version\":\"1.0\",\"service_tier\":\"default\"}\n"

-- The value of `EXPECTED_OPENAI_PRICING_POLICY`, with the digest of the bytes.
abbrev pub approved : Text → OpenAiPricingPolicy
approved digest = record {
  schema_version = codes "1.0";
  price_version = codes "2026-08-15";
  currency = codes "USD";
  model = codes "gpt-5.6-sol";
  service_tier = codes "default";
  input_rate = 5_000_000;
  cached_input_rate = 500_000;
  cache_write_input_rate = 6_250_000;
  output_rate = 30_000_000;
  long_context_threshold_input_tokens = 272_000;
  long_context_input_multiplier_ppm = 2_000_000;
  long_context_output_multiplier_ppm = 1_500_000;
  sha256 = digest;
}

-- `sha256` is hashlib's.
pub validate_openai_pricing_policy : (Text → Text) → Text → Option OpenAiPricingPolicy
validate_openai_pricing_policy sha256 raw =
    if eq_text raw canonical_openai_pricing_policy_bytes then some (approved (sha256 raw)) else none

unfoldable pub ceil_ratio : ℕ → ℕ → ℕ
ceil_ratio numerator denominator = (numerator + denominator - 1) / denominator

-- The guard on a reserved token count.
unfoldable pub token_count : Argument → ℕ → Option ℕ
token_count (int (pos n)) maximum = if leb n maximum then some n else none
token_count _ maximum = none

-- The two rates of a request: the input's and the output's.
unfoldable pub request_rates : OpenAiPricingPolicy → ℕ → ℕ × ℕ
request_rates policy input_tokens =
    let input_rate =
      max (max policy.input_rate policy.cached_input_rate) policy.cache_write_input_rate in
    if ltb policy.long_context_threshold_input_tokens input_tokens
    then (
      ceil_ratio (input_rate * policy.long_context_input_multiplier_ppm) multiplier_scale,
      ceil_ratio (policy.output_rate * policy.long_context_output_multiplier_ppm) multiplier_scale,
    )
    else (input_rate, policy.output_rate)

unfoldable pub request_cost : OpenAiPricingPolicy → ℕ → ℕ → ℕ
request_cost policy input_tokens output_tokens =
    let (input_rate, output_rate) = request_rates policy input_tokens in
    ceil_ratio (input_tokens * input_rate) tokens_per_rate_unit
    + ceil_ratio (output_tokens * output_rate) tokens_per_rate_unit

infixl 5 ◌>>=◌
abbrev ◌>>=◌ {ℓ κ} : {A : Type ℓ} {B : Type κ} → Option A → (A → Option B) → Option B
none >>= f = none
some a >>= f = f a

unfoldable pub reserve_request_cost_microusd : OpenAiPricingPolicy → Argument → Argument → Option ℕ
unfolding token_count
reserve_request_cost_microusd policy input_tokens output_tokens = do
  i ← token_count input_tokens max_review_input_tokens
  o ← token_count output_tokens max_review_output_tokens
  some (request_cost policy i o)

-- `for _ in range(attempts)`: the input left, and the total.
unfoldable pub packet_loop : OpenAiPricingPolicy → ℕ → ℕ → ℕ → Option (ℕ × ℕ)
packet_loop policy zero remaining_input total = some (remaining_input, total)
packet_loop policy (suc rounds) remaining_input total =
    let request_input = min max_review_input_tokens remaining_input in
    elim (reserve_request_cost_microusd policy (int (pos request_input))
      (int (pos max_review_output_tokens))) [
        | none ↦ none
        | some cost ↦ packet_loop policy rounds (remaining_input - request_input) (total + cost)
      ]

-- `if remaining_input: raise`
unfoldable pub spent_total : ℕ × ℕ → Option ℕ
spent_total (remaining_input, total) = if remaining_input == 0 then some total else none

unfoldable pub maximum_packet_cost_microusd : OpenAiPricingPolicy → Argument → ℕ → Option ℕ
maximum_packet_cost_microusd policy (int (pos reserved_tokens)) attempts =
    if not (leb (attempts * max_review_output_tokens) reserved_tokens)
      || ltb (attempts * (max_review_input_tokens + max_review_output_tokens)) reserved_tokens
    then none
    else do
      left ← packet_loop policy attempts (reserved_tokens - attempts * max_review_output_tokens) 0
      spent_total left
maximum_packet_cost_microusd policy _ attempts = none
