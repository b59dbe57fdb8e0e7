-- ===== src/Scoring/Examples/Prices.antt =====
-- Prices, and the theorems about them.
use amazon_similar_search.Prelude.{◌≡◌, inr, refl, arith, pos, some, codes, []}
use amazon_similar_search.Runtime.Laws.{AtMost, InUnit}
use amazon_similar_search.Runtime.Fixed.{ascii, fixed_point, fixed_point-HasOrder}
use amazon_similar_search.Scoring.Price.{positive_price, calculate_price_score}
use amazon_similar_search.Scoring.Price.Bounds.{calculate_price_score-InUnit}
use amazon_similar_search.Scoring.Price.Nearer.{
  with_ends_swapped, calculate_price_score_nearer, calculate_price_score_swapped,
}
use amazon_similar_search.Scoring.Examples.{
  no_morphemes, half_similar, wish, wish_at, product, wireless,
}

calculate_price_score-InUnit_example : InUnit fixed_point (calculate_price_score wish wireless)
calculate_price_score-InUnit_example =
    calculate_price_score-InUnit fixed_point-HasOrder wish wireless

target_price : positive_price (some (pos 3_500)) ≡ some 3_500
unfolding positive_price
target_price = refl

wireless_price : positive_price (some (pos 5_000)) ≡ some 5_000
unfolding positive_price
wireless_price = refl

cheaper_price : positive_price (some (pos 4_000)) ≡ some 4_000
unfolding positive_price
cheaper_price = refl

lower_end : positive_price (some (pos 2_000)) ≡ some 2_000
unfolding positive_price
lower_end = refl

calculate_price_score_nearer_example :
    AtMost fixed_point
      (calculate_price_score (wish_at 3_500) wireless)
      (calculate_price_score (wish_at 3_500) (product (codes "B03") [] 4_000))
calculate_price_score_nearer_example =
    calculate_price_score_nearer fixed_point-HasOrder (wish_at 3_500) wireless
      (product (codes "B03") [] 4_000) 3_500 5_000 4_000 target_price wireless_price cheaper_price
      (inr (omega arith, omega arith))

calculate_price_score_swapped_example :
    calculate_price_score (with_ends_swapped wish) wireless ≡ calculate_price_score wish wireless
calculate_price_score_swapped_example =
    calculate_price_score_swapped wish wireless 2_000 4_000 lower_end cheaper_price
