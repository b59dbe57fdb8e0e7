-- ===== src/Scoring/Examples/Penalties.antt =====
-- A product with an unwanted term, and the theorem about its total.
use amazon_similar_search.Prelude.{
  ℕ, ◌≡◌, refl, true, none, some, codes, [], ◌∷◌, eq_text, member, contains, starts_with, strip,
  lstrip, is_space,
}
use amazon_similar_search.Runtime.{float_max, float_min}
use amazon_similar_search.Runtime.Fixed.{
  ascii, fixed_point, fixed_point-HasOrder, fixed_point-HasSubtraction,
}
use amazon_similar_search.Dedupe.{first_of_each}
use amazon_similar_search.Schemas.{ProductAttributes, ProductScore}
use amazon_similar_search.Matching.{
  split_words, split_japanese_words, english_runs, join_space, clean_dupe_empty, stripped,
  term_matches_text,
}
use amazon_similar_search.Scoring.Terms.{
  en, weighted_condition_terms, weighted_groups, build_negative_terms, combined_product_text,
  product_text_parts,
}
use amazon_similar_search.Scoring.Match.{
  calculate_weighted_condition_match_score, score_terms, match_score, match_loop,
}
use amazon_similar_search.Scoring.Price.{
  positive_price, calculate_price_score, price_score_of, wanted_price_score, range_score,
  target_score, calculate_negative_penalty, penalty_for,
}
use amazon_similar_search.Scoring.Rank.{
  score_product, attribute_match, product_score, clamp, weighted_total,
}
use amazon_similar_search.Scoring.Rank.Penalties.{
  Takes, has_unwanted, weighted_sum, score_product-Takes,
}
use amazon_similar_search.Scoring.Examples.{no_morphemes, half_similar, settings, wish, wireless}

abbrev wary_wish : ProductAttributes
wary_wish = record wish { negative_conditions_en = codes "wireless" ∷ [] }

abbrev wary_score : ProductScore ℕ
wary_score = record {
  asin = wireless.asin;
  title = wireless.title;
  price_jpy = wireless.price_jpy;
  rating = none;
  review_count = none;
  image_url = none;
  product_url = none;
  title_similarity = 8_000;
  attribute_similarity = 5_000;
  price_score = 8_000;
  negative_penalty = 2_000;
  total_score = 4_950;
  matched_terms = codes "wireless" ∷ [];
  missing_terms = codes "black" ∷ [];
  negative_matches = codes "wireless" ∷ [];
}

-- The sum of the similarities is 0.695, of which one unwanted term takes 0.2.
wary_run : score_product settings wary_wish wireless (some 8_000) (some 5_000) en ≡ some wary_score
unfolding score_product attribute_match product_score clamp weighted_total
    calculate_weighted_condition_match_score score_terms match_score match_loop
    weighted_condition_terms weighted_groups calculate_price_score price_score_of wanted_price_score
    range_score target_score positive_price calculate_negative_penalty penalty_for
    build_negative_terms combined_product_text product_text_parts split_words split_japanese_words
    english_runs join_space clean_dupe_empty stripped term_matches_text member contains starts_with
    strip lstrip is_space eq_text float_max float_min first_of_each
wary_run = refl

unwanted : has_unwanted wary_wish wireless ≡ true
unfolding build_negative_terms combined_product_text product_text_parts split_words
    split_japanese_words english_runs join_space clean_dupe_empty stripped term_matches_text member
    contains starts_with strip lstrip is_space eq_text first_of_each
unwanted = refl

score_product-Takes_example :
    Takes
      (has_unwanted wary_wish wireless)
      (weighted_sum settings wary_wish wireless 8_000 5_000)
      4_950
score_product-Takes_example =
    score_product-Takes settings wary_wish fixed_point-HasOrder fixed_point-HasSubtraction wireless
      8_000 5_000 en wary_score wary_run
