-- ===== src/Scoring/Examples/Matches.antt =====
-- Condition scores, and the theorems about them.
use amazon_similar_search.Prelude.{
  ℕ, ◌≡◌, ◌≢◌, ◌↔◌, refl, some, none, codes, [], ◌∷◌, eq_text, member, contains, starts_with, strip,
  lstrip, is_space,
}
use amazon_similar_search.Runtime.{float_max, float_min}
use amazon_similar_search.Runtime.Laws.{InUnit}
use amazon_similar_search.Runtime.Fixed.{ascii, fixed_point, fixed_point-HasOrder}
use amazon_similar_search.Dedupe.{first_of_each}
use amazon_similar_search.Schemas.{ProductAttributes}
use amazon_similar_search.Matching.{
  build_tfidf_text, split_words, split_japanese_words, english_runs, join_space, clean_dupe_empty,
  stripped, term_matches_text,
}
use amazon_similar_search.Scoring.Terms.{
  en, ScoringSettings, weighted_condition_terms, weighted_groups, build_negative_terms,
  build_title_query_text, build_attribute_query_text, build_title_query_terms,
  build_attribute_terms, build_weighted_ranking_terms, repeat_terms, build_product_tfidf_text,
  build_product_title_tfidf_text, combined_product_text, product_text_parts,
}
use amazon_similar_search.Scoring.Match.{
  MatchScore, total_weight, calculate_weighted_condition_match_score, score_terms, match_score,
  match_loop, select_attribute_language,
}
use amazon_similar_search.Scoring.Match.Partition.{share, match_score-eq-share}
use amazon_similar_search.Scoring.Match.Bounds.{match_score_zero_division, match_score-InUnit}
use amazon_similar_search.Scoring.Price.{
  positive_price, calculate_price_score, price_score_of, wanted_price_score, range_score,
  target_score, calculate_negative_penalty, penalty_for,
}
use amazon_similar_search.Scoring.Similarity.{calculate_tfidf_similarities}
use amazon_similar_search.Scoring.Rank.{
  score_product, scored_products, score_products, candidates, zip_strict, collect, score_candidate,
  attribute_match, product_score, clamp, weighted_total, sort_ranked, insert_ranked,
}
use amazon_similar_search.Scoring.Examples.{no_morphemes, half_similar, settings, wish}

-- Without the weight of required terms, a wish that has no other conditions.
abbrev unweighted : ScoringSettings ℕ
unweighted = record settings { required_term_weight = 0 }

abbrev plain_wish : ProductAttributes
plain_wish = record wish { color_en = none }

zero_division_run :
    calculate_weighted_condition_match_score unweighted plain_wish (codes "Wireless keyboard") en
    ≡ none
unfolding score_products scored_products candidates zip_strict collect score_candidate score_product
    attribute_match product_score clamp weighted_total sort_ranked insert_ranked
    calculate_tfidf_similarities calculate_weighted_condition_match_score score_terms match_score
    match_loop select_attribute_language weighted_condition_terms weighted_groups
    calculate_price_score price_score_of wanted_price_score range_score target_score positive_price
    calculate_negative_penalty penalty_for build_negative_terms build_title_query_text
    build_attribute_query_text build_title_query_terms build_attribute_terms
    build_weighted_ranking_terms repeat_terms build_product_tfidf_text
    build_product_title_tfidf_text combined_product_text product_text_parts build_tfidf_text
    split_words split_japanese_words english_runs join_space clean_dupe_empty stripped
    term_matches_text member contains starts_with strip lstrip is_space eq_text float_max float_min
    first_of_each
zero_division_run = refl

match_score_zero_division_example :
    (calculate_weighted_condition_match_score unweighted plain_wish (codes "Wireless keyboard") en
      ≡ none)
    ↔ ((weighted_condition_terms unweighted plain_wish en ≢ [])
        × (total_weight (weighted_condition_terms unweighted plain_wish en) ≡ 0))
match_score_zero_division_example =
    match_score_zero_division unweighted plain_wish (codes "Wireless keyboard") en

match_score-eq-share_example :
    calculate_weighted_condition_match_score settings wish (codes "Wireless keyboard") en
    ≡ share (weighted_condition_terms settings wish en) (codes "Wireless keyboard")
match_score-eq-share_example = match_score-eq-share settings wish (codes "Wireless keyboard") en

abbrev wireless_match : MatchScore ℕ
wireless_match = record {
  score = 5_714;
  matched_terms = codes "wireless" ∷ [];
  missing_terms = codes "black" ∷ [];
}

wireless_run :
    calculate_weighted_condition_match_score settings wish (codes "Wireless keyboard") en
    ≡ some wireless_match
unfolding score_products scored_products candidates zip_strict collect score_candidate score_product
    attribute_match product_score clamp weighted_total sort_ranked insert_ranked
    calculate_tfidf_similarities calculate_weighted_condition_match_score score_terms match_score
    match_loop select_attribute_language weighted_condition_terms weighted_groups
    calculate_price_score price_score_of wanted_price_score range_score target_score positive_price
    calculate_negative_penalty penalty_for build_negative_terms build_title_query_text
    build_attribute_query_text build_title_query_terms build_attribute_terms
    build_weighted_ranking_terms repeat_terms build_product_tfidf_text
    build_product_title_tfidf_text combined_product_text product_text_parts build_tfidf_text
    split_words split_japanese_words english_runs join_space clean_dupe_empty stripped
    term_matches_text member contains starts_with strip lstrip is_space eq_text float_max float_min
    first_of_each
wireless_run = refl

match_score-InUnit_example : InUnit fixed_point 5_714
match_score-InUnit_example =
    match_score-InUnit fixed_point-HasOrder settings wish (codes "Wireless keyboard") en
      wireless_match wireless_run
