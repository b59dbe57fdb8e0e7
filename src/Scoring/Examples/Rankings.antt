-- ===== src/Scoring/Examples/Rankings.antt =====
-- Two products ranked, and the theorems about rankings.
use mathlib.Core.List.{Perm}
use amazon_similar_search.Prelude.{
  ◌>>=◌, ℕ, ◌≡◌, ◌≢◌, ◌↔◌, ◌⊎◌, refl, arith, Bool, Option, some, none, Text, keep, All, List, [],
  ◌∷◌, map, eq_text, ◌==◌, member, contains, starts_with, strip, lstrip, is_space,
}
use amazon_similar_search.Runtime.{float_max, float_min}
use amazon_similar_search.Runtime.Laws.{InUnit}
use amazon_similar_search.Runtime.Fixed.{ascii, fixed_point, fixed_point-HasOrder}
use amazon_similar_search.Dedupe.{first_of_each}
use amazon_similar_search.Schemas.{ProductScore}
use amazon_similar_search.Matching.{
  build_tfidf_text, split_words, split_japanese_words, english_runs, join_space, clean_dupe_empty,
  stripped, term_matches_text,
}
use amazon_similar_search.Scoring.Terms.{
  en, ja, weighted_condition_terms, weighted_groups, build_negative_terms, build_title_query_text,
  build_attribute_query_text, build_title_query_terms, build_attribute_terms,
  build_weighted_ranking_terms, repeat_terms, build_product_tfidf_text,
  build_product_title_tfidf_text, combined_product_text, product_text_parts,
}
use amazon_similar_search.Scoring.Match.{
  calculate_weighted_condition_match_score, score_terms, match_score, match_loop,
  select_attribute_language,
}
use amazon_similar_search.Scoring.Price.{
  positive_price, calculate_price_score, price_score_of, wanted_price_score, range_score,
  target_score, calculate_negative_penalty, penalty_for,
}
use amazon_similar_search.Scoring.Similarity.{calculate_tfidf_similarities}
use amazon_similar_search.Scoring.Rank.{
  score_product, scored_products, score_products, candidates, zip_strict, collect, score_candidate,
  attribute_match, product_score, clamp, weighted_total, sort_ranked, insert_ranked,
}
use amazon_similar_search.Scoring.Rank.Order.{IsDescending, AreEqual}
use amazon_similar_search.Scoring.Rank.Results.{score_products_ranking, score_products_stable}
use amazon_similar_search.Scoring.Rank.Totality.{score_products_total}
use amazon_similar_search.Scoring.Rank.Errors.{IsUnweighted, score_products_raises}
use amazon_similar_search.Scoring.Examples.{
  no_morphemes, half_similar, settings, wish, wired, wireless, both_products,
  half_similar-HasColumns,
}

abbrev ranking : Option (List (ProductScore ℕ))
ranking = score_products settings wish both_products

abbrev asins_of : Option (List (ProductScore ℕ)) → List (Option Text)
asins_of none = []
asins_of (some scores) = map (λ s. s.asin) scores

ranking_asins : asins_of ranking ≡ wired.asin ∷ wireless.asin ∷ []
unfolding score_products scored_products candidates zip_strict collect score_candidate score_product
    attribute_match product_score clamp weighted_total sort_ranked insert_ranked
    calculate_tfidf_similarities calculate_weighted_condition_match_score score_terms match_score
    match_loop select_attribute_language weighted_condition_terms weighted_groups
    calculate_price_score price_score_of wanted_price_score range_score target_score positive_price
    calculate_negative_penalty penalty_for build_negative_terms build_title_query_text
    build_attribute_query_text build_title_query_terms build_attribute_terms
    build_weighted_ranking_terms repeat_terms build_product_tfidf_text
    build_product_title_tfidf_text combined_product_text product_text_parts build_tfidf_text
    split_words split_japanese_words english_runs join_space clean_dupe_empty stripped
    term_matches_text member contains starts_with strip lstrip is_space eq_text float_max float_min
    first_of_each
ranking_asins = refl

abbrev or_none : Option (List (ProductScore ℕ)) → List (ProductScore ℕ)
or_none none = []
or_none (some scores) = scores

ranking-some : ranking ≡ some (or_none ranking)
unfolding score_products scored_products candidates zip_strict collect score_candidate score_product
    attribute_match product_score clamp weighted_total sort_ranked insert_ranked
    calculate_tfidf_similarities calculate_weighted_condition_match_score score_terms match_score
    match_loop select_attribute_language weighted_condition_terms weighted_groups
    calculate_price_score price_score_of wanted_price_score range_score target_score positive_price
    calculate_negative_penalty penalty_for build_negative_terms build_title_query_text
    build_attribute_query_text build_title_query_terms build_attribute_terms
    build_weighted_ranking_terms repeat_terms build_product_tfidf_text
    build_product_title_tfidf_text combined_product_text product_text_parts build_tfidf_text
    split_words split_japanese_words english_runs join_space clean_dupe_empty stripped
    term_matches_text member contains starts_with strip lstrip is_space eq_text float_max float_min
    first_of_each
ranking-some = refl

score_products_ranking_example :
    Perm (map (λ s. s.asin) (or_none ranking)) (map (λ p. p.asin) both_products)
    × (IsDescending (or_none ranking)
        × All (λ s. InUnit fixed_point s.total_score) (or_none ranking))
score_products_ranking_example =
    score_products_ranking settings wish fixed_point-HasOrder both_products (or_none ranking)
      ranking-some

abbrev has_full_total : ProductScore ℕ → Bool
has_full_total s = s.total_score == 6_000

equal_totals : AreEqual has_full_total
equal_totals s t hs ht = ground arith

score_products_stable_example :
    (score_products settings wish both_products >>= λ result. some (keep has_full_total result))
    ≡ (scored_products settings wish both_products >>= λ scored. some (keep has_full_total scored))
score_products_stable_example =
    score_products_stable settings wish has_full_total equal_totals both_products

score_products_raises_example :
    (score_products settings wish both_products ≡ none)
    ↔ ((both_products ≢ []) × (IsUnweighted settings wish en ⊎ IsUnweighted settings wish ja))
score_products_raises_example =
    score_products_raises settings wish half_similar-HasColumns both_products

score_products_total_example :
    (result : List (ProductScore ℕ)) × (score_products settings wish both_products ≡ some result)
score_products_total_example =
    score_products_total settings wish
      (omega arith, (omega arith, (omega arith, (omega arith, omega arith))))
      half_similar-HasColumns both_products
