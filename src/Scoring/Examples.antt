-- ===== src/Scoring/Examples.antt =====
-- A wish, settings and products to run src/services/product_scoring.py with.
pub mod Rankings
pub mod Matches
pub mod Prices
pub mod Penalties
use mathlib.Core.List.{Perm}
use amazon_similar_search.Prelude.{
  ◌>>=◌, ℕ, ◌≡◌, ◌≢◌, ◌↔◌, ◌⊎◌, inr, refl, subst, some_inj, arith, pos, Bool, false, Option, some,
  none, Text, codes, length, keep, All, List, [], ◌∷◌, map, eq_text, ◌==◌, member, contains,
  starts_with, strip, lstrip, is_space,
}
use amazon_similar_search.Runtime.{float_max, float_min}
use amazon_similar_search.Runtime.Laws.{AtMost, InUnit}
use amazon_similar_search.Runtime.Fixed.{
  fixed_point-HasSigns, ascii, fixed_point, fixed_point-HasOrder,
}
use amazon_similar_search.Dedupe.{first_of_each}
use amazon_similar_search.Schemas.{ProductAttributes, NormalizedAmazonProduct, ProductScore}
use amazon_similar_search.Matching.{
  Sudachi, build_tfidf_text, split_words, split_japanese_words, english_runs, join_space,
  clean_dupe_empty, stripped, term_matches_text,
}
use amazon_similar_search.Scoring.Terms.{
  en, ja, ScoringSettings, weighted_condition_terms, weighted_groups, build_negative_terms,
  build_title_query_text, build_attribute_query_text, build_title_query_terms,
  build_attribute_terms, build_weighted_ranking_terms, repeat_terms, build_product_tfidf_text,
  build_product_title_tfidf_text, combined_product_text, product_text_parts,
}
use amazon_similar_search.Scoring.Match.{
  MatchScore, total_weight, calculate_weighted_condition_match_score, score_terms, match_score,
  match_loop, select_attribute_language,
}
use amazon_similar_search.Scoring.Match.Partition.{share, match_score-eq-share}
use amazon_similar_search.Scoring.Match.Bounds.{match_score_zero_division, match_score-InUnit}
use amazon_similar_search.Scoring.Price.{
  positive_price, calculate_price_score, price_score_of, wanted_price_score, range_score,
  target_score, calculate_negative_penalty, penalty_for,
}
use amazon_similar_search.Scoring.Price.Bounds.{calculate_price_score-InUnit}
use amazon_similar_search.Scoring.Price.Nearer.{
  with_ends_swapped, calculate_price_score_nearer, calculate_price_score_swapped,
}
use amazon_similar_search.Scoring.Similarity.{Tfidf, HasColumns, calculate_tfidf_similarities}
use amazon_similar_search.Scoring.Rank.{
  score_product, scored_products, score_products, candidates, zip_strict, collect, score_candidate,
  attribute_match, product_score, clamp, weighted_total, sort_ranked, insert_ranked,
}
use amazon_similar_search.Scoring.Rank.Order.{IsDescending, AreEqual}
use amazon_similar_search.Scoring.Rank.Results.{score_products_ranking, score_products_stable}
use amazon_similar_search.Scoring.Rank.Lengths.{length-map}
use amazon_similar_search.Scoring.Rank.Totality.{score_products_total}
use amazon_similar_search.Scoring.Rank.Errors.{IsUnweighted, score_products_raises}

instance abbrev pub no_morphemes : Sudachi
no_morphemes = record { tokenize = λ text. [] }

instance abbrev pub half_similar : Tfidf ℕ
half_similar = record { cosine_row = λ query documents. some (map (λ document. 5_000) documents) }

pub half_similar-HasColumns : HasColumns half_similar
half_similar-HasColumns query documents row h =
    subst (λ r. length r ≡ length documents) (some_inj h) (length-map _ documents)

abbrev pub settings : ScoringSettings ℕ
settings = record {
  title_score_weight = 4_500;
  attribute_score_weight = 3_500;
  price_score_weight = 2_000;
  required_term_weight = 4;
  color_term_weight = 3;
  feature_term_weight = 2;
  preferred_term_weight = 2;
  related_term_weight = 1;
}

-- A wish for a wireless keyboard of 2,000 to 4,000 yen.
abbrev pub wish : ProductAttributes
wish = record {
  estimated_product_name_ja = codes "keyboard";
  estimated_product_name_en = some (codes "keyboard");
  category_ja = none;
  category_en = none;
  color_ja = none;
  color_en = some (codes "black");
  features_ja = [];
  features_en = [];
  negative_conditions_ja = [];
  negative_conditions_en = [];
  search_queries_ja = [];
  search_queries_en = [];
  required_terms_ja = [];
  required_terms_en = codes "wireless" ∷ [];
  preferred_terms_ja = [];
  preferred_terms_en = [];
  related_terms_ja = [];
  related_terms_en = [];
  price_preference = none;
  min_price_jpy = some (pos 2_000);
  max_price_jpy = some (pos 4_000);
  target_price_jpy = none;
  expected_price_min_jpy = none;
  expected_price_max_jpy = none;
}

abbrev pub wish_at : ℕ → ProductAttributes
wish_at price = record wish { target_price_jpy = some (pos price) }

abbrev pub product : Text → Text → ℕ → NormalizedAmazonProduct ℕ
product asin title price = record {
  source = codes "amazon";
  asin = some asin;
  title = title;
  brand_or_store = none;
  price_jpy = some (pos price);
  list_price_jpy = none;
  currency = none;
  rating = none;
  review_count = none;
  categories = [];
  image_url = none;
  image_urls = [];
  product_url = none;
  short_url = none;
  is_prime = false;
  availability = none;
  shipping = none;
  source_query = none;
  position = none;
  description = none;
}

abbrev pub wired : NormalizedAmazonProduct ℕ
wired = product (codes "B01") (codes "Black keyboard") 3_000

abbrev pub wireless : NormalizedAmazonProduct ℕ
wireless = product (codes "B02") (codes "Wireless keyboard") 5_000

abbrev pub both_products : List (NormalizedAmazonProduct ℕ)
both_products = wired ∷ wireless ∷ []
