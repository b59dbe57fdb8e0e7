-- ===== src/Schemas.antt =====
-- src/schemas.py. `N` is the type of floats.
use amazon_similar_search.Prelude.{ℤ, Bool, Option, List, Text}

pub record ProductAttributes : Type 0 where
  pub estimated_product_name_ja : Text
  pub estimated_product_name_en : Option Text
  pub category_ja : Option Text
  pub category_en : Option Text
  pub color_ja : Option Text
  pub color_en : Option Text
  pub features_ja : List Text
  pub features_en : List Text
  pub negative_conditions_ja : List Text
  pub negative_conditions_en : List Text
  pub search_queries_ja : List Text
  pub search_queries_en : List Text
  pub required_terms_ja : List Text
  pub required_terms_en : List Text
  pub preferred_terms_ja : List Text
  pub preferred_terms_en : List Text
  pub related_terms_ja : List Text
  pub related_terms_en : List Text
  pub price_preference : Option Text
  pub min_price_jpy : Option ℤ
  pub max_price_jpy : Option ℤ
  pub target_price_jpy : Option ℤ
  pub expected_price_min_jpy : Option ℤ
  pub expected_price_max_jpy : Option ℤ

pub record NormalizedAmazonProduct (N : Type 0) : Type 0 where
  pub source : Text
  pub asin : Option Text
  pub title : Text
  pub brand_or_store : Option Text
  pub price_jpy : Option ℤ
  pub list_price_jpy : Option ℤ
  pub currency : Option Text
  pub rating : Option N
  pub review_count : Option ℤ
  pub categories : List Text
  pub image_url : Option Text
  pub image_urls : List Text
  pub product_url : Option Text
  pub short_url : Option Text
  pub is_prime : Bool
  pub availability : Option Text
  pub shipping : Option Text
  pub source_query : Option Text
  pub position : Option ℤ
  pub description : Option Text

pub record ProductScore (N : Type 0) : Type 0 where
  pub asin : Option Text
  pub title : Text
  pub price_jpy : Option ℤ
  pub rating : Option N
  pub review_count : Option ℤ
  pub image_url : Option Text
  pub product_url : Option Text
  pub title_similarity : N
  pub attribute_similarity : N
  pub price_score : N
  pub negative_penalty : N
  pub total_score : N
  pub matched_terms : List Text
  pub missing_terms : List Text
  pub negative_matches : List Text
