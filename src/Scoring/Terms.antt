-- ===== src/Scoring/Terms.antt =====
-- The term lists of src/services/product_scoring.py, and the texts that are compared.
use amazon_similar_search.Prelude.{
  ℕ, zero, suc, true, false, Option, none, some, Text, is_empty, not, keep, List, [], ◌∷◌, ◌++◌,
  map,
}
use amazon_similar_search.Runtime.{Platform, casefold}
use amazon_similar_search.Dedupe.{first_of_each}
use amazon_similar_search.Schemas.{ProductAttributes, NormalizedAmazonProduct}
use amazon_similar_search.Matching.{Sudachi, clean_dupe_empty, join_space, build_tfidf_text}

-- `language: str | None`
pub data Language : Type 0 where
  en ja both : Language

-- The fields of `settings` that scoring reads. `N` is the type of floats.
pub record ScoringSettings (N : Type 0) : Type 0 where
  pub title_score_weight : N
  pub attribute_score_weight : N
  pub price_score_weight : N
  pub required_term_weight : ℕ
  pub color_term_weight : ℕ
  pub feature_term_weight : ℕ
  pub preferred_term_weight : ℕ
  pub related_term_weight : ℕ

abbrev pub given : List Text → List (Option Text)
given = map some

-- `[term] * weight`
abbrev pub replicate {ℓ} : {A : Type ℓ} → ℕ → A → List A
replicate zero a = []
replicate (suc n) a = a ∷ replicate n a

module _ ⦃U : Platform⦄ where
  unfoldable pub build_title_query_terms : ProductAttributes → Language → List Text
  build_title_query_terms attrs en =
      clean_dupe_empty (attrs.estimated_product_name_en ∷ attrs.category_en ∷ [])
  build_title_query_terms attrs ja =
      clean_dupe_empty (some attrs.estimated_product_name_ja ∷ attrs.category_ja ∷ [])
  build_title_query_terms attrs both = clean_dupe_empty (
      attrs.estimated_product_name_en
      ∷ some attrs.estimated_product_name_ja
      ∷ attrs.category_en
      ∷ attrs.category_ja
      ∷ [])

  unfoldable pub build_attribute_terms : ProductAttributes → Language → List Text
  build_attribute_terms attrs en =
      clean_dupe_empty (attrs.color_en ∷ attrs.category_en ∷ given attrs.features_en)
  build_attribute_terms attrs ja =
      clean_dupe_empty (attrs.color_ja ∷ attrs.category_ja ∷ given attrs.features_ja)
  build_attribute_terms attrs both = clean_dupe_empty (
      attrs.color_en
        ∷ attrs.color_ja
        ∷ attrs.category_en
        ∷ attrs.category_ja
        ∷ given attrs.features_en
      ++ given attrs.features_ja)

  abbrev pub repeat_each : ℕ → List Text → List Text
  repeat_each weight [] = []
  repeat_each weight (term ∷ rest) = replicate weight term ++ repeat_each weight rest

  unfoldable pub repeat_terms : List (Option Text) → ℕ → List Text
  repeat_terms terms weight = repeat_each weight (clean_dupe_empty terms)

  unfoldable pub build_negative_terms : ProductAttributes → List Text
  build_negative_terms attrs =
      clean_dupe_empty (given (attrs.negative_conditions_en ++ attrs.negative_conditions_ja))

  abbrev pub with_weight : ℕ → List Text → List (Text × ℕ)
  with_weight weight [] = []
  with_weight weight (term ∷ rest) = (term, weight) ∷ with_weight weight rest

  -- The pairs that the two nested loops go through.
  abbrev pub group_terms : List (List (Option Text) × ℕ) → List (Text × ℕ)
  group_terms [] = []
  group_terms ((terms, weight) ∷ rest) =
      with_weight weight (clean_dupe_empty terms) ++ group_terms rest

  abbrev pub term_key : Text × ℕ → Text
  term_key (term, weight) = casefold term

-- The lists of a language, or of both.
abbrev pub by_language {ℓ} : {A : Type ℓ} → Language → List A → List A → List A
by_language en english japanese = english
by_language ja english japanese = japanese
by_language both english japanese = english ++ japanese

module _ {N : Type 0} ⦃U : Platform⦄ (settings : ScoringSettings N) where
  unfoldable pub build_weighted_ranking_terms : ProductAttributes → Language → List Text
  build_weighted_ranking_terms attrs language =
      repeat_terms (given (by_language language attrs.required_terms_en attrs.required_terms_ja))
        settings.required_term_weight
      ++ repeat_terms
          (given (by_language language attrs.preferred_terms_en attrs.preferred_terms_ja))
          settings.preferred_term_weight
      ++ repeat_terms (given (by_language language attrs.related_terms_en attrs.related_terms_ja))
          settings.related_term_weight

  -- `weighted_groups`
  unfoldable pub weighted_groups : ProductAttributes → Language → List (List (Option Text) × ℕ)
  weighted_groups attrs language =
      (
        given (by_language language attrs.required_terms_en attrs.required_terms_ja),
        settings.required_term_weight,
      )
      ∷ (
        by_language language (attrs.color_en ∷ []) (attrs.color_ja ∷ []),
        settings.color_term_weight,
      )
      ∷ (
        given (by_language language attrs.features_en attrs.features_ja),
        settings.feature_term_weight,
      )
      ∷ (
        given (by_language language attrs.preferred_terms_en attrs.preferred_terms_ja),
        settings.preferred_term_weight,
      )
      ∷ (
        given (by_language language attrs.related_terms_en attrs.related_terms_ja),
        settings.related_term_weight,
      )
      ∷ []

  unfoldable pub weighted_condition_terms : ProductAttributes → Language → List (Text × ℕ)
  weighted_condition_terms attrs language =
      first_of_each some term_key [] (group_terms (weighted_groups attrs language))

abbrev or_empty : Option Text → Text
or_empty none = []
or_empty (some s) = s

module _ {N : Type 0} where
  unfoldable pub product_text_parts : NormalizedAmazonProduct N → List Text
  product_text_parts product =
      product.title
      ∷ or_empty product.brand_or_store
      ∷ join_space product.categories
      ∷ or_empty product.description
      ∷ []

  unfoldable pub combined_product_text : NormalizedAmazonProduct N → Text
  combined_product_text product =
      join_space (keep (λ value. not (is_empty value)) (product_text_parts product))

module _ {N : Type 0} ⦃U : Platform⦄ ⦃S : Sudachi⦄ where
  unfoldable pub build_title_query_text : ScoringSettings N → ProductAttributes → Language → Text
  build_title_query_text settings attrs language = build_tfidf_text false (
      given (
        build_title_query_terms attrs language
        ++ build_weighted_ranking_terms settings attrs language))

  unfoldable pub build_attribute_query_text :
      ScoringSettings N → ProductAttributes → Language → Text
  build_attribute_query_text settings attrs language = build_tfidf_text false (
      given (
        build_attribute_terms attrs language
        ++ build_weighted_ranking_terms settings attrs language))

  unfoldable pub build_product_tfidf_text : NormalizedAmazonProduct N → Text
  build_product_tfidf_text product =
      build_tfidf_text true (some (combined_product_text product) ∷ [])

  unfoldable pub build_product_title_tfidf_text : NormalizedAmazonProduct N → Text
  build_product_title_tfidf_text product = build_tfidf_text true (some product.title ∷ [])
