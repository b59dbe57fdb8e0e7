-- ===== src/Pipeline.antt =====
-- src/main/run.py, with src/utilities/build_hash.py and the functions of the other components that
-- keep their results in files: a search from the user's text to the ranking.
pub mod Search
pub mod Steps
pub mod Responses
pub mod Uncached
pub mod Refinement
pub mod Namespaces
pub mod Warm
pub mod Composed
pub mod Repeated
pub mod Examples
use amazon_similar_search.Prelude.{
  ℕ, zero, suc, ℤ, pos, ltb, Bool, true, false, not, ◌&&◌, ◌||◌, Option, none, some, Text, codes,
  length, strip, is_empty, if◌then◌else◌, List, [], ◌∷◌, ◌++◌, map,
}
use amazon_similar_search.Json.{Value, Items, Fields, field, end, cons, nil}
use amazon_similar_search.Runtime.{Python, Platform}
use amazon_similar_search.Schemas.{ProductAttributes, NormalizedAmazonProduct, ProductScore}
use amazon_similar_search.Matching.{Sudachi}
use amazon_similar_search.Extraction.Queries.{Parser, parse_attributes}
use amazon_similar_search.Extraction.Selection.{select_outscraper_query}
use amazon_similar_search.Normalization.{normalize_amazon_products_response}
use amazon_similar_search.Scoring.Terms.{ScoringSettings}
use amazon_similar_search.Scoring.Similarity.{Tfidf}
use amazon_similar_search.Scoring.Rank.{score_products}
use amazon_similar_search.Outscraper.Task
use amazon_similar_search.Outscraper.Request.{Server}
use amazon_similar_search.Outscraper.Fetch.{FetchOptions, fetch_amazon_products}
use amazon_similar_search.Bonsai.{BonsaiSettings, Reply, call_bonsai}
use amazon_similar_search.Cache.{
  CachePath, World, Disk, Failure, value_error, runtime_error, bonsai_error, extraction_error,
  outscraper_error, read_error, zero_division, Result, ok, err, Action, pure, raise, ◌>>=◌,
  or_raise, product_attributes_cache, outscraper_raw_cache, outscraper_normalized_cache,
  outscraper_scored_cache, write_json, read_json, fresh_path, load, save,
}

-- `json.dumps` of a payload, and `hashlib.sha256(text.encode("utf-8")).hexdigest()`
pub record Hash (N : Type 0) : Type 0 where
  pub dumps : Value N → Text
  pub sha256 : Text → Text

-- `model_dump` and `model_validate` (none on ValidationError) of the models in src/schemas.py
pub record Models (N : Type 0) : Type 0 where
  pub dump_attributes : ProductAttributes → Value N
  pub validate_attributes : Value N → Option ProductAttributes
  pub dump_product : NormalizedAmazonProduct N → Value N
  pub validate_product : Value N → Option (NormalizedAmazonProduct N)
  pub dump_score : ProductScore N → Value N
  pub validate_score : Value N → Option (ProductScore N)

-- The fields of `settings` that a search reads.
pub record Settings (N : Type 0) : Type 0 where
  pub bonsai : BonsaiSettings N
  pub outscraper_api_key : Text
  pub outscraper : FetchOptions
  pub usd_to_jpy_rate : ℤ
  pub scoring : ScoringSettings N
  pub enable_cache : Bool
  pub llm_cache_ttl_seconds : ℤ
  pub outscraper_cache_ttl_seconds : ℤ

pub record Environment (N F : Type 0) : Type 0 where
  pub settings : Settings N
  pub disk : Disk N F
  pub hash : Hash N
  pub models : Models N
  pub parser : Parser N
  pub post : Text → Value N → Reply N
  pub server : Server N

-- `text[:n]`
abbrev pub first : ℕ → Text → Text
first zero text = []
first (suc n) [] = []
first (suc n) (c ∷ text) = c ∷ first n text

module _ {N : Type 0} where
  unfoldable pub build_cache_key : Hash N → Value N → Text
  build_cache_key hash payload = first 24 (hash.sha256 (hash.dumps payload))

  abbrev text : Text → Value N
  text s = Value.str s

  unfoldable pub build_attributes_cache_key : Settings N → Hash N → Text → Text → Text
  unfolding build_cache_key
  build_attributes_cache_key settings hash user_input cache_scope = build_cache_key hash (
      Value.obj (
        field (codes "type") (text (codes "product_attributes")) (
          field (codes "version") (text (codes "2")) (
            field (codes "cache_scope") (text cache_scope) (
              field (codes "user_input") (text user_input) (
                field (codes "bonsai_base_url") (text settings.bonsai.base_url) (
                  field (codes "bonsai_model") (text settings.bonsai.model) (
                    field (codes "prompt_sha256") (text (hash.sha256 settings.bonsai.prompt)) (
                      field (codes "temperature") (Value.float settings.bonsai.temperature) (
                        field (codes "max_tokens") (Value.int settings.bonsai.max_tokens)
                          end))))))))))

  unfoldable pub build_outscraper_cache_key : Settings N → Hash N → Text → Text → Text
  unfolding build_cache_key
  build_outscraper_cache_key settings hash query cache_scope = build_cache_key hash (
      Value.obj (
        field (codes "type") (text (codes "outscraper_raw")) (
          field (codes "cache_scope") (text cache_scope) (
            field (codes "query") (text query) (
              field (codes "endpoint") (text settings.outscraper.endpoint) (
                field (codes "domain") (text settings.outscraper.domain) (
                  field (codes "language") (text settings.outscraper.language) (
                    field (codes "postal_code") (text settings.outscraper.postal_code)
                      (field (codes "limit") (Value.int settings.outscraper.limit) end)))))))))

  unfoldable pub build_normalized_cache_key : Settings N → Hash N → Fields N → Text → Text
  unfolding build_cache_key
  build_normalized_cache_key settings hash raw_response cache_scope = build_cache_key hash (
      Value.obj (
        field (codes "type") (text (codes "normalized_products")) (
          field (codes "version") (text (codes "2")) (
            field (codes "cache_scope") (text cache_scope) (
              field (codes "usd_to_jpy_rate") (Value.int settings.usd_to_jpy_rate)
                (field (codes "raw_response") (Value.obj raw_response) end))))))

  unfoldable pub build_scored_cache_key :
      Settings N → Hash N → Models N → ProductAttributes → Text → Text
  unfolding build_cache_key
  build_scored_cache_key settings hash models attrs normalized_cache_key =
      let weights = settings.scoring in
      build_cache_key hash (
        Value.obj (
          field (codes "type") (text (codes "scored_products")) (
            field (codes "version") (text (codes "2")) (
              field (codes "attributes") (models.dump_attributes attrs) (
                field (codes "normalized_cache_key") (text normalized_cache_key) (
                  field (codes "title_score_weight") (Value.float weights.title_score_weight) (
                    field (codes "attribute_score_weight")
                      (Value.float weights.attribute_score_weight)
                      (field (codes "price_score_weight") (Value.float weights.price_score_weight) (
                        field (codes "required_term_weight")
                          (Value.int (pos weights.required_term_weight))
                          (field (codes "color_term_weight")
                            (Value.int (pos weights.color_term_weight))
                            (field (codes "feature_term_weight")
                              (Value.int (pos weights.feature_term_weight))
                              (field (codes "preferred_term_weight")
                                (Value.int (pos weights.preferred_term_weight))
                                (field (codes "related_term_weight")
                                  (Value.int (pos weights.related_term_weight)) end)))))))))))))

  abbrev pub to_items : List (Value N) → Items N
  to_items [] = nil
  to_items (v ∷ vs) = cons v (to_items vs)

  -- The list comprehension of `_validated_model_list`
  abbrev pub validated_items : {A : Type 0} → (Value N → Option A) → Items N → Option (List A)
  validated_items validate Items.nil = some []
  validated_items validate (Items.cons v vs) =
      let rest = validated_items validate vs in
      elim (validate v) [
        | none ↦ none
        | some a ↦ elim rest [ none ↦ none | some as' ↦ some (a ∷ as') ]
      ]

  -- `_validated_model_list`
  unfoldable pub validated_model_list :
      {A : Type 0} → (Value N → Option A) → Value N → Option (List A)
  validated_model_list validate (Value.arr raw_items) = validated_items validate raw_items
  validated_model_list validate _ = none

  -- `[model.model_dump() for model in models]`
  abbrev pub dumped : {A : Type 0} → (A → Value N) → List A → Value N
  dumped dump models = Value.arr (to_items (map dump models))
