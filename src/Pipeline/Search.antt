-- ===== src/Pipeline/Search.antt =====
-- `run_product_search` of src/main/run.py, step by step.
use amazon_similar_search.Prelude.{
  ℤ, ltb, Bool, true, false, ◌&&◌, ◌||◌, Option, none, some, Text, length, strip, is_empty,
  if◌then◌else◌, List, ◌∷◌,
}
use amazon_similar_search.Json.{Value, Fields}
use amazon_similar_search.Runtime.{Python, Platform}
use amazon_similar_search.Schemas.{ProductAttributes, NormalizedAmazonProduct, ProductScore}
use amazon_similar_search.Matching.{Sudachi}
use amazon_similar_search.Extraction.Queries.{parse_attributes}
use amazon_similar_search.Extraction.Selection.{select_outscraper_query}
use amazon_similar_search.Normalization.{normalize_amazon_products_response}
use amazon_similar_search.Scoring.Similarity.{Tfidf}
use amazon_similar_search.Scoring.Rank.{score_products}
use amazon_similar_search.Outscraper.Task
use amazon_similar_search.Outscraper.Fetch.{fetch_amazon_products}
use amazon_similar_search.Bonsai
use amazon_similar_search.Cache.{
  CachePath, value_error, runtime_error, bonsai_error, extraction_error, outscraper_error,
  read_error, zero_division, Result, ok, err, Action, pure, raise, ◌>>=◌, or_raise,
  product_attributes_cache, outscraper_raw_cache, outscraper_normalized_cache,
  outscraper_scored_cache, write_json, read_json, fresh_path, load, save, directories_of,
}
use amazon_similar_search.Pipeline.{
  Environment, build_attributes_cache_key, build_outscraper_cache_key, build_normalized_cache_key,
  build_scored_cache_key, validated_model_list, dumped,
}

module _ {N F : Type 0} ⦃P : Python N⦄ ⦃U : Platform⦄ (env : Environment N F) where
  -- A call of the language model, which is noted.
  unfoldable pub ask_bonsai : Text → Action N F Text
  ask_bonsai user_input w =
      or_raise (Bonsai.call_bonsai env.post env.settings.bonsai user_input) bonsai_error
        (record w { bonsai_calls = user_input ∷ w.bonsai_calls })

  -- `extract_product_attributes`
  abbrev pub extract_product_attributes : Text → Text → Option ProductAttributes
  extract_product_attributes raw_text user_input = parse_attributes env.parser raw_text user_input

  -- `write_product_attributes`
  abbrev pub write_product_attributes : ProductAttributes → Text → Action N F CachePath
  write_product_attributes attrs cache_key =
      save env.disk product_attributes_cache cache_key (env.models.dump_attributes attrs)

  abbrev pub valid_attributes : Value N → Option ProductAttributes
  valid_attributes Value.null = none
  valid_attributes cached = env.models.validate_attributes cached

  abbrev pub ask_attributes : Text → Text → Action N F ProductAttributes
  ask_attributes user_input cache_key = do
    raw_attributes ← ask_bonsai user_input
    attrs ← or_raise (extract_product_attributes raw_attributes user_input) extraction_error
    path ← write_product_attributes attrs cache_key
    pure attrs

  abbrev pub attributes_or_ask :
      Option ProductAttributes → Text → Text → Action N F ProductAttributes
  attributes_or_ask (some attrs) user_input cache_key = pure attrs
  attributes_or_ask none user_input cache_key = ask_attributes user_input cache_key

  abbrev pub cached_value : Bool → Text → Text → Option ℤ → Action N F (Value N)
  cached_value true namespace cache_key max_age = load env.disk namespace cache_key max_age
  cached_value false namespace cache_key max_age = pure Value.null

  -- Step 1
  unfoldable pub attributes_step : Bool → Text → Text → Action N F ProductAttributes
  attributes_step cache_enabled user_input cache_scope =
      let cache_key = build_attributes_cache_key env.settings env.hash user_input cache_scope in
      do
        cached ←
            cached_value cache_enabled product_attributes_cache cache_key
              (some env.settings.llm_cache_ttl_seconds)
        attributes_or_ask (valid_attributes cached) user_input cache_key

  abbrev pub fetched : Task.Result N (Fields N) → Result N (Fields N)
  fetched (Task.ok response) = ok response
  fetched (Task.err e) = err (outscraper_error e)

  -- The request of `call_outscraper`
  unfoldable pub fetch : Text → Action N F (Fields N)
  fetch query w =
      let (result, log) =
        fetch_amazon_products env.server query env.settings.outscraper_api_key
          env.settings.outscraper w.outscraper_calls in
      (record w { outscraper_calls = log }, fetched result)

  unfoldable pub call_outscraper : Text → Text → Action N F CachePath
  unfolding fetch
  call_outscraper query cache_key =
      if is_empty env.settings.outscraper_api_key then raise runtime_error else do
        response ← fetch query
        write_json env.disk
            (record { directories = directories_of outscraper_raw_cache; name = cache_key })
            (Value.obj response)

  -- A response and the path that it stands at.
  abbrev pub Response : Type 0
  Response = CachePath × Fields N

  abbrev pub as_response : CachePath → Value N → Option Response
  as_response path (Value.obj response) = some (path, response)
  as_response path _ = none

  abbrev pub loaded_response : Text → Option CachePath → Action N F (Option Response)
  loaded_response cache_key none = pure none
  loaded_response cache_key (some path) = do
    cached ←
        load env.disk outscraper_raw_cache cache_key
          (some env.settings.outscraper_cache_ttl_seconds)
    pure (as_response path cached)

  abbrev pub cached_response : Bool → Text → Action N F (Option Response)
  cached_response false cache_key = pure none
  cached_response true cache_key = do
    path ←
        fresh_path env.disk outscraper_raw_cache cache_key
          (some env.settings.outscraper_cache_ttl_seconds)
    loaded_response cache_key path

  abbrev pub ask_response : Text → Text → Action N F Response
  ask_response query cache_key = do
    path ← call_outscraper query cache_key
    loaded ← read_json env.disk path
    or_raise (as_response path loaded) value_error

  abbrev pub response_or_ask : Option Response → Text → Text → Action N F Response
  response_or_ask (some response) query cache_key = pure response
  response_or_ask none query cache_key = ask_response query cache_key

  -- Step 3
  unfoldable pub response_step : Bool → Text → Text → Action N F Response
  response_step cache_enabled query cache_scope =
      let cache_key = build_outscraper_cache_key env.settings env.hash query cache_scope in
      do cached ← cached_response cache_enabled cache_key; response_or_ask cached query cache_key

  -- `normalize`; its file holds an object, as the caller has seen.
  unfoldable pub normalize : CachePath → Text → Action N F (List (NormalizedAmazonProduct N))
  normalize path cache_key = do
    loaded ← read_json env.disk path
    response ← or_raise (as_response path loaded) read_error
    let products = normalize_amazon_products_response env.settings.usd_to_jpy_rate response.1
    written ←
        write_json env.disk
          (record { directories = directories_of outscraper_normalized_cache; name = cache_key })
          (dumped env.models.dump_product products)
    pure products

  abbrev pub products_or_normalize :
      Option (List (NormalizedAmazonProduct N))
      → CachePath
      → Text
      → Action N F (List (NormalizedAmazonProduct N))
  products_or_normalize (some products) path cache_key = pure products
  products_or_normalize none path cache_key = normalize path cache_key

  unfoldable pub products_step :
      Bool → Response → Text → Action N F (List (NormalizedAmazonProduct N))
  products_step cache_enabled response cache_key = do
    cached ← cached_value cache_enabled outscraper_normalized_cache cache_key none
    products_or_normalize (validated_model_list env.models.validate_product cached) response.0
        cache_key

module _ {N F : Type 0} ⦃P : Python N⦄ ⦃U : Platform⦄ ⦃S : Sudachi⦄ ⦃T : Tfidf N⦄
    (env : Environment N F) where
  unfoldable pub scoring :
      ProductAttributes
      → List (NormalizedAmazonProduct N)
      → Text
      → Action N F (List (ProductScore N))
  scoring attrs products cache_key = do
    scored ← or_raise (score_products env.settings.scoring attrs products) zero_division
    written ←
        write_json env.disk
          (record { directories = directories_of outscraper_scored_cache; name = cache_key })
          (dumped env.models.dump_score scored)
    pure scored

  abbrev pub scores_or_scoring :
      Option (List (ProductScore N))
      → ProductAttributes
      → List (NormalizedAmazonProduct N)
      → Text
      → Action N F (List (ProductScore N))
  scores_or_scoring (some scores) attrs products cache_key = pure scores
  scores_or_scoring none attrs products cache_key = scoring attrs products cache_key

  -- Step 4
  unfoldable pub scores_step :
      Bool
      → ProductAttributes
      → List (NormalizedAmazonProduct N)
      → Text
      → Action N F (List (ProductScore N))
  scores_step cache_enabled attrs products normalized_cache_key =
      let cache_key =
        build_scored_cache_key env.settings env.hash env.models attrs normalized_cache_key in
      do
        cached ← cached_value env cache_enabled outscraper_scored_cache cache_key none
        scores_or_scoring (validated_model_list env.models.validate_score cached) attrs products
            cache_key

  -- The steps of a search whose texts are not empty.
  unfoldable pub search_steps : Bool → Text → Text → Action N F (List (ProductScore N))
  search_steps cache_enabled user_input cache_scope = do
    attrs ← attributes_step env cache_enabled user_input cache_scope
    query ← or_raise (select_outscraper_query attrs) value_error
    response ← response_step env cache_enabled query cache_scope
    let normalized_cache_key =
        build_normalized_cache_key env.settings env.hash response.1 cache_scope
    products ← products_step env cache_enabled response normalized_cache_key
    scores_step cache_enabled attrs products normalized_cache_key

  unfoldable pub run_product_search : Text → Bool → Text → Action N F (List (ProductScore N))
  unfolding search_steps strip
  run_product_search user_input use_cache cache_scope =
      if is_empty (strip user_input)
      then raise value_error
      else if is_empty (strip cache_scope) || ltb 128 (length (strip cache_scope))
      then raise value_error
      else search_steps (env.settings.enable_cache && use_cache) (strip user_input)
          (strip cache_scope)
