-- ===== src/Pipeline/Responses.antt =====
-- The steps of `run_product_search` in src/main/run.py that fetch, normalize and score, without the
-- cache.
use amazon_similar_search.Prelude.{
  ℕ, ◌≡◌, refl, ap, ◌∙◌, true, false, Option, none, some, Text, is_empty, List,
}
use amazon_similar_search.Json.{Value, Fields}
use amazon_similar_search.Runtime.{Python, Platform}
use amazon_similar_search.Schemas.{ProductAttributes, NormalizedAmazonProduct, ProductScore}
use amazon_similar_search.Matching.{Sudachi}
use amazon_similar_search.Normalization.{normalize_amazon_products_response}
use amazon_similar_search.Scoring.Similarity.{Tfidf}
use amazon_similar_search.Scoring.Rank.{score_products}
use amazon_similar_search.Outscraper.Task
use amazon_similar_search.Outscraper.Request.{Effect}
use amazon_similar_search.Outscraper.Fetch.{fetch_amazon_products}
use amazon_similar_search.Cache.{
  CachePath, World, Failure, runtime_error, zero_division, Result, ok, err, outscraper_raw_cache,
  outscraper_normalized_cache, outscraper_scored_cache, write_json, read_json,
}
use amazon_similar_search.Cache.Stored.{
  HasRoundTrip, Holds, written, write_json-written, written-Holds, read_json-Holds,
}
use amazon_similar_search.Pipeline.{
  Environment, dumped, validated_model_list, build_normalized_cache_key, build_scored_cache_key,
}
use amazon_similar_search.Pipeline.Search.{
  fetched, fetch, call_outscraper, response_step, normalize, products_step, scoring, scores_step,
}
use amazon_similar_search.Pipeline.Steps.{bind-ok, bind-err, path_at, response_key}

module _ {N F : Type 0} ⦃P : Python N⦄ ⦃U : Platform⦄ (env : Environment N F) where
  abbrev run_fetch : Text → List Effect → Task.Result N (Fields N) × List Effect
  run_fetch query log =
      fetch_amazon_products env.server query env.settings.outscraper_api_key env.settings.outscraper
        log

  -- What Outscraper answers to a query, after the requests that were sent before.
  abbrev pub response_to : Text → List Effect → Result N (Fields N)
  response_to query log = fetched env (run_fetch query log).0

  -- The state after the requests of a query.
  abbrev pub sent : Text → World N F → World N F
  sent query w = record w { outscraper_calls = (run_fetch query w.outscraper_calls).1 }

  fetch-result :
      (query : Text) (w : World N F)
      → fetch env query w ≡ (sent query w, response_to query w.outscraper_calls)
  unfolding fetch
  fetch-result query w = refl

  pub response_step-keyless :
      (query scope : Text) (w : World N F)
      → is_empty env.settings.outscraper_api_key ≡ true
      → response_step env false query scope w ≡ (w, err runtime_error)
  unfolding response_step call_outscraper
  response_step-keyless query scope w e = rw e refl

  call_outscraper-err :
      (query cache_key : Text) (w : World N F) {e : Failure N}
      → is_empty env.settings.outscraper_api_key ≡ false
      → response_to query w.outscraper_calls ≡ err e
      → call_outscraper env query cache_key w ≡ (sent query w, err e)
  unfolding call_outscraper
  call_outscraper-err query cache_key w keyed failed = rw keyed (
      bind-err (fetch env query) _
        (fetch-result query w ∙ ap (λ (r : Result N (Fields N)). (sent query w, r)) failed))

  call_outscraper-ok :
      (query cache_key : Text) (response : Fields N) (w : World N F)
      → is_empty env.settings.outscraper_api_key ≡ false
      → response_to query w.outscraper_calls ≡ ok response
      → call_outscraper env query cache_key w ≡ (
        written env.disk
            (path_at outscraper_raw_cache cache_key)
            (Value.obj response)
            (sent query w),
        ok (path_at outscraper_raw_cache cache_key),
      )
  unfolding call_outscraper
  call_outscraper-ok query cache_key response w keyed answered =
      let path = path_at outscraper_raw_cache cache_key in
      rw keyed (
        bind-ok (fetch env query) _
          (fetch-result query w ∙ ap (λ (r : Result N (Fields N)). (sent query w, r)) answered)
        ∙ write_json-written env.disk path (Value.obj response) (sent query w))

  pub response_step-err :
      (query scope : Text) (w : World N F) {e : Failure N}
      → is_empty env.settings.outscraper_api_key ≡ false
      → response_to query w.outscraper_calls ≡ err e
      → response_step env false query scope w ≡ (sent query w, err e)
  unfolding response_step
  response_step-err query scope w keyed failed =
      bind-err (call_outscraper env query (response_key env query scope)) _
        (call_outscraper-err query (response_key env query scope) w keyed failed)

  pub response_step-ok :
      (query scope : Text) (response : Fields N) (w : World N F)
      → HasRoundTrip env.disk
      → is_empty env.settings.outscraper_api_key ≡ false
      → response_to query w.outscraper_calls ≡ ok response
      → response_step env false query scope w ≡ (
        written env.disk
            (path_at outscraper_raw_cache (response_key env query scope))
            (Value.obj response)
            (sent query w),
        ok (path_at outscraper_raw_cache (response_key env query scope), response),
      )
  unfolding response_step
  response_step-ok query scope response w round_trip keyed answered =
      let path = path_at outscraper_raw_cache (response_key env query scope) in
      let stored = written env.disk path (Value.obj response) (sent query w) in
      bind-ok (call_outscraper env query (response_key env query scope)) _
        (call_outscraper-ok query (response_key env query scope) response w keyed answered)
      ∙ bind-ok (read_json env.disk path) _ (
          read_json-Holds env.disk path (Value.obj response) stored
            (written-Holds env.disk round_trip path (Value.obj response) (sent query w)))

  abbrev pub normalized_key : Fields N → Text → Text
  normalized_key response scope = build_normalized_cache_key env.settings env.hash response scope

  abbrev pub normalized : Fields N → List (NormalizedAmazonProduct N)
  normalized response = normalize_amazon_products_response env.settings.usd_to_jpy_rate response

  pub products_step-ok :
      (path : CachePath) (response : Fields N) (cache_key : Text) {time : ℕ} (w : World N F)
      → Holds env.disk path (Value.obj response) time w
      → products_step env false (path, response) cache_key w ≡ (
        written env.disk
            (path_at outscraper_normalized_cache cache_key)
            (dumped env.models.dump_product (normalized response))
            w,
        ok (normalized response),
      )
  unfolding products_step normalize validated_model_list
  products_step-ok path response cache_key w holds =
      let target = path_at outscraper_normalized_cache cache_key in
      bind-ok (read_json env.disk path) _
        (read_json-Holds env.disk path (Value.obj response) w holds)
      ∙ bind-ok (write_json env.disk target (dumped env.models.dump_product (normalized response)))
          _
          (write_json-written env.disk target (dumped env.models.dump_product (normalized response))
            w)

module _ {N F : Type 0} ⦃P : Python N⦄ ⦃U : Platform⦄ ⦃S : Sudachi⦄ ⦃T : Tfidf N⦄
    (env : Environment N F) where
  abbrev pub scored :
      ProductAttributes → List (NormalizedAmazonProduct N) → Option (List (ProductScore N))
  scored attrs products = score_products env.settings.scoring attrs products

  abbrev pub scored_key : ProductAttributes → Text → Text
  scored_key attrs normalized_key =
      build_scored_cache_key env.settings env.hash env.models attrs normalized_key

  pub scores_step-none :
      (attrs : ProductAttributes) (products : List (NormalizedAmazonProduct N))
      (normalized_key : Text) (w : World N F)
      → scored attrs products ≡ none
      → scores_step env false attrs products normalized_key w ≡ (w, err zero_division)
  unfolding scores_step scoring validated_model_list
  scores_step-none attrs products normalized_key w e = rw e refl

  pub scores_step-some :
      (attrs : ProductAttributes) (products : List (NormalizedAmazonProduct N))
      (normalized_key : Text) (scores : List (ProductScore N)) (w : World N F)
      → scored attrs products ≡ some scores
      → scores_step env false attrs products normalized_key w ≡ (
        written env.disk
            (path_at outscraper_scored_cache (scored_key attrs normalized_key))
            (dumped env.models.dump_score scores)
            w,
        ok scores,
      )
  unfolding scores_step scoring validated_model_list
  scores_step-some attrs products normalized_key scores w e =
      let target = path_at outscraper_scored_cache (scored_key attrs normalized_key) in
      rw e (
        bind-ok (write_json env.disk target (dumped env.models.dump_score scores)) _
          (write_json-written env.disk target (dumped env.models.dump_score scores) w))
