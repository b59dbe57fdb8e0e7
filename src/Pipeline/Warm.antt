-- ===== src/Pipeline/Warm.antt =====
-- A search of src/main/run.py that is repeated while its cache is fresh.
use amazon_similar_search.Prelude.{
  ◌≡◌, refl, ◌∙◌, ℕ, ◌+◌, true, false, Option, none, some, Text, List, [], ◌∷◌, map,
}
use amazon_similar_search.Json.{Value, Fields}
use amazon_similar_search.Runtime.{Python, Platform}
use amazon_similar_search.Schemas.{ProductAttributes, NormalizedAmazonProduct, ProductScore}
use amazon_similar_search.Cache.{
  CachePath, World, ok, ◌>>=◌, path_for, load, fresh_path, product_attributes_cache,
  outscraper_raw_cache, outscraper_normalized_cache,
}
use amazon_similar_search.Cache.Stored.{
  Holds, is_expired, ticked, load-Holds, load-fresh, fresh_path-fresh,
}
use amazon_similar_search.Pipeline.{
  Environment, Models, build_outscraper_cache_key, build_normalized_cache_key, validated_items,
  validated_model_list, dumped, to_items,
}
use amazon_similar_search.Pipeline.Search.{
  attributes_step, response_step, products_step, loaded_response, valid_attributes,
}
use amazon_similar_search.Pipeline.Steps.{
  HasKeys, bind-ok, path_at, path_for-build_cache_key, path_for-attributes, attributes_key,
  response_key,
}
use amazon_similar_search.Pipeline.Namespaces.{
  outscraper_raw_cache-IsRelative, outscraper_normalized_cache-IsRelative,
}
use amazon_similar_search.Pipeline.Responses.{normalized_key}

-- What a model is dumped to is validated as that model.
abbrev pub HasModels : {N : Type 0} → Models N → Type 0
HasModels {N} models =
    ((attrs : ProductAttributes)
      → (d : Fields N) × (models.dump_attributes attrs ≡ Value.obj d)
        × (models.validate_attributes (Value.obj d) ≡ some attrs))
    × ((product : NormalizedAmazonProduct N)
        → models.validate_product (models.dump_product product) ≡ some product)
    × ((score : ProductScore N) → models.validate_score (models.dump_score score) ≡ some score)

validated_items-dumped :
    {N A : Type 0} (dump : A → Value N) (validate : Value N → Option A) (xs : List A)
    → ((x : A) → validate (dump x) ≡ some x)
    → validated_items validate (to_items (map dump xs)) ≡ some xs
validated_items-dumped dump validate [] valid = refl
validated_items-dumped dump validate (x ∷ xs) valid =
    rw (valid x, validated_items-dumped dump validate xs valid) refl

pub validated_model_list-dumped :
    {N A : Type 0} (dump : A → Value N) (validate : Value N → Option A) (xs : List A)
    → ((x : A) → validate (dump x) ≡ some x)
    → validated_model_list validate (dumped dump xs) ≡ some xs
unfolding validated_model_list
validated_model_list-dumped dump validate xs valid = validated_items-dumped dump validate xs valid

module _ {N F : Type 0} ⦃P : Python N⦄ ⦃U : Platform⦄ (env : Environment N F)
    (keys : HasKeys env.hash) (models : HasModels env.models) where
  valid_attributes-dumped :
      (attrs : ProductAttributes)
      → valid_attributes env (env.models.dump_attributes attrs) ≡ some attrs
  valid_attributes-dumped attrs = let (d, is_object, valid) = models.0 attrs in rw (is_object) valid

  pub attributes_step-cached :
      (user_input scope : Text) (attrs : ProductAttributes) (time : ℕ) (w : World N F)
      → Holds env.disk
          (path_at product_attributes_cache (attributes_key env user_input scope))
          (env.models.dump_attributes attrs)
          time
          w
      → is_expired env.disk env.settings.llm_cache_ttl_seconds time w.ticks ≡ false
      → attributes_step env true user_input scope w ≡ (ticked w, ok attrs)
  unfolding attributes_step
  attributes_step-cached user_input scope attrs time w holds fresh =
      let value = env.models.dump_attributes attrs in
      let key = attributes_key env user_input scope in
      bind-ok (load env.disk product_attributes_cache key (some env.settings.llm_cache_ttl_seconds))
        _
        (load-fresh env.disk product_attributes_cache key (path_at product_attributes_cache key)
          value env.settings.llm_cache_ttl_seconds time w holds
          (path_for-attributes env user_input scope keys) fresh)
      ∙ rw (valid_attributes-dumped attrs) refl

  path_for-response :
      (query scope : Text)
      → path_for outscraper_raw_cache (response_key env query scope)
        ≡ some (path_at outscraper_raw_cache (response_key env query scope))
  unfolding build_outscraper_cache_key
  path_for-response query scope =
      path_for-build_cache_key env.hash outscraper_raw_cache _ keys outscraper_raw_cache-IsRelative

  pub response_step-cached :
      (query scope : Text) (response : Fields N) (time : ℕ) (w : World N F)
      → Holds env.disk
          (path_at outscraper_raw_cache (response_key env query scope))
          (Value.obj response)
          time
          w
      → is_expired env.disk env.settings.outscraper_cache_ttl_seconds time w.ticks ≡ false
      → is_expired env.disk env.settings.outscraper_cache_ttl_seconds time (w.ticks + 1) ≡ false
      → response_step env true query scope w ≡ (
        ticked (ticked w),
        ok (path_at outscraper_raw_cache (response_key env query scope), response),
      )
  unfolding response_step
  response_step-cached query scope response time w holds fresh still_fresh =
      let key = response_key env query scope in
      let path = path_at outscraper_raw_cache key in
      let limit = some env.settings.outscraper_cache_ttl_seconds in
      let age = env.settings.outscraper_cache_ttl_seconds in
      bind-ok (fresh_path env.disk outscraper_raw_cache key limit >>= loaded_response env key) _ (
        bind-ok (fresh_path env.disk outscraper_raw_cache key limit) (loaded_response env key) (
          fresh_path-fresh env.disk outscraper_raw_cache key path (Value.obj response) age time w
            holds (path_for-response query scope) fresh)
        ∙ bind-ok (load env.disk outscraper_raw_cache key limit) _ (
            load-fresh env.disk outscraper_raw_cache key path (Value.obj response) age time
              (ticked w) holds (path_for-response query scope) still_fresh))

  path_for-products :
      (response : Fields N) (scope : Text)
      → path_for outscraper_normalized_cache (normalized_key env response scope)
        ≡ some (path_at outscraper_normalized_cache (normalized_key env response scope))
  unfolding build_normalized_cache_key
  path_for-products response scope =
      path_for-build_cache_key env.hash outscraper_normalized_cache _ keys
        outscraper_normalized_cache-IsRelative

  pub products_step-cached :
      (path : CachePath) (response : Fields N) (scope : Text)
      (products : List (NormalizedAmazonProduct N)) {time : ℕ} (w : World N F)
      → Holds env.disk
          (path_at outscraper_normalized_cache (normalized_key env response scope))
          (dumped env.models.dump_product products)
          time
          w
      → products_step env true (path, response) (normalized_key env response scope) w
        ≡ (w, ok products)
  unfolding products_step
  products_step-cached path response scope products w holds =
      let key = normalized_key env response scope in
      bind-ok (load env.disk outscraper_normalized_cache key none) _ (
        load-Holds env.disk outscraper_normalized_cache key
          (path_at outscraper_normalized_cache key) (dumped env.models.dump_product products) w
          (path_for-products response scope) holds)
      ∙ rw
          (validated_model_list-dumped env.models.dump_product env.models.validate_product products
            models.1)
          refl
