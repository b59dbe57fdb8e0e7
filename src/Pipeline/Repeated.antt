-- ===== src/Pipeline/Repeated.antt =====
-- A search of src/main/run.py that is repeated while its cache is fresh returns the same ranking, and
-- calls neither the language model nor Outscraper.
use amazon_similar_search.Prelude.{
  ◌≡◌, refl, ap, sym, ◌∙◌, ℕ, ◌+◌, ℤ, ltb, ◌&&◌, Bool, true, false, Bool-cases, inl, inr, none,
  some, Text, length, strip, is_empty, List, subst, arith,
}
use amazon_similar_search.Json.{Value, Fields}
use amazon_similar_search.Runtime.{Python, Platform}
use amazon_similar_search.Schemas.{ProductAttributes, NormalizedAmazonProduct, ProductScore}
use amazon_similar_search.Matching.{Sudachi}
use amazon_similar_search.Extraction.Selection.{select_outscraper_query}
use amazon_similar_search.Scoring.Similarity.{Tfidf}
use amazon_similar_search.Cache.{
  World, value_error, Result, ok, path_for, or_raise, load, product_attributes_cache,
  outscraper_raw_cache, outscraper_normalized_cache, outscraper_scored_cache,
}
use amazon_similar_search.Cache.Stored.{
  HasRoundTrip, Holds, written-Holds, Holds-written, is_expired, ticked, load-Holds,
}
use amazon_similar_search.Pipeline.{Environment, build_scored_cache_key, dumped}
use amazon_similar_search.Pipeline.Search.{
  attributes_step, response_step, products_step, scores_step, search_steps, run_product_search,
}
use amazon_similar_search.Pipeline.Steps.{
  HasKeys, bind-ok, path_at, path_for-build_cache_key, attributes_key, response_key, asked,
}
use amazon_similar_search.Pipeline.Namespaces.{
  outscraper_scored_cache-IsRelative, raw-product, normalized-product, scored-product,
  normalized-raw, scored-raw, scored-normalized,
}
use amazon_similar_search.Pipeline.Responses.{sent, normalized, normalized_key, scored_key}
use amazon_similar_search.Pipeline.Uncached.{
  after_search, after_attributes, after_response, after_products, after_scores, search_steps-some,
}
use amazon_similar_search.Pipeline.Composed.{err-ok, composition-Answers}
use amazon_similar_search.Pipeline.Refinement.{search_steps-composition}
use amazon_similar_search.Pipeline.Warm.{
  HasModels, validated_model_list-dumped, attributes_step-cached, response_step-cached,
  products_step-cached,
}

-- Three more readings of the clock.
abbrev pub ticked_thrice : {N F : Type 0} → World N F → World N F
ticked_thrice w = ticked (ticked (ticked w))

module _ {N F : Type 0} ⦃P : Python N⦄ (env : Environment N F) where
  -- What a search that starts at this reading of the clock writes is not too old when the same search
  -- reads it afterwards: the attributes are written first and read four readings later, the response
  -- is written second and read four and five readings later.
  abbrev pub IsFresh : ℕ → Type 0
  IsFresh start =
      (is_expired env.disk env.settings.llm_cache_ttl_seconds start (start + 4) ≡ false)
      × (is_expired env.disk env.settings.outscraper_cache_ttl_seconds (start + 1) (start + 5)
          ≡ false)
      × (is_expired env.disk env.settings.outscraper_cache_ttl_seconds (start + 1) (start + 6)
          ≡ false)

module _ {N F : Type 0} ⦃P : Python N⦄ ⦃U : Platform⦄ ⦃S : Sudachi⦄ ⦃T : Tfidf N⦄
    (env : Environment N F) (keys : HasKeys env.hash) (round_trip : HasRoundTrip env.disk)
    (models : HasModels env.models) where
  fresh_at :
      (max_age : ℤ) {time now later : ℕ}
      → now ≡ later
      → is_expired env.disk max_age time now ≡ false
      → is_expired env.disk max_age time later ≡ false
  fresh_at max_age {time} same fresh =
      subst (λ (n : ℕ). is_expired env.disk max_age time n ≡ false) same fresh

  path_for-scores :
      (attrs : ProductAttributes) (key : Text)
      → path_for outscraper_scored_cache (scored_key env attrs key)
        ≡ some (path_at outscraper_scored_cache (scored_key env attrs key))
  unfolding build_scored_cache_key
  path_for-scores attrs key =
      path_for-build_cache_key env.hash outscraper_scored_cache _ keys
        outscraper_scored_cache-IsRelative

  scores_step-cached :
      (attrs : ProductAttributes) (products : List (NormalizedAmazonProduct N)) (key : Text)
      (scores : List (ProductScore N)) {time : ℕ} (w : World N F)
      → Holds env.disk
          (path_at outscraper_scored_cache (scored_key env attrs key))
          (dumped env.models.dump_score scores)
          time
          w
      → scores_step env true attrs products key w ≡ (w, ok scores)
  unfolding scores_step
  scores_step-cached attrs products key scores w holds =
      let name = scored_key env attrs key in
      bind-ok (load env.disk outscraper_scored_cache name none) _ (
        load-Holds env.disk outscraper_scored_cache name (path_at outscraper_scored_cache name)
          (dumped env.models.dump_score scores) w (path_for-scores attrs key) holds)
      ∙ rw
          (validated_model_list-dumped env.models.dump_score env.models.validate_score scores
            models.2)
          refl

  search_steps-cached :
      (user_input scope : Text) (attrs : ProductAttributes) (query : Text) (response : Fields N)
      (scores : List (ProductScore N)) (w : World N F)
      → select_outscraper_query attrs ≡ some query
      → IsFresh env w.ticks
      → search_steps env true user_input scope
          (after_search env user_input scope attrs query response scores w)
        ≡ (
          ticked_thrice (after_search env user_input scope attrs query response scores w),
          ok scores,
        )
  unfolding search_steps
  search_steps-cached user_input scope attrs query response scores w selects (fresh, kept, still) =
      let w1 = after_attributes env user_input scope attrs w in
      let w2 = after_response env query scope response w1 in
      let w3 = after_products env response scope w2 in
      let w4 = after_scores env attrs response scope scores w3 in
      let key = normalized_key env response scope in
      let raw = path_at outscraper_raw_cache (response_key env query scope) in
      let kept_attributes : Holds env.disk
          (path_at product_attributes_cache (attributes_key env user_input scope))
          (env.models.dump_attributes attrs) w.ticks w4 =
        Holds-written env.disk _ _ _ _ w3 (scored-product _ _) (
          Holds-written env.disk _ _ _ _ w2 (normalized-product _ _) (
            Holds-written env.disk _ _ _ _ (sent env query w1) (raw-product _ _)
              (written-Holds env.disk round_trip _ _ (asked env user_input w)))) in
      let kept_response : Holds env.disk raw (Value.obj response) w1.ticks w4 =
        Holds-written env.disk _ _ _ _ w3 (scored-raw _ _) (
          Holds-written env.disk _ _ _ _ w2 (normalized-raw _ _)
            (written-Holds env.disk round_trip _ _ (sent env query w1))) in
      let kept_products : Holds env.disk (path_at outscraper_normalized_cache key)
          (dumped env.models.dump_product (normalized env response)) w2.ticks w4 =
        Holds-written env.disk _ _ _ _ w3 (scored-normalized _ _)
          (written-Holds env.disk round_trip _ _ w2) in
      bind-ok (attributes_step env true user_input scope) _ (
        attributes_step-cached env keys models user_input scope attrs w.ticks w4 kept_attributes
          (fresh_at env.settings.llm_cache_ttl_seconds (omega arith) fresh))
      ∙ bind-ok (or_raise (select_outscraper_query attrs) value_error) _ {w = ticked w4}
          (rw selects refl)
      ∙ bind-ok (response_step env true query scope) _ (
          response_step-cached env keys models query scope response w1.ticks (ticked w4)
            kept_response (fresh_at env.settings.outscraper_cache_ttl_seconds (omega arith) kept)
            (fresh_at env.settings.outscraper_cache_ttl_seconds (omega arith) still))
      ∙ bind-ok (products_step env true (raw, response) key) _ (
          products_step-cached env keys models raw response scope (normalized env response)
            (ticked_thrice w4) kept_products)
      ∙ scores_step-cached attrs (normalized env response) key scores (ticked_thrice w4)
          (written-Holds env.disk round_trip _ _ w3)

  -- A search that has returned has passed the checks of its texts.
  run_product_search-accepted :
      (user_input cache_scope : Text) (scores : List (ProductScore N)) (w : World N F)
      → (run_product_search env user_input false cache_scope w).1 ≡ ok scores
      → (use_cache : Bool) (later : World N F)
      → run_product_search env user_input use_cache cache_scope later
        ≡ search_steps env
            (env.settings.enable_cache && use_cache)
            (strip user_input)
            (strip cache_scope)
            later
  unfolding run_product_search
  run_product_search-accepted user_input cache_scope scores w h use_cache later =
      elim (Bool-cases (is_empty (strip user_input))) [
        | inl e ↦ absurd (err-ok (rw e at h))
        | inr e ↦ elim (Bool-cases (is_empty (strip cache_scope))) [
          | inl e2 ↦ absurd (err-ok (rw (e, e2) at h))
          | inr e2 ↦ elim (Bool-cases (ltb 128 (length (strip cache_scope)))) [
            | inl e3 ↦ absurd (err-ok (rw (e, e2, e3) at h))
            | inr e3 ↦ rw (e, e2, e3) refl
          ]
        ]
      ]

  -- With digests that name files, files that read back as they were written, models that are validated
  -- as what they were dumped from, and files that are not too old where the repetition reads them: after
  -- a search without the cache that has returned a ranking, the same search with the cache returns the
  -- same ranking, and only reads the clock: no file is written, and neither the language model nor Outscraper is called.
  pub run_product_search-repeated :
      (user_input cache_scope : Text) (scores : List (ProductScore N)) (w : World N F)
      → env.settings.enable_cache ≡ true
      → IsFresh env w.ticks
      → (run_product_search env user_input false cache_scope w).1 ≡ ok scores
      → run_product_search env user_input true cache_scope
          (run_product_search env user_input false cache_scope w).0
        ≡ (ticked_thrice (run_product_search env user_input false cache_scope w).0, ok scores)
  run_product_search-repeated user_input cache_scope scores w enabled fresh h =
      let accepted = run_product_search-accepted user_input cache_scope scores w h in
      let input = strip user_input in
      let scope = strip cache_scope in
      let plain : run_product_search env user_input false cache_scope w
          ≡ search_steps env false input scope w =
        accepted false w ∙ ap (λ (b : Bool). search_steps env (b && false) input scope w) enabled in
      let result = sym (ap (λ (r : World N F × Result N (List (ProductScore N))). r.1) plain) ∙ h in
      let (attrs, query, response, answers) =
        composition-Answers env input w.outscraper_calls scores
          (sym (search_steps-composition env keys round_trip input scope w) ∙ result) in
      let after = after_search env input scope attrs query response scores w in
      let ends : run_product_search env user_input false cache_scope w ≡ (after, ok scores) =
        plain
        ∙ search_steps-some env input scope attrs query response scores w keys round_trip answers in
      let ended = ap (λ (r : World N F × Result N (List (ProductScore N))). r.0) ends in
      subst
        (λ later.
          run_product_search env user_input true cache_scope later
          ≡ (ticked_thrice later, ok scores))
        (sym ended)
        (accepted true after
          ∙ ap (λ (b : Bool). search_steps env (b && true) input scope after) enabled
          ∙ search_steps-cached input scope attrs query response scores w answers.1 fresh)
