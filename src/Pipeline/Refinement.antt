-- ===== src/Pipeline/Refinement.antt =====
-- `run_product_search` of src/main/run.py without the cache implements the composition of the
-- components, errors included.
use amazon_similar_search.Prelude.{
  ◌≡◌, refl, ap, sym, ◌∙◌, ◌&&◌, ltb, Bool, true, false, Bool-cases, Option-cases, inl, inr, Option,
  none, some, Text, length, strip, is_empty, List, ◌⊎◌,
}
use amazon_similar_search.Json.{Value, Fields}
use amazon_similar_search.Runtime.{Python, Platform}
use amazon_similar_search.Schemas.{ProductAttributes, ProductScore}
use amazon_similar_search.Matching.{Sudachi}
use amazon_similar_search.Extraction.Selection.{select_outscraper_query}
use amazon_similar_search.Scoring.Similarity.{Tfidf}
use amazon_similar_search.Cache.{
  World, Failure, value_error, Result, ok, err, Action, ◌>>=◌, or_raise, outscraper_raw_cache,
}
use amazon_similar_search.Cache.Stored.{HasRoundTrip, written-Holds}
use amazon_similar_search.Pipeline.{Environment}
use amazon_similar_search.Pipeline.Search.{
  extract_product_attributes, attributes_step, response_step, products_step, scores_step,
  search_steps, run_product_search,
}
use amazon_similar_search.Pipeline.Steps.{
  HasKeys, bind-ok, bind-err, path_at, response_key, answer, attributes_step-none,
  attributes_step-unread, attributes_step-some,
}
use amazon_similar_search.Pipeline.Responses.{
  response_to, sent, response_step-keyless, response_step-err, response_step-ok, normalized,
  normalized_key, products_step-ok, scored, scores_step-none,
}
use amazon_similar_search.Pipeline.Uncached.{
  composition, specification, after_attributes, after_response, after_products, search_steps-some,
}

Result-cases :
    {N A : Type 0} (r : Result N A) → ((a : A) × (r ≡ ok a)) ⊎ ((e : Failure N) × (r ≡ err e))
Result-cases (ok a) = inl (a, refl)
Result-cases (err e) = inr (e, refl)

module _ {N F : Type 0} ⦃P : Python N⦄ ⦃U : Platform⦄ ⦃S : Sudachi⦄ ⦃T : Tfidf N⦄
    (env : Environment N F) (keys : HasKeys env.hash) (round_trip : HasRoundTrip env.disk) where
  abbrev Implements : Text → Text → World N F → Type 0
  Implements user_input scope w =
      (search_steps env false user_input scope w).1 ≡ composition env user_input w.outscraper_calls

  abbrev result_of : World N F × Result N (List (ProductScore N)) → Result N (List (ProductScore N))
  result_of r = r.1

  -- What a search does after its query is known.
  abbrev rest : Text → ProductAttributes → Text → Action N F (List (ProductScore N))
  rest scope attrs query = do
    response ← response_step env false query scope
    let key = normalized_key env response.1 scope
    products ← products_step env false response key
    scores_step env false attrs products key

  search_steps-rest :
      (user_input scope raw_text : Text) (attrs : ProductAttributes) (query : Text) (w : World N F)
      → answer env user_input ≡ some raw_text
      → extract_product_attributes env raw_text user_input ≡ some attrs
      → select_outscraper_query attrs ≡ some query
      → search_steps env false user_input scope w
        ≡ rest scope attrs query (after_attributes env user_input scope attrs w)
  unfolding search_steps
  search_steps-rest user_input scope raw_text attrs query w asks reads selects =
      bind-ok (attributes_step env false user_input scope) _
        (attributes_step-some env user_input scope raw_text attrs w keys asks reads)
      ∙ bind-ok (or_raise (select_outscraper_query attrs) value_error) (rest scope attrs)
          {w = after_attributes env user_input scope attrs w} (rw selects refl)

  ranks :
      (user_input scope raw_text : Text) (attrs : ProductAttributes) (query : Text)
      (response : Fields N) (w : World N F)
      → answer env user_input ≡ some raw_text
      → extract_product_attributes env raw_text user_input ≡ some attrs
      → select_outscraper_query attrs ≡ some query
      → is_empty env.settings.outscraper_api_key ≡ false
      → response_to env query w.outscraper_calls ≡ ok response
      → Implements user_input scope w
  unfolding composition
  ranks user_input scope raw_text attrs query response w asks reads selects keyed answered =
      let w1 = after_attributes env user_input scope attrs w in
      let w2 = after_response env query scope response w1 in
      let path = path_at outscraper_raw_cache (response_key env query scope) in
      let key = normalized_key env response scope in
      elim (Option-cases (scored env attrs (normalized env response))) [
        | inl none_scored ↦
            ap result_of (
              search_steps-rest user_input scope raw_text attrs query w asks reads selects
              ∙ bind-ok (response_step env false query scope) _
                  (response_step-ok env query scope response w1 round_trip keyed answered)
              ∙ bind-ok (products_step env false (path, response) key) _ (
                  products_step-ok env path response key w2 (
                    written-Holds env.disk round_trip path (Value.obj response)
                      (sent env query w1)))
              ∙ scores_step-none env attrs (normalized env response) key
                  (after_products env response scope w2) none_scored)
            ∙ sym (rw (composition, asks, reads, selects, keyed, answered, none_scored) refl)
        | inr (scores, ranked) ↦
            ap result_of (
              search_steps-some env user_input scope attrs query response scores w keys round_trip
                ((raw_text, asks, reads), selects, keyed, answered, ranked))
            ∙ sym (rw (composition, asks, reads, selects, keyed, answered, ranked) refl)
      ]

  responds :
      (user_input scope raw_text : Text) (attrs : ProductAttributes) (query : Text) (w : World N F)
      → answer env user_input ≡ some raw_text
      → extract_product_attributes env raw_text user_input ≡ some attrs
      → select_outscraper_query attrs ≡ some query
      → Implements user_input scope w
  unfolding composition
  responds user_input scope raw_text attrs query w asks reads selects =
      let w1 = after_attributes env user_input scope attrs w in
      let reached = search_steps-rest user_input scope raw_text attrs query w asks reads selects in
      elim (Bool-cases (is_empty env.settings.outscraper_api_key)) [
        | inl keyless ↦
            ap result_of (
              reached
              ∙ bind-err (response_step env false query scope) _
                  (response_step-keyless env query scope w1 keyless))
            ∙ sym (rw (composition, asks, reads, selects, keyless) refl)
        | inr keyed ↦ elim (Result-cases (response_to env query w.outscraper_calls)) [
          | inl (response, answered) ↦
              ranks user_input scope raw_text attrs query response w asks reads selects keyed
                answered
          | inr (e, failed) ↦
              ap result_of (
                reached
                ∙ bind-err (response_step env false query scope) _
                    (response_step-err env query scope w1 keyed failed))
              ∙ sym (rw (composition, asks, reads, selects, keyed, failed) refl)
        ]
      ]

  unchosen :
      (query : Option Text) (w : World N F)
      → query ≡ none
      → or_raise query value_error w ≡ (w, err value_error)
  unchosen query w e = rw e refl

  selects :
      (user_input scope raw_text : Text) (attrs : ProductAttributes) (w : World N F)
      → answer env user_input ≡ some raw_text
      → extract_product_attributes env raw_text user_input ≡ some attrs
      → Implements user_input scope w
  unfolding composition search_steps
  selects user_input scope raw_text attrs w asks reads =
      elim (Option-cases (select_outscraper_query attrs)) [
        | inl unselected ↦
            ap result_of (
              bind-ok (attributes_step env false user_input scope) _
                (attributes_step-some env user_input scope raw_text attrs w keys asks reads)
              ∙ bind-err (or_raise (select_outscraper_query attrs) value_error) (rest scope attrs) (
                  unchosen (select_outscraper_query attrs)
                    (after_attributes env user_input scope attrs w) unselected))
            ∙ sym (rw (composition, asks, reads, unselected) refl)
        | inr (query, selected) ↦
            responds user_input scope raw_text attrs query w asks reads selected
      ]

  pub search_steps-composition :
      (user_input scope : Text) (w : World N F) → Implements user_input scope w
  unfolding composition search_steps
  search_steps-composition user_input scope w = elim (Option-cases (answer env user_input)) [
    | inl silent ↦
        ap result_of (
          bind-err (attributes_step env false user_input scope) _
            (attributes_step-none env user_input scope w silent))
        ∙ sym (rw (composition, silent) refl)
    | inr (raw_text, asks) ↦
        elim (Option-cases (extract_product_attributes env raw_text user_input)) [
          | inl unread ↦
              ap result_of (
                bind-err (attributes_step env false user_input scope) _
                  (attributes_step-unread env user_input scope raw_text w asks unread))
              ∙ sym (rw (composition, asks, unread) refl)
          | inr (attrs, reads) ↦ selects user_input scope raw_text attrs w asks reads
        ]
  ]

  and-false : (a : Bool) → (a && false) ≡ false
  and-false true = refl
  and-false false = refl

  -- With digests that name files, and files that read back as they were written, a search that does
  -- not use the cache returns or raises what the components in a row do, whatever the files are.
  pub run_product_search-specification :
      (user_input cache_scope : Text) (w : World N F)
      → (run_product_search env user_input false cache_scope w).1
        ≡ specification env user_input cache_scope w.outscraper_calls
  unfolding run_product_search
  run_product_search-specification user_input cache_scope w =
      elim (Bool-cases (is_empty (strip user_input))) [
        | inl e ↦ rw e refl
        | inr e ↦ elim (Bool-cases (is_empty (strip cache_scope))) [
          | inl e2 ↦ rw (e, e2) refl
          | inr e2 ↦ elim (Bool-cases (ltb 128 (length (strip cache_scope)))) [
            | inl e3 ↦ rw (e, e2, e3) refl
            | inr e3 ↦
                rw (e, e2, e3, and-false env.settings.enable_cache)
                  (search_steps-composition (strip user_input) (strip cache_scope) w)
          ]
        ]
      ]
