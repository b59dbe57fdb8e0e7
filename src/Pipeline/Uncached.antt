-- ===== src/Pipeline/Uncached.antt =====
-- A search without the cache is the composition of the components: the specification of
-- `run_product_search` in src/main/run.py.
use amazon_similar_search.Prelude.{
  ◌≡◌, refl, ◌∙◌, ltb, Bool, true, false, Option, none, some, Text, length, strip, is_empty,
  if◌then◌else◌, List,
}
use amazon_similar_search.Json.{Value, Fields}
use amazon_similar_search.Runtime.{Python, Platform}
use amazon_similar_search.Schemas.{ProductAttributes, ProductScore}
use amazon_similar_search.Matching.{Sudachi}
use amazon_similar_search.Extraction.Selection.{select_outscraper_query}
use amazon_similar_search.Scoring.Similarity.{Tfidf}
use amazon_similar_search.Outscraper.Request.{Effect}
use amazon_similar_search.Cache.{
  World, Failure, value_error, bonsai_error, extraction_error, runtime_error, zero_division, Result,
  ok, err, or_raise, product_attributes_cache, outscraper_raw_cache, outscraper_normalized_cache,
  outscraper_scored_cache,
}
use amazon_similar_search.Cache.Stored.{HasRoundTrip, written, written-Holds}
use amazon_similar_search.Pipeline.{Environment, dumped}
use amazon_similar_search.Pipeline.Search.{
  extract_product_attributes, attributes_step, response_step, products_step, search_steps,
}
use amazon_similar_search.Pipeline.Steps.{
  HasKeys, bind-ok, path_at, attributes_key, response_key, asked, answer, attributes_step-some,
}
use amazon_similar_search.Pipeline.Responses.{
  response_to, sent, response_step-ok, normalized, normalized_key, products_step-ok, scored,
  scored_key, scores_step-some,
}

abbrev pub or_err : {N A : Type 0} → Option A → Failure N → Result N A
or_err none e = err e
or_err (some a) e = ok a

infixl 5 ◌>>=◌
abbrev pub ◌>>=◌ : {N A B : Type 0} → Result N A → (A → Result N B) → Result N B
ok a >>= f = f a
err e >>= f = err e

module _ {N F : Type 0} ⦃P : Python N⦄ ⦃U : Platform⦄ ⦃S : Sudachi⦄ ⦃T : Tfidf N⦄
    (env : Environment N F) where
  -- The components in a row, without files.
  unfoldable pub composition : Text → List Effect → Result N (List (ProductScore N))
  composition user_input log = do
    raw_text ← or_err (answer env user_input) bonsai_error
    attrs ← or_err (extract_product_attributes env raw_text user_input) extraction_error
    query ← or_err (select_outscraper_query attrs) value_error
    response ←
        if is_empty env.settings.outscraper_api_key
        then err runtime_error
        else response_to env query log
    or_err (scored env attrs (normalized env response)) zero_division

  abbrev pub is_scope : Text → Bool
  is_scope cache_scope =
      if is_empty (strip cache_scope)
      then false
      else (if ltb 128 (length (strip cache_scope)) then false else true)

  abbrev pub specification : Text → Text → List Effect → Result N (List (ProductScore N))
  specification user_input cache_scope log =
      if is_empty (strip user_input)
      then err value_error
      else if is_scope cache_scope
      then composition (strip user_input) log
      else err value_error

  abbrev value_of : {A : Type 0} → World N F × Result N A → Result N A
  value_of r = r.1

  -- The states that a search without the cache goes through.
  abbrev pub after_attributes : Text → Text → ProductAttributes → World N F → World N F
  after_attributes user_input scope attrs w =
      written env.disk (path_at product_attributes_cache (attributes_key env user_input scope))
        (env.models.dump_attributes attrs) (asked env user_input w)

  abbrev pub after_response : Text → Text → Fields N → World N F → World N F
  after_response query scope response w =
      written env.disk (path_at outscraper_raw_cache (response_key env query scope))
        (Value.obj response) (sent env query w)

  abbrev pub after_products : Fields N → Text → World N F → World N F
  after_products response scope w =
      written env.disk (path_at outscraper_normalized_cache (normalized_key env response scope))
        (dumped env.models.dump_product (normalized env response)) w

  abbrev pub after_scores :
      ProductAttributes → Fields N → Text → List (ProductScore N) → World N F → World N F
  after_scores attrs response scope scores w =
      written env.disk
        (path_at outscraper_scored_cache (scored_key env attrs (normalized_key env response scope)))
        (dumped env.models.dump_score scores) w

  abbrev pub after_search :
      Text
      → Text
      → ProductAttributes
      → Text
      → Fields N
      → List (ProductScore N)
      → World N F
      → World N F
  after_search user_input scope attrs query response scores w =
      after_scores attrs response scope scores (
        after_products response scope
          (after_response query scope response (after_attributes user_input scope attrs w)))

  -- What the components answer in a search that succeeds.
  abbrev pub Answers :
      Text → ProductAttributes → Text → Fields N → List (ProductScore N) → List Effect → Type 0
  Answers user_input attrs query response scores log =
      ((raw_text : Text) × (answer env user_input ≡ some raw_text)
        × (extract_product_attributes env raw_text user_input ≡ some attrs))
      × (select_outscraper_query attrs ≡ some query)
      × (is_empty env.settings.outscraper_api_key ≡ false)
      × (response_to env query log ≡ ok response)
      × (scored env attrs (normalized env response) ≡ some scores)

  pub search_steps-some :
      (user_input scope : Text) (attrs : ProductAttributes) (query : Text) (response : Fields N)
      (scores : List (ProductScore N)) (w : World N F)
      → HasKeys env.hash
      → HasRoundTrip env.disk
      → Answers user_input attrs query response scores w.outscraper_calls
      → search_steps env false user_input scope w
        ≡ (after_search user_input scope attrs query response scores w, ok scores)
  unfolding search_steps
  search_steps-some user_input scope attrs query response scores w keys round_trip answers =
      let ((raw_text, asks, reads), selects, keyed, responds, ranks) = answers in
      let w1 = after_attributes user_input scope attrs w in
      let w2 = after_response query scope response w1 in
      let path = path_at outscraper_raw_cache (response_key env query scope) in
      bind-ok (attributes_step env false user_input scope) _
        (attributes_step-some env user_input scope raw_text attrs w keys asks reads)
      ∙ bind-ok (or_raise (select_outscraper_query attrs) value_error) _ {w = w1} (rw selects refl)
      ∙ bind-ok (response_step env false query scope) _
          (response_step-ok env query scope response w1 round_trip keyed responds)
      ∙ bind-ok (products_step env false (path, response) (normalized_key env response scope)) _ (
          products_step-ok env path response (normalized_key env response scope) w2
            (written-Holds env.disk round_trip path (Value.obj response) (sent env query w1)))
      ∙ scores_step-some env attrs (normalized env response) (normalized_key env response scope)
          scores (after_products response scope w2) ranks
