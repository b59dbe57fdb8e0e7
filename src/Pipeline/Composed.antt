-- ===== src/Pipeline/Composed.antt =====
-- What the components of a search of src/main/run.py answered, when it returned a ranking.
use amazon_similar_search.Prelude.{
  ◌≡◌, ◌≢◌, refl, ap, Bool, true, false, Option, none, some, Text, is_empty, if◌then◌else◌, List,
  arith,
}
use amazon_similar_search.Json.{Fields}
use amazon_similar_search.Runtime.{Python, Platform}
use amazon_similar_search.Schemas.{ProductAttributes, ProductScore}
use amazon_similar_search.Matching.{Sudachi}
use amazon_similar_search.Extraction.Selection.{select_outscraper_query}
use amazon_similar_search.Scoring.Similarity.{Tfidf}
use amazon_similar_search.Outscraper.Request.{Effect}
use amazon_similar_search.Cache.{
  Failure, value_error, bonsai_error, extraction_error, runtime_error, zero_division, Result, ok,
  err,
}
use amazon_similar_search.Pipeline.{Environment}
use amazon_similar_search.Pipeline.Search.{extract_product_attributes}
use amazon_similar_search.Pipeline.Steps.{answer}
use amazon_similar_search.Pipeline.Responses.{response_to, normalized, scored}
use amazon_similar_search.Pipeline.Uncached.{◌>>=◌, or_err, composition, Answers}

or_err-ok :
    {N A B : Type 0} (o : Option A) (e : Failure N) (f : A → Result N B) {b : B}
    → (or_err o e >>= f) ≡ ok b
    → (a : A) × (o ≡ some a) × (f a ≡ ok b)
or_err-ok none e f h = ground arith
or_err-ok (some a) e f h = (a, refl, h)

bind_ok :
    {N A B : Type 0} (r : Result N A) (f : A → Result N B) {b : B}
    → (r >>= f) ≡ ok b
    → (a : A) × (r ≡ ok a) × (f a ≡ ok b)
bind_ok (ok a) f h = (a, refl, h)
bind_ok (err e) f h = ground arith

pub err-ok : {N A : Type 0} {e : Failure N} {a : A} → err e ≢ ok a
err-ok h = ground arith

last_ok : {N A : Type 0} (o : Option A) (e : Failure N) {a : A} → or_err o e ≡ ok a → o ≡ some a
last_ok none e h = ground arith
last_ok (some x) e h = ap some (ground arith)

keyed_ok :
    {N A : Type 0} (keyless : Bool) (r : Result N A) (e : Failure N) {a : A}
    → (if keyless then err e else r) ≡ ok a
    → (keyless ≡ false) × (r ≡ ok a)
keyed_ok true r e h = ground arith
keyed_ok false r e h = (refl, h)

module _ {N F : Type 0} ⦃P : Python N⦄ ⦃U : Platform⦄ ⦃S : Sudachi⦄ ⦃T : Tfidf N⦄
    (env : Environment N F) where
  pub composition-Answers :
      (user_input : Text) (log : List Effect) (scores : List (ProductScore N))
      → composition env user_input log ≡ ok scores
      → (attrs : ProductAttributes) × (query : Text) × (response : Fields N) × Answers env
          user_input attrs query response scores log
  unfolding composition
  composition-Answers user_input log scores h =
      let (raw_text, asks, h1) = or_err-ok (answer env user_input) bonsai_error _ h in
      let (attrs, reads, h2) =
        or_err-ok (extract_product_attributes env raw_text user_input) extraction_error _ h1 in
      let (query, selects, h3) = or_err-ok (select_outscraper_query attrs) value_error _ h2 in
      let (response, h4, h5) =
        bind_ok
          (if is_empty env.settings.outscraper_api_key
            then err runtime_error
            else response_to env query log)
          _ h3 in
      let (keyed, responds) =
        keyed_ok (is_empty env.settings.outscraper_api_key) (response_to env query log)
          runtime_error h4 in
      (
        attrs,
        query,
        response,
        (
          (raw_text, asks, reads),
          selects,
          keyed,
          responds,
          last_ok (scored env attrs (normalized env response)) zero_division h5,
        ),
      )
