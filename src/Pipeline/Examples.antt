-- ===== src/Pipeline/Examples.antt =====
-- Searches of src/main/run.py with small servers, and the theorems about them.
mod Values
mod AttributesRow
mod ProductRow
mod ScoreRow
mod Rows
mod Searches
use amazon_similar_search.Prelude.{◌≡◌, ◌∙◌, refl, true, false, codes}
use amazon_similar_search.Runtime.Fixed.{ascii, fixed_point}
use amazon_similar_search.Scoring.Examples.{no_morphemes, half_similar}
use amazon_similar_search.Cache.{ok}
use amazon_similar_search.Pipeline.Search.{run_product_search}
use amazon_similar_search.Pipeline.Uncached.{specification}
use amazon_similar_search.Pipeline.Refinement.{run_product_search-specification}
use amazon_similar_search.Pipeline.Repeated.{ticked_thrice, run_product_search-repeated}
use amazon_similar_search.Pipeline.Examples.Rows.{toy_models-HasModels}
use amazon_similar_search.Pipeline.Examples.Searches.{
  env, env-HasKeys, env-HasRoundTrip, empty, scores, finds,
}

run_product_search-specification_example :
    (run_product_search env (codes "keyboard") false (codes "local-cli") empty).1
    ≡ specification env (codes "keyboard") (codes "local-cli") empty.outscraper_calls
run_product_search-specification_example =
    run_product_search-specification env env-HasKeys env-HasRoundTrip (codes "keyboard")
      (codes "local-cli") empty

searched : (run_product_search env (codes "keyboard") false (codes "local-cli") empty).1 ≡ ok scores
searched =
    run_product_search-specification env env-HasKeys env-HasRoundTrip (codes "keyboard")
      (codes "local-cli") empty
    ∙ finds

run_product_search-repeated_example :
    run_product_search env
      (codes "keyboard")
      true
      (codes "local-cli")
      (run_product_search env (codes "keyboard") false (codes "local-cli") empty).0
    ≡ (
      ticked_thrice (run_product_search env (codes "keyboard") false (codes "local-cli") empty).0,
      ok scores,
    )
run_product_search-repeated_example =
    run_product_search-repeated env env-HasKeys env-HasRoundTrip toy_models-HasModels
      (codes "keyboard") (codes "local-cli") scores empty refl (refl, refl, refl) searched
