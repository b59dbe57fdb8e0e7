-- ===== src/Normalization/Unique.antt =====
-- The products of a response are the first of each key.
use amazon_similar_search.Prelude.{ℤ, ◌≡◌, [], map}
use amazon_similar_search.Json.{Fields}
use amazon_similar_search.Runtime.{Python, Platform}
use amazon_similar_search.Dedupe.{
  IsFresh, first_of_each-IsFresh, nub_by, prepared, first_of_each-eq-nub_by,
}
use amazon_similar_search.Normalization.{
  iter_product_items, normalize_product, dedupe_key, normalize_amazon_products_response,
}

module _ {N : Type 0} ⦃P : Python N⦄ ⦃U : Platform⦄ (rate : ℤ) where
  -- The result is the normalized items in the order of the response, of which each one that has the
  -- key of an earlier one is left out; so no two products have one key.
  pub normalize_amazon_products_response_unique :
      (response : Fields N)
      → (normalize_amazon_products_response rate response
          ≡ nub_by dedupe_key (prepared (normalize_product rate) (iter_product_items response)))
        × IsFresh [] (map dedupe_key (normalize_amazon_products_response rate response))
  unfolding normalize_amazon_products_response
  normalize_amazon_products_response_unique response = (
    first_of_each-eq-nub_by (normalize_product rate) dedupe_key (iter_product_items response),
    first_of_each-IsFresh (normalize_product rate) dedupe_key [] (iter_product_items response),
  )
