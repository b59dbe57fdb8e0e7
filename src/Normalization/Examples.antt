-- ===== src/Normalization/Examples.antt =====
-- A response normalized, and the theorems about it.
use amazon_similar_search.Prelude.{ℕ, ◌≡◌, pos, Text, codes, [], map, All}
use amazon_similar_search.Json.{Value, Fields, field, end, cons, nil}
use amazon_similar_search.Runtime.Fixed.{ascii, fixed_point, fixed_point-HasSigns}
use amazon_similar_search.Dedupe.{IsFresh, nub_by, prepared}
use amazon_similar_search.Normalization.{
  iter_product_items, normalize_product, dedupe_key, normalize_amazon_products_response,
}
use amazon_similar_search.Normalization.Prices.{
  IsWellFormed, normalize_amazon_products_response-IsWellFormed,
}
use amazon_similar_search.Normalization.Unique.{normalize_amazon_products_response_unique}

abbrev keyboard : Text → Value ℕ
keyboard name = Value.obj (
    field (codes "name") (Value.str name) (
      field (codes "asin") (Value.str (codes "B01"))
        (field (codes "price") (Value.int (pos 3_000)) end)))

-- The same ASIN twice, once in a nested list.
abbrev response : Fields ℕ
response =
    field (codes "data")
      (Value.arr (
        cons (keyboard (codes " Keyboard "))
          (cons (Value.arr (cons (keyboard (codes "Again")) nil)) nil)))
      end

normalize_amazon_products_response_unique_example :
    (normalize_amazon_products_response (pos 160) response
      ≡ nub_by dedupe_key (prepared (normalize_product (pos 160)) (iter_product_items response)))
    × IsFresh [] (map dedupe_key (normalize_amazon_products_response (pos 160) response))
normalize_amazon_products_response_unique_example =
    normalize_amazon_products_response_unique (pos 160) response

normalize_amazon_products_response-IsWellFormed_example :
    All IsWellFormed (normalize_amazon_products_response (pos 160) response)
normalize_amazon_products_response-IsWellFormed_example =
    normalize_amazon_products_response-IsWellFormed fixed_point-HasSigns 160 response
