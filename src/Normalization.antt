-- ===== src/Normalization.antt =====
-- src/services/amazon_product_normalization.py: the products of a raw Outscraper response.
pub mod Values
pub mod Unique
pub mod Prices
pub mod Examples
use amazon_similar_search.Prelude.{
  ℤ, Bool, true, not, ◌&&◌, Option, none, some, Text, codes, eq_text, List, [], ◌∷◌, ◌++◌,
  if◌then◌else◌,
}
use amazon_similar_search.Json
use amazon_similar_search.Json.{Value, Items, Fields, nil, cons}
use amazon_similar_search.Runtime.{Python, Platform, truthy}
use amazon_similar_search.Dedupe.{first_of_each}
use amazon_similar_search.Schemas.{NormalizedAmazonProduct}
use amazon_similar_search.Normalization.Values.{
  get, jpy, usd, as_non_empty_string, clean_dupe_strings, collect_image_urls, as_int, as_float,
  as_bool, as_string_list, detect_currency, convert_price_to_jpy, first_text,
}

-- The dicts among the values of a list.
abbrev pub dicts : {N : Type 0} → Items N → List (Fields N)
dicts nil = []
dicts (cons (Value.obj d) rest) = d ∷ dicts rest
dicts (cons _ rest) = dicts rest

abbrev groups : {N : Type 0} → Items N → List (Fields N)
groups nil = []
groups (cons (Value.obj d) rest) = d ∷ groups rest
groups (cons (Value.arr xs) rest) = dicts xs ++ groups rest
groups (cons _ rest) = groups rest

abbrev product_items : {N : Type 0} → Option (Value N) → List (Fields N)
product_items (some (Value.arr xs)) = groups xs
product_items _ = []

unfoldable pub iter_product_items : {N : Type 0} → Fields N → List (Fields N)
iter_product_items response = product_items (Json.get (codes "data") response)

-- `currency and currency not in {TARGET_CURRENCY, USD_CURRENCY}`
abbrev pub is_foreign : Option Text → Bool
is_foreign none = Bool.false
is_foreign (some currency) = not (eq_text currency jpy) && not (eq_text currency usd)

module _ {N : Type 0} ⦃P : Python N⦄ ⦃U : Platform⦄ (usd_to_jpy_rate : ℤ) where
  -- `a or b`
  abbrev or_value : Value N → Value N → Value N
  or_value a b = if truthy a then a else b

  abbrev pub product_of : Fields N → Text → Option Text → NormalizedAmazonProduct N
  product_of item title currency = record {
    source = codes "amazon";
    asin = as_non_empty_string (get "asin" item);
    title = title;
    brand_or_store = as_non_empty_string (get "store_title" item);
    price_jpy =
        convert_price_to_jpy usd_to_jpy_rate (or_value (get "price_parsed" item) (get "price" item))
          currency;
    list_price_jpy =
        convert_price_to_jpy usd_to_jpy_rate
          (or_value (get "old_price_parsed" item) (
            or_value (get "strike_price_parsed" item)
              (or_value (get "old_price" item) (get "strike_price" item))))
          currency;
    currency = currency;
    rating = as_float (get "rating" item);
    review_count = as_int (get "reviews" item);
    categories = as_string_list (get "categories" item);
    image_url = first_text (collect_image_urls item);
    image_urls = collect_image_urls item;
    product_url = as_non_empty_string (get "url" item);
    short_url = as_non_empty_string (get "short_url" item);
    is_prime = as_bool (get "prime" item);
    availability = as_non_empty_string (get "availability" item);
    shipping = as_non_empty_string (get "shipping" item);
    source_query = as_non_empty_string (get "query" item);
    position = as_int (get "position" item);
    description = as_non_empty_string (get "description" item);
  }

  unfoldable pub normalize_product : Fields N → Option (NormalizedAmazonProduct N)
  normalize_product item = elim (as_non_empty_string (get "name" item)) [
    | none ↦ none
    | some title ↦
        let currency = detect_currency item in
        if is_foreign currency then none else some (product_of item title currency)
  ]

-- `a or b` on an optional text
abbrev or_text : Option Text → Text → Text
or_text none s = s
or_text (some []) s = s
or_text (some (c ∷ t)) s = c ∷ t

unfoldable pub dedupe_key : {N : Type 0} → NormalizedAmazonProduct N → Text
dedupe_key product =
    or_text product.asin (or_text product.short_url (or_text product.product_url product.title))

module _ {N : Type 0} ⦃P : Python N⦄ ⦃U : Platform⦄ (usd_to_jpy_rate : ℤ) where
  unfoldable pub normalize_amazon_products_response : Fields N → List (NormalizedAmazonProduct N)
  normalize_amazon_products_response response =
      first_of_each (normalize_product usd_to_jpy_rate) dedupe_key [] (iter_product_items response)
