-- ===== src/Normalization/Prices.antt =====
-- Each normalized product is well formed.
use mathlib.Core.List.{map-id}
use amazon_similar_search.Prelude.{
  ℕ, ℤ, pos, ◌≡◌, ◌≢◌, ◌⊎◌, inl, inr, refl, ap, ◌∙◌, subst, false, Bool-cases, Option-cases, Option,
  none, some, Text, eq_text, eq_text_sound, strip, is_empty, List, [], All,
}
use amazon_similar_search.Json.{Value, Fields}
use amazon_similar_search.Runtime.{Python, Platform}
use amazon_similar_search.Runtime.Laws.{IsNonNegative, HasSigns}
use amazon_similar_search.Dedupe.{IsFresh, first_of_each-IsFresh, All-first_of_each}
use amazon_similar_search.Schemas.{NormalizedAmazonProduct}
use amazon_similar_search.Normalization.Values.{
  get, jpy, usd, present, as_non_empty_string, clean_dupe_strings, collect_image_urls,
  convert_price_to_jpy, is_usd, as_float, first_text, detect_currency,
}
use amazon_similar_search.Normalization.{
  is_foreign, product_of, normalize_product, dedupe_key, normalize_amazon_products_response,
  iter_product_items,
}

-- A price, where there is one, is not negative.
abbrev pub IsPrice : Option ℤ → Type 0
IsPrice none = Unit {0}
IsPrice (some price) = IsNonNegative price

pub record IsWellFormed {N : Type 0} (product : NormalizedAmazonProduct N) : Type 0 where
  pub titled : product.title ≢ []
  pub currency :
      (product.currency ≡ none) ⊎ (product.currency ≡ some jpy) ⊎ (product.currency ≡ some usd)
  pub price : IsPrice product.price_jpy
  pub list_price : IsPrice product.list_price_jpy
  pub distinct_images : IsFresh [] product.image_urls
  pub first_image : product.image_url ≡ first_text product.image_urls

known_currency :
    (currency : Option Text)
    → is_foreign currency ≡ false
    → (currency ≡ none) ⊎ (currency ≡ some jpy) ⊎ (currency ≡ some usd)
known_currency none h = inl refl
known_currency (some c) h = elim (Bool-cases (eq_text c jpy)) [
  | inl e ↦ inr (inl (ap some (eq_text_sound c jpy e)))
  | inr e ↦ elim (Bool-cases (eq_text c usd)) [
    | inl f ↦ inr (inr (ap some (eq_text_sound c usd f)))
    | inr f ↦ cc (rw (e, f) at h)
  ]
]

clean_dupe_strings-IsFresh : (values : List (Option Text)) → IsFresh [] (clean_dupe_strings values)
clean_dupe_strings-IsFresh values =
    unfold clean_dupe_strings in
    rw (map-id _) at (first_of_each-IsFresh present (λ value. value) [] values)

some_text : {s t : Text} → some s ≡ some t → s ≡ t
some_text h = cc

module _ {N : Type 0} where
  as_non_empty_string-ne : (v : Value N) {s : Text} → as_non_empty_string v ≡ some s → s ≢ []
  unfolding as_non_empty_string
  as_non_empty_string-ne (Value.str t) h = elim (Bool-cases (is_empty (strip t))) [
    | inl e ↦ cc (rw e at h)
    | inr e ↦ λ p. cc (subst (λ s. is_empty s ≡ false) (some_text (rw e at h) ∙ p) e)
  ]
  as_non_empty_string-ne _ h = cc

module _ {N : Type 0} ⦃P : Python N⦄ ⦃U : Platform⦄ (signs : HasSigns P) (rate : ℕ) where
  convert_price_to_jpy-IsPrice :
      (v : Value N) (currency : Option Text) → IsPrice (convert_price_to_jpy (pos rate) v currency)
  unfolding convert_price_to_jpy
  convert_price_to_jpy-IsPrice v currency = elim (Option-cases (as_float v)) [
    | inl e ↦ rw (convert_price_to_jpy, e) tt
    | inr (price, e) ↦ elim (Bool-cases (P.lt price (P.of_int (pos 0)))) [
      | inl below ↦ rw (convert_price_to_jpy, e, below) tt
      | inr above ↦ elim (Bool-cases (is_usd currency)) [
        | inl dollars ↦
            rw (convert_price_to_jpy, e, above, dollars)
              (signs.trunc_sign _ (signs.mul_sign _ _ above (signs.of_int_sign rate)))
        | inr yen ↦ rw (convert_price_to_jpy, e, above, yen) (signs.trunc_sign price above)
      ]
    ]
  ]

  product_of-IsWellFormed :
      (item : Fields N) (title : Text)
      → title ≢ []
      → is_foreign (detect_currency item) ≡ false
      → IsWellFormed (product_of (pos rate) item title (detect_currency item))
  product_of-IsWellFormed item title named known = record {
    titled = named;
    currency = known_currency (detect_currency item) known;
    price = convert_price_to_jpy-IsPrice _ (detect_currency item);
    list_price = convert_price_to_jpy-IsPrice _ (detect_currency item);
    distinct_images = unfold collect_image_urls in clean_dupe_strings-IsFresh _;
    first_image = refl;
  }

  some_product : {a b : NormalizedAmazonProduct N} → some a ≡ some b → a ≡ b
  some_product h = cc

  normalize_product-IsWellFormed :
      (item : Fields N) (product : NormalizedAmazonProduct N)
      → normalize_product (pos rate) item ≡ some product
      → IsWellFormed product
  unfolding normalize_product
  normalize_product-IsWellFormed item product h =
      elim (Option-cases (as_non_empty_string (get "name" item))) [
        | inl e ↦ cc (rw (normalize_product, e) at h)
        | inr (title, e) ↦ elim (Bool-cases (is_foreign (detect_currency item))) [
          | inl foreign ↦ cc (rw (normalize_product, e, foreign) at h)
          | inr known ↦
              subst IsWellFormed (some_product (rw (normalize_product, e, known) at h))
                (product_of-IsWellFormed item title (as_non_empty_string-ne _ e) known)
        ]
      ]

  -- With a conversion rate that is not negative, every product of every response has a title, is
  -- priced in yen or dollars or in no known currency, has prices that are not negative, and shows
  -- the first of its distinct images.
  pub normalize_amazon_products_response-IsWellFormed :
      (response : Fields N)
      → All IsWellFormed (normalize_amazon_products_response (pos rate) response)
  unfolding normalize_amazon_products_response
  normalize_amazon_products_response-IsWellFormed response =
      All-first_of_each (normalize_product (pos rate)) dedupe_key IsWellFormed
        normalize_product-IsWellFormed [] (iter_product_items response)
