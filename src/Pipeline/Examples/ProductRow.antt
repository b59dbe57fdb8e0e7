-- ===== src/Pipeline/Examples/ProductRow.antt =====
-- NormalizedAmazonProduct of src/schemas.py in a row.
use amazon_similar_search.Prelude.{◌≡◌, refl, ℕ, Option, none, some, ◌>>=◌}
use amazon_similar_search.Json.{Value, Items, Fields, cons, nil}
use amazon_similar_search.Schemas.{NormalizedAmazonProduct}
use amazon_similar_search.Pipeline.Examples.Values.{
  from_text, from_int, from_float, from_texts, text, optional_text, optional_int, optional_float,
  truth, texts, optional_text-from_text, optional_int-from_int, optional_float-from_float,
  texts-from_texts, row,
}

abbrev pub product_items : NormalizedAmazonProduct ℕ → Items ℕ
product_items m = cons (Value.str m.source) (
    cons (from_text m.asin) (
      cons (Value.str m.title) (
        cons (from_text m.brand_or_store) (
          cons (from_int m.price_jpy) (
            cons (from_int m.list_price_jpy) (
              cons (from_text m.currency) (
                cons (from_float m.rating) (
                  cons (from_int m.review_count) (
                    cons (from_texts m.categories) (
                      cons (from_text m.image_url) (
                        cons (from_texts m.image_urls) (
                          cons (from_text m.product_url) (
                            cons (from_text m.short_url) (
                              cons (Value.bool m.is_prime) (
                                cons (from_text m.availability) (
                                  cons (from_text m.shipping) (
                                    cons (from_text m.source_query) (
                                      cons (from_int m.position)
                                        (cons (from_text m.description) nil)))))))))))))))))))

abbrev pub read_product : Items ℕ → Option (NormalizedAmazonProduct ℕ)
read_product
      (Items.cons v1 (
        Items.cons v2 (
          Items.cons v3 (
            Items.cons v4 (
              Items.cons v5 (
                Items.cons v6 (
                  Items.cons v7 (
                    Items.cons v8 (
                      Items.cons v9 (
                        Items.cons v10 (
                          Items.cons v11 (
                            Items.cons v12 (
                              Items.cons v13 (
                                Items.cons v14 (
                                  Items.cons v15 (
                                    Items.cons v16 (
                                      Items.cons v17 (
                                        Items.cons v18 (
                                          Items.cons v19
                                            (Items.cons v20 Items.nil)))))))))))))))))))) =
    do
      x1 ← text v1
      x2 ← optional_text v2
      x3 ← text v3
      x4 ← optional_text v4
      x5 ← optional_int v5
      x6 ← optional_int v6
      x7 ← optional_text v7
      x8 ← optional_float v8
      x9 ← optional_int v9
      x10 ← texts v10
      x11 ← optional_text v11
      x12 ← texts v12
      x13 ← optional_text v13
      x14 ← optional_text v14
      x15 ← truth v15
      x16 ← optional_text v16
      x17 ← optional_text v17
      x18 ← optional_text v18
      x19 ← optional_int v19
      x20 ← optional_text v20
      some (record {
        source = x1;
        asin = x2;
        title = x3;
        brand_or_store = x4;
        price_jpy = x5;
        list_price_jpy = x6;
        currency = x7;
        rating = x8;
        review_count = x9;
        categories = x10;
        image_url = x11;
        image_urls = x12;
        product_url = x13;
        short_url = x14;
        is_prime = x15;
        availability = x16;
        shipping = x17;
        source_query = x18;
        position = x19;
        description = x20;
      })
read_product _ = none

abbrev pub validate_product : Value ℕ → Option (NormalizedAmazonProduct ℕ)
validate_product (Value.obj (Fields.field key (Value.arr values) rest)) = read_product values
validate_product _ = none

pub validate_product-row :
    (m : NormalizedAmazonProduct ℕ) → validate_product (row (product_items m)) ≡ some m
validate_product-row m =
    rw
      (
        optional_text-from_text m.asin,
        optional_text-from_text m.brand_or_store,
        optional_int-from_int m.price_jpy,
        optional_int-from_int m.list_price_jpy,
        optional_text-from_text m.currency,
        optional_float-from_float m.rating,
        optional_int-from_int m.review_count,
        texts-from_texts m.categories,
        optional_text-from_text m.image_url,
        texts-from_texts m.image_urls,
        optional_text-from_text m.product_url,
        optional_text-from_text m.short_url,
        optional_text-from_text m.availability,
        optional_text-from_text m.shipping,
        optional_text-from_text m.source_query,
        optional_int-from_int m.position,
        optional_text-from_text m.description,
      )
      refl
