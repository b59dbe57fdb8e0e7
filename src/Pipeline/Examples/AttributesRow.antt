-- ===== src/Pipeline/Examples/AttributesRow.antt =====
-- ProductAttributes of src/schemas.py in a row.
use amazon_similar_search.Prelude.{◌≡◌, refl, ℕ, Option, none, some, ◌>>=◌}
use amazon_similar_search.Json.{Value, Items, Fields, cons, nil}
use amazon_similar_search.Schemas.{ProductAttributes}
use amazon_similar_search.Pipeline.Examples.Values.{
  from_text, from_int, from_texts, text, optional_text, optional_int, texts,
  optional_text-from_text, optional_int-from_int, texts-from_texts, row,
}

abbrev pub attributes_items : ProductAttributes → Items ℕ
attributes_items m = cons (Value.str m.estimated_product_name_ja) (
    cons (from_text m.estimated_product_name_en) (
      cons (from_text m.category_ja) (
        cons (from_text m.category_en) (
          cons (from_text m.color_ja) (
            cons (from_text m.color_en) (
              cons (from_texts m.features_ja) (
                cons (from_texts m.features_en) (
                  cons (from_texts m.negative_conditions_ja) (
                    cons (from_texts m.negative_conditions_en) (
                      cons (from_texts m.search_queries_ja) (
                        cons (from_texts m.search_queries_en) (
                          cons (from_texts m.required_terms_ja) (
                            cons (from_texts m.required_terms_en) (
                              cons (from_texts m.preferred_terms_ja) (
                                cons (from_texts m.preferred_terms_en) (
                                  cons (from_texts m.related_terms_ja) (
                                    cons (from_texts m.related_terms_en) (
                                      cons (from_text m.price_preference) (
                                        cons (from_int m.min_price_jpy) (
                                          cons (from_int m.max_price_jpy) (
                                            cons (from_int m.target_price_jpy) (
                                              cons (from_int m.expected_price_min_jpy) (
                                                cons (from_int m.expected_price_max_jpy)
                                                  nil)))))))))))))))))))))))

abbrev pub read_attributes : Items ℕ → Option ProductAttributes
read_attributes
      (Items.cons v1 (
        Items.cons v2 (
          Items.cons v3 (
            Items.cons v4 (
              Items.cons v5 (
                Items.cons v6 (
                  Items.cons v7 (
                    Items.cons v8 (
                      Items.cons v9 (
                        Items.cons v10 (
                          Items.cons v11 (
                            Items.cons v12 (
                              Items.cons v13 (
                                Items.cons v14 (
                                  Items.cons v15 (
                                    Items.cons v16 (
                                      Items.cons v17 (
                                        Items.cons v18 (
                                          Items.cons v19 (
                                            Items.cons v20 (
                                              Items.cons v21 (
                                                Items.cons v22 (
                                                  Items.cons v23 (
                                                    Items.cons v24
                                                      Items.nil)))))))))))))))))))))))) =
    do
      x1 ← text v1
      x2 ← optional_text v2
      x3 ← optional_text v3
      x4 ← optional_text v4
      x5 ← optional_text v5
      x6 ← optional_text v6
      x7 ← texts v7
      x8 ← texts v8
      x9 ← texts v9
      x10 ← texts v10
      x11 ← texts v11
      x12 ← texts v12
      x13 ← texts v13
      x14 ← texts v14
      x15 ← texts v15
      x16 ← texts v16
      x17 ← texts v17
      x18 ← texts v18
      x19 ← optional_text v19
      x20 ← optional_int v20
      x21 ← optional_int v21
      x22 ← optional_int v22
      x23 ← optional_int v23
      x24 ← optional_int v24
      some (record {
        estimated_product_name_ja = x1;
        estimated_product_name_en = x2;
        category_ja = x3;
        category_en = x4;
        color_ja = x5;
        color_en = x6;
        features_ja = x7;
        features_en = x8;
        negative_conditions_ja = x9;
        negative_conditions_en = x10;
        search_queries_ja = x11;
        search_queries_en = x12;
        required_terms_ja = x13;
        required_terms_en = x14;
        preferred_terms_ja = x15;
        preferred_terms_en = x16;
        related_terms_ja = x17;
        related_terms_en = x18;
        price_preference = x19;
        min_price_jpy = x20;
        max_price_jpy = x21;
        target_price_jpy = x22;
        expected_price_min_jpy = x23;
        expected_price_max_jpy = x24;
      })
read_attributes _ = none

abbrev pub validate_attributes : Value ℕ → Option ProductAttributes
validate_attributes (Value.obj (Fields.field key (Value.arr values) rest)) = read_attributes values
validate_attributes _ = none

pub validate_attributes-row :
    (m : ProductAttributes) → validate_attributes (row (attributes_items m)) ≡ some m
validate_attributes-row m =
    rw
      (
        optional_text-from_text m.estimated_product_name_en,
        optional_text-from_text m.category_ja,
        optional_text-from_text m.category_en,
        optional_text-from_text m.color_ja,
        optional_text-from_text m.color_en,
        texts-from_texts m.features_ja,
        texts-from_texts m.features_en,
        texts-from_texts m.negative_conditions_ja,
        texts-from_texts m.negative_conditions_en,
        texts-from_texts m.search_queries_ja,
        texts-from_texts m.search_queries_en,
        texts-from_texts m.required_terms_ja,
        texts-from_texts m.required_terms_en,
        texts-from_texts m.preferred_terms_ja,
        texts-from_texts m.preferred_terms_en,
        texts-from_texts m.related_terms_ja,
        texts-from_texts m.related_terms_en,
        optional_text-from_text m.price_preference,
        optional_int-from_int m.min_price_jpy,
        optional_int-from_int m.max_price_jpy,
        optional_int-from_int m.target_price_jpy,
        optional_int-from_int m.expected_price_min_jpy,
        optional_int-from_int m.expected_price_max_jpy,
      )
      refl
