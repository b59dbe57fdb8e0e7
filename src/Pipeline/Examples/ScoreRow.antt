-- ===== src/Pipeline/Examples/ScoreRow.antt =====
-- ProductScore of src/schemas.py in a row.
use amazon_similar_search.Prelude.{◌≡◌, refl, ℕ, Option, none, some, ◌>>=◌}
use amazon_similar_search.Json.{Value, Items, Fields, cons, nil}
use amazon_similar_search.Schemas.{ProductScore}
use amazon_similar_search.Pipeline.Examples.Values.{
  from_text, from_int, from_float, from_texts, text, optional_text, optional_int, optional_float,
  number, texts, optional_text-from_text, optional_int-from_int, optional_float-from_float,
  texts-from_texts, row,
}

abbrev pub score_items : ProductScore ℕ → Items ℕ
score_items m = cons (from_text m.asin) (
    cons (Value.str m.title) (
      cons (from_int m.price_jpy) (
        cons (from_float m.rating) (
          cons (from_int m.review_count) (
            cons (from_text m.image_url) (
              cons (from_text m.product_url) (
                cons (Value.float m.title_similarity) (
                  cons (Value.float m.attribute_similarity) (
                    cons (Value.float m.price_score) (
                      cons (Value.float m.negative_penalty) (
                        cons (Value.float m.total_score) (
                          cons (from_texts m.matched_terms) (
                            cons (from_texts m.missing_terms)
                              (cons (from_texts m.negative_matches) nil))))))))))))))

abbrev pub read_score : Items ℕ → Option (ProductScore ℕ)
read_score
      (Items.cons v1 (
        Items.cons v2 (
          Items.cons v3 (
            Items.cons v4 (
              Items.cons v5 (
                Items.cons v6 (
                  Items.cons v7 (
                    Items.cons v8 (
                      Items.cons v9 (
                        Items.cons v10 (
                          Items.cons v11 (
                            Items.cons v12 (
                              Items.cons v13
                                (Items.cons v14 (Items.cons v15 Items.nil))))))))))))))) =
    do
      x1 ← optional_text v1
      x2 ← text v2
      x3 ← optional_int v3
      x4 ← optional_float v4
      x5 ← optional_int v5
      x6 ← optional_text v6
      x7 ← optional_text v7
      x8 ← number v8
      x9 ← number v9
      x10 ← number v10
      x11 ← number v11
      x12 ← number v12
      x13 ← texts v13
      x14 ← texts v14
      x15 ← texts v15
      some (record {
        asin = x1;
        title = x2;
        price_jpy = x3;
        rating = x4;
        review_count = x5;
        image_url = x6;
        product_url = x7;
        title_similarity = x8;
        attribute_similarity = x9;
        price_score = x10;
        negative_penalty = x11;
        total_score = x12;
        matched_terms = x13;
        missing_terms = x14;
        negative_matches = x15;
      })
read_score _ = none

abbrev pub validate_score : Value ℕ → Option (ProductScore ℕ)
validate_score (Value.obj (Fields.field key (Value.arr values) rest)) = read_score values
validate_score _ = none

pub validate_score-row : (m : ProductScore ℕ) → validate_score (row (score_items m)) ≡ some m
validate_score-row m =
    rw
      (
        optional_text-from_text m.asin,
        optional_int-from_int m.price_jpy,
        optional_float-from_float m.rating,
        optional_int-from_int m.review_count,
        optional_text-from_text m.image_url,
        optional_text-from_text m.product_url,
        texts-from_texts m.matched_terms,
        texts-from_texts m.missing_terms,
        texts-from_texts m.negative_matches,
      )
      refl
