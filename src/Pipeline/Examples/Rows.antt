-- ===== src/Pipeline/Examples/Rows.antt =====
-- Models of src/schemas.py dumped to their values in a row, and read back.
use amazon_similar_search.Prelude.{refl, ℕ, codes}
use amazon_similar_search.Json.{Value, field, end}
use amazon_similar_search.Pipeline.{Models}
use amazon_similar_search.Pipeline.Warm.{HasModels}
use amazon_similar_search.Pipeline.Examples.Values.{row}
use amazon_similar_search.Pipeline.Examples.AttributesRow.{
  attributes_items, validate_attributes, validate_attributes-row,
}
use amazon_similar_search.Pipeline.Examples.ProductRow.{
  product_items, validate_product, validate_product-row,
}
use amazon_similar_search.Pipeline.Examples.ScoreRow.{
  score_items, validate_score, validate_score-row,
}

abbrev pub toy_models : Models ℕ
toy_models = record {
  dump_attributes = λ m. row (attributes_items m);
  validate_attributes = validate_attributes;
  dump_product = λ m. row (product_items m);
  validate_product = validate_product;
  dump_score = λ m. row (score_items m);
  validate_score = validate_score;
}

pub toy_models-HasModels : HasModels toy_models
toy_models-HasModels = (
  λ m. (
    field (codes "values") (Value.arr (attributes_items m)) end,
    refl,
    validate_attributes-row m,
  ),
  validate_product-row,
  validate_score-row,
)
