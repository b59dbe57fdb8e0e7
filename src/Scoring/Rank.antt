-- ===== src/Scoring/Rank.antt =====
-- `score_product` and `score_products` of src/services/product_scoring.py. `none` stands for the
-- exceptions: ZeroDivisionError of the condition score, and ValueError of `zip(strict=True)`.
pub mod Order
pub mod Totals
pub mod Penalties
pub mod Results
pub mod Lengths
pub mod Errors
pub mod Totality
use amazon_similar_search.Prelude.{
  ◌>>=◌, ℕ, pos, Bool, Option, none, some, Text, List, [], ◌∷◌, map, if◌then◌else◌,
}
use amazon_similar_search.Runtime.{Platform, Python, float_min, float_max}
use amazon_similar_search.Schemas.{ProductAttributes, NormalizedAmazonProduct, ProductScore}
use amazon_similar_search.Matching.{Sudachi}
use amazon_similar_search.Scoring.Terms.{
  Language, en, ja, both, ScoringSettings, combined_product_text, build_title_query_text,
  build_attribute_query_text, build_product_tfidf_text, build_product_title_tfidf_text,
}
use amazon_similar_search.Scoring.Match.{
  MatchScore, calculate_weighted_condition_match_score, select_attribute_language,
}
use amazon_similar_search.Scoring.Price.{calculate_price_score, Penalty, calculate_negative_penalty}
use amazon_similar_search.Scoring.Similarity.{
  Tfidf, calculate_tfidf_similarities, calculate_attribute_similarity, best_title_similarity,
}

-- The pair of the chosen language.
abbrev chosen {ℓ} : {A : Type ℓ} → Language → A → A → A
chosen en english japanese = english
chosen _ english japanese = japanese

-- `zip(xs, ys, strict=True)`
unfoldable pub zip_strict {ℓ} : {A B : Type ℓ} → List A → List B → Option (List (A × B))
zip_strict [] [] = some []
zip_strict (x ∷ xs) (y ∷ ys) = do rest ← zip_strict xs ys; some ((x, y) ∷ rest)
zip_strict _ _ = none

-- A loop that appends the value of its body, up to the first exception.
unfoldable pub collect {ℓ} : {A B : Type ℓ} → (A → Option B) → List A → Option (List B)
collect body [] = some []
collect body (x ∷ xs) = do y ← body x; ys ← collect body xs; some (y ∷ ys)

module _ {N : Type 0} ⦃P : Python N⦄ where
  -- `max(0.0, min(1.0, total))`
  unfoldable pub clamp : N → N
  clamp total = float_max (P.of_int (pos 0)) (float_min (P.of_int (pos 1)) total)

  unfoldable pub weighted_total : ScoringSettings N → N → N → N → N → N
  weighted_total settings title attribute price penalty =
      P.sub
        (P.add
          (P.add (P.mul title settings.title_score_weight)
            (P.mul attribute settings.attribute_score_weight))
          (P.mul price settings.price_score_weight))
        penalty

  -- The ProductScore at the end of `score_product`.
  unfoldable pub product_score :
      ScoringSettings N
      → NormalizedAmazonProduct N
      → N
      → MatchScore N
      → N
      → Penalty N
      → ProductScore N
  product_score settings product title found price negative = record {
    asin = product.asin;
    title = product.title;
    price_jpy = product.price_jpy;
    rating = product.rating;
    review_count = product.review_count;
    image_url = product.image_url;
    product_url = product.product_url;
    title_similarity = P.round4 title;
    attribute_similarity = P.round4 found.score;
    price_score = P.round4 price;
    negative_penalty = P.round4 negative.penalty;
    total_score =
        P.round4 (clamp (weighted_total settings title found.score price negative.penalty));
    matched_terms = found.matched_terms;
    missing_terms = found.missing_terms;
    negative_matches = negative.negative_matches;
  }

  -- `sorted(…, key=attrgetter("total_score"), reverse=True)` keeps the order of equal keys.
  unfoldable pub insert_ranked : ProductScore N → List (ProductScore N) → List (ProductScore N)
  insert_ranked s [] = s ∷ []
  insert_ranked s (t ∷ ts) =
      let rest = insert_ranked s ts in
      if P.lt s.total_score t.total_score then t ∷ rest else s ∷ t ∷ ts

  unfoldable pub sort_ranked : List (ProductScore N) → List (ProductScore N)
  sort_ranked [] = []
  sort_ranked (s ∷ ss) = insert_ranked s (sort_ranked ss)

module _ {N : Type 0} ⦃P : Python N⦄ ⦃U : Platform⦄ ⦃S : Sudachi⦄ ⦃T : Tfidf N⦄
    (settings : ScoringSettings N) (attrs : ProductAttributes) where
  -- The attribute similarity with its terms, as given or computed.
  unfoldable pub attribute_match :
      NormalizedAmazonProduct N → Option N → Language → Option (MatchScore N)
  attribute_match product none language = do
    english ← calculate_attribute_similarity settings attrs product en
    japanese ← calculate_attribute_similarity settings attrs product ja
    some (
        chosen (select_attribute_language settings attrs english.score japanese.score) english
          japanese)
  attribute_match product (some similarity) language = do
    found ←
        calculate_weighted_condition_match_score settings attrs (combined_product_text product)
          language
    some (record found { score = similarity })

  abbrev pub title_or_best : NormalizedAmazonProduct N → Option N → Option N
  title_or_best product none = best_title_similarity settings attrs product
  title_or_best product (some similarity) = some similarity

  unfoldable pub score_product :
      NormalizedAmazonProduct N → Option N → Option N → Language → Option (ProductScore N)
  score_product product title_similarity attribute_similarity attribute_language = do
    title ← title_or_best product title_similarity
    found ← attribute_match product attribute_similarity attribute_language
    some (
        product_score settings product title found (calculate_price_score attrs product)
          (calculate_negative_penalty attrs product))

  -- The body of the loop of `score_products`.
  unfoldable pub score_candidate :
      (NormalizedAmazonProduct N × (N × (N × (N × N)))) → Option (ProductScore N)
  score_candidate (product, (title_en, (title_ja, (attribute_en, attribute_ja)))) = do
    english ←
        calculate_weighted_condition_match_score settings attrs (combined_product_text product) en
    japanese ←
        calculate_weighted_condition_match_score settings attrs (combined_product_text product) ja
    score_product product (some (float_max title_en title_ja))
        (some (
          float_max (float_max attribute_en english.score) (float_max attribute_ja japanese.score)))
        (select_attribute_language settings attrs (float_max attribute_en english.score)
          (float_max attribute_ja japanese.score))

  abbrev pub title_scores : List (NormalizedAmazonProduct N) → Language → List N
  title_scores products language =
      calculate_tfidf_similarities (build_title_query_text settings attrs language)
        (map build_product_title_tfidf_text products)

  abbrev pub attribute_scores : List (NormalizedAmazonProduct N) → Language → List N
  attribute_scores products language =
      calculate_tfidf_similarities (build_attribute_query_text settings attrs language)
        (map build_product_tfidf_text products)

  -- What the loop goes through: `zip` of the products and the four lists of scores.
  unfoldable pub candidates :
      List (NormalizedAmazonProduct N)
      → Option (List (NormalizedAmazonProduct N × (N × (N × (N × N)))))
  candidates products = do
    attributes ← zip_strict (attribute_scores products en) (attribute_scores products ja)
    with_japanese ← zip_strict (title_scores products ja) attributes
    scores ← zip_strict (title_scores products en) with_japanese
    zip_strict products scores

  -- The list before it is sorted.
  unfoldable pub scored_products : List (NormalizedAmazonProduct N) → Option (List (ProductScore N))
  scored_products products = do zipped ← candidates products; collect score_candidate zipped

  unfoldable pub score_products : List (NormalizedAmazonProduct N) → Option (List (ProductScore N))
  score_products products = do scored ← scored_products products; some (sort_ranked scored)
