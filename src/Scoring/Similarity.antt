-- ===== src/Scoring/Similarity.antt =====
-- The TF-IDF similarities of src/services/product_scoring.py. scikit-learn is a parameter.
use amazon_similar_search.Prelude.{
  ◌>>=◌, pos, ◌≡◌, Bool, not, any, ◌||◌, Option, none, some, Text, is_empty, strip, length, List,
  [], ◌∷◌, map, if◌then◌else◌,
}
use amazon_similar_search.Runtime.{Platform, Python, float_max}
use amazon_similar_search.Schemas.{ProductAttributes, NormalizedAmazonProduct}
use amazon_similar_search.Matching.{Sudachi}
use amazon_similar_search.Scoring.Terms.{
  Language, en, ja, ScoringSettings, combined_product_text, build_title_query_text,
  build_attribute_query_text, build_product_tfidf_text, build_product_title_tfidf_text,
}
use amazon_similar_search.Scoring.Match.{MatchScore, calculate_weighted_condition_match_score}

-- `TfidfVectorizer.fit` on the query and the documents, `transform` of each, and the row of
-- `cosine_similarity` of the query: none on ValueError, as on an empty vocabulary.
pub record Tfidf (N : Type 0) : Type 0 where
  pub cosine_row : Text → List Text → Option (List N)

-- `cosine_similarity` has a column for each document.
abbrev pub HasColumns : {N : Type 0} → Tfidf N → Type 0
HasColumns T =
    (query : Text) (documents : List Text) (row : List _)
    → T.cosine_row query documents ≡ some row
    → length row ≡ length documents

abbrev pub no_texts : List Text → Bool
no_texts [] = Bool.true
no_texts (d ∷ ds) = Bool.false

-- `scores[0]`, none on IndexError.
abbrev first_score : {N : Type 0} → List N → Option N
first_score [] = none
first_score (score ∷ rest) = some score

module _ {N : Type 0} ⦃P : Python N⦄ ⦃T : Tfidf N⦄ where
  abbrev pub zeros : List Text → List N
  zeros = map (λ document. P.of_int (pos 0))

  -- Without a vocabulary every similarity is 0.
  abbrev pub row_or_zeros : Option (List N) → List Text → List N
  row_or_zeros none documents = zeros documents
  row_or_zeros (some row) documents = row

  unfoldable pub calculate_tfidf_similarities : Text → List Text → List N
  calculate_tfidf_similarities query_text document_texts =
      if is_empty query_text || no_texts document_texts
      then zeros document_texts
      else if not (any (λ document. not (is_empty (strip document))) (query_text ∷ document_texts))
      then zeros document_texts
      else row_or_zeros (T.cosine_row query_text document_texts) document_texts

module _ {N : Type 0} ⦃P : Python N⦄ ⦃U : Platform⦄ ⦃S : Sudachi⦄ ⦃T : Tfidf N⦄
    (settings : ScoringSettings N) (attrs : ProductAttributes) where
  unfoldable pub calculate_title_similarity : NormalizedAmazonProduct N → Language → Option N
  calculate_title_similarity product language = first_score (
      calculate_tfidf_similarities (build_title_query_text settings attrs language)
        (build_product_title_tfidf_text product ∷ []))

  -- The score of the pair, with the terms of the condition score.
  unfoldable pub calculate_attribute_similarity :
      NormalizedAmazonProduct N → Language → Option (MatchScore N)
  calculate_attribute_similarity product language = do
    found ←
        calculate_weighted_condition_match_score settings attrs (combined_product_text product)
          language
    score ← first_score (
        calculate_tfidf_similarities (build_attribute_query_text settings attrs language)
          (build_product_tfidf_text product ∷ []))
    some (record found { score = float_max score found.score })

  -- `max` of the two languages.
  unfoldable pub best_title_similarity : NormalizedAmazonProduct N → Option N
  best_title_similarity product = do
    english ← calculate_title_similarity product en
    japanese ← calculate_title_similarity product ja
    some (float_max english japanese)
