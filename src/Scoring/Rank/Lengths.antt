-- ===== src/Scoring/Rank/Lengths.antt =====
-- The lists that `score_products` zips have one length, and loops that raise.
use amazon_similar_search.Prelude.{
  not, any, strip, is_empty, ◌||◌, suc, ◌≡◌, inl, inr, refl, ap, sym, ◌∙◌, arith, Bool-cases,
  Option, none, some, Option-cases, Text, length, List, [], ◌∷◌, map,
}
use amazon_similar_search.Runtime.{Platform, Python}
use amazon_similar_search.Schemas.{ProductAttributes, NormalizedAmazonProduct}
use amazon_similar_search.Matching.{Sudachi}
use amazon_similar_search.Scoring.Terms.{Language, en, ja, ScoringSettings}
use amazon_similar_search.Scoring.Similarity.{
  Tfidf, HasColumns, no_texts, row_or_zeros, calculate_tfidf_similarities,
}
use amazon_similar_search.Scoring.Rank.{
  zip_strict, collect, title_scores, attribute_scores, candidates,
}

pub length-map : {A B : Type 0} (f : A → B) (xs : List A) → length (map f xs) ≡ length xs
length-map f [] = refl
length-map f (x ∷ xs) = ap suc (length-map f xs)

-- Lists of one length zip.
zip_strict-some :
    {A B : Type 0} (xs : List A) (ys : List B)
    → length xs ≡ length ys
    → (zipped : List (A × B)) × ((zip_strict xs ys ≡ some zipped) × (length zipped ≡ length xs))
unfolding zip_strict
zip_strict-some [] [] h = ([], (refl, refl))
zip_strict-some [] (y ∷ ys) h = ground arith
zip_strict-some (x ∷ xs) [] h = ground arith
zip_strict-some (x ∷ xs) (y ∷ ys) h =
    let (rest, (hr, hl)) = zip_strict-some xs ys (ground arith) in
    ((x, y) ∷ rest, (rw hr refl, ap suc hl))

-- A loop whose body never raises.
pub collect_total :
    {A B : Type 0} (body : A → Option B)
    → ((a : A) → (b : B) × (body a ≡ some b))
    → (xs : List A) → (ys : List B) × (collect body xs ≡ some ys)
unfolding collect
collect_total body total [] = ([], refl)
collect_total body total (x ∷ xs) =
    let (y, hy) = total x in
    let (ys, hys) = collect_total body total xs in (y ∷ ys, rw (hy, hys) refl)

-- A loop whose body raises at the first element.
pub collect_raise :
    {A B : Type 0} (body : A → Option B) (x : A) (xs : List A)
    → body x ≡ none
    → collect body (x ∷ xs) ≡ none
unfolding collect
collect_raise body x xs h = rw h refl

module _ {N : Type 0} ⦃P : Python N⦄ ⦃T : Tfidf N⦄ where
  length-row_or_zeros :
      HasColumns T
      → (query : Text) (documents : List Text)
      → length (row_or_zeros (T.cosine_row query documents) documents) ≡ length documents
  length-row_or_zeros columns query documents = elim (Option-cases (T.cosine_row query documents)) [
    | inl e ↦ rw e (length-map _ documents)
    | inr (row, e) ↦ rw e (columns query documents row e)
  ]

  -- There is one similarity for each document, with or without a vocabulary.
  pub length-calculate_tfidf_similarities :
      HasColumns T
      → (query : Text) (documents : List Text)
      → length (calculate_tfidf_similarities {N = N} query documents) ≡ length documents
  unfolding calculate_tfidf_similarities
  length-calculate_tfidf_similarities columns query documents =
      elim (Bool-cases (is_empty query || no_texts documents)) [
        | inl e ↦ rw e (length-map _ documents)
        | inr e ↦
            elim (Bool-cases
              (not (any (λ document. not (is_empty (strip document))) (query ∷ documents)))) [
                | inl f ↦ rw (e, f) (length-map _ documents)
                | inr f ↦ rw (e, f) (length-row_or_zeros columns query documents)
              ]
      ]

module _ {N : Type 0} ⦃P : Python N⦄ ⦃U : Platform⦄ ⦃S : Sudachi⦄ ⦃T : Tfidf N⦄
    (settings : ScoringSettings N) (attrs : ProductAttributes) where
  length-title_scores :
      HasColumns T
      → (products : List (NormalizedAmazonProduct N)) (language : Language)
      → length (title_scores settings attrs products language) ≡ length products
  length-title_scores columns products language =
      length-calculate_tfidf_similarities columns _ _ ∙ length-map _ products

  length-attribute_scores :
      HasColumns T
      → (products : List (NormalizedAmazonProduct N)) (language : Language)
      → length (attribute_scores settings attrs products language) ≡ length products
  length-attribute_scores columns products language =
      length-calculate_tfidf_similarities columns _ _ ∙ length-map _ products

  -- The lists that are zipped have one length.
  pub candidates-some :
      HasColumns T
      → (products : List (NormalizedAmazonProduct N))
      → (zipped : List (NormalizedAmazonProduct N × (N × (N × (N × N))))) × (candidates settings
            attrs products
          ≡ some zipped)
  unfolding candidates
  candidates-some columns products =
      let title = length-title_scores columns products in
      let attribute = length-attribute_scores columns products in
      let (z1, (h1, l1)) =
        zip_strict-some (attribute_scores settings attrs products en)
          (attribute_scores settings attrs products ja) (attribute en ∙ sym (attribute ja)) in
      let (z2, (h2, l2)) =
        zip_strict-some (title_scores settings attrs products ja) z1
          (title ja ∙ sym (l1 ∙ attribute en)) in
      let (z3, (h3, l3)) =
        zip_strict-some (title_scores settings attrs products en) z2
          (title en ∙ sym (l2 ∙ title ja)) in
      let (z4, (h4, l4)) = zip_strict-some products z3 (sym (l3 ∙ title en)) in
      (z4, rw (h1, h2, h3) h4)
