-- ===== src/Scoring/Rank/Totality.antt =====
-- With positive term weights, as the default settings have, scoring never divides by zero.
use amazon_similar_search.Prelude.{
  some_inj, subst, ℕ, ◌<◌, ◌≡◌, ◌≢◌, inl, inr, refl, arith, Option, some, Option-cases, Text, All,
  All-append, List, [], ◌∷◌, ◌++◌,
}
use amazon_similar_search.Runtime.{Platform, Python}
use amazon_similar_search.Dedupe.{first_of_each-All}
use amazon_similar_search.Schemas.{ProductAttributes, NormalizedAmazonProduct, ProductScore}
use amazon_similar_search.Matching.{Sudachi, clean_dupe_empty}
use amazon_similar_search.Scoring.Terms.{
  Language, en, ja, ScoringSettings, with_weight, term_key, weighted_groups,
  weighted_condition_terms,
}
use amazon_similar_search.Scoring.Match.{total_weight}
use amazon_similar_search.Scoring.Similarity.{Tfidf, HasColumns}
use amazon_similar_search.Scoring.Rank.Errors.{IsUnweighted, score_products_raises}
use amazon_similar_search.Scoring.Rank.{score_products}

-- Every weight of a term is positive.
abbrev pub HasPositiveWeights : {N : Type 0} → ScoringSettings N → Type 0
HasPositiveWeights settings =
    (0 < settings.required_term_weight)
    × ((0 < settings.color_term_weight)
        × ((0 < settings.feature_term_weight)
            × ((0 < settings.preferred_term_weight) × (0 < settings.related_term_weight))))

abbrev IsHeavy : Text × ℕ → Type 0
IsHeavy (term, weight) = 0 < weight

module _ ⦃U : Platform⦄ where
  with_weight-All : (w : ℕ) (terms : List Text) → 0 < w → All IsHeavy (with_weight w terms)
  with_weight-All w [] h = tt
  with_weight-All w (t ∷ ts) h = (h, with_weight-All w ts h)

  group-All :
      (terms : List (Option Text)) (w : ℕ) (rest : List (Text × ℕ))
      → 0 < w
      → All IsHeavy rest
      → All IsHeavy (with_weight w (clean_dupe_empty terms) ++ rest)
  group-All terms w rest h hr =
      All-append IsHeavy (with_weight w (clean_dupe_empty terms)) rest
        (with_weight-All w (clean_dupe_empty terms) h) hr

total_weight-pos : (ws : List (Text × ℕ)) → All IsHeavy ws → ws ≢ [] → 0 < total_weight ws
total_weight-pos [] h p = absurd (p refl)
total_weight-pos ((term, w) ∷ ws) h p = omega (arith, h.0)

module _ {N : Type 0} ⦃P : Python N⦄ ⦃U : Platform⦄ ⦃S : Sudachi⦄ ⦃T : Tfidf N⦄
    (settings : ScoringSettings N) (attrs : ProductAttributes)
    (positive : HasPositiveWeights settings) where
  weighted_condition_terms-All :
      (language : Language) → All IsHeavy (weighted_condition_terms settings attrs language)
  unfolding weighted_condition_terms weighted_groups
  weighted_condition_terms-All language =
      first_of_each-All some term_key IsHeavy IsHeavy (λ x b h e. subst IsHeavy (some_inj e) h) [] _
        (group-All _ _ _ positive.0 (
          group-All _ _ _ positive.1.0 (
            group-All _ _ _ positive.1.1.0
              (group-All _ _ _ positive.1.1.1.0 (group-All _ _ [] positive.1.1.1.1 tt)))))

  not-IsUnweighted : (language : Language) → ¬ (IsUnweighted settings attrs language)
  not-IsUnweighted language (present, weightless) =
      let heavy = total_weight-pos _ (weighted_condition_terms-All language) present in
      ground (arith, heavy, weightless)

  -- Where every term weight is positive, as in the default settings, ranking always returns a list.
  pub score_products_total :
      HasColumns T
      → (products : List (NormalizedAmazonProduct N))
      → (result : List (ProductScore N)) × (score_products settings attrs products ≡ some result)
  score_products_total columns products =
      elim (Option-cases (score_products settings attrs products)) [
        | inr (result, e) ↦ (result, e)
        | inl e ↦ elim ((score_products_raises settings attrs columns products).0 e).1 [
          | inl u ↦ absurd (not-IsUnweighted en u)
          | inr u ↦ absurd (not-IsUnweighted ja u)
        ]
      ]
