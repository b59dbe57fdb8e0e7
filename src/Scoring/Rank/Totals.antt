-- ===== src/Scoring/Rank/Totals.antt =====
-- What `score_products` returns: every total is between 0 and 1, the list is that of the loop in
-- descending order, and equal totals keep their order.
use amazon_similar_search.Prelude.{
  some_inj, sequence_some, pos, ◌≡◌, ap, Bool-cases, inl, inr, Option, some, subst, sym,
}
use amazon_similar_search.Runtime.{Platform, Python, float_min, float_max}
use amazon_similar_search.Runtime.Laws.{HasOrder, AtMost, InUnit}
use amazon_similar_search.Schemas.{ProductAttributes, NormalizedAmazonProduct, ProductScore}
use amazon_similar_search.Matching.{Sudachi}
use amazon_similar_search.Scoring.Terms.{Language, ScoringSettings}
use amazon_similar_search.Scoring.Match.{MatchScore}
use amazon_similar_search.Scoring.Price.{Penalty}
use amazon_similar_search.Scoring.Similarity.{Tfidf}
use amazon_similar_search.Scoring.Rank.{
  clamp, product_score, attribute_match, title_or_best, score_product,
}

module _ {N : Type 0} ⦃P : Python N⦄ where
  float_max-InUnit :
      HasOrder P
      → (x : N) → AtMost P x (P.of_int (pos 1))
      → InUnit P (float_max (P.of_int (pos 0)) x)
  unfolding float_max
  float_max-InUnit order x h = elim (Bool-cases (P.lt (P.of_int (pos 0)) x)) [
    | inl e ↦ rw e (order.asymmetric _ _ e, h)
    | inr e ↦ rw e (order.irreflexive _, order.zero_one)
  ]

  float_min_one :
      HasOrder P → (x : N) → AtMost P (float_min (P.of_int (pos 1)) x) (P.of_int (pos 1))
  unfolding float_min
  float_min_one order x = elim (Bool-cases (P.lt x (P.of_int (pos 1)))) [
    | inl e ↦ rw e (order.asymmetric _ _ e)
    | inr e ↦ rw e (order.irreflexive _)
  ]

  pub clamp-InUnit : HasOrder P → (x : N) → InUnit P (clamp x)
  unfolding clamp
  clamp-InUnit order x = float_max-InUnit order _ (float_min_one order x)

  round4-InUnit : HasOrder P → (x : N) → InUnit P x → InUnit P (P.round4 x)
  round4-InUnit order x h = (
    rw (order.round4_int 0) at (order.round4_monotone _ _ h.0),
    rw (order.round4_int 1) at (order.round4_monotone _ _ h.1),
  )

  product_score-InUnit :
      HasOrder P
      → (settings : ScoringSettings N) (product : NormalizedAmazonProduct N) (title : N)
        (found : MatchScore N) (price : N) (negative : Penalty N)
      → InUnit P (product_score settings product title found price negative).total_score
  unfolding product_score
  product_score-InUnit order settings product title found price negative =
      round4-InUnit order _ (clamp-InUnit order _)

module _ {N : Type 0} ⦃P : Python N⦄ ⦃U : Platform⦄ ⦃S : Sudachi⦄ ⦃T : Tfidf N⦄
    (settings : ScoringSettings N) (attrs : ProductAttributes) where
  -- A scored product is the product's, with some similarities.
  score_product-shape :
      (product : NormalizedAmazonProduct N) (title attribute : Option N) (language : Language)
      (result : ProductScore N)
      → score_product settings attrs product title attribute language ≡ some result
      → (t : N) × ((found : MatchScore N) × ((price : N) × ((negative : Penalty N) × (product_score
                  settings product t found price negative
                ≡ result))))
  unfolding score_product
  score_product-shape product title attribute language result h =
      let (t, (ht, rest)) = sequence_some (title_or_best settings attrs product title) h in
      let (found, (hf, e)) =
        sequence_some (attribute_match settings attrs product attribute language) rest in
      (t, (found, (_, (_, some_inj e))))

  -- Whatever similarities are given or left out, the total of a scored product lies between 0 and 1.
  pub score_product-InUnit :
      HasOrder P
      → (product : NormalizedAmazonProduct N) (title attribute : Option N) (language : Language)
        (result : ProductScore N)
      → score_product settings attrs product title attribute language ≡ some result
      → InUnit P result.total_score
  score_product-InUnit order product title attribute language result h =
      let (t, (found, (price, (negative, e)))) =
        score_product-shape product title attribute language result h in
      subst (λ r. InUnit P r.total_score) e
        (product_score-InUnit order settings product t found price negative)

  pub score_product-asin :
      (product : NormalizedAmazonProduct N) (title attribute : Option N) (language : Language)
      (result : ProductScore N)
      → score_product settings attrs product title attribute language ≡ some result
      → result.asin ≡ product.asin
  unfolding product_score
  score_product-asin product title attribute language result h =
      let (t, (found, (price, (negative, e)))) =
        score_product-shape product title attribute language result h in
      sym (ap (λ r. r.asin) e)
