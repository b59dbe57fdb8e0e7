-- ===== src/Scoring/Match/Bounds.antt =====
-- The range of the condition score, and when there is none.
use amazon_similar_search.Prelude.{
  some_inj, none-some, ℕ, ◌≡◌, ◌≢◌, ◌↔◌, refl, subst, Bool-cases, inl, inr, none, some, Text, List,
  [], ◌∷◌, ◌==◌, arith,
}
use amazon_similar_search.Runtime.{Python, Platform}
use amazon_similar_search.Runtime.Laws.{HasOrder, InUnit}
use amazon_similar_search.Schemas.{ProductAttributes}
use amazon_similar_search.Matching.{Sudachi}
use amazon_similar_search.Scoring.Terms.{Language, ScoringSettings, weighted_condition_terms}
use amazon_similar_search.Scoring.Match.{
  MatchScore, total_weight, calculate_weighted_condition_match_score,
}
use amazon_similar_search.Scoring.Match.Partition.{
  is_in, share, match_score-eq-share, total_weight-keep,
}

module _ {N : Type 0} ⦃P : Python N⦄ ⦃U : Platform⦄ ⦃S : Sudachi⦄ where
  share-none :
      (ws : List (Text × ℕ)) (text : Text)
      → (share {N = N} ws text ≡ none) ↔ ((ws ≢ []) × (total_weight ws ≡ 0))
  share-none [] text = (λ h. cc, λ h. absurd (h.0 refl))
  share-none (t ∷ ts) text = (λ h. (λ p. cc, ground arith), λ h. rw (share, h.1))

  -- The score divides by zero exactly when there are condition terms and all of them weigh nothing,
  -- as where only required terms are given and `required_term_weight` is 0.
  pub match_score_zero_division :
      (settings : ScoringSettings N) (attrs : ProductAttributes) (text : Text) (language : Language)
      → (calculate_weighted_condition_match_score settings attrs text language ≡ none) ↔ (
          (weighted_condition_terms settings attrs language ≢ [])
          × (total_weight (weighted_condition_terms settings attrs language) ≡ 0))
  match_score_zero_division settings attrs text language =
      rw (match_score-eq-share settings attrs text language)
        (share-none (weighted_condition_terms settings attrs language) text)

  share-InUnit :
      HasOrder P
      → (ws : List (Text × ℕ)) (text : Text) {result : MatchScore N} → share ws text ≡ some result
      → InUnit P result.score
  share-InUnit order [] text h =
      subst (λ r. InUnit P r.score) (some_inj h) (order.irreflexive _, order.zero_one)
  share-InUnit order (t ∷ ts) text h = elim (Bool-cases (total_weight (t ∷ ts) == 0)) [
    | inl e ↦ absurd (none-some (rw e at h))
    | inr e ↦
        subst (λ r. InUnit P r.score) (some_inj (rw e at h))
          (order.ratio_sign _ _, order.ratio_one _ _ (total_weight-keep (is_in text) (t ∷ ts)))
  ]

  -- A condition score lies between 0 and 1.
  pub match_score-InUnit :
      HasOrder P
      → (settings : ScoringSettings N) (attrs : ProductAttributes) (text : Text)
        (language : Language) (result : MatchScore N)
      → calculate_weighted_condition_match_score settings attrs text language ≡ some result
      → InUnit P result.score
  match_score-InUnit order settings attrs text language result h =
      share-InUnit order (weighted_condition_terms settings attrs language) text
        (rw (match_score-eq-share settings attrs text language) at h)
