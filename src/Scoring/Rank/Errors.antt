-- ===== src/Scoring/Rank/Errors.antt =====
-- When `score_products` raises: exactly the division by a total weight of 0.
use amazon_similar_search.Prelude.{
  none-some, ◌≡◌, ◌≢◌, ◌↔◌, ◌⊎◌, inl, inr, refl, ap, sym, ◌∙◌, arith, Bool, true, false, none, some,
  Option-cases, Text, List, [], ◌∷◌, map, if◌then◌else◌,
}
use amazon_similar_search.Runtime.{Platform, Python, float_max}
use amazon_similar_search.Schemas.{ProductAttributes, NormalizedAmazonProduct, ProductScore}
use amazon_similar_search.Matching.{Sudachi}
use amazon_similar_search.Scoring.Terms.{
  Language, en, ja, combined_product_text, ScoringSettings, weighted_condition_terms,
}
use amazon_similar_search.Scoring.Match.{
  MatchScore, total_weight, calculate_weighted_condition_match_score, select_attribute_language,
}
use amazon_similar_search.Scoring.Match.Bounds.{match_score_zero_division}
use amazon_similar_search.Scoring.Price.{calculate_price_score, calculate_negative_penalty}
use amazon_similar_search.Scoring.Similarity.{Tfidf, HasColumns}
use amazon_similar_search.Scoring.Rank.Lengths.{collect_total, collect_raise, candidates-some}
use amazon_similar_search.Scoring.Rank.Results.{candidates-products}
use amazon_similar_search.Scoring.Rank.{
  collect, product_score, attribute_match, score_product, score_candidate, candidates,
  scored_products, score_products,
}

no_left : {A B : Type 0} (xs : List (A × B)) → map (λ p. p.0) xs ≡ [] → xs ≡ []
no_left [] h = refl
no_left (x ∷ xs) h = ground arith

en_or_ja :
    (a b c : Bool)
    → ((if a then en else if b then ja else if c then ja else en) ≡ en)
      ⊎ ((if a then en else if b then ja else if c then ja else en) ≡ ja)
en_or_ja true b c = inl refl
en_or_ja false true c = inr refl
en_or_ja false false true = inr refl
en_or_ja false false false = inl refl

-- There are condition terms, and all of them weigh nothing.
abbrev pub IsUnweighted :
    {N : Type 0} ⦃U : Platform⦄ → ScoringSettings N → ProductAttributes → Language → Type 0
IsUnweighted settings attrs language =
    (weighted_condition_terms settings attrs language ≢ [])
    × (total_weight (weighted_condition_terms settings attrs language) ≡ 0)

module _ {N : Type 0} ⦃P : Python N⦄ ⦃U : Platform⦄ ⦃S : Sudachi⦄ ⦃T : Tfidf N⦄
    (settings : ScoringSettings N) (attrs : ProductAttributes) where
  select_attribute_language-cases :
      (x y : N)
      → (select_attribute_language settings attrs x y ≡ en)
        ⊎ (select_attribute_language settings attrs x y ≡ ja)
  unfolding select_attribute_language
  select_attribute_language-cases x y = en_or_ja (P.lt y x) (P.lt x y) _

  score_product-some :
      (product : NormalizedAmazonProduct N) (title attribute : N) (language : Language)
      {found : MatchScore N}
      → calculate_weighted_condition_match_score settings attrs
          (combined_product_text product)
          language
        ≡ some found
      → (s : ProductScore N) × (score_product settings attrs product
            (some title)
            (some attribute)
            language
          ≡ some s)
  unfolding score_product attribute_match
  score_product-some product title attribute language {found} h = (
    product_score settings product title (record found { score = attribute })
        (calculate_price_score attrs product) (calculate_negative_penalty attrs product),
    rw h refl,
  )

  -- `score_product` with the language that the loop chose.
  score_product_chosen :
      (product : NormalizedAmazonProduct N) (title attribute x y : N)
      {english japanese : MatchScore N}
      → calculate_weighted_condition_match_score settings attrs (combined_product_text product) en
        ≡ some english
      → calculate_weighted_condition_match_score settings attrs (combined_product_text product) ja
        ≡ some japanese
      → (s : ProductScore N) × (score_product settings attrs product
            (some title)
            (some attribute)
            (select_attribute_language settings attrs x y)
          ≡ some s)
  score_product_chosen product title attribute x y {english} {japanese} he hj =
      elim (select_attribute_language-cases x y) [
        | inl c ↦ score_product-some product title attribute _ {found = english} (rw c he)
        | inr c ↦ score_product-some product title attribute _ {found = japanese} (rw c hj)
      ]

  weighted :
      (text : Text) {english japanese : MatchScore N}
      → calculate_weighted_condition_match_score settings attrs text en ≡ some english
      → calculate_weighted_condition_match_score settings attrs text ja ≡ some japanese
      → ¬ (IsUnweighted settings attrs en ⊎ IsUnweighted settings attrs ja)
  weighted text he hj (inl u) =
      none-some (sym ((match_score_zero_division settings attrs text en).1 u) ∙ he)
  weighted text he hj (inr u) =
      none-some (sym ((match_score_zero_division settings attrs text ja).1 u) ∙ hj)

  -- A turn of the loop raises where a language is unweighted, and only there.
  score_candidate-cases :
      (candidate : NormalizedAmazonProduct N × (N × (N × (N × N))))
      → ((score_candidate settings attrs candidate ≡ none)
          × (IsUnweighted settings attrs en ⊎ IsUnweighted settings attrs ja))
        ⊎ ((s : ProductScore N) × ((score_candidate settings attrs candidate ≡ some s)
              × ¬ (IsUnweighted settings attrs en ⊎ IsUnweighted settings attrs ja)))
  unfolding score_candidate
  score_candidate-cases (product, (a, (b, (c, d)))) =
      let text = combined_product_text product in
      elim (Option-cases (calculate_weighted_condition_match_score settings attrs text en)) [
        | inl e ↦ inl (rw e refl, inl ((match_score_zero_division settings attrs text en).0 e))
        | inr (english, e) ↦
            elim (Option-cases (calculate_weighted_condition_match_score settings attrs text ja)) [
              | inl f ↦
                  inl (rw (e, f) refl, inr ((match_score_zero_division settings attrs text ja).0 f))
              | inr (japanese, f) ↦
                  let (s, hs) =
                    score_product_chosen product (float_max a b)
                      (float_max (float_max c english.score) (float_max d japanese.score))
                      (float_max c english.score) (float_max d japanese.score) e f in
                  inr (s, (rw (e, f) hs, weighted text e f))
            ]
      ]

  candidate_some :
      ¬ (IsUnweighted settings attrs en ⊎ IsUnweighted settings attrs ja)
      → (candidate : NormalizedAmazonProduct N × (N × (N × (N × N))))
      → (s : ProductScore N) × (score_candidate settings attrs candidate ≡ some s)
  candidate_some w candidate = elim (score_candidate-cases candidate) [
    | inl (hn, u) ↦ absurd (w u)
    | inr (s, (hs, _)) ↦ (s, hs)
  ]

  -- `collect` raises on the first turn or never.
  collect-none :
      (zipped : List (NormalizedAmazonProduct N × (N × (N × (N × N)))))
      → (collect (score_candidate settings attrs) zipped ≡ none)
        ↔ ((zipped ≢ []) × (IsUnweighted settings attrs en ⊎ IsUnweighted settings attrs ja))
  unfolding collect
  collect-none [] = (λ h. absurd (none-some (sym h)), λ h. absurd (h.0 refl))
  collect-none (c ∷ cs) = elim (score_candidate-cases c) [
    | inl (hn, u) ↦ (λ h. (λ p. cc, u), λ h. collect_raise (score_candidate settings attrs) c cs hn)
    | inr (s, (hs, w)) ↦
        let (ys, hys) =
          collect_total (score_candidate settings attrs) (candidate_some w) (c ∷ cs) in
        (λ h. absurd (none-some (sym h ∙ hys)), λ h. absurd (w h.1))
  ]

  score_products-eq-collect :
      (products : List (NormalizedAmazonProduct N))
      (zipped : List (NormalizedAmazonProduct N × (N × (N × (N × N)))))
      → candidates settings attrs products ≡ some zipped
      → (score_products settings attrs products ≡ none)
        ↔ (collect (score_candidate settings attrs) zipped ≡ none)
  unfolding score_products scored_products
  score_products-eq-collect products zipped hz =
      elim (Option-cases (collect (score_candidate settings attrs) zipped)) [
        | inl e ↦ (λ h. e, λ h. rw (hz, e) refl)
        | inr (ys, e) ↦
            (λ h. absurd (none-some (sym (rw (hz, e) at h))), λ h. absurd (none-some (sym h ∙ e)))
      ]

  -- The ranking raises exactly when there are products, and English or Japanese condition terms all
  -- of which weigh nothing: then the condition score divides by 0. The lists that `zip(strict=True)`
  -- takes always have one length.
  pub score_products_raises :
      HasColumns T
      → (products : List (NormalizedAmazonProduct N))
      → (score_products settings attrs products ≡ none)
        ↔ ((products ≢ []) × (IsUnweighted settings attrs en ⊎ IsUnweighted settings attrs ja))
  score_products_raises columns products =
      let (zipped, hz) = candidates-some settings attrs columns products in
      let (to_collect, of_collect) = score_products-eq-collect products zipped hz in
      let (to_terms, of_terms) = collect-none zipped in
      let hp = candidates-products settings attrs products hz in
      (
        λ h.
            let (some_left, u) = to_terms (to_collect h) in
            (λ e. some_left (no_left zipped (hp ∙ e)), u),
        λ h. of_collect (of_terms (λ e. h.0 (sym hp ∙ ap (map (λ c. c.0)) e), h.1)),
      )
