-- ===== src/Scoring/Rank/Penalties.antt =====
-- What the unwanted terms of a wish take from the total of `score_product`.
use amazon_similar_search.Prelude.{
  ◌≡◌, subst, ap, inl, inr, arith, pos, Bool, true, false, Bool-cases, some, some_inj,
  sequence_some, Text, any, keep, length, List, [], ◌∷◌,
}
use amazon_similar_search.Runtime.{Platform, Python, float_min, float_max}
use amazon_similar_search.Runtime.Laws.{HasOrder, HasSubtraction, AtMost}
use amazon_similar_search.Schemas.{ProductAttributes, NormalizedAmazonProduct, ProductScore}
use amazon_similar_search.Matching.{Sudachi, term_matches_text}
use amazon_similar_search.Scoring.Terms.{
  Language, ScoringSettings, build_negative_terms, combined_product_text,
}
use amazon_similar_search.Scoring.Match.{calculate_weighted_condition_match_score}
use amazon_similar_search.Scoring.Price.{
  penalty_for, calculate_negative_penalty, calculate_price_score,
}
use amazon_similar_search.Scoring.Similarity.{Tfidf}
use amazon_similar_search.Scoring.Rank.{
  clamp, weighted_total, product_score, attribute_match, score_product,
}
use amazon_similar_search.Scoring.Rank.Totals.{clamp-InUnit}

module _ {N : Type 0} ⦃P : Python N⦄ where
  abbrev fifth : N
  fifth = P.ratio 1 5

  abbrev half : N
  half = P.ratio 1 2

  -- A total that has been cut to 0 to 1 and rounded.
  abbrev pub reported : N → N
  reported total = P.round4 (float_max (P.of_int (pos 0)) (float_min (P.of_int (pos 1)) total))

  -- The total against the weighted sum: it is that sum where no unwanted term matches, and else
  -- between the sum less 0.5 and the sum less 0.2.
  abbrev pub Takes : Bool → N → N → Type 0
  Takes false sum total = total ≡ reported sum
  Takes true sum total =
      AtMost P (reported (P.sub sum half)) total × AtMost P total (reported (P.sub sum fifth))

module _ {N : Type 0} ⦃P : Python N⦄ (order : HasOrder P) (laws : HasSubtraction P) where
  clamp-monotone :
      (y z : N)
      → AtMost P y z
      → (P.lt z (P.of_int (pos 1)) ≡ true → P.lt y (P.of_int (pos 1)) ≡ true)
      → (P.lt (P.of_int (pos 0)) y ≡ true → P.lt (P.of_int (pos 0)) z ≡ true)
      → AtMost P (clamp y) (clamp z)
  unfolding clamp float_min float_max
  clamp-monotone y z h below above = elim (Bool-cases (P.lt z (P.of_int (pos 1)))) [
    | inr e ↦ rw (e, laws.zero_below_one) (clamp-InUnit order y).1
    | inl e ↦ elim (Bool-cases (P.lt (P.of_int (pos 0)) y)) [
      | inl f ↦ rw (e, below e, f, above f) h
      | inr f ↦ rw (below e, f) (clamp-InUnit order z).0
    ]
  ]

  -- Of two numbers that are subtracted, the greater one leaves no greater total.
  reported-antitone :
      (x p q : N)
      → AtMost P p q
      → P.lt p (P.of_int (pos 1)) ≡ true
      → P.lt q (P.of_int (pos 1)) ≡ true
      → AtMost P (reported (P.sub x q)) (reported (P.sub x p))
  unfolding clamp
  reported-antitone x p q h hp hq = order.round4_monotone _ _ (
      clamp-monotone (P.sub x q) (P.sub x p) (laws.sub_antitone x p q h hp hq)
        (laws.sub_below x p q _ h hp hq) (laws.sub_above x p q _ h hp hq))

  -- The penalty of at least one match.
  abbrev IsPenalty : N → Type 0
  IsPenalty penalty =
      AtMost P fifth penalty × AtMost P penalty half × (P.lt penalty (P.of_int (pos 1)) ≡ true)

  penalty_for-IsPenalty : (m : Text) (ms : List Text) → IsPenalty (penalty_for (m ∷ ms)).penalty
  unfolding penalty_for float_min
  penalty_for-IsPenalty m ms =
      let counted = P.mul fifth (P.of_int (pos (length (m ∷ ms)))) in
      let grows : AtMost P fifth counted =
        laws.mul_grows fifth (length ms) (order.ratio_sign 1 5) in
      let half_below = laws.ratio_below_one 2 (omega arith) in
      elim (Bool-cases (P.lt counted half)) [
        | inl e ↦ rw e (grows, order.asymmetric _ _ e, laws.transitive _ _ _ e half_below)
        | inr e ↦ rw e (
          order.ratio_monotone 1 5 1 2 (omega arith) (omega arith) (omega arith),
          order.irreflexive _,
          half_below,
        )
      ]

  penalty_for-Takes :
      (x : N) (matches : (Text → Bool)) (terms : List Text)
      → Takes (any matches terms) x (reported (P.sub x (penalty_for (keep matches terms)).penalty))
  unfolding penalty_for
  penalty_for-Takes x matches [] = ap reported (laws.sub_zero x)
  penalty_for-Takes x matches (t ∷ ts) = elim (Bool-cases (matches t)) [
    | inr e ↦ rw e (penalty_for-Takes x matches ts)
    | inl e ↦
        let (least, most, number) = penalty_for-IsPenalty t (keep matches ts) in
        rw e (
          reported-antitone x _ half most number (laws.ratio_below_one 2 (omega arith)),
          reported-antitone x fifth _ least (laws.ratio_below_one 5 (omega arith)) number,
        )
  ]

module _ {N : Type 0} ⦃P : Python N⦄ ⦃U : Platform⦄ ⦃S : Sudachi⦄ (attrs : ProductAttributes) where
  -- Whether the product has a term that the wish does not want.
  abbrev pub has_unwanted : NormalizedAmazonProduct N → Bool
  has_unwanted product =
      any (λ term. term_matches_text term (combined_product_text product))
        (build_negative_terms attrs)

module _ {N : Type 0} ⦃P : Python N⦄ ⦃U : Platform⦄ (settings : ScoringSettings N)
    (attrs : ProductAttributes) where
  -- The weighted sum of the three similarities.
  abbrev pub weighted_sum : NormalizedAmazonProduct N → N → N → N
  weighted_sum product title attribute =
      P.add
        (P.add (P.mul title settings.title_score_weight)
          (P.mul attribute settings.attribute_score_weight))
        (P.mul (calculate_price_score attrs product) settings.price_score_weight)

module _ {N : Type 0} ⦃P : Python N⦄ ⦃U : Platform⦄ ⦃S : Sudachi⦄ ⦃T : Tfidf N⦄
    (settings : ScoringSettings N) (attrs : ProductAttributes) where
  -- With both similarities given, as in a ranking: without a matching unwanted term the total is the
  -- weighted sum of the similarities and the price score, and with one it is between that sum less 0.5
  -- and that sum less 0.2, all of them cut to 0 to 1 and rounded.
  pub score_product-Takes :
      HasOrder P
      → HasSubtraction P
      → (product : NormalizedAmazonProduct N) (title attribute : N) (language : Language)
        (result : ProductScore N)
      → score_product settings attrs product (some title) (some attribute) language ≡ some result
      → Takes
          (has_unwanted attrs product)
          (weighted_sum settings attrs product title attribute)
          result.total_score
  unfolding score_product attribute_match product_score clamp weighted_total
      calculate_negative_penalty
  score_product-Takes order laws product title attribute language result h =
      let (found, (matched, e)) =
        sequence_some (attribute_match settings attrs product (some attribute) language) h in
      let (scored, (_, same)) =
        sequence_some
          (calculate_weighted_condition_match_score settings attrs (combined_product_text product)
            language)
          matched in
      subst
        (λ (r : ProductScore N).
          Takes (has_unwanted attrs product) (weighted_sum settings attrs product title attribute)
            r.total_score)
        (some_inj e)
        (subst
          (λ f.
            Takes (has_unwanted attrs product) (weighted_sum settings attrs product title attribute)
              (reported (
                weighted_total settings title f.score (calculate_price_score attrs product)
                  (calculate_negative_penalty attrs product).penalty)))
          (some_inj same)
          (penalty_for-Takes order laws (weighted_sum settings attrs product title attribute)
            (λ term. term_matches_text term (combined_product_text product))
            (build_negative_terms attrs)))
