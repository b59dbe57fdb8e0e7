-- ===== src/Scoring/Price.antt =====
-- The price score and the penalty of src/services/product_scoring.py.
pub mod Bounds
pub mod Nearer
use amazon_similar_search.Prelude.{
  ℕ, suc, ℤ, pos, ◌==◌, min, max, leb, ltb, ◌&&◌, Bool, Option, none, some, Text, codes, eq_text,
  keep, length, List, [], ◌∷◌, if◌then◌else◌,
}
use amazon_similar_search.Runtime.{Platform, Python, casefold, float_min, float_max}
use amazon_similar_search.Schemas.{ProductAttributes, NormalizedAmazonProduct}
use amazon_similar_search.Matching.{Sudachi, term_matches_text}
use amazon_similar_search.Scoring.Terms.{build_negative_terms, combined_product_text}

-- A positive price is a number of ℕ.
unfoldable pub positive_price : Option ℤ → Option ℕ
positive_price (some (pos (suc n))) = some (suc n)
positive_price _ = none

-- `attrs.price_preference or "none"`, casefolded.
abbrev pub preference_text : Option Text → Text
preference_text none = codes "none"
preference_text (some []) = codes "none"
preference_text (some (c ∷ s)) = c ∷ s

module _ {N : Type 0} ⦃P : Python N⦄ where
  abbrev pub one : N
  one = P.of_int (pos 1)

  abbrev pub half : N
  half = P.ratio 1 2

  -- A price against the target.
  unfoldable pub target_score : ℕ → ℕ → N
  target_score price target = P.ratio (min price target) (max price target)

  -- A price against a range whose ends are in order.
  unfoldable pub range_score : ℕ → ℕ → ℕ → N
  range_score price minimum maximum =
      if leb minimum price && leb price maximum
      then one
      else if ltb price minimum
      then P.ratio price minimum
      else P.ratio maximum price

  unfoldable pub cheap_score : ℕ → Option ℕ → N
  cheap_score price none = half
  cheap_score price (some reference) = float_min one (P.ratio reference price)

  unfoldable pub premium_score : ℕ → Option ℕ → N
  premium_score price none = half
  premium_score price (some reference) = float_min one (
      P.add half
        (P.mul half (P.log10 (P.add (float_max (P.of_int (pos 0)) (P.ratio price reference)) one))))

module _ {N : Type 0} ⦃P : Python N⦄ ⦃U : Platform⦄ where
  -- Without a price in the wish, the preference decides.
  unfoldable pub preference_score : ℕ → ProductAttributes → N
  preference_score price attrs =
      let preference = casefold (preference_text attrs.price_preference) in
      if eq_text preference (codes "cheap")
      then cheap_score price (positive_price attrs.expected_price_max_jpy)
      else if eq_text preference (codes "premium")
      then premium_score price (positive_price attrs.expected_price_min_jpy)
      else half

  -- The branches on the target and on the two ends of the range.
  unfoldable pub wanted_price_score : ProductAttributes → ℕ → Option ℕ → Option ℕ → Option ℕ → N
  wanted_price_score attrs price (some target) minimum maximum = target_score price target
  wanted_price_score attrs price none (some minimum) (some maximum) =
      range_score price (min minimum maximum) (max minimum maximum)
  wanted_price_score attrs price none (some minimum) none = float_min one (P.ratio price minimum)
  wanted_price_score attrs price none none (some maximum) = float_min one (P.ratio maximum price)
  wanted_price_score attrs price none none none = preference_score price attrs

  unfoldable pub price_score_of : ProductAttributes → Option ℕ → N
  price_score_of attrs none = P.of_int (pos 0)
  price_score_of attrs (some price) =
      wanted_price_score attrs price (positive_price attrs.target_price_jpy)
        (positive_price attrs.min_price_jpy) (positive_price attrs.max_price_jpy)

  unfoldable pub calculate_price_score : ProductAttributes → NormalizedAmazonProduct N → N
  calculate_price_score attrs product = price_score_of attrs (positive_price product.price_jpy)

-- The penalty, with the terms that it is for.
pub record Penalty (N : Type 0) : Type 0 where
  pub penalty : N
  pub negative_matches : List Text

module _ {N : Type 0} ⦃P : Python N⦄ where
  unfoldable pub penalty_for : List Text → Penalty N
  penalty_for [] = record { penalty = P.of_int (pos 0); negative_matches = [] }
  penalty_for (t ∷ ts) = record {
    penalty = float_min (P.ratio 1 2) (P.mul (P.ratio 1 5) (P.of_int (pos (length (t ∷ ts)))));
    negative_matches = t ∷ ts;
  }

module _ {N : Type 0} ⦃P : Python N⦄ ⦃U : Platform⦄ ⦃S : Sudachi⦄ where
  unfoldable pub calculate_negative_penalty :
      ProductAttributes → NormalizedAmazonProduct N → Penalty N
  calculate_negative_penalty attrs product =
      let text = combined_product_text product in
      penalty_for (keep (λ term. term_matches_text term text) (build_negative_terms attrs))
