-- ===== src/Scoring/Price/Bounds.antt =====
-- The range of the price score, and how it falls with the distance from the wanted price.
use amazon_similar_search.Prelude.{
  ◌≡◌, ℕ, pos, ◌≤◌, inl, inr, leb, ltb, ◌&&◌, false, Bool-cases, Option, none, some, codes, eq_text,
  arith,
}
use amazon_similar_search.Runtime.{Platform, Python, casefold, float_min, float_max}
use amazon_similar_search.Runtime.Laws.{HasOrder, AtMost, InUnit}
use amazon_similar_search.Schemas.{ProductAttributes, NormalizedAmazonProduct}
use amazon_similar_search.Scoring.Price.{
  one, half, target_score, range_score, cheap_score, premium_score, preference_text,
  preference_score, wanted_price_score, price_score_of, calculate_price_score,
}

-- A price that is neither in the range nor below it.
above :
    (price low high : ℕ)
    → low ≤ high
    → (leb low price && leb price high) ≡ false
    → ltb price low ≡ false
    → high ≤ price
above price low high h e f = ground arith

module _ {N : Type 0} ⦃P : Python N⦄ (order : HasOrder P) where
  one-InUnit : InUnit P one
  one-InUnit = (order.zero_one, order.irreflexive _)

  half-InUnit : InUnit P half
  half-InUnit = (order.ratio_sign 1 2, order.ratio_one 1 2 (omega arith))

  -- `min(1.0, x)` is in the unit interval when x is not below zero.
  pub float_min-InUnit : (x : N) → AtMost P (P.of_int (pos 0)) x → InUnit P (float_min one x)
  unfolding float_min
  float_min-InUnit x h = elim (Bool-cases (P.lt x one)) [
    | inl e ↦ rw e (h, order.asymmetric x one e)
    | inr e ↦ rw e one-InUnit
  ]

  pub float_max_sign :
      (x y : N)
      → AtMost P (P.of_int (pos 0)) x
      → AtMost P (P.of_int (pos 0)) y
      → AtMost P (P.of_int (pos 0)) (float_max x y)
  unfolding float_max
  float_max_sign x y hx hy = elim (Bool-cases (P.lt x y)) [ inl e ↦ rw e hy | inr e ↦ rw e hx ]

  target_score-InUnit : (price target : ℕ) → InUnit P (target_score price target)
  unfolding target_score
  target_score-InUnit price target = (order.ratio_sign _ _, order.ratio_one _ _ (ground arith))

  range_score-InUnit : (price low high : ℕ) → low ≤ high → InUnit P (range_score price low high)
  unfolding range_score
  range_score-InUnit price low high h = elim (Bool-cases (leb low price && leb price high)) [
    | inl e ↦ rw e one-InUnit
    | inr e ↦ elim (Bool-cases (ltb price low)) [
      | inl f ↦ rw (e, f) (order.ratio_sign _ _, order.ratio_one _ _ (ground arith))
      | inr f ↦ rw (e, f) (order.ratio_sign _ _, order.ratio_one _ _ (above price low high h e f))
    ]
  ]

  cheap_score-InUnit : (price : ℕ) (reference : Option ℕ) → InUnit P (cheap_score price reference)
  unfolding cheap_score
  cheap_score-InUnit price none = half-InUnit
  cheap_score-InUnit price (some r) = float_min-InUnit _ (order.ratio_sign _ _)

  premium_score-InUnit :
      (price : ℕ) (reference : Option ℕ) → InUnit P (premium_score price reference)
  unfolding premium_score
  premium_score-InUnit price none = half-InUnit
  premium_score-InUnit price (some r) = float_min-InUnit _ (
      order.add_sign _ _ half-InUnit.0 (
        order.mul_sign _ _ half-InUnit.0 (
          order.log10_sign _
            (order.add_one _ (float_max_sign _ _ (order.irreflexive _) (order.ratio_sign _ _))))))

module _ {N : Type 0} ⦃P : Python N⦄ ⦃U : Platform⦄ (order : HasOrder P) where
  preference_score-InUnit :
      (price : ℕ) (attrs : ProductAttributes) → InUnit P (preference_score price attrs)
  unfolding preference_score
  preference_score-InUnit price attrs =
      elim (Bool-cases
        (eq_text (casefold (preference_text attrs.price_preference)) (codes "cheap"))) [
          | inl e ↦ rw e (cheap_score-InUnit order price _)
          | inr e ↦
              elim (Bool-cases
                (eq_text (casefold (preference_text attrs.price_preference)) (codes "premium"))) [
                  | inl f ↦ rw (e, f) (premium_score-InUnit order price _)
                  | inr f ↦ rw (e, f) (half-InUnit order)
                ]
        ]

  wanted_price_score-InUnit :
      (attrs : ProductAttributes) (price : ℕ) (target minimum maximum : Option ℕ)
      → InUnit P (wanted_price_score attrs price target minimum maximum)
  unfolding wanted_price_score
  wanted_price_score-InUnit attrs price (some t) minimum maximum = target_score-InUnit order price t
  wanted_price_score-InUnit attrs price none (some a) (some b) =
      range_score-InUnit order price _ _ (ground arith)
  wanted_price_score-InUnit attrs price none (some a) none =
      float_min-InUnit order _ (order.ratio_sign _ _)
  wanted_price_score-InUnit attrs price none none (some b) =
      float_min-InUnit order _ (order.ratio_sign _ _)
  wanted_price_score-InUnit attrs price none none none = preference_score-InUnit price attrs

  price_score_of-InUnit :
      (attrs : ProductAttributes) (price : Option ℕ) → InUnit P (price_score_of attrs price)
  unfolding price_score_of
  price_score_of-InUnit attrs none = (order.irreflexive _, order.zero_one)
  price_score_of-InUnit attrs (some price) = wanted_price_score-InUnit attrs price _ _ _

  -- Whatever prices the wish names, the price score of a product lies between 0 and 1.
  pub calculate_price_score-InUnit :
      (attrs : ProductAttributes) (product : NormalizedAmazonProduct N)
      → InUnit P (calculate_price_score attrs product)
  unfolding calculate_price_score
  calculate_price_score-InUnit attrs product = price_score_of-InUnit attrs _
