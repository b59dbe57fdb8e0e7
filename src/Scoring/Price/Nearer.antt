-- ===== src/Scoring/Price/Nearer.antt =====
-- The price score by the distance from the wanted price.
use native.Mathlib.Nat.{mul-le-mul_left, mul-le-mul_right}
use amazon_similar_search.Prelude.{
  ℕ, zero, suc, ℤ, pos, negsuc, ◌≤◌, ◌<◌, ◌*◌, ◌≡◌, refl, ◌⊎◌, inl, inr, min, max, Option, none,
  some, arith,
}
use amazon_similar_search.Runtime.{Platform, Python}
use amazon_similar_search.Runtime.Laws.{HasOrder, AtMost}
use amazon_similar_search.Schemas.{ProductAttributes, NormalizedAmazonProduct}
use amazon_similar_search.Scoring.Price.{
  positive_price, target_score, wanted_price_score, price_score_of, calculate_price_score,
}

-- `b` lies between `a` and the target.
abbrev pub IsBetween : ℕ → ℕ → ℕ → Type 0
IsBetween a b target = (a ≤ b × b ≤ target) ⊎ (target ≤ b × b ≤ a)

positive_price_pos : (o : Option ℤ) {n : ℕ} → positive_price o ≡ some n → 0 < n
unfolding positive_price
positive_price_pos (some (pos (suc k))) h = ground arith
positive_price_pos (some (pos zero)) h = ground arith
positive_price_pos (some (negsuc k)) h = ground arith
positive_price_pos none h = ground arith

below : (a b : ℕ) → a ≤ b → (min a b ≡ a) × (max a b ≡ b)
below a b h = (ground arith, ground arith)

over : (a b : ℕ) → b ≤ a → (min a b ≡ b) × (max a b ≡ a)
over a b h = (ground arith, ground arith)

nearer_products :
    (a b target : ℕ)
    → IsBetween a b target
    → min a target * max b target ≤ min b target * max a target
nearer_products a b target (inl h) =
    let fa = below a target (ground arith) in
    let fb = below b target h.1 in rw (fa.0, fa.1, fb.0, fb.1) (mul-le-mul_right target h.0)
nearer_products a b target (inr h) =
    let fa = over a target (ground arith) in
    let fb = over b target h.0 in rw (fa.0, fa.1, fb.0, fb.1) (mul-le-mul_left target h.1)

module _ {N : Type 0} ⦃P : Python N⦄ ⦃U : Platform⦄ where
  target_score_nearer :
      HasOrder P
      → (a b target : ℕ) → 0 < target
      → IsBetween a b target
      → AtMost P (target_score a target) (target_score b target)
  unfolding target_score
  target_score_nearer order a b target positive h =
      order.ratio_monotone _ _ _ _ (ground arith) (ground arith) (nearer_products a b target h)

  calculate_price_score_target :
      (attrs : ProductAttributes) (product : NormalizedAmazonProduct N) {target price : ℕ}
      → positive_price attrs.target_price_jpy ≡ some target
      → positive_price product.price_jpy ≡ some price
      → calculate_price_score attrs product ≡ target_score price target
  unfolding calculate_price_score price_score_of wanted_price_score
  calculate_price_score_target attrs product ht hp = rw (hp, ht)

  -- With a target price, a product whose price lies between another's and the target scores no less
  -- than the other.
  pub calculate_price_score_nearer :
      HasOrder P
      → (attrs : ProductAttributes) (further nearer : NormalizedAmazonProduct N) (target a b : ℕ)
      → positive_price attrs.target_price_jpy ≡ some target
      → positive_price further.price_jpy ≡ some a
      → positive_price nearer.price_jpy ≡ some b
      → IsBetween a b target
      → AtMost P (calculate_price_score attrs further) (calculate_price_score attrs nearer)
  calculate_price_score_nearer order attrs further nearer target a b ht ha hb h =
      rw
        (
          calculate_price_score_target attrs further ht ha,
          calculate_price_score_target attrs nearer ht hb,
        )
        (target_score_nearer order a b target (positive_price_pos attrs.target_price_jpy ht) h)

abbrev pub with_ends_swapped : ProductAttributes → ProductAttributes
with_ends_swapped attrs = record attrs {
  min_price_jpy = attrs.max_price_jpy;
  max_price_jpy = attrs.min_price_jpy;
}

min_swap : (a b : ℕ) → min a b ≡ min b a
min_swap a b = ground arith

max_swap : (a b : ℕ) → max a b ≡ max b a
max_swap a b = ground arith

module _ {N : Type 0} ⦃P : Python N⦄ ⦃U : Platform⦄ where
  wanted_price_score_swapped :
      (attrs : ProductAttributes) (price : ℕ) (target : Option ℕ) (a b : ℕ)
      → wanted_price_score {N = N} (with_ends_swapped attrs) price target (some b) (some a)
        ≡ wanted_price_score attrs price target (some a) (some b)
  unfolding wanted_price_score
  wanted_price_score_swapped attrs price (some t) a b = refl
  wanted_price_score_swapped attrs price none a b = rw (min_swap b a, max_swap b a)

  price_score_of_swapped :
      (attrs : ProductAttributes) (price : Option ℕ) (a b : ℕ)
      → positive_price attrs.min_price_jpy ≡ some a
      → positive_price attrs.max_price_jpy ≡ some b
      → price_score_of {N = N} (with_ends_swapped attrs) price ≡ price_score_of attrs price
  unfolding price_score_of
  price_score_of_swapped attrs none a b ha hb = refl
  price_score_of_swapped attrs (some price) a b ha hb =
      rw (ha, hb)
        (wanted_price_score_swapped attrs price (positive_price attrs.target_price_jpy) a b)

  -- The two ends of a price range may be given in either order.
  pub calculate_price_score_swapped :
      (attrs : ProductAttributes) (product : NormalizedAmazonProduct N) (a b : ℕ)
      → positive_price attrs.min_price_jpy ≡ some a
      → positive_price attrs.max_price_jpy ≡ some b
      → calculate_price_score (with_ends_swapped attrs) product
        ≡ calculate_price_score attrs product
  unfolding calculate_price_score
  calculate_price_score_swapped attrs product a b ha hb =
      price_score_of_swapped attrs (positive_price product.price_jpy) a b ha hb
