-- ===== src/Scoring/Rank/Results.antt =====
-- The list that `score_products` returns: the products in descending order of total, where equal
-- totals keep their order.
use mathlib.Core.List.{Perm}
use mathlib.Core.List.Perm
use amazon_similar_search.Prelude.{
  some_inj, sequence_some, ◌>>=◌, ◌≡◌, refl, ap, subst, ◌∙◌, arith, Bool, Option, Option-cases, inl,
  inr, some, All, keep, List, [], ◌∷◌, map,
}
use amazon_similar_search.Runtime.{Platform, Python}
use amazon_similar_search.Runtime.Laws.{HasOrder, InUnit}
use amazon_similar_search.Schemas.{ProductAttributes, NormalizedAmazonProduct, ProductScore}
use amazon_similar_search.Matching.{Sudachi}
use amazon_similar_search.Scoring.Terms.{en, ja, combined_product_text, ScoringSettings}
use amazon_similar_search.Scoring.Match.{calculate_weighted_condition_match_score}
use amazon_similar_search.Scoring.Similarity.{Tfidf}
use amazon_similar_search.Scoring.Rank.Order.{
  IsDescending, AreEqual, sort_ranked-Perm, sort_ranked-IsDescending, keep-sort_ranked,
  All-sort_ranked,
}
use amazon_similar_search.Scoring.Rank.Totals.{score_product-InUnit, score_product-asin}
use amazon_similar_search.Scoring.Rank.{
  zip_strict, collect, sort_ranked, score_product, score_candidate, title_scores, attribute_scores,
  candidates, scored_products, score_products,
}

map-of-fst :
    {A B C : Type 0} (f : A → C) (xs : List (A × B))
    → map (λ p. f p.0) xs ≡ map f (map (λ p. p.0) xs)
map-of-fst f [] = refl
map-of-fst f (x ∷ xs) = ap (λ l. f x.0 ∷ l) (map-of-fst f xs)

map-zip_strict :
    {A B : Type 0} (xs : List A) (ys : List B) {zipped : List (A × B)}
    → zip_strict xs ys ≡ some zipped
    → map (λ p. p.0) zipped ≡ xs
unfolding zip_strict
map-zip_strict [] [] h = subst (λ z. map (λ p. p.0) z ≡ []) (some_inj h) refl
map-zip_strict [] (y ∷ ys) h = ground arith
map-zip_strict (x ∷ xs) [] h = ground arith
map-zip_strict (x ∷ xs) (y ∷ ys) h =
    let (rest, (hr, e)) = sequence_some (zip_strict xs ys) h in
    subst (λ z. map (λ p. p.0) z ≡ x ∷ xs) (some_inj e) (ap (λ l. x ∷ l) (map-zip_strict xs ys hr))

-- A loop whose body keeps a value keeps the list of them.
map-collect :
    {A B C : Type 0} (body : A → Option B) (f : A → C) (g : B → C)
    → ((a : A) (b : B) → body a ≡ some b → g b ≡ f a)
    → (xs : List A) {ys : List B} → collect body xs ≡ some ys
    → map g ys ≡ map f xs
unfolding collect
map-collect body f g keeps [] h = subst (λ l. map g l ≡ []) (some_inj h) refl
map-collect body f g keeps (x ∷ xs) h =
    let (y, (hy, h')) = sequence_some (body x) h in
    let (ys, (hys, e)) = sequence_some (collect body xs) h' in
    subst (λ l. map g l ≡ f x ∷ map f xs) (some_inj e)
      (ground (arith, keeps x y hy, map-collect body f g keeps xs hys))

All-collect :
    {A B : Type 0} (body : A → Option B) (Q : B → Type 0)
    → ((a : A) (b : B) → body a ≡ some b → Q b)
    → (xs : List A) {ys : List B} → collect body xs ≡ some ys
    → All Q ys
unfolding collect
All-collect body Q holds [] h = subst (λ l. All Q l) (some_inj h) tt
All-collect body Q holds (x ∷ xs) h =
    let (y, (hy, h')) = sequence_some (body x) h in
    let (ys, (hys, e)) = sequence_some (collect body xs) h' in
    subst (λ l. All Q l) (some_inj e) (holds x y hy, All-collect body Q holds xs hys)

module _ {N : Type 0} ⦃P : Python N⦄ ⦃U : Platform⦄ ⦃S : Sudachi⦄ ⦃T : Tfidf N⦄
    (settings : ScoringSettings N) (attrs : ProductAttributes) where
  -- The body of the loop ends in a call of `score_product`.
  score_candidate-call :
      (product : NormalizedAmazonProduct N) (scores : N × (N × (N × N))) (result : ProductScore N)
      → score_candidate settings attrs (product, scores) ≡ some result
      → (title : Option N) × ((attribute : Option N) × ((language : _) × (score_product settings
                attrs product title attribute language
              ≡ some result)))
  unfolding score_candidate
  score_candidate-call product (a, (b, (c, d))) result h =
      let (english, (he, h')) =
        sequence_some
          (calculate_weighted_condition_match_score settings attrs (combined_product_text product)
            en)
          h in
      let (japanese, (hj, h'')) =
        sequence_some
          (calculate_weighted_condition_match_score settings attrs (combined_product_text product)
            ja)
          h' in
      (_, (_, (_, h'')))

  pub candidates-products :
      (products : List (NormalizedAmazonProduct N)) {zipped : List _}
      → candidates settings attrs products ≡ some zipped
      → map (λ c. c.0) zipped ≡ products
  unfolding candidates
  candidates-products products h =
      let (_, (_, h1)) =
        sequence_some
          (zip_strict (attribute_scores settings attrs products en)
            (attribute_scores settings attrs products ja))
          h in
      let (_, (_, h2)) =
        sequence_some (zip_strict (title_scores settings attrs products ja) _) h1 in
      let (_, (_, h3)) =
        sequence_some (zip_strict (title_scores settings attrs products en) _) h2 in
      map-zip_strict products _ h3

  scored_products-asins :
      (products : List (NormalizedAmazonProduct N)) {scored : List (ProductScore N)}
      → scored_products settings attrs products ≡ some scored
      → map (λ s. s.asin) scored ≡ map (λ p. p.asin) products
  unfolding scored_products
  scored_products-asins products h =
      let (zipped, (hz, hs)) = sequence_some (candidates settings attrs products) h in
      map-collect (score_candidate settings attrs) (λ c. c.0.asin) (λ s. s.asin)
        (λ c s e.
          let (title, (attribute, (language, hc))) = score_candidate-call c.0 c.1 s e in
          score_product-asin settings attrs c.0 title attribute language s hc)
        zipped hs
      ∙ map-of-fst (λ p. p.asin) zipped
      ∙ ap (map (λ p. p.asin)) (candidates-products products hz)

  scored_products-InUnit :
      HasOrder P
      → (products : List (NormalizedAmazonProduct N)) {scored : List (ProductScore N)}
      → scored_products settings attrs products ≡ some scored
      → All (λ s. InUnit P s.total_score) scored
  unfolding scored_products
  scored_products-InUnit order products h =
      let (zipped, (hz, hs)) = sequence_some (candidates settings attrs products) h in
      All-collect (score_candidate settings attrs) (λ s. InUnit P s.total_score)
        (λ c s e.
          let (title, (attribute, (language, hc))) = score_candidate-call c.0 c.1 s e in
          score_product-InUnit settings attrs order c.0 title attribute language s hc)
        zipped hs

  -- A ranking has the products it was given, each once, in descending order of total, and every
  -- total is between 0 and 1.
  pub score_products_ranking :
      HasOrder P
      → (products : List (NormalizedAmazonProduct N)) (result : List (ProductScore N))
      → score_products settings attrs products ≡ some result
      → Perm (map (λ s. s.asin) result) (map (λ p. p.asin) products)
        × (IsDescending result × All (λ s. InUnit P s.total_score) result)
  unfolding score_products
  score_products_ranking order products result h =
      let (scored, (hs, e)) = sequence_some (scored_products settings attrs products) h in
      subst
        (λ r.
          Perm (map (λ s. s.asin) r) (map (λ p. p.asin) products)
          × (IsDescending r × All (λ s. InUnit P s.total_score) r))
        (some_inj e)
        (
          subst (λ l. Perm (map (λ s. s.asin) (sort_ranked scored)) l)
              (scored_products-asins products hs)
              (Perm.map (λ s. s.asin) (sort_ranked-Perm scored)),
          (
            sort_ranked-IsDescending order scored,
            All-sort_ranked _ scored (scored_products-InUnit order products hs),
          ),
        )

  -- Products of equal total stay in the order in which they were given: of a class of scores none of
  -- which is lower than another, the ranking keeps the order of the loop.
  pub score_products_stable :
      (p : ProductScore N → Bool)
      → AreEqual p
      → (products : List (NormalizedAmazonProduct N))
      → (score_products settings attrs products >>= λ result. some (keep p result))
        ≡ (scored_products settings attrs products >>= λ scored. some (keep p scored))
  unfolding score_products
  score_products_stable p h products =
      elim (Option-cases (scored_products settings attrs products)) [
        | inl e ↦ rw e refl
        | inr (scored, e) ↦ rw e (ap some (keep-sort_ranked p h scored))
      ]
