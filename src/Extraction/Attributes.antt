-- ===== src/Extraction/Attributes.antt =====
-- What holds of the attributes that `parse_attributes` returns.
use amazon_similar_search.Prelude.{
  sequence_some, some_inj, ℤ, pos, negsuc, ◌≡◌, refl, subst, inl, inr, arith, Bool, true, false,
  Bool-cases, Option, none, some, Text, List, [], ◌∷◌,
}
use amazon_similar_search.Runtime.{Platform, Python}
use amazon_similar_search.Schemas.{ProductAttributes}
use amazon_similar_search.Extraction.Response.{extract_json_text, normalize_bonsai_json}
use amazon_similar_search.Extraction.Queries.{
  Parser, greater, in_order, normalize_price_ranges, given_text, japanese_category_evidence,
  english_category_evidence, checked_category, categories_check, improve_search_queries, finished,
  parse_attributes,
}

module _ {N : Type 0} ⦃P : Python N⦄ ⦃U : Platform⦄ (parser : Parser N) where
  pub parse_attributes-finished :
      (raw_text fallback : Text) {attrs : ProductAttributes}
      → parse_attributes parser raw_text fallback ≡ some attrs
      → (validated : ProductAttributes) × (finished fallback validated ≡ attrs)
  unfolding parse_attributes
  parse_attributes-finished raw_text fallback h =
      let (value, (_, h1)) = sequence_some (parser.loads (extract_json_text raw_text)) h in
      let (fields, (_, h2)) = sequence_some (normalize_bonsai_json value) h1 in
      let (validated, (_, h3)) = sequence_some (parser.model_validate fields) h2 in
      (validated, some_inj h3)

-- The lower end is not greater than the upper.
abbrev pub IsRange : Option ℤ → Option ℤ → Type 0
IsRange none maximum = Unit
IsRange (some a) none = Unit
IsRange (some a) (some b) = greater a b ≡ false

greater_swap : (a b : ℤ) → greater a b ≡ true → greater b a ≡ false
unfolding greater
greater_swap (pos m) (pos n) h = ground arith
greater_swap (pos m) (negsuc n) h = refl
greater_swap (negsuc m) (pos n) h = ground arith
greater_swap (negsuc m) (negsuc n) h = ground arith

in_order-IsRange : (a b : Option ℤ) → IsRange (in_order a b).0 (in_order a b).1
in_order-IsRange none b = tt
in_order-IsRange (some a) none = tt
in_order-IsRange (some a) (some b) = elim (Bool-cases (greater a b)) [
  | inl e ↦ rw e (greater_swap a b e)
  | inr e ↦ rw e e
]

-- A category has evidence, is empty, or is left out.
abbrev pub HasEvidence : (Text → List Text → Bool) → List Text → Option Text → Type 0
HasEvidence has_evidence parts none = Unit
HasEvidence has_evidence parts (some []) = Unit
HasEvidence has_evidence parts (some (c ∷ s)) = has_evidence (c ∷ s) parts ≡ true

checked_category-HasEvidence :
    (has_evidence : Text → List Text → Bool) (parts : List Text) (category : Option Text)
    → HasEvidence has_evidence parts (checked_category has_evidence parts category)
checked_category-HasEvidence has_evidence parts none = tt
checked_category-HasEvidence has_evidence parts (some []) = tt
checked_category-HasEvidence has_evidence parts (some (c ∷ s)) =
    elim (Bool-cases (has_evidence (c ∷ s) parts)) [ inl e ↦ rw e e | inr e ↦ rw e tt ]

module _ ⦃U : Platform⦄ where
  finished-IsRange :
      (fallback : Text) (validated : ProductAttributes)
      → IsRange
          (finished fallback validated).min_price_jpy
          (finished fallback validated).max_price_jpy
        × IsRange
            (finished fallback validated).expected_price_min_jpy
            (finished fallback validated).expected_price_max_jpy
  unfolding finished normalize_price_ranges categories_check improve_search_queries
  finished-IsRange fallback validated = (in_order-IsRange _ _, in_order-IsRange _ _)

  finished-HasEvidence :
      (fallback : Text) (validated : ProductAttributes)
      → HasEvidence japanese_category_evidence
          ((finished fallback validated).estimated_product_name_ja
            ∷ (finished fallback validated).features_ja)
          (finished fallback validated).category_ja
        × HasEvidence english_category_evidence
            (given_text (finished fallback validated).estimated_product_name_en
              ∷ (finished fallback validated).features_en)
            (finished fallback validated).category_en
  unfolding finished normalize_price_ranges categories_check improve_search_queries
  finished-HasEvidence fallback validated = (
    checked_category-HasEvidence japanese_category_evidence
        (validated.estimated_product_name_ja ∷ validated.features_ja) validated.category_ja,
    checked_category-HasEvidence english_category_evidence
        (given_text validated.estimated_product_name_en ∷ validated.features_en)
        validated.category_en,
  )

-- What the checks promise of the attributes.
abbrev pub IsConsistent : ⦃U : Platform⦄ → ProductAttributes → Type 0
IsConsistent attrs =
    (IsRange attrs.min_price_jpy attrs.max_price_jpy
      × IsRange attrs.expected_price_min_jpy attrs.expected_price_max_jpy)
    × (HasEvidence japanese_category_evidence (attrs.estimated_product_name_ja ∷ attrs.features_ja)
          attrs.category_ja
        × HasEvidence english_category_evidence
            (given_text attrs.estimated_product_name_en ∷ attrs.features_en) attrs.category_en)

module _ {N : Type 0} ⦃P : Python N⦄ ⦃U : Platform⦄ (parser : Parser N) where
  -- Of the attributes that an answer is read as, both price ranges have their ends in order, and
  -- a category that is left and not empty has its evidence in the name and the features.
  pub parse_attributes-IsConsistent :
      (raw_text fallback : Text) (attrs : ProductAttributes)
      → parse_attributes parser raw_text fallback ≡ some attrs
      → IsConsistent attrs
  parse_attributes-IsConsistent raw_text fallback attrs h =
      let (validated, e) = parse_attributes-finished parser raw_text fallback h in
      subst (λ a. IsConsistent a) e
        (finished-IsRange fallback validated, finished-HasEvidence fallback validated)
