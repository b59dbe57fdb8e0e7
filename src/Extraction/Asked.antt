-- ===== src/Extraction/Asked.antt =====
-- The query that a read answer leads to.
use amazon_similar_search.Prelude.{
  ◌≡◌, ◌≢◌, refl, sym, ap, ◌∙◌, inl, inr, arith, subst, Bool, false, Bool-cases, Option, none, some,
  Text, any, keep, All, All-append, List, [], ◌∷◌, ◌++◌, map,
}
use amazon_similar_search.Json.{Value, Fields}
use amazon_similar_search.Runtime.{Platform, Python}
use amazon_similar_search.Dedupe.{nub_by, first_of_each-eq-nub_by}
use amazon_similar_search.Schemas.{ProductAttributes}
use amazon_similar_search.Matching.{is_japanese, join_space, stripped, stripped_values}
use amazon_similar_search.Extraction.Response.{extract_json_text, normalize_bonsai_json}
use amazon_similar_search.Extraction.Queries.{
  Parser, normalize_price_ranges, categories_check, checked_category, japanese_category_evidence,
  clean_dupe_lower, check_contains_japanese, japanese_query_part, japanese_parts, query_or,
  improve_search_queries, queries_or, finished, parse_attributes,
}
use amazon_similar_search.Extraction.Selection.{validate_search_query, select_outscraper_query}
use amazon_similar_search.Extraction.Attributes.{parse_attributes-finished}

-- The texts of an answer that may go into the query, in their order.
abbrev texts_of : Option Text → List Text
texts_of none = []
texts_of (some s) = s ∷ []

abbrev pub spoken : ProductAttributes → List Text
spoken attrs =
    attrs.estimated_product_name_ja
    ∷ (texts_of attrs.color_ja ++ (attrs.features_ja ++ texts_of attrs.category_ja))

abbrev pub has_japanese : Text → Bool
has_japanese s = any is_japanese s

abbrev pub first_or : Text → List Text → Text
first_or fallback [] = fallback
first_or fallback (query ∷ queries) = query

select_first :
    (attrs : ProductAttributes) (query : Text) (rest : List Text)
    → attrs.search_queries_ja ≡ query ∷ rest
    → select_outscraper_query attrs ≡ validate_search_query query
unfolding select_outscraper_query
select_first attrs query rest h = rw h refl

query_or-parts :
    (parts queries : List Text) (query : Text)
    → parts ≢ []
    → query_or parts queries query ≡ query ∷ []
query_or-parts [] queries query h = absurd (h refl)
query_or-parts (p ∷ ps) queries query h = refl

query_or-none :
    (parts queries : List Text) (query : Text) → parts ≡ [] → query_or parts queries query ≡ queries
query_or-none [] queries query h = refl
query_or-none (p ∷ ps) queries query h = ground arith

queries_or-first :
    (queries : List Text) (fallback : Text)
    → (rest : List Text) × (queries_or queries (fallback ∷ []) ≡ first_or fallback queries ∷ rest)
queries_or-first [] fallback = ([], refl)
queries_or-first (query ∷ queries) fallback = (queries, refl)

module _ (P : Text → Type 0) where
  All-split : (xs ys : List Text) → All P (xs ++ ys) → All P xs × All P ys
  All-split [] ys h = (tt, h)
  All-split (x ∷ xs) ys h = let (hs, rest) = All-split xs ys h.1 in ((h.0, hs), rest)

  -- The check of a category keeps it or drops it.
  All-checked_category :
      (has_evidence : Text → List Text → Bool) (parts : List Text) (category : Option Text)
      → All P (texts_of category)
      → All P (texts_of (checked_category has_evidence parts category))
  All-checked_category has_evidence parts none h = tt
  All-checked_category has_evidence parts (some []) h = h
  All-checked_category has_evidence parts (some (c ∷ s)) h =
      elim (Bool-cases (has_evidence (c ∷ s) parts)) [ inl e ↦ rw e h | inr e ↦ rw e tt ]

keep-none :
    (texts : List Text) → All (λ s. has_japanese s ≡ false) texts → keep has_japanese texts ≡ []
keep-none [] h = refl
keep-none (s ∷ texts) h = rw h.0 (keep-none texts h.1)

stripped_values-cons :
    (value : Option Text) (xs ys : List (Option Text))
    → stripped_values xs ≡ stripped_values ys
    → stripped_values (value ∷ xs) ≡ stripped_values (value ∷ ys)
stripped_values-cons value xs ys h =
    ap (λ (rest : List Text). elim (stripped value) [ none ↦ rest | some b ↦ b ∷ rest ]) h

texts_of-nil : (value : Option Text) → texts_of value ++ [] ≡ texts_of value
texts_of-nil none = refl
texts_of-nil (some s) = refl

-- What is kept of the texts with Japanese, before repetitions are removed.
abbrev japanese_texts : List Text → List Text
japanese_texts texts = stripped_values (map some (keep has_japanese texts))

module _ ⦃U : Platform⦄ where
  part-japanese :
      (value : Option Text) (values : List (Option Text)) (texts : List Text)
      → stripped_values values ≡ japanese_texts texts
      → stripped_values (japanese_query_part value ∷ values)
        ≡ japanese_texts (texts_of value ++ texts)
  unfolding japanese_query_part check_contains_japanese stripped
  part-japanese none values texts h = h
  part-japanese (some []) values texts h = h
  part-japanese (some (c ∷ s)) values texts h = elim (Bool-cases (has_japanese (c ∷ s))) [
    | inl e ↦
        rw e (stripped_values-cons (some (c ∷ s)) values (map some (keep has_japanese texts)) h)
    | inr e ↦ rw e h
  ]

  features-japanese :
      (features : List Text) (values : List (Option Text)) (texts : List Text)
      → stripped_values values ≡ japanese_texts texts
      → stripped_values (map (λ feature. japanese_query_part (some feature)) features ++ values)
        ≡ japanese_texts (features ++ texts)
  features-japanese [] values texts h = h
  features-japanese (s ∷ features) values texts h =
      part-japanese (some s) _ (features ++ texts) (features-japanese features values texts h)

  -- The texts that have Japanese, stripped, each once up to case: the first of equal ones stays.
  abbrev pub asked_parts : ProductAttributes → List Text
  asked_parts attrs = nub_by U.lower (japanese_texts (spoken attrs))

  japanese_parts-asked : (attrs : ProductAttributes) → japanese_parts attrs ≡ asked_parts attrs
  unfolding clean_dupe_lower
  japanese_parts-asked attrs =
      let category = japanese_query_part attrs.category_ja ∷ [] in
      let features = map (λ feature. japanese_query_part (some feature)) attrs.features_ja in
      let category_texts = texts_of attrs.category_ja in
      let feature_texts = attrs.features_ja ++ category_texts in
      first_of_each-eq-nub_by stripped U.lower _
      ∙ ap (nub_by U.lower) (
          part-japanese (some attrs.estimated_product_name_ja)
            (japanese_query_part attrs.color_ja ∷ (features ++ category))
            (texts_of attrs.color_ja ++ feature_texts)
            (part-japanese attrs.color_ja (features ++ category) feature_texts (
              features-japanese attrs.features_ja category category_texts (
                part-japanese attrs.category_ja [] [] refl
                ∙ ap japanese_texts (texts_of-nil attrs.category_ja)))))

  finished-parts :
      (fallback : Text) (validated : ProductAttributes)
      → japanese_parts (finished fallback validated) ≢ []
      → (finished fallback validated).search_queries_ja
        ≡ join_space (japanese_parts (finished fallback validated)) ∷ []
  unfolding finished improve_search_queries categories_check normalize_price_ranges
  finished-parts fallback validated h = query_or-parts _ _ _ h

  finished-first :
      (fallback : Text) (validated : ProductAttributes)
      → japanese_parts (finished fallback validated) ≡ []
      → (rest : List Text) × ((finished fallback validated).search_queries_ja
          ≡ first_or fallback validated.search_queries_ja ∷ rest)
  unfolding finished improve_search_queries categories_check normalize_price_ranges
  finished-first fallback validated h =
      let (rest, first) = queries_or-first validated.search_queries_ja fallback in
      (rest, query_or-none _ _ _ h ∙ first)

  finished-none :
      (fallback : Text) (validated : ProductAttributes)
      → All (λ s. has_japanese s ≡ false) (spoken validated)
      → japanese_parts (finished fallback validated) ≡ []
  unfolding finished improve_search_queries categories_check normalize_price_ranges
  finished-none fallback validated h =
      let none_of = λ (s : Text). has_japanese s ≡ false in
      let (colour, others) = All-split none_of (texts_of validated.color_ja) _ h.1 in
      let (features, category) = All-split none_of validated.features_ja _ others in
      japanese_parts-asked (finished fallback validated)
      ∙ ap (λ texts. nub_by U.lower (stripped_values (map some texts)))
          (keep-none (spoken (finished fallback validated)) (
            h.0,
            All-append none_of (texts_of validated.color_ja) _ colour (
                All-append none_of validated.features_ja _ features (
                  All-checked_category none_of japanese_category_evidence
                    (validated.estimated_product_name_ja ∷ validated.features_ja)
                    validated.category_ja category)),
          ))

module _ {N : Type 0} ⦃P : Python N⦄ ⦃U : Platform⦄ (parser : Parser N) where
  -- An answer that is validated, and whose name, colour, features and category have no Japanese, is read,
  -- and the query that Outscraper is asked is the first Japanese query of the answer or, where it has
  -- none, the user's own text; that query is refused or taken as `validate_search_query` says.
  pub select_outscraper_query_fallback :
      (raw_text fallback : Text) (value : Value N) (fields : Fields N)
      (validated : ProductAttributes)
      → parser.loads (extract_json_text raw_text) ≡ some value
      → normalize_bonsai_json value ≡ some fields
      → parser.model_validate fields ≡ some validated
      → All (λ s. has_japanese s ≡ false) (spoken validated)
      → (attrs : ProductAttributes) × (parse_attributes parser raw_text fallback ≡ some attrs)
        × (select_outscraper_query attrs
            ≡ validate_search_query (first_or fallback validated.search_queries_ja))
  unfolding parse_attributes
  select_outscraper_query_fallback raw_text fallback value fields validated loads shaped valid h =
      let (rest, first) = finished-first fallback validated (finished-none fallback validated h) in
      (
        finished fallback validated,
        rw (loads, shaped, valid) refl,
        select_first (finished fallback validated) _ rest first,
      )

  -- Where the name, the colour, the features or the category that is left have Japanese, the query that
  -- is asked is these texts in this order, without those that have none, stripped, each once up to
  -- case, and joined by spaces.
  pub select_outscraper_query_parts :
      (raw_text fallback : Text) (attrs : ProductAttributes)
      → parse_attributes parser raw_text fallback ≡ some attrs
      → asked_parts attrs ≢ []
      → select_outscraper_query attrs ≡ validate_search_query (join_space (asked_parts attrs))
  select_outscraper_query_parts raw_text fallback attrs h present =
      let (validated, e) = parse_attributes-finished parser raw_text fallback h in
      let same = japanese_parts-asked attrs in
      select_first attrs (join_space (asked_parts attrs)) [] (
        subst (λ parts. attrs.search_queries_ja ≡ join_space parts ∷ []) same
          (subst (λ a. a.search_queries_ja ≡ join_space (japanese_parts a) ∷ []) e
            (finished-parts fallback validated
              (λ none_left. present (sym same ∙ subst (λ a. japanese_parts a ≡ []) e none_left)))))
