-- ===== src/Extraction/Queries.antt =====
-- The checks and the search queries of src/services/user_attribute_extraction.py.
use amazon_similar_search.Prelude.{
  ◌>>=◌, ℕ, ℤ, pos, negsuc, Bool, true, false, not, ◌&&◌, Option, none, some, Text, strip, contains,
  is_empty, is_space, member, any, all, keep, length, ltb, ◌==◌, if◌then◌else◌, List, [], ◌∷◌, ◌++◌,
  map,
}
use amazon_similar_search.Json.{Value, Fields}
use amazon_similar_search.Runtime.{Platform, Python}
use amazon_similar_search.Dedupe.{first_of_each}
use amazon_similar_search.Schemas.{ProductAttributes}
use amazon_similar_search.Matching.{is_japanese, join_space, stripped}
use amazon_similar_search.Extraction.Response.{extract_json_text, normalize_bonsai_json}

-- `json.loads`, none on JSONDecodeError, and `ProductAttributes.model_validate`, none on the
-- exceptions that the program catches.
pub record Parser (N : Type 0) : Type 0 where
  pub loads : Text → Option (Value N)
  pub model_validate : Fields N → Option ProductAttributes

-- `a > b`
unfoldable pub greater : ℤ → ℤ → Bool
greater (pos m) (pos n) = ltb n m
greater (pos m) (negsuc n) = true
greater (negsuc m) (pos n) = false
greater (negsuc m) (negsuc n) = ltb m n

abbrev pub in_order : Option ℤ → Option ℤ → Option ℤ × Option ℤ
in_order none maximum = (none, maximum)
in_order (some a) none = (some a, none)
in_order (some a) (some b) = if greater a b then (some b, some a) else (some a, some b)

unfoldable pub normalize_price_ranges : ProductAttributes → ProductAttributes
normalize_price_ranges attrs =
    let (minimum, maximum) = in_order attrs.min_price_jpy attrs.max_price_jpy in
    let (low, high) = in_order attrs.expected_price_min_jpy attrs.expected_price_max_jpy in
    record attrs {
      min_price_jpy = minimum;
      max_price_jpy = maximum;
      expected_price_min_jpy = low;
      expected_price_max_jpy = high;
    }

-- `" ".join(part for part in parts if part)`
abbrev pub evidence_text : List Text → Text
evidence_text parts = join_space (keep (λ part. not (is_empty part)) parts)

abbrev pub given_text : Option Text → Text
given_text none = []
given_text (some s) = s

unfoldable pub japanese_category_evidence : Text → List Text → Bool
japanese_category_evidence category parts =
    not (is_empty (strip category)) && contains (strip category) (evidence_text parts)

-- `text.split()`, with the word that is open.
unfoldable pub words_of : Text → Text → List Text
words_of word [] = if is_empty word then [] else word ∷ []
words_of word (c ∷ s) = elim (is_space c) [
  | true ↦ let rest = words_of [] s in if is_empty word then rest else word ∷ rest
  | false ↦ words_of (word ++ c ∷ []) s
]

abbrev dash_to_space : ℕ → ℕ
dash_to_space c = if c == b'-' then 32 else c

-- A category that is not empty and has no evidence is dropped.
abbrev pub checked_category : (Text → List Text → Bool) → List Text → Option Text → Option Text
checked_category has_evidence parts none = none
checked_category has_evidence parts (some []) = some []
checked_category has_evidence parts (some (c ∷ s)) =
    if has_evidence (c ∷ s) parts then some (c ∷ s) else none

-- A query of the parts, where there are any.
abbrev pub query_or : List Text → List Text → Text → List Text
query_or [] queries query = queries
query_or (p ∷ ps) queries query = query ∷ []

abbrev pub queries_or : List Text → List Text → List Text
queries_or [] fallback = fallback
queries_or (q ∷ qs) fallback = q ∷ qs

abbrev pub name_query : Option Text → List Text
name_query none = []
name_query (some []) = []
name_query (some (c ∷ s)) = (c ∷ s) ∷ []

module _ ⦃U : Platform⦄ where
  unfoldable pub english_words : Text → List Text
  english_words text =
      keep (λ word. ltb 2 (length word)) (words_of [] (map dash_to_space (U.lower text)))

  abbrev all_in : List Text → List Text → Bool
  all_in [] others = false
  all_in (w ∷ ws) others = all (λ word. member word others) (w ∷ ws)

  unfoldable pub english_category_evidence : Text → List Text → Bool
  english_category_evidence category parts =
      all_in (english_words category) (english_words (evidence_text parts))

  unfoldable pub categories_check : ProductAttributes → ProductAttributes
  categories_check attrs = record attrs {
    category_ja =
        checked_category japanese_category_evidence
          (attrs.estimated_product_name_ja ∷ attrs.features_ja) attrs.category_ja;
    category_en =
        checked_category english_category_evidence
          (given_text attrs.estimated_product_name_en ∷ attrs.features_en) attrs.category_en;
  }

  -- `clean_dupe_empty` of this module, which compares in lower case.
  unfoldable pub clean_dupe_lower : List (Option Text) → List Text
  clean_dupe_lower values = first_of_each stripped U.lower [] values

  unfoldable pub check_contains_japanese : Text → Bool
  check_contains_japanese text = any is_japanese text

  unfoldable pub japanese_query_part : Option Text → Option Text
  japanese_query_part none = none
  japanese_query_part (some value) =
      if not (is_empty value) && check_contains_japanese value then some value else none

  abbrev pub japanese_parts : ProductAttributes → List Text
  japanese_parts attrs = clean_dupe_lower (
      japanese_query_part (some attrs.estimated_product_name_ja)
        ∷ japanese_query_part attrs.color_ja
        ∷ map (λ feature. japanese_query_part (some feature)) attrs.features_ja
      ++ japanese_query_part attrs.category_ja ∷ [])

  abbrev pub english_parts : ProductAttributes → List Text
  english_parts attrs = clean_dupe_lower (
      attrs.estimated_product_name_en ∷ attrs.color_en ∷ map some attrs.features_en
      ++ attrs.category_en ∷ [])

  unfoldable pub improve_search_queries : ProductAttributes → ProductAttributes
  improve_search_queries attrs = record attrs {
    search_queries_ja =
        query_or (japanese_parts attrs) attrs.search_queries_ja (join_space (japanese_parts attrs));
    search_queries_en =
        query_or (english_parts attrs) attrs.search_queries_en
          (U.lower (join_space (english_parts attrs)));
  }

  -- What `parse_attributes` does to the validated attributes.
  unfoldable pub finished : Text → ProductAttributes → ProductAttributes
  finished fallback_query validated =
      let ranged = normalize_price_ranges validated in
      improve_search_queries (
        categories_check (record ranged {
          search_queries_ja = queries_or ranged.search_queries_ja (fallback_query ∷ []);
          search_queries_en =
              queries_or ranged.search_queries_en (name_query ranged.estimated_product_name_en);
        }))

-- None on ValueError.
unfoldable pub parse_attributes :
    {N : Type 0} ⦃P : Python N⦄ ⦃U : Platform⦄ (parser : Parser N)
    → Text
    → Text
    → Option ProductAttributes
parse_attributes parser raw_text fallback_query = do
  value ← parser.loads (extract_json_text raw_text)
  fields ← normalize_bonsai_json value
  validated ← parser.model_validate fields
  some (finished fallback_query validated)
