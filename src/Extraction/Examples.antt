-- ===== src/Extraction/Examples.antt =====
-- An answer read, and the theorems about it.
use amazon_similar_search.Prelude.{
  ℕ, ◌≡◌, ◌≢◌, refl, pos, true, Option, some, none, Text, codes, strip, lstrip, is_space, contains,
  starts_with, member, eq_text, All, [], ◌∷◌,
}
use amazon_similar_search.Json.{Value, Fields, field, end, get}
use amazon_similar_search.Runtime.Fixed.{ascii, fixed_point, fixed_point-HasIntegers}
use amazon_similar_search.Dedupe.{first_of_each}
use amazon_similar_search.Schemas.{ProductAttributes}
use amazon_similar_search.Matching.{join_space, stripped}
use amazon_similar_search.Extraction.Response.{
  list_fields, price_fields, normalize_bonsai_json, split_lines, without_fence, from_brace,
  to_brace, braced, extract_json_text,
}
use amazon_similar_search.Extraction.Queries.{
  Parser, greater, normalize_price_ranges, japanese_category_evidence, words_of, english_words,
  english_category_evidence, categories_check, clean_dupe_lower, check_contains_japanese,
  japanese_query_part, improve_search_queries, finished, parse_attributes,
}
use amazon_similar_search.Extraction.Selection.{validate_search_query, select_outscraper_query}
use amazon_similar_search.Extraction.Attributes.{IsConsistent, parse_attributes-IsConsistent}
use amazon_similar_search.Extraction.Asked.{
  asked_parts, first_or, select_outscraper_query_fallback, select_outscraper_query_parts,
}
use amazon_similar_search.Extraction.Fields.{is_listed, is_priced}
use amazon_similar_search.Extraction.Shape.{normalize_bonsai_json_shape}

embedded : extract_json_text (codes "is {}, so") ≡ codes "{}"
unfolding extract_json_text without_fence split_lines braced from_brace to_brace strip lstrip
    is_space starts_with eq_text
embedded = refl

-- An answer whose code fence stands on one line is lost.
one_line : extract_json_text (codes "```{}```") ≡ []
unfolding extract_json_text without_fence split_lines braced from_brace to_brace strip lstrip
    is_space starts_with eq_text
one_line = refl

abbrev keyboard_ja : Text
keyboard_ja = 0x30ad ∷ 0x30fc ∷ []

abbrev answer : Fields ℕ
answer =
    field (codes "features_ja") (Value.str keyboard_ja)
      (field (codes "min_price_jpy") (Value.int (pos 4_000)) end)

abbrev shaped : Option (Fields ℕ)
shaped = normalize_bonsai_json (Value.obj answer)

abbrev or_end : Option (Fields ℕ) → Fields ℕ
or_end none = end
or_end (some fields) = fields

shaped-some : shaped ≡ some (or_end shaped)
unfolding normalize_bonsai_json
shaped-some = refl

normalize_bonsai_json_shape_example :
    All (λ name. is_listed (get name (or_end shaped)) ≡ true) list_fields
    × All (λ name. is_priced (get name (or_end shaped)) ≡ true) price_fields
normalize_bonsai_json_shape_example =
    normalize_bonsai_json_shape fixed_point-HasIntegers (Value.obj answer) (or_end shaped)
      shaped-some

-- The attributes that the answer is validated as: the ends of the range are the wrong way round, and
-- the category has no evidence.
abbrev validated : ProductAttributes
validated = record {
  estimated_product_name_ja = keyboard_ja;
  estimated_product_name_en = none;
  category_ja = some (codes "mouse");
  category_en = none;
  color_ja = none;
  color_en = none;
  features_ja = [];
  features_en = [];
  negative_conditions_ja = [];
  negative_conditions_en = [];
  search_queries_ja = [];
  search_queries_en = [];
  required_terms_ja = [];
  required_terms_en = [];
  preferred_terms_ja = [];
  preferred_terms_en = [];
  related_terms_ja = [];
  related_terms_en = [];
  price_preference = none;
  min_price_jpy = some (pos 4_000);
  max_price_jpy = some (pos 2_000);
  target_price_jpy = none;
  expected_price_min_jpy = none;
  expected_price_max_jpy = none;
}

abbrev parser : Parser ℕ
parser = record { loads = λ s. some (Value.obj answer); model_validate = λ fields. some validated }

abbrev read : ProductAttributes
read = record validated {
  category_ja = none;
  min_price_jpy = some (pos 2_000);
  max_price_jpy = some (pos 4_000);
  search_queries_ja = keyboard_ja ∷ [];
}

reads : parse_attributes parser [] (codes "wish") ≡ some read
unfolding parse_attributes finished normalize_price_ranges greater categories_check
    japanese_category_evidence english_category_evidence english_words words_of
    improve_search_queries clean_dupe_lower check_contains_japanese japanese_query_part join_space
    stripped first_of_each strip lstrip is_space contains starts_with member eq_text
    normalize_bonsai_json
reads = refl

parse_attributes-IsConsistent_example : IsConsistent read
parse_attributes-IsConsistent_example =
    parse_attributes-IsConsistent parser [] (codes "wish") read reads

-- An answer without Japanese: the user's text is asked for.
abbrev english : ProductAttributes
english = record validated { estimated_product_name_ja = codes "keyboard" }

abbrev english_parser : Parser ℕ
english_parser = record {
  loads = λ s. some (Value.obj answer);
  model_validate = λ fields. some english;
}

select_outscraper_query_fallback_example :
    (attrs : ProductAttributes) × (parse_attributes english_parser [] (codes "wish") ≡ some attrs)
    × (select_outscraper_query attrs
        ≡ validate_search_query (first_or (codes "wish") english.search_queries_ja))
select_outscraper_query_fallback_example =
    select_outscraper_query_fallback english_parser [] (codes "wish") (Value.obj answer)
      (or_end shaped) english refl shaped-some refl (refl, (refl, tt))

has_parts : asked_parts read ≢ []
unfolding stripped strip lstrip is_space eq_text
has_parts h = cc

select_outscraper_query_parts_example :
    select_outscraper_query read ≡ validate_search_query (join_space (asked_parts read))
select_outscraper_query_parts_example =
    select_outscraper_query_parts parser [] (codes "wish") read reads has_parts
