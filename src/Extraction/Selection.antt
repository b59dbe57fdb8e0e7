-- ===== src/Extraction/Selection.antt =====
-- src/services/outscraper_search_select.py: the query that Outscraper is asked.
use amazon_similar_search.Prelude.{
  ◌||◌, Option, none, some, Text, codes, starts_with, if◌then◌else◌, List, [], ◌∷◌,
}
use amazon_similar_search.Schemas.{ProductAttributes}

-- None on ValueError.
unfoldable pub validate_search_query : Text → Option Text
validate_search_query [] = none
validate_search_query (c ∷ s) =
    if starts_with (codes "http://") (c ∷ s) || starts_with (codes "https://") (c ∷ s)
    then none
    else some (c ∷ s)

abbrev english_or_name : ProductAttributes → List Text → Option Text
english_or_name attrs [] = validate_search_query attrs.estimated_product_name_ja
english_or_name attrs (query ∷ queries) = validate_search_query query

abbrev japanese_or_other : ProductAttributes → List Text → Option Text
japanese_or_other attrs [] = english_or_name attrs attrs.search_queries_en
japanese_or_other attrs (query ∷ queries) = validate_search_query query

unfoldable pub select_outscraper_query : ProductAttributes → Option Text
select_outscraper_query attrs = japanese_or_other attrs attrs.search_queries_ja
