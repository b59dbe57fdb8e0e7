-- ===== src/Matching/Examples.antt =====
-- Terms and texts, and the theorems about them.
use amazon_similar_search.Prelude.{
  ◌≡◌, ◌≢◌, refl, true, Text, Option, some, none, codes, strip, lstrip, is_space, List, [], ◌∷◌,
  ◌++◌, map,
}
use amazon_similar_search.Runtime.{casefold}
use amazon_similar_search.Runtime.Fixed.{ascii}
use amazon_similar_search.Dedupe.{IsFresh, nub_by}
use amazon_similar_search.Matching.{Sudachi, stripped_values, clean_dupe_empty, term_matches_text}
use amazon_similar_search.Matching.Laws.{clean_dupe_empty_unique, term_matches_text_verbatim}

instance abbrev silent : Sudachi
silent = record { tokenize = λ text. [] }

abbrev values : List (Option Text)
values = some (codes " Wireless ") ∷ none ∷ some (codes "wireless") ∷ some [] ∷ []

clean_dupe_empty_unique_example :
    (clean_dupe_empty values ≡ nub_by casefold (stripped_values values))
    × IsFresh [] (map casefold (clean_dupe_empty values))
clean_dupe_empty_unique_example = clean_dupe_empty_unique values

not_blank : strip (codes "wireless") ≢ []
unfolding strip lstrip is_space
not_blank h = cc

term_matches_text_verbatim_example :
    term_matches_text (codes "Wireless") (codes "a " ++ (codes "WIRELESS" ++ codes " mouse")) ≡ true
term_matches_text_verbatim_example =
    term_matches_text_verbatim (codes "a ") (codes " mouse") (codes "Wireless") (codes "WIRELESS")
      refl not_blank
