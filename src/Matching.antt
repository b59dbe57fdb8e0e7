-- ===== src/Matching.antt =====
-- src/services/text_processing.py: words of a text, terms that occur in it, and cleaned lists. The
-- morphological analyser SudachiPy is a parameter.
pub mod Laws
pub mod Examples
use amazon_similar_search.Prelude.{
  ℕ, Bool, true, false, not, ◌&&◌, ◌||◌, Option, none, some, Text, codes, member, strip, is_empty,
  contains, eq_text, leb, keep, any, all, if◌then◌else◌, List, [], ◌∷◌, ◌++◌, map,
}
use amazon_similar_search.Runtime.{Platform, casefold}
use amazon_similar_search.Dedupe.{first_of_each, prepared}

-- What the program reads of a SudachiPy morpheme.
pub record Morpheme : Type 0 where
  pub normalized_form : Text
  pub surface : Text
  pub part_of_speech : Text  -- the first entry

-- `tokenize(text, SUDACHI_MODE)`
pub record Sudachi : Type 0 where
  pub tokenize : Text → List Morpheme

abbrev pub content_parts_of_speech : List Text
content_parts_of_speech =
    (0x540d ∷ 0x8a5e ∷ [])
    ∷ (0x52d5 ∷ 0x8a5e ∷ [])
    ∷ (0x5f62 ∷ 0x5bb9 ∷ 0x8a5e ∷ [])
    ∷ (0x5f62 ∷ 0x72b6 ∷ 0x8a5e ∷ [])
    ∷ []

-- JAPANESE_CHARACTER_PATTERN
abbrev pub is_japanese : ℕ → Bool
is_japanese c = (leb 0x3040 c && leb c 0x30ff) || (leb 0x4e00 c && leb c 0x9fff)

-- One character of ENGLISH_TOKEN_PATTERN.
abbrev pub is_english : ℕ → Bool
is_english c = (leb b'a' c && leb c b'z') || (leb b'0' c && leb c b'9')

-- `ENGLISH_TOKEN_PATTERN.findall(s)`: the maximal runs, with the run that is open.
unfoldable pub english_runs : Text → Text → List Text
english_runs run [] = if is_empty run then [] else run ∷ []
english_runs run (c ∷ s) = elim (is_english c) [
  | true ↦ english_runs (run ++ c ∷ []) s
  | false ↦ let rest = english_runs [] s in if is_empty run then rest else run ∷ rest
]

-- `" ".join(values)`
unfoldable pub join_space : List Text → Text
join_space [] = []
join_space (s ∷ []) = s
join_space (s ∷ t ∷ rest) = s ++ 32 ∷ join_space (t ∷ rest)

-- An optional text that is not empty after `strip`.
unfoldable pub stripped : Option Text → Option Text
stripped none = none
stripped (some value) = if is_empty (strip value) then none else some (strip value)

-- `[value.strip() for value in values if value and value.strip()]`
abbrev pub stripped_values : List (Option Text) → List Text
stripped_values = prepared stripped

-- Whether there are words and all are among the others.
abbrev pub covered : List Text → List Text → Bool
covered [] text_words = false
covered (w ∷ ws) text_words = all (λ word. member word text_words) (w ∷ ws)

module _ ⦃U : Platform⦄ where
  -- `normalize_text`
  abbrev pub normalize_text : Text → Text
  normalize_text = casefold

  unfoldable pub clean_dupe_empty : List (Option Text) → List Text
  clean_dupe_empty values = first_of_each stripped casefold [] values

  unfoldable pub normalized_morpheme_text : Morpheme → Text
  normalized_morpheme_text morpheme = strip (
      normalize_text (
        if eq_text morpheme.normalized_form (codes "*")
        then morpheme.surface
        else morpheme.normalized_form))

  unfoldable pub is_content_japanese_token : Text → Morpheme → Bool
  is_content_japanese_token token morpheme =
      not (is_empty token)
      && member morpheme.part_of_speech content_parts_of_speech
      && any is_japanese token

  abbrev pub japanese_tokens : List Morpheme → List Text
  japanese_tokens [] = []
  japanese_tokens (morpheme ∷ rest) =
      let token = normalized_morpheme_text morpheme in
      let others = japanese_tokens rest in
      if is_content_japanese_token token morpheme then token ∷ others else others

module _ ⦃U : Platform⦄ ⦃S : Sudachi⦄ where
  unfoldable pub split_japanese_words : Text → List Text
  split_japanese_words text = japanese_tokens (S.tokenize text)

  unfoldable pub split_words : Bool → Text → List Text
  split_words dedupe text =
      let normalized = normalize_text text in
      let tokens = english_runs [] normalized ++ split_japanese_words normalized in
      if dedupe
      then clean_dupe_empty (map some tokens)
      else keep (λ token. not (is_empty token)) tokens

  unfoldable pub term_matches_text : Text → Text → Bool
  term_matches_text term text =
      let normalized_term = strip (normalize_text term) in
      let normalized_text = normalize_text text in
      let term_words = split_words true normalized_term in
      if is_empty normalized_term
      then false
      else if contains normalized_term normalized_text
      then true
      else covered term_words (split_words true normalized_text)

  unfoldable pub build_tfidf_text : Bool → List (Option Text) → Text
  build_tfidf_text dedupe values =
      let cleaned_values = if dedupe then clean_dupe_empty values else stripped_values values in
      join_space (split_words dedupe (join_space cleaned_values))
