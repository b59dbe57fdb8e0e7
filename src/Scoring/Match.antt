-- ===== src/Scoring/Match.antt =====
-- The condition score of src/services/product_scoring.py: which weighted terms a text has. `none` is
-- the ZeroDivisionError of a total weight of 0.
pub mod Partition
pub mod Bounds
use amazon_similar_search.Prelude.{
  ℕ, ◌+◌, pos, Bool, true, false, not, ◌&&◌, Option, none, some, Text, member, keep, length, List,
  [], ◌∷◌, ◌==◌, if◌then◌else◌,
}
use amazon_similar_search.Runtime.{Python, Platform, casefold}
use amazon_similar_search.Schemas.{ProductAttributes}
use amazon_similar_search.Matching.{Sudachi, term_matches_text}
use amazon_similar_search.Scoring.Terms.{
  Language, en, ja, ScoringSettings, weighted_condition_terms,
}

-- A score, the terms that the text has and those that it lacks.
pub record MatchScore (N : Type 0) : Type 0 where
  pub score : N
  pub matched_terms : List Text
  pub missing_terms : List Text

-- The variables of the loop that are read after it.
pub record Matches : Type 0 where
  pub matched_weight : ℕ
  pub matched_terms : List Text
  pub missing_terms : List Text

abbrev pub total_weight : List (Text × ℕ) → ℕ
total_weight [] = 0
total_weight ((term, weight) ∷ rest) = weight + total_weight rest

-- `if normalized not in seen: append`, in front of what the rest of the loop appends.
abbrev pub prepend_new : Bool → Text → List Text → List Text
prepend_new seen term terms = if seen then terms else term ∷ terms

module _ ⦃U : Platform⦄ ⦃S : Sudachi⦄ where
  -- The loop, with the weight so far and the two sets.
  unfoldable pub match_loop : Text → List (Text × ℕ) → ℕ → List Text → List Text → Matches
  match_loop text [] weight seen_matched seen_missing = record {
    matched_weight = weight;
    matched_terms = [];
    missing_terms = [];
  }
  match_loop text ((term, w) ∷ rest) weight seen_matched seen_missing =
      elim (term_matches_text term text) [
        | true ↦
            let after =
              match_loop text rest (weight + w) (casefold term ∷ seen_matched) seen_missing in
            record after {
              matched_terms =
                  prepend_new (member (casefold term) seen_matched) term after.matched_terms;
            }
        | false ↦
            let after = match_loop text rest weight seen_matched (casefold term ∷ seen_missing) in
            record after {
              missing_terms =
                  prepend_new (member (casefold term) seen_missing) term after.missing_terms;
            }
      ]

abbrev pub has_terms : List (Text × ℕ) → Bool
has_terms [] = false
has_terms (t ∷ ts) = true

module _ {N : Type 0} ⦃P : Python N⦄ ⦃U : Platform⦄ ⦃S : Sudachi⦄ where
  -- The division at the end.
  unfoldable pub match_score : ℕ → Matches → Option (MatchScore N)
  match_score total found =
      if total == 0
      then none
      else some (record {
        score = P.ratio found.matched_weight total;
        matched_terms = found.matched_terms;
        missing_terms = found.missing_terms;
      })

  unfoldable pub score_terms : List (Text × ℕ) → Text → Option (MatchScore N)
  score_terms [] text =
      some (record { score = P.of_int (pos 0); matched_terms = []; missing_terms = [] })
  score_terms (t ∷ ts) text = match_score (total_weight (t ∷ ts)) (match_loop text (t ∷ ts) 0 [] [])

  unfoldable pub calculate_weighted_condition_match_score :
      ScoringSettings N → ProductAttributes → Text → Language → Option (MatchScore N)
  calculate_weighted_condition_match_score settings attrs product_text language =
      score_terms (weighted_condition_terms settings attrs language) product_text

  -- `calculate_term_match_score`
  unfoldable pub calculate_term_match_score : List Text → Text → MatchScore N
  calculate_term_match_score [] text = record {
    score = P.of_int (pos 0);
    matched_terms = [];
    missing_terms = [];
  }
  calculate_term_match_score (t ∷ ts) text =
      let matched = keep (λ term. term_matches_text term text) (t ∷ ts) in
      record {
        score = P.ratio (length matched) (length (t ∷ ts));
        matched_terms = matched;
        missing_terms = keep (λ term. not (member term matched)) (t ∷ ts);
      }

  unfoldable pub select_attribute_language :
      ScoringSettings N → ProductAttributes → N → N → Language
  select_attribute_language settings attrs english_score japanese_score =
      if P.lt japanese_score english_score
      then en
      else if P.lt english_score japanese_score
      then ja
      else if has_terms (weighted_condition_terms settings attrs ja)
          && not (has_terms (weighted_condition_terms settings attrs en))
      then ja
      else en
