-- ===== src/Scoring/Match/Partition.antt =====
-- The match loop against its description: the weighted terms that the text has, and the others.
use native.Mathlib.Nat.{zero-add}
use amazon_similar_search.Prelude.{
  ℕ, ◌+◌, ◌≤◌, pos, ◌≡◌, refl, inl, inr, Bool, true, false, not, Bool-cases, Option, none, some,
  Text, member, keep, List, [], ◌∷◌, map, ◌==◌, if◌then◌else◌, arith,
}
use amazon_similar_search.Runtime.{Python, Platform, casefold}
use amazon_similar_search.Dedupe.{IsFresh, IsFresh-tail, first_of_each-IsFresh}
use amazon_similar_search.Schemas.{ProductAttributes}
use amazon_similar_search.Matching.{Sudachi, term_matches_text}
use amazon_similar_search.Scoring.Terms.{
  Language, ScoringSettings, term_key, group_terms, weighted_groups, weighted_condition_terms,
}
use amazon_similar_search.Scoring.Match.{
  MatchScore, Matches, total_weight, match_loop, match_score, score_terms,
  calculate_weighted_condition_match_score,
}

abbrev pub terms_of : List (Text × ℕ) → List Text
terms_of [] = []
terms_of ((term, weight) ∷ rest) = term ∷ terms_of rest

module _ ⦃U : Platform⦄ ⦃S : Sudachi⦄ where
  abbrev pub is_in : Text → Text × ℕ → Bool
  is_in text (term, weight) = term_matches_text term text

  abbrev pub is_missing_from : Text → Text × ℕ → Bool
  is_missing_from text (term, weight) = not (term_matches_text term text)

  match_loop_yes :
      (text term : Text) (w : ℕ) (rest : List (Text × ℕ)) (weight : ℕ)
      (seen_matched seen_missing : List Text)
      → term_matches_text term text ≡ true
      → member (casefold term) seen_matched ≡ false
      → match_loop text ((term, w) ∷ rest) weight seen_matched seen_missing ≡ (
          let after =
            match_loop text rest (weight + w) (casefold term ∷ seen_matched) seen_missing in
          record after { matched_terms = term ∷ after.matched_terms })
  unfolding match_loop
  match_loop_yes text term w rest weight seen_matched seen_missing e m = rw (match_loop, e, m)

  match_loop_no :
      (text term : Text) (w : ℕ) (rest : List (Text × ℕ)) (weight : ℕ)
      (seen_matched seen_missing : List Text)
      → term_matches_text term text ≡ false
      → member (casefold term) seen_missing ≡ false
      → match_loop text ((term, w) ∷ rest) weight seen_matched seen_missing ≡ (
          let after = match_loop text rest weight seen_matched (casefold term ∷ seen_missing) in
          record after { missing_terms = term ∷ after.missing_terms })
  unfolding match_loop
  match_loop_no text term w rest weight seen_matched seen_missing e m = rw (match_loop, e, m)

  -- The text's share of the terms.
  abbrev pub split_terms : Text → List (Text × ℕ) → Matches
  split_terms text ws = record {
    matched_weight = total_weight (keep (is_in text) ws);
    matched_terms = terms_of (keep (is_in text) ws);
    missing_terms = terms_of (keep (is_missing_from text) ws);
  }

  match_loop-eq-split :
      (text : Text) (ws : List (Text × ℕ)) (weight : ℕ) (seen_matched seen_missing : List Text)
      → IsFresh seen_matched (map term_key ws)
      → IsFresh seen_missing (map term_key ws)
      → match_loop text ws weight seen_matched seen_missing ≡ record (split_terms text ws) {
        matched_weight = weight + total_weight (keep (is_in text) ws);
      }
  match_loop-eq-split text [] weight sm sx hm hx = unfold match_loop in ground arith
  match_loop-eq-split text ((term, w) ∷ rest) weight sm sx hm hx =
      elim (Bool-cases (term_matches_text term text)) [
        | inl e ↦ rw (match_loop_yes text term w rest weight sm sx e hm.0) (
            ground (
              arith,
              match_loop-eq-split text rest (weight + w) (casefold term ∷ sm) sx hm.1
                  (IsFresh-tail (casefold term) sx (map term_key rest) hx.1),
            ))
        | inr e ↦ rw (match_loop_no text term w rest weight sm sx e hx.0) (
            ground (
              arith,
              match_loop-eq-split text rest weight sm (casefold term ∷ sx)
                  (IsFresh-tail (casefold term) sm (map term_key rest) hm.1) hx.1,
            ))
      ]

  pub total_weight-keep :
      (p : Text × ℕ → Bool) (ws : List (Text × ℕ)) → total_weight (keep p ws) ≤ total_weight ws
  total_weight-keep p [] = omega arith
  total_weight-keep p ((term, w) ∷ rest) = ground (arith, total_weight-keep p rest)

module _ {N : Type 0} ⦃P : Python N⦄ ⦃U : Platform⦄ ⦃S : Sudachi⦄ where
  -- The score of a list of weighted terms by their share of the weight.
  abbrev pub share : List (Text × ℕ) → Text → Option (MatchScore N)
  share [] text = some (record { score = P.of_int (pos 0); matched_terms = []; missing_terms = [] })
  share (t ∷ ts) text =
      if total_weight (t ∷ ts) == 0
      then none
      else some (record {
        score = P.ratio (total_weight (keep (is_in text) (t ∷ ts))) (total_weight (t ∷ ts));
        matched_terms = terms_of (keep (is_in text) (t ∷ ts));
        missing_terms = terms_of (keep (is_missing_from text) (t ∷ ts));
      })

  weighted_condition_terms-IsFresh :
      (settings : ScoringSettings N) (attrs : ProductAttributes) (language : Language)
      → IsFresh [] (map term_key (weighted_condition_terms settings attrs language))
  unfolding weighted_condition_terms
  weighted_condition_terms-IsFresh settings attrs language =
      first_of_each-IsFresh some term_key [] (group_terms (weighted_groups settings attrs language))

  score_terms-eq-share :
      (ws : List (Text × ℕ)) (text : Text)
      → IsFresh [] (map term_key ws)
      → score_terms ws text ≡ share ws text
  unfolding score_terms match_score
  score_terms-eq-share [] text h = refl
  score_terms-eq-share (t ∷ ts) text h =
      rw (match_loop-eq-split text (t ∷ ts) 0 [] [] h h) (rw zero-add)

  -- The score is the weight of the terms that the text has over the weight of all; the terms that it
  -- has and those that it lacks are listed in order, each term in one of the two lists; there is a
  -- ZeroDivisionError exactly when there are terms and all of them weigh nothing.
  pub match_score-eq-share :
      (settings : ScoringSettings N) (attrs : ProductAttributes) (text : Text) (language : Language)
      → calculate_weighted_condition_match_score settings attrs text language
        ≡ share (weighted_condition_terms settings attrs language) text
  unfolding calculate_weighted_condition_match_score
  match_score-eq-share settings attrs text language =
      score_terms-eq-share (weighted_condition_terms settings attrs language) text
        (weighted_condition_terms-IsFresh settings attrs language)
