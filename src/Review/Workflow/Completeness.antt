-- ===== src/Review/Workflow/Completeness.antt =====
-- tools/ai_review/outer_workflow_state.py: the names of artifacts, and which of them a phase has.
use amazon_similar_search.Prelude.{
  ℕ, ◌==◌, leb, Bool, true, false, not, ◌&&◌, ◌||◌, Option, none, some, Text, codes, eq_text,
  member, all, length, starts_with, if◌then◌else◌, List, [], ◌∷◌, ◌++◌, map,
}
use amazon_similar_search.Dedupe.{prepared}

abbrev pub is_lower : ℕ → Bool
is_lower c = leb 97 c && leb c 122

abbrev pub is_upper : ℕ → Bool
is_upper c = leb 65 c && leb c 90

abbrev pub is_digit : ℕ → Bool
is_digit c = leb 48 c && leb c 57

-- `[A-Z][A-Z0-9_-]{0,63}`
abbrev pub is_item : Text → Bool
is_item [] = false
is_item (c ∷ s) =
    is_upper c && leb (length s) 63 && all (λ d. is_upper d || is_digit d || d == 95 || d == 45) s

-- `[a-z0-9-]*(?::` and what follows the colon
unfoldable pub is_artifact_tail : Text → Bool
is_artifact_tail [] = true
is_artifact_tail (c ∷ s) =
    let rest = is_artifact_tail s in
    if c == 58 then is_item s else (is_lower c || is_digit c || c == 45) && rest

-- `_ARTIFACT_RE.fullmatch(name) is not None`
unfoldable pub is_artifact_name : Text → Bool
is_artifact_name [] = false
is_artifact_name (c ∷ s) = is_lower c && is_artifact_tail s

-- What follows a prefix.
unfoldable pub after_prefix : Text → Text → Option Text
after_prefix [] s = some s
after_prefix (p ∷ ps) [] = none
after_prefix (p ∷ ps) (c ∷ s) = let rest = after_prefix ps s in if p == c then rest else none

-- `suffix(prefix)`
abbrev pub suffix : Text → List Text → List Text
suffix prefix names = prepared (after_prefix (prefix ++ codes ":")) names

abbrev pub is_subset : List Text → List Text → Bool
is_subset smaller larger = all (λ s. member s larger) smaller

abbrev pub same_set : List Text → List Text → Bool
same_set a b = is_subset a b && is_subset b a

abbrev pub with_prefix : Text → List Text → List Text
with_prefix prefix items = map (λ item. prefix ++ codes ":" ++ item) items

-- The tests of the phases `offline` and `sign`, where `others` are the names without a suffix.
unfoldable pub has_evidence : List Text → List Text → Bool
has_evidence others names =
    let gates = suffix (codes "gate") names in
    let red = suffix (codes "tdd-red") names in
    let green = suffix (codes "tdd-green") names in
    let expected =
      others
      ++ with_prefix (codes "gate") gates
      ++ with_prefix (codes "tdd-red") red
      ++ with_prefix (codes "tdd-green") green in
    not (length gates == 0)
    && not (length red == 0)
    && same_set red green
    && is_subset red gates
    && same_set names expected

abbrev pub signed_inputs : List Text
signed_inputs = codes "task" ∷ codes "policy" ∷ codes "reviewer" ∷ codes "adversary" ∷ []

-- `_validate_completeness`, for a phase of the order
unfoldable pub is_complete : Text → List Text → Bool
is_complete phase names =
    if eq_text phase (codes "snapshot")
    then same_set names (codes "base-snapshot" ∷ codes "candidate-snapshot" ∷ codes "policy" ∷ [])
    else if eq_text phase (codes "red-snapshot")
    then not (length names == 0) && all (starts_with (codes "red-snapshot:")) names
    else if eq_text phase (codes "offline")
    then has_evidence [] names
    else if eq_text phase (codes "review-packet")
    then same_set names (codes "review-packet" ∷ [])
    else if eq_text phase (codes "broker")
    then same_set names (codes "reviewer" ∷ codes "adversary" ∷ [])
    else if eq_text phase (codes "sign")
    then has_evidence signed_inputs names
    else if eq_text phase (codes "attested-judge")
    then same_set names (codes "verdict" ∷ [])
    else true
