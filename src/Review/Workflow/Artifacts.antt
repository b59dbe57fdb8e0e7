-- ===== src/Review/Workflow/Artifacts.antt =====
-- tools/ai_review/outer_workflow_state.py: the artifacts of a phase, in the coordinator's output.
use amazon_similar_search.Prelude.{
  ℕ, ◌+◌, ◌==◌, leb, Bool, ◌&&◌, ◌||◌, Option, none, some, ◌>>=◌, Text, codes, eq_text, all, length,
  starts_with, if◌then◌else◌, List, [], ◌∷◌, ◌++◌, map,
}
use amazon_similar_search.Json.{Value, Items, Fields, field, end, nil, cons}
use amazon_similar_search.Review.Judge.Texts.{Digest, distinct, eq_texts, sort_texts}
use amazon_similar_search.Review.Workflow.Codec.{
  Codec, require, ◌>>◌, entry, drop_key, is_text, same_value, canonical, strict_json, exact,
  exact_object, is_sha, sha, integer, decode_base64, domain,
}
use amazon_similar_search.Review.Workflow.Prepared.{same_entry}
use amazon_similar_search.Review.Workflow.Completeness.{is_artifact_name, is_complete}

abbrev pub output_domain : List ℕ
output_domain = codes "amazon-explorer-coordinator-phase-output-v1" ++ 0 ∷ []

abbrev pub output_fields : List Text
output_fields =
    codes "schema_version"
    ∷ codes "workflow_id"
    ∷ codes "phase"
    ∷ codes "sequence"
    ∷ codes "request_sha256"
    ∷ codes "artifacts"
    ∷ codes "candidate_snapshot_sha256"
    ∷ codes "review_packet_sha256"
    ∷ codes "output_artifacts_sha256"
    ∷ codes "output_sha256"
    ∷ []

-- An element of `semantic`
pub record Artifact : Type 0 where
  pub name : Text
  pub sha256 : Text

abbrev pub is_ascii : List ℕ → Bool
is_ascii raw = all (λ b. leb b 127) raw

module _ {N : Type 0} where
  abbrev pub text_of : Value N → Option Text
  text_of (Value.str s) = some s
  text_of _ = none

  abbrev pub items_of : Value N → Option (Items N)
  items_of (Value.arr xs) = some xs
  items_of _ = none

  abbrev pub count_items : Items N → ℕ
  count_items Items.nil = 0
  count_items (Items.cons v xs) = count_items xs + 1

-- `list(semantic)` as a JSON value
abbrev pub semantic_items : {N : Type 0} → List Artifact → Items N
semantic_items [] = nil
semantic_items (a ∷ rest) =
    cons
      (Value.obj
        (field (codes "name") (Value.str a.name) (field (codes "sha256") (Value.str a.sha256) end)))
      (semantic_items rest)

-- `next(item["sha256"] for item in semantic if item["name"] == name)`
unfoldable pub find_artifact : Text → List Artifact → Option Text
find_artifact name [] = none
find_artifact name (a ∷ rest) =
    let other = find_artifact name rest in if eq_text a.name name then some a.sha256 else other

abbrev pub is_snapshot_name : Text → Bool
is_snapshot_name name =
    eq_text name (codes "base-snapshot")
    || eq_text name (codes "candidate-snapshot")
    || starts_with (codes "red-snapshot:") name

-- A snapshot is its digest.
abbrev pub snapshot_semantic : List ℕ → Option Text
snapshot_semantic raw = do require (is_ascii raw && is_sha raw); some raw

abbrev pub as_value : {N : Type 0} → Option Text → Option (Value N)
as_value none = none
as_value (some digest) = some (Value.str digest)

module _ (N : Type 0) ⦃C : Codec N⦄ ⦃D : Digest⦄ where
  -- The digest of a review packet, over its text without the newline of `canonical`.
  abbrev pub packet_semantic : List ℕ → Option Text
  packet_semantic raw = do
    packet ← strict_json 6_000_000 raw
    digest ← sha (entry (codes "packet_sha256") packet)
    text ← C.dumps (Value.obj (drop_key (codes "packet_sha256") packet))
    compact ← C.encode text
    require (eq_text digest (D.sha256 compact))
    some digest

  unfoldable pub artifact_semantic : Text → List ℕ → Option Text
  artifact_semantic name raw =
      let packet = packet_semantic raw in
      if is_snapshot_name name
      then snapshot_semantic raw
      else if eq_text name (codes "review-packet")
      then packet
      else some (D.sha256 raw)

module _ {N : Type 0} ⦃C : Codec N⦄ ⦃D : Digest⦄ where
  abbrev pub artifact_of : Value N → Option Artifact
  artifact_of value = do
    artifact ← exact_object (codes "content_base64" ∷ codes "name" ∷ []) value
    name ← text_of (entry (codes "name") artifact)
    require (is_artifact_name name)
    content ← decode_base64 6_000_000 (entry (codes "content_base64") artifact)
    digest ← artifact_semantic N name content
    some (record { name = name; sha256 = digest })

  -- The loop over `output["artifacts"]`
  unfoldable pub semantic_of : Items N → Option (List Artifact)
  semantic_of Items.nil = some []
  semantic_of (Items.cons v xs) = do
    artifact ← artifact_of v
    rest ← semantic_of xs
    some (artifact ∷ rest)

  -- `candidate_anchor`; the StopIteration that a missing name would raise is none too.
  unfoldable pub candidate_anchor : Fields N → List Artifact → Option (Value N)
  candidate_anchor request semantic =
      let found = find_artifact (codes "candidate-snapshot") semantic in
      if is_text (codes "snapshot") (entry (codes "phase") request)
      then as_value found
      else some (entry (codes "candidate_snapshot_sha256") request)

  -- `packet_anchor`
  unfoldable pub packet_anchor : Fields N → List Artifact → Option (Value N)
  packet_anchor request semantic =
      let found = find_artifact (codes "review-packet") semantic in
      if is_text (codes "review-packet") (entry (codes "phase") request)
      then as_value found
      else some (entry (codes "review_packet_sha256") request)

  -- The artifacts are sorted by distinct names, and complete for the phase.
  unfoldable pub artifacts_match : Fields N → List Text → Option (Unit {0})
  artifacts_match request names = do
    require (eq_texts names (sort_texts names) && length names == length (distinct names))
    phase ← text_of (entry (codes "phase") request)
    require (is_complete phase names)

  unfoldable pub validate_coordinator_output : List ℕ → Fields N → Option (Fields N × List Artifact)
  validate_coordinator_output raw request = do
    output ← strict_json 8_000_000 raw
    exact output_fields output
    require (is_text (codes "1.0") (entry (codes "schema_version") output))
    require (same_entry (codes "workflow_id") output request)
    require (same_entry (codes "phase") output request)
    _ ← integer 1 7 (entry (codes "sequence") output)
    require (same_entry (codes "sequence") output request)
    require (same_entry (codes "request_sha256") output request)
    artifacts ← items_of (entry (codes "artifacts") output)
    require (leb 1 (count_items artifacts) && leb (count_items artifacts) 512)
    semantic ← semantic_of artifacts
    artifacts_match request (map (λ a. a.name) semantic)
    listed ← canonical {N = N} (Value.arr (semantic_items semantic))
    require (is_text (D.sha256 listed) (entry (codes "output_artifacts_sha256") output))
    candidate ← candidate_anchor request semantic
    packet ← packet_anchor request semantic
    require (same_value (entry (codes "candidate_snapshot_sha256") output) candidate)
    require (same_value (entry (codes "review_packet_sha256") output) packet)
    given ← sha (entry (codes "output_sha256") output)
    digest ← domain output_domain (Value.obj (drop_key (codes "output_sha256") output))
    require (eq_text given digest)
    some (output, semantic)
