-- ===== src/Review/Workflow/Finalized.antt =====
-- tools/ai_review/outer_workflow_state.py: the result of a phase and the request that follows it.
use amazon_similar_search.Prelude.{
  ℕ, zero, suc, ◌+◌, ◌==◌, Bool, Option, none, some, ◌>>=◌, Text, codes, eq_text, ltb, List, [],
  ◌∷◌, ◌++◌,
}
use amazon_similar_search.Json.{Value, Fields, field, end}
use amazon_similar_search.Review.Judge.Texts.{Digest}
use amazon_similar_search.Review.Workflow.Codec.{
  Codec, require, ◌>>◌, entry, drop_key, is_text, is_null, same_value, canonical, strict_json,
  exact, exact_object, sha, integer, decode_base64, domain,
}
use amazon_similar_search.Review.Workflow.Request.{validate_phase_request_bytes, phase_order}
use amazon_similar_search.Review.Workflow.Prepared.{same_entry}
use amazon_similar_search.Review.Workflow.Artifacts.{
  Artifact, semantic_items, validate_coordinator_output,
}

abbrev pub result_domain : List ℕ
result_domain = codes "amazon-explorer-phase-result-v1" ++ 0 ∷ []

abbrev pub finalized_domain : List ℕ
finalized_domain = codes "amazon-explorer-outer-finalized-transition-v1" ++ 0 ∷ []

abbrev pub result_fields : List Text
result_fields =
    codes "schema_version"
    ∷ codes "request"
    ∷ codes "output_artifacts_sha256"
    ∷ codes "artifacts"
    ∷ codes "candidate_snapshot_sha256"
    ∷ codes "review_packet_sha256"
    ∷ codes "external_execution_sha256"
    ∷ codes "coordinator_output_sha256"
    ∷ codes "phase_sha256"
    ∷ []

abbrev pub finalized_fields : List Text
finalized_fields =
    codes "coordinator_output_base64"
    ∷ codes "finalized_sha256"
    ∷ codes "next_request_base64"
    ∷ codes "phase_result"
    ∷ codes "schema_version"
    ∷ []

pub record FinalizedTransition (N : Type 0) : Type 0 where
  pub result : Fields N
  pub coordinator_output : List ℕ
  pub next_request : Option (List ℕ)
  pub finalized_sha256 : Text

-- `PHASE_ORDER[n]`
abbrev pub phase_at : ℕ → List Text → Option Text
phase_at n [] = none
phase_at zero (p ∷ ps) = some p
phase_at (suc n) (p ∷ ps) = phase_at n ps

module _ {N : Type 0} where
  -- `body` of a finalized transition
  abbrev pub finalized_body : Value N → Value N → Value N → Fields N
  finalized_body coordinator_output next_request result =
      field (codes "coordinator_output_base64") coordinator_output (
        field (codes "next_request_base64") next_request (
          field (codes "phase_result") result
            (field (codes "schema_version") (Value.str (codes "1.0")) end)))

  -- The value is the digest, or null where there is none.
  abbrev pub is_digest_of : Option Text → Value N → Bool
  is_digest_of none v = is_null v
  is_digest_of (some digest) v = is_text digest v

-- `expected_external`
module _ ⦃D : Digest⦄ where
  abbrev pub external_digest : Option (List ℕ) → Option Text
  external_digest none = none
  external_digest (some raw) = some (D.sha256 raw)

module _ {N : Type 0} ⦃C : Codec N⦄ ⦃D : Digest⦄ where
  unfoldable pub validate_phase_result :
      Value N → Fields N → Fields N → List Artifact → List ℕ → Option (List ℕ) → Option (Fields N)
  validate_phase_result value request output semantic output_raw external_raw = do
    result ← exact_object result_fields value
    require (is_text (codes "1.0") (entry (codes "schema_version") result))
    require (same_value (entry (codes "request") result) (Value.obj request))
    require (same_value (entry (codes "artifacts") result) (Value.arr (semantic_items semantic)))
    require (same_entry (codes "output_artifacts_sha256") result output)
    require (same_entry (codes "candidate_snapshot_sha256") result output)
    require (same_entry (codes "review_packet_sha256") result output)
    require (
        is_digest_of (external_digest external_raw)
          (entry (codes "external_execution_sha256") result))
    require (is_text (D.sha256 output_raw) (entry (codes "coordinator_output_sha256") result))
    given ← sha (entry (codes "phase_sha256") result)
    digest ← domain result_domain (Value.obj (drop_key (codes "phase_sha256") result))
    require (eq_text given digest)
    some result

  -- `next_encoded` of a finalized transition
  abbrev pub encode_next : Option (List ℕ) → Value N
  encode_next none = Value.null
  encode_next (some next_request) = Value.str (C.b64encode next_request)

  unfoldable pub encode_finalized_transition : Fields N → List ℕ → Option (List ℕ) → Option (List ℕ)
  encode_finalized_transition result coordinator_output next_request = do
    digest ← domain finalized_domain (
        Value.obj (
          finalized_body (Value.str (C.b64encode coordinator_output)) (encode_next next_request)
            (Value.obj result)))
    canonical (
        Value.obj (
          field (codes "coordinator_output_base64") (Value.str (C.b64encode coordinator_output)) (
            field (codes "next_request_base64") (encode_next next_request) (
              field (codes "phase_result") (Value.obj result) (
                field (codes "schema_version") (Value.str (codes "1.0"))
                  (field (codes "finalized_sha256") (Value.str digest) end))))))

  -- `next_raw`
  unfoldable pub decode_next : Value N → Option (Option (List ℕ))
  decode_next Value.null = some none
  decode_next v = do raw ← decode_base64 128_000 v; some (some raw)

  -- The next request carries the anchors of the request, of the output and of the result.
  unfoldable pub same_anchors : Fields N → Fields N → Fields N → Fields N → Option (Unit {0})
  same_anchors next_request request output result = do
    require (same_entry (codes "workflow_id") next_request request)
    require (same_entry (codes "task_sha256") next_request request)
    require (same_entry (codes "runtime_manifest_sha256") next_request request)
    require (same_entry (codes "coordinator_key_id") next_request request)
    require (same_entry (codes "coordinator_public_key_sha256") next_request request)
    require (same_entry (codes "candidate_sha256") next_request request)
    require (same_entry (codes "candidate_snapshot_sha256") next_request output)
    require (same_entry (codes "review_packet_sha256") next_request output)
    require (
        same_value (entry (codes "previous_phase_sha256") next_request)
          (entry (codes "phase_sha256") result))
    require (
        same_value (entry (codes "input_artifacts_sha256") next_request)
          (entry (codes "output_artifacts_sha256") result))

  -- The last phase has no next request, and each other phase has the one of the phase that follows.
  unfoldable pub validate_next :
      Option (List ℕ) → ℕ → Fields N → Fields N → Fields N → Option (Unit {0})
  validate_next none sequence request output result = require (sequence == 7)
  validate_next (some raw) sequence request output result = do
    require (ltb sequence 7)
    next_request ← validate_phase_request_bytes raw
    next_sequence ← integer 1 7 (entry (codes "sequence") next_request)
    require (next_sequence == sequence + 1)
    phase ← phase_at sequence phase_order
    require (is_text phase (entry (codes "phase") next_request))
    same_anchors next_request request output result

  unfoldable pub parse_finalized_transition :
      List ℕ → Fields N → Option (List ℕ) → Option (FinalizedTransition N)
  parse_finalized_transition raw request external_raw = do
    value ← strict_json 10_000_000 raw
    exact finalized_fields value
    require (is_text (codes "1.0") (entry (codes "schema_version") value))
    output_raw ← decode_base64 8_000_000 (entry (codes "coordinator_output_base64") value)
    measured ← validate_coordinator_output output_raw request
    result ←
        validate_phase_result (entry (codes "phase_result") value) request measured.0 measured.1
          output_raw external_raw
    next_raw ← decode_next (entry (codes "next_request_base64") value)
    sequence ← integer 1 7 (entry (codes "sequence") request)
    validate_next next_raw sequence request measured.0 result
    given ← sha (entry (codes "finalized_sha256") value)
    digest ← domain finalized_domain (
        Value.obj (
          finalized_body (entry (codes "coordinator_output_base64") value)
            (entry (codes "next_request_base64") value) (entry (codes "phase_result") value)))
    require (eq_text given digest)
    some (record {
      result = result;
      coordinator_output = output_raw;
      next_request = next_raw;
      finalized_sha256 = given;
    })
