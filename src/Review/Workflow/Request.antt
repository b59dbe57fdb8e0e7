-- ===== src/Review/Workflow/Request.antt =====
-- tools/ai_review/outer_workflow_state.py: the request of a phase.
use amazon_similar_search.Prelude.{
  ℕ, ◌+◌, ◌==◌, leb, Bool, true, false, not, Option, none, some, ◌>>=◌, Text, codes, all,
  if◌then◌else◌, List, [], ◌∷◌, ◌++◌,
}
use amazon_similar_search.Json.{Value, Fields}
use amazon_similar_search.Review.Judge.Texts.{Digest}
use amazon_similar_search.Review.Workflow.Codec.{
  Codec, require, ◌>>◌, entry, drop_key, is_null, is_text, strict_json, exact, sha, integer, domain,
}

abbrev pub phase_order : List Text
phase_order =
    codes "snapshot"
    ∷ codes "red-snapshot"
    ∷ codes "offline"
    ∷ codes "review-packet"
    ∷ codes "broker"
    ∷ codes "sign"
    ∷ codes "attested-judge"
    ∷ []

abbrev pub request_domain : List ℕ
request_domain = codes "amazon-explorer-phase-request-v1" ++ 0 ∷ []

abbrev pub request_fields : List Text
request_fields =
    codes "schema_version"
    ∷ codes "workflow_id"
    ∷ codes "phase"
    ∷ codes "sequence"
    ∷ codes "previous_phase_sha256"
    ∷ codes "task_sha256"
    ∷ codes "runtime_manifest_sha256"
    ∷ codes "coordinator_key_id"
    ∷ codes "coordinator_public_key_sha256"
    ∷ codes "candidate_sha256"
    ∷ codes "candidate_snapshot_sha256"
    ∷ codes "review_packet_sha256"
    ∷ codes "input_artifacts_sha256"
    ∷ codes "request_sha256"
    ∷ []

-- `required`
abbrev pub digest_fields : List Text
digest_fields =
    codes "workflow_id"
    ∷ codes "task_sha256"
    ∷ codes "runtime_manifest_sha256"
    ∷ codes "coordinator_key_id"
    ∷ codes "coordinator_public_key_sha256"
    ∷ codes "candidate_sha256"
    ∷ codes "input_artifacts_sha256"
    ∷ codes "request_sha256"
    ∷ []

abbrev pub optional_fields : List Text
optional_fields =
    codes "previous_phase_sha256"
    ∷ codes "candidate_snapshot_sha256"
    ∷ codes "review_packet_sha256"
    ∷ []

-- `PHASE_ORDER.index(phase)`, none for what is not in it.
unfoldable pub phase_index : {N : Type 0} → Value N → List Text → Option ℕ
unfolding is_text
phase_index phase [] = none
phase_index phase (name ∷ rest) =
    let later = phase_index phase rest in
    if is_text name phase then some 0 else do n ← later; some (n + 1)

abbrev pub agree : Bool → Bool → Bool
agree true b = b
agree false b = not b

module _ {N : Type 0} where
  -- `isinstance(value, str) and _SHA_RE.fullmatch(value) is not None`
  unfoldable pub is_digest : Value N → Bool
  is_digest v = elim (sha v) [ none ↦ false | some _ ↦ true ]

  unfoldable pub is_digest_or_null : Value N → Bool
  is_digest_or_null v = if is_null v then true else is_digest v

  -- Which digests a request of the sequence number has.
  unfoldable pub bindings_match : ℕ → Fields N → Bool
  bindings_match sequence request =
      let first = sequence == 1 in
      let previous = agree (is_null (entry (codes "previous_phase_sha256") request)) first in
      let snapshot = agree (is_null (entry (codes "candidate_snapshot_sha256") request)) first in
      let packet =
        agree (not (is_null (entry (codes "review_packet_sha256") request))) (leb 5 sequence) in
      if previous then if snapshot then packet else false else false

  -- The place of the request's phase, which its sequence number gives too.
  unfoldable pub request_sequence : Fields N → Option ℕ
  request_sequence request = do
    require (is_text (codes "1.0") (entry (codes "schema_version") request))
    index ← phase_index (entry (codes "phase") request) phase_order
    sequence ← integer 1 7 (entry (codes "sequence") request)
    require (sequence == index + 1)
    some sequence

module _ {N : Type 0} ⦃C : Codec N⦄ ⦃D : Digest⦄ where
  unfoldable pub validate_phase_request_bytes : List ℕ → Option (Fields N)
  validate_phase_request_bytes raw = do
    request ← strict_json 128_000 raw
    exact request_fields request
    sequence ← request_sequence request
    require (all (λ name. is_digest (entry name request)) digest_fields)
    require (all (λ name. is_digest_or_null (entry name request)) optional_fields)
    require (bindings_match sequence request)
    digest ← domain request_domain (Value.obj (drop_key (codes "request_sha256") request))
    require (is_text digest (entry (codes "request_sha256") request))
    some request
