-- ===== src/Review/Workflow/Handover.antt =====
-- What the request of one phase hands over to the next in tools/ai_review/outer_workflow_state.py.
use amazon_similar_search.Prelude.{
  ◌≡◌, sym, ◌∙◌, ℕ, some, some_inj, sequence_some, Text, codes, true, all, All, List, [], ◌∷◌,
  subst,
}
use amazon_similar_search.Json.{Value, Fields}
use amazon_similar_search.Review.Judge.Texts.{Digest}
use amazon_similar_search.Review.Workflow.Codec.{
  Codec, entry, drop_key, is_text, same_value, domain, exact, strict_json,
}
use amazon_similar_search.Review.Workflow.Request.{
  validate_phase_request_bytes, request_domain, request_fields, digest_fields, optional_fields,
  is_digest, is_digest_or_null, request_sequence, bindings_match,
}
use amazon_similar_search.Review.Workflow.Prepared.{same_entry}
use amazon_similar_search.Review.Workflow.Finalized.{same_anchors}
use amazon_similar_search.Review.Workflow.Facts.{
  require-some, check_some, require-true, all-All, IsPlain, is_digest-IsPlain,
  is_digest_or_null-IsPlain, IsPlain-same_value, same_value-IsPlain,
}

-- The fields that never change in a workflow.
abbrev pub constant_fields : List Text
constant_fields =
    codes "workflow_id"
    ∷ codes "task_sha256"
    ∷ codes "runtime_manifest_sha256"
    ∷ codes "coordinator_key_id"
    ∷ codes "coordinator_public_key_sha256"
    ∷ codes "candidate_sha256"
    ∷ []

module _ {N : Type 0} where
  -- The next request is bound to the request before it and to that phase's result.
  abbrev pub IsBound : Fields N → Fields N → Fields N → Type 0
  IsBound request result next =
      All (λ name. entry name next ≡ entry name request) constant_fields
      × (entry (codes "candidate_snapshot_sha256") next
          ≡ entry (codes "candidate_snapshot_sha256") result)
      × (entry (codes "review_packet_sha256") next ≡ entry (codes "review_packet_sha256") result)
      × (entry (codes "previous_phase_sha256") next ≡ entry (codes "phase_sha256") result)
      × (entry (codes "input_artifacts_sha256") next
          ≡ entry (codes "output_artifacts_sha256") result)

  abbrev pub HasDigests : Fields N → Type 0
  HasDigests request =
      All (λ name. IsPlain (entry name request)) digest_fields
      × All (λ name. IsPlain (entry name request)) optional_fields

module _ {N : Type 0} ⦃C : Codec N⦄ ⦃D : Digest⦄ where
  pub validate_phase_request_bytes-HasDigests :
      (raw : List ℕ) {request : Fields N}
      → validate_phase_request_bytes raw ≡ some request
      → HasDigests request
  unfolding validate_phase_request_bytes
  validate_phase_request_bytes-HasDigests raw h =
      let (read, (_, h1)) = sequence_some (strict_json 128_000 raw) h in
      let (_, h2) = check_some (exact request_fields read) h1 in
      let (sequence, (_, h3)) = sequence_some (request_sequence read) h2 in
      let (digests, h4) =
        require-some (all (λ name. is_digest (entry name read)) digest_fields) h3 in
      let (optional, h5) =
        require-some (all (λ name. is_digest_or_null (entry name read)) optional_fields) h4 in
      let (_, h6) = require-some (bindings_match sequence read) h5 in
      let (digest, (_, h7)) =
        sequence_some (domain request_domain (Value.obj (drop_key (codes "request_sha256") read)))
          h6 in
      let (_, h8) = require-some (is_text digest (entry (codes "request_sha256") read)) h7 in
      subst HasDigests (some_inj h8) (
        all-All (λ name. is_digest (entry name read)) (λ name. IsPlain (entry name read))
            digest_fields (λ name. is_digest-IsPlain (entry name read)) digests,
        all-All (λ name. is_digest_or_null (entry name read)) (λ name. IsPlain (entry name read))
            optional_fields (λ name. is_digest_or_null-IsPlain (entry name read)) optional,
      )

  anchored :
      (name : Text) (next other : Fields N)
      → IsPlain (entry name next)
      → same_entry name next other ≡ true
      → entry name next ≡ entry name other
  anchored name next other plain h = IsPlain-same_value (entry name next) (entry name other) plain h

  -- The anchors of the next request, where both it and the result are well formed.
  pub same_anchors-IsBound :
      (next request output result : Fields N)
      → HasDigests next
      → (same_value
            (entry (codes "candidate_snapshot_sha256") result)
            (entry (codes "candidate_snapshot_sha256") output)
          ≡ true)
      → (same_value
            (entry (codes "review_packet_sha256") result)
            (entry (codes "review_packet_sha256") output)
          ≡ true)
      → same_anchors next request output result ≡ some tt
      → IsBound request result next
  unfolding same_anchors
  same_anchors-IsBound next request output result plain candidate_same packet_same h =
      let (workflow, h1) = require-some (same_entry (codes "workflow_id") next request) h in
      let (task, h2) = require-some (same_entry (codes "task_sha256") next request) h1 in
      let (runtime, h3) =
        require-some (same_entry (codes "runtime_manifest_sha256") next request) h2 in
      let (key, h4) = require-some (same_entry (codes "coordinator_key_id") next request) h3 in
      let (public_key, h5) =
        require-some (same_entry (codes "coordinator_public_key_sha256") next request) h4 in
      let (candidate, h6) = require-some (same_entry (codes "candidate_sha256") next request) h5 in
      let (snapshot, h7) =
        require-some (same_entry (codes "candidate_snapshot_sha256") next output) h6 in
      let (packet, h8) = require-some (same_entry (codes "review_packet_sha256") next output) h7 in
      let (previous, h9) =
        require-some
          (same_value (entry (codes "previous_phase_sha256") next)
            (entry (codes "phase_sha256") result))
          h8 in
      let inputs =
        require-true
          (same_value (entry (codes "input_artifacts_sha256") next)
            (entry (codes "output_artifacts_sha256") result))
          h9 in
      let (p1, (p2, (p3, (p4, (p5, (p6, (p7, _))))))) = plain.0 in
      let (q1, (q2, (q3, _))) = plain.1 in
      let out2 = anchored (codes "candidate_snapshot_sha256") next output q2 snapshot in
      let out3 = anchored (codes "review_packet_sha256") next output q3 packet in
      (
        (
          anchored (codes "workflow_id") next request p1 workflow,
          (
            anchored (codes "task_sha256") next request p2 task,
            (
              anchored (codes "runtime_manifest_sha256") next request p3 runtime,
              (
                anchored (codes "coordinator_key_id") next request p4 key,
                (
                  anchored (codes "coordinator_public_key_sha256") next request p5 public_key,
                  (anchored (codes "candidate_sha256") next request p6 candidate, tt),
                ),
              ),
            ),
          ),
        ),
        out2
            ∙ sym (
                same_value-IsPlain (entry (codes "candidate_snapshot_sha256") result) _
                  (subst IsPlain out2 q2) candidate_same),
        out3
            ∙ sym (
                same_value-IsPlain (entry (codes "review_packet_sha256") result) _
                  (subst IsPlain out3 q3) packet_same),
        IsPlain-same_value (entry (codes "previous_phase_sha256") next) _ q1 previous,
        IsPlain-same_value (entry (codes "input_artifacts_sha256") next) _ p7 inputs,
      )
