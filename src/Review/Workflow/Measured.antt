-- ===== src/Review/Workflow/Measured.antt =====
-- What the result of a phase is measured against in tools/ai_review/outer_workflow_state.py.
use amazon_similar_search.Prelude.{
  ◌≡◌, ap, ◌∙◌, ℕ, Option, some, some_inj, sequence_some, Text, codes, eq_text, eq_text_sound, true,
  List, subst,
}
use amazon_similar_search.Json.{Value, Fields}
use amazon_similar_search.Review.Judge.Texts.{Digest}
use amazon_similar_search.Review.Workflow.Codec.{
  Codec, entry, drop_key, is_text, same_value, domain, sha, exact_object,
}
use amazon_similar_search.Review.Workflow.Prepared.{same_entry}
use amazon_similar_search.Review.Workflow.Artifacts.{Artifact, semantic_items}
use amazon_similar_search.Review.Workflow.Finalized.{
  validate_phase_result, result_domain, result_fields, is_digest_of, external_digest,
}
use amazon_similar_search.Review.Workflow.Facts.{require-some, is_text_sound, sha-some}

module _ {N : Type 0} ⦃C : Codec N⦄ ⦃D : Digest⦄ where
  -- What is shown of an accepted result: it is measured, and its anchors are the output's.
  abbrev pub IsResult :
      Fields N → Fields N → List Artifact → List ℕ → Option (List ℕ) → Fields N → Type 0
  IsResult request output semantic output_raw external_raw result =
      (same_value (entry (codes "request") result) (Value.obj request) ≡ true)
      × (same_value (entry (codes "output_artifacts_sha256") result)
            (entry (codes "output_artifacts_sha256") output)
          ≡ true)
      × (same_value (entry (codes "candidate_snapshot_sha256") result)
            (entry (codes "candidate_snapshot_sha256") output)
          ≡ true)
      × (same_value (entry (codes "review_packet_sha256") result)
            (entry (codes "review_packet_sha256") output)
          ≡ true)
      × (is_digest_of (external_digest external_raw)
            (entry (codes "external_execution_sha256") result)
          ≡ true)
      × (entry (codes "coordinator_output_sha256") result ≡ Value.str (D.sha256 output_raw))
      × ((digest : Text) × (entry (codes "phase_sha256") result ≡ Value.str digest)
          × (domain result_domain (Value.obj (drop_key (codes "phase_sha256") result))
              ≡ some digest))

  pub validate_phase_result-IsResult :
      (value : Value N) (request output : Fields N) (semantic : List Artifact) (output_raw : List ℕ)
      (external_raw : Option (List ℕ)) {result : Fields N}
      → validate_phase_result value request output semantic output_raw external_raw ≡ some result
      → IsResult request output semantic output_raw external_raw result
  unfolding validate_phase_result
  validate_phase_result-IsResult value request output semantic output_raw external_raw h =
      let (read, (_, h1)) = sequence_some (exact_object result_fields value) h in
      let (_, h2) = require-some (is_text (codes "1.0") (entry (codes "schema_version") read)) h1 in
      let (request_same, h3) =
        require-some (same_value (entry (codes "request") read) (Value.obj request)) h2 in
      let (_, h4) =
        require-some
          (same_value (entry (codes "artifacts") read) (Value.arr (semantic_items semantic))) h3 in
      let (artifacts_same, h5) =
        require-some (same_entry (codes "output_artifacts_sha256") read output) h4 in
      let (candidate_same, h6) =
        require-some (same_entry (codes "candidate_snapshot_sha256") read output) h5 in
      let (packet_same, h7) =
        require-some (same_entry (codes "review_packet_sha256") read output) h6 in
      let (external_same, h8) =
        require-some
          (is_digest_of (external_digest external_raw)
            (entry (codes "external_execution_sha256") read))
          h7 in
      let (output_same, h9) =
        require-some
          (is_text (D.sha256 output_raw) (entry (codes "coordinator_output_sha256") read)) h8 in
      let (given, (given_sha, h10)) = sequence_some (sha (entry (codes "phase_sha256") read)) h9 in
      let (digest, (digest_domain, h11)) =
        sequence_some (domain result_domain (Value.obj (drop_key (codes "phase_sha256") read)))
          h10 in
      let (digest_same, h12) = require-some (eq_text given digest) h11 in
      subst (IsResult request output semantic output_raw external_raw) (some_inj h12) (
        request_same,
        artifacts_same,
        candidate_same,
        packet_same,
        external_same,
        is_text_sound (D.sha256 output_raw) (entry (codes "coordinator_output_sha256") read)
            output_same,
        (
          digest,
          sha-some (entry (codes "phase_sha256") read) given_sha
              ∙ ap Value.str (eq_text_sound given digest digest_same),
          digest_domain,
        ),
      )
