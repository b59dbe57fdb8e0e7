-- ===== src/Review/Workflow/Examples/Steps.antt =====
-- The phases of the example, one by one.
use amazon_similar_search.Prelude.{◌≡◌, refl, some, [], eq_text, member, starts_with}
use amazon_similar_search.Review.Judge.Texts.{eq_texts, sort_texts, before, insert_text}
use amazon_similar_search.Dedupe.{first_of_each}
use amazon_similar_search.Json.{get}
use amazon_similar_search.Review.Workflow.Codec.{
  strict_json, canonical, exact, exact_object, entry, drop_key, is_text, unique_keys, same_value,
  sha, is_sha, integer, decode_base64, domain,
}
use amazon_similar_search.Review.Workflow.Request.{
  phase_order, validate_phase_request_bytes, request_sequence, phase_index, is_digest,
  is_digest_or_null, bindings_match,
}
use amazon_similar_search.Review.Workflow.Prepared.{
  external_kind, validate_action, parse_prepared_transition,
}
use amazon_similar_search.Review.Workflow.Completeness.{
  is_artifact_tail, is_artifact_name, after_prefix, has_evidence, is_complete,
}
use amazon_similar_search.Review.Workflow.Artifacts.{
  find_artifact, artifact_semantic, semantic_of, candidate_anchor, packet_anchor, artifacts_match,
  validate_coordinator_output,
}
use amazon_similar_search.Review.Workflow.Finalized.{
  validate_phase_result, decode_next, same_anchors, validate_next, parse_finalized_transition,
}
use amazon_similar_search.Review.Workflow.Run.{
  ◌>>=◌, call, transition_committed, prepare_phase, execute, finalize_phase, run_phase, run_phases,
  started, run_fixed_workflow,
}
use amazon_similar_search.Review.Workflow.Examples.Manifests.{document}
use amazon_similar_search.Review.Workflow.Examples.Toy.{
  toy_codec, toy_digest, number, number_in, dump, request,
}
use amazon_similar_search.Review.Workflow.Examples.Coordinator.{coordinator, after, calls}

-- All phases run, and the run ends as it should.
pub phases_run :
    run_phases coordinator phase_order (started (document 14 1)) [] ≡ (calls 7, some (after 7))
unfolding eq_text member starts_with eq_texts sort_texts before insert_text first_of_each get
    strict_json canonical exact exact_object entry drop_key is_text unique_keys same_value sha
    is_sha integer decode_base64 domain validate_phase_request_bytes request_sequence phase_index
    is_digest is_digest_or_null bindings_match external_kind validate_action
    parse_prepared_transition is_artifact_tail is_artifact_name after_prefix has_evidence
    is_complete find_artifact artifact_semantic semantic_of candidate_anchor packet_anchor
    artifacts_match validate_coordinator_output validate_phase_result decode_next same_anchors
    validate_next parse_finalized_transition ◌>>=◌ call transition_committed prepare_phase execute
    finalize_phase run_phase number number_in dump run_phases
phases_run = refl

pub workflow_run :
    (run_fixed_workflow coordinator (document 14 1) []).1 ≡ some (after 7).transitions
unfolding eq_text member starts_with eq_texts sort_texts before insert_text first_of_each get
    strict_json canonical exact exact_object entry drop_key is_text unique_keys same_value sha
    is_sha integer decode_base64 domain validate_phase_request_bytes request_sequence phase_index
    is_digest is_digest_or_null bindings_match external_kind validate_action
    parse_prepared_transition is_artifact_tail is_artifact_name after_prefix has_evidence
    is_complete find_artifact artifact_semantic semantic_of candidate_anchor packet_anchor
    artifacts_match validate_coordinator_output validate_phase_result decode_next same_anchors
    validate_next parse_finalized_transition ◌>>=◌ call transition_committed prepare_phase execute
    finalize_phase run_phase number number_in dump run_phases run_fixed_workflow
workflow_run = refl

pub first_valid : validate_phase_request_bytes (document 14 1) ≡ some (request 1)
unfolding eq_text member starts_with eq_texts sort_texts before insert_text first_of_each get
    strict_json canonical exact exact_object entry drop_key is_text unique_keys same_value sha
    is_sha integer decode_base64 domain validate_phase_request_bytes request_sequence phase_index
    is_digest is_digest_or_null bindings_match external_kind validate_action
    parse_prepared_transition is_artifact_tail is_artifact_name after_prefix has_evidence
    is_complete find_artifact artifact_semantic semantic_of candidate_anchor packet_anchor
    artifacts_match validate_coordinator_output validate_phase_result decode_next same_anchors
    validate_next parse_finalized_transition ◌>>=◌ call transition_committed prepare_phase execute
    finalize_phase run_phase number number_in dump run_phases
first_valid = refl
