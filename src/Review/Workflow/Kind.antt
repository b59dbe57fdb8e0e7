-- ===== src/Review/Workflow/Kind.antt =====
-- The external kind of an accepted action in tools/ai_review/outer_workflow_state.py.
use amazon_similar_search.Prelude.{
  ◌≡◌, ℕ, some, some_inj, sequence_some, codes, eq_text, List, subst,
}
use amazon_similar_search.Json.{Value, Fields}
use amazon_similar_search.Review.Judge.Texts.{Digest}
use amazon_similar_search.Review.Workflow.Codec.{
  Codec, entry, is_text, strict_json, exact, exact_object, sha, integer, decode_base64, domain,
  drop_key,
}
use amazon_similar_search.Review.Workflow.Prepared.{
  PreparedTransition, action_domain, action_fields, prepared_domain, prepared_fields, prepared_body,
  external_kind, same_entry, validate_action, parse_prepared_transition,
}
use amazon_similar_search.Review.Workflow.Facts.{require-some, check_some, is_text_sound}

module _ {N : Type 0} ⦃C : Codec N⦄ ⦃D : Digest⦄ where
  unfoldable HasKind : Fields N → Fields N → Type 0
  HasKind request action =
      entry (codes "external_kind") action
      ≡ Value.str (external_kind (entry (codes "phase") request))

  validate_action-HasKind :
      (value : Value N) (request : Fields N) (payload : List ℕ) {action : Fields N}
      → validate_action value request payload ≡ some action
      → HasKind request action
  unfolding validate_action HasKind
  validate_action-HasKind value request payload h =
      let (read, (_, h1)) = sequence_some (exact_object action_fields value) h in
      let (_, h2) = require-some (is_text (codes "1.0") (entry (codes "schema_version") read)) h1 in
      let (_, h3) = require-some (same_entry (codes "workflow_id") read request) h2 in
      let (_, h4) = require-some (same_entry (codes "phase") read request) h3 in
      let (_, (_, h5)) = sequence_some (integer 1 7 (entry (codes "sequence") read)) h4 in
      let (_, h6) = require-some (same_entry (codes "sequence") read request) h5 in
      let (_, h7) = require-some (same_entry (codes "request_sha256") read request) h6 in
      let (kind, h8) =
        require-some
          (is_text (external_kind (entry (codes "phase") request))
            (entry (codes "external_kind") read))
          h7 in
      let (_, h9) =
        require-some (is_text (D.sha256 payload) (entry (codes "payload_sha256") read)) h8 in
      let (given, (_, h10)) = sequence_some (sha (entry (codes "action_sha256") read)) h9 in
      let (digest, (_, h11)) =
        sequence_some (domain action_domain (Value.obj (drop_key (codes "action_sha256") read)))
          h10 in
      let (_, h12) = require-some (eq_text given digest) h11 in
      subst (HasKind request) (some_inj h12) (
        is_text_sound (external_kind (entry (codes "phase") request))
          (entry (codes "external_kind") read) kind)

  -- The kind of an accepted action is its phase's.
  pub parse_prepared_transition-kind :
      (raw : List ℕ) (request : Fields N) {prepared : PreparedTransition N}
      → parse_prepared_transition raw request ≡ some prepared
      → entry (codes "external_kind") prepared.action
        ≡ Value.str (external_kind (entry (codes "phase") request))
  unfolding parse_prepared_transition HasKind
  parse_prepared_transition-kind raw request h =
      let (value, (_, h1)) = sequence_some (strict_json 3_000_000 raw) h in
      let (_, h2) = check_some (exact prepared_fields value) h1 in
      let (_, h3) =
        require-some (is_text (codes "1.0") (entry (codes "schema_version") value)) h2 in
      let (payload, (_, h4)) =
        sequence_some (decode_base64 2_000_000 (entry (codes "payload_base64") value)) h3 in
      let (action, (valid, h5)) =
        sequence_some (validate_action (entry (codes "action") value) request payload) h4 in
      let (given, (_, h6)) = sequence_some (sha (entry (codes "prepared_sha256") value)) h5 in
      let (digest, (_, h7)) =
        sequence_some
          (domain prepared_domain (
            Value.obj (
              prepared_body (entry (codes "action") value) (entry (codes "payload_base64") value))))
          h6 in
      let (_, h8) = require-some (eq_text given digest) h7 in
      subst (λ (p : PreparedTransition N). HasKind request p.action) (some_inj h8)
        (validate_action-HasKind (entry (codes "action") value) request payload valid)
