-- ===== src/Review/Workflow/Prepared.antt =====
-- tools/ai_review/outer_workflow_state.py: the action that the coordinator prepares for a request.
use amazon_similar_search.Prelude.{
  ℕ, Bool, Option, some, ◌>>=◌, Text, codes, eq_text, if◌then◌else◌, List, [], ◌∷◌, ◌++◌,
}
use amazon_similar_search.Json.{Value, Fields, field, end}
use amazon_similar_search.Review.Judge.Texts.{Digest}
use amazon_similar_search.Review.Workflow.Codec.{
  Codec, require, ◌>>◌, entry, drop_key, is_text, same_value, canonical, strict_json, exact,
  exact_object, sha, integer, decode_base64, domain,
}

abbrev pub action_domain : List ℕ
action_domain = codes "amazon-explorer-phase-action-v1" ++ 0 ∷ []

abbrev pub prepared_domain : List ℕ
prepared_domain = codes "amazon-explorer-outer-prepared-transition-v1" ++ 0 ∷ []

abbrev pub action_fields : List Text
action_fields =
    codes "schema_version"
    ∷ codes "workflow_id"
    ∷ codes "phase"
    ∷ codes "sequence"
    ∷ codes "request_sha256"
    ∷ codes "external_kind"
    ∷ codes "payload_sha256"
    ∷ codes "action_sha256"
    ∷ []

abbrev pub prepared_fields : List Text
prepared_fields =
    codes "action" ∷ codes "payload_base64" ∷ codes "prepared_sha256" ∷ codes "schema_version" ∷ []

pub record PreparedTransition (N : Type 0) : Type 0 where
  pub action : Fields N
  pub payload : List ℕ
  pub prepared_sha256 : Text

module _ {N : Type 0} where
  -- `_EXTERNAL.get(request["phase"], "none")`
  unfoldable pub external_kind : Value N → Text
  unfolding is_text
  external_kind phase =
      if is_text (codes "offline") phase
      then codes "offline"
      else if is_text (codes "broker") phase
      then codes "broker"
      else codes "none"

  -- `body` of a prepared transition
  abbrev pub prepared_body : Value N → Value N → Fields N
  prepared_body action payload_base64 = field (codes "action") action (
      field (codes "payload_base64") payload_base64
        (field (codes "schema_version") (Value.str (codes "1.0")) end))

module _ {N : Type 0} ⦃C : Codec N⦄ where
  -- The entry of the name is the same in both objects.
  abbrev pub same_entry : Text → Fields N → Fields N → Bool
  same_entry name d e = same_value (entry name d) (entry name e)

module _ {N : Type 0} ⦃C : Codec N⦄ ⦃D : Digest⦄ where
  unfoldable pub validate_action : Value N → Fields N → List ℕ → Option (Fields N)
  validate_action value request payload = do
    action ← exact_object action_fields value
    require (is_text (codes "1.0") (entry (codes "schema_version") action))
    require (same_entry (codes "workflow_id") action request)
    require (same_entry (codes "phase") action request)
    _ ← integer 1 7 (entry (codes "sequence") action)
    require (same_entry (codes "sequence") action request)
    require (same_entry (codes "request_sha256") action request)
    require (
        is_text (external_kind (entry (codes "phase") request))
          (entry (codes "external_kind") action))
    require (is_text (D.sha256 payload) (entry (codes "payload_sha256") action))
    given ← sha (entry (codes "action_sha256") action)
    digest ← domain action_domain (Value.obj (drop_key (codes "action_sha256") action))
    require (eq_text given digest)
    some action

  unfoldable pub encode_prepared_transition : Fields N → List ℕ → Option (List ℕ)
  encode_prepared_transition action payload =
      let body = prepared_body (Value.obj action) (Value.str (C.b64encode payload)) in
      do
        digest ← domain prepared_domain (Value.obj body)
        canonical (
            Value.obj (
              field (codes "action") (Value.obj action) (
                field (codes "payload_base64") (Value.str (C.b64encode payload)) (
                  field (codes "schema_version") (Value.str (codes "1.0"))
                    (field (codes "prepared_sha256") (Value.str digest) end)))))

  unfoldable pub parse_prepared_transition : List ℕ → Fields N → Option (PreparedTransition N)
  parse_prepared_transition raw request = do
    value ← strict_json 3_000_000 raw
    exact prepared_fields value
    require (is_text (codes "1.0") (entry (codes "schema_version") value))
    payload ← decode_base64 2_000_000 (entry (codes "payload_base64") value)
    action ← validate_action (entry (codes "action") value) request payload
    given ← sha (entry (codes "prepared_sha256") value)
    digest ← domain prepared_domain (
        Value.obj
          (prepared_body (entry (codes "action") value) (entry (codes "payload_base64") value)))
    require (eq_text given digest)
    some (record { action = action; payload = payload; prepared_sha256 = given })
