-- ===== src/Review/Workflow/Chain.antt =====
-- The chain of the phases in tools/ai_review/outer_workflow_state.py: what an accepted transition
-- shows, and how the transitions of a run are linked.
use amazon_similar_search.Prelude.{
  ◌≡◌, ap, ◌∙◌, ℕ, ◌==◌, ==_iff, ◌+◌, leb, ltb, pos, negsuc, ◌&&◌, Bool, true, false, if◌then◌else◌,
  Option, none, some, some_inj, sequence_some, Text, codes, eq_text, List, [], ◌∷◌, subst, arith,
}
use amazon_similar_search.Json.{Value, Fields}
use amazon_similar_search.Review.Judge.Texts.{Digest}
use amazon_similar_search.Review.Workflow.Codec.{
  Codec, entry, drop_key, is_text, same_value, strict_json, exact, sha, integer, decode_base64,
  domain,
}
use amazon_similar_search.Review.Workflow.Request.{validate_phase_request_bytes, phase_order}
use amazon_similar_search.Review.Workflow.Artifacts.{validate_coordinator_output}
use amazon_similar_search.Review.Workflow.Finalized.{
  FinalizedTransition, finalized_domain, finalized_fields, finalized_body, validate_phase_result,
  decode_next, validate_next, parse_finalized_transition, phase_at, is_digest_of, external_digest,
  result_domain,
}
use amazon_similar_search.Review.Workflow.Prepared.{PreparedTransition, parse_prepared_transition}
use amazon_similar_search.Review.Workflow.Run.{
  Call, prepare, offline, broker, finalize, commit, Log, Callbacks, next_raw,
}
use amazon_similar_search.Review.Workflow.Facts.{require-some, check_some, require-true}
use amazon_similar_search.Review.Workflow.Handover.{
  IsBound, validate_phase_request_bytes-HasDigests, same_anchors-IsBound,
}
use amazon_similar_search.Review.Workflow.Measured.{validate_phase_result-IsResult}

module _ {N : Type 0} ⦃C : Codec N⦄ ⦃D : Digest⦄ where
  -- The result names the request, the execution and the output, and its digest is over all of it.
  abbrev pub IsMeasured : Fields N → Option (List ℕ) → FinalizedTransition N → Type 0
  IsMeasured request external_raw t =
      (same_value (entry (codes "request") t.result) (Value.obj request) ≡ true)
      × (is_digest_of (external_digest external_raw)
            (entry (codes "external_execution_sha256") t.result)
          ≡ true)
      × (entry (codes "coordinator_output_sha256") t.result
          ≡ Value.str (D.sha256 t.coordinator_output))
      × ((digest : Text) × (entry (codes "phase_sha256") t.result ≡ Value.str digest)
          × (domain result_domain (Value.obj (drop_key (codes "phase_sha256") t.result))
              ≡ some digest))

  -- Only the seventh request has no successor, and the successor is valid and bound to the result.
  abbrev pub Passes : Fields N → Fields N → Option (List ℕ) → Type 0
  Passes request result none = entry (codes "sequence") request ≡ Value.int (pos 7)
  Passes request result (some raw) =
      (next : Fields N) × (validate_phase_request_bytes raw ≡ some next)
      × IsBound request result next

  validate_next-Passes :
      (next_request : Option (List ℕ)) (sequence : ℕ) (request output result : Fields N)
      → entry (codes "sequence") request ≡ Value.int (pos sequence)
      → (same_value
            (entry (codes "candidate_snapshot_sha256") result)
            (entry (codes "candidate_snapshot_sha256") output)
          ≡ true)
      → (same_value
            (entry (codes "review_packet_sha256") result)
            (entry (codes "review_packet_sha256") output)
          ≡ true)
      → validate_next next_request sequence request output result ≡ some tt
      → Passes request result next_request
  unfolding validate_next
  validate_next-Passes none sequence request output result at_sequence candidate packet h =
      at_sequence
      ∙ ap (λ n. Value.int (pos n)) ((==_iff sequence 7).0 (require-true (sequence == 7) h))
  validate_next-Passes (some raw) sequence request output result at_sequence candidate packet h =
      let (_, h1) = require-some (ltb sequence 7) h in
      let (next, (valid, h2)) = sequence_some (validate_phase_request_bytes raw) h1 in
      let (next_sequence, (_, h3)) =
        sequence_some (integer 1 7 (entry (codes "sequence") next)) h2 in
      let (_, h4) = require-some (next_sequence == sequence + 1) h3 in
      let (phase, (_, h5)) = sequence_some (phase_at sequence phase_order) h4 in
      let (_, h6) = require-some (is_text phase (entry (codes "phase") next)) h5 in
      (
        next,
        valid,
        same_anchors-IsBound next request output result
            (validate_phase_request_bytes-HasDigests raw valid) candidate packet h6,
      )

  integer-some :
      (lower upper : ℕ) (v : Value N) {n : ℕ}
      → integer lower upper v ≡ some n
      → v ≡ Value.int (pos n)
  unfolding integer
  integer-some lower upper (Value.int (pos m)) h =
      ap (λ n. Value.int (pos n)) (some_inj (require-some (leb lower m && leb m upper) h).1)
  integer-some lower upper (Value.int (negsuc m)) h = ground arith
  integer-some lower upper (Value.str s) h = ground arith
  integer-some lower upper Value.null h = ground arith
  integer-some lower upper (Value.bool b) h = ground arith
  integer-some lower upper (Value.float x) h = ground arith
  integer-some lower upper (Value.arr xs) h = ground arith
  integer-some lower upper (Value.obj d) h = ground arith

  abbrev pub IsStep : Fields N → Option (List ℕ) → FinalizedTransition N → Type 0
  IsStep request external_raw t =
      IsMeasured request external_raw t × Passes request t.result t.next_request

  pub parse_finalized_transition-IsStep :
      (raw : List ℕ) (request : Fields N) (external_raw : Option (List ℕ))
      {t : FinalizedTransition N}
      → parse_finalized_transition raw request external_raw ≡ some t
      → IsStep request external_raw t
  unfolding parse_finalized_transition
  parse_finalized_transition-IsStep raw request external_raw h =
      let (value, (_, h1)) = sequence_some (strict_json 10_000_000 raw) h in
      let (_, h2) = check_some (exact finalized_fields value) h1 in
      let (_, h3) =
        require-some (is_text (codes "1.0") (entry (codes "schema_version") value)) h2 in
      let (output_raw, (_, h4)) =
        sequence_some (decode_base64 8_000_000 (entry (codes "coordinator_output_base64") value))
          h3 in
      let (measured, (_, h5)) = sequence_some (validate_coordinator_output output_raw request) h4 in
      let (result, (result_valid, h6)) =
        sequence_some
          (validate_phase_result (entry (codes "phase_result") value) request measured.0 measured.1
            output_raw external_raw)
          h5 in
      let (next, (_, h7)) =
        sequence_some (decode_next (entry (codes "next_request_base64") value)) h6 in
      let (sequence, (at_sequence, h8)) =
        sequence_some (integer 1 7 (entry (codes "sequence") request)) h7 in
      let (next_valid, h9) =
        check_some (validate_next next sequence request measured.0 result) h8 in
      let (given, (_, h10)) = sequence_some (sha (entry (codes "finalized_sha256") value)) h9 in
      let (digest, (_, h11)) =
        sequence_some
          (domain finalized_domain (
            Value.obj (
              finalized_body (entry (codes "coordinator_output_base64") value)
                (entry (codes "next_request_base64") value) (entry (codes "phase_result") value))))
          h10 in
      let (_, h12) = require-some (eq_text given digest) h11 in
      let (r1, r2, r3, r4, r5, r6, r7) =
        validate_phase_result-IsResult (entry (codes "phase_result") value) request measured.0
          measured.1 output_raw external_raw result_valid in
      subst (IsStep request external_raw) (some_inj h12) (
        (r1, r5, r6, r7),
        validate_next-Passes next sequence request measured.0 result
            (integer-some 1 7 (entry (codes "sequence") request) at_sequence) r3 r4 next_valid,
      )

-- `_EXTERNAL` has the phase.
unfoldable pub is_external : Text → Bool
is_external phase = if eq_text phase (codes "offline") then true else eq_text phase (codes "broker")

unfoldable pub execution : {N : Type 0} → Text → List ℕ → Call N
execution phase payload =
    if eq_text phase (codes "offline") then offline payload else broker payload

-- A log with one more call, where the call is made.
abbrev pub called : {N : Type 0} → Bool → Call N → Log N → Log N
called true made log = made ∷ log
called false made log = log

-- The log when a phase has executed what it executes.
abbrev pub after_execution : {N : Type 0} → Log N → List ℕ → Text → List ℕ → Log N
after_execution log raw phase payload =
    called (is_external phase) (execution phase payload) (prepare phase raw ∷ log)

module _ {N : Type 0} ⦃C : Codec N⦄ ⦃D : Digest⦄ (callbacks : Callbacks N) where
  -- What is measured of the execution of a phase: in an external phase what the executor answered to the
  -- call, and else nothing, where the payload goes on as it is.
  abbrev pub IsExecution : Bool → Log N → Call N → List ℕ → List ℕ → Option (List ℕ) → Type 0
  IsExecution true log made payload external external_raw =
      (callbacks.answer log made ≡ some external) × (external_raw ≡ some external)
  IsExecution false log made payload external external_raw =
      (external ≡ payload) × (external_raw ≡ none)

  -- A phase from a request, with its calls in their order: the coordinator prepares an action that is
  -- accepted for the request, the executor of the phase is called with its payload, the coordinator
  -- finalizes what came of it, and the transition is accepted and committed.
  pub record IsPhase (log : Log N) (raw : List ℕ) (phase : Text) (t : FinalizedTransition N)
      (later : Log N) : Type 0 where
    pub request : Fields N
    pub prepared_raw : List ℕ
    pub prepared : PreparedTransition N
    pub external : List ℕ
    pub external_raw : Option (List ℕ)
    pub finalized_raw : List ℕ
    pub valid : validate_phase_request_bytes raw ≡ some request
    pub at_phase : entry (codes "phase") request ≡ Value.str phase
    pub answered : callbacks.answer log (prepare phase raw) ≡ some prepared_raw
    pub accepted : parse_prepared_transition prepared_raw request ≡ some prepared
    pub executes :
        IsExecution
          (is_external phase)
          (prepare phase raw ∷ log)
          (execution phase prepared.payload)
          prepared.payload
          external
          external_raw
    pub finalizes :
        callbacks.answer
          (after_execution log raw phase prepared.payload)
          (finalize phase prepared_raw external)
        ≡ some finalized_raw
    pub parsed : parse_finalized_transition finalized_raw request external_raw ≡ some t
    pub step : IsStep request external_raw t
    pub calls :
        later
        ≡ called callbacks.has_commit
            (commit phase raw prepared_raw external finalized_raw t)
            (finalize phase prepared_raw external ∷ after_execution log raw phase prepared.payload)

  -- The transitions of phases with the calls before and after them: each phase starts from the
  -- request that the phase before it has finalized, and makes its calls after those.
  pub data Chain : Log N → List ℕ → List Text → List (FinalizedTransition N) → Log N → Type 0 where
    ended : {log : Log N} {raw : List ℕ} → Chain log raw [] [] log
    linked :
        {log later final : Log N} {raw : List ℕ} {phase : Text} {phases : List Text}
        {t : FinalizedTransition N} {ts : List (FinalizedTransition N)}
        → IsPhase log raw phase t later
        → Chain later (next_raw t.next_request raw) phases ts final
        → Chain log raw (phase ∷ phases) (t ∷ ts) final
