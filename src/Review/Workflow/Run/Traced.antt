-- ===== src/Review/Workflow/Run/Traced.antt =====
-- One phase of a run in tools/ai_review/outer_workflow_state.py that succeeds, with the calls it made.
use amazon_similar_search.Prelude.{
  ◌≡◌, refl, sym, ap, ◌∙◌, ℕ, Bool-cases, inl, inr, Option, some, some_inj, Text, codes, eq_text,
  List, [], ◌∷◌, ◌++◌, subst,
}
use amazon_similar_search.Json.{Value}
use amazon_similar_search.Review.Judge.Texts.{Digest}
use amazon_similar_search.Review.Workflow.Codec.{Codec, require, entry, is_text}
use amazon_similar_search.Review.Workflow.Request.{validate_phase_request_bytes}
use amazon_similar_search.Review.Workflow.Prepared.{external_kind, parse_prepared_transition}
use amazon_similar_search.Review.Workflow.Artifacts.{text_of}
use amazon_similar_search.Review.Workflow.Finalized.{FinalizedTransition}
use amazon_similar_search.Review.Workflow.Kind.{parse_prepared_transition-kind}
use amazon_similar_search.Review.Workflow.Chain.{
  is_external, execution, called, IsExecution, after_execution, IsPhase,
  parse_finalized_transition-IsStep,
}
use amazon_similar_search.Review.Workflow.Run.{
  prepare, finalize, commit, Log, Callbacks, lift, Progress, Ready, is_new, next_raw, call,
  prepare_phase, execute, external_evidence, run_phase,
}
use amazon_similar_search.Review.Workflow.Run.Advance.{
  exec_traced, prepare_phase-IsReady, finalize_phase-IsFinalized,
}

module _ {N : Type 0} ⦃C : Codec N⦄ ⦃D : Digest⦄ (callbacks : Callbacks N) where
  -- The coordinator has prepared the phase, and nothing else was called.
  abbrev IsAsked : Text → Progress N → Log N → Ready N → Log N → Type 0
  IsAsked phase progress log ready later =
      (callbacks.answer log (prepare phase progress.request_raw) ≡ some ready.prepared_raw)
      × (later ≡ prepare phase progress.request_raw ∷ log)

  prepare_phase-IsAsked :
      (phase : Text) (progress : Progress N) (log : Log N) {ready : Ready N}
      → (prepare_phase callbacks phase progress log).1 ≡ some ready
      → IsAsked phase progress log ready (prepare_phase callbacks phase progress log).0
  unfolding prepare_phase call
  prepare_phase-IsAsked phase progress log h =
      let (request, _, h1, ran1) =
        exec_traced (lift (validate_phase_request_bytes progress.request_raw)) _ log h in
      let (_, _, h2, ran2) =
        exec_traced (lift (require (is_text phase (entry (codes "phase") request)))) _ log h1 in
      let (request_sha256, _, h3, ran3) =
        exec_traced (lift (text_of (entry (codes "request_sha256") request))) _ log h2 in
      let (_, _, h4, ran4) =
        exec_traced (lift (require (is_new request_sha256 progress.seen_requests))) _ log h3 in
      let (prepared_raw, answered, h5, ran5) =
        exec_traced (call callbacks (prepare phase progress.request_raw)) _ log h4 in
      let asked = (call callbacks (prepare phase progress.request_raw) log).0 in
      let (prepared, _, h6, ran6) =
        exec_traced (lift (parse_prepared_transition prepared_raw request)) _ asked h5 in
      let (action_sha256, _, h7, ran7) =
        exec_traced (lift (text_of (entry (codes "action_sha256") prepared.action))) _ asked h6 in
      let (_, _, h8, ran8) =
        exec_traced (lift (require (is_new action_sha256 progress.seen_actions))) _ asked h7 in
      (
        subst
            (λ (r : Ready N).
              callbacks.answer log (prepare phase progress.request_raw) ≡ some r.prepared_raw)
            (some_inj h8) answered,
        ap (λ (r : Log N × Option (Ready N)). r.0)
            (ran1 ∙ ran2 ∙ ran3 ∙ ran4 ∙ ran5 ∙ ran6 ∙ ran7 ∙ ran8),
      )

  -- What an execution of the phase's kind makes of the log, and what is measured of it.
  abbrev Executes : Text → List ℕ → Log N → List ℕ → Value N → Log N → Type 0
  Executes phase payload log external kind later =
      IsExecution callbacks (is_external phase) log (execution phase payload) payload external
        (external_evidence kind external)
      × (later ≡ called (is_external phase) (execution phase payload) log)

  execute-Executes :
      (phase : Text) (payload : List ℕ) (log : Log N) (external : List ℕ)
      → (execute callbacks (Value.str (external_kind {N = N} (Value.str phase))) payload log).1
        ≡ some external
      → Executes phase payload log external
          (Value.str (external_kind {N = N} (Value.str phase)))
          (execute callbacks (Value.str (external_kind {N = N} (Value.str phase))) payload log).0
  unfolding execute external_kind is_text is_external execution call eq_text
  execute-Executes phase payload log external h =
      elim (Bool-cases (eq_text phase (codes "offline"))) [
        | inl e ↦ rw e ((rw e at h, refl), refl)
        | inr e ↦ elim (Bool-cases (eq_text phase (codes "broker"))) [
          | inl b ↦ rw (e, b) ((rw (e, b) at h, refl), refl)
          | inr b ↦ rw (e, b) ((sym (some_inj (rw (e, b) at h)), refl), refl)
        ]
      ]

  -- A phase that succeeds is one of the chain.
  pub run_phase-IsPhase :
      (phase : Text) (progress : Progress N) (log : Log N) {later : Progress N}
      → (run_phase callbacks phase progress log).1 ≡ some later
      → (t : FinalizedTransition N) × IsPhase callbacks log progress.request_raw phase t
          (run_phase callbacks phase progress log).0
        × (later.request_raw ≡ next_raw t.next_request progress.request_raw)
        × (later.transitions ≡ progress.transitions ++ t ∷ [])
  unfolding run_phase
  run_phase-IsPhase phase progress log h =
      let (ready, prepared, h1, ran1) =
        exec_traced (prepare_phase callbacks phase progress) _ log h in
      let asked = (prepare_phase callbacks phase progress log).0 in
      let kind = entry (codes "external_kind") ready.prepared.action in
      let payload = ready.prepared.payload in
      let (answered, asks) = prepare_phase-IsAsked phase progress log prepared in
      let (valid, at_phase, _, _, accepted, _) =
        prepare_phase-IsReady callbacks phase progress log prepared in
      let (external, executed, h2, ran2) =
        exec_traced (execute callbacks kind payload) _ asked h1 in
      let executed_log = (execute callbacks kind payload asked).0 in
      let (finalized_raw, t, finalizes, parsed, _, moved, finished) =
        finalize_phase-IsFinalized callbacks phase progress ready external executed_log h2 in
      let is_kind : Value.str (external_kind {N = N} (Value.str phase)) ≡ kind = sym (
        parse_prepared_transition-kind ready.prepared_raw ready.request accepted
        ∙ ap (λ v. Value.str (external_kind v)) at_phase) in
      let executes : (k : Value N)
          → Value.str (external_kind {N = N} (Value.str phase)) ≡ k
          → (execute callbacks k payload asked).1 ≡ some external
          → Executes phase payload asked external k (execute callbacks k payload asked).0 =
        λ k same.
          subst
            (λ (v : Value N).
              (execute callbacks v payload asked).1 ≡ some external
              → Executes phase payload asked external v (execute callbacks v payload asked).0)
            same (execute-Executes phase payload asked external) in
      let (evidence, logged) = executes kind is_kind executed in
      let reached : executed_log ≡ after_execution log progress.request_raw phase payload =
        logged ∙ ap (called (is_external phase) (execution phase payload)) asks in
      (
        t,
        record {
          request = ready.request;
          prepared_raw = ready.prepared_raw;
          prepared = ready.prepared;
          external = external;
          external_raw = external_evidence kind external;
          finalized_raw = finalized_raw;
          valid = valid;
          at_phase = at_phase;
          answered = answered;
          accepted = accepted;
          executes =
              subst
                (λ before.
                  IsExecution callbacks (is_external phase) before (execution phase payload) payload
                    external (external_evidence kind external))
                asks evidence;
          finalizes =
              subst
                (λ before.
                  callbacks.answer before (finalize phase ready.prepared_raw external)
                  ≡ some finalized_raw)
                reached finalizes;
          parsed = parsed;
          step =
              parse_finalized_transition-IsStep finalized_raw ready.request
                (external_evidence kind external) parsed;
          calls =
              ap (λ (r : Log N × Option (Progress N)). r.0) (ran1 ∙ ran2)
              ∙ finished
              ∙ ap
                  (λ before.
                    called callbacks.has_commit
                      (commit phase progress.request_raw ready.prepared_raw external finalized_raw
                        t)
                      (finalize phase ready.prepared_raw external ∷ before))
                  reached;
        },
        ap (λ (p : Progress N). p.request_raw) moved,
        ap (λ (p : Progress N). p.transitions) moved,
      )
