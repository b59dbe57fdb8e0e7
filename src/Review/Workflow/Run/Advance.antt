-- ===== src/Review/Workflow/Run/Advance.antt =====
-- One phase of a run in tools/ai_review/outer_workflow_state.py that succeeds.
use amazon_similar_search.Prelude.{
  ◌≡◌, refl, sym, ap, ◌∙◌, inl, inr, Bool-cases, ℕ, Bool, true, Option, none, some, some_inj, Text,
  codes, List, [], ◌∷◌, ◌++◌, subst, arith,
}
use amazon_similar_search.Json.{Value}
use amazon_similar_search.Review.Judge.Texts.{Digest}
use amazon_similar_search.Review.Workflow.Codec.{Codec, require, entry, is_text, within}
use amazon_similar_search.Review.Workflow.Request.{validate_phase_request_bytes}
use amazon_similar_search.Review.Workflow.Prepared.{parse_prepared_transition}
use amazon_similar_search.Review.Workflow.Artifacts.{text_of}
use amazon_similar_search.Review.Workflow.Finalized.{
  FinalizedTransition, parse_finalized_transition,
}
use amazon_similar_search.Review.Workflow.Facts.{require-true, is_text_sound, text_of-some}
use amazon_similar_search.Review.Workflow.Run.Quiet.{bind-some}
use amazon_similar_search.Review.Workflow.Chain.{called, IsStep, parse_finalized_transition-IsStep}
use amazon_similar_search.Review.Workflow.Run.{
  Call, prepare, finalize, commit, Log, Callbacks, Exec, lift, continue, ◌>>=◌, ◌>>◌, Progress,
  Ready, is_new, next_raw, call, transition_committed, prepare_phase, execute, external_limit,
  external_evidence, finalize_phase, run_phase,
}

continue-some :
    {N A B : Type 0} (reached : Log N × Option A) (f : A → Exec N B) {b : B}
    → (continue reached f).1 ≡ some b
    → (a : A) × (reached.1 ≡ some a) × ((f a reached.0).1 ≡ some b)
continue-some (log, none) f h = ground arith
continue-some (log, some a) f h = (a, refl, h)

-- A sequence that succeeds.
pub exec_some :
    {N A B : Type 0} (m : Exec N A) (f : A → Exec N B) (log : Log N) {b : B}
    → ((m >>= f) log).1 ≡ some b
    → (a : A) × ((m log).1 ≡ some a) × ((f a (m log).0).1 ≡ some b)
unfolding ◌>>=◌
exec_some m f log h = continue-some (m log) f h

-- A sequence that succeeds, with the run that is left of it.
pub exec_traced :
    {N A B : Type 0} (m : Exec N A) (f : A → Exec N B) (log : Log N) {b : B}
    → ((m >>= f) log).1 ≡ some b
    → (a : A) × ((m log).1 ≡ some a)
      × ((f a (m log).0).1 ≡ some b)
      × ((m >>= f) log ≡ f a (m log).0)
exec_traced m f log h =
    let (a, e, later) = exec_some m f log h in (a, e, later, bind-some m f log e)

pub lift-some :
    {N A B : Type 0} (o : Option A) (f : A → Exec N B) (log : Log N) {b : B}
    → ((lift o >>= f) log).1 ≡ some b
    → (a : A) × (o ≡ some a) × ((f a log).1 ≡ some b)
lift-some o f log h = exec_some (lift o) f log h

pub lift-require :
    {N B : Type 0} (c : Bool) (rest : Exec N B) (log : Log N) {b : B}
    → ((lift (require c) >> rest) log).1 ≡ some b
    → (c ≡ true) × ((rest log).1 ≡ some b)
lift-require c rest log h =
    let (_, e, h1) = lift-some (require c) (λ _. rest) log h in (require-true c e, h1)

module _ {N : Type 0} ⦃C : Codec N⦄ ⦃D : Digest⦄ where
  -- What a prepared phase has passed.
  abbrev pub IsReady : Text → Progress N → Ready N → Type 0
  IsReady phase progress ready =
      (validate_phase_request_bytes progress.request_raw ≡ some ready.request)
      × (entry (codes "phase") ready.request ≡ Value.str phase)
      × (entry (codes "request_sha256") ready.request ≡ Value.str ready.request_sha256)
      × (is_new ready.request_sha256 progress.seen_requests ≡ true)
      × (parse_prepared_transition ready.prepared_raw ready.request ≡ some ready.prepared)
      × (is_new ready.action_sha256 progress.seen_actions ≡ true)

  -- The variables after a phase.
  abbrev pub moved_on : Progress N → Ready N → FinalizedTransition N → Progress N
  moved_on progress ready t = record {
    request_raw = next_raw t.next_request progress.request_raw;
    transitions = progress.transitions ++ t ∷ [];
    seen_requests = ready.request_sha256 ∷ progress.seen_requests;
    seen_actions = ready.action_sha256 ∷ progress.seen_actions;
    seen_finalized = t.finalized_sha256 ∷ progress.seen_finalized;
  }

  -- A phase has moved the run on: its transition is the last one, and its digests are seen.
  abbrev pub IsAdvanced : Text → Progress N → Progress N → Type 0
  IsAdvanced phase progress later =
      (ready : Ready N) × (external : List ℕ) × (t : FinalizedTransition N) × IsReady phase progress
        ready
      × IsStep ready.request
          (external_evidence (entry (codes "external_kind") ready.prepared.action) external) t
      × (is_new t.finalized_sha256 progress.seen_finalized ≡ true)
      × (later ≡ moved_on progress ready t)

module _ {N : Type 0} ⦃C : Codec N⦄ ⦃D : Digest⦄ (callbacks : Callbacks N) where
  pub prepare_phase-IsReady :
      (phase : Text) (progress : Progress N) (log : Log N) {ready : Ready N}
      → (prepare_phase callbacks phase progress log).1 ≡ some ready
      → IsReady phase progress ready
  unfolding prepare_phase
  prepare_phase-IsReady phase progress log h =
      let (request, valid, h1) =
        lift-some (validate_phase_request_bytes progress.request_raw) _ log h in
      let (at_phase, h2) = lift-require (is_text phase (entry (codes "phase") request)) _ log h1 in
      let (request_sha256, named, h3) =
        lift-some (text_of (entry (codes "request_sha256") request)) _ log h2 in
      let (new_request, h4) =
        lift-require (is_new request_sha256 progress.seen_requests) _ log h3 in
      let (prepared_raw, _, h5) =
        exec_some (call callbacks (prepare phase progress.request_raw)) _ log h4 in
      let asked = (call callbacks (prepare phase progress.request_raw) log).0 in
      let (prepared, parsed, h6) =
        lift-some (parse_prepared_transition prepared_raw request) _ asked h5 in
      let (action_sha256, _, h7) =
        lift-some (text_of (entry (codes "action_sha256") prepared.action)) _ asked h6 in
      let (new_action, h8) = lift-require (is_new action_sha256 progress.seen_actions) _ asked h7 in
      subst (IsReady phase progress) (some_inj h8) (
        valid,
        is_text_sound phase (entry (codes "phase") request) at_phase,
        text_of-some (entry (codes "request_sha256") request) named,
        new_request,
        parsed,
        new_action,
      )

  -- What a finalized phase has passed, and the calls that it made.
  abbrev pub IsFinalized :
      Text → Progress N → Ready N → List ℕ → Log N → Progress N → Log N → Type 0
  IsFinalized phase progress ready external log later later_log =
      let external_raw =
        external_evidence (entry (codes "external_kind") ready.prepared.action) external in
      (finalized_raw : List ℕ) × (t : FinalizedTransition N) × (callbacks.answer log
          (finalize phase ready.prepared_raw external)
        ≡ some finalized_raw)
      × (parse_finalized_transition finalized_raw ready.request external_raw ≡ some t)
      × (is_new t.finalized_sha256 progress.seen_finalized ≡ true)
      × (later ≡ moved_on progress ready t)
      × (later_log
          ≡ called callbacks.has_commit
              (commit phase progress.request_raw ready.prepared_raw external finalized_raw t)
              (finalize phase ready.prepared_raw external ∷ log))

  transition_committed-called :
      (made : Call N) (log : Log N)
      → (transition_committed callbacks made log).0 ≡ called callbacks.has_commit made log
  unfolding transition_committed
  transition_committed-called made log = elim (Bool-cases callbacks.has_commit) [
    | inl e ↦ rw e refl
    | inr e ↦ rw e refl
  ]

  pub finalize_phase-IsFinalized :
      (phase : Text) (progress : Progress N) (ready : Ready N) (external : List ℕ) (log : Log N)
      {later : Progress N}
      → (finalize_phase callbacks phase progress ready external log).1 ≡ some later
      → IsFinalized phase progress ready external log later
          (finalize_phase callbacks phase progress ready external log).0
  unfolding finalize_phase call
  finalize_phase-IsFinalized phase progress ready external log h =
      let kind = entry (codes "external_kind") ready.prepared.action in
      let (_, _, h1, ran1) =
        exec_traced (lift (require (within (external_limit kind) external))) _ log h in
      let (finalized_raw, answered, h2, ran2) =
        exec_traced (call callbacks (finalize phase ready.prepared_raw external)) _ log h1 in
      let asked = (call callbacks (finalize phase ready.prepared_raw external) log).0 in
      let (t, parsed, h3, ran3) =
        exec_traced
          (lift (
            parse_finalized_transition finalized_raw ready.request
              (external_evidence kind external)))
          _ asked h2 in
      let (_, fresh, h4, ran4) =
        exec_traced (lift (require (is_new t.finalized_sha256 progress.seen_finalized))) _ asked
          h3 in
      let committing =
        commit phase progress.request_raw ready.prepared_raw external finalized_raw t in
      let (_, _, h5, ran5) = exec_traced (transition_committed callbacks committing) _ asked h4 in
      (
        finalized_raw,
        t,
        answered,
        parsed,
        require-true (is_new t.finalized_sha256 progress.seen_finalized) fresh,
        sym (some_inj h5),
        ap (λ (r : Log N × Option (Progress N)). r.0) (ran1 ∙ ran2 ∙ ran3 ∙ ran4 ∙ ran5)
            ∙ transition_committed-called committing asked,
      )

  finalize_phase-IsAdvanced :
      (phase : Text) (progress : Progress N) (ready : Ready N) (external : List ℕ) (log : Log N)
      {later : Progress N}
      → IsReady phase progress ready
      → (finalize_phase callbacks phase progress ready external log).1 ≡ some later
      → IsAdvanced phase progress later
  finalize_phase-IsAdvanced phase progress ready external log is_ready h =
      let (finalized_raw, t, _, parsed, fresh, moved, _) =
        finalize_phase-IsFinalized phase progress ready external log h in
      (
        ready,
        external,
        t,
        is_ready,
        parse_finalized_transition-IsStep finalized_raw ready.request
            (external_evidence (entry (codes "external_kind") ready.prepared.action) external)
            parsed,
        fresh,
        moved,
      )

  pub run_phase-IsAdvanced :
      (phase : Text) (progress : Progress N) (log : Log N) {later : Progress N}
      → (run_phase callbacks phase progress log).1 ≡ some later
      → IsAdvanced phase progress later
  unfolding run_phase
  run_phase-IsAdvanced phase progress log h =
      let (ready, prepared, h1) = exec_some (prepare_phase callbacks phase progress) _ log h in
      let kind = entry (codes "external_kind") ready.prepared.action in
      let asked = (prepare_phase callbacks phase progress log).0 in
      let (external, _, h2) =
        exec_some (execute callbacks kind ready.prepared.payload) _ asked h1 in
      finalize_phase-IsAdvanced phase progress ready external
        (execute callbacks kind ready.prepared.payload asked).0
        (prepare_phase-IsReady phase progress log prepared) h2
