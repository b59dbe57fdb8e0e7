-- ===== src/Review/Workflow/Run.antt =====
-- tools/ai_review/outer_workflow_state.py: the run of the seven phases. The coordinator and the two
-- executors are given; what they answer may depend on all calls before.
pub mod Advance
pub mod Traced
pub mod Quiet
pub mod Ordered
pub mod Executed
pub mod Linked
pub mod Replay
pub mod Constant
use amazon_similar_search.Prelude.{
  ℕ, ◌==◌, leb, Bool, true, false, Option, none, some, Text, codes, eq_text, member, length,
  is_empty, if◌then◌else◌, List, [], ◌∷◌, ◌++◌,
}
use amazon_similar_search.Json.{Value, Fields}
use amazon_similar_search.Review.Judge.Texts.{Digest}
use amazon_similar_search.Review.Workflow.Codec.{Codec, require, entry, is_text, within}
use amazon_similar_search.Review.Workflow.Request.{validate_phase_request_bytes, phase_order}
use amazon_similar_search.Review.Workflow.Prepared.{PreparedTransition, parse_prepared_transition}
use amazon_similar_search.Review.Workflow.Artifacts.{text_of}
use amazon_similar_search.Review.Workflow.Finalized.{
  FinalizedTransition, parse_finalized_transition,
}

-- A call of the run to the outside, with its arguments.
pub data Call (N : Type 0) : Type 0 where
  prepare : Text → List ℕ → Call N
  offline : List ℕ → Call N
  broker : List ℕ → Call N
  finalize : Text → List ℕ → List ℕ → Call N
  commit : Text → List ℕ → List ℕ → List ℕ → List ℕ → FinalizedTransition N → Call N

-- The calls so far, the latest first.
abbrev pub Log : Type 0 → Type 0
Log N = List (Call N)

-- The callbacks; none stands for an exception.
pub record Callbacks (N : Type 0) : Type 0 where
  pub answer : Log N → Call N → Option (List ℕ)  -- of prepare, of finalize and of the executors
  pub has_commit : Bool  -- `transition_committed is not None`
  pub committed : Log N → Call N → Bool  -- false where it raises

-- Calls that are logged, and exceptions: the calls that were made stay in the log.
abbrev pub Exec : Type 0 → Type 0 → Type 0
Exec N A = Log N → Log N × Option A

module _ {N : Type 0} where
  abbrev pub done : {A : Type 0} → A → Exec N A
  done a log = (log, some a)

  abbrev pub lift : {A : Type 0} → Option A → Exec N A
  lift result log = (log, result)

  -- After an exception nothing more is done.
  abbrev pub continue : {A B : Type 0} → Log N × Option A → (A → Exec N B) → Log N × Option B
  continue (log, none) f = (log, none)
  continue (log, some a) f = f a log

  infixl 5 ◌>>=◌ ◌>>◌
  unfoldable pub ◌>>=◌ : {A B : Type 0} → Exec N A → (A → Exec N B) → Exec N B
  (m >>= f) log = continue (m log) f

  abbrev pub ◌>>◌ : {B : Type 0} → Exec N (Unit {0}) → Exec N B → Exec N B
  m >> rest = m >>= λ _. rest

-- The variables of the loop.
pub record Progress (N : Type 0) : Type 0 where
  pub request_raw : List ℕ
  pub transitions : List (FinalizedTransition N)
  pub seen_requests : List Text
  pub seen_actions : List Text
  pub seen_finalized : List Text

-- What a phase has when its action is accepted.
pub record Ready (N : Type 0) : Type 0 where
  pub request : Fields N
  pub request_sha256 : Text
  pub prepared_raw : List ℕ
  pub prepared : PreparedTransition N
  pub action_sha256 : Text

abbrev pub is_new : Text → List Text → Bool
is_new digest seen = if member digest seen then false else true

abbrev pub next_raw : Option (List ℕ) → List ℕ → List ℕ
next_raw none raw = raw
next_raw (some next_request) raw = next_request

module _ {N : Type 0} where
  -- `maximum`
  abbrev pub external_limit : Value N → ℕ
  external_limit kind = if is_text (codes "none") kind then 3_000_000 else 6_000_000

  -- `external if kind != "none" else None`
  abbrev pub external_evidence : Value N → List ℕ → Option (List ℕ)
  external_evidence kind external = if is_text (codes "none") kind then none else some external

abbrev pub started : {N : Type 0} → List ℕ → Progress N
started initial_request = record {
  request_raw = initial_request;
  transitions = [];
  seen_requests = [];
  seen_actions = [];
  seen_finalized = [];
}

module _ {N : Type 0} ⦃C : Codec N⦄ ⦃D : Digest⦄ (callbacks : Callbacks N) where
  unfoldable pub call : Call N → Exec N (List ℕ)
  call made log = (made ∷ log, callbacks.answer log made)

  unfoldable pub transition_committed : Call N → Exec N (Unit {0})
  transition_committed made log =
      if callbacks.has_commit
      then (made ∷ log, require (callbacks.committed log made))
      else (log, some tt)

  -- The body of the loop up to the check that the action is new.
  unfoldable pub prepare_phase : Text → Progress N → Exec N (Ready N)
  unfolding call
  prepare_phase expected_phase progress = do
    request ← lift (validate_phase_request_bytes progress.request_raw)
    lift (require (is_text expected_phase (entry (codes "phase") request)))
    request_sha256 ← lift (text_of (entry (codes "request_sha256") request))
    lift (require (is_new request_sha256 progress.seen_requests))
    prepared_raw ← call (prepare expected_phase progress.request_raw)
    prepared ← lift (parse_prepared_transition prepared_raw request)
    action_sha256 ← lift (text_of (entry (codes "action_sha256") prepared.action))
    lift (require (is_new action_sha256 progress.seen_actions))
    done (record {
      request = request;
      request_sha256 = request_sha256;
      prepared_raw = prepared_raw;
      prepared = prepared;
      action_sha256 = action_sha256;
    })

  -- `external`
  unfoldable pub execute : Value N → List ℕ → Exec N (List ℕ)
  unfolding call
  execute kind payload =
      if is_text (codes "offline") kind
      then call (offline payload)
      else if is_text (codes "broker") kind
      then call (broker payload)
      else done payload

  -- The body of the loop from the check of `external` on.
  unfoldable pub finalize_phase : Text → Progress N → Ready N → List ℕ → Exec N (Progress N)
  unfolding call transition_committed
  finalize_phase expected_phase progress ready external =
      let kind = entry (codes "external_kind") ready.prepared.action in
      do
        lift (require (within (external_limit kind) external))
        finalized_raw ← call (finalize expected_phase ready.prepared_raw external)
        finalized ← lift (
            parse_finalized_transition finalized_raw ready.request
              (external_evidence kind external))
        lift (require (is_new finalized.finalized_sha256 progress.seen_finalized))
        transition_committed (
            commit expected_phase progress.request_raw ready.prepared_raw external finalized_raw
              finalized)
        done (record {
          request_raw = next_raw finalized.next_request progress.request_raw;
          transitions = progress.transitions ++ finalized ∷ [];
          seen_requests = ready.request_sha256 ∷ progress.seen_requests;
          seen_actions = ready.action_sha256 ∷ progress.seen_actions;
          seen_finalized = finalized.finalized_sha256 ∷ progress.seen_finalized;
        })

  -- The body of the loop.
  unfoldable pub run_phase : Text → Progress N → Exec N (Progress N)
  unfolding prepare_phase execute finalize_phase
  run_phase expected_phase progress = do
    ready ← prepare_phase expected_phase progress
    external ← execute (entry (codes "external_kind") ready.prepared.action) ready.prepared.payload
    finalize_phase expected_phase progress ready external

  unfoldable pub run_phases : List Text → Progress N → Exec N (Progress N)
  unfolding run_phase
  run_phases [] progress = done progress
  run_phases (phase ∷ phases) progress = do
    later ← run_phase phase progress
    run_phases phases later

  unfoldable pub run_fixed_workflow : List ℕ → Exec N (List (FinalizedTransition N))
  unfolding run_phases
  run_fixed_workflow initial_request = do
    final ← run_phases phase_order (started initial_request)
    done final.transitions
