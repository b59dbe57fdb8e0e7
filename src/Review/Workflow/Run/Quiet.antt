-- ===== src/Review/Workflow/Run/Quiet.antt =====
-- The parts of a run in tools/ai_review/outer_workflow_state.py that execute nothing outside.
use amazon_similar_search.Prelude.{
  ◌≡◌, refl, ap, ◌∙◌, ℕ, Bool, true, false, Bool-cases, inl, inr, Option, none, some, Text, List,
  [], ◌∷◌, ◌++◌, if◌then◌else◌,
}
use amazon_similar_search.Review.Judge.Texts.{Digest}
use amazon_similar_search.Review.Workflow.Codec.{Codec}
use amazon_similar_search.Review.Workflow.Run.{
  Call, prepare, offline, broker, finalize, commit, Log, Callbacks, Exec, continue, ◌>>=◌, Progress,
  Ready, call, transition_committed, prepare_phase, finalize_phase,
}

abbrev pub is_execution : {N : Type 0} → Call N → Bool
is_execution (offline payload) = true
is_execution (broker payload) = true
is_execution _ = false

-- The executions of a log, the earliest first.
abbrev pub executed : {N : Type 0} → Log N → List (Call N)
executed [] = []
executed (made ∷ log) =
    let before = executed log in if is_execution made then before ++ made ∷ [] else before

module _ {N : Type 0} where
  -- No execution, whatever happens.
  abbrev pub IsQuiet : {A : Type 0} → Exec N A → Type 0
  IsQuiet m = (log : Log N) → executed (m log).0 ≡ executed log

  pub continue-quiet :
      {A B : Type 0} (reached : Log N × Option A) (f : A → Exec N B)
      → ((a : A) → IsQuiet (f a))
      → executed (continue reached f).0 ≡ executed reached.0
  continue-quiet (log, none) f later = refl
  continue-quiet (log, some a) f later = later a log

  pub bind-none :
      {A B : Type 0} (m : Exec N A) (f : A → Exec N B) (log : Log N)
      → (m log).1 ≡ none
      → (m >>= f) log ≡ ((m log).0, none)
  unfolding ◌>>=◌
  bind-none m f log e = ap (λ (o : Option _). continue ((m log).0, o) f) e

  pub bind-some :
      {A B : Type 0} (m : Exec N A) (f : A → Exec N B) (log : Log N) {a : A}
      → (m log).1 ≡ some a
      → (m >>= f) log ≡ f a (m log).0
  unfolding ◌>>=◌
  bind-some m f log e = ap (λ (o : Option _). continue ((m log).0, o) f) e

  pub bind-IsQuiet :
      {A B : Type 0} (m : Exec N A) (f : A → Exec N B)
      → IsQuiet m
      → ((a : A) → IsQuiet (f a))
      → IsQuiet (m >>= f)
  unfolding ◌>>=◌
  bind-IsQuiet m f quiet later log = continue-quiet (m log) f later ∙ quiet log

module _ {N : Type 0} ⦃C : Codec N⦄ ⦃D : Digest⦄ (callbacks : Callbacks N) where
  pub call-IsQuiet : (made : Call N) → is_execution made ≡ false → IsQuiet (call callbacks made)
  unfolding call
  call-IsQuiet made h log = rw h refl

  pub commit-IsQuiet :
      (made : Call N) → is_execution made ≡ false → IsQuiet (transition_committed callbacks made)
  unfolding transition_committed
  commit-IsQuiet made h log = elim (Bool-cases callbacks.has_commit) [
    | inl e ↦ rw (e, h) refl
    | inr e ↦ rw e refl
  ]

  pub prepare_phase-IsQuiet :
      (phase : Text) (progress : Progress N) → IsQuiet (prepare_phase callbacks phase progress)
  unfolding prepare_phase
  prepare_phase-IsQuiet phase progress =
      bind-IsQuiet _ _ (λ log. refl)
        λ request.
          bind-IsQuiet _ _ (λ log. refl)
            λ at_phase.
              bind-IsQuiet _ _ (λ log. refl)
                λ request_sha256.
                  bind-IsQuiet _ _ (λ log. refl)
                    λ new_request.
                      bind-IsQuiet _ _ (call-IsQuiet (prepare phase progress.request_raw) refl)
                        λ prepared_raw.
                          bind-IsQuiet _ _ (λ log. refl)
                            λ prepared.
                              bind-IsQuiet _ _ (λ log. refl)
                                λ action_sha256.
                                  bind-IsQuiet _ _ (λ log. refl) λ new_action log. refl

  pub finalize_phase-IsQuiet :
      (phase : Text) (progress : Progress N) (ready : Ready N) (external : List ℕ)
      → IsQuiet (finalize_phase callbacks phase progress ready external)
  unfolding finalize_phase
  finalize_phase-IsQuiet phase progress ready external =
      bind-IsQuiet _ _ (λ log. refl)
        λ sized.
          bind-IsQuiet _ _ (call-IsQuiet (finalize phase ready.prepared_raw external) refl) λ raw.
            bind-IsQuiet _ _ (λ log. refl)
              λ t.
                bind-IsQuiet _ _ (λ log. refl)
                  λ new.
                    bind-IsQuiet _ _
                      (commit-IsQuiet
                        (commit phase progress.request_raw ready.prepared_raw external raw t) refl)
                      λ committed log. refl
