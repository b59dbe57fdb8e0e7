-- ===== src/Review/Workflow/Run/Linked.antt =====
-- A run in tools/ai_review/outer_workflow_state.py that succeeds: its transitions are a chain.
use amazon_similar_search.Prelude.{
  append-nil, append_snoc, ◌≡◌, ap, sym, ◌∙◌, ℕ, Option, some, some_inj, Text, List, [], ◌∷◌, ◌++◌,
  subst,
}
use amazon_similar_search.Review.Judge.Texts.{Digest}
use amazon_similar_search.Review.Workflow.Codec.{Codec}
use amazon_similar_search.Review.Workflow.Request.{phase_order}
use amazon_similar_search.Review.Workflow.Finalized.{FinalizedTransition}
use amazon_similar_search.Review.Workflow.Chain.{Chain, ended, linked}
use amazon_similar_search.Review.Workflow.Run.{
  Log, Callbacks, Progress, run_phase, run_phases, started, run_fixed_workflow,
}
use amazon_similar_search.Review.Workflow.Run.Advance.{exec_traced}
use amazon_similar_search.Review.Workflow.Run.Traced.{run_phase-IsPhase}

module _ {N : Type 0} ⦃C : Codec N⦄ ⦃D : Digest⦄ (callbacks : Callbacks N) where
  pub run_phases-Chain :
      (phases : List Text) (progress : Progress N) (log : Log N) {final : Progress N}
      → (run_phases callbacks phases progress log).1 ≡ some final
      → (ts : List (FinalizedTransition N)) × (final.transitions ≡ progress.transitions ++ ts)
        × Chain callbacks log progress.request_raw phases ts
            (run_phases callbacks phases progress log).0
  unfolding run_phases
  run_phases-Chain [] progress log h = (
    [],
    ap (λ (p : Progress N). p.transitions) (sym (some_inj h)) ∙ append-nil progress.transitions,
    ended,
  )
  run_phases-Chain (phase ∷ phases) progress log h =
      let (later, advanced, h1, ran) =
        exec_traced (run_phase callbacks phase progress) (run_phases callbacks phases) log h in
      let (t, is_phase, next, transitions) =
        run_phase-IsPhase callbacks phase progress log advanced in
      let after = (run_phase callbacks phase progress log).0 in
      let (ts, appended, chain) = run_phases-Chain phases later after h1 in
      let ends = ap (λ (r : Log N × Option (Progress N)). r.0) ran in
      (
        t ∷ ts,
        appended ∙ ap (λ made. made ++ ts) transitions ∙ append_snoc progress.transitions t ts,
        linked is_phase (
            subst
              (λ raw.
                Chain callbacks after raw phases ts
                  (run_phases callbacks (phase ∷ phases) progress log).0)
              next (subst (Chain callbacks after later.request_raw phases ts) (sym ends) chain)),
      )

  -- The transitions of a run that returns are a chain through the seven phases in their order. In each
  -- phase the coordinator's action is accepted for the phase's valid request; the executor of the phase,
  -- where it has one, is called with the action's payload; and the result that is accepted names the
  -- request, the digest of what that executor answered (or null where the phase has none) and the
  -- coordinator's output. The request after it is bound to that result, and the calls of the phases
  -- are all the calls of the run.
  pub run_fixed_workflow-Chain :
      (initial_request : List ℕ) (log : Log N) (ts : List (FinalizedTransition N))
      → (run_fixed_workflow callbacks initial_request log).1 ≡ some ts
      → Chain callbacks log initial_request phase_order ts
          (run_fixed_workflow callbacks initial_request log).0
  unfolding run_fixed_workflow
  run_fixed_workflow-Chain initial_request log ts h =
      let run = run_phases callbacks phase_order (started initial_request) in
      let (final, ran, h1, whole) = exec_traced run _ log h in
      let (made, appended, chain) =
        run_phases-Chain phase_order (started initial_request) log ran in
      let ends = ap (λ (r : Log N × Option (List (FinalizedTransition N))). r.0) whole in
      subst (Chain callbacks log initial_request phase_order ts) (sym ends) (
        subst (λ all. Chain callbacks log initial_request phase_order all (run log).0)
          (sym appended ∙ some_inj h1) chain)
