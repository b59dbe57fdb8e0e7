-- ===== src/Review/Workflow/Run/Executed.antt =====
-- What a run in tools/ai_review/outer_workflow_state.py executes outside, whether it returns or raises.
use amazon_similar_search.Prelude.{
  append-nil, ◌≡◌, refl, ap, sym, ◌∙◌, ℕ, Option-cases, ◌⊎◌, inl, inr, Option, none, some,
  none-some, Text, codes, List, [], ◌∷◌, ◌++◌, subst,
}
use amazon_similar_search.Json.{Value}
use amazon_similar_search.Review.Judge.Texts.{Digest}
use amazon_similar_search.Review.Workflow.Codec.{Codec, entry}
use amazon_similar_search.Review.Workflow.Request.{phase_order}
use amazon_similar_search.Review.Workflow.Prepared.{external_kind}
use amazon_similar_search.Review.Workflow.Kind.{parse_prepared_transition-kind}
use amazon_similar_search.Review.Workflow.Run.{
  Call, Log, Callbacks, Exec, done, ◌>>=◌, Progress, Ready, prepare_phase, execute, finalize_phase,
  run_phase, run_phases, started, run_fixed_workflow,
}
use amazon_similar_search.Review.Workflow.Run.Advance.{IsReady, prepare_phase-IsReady}
use amazon_similar_search.Review.Workflow.Run.Quiet.{
  executed, continue-quiet, bind-none, bind-some, prepare_phase-IsQuiet, finalize_phase-IsQuiet,
}
use amazon_similar_search.Review.Workflow.Run.Ordered.{
  AreOrdered, Executes, Executes-AreOrdered, execute-Executes, append-append,
}

module _ {N : Type 0} ⦃C : Codec N⦄ ⦃D : Digest⦄ (callbacks : Callbacks N) where
  run_phase-none :
      (phase : Text) (progress : Progress N) (log : Log N)
      → (prepare_phase callbacks phase progress log).1 ≡ none
      → run_phase callbacks phase progress log
        ≡ ((prepare_phase callbacks phase progress log).0, none)
  unfolding run_phase
  run_phase-none phase progress log e = bind-none (prepare_phase callbacks phase progress) _ log e

  -- What follows the preparation.
  abbrev conclude : Text → Progress N → Ready N → Exec N (Progress N)
  conclude phase progress ready = do
    external ←
        execute callbacks (entry (codes "external_kind") ready.prepared.action)
          ready.prepared.payload
    finalize_phase callbacks phase progress ready external

  run_phase-some :
      (phase : Text) (progress : Progress N) (log : Log N) {ready : Ready N}
      → (prepare_phase callbacks phase progress log).1 ≡ some ready
      → run_phase callbacks phase progress log
        ≡ conclude phase progress ready (prepare_phase callbacks phase progress log).0
  unfolding run_phase
  run_phase-some phase progress log e =
      bind-some (prepare_phase callbacks phase progress) (conclude phase progress) log e

  conclude-executed :
      (phase : Text) (progress : Progress N) (ready : Ready N) (log : Log N)
      → IsReady phase progress ready
      → (calls : List (Call N)) × (executed (conclude phase progress ready log).0
          ≡ executed log ++ calls)
        × Executes {N = N} phase calls
  unfolding ◌>>=◌
  conclude-executed phase progress ready log (valid, at_phase, _, _, parsed, _) =
      let kind = entry (codes "external_kind") ready.prepared.action in
      let (calls, added, executes) =
        execute-Executes callbacks phase ready.prepared.payload log
          (ready.request, ready.prepared_raw, ready.prepared, at_phase, parsed, refl) in
      let kind_is : kind ≡ Value.str (external_kind {N = N} (Value.str phase)) =
        parse_prepared_transition-kind ready.prepared_raw ready.request parsed
        ∙ ap (λ (v : Value N). Value.str (external_kind v)) at_phase in
      (
        calls,
        continue-quiet (execute callbacks kind ready.prepared.payload log)
              (finalize_phase callbacks phase progress ready)
              (finalize_phase-IsQuiet callbacks phase progress ready)
            ∙ ap (λ v. executed (execute callbacks v ready.prepared.payload log).0) kind_is
            ∙ added,
        executes,
      )

  -- A phase either executes nothing and raises, or executes what is due.
  run_phase-executed :
      (phase : Text) (progress : Progress N) (log : Log N)
      → (calls : List (Call N)) × (executed (run_phase callbacks phase progress log).0
          ≡ executed log ++ calls)
        × (((calls ≡ []) × ((run_phase callbacks phase progress log).1 ≡ none))
            ⊎ Executes {N = N} phase calls)
  run_phase-executed phase progress log =
      let asked = (prepare_phase callbacks phase progress log).0 in
      elim (Option-cases (prepare_phase callbacks phase progress log).1) [
        | inl e ↦
            let stopped = run_phase-none phase progress log e in
            (
              [],
              ap (λ (r : Log N × Option (Progress N)). executed r.0) stopped
                  ∙ prepare_phase-IsQuiet callbacks phase progress log
                  ∙ append-nil (executed log),
              inl (refl, ap (λ (r : Log N × Option (Progress N)). r.1) stopped),
            )
        | inr (ready, e) ↦
            let (calls, added, executes) =
              conclude-executed phase progress ready asked
                (prepare_phase-IsReady callbacks phase progress log e) in
            (
              calls,
              ap (λ (r : Log N × Option (Progress N)). executed r.0)
                    (run_phase-some phase progress log e)
                  ∙ added
                  ∙ ap (λ (before : List (Call N)). before ++ calls)
                      (prepare_phase-IsQuiet callbacks phase progress log),
              inr executes,
            )
      ]

  run_phases-none :
      (phase : Text) (phases : List Text) (progress : Progress N) (log : Log N)
      → (run_phase callbacks phase progress log).1 ≡ none
      → run_phases callbacks (phase ∷ phases) progress log
        ≡ ((run_phase callbacks phase progress log).0, none)
  unfolding run_phases
  run_phases-none phase phases progress log e =
      bind-none (run_phase callbacks phase progress) (run_phases callbacks phases) log e

  run_phases-some :
      (phase : Text) (phases : List Text) (progress : Progress N) (log : Log N) {later : Progress N}
      → (run_phase callbacks phase progress log).1 ≡ some later
      → run_phases callbacks (phase ∷ phases) progress log
        ≡ run_phases callbacks phases later (run_phase callbacks phase progress log).0
  unfolding run_phases
  run_phases-some phase phases progress log e =
      bind-some (run_phase callbacks phase progress) (run_phases callbacks phases) log e

  run_phases-executed :
      (phases : List Text) (progress : Progress N) (log : Log N)
      → (calls : List (Call N)) × (executed (run_phases callbacks phases progress log).0
          ≡ executed log ++ calls)
        × AreOrdered {N = N} phases calls
  run_phases-executed [] progress log = unfold run_phases in ([], append-nil (executed log), tt)
  run_phases-executed (phase ∷ phases) progress log =
      let (calls, added, due) = run_phase-executed phase progress log in
      let ran = (run_phase callbacks phase progress log).0 in
      elim (Option-cases (run_phase callbacks phase progress log).1) [
        | inl e ↦ (
          calls,
          ap (λ (r : Log N × Option (Progress N)). executed r.0)
                (run_phases-none phase phases progress log e)
              ∙ added,
          elim due [
            | inl (empty, _) ↦ rw empty tt
            | inr executes ↦
                subst (AreOrdered {N = N} (phase ∷ phases)) (sym (append-nil calls))
                  (Executes-AreOrdered phase phases calls [] executes tt)
          ],
        )
        | inr (later, e) ↦
            let (rest, appended, ordered) = run_phases-executed phases later ran in
            (
              calls ++ rest,
              ap (λ (r : Log N × Option (Progress N)). executed r.0)
                    (run_phases-some phase phases progress log e)
                  ∙ appended
                  ∙ ap (λ (before : List (Call N)). before ++ rest) added
                  ∙ append-append (executed log) calls rest,
              elim due [
                | inl (_, stopped) ↦ absurd (none-some (sym stopped ∙ e))
                | inr executes ↦ Executes-AreOrdered phase phases calls rest executes ordered
              ],
            )
      ]

  -- Whether a run returns or raises: its executions are one of the offline phase, and then one of the
  -- broker's phase, or a first part of these; each has the payload of an action that was accepted for a
  -- request of that phase.
  pub run_fixed_workflow-AreOrdered :
      (initial_request : List ℕ)
      → AreOrdered {N = N} phase_order
          (executed (run_fixed_workflow callbacks initial_request []).0)
  unfolding run_fixed_workflow ◌>>=◌
  run_fixed_workflow-AreOrdered initial_request =
      let (calls, added, ordered) = run_phases-executed phase_order (started initial_request) [] in
      subst (AreOrdered {N = N} phase_order)
        (sym (
          continue-quiet (run_phases callbacks phase_order (started initial_request) [])
            (λ final. done final.transitions) (λ final log. refl)
          ∙ added))
        ordered
