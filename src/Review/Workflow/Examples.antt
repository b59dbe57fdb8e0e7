-- ===== src/Review/Workflow/Examples.antt =====
-- Runs of the seven phases of tools/ai_review/outer_workflow_state.py.
mod Manifests
mod Toy
mod Coordinator
mod Steps
use amazon_similar_search.Prelude.{
  ◌≡◌, ap, ℕ, Bool, true, false, Option, none, some, List, [], ◌∷◌, length, arith, All,
}
use amazon_similar_search.Json.{Fields, end}
use amazon_similar_search.Review.Workflow.Request.{validate_phase_request_bytes, phase_order}
use amazon_similar_search.Review.Workflow.Finalized.{FinalizedTransition}
use amazon_similar_search.Review.Workflow.Chain.{Chain}
use amazon_similar_search.Review.Workflow.Run.{
  run_fixed_workflow, run_phases, started, Callbacks, Progress, Log,
}
use amazon_similar_search.Review.Workflow.Run.Linked.{run_fixed_workflow-Chain}
use amazon_similar_search.Review.Workflow.Run.Replay.{run_phases-HasNoReplay, HasNoReplay, HasSeen}
use amazon_similar_search.Review.Workflow.Run.Constant.{run_fixed_workflow-Carries, Carries}
use amazon_similar_search.Review.Workflow.Run.Quiet.{executed}
use amazon_similar_search.Review.Workflow.Run.Ordered.{AreOrdered}
use amazon_similar_search.Review.Workflow.Run.Executed.{run_fixed_workflow-AreOrdered}
use amazon_similar_search.Review.Workflow.Examples.Manifests.{document}
use amazon_similar_search.Review.Workflow.Examples.Toy.{toy_codec, toy_digest, request}
use amazon_similar_search.Review.Workflow.Examples.Coordinator.{coordinator, after}
use amazon_similar_search.Review.Workflow.Examples.Steps.{phases_run, workflow_run, first_valid}

has_finished : (run_phases coordinator phase_order (started (document 14 1)) []).1 ≡ some (after 7)
has_finished = ap (λ (r : Log ℕ × Option (Progress ℕ)). r.1) phases_run

run_fixed_workflow-Chain_example :
    Chain coordinator []
      (document 14 1)
      phase_order
      (after 7).transitions
      (run_fixed_workflow coordinator (document 14 1) []).0
run_fixed_workflow-Chain_example =
    run_fixed_workflow-Chain coordinator (document 14 1) [] (after 7).transitions workflow_run

run_fixed_workflow-Carries_example : All (Carries (request 1)) (after 7).transitions
run_fixed_workflow-Carries_example =
    run_fixed_workflow-Carries coordinator (document 14 1) [] (request 1) (after 7).transitions
      first_valid workflow_run

run_phases-HasNoReplay_example :
    HasNoReplay (after 7) × HasSeen 7 (started (document 14 1)) (after 7)
run_phases-HasNoReplay_example =
    run_phases-HasNoReplay coordinator phase_order (started (document 14 1)) (after 7) []
      (tt, tt, tt) has_finished

run_fixed_workflow-AreOrdered_example :
    AreOrdered phase_order (executed (run_fixed_workflow coordinator (document 14 1) []).0)
run_fixed_workflow-AreOrdered_example = run_fixed_workflow-AreOrdered coordinator (document 14 1)
