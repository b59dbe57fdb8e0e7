-- ===== src/Review/Workflow/Examples/Coordinator.antt =====
-- A coordinator for the examples, and the variables and the calls of a run with it.
use amazon_similar_search.Prelude.{
  ℕ, zero, suc, ◌+◌, ◌==◌, true, Option, none, some, if◌then◌else◌, List, [], ◌∷◌, ◌++◌,
}
use amazon_similar_search.Review.Workflow.Request.{request_domain}
use amazon_similar_search.Review.Workflow.Prepared.{action_domain}
use amazon_similar_search.Review.Workflow.Finalized.{FinalizedTransition, finalized_domain}
use amazon_similar_search.Review.Workflow.Run.{
  Call, prepare, offline, broker, finalize, commit, Log, Callbacks, Progress, started,
}
use amazon_similar_search.Review.Workflow.Examples.Manifests.{document, phase, external, toy_sha256}
use amazon_similar_search.Review.Workflow.Examples.Toy.{payload, result}

abbrev renamed : ℕ → List ℕ → Option (List ℕ)
renamed fields (_ ∷ rest) = some (fields ∷ rest)
renamed fields [] = none

abbrev answer : Call ℕ → Option (List ℕ)
answer (prepare phase raw) = renamed 4 raw
answer (offline sent) = some (3 ∷ sent)
answer (broker sent) = some (5 ∷ sent)
answer (finalize phase raw external) = renamed 5 raw
answer (commit phase request prepared external finalized t) = none

abbrev pub coordinator : Callbacks ℕ
coordinator = record {
  answer = λ log made. answer made;
  has_commit = true;
  committed = λ log made. true;
}

abbrev transition : ℕ → FinalizedTransition ℕ
transition n = record {
  result = result n;
  coordinator_output = document 10 n;
  next_request = if n == 7 then none else some (document 14 (n + 1));
  finalized_sha256 = toy_sha256 (finalized_domain ++ document 4 n);
}

-- The variables of the loop after n phases.
abbrev pub after : ℕ → Progress ℕ
after zero = started (document 14 1)
after (suc n) =
    let before = after n in
    record {
      request_raw = if n == 6 then document 14 7 else document 14 (n + 2);
      transitions = before.transitions ++ transition (n + 1) ∷ [];
      seen_requests = toy_sha256 (request_domain ++ document 13 (n + 1)) ∷ before.seen_requests;
      seen_actions = toy_sha256 (action_domain ++ document 7 (n + 1)) ∷ before.seen_actions;
      seen_finalized = toy_sha256 (finalized_domain ++ document 4 (n + 1)) ∷ before.seen_finalized;
    }

abbrev evidence : ℕ → List ℕ
evidence n = if external n then n ∷ payload else payload

abbrev executions : ℕ → List (Call ℕ)
executions n = if n == 3 then offline payload ∷ [] else if n == 5 then broker payload ∷ [] else []

-- The calls of n phases.
abbrev pub calls : ℕ → Log ℕ
calls zero = []
calls (suc n) =
    commit (phase (n + 1)) (document 14 (n + 1)) (document 4 (n + 1)) (evidence (n + 1))
      (document 5 (n + 1)) (transition (n + 1))
    ∷ finalize (phase (n + 1)) (document 4 (n + 1)) (evidence (n + 1))
    ∷ (executions (n + 1) ++ prepare (phase (n + 1)) (document 14 (n + 1)) ∷ calls n)
