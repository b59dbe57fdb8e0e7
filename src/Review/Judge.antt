-- ===== src/Review/Judge.antt =====
-- tools/ai_review/judge.py: the verdict over the evidence of a review.
pub mod Texts
pub mod Evidence
pub mod Empty
pub mod Reasons
pub mod Accepts
pub mod Verdicts
pub mod Examples
use amazon_similar_search.Prelude.{
  ℕ, ◌+◌, ◌==◌, ltb, Bool, true, false, not, ◌&&◌, ◌||◌, Option, none, some, Text, codes, eq_text,
  member, any, keep, length, if◌then◌else◌, List, [], ◌∷◌, ◌++◌, map,
}
use amazon_similar_search.Dedupe.{first_of_each}
use amazon_similar_search.Review.Models.{
  SchemaVersion, Severity, Role, Decision, Status, AcceptanceTest, TaskSpec, PolicyReport, Finding,
  ReviewReport, GateResult, TddEvidence, Verdict,
}
use amazon_similar_search.Review.Judge.Texts.{
  say, distinct, same, same_patch, eq_texts, join_comma, sorted_set, without, repeated, Digest,
}
use amazon_similar_search.Review.Judge.Evidence.{find_acceptance, policy_reasons, tdd_reasons}

abbrev pub acceptance_ids : TaskSpec → List Text
acceptance_ids task = map (λ t. t.id) task.acceptance_tests

abbrev pub gate_ids : List GateResult → List Text
gate_ids gates = map (λ g. g.acceptance_test_id) gates

abbrev pub list_reason : Text → List Text → List Text
list_reason message [] = []
list_reason message (n ∷ names) = (message ++ join_comma (n ∷ names)) ∷ []

-- The gates that are missing, unknown or not given exactly once.
unfoldable pub gate_set_reasons : TaskSpec → List GateResult → List Text
gate_set_reasons task gates =
    list_reason (codes "missing acceptance gates: ")
      (sorted_set (without (gate_ids gates) (acceptance_ids task)))
    ++ list_reason (codes "unknown acceptance gates: ")
        (sorted_set (without (acceptance_ids task) (gate_ids gates)))
    ++ list_reason (codes "acceptance gates must appear exactly once: ")
        (sorted_set (repeated (gate_ids gates)))

-- The checks of a gate against its acceptance test.
abbrev pub acceptance_reasons : Option AcceptanceTest → GateResult → List Text
acceptance_reasons none gate = []
acceptance_reasons (some acceptance) gate =
    let gate_name = codes "gate " ++ gate.acceptance_test_id in
    say (not (eq_texts gate.command acceptance.command))
      (gate_name ++ codes " command does not match the task")
    ++ say (not (gate.expected_exit_code == acceptance.expected_exit_code))
        (gate_name ++ codes " expected exit code does not match the task")
    ++ say (not gate.passed) (codes "gate failed: " ++ gate.acceptance_test_id)

unfoldable pub gate_reasons : TaskSpec → PolicyReport → Text → GateResult → List Text
gate_reasons task policy task_sha256 gate =
    let gate_name = codes "gate " ++ gate.acceptance_test_id in
    say (not (eq_text gate.task_id task.task_id))
      (gate_name ++ codes " task id does not match the task")
    ++ say (not (eq_text gate.task_sha256 task_sha256))
        (gate_name ++ codes " raw task SHA-256 does not match the task input")
    ++ say (not (eq_text gate.head_sha policy.head_sha))
        (gate_name ++ codes " head SHA does not match policy evidence")
    ++ say (not (same_patch gate.patch_sha256 policy.patch_sha256))
        (gate_name ++ codes " candidate digest does not match policy evidence")
    ++ acceptance_reasons (find_acceptance gate.acceptance_test_id task.acceptance_tests) gate

abbrev pub role_text : Role → Text
role_text Role.reviewer = codes "reviewer"
role_text Role.adversary = codes "adversary"

abbrev pub required_roles : List Text
required_roles = codes "adversary" ∷ codes "reviewer" ∷ []

abbrev pub roles_of : List ReviewReport → List Text
roles_of reviews = map (λ r. role_text r.role) reviews

unfoldable pub role_reasons : List ReviewReport → List Text
role_reasons reviews =
    list_reason (codes "missing review roles: ")
      (sorted_set (without (roles_of reviews) required_roles))
    ++ list_reason (codes "review roles must appear exactly once: ")
        (sorted_set (repeated (roles_of reviews)))

abbrev pub prompt_of : TaskSpec → Role → Text
prompt_of task Role.reviewer = task.reviewer_sha256
prompt_of task Role.adversary = task.adversary_sha256

abbrev pub decision_text : Decision → Text
decision_text Decision.accept = codes "accept"
decision_text Decision.changes_required = codes "changes_required"
decision_text Decision.blocked = codes "blocked"

abbrev pub is_accept : Decision → Bool
is_accept Decision.accept = true
is_accept _ = false

abbrev pub is_blocking : Severity → Bool
is_blocking Severity.critical = true
is_blocking Severity.high = true
is_blocking _ = false

abbrev pub is_medium : Severity → Bool
is_medium Severity.medium = true
is_medium _ = false

-- A finding of a requirement that the task does not have.
abbrev pub finding_reasons : TaskSpec → Text → Finding → Option Text → List Text
finding_reasons task role finding none = []
finding_reasons task role finding (some requirement) =
    say (not (member requirement task.requirement_ids)) (
      role
      ++ codes " finding "
      ++ finding.id
      ++ codes " references unknown requirement "
      ++ requirement)

abbrev pub each {ℓ} : {A : Type ℓ} → (A → List Text) → List A → List Text
each f [] = []
each f (x ∷ xs) = f x ++ each f xs

unfoldable pub review_reasons : TaskSpec → PolicyReport → Text → ReviewReport → List Text
review_reasons task policy task_sha256 review =
    let role = role_text review.role in
    say (not (eq_text review.task_id task.task_id))
      (role ++ codes " task id does not match the task")
    ++ say (not (eq_text review.task_sha256 task_sha256))
        (role ++ codes " raw task SHA-256 does not match the task input")
    ++ say (not (eq_text review.base_sha task.base_sha))
        (role ++ codes " base SHA does not match the task")
    ++ say (not (eq_text review.head_sha policy.head_sha))
        (role ++ codes " head SHA does not match policy evidence")
    ++ say (not (same_patch review.patch_sha256 policy.patch_sha256))
        (role ++ codes " patch SHA-256 does not match policy evidence")
    ++ say (not (eq_text review.prompt_sha256 (prompt_of task review.role)))
        (role ++ codes " prompt SHA-256 does not match the task")
    ++ say (not (is_accept review.decision))
        (role ++ codes " decision is " ++ decision_text review.decision)
    ++ each (λ finding. finding_reasons task role finding finding.requirement_id) review.findings

unfoldable pub review_blockers : ReviewReport → List Text
review_blockers review =
    each
      (λ finding.
        say (is_blocking finding.severity) (role_text review.role ++ codes ":" ++ finding.id))
      review.findings

-- Where there are two reviews, two people and two sessions have given them.
unfoldable pub identity_reasons : List ReviewReport → List Text
identity_reasons reviews =
    say (length reviews == 2 && not (length (distinct (map (λ r. r.reviewer_id) reviews)) == 2))
      (codes "reviewer and adversary must use distinct reviewer ids")
    ++ say (length reviews == 2 && not (length (distinct (map (λ r. r.session_id) reviews)) == 2))
        (codes "reviewer and adversary must use distinct session ids")

abbrev pub is_open : List ReviewReport → Bool
is_open reviews =
    any (λ r. ltb 0 (length r.unverified)) reviews
    || any (λ r. any (λ finding. is_medium finding.severity) r.findings) reviews

-- The status and the reasons that are left when all has been checked.
abbrev pub concluded : List Text → List Text → List ReviewReport → Status × List Text
concluded [] [] reviews = (
  Status.human_review,
  (if is_open reviews
        then codes "medium findings or unverified items require an explicit human decision"
        else codes "review provenance is self-reported until a trusted coordinator attests it")
      ∷ [],
)
concluded reasons blockers reviews = (Status.fail, reasons)

module _ ⦃D : Digest⦄ where
  -- All reasons, before repetitions are removed.
  unfoldable pub all_reasons :
      TaskSpec → PolicyReport → List ReviewReport → List GateResult → TddEvidence → Text → List Text
  all_reasons task policy reviews gates tdd task_sha256 =
      policy_reasons task policy task_sha256
      ++ tdd_reasons task policy tdd task_sha256
      ++ gate_set_reasons task gates
      ++ each (gate_reasons task policy task_sha256) gates
      ++ role_reasons reviews
      ++ each (review_reasons task policy task_sha256) reviews
      ++ identity_reasons reviews

  unfoldable pub judge :
      TaskSpec → PolicyReport → List ReviewReport → List GateResult → TddEvidence → Text → Verdict
  judge task policy reviews gates tdd task_sha256 =
      let reasons = distinct (all_reasons task policy reviews gates tdd task_sha256) in
      let blockers = distinct (each review_blockers reviews) in
      let (status, kept) = concluded reasons blockers reviews in
      record {
        task_id = task.task_id;
        task_sha256 = task_sha256;
        trusted_harness_sha256 = task.trusted_harness_sha256;
        base_sha = task.base_sha;
        head_sha = policy.head_sha;
        patch_sha256 = policy.patch_sha256;
        status = status;
        gates = gates;
        blocking_findings = blockers;
        reasons = kept;
        human_approval_required = true;
      }
