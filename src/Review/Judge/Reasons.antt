-- ===== src/Review/Judge/Reasons.antt =====
-- What a review and a gate without a reason against them are.
use amazon_similar_search.Prelude.{
  none-some, ◌≡◌, refl, sym, ap, ◌∙◌, inl, inr, arith, true, false, Bool-cases, Option, none, some,
  Option-cases, Text, eq_text, eq_text_sound, member, All, List, [], ◌∷◌, map,
}
use amazon_similar_search.Review.Models.{
  AcceptanceTest, TaskSpec, PolicyReport, Finding, ReviewReport, GateResult,
}
use amazon_similar_search.Review.Judge.Texts.{say, same_patch, eq_texts}
use amazon_similar_search.Review.Judge.Evidence.{find_acceptance}
use amazon_similar_search.Review.Judge.Empty.{nil-split, say-nil, held}
use amazon_similar_search.Review.Judge.{
  acceptance_ids, acceptance_reasons, gate_reasons, prompt_of, is_accept, is_blocking, each,
  review_reasons, review_blockers,
}

same_patch-some :
    (digest : Text) (patch : Option Text) → same_patch digest patch ≡ true → patch ≡ some digest
same_patch-some digest none h = ground arith
same_patch-some digest (some expected) h = ap some (sym (eq_text_sound digest expected h))

find_acceptance-some :
    (id : Text) (tests : List AcceptanceTest)
    → member id (map (λ t. t.id) tests) ≡ true
    → (a : AcceptanceTest) × (find_acceptance id tests ≡ some a)
unfolding find_acceptance member
find_acceptance-some id [] h = ground arith
find_acceptance-some id (t ∷ ts) h = elim (Option-cases (find_acceptance id ts)) [
  | inr (a, e) ↦ (a, rw e refl)
  | inl e ↦ elim (Bool-cases (eq_text t.id id)) [
    | inl f ↦ (t, rw (e, f) refl)
    | inr f ↦
        let (a, later) = find_acceptance-some id ts (rw f at h) in
        absurd (none-some (sym e ∙ later))
  ]
]

-- The review accepts this candidate, has been asked with the task's prompt, and found nothing of high
-- or critical severity.
abbrev pub IsAccepting : TaskSpec → PolicyReport → ReviewReport → Type 0
IsAccepting task policy review =
    (is_accept review.decision ≡ true)
    × ((review.prompt_sha256 ≡ prompt_of task review.role)
        × ((review.head_sha ≡ policy.head_sha)
            × ((policy.patch_sha256 ≡ some review.patch_sha256)
                × All (λ f. is_blocking f.severity ≡ false) review.findings)))

-- The gate is of this candidate, ran the command of one of the task's acceptance tests, and passed.
abbrev pub IsPassing : TaskSpec → PolicyReport → GateResult → Type 0
IsPassing task policy gate =
    (gate.head_sha ≡ policy.head_sha)
    × ((policy.patch_sha256 ≡ some gate.patch_sha256)
        × ((a : AcceptanceTest) × ((find_acceptance gate.acceptance_test_id task.acceptance_tests
                ≡ some a)
              × ((eq_texts gate.command a.command ≡ true) × (gate.passed ≡ true)))))

blockers-nil :
    (findings : List Finding) (message : Finding → Text)
    → each (λ f. say (is_blocking f.severity) (message f)) findings ≡ []
    → All (λ f. is_blocking f.severity ≡ false) findings
blockers-nil [] message h = tt
blockers-nil (f ∷ fs) message h =
    let (hf, hs) = nil-split (say (is_blocking f.severity) (message f)) _ h in
    (say-nil (is_blocking f.severity) (message f) hf, blockers-nil fs message hs)

pub review-IsAccepting :
    (task : TaskSpec) (policy : PolicyReport) (task_sha256 : Text) (review : ReviewReport)
    → review_reasons task policy task_sha256 review ≡ []
    → review_blockers review ≡ []
    → IsAccepting task policy review
unfolding review_reasons review_blockers
review-IsAccepting task policy task_sha256 review h hb =
    let (h1, _) = nil-split _ _ h in
    let (h2, decision) = nil-split _ _ h1 in
    let (h3, prompt) = nil-split _ _ h2 in
    let (h4, patch) = nil-split _ _ h3 in
    let (h5, head) = nil-split _ _ h4 in
    (
      held _ _ decision,
      (
        eq_text_sound _ _ (held _ _ prompt),
        (
          eq_text_sound _ _ (held _ _ head),
          (same_patch-some _ _ (held _ _ patch), blockers-nil review.findings _ hb),
        ),
      ),
    )

pub gate-IsPassing :
    (task : TaskSpec) (policy : PolicyReport) (task_sha256 : Text) (gate : GateResult)
    → member gate.acceptance_test_id (acceptance_ids task) ≡ true
    → gate_reasons task policy task_sha256 gate ≡ []
    → IsPassing task policy gate
unfolding gate_reasons
gate-IsPassing task policy task_sha256 gate known h =
    let (h1, acceptance) =
      nil-split _
        (acceptance_reasons (find_acceptance gate.acceptance_test_id task.acceptance_tests) gate)
        h in
    let (h2, patch) = nil-split _ _ h1 in
    let (h3, head) = nil-split _ _ h2 in
    let (a, found) = find_acceptance-some gate.acceptance_test_id task.acceptance_tests known in
    let (g1, passed) = nil-split _ _ (rw found at acceptance) in
    let (command, _) = nil-split _ _ g1 in
    (
      eq_text_sound _ _ (held _ _ head),
      (same_patch-some _ _ (held _ _ patch), (a, (found, (held _ _ command, held _ _ passed)))),
    )
