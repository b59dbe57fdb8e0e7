-- ===== src/Review/Judge/Accepts.antt =====
-- What a verdict other than `fail` says of the evidence.
use mathlib.Core.Bool.{true≢false}
use amazon_similar_search.Prelude.{
  ◌≡◌, ◌≢◌, refl, sym, ap, ◌∙◌, true, none, Text, codes, eq_text_sound, member, All, List, [], ◌∷◌,
}
use amazon_similar_search.Review.Models.{
  Status, TaskSpec, PolicyReport, ReviewReport, GateResult, TddEvidence,
}
use amazon_similar_search.Review.Judge.Texts.{Digest, say, distinct, sorted_set, without, repeated}
use amazon_similar_search.Review.Judge.Evidence.{missing_patch, policy_reasons}
use amazon_similar_search.Review.Judge.Reasons.{
  IsAccepting, IsPassing, review-IsAccepting, gate-IsPassing,
}
use amazon_similar_search.Review.Judge.Empty.{
  nil-split, say-nil, held, each-nil, distinct-nil, sort_texts-nil, list_reason-nil, without-nil,
  concluded-open,
}
use amazon_similar_search.Review.Judge.{
  acceptance_ids, gate_ids, list_reason, gate_set_reasons, gate_reasons, role_reasons, roles_of,
  required_roles, each, review_reasons, review_blockers, identity_reasons, concluded, all_reasons,
  judge,
}

-- The evidence is complete: the policy report is the task's and has a patch; each acceptance test has a
-- gate, and each gate passed; both roles have reviewed, and each review accepts.
abbrev pub IsSupported : TaskSpec → PolicyReport → List ReviewReport → List GateResult → Type 0
IsSupported task policy reviews gates =
    ((policy.task_id ≡ task.task_id) × (policy.patch_sha256 ≢ none))
    × (All (λ id. member id (gate_ids gates) ≡ true) (acceptance_ids task)
        × (All (IsPassing task policy) gates
            × (All (λ role. member role (roles_of reviews) ≡ true) required_roles
                × All (IsAccepting task policy) reviews)))

missing-none :
    (names : List Text) (others : List Text) (message : Text)
    → list_reason message (sorted_set (without others names)) ≡ []
    → All (λ s. member s others ≡ true) names
missing-none names others message h = without-nil others names (
    distinct-nil (without others names)
      (sort_texts-nil (distinct (without others names)) (list_reason-nil message _ h)))

gates-IsPassing :
    (task : TaskSpec) (policy : PolicyReport) (task_sha256 : Text) (gates : List GateResult)
    → All (λ id. member id (acceptance_ids task) ≡ true) (gate_ids gates)
    → All (λ gate. gate_reasons task policy task_sha256 gate ≡ []) gates
    → All (IsPassing task policy) gates
gates-IsPassing task policy task_sha256 [] known h = tt
gates-IsPassing task policy task_sha256 (g ∷ gs) known h = (
  gate-IsPassing task policy task_sha256 g known.0 h.0,
  gates-IsPassing task policy task_sha256 gs known.1 h.1,
)

reviews-IsAccepting :
    (task : TaskSpec) (policy : PolicyReport) (task_sha256 : Text) (reviews : List ReviewReport)
    → All (λ review. review_reasons task policy task_sha256 review ≡ []) reviews
    → All (λ review. review_blockers review ≡ []) reviews
    → All (IsAccepting task policy) reviews
reviews-IsAccepting task policy task_sha256 [] h hb = tt
reviews-IsAccepting task policy task_sha256 (r ∷ rs) h hb = (
  review-IsAccepting task policy task_sha256 r h.0 hb.0,
  reviews-IsAccepting task policy task_sha256 rs h.1 hb.1,
)

policy-names :
    (task : TaskSpec) (policy : PolicyReport) (task_sha256 : Text)
    → policy_reasons task policy task_sha256 ≡ []
    → (policy.task_id ≡ task.task_id) × (policy.patch_sha256 ≢ none)
unfolding policy_reasons
policy-names task policy task_sha256 h =
    let (h1, patch) = nil-split _ (say (missing_patch policy.patch_sha256) _) h in
    let (h2, _) = nil-split _ _ h1 in
    let (h3, _) = nil-split _ _ h2 in
    let (h4, _) = nil-split _ _ h3 in
    let (id, _) = nil-split _ _ h4 in
    (
      eq_text_sound _ _ (held _ _ id),
      λ e.
          true≢false
            (ap missing_patch (sym e) ∙ say-nil (missing_patch policy.patch_sha256) _ patch),
    )

module _ ⦃D : Digest⦄ where
  judge-open :
      (task : TaskSpec) (policy : PolicyReport) (reviews : List ReviewReport)
      (gates : List GateResult) (tdd : TddEvidence) (task_sha256 : Text)
      → (judge task policy reviews gates tdd task_sha256).status ≢ Status.fail
      → (all_reasons task policy reviews gates tdd task_sha256 ≡ [])
        × (each review_blockers reviews ≡ [])
  unfolding judge
  judge-open task policy reviews gates tdd task_sha256 h =
      let (no_reasons, no_blockers) =
        concluded-open (distinct (all_reasons task policy reviews gates tdd task_sha256))
          (distinct (each review_blockers reviews)) reviews h in
      (distinct-nil _ no_reasons, distinct-nil _ no_blockers)

  -- A verdict other than `fail` has complete evidence behind it: the policy report is the task's and
  -- has a patch, each acceptance test has a gate, each gate ran a test's command on this candidate and
  -- passed, both roles have reviewed, and each review accepts this candidate, has been asked with the
  -- task's prompt, and found nothing of high or critical severity.
  pub judge-IsSupported :
      (task : TaskSpec) (policy : PolicyReport) (reviews : List ReviewReport)
      (gates : List GateResult) (tdd : TddEvidence) (task_sha256 : Text)
      → (judge task policy reviews gates tdd task_sha256).status ≢ Status.fail
      → IsSupported task policy reviews gates
  unfolding all_reasons gate_set_reasons role_reasons
  judge-IsSupported task policy reviews gates tdd task_sha256 h =
      let (no_reasons, no_blockers) = judge-open task policy reviews gates tdd task_sha256 h in
      let (h1, _) = nil-split _ (identity_reasons reviews) no_reasons in
      let (h2, by_review) = nil-split _ _ h1 in
      let (h3, roles) = nil-split _ _ h2 in
      let (h4, by_gate) = nil-split _ _ h3 in
      let (h5, gate_set) = nil-split _ _ h4 in
      let (by_policy, _) = nil-split _ _ h5 in
      let (g1, _) =
        nil-split _
          (list_reason (codes "acceptance gates must appear exactly once: ")
            (sorted_set (repeated (gate_ids gates))))
          gate_set in
      let (missing, unknown) = nil-split _ _ g1 in
      let (missing_roles, _) =
        nil-split _
          (list_reason (codes "review roles must appear exactly once: ")
            (sorted_set (repeated (roles_of reviews))))
          roles in
      (
        policy-names task policy task_sha256 by_policy,
        (
          missing-none (acceptance_ids task) (gate_ids gates) (codes "missing acceptance gates: ")
              missing,
          (
            gates-IsPassing task policy task_sha256 gates
                (missing-none (gate_ids gates) (acceptance_ids task)
                  (codes "unknown acceptance gates: ") unknown)
                (each-nil (gate_reasons task policy task_sha256) gates by_gate),
            (
              missing-none required_roles (roles_of reviews) (codes "missing review roles: ")
                  missing_roles,
              reviews-IsAccepting task policy task_sha256 reviews
                  (each-nil (review_reasons task policy task_sha256) reviews by_review)
                  (each-nil review_blockers reviews no_blockers),
            ),
          ),
        ),
      )

concluded-ne-pass :
    (reasons blockers : List Text) (reviews : List ReviewReport)
    → (concluded reasons blockers reviews).0 ≢ Status.pass
concluded-ne-pass [] [] reviews h = cc
concluded-ne-pass [] (b ∷ bs) reviews h = cc
concluded-ne-pass (r ∷ rs) blockers reviews h = cc

-- The judge alone never lets a candidate pass: it fails it or leaves it to a human, and every verdict
-- requires human approval.
pub judge-ne-pass :
    ⦃D : Digest⦄ (task : TaskSpec) (policy : PolicyReport) (reviews : List ReviewReport)
    (gates : List GateResult) (tdd : TddEvidence) (task_sha256 : Text)
    → ((judge task policy reviews gates tdd task_sha256).status ≢ Status.pass)
      × ((judge task policy reviews gates tdd task_sha256).human_approval_required ≡ true)
unfolding judge
judge-ne-pass task policy reviews gates tdd task_sha256 = (
  concluded-ne-pass (distinct (all_reasons task policy reviews gates tdd task_sha256))
      (distinct (each review_blockers reviews)) reviews,
  refl,
)
