-- ===== src/Review/Judge/Verdicts.antt =====
-- The verdicts of tools/ai_review/judge.py against the validators of tools/ai_review/models.py.
use amazon_similar_search.Prelude.{
  ◌≡◌, ◌≢◌, refl, sym, ap, guard_some, inl, inr, arith, true, false, not, ◌&&◌, Bool-cases, some,
  Text, member, any, is_empty, All, List, [], ◌∷◌, map,
}
use amazon_similar_search.Dedupe.{first_of_each}
use amazon_similar_search.Review.Models.{
  Status, AcceptanceTest, TaskSpec, PolicyReport, Finding, ReviewReport, GateResult, TddEvidence,
  Verdict,
}
use amazon_similar_search.Review.Judge.Texts.{Digest, say, distinct}
use amazon_similar_search.Review.Judge.Reasons.{IsPassing}
use amazon_similar_search.Review.Judge.Empty.{nil-split, held, each-nil, distinct-nil}
use amazon_similar_search.Review.Judge.Accepts.{judge-IsSupported}
use amazon_similar_search.Review.Judge.{
  gate_ids, is_accept, is_blocking, each, review_reasons, review_blockers, identity_reasons,
  concluded, all_reasons, judge,
}
use amazon_similar_search.Review.Validators.{validate_review, validate_verdict}

-- A review without a reason against it accepts.
review_reasons-accept :
    (task : TaskSpec) (policy : PolicyReport) (task_sha256 : Text) (review : ReviewReport)
    → review_reasons task policy task_sha256 review ≡ []
    → is_accept review.decision ≡ true
unfolding review_reasons
review_reasons-accept task policy task_sha256 review h =
    let (h1, _) = nil-split _ _ h in let (_, decision) = nil-split _ _ h1 in held _ _ decision

-- A valid review that accepts has no finding that blocks.
validate_review-accept :
    (review : ReviewReport)
    → validate_review review ≡ some review
    → is_accept review.decision ≡ true
    → any (λ f. is_blocking f.severity) review.findings ≡ false
unfolding validate_review
validate_review-accept review h accepts =
    let (_, h1) = guard_some review.external_calls h in
    let (harmless, _) =
      guard_some (is_accept review.decision && any (λ f. is_blocking f.severity) review.findings)
        h1 in
    rw accepts at harmless

blockers-none :
    (findings : List Finding) (message : Finding → Text)
    → any (λ f. is_blocking f.severity) findings ≡ false
    → each (λ f. say (is_blocking f.severity) (message f)) findings ≡ []
blockers-none [] message h = refl
blockers-none (f ∷ fs) message h = elim (Bool-cases (is_blocking f.severity)) [
  | inl e ↦ ground arith
  | inr e ↦ rw e (blockers-none fs message (rw e at h))
]

reviews-none :
    (task : TaskSpec) (policy : PolicyReport) (task_sha256 : Text) (reviews : List ReviewReport)
    → All (λ review. validate_review review ≡ some review) reviews
    → All (λ review. review_reasons task policy task_sha256 review ≡ []) reviews
    → each review_blockers reviews ≡ []
unfolding review_blockers
reviews-none task policy task_sha256 [] valid h = refl
reviews-none task policy task_sha256 (r ∷ rs) valid h =
    let first : review_blockers r ≡ [] =
      blockers-none r.findings _
        (validate_review-accept r valid.0 (review_reasons-accept task policy task_sha256 r h.0)) in
    let rest = reviews-none task policy task_sha256 rs valid.1 h.1 in rw first rest

gates-exist :
    (tests : List AcceptanceTest) (gates : List GateResult)
    → is_empty tests ≡ false
    → All (λ id. member id (gate_ids gates) ≡ true) (map (λ t. t.id) tests)
    → is_empty gates ≡ false
unfolding member
gates-exist [] gates h all = ground arith
gates-exist (t ∷ ts) [] h all = sym all.0
gates-exist (t ∷ ts) (g ∷ gs) h all = refl

gates-pass :
    (task : TaskSpec) (policy : PolicyReport) (gates : List GateResult)
    → All (IsPassing task policy) gates
    → any (λ gate. not gate.passed) gates ≡ false
gates-pass task policy [] h = refl
gates-pass task policy (g ∷ gs) h =
    let rest = gates-pass task policy gs h.1 in
    let (_, (_, (_, (_, (_, passed))))) = h.0 in rw passed rest

concluded-ne-fail :
    (reasons blockers : List Text) (reviews : List ReviewReport)
    → reasons ≡ []
    → blockers ≡ []
    → (concluded reasons blockers reviews).0 ≢ Status.fail
concluded-ne-fail [] [] reviews hr hb h = cc
concluded-ne-fail [] (b ∷ bs) reviews hr hb h = cc
concluded-ne-fail (r ∷ rs) blockers reviews hr hb h = cc

-- A verdict concluded from reasons and blockers is valid if, where there is no reason, all gates
-- passed and nothing blocks.
concluded-valid :
    (reasons blockers : List Text) (reviews : List ReviewReport) (verdict : Verdict)
    → verdict.status ≡ (concluded reasons blockers reviews).0
    → verdict.reasons ≡ (concluded reasons blockers reviews).1
    → verdict.blocking_findings ≡ blockers
    → (reasons ≡ []
        → (is_empty verdict.gates ≡ false)
          × (any (λ gate. not gate.passed) verdict.gates ≡ false)
          × (blockers ≡ []))
    → validate_verdict verdict ≡ some verdict
unfolding validate_verdict
concluded-valid [] [] reviews verdict hs hr hb h =
    let (exist, pass, _) = h refl in rw (hs, hr, hb, exist, pass) refl
concluded-valid [] (b ∷ bs) reviews verdict hs hr hb h =
    let (_, _, nothing) = h refl in ground arith
concluded-valid (r ∷ rs) blockers reviews verdict hs hr hb h = rw (hs, hr) refl

module _ ⦃D : Digest⦄ where
  reviews-unopposed :
      (task : TaskSpec) (policy : PolicyReport) (reviews : List ReviewReport)
      (gates : List GateResult) (tdd : TddEvidence) (task_sha256 : Text)
      → all_reasons task policy reviews gates tdd task_sha256 ≡ []
      → All (λ review. review_reasons task policy task_sha256 review ≡ []) reviews
  unfolding all_reasons
  reviews-unopposed task policy reviews gates tdd task_sha256 h =
      let (h1, _) = nil-split _ (identity_reasons reviews) h in
      let (_, by_review) = nil-split _ _ h1 in
      each-nil (review_reasons task policy task_sha256) reviews by_review

  -- Where the task has an acceptance test and every review is valid as a model, the verdict is valid as
  -- a model: one that does not fail has gates, all passed, and no blocker, and every one has a reason.
  pub judge-validate_verdict :
      (task : TaskSpec) (policy : PolicyReport) (reviews : List ReviewReport)
      (gates : List GateResult) (tdd : TddEvidence) (task_sha256 : Text)
      → is_empty task.acceptance_tests ≡ false
      → All (λ review. validate_review review ≡ some review) reviews
      → validate_verdict (judge task policy reviews gates tdd task_sha256)
        ≡ some (judge task policy reviews gates tdd task_sha256)
  unfolding judge first_of_each
  judge-validate_verdict task policy reviews gates tdd task_sha256 tested valid =
      let reasons = distinct (all_reasons task policy reviews gates tdd task_sha256) in
      let blockers = distinct (each review_blockers reviews) in
      concluded-valid reasons blockers reviews (judge task policy reviews gates tdd task_sha256)
        refl refl refl
        (λ no_reasons.
          let nothing : blockers ≡ [] = ap distinct (
            reviews-none task policy task_sha256 reviews valid (
              reviews-unopposed task policy reviews gates tdd task_sha256
                (distinct-nil _ no_reasons))) in
          let (_, (tests, (passing, _))) =
            judge-IsSupported task policy reviews gates tdd task_sha256
              (concluded-ne-fail reasons blockers reviews no_reasons nothing) in
          (
            gates-exist task.acceptance_tests gates tested tests,
            gates-pass task policy gates passing,
            nothing,
          ))
