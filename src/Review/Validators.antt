-- ===== src/Review/Validators.antt =====
-- The model validators of ReviewReport and Verdict in tools/ai_review/models.py; a ValueError is none.
use amazon_similar_search.Prelude.{
  ◌==◌, Bool, true, false, not, ◌&&◌, ◌||◌, Option, none, some, any, length, is_empty,
  if◌then◌else◌, map,
}
use amazon_similar_search.Review.Models.{ReviewReport, Verdict, Status}
use amazon_similar_search.Review.Judge.Texts.{distinct}
use amazon_similar_search.Review.Judge.Evidence.{missing_patch}
use amazon_similar_search.Review.Judge.{is_accept, is_blocking}

-- `status == "fail"`
abbrev pub is_fail : Status → Bool
is_fail Status.fail = true
is_fail _ = false

-- `status == "pass"`
abbrev pub is_pass : Status → Bool
is_pass Status.pass = true
is_pass _ = false

unfoldable pub validate_review : ReviewReport → Option ReviewReport
validate_review review =
    if review.external_calls
    then none
    else if is_accept review.decision && any (λ f. is_blocking f.severity) review.findings
    then none
    else if not (is_accept review.decision) && is_empty review.findings
    then none
    else if not (
        length (distinct (map (λ f. f.id) review.findings))
        == length (map (λ f. f.id) review.findings))
    then none
    else some review

unfoldable pub validate_verdict : Verdict → Option Verdict
validate_verdict verdict =
    if not (is_fail verdict.status) && is_empty verdict.gates
    then none
    else if is_pass verdict.status
        && (not (is_empty verdict.blocking_findings) || not (is_empty verdict.reasons))
    then none
    else if is_pass verdict.status && missing_patch verdict.patch_sha256
    then none
    else if not (is_fail verdict.status) && any (λ gate. not gate.passed) verdict.gates
    then none
    else if not (is_fail verdict.status) && not (is_empty verdict.blocking_findings)
    then none
    else if not (is_pass verdict.status) && is_empty verdict.reasons
    then none
    else some verdict
