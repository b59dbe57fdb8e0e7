-- ===== src/Review/Judge/Examples.antt =====
-- A complete set of evidence, and the theorems about its verdict.
use amazon_similar_search.Prelude.{
  ◌≡◌, ◌≢◌, refl, sym, ◌∙◌, true, false, some, Text, codes, eq_text, member, All, List, [], ◌∷◌,
}
use amazon_similar_search.Dedupe.{first_of_each}
use amazon_similar_search.Review.Models.{
  SchemaVersion, TestKind, Role, Decision, Status, AcceptanceTest, TaskSpec, PolicyReport,
  ReviewReport, GateResult, TddEvidence,
}
use amazon_similar_search.Review.Judge.Texts.{
  Digest, eq_texts, before, insert_text, sort_texts, count,
}
use amazon_similar_search.Review.Judge.Evidence.{
  find_acceptance, find_file, manifest_bytes, build_test_manifest_sha256, policy_reasons,
  tdd_reasons,
}
use amazon_similar_search.Review.Judge.{
  gate_set_reasons, gate_reasons, role_reasons, review_reasons, review_blockers, identity_reasons,
  all_reasons, judge,
}
use amazon_similar_search.Review.Validators.{validate_review, validate_verdict}
use amazon_similar_search.Review.Judge.Verdicts.{judge-validate_verdict}
use amazon_similar_search.Review.Judge.Accepts.{IsSupported, judge-IsSupported, judge-ne-pass}

instance abbrev short_digest : Digest
short_digest = record { sha256 = λ bytes. codes "digest"; utf8 = λ s. s }

abbrev suite : AcceptanceTest
suite = record {
  id = codes "UNIT";
  kind = TestKind.test;
  command = codes "pytest" ∷ [];
  expected_exit_code = 0;
  expected_red_exit_codes = 1 ∷ [];
  expected_red_fingerprint_sha256 = some (codes "print");
  test_paths = codes "tests/a.py" ∷ [];
}

abbrev task : TaskSpec
task = record {
  schema_version = SchemaVersion.v2;
  task_id = codes "T1";
  base_sha = codes "base";
  trusted_harness_sha256 = codes "harness";
  requirement_ids = codes "R1" ∷ [];
  reviewer_sha256 = codes "p1";
  adversary_sha256 = codes "p2";
  acceptance_tests = suite ∷ [];
}

abbrev policy : PolicyReport
policy = record {
  task_id = codes "T1";
  task_sha256 = codes "t";
  passed = true;
  trusted_harness_sha256 = codes "harness";
  base_sha = codes "base";
  head_sha = codes "head";
  patch_sha256 = some (codes "patch");
  changed_files = (record { path = codes "tests/a.py"; content_sha256 = some (codes "c") }) ∷ [];
  violations = [];
}

abbrev review_by : Role → Text → Text → ReviewReport
review_by role prompt person = record {
  task_id = codes "T1";
  task_sha256 = codes "t";
  role = role;
  reviewer_id = person;
  session_id = person;
  prompt_sha256 = prompt;
  decision = Decision.accept;
  base_sha = codes "base";
  head_sha = codes "head";
  patch_sha256 = codes "patch";
  findings = [];
  unverified = [];
  external_calls = false;
}

abbrev reviews : List ReviewReport
reviews =
    review_by Role.reviewer (codes "p1") (codes "ann")
    ∷ review_by Role.adversary (codes "p2") (codes "bob")
    ∷ []

abbrev gate : GateResult
gate = record {
  task_id = codes "T1";
  task_sha256 = codes "t";
  head_sha = codes "head";
  patch_sha256 = codes "patch";
  acceptance_test_id = codes "UNIT";
  command = codes "pytest" ∷ [];
  expected_exit_code = 0;
  passed = true;
}

abbrev gates : List GateResult
gates = gate ∷ []

abbrev tdd : TddEvidence
tdd = record {
  schema_version = SchemaVersion.v2;
  task_id = codes "T1";
  task_sha256 = codes "t";
  base_sha = codes "base";
  head_sha = codes "head";
  patch_sha256 = codes "patch";
  acceptance_test_id = codes "UNIT";
  command = codes "pytest" ∷ [];
  test_paths = codes "tests/a.py" ∷ [];
  test_manifest_sha256 = codes "digest";
  test_patch_sha256 = codes "tp";
  red_snapshot_sha256 = some (codes "s1");
  green_snapshot_sha256 = some (codes "s2");
  red = record {
    exit_code = 1;
    failure_fingerprint_sha256 = codes "print";
    test_patch_sha256 = codes "tp";
  };
  green = record { exit_code = 0; test_patch_sha256 = codes "tp" };
}

left_to_human : (judge task policy reviews gates tdd (codes "t")).status ≡ Status.human_review
unfolding judge all_reasons policy_reasons tdd_reasons gate_set_reasons gate_reasons role_reasons
    review_reasons review_blockers identity_reasons find_acceptance find_file manifest_bytes
    build_test_manifest_sha256 eq_texts before insert_text sort_texts count member eq_text
    first_of_each
left_to_human = refl

human-ne-fail : Status.human_review ≢ Status.fail
human-ne-fail h = cc

not_failed : (judge task policy reviews gates tdd (codes "t")).status ≢ Status.fail
not_failed h = human-ne-fail (sym left_to_human ∙ h)

judge-IsSupported_example : IsSupported task policy reviews gates
judge-IsSupported_example = judge-IsSupported task policy reviews gates tdd (codes "t") not_failed

judge-ne-pass_example :
    ((judge task policy reviews gates tdd (codes "t")).status ≢ Status.pass)
    × ((judge task policy reviews gates tdd (codes "t")).human_approval_required ≡ true)
judge-ne-pass_example = judge-ne-pass task policy reviews gates tdd (codes "t")

reviews_valid : All (λ review. validate_review review ≡ some review) reviews
unfolding validate_review first_of_each
reviews_valid = (refl, (refl, tt))

judge-validate_verdict_example :
    validate_verdict (judge task policy reviews gates tdd (codes "t"))
    ≡ some (judge task policy reviews gates tdd (codes "t"))
judge-validate_verdict_example =
    judge-validate_verdict task policy reviews gates tdd (codes "t") refl reviews_valid
