-- ===== src/Review/Judge/Evidence.antt =====
-- The checks of the policy report and of the test-driven evidence in tools/ai_review/judge.py.
use amazon_similar_search.Prelude.{
  ℕ, ◌==◌, Bool, true, false, not, ◌&&◌, ◌||◌, any, Option, none, some, Text, codes, eq_text,
  length, if◌then◌else◌, List, [], ◌∷◌, ◌++◌, map,
}
use amazon_similar_search.Review.Models.{
  SchemaVersion, TestKind, AcceptanceTest, TaskSpec, DiffFile, PolicyReport, TddEvidence,
}
use amazon_similar_search.Review.Judge.Texts.{
  Digest, say, same_patch, eq_texts, join_comma, sort_texts, sorted_set, without, four_bytes,
}

-- `{test.id: test for test in tests}.get(id)`: the last test of an id.
unfoldable pub find_acceptance : Text → List AcceptanceTest → Option AcceptanceTest
find_acceptance id [] = none
find_acceptance id (t ∷ ts) = elim (find_acceptance id ts) [
  | some later ↦ some later
  | none ↦ if eq_text t.id id then some t else none
]

unfoldable pub find_file : Text → List DiffFile → Option DiffFile
find_file path [] = none
find_file path (f ∷ fs) = elim (find_file path fs) [
  | some later ↦ some later
  | none ↦ if eq_text f.path path then some f else none
]

abbrev content_of : Option DiffFile → Option Text
content_of none = none
content_of (some file) = file.content_sha256

module _ ⦃D : Digest⦄ where
  abbrev framed : Text → List ℕ
  framed value = let encoded = D.utf8 value in four_bytes (length encoded) ++ encoded

  -- The bytes of the paths and digests, none where a digest is missing.
  unfoldable pub manifest_bytes : PolicyReport → List Text → Option (List ℕ)
  manifest_bytes policy [] = some []
  manifest_bytes policy (path ∷ paths) =
      let rest = manifest_bytes policy paths in
      elim (content_of (find_file path policy.changed_files)) [
        | none ↦ none
        | some content ↦ elim rest [
          | none ↦ none
          | some bytes ↦ some (framed path ++ framed content ++ bytes)
        ]
      ]

  unfoldable pub build_test_manifest_sha256 : PolicyReport → List Text → Option Text
  build_test_manifest_sha256 policy test_paths =
      elim (manifest_bytes policy (sort_texts test_paths)) [
        | none ↦ none
        | some bytes ↦
            some (D.sha256 (codes "amazon-explorer-ai-review-test-manifest-v1" ++ 0 ∷ bytes))
      ]

abbrev pub or_violations : Bool → List Text → List Text
or_violations true violations = []
or_violations false violations = map (λ violation. codes "policy: " ++ violation) violations

abbrev pub missing_patch : Option Text → Bool
missing_patch none = true
missing_patch (some digest) = false

unfoldable pub policy_reasons : TaskSpec → PolicyReport → Text → List Text
policy_reasons task policy task_sha256 =
    say (not (eq_text policy.task_id task.task_id)) (codes "policy task id does not match the task")
    ++ say (not (eq_text policy.task_sha256 task_sha256))
        (codes "policy raw task SHA-256 does not match the task input")
    ++ say (not (eq_text policy.base_sha task.base_sha))
        (codes "policy base SHA does not match the task")
    ++ say (not (eq_text policy.trusted_harness_sha256 task.trusted_harness_sha256))
        (codes "policy trusted harness SHA-256 does not match the task")
    ++ or_violations policy.passed policy.violations
    ++ say (missing_patch policy.patch_sha256) (codes "policy did not produce a patch SHA-256")

abbrev pub is_test : TestKind → Bool
is_test TestKind.test = true
is_test TestKind.quality = false

abbrev pub is_v2 : SchemaVersion → Bool
is_v2 SchemaVersion.v2 = true
is_v2 SchemaVersion.v1 = false

-- The chain of tests of the acceptance test that the evidence names.
abbrev pub acceptance_reason : TaskSpec → TddEvidence → Option AcceptanceTest → List Text
acceptance_reason task tdd none = codes "TDD evidence references an unknown acceptance test" ∷ []
acceptance_reason task tdd (some acceptance) =
    if not (is_test acceptance.kind)
    then codes "TDD evidence must reference an acceptance test of kind test" ∷ []
    else if not (eq_texts tdd.command acceptance.command)
    then codes "TDD evidence command does not match the task" ∷ []
    else if is_v2 task.schema_version && not (eq_texts tdd.test_paths acceptance.test_paths)
    then codes "TDD evidence test paths do not match the TaskSpec" ∷ []
    else []

abbrev pub phase_reasons : TddEvidence → Option AcceptanceTest → List Text
phase_reasons tdd none = []
phase_reasons tdd (some acceptance) =
    say (not (any (λ code. code == tdd.red.exit_code) acceptance.expected_red_exit_codes))
      (codes "RED phase exit code does not match the task's expected failure")
    ++ say
        (not (
          same_patch tdd.red.failure_fingerprint_sha256 acceptance.expected_red_fingerprint_sha256))
        (codes "RED phase failure fingerprint does not match the task")
    ++ say (not (tdd.green.exit_code == acceptance.expected_exit_code))
        (codes "GREEN phase did not pass")

abbrev pub snapshot_reasons : SchemaVersion → Option Text → Option Text → List Text
snapshot_reasons SchemaVersion.v1 red green = []
snapshot_reasons SchemaVersion.v2 (some red) (some green) =
    say (eq_text red green) (codes "TDD v2 RED and GREEN snapshots must be distinct")
snapshot_reasons SchemaVersion.v2 _ _ =
    codes "TDD v2 requires measured RED and GREEN snapshot SHA-256 values" ∷ []

abbrev pub absent_reason : List Text → List Text
absent_reason [] = []
absent_reason (p ∷ paths) =
    (codes "TDD test paths are absent from the candidate diff: " ++ join_comma (p ∷ paths)) ∷ []

abbrev pub manifest_reason : Option Text → Text → List Text
manifest_reason none digest = codes "TDD test manifest cannot be derived from policy evidence" ∷ []
manifest_reason (some expected) digest =
    say (not (eq_text digest expected))
      (codes "TDD test manifest SHA-256 does not match policy evidence")

unfoldable pub tdd_reasons : ⦃D : Digest⦄ → TaskSpec → PolicyReport → TddEvidence → Text → List Text
tdd_reasons task policy tdd task_sha256 =
    say (not (eq_text tdd.base_sha task.base_sha))
      (codes "TDD evidence base SHA does not match the task")
    ++ say (not (eq_text tdd.task_id task.task_id))
        (codes "TDD evidence task id does not match the task")
    ++ say (not (eq_text tdd.task_sha256 task_sha256))
        (codes "TDD evidence raw task SHA-256 does not match the task input")
    ++ say (not (eq_text tdd.head_sha policy.head_sha))
        (codes "TDD evidence head SHA does not match policy evidence")
    ++ say (not (same_patch tdd.patch_sha256 policy.patch_sha256))
        (codes "TDD evidence patch SHA-256 does not match policy evidence")
    ++ acceptance_reason task tdd (find_acceptance tdd.acceptance_test_id task.acceptance_tests)
    ++ phase_reasons tdd (find_acceptance tdd.acceptance_test_id task.acceptance_tests)
    ++ say
        (not (eq_text tdd.red.test_patch_sha256 tdd.test_patch_sha256)
          || not (eq_text tdd.green.test_patch_sha256 tdd.test_patch_sha256))
        (codes "test patch changed between RED and GREEN")
    ++ snapshot_reasons tdd.schema_version tdd.red_snapshot_sha256 tdd.green_snapshot_sha256
    ++ absent_reason
        (sorted_set (without (map (λ file. file.path) policy.changed_files) tdd.test_paths))
    ++ manifest_reason (build_test_manifest_sha256 policy tdd.test_paths) tdd.test_manifest_sha256
