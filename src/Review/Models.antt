-- ===== src/Review/Models.antt =====
-- tools/ai_review/models.py: the evidence that a review is judged on, as far as the judge reads it. The
-- validators of two of the models stand in Validators.
use amazon_similar_search.Prelude.{ℕ, Bool, Option, Text, List}

pub data SchemaVersion : Type 0 where
  v1 v2 : SchemaVersion

pub data TestKind : Type 0 where
  test quality : TestKind

pub data Severity : Type 0 where
  critical high medium low : Severity

pub data Role : Type 0 where
  reviewer adversary : Role

pub data Decision : Type 0 where
  accept changes_required blocked : Decision

pub data Status : Type 0 where
  pass fail human_review : Status

pub record AcceptanceTest : Type 0 where
  pub id : Text
  pub kind : TestKind
  pub command : List Text
  pub expected_exit_code : ℕ
  pub expected_red_exit_codes : List ℕ
  pub expected_red_fingerprint_sha256 : Option Text
  pub test_paths : List Text

pub record TaskSpec : Type 0 where
  pub schema_version : SchemaVersion
  pub task_id : Text
  pub base_sha : Text
  pub trusted_harness_sha256 : Text
  pub requirement_ids : List Text  -- the ids of `requirements`
  pub reviewer_sha256 : Text  -- of `review_prompts`
  pub adversary_sha256 : Text
  pub acceptance_tests : List AcceptanceTest

pub record DiffFile : Type 0 where
  pub path : Text
  pub content_sha256 : Option Text

pub record PolicyReport : Type 0 where
  pub task_id : Text
  pub task_sha256 : Text
  pub passed : Bool
  pub trusted_harness_sha256 : Text
  pub base_sha : Text
  pub head_sha : Text
  pub patch_sha256 : Option Text
  pub changed_files : List DiffFile
  pub violations : List Text

pub record Finding : Type 0 where
  pub id : Text
  pub severity : Severity
  pub requirement_id : Option Text

pub record ReviewReport : Type 0 where
  pub task_id : Text
  pub task_sha256 : Text
  pub role : Role
  pub reviewer_id : Text
  pub session_id : Text
  pub prompt_sha256 : Text
  pub decision : Decision
  pub base_sha : Text
  pub head_sha : Text
  pub patch_sha256 : Text
  pub findings : List Finding
  pub unverified : List Text
  pub external_calls : Bool

pub record GateResult : Type 0 where
  pub task_id : Text
  pub task_sha256 : Text
  pub head_sha : Text
  pub patch_sha256 : Text
  pub acceptance_test_id : Text
  pub command : List Text
  pub expected_exit_code : ℕ
  pub passed : Bool

pub record RedEvidence : Type 0 where
  pub exit_code : ℕ
  pub failure_fingerprint_sha256 : Text
  pub test_patch_sha256 : Text

pub record GreenEvidence : Type 0 where
  pub exit_code : ℕ
  pub test_patch_sha256 : Text

pub record TddEvidence : Type 0 where
  pub schema_version : SchemaVersion
  pub task_id : Text
  pub task_sha256 : Text
  pub base_sha : Text
  pub head_sha : Text
  pub patch_sha256 : Text
  pub acceptance_test_id : Text
  pub command : List Text
  pub test_paths : List Text
  pub test_manifest_sha256 : Text
  pub test_patch_sha256 : Text
  pub red_snapshot_sha256 : Option Text
  pub green_snapshot_sha256 : Option Text
  pub red : RedEvidence
  pub green : GreenEvidence

pub record Verdict : Type 0 where
  pub task_id : Text
  pub task_sha256 : Text
  pub trusted_harness_sha256 : Text
  pub base_sha : Text
  pub head_sha : Text
  pub patch_sha256 : Option Text
  pub status : Status
  pub gates : List GateResult
  pub blocking_findings : List Text
  pub reasons : List Text
  pub human_approval_required : Bool
