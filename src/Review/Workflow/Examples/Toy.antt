-- ===== src/Review/Workflow/Examples/Toy.antt =====
-- The documents of a workflow for the examples, and a codec of them: the bytes of an object are how many
-- fields it has and its sequence number, base64 is the identity, and the last digit of a digest is the
-- sum of the bytes modulo 16.
use amazon_similar_search.Prelude.{
  ℕ, ◌+◌, ◌-◌, leb, ◌==◌, pos, false, Option, none, some, Text, codes, eq_text, if◌then◌else◌, List,
  [], ◌∷◌, ◌++◌,
}
use amazon_similar_search.Json.{Value, Fields, field, end}
use amazon_similar_search.Review.Judge.Texts.{Digest}
use amazon_similar_search.Review.Workflow.Codec.{Codec, size}
use amazon_similar_search.Review.Workflow.Request.{request_domain}
use amazon_similar_search.Review.Workflow.Prepared.{action_domain, prepared_domain}
use amazon_similar_search.Review.Workflow.Artifacts.{output_domain, count_items}
use amazon_similar_search.Review.Workflow.Finalized.{result_domain, finalized_domain}
use amazon_similar_search.Review.Workflow.Examples.Manifests.{
  toy_sha256, text, digest, phase, external, document, snapshot_digest, packet_digest, artifacts,
  manifest,
}

abbrev pub request : ℕ → Fields ℕ
request n = field (codes "schema_version") (text (codes "1.0")) (
    field (codes "workflow_id") (digest (codes "workflow")) (
      field (codes "phase") (text (phase n)) (
        field (codes "sequence") (Value.int (pos n)) (
          field (codes "previous_phase_sha256")
            (if n == 1 then Value.null else digest (result_domain ++ document 8 (n - 1)))
            (field (codes "task_sha256") (digest (codes "task")) (
              field (codes "runtime_manifest_sha256") (digest (codes "runtime")) (
                field (codes "coordinator_key_id") (digest (codes "key")) (
                  field (codes "coordinator_public_key_sha256") (digest (codes "public")) (
                    field (codes "candidate_sha256") (digest (codes "candidate")) (
                      field (codes "candidate_snapshot_sha256")
                        (if n == 1 then Value.null else snapshot_digest)
                        (field (codes "review_packet_sha256")
                          (if leb 5 n then packet_digest else Value.null)
                          (field (codes "input_artifacts_sha256")
                            (if n == 1 then digest (codes "inputs") else manifest (n - 1))
                            (field (codes "request_sha256")
                              (digest (request_domain ++ document 13 n)) end)))))))))))))

abbrev pub payload : List ℕ
payload = codes "payload"

abbrev pub action : ℕ → Fields ℕ
action n = field (codes "schema_version") (text (codes "1.0")) (
    field (codes "workflow_id") (digest (codes "workflow")) (
      field (codes "phase") (text (phase n)) (
        field (codes "sequence") (Value.int (pos n)) (
          field (codes "request_sha256") (digest (request_domain ++ document 13 n)) (
            field (codes "external_kind") (text (if external n then phase n else codes "none")) (
              field (codes "payload_sha256") (digest payload)
                (field (codes "action_sha256") (digest (action_domain ++ document 7 n)) end)))))))

abbrev prepared : ℕ → Fields ℕ
prepared n = field (codes "action") (Value.obj (action n)) (
    field (codes "payload_base64") (text payload) (
      field (codes "schema_version") (text (codes "1.0"))
        (field (codes "prepared_sha256") (digest (prepared_domain ++ document 3 n)) end)))

abbrev output : ℕ → Fields ℕ
output n = field (codes "schema_version") (text (codes "1.0")) (
    field (codes "workflow_id") (digest (codes "workflow")) (
      field (codes "phase") (text (phase n)) (
        field (codes "sequence") (Value.int (pos n)) (
          field (codes "request_sha256") (digest (request_domain ++ document 13 n)) (
            field (codes "artifacts") (Value.arr (artifacts n).0) (
              field (codes "candidate_snapshot_sha256") snapshot_digest (
                field (codes "review_packet_sha256") (if leb 4 n then packet_digest else Value.null)
                  (field (codes "output_artifacts_sha256") (manifest n) (
                    field (codes "output_sha256") (digest (output_domain ++ document 9 n))
                      end)))))))))

abbrev pub result : ℕ → Fields ℕ
result n = field (codes "schema_version") (text (codes "1.0")) (
    field (codes "request") (Value.obj (request n)) (
      field (codes "output_artifacts_sha256") (manifest n) (
        field (codes "artifacts") (Value.arr (artifacts n).1) (
          field (codes "candidate_snapshot_sha256") snapshot_digest (
            field (codes "review_packet_sha256") (if leb 4 n then packet_digest else Value.null) (
              field (codes "external_execution_sha256")
                (if external n then digest (n ∷ payload) else Value.null)
                (field (codes "coordinator_output_sha256") (digest (document 10 n))
                  (field (codes "phase_sha256") (digest (result_domain ++ document 8 n)) end))))))))

abbrev finalized : ℕ → Fields ℕ
finalized n = field (codes "coordinator_output_base64") (text (document 10 n)) (
    field (codes "next_request_base64") (if n == 7 then Value.null else text (document 14 (n + 1)))
      (field (codes "phase_result") (Value.obj (result n)) (
        field (codes "schema_version") (text (codes "1.0"))
          (field (codes "finalized_sha256") (digest (finalized_domain ++ document 4 n)) end))))

abbrev packet : Fields ℕ
packet = field (codes "base_sha") Value.null (field (codes "packet_sha256") packet_digest end)

-- The sequence number of a document.
unfoldable mutual
  pub number : Value ℕ → ℕ
  number (Value.obj d) = number_in d
  number (Value.int (pos n)) = n
  number _ = 0

  pub number_in : Fields ℕ → ℕ
  number_in end = 0
  number_in (field name v rest) =
      let here = number v in
      let later = number_in rest in
      if eq_text name (codes "sequence")
      then here
      else if eq_text name (codes "request")
      then here
      else if eq_text name (codes "action")
      then here
      else if eq_text name (codes "phase_result")
      then here
      else later

abbrev read : Text → Option (Value ℕ)
read (fields ∷ n ∷ rest) =
    if fields == 14
    then some (Value.obj (request n))
    else if fields == 4
    then some (Value.obj (prepared n))
    else if fields == 10
    then some (Value.obj (output n))
    else if fields == 5
    then some (Value.obj (finalized n))
    else if fields == 2
    then some (Value.obj packet)
    else none
read _ = none

unfoldable pub dump : Value ℕ → Text
unfolding number_in
dump (Value.obj d) = size d ∷ number_in d ∷ []
dump (Value.arr xs) = 0 ∷ count_items xs ∷ []
dump _ = []

instance abbrev pub toy_codec : Codec ℕ
toy_codec = record {
  loads = read;
  dumps = λ v. some (dump v);
  encode = λ s. some s;
  decode = λ raw. some raw;
  b64encode = λ raw. raw;
  b64decode = λ s. some s;
  equal_floats = λ x y. x == y;
  equal_int = λ n x. false;
}

instance abbrev pub toy_digest : Digest
toy_digest = record { sha256 = toy_sha256; utf8 = λ s. s }
