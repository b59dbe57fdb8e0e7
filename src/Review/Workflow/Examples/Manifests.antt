-- ===== src/Review/Workflow/Examples/Manifests.antt =====
-- The artifacts of each phase for the examples and their digests, the last digit of which is the sum of
-- the bytes modulo 16.
use amazon_similar_search.Prelude.{
  ℕ, zero, suc, ◌+◌, ◌-◌, ◌%◌, ltb, ◌==◌, Bool, true, Option, none, some, Text, codes,
  if◌then◌else◌, List, [], ◌∷◌,
}
use amazon_similar_search.Json.{Value, Items, field, end, cons, nil}
use amazon_similar_search.Review.Workflow.Request.{phase_order}
use amazon_similar_search.Review.Workflow.Artifacts.{count_items}
use amazon_similar_search.Review.Workflow.Finalized.{phase_at}

abbrev sum : List ℕ → ℕ
sum [] = 0
sum (c ∷ s) = c + sum s

abbrev hex_digit : ℕ → ℕ
hex_digit d = if ltb d 10 then d + 48 else d + 87

abbrev zeros : ℕ → Text → Text
zeros zero s = s
zeros (suc n) s = 48 ∷ zeros n s

abbrev pub toy_sha256 : List ℕ → Text
toy_sha256 raw = zeros 63 (hex_digit (sum raw % 16) ∷ [])

abbrev pub text : Text → Value ℕ
text s = Value.str s

abbrev pub digest : List ℕ → Value ℕ
digest raw = Value.str (toy_sha256 raw)

abbrev or_empty : Option Text → Text
or_empty none = []
or_empty (some s) = s

-- The phase of a sequence number.
abbrev pub phase : ℕ → Text
phase n = or_empty (phase_at (n - 1) phase_order)

abbrev pub external : ℕ → Bool
external n = if n == 3 then true else n == 5

-- A text of the first two bytes of a document.
abbrev pub document : ℕ → ℕ → List ℕ
document fields n = fields ∷ n ∷ 10 ∷ []

abbrev pub snapshot_digest : Value ℕ
snapshot_digest = digest (codes "tree")

abbrev pub packet_digest : Value ℕ
packet_digest = digest (1 ∷ 0 ∷ [])

abbrev artifact : Text → Text → Items ℕ → Items ℕ
artifact name content rest =
    cons
      (Value.obj
        (field (codes "content_base64") (text content) (field (codes "name") (text name) end)))
      rest

abbrev semantic : Text → Value ℕ → Items ℕ → Items ℕ
semantic name sha256 rest =
    cons (Value.obj (field (codes "name") (text name) (field (codes "sha256") sha256 end))) rest

abbrev tdd : Items ℕ
tdd =
    artifact (codes "tdd-green:A") (codes "green") (artifact (codes "tdd-red:A") (codes "red") nil)

abbrev tdd_semantic : Items ℕ
tdd_semantic =
    semantic (codes "tdd-green:A") (digest (codes "green"))
      (semantic (codes "tdd-red:A") (digest (codes "red")) nil)

-- The artifacts of each phase, and their digests.
abbrev all_artifacts : List (Items ℕ × Items ℕ)
all_artifacts =
    (
      artifact (codes "base-snapshot") (toy_sha256 (codes "base")) (
          artifact (codes "candidate-snapshot") (toy_sha256 (codes "tree"))
            (artifact (codes "policy") (codes "policy") nil)),
      semantic (codes "base-snapshot") (digest (codes "base")) (
          semantic (codes "candidate-snapshot") snapshot_digest
            (semantic (codes "policy") (digest (codes "policy")) nil)),
    )
    ∷ (
      artifact (codes "red-snapshot:A") (toy_sha256 (codes "red tree")) nil,
      semantic (codes "red-snapshot:A") (digest (codes "red tree")) nil,
    )
    ∷ (
      artifact (codes "gate:A") (codes "passed") tdd,
      semantic (codes "gate:A") (digest (codes "passed")) tdd_semantic,
    )
    ∷ (
      artifact (codes "review-packet") (document 2 0) nil,
      semantic (codes "review-packet") packet_digest nil,
    )
    ∷ (
      artifact (codes "adversary") (codes "accept")
          (artifact (codes "reviewer") (codes "accept") nil),
      semantic (codes "adversary") (digest (codes "accept"))
          (semantic (codes "reviewer") (digest (codes "accept")) nil),
    )
    ∷ (
      artifact (codes "adversary") (codes "accept") (
          artifact (codes "gate:A") (codes "passed") (
            artifact (codes "policy") (codes "policy") (
              artifact (codes "reviewer") (codes "accept")
                (artifact (codes "task") (codes "task") tdd)))),
      semantic (codes "adversary") (digest (codes "accept")) (
          semantic (codes "gate:A") (digest (codes "passed")) (
            semantic (codes "policy") (digest (codes "policy")) (
              semantic (codes "reviewer") (digest (codes "accept"))
                (semantic (codes "task") (digest (codes "task")) tdd_semantic)))),
    )
    ∷ (
      artifact (codes "verdict") (codes "review") nil,
      semantic (codes "verdict") (digest (codes "review")) nil,
    )
    ∷ []

abbrev at : ℕ → List (Items ℕ × Items ℕ) → Items ℕ × Items ℕ
at n [] = (nil, nil)
at zero (x ∷ xs) = x
at (suc n) (x ∷ xs) = at n xs

abbrev pub artifacts : ℕ → Items ℕ × Items ℕ
artifacts n = at (n - 1) all_artifacts

-- The digest of a phase's artifacts.
abbrev pub manifest : ℕ → Value ℕ
manifest n = digest (document 0 (count_items (artifacts n).1))
