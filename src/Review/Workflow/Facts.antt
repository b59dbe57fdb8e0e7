-- ===== src/Review/Workflow/Facts.antt =====
-- What the checks of tools/ai_review/outer_workflow_state.py show when they pass.
use amazon_similar_search.Prelude.{
  ◌≡◌, refl, ap, sym, ◌∙◌, Bool, true, false, Bool-cases, inl, inr, ◌⊎◌, Option, none, some, Text,
  eq_text_sound, all, All, if◌then◌else◌, List, [], ◌∷◌, arith,
}
use amazon_similar_search.Json.{Value}
use amazon_similar_search.Review.Workflow.Codec.{
  Codec, require, ◌>>◌, is_null, is_text, same_value, sha,
}
use amazon_similar_search.Review.Workflow.Artifacts.{text_of}
use amazon_similar_search.Review.Workflow.Request.{is_digest, is_digest_or_null}

-- A check that is passed, before more code.
pub require-some :
    {B : Type 0} (c : Bool) {rest : Option B} {b : B}
    → (require c >> rest) ≡ some b
    → (c ≡ true) × (rest ≡ some b)
require-some true h = (refl, h)
require-some false h = ground arith

pub check_some :
    {B : Type 0} (o : Option (Unit {0})) {rest : Option B} {b : B}
    → (o >> rest) ≡ some b
    → (o ≡ some tt) × (rest ≡ some b)
check_some none h = ground arith
check_some (some _) h = (refl, h)

pub require-true : (c : Bool) → require c ≡ some tt → c ≡ true
require-true true h = refl
require-true false h = ground arith

pub all-All :
    {A : Type 0} (p : A → Bool) (Q : A → Type 0) (xs : List A)
    → ((x : A) → p x ≡ true → Q x)
    → all p xs ≡ true
    → All Q xs
all-All p Q [] holds h = tt
all-All p Q (x ∷ xs) holds h = elim (Bool-cases (p x)) [
  | inl e ↦ (holds x e, all-All p Q xs holds (rw (all, e) at h))
  | inr e ↦ cc (rw (all, e) at h)
]

module _ {N : Type 0} where
  abbrev pub IsText : Value N → Type 0
  IsText v = (s : Text) × (v ≡ Value.str s)

  -- A text or null: such a value is equal to no other.
  abbrev pub IsPlain : Value N → Type 0
  IsPlain v = (v ≡ Value.null) ⊎ IsText v

  pub is_text_sound : (s : Text) (v : Value N) → is_text s v ≡ true → v ≡ Value.str s
  unfolding is_text
  is_text_sound s (Value.str t) h = ap Value.str (eq_text_sound t s h)
  is_text_sound s Value.null h = ground arith
  is_text_sound s (Value.bool b) h = ground arith
  is_text_sound s (Value.int n) h = ground arith
  is_text_sound s (Value.float x) h = ground arith
  is_text_sound s (Value.arr xs) h = ground arith
  is_text_sound s (Value.obj d) h = ground arith

  pub text_of-some : (v : Value N) {s : Text} → text_of v ≡ some s → v ≡ Value.str s
  text_of-some (Value.str t) h = ap Value.str (ground arith)
  text_of-some Value.null h = ground arith
  text_of-some (Value.bool b) h = ground arith
  text_of-some (Value.int n) h = ground arith
  text_of-some (Value.float x) h = ground arith
  text_of-some (Value.arr xs) h = ground arith
  text_of-some (Value.obj d) h = ground arith

  pub is_digest-IsPlain : (v : Value N) → is_digest v ≡ true → IsPlain v
  unfolding is_digest sha
  is_digest-IsPlain (Value.str t) h = inr (t, refl)
  is_digest-IsPlain Value.null h = ground arith
  is_digest-IsPlain (Value.bool b) h = ground arith
  is_digest-IsPlain (Value.int n) h = ground arith
  is_digest-IsPlain (Value.float x) h = ground arith
  is_digest-IsPlain (Value.arr xs) h = ground arith
  is_digest-IsPlain (Value.obj d) h = ground arith

  pub is_digest_or_null-IsPlain : (v : Value N) → is_digest_or_null v ≡ true → IsPlain v
  unfolding is_digest_or_null
  is_digest_or_null-IsPlain v h = elim (Bool-cases (is_digest v)) [
    | inl e ↦ is_digest-IsPlain v e
    | inr e ↦ null_plain v (rw e at h)
  ]
    where
      null_plain : (w : Value N) → (if is_null w then true else false) ≡ true → IsPlain w
      null_plain (Value.str t) h = inr (t, refl)
      null_plain Value.null h = inl refl
      null_plain (Value.bool b) h = ground arith
      null_plain (Value.int n) h = ground arith
      null_plain (Value.float x) h = ground arith
      null_plain (Value.arr xs) h = ground arith
      null_plain (Value.obj d) h = ground arith

  pub sha-some : (v : Value N) {s : Text} → sha v ≡ some s → v ≡ Value.str s
  unfolding sha
  sha-some (Value.str t) h = ap Value.str (ground arith)
  sha-some Value.null h = ground arith
  sha-some (Value.bool b) h = ground arith
  sha-some (Value.int n) h = ground arith
  sha-some (Value.float x) h = ground arith
  sha-some (Value.arr xs) h = ground arith
  sha-some (Value.obj d) h = ground arith

module _ {N : Type 0} ⦃C : Codec N⦄ where
  same_value-null : (v : Value N) → same_value v Value.null ≡ true → v ≡ Value.null
  unfolding same_value
  same_value-null Value.null h = refl
  same_value-null (Value.bool b) h = ground arith
  same_value-null (Value.int n) h = ground arith
  same_value-null (Value.float x) h = ground arith
  same_value-null (Value.str r) h = ground arith
  same_value-null (Value.arr xs) h = ground arith
  same_value-null (Value.obj d) h = ground arith

  null-same_value : (v : Value N) → same_value Value.null v ≡ true → Value.null ≡ v
  unfolding same_value
  null-same_value Value.null h = refl
  null-same_value (Value.bool b) h = ground arith
  null-same_value (Value.int n) h = ground arith
  null-same_value (Value.float x) h = ground arith
  null-same_value (Value.str r) h = ground arith
  null-same_value (Value.arr xs) h = ground arith
  null-same_value (Value.obj d) h = ground arith

  same_value-text : (v : Value N) (s : Text) → same_value v (Value.str s) ≡ true → v ≡ Value.str s
  unfolding same_value
  same_value-text Value.null s h = ground arith
  same_value-text (Value.bool b) s h = ground arith
  same_value-text (Value.int n) s h = ground arith
  same_value-text (Value.float x) s h = ground arith
  same_value-text (Value.str r) s h = ap Value.str (eq_text_sound r s h)
  same_value-text (Value.arr xs) s h = ground arith
  same_value-text (Value.obj d) s h = ground arith

  text-same_value : (v : Value N) (s : Text) → same_value (Value.str s) v ≡ true → Value.str s ≡ v
  unfolding same_value
  text-same_value Value.null s h = ground arith
  text-same_value (Value.bool b) s h = ground arith
  text-same_value (Value.int n) s h = ground arith
  text-same_value (Value.float x) s h = ground arith
  text-same_value (Value.str r) s h = ap Value.str (eq_text_sound s r h)
  text-same_value (Value.arr xs) s h = ground arith
  text-same_value (Value.obj d) s h = ground arith

  -- A text or null is equal to itself alone.
  pub IsPlain-same_value : (v w : Value N) → IsPlain v → same_value v w ≡ true → v ≡ w
  IsPlain-same_value v w (inl e) h = e ∙ null-same_value w (rw e at h)
  IsPlain-same_value v w (inr (s, e)) h = e ∙ text-same_value w s (rw e at h)

  pub same_value-IsPlain : (v w : Value N) → IsPlain w → same_value v w ≡ true → v ≡ w
  same_value-IsPlain v w (inl e) h = same_value-null v (rw e at h) ∙ sym e
  same_value-IsPlain v w (inr (s, e)) h = same_value-text v s (rw e at h) ∙ sym e
