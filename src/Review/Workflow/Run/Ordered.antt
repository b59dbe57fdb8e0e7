-- ===== src/Review/Workflow/Run/Ordered.antt =====
-- What a phase in tools/ai_review/outer_workflow_state.py may execute outside.
use amazon_similar_search.Prelude.{
  append-nil, ◌≡◌, refl, ap, ℕ, Bool, true, false, Bool-cases, inl, inr, some, Text, codes, eq_text,
  List, [], ◌∷◌, ◌++◌, subst, if◌then◌else◌,
}
use amazon_similar_search.Json.{Value, Fields}
use amazon_similar_search.Review.Judge.Texts.{Digest}
use amazon_similar_search.Review.Workflow.Codec.{Codec, entry, is_text}
use amazon_similar_search.Review.Workflow.Prepared.{
  PreparedTransition, external_kind, parse_prepared_transition,
}
use amazon_similar_search.Review.Workflow.Run.{Call, offline, broker, Log, Callbacks, call, execute}
use amazon_similar_search.Review.Workflow.Chain.{is_external, execution}
use amazon_similar_search.Review.Workflow.Run.Quiet.{executed}

pub append-append : {A : Type 0} (xs ys zs : List A) → (xs ++ ys) ++ zs ≡ xs ++ (ys ++ zs)
append-append [] ys zs = refl
append-append (x ∷ xs) ys zs = ap (λ (rest : List _). x ∷ rest) (append-append xs ys zs)

module _ {N : Type 0} ⦃C : Codec N⦄ ⦃D : Digest⦄ where
  -- The executor of the phase has been called with the payload of an action that was accepted for a
  -- request of the phase.
  abbrev pub IsOrdered : Text → Call N → Type 0
  IsOrdered phase made =
      (request : Fields N) × (prepared_raw : List ℕ) × (prepared : PreparedTransition N) × (entry
          (codes "phase") request
        ≡ Value.str phase)
      × (parse_prepared_transition prepared_raw request ≡ some prepared)
      × (made ≡ execution phase prepared.payload)

  -- The executions are those of the first external phases, each once and in order.
  abbrev pub AreOrdered : List Text → List (Call N) → Type 0
  AreOrdered phases [] = Unit {0}
  AreOrdered [] (made ∷ calls) = ⊥
  AreOrdered (phase ∷ phases) (made ∷ calls) =
      let here = IsOrdered phase made × AreOrdered phases calls in
      let later = AreOrdered phases (made ∷ calls) in if is_external phase then here else later

  abbrev pub ExecutesWhen : Bool → Text → List (Call N) → Type 0
  ExecutesWhen true phase calls = (made : Call N) × (calls ≡ made ∷ []) × IsOrdered phase made
  ExecutesWhen false phase calls = calls ≡ []

  -- What a phase executes once its action is accepted.
  abbrev pub Executes : Text → List (Call N) → Type 0
  Executes phase calls = ExecutesWhen (is_external phase) phase calls

  AreOrdered-skip :
      (phase : Text) (phases : List Text) (calls : List (Call N))
      → is_external phase ≡ false
      → AreOrdered phases calls
      → AreOrdered (phase ∷ phases) calls
  AreOrdered-skip phase phases [] e next = tt
  AreOrdered-skip phase phases (made ∷ calls) e next = rw e next

  pub Executes-AreOrdered :
      (phase : Text) (phases : List Text) (calls later : List (Call N))
      → Executes phase calls
      → AreOrdered phases later
      → AreOrdered (phase ∷ phases) (calls ++ later)
  Executes-AreOrdered phase phases calls later now next = elim (Bool-cases (is_external phase)) [
    | inl e ↦ let (made, same, ordered) = (rw e at now) in rw same (rw e (ordered, next))
    | inr e ↦ rw (rw e at now) (AreOrdered-skip phase phases later e next)
  ]

module _ {N : Type 0} ⦃C : Codec N⦄ ⦃D : Digest⦄ (callbacks : Callbacks N) where
  pub execute-Executes :
      (phase : Text) (payload : List ℕ) (log : Log N)
      → IsOrdered {N = N} phase (execution phase payload)
      → (calls : List (Call N)) × (executed
            (execute callbacks (Value.str (external_kind {N = N} (Value.str phase))) payload log).0
          ≡ executed log ++ calls)
        × Executes {N = N} phase calls
  unfolding execute external_kind is_text is_external execution call eq_text
  execute-Executes phase payload log ordered = elim (Bool-cases (eq_text phase (codes "offline"))) [
    | inl e ↦
        let ran : execution phase payload ≡ offline payload = rw e refl in
        (
          offline payload ∷ [],
          rw e refl,
          rw e (offline payload, refl, subst (IsOrdered phase) ran ordered),
        )
    | inr e ↦
        let ran : execution phase payload ≡ broker payload = rw e refl in
        elim (Bool-cases (eq_text phase (codes "broker"))) [
          | inl b ↦ (
            broker payload ∷ [],
            rw (e, b) refl,
            rw (e, b) (broker payload, refl, subst (IsOrdered phase) ran ordered),
          )
          | inr b ↦ ([], rw (e, b) (append-nil (executed log)), rw (e, b) refl)
        ]
  ]
