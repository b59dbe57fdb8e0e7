-- ===== src/Review/Workflow/Run/Constant.antt =====
-- The anchors of a workflow in tools/ai_review/outer_workflow_state.py: they stay what they were.
use amazon_similar_search.Prelude.{
  ◌≡◌, refl, sym, ◌∙◌, ℕ, true, Option, none, some, some_inj, Text, codes, All, subst, List, [],
  ◌∷◌,
}
use amazon_similar_search.Json.{Value, Fields}
use amazon_similar_search.Review.Judge.Texts.{Digest}
use amazon_similar_search.Review.Workflow.Codec.{Codec, entry, same_value}
use amazon_similar_search.Review.Workflow.Request.{validate_phase_request_bytes, phase_order}
use amazon_similar_search.Review.Workflow.Finalized.{FinalizedTransition}
use amazon_similar_search.Review.Workflow.Handover.{constant_fields}
use amazon_similar_search.Review.Workflow.Chain.{Chain, ended, linked, Passes}
use amazon_similar_search.Review.Workflow.Run.{Callbacks, Log, next_raw, run_fixed_workflow}
use amazon_similar_search.Review.Workflow.Run.Linked.{run_fixed_workflow-Chain}

module _ {N : Type 0} where
  -- The two objects have the same values under the names.
  abbrev pub Agree : List Text → Fields N → Fields N → Type 0
  Agree names request first = All (λ name. entry name request ≡ entry name first) names

  Agree-self : (names : List Text) (request : Fields N) → Agree names request request
  Agree-self [] request = tt
  Agree-self (name ∷ names) request = (refl, Agree-self names request)

  Agree-trans :
      (names : List Text) (a b c : Fields N) → Agree names a b → Agree names b c → Agree names a c
  Agree-trans [] a b c h k = tt
  Agree-trans (name ∷ names) a b c h k = (h.0 ∙ k.0, Agree-trans names a b c h.1 k.1)

module _ {N : Type 0} ⦃C : Codec N⦄ ⦃D : Digest⦄ where
  -- The result is of a request that agrees with the first one.
  abbrev pub Carries : Fields N → FinalizedTransition N → Type 0
  Carries first t =
      (request : Fields N) × (same_value (entry (codes "request") t.result) (Value.obj request)
        ≡ true)
      × Agree constant_fields request first

  abbrev Starts : Fields N → List ℕ → Type 0
  Starts first raw =
      (request : Fields N)
      → validate_phase_request_bytes raw ≡ some request
      → Agree constant_fields request first

  Passes-Starts :
      (next_request : Option (List ℕ)) (raw : List ℕ) (first request result : Fields N)
      → validate_phase_request_bytes raw ≡ some request
      → Agree constant_fields request first
      → Passes request result next_request
      → Starts first (next_raw next_request raw)
  Passes-Starts none raw first request result valid same passes r h =
      let again : request ≡ r = some_inj (sym valid ∙ h) in
      subst (λ q. Agree constant_fields q first) again same
  Passes-Starts (some raw') raw first request result valid same (next, next_valid, bound) r h =
      let again : next ≡ r = some_inj (sym next_valid ∙ h) in
      subst (λ q. Agree constant_fields q first) again
        (Agree-trans constant_fields next request first bound.0 same)

  Chain-Carries :
      (callbacks : Callbacks N) (first : Fields N) (phases : List Text)
      (ts : List (FinalizedTransition N)) (raw : List ℕ) {log final : Log N}
      → Starts first raw
      → Chain callbacks log raw phases ts final
      → All (Carries first) ts
  Chain-Carries callbacks first [] [] raw starts ended = tt
  Chain-Carries callbacks first [] (t ∷ ts) raw starts chain = elim chain [ ]
  Chain-Carries callbacks first (phase ∷ phases) [] raw starts chain = elim chain [ ]
  Chain-Carries callbacks first (phase ∷ phases) (t ∷ ts) raw starts (linked done rest) =
      let (measured, passes) = done.step in
      let same = starts done.request done.valid in
      (
        (done.request, measured.0, same),
        Chain-Carries callbacks first phases ts (next_raw t.next_request raw)
            (Passes-Starts t.next_request raw first done.request t.result done.valid same passes)
            rest,
      )

module _ {N : Type 0} ⦃C : Codec N⦄ ⦃D : Digest⦄ (callbacks : Callbacks N) where
  -- The workflow's id, its task, its runtime manifest, the coordinator's keys and the candidate of every
  -- result of a run that returns are those of the initial request.
  pub run_fixed_workflow-Carries :
      (initial_request : List ℕ) (log : Log N) (first : Fields N)
      (ts : List (FinalizedTransition N))
      → validate_phase_request_bytes initial_request ≡ some first
      → (run_fixed_workflow callbacks initial_request log).1 ≡ some ts
      → All (Carries first) ts
  run_fixed_workflow-Carries initial_request log first ts valid h =
      Chain-Carries callbacks first phase_order ts initial_request
        (λ request again.
          subst (λ q. Agree constant_fields q first) (some_inj (sym valid ∙ again))
            (Agree-self constant_fields first))
        (run_fixed_workflow-Chain callbacks initial_request log ts h)
