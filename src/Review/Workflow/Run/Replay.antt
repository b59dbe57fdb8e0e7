-- ===== src/Review/Workflow/Run/Replay.antt =====
-- A run in tools/ai_review/outer_workflow_state.py that succeeds has replayed nothing.
use amazon_similar_search.Prelude.{
  ◌≡◌, ap, sym, ◌∙◌, ℕ, suc, ◌+◌, true, false, some, some_inj, Text, member, length, List, [], ◌∷◌,
  subst, arith,
}
use amazon_similar_search.Review.Judge.Texts.{Digest}
use amazon_similar_search.Review.Workflow.Codec.{Codec}
use amazon_similar_search.Review.Workflow.Run.{
  Log, Callbacks, Progress, is_new, run_phase, run_phases,
}
use amazon_similar_search.Review.Workflow.Run.Advance.{exec_some, IsAdvanced, run_phase-IsAdvanced}

-- No text stands twice in the list.
abbrev pub IsDistinct : List Text → Type 0
IsDistinct [] = Unit {0}
IsDistinct (s ∷ seen) = (member s seen ≡ false) × IsDistinct seen

is_new-false : (s : Text) (seen : List Text) → is_new s seen ≡ true → member s seen ≡ false
is_new-false s seen h = ground arith

module _ {N : Type 0} where
  abbrev pub HasNoReplay : Progress N → Type 0
  HasNoReplay progress =
      IsDistinct progress.seen_requests
      × IsDistinct progress.seen_actions
      × IsDistinct progress.seen_finalized

module _ {N : Type 0} where
  -- One more digest for each phase.
  abbrev pub HasSeen : ℕ → Progress N → Progress N → Type 0
  HasSeen n progress final =
      (length final.seen_requests ≡ n + length progress.seen_requests)
      × (length final.seen_actions ≡ n + length progress.seen_actions)
      × (length final.seen_finalized ≡ n + length progress.seen_finalized)

module _ {N : Type 0} ⦃C : Codec N⦄ ⦃D : Digest⦄ (callbacks : Callbacks N) where
  run_phase-HasNoReplay :
      (phase : Text) (progress later : Progress N)
      → HasNoReplay progress
      → IsAdvanced phase progress later
      → HasNoReplay later
  run_phase-HasNoReplay phase progress later (requests, actions, finalized) advanced =
      let (ready, external, t, (_, _, _, new_request, _, new_action), step, new, moved) =
        advanced in
      subst HasNoReplay (sym moved) (
        (is_new-false ready.request_sha256 progress.seen_requests new_request, requests),
        (is_new-false ready.action_sha256 progress.seen_actions new_action, actions),
        (is_new-false t.finalized_sha256 progress.seen_finalized new, finalized),
      )

  run_phase-HasSeen :
      (n : ℕ) (phase : Text) (progress later final : Progress N)
      → IsAdvanced phase progress later
      → HasSeen n later final
      → HasSeen (suc n) progress final
  run_phase-HasSeen n phase progress later final advanced seen =
      let (ready, external, t, _, _, _, moved) = advanced in
      let (requests, actions, finalized) = seen in
      (
        (requests ∙ ap (λ (p : Progress N). n + length p.seen_requests) moved) ∙ omega arith,
        (actions ∙ ap (λ (p : Progress N). n + length p.seen_actions) moved) ∙ omega arith,
        (finalized ∙ ap (λ (p : Progress N). n + length p.seen_finalized) moved) ∙ omega arith,
      )

  -- Phases that all succeed leave the digests of requests, actions and finalized transitions without
  -- a repetition, and there is one more of each for each phase.
  pub run_phases-HasNoReplay :
      (phases : List Text) (progress final : Progress N) (log : Log N)
      → HasNoReplay progress
      → (run_phases callbacks phases progress log).1 ≡ some final
      → HasNoReplay final × HasSeen (length phases) progress final
  unfolding run_phases
  run_phases-HasNoReplay [] progress final log fresh h = (
    subst HasNoReplay (some_inj h) fresh,
    subst (HasSeen 0 progress) (some_inj h) (omega arith, omega arith, omega arith),
  )
  run_phases-HasNoReplay (phase ∷ phases) progress final log fresh h =
      let (later, advanced, h1) = exec_some (run_phase callbacks phase progress) _ log h in
      let moved = run_phase-IsAdvanced callbacks phase progress log advanced in
      let (distinct, seen) =
        run_phases-HasNoReplay phases later final (run_phase callbacks phase progress log).0
          (run_phase-HasNoReplay phase progress later fresh moved) h1 in
      (distinct, run_phase-HasSeen (length phases) phase progress later final moved seen)
