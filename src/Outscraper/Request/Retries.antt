-- ===== src/Outscraper/Request/Retries.antt =====
-- What every run of the retry loop does: how much it sends, to whom, and how it can end.
use amazon_similar_search.Prelude.{
  ℕ, zero, suc, ℤ, pos, negsuc, false, ◌+◌, ◌≤◌, ◌≡◌, ◌≢◌, refl, ap, ◌∙◌, ◌⊎◌, inl, inr, Bool-cases,
  ltb, ◌*◌, ◌^◌, ◌-◌, Text, List, [], ◌∷◌, All, arith,
}
use amazon_similar_search.Json.{Fields}
use amazon_similar_search.Outscraper.Task.{
  Reason, max_attempts_below_one, timeout_not_positive, backoff_negative, value_error, Result,
  assertion_error, err,
}
use amazon_similar_search.Outscraper.Request.{
  Params, Effect, get, sleep, Reply, Server, Outcome, retry, stop, RequestOptions, rounds_of, below,
  outcome, sleep_before_retry, request_loop, request_json,
}

-- How many requests a log holds.
abbrev pub sends : List Effect → ℕ
sends [] = 0
sends (get _ _ _ ∷ log) = suc (sends log)
sends (sleep _ ∷ log) = sends log

Outcome-cases :
    {N : Type 0} (o : Outcome N) → (o ≡ retry) ⊎ ((r : Result N (Fields N)) × (o ≡ stop r))
Outcome-cases retry = inl refl
Outcome-cases (stop r) = inr (r, refl)

rounds_of_pos : (n : ℤ) → below n 1 ≡ false → (rounds : ℕ) × (rounds_of n ≡ suc rounds)
rounds_of_pos (pos zero) h = cc
rounds_of_pos (pos (suc n)) h = (n, refl)
rounds_of_pos (negsuc n) h = cc

sends-sleep_before_retry :
    (attempt backoff : ℕ) (log : List Effect)
    → sends (sleep_before_retry attempt backoff log) ≡ sends log
unfolding sleep_before_retry
sends-sleep_before_retry attempt backoff log = ground arith

All-sleep_before_retry :
    (Q : Effect → Type 0) (attempt backoff : ℕ) (log : List Effect)
    → ((n : ℕ) → Q (sleep n))
    → All Q log
    → All Q (sleep_before_retry attempt backoff log)
unfolding sleep_before_retry
All-sleep_before_retry Q attempt backoff log h hs =
    elim (Bool-cases (ltb 0 (backoff * 2 ^ (attempt - 1)))) [
      | inl e ↦ rw e (h _, hs)
      | inr e ↦ rw e hs
    ]

module _ {N : Type 0} where
  outcome_last : (r : Reply N) (attempt : ℕ) → outcome r attempt attempt ≢ retry
  unfolding outcome
  outcome_last r attempt h = ground arith

  outcome-ne-assertion_error :
      (r : Reply N) (attempt max_attempts : ℕ)
      → outcome r attempt max_attempts ≢ stop (err assertion_error)
  unfolding outcome
  outcome-ne-assertion_error r attempt max_attempts h = ground arith

module _ {N : Type 0} (server : Server N) (url : Text) (params : Params) (api_key : Text) where
  -- What one step of the loop does, by the outcome of its reply.
  module _ (max_attempts backoff rounds attempt : ℕ) (log : List Effect) where
    pub request_loop-retry :
        outcome (server (get url params api_key ∷ log)) attempt max_attempts ≡ retry
        → request_loop server url params api_key max_attempts backoff (suc rounds) attempt log
          ≡ request_loop server url params api_key max_attempts backoff rounds
              (attempt + 1)
              (sleep_before_retry attempt backoff (get url params api_key ∷ log))
    request_loop-retry e = unfold request_loop in rw (request_loop, e)

    pub request_loop-stop :
        {r : Result N (Fields N)}
        → outcome (server (get url params api_key ∷ log)) attempt max_attempts ≡ stop r
        → request_loop server url params api_key max_attempts backoff (suc rounds) attempt log
          ≡ (r, get url params api_key ∷ log)
    request_loop-stop e = unfold request_loop in rw (request_loop, e)

  -- A guard that raises sends nothing; otherwise the loop runs for a positive number of rounds.
  abbrev Guarded : RequestOptions → List Effect → Type 0
  Guarded options log =
      ((reason : Reason) × (request_json server url params api_key options log
          ≡ (err (value_error reason), log)))
      ⊎ ((rounds : ℕ) × (rounds_of options.max_attempts ≡ suc rounds)
          × (request_json server url params api_key options log
              ≡ request_loop server url params api_key (suc rounds) (rounds_of options.backoff)
                  (suc rounds) 1 log))

  pub request_json-cases : (options : RequestOptions) (log : List Effect) → Guarded options log
  unfolding request_json
  request_json-cases options log = elim (Bool-cases (below options.max_attempts 1)) [
    | inl few ↦ inl (max_attempts_below_one, rw few)
    | inr many ↦ elim (Bool-cases (below options.timeout 1)) [
      | inl short ↦ inl (timeout_not_positive, rw (many, short))
      | inr long ↦ elim (Bool-cases (below options.backoff 0)) [
        | inl past ↦ inl (backoff_negative, rw (many, long, past))
        | inr ahead ↦
            let (rounds, n) = rounds_of_pos options.max_attempts many in
            inr (rounds, n, rw (many, long, ahead, n))
      ]
    ]
  ]

  module _ (max_attempts backoff : ℕ) where
    sends-request_loop :
        (rounds attempt : ℕ) (log : List Effect)
        → sends (request_loop server url params api_key max_attempts backoff rounds attempt log).1
          ≤ sends log + rounds
    sends-request_loop zero attempt log = unfold request_loop in omega arith
    sends-request_loop (suc rounds) attempt log =
        let sent = get url params api_key ∷ log in
        elim (Outcome-cases (outcome (server sent) attempt max_attempts)) [
          | inl e ↦ rw (request_loop-retry max_attempts backoff rounds attempt log e) (
              omega (
                arith,
                sends-request_loop rounds (attempt + 1) (sleep_before_retry attempt backoff sent),
                sends-sleep_before_retry attempt backoff sent,
              ))
          | inr (r, e) ↦
              rw (request_loop-stop max_attempts backoff rounds attempt log e) (omega arith)
        ]

    All-request_loop :
        (Q : Effect → Type 0)
        → Q (get url params api_key)
        → ((n : ℕ) → Q (sleep n))
        → (rounds attempt : ℕ) (log : List Effect) → All Q log
        → All Q (request_loop server url params api_key max_attempts backoff rounds attempt log).1
    All-request_loop Q sent slept zero attempt log h = unfold request_loop in h
    All-request_loop Q sent slept (suc rounds) attempt log h =
        let log' = get url params api_key ∷ log in
        elim (Outcome-cases (outcome (server log') attempt max_attempts)) [
          | inl e ↦ rw (request_loop-retry max_attempts backoff rounds attempt log e) (
              All-request_loop Q sent slept rounds (attempt + 1)
                (sleep_before_retry attempt backoff log')
                (All-sleep_before_retry Q attempt backoff log' slept (sent, h)))
          | inr (r, e) ↦ rw (request_loop-stop max_attempts backoff rounds attempt log e) (sent, h)
        ]

    last_attempt : (attempt : ℕ) → attempt + 0 ≡ max_attempts → attempt ≡ max_attempts
    last_attempt attempt h = omega arith

    stop_result :
        (rounds attempt : ℕ) (log : List Effect) {r : Result N (Fields N)}
        → outcome (server (get url params api_key ∷ log)) attempt max_attempts ≡ stop r
        → (request_loop server url params api_key max_attempts backoff (suc rounds) attempt log).0
          ≢ err assertion_error
    stop_result rounds attempt log e =
        rw (request_loop-stop max_attempts backoff rounds attempt log e)
          λ p. outcome-ne-assertion_error _ _ _ (e ∙ ap stop p)

    request_loop-ne-assertion_error :
        (rounds attempt : ℕ) (log : List Effect)
        → attempt + rounds ≡ max_attempts
        → (request_loop server url params api_key max_attempts backoff (suc rounds) attempt log).0
          ≢ err assertion_error
    request_loop-ne-assertion_error zero attempt log h =
        let log' = get url params api_key ∷ log in
        elim (Outcome-cases (outcome (server log') attempt max_attempts)) [
          | inl e ↦ absurd (outcome_last (server log') attempt (rw (← last_attempt attempt h) at e))
          | inr (r, e) ↦ stop_result 0 attempt log e
        ]
    request_loop-ne-assertion_error (suc rounds) attempt log h =
        let log' = get url params api_key ∷ log in
        elim (Outcome-cases (outcome (server log') attempt max_attempts)) [
          | inl e ↦ rw (request_loop-retry max_attempts backoff (suc rounds) attempt log e) (
              request_loop-ne-assertion_error rounds (attempt + 1)
                (sleep_before_retry attempt backoff log') (omega arith))
          | inr (r, e) ↦ stop_result (suc rounds) attempt log e
        ]

  pub sends-request_json :
      (options : RequestOptions) (log : List Effect)
      → sends (request_json server url params api_key options log).1
        ≤ sends log + rounds_of options.max_attempts
  sends-request_json options log = elim (request_json-cases options log) [
    | inl (reason, e) ↦ rw e (omega arith)
    | inr (rounds, n, e) ↦ rw e (
        omega (
          arith,
          n,
          sends-request_loop (suc rounds) (rounds_of options.backoff) (suc rounds) 1 log,
        ))
  ]

  pub All-request_json :
      (Q : Effect → Type 0) (options : RequestOptions) (log : List Effect)
      → Q (get url params api_key)
      → ((n : ℕ) → Q (sleep n))
      → All Q log
      → All Q (request_json server url params api_key options log).1
  All-request_json Q options log sent slept h = elim (request_json-cases options log) [
    | inl (reason, e) ↦ rw e h
    | inr (rounds, n, e) ↦ rw e (
        All-request_loop (suc rounds) (rounds_of options.backoff) Q sent slept (suc rounds) 1 log h)
  ]

  -- The retry loop always ends by a return or by one of its own raises: the assertion behind it is
  -- never reached, whatever the server replies.
  pub request_json-ne-assertion_error :
      (options : RequestOptions) (log : List Effect)
      → (request_json server url params api_key options log).0 ≢ err assertion_error
  request_json-ne-assertion_error options log = elim (request_json-cases options log) [
    | inl (reason, e) ↦ rw e (λ p. cc)
    | inr (rounds, n, e) ↦ rw e (
        request_loop-ne-assertion_error (suc rounds) (rounds_of options.backoff) rounds 1 log
          (omega arith))
  ]
