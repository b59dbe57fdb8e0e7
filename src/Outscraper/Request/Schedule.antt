-- ===== src/Outscraper/Request/Schedule.antt =====
-- Exactly which requests and pauses a run of the retry loop makes.
use native.Mathlib.Nat.{one-le-pow}
use native.Mathlib.Numerals.{add-one}
use amazon_similar_search.Prelude.{
  ℕ, zero, suc, ◌+◌, ◌-◌, ◌*◌, ◌^◌, ◌<◌, ◌≡◌, refl, Bool-cases, ◌⊎◌, inl, inr, ap, pos, Bool, true,
  false, Text, List, [], ◌∷◌, arith, if◌then◌else◌, leb, ltb, ◌&&◌,
}
use amazon_similar_search.Json.{Fields}
use amazon_similar_search.Outscraper.Task.{
  Result, err, uncaught, request_error, security_error, attempts_exhausted, transient_status,
  permanent_status, redirect,
}
use amazon_similar_search.Outscraper.Request.{
  Params, Effect, get, sleep, Reply, timed_out, connection_failed, failed_otherwise, response,
  Server, retry, stop, outcome, is_transient, sleep_before_retry, request_loop, request_json,
  parse_body,
}
use amazon_similar_search.Outscraper.Request.Retries.{sends, request_loop-retry, request_loop-stop}

-- The failures after which another attempt is promised: no answer, HTTP 429 and 5xx.
abbrev pub retryable : {N : Type 0} → Reply N → Bool
retryable timed_out = true
retryable connection_failed = true
retryable failed_otherwise = false
retryable (response status http_error body) = is_transient status

-- What a reply comes to when there is no other attempt.
abbrev pub verdict : {N : Type 0} → Reply N → Result N (Fields N)
verdict timed_out = err (request_error attempts_exhausted)
verdict connection_failed = err (request_error attempts_exhausted)
verdict failed_otherwise = err uncaught
verdict (response status http_error body) =
    if leb 300 status && ltb status 400
    then err (security_error redirect)
    else if http_error
    then err (request_error (if is_transient status then transient_status else permanent_status))
    else parse_body body

-- The log of `n` failed attempts, each followed by a pause twice as long as the one before.
abbrev pub history : Effect → ℕ → ℕ → List Effect
history sent backoff zero = []
history sent backoff (suc n) = sleep (backoff * 2 ^ n) ∷ sent ∷ history sent backoff n

-- A server that gives the replies of a list in turn.
abbrev pub scripted : {N : Type 0} → (ℕ → Reply N) → Server N
scripted replies log = replies (sends log - 1)

final_response :
    (transient : Bool) (attempt max_attempts : ℕ)
    → (transient ≡ false) ⊎ (attempt ≡ max_attempts)
    → (transient && ltb attempt max_attempts) ≡ false
final_response transient attempt max_attempts h = ground arith

module _ {N : Type 0} where
  stop_if :
      (b : Bool) (x y : Result N (Fields N))
      → (if b then stop x else stop y) ≡ stop (if b then x else y)
  stop_if true x y = refl
  stop_if false x y = refl

  outcome_more :
      (r : Reply N) (attempt max_attempts : ℕ)
      → retryable r ≡ true
      → attempt < max_attempts
      → outcome r attempt max_attempts ≡ retry
  unfolding outcome
  outcome_more r attempt max_attempts h k = ground arith

  outcome_final :
      (r : Reply N) (attempt max_attempts : ℕ)
      → (retryable r ≡ false) ⊎ (attempt ≡ max_attempts)
      → outcome r attempt max_attempts ≡ stop (verdict r)
  unfolding outcome
  outcome_final timed_out attempt max_attempts h = ground arith
  outcome_final connection_failed attempt max_attempts h = ground arith
  outcome_final failed_otherwise attempt max_attempts h = refl
  outcome_final (response status http_error body) attempt max_attempts h =
      elim (Bool-cases (leb 300 status && ltb status 400)) [
        | inl moved ↦ rw moved
        | inr other ↦
            rw (other, final_response (is_transient status) attempt max_attempts h)
              (stop_if http_error _ _)
      ]

product_pos : (a b : ℕ) → 0 < a → 0 < b → 0 < a * b
product_pos a b h k = grind arith

not_ltb : (a b : ℕ) → b < a → ltb a (suc b) ≡ false
not_ltb a b h = ground arith

not_ltb_zero : (a : ℕ) → ltb a 0 ≡ false
not_ltb_zero a = ground arith

lt→ltb : (a b : ℕ) → a < b → ltb a b ≡ true
lt→ltb a b h = ground arith

module _ (url : Text) (params : Params) (api_key : Text) (backoff : ℕ) where
  sends-history : (n : ℕ) → sends (history (get url params api_key) backoff n) ≡ n
  sends-history zero = refl
  sends-history (suc n) = ap suc (sends-history n)

  sleep_before_retry-history :
      (n : ℕ)
      → 0 < backoff
      → sleep_before_retry
          (suc n)
          backoff
          (get url params api_key ∷ history (get url params api_key) backoff n)
        ≡ history (get url params api_key) backoff (suc n)
  unfolding sleep_before_retry
  sleep_before_retry-history n h =
      let e : suc n - 1 ≡ n = omega arith in
      rw e (rw (lt→ltb 0 (backoff * 2 ^ n) (product_pos _ _ h (one-le-pow n 2 (omega arith)))))

  scripted-history :
      {N : Type 0} (replies : ℕ → Reply N) (n : ℕ)
      → scripted replies (get url params api_key ∷ history (get url params api_key) backoff n)
        ≡ replies n
  scripted-history replies n = ap replies (omega (arith, sends-history n))

  module _ {N : Type 0} (replies : ℕ → Reply N) (max_attempts k : ℕ) where
    request_loop_schedule :
        (j i rounds : ℕ)
        → i + j ≡ k
        → i + suc rounds ≡ max_attempts
        → k < max_attempts
        → 0 < backoff
        → ((n : ℕ) → n < k → retryable (replies n) ≡ true)
        → (retryable (replies k) ≡ false) ⊎ (suc k ≡ max_attempts)
        → request_loop
            (scripted replies)
            url
            params
            api_key
            max_attempts
            backoff
            (suc rounds)
            (suc i)
            (history (get url params api_key) backoff i)
          ≡ (
            verdict (replies k),
            get url params api_key ∷ history (get url params api_key) backoff k,
          )
    request_loop_schedule zero i rounds hk hm lt hb before final =
        let here : i ≡ k = omega arith in
        rw here (
          request_loop-stop (scripted replies) url params api_key max_attempts backoff rounds
            (suc k) (history (get url params api_key) backoff k)
            (rw (scripted-history replies k)
              (outcome_final (replies k) (suc k) max_attempts final)))
    request_loop_schedule (suc j) i zero hk hm lt hb before final = absurd (omega arith)
    request_loop_schedule (suc j) i (suc rounds) hk hm lt hb before final =
        rw
          (request_loop-retry (scripted replies) url params api_key max_attempts backoff
            (suc rounds) (suc i) (history (get url params api_key) backoff i)
            (rw (scripted-history replies i) (
              outcome_more (replies i) (suc i) max_attempts (before i (omega arith))
                (omega arith))))
          (rw (sleep_before_retry-history i hb, add-one)
            (request_loop_schedule j (suc i) rounds (omega arith) (omega arith) lt hb before final))

-- When the first k replies are retryable, and the next is not or is the last one allowed, the run
-- sends k + 1 requests, pauses after each of the first k for twice as long as before, starting with
-- the configured backoff, and ends by what the last reply comes to.
pub request_json_schedule :
    {N : Type 0} (replies : ℕ → Reply N) (url : Text) (params : Params) (api_key : Text)
    (timeout max_attempts backoff k : ℕ)
    → 0 < timeout
    → 0 < backoff
    → k < max_attempts
    → ((n : ℕ) → n < k → retryable (replies n) ≡ true)
    → (retryable (replies k) ≡ false) ⊎ (suc k ≡ max_attempts)
    → request_json
        (scripted replies)
        url
        params
        api_key
        (record { timeout = pos timeout; max_attempts = pos max_attempts; backoff = pos backoff })
        []
      ≡ (verdict (replies k), get url params api_key ∷ history (get url params api_key) backoff k)
unfolding request_json
request_json_schedule replies url params api_key timeout zero backoff k ht hb lt before final =
    absurd (omega arith)
request_json_schedule replies url params api_key timeout (suc m) backoff k ht hb lt before final =
    rw (not_ltb (suc m) 0 (omega arith), not_ltb timeout 0 ht, not_ltb_zero backoff)
      (request_loop_schedule url params api_key backoff replies (suc m) k k 0 m (omega arith)
        (omega arith) lt hb before final)
