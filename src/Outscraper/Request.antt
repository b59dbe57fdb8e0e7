-- ===== src/Outscraper/Request.antt =====
-- `_request_json` of src/clients/outscraper_client.py: one GET with retries. A run is a result and
-- the log of what it sent and how long it slept, the newest first. The server is any function from
-- the log, which begins with the request that it answers, to a reply. The proofs are in the modules
-- below.
pub mod Retries
pub mod Schedule
use amazon_similar_search.Prelude.{
  ℕ, zero, suc, ◌+◌, ◌-◌, ◌*◌, ◌^◌, ◌≤◌, ◌<◌, ℤ, pos, negsuc, Bool, true, false, not, ◌&&◌, ◌||◌,
  Option, none, some, Text, List, [], ◌∷◌, codes, is_empty, ltb, leb, ◌==◌, if◌then◌else◌,
}
use amazon_similar_search.Json.{Value, Fields}
use amazon_similar_search.Outscraper.Task.{
  Reason, max_attempts_below_one, timeout_not_positive, backoff_negative, redirect,
  attempts_exhausted, transient_status, permanent_status, invalid_json, not_an_object, Error,
  value_error, security_error, request_error, response_error, assertion_error, uncaught, Result, ok,
  err,
}

pub data Param : Type 0 where
  text : Text → Param
  number : ℤ → Param

abbrev pub Params : Type 0
Params = List (Text × Param)

-- A GET of a URL with its query parameters and its X-API-KEY header, and a pause in milliseconds.
pub data Effect : Type 0 where
  get : Text → Params → Text → Effect
  sleep : ℕ → Effect

-- What `requests.get` does: raise `Timeout`, `ConnectionError` or another exception, or return a
-- response with its status code, whether `raise_for_status` raises, and what `json` returns (none
-- on ValueError).
pub data Reply (N : Type 0) : Type 0 where
  timed_out : Reply N
  connection_failed : Reply N
  failed_otherwise : Reply N
  response : ℕ → Bool → Option (Value N) → Reply N

abbrev pub Server : Type 0 → Type 0
Server N = List Effect → Reply N

abbrev pub Run : Type 0 → Type 0 → Type 0
Run N A = List Effect → Result N A × List Effect

-- The dict of query parameters; `postal_code` is there only if it is not empty.
pub build_amazon_products_params : Text → Text → Text → Text → ℤ → Bool → Params
build_amazon_products_params query domain language postal_code limit async_request =
    (codes "query", text query)
    ∷ (codes "domain", text domain)
    ∷ (codes "language", text language)
    ∷ (codes "limit", number limit)
    ∷ (codes "async", text (if async_request then codes "true" else codes "false"))
    ∷ (if is_empty postal_code then [] else (codes "postal_code", text postal_code) ∷ [])

-- `n < k`
abbrev pub below : ℤ → ℕ → Bool
below (pos n) k = ltb n k
below (negsuc n) k = true

-- The rounds of `range(1, n + 1)`.
abbrev pub rounds_of : ℤ → ℕ
rounds_of (pos n) = n
rounds_of (negsuc n) = 0

pub record RequestOptions : Type 0 where
  pub timeout : ℤ
  pub max_attempts : ℤ
  pub backoff : ℤ  -- backoff_seconds, in milliseconds

-- How the body of the retry loop ends: by `continue`, or by a return or raise.
pub data Outcome (N : Type 0) : Type 0 where
  retry : Outcome N
  stop : Result N (Fields N) → Outcome N

abbrev pub is_transient : ℕ → Bool
is_transient status = status == 429 || (leb 500 status && ltb status 600)

-- `_sleep_before_retry`
unfoldable pub sleep_before_retry : ℕ → ℕ → List Effect → List Effect
sleep_before_retry attempt backoff log =
    let delay = backoff * 2 ^ (attempt - 1) in if ltb 0 delay then sleep delay ∷ log else log

module _ {N : Type 0} where
  -- `response.json()`, and the test that it is a dict.
  abbrev pub parse_body : Option (Value N) → Result N (Fields N)
  parse_body none = err (response_error invalid_json)
  parse_body (some (Value.obj d)) = ok d
  parse_body (some _) = err (response_error not_an_object)

  -- The body of the loop, after the reply.
  unfoldable pub outcome : Reply N → ℕ → ℕ → Outcome N
  outcome timed_out attempt max_attempts =
      if attempt == max_attempts then stop (err (request_error attempts_exhausted)) else retry
  outcome connection_failed attempt max_attempts =
      if attempt == max_attempts then stop (err (request_error attempts_exhausted)) else retry
  outcome failed_otherwise attempt max_attempts = stop (err uncaught)
  outcome (response status http_error body) attempt max_attempts =
      if leb 300 status && ltb status 400
      then stop (err (security_error redirect))
      else if is_transient status && ltb attempt max_attempts
      then retry
      else if http_error
      then stop
          (err (request_error (if is_transient status then transient_status else permanent_status)))
      else stop (parse_body body)

module _ {N : Type 0} (server : Server N) where
  unfoldable pub request_loop : Text → Params → Text → ℕ → ℕ → ℕ → ℕ → Run N (Fields N)
  request_loop url params api_key max_attempts backoff zero attempt log = (err assertion_error, log)
  request_loop url params api_key max_attempts backoff (suc rounds) attempt log =
      let sent = get url params api_key ∷ log in
      elim (outcome (server sent) attempt max_attempts) [
        | retry ↦
            request_loop url params api_key max_attempts backoff rounds (attempt + 1)
              (sleep_before_retry attempt backoff sent)
        | stop r ↦ (r, sent)
      ]

  -- `_request_json`
  unfoldable pub request_json : Text → Params → Text → RequestOptions → Run N (Fields N)
  request_json url params api_key options log =
      if below options.max_attempts 1
      then (err (value_error max_attempts_below_one), log)
      else if below options.timeout 1
      then (err (value_error timeout_not_positive), log)
      else if below options.backoff 0
      then (err (value_error backoff_negative), log)
      else request_loop url params api_key (rounds_of options.max_attempts)
          (rounds_of options.backoff) (rounds_of options.max_attempts) 1 log
