-- ===== src/Outscraper/Fetch.antt =====
-- `fetch_amazon_products` of src/clients/outscraper_client.py: create a search task, check the URL
-- of its results, and poll it. The proofs are in the modules below.
pub mod Steps
pub mod Trust
pub mod Polls
pub mod Results
use amazon_similar_search.Prelude.{
  ℕ, zero, suc, ◌+◌, ◌*◌, ℤ, Bool, true, false, Option, none, some, Text, List, [], ◌∷◌, codes, ltb,
  if◌then◌else◌,
}
use amazon_similar_search.Json
use amazon_similar_search.Json.{Value, Fields}
use amazon_similar_search.Runtime.{truthy, Python, Platform}
use amazon_similar_search.Outscraper.Task.{
  TaskState, pending, failed, success, unknown, max_polls_below_one, poll_interval_negative,
  pending_without_location, nothing_to_follow, location_not_text, unknown_status, value_error,
  response_error, task_failed, task_timeout, Result, ok, err, normalized_status, task_state,
  validated_completed_result, validated_https_origin, validate_results_location,
}
use amazon_similar_search.Outscraper.Request.{
  Effect, sleep, Server, Run, Params, RequestOptions, build_amazon_products_params, below,
  rounds_of, request_json,
}

pub record FetchOptions : Type 0 where
  pub endpoint : Text
  pub domain : Text
  pub language : Text
  pub postal_code : Text
  pub limit : ℤ
  pub request : RequestOptions
  pub poll_interval : ℤ  -- in seconds
  pub max_polls : ℤ

-- What follows the reply to the first request: a result, or a URL to poll.
pub data Start (N : Type 0) : Type 0 where
  finished : Result N (Fields N) → Start N
  follow : Text → Start N

abbrev continue : {N A B : Type 0} → Result N A → (A → Run N B) → Run N B
continue (ok a) f log = f a log
continue (err e) f log = (err e, log)

-- A failing step ends the run, and what it logged stays.
infixl 5 ◌>>=◌
abbrev ◌>>=◌ : {N A B : Type 0} → Run N A → (A → Run N B) → Run N B
◌>>=◌ m f log = let (r, log') = m log in continue r f log'

abbrev lift : {N A : Type 0} → Result N A → Run N A
lift r log = (r, log)

module _ {N : Type 0} ⦃P : Python N⦄ ⦃U : Platform⦄ where
  abbrev pub without_location : TaskState → Fields N → Result N (Fields N)
  without_location success task = validated_completed_result task
  without_location pending task = err (response_error pending_without_location)
  without_location _ task = err (response_error nothing_to_follow)

  abbrev pub with_location : Option (Value N) → Fields N → Start N
  with_location none task = finished (without_location (task_state task) task)
  with_location (some (Value.str s)) task =
      let location : Value N = Value.str s in
      if truthy location then follow s else finished (without_location (task_state task) task)
  with_location (some v) task =
      if truthy v
      then finished (err (response_error location_not_text))
      else finished (without_location (task_state task) task)

  -- The reply to the search task is checked: `_task_failure`, then `results_location`.
  unfoldable pub start : Fields N → Start N
  start task = elim (task_state task) [
    | failed ↦ finished (err (task_failed (normalized_status task) task))
    | _ ↦ with_location (Json.get (codes "results_location") task) task
  ]

  -- The tests on a polled result; `none` is to go on.
  unfoldable pub polled : Fields N → Option (Result N (Fields N))
  polled result = elim (task_state result) [
    | failed ↦ some (err (task_failed (normalized_status result) result))
    | success ↦ some (validated_completed_result result)
    | unknown ↦ some (err (response_error unknown_status))
    | pending ↦ none
  ]

module _ {N : Type 0} ⦃P : Python N⦄ ⦃U : Platform⦄ (server : Server N) where
  unfoldable pub fetch_request_result : Text → Text → FetchOptions → Run N (Fields N)
  fetch_request_result results_location api_key options = do
    safe ← lift (validate_results_location results_location options.endpoint)
    request_json server safe [] api_key options.request

  unfoldable pub task_amazon_products_request : Text → Text → FetchOptions → Run N (Fields N)
  task_amazon_products_request query api_key options = do
    origin ← lift (validated_https_origin options.endpoint)
    request_json server options.endpoint
        (build_amazon_products_params query options.domain options.language options.postal_code
          options.limit true)
        api_key options.request

  -- `if poll_count < max_polls: time.sleep(poll_interval)`
  unfoldable pub pause : FetchOptions → ℕ → List Effect → List Effect
  pause options poll_count log =
      if ltb poll_count (rounds_of options.max_polls)
      then sleep (rounds_of options.poll_interval * 1000) ∷ log
      else log

  unfoldable pub poll_loop : Text → Text → FetchOptions → ℕ → ℕ → Fields N → Run N (Fields N)
  poll_loop url api_key options zero poll_count last_result log =
      (err (task_timeout (rounds_of options.max_polls) url last_result), log)
  poll_loop url api_key options (suc rounds) poll_count last_result log =
      let (r, log') = fetch_request_result url api_key options log in
      elim r [
        | err e ↦ (err e, log')
        | ok result ↦ elim (polled result) [
          | some outcome ↦ (outcome, log')
          | none ↦
              poll_loop url api_key options rounds (poll_count + 1) result
                (pause options poll_count log')
        ]
      ]

  unfoldable pub follow_task : Text → FetchOptions → Fields N → Start N → Run N (Fields N)
  follow_task api_key options task (finished r) log = (r, log)
  follow_task api_key options task (follow results_location) log =
      elim (validate_results_location results_location options.endpoint) [
        | err e ↦ (err e, log)
        | ok safe ↦ poll_loop safe api_key options (rounds_of options.max_polls) 1 task log
      ]

  unfoldable pub fetch_amazon_products : Text → Text → FetchOptions → Run N (Fields N)
  fetch_amazon_products query api_key options log =
      if below options.max_polls 1
      then (err (value_error max_polls_below_one), log)
      else if below options.poll_interval 0
      then (err (value_error poll_interval_negative), log)
      else (task_amazon_products_request query api_key options >>= λ task.
            follow_task api_key options task (start task))
          log
