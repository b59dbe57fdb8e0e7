-- ===== src/Outscraper/Fetch/Polls.antt =====
-- How much a run of `fetch_amazon_products` sends, and what its results say of the task.
use amazon_similar_search.Prelude.{
  ℕ, zero, suc, ◌+◌, ◌*◌, ◌≤◌, ◌≡◌, inl, inr, Text, List, [], arith, Bool-cases, ltb,
}
use amazon_similar_search.Json.{Fields}
use amazon_similar_search.Runtime.{Python, Platform}
use amazon_similar_search.Outscraper.Request.{Effect, Server, rounds_of}
use amazon_similar_search.Outscraper.Request.Retries.{sends, sends-request_json}
use amazon_similar_search.Outscraper.Fetch.Steps.{
  fetch_request_result-cases, task-cases, poll_loop-cases, follow_task-cases, fetch-cases,
}
use amazon_similar_search.Outscraper.Fetch.{
  FetchOptions, fetch_request_result, task_amazon_products_request, pause, poll_loop,
  fetch_amazon_products,
}

module _ {N : Type 0} ⦃P : Python N⦄ ⦃U : Platform⦄ (server : Server N) where
  sends-fetch_request_result :
      (url api_key : Text) (options : FetchOptions) (log : List Effect)
      → sends (fetch_request_result server url api_key options log).1
        ≤ sends log + rounds_of options.request.max_attempts
  sends-fetch_request_result url api_key options log =
      elim (fetch_request_result-cases server url api_key options log) [
        | inl (e, _, q) ↦ rw q (omega arith)
        | inr (safe, _, q) ↦ rw q (sends-request_json server safe [] api_key options.request log)
      ]

  sends-task :
      (query api_key : Text) (options : FetchOptions) (log : List Effect)
      → sends (task_amazon_products_request server query api_key options log).1
        ≤ sends log + rounds_of options.request.max_attempts
  sends-task query api_key options log = elim (task-cases server query api_key options log) [
    | inl (e, _, q) ↦ rw q (omega arith)
    | inr (origin, _, q) ↦
        rw q (sends-request_json server options.endpoint _ api_key options.request log)
  ]

  sends-pause :
      (options : FetchOptions) (count : ℕ) (log : List Effect)
      → sends (pause server options count log) ≡ sends log
  unfolding pause
  sends-pause options count log = elim (Bool-cases (ltb count (rounds_of options.max_polls))) [
    | inl e ↦ rw e
    | inr e ↦ rw e
  ]

  sends-poll_loop :
      (rounds : ℕ) (url api_key : Text) (options : FetchOptions) (count : ℕ) (last : Fields N)
      (log : List Effect)
      → sends (poll_loop server url api_key options rounds count last log).1
        ≤ sends log + rounds * rounds_of options.request.max_attempts
  sends-poll_loop zero url api_key options count last log = unfold poll_loop in omega arith
  sends-poll_loop (suc rounds) url api_key options count last log =
      let log' = (fetch_request_result server url api_key options log).1 in
      let h = sends-fetch_request_result url api_key options log in
      elim (poll_loop-cases server rounds url api_key options count last log) [
        | inl (e, _, q) ↦ rw q (omega arith)
        | inr (result, _, inl (outcome, _, q)) ↦ rw q (omega arith)
        | inr (result, _, inr (_, q)) ↦ rw q (
            omega (
              arith,
              sends-pause options count log',
              sends-poll_loop rounds url api_key options (count + 1) result
                  (pause server options count log'),
            ))
      ]

  -- A run sends at most the allowed attempts for the search task and as many for each poll, and so
  -- it ends, whatever the server replies.
  pub sends-fetch_amazon_products :
      (query api_key : Text) (options : FetchOptions)
      → sends (fetch_amazon_products server query api_key options []).1
        ≤ (1 + rounds_of options.max_polls) * rounds_of options.request.max_attempts
  sends-fetch_amazon_products query api_key options =
      let h = sends-task query api_key options [] in
      let log = (task_amazon_products_request server query api_key options []).1 in
      elim (fetch-cases server query api_key options []) [
        | inl (reason, q) ↦ rw q (omega arith)
        | inr (inl (e, _, q)) ↦ rw q (omega arith)
        | inr (inr (task, _, q)) ↦ rw q (elim (follow_task-cases server api_key options task log) [
          | inl (r, _, p) ↦ rw p (omega arith)
          | inr (url, _, _, p) ↦ rw p (
              omega (
                arith,
                sends-poll_loop (rounds_of options.max_polls) url api_key options 1 task log,
              ))
        ])
      ]
