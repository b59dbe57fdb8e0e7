-- ===== src/Outscraper/Fetch/Steps.antt =====
-- How the parts of `fetch_amazon_products` call one another, as the ways in which each can go.
use amazon_similar_search.Prelude.{
  ℕ, suc, ◌+◌, ◌≡◌, refl, ap, ◌∙◌, ◌⊎◌, inl, inr, true, Text, none, some, List, [], Bool-cases,
  Option-cases,
}
use amazon_similar_search.Json.{Fields}
use amazon_similar_search.Runtime.{Python, Platform}
use amazon_similar_search.Outscraper.Task.{
  Error, Reason, value_error, max_polls_below_one, poll_interval_negative, Result, ok, err,
  validated_https_origin, validate_results_location, same_origin,
}
use amazon_similar_search.Outscraper.Request.{
  Effect, Server, rounds_of, below, build_amazon_products_params, request_json,
}
use amazon_similar_search.Outscraper.Fetch.{
  FetchOptions, Start, finished, follow, start, polled, fetch_request_result,
  task_amazon_products_request, pause, poll_loop, follow_task, fetch_amazon_products,
}

pub Result-cases {ℓ} :
    {N : Type 0} {A : Type ℓ} (r : Result N A)
    → ((e : Error N) × (r ≡ err e)) ⊎ ((a : A) × (r ≡ ok a))
Result-cases (err e) = inl (e, refl)
Result-cases (ok a) = inr (a, refl)

Start-cases :
    {N : Type 0} (s : Start N)
    → ((r : Result N (Fields N)) × (s ≡ finished r)) ⊎ ((url : Text) × (s ≡ follow url))
Start-cases (finished r) = inl (r, refl)
Start-cases (follow url) = inr (url, refl)

module _ {N : Type 0} ⦃U : Platform⦄ where
  -- A URL that passes is returned as it is; it and the endpoint are valid and of one origin.
  pub validate_results_location_ok :
      (url endpoint : Text) {safe : Text}
      → validate_results_location {N = N} url endpoint ≡ ok safe
      → (url ≡ safe)
        × (a : Text × ℕ) × (b : Text × ℕ) × (validated_https_origin {N = N} endpoint ≡ ok a)
        × (validated_https_origin {N = N} url ≡ ok b)
        × (same_origin b a ≡ true)
  unfolding validate_results_location
  validate_results_location_ok url endpoint h =
      elim (Result-cases (validated_https_origin {N = N} endpoint)) [
        | inl (e, p) ↦ cc (rw (validate_results_location, p) at h)
        | inr (a, p) ↦ elim (Result-cases (validated_https_origin {N = N} url)) [
          | inl (e, q) ↦ cc (rw (validate_results_location, p, q) at h)
          | inr (b, q) ↦ elim (Bool-cases (same_origin b a)) [
            | inl s ↦ (cc (rw (validate_results_location, p, q, s) at h), a, b, p, q, s)
            | inr s ↦ cc (rw (validate_results_location, p, q, s) at h)
          ]
        ]
      ]

module _ {N : Type 0} ⦃P : Python N⦄ ⦃U : Platform⦄ (server : Server N) where
  pub fetch_request_result-cases :
      (url api_key : Text) (options : FetchOptions) (log : List Effect)
      → ((e : Error N) × (validate_results_location url options.endpoint ≡ err e)
          × (fetch_request_result server url api_key options log ≡ (err e, log)))
        ⊎ ((safe : Text) × (validate_results_location {N = N} url options.endpoint ≡ ok safe)
            × (fetch_request_result server url api_key options log
                ≡ request_json server safe [] api_key options.request log))
  fetch_request_result-cases url api_key options log =
      elim (Result-cases (validate_results_location {N = N} url options.endpoint)) [
        | inl (e, h) ↦ inl (e, h, unfold fetch_request_result in rw (fetch_request_result, h))
        | inr (safe, h) ↦ inr (safe, h, unfold fetch_request_result in rw (fetch_request_result, h))
      ]

  pub task-cases :
      (query api_key : Text) (options : FetchOptions) (log : List Effect)
      → ((e : Error N) × (validated_https_origin options.endpoint ≡ err e)
          × (task_amazon_products_request server query api_key options log ≡ (err e, log)))
        ⊎ ((origin : Text × ℕ) × (validated_https_origin {N = N} options.endpoint ≡ ok origin)
            × (task_amazon_products_request server query api_key options log
                ≡ request_json server options.endpoint
                    (build_amazon_products_params query options.domain options.language
                      options.postal_code options.limit true)
                    api_key
                    options.request
                    log))
  task-cases query api_key options log =
      elim (Result-cases (validated_https_origin {N = N} options.endpoint)) [
        | inl (e, h) ↦
            inl (e, h, unfold task_amazon_products_request in rw (task_amazon_products_request, h))
        | inr (origin, h) ↦
            inr (
              origin,
              h,
              unfold task_amazon_products_request in rw (task_amazon_products_request, h),
            )
      ]

  -- One round of the polling loop ends the run with what the poll came to, or goes on.
  pub poll_loop-cases :
      (rounds : ℕ) (url api_key : Text) (options : FetchOptions) (count : ℕ) (last : Fields N)
      (log : List Effect)
      → let (r, log') = fetch_request_result server url api_key options log in
        ((e : Error N) × (r ≡ err e)
          × (poll_loop server url api_key options (suc rounds) count last log ≡ (err e, log')))
        ⊎ ((result : Fields N) × (r ≡ ok result)
            × (((outcome : Result N (Fields N)) × (polled result ≡ some outcome)
                  × (poll_loop server url api_key options (suc rounds) count last log
                      ≡ (outcome, log')))
                ⊎ ((polled result ≡ none)
                    × (poll_loop server url api_key options (suc rounds) count last log
                        ≡ poll_loop server url api_key options rounds
                            (count + 1)
                            result
                            (pause server options count log')))))
  poll_loop-cases rounds url api_key options count last log =
      elim (Result-cases (fetch_request_result server url api_key options log).0) [
        | inl (e, h) ↦ inl (e, h, unfold poll_loop in rw (poll_loop, h))
        | inr (result, h) ↦ inr (
          result,
          h,
          elim (Option-cases (polled result)) [
            | inl p ↦ inr (p, unfold poll_loop in rw (poll_loop, h, p))
            | inr (outcome, p) ↦ inl (outcome, p, unfold poll_loop in rw (poll_loop, h, p))
          ],
        )
      ]

  pub follow_task-cases :
      (api_key : Text) (options : FetchOptions) (task : Fields N) (log : List Effect)
      → ((r : Result N (Fields N)) × ((d : Fields N) → r ≡ ok d → start task ≡ finished (ok d))
          × (follow_task server api_key options task (start task) log ≡ (r, log)))
        ⊎ ((url : Text) × (start task ≡ follow url)
            × (validate_results_location {N = N} url options.endpoint ≡ ok url)
            × (follow_task server api_key options task (start task) log
                ≡ poll_loop server url api_key options (rounds_of options.max_polls) 1 task log))
  follow_task-cases api_key options task log = elim (Start-cases (start task)) [
    | inl (r, h) ↦ inl (r, λ d p. h ∙ ap finished p, unfold follow_task in rw (follow_task, h))
    | inr (url, h) ↦ elim (Result-cases (validate_results_location {N = N} url options.endpoint)) [
      | inl (e, v) ↦ inl (err e, λ d p. cc, unfold follow_task in rw (follow_task, h, v))
      | inr (safe, v) ↦
          let same = (validate_results_location_ok url options.endpoint v).0 in
          inr (url, h, rw (← same) at v, unfold follow_task in rw (follow_task, h, v, ← same))
    ]
  ]

  -- A guard that raises sends nothing; otherwise the task is created and, if that succeeds, followed.
  pub fetch-cases :
      (query api_key : Text) (options : FetchOptions) (log : List Effect)
      → let (r, log') = task_amazon_products_request server query api_key options log in
        ((reason : Reason) × (fetch_amazon_products server query api_key options log
            ≡ (err (value_error reason), log)))
        ⊎ ((e : Error N) × (r ≡ err e)
            × (fetch_amazon_products server query api_key options log ≡ (err e, log')))
        ⊎ ((task : Fields N) × (r ≡ ok task)
            × (fetch_amazon_products server query api_key options log
                ≡ follow_task server api_key options task (start task) log'))
  fetch-cases query api_key options log = elim (Bool-cases (below options.max_polls 1)) [
    | inl few ↦
        inl (max_polls_below_one, unfold fetch_amazon_products in rw (fetch_amazon_products, few))
    | inr many ↦ elim (Bool-cases (below options.poll_interval 0)) [
      | inl past ↦ inl (
        poll_interval_negative,
        unfold fetch_amazon_products in rw (fetch_amazon_products, many, past),
      )
      | inr ahead ↦
          inr
            (elim (Result-cases (task_amazon_products_request server query api_key options log).0) [
              | inl (e, h) ↦
                  inl (
                    e,
                    h,
                    unfold fetch_amazon_products in rw (fetch_amazon_products, many, ahead, h),
                  )
              | inr (task, h) ↦ inr (
                task,
                h,
                unfold fetch_amazon_products in rw (fetch_amazon_products, many, ahead, h),
              )
            ])
    ]
  ]
