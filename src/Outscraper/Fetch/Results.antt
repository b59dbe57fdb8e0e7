-- ===== src/Outscraper/Fetch/Results.antt =====
-- What a result of `fetch_amazon_products` says of the task.
use amazon_similar_search.Prelude.{
  ℕ, zero, suc, ◌+◌, ◌≡◌, ◌≢◌, refl, ◌⊎◌, inl, inr, ap, subst, ◌∙◌, Text, Option, none, some, List,
  [], Bool-cases, codes,
}
use amazon_similar_search.Json
use amazon_similar_search.Json.{Fields, Value, Items}
use amazon_similar_search.Runtime.{truthy, Python, Platform}
use amazon_similar_search.Outscraper.Task.{
  Result, ok, TaskState, pending, failed, success, unknown, task_state, validated_completed_result,
  checked_data,
}
use amazon_similar_search.Outscraper.Request.{Effect, Server, rounds_of}
use amazon_similar_search.Outscraper.Fetch.Steps.{poll_loop-cases, follow_task-cases, fetch-cases}
use amazon_similar_search.Outscraper.Fetch.{
  FetchOptions, finished, with_location, without_location, start, polled,
  task_amazon_products_request, poll_loop, fetch_amazon_products,
}

TaskState-cases : (s : TaskState) → (s ≡ pending) ⊎ (s ≡ failed) ⊎ (s ≡ success) ⊎ (s ≡ unknown)
TaskState-cases pending = inl refl
TaskState-cases failed = inr (inl refl)
TaskState-cases success = inr (inr (inl refl))
TaskState-cases unknown = inr (inr (inr refl))

some_inj : {N : Type 0} {r s : Result N (Fields N)} → some r ≡ some s → r ≡ s
some_inj h = cc

finished-injective : {N : Type 0} {r s : Result N (Fields N)} → finished r ≡ finished s → r ≡ s
finished-injective h = cc

module _ {N : Type 0} ⦃P : Python N⦄ ⦃U : Platform⦄ where
  -- A completed task: a state of success and a list of products.
  pub record IsCompleted (d : Fields N) : Type 0 where
    pub state : task_state d ≡ success
    pub products : Items N
    pub listed : Json.get (codes "data") d ≡ some (Value.arr products)

  checked_data_ok :
      (o : Option (Value N)) (d : Fields N) {d' : Fields N}
      → checked_data o d ≡ ok d'
      → (d ≡ d') × (xs : Items N) × (o ≡ some (Value.arr xs))
  unfolding checked_data
  checked_data_ok none d h = cc
  checked_data_ok (some (Value.arr xs)) d h = (cc, xs, refl)
  checked_data_ok (some _) d h = cc

  validated_completed_result_ok :
      (d : Fields N) {d' : Fields N}
      → validated_completed_result d ≡ ok d'
      → (d ≡ d') × (xs : Items N) × (Json.get (codes "data") d ≡ some (Value.arr xs))
  unfolding validated_completed_result
  validated_completed_result_ok d h = checked_data_ok (Json.get (codes "data") d) d h

  completed :
      (d : Fields N) {d' : Fields N}
      → task_state d ≡ success
      → validated_completed_result d ≡ ok d'
      → IsCompleted d'
  completed d s h =
      let (same, xs, e) = validated_completed_result_ok d h in
      subst IsCompleted same (record { state = s; products = xs; listed = e })

  without_location-IsCompleted :
      (d : Fields N) {d' : Fields N} → without_location (task_state d) d ≡ ok d' → IsCompleted d'
  without_location-IsCompleted d h = elim (TaskState-cases (task_state d)) [
    | inl e ↦ cc (rw e at h)
    | inr (inl e) ↦ cc (rw e at h)
    | inr (inr (inl e)) ↦ completed d e (rw e at h)
    | inr (inr (inr e)) ↦ cc (rw e at h)
  ]

  with_location-IsCompleted :
      (o : Option (Value N)) (d : Fields N) {d' : Fields N}
      → with_location o d ≡ finished (ok d')
      → IsCompleted d'
  with_location-IsCompleted none d h = without_location-IsCompleted d (finished-injective h)
  with_location-IsCompleted (some (Value.str s)) d h =
      let location : Value N = Value.str s in
      elim (Bool-cases (truthy location)) [
        | inl e ↦ cc (rw e at h)
        | inr e ↦ without_location-IsCompleted d (finished-injective (rw e at h))
      ]
  with_location-IsCompleted (some v) d h = elim (Bool-cases (truthy v)) [
    | inl e ↦ cc (rw e at h)
    | inr e ↦ without_location-IsCompleted d (finished-injective (rw e at h))
  ]

  polled-IsCompleted : (d : Fields N) {d' : Fields N} → polled d ≡ some (ok d') → IsCompleted d'
  unfolding polled
  polled-IsCompleted d h = elim (TaskState-cases (task_state d)) [
    | inl e ↦ cc (rw (polled, e) at h)
    | inr (inl e) ↦ cc (rw (polled, e) at h)
    | inr (inr (inl e)) ↦ completed d e (some_inj (rw (polled, e) at h))
    | inr (inr (inr e)) ↦ cc (rw (polled, e) at h)
  ]

  start-IsCompleted : (d : Fields N) {d' : Fields N} → start d ≡ finished (ok d') → IsCompleted d'
  unfolding start
  start-IsCompleted d h = elim (TaskState-cases (task_state d)) [
    | inl e ↦ with_location-IsCompleted _ d (rw (start, e) at h)
    | inr (inl e) ↦ cc (rw (start, e) at h)
    | inr (inr (inl e)) ↦ with_location-IsCompleted _ d (rw (start, e) at h)
    | inr (inr (inr e)) ↦ with_location-IsCompleted _ d (rw (start, e) at h)
  ]

module _ {N : Type 0} ⦃P : Python N⦄ ⦃U : Platform⦄ (server : Server N) where
  poll_loop-zero :
      (url api_key : Text) (options : FetchOptions) (count : ℕ) (last : Fields N)
      (log : List Effect) {d : Fields N}
      → (poll_loop server url api_key options zero count last log).0 ≢ ok d
  unfolding poll_loop
  poll_loop-zero url api_key options count last log h = cc

  poll_loop-IsCompleted :
      (rounds : ℕ) (url api_key : Text) (options : FetchOptions) (count : ℕ) (last : Fields N)
      (log : List Effect) {d : Fields N}
      → (poll_loop server url api_key options rounds count last log).0 ≡ ok d
      → IsCompleted d
  poll_loop-IsCompleted zero url api_key options count last log h =
      absurd (poll_loop-zero url api_key options count last log h)
  poll_loop-IsCompleted (suc rounds) url api_key options count last log h =
      elim (poll_loop-cases server rounds url api_key options count last log) [
        | inl (e, _, q) ↦ cc (rw q at h)
        | inr (result, _, inl (outcome, p, q)) ↦ polled-IsCompleted result (p ∙ ap some (rw q at h))
        | inr (result, _, inr (_, q)) ↦
            poll_loop-IsCompleted rounds url api_key options (count + 1) result _ (rw q at h)
      ]

  -- Whatever the server replies, a result that a run returns is a completed task whose `data` is a
  -- list: a pending, failed or unknown task is never returned.
  pub fetch_amazon_products-IsCompleted :
      (query api_key : Text) (options : FetchOptions) (d : Fields N)
      → (fetch_amazon_products server query api_key options []).0 ≡ ok d
      → IsCompleted d
  fetch_amazon_products-IsCompleted query api_key options d h =
      let log = (task_amazon_products_request server query api_key options []).1 in
      elim (fetch-cases server query api_key options []) [
        | inl (reason, q) ↦ cc (rw q at h)
        | inr (inl (e, _, q)) ↦ cc (rw q at h)
        | inr (inr (task, _, q)) ↦ elim (follow_task-cases server api_key options task log) [
          | inl (r, returned, p) ↦ start-IsCompleted task (returned d (rw (q, p) at h))
          | inr (url, _, _, p) ↦
              poll_loop-IsCompleted (rounds_of options.max_polls) url api_key options 1 task log
                (rw (q, p) at h)
        ]
      ]
