-- ===== src/Outscraper/Examples.antt =====
-- Runs of src/clients/outscraper_client.py against small servers, and the theorems about them.
use amazon_similar_search.Prelude.{
  ℕ, zero, suc, ◌+◌, ◌*◌, ◌≤◌, ◌≡◌, ◌≢◌, refl, inr, true, false, pos, some, none, [], ◌∷◌, All,
  codes, arith, strip, member, eq_text, starts_with,
}
use amazon_similar_search.Json
use amazon_similar_search.Json.{Value, Fields, field, end, Items}
use amazon_similar_search.Runtime.{truthy}
use amazon_similar_search.Runtime.Fixed.{ascii, fixed_point}
use amazon_similar_search.Outscraper.Task.{
  ok, err, request_error, attempts_exhausted, assertion_error, normalized_status, has_data,
  task_state, rstrip_dots, origin_of, validated_https_origin, validate_results_location,
  validated_completed_result, same_origin,
}
use amazon_similar_search.Outscraper.Request.{
  get, Reply, response, timed_out, Server, RequestOptions, outcome, sleep_before_retry,
  request_loop, request_json,
}
use amazon_similar_search.Outscraper.Request.Retries.{sends, request_json-ne-assertion_error}
use amazon_similar_search.Outscraper.Request.Schedule.{scripted, history, request_json_schedule}
use amazon_similar_search.Outscraper.Fetch.{
  FetchOptions, start, polled, fetch_request_result, task_amazon_products_request, pause, poll_loop,
  follow_task, fetch_amazon_products,
}
use amazon_similar_search.Outscraper.Fetch.Trust.{IsTrusted, fetch_amazon_products-IsTrusted}
use amazon_similar_search.Outscraper.Fetch.Polls.{sends-fetch_amazon_products}
use amazon_similar_search.Outscraper.Fetch.Results.{IsCompleted, fetch_amazon_products-IsCompleted}

abbrev limits : RequestOptions
limits = record { timeout = pos 30; max_attempts = pos 3; backoff = pos 1_000 }

abbrev options : FetchOptions
options = record {
  endpoint = codes "https://api.example/search";
  domain = codes "amazon.co.jp";
  language = codes "ja";
  postal_code = codes "100-0001";
  limit = pos 100;
  request = limits;
  poll_interval = pos 30;
  max_polls = pos 5;
}

abbrev pending_task : Fields ℕ
pending_task =
    field (codes "status") (Value.str (codes "Pending"))
      (field (codes "results_location") (Value.str (codes "https://api.example/r/1")) end)

abbrev finished_task : Fields ℕ
finished_task =
    field (codes "status") (Value.str (codes "Success"))
      (field (codes "data") (Value.arr Items.nil) end)

-- The task is accepted; the first poll meets a 503, and the next attempt finds it finished.
abbrev replies : ℕ → Reply ℕ
replies zero = response 200 false (some (Value.obj pending_task))
replies (suc zero) = response 503 true none
replies (suc (suc n)) = response 200 false (some (Value.obj finished_task))

abbrev server : Server ℕ
server = scripted replies

finishes :
    (fetch_amazon_products server (codes "keyboard") (codes "key") options []).0 ≡ ok finished_task
unfolding fetch_amazon_products task_amazon_products_request fetch_request_result follow_task start
    poll_loop polled pause request_json request_loop outcome sleep_before_retry
    validate_results_location validated_https_origin origin_of rstrip_dots truthy task_state
    has_data normalized_status validated_completed_result same_origin member eq_text strip Json.get
    starts_with
finishes = refl

fetch_amazon_products-IsCompleted_example : IsCompleted finished_task
fetch_amazon_products-IsCompleted_example =
    fetch_amazon_products-IsCompleted server (codes "keyboard") (codes "key") options finished_task
      finishes

fetch_amazon_products-IsTrusted_example :
    All
      (IsTrusted options.endpoint (codes "key"))
      (fetch_amazon_products server (codes "keyboard") (codes "key") options []).1
fetch_amazon_products-IsTrusted_example =
    fetch_amazon_products-IsTrusted server (codes "keyboard") (codes "key") options

sends-fetch_amazon_products_example :
    sends (fetch_amazon_products server (codes "keyboard") (codes "key") options []).1 ≤ (1 + 5) * 3
sends-fetch_amazon_products_example =
    sends-fetch_amazon_products server (codes "keyboard") (codes "key") options

request_json-ne-assertion_error_example :
    (request_json server (codes "https://api.example/r/1") [] (codes "key") limits []).0
    ≢ err assertion_error
request_json-ne-assertion_error_example =
    request_json-ne-assertion_error server (codes "https://api.example/r/1") [] (codes "key") limits
      []

abbrev down : ℕ → Reply ℕ
down n = timed_out

-- A server that never answers: three requests, pauses of one and two seconds, and an error.
request_json_schedule_example :
    request_json (scripted down) (codes "u") [] (codes "key") limits [] ≡ (
      err (request_error attempts_exhausted),
      get (codes "u") [] (codes "key") ∷ history (get (codes "u") [] (codes "key")) 1_000 2,
    )
request_json_schedule_example =
    request_json_schedule down (codes "u") [] (codes "key") 30 3 1_000 2 (omega arith) (omega arith)
      (omega arith) (λ n h. refl) (inr refl)
