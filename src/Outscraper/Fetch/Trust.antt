-- ===== src/Outscraper/Fetch/Trust.antt =====
-- Where the API key goes: every request of a run carries it to the endpoint's own origin.
use amazon_similar_search.Prelude.{
  ℕ, zero, suc, ◌+◌, ◌≡◌, refl, inl, inr, ap, ◌∙◌, sym, true, false, ◌||◌, Text, Option, none, some,
  List, [], All, arith, Bool-cases, Option-cases, codes, eq_text, eq_text_iff, is_empty, ltb,
}
use amazon_similar_search.Json.{Fields}
use amazon_similar_search.Runtime.{Python, Platform, Url, casefold}
use amazon_similar_search.Outscraper.Task.{
  ok, option_text, port_or_443, rstrip_dots, is_given, same_origin, validated_https_origin,
  validate_results_location, origin_of,
}
use amazon_similar_search.Outscraper.Request.{Effect, get, sleep, Server, rounds_of}
use amazon_similar_search.Outscraper.Request.Retries.{All-request_json}
use amazon_similar_search.Outscraper.Fetch.Steps.{
  validate_results_location_ok, fetch_request_result-cases, task-cases, poll_loop-cases,
  follow_task-cases, fetch-cases,
}
use amazon_similar_search.Outscraper.Fetch.{
  FetchOptions, start, fetch_request_result, task_amazon_products_request, pause, poll_loop,
  follow_task, fetch_amazon_products,
}

-- An HTTPS URL with a host, with no user name and no password, at a host and port.
pub record IsHttpsAt ⦃U : Platform⦄ (host : Text) (port : ℕ) (text : Text) : Type 0 where
  pub url : Url
  pub parsed : U.urlparse text ≡ some url
  pub scheme : casefold url.scheme ≡ codes "https"
  pub no_user : url.username ≡ none
  pub no_password : url.password ≡ none
  pub at_host : casefold (rstrip_dots (option_text url.hostname)) ≡ host
  pub at_port : port_or_443 url.port ≡ port

-- Two URLs that are HTTPS URLs at one host and port.
abbrev pub SameOrigin : ⦃U : Platform⦄ → Text → Text → Type 0
SameOrigin endpoint url =
    (host : Text) × (port : ℕ) × IsHttpsAt host port endpoint × IsHttpsAt host port url

-- What a run may do with the API key: send it to the endpoint's origin.
abbrev pub IsTrusted : ⦃U : Platform⦄ → Text → Text → Effect → Type 0
IsTrusted endpoint api_key (get url params sent) = SameOrigin endpoint url × (sent ≡ api_key)
IsTrusted endpoint api_key (sleep n) = Unit {0}

given_none : {A : Type 0} (o : Option A) → is_given o ≡ false → o ≡ none
given_none none h = refl
given_none (some a) h = cc

same_origin_eq : (a b : Text × ℕ) → same_origin a b ≡ true → a ≡ b
unfolding same_origin
same_origin_eq (host, port) (host', port') h = ground (arith, eq_text_iff host host')

module _ {N : Type 0} ⦃U : Platform⦄ where
  origin_of_ok :
      (url : Url) {host : Text} {port : ℕ}
      → origin_of {N = N} url ≡ ok (host, port)
      → (eq_text (casefold url.scheme) (codes "https") ≡ true)
        × (is_given url.username ≡ false)
        × (is_given url.password ≡ false)
        × (casefold (rstrip_dots (option_text url.hostname)) ≡ host)
        × (port_or_443 url.port ≡ port)
  unfolding origin_of
  origin_of_ok url h = elim (Bool-cases (eq_text (casefold url.scheme) (codes "https"))) [
    | inr e ↦ cc (rw (origin_of, e) at h)
    | inl e ↦ elim (Bool-cases (is_empty (option_text url.hostname))) [
      | inl f ↦ cc (rw (origin_of, e, f) at h)
      | inr f ↦ elim (Bool-cases (is_given url.username || is_given url.password)) [
        | inl g ↦ cc (rw (origin_of, e, f, g) at h)
        | inr g ↦
            let h' = rw (origin_of, e, f, g) at h in (e, ground arith, ground arith, cc h', cc h')
      ]
    ]
  ]

  -- A validated URL is an HTTPS URL at its origin.
  pub validated-IsHttpsAt :
      (text : Text) {host : Text} {port : ℕ}
      → validated_https_origin {N = N} text ≡ ok (host, port)
      → IsHttpsAt host port text
  unfolding validated_https_origin
  validated-IsHttpsAt text h = elim (Option-cases (U.urlparse text)) [
    | inl e ↦ cc (rw (validated_https_origin, e) at h)
    | inr (url, e) ↦
        let (s, u, p, host, port) = origin_of_ok url (rw (validated_https_origin, e) at h) in
        record {
          url = url;
          parsed = e;
          scheme = (eq_text_iff _ _).0 s;
          no_user = given_none url.username u;
          no_password = given_none url.password p;
          at_host = host;
          at_port = port;
        }
  ]

  -- A URL that passes `validate_results_location` has the endpoint's origin.
  pub validate_results_location-SameOrigin :
      (url endpoint : Text) {safe : Text}
      → validate_results_location {N = N} url endpoint ≡ ok safe
      → SameOrigin endpoint safe
  validate_results_location-SameOrigin url endpoint h =
      let (same, a, b, ha, hb, s) = validate_results_location_ok url endpoint h in
      (
        b.0,
        b.1,
        validated-IsHttpsAt endpoint (ha ∙ ap ok (sym (same_origin_eq b a s))),
        rw (← same) (validated-IsHttpsAt url hb),
      )

module _ {N : Type 0} ⦃P : Python N⦄ ⦃U : Platform⦄ (server : Server N) where
  fetch_request_result-IsTrusted :
      (url api_key : Text) (options : FetchOptions) (log : List Effect)
      → All (IsTrusted options.endpoint api_key) log
      → All
          (IsTrusted options.endpoint api_key)
          (fetch_request_result server url api_key options log).1
  fetch_request_result-IsTrusted url api_key options log h =
      elim (fetch_request_result-cases server url api_key options log) [
        | inl (e, _, q) ↦ rw q h
        | inr (safe, v, q) ↦ rw q (
            All-request_json server safe [] api_key (IsTrusted options.endpoint api_key)
              options.request log
              (validate_results_location-SameOrigin url options.endpoint v, refl) (λ n. tt) h)
      ]

  task-IsTrusted :
      (query api_key : Text) (options : FetchOptions) (log : List Effect)
      → All (IsTrusted options.endpoint api_key) log
      → All
          (IsTrusted options.endpoint api_key)
          (task_amazon_products_request server query api_key options log).1
  task-IsTrusted query api_key options log h = elim (task-cases server query api_key options log) [
    | inl (e, _, q) ↦ rw q h
    | inr (origin, v, q) ↦
        let at_origin = validated-IsHttpsAt options.endpoint v in
        rw q (
          All-request_json server options.endpoint _ api_key (IsTrusted options.endpoint api_key)
            options.request log ((origin.0, origin.1, at_origin, at_origin), refl) (λ n. tt) h)
  ]

  pause-IsTrusted :
      (api_key : Text) (options : FetchOptions) (count : ℕ) (log : List Effect)
      → All (IsTrusted options.endpoint api_key) log
      → All (IsTrusted options.endpoint api_key) (pause server options count log)
  unfolding pause
  pause-IsTrusted api_key options count log h =
      elim (Bool-cases (ltb count (rounds_of options.max_polls))) [
        | inl e ↦ rw e (tt, h)
        | inr e ↦ rw e h
      ]

  poll_loop-IsTrusted :
      (rounds : ℕ) (url api_key : Text) (options : FetchOptions) (count : ℕ) (last : Fields N)
      (log : List Effect)
      → All (IsTrusted options.endpoint api_key) log
      → All
          (IsTrusted options.endpoint api_key)
          (poll_loop server url api_key options rounds count last log).1
  poll_loop-IsTrusted zero url api_key options count last log h = unfold poll_loop in h
  poll_loop-IsTrusted (suc rounds) url api_key options count last log h =
      let h' = fetch_request_result-IsTrusted url api_key options log h in
      elim (poll_loop-cases server rounds url api_key options count last log) [
        | inl (e, _, q) ↦ rw q h'
        | inr (result, _, inl (outcome, _, q)) ↦ rw q h'
        | inr (result, _, inr (_, q)) ↦ rw q (
            poll_loop-IsTrusted rounds url api_key options (count + 1) result _
              (pause-IsTrusted api_key options count _ h'))
      ]

  follow_task-IsTrusted :
      (api_key : Text) (options : FetchOptions) (task : Fields N) (log : List Effect)
      → All (IsTrusted options.endpoint api_key) log
      → All
          (IsTrusted options.endpoint api_key)
          (follow_task server api_key options task (start task) log).1
  follow_task-IsTrusted api_key options task log h =
      elim (follow_task-cases server api_key options task log) [
        | inl (r, _, q) ↦ rw q h
        | inr (url, _, _, q) ↦ rw q (poll_loop-IsTrusted _ url api_key options 1 task log h)
      ]

  -- Whatever the server replies, and wherever it says that the results are, every request of a run
  -- that carries the API key goes to an HTTPS URL with the host and port of the endpoint and with no
  -- user information, and carries no other key.
  pub fetch_amazon_products-IsTrusted :
      (query api_key : Text) (options : FetchOptions)
      → All
          (IsTrusted options.endpoint api_key)
          (fetch_amazon_products server query api_key options []).1
  fetch_amazon_products-IsTrusted query api_key options =
      let h = task-IsTrusted query api_key options [] tt in
      elim (fetch-cases server query api_key options []) [
        | inl (reason, q) ↦ rw q tt
        | inr (inl (e, _, q)) ↦ rw q h
        | inr (inr (task, _, q)) ↦ rw q (follow_task-IsTrusted api_key options task _ h)
      ]
