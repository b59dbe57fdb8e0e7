-- ===== src/Pipeline/Examples/Searches.antt =====
-- The environment of the example searches: a server that finds one product, and a language model that
-- always answers the same.
use amazon_similar_search.Prelude.{
  ◌≡◌, refl, ℕ, pos, true, false, some, codes, List, [], ◌∷◌, strip, lstrip, is_space, contains,
  starts_with, member, eq_text,
}
use amazon_similar_search.Json.{Value, Fields, field, end, cons, nil, get}
use amazon_similar_search.Runtime.Fixed.{ascii, fixed_point}
use amazon_similar_search.Schemas.{ProductScore}
use amazon_similar_search.Scoring.Examples.{no_morphemes, half_similar, settings, wish}
use amazon_similar_search.Outscraper.Request.{response}
use amazon_similar_search.Outscraper.Task.{
  validate_results_location, validated_https_origin, origin_of, rstrip_dots, task_state, has_data,
  normalized_status, validated_completed_result, same_origin,
}
use amazon_similar_search.Bonsai.{
  answered, call_bonsai, extract_bonsai_content, build_bonsai_payload,
}
use amazon_similar_search.Cache.{World, Result, ok, err}
use amazon_similar_search.Cache.Stored.{HasRoundTrip}
use amazon_similar_search.Pipeline.{Environment}
use amazon_similar_search.Pipeline.Steps.{HasKeys}
use amazon_similar_search.Pipeline.Uncached.{composition, specification}
use amazon_similar_search.Pipeline.Examples.Rows.{toy_models}
use amazon_similar_search.Extraction.Queries.{
  parse_attributes, finished, normalize_price_ranges, greater, categories_check,
  japanese_category_evidence, english_category_evidence, english_words, words_of,
  improve_search_queries, clean_dupe_lower, check_contains_japanese, japanese_query_part,
}
use amazon_similar_search.Matching.{
  join_space, stripped, build_tfidf_text, split_words, split_japanese_words, english_runs,
  clean_dupe_empty, term_matches_text,
}
use amazon_similar_search.Dedupe.{first_of_each}
use amazon_similar_search.Extraction.Response.{
  normalize_bonsai_json, split_lines, without_fence, from_brace, to_brace, braced,
  extract_json_text,
}
use amazon_similar_search.Outscraper.Fetch.{
  fetch_amazon_products, task_amazon_products_request, fetch_request_result, follow_task, start,
  poll_loop, polled, pause,
}
use amazon_similar_search.Outscraper.Request.{
  request_json, request_loop, outcome, sleep_before_retry,
}
use amazon_similar_search.Runtime.{truthy, float_max, float_min}
use amazon_similar_search.Scoring.Rank.{
  score_products, scored_products, candidates, zip_strict, collect, score_candidate, score_product,
  attribute_match, product_score, clamp, weighted_total, sort_ranked, insert_ranked,
}
use amazon_similar_search.Scoring.Similarity.{calculate_tfidf_similarities}
use amazon_similar_search.Scoring.Match.{
  calculate_weighted_condition_match_score, score_terms, match_score, match_loop,
  select_attribute_language,
}
use amazon_similar_search.Scoring.Terms.{
  weighted_condition_terms, weighted_groups, build_negative_terms, build_title_query_text,
  build_attribute_query_text, build_title_query_terms, build_attribute_terms,
  build_weighted_ranking_terms, repeat_terms, build_product_tfidf_text,
  build_product_title_tfidf_text, combined_product_text, product_text_parts,
}
use amazon_similar_search.Scoring.Price.{
  calculate_price_score, price_score_of, wanted_price_score, range_score, target_score,
  positive_price, calculate_negative_penalty, penalty_for,
}
use amazon_similar_search.Normalization.{
  normalize_amazon_products_response, iter_product_items, normalize_product, dedupe_key,
}
use amazon_similar_search.Extraction.Selection.{validate_search_query, select_outscraper_query}
use amazon_similar_search.Normalization.Values.{
  as_non_empty_string, clean_dupe_strings, collect_image_urls, as_string_list, digit_run,
  fraction_part, grouped_digits, unsigned_number, number_at, search_number, as_number, as_int,
  as_float, as_bool, currency_in, detect_currency, convert_price_to_jpy,
}

abbrev found : Fields ℕ
found = field (codes "status") (Value.str (codes "Success")) (
    field (codes "data")
      (Value.arr (
        cons
          (Value.obj (
            field (codes "name") (Value.str (codes "Wireless keyboard")) (
              field (codes "asin") (Value.str (codes "B01"))
                (field (codes "price") (Value.int (pos 3_000)) end))))
          nil))
      end)

abbrev message : Value ℕ
message = Value.obj (
    field (codes "choices")
      (Value.arr (
        cons
          (Value.obj (
            field (codes "message")
              (Value.obj (field (codes "content") (Value.str (codes "{}")) end)) end))
          nil))
      end)

abbrev pub env : Environment ℕ (Value ℕ)
env = record {
  settings = record {
    bonsai = record {
      base_url = codes "http://127.0.0.1:8080/v1";
      model = codes "Bonsai-8B.gguf";
      temperature = 1_000;
      max_tokens = pos 1_000;
      prompt = codes "prompt";
    };
    outscraper_api_key = codes "key";
    outscraper = record {
      endpoint = codes "https://api.example/search";
      domain = codes "amazon.co.jp";
      language = codes "ja";
      postal_code = codes "100-0001";
      limit = pos 100;
      request = record { timeout = pos 30; max_attempts = pos 3; backoff = pos 1_000 };
      poll_interval = pos 30;
      max_polls = pos 5;
    };
    usd_to_jpy_rate = pos 160;
    scoring = settings;
    enable_cache = true;
    llm_cache_ttl_seconds = pos 86_400;
    outscraper_cache_ttl_seconds = pos 3_600;
  };
  disk = record { clock = λ n. n; dump = λ v. v; parse = λ v. some v };
  hash = record { dumps = λ v. []; sha256 = λ s. codes "0123456789abcdef0123456789abcdef" };
  models = toy_models;
  parser = record {
    loads = λ s. some (Value.obj end);
    model_validate =
        λ fields. some (record wish { estimated_product_name_ja = 0x30ad ∷ 0x30fc ∷ [] });
  };
  post = λ url payload. answered (some message);
  server = λ log. response 200 false (some (Value.obj found));
}

pub env-HasKeys : HasKeys env.hash
env-HasKeys payload = (refl, refl)

pub env-HasRoundTrip : HasRoundTrip env.disk
env-HasRoundTrip value = refl

abbrev pub empty : World ℕ (Value ℕ)
empty = record { files = []; ticks = 0; bonsai_calls = []; outscraper_calls = [] }

abbrev scores_of : Result ℕ (List (ProductScore ℕ)) → List (ProductScore ℕ)
scores_of (ok scores) = scores
scores_of (err e) = []

abbrev pub scores : List (ProductScore ℕ)
scores = scores_of (specification env (codes "keyboard") (codes "local-cli") [])

pub finds : specification env (codes "keyboard") (codes "local-cli") [] ≡ ok scores
unfolding parse_attributes finished normalize_price_ranges greater categories_check
    japanese_category_evidence english_category_evidence english_words words_of
    improve_search_queries clean_dupe_lower check_contains_japanese japanese_query_part join_space
    stripped first_of_each strip lstrip is_space contains starts_with member eq_text
    normalize_bonsai_json fetch_amazon_products task_amazon_products_request fetch_request_result
    follow_task start poll_loop polled pause request_json request_loop outcome sleep_before_retry
    validate_results_location validated_https_origin origin_of rstrip_dots truthy task_state
    has_data normalized_status validated_completed_result same_origin score_products scored_products
    candidates zip_strict collect score_candidate score_product attribute_match product_score clamp
    weighted_total sort_ranked insert_ranked calculate_tfidf_similarities
    calculate_weighted_condition_match_score score_terms match_score match_loop
    select_attribute_language weighted_condition_terms weighted_groups calculate_price_score
    price_score_of wanted_price_score range_score target_score positive_price
    calculate_negative_penalty penalty_for build_negative_terms build_title_query_text
    build_attribute_query_text build_title_query_terms build_attribute_terms
    build_weighted_ranking_terms repeat_terms build_product_tfidf_text
    build_product_title_tfidf_text combined_product_text product_text_parts build_tfidf_text
    split_words split_japanese_words english_runs clean_dupe_empty term_matches_text float_max
    float_min get normalize_amazon_products_response iter_product_items normalize_product dedupe_key
    validate_search_query select_outscraper_query composition call_bonsai extract_bonsai_content
    build_bonsai_payload as_non_empty_string clean_dupe_strings collect_image_urls as_string_list
    digit_run fraction_part grouped_digits unsigned_number number_at search_number as_number as_int
    as_float as_bool currency_in detect_currency convert_price_to_jpy split_lines without_fence
    from_brace to_brace braced extract_json_text
finds = refl
