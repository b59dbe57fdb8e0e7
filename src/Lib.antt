-- ===== src/Lib.antt =====
-- Amazon Similar Search: a wish is turned into product attributes by a language model, Outscraper is
-- asked for Amazon products, the answer is normalized, and the products are ranked by how near they
-- come to the wish. Beside the program, tools/ai_review prices and gates the reviews of its changes.
--
-- The parts, and the files that model them:
--   Schemas          src/schemas.py: the records that the phases hand on.
--   Outscraper       src/clients/outscraper_client.py. Task holds the states of a task and the check
--                    of the address of its result; Request the loop of `_request_json`; Fetch the
--                    submission and the polls of `fetch_amazon_products`. A server answers from the
--                    log of all requests and pauses before, so a run is a function of the server.
--   Normalization    src/services/amazon_product_normalization.py, with the readings of JSON values in
--                    Normalization.Values.
--   Matching         src/services/text_processing.py.
--   Scoring          src/services/product_scoring.py: Terms the lists of terms, Match the condition
--                    score, Price the price score and the penalty, Similarity the TF-IDF scores, Rank
--                    `score_product` and `score_products`.
--   Extraction       src/services/user_attribute_extraction.py, and the choice of the query in
--                    src/services/outscraper_search_select.py.
--   Bonsai           src/clients/bonsai_client.py: the request to the language model and its answer.
--   Cache            src/repositories/cache_repository.py and src/utilities/json_editor.py, on a list
--                    of files with their contents and times.
--   Pipeline         src/main/run.py: the keys of the cache (with src/utilities/build_hash.py), and in
--                    Search the four steps of `run_product_search` with the functions of the
--                    components that write files (`call_outscraper`, `normalize`, `scoring`).
--   Review           tools/ai_review: Pricing pricing_policy.py, Paths sensitive_paths.py, Models the
--                    evidence of models.py and Validators two of its validators, Judge judge.py, and
--                    Workflow outer_workflow_state.py, with a file for each kind of document and in Run
--                    the loop of `run_fixed_workflow`.
--   Dedupe           the loop that keeps the first item of each key, which several parts contain.
--   Runtime, Json, Prelude  Python's values and the functions of the interpreter that are used.
-- The attributes of Extraction lead to the query that is fetched, the result of a fetch is what
-- Normalization reads, its products are what Scoring ranks, and Scoring, Extraction and Normalization
-- take their words and cleaned lists from Matching and Dedupe.
--
-- Numbers and texts: a text is the list of its code points, an int is a ℤ or, where it is a count or
-- a positive price, a native ℕ. Floats are a type N with the operations of `Runtime.Python`; theorems
-- take what they need of them as the named laws of Runtime.Laws, all of which hold of IEEE doubles
-- with NaN. `Runtime.Fixed` is an instance to run the model with. An int that is too large for
-- a float is taken to convert, where Python raises OverflowError.
--
-- Loops are structural: `_request_json` runs over the attempts left, and the polls over the polls
-- left, which are the bounds of the source's `range`. The calls of scikit-learn and SudachiPy
-- are the parameters `Tfidf` and `Sudachi`, `json.loads` and pydantic's validation the parameter
-- `Parser`, SHA-256 and UTF-8 the parameter `Digest`, and HTTP is the parameter `Server`.
-- In the pipeline a search is an action on a `World`: the files, the clock's ticks, and the calls of
-- the language model and of Outscraper, in order. The text of a JSON file and the clock are the parameter
-- `Disk`, JSON and SHA-256 of the keys the parameter `Hash`, pydantic's records the parameter `Models`.
-- In the workflow JSON, Base64 and UTF-8 are the parameter `Codec`; the coordinator and the executors
-- are the parameter `Callbacks`, which answers from the log of the calls before. Its loop is structural
-- over the seven phases.
--
-- Not modelled: printing, the command line, the user interface, `is_bonsai_running`, the encoding of
-- the request's URL, the temporary file behind an atomic write, the bounds of the settings,
-- `validate_openai_pricing_policy`, `validate_empty_env_example` and the other validators of models.py;
-- and of tools/ai_review all but the files named above: the policy over diffs, the ledgers, the
-- signatures, and the code that moves documents between processes, containers and file descriptors.
pub mod Prelude
pub mod Json
pub mod Dedupe
pub mod Schemas
pub mod Matching
pub mod Normalization
pub mod Scoring
pub mod Runtime
pub mod Extraction
pub mod Review
pub mod Outscraper
pub mod Bonsai
pub mod Cache
pub mod Pipeline
