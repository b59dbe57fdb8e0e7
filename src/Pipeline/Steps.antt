-- ===== src/Pipeline/Steps.antt =====
-- The steps of `run_product_search` in src/main/run.py without the cache.
use amazon_similar_search.Prelude.{
  ◌≡◌, refl, ap, ◌∙◌, true, false, ◌||◌, Option, none, some, Text, codes, all, is_empty,
  starts_with, member, split_slash, eq_text, ◌∷◌,
}
use amazon_similar_search.Json.{Value}
use amazon_similar_search.Runtime.{Python, Platform}
use amazon_similar_search.Schemas.{ProductAttributes}
use amazon_similar_search.Bonsai
use amazon_similar_search.Cache.{
  CachePath, World, Failure, bonsai_error, extraction_error, Result, ok, err, Action, continue,
  ◌>>=◌, product_attributes_cache, path_for, directories_of, is_key_character, save,
}
use amazon_similar_search.Cache.Stored.{written, save-written}
use amazon_similar_search.Pipeline.{
  Environment, Hash, first, build_cache_key, build_attributes_cache_key, build_outscraper_cache_key,
}
use amazon_similar_search.Pipeline.Search.{ask_bonsai, extract_product_attributes, attributes_step}

-- Hexadecimal digests are names of cache files.
abbrev pub HasKeys : {N : Type 0} → Hash N → Type 0
HasKeys hash =
    (payload : Text)
    → (all is_key_character (first 24 (hash.sha256 payload)) ≡ true)
      × (is_empty (first 24 (hash.sha256 payload)) ≡ false)

module _ {N F A B : Type 0} where
  pub bind-ok :
      (m : Action N F A) (f : A → Action N F B) {w later : World N F} {a : A}
      → m w ≡ (later, ok a)
      → (m >>= f) w ≡ f a later
  bind-ok m f e = ap (λ (r : World N F × Result N A). continue r f) e

  pub bind-err :
      (m : Action N F A) (f : A → Action N F B) {w later : World N F} {e : Failure N}
      → m w ≡ (later, err e)
      → (m >>= f) w ≡ (later, err e)
  bind-err m f e = ap (λ (r : World N F × Result N A). continue r f) e

-- A namespace that stays below the cache's directory.
abbrev pub IsRelative : Text → Type 0
IsRelative namespace =
    (starts_with (codes "/") namespace || member (codes "..") (directories_of namespace)) ≡ false

pub product_attributes_cache-IsRelative : IsRelative product_attributes_cache
unfolding starts_with member split_slash eq_text
product_attributes_cache-IsRelative = refl

-- The path of a key below the directories of a namespace.
abbrev pub path_at : Text → Text → CachePath
path_at namespace cache_key = record { directories = directories_of namespace; name = cache_key }

pub path_for-build_cache_key :
    {N : Type 0} (hash : Hash N) (namespace : Text) (payload : Value N)
    → HasKeys hash
    → IsRelative namespace
    → path_for namespace (build_cache_key hash payload)
      ≡ some (path_at namespace (build_cache_key hash payload))
unfolding path_for build_cache_key
path_for-build_cache_key hash namespace payload keys relative =
    let (hexadecimal, given) = keys (hash.dumps payload) in rw (relative, hexadecimal, given) refl

module _ {N F : Type 0} ⦃P : Python N⦄ ⦃U : Platform⦄ (env : Environment N F) where
  abbrev pub attributes_key : Text → Text → Text
  attributes_key user_input scope =
      build_attributes_cache_key env.settings env.hash user_input scope

  abbrev pub response_key : Text → Text → Text
  response_key query scope = build_outscraper_cache_key env.settings env.hash query scope

  -- The state after a call of the language model.
  abbrev pub asked : Text → World N F → World N F
  asked user_input w = record w { bonsai_calls = user_input ∷ w.bonsai_calls }

  abbrev pub answer : Text → Option Text
  answer user_input = Bonsai.call_bonsai env.post env.settings.bonsai user_input

  ask_bonsai-some :
      (user_input : Text) (w : World N F) {raw_text : Text}
      → answer user_input ≡ some raw_text
      → ask_bonsai env user_input w ≡ (asked user_input w, ok raw_text)
  unfolding ask_bonsai
  ask_bonsai-some user_input w e = rw (ask_bonsai, e) refl

  ask_bonsai-none :
      (user_input : Text) (w : World N F)
      → answer user_input ≡ none
      → ask_bonsai env user_input w ≡ (asked user_input w, err bonsai_error)
  unfolding ask_bonsai
  ask_bonsai-none user_input w e = rw (ask_bonsai, e) refl

  pub path_for-attributes :
      (user_input scope : Text)
      → HasKeys env.hash
      → path_for product_attributes_cache (attributes_key user_input scope)
        ≡ some (path_at product_attributes_cache (attributes_key user_input scope))
  unfolding build_attributes_cache_key
  path_for-attributes user_input scope keys =
      path_for-build_cache_key env.hash product_attributes_cache _ keys
        product_attributes_cache-IsRelative

  pub attributes_step-none :
      (user_input scope : Text) (w : World N F)
      → answer user_input ≡ none
      → attributes_step env false user_input scope w ≡ (asked user_input w, err bonsai_error)
  unfolding attributes_step
  attributes_step-none user_input scope w e =
      bind-err (ask_bonsai env user_input) _ (ask_bonsai-none user_input w e)

  pub attributes_step-unread :
      (user_input scope raw_text : Text) (w : World N F)
      → answer user_input ≡ some raw_text
      → extract_product_attributes env raw_text user_input ≡ none
      → attributes_step env false user_input scope w ≡ (asked user_input w, err extraction_error)
  unfolding attributes_step
  attributes_step-unread user_input scope raw_text w e unread =
      bind-ok (ask_bonsai env user_input) _ (ask_bonsai-some user_input w e) ∙ rw unread refl

  pub attributes_step-some :
      (user_input scope raw_text : Text) (attrs : ProductAttributes) (w : World N F)
      → HasKeys env.hash
      → answer user_input ≡ some raw_text
      → extract_product_attributes env raw_text user_input ≡ some attrs
      → attributes_step env false user_input scope w ≡ (
        written env.disk
            (path_at product_attributes_cache (attributes_key user_input scope))
            (env.models.dump_attributes attrs)
            (asked user_input w),
        ok attrs,
      )
  unfolding attributes_step
  attributes_step-some user_input scope raw_text attrs w keys e read =
      let path = path_at product_attributes_cache (attributes_key user_input scope) in
      let dumped_attrs = env.models.dump_attributes attrs in
      let named : path_for product_attributes_cache (attributes_key user_input scope) ≡ some path =
        path_for-attributes user_input scope keys in
      let saved : save env.disk product_attributes_cache (attributes_key user_input scope)
            dumped_attrs (asked user_input w)
          ≡ (written env.disk path dumped_attrs (asked user_input w), ok path) =
        save-written env.disk _ _ path dumped_attrs (asked user_input w) named in
      bind-ok (ask_bonsai env user_input) _ (ask_bonsai-some user_input w e)
      ∙ rw read (
          bind-ok
            (save env.disk product_attributes_cache (attributes_key user_input scope) dumped_attrs)
            _ saved)
