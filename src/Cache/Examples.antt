-- ===== src/Cache/Examples.antt =====
-- A file of the cache of src/repositories/cache_repository.py.
use amazon_similar_search.Prelude.{
  ◌≡◌, refl, ℕ, ◌*◌, pos, false, some, none, codes, member, starts_with, split_slash, eq_text,
  if◌then◌else◌, [], ◌∷◌,
}
use amazon_similar_search.Json.{Value}
use amazon_similar_search.Runtime.Fixed.{fixed_point}
use amazon_similar_search.Cache.{
  CachePath, World, Disk, ok, path_for, same_path, find_file, load, save, outscraper_raw_cache,
}
use amazon_similar_search.Cache.Stored.{is_expired}
use amazon_similar_search.Cache.Safety.{IsBelow, path_for-IsBelow}
use amazon_similar_search.Cache.RoundTrip.{load-save}

abbrev path : CachePath
path = record { directories = codes "outscraper" ∷ codes "raw" ∷ []; name = codes "0a1f" }

named : path_for outscraper_raw_cache (codes "0a1f") ≡ some path
unfolding path_for starts_with member split_slash eq_text
named = refl

-- A path that leads upwards is refused.
upwards : path_for (codes "outscraper/../..") (codes "0a1f") ≡ none
unfolding path_for starts_with member split_slash eq_text
upwards = refl

-- A path that is absolute is refused.
absolute : path_for (codes "/etc") (codes "0a1f") ≡ none
unfolding path_for starts_with member split_slash eq_text
absolute = refl

path_for-IsBelow_example : IsBelow (codes "srv" ∷ codes "cache" ∷ []) (codes "0a1f") path
path_for-IsBelow_example =
    path_for-IsBelow (codes "srv" ∷ codes "cache" ∷ []) outscraper_raw_cache (codes "0a1f") path
      named

-- Each reading of the clock is half an hour after the one before.
abbrev disk : Disk ℕ (Value ℕ)
disk = record { clock = λ n. n * 18_000_000; dump = λ v. v; parse = λ v. some v }

abbrev empty : World ℕ (Value ℕ)
empty = record { files = []; ticks = 0; bonsai_calls = []; outscraper_calls = [] }

load-save_example :
    ((load disk outscraper_raw_cache
        (codes "0a1f")
        none
        (save disk outscraper_raw_cache (codes "0a1f") (Value.bool false) empty).0).1
      ≡ ok (Value.bool false))
    × ((load disk outscraper_raw_cache
          (codes "0a1f")
          (some (pos 3_600))
          (save disk outscraper_raw_cache (codes "0a1f") (Value.bool false) empty).0).1
        ≡ ok (if is_expired disk (pos 3_600) 0 1 then Value.null else Value.bool false))
    × ((other : CachePath)
        → same_path path other ≡ false
        → find_file other
            (save disk outscraper_raw_cache (codes "0a1f") (Value.bool false) empty).0.files
          ≡ find_file other empty.files)
load-save_example =
    load-save disk (λ value. refl) outscraper_raw_cache (codes "0a1f") path (Value.bool false)
      (pos 3_600) empty named
