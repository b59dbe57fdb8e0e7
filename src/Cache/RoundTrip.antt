-- ===== src/Cache/RoundTrip.antt =====
-- What is saved in the cache of src/repositories/cache_repository.py is loaded again.
use amazon_similar_search.Prelude.{
  ◌≡◌, refl, ap, ◌∙◌, ◌+◌, ℤ, false, some, none, Text, if◌then◌else◌,
}
use amazon_similar_search.Json.{Value}
use amazon_similar_search.Runtime.{Python}
use amazon_similar_search.Cache.{
  CachePath, World, Disk, Result, ok, path_for, same_path, find_file, load, save,
}
use amazon_similar_search.Cache.Laws.{find_file-put_file, find_file-put_other}
use amazon_similar_search.Cache.Stored.{
  HasRoundTrip, Holds, new_file, written, save-written, is_expired, load-Holds, load-age,
}

module _ {N F : Type 0} ⦃P : Python N⦄ (disk : Disk N F) (round_trip : HasRoundTrip disk) where
  abbrev value_of : World N F × Result N (Value N) → Result N (Value N)
  value_of r = r.1

  -- Where files read back as they were written, a value that is saved under a key whose path is valid
  -- is what a load of the key returns, or nothing once its limit of age is over; and each file at
  -- another path stays what it was.
  pub load-save :
      (namespace cache_key : Text) (path : CachePath) (value : Value N) (max_age : ℤ)
      (w : World N F)
      → path_for namespace cache_key ≡ some path
      → ((load disk namespace cache_key none (save disk namespace cache_key value w).0).1
          ≡ ok value)
        × ((load disk namespace cache_key
              (some max_age)
              (save disk namespace cache_key value w).0).1
            ≡ ok (if is_expired disk max_age w.ticks (w.ticks + 1) then Value.null else value))
        × ((other : CachePath)
            → same_path path other ≡ false
            → find_file other (save disk namespace cache_key value w).0.files
              ≡ find_file other w.files)
  load-save namespace cache_key path value max_age w valid =
      let saved =
        ap (λ (r : World N F × Result N CachePath). r.0)
          (save-written disk namespace cache_key path value w valid) in
      let holds : Holds disk path value w.ticks (written disk path value w) = (
        new_file disk path value w,
        find_file-put_file (new_file disk path value w) w.files,
        round_trip value,
        refl,
      ) in
      (
        ap (λ later. (load disk namespace cache_key none later).1) saved
            ∙ ap value_of (
                load-Holds disk namespace cache_key path value (written disk path value w) valid
                  holds),
        ap (λ later. (load disk namespace cache_key (some max_age) later).1) saved
            ∙ ap value_of (
                load-age disk namespace cache_key path value max_age w.ticks
                  (written disk path value w) holds valid),
        λ other apart.
            ap (λ (later : World N F). find_file other later.files) saved
            ∙ find_file-put_other other (new_file disk path value w) w.files apart,
      )
