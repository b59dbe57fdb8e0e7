-- ===== src/Cache/Stored.antt =====
-- What a file of the cache holds, and what a load returns.
use amazon_similar_search.Prelude.{
  ◌≡◌, refl, ap, ◌∙◌, ℕ, ◌+◌, ℤ, Bool, false, Bool-cases, inl, inr, Option, none, some, Text,
  if◌then◌else◌,
}
use amazon_similar_search.Json.{Value}
use amazon_similar_search.Runtime.{Python}
use amazon_similar_search.Cache.{
  CachePath, File, World, Disk, Result, ok, err, path_for, same_path, find_file, put_file,
  read_clock, write_json, read_json, is_fresh, fresh_path, load, save, continue, value_at,
}
use amazon_similar_search.Cache.Laws.{find_file-put_file, find_file-put_other}

-- One more reading of the clock.
abbrev pub ticked : {N F : Type 0} → World N F → World N F
ticked w = record w { ticks = w.ticks + 1 }

module _ {N F : Type 0} (disk : Disk N F) where
  -- A value that is written as JSON is what is read.
  abbrev pub HasRoundTrip : Type 0
  HasRoundTrip = (value : Value N) → disk.parse (disk.dump value) ≡ some value

  -- The file at the path has the value, and was written at this reading of the clock.
  abbrev pub Holds : CachePath → Value N → ℕ → World N F → Type 0
  Holds path value time w =
      (file : File N F) × (find_file path w.files ≡ some file)
      × (disk.parse file.contents ≡ some value)
      × (file.mtime ≡ disk.clock time)

  pub read_json-Holds :
      (path : CachePath) (value : Value N) {time : ℕ} (w : World N F)
      → Holds path value time w
      → read_json disk path w ≡ (w, ok value)
  unfolding read_json
  read_json-Holds path value w (file, found, parsed, _) = rw (read_json, found, parsed) refl

  abbrev pub new_file : CachePath → Value N → World N F → File N F
  new_file path value w = record {
    path = path;
    contents = disk.dump value;
    mtime = disk.clock w.ticks;
  }

  -- The state after a write.
  abbrev pub written : CachePath → Value N → World N F → World N F
  written path value w = record w {
    files = put_file (new_file path value w) w.files;
    ticks = w.ticks + 1;
  }

  pub write_json-written :
      (path : CachePath) (value : Value N) (w : World N F)
      → write_json disk path value w ≡ (written path value w, ok path)
  unfolding write_json read_clock
  write_json-written path value w = refl

  pub save-written :
      (namespace cache_key : Text) (path : CachePath) (value : Value N) (w : World N F)
      → path_for namespace cache_key ≡ some path
      → save disk namespace cache_key value w ≡ (written path value w, ok path)
  unfolding save
  save-written namespace cache_key path value w named = rw named (write_json-written path value w)

  pub written-Holds :
      HasRoundTrip
      → (path : CachePath) (value : Value N) (w : World N F)
      → Holds path value w.ticks (written path value w)
  written-Holds round_trip path value w = (
    new_file path value w,
    find_file-put_file (new_file path value w) w.files,
    round_trip value,
    refl,
  )

  pub Holds-written :
      (path other : CachePath) (value new : Value N) {time : ℕ} (w : World N F)
      → same_path other path ≡ false
      → Holds path value time w
      → Holds path value time (written other new w)
  Holds-written path other value new w apart (file, found, parsed, mtime) =
      (file, find_file-put_other path (new_file other new w) w.files apart ∙ found, parsed, mtime)

module _ {N F : Type 0} ⦃P : Python N⦄ (disk : Disk N F) where
  abbrev pub is_expired : ℤ → ℕ → ℕ → Bool
  is_expired max_age time now = P.lt (P.of_int max_age) (P.sub (disk.clock now) (disk.clock time))

  value_at-Holds :
      (path : CachePath) (value : Value N) {time : ℕ} (w : World N F)
      → Holds disk path value time w
      → value_at disk (some path) w ≡ (w, ok value)
  value_at-Holds path value w holds =
      ap
        (λ (r : World N F × Result N (Value N)). elim r.1 [
          | ok v ↦ (w, ok v)
          | err e ↦ (w, ok Value.null)
        ])
        (read_json-Holds disk path value w holds)

  fresh_path-found :
      (namespace cache_key : Text) (path : CachePath) (value : Value N) {time : ℕ} (w : World N F)
      → path_for namespace cache_key ≡ some path
      → Holds disk path value time w
      → fresh_path disk namespace cache_key none w ≡ (w, ok (some path))
  unfolding fresh_path is_fresh
  fresh_path-found namespace cache_key path value w valid (file, found, _, _) =
      rw (fresh_path, valid, found) refl

  -- A file with a limit of age is fresh when it is not expired at this reading of the clock.
  pub fresh_path-Holds :
      (namespace cache_key : Text) (path : CachePath) (value : Value N) (max_age : ℤ) (time : ℕ)
      (w : World N F)
      → Holds disk path value time w
      → path_for namespace cache_key ≡ some path
      → fresh_path disk namespace cache_key (some max_age) w
        ≡ (ticked w, ok (if is_expired max_age time w.ticks then none else some path))
  unfolding fresh_path is_fresh read_clock
  fresh_path-Holds namespace cache_key path value max_age time w (file, found, parsed, mtime)
        valid =
      elim (Bool-cases (is_expired max_age time w.ticks)) [
        | inl e ↦ rw (fresh_path, valid, found, is_fresh, mtime, e) refl
        | inr e ↦ rw (fresh_path, valid, found, is_fresh, mtime, e) refl
      ]

  -- `load` without a limit of age
  pub load-Holds :
      (namespace cache_key : Text) (path : CachePath) (value : Value N) {time : ℕ} (w : World N F)
      → path_for namespace cache_key ≡ some path
      → Holds disk path value time w
      → load disk namespace cache_key none w ≡ (w, ok value)
  unfolding load
  load-Holds namespace cache_key path value w valid holds =
      ap (λ (r : World N F × Result N (Option CachePath)). continue r (value_at disk))
        (fresh_path-found namespace cache_key path value w valid holds)
      ∙ value_at-Holds path value w holds

  -- `load` with a limit of age
  pub load-age :
      (namespace cache_key : Text) (path : CachePath) (value : Value N) (max_age : ℤ) (time : ℕ)
      (w : World N F)
      → Holds disk path value time w
      → path_for namespace cache_key ≡ some path
      → load disk namespace cache_key (some max_age) w
        ≡ (ticked w, ok (if is_expired max_age time w.ticks then Value.null else value))
  unfolding load
  load-age namespace cache_key path value max_age time w holds valid =
      ap (λ (r : World N F × Result N (Option CachePath)). continue r (value_at disk))
        (fresh_path-Holds namespace cache_key path value max_age time w holds valid)
      ∙ elim (Bool-cases (is_expired max_age time w.ticks)) [
        | inl e ↦ rw e refl
        | inr e ↦ rw e (value_at-Holds path value (ticked w) holds)
      ]

  pub fresh_path-fresh :
      (namespace cache_key : Text) (path : CachePath) (value : Value N) (max_age : ℤ) (time : ℕ)
      (w : World N F)
      → Holds disk path value time w
      → path_for namespace cache_key ≡ some path
      → is_expired max_age time w.ticks ≡ false
      → fresh_path disk namespace cache_key (some max_age) w ≡ (ticked w, ok (some path))
  fresh_path-fresh namespace cache_key path value max_age time w holds valid fresh =
      fresh_path-Holds namespace cache_key path value max_age time w holds valid ∙ rw fresh refl

  pub load-fresh :
      (namespace cache_key : Text) (path : CachePath) (value : Value N) (max_age : ℤ) (time : ℕ)
      (w : World N F)
      → Holds disk path value time w
      → path_for namespace cache_key ≡ some path
      → is_expired max_age time w.ticks ≡ false
      → load disk namespace cache_key (some max_age) w ≡ (ticked w, ok value)
  load-fresh namespace cache_key path value max_age time w holds valid fresh =
      load-age namespace cache_key path value max_age time w holds valid ∙ rw fresh refl
