-- ===== src/Cache.antt =====
-- src/repositories/cache_repository.py and src/utilities/json_editor.py: JSON files below the cache's
-- directory. A file is replaced as a whole, so a state has for each path the file that is there.
pub mod Laws
pub mod Stored
pub mod Safety
pub mod RoundTrip
pub mod Examples
use amazon_similar_search.Prelude.{
  ℕ, ◌+◌, ℤ, leb, Bool, true, false, not, ◌||◌, Option, none, some, Text, codes, eq_text, member,
  all, keep, is_empty, starts_with, split_slash, if◌then◌else◌, List, [], ◌∷◌, ◌++◌,
}
use amazon_similar_search.Json.{Value}
use amazon_similar_search.Runtime.{Python}
use amazon_similar_search.Review.Judge.Texts.{eq_texts}
use amazon_similar_search.Outscraper.Request.{Effect}
use amazon_similar_search.Outscraper.Task.{Error}

-- A path that was joined to the cache's directory: the directories, and the name without `.json`. As in
-- `Path.parts`, a first directory "/" stands for a root: what is joined after it replaces what is before.
pub record CachePath : Type 0 where
  pub directories : List Text
  pub name : Text

-- `F` is the type of what files hold.
pub record File (N F : Type 0) : Type 0 where
  pub path : CachePath
  pub contents : F
  pub mtime : N

-- The files, how often the clock has been read, and the calls to the network.
pub record World (N F : Type 0) : Type 0 where
  pub files : List (File N F)
  pub ticks : ℕ
  pub bonsai_calls : List Text
  pub outscraper_calls : List Effect

-- The clock at each reading, `json.dump` into a file, and `json.loads` of what a file holds: none on
-- OSError, UnicodeError and JSONDecodeError.
pub record Disk (N F : Type 0) : Type 0 where
  pub clock : ℕ → N
  pub dump : Value N → F
  pub parse : F → Option (Value N)

-- The exceptions of a search.
pub data Failure (N : Type 0) : Type 0 where
  value_error : Failure N
  runtime_error : Failure N  -- no API key
  bonsai_error : Failure N
  extraction_error : Failure N
  outscraper_error : Error N → Failure N
  read_error : Failure N
  zero_division : Failure N
  assertion_error : Failure N

pub data Result (N : Type 0) (A : Type 0) : Type 0 where
  ok : A → Result N A
  err : Failure N → Result N A

-- What was written stays written when an exception is raised.
abbrev pub Action : Type 0 → Type 0 → Type 0 → Type 0
Action N F A = World N F → World N F × Result N A

module _ {N F : Type 0} where
  abbrev pub pure : {A : Type 0} → A → Action N F A
  pure a w = (w, ok a)

  abbrev pub raise : {A : Type 0} → Failure N → Action N F A
  raise e w = (w, err e)

  abbrev pub continue :
      {A B : Type 0} → World N F × Result N A → (A → Action N F B) → World N F × Result N B
  continue (w, ok a) f = f a w
  continue (w, err e) f = (w, err e)

  infixl 5 ◌>>=◌
  abbrev pub ◌>>=◌ : {A B : Type 0} → Action N F A → (A → Action N F B) → Action N F B
  (m >>= f) w = continue (m w) f

  abbrev pub or_raise : {A : Type 0} → Option A → Failure N → Action N F A
  or_raise none e = raise e
  or_raise (some a) e = pure a

abbrev pub product_attributes_cache : Text
product_attributes_cache = codes "product_attributes"

abbrev pub outscraper_raw_cache : Text
outscraper_raw_cache = codes "outscraper/raw"

abbrev pub outscraper_normalized_cache : Text
outscraper_normalized_cache = codes "outscraper/normalized"

abbrev pub outscraper_scored_cache : Text
outscraper_scored_cache = codes "outscraper/scored"

abbrev pub is_directory : Text → Bool
is_directory part = not (is_empty part || eq_text part (codes "."))

-- `Path(namespace).parts`
abbrev pub directories_of : Text → List Text
directories_of namespace =
    (if starts_with (codes "/") namespace then codes "/" ∷ [] else [])
    ++ keep is_directory (split_slash [] namespace)

abbrev pub hexadecimal : List ℕ
hexadecimal = codes "0123456789abcdef"

abbrev pub is_key_character : ℕ → Bool
is_key_character c =
    if leb 48 c then if leb c 57 then true else (if leb 97 c then leb c 102 else false) else false

-- `path_for`, none on ValueError
unfoldable pub path_for : Text → Text → Option CachePath
unfolding member split_slash starts_with
path_for namespace cache_key =
    if starts_with (codes "/") namespace || member (codes "..") (directories_of namespace)
    then none
    else if is_empty cache_key || not (all is_key_character cache_key)
    then none
    else some (record { directories = directories_of namespace; name = cache_key })

unfoldable pub same_path : CachePath → CachePath → Bool
same_path p q = if eq_texts p.directories q.directories then eq_text p.name q.name else false

module _ {N F : Type 0} where
  unfoldable pub find_file : CachePath → List (File N F) → Option (File N F)
  find_file path [] = none
  find_file path (file ∷ files) =
      let other = find_file path files in if same_path file.path path then some file else other

  unfoldable pub put_file : File N F → List (File N F) → List (File N F)
  put_file new [] = new ∷ []
  put_file new (file ∷ files) =
      let others = put_file new files in
      if same_path file.path new.path then new ∷ files else file ∷ others

module _ {N F : Type 0} (disk : Disk N F) where
  -- `time.time()`, and the time that a write leaves on a file
  unfoldable pub read_clock : Action N F N
  read_clock w = (record w { ticks = w.ticks + 1 }, ok (disk.clock w.ticks))

  -- `write_json`
  unfoldable pub write_json : CachePath → Value N → Action N F CachePath
  unfolding read_clock
  write_json path value = do
    now ← read_clock
    λ w. (
      record w {
        files = put_file (record { path = path; contents = disk.dump value; mtime = now }) w.files;
      },
      ok path,
    )

  -- `read_json`
  unfoldable pub read_json : CachePath → Action N F (Value N)
  unfolding find_file
  read_json path w = elim (find_file path w.files) [
    | none ↦ (w, err read_error)
    | some file ↦ or_raise (disk.parse file.contents) read_error w
  ]

  unfoldable pub save : Text → Text → Value N → Action N F CachePath
  unfolding write_json
  save namespace cache_key value = do
    path ← or_raise (path_for namespace cache_key) value_error
    write_json path value

module _ {N F : Type 0} ⦃P : Python N⦄ (disk : Disk N F) where
  -- The file is not older than its limit, where there is one.
  unfoldable pub is_fresh : Option ℤ → File N F → Action N F Bool
  unfolding read_clock
  is_fresh none file = pure true
  is_fresh (some max_age) file = do
    now ← read_clock disk
    pure (if P.lt (P.of_int max_age) (P.sub now file.mtime) then false else true)

  abbrev pub when_fresh : CachePath → Bool → Option CachePath
  when_fresh path true = some path
  when_fresh path false = none

  unfoldable pub fresh_path : Text → Text → Option ℤ → Action N F (Option CachePath)
  unfolding find_file is_fresh
  fresh_path namespace cache_key max_age = do
    path ← or_raise (path_for namespace cache_key) value_error
    λ w. elim (find_file path w.files) [
      | none ↦ (w, ok none)
      | some file ↦ (is_fresh max_age file >>= λ fresh. pure (when_fresh path fresh)) w
    ]

  -- The value of a path, null where the file cannot be read.
  abbrev pub value_at : Option CachePath → Action N F (Value N)
  value_at none w = (w, ok Value.null)
  value_at (some path) w = elim (read_json disk path w).1 [
    | ok value ↦ (w, ok value)
    | err e ↦ (w, ok Value.null)
  ]

  -- `load`, where null stands for None
  unfoldable pub load : Text → Text → Option ℤ → Action N F (Value N)
  unfolding fresh_path read_json
  load namespace cache_key max_age = do path ← fresh_path namespace cache_key max_age; value_at path
