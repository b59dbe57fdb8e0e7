-- ===== src/Review/Paths.antt =====
-- tools/ai_review/sensitive_paths.py: the paths that never cross a review boundary.
pub mod Closure
pub mod Examples
use amazon_similar_search.Prelude.{
  ℕ, Bool, true, false, not, ◌&&◌, ◌||◌, Option, none, some, Text, codes, eq_text, member,
  starts_with, is_empty, any, keep, ◌==◌, if◌then◌else◌, List, [], ◌∷◌, ◌++◌, map, split_slash,
}
use amazon_similar_search.Runtime.{Platform, casefold}

abbrev pub credential_basenames : List Text
credential_basenames =
    codes ".envrc"
    ∷ codes ".authinfo"
    ∷ codes ".authinfo.gpg"
    ∷ codes ".git-credentials"
    ∷ codes ".gitconfig"
    ∷ codes ".netrc"
    ∷ codes ".npmrc"
    ∷ codes ".pypirc"
    ∷ codes ".yarnrc"
    ∷ codes ".yarnrc.yml"
    ∷ codes "_netrc"
    ∷ codes "application_default_credentials.json"
    ∷ codes "auth.json"
    ∷ codes "credentials"
    ∷ codes "credentials.json"
    ∷ codes "credentials.toml"
    ∷ codes "id_dsa"
    ∷ codes "id_ecdsa"
    ∷ codes "id_ed25519"
    ∷ codes "id_rsa"
    ∷ codes "service-account.json"
    ∷ codes "service_account.json"
    ∷ codes "secrets.json"
    ∷ codes "secrets.toml"
    ∷ codes "tokens.json"
    ∷ []

abbrev pub credential_directories : List Text
credential_directories =
    codes ".aws" ∷ codes ".azure" ∷ codes ".gnupg" ∷ codes ".kube" ∷ codes ".ssh" ∷ []

abbrev pub credential_suffixes : List (List Text)
credential_suffixes =
    (codes ".config" ∷ codes "gcloud" ∷ [])
    ∷ (codes ".config" ∷ codes "gh" ∷ [])
    ∷ (codes ".config" ∷ codes "glab-cli" ∷ [])
    ∷ (codes ".config" ∷ codes "hub" ∷ [])
    ∷ (codes ".config" ∷ codes "openai" ∷ [])
    ∷ (codes ".config" ∷ codes "pypoetry" ∷ codes "auth.toml" ∷ [])
    ∷ (codes ".config" ∷ codes "rclone" ∷ codes "rclone.conf" ∷ [])
    ∷ (codes ".docker" ∷ codes "config.json" ∷ [])
    ∷ []

-- The texts that the program returns.
pub data Reason : Type 0 where
  environment_path : Reason  -- sensitive environment path
  streamlit_secrets_path : Reason  -- sensitive Streamlit secrets path
  credential_path : Reason  -- credential path
  cache_path : Reason  -- sensitive cache path
  git_metadata : Reason  -- Git metadata

abbrev is_part : Text → Bool
is_part part = not (is_empty part || eq_text part (codes "."))

-- The root of a path: two slashes stay two, more are one.
abbrev root_parts : Text → List Text
root_parts path =
    if starts_with (codes "///") path
    then codes "/" ∷ []
    else if starts_with (codes "//") path
    then codes "//" ∷ []
    else if starts_with (codes "/") path
    then codes "/" ∷ []
    else []

-- `_parts`, of `PurePosixPath(raw).parts`
unfoldable pub path_parts : ⦃U : Platform⦄ → Text → List Text
path_parts path = map casefold (root_parts path ++ keep is_part (split_slash [] path))

unfoldable pub is_prefix : List Text → List Text → Bool
is_prefix [] parts = true
is_prefix (s ∷ ss) [] = false
is_prefix (s ∷ ss) (p ∷ ps) = let rest = is_prefix ss ps in if eq_text p s then rest else false

-- `_contains_sequence`, of sequences that are not empty.
unfoldable pub contains_sequence : List Text → List Text → Bool
contains_sequence sequence [] = false
contains_sequence sequence (p ∷ ps) =
    let rest = contains_sequence sequence ps in if is_prefix sequence (p ∷ ps) then true else rest

abbrev pub is_environment : Text → Bool
is_environment part =
    eq_text part (codes ".env") || starts_with (codes ".env.") part || eq_text part (codes ".envrc")

abbrev pub is_cache : Text → Bool
is_cache part = eq_text part (codes "cache") || eq_text part (codes ".cache")

abbrev pub is_git : Text → Bool
is_git part = eq_text part (codes ".git")

abbrev pub is_credential_directory : Text → Bool
is_credential_directory part = member part credential_directories

-- `parts and parts[-1] in _CREDENTIAL_BASENAMES`
unfoldable pub has_credential_basename : List Text → Bool
has_credential_basename [] = false
has_credential_basename (p ∷ []) = member p credential_basenames
has_credential_basename (p ∷ q ∷ rest) = has_credential_basename (q ∷ rest)

abbrev pub has_credential_suffix : List Text → Bool
has_credential_suffix parts = any (λ sequence. contains_sequence sequence parts) credential_suffixes

-- The returns of `sensitive_path_reason`, by their tests.
abbrev pub first_reason : Bool → Bool → Bool → Bool → Bool → Bool → Bool → Option Reason
first_reason environment streamlit directory basename suffix cache git =
    if environment
    then some Reason.environment_path
    else if streamlit
    then some Reason.streamlit_secrets_path
    else if directory
    then some Reason.credential_path
    else if basename
    then some Reason.credential_path
    else if suffix
    then some Reason.credential_path
    else if cache
    then some Reason.cache_path
    else if git
    then some Reason.git_metadata
    else none

unfoldable pub reason_of : List Text → Option Reason
reason_of parts =
    first_reason (any is_environment parts)
      (contains_sequence (codes ".streamlit" ∷ codes "secrets.toml" ∷ []) parts)
      (any is_credential_directory parts) (has_credential_basename parts)
      (has_credential_suffix parts) (any is_cache parts) (any is_git parts)

unfoldable pub sensitive_path_reason : ⦃U : Platform⦄ → Text → Option Reason
sensitive_path_reason path = reason_of (path_parts path)
