-- ===== src/Review/Paths/Examples.antt =====
-- Paths, and the theorems about them.
use amazon_similar_search.Prelude.{
  ◌≡◌, ◌≢◌, refl, true, none, some, codes, eq_text, member, starts_with, [], ◌∷◌, ◌++◌, split_slash,
}
use amazon_similar_search.Runtime.Fixed.{ascii}
use amazon_similar_search.Review.Paths.{
  Reason, path_parts, is_prefix, contains_sequence, has_credential_basename, reason_of,
  sensitive_path_reason,
}
use amazon_similar_search.Review.Paths.Closure.{is_forbidden, reason_of-append, reason_of_forbidden}

docker_config :
    sensitive_path_reason (codes "home/.Docker//config.json") ≡ some Reason.credential_path
unfolding sensitive_path_reason path_parts split_slash reason_of contains_sequence is_prefix
    has_credential_basename member eq_text starts_with
docker_config = refl

source_file : sensitive_path_reason (codes "src/config.py") ≡ none
unfolding sensitive_path_reason path_parts split_slash reason_of contains_sequence is_prefix
    has_credential_basename member eq_text starts_with
source_file = refl

key_file : reason_of (codes "id_rsa" ∷ []) ≢ none
unfolding reason_of contains_sequence is_prefix has_credential_basename member eq_text starts_with
key_file h = cc

reason_of-append_example : reason_of ((codes "backup" ∷ []) ++ codes "id_rsa" ∷ []) ≢ none
reason_of-append_example = reason_of-append (codes "backup" ∷ []) (codes "id_rsa" ∷ []) key_file

ssh_forbidden : is_forbidden (codes ".ssh") ≡ true
unfolding member eq_text starts_with
ssh_forbidden = refl

reason_of_forbidden_example :
    reason_of ((codes "home" ∷ []) ++ codes ".ssh" ∷ codes "notes" ∷ []) ≢ none
reason_of_forbidden_example =
    reason_of_forbidden (codes "home" ∷ []) (codes ".ssh") (codes "notes" ∷ []) ssh_forbidden
