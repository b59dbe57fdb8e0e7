-- ===== src/Outscraper/Task.antt =====
-- The pure parts of src/clients/outscraper_client.py: task states and trusted URLs.
use amazon_similar_search.Prelude.{
  ℕ, Bool, true, false, not, ◌&&◌, ◌||◌, Option, none, some, Text, List, [], ◌∷◌, codes, eq_text,
  member, strip, is_empty, ◌==◌, if◌then◌else◌,
}
use mathlib.Core.List.{reverse}
use amazon_similar_search.Json
use amazon_similar_search.Json.{Value, Fields}
use amazon_similar_search.Runtime.{Python, Platform, Url, casefold}

-- The exceptions of src/exceptions.py that this module raises, with the reason that the message
-- states; `uncaught` is another exception of `requests`.
pub data Reason : Type 0 where
  max_attempts_below_one timeout_not_positive backoff_negative : Reason
  max_polls_below_one poll_interval_negative : Reason
  not_a_url not_https no_host user_information other_origin redirect : Reason
  attempts_exhausted transient_status permanent_status : Reason
  invalid_json not_an_object no_data data_not_a_list : Reason
  pending_without_location nothing_to_follow location_not_text unknown_status : Reason

pub data Error (N : Type 0) : Type 0 where
  value_error : Reason → Error N
  security_error : Reason → Error N
  request_error : Reason → Error N
  response_error : Reason → Error N
  task_failed : Text → Fields N → Error N
  task_timeout : ℕ → Text → Fields N → Error N
  assertion_error : Error N
  uncaught : Error N

pub data Result {ℓ} (N : Type 0) (A : Type ℓ) : Type ℓ where
  ok : A → Result N A
  err : Error N → Result N A

infixl 5 ◌>>=◌
abbrev pub ◌>>=◌ {ℓ κ} :
    {N : Type 0} {A : Type ℓ} {B : Type κ} → Result N A → (A → Result N B) → Result N B
ok a >>= f = f a
err e >>= f = err e

pub data TaskState : Type 0 where
  pending failed success unknown : TaskState

abbrev pub processing_statuses : List Text
processing_statuses =
    codes "pending" ∷ codes "in progress" ∷ codes "in_progress" ∷ codes "processing" ∷ []

abbrev pub failed_statuses : List Text
failed_statuses =
    codes "failed" ∷ codes "failure" ∷ codes "error" ∷ codes "cancelled" ∷ codes "canceled" ∷ []

abbrev pub success_statuses : List Text
success_statuses =
    codes "success"
    ∷ codes "succeeded"
    ∷ codes "complete"
    ∷ codes "completed"
    ∷ codes "done"
    ∷ codes "finished"
    ∷ codes "ok"
    ∷ []

drop_dots : Text → Text
drop_dots [] = []
drop_dots (c ∷ s) = let rest = drop_dots s in if c == b'.' then rest else c ∷ s

-- `s.rstrip(".")`
unfoldable pub rstrip_dots : Text → Text
unfolding drop_dots
rstrip_dots s = reverse (drop_dots (reverse s))

-- An absent host is falsy, as the empty one is.
abbrev pub option_text : Option Text → Text
option_text none = []
option_text (some s) = s

-- `x is not None`
abbrev pub is_given {ℓ} : {A : Type ℓ} → Option A → Bool
is_given none = false
is_given (some a) = true

-- `port or 443`
abbrev pub port_or_443 : Option ℕ → ℕ
port_or_443 none = 443
port_or_443 (some port) = if port == 0 then 443 else port

unfoldable pub same_origin : Text × ℕ → Text × ℕ → Bool
same_origin (host, port) (host', port') = eq_text host host' && port == port'

module _ {N : Type 0} where
  unfoldable pub has_data : Fields N → Bool
  has_data d = elim (Json.get (codes "data") d) [ none ↦ false | some v ↦ true ]

  unfoldable pub checked_data : Option (Value N) → Fields N → Result N (Fields N)
  checked_data none d = err (response_error no_data)
  checked_data (some (Value.arr xs)) d = ok d
  checked_data (some _) d = err (response_error data_not_a_list)

  -- `_validated_completed_result`
  unfoldable pub validated_completed_result : Fields N → Result N (Fields N)
  unfolding checked_data
  validated_completed_result d = checked_data (Json.get (codes "data") d) d

module _ {N : Type 0} ⦃P : Python N⦄ where
  -- `str(v)`
  unfoldable pub text_of : Value N → Text
  text_of (Value.str s) = s
  text_of v = P.repr v

module _ {N : Type 0} ⦃P : Python N⦄ ⦃U : Platform⦄ where
  -- `_normalized_status`
  unfoldable pub normalized_status : Fields N → Text
  unfolding text_of
  normalized_status d = elim (Json.get (codes "status") d) [
    | none ↦ casefold (strip [])
    | some v ↦ casefold (strip (text_of v))
  ]

  unfoldable pub task_state : Fields N → TaskState
  task_state d =
      let status = normalized_status d in
      if member status processing_statuses
      then pending
      else if member status failed_statuses
      then failed
      else if member status success_statuses || has_data d
      then success
      else unknown

module _ {N : Type 0} ⦃U : Platform⦄ where
  unfoldable pub origin_of : Url → Result N (Text × ℕ)
  origin_of url =
      if not (eq_text (casefold url.scheme) (codes "https"))
      then err (security_error not_https)
      else if is_empty (option_text url.hostname)
      then err (security_error no_host)
      else if is_given url.username || is_given url.password
      then err (security_error user_information)
      else ok (casefold (rstrip_dots (option_text url.hostname)), port_or_443 url.port)

  -- `_validated_https_origin`
  unfoldable pub validated_https_origin : Text → Result N (Text × ℕ)
  unfolding origin_of
  validated_https_origin url = elim (U.urlparse url) [
    | none ↦ err (security_error not_a_url)
    | some parsed ↦ origin_of parsed
  ]

  unfoldable pub validate_results_location : Text → Text → Result N Text
  unfolding same_origin
  validate_results_location results_location endpoint =
      validated_https_origin endpoint >>= λ endpoint_origin.
      validated_https_origin results_location >>= λ results_origin.
      if same_origin results_origin endpoint_origin
      then ok results_location
      else err (security_error other_origin)
