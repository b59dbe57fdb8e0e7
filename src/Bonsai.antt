-- ===== src/Bonsai.antt =====
-- src/clients/bonsai_client.py: the request to the language model, and its answer.
use amazon_similar_search.Prelude.{
  ℤ, Option, none, some, ◌>>=◌, Text, codes, strip, is_empty, if◌then◌else◌, ◌++◌,
}
use amazon_similar_search.Json.{Value, Fields, field, end, cons, nil, get}

-- The fields of `settings` that the client reads, and the text of the prompt's file.
pub record BonsaiSettings (N : Type 0) : Type 0 where
  pub base_url : Text
  pub model : Text
  pub temperature : N
  pub max_tokens : ℤ
  pub prompt : Text

-- What `requests.post` and `raise_for_status` do: raise RequestException, or return a response with
-- what its `json` returns (none on ValueError).
pub data Reply (N : Type 0) : Type 0 where
  failed : Reply N
  answered : Option (Value N) → Reply N

module _ {N : Type 0} where
  abbrev pub message_of : Text → Text → Value N
  message_of role content =
      Value.obj
        (field (codes "role") (Value.str role) (field (codes "content") (Value.str content) end))

  unfoldable pub build_bonsai_payload : BonsaiSettings N → Text → Value N
  build_bonsai_payload settings user_input = Value.obj (
      field (codes "model") (Value.str settings.model) (
        field (codes "messages")
          (Value.arr (
            cons (message_of (codes "system") settings.prompt)
              (cons (message_of (codes "user") user_input) nil)))
          (field (codes "temperature") (Value.float settings.temperature)
            (field (codes "max_tokens") (Value.int settings.max_tokens) end))))

  abbrev as_fields : Option (Value N) → Option (Fields N)
  as_fields (some (Value.obj d)) = some d
  as_fields _ = none

  abbrev first_item : Option (Value N) → Option (Value N)
  first_item (some (Value.arr (cons choice rest))) = some choice
  first_item _ = none

  abbrev as_content : Option (Value N) → Option Text
  as_content (some (Value.str s)) = if is_empty (strip s) then none else some s
  as_content _ = none

  -- None on BonsaiResponseError.
  unfoldable pub extract_bonsai_content : Value N → Option Text
  unfolding get
  extract_bonsai_content value = do
    answer ← as_fields (some value)
    choice ← as_fields (first_item (get (codes "choices") answer))
    message ← as_fields (get (codes "message") choice)
    as_content (get (codes "content") message)

  -- None on BonsaiError; the server's reply may depend on the URL and on the payload.
  unfoldable pub call_bonsai : (Text → Value N → Reply N) → BonsaiSettings N → Text → Option Text
  unfolding extract_bonsai_content
  call_bonsai post settings user_input =
      let url = settings.base_url ++ codes "/chat/completions" in
      elim (post url (build_bonsai_payload settings user_input)) [
        | failed ↦ none
        | answered none ↦ none
        | answered (some body) ↦ extract_bonsai_content body
      ]
