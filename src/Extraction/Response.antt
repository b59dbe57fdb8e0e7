-- ===== src/Extraction/Response.antt =====
-- The model's answer in src/services/user_attribute_extraction.py: its JSON text, and its fields
-- brought into shape.
use amazon_similar_search.Prelude.{
  ℕ, ℤ, Bool, true, false, ◌||◌, ◌&&◌, Option, none, some, Text, codes, eq_text, strip, starts_with,
  is_empty, leb, ◌==◌, if◌then◌else◌, List, [], ◌∷◌, ◌++◌,
}
use amazon_similar_search.Json.{Value, Fields, field, end, cons, nil, get}
use amazon_similar_search.Runtime.{Platform, Python}
use amazon_similar_search.Extraction.Prices.{normalize_price_value}

abbrev pub list_fields : List Text
list_fields =
    codes "features_ja"
    ∷ codes "features_en"
    ∷ codes "negative_conditions_ja"
    ∷ codes "negative_conditions_en"
    ∷ codes "search_queries_ja"
    ∷ codes "search_queries_en"
    ∷ codes "required_terms_ja"
    ∷ codes "required_terms_en"
    ∷ codes "preferred_terms_ja"
    ∷ codes "preferred_terms_en"
    ∷ codes "related_terms_ja"
    ∷ codes "related_terms_en"
    ∷ []

abbrev pub price_fields : List Text
price_fields =
    codes "min_price_jpy"
    ∷ codes "max_price_jpy"
    ∷ codes "target_price_jpy"
    ∷ codes "expected_price_min_jpy"
    ∷ codes "expected_price_max_jpy"
    ∷ []

module _ {N : Type 0} where
  -- `data[key] = value`
  unfoldable pub put : Text → Value N → Fields N → Fields N
  put key value end = field key value end
  put key value (field name v rest) =
      let others = put key value rest in
      if eq_text name key then field name value rest else field name v others

  -- The value of a list field: nothing becomes no items, and a text becomes one item.
  unfoldable pub as_list : Option (Value N) → Option (Value N)
  as_list none = some (Value.arr nil)
  as_list (some Value.null) = some (Value.arr nil)
  as_list (some (Value.str s)) = some (Value.arr (cons (Value.str s) nil))
  as_list (some _) = none

  abbrev pub put_some : Text → Option (Value N) → Fields N → Fields N
  put_some key none answer = answer
  put_some key (some value) answer = put key value answer

  -- A loop over fields that replaces the values that need it.
  unfoldable pub update_fields :
      (Option (Value N) → Option (Value N)) → List Text → Fields N → Fields N
  update_fields update [] answer = answer
  update_fields update (name ∷ names) answer =
      update_fields update names (put_some name (update (get name answer)) answer)

  abbrev pub price_value : Option ℤ → Value N
  price_value none = Value.null
  price_value (some n) = Value.int n

module _ {N : Type 0} ⦃P : Python N⦄ ⦃U : Platform⦄ where
  abbrev pub read_price : Option (Value N) → Option (Value N)
  read_price none = none
  read_price (some value) = some (price_value (normalize_price_value value))

  -- None on ValueError.
  unfoldable pub normalize_bonsai_json : Value N → Option (Fields N)
  normalize_bonsai_json (Value.obj answer) =
      some (update_fields read_price price_fields (update_fields as_list list_fields answer))
  normalize_bonsai_json _ = none

-- The line boundaries of `str.splitlines`.
abbrev is_break : ℕ → Bool
is_break c =
    (leb 10 c && leb c 13) || (leb 28 c && leb c 30) || c == 0x85 || c == 0x2028 || c == 0x2029

-- `str.splitlines`, with the line that is open, and whether a carriage return comes before.
unfoldable pub split_lines : Bool → Text → Text → List Text
split_lines after_return line [] = if is_empty line then [] else line ∷ []
split_lines after_return line (c ∷ s) = elim (after_return && c == 10) [
  | true ↦ split_lines false line s
  | false ↦ elim (is_break c) [
    | true ↦ line ∷ split_lines (c == 13) [] s
    | false ↦ split_lines false (line ++ c ∷ []) s
  ]
]

-- `"\n".join(lines)`
abbrev join_lines : List Text → Text
join_lines [] = []
join_lines (l ∷ []) = l
join_lines (l ∷ m ∷ rest) = l ++ 10 ∷ join_lines (m ∷ rest)

abbrev fence : Text
fence = codes "```"

abbrev drop_opening : List Text → List Text
drop_opening [] = []
drop_opening (l ∷ rest) = if starts_with fence l then rest else l ∷ rest

abbrev drop_closing : List Text → List Text
drop_closing [] = []
drop_closing (l ∷ []) = if eq_text (strip l) fence then [] else l ∷ []
drop_closing (l ∷ m ∷ rest) = l ∷ drop_closing (m ∷ rest)

-- A text without a Markdown code fence around it.
unfoldable pub without_fence : Text → Text
without_fence s =
    if starts_with fence s
    then strip (join_lines (drop_closing (drop_opening (split_lines false [] s))))
    else s

-- What stands from the first `{` on.
unfoldable pub from_brace : Text → Option Text
from_brace [] = none
from_brace (c ∷ s) = let later = from_brace s in if c == b'{' then some (c ∷ s) else later

-- What stands up to the last `}`.
unfoldable pub to_brace : Text → Option Text
to_brace [] = none
to_brace (c ∷ s) = elim (to_brace s) [
  | some t ↦ some (c ∷ t)
  | none ↦ if c == b'}' then some (c ∷ []) else none
]

abbrev or_whole : Text → Option Text → Text
or_whole whole none = whole
or_whole whole (some part) = part

-- `normalized[json_start : json_end + 1]`
unfoldable pub braced : Text → Text
braced s = elim (from_brace s) [ none ↦ s | some t ↦ or_whole s (to_brace t) ]

unfoldable pub extract_json_text : Text → Text
extract_json_text raw_text = braced (without_fence (strip raw_text))
