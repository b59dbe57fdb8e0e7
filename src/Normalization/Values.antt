-- ===== src/Normalization/Values.antt =====
-- The readers of single values in src/services/amazon_product_normalization.py.
use amazon_similar_search.Prelude.{
  ℕ, ℤ, pos, negsuc, Bool, false, not, ◌&&◌, ◌||◌, Option, none, some, Text, String, codes, eq_text,
  member, contains, strip, is_empty, ◌==◌, keep, List, [], ◌∷◌, ◌++◌, map, if◌then◌else◌,
}
use amazon_similar_search.Json
use amazon_similar_search.Json.{Value, Items, Fields, nil, cons}
use amazon_similar_search.Runtime.{Python, Platform, casefold, upper}
use amazon_similar_search.Dedupe.{first_of_each, prepared}

abbrev pub jpy : Text
jpy = codes "JPY"

abbrev pub usd : Text
usd = codes "USD"

module _ {N : Type 0} where
  abbrev or_null : Option (Value N) → Value N
  or_null none = Value.null
  or_null (some v) = v

  -- `item.get(key)`
  abbrev pub get : String → Fields N → Value N
  get key item = or_null (Json.get (codes key) item)

  unfoldable pub as_non_empty_string : Value N → Option Text
  as_non_empty_string (Value.str s) =
      let normalized = strip s in if is_empty normalized then none else some normalized
  as_non_empty_string _ = none

  abbrev pub stripped_list : Items N → List (Option Text)
  stripped_list nil = []
  stripped_list (cons v rest) = as_non_empty_string v ∷ stripped_list rest

-- A value that is not falsy.
abbrev pub present : Option Text → Option Text
present none = none
present (some value) = if is_empty value then none else some value

unfoldable pub clean_dupe_strings : List (Option Text) → List Text
clean_dupe_strings values = first_of_each present (λ value. value) [] values

-- `next(iter(values), None)`
abbrev pub first_text : List Text → Option Text
first_text [] = none
first_text (s ∷ rest) = some s

abbrev image_keys : List String
image_keys =
    "image_1" ∷ "image_2" ∷ "image_3" ∷ "image_4" ∷ "image_5" ∷ "image_6" ∷ "image_7" ∷ "image_8"
    ∷ "image_9" ∷ "image_10" ∷ []

module _ {N : Type 0} where
  abbrev high_res_urls : Value N → List (Option Text)
  high_res_urls (Value.arr images) = stripped_list images
  high_res_urls _ = []

  unfoldable pub collect_image_urls : Fields N → List Text
  collect_image_urls item = clean_dupe_strings (
      high_res_urls (get "high_res_images" item)
      ++ map (λ key. as_non_empty_string (get key item)) image_keys)

  unfoldable pub as_string_list : Value N → List Text
  as_string_list (Value.arr xs) = prepared (λ s. s) (stripped_list xs)
  as_string_list _ = []

-- NUMBER_PATTERN, `[-+]?(?:\d[\d,]*(?:\.\d+)?|\.\d+)`: what its parts match at the head of a text.
module _ ⦃U : Platform⦄ where
  -- `\d*`
  unfoldable pub digit_run : Text → Text
  digit_run [] = []
  digit_run (c ∷ s) = let rest = digit_run s in if U.is_decimal c then c ∷ rest else []

  -- `(?:\.\d+)?`
  unfoldable pub fraction_part : Text → Text
  fraction_part [] = []
  fraction_part (c ∷ s) = if c == b'.' && not (is_empty (digit_run s)) then c ∷ digit_run s else []

  -- `[\d,]*(?:\.\d+)?`
  unfoldable pub grouped_digits : Text → Text
  grouped_digits [] = []
  grouped_digits (c ∷ s) =
      let rest = grouped_digits s in
      if U.is_decimal c || c == b',' then c ∷ rest else fraction_part (c ∷ s)

  -- `\d[\d,]*(?:\.\d+)?|\.\d+`
  unfoldable pub unsigned_number : Text → Option Text
  unsigned_number [] = none
  unsigned_number (c ∷ s) =
      if U.is_decimal c
      then some (c ∷ grouped_digits s)
      else if is_empty (fraction_part (c ∷ s))
      then none
      else some (fraction_part (c ∷ s))

  abbrev signed : ℕ → Option Text → Option Text
  signed c none = none
  signed c (some digits) = some (c ∷ digits)

  unfoldable pub number_at : Text → Option Text
  number_at [] = none
  number_at (c ∷ s) =
      if c == b'-' || c == b'+' then signed c (unsigned_number s) else unsigned_number (c ∷ s)

  -- `NUMBER_PATTERN.search(s)`: the leftmost match.
  unfoldable pub search_number : Text → Option Text
  search_number [] = none
  search_number (c ∷ s) =
      let later = search_number s in
      elim (number_at (c ∷ s)) [ none ↦ later | some digits ↦ some digits ]

-- `s.replace(",", "")`
abbrev pub without_commas : Text → Text
without_commas = keep (λ c. not (c == b','))

-- `value == 1`
abbrev is_one : ℤ → Bool
is_one (pos n) = n == 1
is_one (negsuc n) = false

abbrev pub is_usd : Option Text → Bool
is_usd none = false
is_usd (some currency) = eq_text currency usd

module _ {N : Type 0} ⦃P : Python N⦄ ⦃U : Platform⦄ where
  abbrev finite : N → Option N
  finite number = if P.is_finite number then some number else none

  abbrev parsed : Option Text → Option N
  parsed none = none
  parsed (some digits) = P.parse_float (without_commas digits)

  unfoldable pub as_number : Value N → Option N
  as_number (Value.int n) = finite (P.of_int n)
  as_number (Value.float x) = finite x
  as_number (Value.str s) = elim (parsed (search_number s)) [
    | none ↦ none
    | some number ↦ finite number
  ]
  as_number _ = none

  unfoldable pub as_int : Value N → Option ℤ
  as_int value = elim (as_number value) [ none ↦ none | some number ↦ some (P.trunc number) ]

  unfoldable pub as_float : Value N → Option N
  unfolding as_number
  as_float value = as_number value

  unfoldable pub as_bool : Value N → Bool
  as_bool (Value.bool b) = b
  as_bool (Value.int n) = is_one n
  as_bool (Value.float x) = P.equal x (P.of_int (pos 1))
  as_bool (Value.str s) =
      member (casefold (strip s)) (codes "1" ∷ codes "true" ∷ codes "yes" ∷ codes "y" ∷ [])
  as_bool _ = false

  -- The currency that a price text shows.
  unfoldable pub currency_in : Value N → Option Text
  currency_in (Value.str s) =
      let normalized = upper s in
      if contains usd normalized || contains (codes "$") normalized
      then some usd
      else if contains jpy normalized
          || contains (0xffe5 ∷ []) normalized
          || contains (0xa5 ∷ []) normalized
          || contains (0x5186 ∷ []) normalized
      then some jpy
      else none
  currency_in _ = none

  abbrev first_currency : List (Value N) → Option Text
  first_currency [] = none
  first_currency (v ∷ rest) =
      let later = first_currency rest in
      elim (currency_in v) [ none ↦ later | some currency ↦ some currency ]

  unfoldable pub detect_currency : Fields N → Option Text
  detect_currency item = elim (as_non_empty_string (get "currency" item)) [
    | some currency ↦ some (upper currency)
    | none ↦ first_currency (
        get "price" item
        ∷ get "old_price" item
        ∷ get "strike_price" item
        ∷ get "delivery_price" item
        ∷ [])
  ]

  unfoldable pub convert_price_to_jpy : ℤ → Value N → Option Text → Option ℤ
  convert_price_to_jpy usd_to_jpy_rate value currency = elim (as_float value) [
    | none ↦ none
    | some price ↦
        if P.lt price (P.of_int (pos 0))
        then none
        else if is_usd currency
        then some (P.trunc (P.mul price (P.of_int usd_to_jpy_rate)))
        else some (P.trunc price)
  ]
