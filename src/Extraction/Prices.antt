-- ===== src/Extraction/Prices.antt =====
-- The readings of prices in src/services/user_attribute_extraction.py.
use amazon_similar_search.Prelude.{
  ◌>>=◌, ℕ, suc, ℤ, pos, Bool, ◌&&◌, ◌||◌, Option, none, some, Text, codes, eq_text, lstrip, ◌==◌,
  if◌then◌else◌, [], ◌∷◌, ◌++◌,
}
use amazon_similar_search.Json.{Value}
use amazon_similar_search.Runtime.{Platform, Python, upper}
use amazon_similar_search.Normalization.Values.{without_commas}

-- The longest prefix of characters of a kind, and the rest.
unfoldable pub span : (ℕ → Bool) → Text → Text × Text
span p [] = ([], [])
span p (c ∷ s) = let (run, rest) = span p s in if p c then (c ∷ run, rest) else ([], c ∷ s)

-- `(?:JPY\s*)?`, without regard to case.
unfoldable pub skip_jpy : ⦃U : Platform⦄ → Text → Text
skip_jpy (a ∷ b ∷ c ∷ s) =
    if eq_text (upper (a ∷ b ∷ c ∷ [])) (codes "JPY") then s else a ∷ b ∷ c ∷ s
skip_jpy s = s

-- `[¥￥]?`
abbrev skip_yen_sign : Text → Text
skip_yen_sign [] = []
skip_yen_sign (c ∷ s) = if c == 0xa5 || c == 0xffe5 then s else c ∷ s

-- `[+-]?`
abbrev sign_part : Text → Text × Text
sign_part [] = ([], [])
sign_part (c ∷ s) = if c == b'+' || c == b'-' then (c ∷ [], s) else ([], c ∷ s)

-- `(?:円|JPY)?`
abbrev skip_unit : ⦃U : Platform⦄ → Text → Text
skip_unit [] = []
skip_unit (c ∷ s) = let rest = skip_jpy (c ∷ s) in if c == 0x5186 then s else rest

module _ ⦃U : Platform⦄ where
  -- `(?:\.\d+)?`
  abbrev after_point : Text → Text × Text → Text × Text
  after_point whole ([], rest) = ([], whole)
  after_point whole (d ∷ ds, rest) = (b'.' ∷ d ∷ ds, rest)

  abbrev fraction_of : Text → Text × Text
  fraction_of [] = ([], [])
  fraction_of (c ∷ s) =
      let after = after_point (c ∷ s) (span U.is_decimal s) in
      if c == b'.' then after else ([], c ∷ s)

  -- `[+-]?\d[\d,]*(?:\.\d+)?` and what follows it.
  unfoldable pub amount_at : Text → Option (Text × Text)
  amount_at s =
      let (sign, after_sign) = sign_part s in
      let (digits, after_digits) = span (λ c. U.is_decimal c || c == b',') after_sign in
      let (fraction, rest) = fraction_of after_digits in
      elim digits [
        | [] ↦ none
        | d ∷ ds ↦ if U.is_decimal d then some (sign ++ ((d ∷ ds) ++ fraction), rest) else none
      ]

  abbrev blank_after : Text × Text → Option Text
  blank_after (amount, rest) = elim (lstrip (skip_unit (lstrip rest))) [
    | [] ↦ some amount
    | c ∷ s ↦ none
  ]

  -- The first group of `PRICE_STRING_PATTERN.fullmatch`.
  unfoldable pub price_text : Text → Option Text
  price_text s = do
    found ← amount_at (lstrip (skip_yen_sign (lstrip (skip_jpy (lstrip s)))))
    blank_after found

module _ {N : Type 0} ⦃P : Python N⦄ ⦃U : Platform⦄ where
  -- A float that is a positive integer.
  unfoldable pub positive_integer : N → Option ℤ
  positive_integer x =
      if P.is_finite x && P.is_integer x && P.lt (P.of_int (pos 0)) x
      then some (P.trunc x)
      else none

  unfoldable pub normalize_price_value : Value N → Option ℤ
  normalize_price_value (Value.int (pos (suc n))) = some (pos (suc n))
  normalize_price_value (Value.float x) = positive_integer x
  normalize_price_value (Value.str s) = do
    amount ← price_text s
    x ← P.parse_float (without_commas amount)
    positive_integer x
  normalize_price_value _ = none
