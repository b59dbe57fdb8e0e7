-- ===== src/Runtime.antt =====
-- What the model takes from the Python interpreter as it is: floating point, the Unicode tables,
-- `repr`, and `urllib.parse.urlparse`. Every theorem holds for each choice of these; what a theorem
-- needs of floats it takes as the named laws of `Runtime.Laws`.
pub mod Laws
pub mod Fixed
use amazon_similar_search.Prelude.{
  ℕ, ℤ, pos, negsuc, false, not, is_empty, ◌==◌, Bool, true, Option, Text, List, [], ◌∷◌, ◌++◌,
  if◌then◌else◌,
}
use amazon_similar_search.Json.{Value, Items, Fields}

-- The attributes of `urlparse(url)` that the program reads.
pub record Url : Type 0 where
  pub scheme : Text
  pub hostname : Option Text
  pub port : Option ℕ
  pub username : Option Text
  pub password : Option Text

pub record Platform : Type 0 where
  pub fold : ℕ → Text  -- the full case folding of a code point
  pub is_decimal : ℕ → Bool  -- a decimal digit, as in the pattern \d
  pub upper_char : ℕ → Text  -- the full upper case of a code point
  pub lower : Text → Text  -- str.lower
  pub urlparse : Text → Option Url  -- none on ValueError, of .port too

-- `N` is the type of floats.
pub record Python (N : Type 0) : Type 0 where
  pub of_int : ℤ → N  -- float(n)
  pub ratio : ℕ → ℕ → N  -- the division n / d of ints, and the literal 0.5 = ratio 1 2
  pub add : N → N → N
  pub sub : N → N → N
  pub mul : N → N → N
  pub div : N → N → N
  pub lt : N → N → Bool
  pub is_zero : N → Bool
  pub equal : N → N → Bool
  pub is_finite : N → Bool
  pub is_integer : N → Bool  -- x.is_integer()
  pub trunc : N → ℤ  -- int(x)
  pub round4 : N → N  -- round(x, 4)
  pub log10 : N → N
  pub parse_float : Text → Option N  -- float(s), none on ValueError
  pub repr : Value N → Text  -- str(v) of a value that is not a str

-- `str.casefold` and `str.upper` map code point by code point.
abbrev pub concat_map : (ℕ → Text) → Text → Text
concat_map f [] = []
concat_map f (c ∷ s) = f c ++ concat_map f s

module _ ⦃U : Platform⦄ where
  abbrev pub casefold : Text → Text
  casefold = concat_map U.fold

  abbrev pub upper : Text → Text
  upper = concat_map U.upper_char

abbrev pub is_zero_int : ℤ → Bool
is_zero_int (pos n) = n == 0
is_zero_int (negsuc n) = false

module _ {N : Type 0} where
  abbrev pub no_items : Items N → Bool
  no_items Items.nil = true
  no_items _ = false

  abbrev pub no_fields : Fields N → Bool
  no_fields Fields.end = true
  no_fields _ = false

module _ {N : Type 0} ⦃P : Python N⦄ where
  -- Python's truth of a JSON value.
  unfoldable pub truthy : Value N → Bool
  truthy Value.null = false
  truthy (Value.bool b) = b
  truthy (Value.int n) = not (is_zero_int n)
  truthy (Value.float x) = not (P.is_zero x)
  truthy (Value.str s) = not (is_empty s)
  truthy (Value.arr xs) = not (no_items xs)
  truthy (Value.obj d) = not (no_fields d)

  -- `max(a, b)`: the first argument unless the second is greater.
  unfoldable pub float_max : N → N → N
  float_max a b = if P.lt a b then b else a

  -- `min(a, b)`: the first argument unless the second is less.
  unfoldable pub float_min : N → N → N
  float_min a b = if P.lt b a then b else a
