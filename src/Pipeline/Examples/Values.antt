-- ===== src/Pipeline/Examples/Values.antt =====
-- Values of JSON for the fields of a model in src/schemas.py, and back.
use amazon_similar_search.Prelude.{
  ◌≡◌, refl, ℕ, ℤ, Bool, Option, none, some, ◌>>=◌, Text, codes, List, [], ◌∷◌,
}
use amazon_similar_search.Json.{Value, Items, field, end, cons, nil}

abbrev pub from_text : Option Text → Value ℕ
from_text none = Value.null
from_text (some s) = Value.str s

abbrev pub from_int : Option ℤ → Value ℕ
from_int none = Value.null
from_int (some n) = Value.int n

abbrev pub from_float : Option ℕ → Value ℕ
from_float none = Value.null
from_float (some x) = Value.float x

abbrev pub from_items : List Text → Items ℕ
from_items [] = nil
from_items (s ∷ ss) = cons (Value.str s) (from_items ss)

abbrev pub from_texts : List Text → Value ℕ
from_texts ss = Value.arr (from_items ss)

abbrev pub text : Value ℕ → Option Text
text (Value.str s) = some s
text _ = none

abbrev pub optional_text : Value ℕ → Option (Option Text)
optional_text Value.null = some none
optional_text (Value.str s) = some (some s)
optional_text _ = none

abbrev pub optional_int : Value ℕ → Option (Option ℤ)
optional_int Value.null = some none
optional_int (Value.int n) = some (some n)
optional_int _ = none

abbrev pub optional_float : Value ℕ → Option (Option ℕ)
optional_float Value.null = some none
optional_float (Value.float x) = some (some x)
optional_float _ = none

abbrev pub number : Value ℕ → Option ℕ
number (Value.float x) = some x
number _ = none

abbrev pub truth : Value ℕ → Option Bool
truth (Value.bool b) = some b
truth _ = none

abbrev pub text_items : Items ℕ → Option (List Text)
text_items Items.nil = some []
text_items (Items.cons v vs) = do s ← text v; ss ← text_items vs; some (s ∷ ss)

abbrev pub texts : Value ℕ → Option (List Text)
texts (Value.arr vs) = text_items vs
texts _ = none

pub optional_text-from_text : (o : Option Text) → optional_text (from_text o) ≡ some o
optional_text-from_text none = refl
optional_text-from_text (some s) = refl

pub optional_int-from_int : (o : Option ℤ) → optional_int (from_int o) ≡ some o
optional_int-from_int none = refl
optional_int-from_int (some n) = refl

pub optional_float-from_float : (o : Option ℕ) → optional_float (from_float o) ≡ some o
optional_float-from_float none = refl
optional_float-from_float (some x) = refl

pub texts-from_texts : (ss : List Text) → texts (from_texts ss) ≡ some ss
texts-from_texts [] = refl
texts-from_texts (s ∷ ss) = rw (texts-from_texts ss) refl

abbrev pub row : Items ℕ → Value ℕ
row values = Value.obj (field (codes "values") (Value.arr values) end)
