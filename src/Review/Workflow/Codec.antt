-- ===== src/Review/Workflow/Codec.antt =====
-- tools/ai_review/outer_workflow_state.py: canonical JSON, digests and base64. Every error of the file
-- is an `OuterWorkflowStateError`, which is the result none.
use amazon_similar_search.Prelude.{
  ℕ, ◌+◌, ◌*◌, ◌==◌, leb, ℤ, pos, negsuc, Bool, true, false, not, ◌&&◌, ◌||◌, Option, none, some,
  ◌>>=◌, Text, eq_text, member, all, length, is_empty, if◌then◌else◌, List, [], ◌∷◌, ◌++◌,
}
use amazon_similar_search.Json.{Value, Items, Fields, get}
use amazon_similar_search.Review.Judge.Texts.{Digest}

-- What the file calls of the standard library on JSON, UTF-8, base64 and floats. `loads` gives an
-- object as the pairs that stand in it, a repeated key included.
pub record Codec (N : Type 0) : Type 0 where
  pub loads : Text → Option (Value N)  -- json.loads, none on JSONDecodeError and on NaN or infinity
  pub dumps : Value N → Option Text  -- json.dumps with sorted keys, none on TypeError and ValueError
  pub encode : Text → Option (List ℕ)  -- str.encode("utf-8"), none on UnicodeError
  pub decode : List ℕ → Option Text  -- bytes.decode("utf-8"), none on UnicodeError
  pub b64encode : List ℕ → Text  -- base64.b64encode(raw).decode("ascii")
  pub b64decode : Text → Option (List ℕ)  -- base64.b64decode(s, validate=True)
  pub equal_floats : N → N → Bool
  pub equal_int : ℤ → N → Bool  -- an int and a float compare equal

-- `if not condition: raise OuterWorkflowStateError`
abbrev pub require : Bool → Option (Unit {0})
require true = some tt
require false = none

infixl 5 ◌>>◌
abbrev pub ◌>>◌ {ℓ} : {B : Type ℓ} → Option (Unit {0}) → Option B → Option B
none >> rest = none
some _ >> rest = rest

abbrev pub int_of_bool : Bool → ℤ
int_of_bool true = pos 1
int_of_bool false = pos 0

abbrev pub equal_ints : ℤ → ℤ → Bool
equal_ints (pos m) (pos n) = m == n
equal_ints (negsuc m) (negsuc n) = m == n
equal_ints _ _ = false

-- `not raw or len(raw) > maximum`, negated
abbrev pub within : ℕ → List ℕ → Bool
within maximum raw = not (is_empty raw) && leb (length raw) maximum

module _ {N : Type 0} where
  abbrev pub size : Fields N → ℕ
  size Fields.end = 0
  size (Fields.field name v rest) = size rest + 1

  abbrev pub names : Fields N → List Text
  names Fields.end = []
  names (Fields.field name v rest) = name ∷ names rest

  -- `d[name]`; the file reads an object only after `exact` has checked its keys.
  unfoldable pub entry : Text → Fields N → Value N
  entry name Fields.end = Value.null
  entry name (Fields.field key v rest) =
      let other = entry name rest in if eq_text key name then v else other

  -- `{key: value for key, value in d.items() if key != name}`
  unfoldable pub drop_key : Text → Fields N → Fields N
  drop_key name Fields.end = Fields.end
  drop_key name (Fields.field key v rest) =
      let others = drop_key name rest in
      if eq_text key name then others else Fields.field key v others

  abbrev pub is_null : Value N → Bool
  is_null Value.null = true
  is_null _ = false

  -- `v == s` for a text s.
  unfoldable pub is_text : Text → Value N → Bool
  is_text s (Value.str t) = eq_text t s
  is_text s _ = false

  -- The hook `pairs` at every object: no key is repeated.
  unfoldable mutual
    pub unique_keys : Value N → Bool
    unique_keys (Value.arr xs) = unique_in_items xs
    unique_keys (Value.obj d) = unique_in_fields d
    unique_keys _ = true

    pub unique_in_items : Items N → Bool
    unique_in_items Items.nil = true
    unique_in_items (Items.cons v xs) = unique_keys v && unique_in_items xs

    pub unique_in_fields : Fields N → Bool
    unique_in_fields Fields.end = true
    unique_in_fields (Fields.field name v rest) =
        not (member name (names rest)) && (unique_keys v && unique_in_fields rest)

module _ {N : Type 0} ⦃C : Codec N⦄ where
  -- `a == b` of two JSON values.
  unfoldable mutual
    pub same_value : Value N → Value N → Bool
    same_value Value.null Value.null = true
    same_value (Value.bool a) (Value.bool b) = equal_ints (int_of_bool a) (int_of_bool b)
    same_value (Value.bool a) (Value.int n) = equal_ints (int_of_bool a) n
    same_value (Value.bool a) (Value.float x) = C.equal_int (int_of_bool a) x
    same_value (Value.int m) (Value.bool b) = equal_ints m (int_of_bool b)
    same_value (Value.int m) (Value.int n) = equal_ints m n
    same_value (Value.int m) (Value.float x) = C.equal_int m x
    same_value (Value.float x) (Value.bool b) = C.equal_int (int_of_bool b) x
    same_value (Value.float x) (Value.int n) = C.equal_int n x
    same_value (Value.float x) (Value.float y) = C.equal_floats x y
    same_value (Value.str s) (Value.str t) = eq_text s t
    same_value (Value.arr xs) (Value.arr ys) = same_items xs ys
    same_value (Value.obj d) (Value.obj e) = size d == size e && same_in d e
    same_value _ _ = false

    pub same_items : Items N → Items N → Bool
    same_items Items.nil Items.nil = true
    same_items (Items.cons v xs) (Items.cons w ys) = same_value v w && same_items xs ys
    same_items _ _ = false

    -- Every entry of the first object is in the second.
    pub same_in : Fields N → Fields N → Bool
    same_in Fields.end e = true
    same_in (Fields.field name v rest) e =
        elim (get name e) [ none ↦ false | some w ↦ same_value v w ] && same_in rest e

  unfoldable pub canonical : Value N → Option (List ℕ)
  canonical value = do text ← C.dumps value; C.encode (text ++ 10 ∷ [])

  abbrev pub as_object : Value N → Option (Fields N)
  as_object (Value.obj d) = some d
  as_object _ = none

  unfoldable pub strict_json : ℕ → List ℕ → Option (Fields N)
  strict_json maximum raw = do
    require (within maximum raw)
    text ← C.decode raw
    value ← C.loads text
    require (unique_keys value)
    d ← as_object value
    encoded ← canonical (Value.obj d)
    require (eq_text encoded raw)
    some d

  -- `set(value) == fields`
  unfoldable pub exact : List Text → Fields N → Option (Unit {0})
  exact fields d =
      require
        (all (λ name. member name (names d)) fields && all (λ name. member name fields) (names d))

  unfoldable pub exact_object : List Text → Value N → Option (Fields N)
  exact_object fields value = do d ← as_object value; exact fields d; some d

abbrev pub is_hex : ℕ → Bool
is_hex c = (leb 48 c && leb c 57) || (leb 97 c && leb c 102)

-- `_SHA_RE.fullmatch(s) is not None`
unfoldable pub is_sha : Text → Bool
is_sha s = length s == 64 && all is_hex s

module _ {N : Type 0} where
  unfoldable pub sha : Value N → Option Text
  unfolding is_sha
  sha (Value.str s) = do require (is_sha s); some s
  sha _ = none

  unfoldable pub integer : ℕ → ℕ → Value N → Option ℕ
  integer minimum maximum (Value.int (pos n)) = do require (leb minimum n && leb n maximum); some n
  integer minimum maximum _ = none

module _ {N : Type 0} ⦃C : Codec N⦄ where
  unfoldable pub decode_base64 : ℕ → Value N → Option (List ℕ)
  decode_base64 maximum (Value.str s) = do
    require (leb (length s) (maximum * 2))
    raw ← C.b64decode s
    require (within maximum raw && eq_text (C.b64encode raw) s)
    some raw
  decode_base64 maximum _ = none

module _ {N : Type 0} ⦃C : Codec N⦄ ⦃D : Digest⦄ where
  unfoldable pub domain : List ℕ → Value N → Option Text
  domain prefix value = do raw ← canonical value; some (D.sha256 (prefix ++ raw))
