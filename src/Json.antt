-- ===== src/Json.antt =====
-- JSON values as `json.loads` returns them: a dict is its list of entries, in insertion order.
use amazon_similar_search.Prelude.{
  ℤ, Bool, Option, none, some, Text, eq_text, if◌then◌else◌, List, [], ◌∷◌,
}

-- `N` is the type of Python's floats.
mutual
  pub data Value (N : Type 0) : Type 0 where
    null : Value N
    bool : Bool → Value N
    int : ℤ → Value N
    float : N → Value N
    str : Text → Value N
    arr : Items N → Value N
    obj : Fields N → Value N

  pub data Items (N : Type 0) : Type 0 where
    nil : Items N
    cons : Value N → Items N → Items N

  pub data Fields (N : Type 0) : Type 0 where
    end : Fields N
    field : Text → Value N → Fields N → Fields N

module _ {N : Type 0} where
  -- `d.get(key)` where a missing key is told from a null: also `key in d`.
  unfoldable pub get : Text → Fields N → Option (Value N)
  get key end = none
  get key (field name v rest) =
      let other = get key rest in if eq_text name key then some v else other

  -- The elements of a JSON array.
  abbrev pub items : Items N → List (Value N)
  items nil = []
  items (cons v rest) = v ∷ items rest
