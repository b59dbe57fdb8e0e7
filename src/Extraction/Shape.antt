-- ===== src/Extraction/Shape.antt =====
-- The shape that `normalize_bonsai_json` gives to the fields of an answer.
use amazon_similar_search.Prelude.{
  ◌>>=◌, some_inj, ℕ, zero, suc, ℤ, pos, negsuc, ◌≡◌, refl, subst, arith, true, false, Bool-cases,
  ◌&&◌, inl, inr, Option, none, some, Option-cases, Text, member, eq_text, All, List, [], ◌∷◌,
}
use amazon_similar_search.Json.{Value, Fields, get}
use amazon_similar_search.Runtime.{Platform, Python}
use amazon_similar_search.Runtime.Laws.{HasIntegers}
use amazon_similar_search.Normalization.Values.{without_commas}
use amazon_similar_search.Extraction.Prices.{price_text, positive_integer, normalize_price_value}
use amazon_similar_search.Extraction.Response.{
  list_fields, price_fields, price_value, as_list, update_fields, read_price, normalize_bonsai_json,
}
use amazon_similar_search.Extraction.Fields.{
  is_listed, is_priced, as_list-kept, as_list-made, update_fields-All, update_fields-other,
}

-- None, or a positive number.
abbrev pub IsPrice : Option ℤ → Type 0
IsPrice none = Unit
IsPrice (some z) = (n : ℕ) × (z ≡ pos (suc n))

module _ {N : Type 0} ⦃P : Python N⦄ ⦃U : Platform⦄ (integers : HasIntegers P) where
  positive_integer-IsPrice : (x : N) → IsPrice (positive_integer x)
  unfolding positive_integer
  positive_integer-IsPrice x =
      elim (Bool-cases (P.is_finite x && P.is_integer x && P.lt (P.of_int (pos 0)) x)) [
        | inl e ↦ rw e (integers.trunc_positive x (ground arith) (ground arith))
        | inr e ↦ rw e tt
      ]

  string-IsPrice :
      (s : Text)
      → IsPrice (
          price_text s >>= λ amount.
          P.parse_float (without_commas amount) >>= λ x. positive_integer x)
  string-IsPrice s = elim (Option-cases (price_text s)) [
    | inl e ↦ rw e tt
    | inr (amount, e) ↦ elim (Option-cases (P.parse_float (without_commas amount))) [
      | inl f ↦ rw (e, f) tt
      | inr (x, f) ↦ rw (e, f) (positive_integer-IsPrice x)
    ]
  ]

  -- A price is read from an answer as a positive number or not at all.
  pub normalize_price_value-IsPrice : (v : Value N) → IsPrice (normalize_price_value v)
  unfolding normalize_price_value
  normalize_price_value-IsPrice Value.null = tt
  normalize_price_value-IsPrice (Value.bool b) = tt
  normalize_price_value-IsPrice (Value.int (pos zero)) = tt
  normalize_price_value-IsPrice (Value.int (pos (suc n))) = (n, refl)
  normalize_price_value-IsPrice (Value.int (negsuc n)) = tt
  normalize_price_value-IsPrice (Value.float x) = positive_integer-IsPrice x
  normalize_price_value-IsPrice (Value.str s) = string-IsPrice s
  normalize_price_value-IsPrice (Value.arr xs) = tt
  normalize_price_value-IsPrice (Value.obj d) = tt

  IsPrice-is_priced : (o : Option ℤ) → IsPrice o → is_priced {N = N} (some (price_value o)) ≡ true
  IsPrice-is_priced none h = refl
  IsPrice-is_priced (some z) (n, e) = rw e refl

  read_price-kept : (o : Option (Value N)) → read_price o ≡ none → is_priced o ≡ true
  read_price-kept none h = refl
  read_price-kept (some v) h = ground arith

  read_price-made :
      (o : Option (Value N)) (w : Value N) → read_price o ≡ some w → is_priced (some w) ≡ true
  read_price-made none w h = ground arith
  read_price-made (some v) w h =
      subst (λ u. is_priced (some u) ≡ true) (some_inj h)
        (IsPrice-is_priced (normalize_price_value v) (normalize_price_value-IsPrice v))

  -- The list fields are read before the prices, which leave them alone.
  listed_after :
      (names prices : List Text) (d : Fields N)
      → All (λ j. member j prices ≡ false) names
      → All (λ j. is_listed (get j d) ≡ true) names
      → All (λ j. is_listed (get j (update_fields read_price prices d)) ≡ true) names
  listed_after [] prices d h hl = tt
  listed_after (j ∷ names) prices d h hl = (
    rw (update_fields-other read_price j prices d h.0) hl.0,
    listed_after names prices d h.1 hl.1,
  )

  apart : All (λ j. member j price_fields ≡ false) list_fields
  unfolding member eq_text
  apart = (
    refl,
    (refl, (refl, (refl, (refl, (refl, (refl, (refl, (refl, (refl, (refl, (refl, tt))))))))))),
  )

  -- Of an answer that is brought into shape, every list field is there and is neither null nor a
  -- text, and every price is missing, null or a positive integer.
  pub normalize_bonsai_json_shape :
      (v : Value N) (fields : Fields N)
      → normalize_bonsai_json v ≡ some fields
      → All (λ name. is_listed (get name fields) ≡ true) list_fields
        × All (λ name. is_priced (get name fields) ≡ true) price_fields
  unfolding normalize_bonsai_json
  normalize_bonsai_json_shape (Value.obj d) fields h =
      subst
        (λ f.
          All (λ name. is_listed (get name f) ≡ true) list_fields
          × All (λ name. is_priced (get name f) ≡ true) price_fields)
        (some_inj h)
        (
          listed_after list_fields price_fields (update_fields as_list list_fields d) apart
              (update_fields-All as_list is_listed as_list-kept as_list-made list_fields d),
          update_fields-All read_price is_priced read_price-kept read_price-made price_fields
              (update_fields as_list list_fields d),
        )
  normalize_bonsai_json_shape Value.null fields h = ground arith
  normalize_bonsai_json_shape (Value.bool b) fields h = ground arith
  normalize_bonsai_json_shape (Value.int n) fields h = ground arith
  normalize_bonsai_json_shape (Value.float x) fields h = ground arith
  normalize_bonsai_json_shape (Value.str s) fields h = ground arith
  normalize_bonsai_json_shape (Value.arr xs) fields h = ground arith
