-- ===== src/Extraction/Fields.antt =====
-- The fields of an answer after `normalize_bonsai_json`.
use amazon_similar_search.Prelude.{
  some_inj, suc, pos, ◌≡◌, refl, sym, subst, ◌∙◌, arith, Bool, true, false, Bool-cases, inl, inr,
  Option, none, some, Option-cases, Text, member, eq_text, eq_text_sound, eq_text_self, All, List,
  [], ◌∷◌,
}
use amazon_similar_search.Json.{Value, Fields, field, end, get}
use amazon_similar_search.Extraction.Response.{put, put_some, as_list, update_fields}

not_named : (i k j : Text) → eq_text i k ≡ true → eq_text k j ≡ false → eq_text i j ≡ false
not_named i k j e h = subst (λ t. eq_text t j ≡ false) (sym (eq_text_sound i k e)) h

not_member :
    (k j : Text) (names : List Text)
    → member j (k ∷ names) ≡ false
    → (eq_text k j ≡ false) × (member j names ≡ false)
unfolding member
not_member k j names h = (ground arith, ground arith)

module _ {N : Type 0} where
  get-put : (k : Text) (v : Value N) (d : Fields N) → get k (put k v d) ≡ some v
  unfolding get put
  get-put k v end = rw (eq_text_self k) refl
  get-put k v (field j w rest) = elim (Bool-cases (eq_text j k)) [
    | inl e ↦ rw (e, e) refl
    | inr e ↦ rw (e, e) (get-put k v rest)
  ]

  get-put_other :
      (j k : Text) (v : Value N) (d : Fields N) → eq_text k j ≡ false → get j (put k v d) ≡ get j d
  unfolding get put
  get-put_other j k v end h = rw h refl
  get-put_other j k v (field i w rest) h = elim (Bool-cases (eq_text i k)) [
    | inl e ↦ rw (e, not_named i k j e h) refl
    | inr e ↦ rw (e, get-put_other j k v rest h) refl
  ]

  module _ (update : Option (Value N) → Option (Value N)) (p : Option (Value N) → Bool)
      (kept : (o : Option (Value N)) → update o ≡ none → p o ≡ true)
      (made : (o : Option (Value N)) (v : Value N) → update o ≡ some v → p (some v) ≡ true) where
    step_same : (k : Text) (d : Fields N) → p (get k (put_some k (update (get k d)) d)) ≡ true
    step_same k d = elim (Option-cases (update (get k d))) [
      | inl e ↦ rw e (kept (get k d) e)
      | inr (v, e) ↦ rw (e, get-put k v d) (made (get k d) v e)
    ]

    step_keeps :
        (j k : Text) (d : Fields N)
        → p (get j d) ≡ true
        → p (get j (put_some k (update (get k d)) d)) ≡ true
    step_keeps j k d h = elim (Bool-cases (eq_text k j)) [
      | inl e ↦
          subst (λ i. p (get i (put_some k (update (get k d)) d)) ≡ true) (eq_text_sound k j e)
            (step_same k d)
      | inr e ↦ elim (Option-cases (update (get k d))) [
        | inl f ↦ rw f h
        | inr (v, f) ↦ rw (f, get-put_other j k v d e) h
      ]
    ]

    update_fields-keeps :
        (j : Text) (names : List Text) (d : Fields N)
        → p (get j d) ≡ true
        → p (get j (update_fields update names d)) ≡ true
    unfolding update_fields
    update_fields-keeps j [] d h = h
    update_fields-keeps j (k ∷ names) d h =
        update_fields-keeps j names (put_some k (update (get k d)) d) (step_keeps j k d h)

    pub update_fields-All :
        (names : List Text) (d : Fields N)
        → All (λ j. p (get j (update_fields update names d)) ≡ true) names
    unfolding update_fields
    update_fields-All [] d = tt
    update_fields-All (k ∷ names) d = (
      update_fields-keeps k names (put_some k (update (get k d)) d) (step_same k d),
      update_fields-All names (put_some k (update (get k d)) d),
    )

  step_other :
      (update : Option (Value N) → Option (Value N)) (j k : Text) (d : Fields N)
      → eq_text k j ≡ false
      → get j (put_some k (update (get k d)) d) ≡ get j d
  step_other update j k d e = elim (Option-cases (update (get k d))) [
    | inl f ↦ rw f refl
    | inr (v, f) ↦ rw f (get-put_other j k v d e)
  ]

  pub update_fields-other :
      (update : Option (Value N) → Option (Value N)) (j : Text) (names : List Text) (d : Fields N)
      → member j names ≡ false
      → get j (update_fields update names d) ≡ get j d
  unfolding update_fields member
  update_fields-other update j [] d h = refl
  update_fields-other update j (k ∷ names) d h =
      let (e, m) = not_member k j names h in
      update_fields-other update j names (put_some k (update (get k d)) d) m
      ∙ step_other update j k d e

module _ {N : Type 0} where
  -- Neither a text nor null nor nothing.
  abbrev pub is_listed : Option (Value N) → Bool
  is_listed none = false
  is_listed (some Value.null) = false
  is_listed (some (Value.str s)) = false
  is_listed (some _) = true

  -- A positive int, null, or nothing.
  abbrev pub is_priced : Option (Value N) → Bool
  is_priced none = true
  is_priced (some Value.null) = true
  is_priced (some (Value.int (pos (suc n)))) = true
  is_priced (some _) = false

  pub as_list-kept : (o : Option (Value N)) → as_list o ≡ none → is_listed o ≡ true
  unfolding as_list
  as_list-kept none h = ground arith
  as_list-kept (some Value.null) h = ground arith
  as_list-kept (some (Value.bool b)) h = refl
  as_list-kept (some (Value.int n)) h = refl
  as_list-kept (some (Value.float x)) h = refl
  as_list-kept (some (Value.str s)) h = ground arith
  as_list-kept (some (Value.arr xs)) h = refl
  as_list-kept (some (Value.obj d)) h = refl

  pub as_list-made :
      (o : Option (Value N)) (v : Value N) → as_list o ≡ some v → is_listed (some v) ≡ true
  unfolding as_list
  as_list-made none v h = subst (λ w. is_listed (some w) ≡ true) (some_inj h) refl
  as_list-made (some Value.null) v h = subst (λ w. is_listed (some w) ≡ true) (some_inj h) refl
  as_list-made (some (Value.bool b)) v h = ground arith
  as_list-made (some (Value.int n)) v h = ground arith
  as_list-made (some (Value.float x)) v h = ground arith
  as_list-made (some (Value.str s)) v h = subst (λ w. is_listed (some w) ≡ true) (some_inj h) refl
  as_list-made (some (Value.arr xs)) v h = ground arith
  as_list-made (some (Value.obj d)) v h = ground arith
