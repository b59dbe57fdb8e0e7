-- ===== src/Dedupe.antt =====
-- The loops that keep the first of each group of equal things: a set of the keys seen so far, and a
-- list of what is kept (`clean_dupe_empty`, `clean_dupe_strings`,
-- `normalize_amazon_products_response` and `weighted_condition_terms` are such loops).
use amazon_similar_search.Prelude.{
  ◌≡◌, refl, Bool, true, false, Option, none, some, Text, member, eq_text, eq_text_sound, List, [],
  ◌∷◌, map, All, ap, ◌∙◌, keep, not, arith, Bool-cases, Option-cases, inl, inr, if◌then◌else◌,
  subst, sym,
}

module _ {A B : Type 0} (prepare : A → Option B) (key : B → Text) where
  -- What the body of the loop appends: nothing for an item that is skipped.
  abbrev pub admitted : List Text → A → Option B
  admitted seen x = elim (prepare x) [
    | none ↦ none
    | some b ↦ if member (key b) seen then none else some b
  ]

  unfoldable pub first_of_each : List Text → List A → List B
  first_of_each seen [] = []
  first_of_each seen (x ∷ xs) = elim (admitted seen x) [
    | none ↦ first_of_each seen xs
    | some b ↦ b ∷ first_of_each (key b ∷ seen) xs
  ]

-- No text of the list stands in it twice, and none stands in `seen`.
abbrev pub IsFresh : List Text → List Text → Type 0
IsFresh seen [] = Unit {0}
IsFresh seen (k ∷ ks) = (member k seen ≡ false) × IsFresh (k ∷ seen) ks

not_member_tail : (k j : Text) (ks : List Text) → member k (j ∷ ks) ≡ false → member k ks ≡ false
unfolding member
not_member_tail k j ks h = ground arith

module _ {A B : Type 0} (prepare : A → Option B) (key : B → Text) where
  step_none :
      (seen : List Text) (x : A) (xs : List A)
      → admitted prepare key seen x ≡ none
      → first_of_each prepare key seen (x ∷ xs) ≡ first_of_each prepare key seen xs
  unfolding first_of_each
  step_none seen x xs e = rw (first_of_each, e)

  step_some :
      (seen : List Text) (x : A) (xs : List A) {b : B}
      → admitted prepare key seen x ≡ some b
      → first_of_each prepare key seen (x ∷ xs) ≡ b ∷ first_of_each prepare key (key b ∷ seen) xs
  unfolding first_of_each
  step_some seen x xs e = rw (first_of_each, e)

  admitted_fresh :
      (seen : List Text) (x : A) {b : B}
      → admitted prepare key seen x ≡ some b
      → (member (key b) seen ≡ false) × (prepare x ≡ some b)
  admitted_fresh seen x h = elim (Option-cases (prepare x)) [
    | inl e ↦ cc (rw (admitted, e) at h)
    | inr (b, e) ↦ elim (Bool-cases (member (key b) seen)) [
      | inl m ↦ cc (rw (admitted, e, m) at h)
      | inr m ↦
          let same : b ≡ _ = cc (rw (admitted, e, m) at h) in
          (subst (λ c. member (key c) seen ≡ false) same m, e ∙ ap some same)
    ]
  ]

  -- The keys of what is kept are distinct.
  pub first_of_each-IsFresh :
      (seen : List Text) (xs : List A) → IsFresh seen (map key (first_of_each prepare key seen xs))
  first_of_each-IsFresh seen [] = unfold first_of_each in tt
  first_of_each-IsFresh seen (x ∷ xs) = elim (Option-cases (admitted prepare key seen x)) [
    | inl e ↦ rw (step_none seen x xs e) (first_of_each-IsFresh seen xs)
    | inr (b, e) ↦
        rw (step_some seen x xs e)
          ((admitted_fresh seen x e).0, first_of_each-IsFresh (key b ∷ seen) xs)
  ]

-- The first of each group of equal keys, without a set: the reference for the loops above.
module _ {B : Type 0} (key : B → Text) where
  abbrev pub distinct_from : Text → B → Bool
  distinct_from k c = not (eq_text k (key c))

  abbrev pub nub_by : List B → List B
  nub_by [] = []
  nub_by (b ∷ bs) = b ∷ keep (distinct_from (key b)) (nub_by bs)

-- `prepare` of each item, where there is one.
abbrev pub prepared : {A B : Type 0} → (A → Option B) → List A → List B
prepared prepare [] = []
prepared prepare (x ∷ xs) =
    let rest = prepared prepare xs in elim (prepare x) [ none ↦ rest | some b ↦ b ∷ rest ]

keep-keep :
    {B : Type 0} (p q r : B → Bool) (bs : List B)
    → ((c : B) → (if q c then p c else false) ≡ r c)
    → keep p (keep q bs) ≡ keep r bs
keep-keep p q r [] h = refl
keep-keep p q r (b ∷ bs) h = ground (arith, h b, keep-keep p q r bs h)

-- What the loop keeps beside `seen`, as a test on the reference.
abbrev unseen : {B : Type 0} → (B → Text) → List Text → B → Bool
unseen key seen c = not (member (key c) seen)

module _ {B : Type 0} (key : B → Text) where
  unseen_seen :
      (seen : List Text) (b c : B)
      → member (key b) seen ≡ true
      → (if distinct_from key (key b) c then unseen key seen c else false) ≡ unseen key seen c
  unseen_seen seen b c m = elim (Bool-cases (eq_text (key b) (key c))) [
    | inl e ↦ rw (e, subst (λ k. member k seen ≡ true) (eq_text_sound (key b) (key c) e) m)
    | inr e ↦ rw e
  ]

  unseen_new :
      (seen : List Text) (b c : B)
      → (if distinct_from key (key b) c then unseen key seen c else false)
        ≡ unseen key (key b ∷ seen) c
  unfolding member
  unseen_new seen b c = ground arith

module _ {A B : Type 0} (prepare : A → Option B) (key : B → Text) where
  prepared-some :
      (x : A) (xs : List A) {b : B}
      → prepare x ≡ some b
      → prepared prepare (x ∷ xs) ≡ b ∷ prepared prepare xs
  prepared-some x xs e = rw (prepared, e)

  first_of_each-eq-keep :
      (seen : List Text) (xs : List A)
      → first_of_each prepare key seen xs
        ≡ keep (unseen key seen) (nub_by key (prepared prepare xs))
  first_of_each-eq-keep seen [] = unfold first_of_each in refl
  first_of_each-eq-keep seen (x ∷ xs) = elim (Option-cases (prepare x)) [
    | inl e ↦
        rw (step_none prepare key seen x xs (rw (admitted, e)), prepared, e)
          (first_of_each-eq-keep seen xs)
    | inr (b, e) ↦ elim (Bool-cases (member (key b) seen)) [
      | inl m ↦
          rw (step_none prepare key seen x xs (rw (admitted, e, m)), prepared-some x xs e)
            (rw m (
              first_of_each-eq-keep seen xs
              ∙ sym (keep-keep _ _ _ _ (λ c. unseen_seen key seen b c m))))
      | inr m ↦
          rw (step_some prepare key seen x xs {b = b} (rw (admitted, e, m)), prepared-some x xs e)
            (rw m (
              ap (λ (rest : List B). b ∷ rest)
                (first_of_each-eq-keep (key b ∷ seen) xs
                  ∙ sym (keep-keep _ _ _ _ (λ c. unseen_new key seen b c)))))
    ]
  ]

  keep_all : (bs : List B) → keep (unseen key []) bs ≡ bs
  unfolding member
  keep_all [] = refl
  keep_all (b ∷ bs) = ap (λ (rest : List B). b ∷ rest) (keep_all bs)

  -- From an empty set the loop keeps exactly the first prepared item of each key, in order.
  pub first_of_each-eq-nub_by :
      (xs : List A) → first_of_each prepare key [] xs ≡ nub_by key (prepared prepare xs)
  first_of_each-eq-nub_by xs =
      first_of_each-eq-keep [] xs ∙ keep_all (nub_by key (prepared prepare xs))

  -- What the loop keeps was prepared from an item.
  pub All-first_of_each :
      (Q : B → Type 0)
      → ((x : A) (b : B) → prepare x ≡ some b → Q b)
      → (seen : List Text) (xs : List A) → All Q (first_of_each prepare key seen xs)
  All-first_of_each Q holds seen [] = unfold first_of_each in tt
  All-first_of_each Q holds seen (x ∷ xs) = elim (Option-cases (admitted prepare key seen x)) [
    | inl e ↦ rw (step_none prepare key seen x xs e) (All-first_of_each Q holds seen xs)
    | inr (b, e) ↦ rw (step_some prepare key seen x xs e) (
      holds x b (admitted_fresh prepare key seen x e).1,
      All-first_of_each Q holds (key b ∷ seen) xs,
    )
  ]

  -- Where the items have a property that passes on to what is prepared from them, so does the result.
  pub first_of_each-All :
      (R : A → Type 0) (Q : B → Type 0)
      → ((x : A) (b : B) → R x → prepare x ≡ some b → Q b)
      → (seen : List Text) (xs : List A) → All R xs
      → All Q (first_of_each prepare key seen xs)
  first_of_each-All R Q holds seen [] h = unfold first_of_each in tt
  first_of_each-All R Q holds seen (x ∷ xs) h = elim (Option-cases (admitted prepare key seen x)) [
    | inl e ↦ rw (step_none prepare key seen x xs e) (first_of_each-All R Q holds seen xs h.1)
    | inr (b, e) ↦ rw (step_some prepare key seen x xs e) (
      holds x b h.0 (admitted_fresh prepare key seen x e).1,
      first_of_each-All R Q holds (key b ∷ seen) xs h.1,
    )
  ]

member-cons-subset :
    (j k : Text) (smaller larger : List Text)
    → (member j larger ≡ false → member j smaller ≡ false)
    → member j (k ∷ larger) ≡ false
    → member j (k ∷ smaller) ≡ false
unfolding member
member-cons-subset j k smaller larger sub h = ground arith

-- A smaller set of keys seen leaves what was fresh fresh.
pub IsFresh-subset :
    (smaller larger : List Text) (ks : List Text)
    → ((k : Text) → member k larger ≡ false → member k smaller ≡ false)
    → IsFresh larger ks
    → IsFresh smaller ks
IsFresh-subset smaller larger [] sub h = tt
IsFresh-subset smaller larger (k ∷ ks) sub h = (
  sub k h.0,
  IsFresh-subset (k ∷ smaller) (k ∷ larger) ks (λ j. member-cons-subset j k smaller larger (sub j))
      h.1,
)

-- What is fresh beside a set with one more key is fresh beside the set.
pub IsFresh-tail : (k : Text) (seen ks : List Text) → IsFresh (k ∷ seen) ks → IsFresh seen ks
IsFresh-tail k seen ks h = IsFresh-subset seen (k ∷ seen) ks (λ j. not_member_tail j k seen) h
