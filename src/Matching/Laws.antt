-- ===== src/Matching/Laws.antt =====
-- Cleaned lists are free of repetitions, and a term that stands in a text matches it.
use mathlib.Core.List.{reverse, reverse-append, reverse-reverse, append_assoc}
use amazon_similar_search.Prelude.{
  ℕ, ◌≡◌, ◌≢◌, refl, sym, ap, ◌∙◌, subst, arith, true, false, Bool-cases, Option, Text, strip,
  lstrip, is_space, is_empty, starts_with, contains, inl, inr, List, [], ◌∷◌, ◌++◌, map,
}
use amazon_similar_search.Runtime.{Platform, concat_map, casefold}
use amazon_similar_search.Dedupe.{IsFresh, first_of_each-IsFresh, nub_by, first_of_each-eq-nub_by}
use amazon_similar_search.Matching.{
  Sudachi, stripped, stripped_values, clean_dupe_empty, term_matches_text,
}

lstrip-split : (s : Text) → (a : Text) × (s ≡ a ++ lstrip s)
unfolding lstrip
lstrip-split [] = ([], refl)
lstrip-split (c ∷ s) =
    let (a, e) = lstrip-split s in
    elim (Bool-cases (is_space c)) [
      | inl h ↦ (c ∷ a, rw h (ap (λ t. c ∷ t) e))
      | inr h ↦ ([], rw h refl)
    ]

-- `strip` takes away something at both ends.
strip-split : (s : Text) → (a : Text) × ((b : Text) × (s ≡ a ++ (strip s ++ b)))
unfolding strip
strip-split s =
    let (a, ea) = lstrip-split s in
    let (b, eb) = lstrip-split (reverse (lstrip s)) in
    (
      a,
      (
        reverse b,
        ea
            ∙ ap (λ t. a ++ t)
                (sym (reverse-reverse (lstrip s))
                  ∙ ap reverse eb
                  ∙ reverse-append b (lstrip (reverse (lstrip s)))),
      ),
    )

starts_with-append : (p s : Text) → starts_with p (p ++ s) ≡ true
unfolding starts_with
starts_with-append [] s = refl
starts_with-append (c ∷ p) s = ground (arith, starts_with-append p s)

contains-prefix : (p s : Text) → starts_with p s ≡ true → contains p s ≡ true
unfolding contains starts_with
contains-prefix [] [] h = refl
contains-prefix (c ∷ p) [] h = ground arith
contains-prefix p (c ∷ s) h = rw h refl

contains-cons : (p : Text) (c : ℕ) (s : Text) → contains p s ≡ true → contains p (c ∷ s) ≡ true
unfolding contains
contains-cons p c s h = ground arith

-- A text stands in a longer one.
contains-append : (a p b : Text) → contains p (a ++ (p ++ b)) ≡ true
contains-append [] p b = contains-prefix p (p ++ b) (starts_with-append p b)
contains-append (c ∷ a) p b = contains-cons p c (a ++ (p ++ b)) (contains-append a p b)

regroup : (f a m b g : Text) → f ++ ((a ++ (m ++ b)) ++ g) ≡ (f ++ a) ++ (m ++ (b ++ g))
regroup f a m b g =
    ap (λ t. f ++ t) (append_assoc a (m ++ b) g ∙ ap (λ t. a ++ t) (append_assoc m b g))
    ∙ sym (append_assoc f a (m ++ (b ++ g)))

-- What a text keeps of itself when it is stripped stands wherever the text does.
contains-strip : (f t g : Text) → contains (strip t) (f ++ (t ++ g)) ≡ true
contains-strip f t g =
    let (a, (b, e)) = strip-split t in
    subst (λ u. contains (strip t) (f ++ (u ++ g)) ≡ true) (sym e)
      (subst (λ u. contains (strip t) u ≡ true) (sym (regroup f a (strip t) b g))
        (contains-append (f ++ a) (strip t) (b ++ g)))

is_empty_not : (s : Text) → s ≢ [] → is_empty s ≡ false
is_empty_not [] h = absurd (h refl)
is_empty_not (c ∷ s) h = refl

concat_map-append :
    (f : ℕ → Text) (s t : Text) → concat_map f (s ++ t) ≡ concat_map f s ++ concat_map f t
concat_map-append f [] t = refl
concat_map-append f (c ∷ s) t =
    ap (λ r. f c ++ r) (concat_map-append f s t)
    ∙ sym (append_assoc (f c) (concat_map f s) (concat_map f t))

module _ ⦃U : Platform⦄ where
  -- A cleaned list has the stripped texts in their order, of which each one that is equal to an
  -- earlier one up to case is left out; no two texts are equal up to case.
  pub clean_dupe_empty_unique :
      (values : List (Option Text))
      → (clean_dupe_empty values ≡ nub_by casefold (stripped_values values))
        × IsFresh [] (map casefold (clean_dupe_empty values))
  unfolding clean_dupe_empty
  clean_dupe_empty_unique values = (
    first_of_each-eq-nub_by stripped casefold values,
    first_of_each-IsFresh stripped casefold [] values,
  )

  folded :
      (before after term written : Text)
      → casefold written ≡ casefold term
      → casefold (before ++ (written ++ after))
        ≡ casefold before ++ (casefold term ++ casefold after)
  folded before after term written same =
      concat_map-append _ before (written ++ after)
      ∙ ap (λ t. casefold before ++ t)
          (concat_map-append _ written after ∙ ap (λ t. t ++ casefold after) same)

module _ ⦃U : Platform⦄ ⦃S : Sudachi⦄ where
  contains-folded :
      (before after term written : Text)
      → casefold written ≡ casefold term
      → contains (strip (casefold term)) (casefold (before ++ (written ++ after))) ≡ true
  contains-folded before after term written same =
      subst (λ u. contains (strip (casefold term)) u ≡ true)
        (sym (folded before after term written same))
        (contains-strip (casefold before) (casefold term) (casefold after))

  -- A term that is not blank and stands in a text, in whatever case, matches the text.
  pub term_matches_text_verbatim :
      (before after term written : Text)
      → casefold written ≡ casefold term
      → strip (casefold term) ≢ []
      → term_matches_text term (before ++ (written ++ after)) ≡ true
  unfolding term_matches_text
  term_matches_text_verbatim before after term written same h =
      rw (is_empty_not (strip (casefold term)) h)
        (rw (contains-folded before after term written same) refl)
