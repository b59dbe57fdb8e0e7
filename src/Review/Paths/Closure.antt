-- ===== src/Review/Paths/Closure.antt =====
-- A sensitive path stays sensitive below any directory, and everything below a sensitive directory is
-- sensitive.
use mathlib.Core.Bool.{true≢false}
use amazon_similar_search.Prelude.{
  ◌≡◌, ◌≢◌, refl, sym, ◌∙◌, arith, Bool, true, false, Bool-cases, inl, inr, ◌||◌, none, Text, any,
  List, [], ◌∷◌, ◌++◌,
}
use amazon_similar_search.Review.Paths.{
  contains_sequence, is_environment, is_cache, is_git, is_credential_directory,
  has_credential_basename, credential_suffixes, first_reason, reason_of,
}

any-tail :
    (p : Text → Bool) (f : Text) (parts : List Text)
    → any p (f ∷ parts) ≡ false
    → any p parts ≡ false
any-tail p f parts h = ground arith

any-head :
    (p : Text → Bool) (f : Text) (parts : List Text) → any p (f ∷ parts) ≡ false → p f ≡ false
any-head p f parts h = ground arith

no_class :
    (a b c d : Bool) → a ≡ false → b ≡ false → c ≡ false → d ≡ false → (a || b || c || d) ≡ false
no_class a b c d ha hb hc hd = rw (ha, hb, hc, hd) refl

contains_sequence-tail :
    (sequence : List Text) (f : Text) (parts : List Text)
    → contains_sequence sequence (f ∷ parts) ≡ false
    → contains_sequence sequence parts ≡ false
unfolding contains_sequence
contains_sequence-tail sequence f parts h = ground arith

has_credential_basename-tail :
    (f : Text) (parts : List Text)
    → has_credential_basename (f ∷ parts) ≡ false
    → has_credential_basename parts ≡ false
unfolding has_credential_basename
has_credential_basename-tail f [] h = refl
has_credential_basename-tail f (q ∷ rest) h = h

suffixes-tail :
    (sequences : List (List Text)) (f : Text) (parts : List Text)
    → any (λ sequence. contains_sequence sequence (f ∷ parts)) sequences ≡ false
    → any (λ sequence. contains_sequence sequence parts) sequences ≡ false
suffixes-tail [] f parts h = refl
suffixes-tail (s ∷ ss) f parts h = elim (Bool-cases (contains_sequence s (f ∷ parts))) [
  | inl e ↦ absurd (true≢false (rw e at h))
  | inr e ↦ rw (contains_sequence-tail s f parts e) (suffixes-tail ss f parts (rw e at h))
]

-- Without a reason no test holds.
first_reason-none :
    (a b c d e f g : Bool)
    → first_reason a b c d e f g ≡ none
    → (a ≡ false)
      × ((b ≡ false) × ((c ≡ false) × ((d ≡ false) × ((e ≡ false) × ((f ≡ false) × (g ≡ false))))))
first_reason-none true b c d e f g h = ground arith
first_reason-none false true c d e f g h = ground arith
first_reason-none false false true d e f g h = ground arith
first_reason-none false false false true e f g h = ground arith
first_reason-none false false false false true f g h = ground arith
first_reason-none false false false false false true g h = ground arith
first_reason-none false false false false false false true h = ground arith
first_reason-none false false false false false false false h =
    (refl, (refl, (refl, (refl, (refl, (refl, refl))))))

first_reason-false :
    (a b c d e f g : Bool)
    → a ≡ false
    → b ≡ false
    → c ≡ false
    → d ≡ false
    → e ≡ false
    → f ≡ false
    → g ≡ false
    → first_reason a b c d e f g ≡ none
first_reason-false a b c d e f g ha hb hc hd he hf hg = rw (ha, hb, hc, hd, he, hf, hg) refl

reason_of-tail :
    (f : Text) (parts : List Text) → reason_of (f ∷ parts) ≡ none → reason_of parts ≡ none
unfolding reason_of
reason_of-tail f parts h =
    let (ha, (hb, (hc, (hd, (he, (hf, hg)))))) = first_reason-none _ _ _ _ _ _ _ h in
    first_reason-false _ _ _ _ _ _ _ (any-tail is_environment f parts ha)
      (contains_sequence-tail _ f parts hb) (any-tail is_credential_directory f parts hc)
      (has_credential_basename-tail f parts hd) (suffixes-tail credential_suffixes f parts he)
      (any-tail is_cache f parts hf) (any-tail is_git f parts hg)

-- A path with parts that are sensitive stays sensitive below any directories.
pub reason_of-append :
    (front parts : List Text) → reason_of parts ≢ none → reason_of (front ++ parts) ≢ none
reason_of-append [] parts h = h
reason_of-append (f ∷ front) parts h =
    λ e. reason_of-append front parts h (reason_of-tail f (front ++ parts) e)

-- Whether a part alone makes a path sensitive.
abbrev pub is_forbidden : Text → Bool
is_forbidden part =
    is_environment part || is_credential_directory part || is_cache part || is_git part

forbidden_first :
    (part : Text) (parts : List Text) → is_forbidden part ≡ true → reason_of (part ∷ parts) ≢ none
unfolding reason_of
forbidden_first part parts h e =
    let (ha, (hb, (hc, (hd, (he, (hf, hg)))))) = first_reason-none _ _ _ _ _ _ _ e in
    true≢false (
      sym h
      ∙ no_class (is_environment part) (is_credential_directory part) (is_cache part) (is_git part)
          (any-head is_environment part parts ha) (any-head is_credential_directory part parts hc)
          (any-head is_cache part parts hf) (any-head is_git part parts hg))

-- Whatever stands before and after an environment file, a credential directory, a cache or Git's
-- metadata in a path, the path is sensitive.
pub reason_of_forbidden :
    (front : List Text) (part : Text) (back : List Text)
    → is_forbidden part ≡ true
    → reason_of (front ++ part ∷ back) ≢ none
reason_of_forbidden front part back h =
    reason_of-append front (part ∷ back) (forbidden_first part back h)
