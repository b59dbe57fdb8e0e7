-- ===== src/Review/Judge/Empty.antt =====
-- What the checks of the judge say when they append nothing.
use amazon_similar_search.Prelude.{
  ◌≡◌, ◌≢◌, refl, inl, inr, arith, Bool, true, false, Bool-cases, not, Text, member, All, List, [],
  ◌∷◌, ◌++◌,
}
use amazon_similar_search.Dedupe.{first_of_each}
use amazon_similar_search.Review.Models.{Status, ReviewReport}
use amazon_similar_search.Review.Judge.Texts.{
  say, distinct, before, insert_text, sort_texts, without,
}
use amazon_similar_search.Review.Judge.{list_reason, each, concluded}

-- Nothing was appended.
pub nil-split : (xs ys : List Text) → xs ++ ys ≡ [] → (xs ≡ []) × (ys ≡ [])
nil-split [] ys h = (refl, h)
nil-split (x ∷ xs) ys h = ground arith

pub say-nil : (wrong : Bool) (message : Text) → say wrong message ≡ [] → wrong ≡ false
say-nil true message h = ground arith
say-nil false message h = refl

not-false : (b : Bool) → not b ≡ false → b ≡ true
not-false true h = refl
not-false false h = ground arith

-- `if not right: reasons.append(message)` did not append.
pub held : (right : Bool) (message : Text) → say (not right) message ≡ [] → right ≡ true
held right message h = not-false right (say-nil (not right) message h)

pub each-nil :
    {A : Type 0} (f : A → List Text) (xs : List A) → each f xs ≡ [] → All (λ x. f x ≡ []) xs
each-nil f [] h = tt
each-nil f (x ∷ xs) h = let (hx, hs) = nil-split (f x) (each f xs) h in (hx, each-nil f xs hs)

pub distinct-nil : (texts : List Text) → distinct texts ≡ [] → texts ≡ []
unfolding first_of_each member
distinct-nil [] h = refl
distinct-nil (t ∷ ts) h = ground arith

cons-ne-nil : {t : Text} {ts : List Text} → t ∷ ts ≢ []
cons-ne-nil h = cc

insert_text-cons : (s : Text) (ts : List Text) → insert_text s ts ≢ []
unfolding insert_text
insert_text-cons s [] h = cc
insert_text-cons s (t ∷ ts) h = elim (Bool-cases (before t s)) [
  | inl e ↦ cons-ne-nil (rw e at h)
  | inr e ↦ cons-ne-nil (rw e at h)
]

pub sort_texts-nil : (texts : List Text) → sort_texts texts ≡ [] → texts ≡ []
unfolding sort_texts
sort_texts-nil [] h = refl
sort_texts-nil (t ∷ ts) h = absurd (insert_text-cons t (sort_texts ts) h)

pub list_reason-nil :
    (message : Text) (names : List Text) → list_reason message names ≡ [] → names ≡ []
list_reason-nil message [] h = refl
list_reason-nil message (n ∷ names) h = ground arith

pub without-nil :
    (others texts : List Text) → without others texts ≡ [] → All (λ s. member s others ≡ true) texts
without-nil others [] h = tt
without-nil others (s ∷ ss) h = elim (Bool-cases (member s others)) [
  | inl e ↦ (e, without-nil others ss (rw e at h))
  | inr e ↦ absurd (cons-ne-nil (rw e at h))
]

pub concluded-open :
    (reasons blockers : List Text) (reviews : List ReviewReport)
    → (concluded reasons blockers reviews).0 ≢ Status.fail
    → (reasons ≡ []) × (blockers ≡ [])
concluded-open [] [] reviews h = (refl, refl)
concluded-open [] (b ∷ bs) reviews h = absurd (h refl)
concluded-open (r ∷ rs) blockers reviews h = absurd (h refl)
