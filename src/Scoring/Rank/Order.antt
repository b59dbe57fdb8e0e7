-- ===== src/Scoring/Rank/Order.antt =====
-- The order of the ranking: a permutation, descending, stable.
use mathlib.Core.Bool.{true≢false}
use mathlib.Core.List.{Perm}
use mathlib.Core.List.Perm
use amazon_similar_search.Prelude.{
  arith, ◌≡◌, refl, ◌∙◌, sym, ◌⊎◌, Bool, true, false, Bool-cases, inl, inr, keep, All, List, [],
  ◌∷◌,
}
use amazon_similar_search.Runtime.{Python}
use amazon_similar_search.Runtime.Laws.{HasOrder, AtMost}
use amazon_similar_search.Schemas.{ProductScore}
use amazon_similar_search.Scoring.Rank.{insert_ranked, sort_ranked}

module _ {N : Type 0} ⦃P : Python N⦄ where
  -- No score is lower than the next.
  abbrev pub IsDescending : List (ProductScore N) → Type 0
  IsDescending [] = Unit
  IsDescending (s ∷ []) = Unit
  IsDescending (s ∷ t ∷ rest) = AtMost P t.total_score s.total_score × IsDescending (t ∷ rest)

  insert_ranked-Perm :
      (s : ProductScore N) (ts : List (ProductScore N)) → Perm (insert_ranked s ts) (s ∷ ts)
  unfolding insert_ranked
  insert_ranked-Perm s [] = Perm.refl _
  insert_ranked-Perm s (t ∷ ts) = elim (Bool-cases (P.lt s.total_score t.total_score)) [
    | inl e ↦ rw e (Perm.trans (Perm.cons t (insert_ranked-Perm s ts)) (Perm.swap s t ts))
    | inr e ↦ rw e (Perm.refl _)
  ]

  pub sort_ranked-Perm : (ss : List (ProductScore N)) → Perm (sort_ranked ss) ss
  unfolding sort_ranked
  sort_ranked-Perm [] = Perm.refl _
  sort_ranked-Perm (s ∷ ss) =
      Perm.trans (insert_ranked-Perm s (sort_ranked ss)) (Perm.cons s (sort_ranked-Perm ss))

  insert_ranked-IsDescending :
      HasOrder P
      → (s : ProductScore N) (ts : List (ProductScore N)) → IsDescending ts
      → IsDescending (insert_ranked s ts)
  unfolding insert_ranked
  insert_ranked-IsDescending order s [] h = tt
  insert_ranked-IsDescending order s (t ∷ []) h =
      elim (Bool-cases (P.lt s.total_score t.total_score)) [
        | inl e ↦ rw e (order.asymmetric _ _ e, tt)
        | inr e ↦ rw e (e, tt)
      ]
  insert_ranked-IsDescending order s (t ∷ u ∷ ts) h =
      let below = insert_ranked-IsDescending order s (u ∷ ts) h.1 in
      elim (Bool-cases (P.lt s.total_score t.total_score)) [
        | inl e ↦ elim (Bool-cases (P.lt s.total_score u.total_score)) [
          | inl f ↦ rw (e, f) (h.0, rw f at below)
          | inr f ↦ rw (e, f) (order.asymmetric _ _ e, rw f at below)
        ]
        | inr e ↦ rw e (e, h)
      ]

  pub sort_ranked-IsDescending :
      HasOrder P → (ss : List (ProductScore N)) → IsDescending (sort_ranked ss)
  unfolding sort_ranked
  sort_ranked-IsDescending order [] = tt
  sort_ranked-IsDescending order (s ∷ ss) =
      insert_ranked-IsDescending order s (sort_ranked ss) (sort_ranked-IsDescending order ss)

  -- No score of the class is lower than another.
  abbrev pub AreEqual : (ProductScore N → Bool) → Type 0
  AreEqual p =
      (s t : ProductScore N) → p s ≡ true → p t ≡ true → P.lt s.total_score t.total_score ≡ false

  not_both :
      (p : ProductScore N → Bool)
      → AreEqual p
      → (s t : ProductScore N) → P.lt s.total_score t.total_score ≡ true
      → (p s ≡ false) ⊎ (p t ≡ false)
  not_both p h s t e = elim (Bool-cases (p s)) [
    | inr a ↦ inl a
    | inl a ↦ elim (Bool-cases (p t)) [
      | inr b ↦ inr b
      | inl b ↦ absurd (true≢false (sym e ∙ h s t a b))
    ]
  ]

  keep-insert_ranked :
      (p : ProductScore N → Bool)
      → AreEqual p
      → (s : ProductScore N) (ts : List (ProductScore N))
      → keep p (insert_ranked s ts) ≡ keep p (s ∷ ts)
  unfolding insert_ranked
  keep-insert_ranked p h s [] = refl
  keep-insert_ranked p h s (t ∷ ts) = elim (Bool-cases (P.lt s.total_score t.total_score)) [
    | inl e ↦ rw e (ground (arith, keep-insert_ranked p h s ts, not_both p h s t e))
    | inr e ↦ rw e refl
  ]

  pub keep-sort_ranked :
      (p : ProductScore N → Bool)
      → AreEqual p
      → (ss : List (ProductScore N)) → keep p (sort_ranked ss) ≡ keep p ss
  unfolding sort_ranked
  keep-sort_ranked p h [] = refl
  keep-sort_ranked p h (s ∷ ss) =
      rw (keep-insert_ranked p h s (sort_ranked ss), keep-sort_ranked p h ss)

  All-insert_ranked :
      (Q : ProductScore N → Type 0) (s : ProductScore N) (ts : List (ProductScore N))
      → Q s
      → All Q ts
      → All Q (insert_ranked s ts)
  unfolding insert_ranked
  All-insert_ranked Q s [] hs h = (hs, tt)
  All-insert_ranked Q s (t ∷ ts) hs h = elim (Bool-cases (P.lt s.total_score t.total_score)) [
    | inl e ↦ rw e (h.0, All-insert_ranked Q s ts hs h.1)
    | inr e ↦ rw e (hs, h)
  ]

  pub All-sort_ranked :
      (Q : ProductScore N → Type 0) (ss : List (ProductScore N)) → All Q ss → All Q (sort_ranked ss)
  unfolding sort_ranked
  All-sort_ranked Q [] h = tt
  All-sort_ranked Q (s ∷ ss) h =
      All-insert_ranked Q s (sort_ranked ss) h.0 (All-sort_ranked Q ss h.1)
