-- ===== src/Review/Judge/Texts.antt =====
-- The sets and lists of texts that tools/ai_review/judge.py works with.
use amazon_similar_search.Prelude.{
  ℕ, ◌+◌, ◌/◌, ◌%◌, ◌==◌, ltb, Bool, true, false, not, Option, none, some, Text, codes, eq_text,
  member, keep, if◌then◌else◌, List, [], ◌∷◌, ◌++◌,
}
use amazon_similar_search.Dedupe.{first_of_each}

-- `hashlib.sha256(data).hexdigest()` and `str.encode("utf-8")`
pub record Digest : Type 0 where
  pub sha256 : List ℕ → Text
  pub utf8 : Text → List ℕ

-- `if wrong: reasons.append(message)`
abbrev pub say : Bool → Text → List Text
say wrong message = if wrong then message ∷ [] else []

abbrev pub same : Text → Text
same s = s

-- `list(dict.fromkeys(texts))`
abbrev pub distinct : List Text → List Text
distinct texts = first_of_each some same [] texts

-- A digest against one that may be missing.
abbrev pub same_patch : Text → Option Text → Bool
same_patch digest none = false
same_patch digest (some expected) = eq_text digest expected

unfoldable pub eq_texts : List Text → List Text → Bool
eq_texts [] [] = true
eq_texts (s ∷ ss) (t ∷ ts) = let rest = eq_texts ss ts in if eq_text s t then rest else false
eq_texts _ _ = false

-- `", ".join(texts)`
abbrev pub join_comma : List Text → Text
join_comma [] = []
join_comma (s ∷ []) = s
join_comma (s ∷ t ∷ rest) = s ++ codes ", " ++ join_comma (t ∷ rest)

-- `s < t`
unfoldable pub before : Text → Text → Bool
before s [] = false
before [] (d ∷ t) = true
before (c ∷ s) (d ∷ t) = let rest = before s t in if c == d then rest else ltb c d

unfoldable pub insert_text : Text → List Text → List Text
insert_text s [] = s ∷ []
insert_text s (t ∷ ts) = let rest = insert_text s ts in if before t s then t ∷ rest else s ∷ t ∷ ts

unfoldable pub sort_texts : List Text → List Text
sort_texts [] = []
sort_texts (s ∷ ss) = insert_text s (sort_texts ss)

-- `sorted(set(texts))`
abbrev pub sorted_set : List Text → List Text
sorted_set texts = sort_texts (distinct texts)

-- The texts that are not among the others.
abbrev pub without : List Text → List Text → List Text
without others texts = keep (λ s. not (member s others)) texts

unfoldable pub count : Text → List Text → ℕ
count s [] = 0
count s (t ∷ ts) = let rest = count s ts in if eq_text t s then rest + 1 else rest

-- The texts that do not stand exactly once in the list.
abbrev pub repeated : List Text → List Text
repeated texts = keep (λ s. not (count s texts == 1)) texts

-- `n.to_bytes(4, "big")`
abbrev pub four_bytes : ℕ → List ℕ
four_bytes n = n / 16_777_216 ∷ n / 65_536 % 256 ∷ n / 256 % 256 ∷ n % 256 ∷ []
