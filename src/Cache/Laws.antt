-- ===== src/Cache/Laws.antt =====
-- Reading and writing the cache of src/repositories/cache_repository.py.
use amazon_similar_search.Prelude.{
  ◌≡◌, refl, ap, sym, ◌∙◌, true, false, Bool-cases, inl, inr, some, Text, eq_text, eq_text_sound,
  eq_text_self, if◌then◌else◌, List, [], ◌∷◌, subst, arith,
}
use amazon_similar_search.Review.Judge.Texts.{eq_texts}
use amazon_similar_search.Cache.{CachePath, File, same_path, find_file, put_file}

eq_texts_sound : (ss ts : List Text) → eq_texts ss ts ≡ true → ss ≡ ts
unfolding eq_texts
eq_texts_sound [] [] h = refl
eq_texts_sound [] (t ∷ ts) h = ground arith
eq_texts_sound (s ∷ ss) [] h = ground arith
eq_texts_sound (s ∷ ss) (t ∷ ts) h = elim (Bool-cases (eq_text s t)) [
  | inl e ↦
      let rest = eq_texts_sound ss ts (rw (eq_texts, e) at h) in
      ap (λ (u : Text). u ∷ ss) (eq_text_sound s t e) ∙ ap (λ (us : List Text). t ∷ us) rest
  | inr e ↦ cc (rw (eq_texts, e) at h)
]

eq_texts_self : (ss : List Text) → eq_texts ss ss ≡ true
unfolding eq_texts
eq_texts_self [] = refl
eq_texts_self (s ∷ ss) = rw (eq_text_self s) (eq_texts_self ss)

abbrev path_of : List Text → Text → CachePath
path_of directories name = record { directories = directories; name = name }

pub same_path_sound : (p q : CachePath) → same_path p q ≡ true → p ≡ q
unfolding same_path
same_path_sound p q h = elim (Bool-cases (eq_texts p.directories q.directories)) [
  | inl e ↦
      let names : eq_text p.name q.name ≡ true = (rw e at h) in
      ap (λ (d : List Text). path_of d p.name) (eq_texts_sound p.directories q.directories e)
      ∙ ap (λ (n : Text). path_of q.directories n) (eq_text_sound p.name q.name names)
  | inr e ↦ cc (rw e at h)
]

pub same_path_self : (p : CachePath) → same_path p p ≡ true
unfolding same_path
same_path_self p = rw (eq_texts_self p.directories) (eq_text_self p.name)

module _ {N F : Type 0} where
  -- What is written is found.
  pub find_file-put_file :
      (new : File N F) (files : List (File N F))
      → find_file new.path (put_file new files) ≡ some new
  unfolding find_file put_file
  find_file-put_file new [] = rw (same_path_self new.path) refl
  find_file-put_file new (file ∷ files) = elim (Bool-cases (same_path file.path new.path)) [
    | inl e ↦ rw (e, find_file, same_path_self new.path) refl
    | inr e ↦ rw (e, find_file, e) (find_file-put_file new files)
  ]

  -- Another path has what it had.
  pub find_file-put_other :
      (path : CachePath) (new : File N F) (files : List (File N F))
      → same_path new.path path ≡ false
      → find_file path (put_file new files) ≡ find_file path files
  unfolding find_file put_file
  find_file-put_other path new [] h = rw h refl
  find_file-put_other path new (file ∷ files) h = elim (Bool-cases (same_path file.path new.path)) [
    | inl e ↦
        let same : same_path file.path path ≡ false =
          subst (λ p. same_path p path ≡ false) (sym (same_path_sound file.path new.path e)) h in
        rw (e, find_file, h, same) refl
    | inr e ↦ rw e (
        ap (λ other. if same_path file.path path then some file else other)
          (find_file-put_other path new files h))
  ]
