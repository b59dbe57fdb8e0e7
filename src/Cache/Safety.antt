-- ===== src/Cache/Safety.antt =====
-- The files of the cache of src/repositories/cache_repository.py stay below its directory.
use amazon_similar_search.Prelude.{
  append-nil, append_snoc, guard_some, ◌≡◌, refl, ap, ◌∙◌, eq_text, eq_text_sound, if◌then◌else◌, ℕ,
  ◌==◌, ◌||◌, Bool, true, false, not, Bool-cases, inl, inr, some, some_inj, Text, codes, member,
  all, keep, All, is_empty, starts_with, split_slash, List, [], ◌∷◌, ◌++◌, subst, arith,
}
use amazon_similar_search.Cache.{
  CachePath, path_for, directories_of, is_directory, is_key_character,
}

abbrev is_no_slash : ℕ → Bool
is_no_slash c = not (c == b'/')

-- A directory is one part of a path, and neither empty nor the current directory.
abbrev pub IsPart : Text → Type 0
IsPart part = (all is_no_slash part ≡ true) × (is_directory part ≡ true)

all-append :
    (p : ℕ → Bool) (s : Text) (c : ℕ) → all p s ≡ true → p c ≡ true → all p (s ++ c ∷ []) ≡ true
all-append p [] c hs hc = rw hc refl
all-append p (d ∷ s) c hs hc = elim (Bool-cases (p d)) [
  | inl e ↦ rw e (all-append p s c (rw (all, e) at hs) hc)
  | inr e ↦ cc (rw (all, e) at hs)
]

split_slash-parts :
    (part s : Text)
    → all is_no_slash part ≡ true
    → All (λ p. all is_no_slash p ≡ true) (split_slash part s)
unfolding split_slash
split_slash-parts part [] h = (h, tt)
split_slash-parts part (c ∷ s) h = elim (Bool-cases (c == b'/')) [
  | inl e ↦ rw (split_slash, e) (h, split_slash-parts [] s refl)
  | inr e ↦
      rw (split_slash, e)
        (split_slash-parts (part ++ c ∷ []) s (all-append is_no_slash part c h (rw e refl)))
]

keep-IsPart :
    (parts : List Text)
    → All (λ p. all is_no_slash p ≡ true) parts
    → All IsPart (keep is_directory parts)
keep-IsPart [] h = tt
keep-IsPart (p ∷ parts) h = elim (Bool-cases (is_directory p)) [
  | inl e ↦ rw (keep, e) ((h.0, e), keep-IsPart parts h.1)
  | inr e ↦ rw (keep, e) (keep-IsPart parts h.1)
]

or-false : (a : Bool) {b : Bool} → (a || b) ≡ false → (a ≡ false) × (b ≡ false)
or-false true h = ground arith
or-false false h = (refl, h)

not-false : (a : Bool) → not a ≡ false → a ≡ true
not-false true h = refl
not-false false h = ground arith

-- `path.parent`, of the parts from the root of the file system
abbrev pub parent : List Text → List Text
parent [] = []
parent (part ∷ []) = []
parent (part ∷ next ∷ parts) = part ∷ parent (next ∷ parts)

-- Where one more part of a path leads: the root of the file system, upwards, or into a directory.
unfoldable pub entered : List Text → Text → List Text
entered here part =
    if eq_text part (codes "/")
    then []
    else if eq_text part (codes "..")
    then parent here
    else here ++ part ∷ []

abbrev pub walk : List Text → List Text → List Text
walk here [] = here
walk here (part ∷ parts) = walk (entered here part) parts

-- Where the file of a path lies, from the parts of the cache's directory.
abbrev pub location : List Text → CachePath → List Text
location root path = walk root (path.directories ++ directories_of (path.name ++ codes ".json"))

-- A part that leads neither to the root of the file system nor upwards.
abbrev IsPlain : Text → Type 0
IsPlain part = (eq_text part (codes "/") ≡ false) × (eq_text part (codes "..") ≡ false)

entered-plain :
    (here : List Text) (part : Text) → IsPlain part → entered here part ≡ here ++ part ∷ []
unfolding entered
entered-plain here part (inside, down) = rw (inside, down) refl

walk-plain : (here parts : List Text) → All IsPlain parts → walk here parts ≡ here ++ parts
walk-plain here [] h = append-nil here
walk-plain here (part ∷ parts) h =
    ap (λ there. walk there parts) (entered-plain here part h.0)
    ∙ walk-plain (here ++ part ∷ []) parts h.1
    ∙ append_snoc here part parts

All-snoc :
    (parts : List Text) (last : Text)
    → All IsPlain parts
    → IsPlain last
    → All IsPlain (parts ++ last ∷ [])
All-snoc [] last h plain = (plain, tt)
All-snoc (part ∷ parts) last h plain = (h.0, All-snoc parts last h.1 plain)

-- A part without a slash is no root.
no_slash-ne-root : (part : Text) → all is_no_slash part ≡ true → eq_text part (codes "/") ≡ false
no_slash-ne-root part h = elim (Bool-cases (eq_text part (codes "/"))) [
  | inl e ↦ cc (subst (λ s. all is_no_slash s ≡ true) (eq_text_sound part (codes "/") e) h)
  | inr e ↦ e
]

not_member-head :
    (s t : Text) (ts : List Text)
    → member s (t ∷ ts) ≡ false
    → (eq_text t s ≡ false) × (member s ts ≡ false)
unfolding member
not_member-head s t ts h = ground arith

parts-IsPlain :
    (parts : List Text) → All IsPart parts → member (codes "..") parts ≡ false → All IsPlain parts
parts-IsPlain [] h inside = tt
parts-IsPlain (part ∷ parts) h inside =
    let (down, rest) = not_member-head (codes "..") part parts inside in
    ((no_slash-ne-root part h.0.0, down), parts-IsPlain parts h.1 rest)

key_character-no_slash : (c : ℕ) → is_key_character c ≡ true → is_no_slash c ≡ true
key_character-no_slash c h = ground arith

json-no_slash :
    (key : Text) → all is_key_character key ≡ true → all is_no_slash (key ++ codes ".json") ≡ true
json-no_slash [] h = refl
json-no_slash (c ∷ key) h = elim (Bool-cases (is_key_character c)) [
  | inl e ↦ rw (key_character-no_slash c e) (json-no_slash key (rw (all, e) at h))
  | inr e ↦ cc (rw (all, e) at h)
]

split_slash-none :
    (part s : Text) → all is_no_slash s ≡ true → split_slash part s ≡ (part ++ s) ∷ []
unfolding split_slash
split_slash-none part [] h = ap (λ p. p ∷ []) (append-nil part)
split_slash-none part (c ∷ s) h = elim (Bool-cases (c == b'/')) [
  | inl e ↦ cc (rw (all, e) at h)
  | inr e ↦
      rw (split_slash, e)
        (split_slash-none (part ++ c ∷ []) s (rw (all, e) at h)
          ∙ ap (λ p. p ∷ []) (append_snoc part c s))
]

key_character-apart :
    (c : ℕ)
    → is_key_character c ≡ true
    → ((b'/' == c) ≡ false) × ((c == b'/') ≡ false) × ((c == b'.') ≡ false)
key_character-apart c h = ground arith

-- The name of the file is one part, which leads into the directory.
key-part :
    (key : Text)
    → all is_key_character key ≡ true
    → is_empty key ≡ false
    → (directories_of (key ++ codes ".json") ≡ (key ++ codes ".json") ∷ [])
      × IsPlain (key ++ codes ".json")
unfolding starts_with eq_text
key-part [] h given = ground arith
key-part (c ∷ key) h given = elim (Bool-cases (is_key_character c)) [
  | inr e ↦ cc (rw (all, e) at h)
  | inl e ↦
      let (root, slash, dot) = key_character-apart c e in
      let whole = split_slash-none [] (c ∷ key ++ codes ".json") (json-no_slash (c ∷ key) h) in
      (rw (root, whole, dot) refl, (rw slash refl, rw dot refl))
]

-- The file lies in the directories of its path below the root, each of which is one name.
abbrev pub IsBelow : List Text → Text → CachePath → Type 0
IsBelow root cache_key path =
    (location root path ≡ root ++ (path.directories ++ (cache_key ++ codes ".json") ∷ []))
    × All IsPart path.directories

-- Wherever the cache's directory is: a path that is returned for a namespace and a key leads from the
-- cache's directory through directories, each of which is one name, to the file named after the key.
-- It never leads upwards or to the root of the file system, so the file lies below the directory.
pub path_for-IsBelow :
    (root : List Text) (namespace cache_key : Text) (path : CachePath)
    → path_for namespace cache_key ≡ some path
    → IsBelow root cache_key path
unfolding path_for
path_for-IsBelow root namespace cache_key path h =
    let (relative, h1) =
      guard_some
        (starts_with (codes "/") namespace || member (codes "..") (directories_of namespace)) h in
    let (key, h2) = guard_some (is_empty cache_key || not (all is_key_character cache_key)) h1 in
    let (below, inside) = or-false (starts_with (codes "/") namespace) relative in
    let (given, unfit) = or-false (is_empty cache_key) key in
    let (name, plain) =
      key-part cache_key (not-false (all is_key_character cache_key) unfit) given in
    let parts : All IsPart (directories_of namespace) =
      rw below (keep-IsPart (split_slash [] namespace) (split_slash-parts [] namespace refl)) in
    subst (IsBelow root cache_key) (some_inj h2) (
      ap (λ last. walk root (directories_of namespace ++ last)) name
          ∙ walk-plain root (directories_of namespace ++ (cache_key ++ codes ".json") ∷ []) (
              All-snoc (directories_of namespace) (cache_key ++ codes ".json")
                (parts-IsPlain (directories_of namespace) parts inside) plain),
      parts,
    )
