-- ===== src/Runtime/Fixed.antt =====
-- A runtime to run the model with: floats are counted in ten-thousandths, and the Unicode tables are
-- those of ASCII.
use native.Mathlib.Nat.{
  le_of_mul-le-mul_left, div-le_of_le-mul, le-div_iff_mul-le, div-mul-le_self, mul-le-mul_left,
  mul-le-mul_right,
}
use amazon_similar_search.Prelude.{
  suc, ap, ℕ, ◌+◌, ◌-◌, ◌*◌, ◌/◌, ◌%◌, ℤ, pos, negsuc, true, false, ◌≡◌, refl, ◌≤◌, ◌<◌, arith,
  ◌&&◌, Option, none, some, Text, [], ◌∷◌, codes, starts_with, ltb, leb, ◌==◌, if◌then◌else◌,
}
use amazon_similar_search.Runtime.Laws.{HasSigns, HasOrder, HasIntegers, HasSubtraction}
use amazon_similar_search.Runtime.{Url, Platform, Python, concat_map}

abbrev lower_ascii : ℕ → Text
lower_ascii c = if leb 65 c && leb c 90 then (c + 32) ∷ [] else c ∷ []

abbrev upper_ascii : ℕ → Text
upper_ascii c = if leb 97 c && leb c 122 then (c - 32) ∷ [] else c ∷ []

abbrev until_slash : Text → Text
until_slash [] = []
until_slash (c ∷ s) = let rest = until_slash s in if c == b'/' then [] else c ∷ rest

abbrev skip : ℕ → Text → Text
skip ℕ.zero s = s
skip (ℕ.suc n) [] = []
skip (ℕ.suc n) (c ∷ s) = skip n s

abbrev url_at : Text → Url
url_at host = record {
  scheme = codes "https";
  hostname = some host;
  port = none;
  username = none;
  password = none;
}

-- URLs of the form https://host/path alone.
abbrev parse_url : Text → Option Url
parse_url s =
    if starts_with (codes "https://") s then some (url_at (until_slash (skip 8 s))) else none

instance abbrev pub ascii : Platform
ascii = record {
  fold = lower_ascii;
  is_decimal = λ c. leb 48 c && leb c 57;
  upper_char = upper_ascii;
  lower = concat_map lower_ascii;
  urlparse = parse_url;
}

abbrev of_int_fixed : ℤ → ℕ
of_int_fixed (pos n) = n * 10_000
of_int_fixed (negsuc n) = 0

instance abbrev pub fixed_point : Python ℕ
fixed_point = record {
  of_int = of_int_fixed;
  ratio = λ n d. n * 10_000 / d;
  add = λ a b. a + b;
  sub = λ a b. a - b;
  mul = λ a b. a * b / 10_000;
  div = λ a b. a * 10_000 / b;
  lt = ltb;
  is_zero = λ a. a == 0;
  equal = λ a b. a == b;
  is_finite = λ a. true;
  is_integer = λ a. a % 10_000 == 0;
  trunc = λ a. pos (a / 10_000);
  round4 = λ a. a;
  log10 = λ a. 0;
  parse_float = λ s. none;
  repr = λ v. [];
}

not_negative : (n : ℕ) → ltb n 0 ≡ false
not_negative n = ground arith

pub fixed_point-HasSigns : HasSigns fixed_point
fixed_point-HasSigns = record {
  of_int_sign = λ n. not_negative _;
  mul_sign = λ x y hx hy. not_negative _;
  trunc_sign = λ x h. (x / 10_000, refl);
}

lt_irreflexive : (x : ℕ) → ltb x x ≡ false
lt_irreflexive x = ground arith

lt_asymmetric : (x y : ℕ) → ltb x y ≡ true → ltb y x ≡ false
lt_asymmetric x y h = ground arith

le→not_ltb : (x y : ℕ) → x ≤ y → ltb y x ≡ false
le→not_ltb x y h = ground arith

not_ltb→le : (x y : ℕ) → ltb y x ≡ false → x ≤ y
not_ltb→le x y h = ground arith

quotient_le : (a b : ℕ) → a ≤ b → a * 10_000 / b ≤ 10_000
quotient_le a b h = div-le_of_le-mul b (omega arith)

scaled : (a b c d q : ℕ) → q * b ≤ a * 10_000 → a * d ≤ c * b → b * (q * d) ≤ b * (c * 10_000)
scaled a b c d q hq h = omega (arith, mul-le-mul_right d hq, mul-le-mul_left 10_000 h)

quotient_monotone : (a b c d : ℕ) → 0 < b → 0 < d → a * d ≤ c * b → a * 10_000 / b ≤ c * 10_000 / d
quotient_monotone a b c d hb hd h =
    (le-div_iff_mul-le hd).1 (
      le_of_mul-le-mul_left (scaled a b c d (a * 10_000 / b) (div-mul-le_self (a * 10_000) b) h) hb)

pub fixed_point-HasOrder : HasOrder fixed_point
fixed_point-HasOrder = record {
  irreflexive = lt_irreflexive;
  asymmetric = lt_asymmetric;
  zero_one = refl;
  ratio_sign = λ a b. not_negative _;
  ratio_one = λ a b h. le→not_ltb _ _ (quotient_le a b h);
  ratio_monotone = λ a b c d hb hd h. le→not_ltb _ _ (quotient_monotone a b c d hb hd h);
  add_sign = λ x y hx hy. not_negative _;
  mul_sign = λ x y hx hy. not_negative _;
  add_one = λ x h. le→not_ltb _ _ (omega arith);
  log10_sign = λ x h. refl;
  round4_monotone = λ x y h. h;
  round4_int = λ n. refl;
}

positive_part : (x : ℕ) → x % 10_000 ≡ 0 → 0 < x → x / 10_000 ≡ suc (x / 10_000 - 1)
positive_part x h p = omega arith

pub fixed_point-HasIntegers : HasIntegers fixed_point
fixed_point-HasIntegers = record {
  trunc_positive = λ x h p.
      let q = x / 10_000 in (q - 1, ap pos (positive_part x (ground arith) (ground arith)));
}

grows : (x n : ℕ) → x ≤ x * (suc n * 10_000) / 10_000
grows x n = (le-div_iff_mul-le (omega arith)).1 (mul-le-mul_left x (omega arith))

half_bound : (b : ℕ) → 1 < b → 10_000 / b ≤ 5_000
half_bound b h = div-le_of_le-mul b (omega arith)

half_below : (q : ℕ) → q ≤ 5_000 → ltb q 10_000 ≡ true
half_below q h = ground arith

below_one : (b : ℕ) → 1 < b → ltb (10_000 / b) 10_000 ≡ true
below_one b h = half_below (10_000 / b) (half_bound b h)

pub fixed_point-HasSubtraction : HasSubtraction fixed_point
fixed_point-HasSubtraction = record {
  transitive = λ x y z h k. ground arith;
  zero_below_one = refl;
  ratio_below_one = below_one;
  mul_grows = λ x n h. le→not_ltb _ _ (grows x n);
  sub_zero = λ x. omega arith;
  sub_antitone = λ x p q h hp hq. ground arith;
  sub_below = λ x p q c h hp hq k. ground arith;
  sub_above = λ x p q c h hp hq k. ground arith;
}
