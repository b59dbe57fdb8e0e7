-- ===== src/Runtime/Laws.antt =====
-- The laws of IEEE floating point that theorems assume of `Python N`: none speaks of the program.
use amazon_similar_search.Prelude.{ℕ, suc, ℤ, pos, ◌≤◌, ◌<◌, ◌*◌, ◌≡◌, true, false}
use amazon_similar_search.Runtime.{Python}

abbrev pub IsNonNegative : ℤ → Type 0
IsNonNegative z = (n : ℕ) × (z ≡ pos n)

-- Signs: products of floats that are not below zero are not below zero, and `int` keeps the sign.
pub record HasSigns {N : Type 0} (P : Python N) : Type 0 where
  pub of_int_sign : (n : ℕ) → P.lt (P.of_int (pos n)) (P.of_int (pos 0)) ≡ false
  pub mul_sign :
      (x y : N)
      → P.lt x (P.of_int (pos 0)) ≡ false
      → P.lt y (P.of_int (pos 0)) ≡ false
      → P.lt (P.mul x y) (P.of_int (pos 0)) ≡ false
  pub trunc_sign : (x : N) → P.lt x (P.of_int (pos 0)) ≡ false → IsNonNegative (P.trunc x)

-- `a` is not greater than `b`.
abbrev pub AtMost : {N : Type 0} (P : Python N) → N → N → Type 0
AtMost P a b = P.lt b a ≡ false

-- 0 ≤ x ≤ 1
abbrev pub InUnit : {N : Type 0} (P : Python N) → N → Type 0
InUnit P x = AtMost P (P.of_int (pos 0)) x × AtMost P x (P.of_int (pos 1))

-- The order of floats, and how sums, quotients, logarithms and rounding sit in it.
pub record HasOrder {N : Type 0} (P : Python N) : Type 0 where
  pub irreflexive : (x : N) → P.lt x x ≡ false
  pub asymmetric : (x y : N) → P.lt x y ≡ true → P.lt y x ≡ false
  pub zero_one : P.lt (P.of_int (pos 1)) (P.of_int (pos 0)) ≡ false
  pub ratio_sign : (a b : ℕ) → AtMost P (P.of_int (pos 0)) (P.ratio a b)
  pub ratio_one : (a b : ℕ) → a ≤ b → AtMost P (P.ratio a b) (P.of_int (pos 1))
  pub ratio_monotone :
      (a b c d : ℕ) → 0 < b → 0 < d → a * d ≤ c * b → AtMost P (P.ratio a b) (P.ratio c d)
  pub add_sign :
      (x y : N)
      → AtMost P (P.of_int (pos 0)) x
      → AtMost P (P.of_int (pos 0)) y
      → AtMost P (P.of_int (pos 0)) (P.add x y)
  pub mul_sign :
      (x y : N)
      → AtMost P (P.of_int (pos 0)) x
      → AtMost P (P.of_int (pos 0)) y
      → AtMost P (P.of_int (pos 0)) (P.mul x y)
  pub add_one :
      (x : N)
      → AtMost P (P.of_int (pos 0)) x
      → AtMost P (P.of_int (pos 1)) (P.add x (P.of_int (pos 1)))
  pub log10_sign : (x : N) → AtMost P (P.of_int (pos 1)) x → AtMost P (P.of_int (pos 0)) (P.log10 x)
  pub round4_monotone : (x y : N) → AtMost P x y → AtMost P (P.round4 x) (P.round4 y)
  pub round4_int : (n : ℕ) → P.round4 (P.of_int (pos n)) ≡ P.of_int (pos n)

-- `int` of a positive integral float is positive.
pub record HasIntegers {N : Type 0} (P : Python N) : Type 0 where
  pub trunc_positive :
      (x : N)
      → P.is_integer x ≡ true
      → P.lt (P.of_int (pos 0)) x ≡ true
      → (n : ℕ) × (P.trunc x ≡ pos (suc n))

-- How numbers between 0 and 1 are subtracted: more of them leaves no more, whatever they are taken from.
-- That `q` is below 1 says also that it is a number.
pub record HasSubtraction {N : Type 0} (P : Python N) : Type 0 where
  pub transitive : (x y z : N) → P.lt x y ≡ true → P.lt y z ≡ true → P.lt x z ≡ true
  pub zero_below_one : P.lt (P.of_int (pos 0)) (P.of_int (pos 1)) ≡ true
  pub ratio_below_one : (b : ℕ) → 1 < b → P.lt (P.ratio 1 b) (P.of_int (pos 1)) ≡ true
  pub mul_grows :
      (x : N) (n : ℕ)
      → AtMost P (P.of_int (pos 0)) x
      → AtMost P x (P.mul x (P.of_int (pos (suc n))))
  pub sub_zero : (x : N) → P.sub x (P.of_int (pos 0)) ≡ x
  pub sub_antitone :
      (x p q : N)
      → AtMost P p q
      → P.lt p (P.of_int (pos 1)) ≡ true
      → P.lt q (P.of_int (pos 1)) ≡ true
      → AtMost P (P.sub x q) (P.sub x p)
  pub sub_below :
      (x p q c : N)
      → AtMost P p q
      → P.lt p (P.of_int (pos 1)) ≡ true
      → P.lt q (P.of_int (pos 1)) ≡ true
      → P.lt (P.sub x p) c ≡ true
      → P.lt (P.sub x q) c ≡ true
  pub sub_above :
      (x p q c : N)
      → AtMost P p q
      → P.lt p (P.of_int (pos 1)) ≡ true
      → P.lt q (P.of_int (pos 1)) ≡ true
      → P.lt c (P.sub x q) ≡ true
      → P.lt c (P.sub x p) ≡ true
