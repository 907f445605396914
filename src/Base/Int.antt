-- ===== src/Base/Int.antt =====
-- Signed integers over the native numbers, and their reduction to 64 bits.
use be_aether_node.Base.{
  ℕ, suc, ◌+◌, ◌-◌, ◌%◌, ◌<◌, ◌≡◌, refl, Bool, arith, ltb, leb, if◌then◌else◌,
}

-- `negsuc n` is -(n + 1).
pub data ℤ : Type 0 where
  pos : ℕ → ℤ
  negsuc : ℕ → ℤ

abbrev pub pos_part : ℤ → ℕ
pos_part (pos n) = n
pos_part (negsuc n) = 0

abbrev pub neg_part : ℤ → ℕ
neg_part (pos n) = 0
neg_part (negsuc n) = suc n

-- a - b, as an integer.
abbrev pub sub_ℕ : ℕ → ℕ → ℤ
sub_ℕ a b = if leb b a then pos (a - b) else negsuc (b - a - 1)

infixl 65 ◌+ℤ◌ ◌-ℤ◌
unfoldable pub ◌+ℤ◌ : ℤ → ℤ → ℤ
a +ℤ b = sub_ℕ (pos_part a + pos_part b) (neg_part a + neg_part b)

unfoldable pub ◌-ℤ◌ : ℤ → ℤ → ℤ
a -ℤ b = sub_ℕ (pos_part a + neg_part b) (neg_part a + pos_part b)

abbrev pub ltb_ℤ : ℤ → ℤ → Bool
ltb_ℤ a b = ltb (pos_part a + neg_part b) (pos_part b + neg_part a)

-- 2 ^ 63 and 2 ^ 64.
abbrev pub half_word : ℕ
half_word = 9223372036854775808

abbrev pub word : ℕ
word = 18446744073709551616

-- The int64 that a bit pattern stands for.
abbrev pub of_word : ℕ → ℤ
of_word m = if ltb m half_word then pos m else negsuc (word - m - 1)

-- What is left of an integer in 64 bits.
unfoldable pub to_int64 : ℤ → ℤ
to_int64 (pos n) = of_word (n % word)
to_int64 (negsuc n) = of_word (word - 1 - n % word)

pub to_int64_of_small : (n : ℕ) → n < half_word → to_int64 (pos n) ≡ pos n
unfolding to_int64
to_int64_of_small n h = ground arith

-- Negation of an int64, which leaves the least one as it is.
unfoldable pub neg_int64 : ℤ → ℤ
unfolding to_int64 ◌-ℤ◌
neg_int64 a = to_int64 (pos 0 -ℤ a)

neg_int64_least : neg_int64 (negsuc (half_word - 1)) ≡ negsuc (half_word - 1)
unfolding neg_int64
neg_int64_least = refl
