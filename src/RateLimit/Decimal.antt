-- ===== src/RateLimit/Decimal.antt =====
-- `itoa`, which writes the header values.
use be_aether_node.Base.{
  ℕ, zero, suc, ◌+◌, ◌-◌, ◌*◌, ◌/◌, ◌%◌, ◌≤◌, ◌<◌, ◌≡◌, refl, ap, ◌∙◌, Bool, true, false, List, [],
  ◌∷◌, arith, ltb, ◌==◌, if◌then◌else◌, Bool-cases, inl, inr, ◌⊎◌,
}
use be_aether_node.Base.Int.{ℤ, pos, negsuc, neg_part, half_word, ltb_ℤ, neg_int64}
use native.Mathlib.Nat.{le_refl}

-- A Go string, as its bytes.
abbrev pub Bytes : Type 0
Bytes = List ℕ

-- The loop `for i > 0`. The number itself is fuel enough.
pub itoa_loop : ℕ → ℕ → Bytes → Bytes
itoa_loop zero i result = result
itoa_loop (suc f) i result = elim (ltb 0 i) [
  | true ↦ itoa_loop f (i / 10) ((b'0' + i % 10) ∷ result)
  | false ↦ result
]

-- The digits of an int, none where it is not positive.
itoa_digits : ℤ → Bytes
itoa_digits (pos n) = itoa_loop n n []
itoa_digits (negsuc n) = []

abbrev is_zero : ℤ → Bool
is_zero (pos n) = n == 0
is_zero (negsuc n) = false

unfoldable pub itoa : ℤ → Bytes
unfolding itoa_digits
itoa i =
    if is_zero i
    then b'0' ∷ []
    else if ltb_ℤ i (pos 0)
    then b'-' ∷ itoa_digits (neg_int64 i)
    else itoa_digits i

-- The number that digits stand for, after those of `acc`.
unfoldable pub value : ℕ → Bytes → ℕ
value acc [] = acc
value acc (c ∷ cs) = value (acc * 10 + (c - b'0')) cs

-- The integer that a decimal stands for: digits after an optional minus sign.
abbrev negate : ℕ → ℤ
negate zero = pos 0
negate (suc n) = negsuc n

unfoldable pub parse_decimal : Bytes → ℤ
parse_decimal [] = pos 0
parse_decimal (c ∷ cs) = if c == b'-' then negate (value 0 cs) else pos (value 0 (c ∷ cs))

value-itoa_loop :
    (f i : ℕ) (result : Bytes) → i ≤ f → value 0 (itoa_loop f i result) ≡ value i result
unfolding value itoa_loop
value-itoa_loop zero i result h = ap (λ k. value k result) (omega arith)
value-itoa_loop (suc f) i result h = elim (Bool-cases (ltb 0 i)) [
  | inl more ↦
      rw (more, itoa_loop)
        (value-itoa_loop f (i / 10) ((b'0' + i % 10) ∷ result) (ground arith)
          ∙ ap (λ k. value k result) (omega arith))
  | inr done ↦ rw (done, itoa_loop) (ap (λ k. value k result) (ground arith))
]

-- Every byte that `itoa` writes for a positive number is a digit.
abbrev IsDigit : ℕ → Type 0
IsDigit c = (b'0' ≤ c) × (c ≤ b'9')

abbrev StartsWithDigit : Bytes → Type 0
StartsWithDigit [] = ⊥
StartsWithDigit (c ∷ cs) = IsDigit c

itoa_loop_digit :
    (f i : ℕ) (result : Bytes)
    → i ≤ f
    → (0 < i) ⊎ StartsWithDigit result
    → StartsWithDigit (itoa_loop f i result)
unfolding itoa_loop
itoa_loop_digit zero i result h s = ground arith
itoa_loop_digit (suc f) i result h s = elim (Bool-cases (ltb 0 i)) [
  | inl more ↦
      rw (more, itoa_loop)
        (itoa_loop_digit f (i / 10) ((b'0' + i % 10) ∷ result) (ground arith)
          (inr (omega arith, omega arith)))
  | inr done ↦ rw (done, itoa_loop) (ground arith)
]

parse_of_digit : (cs : Bytes) → StartsWithDigit cs → parse_decimal cs ≡ pos (value 0 cs)
unfolding parse_decimal
parse_of_digit [] d = absurd d
parse_of_digit (c ∷ cs) d = ground arith

value-nil : (n : ℕ) → value n [] ≡ n
unfolding value
value-nil n = refl

neg_int64_small : (n : ℕ) → suc n < half_word → neg_int64 (negsuc n) ≡ pos (suc n)
unfolding neg_int64
neg_int64_small n h = ground arith

parse_digits : (n : ℕ) → 0 < n → parse_decimal (itoa_loop n n []) ≡ pos n
parse_digits n p =
    parse_of_digit (itoa_loop n n []) (itoa_loop_digit n n [] (le_refl n) (inl p))
    ∙ ap pos (value-itoa_loop n n [] (le_refl n) ∙ value-nil n)

itoa_pos : (n : ℕ) → itoa (pos (suc n)) ≡ itoa_loop (suc n) (suc n) []
unfolding itoa
itoa_pos n = ground arith

itoa_neg : (n : ℕ) → suc n < half_word → itoa (negsuc n) ≡ b'-' ∷ itoa_loop (suc n) (suc n) []
unfolding itoa
itoa_neg n h = ground (arith, neg_int64_small n h)

parse_minus : (cs : Bytes) → parse_decimal (b'-' ∷ cs) ≡ negate (value 0 cs)
unfolding parse_decimal
parse_minus cs = refl

-- Reading back what `itoa` writes gives the number, for every int64 but the least, -2 ^ 63.
pub parse-itoa : (i : ℤ) → neg_part i < half_word → parse_decimal (itoa i) ≡ i
parse-itoa (pos zero) h = unfold itoa parse_decimal value in refl
parse-itoa (pos (suc n)) h = rw (itoa_pos n) (parse_digits (suc n) (omega arith))
parse-itoa (negsuc n) h = rw (itoa_neg n h) (
    parse_minus (itoa_loop (suc n) (suc n) [])
    ∙ ap negate (value-itoa_loop (suc n) (suc n) [] (le_refl (suc n)) ∙ value-nil (suc n)))

itoa_least : itoa (negsuc (half_word - 1)) ≡ b'-' ∷ []
unfolding itoa neg_int64
itoa_least = refl

itoa_60 : itoa (pos 60) ≡ b'6' ∷ b'0' ∷ []
unfolding itoa itoa_loop
itoa_60 = refl
