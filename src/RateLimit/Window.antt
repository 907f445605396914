-- ===== src/RateLimit/Window.antt =====
-- Within 64 bits the store is a counter over windows: a bucket is full again once a window has
-- passed since it was last filled, and unchanged before.
use be_aether_node.Base.{
  ℕ, zero, suc, ◌+◌, ◌-◌, ◌*◌, ◌/◌, ◌≤◌, ◌<◌, ◌≡◌, refl, ap, ◌∙◌, inl, inr, true, false, arith, leb,
  if◌then◌else◌, max_int64, Bool-cases,
}
use native.Mathlib.Nat.{zero-mul}
use be_aether_node.Base.Int.{pos, to_int64, to_int64_of_small}
use be_aether_node.RateLimit.{
  TokenBucket, Reply, elapsed, add_tokens, refill, take_token, allow_bucket,
}

abbrev pub bucket : ℕ → ℕ → TokenBucket
bucket t last = record { tokens = pos t; last_check = last }

-- The product and the sum of tokens stay within 64 bits.
abbrev pub Fits : ℕ → ℕ → ℕ → Type 0
Fits limit window span = (span / window * limit + limit ≤ max_int64) × (span ≤ max_int64)

add_tokens_full :
    (limit now t last q : ℕ)
    → t ≤ limit
    → 0 < limit
    → limit ≤ q
    → q + limit ≤ max_int64
    → add_tokens limit now (pos q) (bucket t last) ≡ bucket limit now
unfolding add_tokens
add_tokens_full limit now t last q tl lp ql fit = ground arith

add_tokens_none :
    (limit now t last : ℕ) → add_tokens limit now (pos 0) (bucket t last) ≡ bucket t last
unfolding add_tokens
add_tokens_none limit now t last = refl

pub div_pos : (d w : ℕ) → 0 < w → w ≤ d → 0 < d / w
div_pos d w p h = grind arith

div_of_lt : (d w : ℕ) → d < w → d / w ≡ 0
div_of_lt d w h = grind arith

le_mul_of_pos : (q l : ℕ) → 0 < q → l ≤ q * l
le_mul_of_pos q l h = grind arith

elapsed_of_fits : (now last : ℕ) → now - last ≤ max_int64 → elapsed now last ≡ now - last
elapsed_of_fits now last h = omega arith

refill_eq :
    (limit window now t last : ℕ)
    → refill limit window now (bucket t last)
      ≡ add_tokens limit now (to_int64 (pos (elapsed now last / window * limit))) (bucket t last)
unfolding refill
refill_eq limit window now t last = refl

module _ (limit window now t last : ℕ) (tl : t ≤ limit) (lp : 0 < limit) (wp : 0 < window)
    (fit : Fits limit window (now - last)) where
  refill_steps :
      refill limit window now (bucket t last)
      ≡ add_tokens limit now (pos ((now - last) / window * limit)) (bucket t last)
  refill_steps =
      refill_eq limit window now t last
      ∙ (rw (elapsed_of_fits now last fit.1) (
          ap (λ a. add_tokens limit now a (bucket t last))
            (to_int64_of_small ((now - last) / window * limit) (omega (arith, fit.0)))))

  refill_late : window ≤ now - last → refill limit window now (bucket t last) ≡ bucket limit now
  refill_late h =
      refill_steps
      ∙ add_tokens_full limit now t last _ tl lp
          (le_mul_of_pos ((now - last) / window) limit (div_pos (now - last) window wp h)) fit.0

  refill_early : now - last < window → refill limit window now (bucket t last) ≡ bucket t last
  refill_early h =
      refill_steps
      ∙ rw (div_of_lt (now - last) window h, zero-mul) (add_tokens_none limit now t last)

abbrev pub counted : ℕ → ℕ → Reply × TokenBucket
counted zero last = ((false, pos 0), bucket 0 last)
counted (suc t) last = ((true, pos t), bucket t last)

take_token_lem : (t last : ℕ) → take_token (bucket t last) ≡ counted t last
unfolding take_token
take_token_lem zero last = refl
take_token_lem (suc t) last = ground arith

allow_bucket_eq :
    (limit window now : ℕ) (b : TokenBucket)
    → allow_bucket limit window now b ≡ take_token (refill limit window now b)
unfolding allow_bucket
allow_bucket_eq limit window now b = refl

-- With a positive limit and window, and no overflow, a request takes one of `limit` tokens of the
-- bucket if a window has passed since the bucket was last filled, which it then counts from anew,
-- and one of the tokens left over if not; with no token left it is refused.
pub allow_bucket_lem :
    (limit window now t last : ℕ)
    → t ≤ limit
    → 0 < limit
    → 0 < window
    → Fits limit window (now - last)
    → allow_bucket limit window now (bucket t last)
      ≡ (if leb window (now - last) then counted limit now else counted t last)
allow_bucket_lem limit window now t last tl lp wp fit =
    elim (Bool-cases (leb window (now - last))) [
      | inl late ↦ rw late (
          allow_bucket_eq limit window now (bucket t last)
          ∙ ap take_token (refill_late limit window now t last tl lp wp fit (ground arith))
          ∙ take_token_lem limit now)
      | inr early ↦ rw early (
          allow_bucket_eq limit window now (bucket t last)
          ∙ ap take_token (refill_early limit window now t last tl lp wp fit (ground arith))
          ∙ take_token_lem t last)
    ]
