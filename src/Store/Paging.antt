-- ===== src/Store/Paging.antt =====
-- LIMIT, OFFSET and the number of pages.

use be_aether_node.Base.{
  ℕ, zero, suc, ◌+◌, ◌*◌, ◌≤◌, ◌<◌, Bool, true, List, [], ◌∷◌, ◌++◌, ◌≡◌, refl, arith, ap, ◌∙◌,
  length,
}
use be_aether_node.Base.Int.{pos}
use be_aether_node.Store.Sql.{
  select, take, drop, page, pages, order_desc, insert_desc, total_pages, to_int32,
}

zero_add : (m : ℕ) → 0 + m ≡ m
zero_add m = omega arith

zero_mul : (m : ℕ) → 0 * m ≡ 0
zero_mul m = omega arith

suc_add : (n m : ℕ) → suc n + m ≡ suc (n + m)
suc_add n m = omega arith

module _ {A : Type 0} where
  take-nil : (m : ℕ) → take {A = A} m [] ≡ []
  unfolding take
  take-nil zero = refl
  take-nil (suc m) = refl

  take-append_drop : (n m : ℕ) (xs : List A) → take n xs ++ take m (drop n xs) ≡ take (n + m) xs
  unfolding take drop
  take-append_drop zero m xs = rw (zero_add m) refl
  take-append_drop (suc n) m [] = rw (suc_add n m) (take-nil m)
  take-append_drop (suc n) m (x ∷ xs) = rw (suc_add n m) (ap (λ t. x ∷ t) (take-append_drop n m xs))

  pub take-all : (n : ℕ) (xs : List A) → length xs ≤ n → take n xs ≡ xs
  unfolding take
  take-all zero [] h = refl
  take-all zero (x ∷ xs) h = ground (arith, h)
  take-all (suc n) [] h = refl
  take-all (suc n) (x ∷ xs) h = ap (λ t. x ∷ t) (take-all n xs (omega (arith, h)))

  pages-take : (limit n : ℕ) (xs : List A) → pages limit n xs ≡ take (n * limit) xs
  unfolding pages page take
  pages-take limit zero xs = rw (zero_mul limit) refl
  pages-take limit (suc n) xs =
      rw (pages-take limit n xs, take-append_drop (n * limit) limit xs)
        (ap (λ k. take k xs) (grind arith))

  -- Pages that have room for all rows have every row once, in order.
  pub pages-all : (limit n : ℕ) (xs : List A) → length xs ≤ n * limit → pages limit n xs ≡ xs
  pages-all limit n xs h = pages-take limit n xs ∙ take-all (n * limit) xs h

  length-insert_desc :
      (key : A → ℕ) (x : A) (xs : List A) → length (insert_desc key x xs) ≡ suc (length xs)
  unfolding insert_desc
  length-insert_desc key x [] = refl
  length-insert_desc key x (y ∷ ys) = ground (arith, length-insert_desc key x ys)

  pub length-order_desc : (key : A → ℕ) (xs : List A) → length (order_desc key xs) ≡ length xs
  unfolding order_desc
  length-order_desc key [] = refl
  length-order_desc key (x ∷ xs) =
      omega (arith, length-insert_desc key x (order_desc key xs), length-order_desc key xs)

  pub length-select_mono :
      (p q : A → Bool) (xs : List A)
      → ((x : A) → p x ≡ true → q x ≡ true)
      → length (select p xs) ≤ length (select q xs)
  unfolding select
  length-select_mono p q [] h = omega arith
  length-select_mono p q (x ∷ xs) h = ground (arith, h x, length-select_mono p q xs h)

-- The number of pages is the least that has room for all rows.
pub total_pages-enough :
    (total limit : ℕ)
    → 0 < limit
    → (total ≤ total_pages total limit * limit) × (total_pages total limit * limit < total + limit)
unfolding total_pages
total_pages-enough total limit h = (grind arith, grind arith)

pub to_int32_of_small : (n : ℕ) → n < 2147483648 → to_int32 n ≡ pos n
unfolding to_int32
to_int32_of_small n h = ground arith
