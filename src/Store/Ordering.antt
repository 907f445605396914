-- ===== src/Store/Ordering.antt =====
-- ORDER BY of rows whose keys differ: whatever order the rows come in, the result is the same.
use be_aether_node.Base.{
  All, ℕ, ◌≢◌, ◌≡◌, refl, ap, ◌∙◌, List, [], ◌∷◌, arith, leb, Bool-cases, inl, inr,
}
use be_aether_node.Store.Sql.{order_desc, insert_desc}

module _ {A : Type 0} where
  -- The rows have different keys.
  abbrev pub Distinct : (A → ℕ) → List A → Type 0
  Distinct key [] = Unit
  Distinct key (x ∷ xs) = All (λ y. key x ≢ key y) xs × Distinct key xs

  insert_desc_comm :
      (key : A → ℕ) (x y : A) (zs : List A)
      → key x ≢ key y
      → insert_desc key y (insert_desc key x zs) ≡ insert_desc key x (insert_desc key y zs)
  unfolding insert_desc
  insert_desc_comm key x y [] n = ground arith
  insert_desc_comm key x y (z ∷ zs) n = ground (arith, insert_desc_comm key x y zs n)

  All-insert_desc :
      (P : A → Type 0) (rank : A → ℕ) (x : A) (ys : List A)
      → P x
      → All P ys
      → All P (insert_desc rank x ys)
  unfolding insert_desc
  All-insert_desc P rank x [] p ps = (p, tt)
  All-insert_desc P rank x (y ∷ ys) p (q, ps) = elim (Bool-cases (leb (rank y) (rank x))) [
    | inl e ↦ rw e (p, (q, ps))
    | inr e ↦ rw e (q, All-insert_desc P rank x ys p ps)
  ]

  All-order_desc :
      (P : A → Type 0) (rank : A → ℕ) (xs : List A) → All P xs → All P (order_desc rank xs)
  unfolding order_desc
  All-order_desc P rank [] ps = tt
  All-order_desc P rank (x ∷ xs) (p, ps) =
      All-insert_desc P rank x (order_desc rank xs) p (All-order_desc P rank xs ps)

  order_desc-insert_desc :
      (key rank : A → ℕ) (x : A) (ys : List A)
      → All (λ y. key x ≢ key y) ys
      → order_desc key (insert_desc rank x ys) ≡ insert_desc key x (order_desc key ys)
  unfolding order_desc insert_desc
  order_desc-insert_desc key rank x [] ns = refl
  order_desc-insert_desc key rank x (y ∷ ys) (n, ns) = elim (Bool-cases (leb (rank y) (rank x))) [
    | inl e ↦ rw e refl
    | inr e ↦ rw e (
        ap (insert_desc key y) (order_desc-insert_desc key rank x ys ns)
        ∙ insert_desc_comm key x y (order_desc key ys) n)
  ]

  pub order_desc-order_desc :
      (key rank : A → ℕ) (xs : List A)
      → Distinct key xs
      → order_desc key (order_desc rank xs) ≡ order_desc key xs
  unfolding order_desc
  order_desc-order_desc key rank [] d = refl
  order_desc-order_desc key rank (x ∷ xs) (ns, d) =
      order_desc-insert_desc key rank x (order_desc rank xs)
        (All-order_desc (λ y. key x ≢ key y) rank xs ns)
      ∙ ap (insert_desc key x) (order_desc-order_desc key rank xs d)
