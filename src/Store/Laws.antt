-- ===== src/Store/Laws.antt =====
-- What a lookup finds after an update: lemmas on the list functions of Sql.
use be_aether_node.Base.{
  Bool, true, false, List, [], ◌∷◌, ◌≡◌, refl, map, arith, Bool-cases, inl, inr, length, suc, ◌⊎◌,
}
use be_aether_node.Store.Sql.{select, update, delete, append_row, exists}

pub List-cases {ℓ} :
    {A : Type ℓ} (xs : List A) → (xs ≡ []) ⊎ ((x : A) × (ys : List A) × (xs ≡ x ∷ ys))
List-cases [] = inl refl
List-cases (x ∷ ys) = inr (x, ys, refl)

module _ {A : Type 0} (q : A → Bool) where
  pub select-head : (xs : List A) (y : A) (ys : List A) → select q xs ≡ y ∷ ys → q y ≡ true
  unfolding select
  select-head [] y ys h = cc h
  select-head (x ∷ xs) y ys h = ground (arith, h, select-head xs y ys)

  -- Rows that stay selected are found changed.
  pub select-update :
      (f : A → A) (xs : List A)
      → ((x : A) → q x ≡ true → q (f x) ≡ true)
      → select q (update q f xs) ≡ map f (select q xs)
  unfolding select update
  select-update f [] h = refl
  select-update f (x ∷ xs) h = elim (Bool-cases (q x)) [
    | inl e ↦ rw (e, h x e, select-update f xs h) refl
    | inr e ↦ rw (e, e, select-update f xs h) refl
  ]

  -- Rows that are selected no longer are not found.
  pub select-update_none :
      (f : A → A) (xs : List A) → ((x : A) → q (f x) ≡ false) → select q (update q f xs) ≡ []
  unfolding select update
  select-update_none f [] h = refl
  select-update_none f (x ∷ xs) h = elim (Bool-cases (q x)) [
    | inl e ↦ rw (e, h x, select-update_none f xs h) refl
    | inr e ↦ rw (e, e, select-update_none f xs h) refl
  ]

  -- Rows of another selection, which the change keeps out, are not touched.
  pub select-update_other :
      (p : A → Bool) (f : A → A) (xs : List A)
      → ((x : A) → p x ≡ true → q x ≡ false)
      → ((x : A) → p (f x) ≡ true → p x ≡ true)
      → select p (update q f xs) ≡ select p xs
  unfolding select update
  select-update_other p f [] _ _ = refl
  select-update_other p f (x ∷ xs) apart back =
      ground (arith, apart x, back x, select-update_other p f xs apart back)

  pub select-delete_none : (xs : List A) → select q (delete q xs) ≡ []
  unfolding select delete
  select-delete_none [] = refl
  select-delete_none (x ∷ xs) = elim (Bool-cases (q x)) [
    | inl e ↦ rw e (select-delete_none xs)
    | inr e ↦ rw (e, e) (select-delete_none xs)
  ]

  pub select-append_none :
      (x : A) (xs : List A) → q x ≡ false → select q (append_row x xs) ≡ select q xs
  unfolding select
  select-append_none x [] h = rw h refl
  select-append_none x (y ∷ ys) h = ground (arith, h, select-append_none x ys h)

  pub length-select-append :
      (x : A) (xs : List A)
      → q x ≡ true
      → length (select q (append_row x xs)) ≡ suc (length (select q xs))
  unfolding select
  length-select-append x [] h = rw h refl
  length-select-append x (y ∷ ys) h = ground (arith, h, length-select-append x ys h)

module _ {A : Type 0} (p q : A → Bool) where
  pub exists_mono :
      (xs : List A) → ((x : A) → p x ≡ true → q x ≡ true) → exists p xs ≡ true → exists q xs ≡ true
  unfolding exists
  exists_mono [] h e = e
  exists_mono (x ∷ xs) h e = ground (arith, h x, exists_mono xs h)
