-- ===== src/Telemetry/Sorting.antt =====
-- The sort by exchange that ends parseTelemetryHistory, for elements with a time.
use mathlib.Core.List.{Perm}
use mathlib.Core.List.Perm
use be_aether_node.Base.{
  ℕ, zero, suc, ◌≤◌, List, [], ◌∷◌, ◌≡◌, refl, ap, arith, inl, inr, Bool-cases, ltb, length, All,
  if◌then◌else◌,
}

module _ {A : Type 0} (time : A → ℕ) where
  -- The inner loop: the element at i is exchanged with each earlier one behind it.
  unfoldable pub pass : A → List A → A × List A
  pass x [] = (x, [])
  pass x (y ∷ ys) =
      let (m, rest) = pass (if ltb (time y) (time x) then y else x) ys in
      (m, (if ltb (time y) (time x) then x else y) ∷ rest)

  -- The outer loop, once for each element.
  unfoldable pub exchange_sort : ℕ → List A → List A
  unfolding pass
  exchange_sort zero xs = xs
  exchange_sort (suc n) [] = []
  exchange_sort (suc n) (x ∷ xs) = let (m, rest) = pass x xs in m ∷ exchange_sort n rest

  abbrev pub Ascending : List A → Type 0
  Ascending [] = Unit
  Ascending (x ∷ xs) = All (λ y. time x ≤ time y) xs × Ascending xs

  All-mono : (b c : ℕ) (xs : List A) → b ≤ c → All (λ y. c ≤ time y) xs → All (λ y. b ≤ time y) xs
  All-mono b c [] l _ = tt
  All-mono b c (x ∷ xs) l (h, hs) = (omega arith, All-mono b c xs l hs)

  pass-least : (x : A) (ys : List A) → time (pass x ys).0 ≤ time x
  unfolding pass
  pass-least x [] = omega arith
  pass-least x (y ∷ ys) = ground (arith, pass-least (if ltb (time y) (time x) then y else x) ys)

  pass-All : (x : A) (ys : List A) → All (λ y. time (pass x ys).0 ≤ time y) (pass x ys).1
  unfolding pass
  pass-All x [] = tt
  pass-All x (y ∷ ys) = (
    ground (arith, pass-least (if ltb (time y) (time x) then y else x) ys),
    pass-All (if ltb (time y) (time x) then y else x) ys,
  )

  length-pass : (x : A) (ys : List A) → length (pass x ys).1 ≡ length ys
  unfolding pass
  length-pass x [] = refl
  length-pass x (y ∷ ys) = ap suc (length-pass (if ltb (time y) (time x) then y else x) ys)

  module _ {κ} (P : A → Type κ) where
    pass-keeps : (x : A) (ys : List A) → P x → All P ys → P (pass x ys).0 × All P (pass x ys).1
    unfolding pass
    pass-keeps x [] p _ = (p, tt)
    pass-keeps x (y ∷ ys) p (q, qs) = elim (Bool-cases (ltb (time y) (time x))) [
      | inl e ↦ rw e (let (m, r) = pass-keeps y ys q qs in (m, (p, r)))
      | inr e ↦ rw e (let (m, r) = pass-keeps x ys p qs in (m, (q, r)))
    ]

    exchange_sort-All : (n : ℕ) (xs : List A) → All P xs → All P (exchange_sort n xs)
    unfolding exchange_sort
    exchange_sort-All zero xs h = h
    exchange_sort-All (suc n) [] h = tt
    exchange_sort-All (suc n) (x ∷ xs) (h, hs) =
        let (m, r) = pass-keeps x xs h hs in (m, exchange_sort-All n (pass x xs).1 r)

  -- With one round for each element, the result ascends.
  pub exchange_sort-Ascending :
      (n : ℕ) (xs : List A) → length xs ≤ n → Ascending (exchange_sort n xs)
  unfolding exchange_sort
  exchange_sort-Ascending zero [] h = tt
  exchange_sort-Ascending zero (x ∷ xs) h = ground (arith, h)
  exchange_sort-Ascending (suc n) [] h = tt
  exchange_sort-Ascending (suc n) (x ∷ xs) h = (
    exchange_sort-All (λ y. time (pass x xs).0 ≤ time y) n (pass x xs).1 (pass-All x xs),
    exchange_sort-Ascending n (pass x xs).1 (omega (arith, h, length-pass x xs)),
  )

  pass-Perm : (x : A) (ys : List A) → Perm ((pass x ys).0 ∷ (pass x ys).1) (x ∷ ys)
  unfolding pass
  pass-Perm x [] = Perm.rfl
  pass-Perm x (y ∷ ys) = elim (Bool-cases (ltb (time y) (time x))) [
    | inl e ↦ rw e (Perm.trans (Perm.swap _ _ _) (Perm.cons x (pass-Perm y ys)))
    | inr e ↦
        rw e (
          Perm.trans (Perm.swap _ _ _)
            (Perm.trans (Perm.cons y (pass-Perm x ys)) (Perm.swap _ _ _)))
  ]

  -- The result has the elements that there were.
  pub exchange_sort-Perm : (n : ℕ) (xs : List A) → Perm (exchange_sort n xs) xs
  unfolding exchange_sort
  exchange_sort-Perm zero xs = Perm.rfl
  exchange_sort-Perm (suc n) [] = Perm.rfl
  exchange_sort-Perm (suc n) (x ∷ xs) =
      Perm.trans (Perm.cons _ (exchange_sort-Perm n (pass x xs).1)) (pass-Perm x xs)
