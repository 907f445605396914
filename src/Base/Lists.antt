-- ===== src/Base/Lists.antt =====
-- Lists measured by native numbers, a predicate on all elements, and maps with text keys.
use Prim.Native.Nat.{ℕ, suc, ◌+◌}
use Prim.Native.String.{String}
use mathlib.Core.Path.{◌≡◌, refl, sym, ◌∙◌}
use mathlib.Core.Bool.{false}
use mathlib.Core.Option.{Option, none, some}
use mathlib.Core.List.{List, [], ◌∷◌, ◌++◌, map}
use native.Mathlib.Omega.{arith}
use text.Mathlib.Text.{◌==◌}
use text.Mathlib.TextEquality.{eq_iff}
use be_aether_node.Base.Tests.{if◌then◌else◌, Bool-cases, none≢some}
use mathlib.Core.Logic.{inl, inr}

module _ {ℓ} {A : Type ℓ} where
  abbrev pub length : List A → ℕ
  length [] = 0
  length (x ∷ xs) = suc (length xs)

  pub length-append : (xs ys : List A) → length (xs ++ ys) ≡ length xs + length ys
  length-append [] ys = omega arith
  length-append (x ∷ xs) ys = omega (arith, length-append xs ys)

module _ {ℓ κ} {A : Type ℓ} (P : A → Type κ) where
  abbrev pub All : List A → Type κ
  All [] = Unit
  All (x ∷ xs) = P x × All xs

  pub All-append : (xs ys : List A) → All xs → All ys → All (xs ++ ys)
  All-append [] ys _ k = k
  All-append (x ∷ xs) ys (p, h) k = (p, All-append xs ys h k)

==_sym : (s t : String) → (t == s) ≡ false → (s == t) ≡ false
==_sym s t h = ground (arith, eq_iff s t, eq_iff t s)

-- A Go map with string keys, as an association list without order.
abbrev pub Dict {ℓ} : Type ℓ → Type ℓ
Dict V = List (String × V)

-- `v, ok := m[key]`
unfoldable pub lookup {ℓ} : {V : Type ℓ} → String → Dict V → Option V
lookup key [] = none
lookup key (entry ∷ rest) = if entry.0 == key then some (entry.1) else lookup key rest

-- `m[key] = value`
unfoldable pub insert {ℓ} : {V : Type ℓ} → String → V → Dict V → Dict V
insert key value [] = (key, value) ∷ []
insert key value (entry ∷ rest) =
    if entry.0 == key then (key, value) ∷ rest else entry ∷ insert key value rest

pub lookup-insert {ℓ} :
    {V : Type ℓ} (key other : String) (value : V) (m : Dict V)
    → lookup other (insert key value m) ≡ (if key == other then some value else lookup other m)
unfolding lookup insert
lookup-insert key other value [] = refl
lookup-insert key other value ((first, _) ∷ rest) = ground (
  arith,
  lookup-insert key other value rest,
  eq_iff first other,
  eq_iff first key,
  eq_iff key other,
)

-- No key stands twice.
abbrev pub IsMap {ℓ} : {V : Type ℓ} → Dict V → Type ℓ
IsMap [] = Unit
IsMap ((k, _) ∷ m) = (lookup k m ≡ none) × IsMap m

pub insert-IsMap {ℓ} :
    {V : Type ℓ} (k : String) (v : V) (m : Dict V) → IsMap m → IsMap (insert k v m)
unfolding insert lookup
insert-IsMap k v [] h = (refl, tt)
insert-IsMap k v ((j, w) ∷ m) (n, h) = elim (Bool-cases (j == k)) [
  | inl same ↦ rw same (rw (← (eq_iff j k).0 same) n, h)
  | inr other ↦ rw other (lookup-insert k j v m ∙ rw (==_sym k j other) n, insert-IsMap k v m h)
]

pub lookup-insert_self {ℓ} :
    {V : Type ℓ} (k : String) (v : V) (m : Dict V) → lookup k (insert k v m) ≡ some v
lookup-insert_self k v m = lookup-insert k k v m ∙ rw ((eq_iff k k).1 refl)

module _ {V : Type 0} (P : V → Type 0) where
  -- What holds of everything that the map has holds of its values.
  pub All-values :
      (m : Dict V)
      → IsMap m
      → ((k : String) (v : V) → lookup k m ≡ some v → P v)
      → All P (map (λ p. p.1) m)
  unfolding lookup
  All-values [] _ h = tt
  All-values ((k, v) ∷ m) (alone, is_map) h = (
    h k v (rw ((eq_iff k k).1 refl) refl),
    All-values m is_map (λ j u found. h j u (elim (Bool-cases (k == j)) [
      | inl b ↦ absurd (none≢some (sym (rw ((eq_iff k j).0 b) at alone) ∙ found))
      | inr b ↦ rw b found
    ])),
  )

pub All-map :
    {V W : Type 0} (f : V → W) (P : W → Type 0) (xs : List V)
    → All (λ v. P (f v)) xs
    → All P (map f xs)
All-map f P [] _ = tt
All-map f P (x ∷ xs) (p, ps) = (p, All-map f P xs ps)
