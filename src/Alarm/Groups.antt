-- ===== src/Alarm/Groups.antt =====
-- What the loop of GetStats makes of the groups, and what ORDER BY does to them.
use be_aether_node.Base.{
  ℕ, ◌+◌, String, true, false, Option, none, some, [], ◌∷◌, ◌≡◌, refl, sym, ◌∙◌, arith, inl, inr,
  Bool-cases, leb, Dict, lookup, IsMap, str_eq, eq_iff,
}
use be_aether_node.Store.Sql.{order_desc, insert_desc}
use be_aether_node.Alarm.{Stats, add_group, add_groups}

abbrev pub total_of : Dict ℕ → ℕ
total_of [] = 0
total_of (group ∷ groups) = group.1 + total_of groups

abbrev pub or_old : ℕ → Option ℕ → ℕ
or_old old none = old
or_old old (some n) = n

-- What a loop over groups of different statuses leaves.
pub add_groups-total : (s : Stats) (g : Dict ℕ) → (add_groups s g).total ≡ s.total + total_of g
unfolding add_groups add_group
add_groups-total s [] = omega arith
add_groups-total s ((status, n) ∷ g) = ground (arith, add_groups-total (add_group s (status, n)) g)

-- A status that is one text is no other.
apart : (s t u : String) → str_eq s t ≡ true → str_eq t u ≡ false → str_eq s u ≡ false
apart s t u h e = rw ((eq_iff s t).0 h) e

gone : (s t : String) (g : Dict ℕ) → str_eq s t ≡ true → lookup s g ≡ none → lookup t g ≡ none
gone s t g h fresh = rw (sym ((eq_iff s t).0 h)) fresh

pub add_groups-active :
    (s : Stats) (g : Dict ℕ)
    → IsMap g
    → (add_groups s g).active ≡ or_old s.active (lookup "active" g)
unfolding add_groups add_group lookup
add_groups-active s [] m = refl
add_groups-active s ((status, n) ∷ g) (fresh, m) =
    add_groups-active (add_group s (status, n)) g m ∙ elim (Bool-cases (str_eq status "active")) [
      | inl e ↦ rw (e, gone status "active" g e fresh) refl
      | inr e ↦ ground (arith, e)
    ]

pub add_groups-acknowledged :
    (s : Stats) (g : Dict ℕ)
    → IsMap g
    → (add_groups s g).acknowledged ≡ or_old s.acknowledged (lookup "acknowledged" g)
unfolding add_groups add_group lookup
add_groups-acknowledged s [] m = refl
add_groups-acknowledged s ((status, n) ∷ g) (fresh, m) =
    add_groups-acknowledged (add_group s (status, n)) g m
    ∙ elim (Bool-cases (str_eq status "acknowledged")) [
      | inl e ↦
          rw (e, apart status "acknowledged" "active" e refl, gone status "acknowledged" g e fresh)
            refl
      | inr e ↦ ground (arith, e)
    ]

pub add_groups-resolved :
    (s : Stats) (g : Dict ℕ)
    → IsMap g
    → (add_groups s g).resolved ≡ or_old s.resolved (lookup "resolved" g)
unfolding add_groups add_group lookup
add_groups-resolved s [] m = refl
add_groups-resolved s ((status, n) ∷ g) (fresh, m) =
    add_groups-resolved (add_group s (status, n)) g m
    ∙ elim (Bool-cases (str_eq status "resolved")) [
      | inl e ↦
          rw
            (
              e,
              apart status "resolved" "active" e refl,
              apart status "resolved" "acknowledged" e refl,
              gone status "resolved" g e fresh,
            )
            refl
      | inr e ↦ ground (arith, e)
    ]

lookup-cons :
    (k : String) (x : String × ℕ) (g h : Dict ℕ)
    → lookup k g ≡ lookup k h
    → lookup k (x ∷ g) ≡ lookup k (x ∷ h)
unfolding lookup
lookup-cons k x g h e = rw e refl

module _ (rank : String × ℕ → ℕ) where
  lookup-insert_desc :
      (k : String) (x : String × ℕ) (g : Dict ℕ)
      → IsMap (x ∷ g)
      → lookup k (insert_desc rank x g) ≡ lookup k (x ∷ g)
  unfolding lookup insert_desc
  lookup-insert_desc k x [] m = refl
  lookup-insert_desc k x (y ∷ g) (fresh, (n, m)) =
      ground (arith, lookup-insert_desc k x g, eq_iff x.0 k, eq_iff y.0 k, eq_iff y.0 x.0, fresh)

  total_of-insert_desc :
      (x : String × ℕ) (g : Dict ℕ) → total_of (insert_desc rank x g) ≡ x.1 + total_of g
  unfolding insert_desc
  total_of-insert_desc x [] = refl
  total_of-insert_desc x (y ∷ g) = ground (arith, total_of-insert_desc x g)

  insert_desc-IsMap : (x : String × ℕ) (g : Dict ℕ) → IsMap (x ∷ g) → IsMap (insert_desc rank x g)
  unfolding lookup insert_desc
  insert_desc-IsMap x [] m = m
  insert_desc-IsMap x (y ∷ g) (fresh, (n, m)) = elim (Bool-cases (leb (rank y) (rank x))) [
    | inl e ↦ rw e (fresh, (n, m))
    | inr e ↦
        let rest : lookup x.0 g ≡ none = ground (arith, fresh) in
        rw e (
          ground (
            arith,
            lookup-insert_desc y.0 x g (rest, m),
            eq_iff x.0 y.0,
            eq_iff y.0 x.0,
            fresh,
            n,
          ),
          insert_desc-IsMap x g (rest, m),
        )
  ]

  pub order_desc-lookup :
      (g : Dict ℕ)
      → IsMap g
      → IsMap (order_desc rank g) × ((k : String) → lookup k (order_desc rank g) ≡ lookup k g)
  unfolding order_desc
  order_desc-lookup [] m = (tt, λ k. refl)
  order_desc-lookup (x ∷ g) (fresh, m) =
      let (ordered, same) = order_desc-lookup g m in
      let fresh' = same x.0 ∙ fresh in
      (
        insert_desc-IsMap x (order_desc rank g) (fresh', ordered),
        λ k.
            lookup-insert_desc k x (order_desc rank g) (fresh', ordered)
            ∙ lookup-cons k x (order_desc rank g) g (same k),
      )

  pub total_of-order_desc : (g : Dict ℕ) → total_of (order_desc rank g) ≡ total_of g
  unfolding order_desc
  total_of-order_desc [] = refl
  total_of-order_desc (x ∷ g) =
      omega (arith, total_of-insert_desc x (order_desc rank g), total_of-order_desc g)
