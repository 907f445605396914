-- ===== src/RateLimit/Bound.antt =====
-- How many requests of one client a store lets through over a stretch of time, with the requests
-- of other clients in between.
use native.Mathlib.Nat.{mul-le-mul_right, le_refl}
use be_aether_node.Base.{
  ℕ, zero, suc, ◌+◌, ◌-◌, ◌*◌, ◌/◌, ◌≤◌, ◌<◌, ◌≡◌, refl, ap, ◌∙◌, inl, inr, String, true, false,
  Option, none, some, List, [], ◌∷◌, arith, leb, ◌==◌, if◌then◌else◌, Bool-cases, Option-cases,
  lookup, insert, lookup-insert, str_eq, eq_iff,
}
use be_aether_node.Base.Int.{pos, ◌-ℤ◌}
use be_aether_node.RateLimit.{TokenBucket, TokenBucketStore, Reply, allow_bucket, allow}
use be_aether_node.RateLimit.Window.{bucket, counted, Fits, allow_bucket_lem}

-- A request: the client and the time.
abbrev pub Request : Type 0
Request = String × ℕ

-- The times do not go back, and lie between the bounds.
abbrev pub Within : ℕ → ℕ → List Request → Type 0
Within lo hi [] = lo ≤ hi
Within lo hi ((_, now) ∷ rs) = (lo ≤ now) × Within now hi rs

abbrev pub granted : Option Reply → ℕ
granted (some (true, _)) = 1
granted _ = 0

-- The requests of `id` that are allowed, of a series.
unfoldable pub count_granted : ℕ → ℕ → String → List Request → TokenBucketStore → ℕ
count_granted limit window id [] s = 0
count_granted limit window id ((j, now) ∷ rs) s =
    let (r, s') = allow j limit window now s in
    (if str_eq j id then granted r else 0) + count_granted limit window id rs s'

Within-le : (lo hi : ℕ) (rs : List Request) → Within lo hi rs → lo ≤ hi
Within-le lo hi [] w = w
Within-le lo hi ((_, now) ∷ rs) (l, w) = omega (arith, Within-le now hi rs w)

div_step :
    (w last now hi : ℕ)
    → 0 < w
    → w ≤ now - last
    → last ≤ now
    → now ≤ hi
    → (hi - now) / w + 1 ≤ (hi - last) / w
div_step w last now hi p h l m = grind arith

div_mono : (w a b : ℕ) → 0 < w → a ≤ b → a / w ≤ b / w
div_mono w a b p h = grind arith

pub Fits-mono : (limit w a b : ℕ) → 0 < w → a ≤ b → Fits limit w b → Fits limit w a
Fits-mono limit w a b p h f =
    let m = mul-le-mul_right limit (div_mono w a b p h) in (omega (arith, m), omega arith)

pub allow_other :
    (j id : String) (limit window now : ℕ) (s : TokenBucketStore)
    → str_eq j id ≡ false
    → lookup id (allow j limit window now s).1 ≡ lookup id s
unfolding allow
allow_other j id limit window now s n = elim (Option-cases (lookup j s)) [
  | inl e ↦ rw (e, allow) (rw (lookup-insert, n))
  | inr (b, e) ↦ elim (Bool-cases (window == 0)) [
    | inl z ↦ rw (e, allow, z)
    | inr p ↦ rw (e, allow, p) (rw (lookup-insert, n))
  ]
]

pub allow_found :
    (id : String) (limit window now : ℕ) (s : TokenBucketStore) (b : TokenBucket)
    → lookup id s ≡ some b
    → 0 < window
    → allow id limit window now s
      ≡ (some (allow_bucket limit window now b).0, insert id (allow_bucket limit window now b).1 s)
unfolding allow
allow_found id limit window now s b e p = rw (e, allow) (ground arith)

pub allow_fresh :
    (id : String) (l window now : ℕ) (s : TokenBucketStore)
    → lookup id s ≡ none
    → allow id (suc l) window now s ≡ (some (true, pos l), insert id (bucket l now) s)
unfolding allow
allow_fresh id l window now s e = rw (e, allow) (unfold ◌-ℤ◌ in ground arith)

step_other :
    (j id : String) (now : ℕ) (limit window : ℕ) (rs : List Request) (s : TokenBucketStore)
    → str_eq j id ≡ false
    → count_granted limit window id ((j, now) ∷ rs) s
      ≡ count_granted limit window id rs (allow j limit window now s).1
unfolding count_granted
step_other j id now limit window rs s n = rw n (omega arith)

step_self :
    (j id : String) (now : ℕ) (limit window : ℕ) (rs : List Request) (s : TokenBucketStore)
    → str_eq j id ≡ true
    → count_granted limit window id ((j, now) ∷ rs) s
      ≡ granted (allow id limit window now s).0
        + count_granted limit window id rs (allow id limit window now s).1
unfolding count_granted
step_self j id now limit window rs s y = rw (y, (eq_iff j id).0 y)

pub counted-bucket : (n l : ℕ) → (counted n l).1 ≡ bucket (n - 1) l
counted-bucket zero l = refl
counted-bucket (suc n) l = ap (λ m. bucket m l) (omega arith)

granted-counted :
    (n l q rest : ℕ) → rest ≤ n - 1 + q → granted (some (counted n l).0) + rest ≤ n + q
granted-counted zero l q rest h = omega arith
granted-counted (suc n) l q rest h = omega arith

module _ (limit window hi : ℕ) (id : String) (lp : 0 < limit) (wp : 0 < window) where
  -- The bound for the rest of the series, from a bucket with `n` tokens last filled at `l`.
  abbrev Bounded : List Request → ℕ → ℕ → TokenBucketStore → Type 0
  Bounded rs n l s = count_granted limit window id rs s ≤ n + (hi - l) / window * limit

  -- One request of the client, if the rest of the series is bounded from the bucket that it leaves.
  serve_counted :
      (now n l q : ℕ) (b : TokenBucket) (rs : List Request) (s : TokenBucketStore)
      → lookup id s ≡ some b
      → allow_bucket limit window now b ≡ counted n l
      → ((s' : TokenBucketStore)
          → lookup id s' ≡ some (bucket (n - 1) l)
          → count_granted limit window id rs s' ≤ n - 1 + q)
      → granted (allow id limit window now s).0
          + count_granted limit window id rs (allow id limit window now s).1
        ≤ n + q
  serve_counted now n l q b rs s e c rest =
      rw (allow_found id limit window now s b e wp, c)
        (granted-counted n l q _ (
          rest (insert id (counted n l).1 s) (
            lookup-insert id id (counted n l).1 s
            ∙ rw ((eq_iff id id).1 refl) (ap some (counted-bucket n l)))))

  granted_from :
      (rs : List Request) (t last lo : ℕ) (s : TokenBucketStore)
      → Fits limit window (hi - last)
      → lookup id s ≡ some (bucket t last)
      → t ≤ limit
      → last ≤ lo
      → Within lo hi rs
      → Bounded rs t last s
  granted_from [] t last lo s f e tl ll w = unfold count_granted in omega arith
  granted_from ((j, now) ∷ rs) t last lo s f e tl ll (ln, w) =
      let nh = Within-le now hi rs w in
      let fit = Fits-mono limit window (now - last) (hi - last) wp (omega arith) f in
      let served = allow_bucket_lem limit window now t last tl lp wp fit in
      elim (Bool-cases (str_eq j id)) [
        | inr other ↦ rw (step_other j id now limit window rs s other) (
            granted_from rs t last now (allow j limit window now s).1 f
              (allow_other j id limit window now s other ∙ e) tl (omega arith) w)
        | inl self ↦
            rw (step_self j id now limit window rs s self)
              (elim (Bool-cases (leb window (now - last))) [
                | inl late ↦
                    let bound =
                      serve_counted now limit now ((hi - now) / window * limit) (bucket t last) rs s
                        e (rw late at served)
                        (λ s' e'.
                          granted_from rs (limit - 1) now now s'
                            (Fits-mono limit window (hi - now) (hi - last) wp (omega arith) f) e'
                            (omega arith) (le_refl now) w) in
                    let windows =
                      mul-le-mul_right limit
                        (div_step window last now hi wp (ground arith) (omega arith) nh) in
                    omega (arith, bound, windows)
                | inr early ↦
                    serve_counted now t last ((hi - last) / window * limit) (bucket t last) rs s e
                      (rw early at served)
                      (λ s' e'.
                        granted_from rs (t - 1) last now s' f e' (omega arith) (omega arith) w)
              ])
      ]

  fresh_from :
      (rs : List Request) (lo : ℕ) (s : TokenBucketStore)
      → Fits limit window (hi - lo)
      → lookup id s ≡ none
      → Within lo hi rs
      → count_granted limit window id rs s ≤ limit + (hi - lo) / window * limit
  fresh_from [] lo s f e w = unfold count_granted in omega arith
  fresh_from ((j, now) ∷ rs) lo s f e (ln, w) =
      let nh = Within-le now hi rs w in
      let later = Fits-mono limit window (hi - now) (hi - lo) wp (omega arith) f in
      let fewer = mul-le-mul_right limit (div_mono window (hi - now) (hi - lo) wp (omega arith)) in
      elim (Bool-cases (str_eq j id)) [
        | inr other ↦ rw (step_other j id now limit window rs s other) (
            let bound =
              fresh_from rs now (allow j limit window now s).1 later
                (allow_other j id limit window now s other ∙ e) w in
            omega (arith, bound, fewer))
        | inl self ↦ rw (step_self j id now limit window rs s self) (
            let l = limit - 1 in
            let first : allow id limit window now s
                ≡ (some (true, pos l), insert id (bucket l now) s) =
              (let eq : limit ≡ suc l = omega arith in
                ap (λ m. allow id m window now s) eq ∙ allow_fresh id l window now s e) in
            let bound =
              granted_from rs l now now (insert id (bucket l now) s) later
                (lookup-insert id id (bucket l now) s ∙ rw ((eq_iff id id).1 refl)) (omega arith)
                (le_refl now) w in
            rw first (omega (arith, bound, fewer)))
      ]

-- Over a series of requests at times from `lo` to `hi` that do not go back, mixed with those of
-- other clients, a client that the store does not know yet is let through at most `limit` times,
-- and `limit` times more for each whole window from `lo` to `hi`. The limit and the window are
-- positive, and the tokens of that time fit 64 bits.
pub count_granted_bound :
    (limit window lo hi : ℕ) (id : String) (rs : List Request) (s : TokenBucketStore)
    → 0 < limit
    → 0 < window
    → Fits limit window (hi - lo)
    → lookup id s ≡ none
    → Within lo hi rs
    → count_granted limit window id rs s ≤ limit * (1 + (hi - lo) / window)
count_granted_bound limit window lo hi id rs s lp wp f e w =
    omega (arith, fresh_from limit window hi id lp wp rs lo s f e w)
