-- ===== src/RateLimit/Clean.antt =====
-- The sweep that deletes stale buckets cannot be observed, if two intervals are at least a window.
use mathlib.Core.Path.{ap₂, subst}
use be_aether_node.Base.{
  ℕ, suc, ◌+◌, ◌-◌, ◌*◌, ◌≤◌, ◌<◌, ◌≡◌, refl, ap, sym, ◌∙◌, inl, inr, String, Bool, true, leb,
  le→leb, lookup-insert_self, str_eq, Option, none, some, List, [], ◌∷◌, arith, ltb, if◌then◌else◌,
  Bool-cases, Option-cases, ◌==◌, eq_iff, lookup, IsMap, insert-IsMap,
}
use be_aether_node.RateLimit.Window.{bucket, counted, Fits, allow_bucket_lem}
use be_aether_node.RateLimit.Bound.{
  allow_other, allow_found, allow_fresh, Fits-mono, counted-bucket,
}
use be_aether_node.RateLimit.{allow_bucket, TokenBucket, TokenBucketStore, Reply, allow, cleanup}

is_stale : ℕ → ℕ → TokenBucket → Bool
is_stale interval now b = ltb b.last_check (now - interval * 2)

keep_fresh : ℕ → ℕ → Option TokenBucket → Option TokenBucket
unfolding is_stale
keep_fresh interval now none = none
keep_fresh interval now (some b) = if is_stale interval now b then none else some b

-- `cleanup` deletes exactly the buckets that were last filled more than two intervals ago.
lookup-cleanup :
    (interval now : ℕ) (k : String) (s : TokenBucketStore)
    → IsMap s
    → lookup k (cleanup interval now s) ≡ keep_fresh interval now (lookup k s)
unfolding cleanup lookup keep_fresh
lookup-cleanup interval now k [] m = refl
lookup-cleanup interval now k ((j, b) ∷ s) (n, m) =
    ground (arith, eq_iff j k, lookup-cleanup interval now k s m, lookup-cleanup interval now j s m)

cleanup-IsMap : (interval now : ℕ) (s : TokenBucketStore) → IsMap s → IsMap (cleanup interval now s)
unfolding cleanup keep_fresh
cleanup-IsMap interval now [] m = tt
cleanup-IsMap interval now ((j, b) ∷ s) (n, m) =
    let rest = cleanup-IsMap interval now s m in
    let gone = lookup-cleanup interval now j s m ∙ ap (keep_fresh interval now) n in
    elim (Bool-cases (ltb b.last_check (now - interval * 2))) [
      | inl old ↦ rw old rest
      | inr fresh ↦ rw fresh (gone, rest)
    ]

allow-IsMap :
    (id : String) (limit window now : ℕ) (s : TokenBucketStore)
    → IsMap s
    → IsMap (allow id limit window now s).1
allow-IsMap id limit window now s m = elim (Option-cases (lookup id s)) [
  | inl e ↦ unfold allow in rw (e, allow) (insert-IsMap id _ s m)
  | inr (b, e) ↦
      unfold allow in
      rw (e, allow)
        (elim (Bool-cases (window == 0)) [ inl z ↦ rw z m | inr p ↦ rw p (insert-IsMap id _ s m) ])
]

-- A request of a client, or a sweep of the cleanup goroutine, and its time.
pub data Event : Type 0 where
  ask : String → ℕ → Event
  sweep : ℕ → Event

abbrev pub Ordered : ℕ → ℕ → List Event → Type 0
Ordered lo hi [] = lo ≤ hi
Ordered lo hi (ask _ now ∷ es) = (lo ≤ now) × Ordered now hi es
Ordered lo hi (sweep now ∷ es) = (lo ≤ now) × Ordered now hi es

Ordered-le : (lo hi : ℕ) (es : List Event) → Ordered lo hi es → lo ≤ hi
Ordered-le lo hi [] w = w
Ordered-le lo hi (ask _ now ∷ es) (l, w) = omega (arith, Ordered-le now hi es w)
Ordered-le lo hi (sweep now ∷ es) (l, w) = omega (arith, Ordered-le now hi es w)

-- The replies to the requests of a series of events.
unfoldable pub replies : ℕ → ℕ → ℕ → List Event → TokenBucketStore → List (Option Reply)
replies interval limit window [] s = []
replies interval limit window (ask id now ∷ es) s =
    let (r, s') = allow id limit window now s in r ∷ replies interval limit window es s'
replies interval limit window (sweep now ∷ es) s =
    replies interval limit window es (cleanup interval now s)

unfoldable pub without_sweeps : List Event → List Event
without_sweeps [] = []
without_sweeps (ask id now ∷ es) = ask id now ∷ without_sweeps es
without_sweeps (sweep now ∷ es) = without_sweeps es

module _ (interval limit window hi : ℕ) (lp : 0 < limit) (wp : 0 < window)
    (two : window ≤ interval * 2) (fit : Fits limit window hi) where
  -- What a store has for a client, against what it would have without sweeps, at the time `now`.
  data Same (now : ℕ) (o o' : Option TokenBucket) : Type 0 where
    unknown : o ≡ none → o' ≡ none → Same now o o'
    known : (t l : ℕ) → t ≤ limit → o ≡ some (bucket t l) → o' ≡ some (bucket t l) → Same now o o'
    swept :
        (t l : ℕ)
        → t ≤ limit
        → l + interval * 2 ≤ now
        → o ≡ none
        → o' ≡ some (bucket t l)
        → Same now o o'

  Same-later :
      {now later : ℕ} {o o' : Option TokenBucket} → now ≤ later → Same now o o' → Same later o o'
  Same-later le (unknown e e') = unknown e e'
  Same-later le (known t l tl e e') = known t l tl e e'
  Same-later le (swept t l tl ll e e') = swept t l tl (omega arith) e e'

  keep_fresh-Same :
      (now : ℕ) (o o' : Option TokenBucket)
      → Same now o o'
      → Same now (keep_fresh interval now o) o'
  unfolding keep_fresh is_stale
  keep_fresh-Same now o o' (unknown e e') = unknown (rw e) e'
  keep_fresh-Same now o o' (swept t l tl ll e e') = swept t l tl ll (rw e) e'
  keep_fresh-Same now o o' (known t l tl e e') = elim (Bool-cases (ltb l (now - interval * 2))) [
    | inl old ↦ swept t l tl (ground arith) (rw e (rw old)) e'
    | inr fresh ↦ known t l tl (rw e (rw fresh)) e'
  ]

  Fits-at : (now l : ℕ) → now ≤ hi → Fits limit window (now - l)
  Fits-at now l le = Fits-mono limit window (now - l) hi wp (omega arith) fit

  -- A request from a bucket that then counts `n` tokens.
  serve :
      (id : String) (now n l : ℕ) (b : TokenBucket) (s : TokenBucketStore)
      → lookup id s ≡ some b
      → allow_bucket limit window now b ≡ counted n l
      → ((allow id limit window now s).0 ≡ some (counted n l).0)
        × (lookup id (allow id limit window now s).1 ≡ some (bucket (n - 1) l))
  serve id now n l b s e c =
      rw (allow_found id limit window now s b e wp, c)
        (refl, lookup-insert_self id (counted n l).1 s ∙ ap some (counted-bucket n l))

  fresh :
      (id : String) (now : ℕ) (s : TokenBucketStore)
      → lookup id s ≡ none
      → ((allow id limit window now s).0 ≡ some (counted limit now).0)
        × (lookup id (allow id limit window now s).1 ≡ some (bucket (limit - 1) now))
  fresh id now s e =
      let positive : limit ≡ suc (limit - 1) = omega arith in
      let first =
        ap (λ m. allow id m window now s) positive ∙ allow_fresh id (limit - 1) window now s e in
      (
        ap (λ p. p.0) first ∙ ap (λ m. some (counted m now).0) (sym positive),
        ap (λ p. lookup id p.1) first ∙ lookup-insert_self id (bucket (limit - 1) now) s,
      )

  ask_Same :
      (id : String) (now : ℕ) (s s' : TokenBucketStore)
      → now ≤ hi
      → Same now (lookup id s) (lookup id s')
      → ((allow id limit window now s).0 ≡ (allow id limit window now s').0)
        × Same now
            (lookup id (allow id limit window now s).1)
            (lookup id (allow id limit window now s').1)
  ask_Same id now s s' le (unknown e e') =
      let (r, k) = fresh id now s e in
      let (r', k') = fresh id now s' e' in (r ∙ sym r', known (limit - 1) now (omega arith) k k')
  ask_Same id now s s' le (swept t l tl ll e e') =
      let served = allow_bucket_lem limit window now t l tl lp wp (Fits-at now l le) in
      let late : leb window (now - l) ≡ true = le→leb window (now - l) (omega arith) in
      let (r, k) = fresh id now s e in
      let (r', k') = serve id now limit now (bucket t l) s' e' (rw late at served) in
      (r ∙ sym r', known (limit - 1) now (omega arith) k k')
  ask_Same id now s s' le (known t l tl e e') =
      let served = allow_bucket_lem limit window now t l tl lp wp (Fits-at now l le) in
      elim (Bool-cases (leb window (now - l))) [
        | inl late ↦
            let (r, k) = serve id now limit now (bucket t l) s e (rw late at served) in
            let (r', k') = serve id now limit now (bucket t l) s' e' (rw late at served) in
            (r ∙ sym r', known (limit - 1) now (omega arith) k k')
        | inr early ↦
            let (r, k) = serve id now t l (bucket t l) s e (rw early at served) in
            let (r', k') = serve id now t l (bucket t l) s' e' (rw early at served) in
            (r ∙ sym r', known (t - 1) l (omega arith) k k')
      ]

  replies-without_sweeps :
      (es : List Event) (lo : ℕ) (s s' : TokenBucketStore)
      → IsMap s
      → ((id : String) → Same lo (lookup id s) (lookup id s'))
      → Ordered lo hi es
      → replies interval limit window es s ≡ replies interval limit window (without_sweeps es) s'
  unfolding replies without_sweeps
  replies-without_sweeps [] lo s s' m same w = refl
  replies-without_sweeps (ask id now ∷ es) lo s s' m same (l, w) =
      let (r, k) = ask_Same id now s s' (Ordered-le now hi es w) (Same-later l (same id)) in
      ap₂ (λ x xs. x ∷ xs) r
        (replies-without_sweeps es now (allow id limit window now s).1
          (allow id limit window now s').1 (allow-IsMap id limit window now s m)
          (λ j. elim (Bool-cases (str_eq id j)) [
            | inl self ↦
                subst
                  (λ i.
                    Same now (lookup i (allow id limit window now s).1)
                      (lookup i (allow id limit window now s').1))
                  ((eq_iff id j).0 self) k
            | inr other ↦
                rw
                  (
                    allow_other id j limit window now s other,
                    allow_other id j limit window now s' other,
                  )
                  (Same-later l (same j))
          ])
          w)
  replies-without_sweeps (sweep now ∷ es) lo s s' m same (l, w) =
      replies-without_sweeps es now (cleanup interval now s) s' (cleanup-IsMap interval now s m)
        (λ id.
          rw (lookup-cleanup interval now id s m)
            (keep_fresh-Same now _ _ (Same-later l (same id))))
        w

-- With a positive limit and window, no overflow up to the time `hi`, and a window of at most two
-- cleanup intervals, every series of requests and sweeps from the empty store, whose times do not
-- go back, is replied to as the same series without its sweeps.
pub sweeps_unobservable :
    (interval limit window hi : ℕ) (es : List Event)
    → 0 < limit
    → 0 < window
    → window ≤ interval * 2
    → Fits limit window hi
    → Ordered 0 hi es
    → replies interval limit window es [] ≡ replies interval limit window (without_sweeps es) []
unfolding lookup
sweeps_unobservable interval limit window hi es lp wp two fit w =
    replies-without_sweeps interval limit window hi lp wp two fit es 0 [] [] tt
      (λ id. unknown refl refl) w
