-- ===== src/Telemetry/Splitting.antt =====
-- The lines of Telemetry/Line, read back by splitting at a character.
use be_aether_node.Base.{
  All, ℕ, ◌==◌, ◌||◌, ◌≡◌, refl, sym, ap, ◌∙◌, inl, inr, String, Bool, true, false, List, [], ◌∷◌,
  arith, Bool-cases, if◌then◌else◌, true≢false, subst,
}
use Prim.Native.Char.{Char, code}
use Prim.Native.String.{◌++◌}
use Prim.Native.String as Text
use text.Mathlib.TextLemmas.{cons-append, nil-append}
use be_aether_node.Telemetry.Line.{is_special, escape_char, escape_tag}

-- Whether a text has the character of this number.
unfoldable pub has_char : ℕ → String → Bool
has_char n Text.[] = false
has_char n (Text.◌∷◌ c s) = code c == n || has_char n s

-- A character in front of the first part.
abbrev pub onto : Char → List String → List String
onto c [] = Text.◌∷◌ c "" ∷ []
onto c (part ∷ parts) = Text.◌∷◌ c part ∷ parts

-- The parts of a text between the characters of this number.
unfoldable pub split : ℕ → String → List String
split n Text.[] = "" ∷ []
split n (Text.◌∷◌ c s) = let parts = split n s in if code c == n then "" ∷ parts else onto c parts

or-false : (a b : Bool) → (a || b) ≡ false → (a ≡ false) × (b ≡ false)
or-false a b h = (ground arith, ground arith)

same_number : (m n : ℕ) → m ≡ n → (m == n) ≡ true
same_number m n e = ground arith

special-underscore : (n : ℕ) → is_special n ≡ true → (b'_' == n) ≡ false
special-underscore n special = ground arith

special-other : (m n : ℕ) → is_special m ≡ false → is_special n ≡ true → (m == n) ≡ false
special-other m n plain special = elim (Bool-cases (m == n)) [
  | inl e ↦
      let same : m ≡ n = ground arith in
      absurd (true≢false (sym special ∙ subst (λ k. is_special k ≡ false) same plain))
  | inr e ↦ e
]

has_char-append : (n : ℕ) (s t : String) → has_char n (s ++ t) ≡ (has_char n s || has_char n t)
unfolding has_char
has_char-append n Text.[] t = rw (nil-append t) refl
has_char-append n (Text.◌∷◌ c s) t = rw (cons-append c s t, has_char-append n s t) (ground arith)

pub split-append :
    (n : ℕ) (c : Char) (s t : String)
    → code c ≡ n
    → has_char n s ≡ false
    → split n (s ++ (Text.◌∷◌ c "" ++ t)) ≡ s ∷ split n t
unfolding has_char split
split-append n c Text.[] t e h =
    rw (nil-append (Text.◌∷◌ c "" ++ t), cons-append c "" t, nil-append t, same_number (code c) n e)
      refl
split-append n c (Text.◌∷◌ d s) t e h =
    let (other, rest) = or-false (code d == n) (has_char n s) h in
    rw (cons-append d s (Text.◌∷◌ c "" ++ t), other, split-append n c s t e rest) refl

pub split-single : (n : ℕ) (s : String) → has_char n s ≡ false → split n s ≡ s ∷ []
unfolding has_char split
split-single n Text.[] h = refl
split-single n (Text.◌∷◌ d s) h =
    let (other, rest) = or-false (code d == n) (has_char n s) h in
    rw (other, split-single n s rest) refl

escape_char-other : (n : ℕ) (c : Char) → is_special n ≡ true → (code (escape_char c) == n) ≡ false
escape_char-other n c special = elim (Bool-cases (is_special (code c))) [
  | inl e ↦ rw e (special-underscore n special)
  | inr e ↦ rw e (special-other (code c) n e special)
]

pub escape_tag-has_char :
    (n : ℕ) (s : String) → is_special n ≡ true → has_char n (escape_tag s) ≡ false
unfolding has_char escape_tag
escape_tag-has_char n Text.[] special = refl
escape_tag-has_char n (Text.◌∷◌ c s) special =
    rw (escape_char-other n c special) (escape_tag-has_char n s special)

-- Parts with a character between them.
unfoldable pub join : Char → String → List String → String
join c part [] = part
join c part (next ∷ parts) = part ++ (Text.◌∷◌ c "" ++ join c next parts)

abbrev pub Lacks : ℕ → String → Type 0
Lacks n s = has_char n s ≡ false

pub append-Lacks : (n : ℕ) (s t : String) → Lacks n s → Lacks n t → Lacks n (s ++ t)
append-Lacks n s t hs ht = rw (has_char-append n s t, hs, ht) refl

pub join-Lacks :
    (n : ℕ) (c : Char) (part : String) (parts : List String)
    → Lacks n (Text.◌∷◌ c "")
    → Lacks n part
    → All (Lacks n) parts
    → Lacks n (join c part parts)
unfolding join
join-Lacks n c part [] lc lp ls = lp
join-Lacks n c part (next ∷ parts) lc lp (l, ls) =
    append-Lacks n part _ lp
      (append-Lacks n (Text.◌∷◌ c "") _ lc (join-Lacks n c next parts lc l ls))

pub split-join :
    (n : ℕ) (c : Char) (part : String) (parts : List String)
    → code c ≡ n
    → Lacks n part
    → All (Lacks n) parts
    → split n (join c part parts) ≡ part ∷ parts
unfolding join
split-join n c part [] e lp ls = split-single n part lp
split-join n c part (next ∷ parts) e lp (l, ls) =
    split-append n c part (join c next parts) e lp
    ∙ ap (λ rest. part ∷ rest) (split-join n c next parts e l ls)
