-- ===== src/Base/Hex.antt =====
-- encoding/hex, as far as the code uses it.
use Prim.Native.Nat.{◌*◌, ◌/◌, ◌%◌}
use Prim.Native.String.{◌++◌, count, char_at}
use Prim.Native.String as Text
use text.Mathlib.TextLemmas.{length-append, length-cons}
use be_aether_node.Base.{ℕ, String, List, [], ◌∷◌, ◌≡◌, refl, arith, length}

abbrev hex_table : String
hex_table = "0123456789abcdef"

unfoldable pub hex_digit : ℕ → String
hex_digit n = Text.◌∷◌ (char_at hex_table n) ""

-- hex.EncodeToString of bytes, each below 256.
unfoldable pub hex_encode : List ℕ → String
hex_encode [] = ""
hex_encode (b ∷ bs) = hex_digit (b / 16) ++ hex_digit (b % 16) ++ hex_encode bs

count-hex_digit : (n : ℕ) → count (hex_digit n) ≡ 1
unfolding hex_digit
count-hex_digit n = length-cons (char_at hex_table n) ""

pub count-hex_encode : (bs : List ℕ) → count (hex_encode bs) ≡ 2 * length bs
unfolding hex_encode
count-hex_encode [] = refl
count-hex_encode (b ∷ bs) =
    rw
      (
        length-append (hex_digit (b / 16)) (hex_digit (b % 16) ++ hex_encode bs),
        length-append (hex_digit (b % 16)) (hex_encode bs),
        count-hex_digit (b / 16),
        count-hex_digit (b % 16),
        count-hex_encode bs,
      )
      (omega arith)
