-- ===== src/Go/Text.antt =====
-- `strings.TrimSpace`, and comparison of a text with an ASCII word after `strings.ToLower`.
use Prim.Native.Char.{Char, code}
use payment_gateway_router.Common.{
  ℕ, ◌+◌, ◌≡◌, refl, Bool, true, false, ◌&&◌, ◌||◌, String, leb, ◌==◌, if◌then◌else◌,
}

-- unicode.IsSpace
unfoldable pub is_space : ℕ → Bool
is_space c =
    leb 9 c && leb c 13
    || c == 32
    || c == 0x85
    || c == 0xa0
    || c == 0x1680
    || leb 0x2000 c && leb c 0x200a
    || c == 0x2028
    || c == 0x2029
    || c == 0x202f
    || c == 0x205f
    || c == 0x3000

unfoldable pub trim_left : String → String
unfolding is_space
trim_left String.[] = String.[]
trim_left (String.◌∷◌ c s) =
    let rest = trim_left s in if is_space (code c) then rest else String.◌∷◌ c s

-- A space is dropped when nothing but spaces follows it.
abbrev cons_unless_space : Char → String → String
cons_unless_space c String.[] = if is_space (code c) then String.[] else String.◌∷◌ c String.[]
cons_unless_space c (String.◌∷◌ d s) = String.◌∷◌ c (String.◌∷◌ d s)

unfoldable pub trim_right : String → String
unfolding is_space
trim_right String.[] = String.[]
trim_right (String.◌∷◌ c s) = cons_unless_space c (trim_right s)

-- strings.TrimSpace
unfoldable pub trim_space : String → String
unfolding trim_left trim_right
trim_space s = trim_right (trim_left s)

-- The lower case of a character, as far as ASCII words can tell: beside A to Z, U+0130 and U+212A
-- are the only characters whose lower case is an ASCII letter.
unfoldable pub lower : ℕ → ℕ
lower c =
    if leb b'A' c && leb c b'Z'
    then c + 32
    else if c == 0x130
    then b'i'
    else if c == 0x212a
    then b'k'
    else c

-- strings.ToLower(s) == word
unfoldable pub lower_is : String → String → Bool
unfolding lower
lower_is String.[] String.[] = true
lower_is (String.◌∷◌ c s) (String.◌∷◌ d w) = lower (code c) == code d && lower_is s w
lower_is s w = false

trimmed : trim_space "\t Paid \n" ≡ "Paid"
unfolding trim_space
trimmed = refl

paid : lower_is (trim_space " PAID") "paid" ≡ true
unfolding trim_space lower_is
paid = refl
