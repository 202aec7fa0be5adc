-- ===== src/Text.antt =====
-- Texts as lists of code points, and what the program uses of Go's `strings` and `strconv`.
pub mod Decimal
use Prim.Native.Char.{code}
use Prim.Native.String
use text.Mathlib.TextLemmas.{nil-append, cons-append}
use mcp_dap_server_k8s_forwa.Prelude.{
  ℕ, ◌+◌, ◌-◌, ◌≡◌, refl, ap, ◌∙◌, String, Bool, true, false, ◌&&◌, ◌||◌, List, [], ◌∷◌, ◌++◌,
  Option, none, some, if◌then◌else◌, leb, ltb, ◌==◌, any, All, arith, Bool-cases, inl, inr,
}

abbrev pub Text : Type 0
Text = List ℕ

abbrev pub codes : String → Text
codes String.[] = []
codes (String.◌∷◌ c s) = code c ∷ codes s

abbrev pub eqb_text : Text → Text → Bool
eqb_text [] [] = true
eqb_text [] (d ∷ t) = false
eqb_text (c ∷ s) [] = false
eqb_text (c ∷ s) (d ∷ t) = let rest = eqb_text s t in if c == d then rest else false

-- `unicode.IsSpace`
unfoldable pub is_space : ℕ → Bool
is_space c =
    leb 9 c && leb c 13
    || (c == 32)
    || (c == 0x85)
    || (c == 0xa0)
    || (c == 0x1680)
    || (leb 0x2000 c && leb c 0x200a)
    || (c == 0x2028)
    || (c == 0x2029)
    || (c == 0x202f)
    || (c == 0x205f)
    || (c == 0x3000)

abbrev pub is_empty : String → Bool
is_empty String.[] = true
is_empty (String.◌∷◌ c s) = false

unfoldable pub trim_left : String → String
trim_left String.[] = ""
trim_left (String.◌∷◌ c s) =
    let rest = trim_left s in if is_space (code c) then rest else String.◌∷◌ c s

unfoldable pub trim_right : String → String
trim_right String.[] = ""
trim_right (String.◌∷◌ c s) =
    let rest = trim_right s in if is_empty rest && is_space (code c) then "" else String.◌∷◌ c rest

-- `strings.TrimSpace`
unfoldable pub trim_space : String → String
unfolding trim_left trim_right is_space
trim_space s = trim_right (trim_left s)

-- `strings.HasPrefix`
unfoldable pub has_prefix : String → String → Bool
has_prefix s String.[] = true
has_prefix String.[] (String.◌∷◌ d p) = false
has_prefix (String.◌∷◌ c s) (String.◌∷◌ d p) =
    let rest = has_prefix s p in if code c == code d then rest else false

-- What stands behind a prefix.
unfoldable pub strip_prefix : String → String → Option String
strip_prefix s String.[] = some s
strip_prefix String.[] (String.◌∷◌ d p) = none
strip_prefix (String.◌∷◌ c s) (String.◌∷◌ d p) =
    let rest = strip_prefix s p in if code c == code d then rest else none

abbrev or_else : Option String → Option String → Option String
or_else (some s) o = some s
or_else none o = o

-- `strings.SplitN(s, sep, 2)`, for a separator that is not empty: what stands behind the first one.
unfoldable pub behind : String → String → Option String
unfolding strip_prefix
behind sep String.[] = none
behind sep (String.◌∷◌ c s) = or_else (strip_prefix (String.◌∷◌ c s) sep) (behind sep s)

-- `unicode.ToLower`, as far as its values are ASCII: the two other runes are the dotted capital I and
-- the Kelvin sign. Any other rune stands for itself, or for a lower case that is outside ASCII.
unfoldable pub lower : ℕ → ℕ
lower c =
    if leb b'A' c && leb c b'Z'
    then c + 32
    else if c == 0x130
    then b'i'
    else if c == 0x212a
    then b'k'
    else c

-- Every character of the text.
abbrev pub AllChars : (ℕ → Type 0) → String → Type 0
AllChars P String.[] = Unit
AllChars P (String.◌∷◌ c s) = P (code c) × AllChars P s

-- Spaces in front are trimmed away.
pub trim_left-spaces :
    (p s : String) → AllChars (λ c. is_space c ≡ true) p → trim_left (String.◌++◌ p s) ≡ trim_left s
unfolding trim_left
trim_left-spaces String.[] s h = ap trim_left (nil-append s)
trim_left-spaces (String.◌∷◌ c p) s (e, h) = rw (cons-append, trim_left, e) (trim_left-spaces p s h)
