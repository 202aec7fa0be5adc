-- ===== src/FlexInt/Reads.antt =====
-- Which values `FlexInt` takes, and as which numbers.
use mcp_dap_server_k8s_forwa.Prelude.{
  ℕ, suc, ◌-◌, ◌^◌, ◌≤◌, ◌<◌, ℤ, pos, negsuc, ◌≡◌, refl, sym, ap, ◌∙◌, Bool, if_true, if_false,
  subst, le→leb, Bool-cases, inl, inr, [], ◌∷◌, Option, none, some, ◌==◌, arith, true, false,
}
use mcp_dap_server_k8s_forwa.Text.{Text}
use mcp_dap_server_k8s_forwa.Text.Decimal.{decimal, scan, scan-decimal, decimal-StartsWithDigit}
use mcp_dap_server_k8s_forwa.FlexInt.{
  JsonValue, null, composite, boolean, number_text, string_text, negated, signed, unsigned,
  parse_int, unmarshal_int, unmarshal_string, flex_int, from_text, from_number, unmarshal_json,
}

-- The range of Go's `int`.
abbrev pub IsInt : ℤ → Type 0
IsInt (pos n) = n < 2 ^ 63
IsInt (negsuc n) = n < 2 ^ 63

-- The text of a number, as `strconv.Itoa` prints it.
abbrev pub itoa : ℤ → Text
itoa (pos n) = decimal n
itoa (negsuc n) = b'-' ∷ decimal (suc n)

-- What `UnmarshalJSON` reads a number from.
abbrev pub Source : JsonValue → ℤ → Type 0
Source null n = n ≡ pos 0
Source (number_text t) n = parse_int t ≡ some n
Source (string_text t) n = parse_int t ≡ some n
Source _ n = ⊥

unsigned-decimal : (n : ℕ) → unsigned (decimal n) ≡ some n
unsigned-decimal n =
    let (c, s, e, lo, hi) = decimal-StartsWithDigit n in
    ap unsigned e ∙ (ap (λ t. scan t 0) (sym e) ∙ scan-decimal n)

parse_int_digit :
    (c : ℕ) (s : Text) → b'0' ≤ c → parse_int (c ∷ s) ≡ signed false (unsigned (c ∷ s))
unfolding parse_int
parse_int_digit c s h = ground arith

negated-suc : (n : ℕ) → negated (suc n) ≡ negsuc n
negated-suc n = ground arith

parse_int-itoa : (n : ℤ) → IsInt n → parse_int (itoa n) ≡ some n
unfolding parse_int
parse_int-itoa (pos n) h =
    let (c, s, e, lo, hi) = decimal-StartsWithDigit n in
    ap parse_int e
    ∙ parse_int_digit c s lo
    ∙ ap (λ t. signed false (unsigned t)) (sym e)
    ∙ ap (signed false) (unsigned-decimal n)
    ∙ if_true _ _ (le→leb n (2 ^ 63 - 1) (omega arith))
parse_int-itoa (negsuc n) h =
    ap (signed true) (unsigned-decimal (suc n))
    ∙ if_true _ _ (le→leb (suc n) (2 ^ 63) (omega arith))
    ∙ ap some (negated-suc n)

-- Every `int` is read back from its decimal text, whether that is written as a JSON number or as
-- a JSON string.
pub unmarshal_json-itoa :
    (n : ℤ)
    → IsInt n
    → (unmarshal_json (number_text (itoa n)) ≡ flex_int n)
      × (unmarshal_json (string_text (itoa n)) ≡ flex_int n)
unfolding unmarshal_json unmarshal_int unmarshal_string
unmarshal_json-itoa n h = rw (parse_int-itoa n h) (refl, refl)

signed-IsInt : (b : Bool) (o : Option ℕ) (n : ℤ) → signed b o ≡ some n → IsInt n
signed-IsInt b none n h = absurd (cc h)
signed-IsInt true (some k) (pos n) h = ground arith
signed-IsInt true (some k) (negsuc n) h = ground arith
signed-IsInt false (some k) (pos n) h = ground arith
signed-IsInt false (some k) (negsuc n) h = ground arith

parse_int-IsInt : (t : Text) (n : ℤ) → parse_int t ≡ some n → IsInt n
unfolding parse_int
parse_int-IsInt [] n h = absurd (cc h)
parse_int-IsInt (c ∷ s) n h = elim (Bool-cases (c == b'-')) [
  | inl e ↦ signed-IsInt true (unsigned s) n (sym (if_true _ _ e) ∙ h)
  | inr e ↦ elim (Bool-cases (c == b'+')) [
    | inl f ↦ signed-IsInt false (unsigned s) n (sym (if_false _ _ e ∙ if_true _ _ f) ∙ h)
    | inr f ↦ signed-IsInt false (unsigned (c ∷ s)) n (sym (if_false _ _ e ∙ if_false _ _ f) ∙ h)
  ]
]

from_text-inv : (s : Text) (o : Option ℤ) (n : ℤ) → from_text s o ≡ flex_int n → o ≡ some n
from_text-inv s none n h = absurd (cc h)
from_text-inv s (some m) n h = cc h

from_number-inv :
    (t : Text) (o : Option ℤ) (n : ℤ) → from_number (number_text t) o ≡ flex_int n → o ≡ some n
unfolding unmarshal_string
from_number-inv t none n h = absurd (cc h)
from_number-inv t (some m) n h = cc h

-- What is read is in the range of Go's `int`, so a text that is too large is refused and never wraps
-- around. It is what `strconv` reads from the text of a JSON number or of a JSON string, or it is 0
-- and comes from `null`, which is no error.
pub unmarshal_json-IsInt :
    (v : JsonValue) (n : ℤ) → unmarshal_json v ≡ flex_int n → Source v n × IsInt n
unfolding unmarshal_json unmarshal_int unmarshal_string
unmarshal_json-IsInt null n h = let e : n ≡ pos 0 = cc h in (e, subst IsInt (sym e) (omega arith))
unmarshal_json-IsInt composite n h = absurd (cc h)
unmarshal_json-IsInt (boolean b) n h = absurd (cc h)
unmarshal_json-IsInt (number_text t) n h =
    let e = from_number-inv t (parse_int t) n h in (e, parse_int-IsInt t n e)
unmarshal_json-IsInt (string_text t) n h =
    let e = from_text-inv t (parse_int t) n h in (e, parse_int-IsInt t n e)
