-- ===== src/Text/Decimal.antt =====
-- Decimal numbers: the digits that `strconv` prints and reads, and that it reads what it prints.
use mcp_dap_server_k8s_forwa.Prelude.{
  ℕ, zero, suc, ◌+◌, ◌-◌, ◌*◌, ◌/◌, ◌%◌, ◌≤◌, ◌<◌, ◌≡◌, refl, sym, ap, ◌∙◌, All, if_keeps, ◌==◌,
  false, ◌&&◌, [], ◌∷◌, Option, none, some, if◌then◌else◌, leb, ltb, ltb→lt, Bool-cases, inl, inr,
  arith,
}
use mcp_dap_server_k8s_forwa.Text.{Text}

-- The digits of `n` in front of `out`, on fuel: each round divides `n` by ten.
unfoldable pub digits : ℕ → ℕ → Text → Text
digits zero n out = out
digits (suc f) n out =
    let rest = digits f (n / 10) ((b'0' + n % 10) ∷ out) in
    if ltb n 10 then (b'0' + n) ∷ out else rest

-- `strconv.Itoa(n)` for a number that is not negative.
unfoldable pub decimal : ℕ → Text
unfolding digits
decimal n = digits (suc n) n []

-- The digits of a text behind the number `n`; another rune is an error.
unfoldable pub scan : Text → ℕ → Option ℕ
scan [] n = some n
scan (c ∷ s) n =
    let rest = scan s (n * 10 + (c - b'0')) in if leb b'0' c && leb c b'9' then rest else none

scan_last : (n : ℕ) (out : Text) → scan ((b'0' + n % 10) ∷ out) (n / 10) ≡ scan out n
unfolding scan
scan_last n out = ground arith

scan_one : (n : ℕ) (out : Text) → n < 10 → scan ((b'0' + n) ∷ out) 0 ≡ scan out n
unfolding scan
scan_one n out h = ground arith

scan-digits : (f n : ℕ) (out : Text) → n < f → scan (digits f n out) 0 ≡ scan out n
unfolding digits
scan-digits zero n out h = absurd (omega arith)
scan-digits (suc f) n out h =
    ground (arith, scan_last n out, scan_one n out, scan-digits f (n / 10) ((b'0' + n % 10) ∷ out))

-- A decimal print is read back.
pub scan-decimal : (n : ℕ) → scan (decimal n) 0 ≡ some n
unfolding decimal scan
scan-decimal n = scan-digits (suc n) n [] (omega arith)

abbrev pub StartsWithDigit : Text → Type 0
StartsWithDigit t = (c : ℕ) × (s : Text) × (t ≡ c ∷ s) × (b'0' ≤ c) × (c ≤ b'9')

digits-StartsWithDigit : (f n : ℕ) (out : Text) → n < f → StartsWithDigit (digits f n out)
unfolding digits
digits-StartsWithDigit zero n out h = absurd (omega arith)
digits-StartsWithDigit (suc f) n out h = elim (Bool-cases (ltb n 10)) [
  | inl e ↦ rw e (b'0' + n, out, refl, omega arith, omega (arith, ltb→lt n 10 e))
  | inr e ↦ rw e (digits-StartsWithDigit f (n / 10) ((b'0' + n % 10) ∷ out) (ground arith))
]

pub decimal-StartsWithDigit : (n : ℕ) → StartsWithDigit (decimal n)
unfolding decimal
decimal-StartsWithDigit n = digits-StartsWithDigit (suc n) n [] (omega arith)

abbrev pub DotFree : Text → Type 0
DotFree = All (λ c. (c == b'.') ≡ false)

digit_ne_dot : (n : ℕ) → ((b'0' + n) == b'.') ≡ false
digit_ne_dot n = ground arith

digits-DotFree : (f n : ℕ) (out : Text) → DotFree out → DotFree (digits f n out)
unfolding digits
digits-DotFree zero n out h = h
digits-DotFree (suc f) n out h =
    if_keeps DotFree (ltb n 10) ((b'0' + n) ∷ out) (digits f (n / 10) ((b'0' + n % 10) ∷ out))
      (digit_ne_dot n, h)
      (digits-DotFree f (n / 10) ((b'0' + n % 10) ∷ out) (digit_ne_dot (n % 10), h))

pub decimal-DotFree : (n : ℕ) → DotFree (decimal n)
unfolding decimal
decimal-DotFree n = digits-DotFree (suc n) n [] tt

pub decimal_inj : (m n : ℕ) → decimal m ≡ decimal n → m ≡ n
decimal_inj m n h =
    let e : some m ≡ some n = sym (scan-decimal m) ∙ (ap (λ t. scan t 0) h ∙ scan-decimal n) in cc e
