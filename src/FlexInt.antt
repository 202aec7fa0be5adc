-- ===== src/FlexInt.antt =====
-- flexint.go: `FlexInt`, an integer that is read from a JSON number or from a JSON string. What
-- `json.Unmarshal` makes of a value is written out for the two types that are asked for.
pub mod Reads
use mcp_dap_server_k8s_forwa.Prelude.{
  ℕ, ◌-◌, ◌^◌, ℤ, pos, negsuc, Bool, true, false, [], ◌∷◌, Option, none, some, if◌then◌else◌, leb,
  ◌==◌,
}
use mcp_dap_server_k8s_forwa.Text.{Text}
use mcp_dap_server_k8s_forwa.Text.Decimal.{scan}

-- A JSON value: a number by its text, a string by the text that it stands for.
pub data JsonValue : Type 0 where
  null composite : JsonValue
  boolean : Bool → JsonValue
  number_text : Text → JsonValue
  string_text : Text → JsonValue

-- The sign and the range of `strconv.ParseInt(s, 10, 64)`.
abbrev pub negated : ℕ → ℤ
negated n = if n == 0 then pos 0 else negsuc (n - 1)

abbrev pub signed : Bool → Option ℕ → Option ℤ
signed negative none = none
signed true (some n) = if leb n (2 ^ 63) then some (negated n) else none
signed false (some n) = if leb n (2 ^ 63 - 1) then some (pos n) else none

-- The digits behind the sign: there is one at least.
abbrev pub unsigned : Text → Option ℕ
unsigned [] = none
unsigned (c ∷ s) = scan (c ∷ s) 0

-- `strconv.ParseInt(s, 10, 64)` and `strconv.Atoi(s)`
unfoldable pub parse_int : Text → Option ℤ
unfolding scan
parse_int [] = none
parse_int (c ∷ s) =
    if c == b'-'
    then signed true (unsigned s)
    else if c == b'+'
    then signed false (unsigned s)
    else signed false (unsigned (c ∷ s))

-- `json.Unmarshal(data, &n)` for an `int` that is 0 before: `null` leaves it.
unfoldable pub unmarshal_int : JsonValue → Option ℤ
unfolding parse_int
unmarshal_int null = some (pos 0)
unmarshal_int (number_text t) = parse_int t
unmarshal_int _ = none

-- `json.Unmarshal(data, &s)` for an empty string.
unfoldable pub unmarshal_string : JsonValue → Option Text
unmarshal_string null = some []
unmarshal_string (string_text t) = some t
unmarshal_string _ = none

pub data FlexResult : Type 0 where
  flex_int : ℤ → FlexResult
  cannot_parse : Text → FlexResult
  cannot_unmarshal : JsonValue → FlexResult

abbrev pub from_text : Text → Option ℤ → FlexResult
from_text s (some n) = flex_int n
from_text s none = cannot_parse s

abbrev pub from_string : JsonValue → Option Text → FlexResult
from_string v (some s) = from_text s (parse_int s)
from_string v none = cannot_unmarshal v

abbrev pub from_number : JsonValue → Option ℤ → FlexResult
from_number v (some n) = flex_int n
from_number v none = from_string v (unmarshal_string v)

-- `UnmarshalJSON`
unfoldable pub unmarshal_json : JsonValue → FlexResult
unfolding unmarshal_int unmarshal_string
unmarshal_json v = from_number v (unmarshal_int v)
