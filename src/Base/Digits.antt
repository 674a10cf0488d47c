-- ===== src/Base/Digits.antt =====
-- `strconv.FormatInt` and `strconv.ParseInt` for a 64-bit integer and a base up to 36.
use Prim.Native.Nat.{ℕ, zero, suc, ◌+◌, ◌-◌, ◌*◌, ◌/◌, ◌%◌, ◌^◌}
use mathlib.Core.Bool.{◌&&◌}
use mathlib.Core.List.{List, [], ◌∷◌}
use mathlib.Core.Option.{Option, none, some}
use cs2_predictor.Base.Tests.{ltb, leb, ◌==◌, if◌then◌else◌, ℤ, pos, negsuc}

abbrev pub digit_char : ℕ → ℕ
digit_char d = if ltb d 10 then b'0' + d else b'a' + (d - 10)

abbrev pub digit_value : ℕ → Option ℕ
digit_value c =
    if leb b'0' c && leb c b'9'
    then some (c - b'0')
    else if leb b'a' c && leb c b'z'
    then some (c - b'a' + 10)
    else if leb b'A' c && leb c b'Z'
    then some (c - b'A' + 10)
    else none

-- The digits of a positive number in front of those that are there already.
unfoldable pub format_digits : ℕ → ℕ → ℕ → List ℕ → List ℕ
format_digits base zero n digits = digits
format_digits base (suc fuel) n digits =
    let rest = format_digits base fuel (n / base) (digit_char (n % base) ∷ digits) in
    if ltb 0 n then rest else digits

unfoldable pub format_nat : ℕ → ℕ → List ℕ
unfolding format_digits
format_nat base n = if n == 0 then b'0' ∷ [] else format_digits base n n []

unfoldable pub format_int : ℕ → ℤ → List ℕ
unfolding format_nat
format_int base (pos n) = format_nat base n
format_int base (negsuc n) = b'-' ∷ format_nat base (suc n)

-- One more digit behind a number.
abbrev pub push_digit : ℕ → ℕ → Option ℕ → Option ℕ
push_digit base n none = none
push_digit base n (some d) = if ltb d base then some (n * base + d) else none

unfoldable pub parse_digits : ℕ → Option ℕ → List ℕ → Option ℕ
parse_digits base none digits = none
parse_digits base (some n) [] = some n
parse_digits base (some n) (c ∷ digits) =
    parse_digits base (push_digit base n (digit_value c)) digits

-- The signs and the range of a 64-bit integer.
abbrev pub signed : Option ℕ → Option ℤ
signed none = none
signed (some n) = if ltb n (2 ^ 63) then some (pos n) else none

abbrev pub negated : Option ℕ → Option ℤ
negated none = none
negated (some zero) = some (pos 0)
negated (some (suc n)) = if leb (suc n) (2 ^ 63) then some (negsuc n) else none

-- At least one digit.
unfoldable pub parse_nat : ℕ → List ℕ → Option ℕ
unfolding parse_digits
parse_nat base [] = none
parse_nat base (c ∷ digits) = parse_digits base (some 0) (c ∷ digits)

unfoldable pub parse_int : ℕ → List ℕ → Option ℤ
unfolding parse_nat
parse_int base [] = none
parse_int base (c ∷ digits) =
    if c == b'+'
    then signed (parse_nat base digits)
    else if c == b'-'
    then negated (parse_nat base digits)
    else signed (parse_nat base (c ∷ digits))
