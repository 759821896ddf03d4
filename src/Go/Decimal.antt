-- ===== src/Go/Decimal.antt =====
-- `%d` of package fmt, and `strconv.ParseInt(s, 10, 64)`.
use git_bundle_server.Base.{
  ℕ, zero, suc, ◌+◌, ◌-◌, ◌*◌, ◌/◌, ◌%◌, Text, Bool, ◌&&◌, [], ◌∷◌, Option, none, some,
  if◌then◌else◌, ◌==◌, nat_Eq, leb, ltb, ℤ, ℤ.pos, ℤ.negsuc, max_int64,
}

-- The digits of `n` before `rest`. The fuel is enough if it is above `n`.
unfoldable pub digits_onto : ℕ → ℕ → Text → Text
digits_onto zero n rest = rest
digits_onto (suc f) n rest =
    let more = digits_onto f (n / 10) ((b'0' + n % 10) ∷ rest) in
    if ltb n 10 then (b'0' + n) ∷ rest else more

unfoldable pub show_nat : ℕ → Text
unfolding digits_onto
show_nat n = digits_onto (suc n) n []

-- `fmt.Sprintf("%d", z)`
unfoldable pub show_int : ℤ → Text
unfolding show_nat
show_int (pos n) = show_nat n
show_int (negsuc n) = b'-' ∷ show_nat (n + 1)

abbrev pub is_digit : ℕ → Bool
is_digit c = leb b'0' c && leb c b'9'

-- The value of the digits, after those that gave `acc`.
unfoldable pub read_digits : ℕ → Text → Option ℕ
read_digits acc [] = some acc
read_digits acc (c ∷ s) =
    let rest = read_digits (acc * 10 + (c - b'0')) s in if is_digit c then rest else none

abbrev read_nat : Text → Option ℕ
read_nat [] = none
read_nat (c ∷ s) = read_digits 0 (c ∷ s)

abbrev positive : Option ℕ → Option ℤ
positive none = none
positive (some n) = if leb n max_int64 then some (pos n) else none

abbrev negative : Option ℕ → Option ℤ
negative none = none
negative (some zero) = some (pos 0)
negative (some (suc n)) = if leb n max_int64 then some (negsuc n) else none

-- `strconv.ParseInt(s, 10, 64)`; `none` stands for its errors, syntax and range
unfoldable pub parse_int : Text → Option ℤ
unfolding read_digits
parse_int [] = none
parse_int (c ∷ s) =
    if c == b'-'
    then negative (read_nat s)
    else if c == b'+'
    then positive (read_nat s)
    else positive (read_nat (c ∷ s))
