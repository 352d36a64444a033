-- ===== src/Text/Numbers.antt =====
-- Decimal and hexadecimal digits of `format!`, and `str::parse` of an unsigned integer.
use agent_feed.Prelude.{
  Option, [], if◌then◌else◌, is_empty, leb, length, list_eq, ltb, nat_eq, none, option_eq, pair_eq,
  some, suc, zero, ℕ, ◌%◌, ◌*◌, ◌++◌, ◌+◌, ◌-◌, ◌/◌, ◌==◌, ◌∷◌,
}
use agent_feed.Text.Chars.{Str, is_ascii_digit}

abbrev digit : ℕ → ℕ
digit d = if ltb d 10 then b'0' + d else b'a' + (d - 10)

-- The digits of `n` in a base, before `acc`, on fuel: `suc n` rounds are enough.
unfoldable pub digits_from : ℕ → ℕ → ℕ → Str → Str
digits_from zero base n acc = acc
digits_from (suc fuel) base n acc =
    let rest = digits_from fuel base (n / base) (digit (n % base) ∷ acc) in
    if n / base == 0 then digit (n % base) ∷ acc else rest

-- `{n}`
unfoldable pub decimal : ℕ → Str
unfolding digits_from
decimal n = digits_from (suc n) 10 n []

abbrev zeros : ℕ → Str
zeros zero = []
zeros (suc n) = b'0' ∷ zeros n

-- `{n:0width x}`
unfoldable pub hex_padded : ℕ → ℕ → Str
unfolding digits_from
hex_padded width n = let ds = digits_from (suc n) 16 n [] in zeros (width - length ds) ++ ds

value_from : ℕ → ℕ → Str → Option ℕ
value_from limit acc [] = some acc
value_from limit acc (c ∷ s) =
    let next = acc * 10 + (c - b'0') in
    let rest = value_from limit next s in
    if is_ascii_digit c then (if leb next limit then rest else none) else none

abbrev unsigned_body : Str → Str
unsigned_body [] = []
unsigned_body (c ∷ s) = if c == b'+' then s else c ∷ s

-- `parse::<u8>()` and the wider ones: one `+` is allowed, then digits up to the type's maximum.
unfoldable pub parse_unsigned : ℕ → Str → Option ℕ
unfolding value_from is_ascii_digit
parse_unsigned limit s =
    let body = unsigned_body s in if is_empty body then none else value_from limit 0 body
