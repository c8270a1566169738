-- ===== src/Types/Asn.antt =====
-- types/asn.go: AS numbers. `strconv.ParseUint` in base 10 is its documented behaviour: digits only, at
-- least one, with a value in the given number of bits.
use rpsl.Base.{
  ℕ, ◌+◌, ◌-◌, ◌*◌, ◌^◌, Bool, false, not, ◌&&◌, ◌||◌, [], ◌∷◌, Option, none, some, length, take,
  drop, ◌==◌, ltb, leb, if◌then◌else◌,
}
use rpsl.Lexer.Text.{Bytes, trim_pos, index_byte}

unfoldable pub parse_digits : ℕ → Bytes → Option ℕ
parse_digits v [] = some v
parse_digits v (c ∷ s) =
    if leb b'0' c && leb c b'9' then parse_digits (v * 10 + (c - b'0')) s else none

unfoldable pub parse_uint : Bytes → ℕ → Option ℕ
unfolding parse_digits
parse_uint s bits = if length s == 0 then none else elim (parse_digits 0 s) [
  | none ↦ none
  | some v ↦ if ltb v (2 ^ bits) then some v else none
]

-- `strings.EqualFold(s, "as")` on the first two bytes.
abbrev has_as_prefix : Bytes → Bool
has_as_prefix (a ∷ s ∷ _) = (a == b'a' || a == b'A') && (s == b's' || s == b'S')
has_as_prefix _ = false

-- `hi<<16 | lo`, where `lo` has 16 bits.
abbrev both_halves : Option ℕ → Option ℕ → Option ℕ
both_halves (some hi) (some lo) = some (hi * 2 ^ 16 + lo)
both_halves _ _ = none

unfoldable pub parse_number : Bytes → Option ℕ
unfolding index_byte parse_uint
parse_number num = elim (index_byte b'.' num) [
  | some dot ↦ both_halves (parse_uint (take dot num) 16) (parse_uint (drop (dot + 1) num) 16)
  | none ↦ parse_uint num 32
]

unfoldable pub parse_asn : Bytes → Option ℕ
unfolding trim_pos parse_number
parse_asn s =
    let t = (trim_pos s 0).0 in
    if ltb (length t) 3 || not (has_as_prefix t) then none else parse_number (drop 2 t)
