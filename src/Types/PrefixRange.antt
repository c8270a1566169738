-- ===== src/Types/PrefixRange.antt =====
-- types/prefixrange.go and types/rangeop.go: a prefix with a window of more-specific lengths, and the
-- operators that follow a '^'. Bounds are `int`s that no caller makes negative, and are stored as
-- bytes. Texts are lists of bytes; an error's message is not modelled.
pub mod Laws
pub mod Operators
use rpsl.Base.{
  ℕ, zero, suc, ◌+◌, ◌-◌, ◌*◌, ◌%◌, ◌^◌, ◌≤◌, ◌<◌, min, max, Bool, true, false, not, ◌&&◌, ◌||◌,
  List, [], ◌∷◌, Option, none, some, length, ◌==◌, ltb, leb, if◌then◌else◌,
}
use rpsl.Types.Netip.{Addr, Prefix, bit_len, masked, prefix_contains}

pub data RangeOp : Type 0 where
  range_exact range_minus range_plus range_length range_range : RangeOp

pub record PrefixRange : Type 0 where
  pub prefix : Prefix
  pub lo : ℕ
  pub hi : ℕ

-- `uint8(n)`
abbrev pub u8 : ℕ → ℕ
u8 n = n % 2 ^ 8

unfoldable pub new_prefix_range : Prefix → ℕ → ℕ → Option PrefixRange
new_prefix_range p lo hi =
    if not p.is_valid
    then none
    else let q = masked p in
      let lo' = max lo q.len in
      let hi' = min hi (bit_len q.addr) in
      if ltb hi' lo' then none else some (record { prefix = q; lo = u8 lo'; hi = u8 hi' })

abbrev pub is_zero : PrefixRange → Bool
is_zero r = not r.prefix.is_valid

unfoldable pub is_empty : PrefixRange → Bool
is_empty r = is_zero r || ltb r.hi r.lo

unfoldable pub op : PrefixRange → RangeOp
op r =
    let bits = r.prefix.len in
    let max_bits = bit_len r.prefix.addr in
    if r.lo == bits && r.hi == bits
    then range_exact
    else if r.lo == bits && r.hi == max_bits
    then range_plus
    else if r.lo == bits + 1 && r.hi == max_bits
    then range_minus
    else if r.lo == r.hi
    then range_length
    else range_range

unfoldable pub contains : PrefixRange → Prefix → Bool
unfolding is_empty
contains r p =
    if is_empty r || not p.is_valid
    then false
    else let q = masked p in
      if ltb q.len r.lo || ltb r.hi q.len then false else prefix_contains r.prefix q.addr

-- `Intersect` past the choice of the base.
unfoldable pub intersect_at : PrefixRange → PrefixRange → Prefix → Option PrefixRange
intersect_at r s base =
    if not (prefix_contains r.prefix base.addr) || not (prefix_contains s.prefix base.addr)
    then none
    else let lo = max (max r.lo s.lo) base.len in
      let hi = min r.hi s.hi in
      if ltb hi lo then none else some (record { prefix = base; lo = u8 lo; hi = u8 hi })

unfoldable pub intersect : PrefixRange → PrefixRange → Option PrefixRange
unfolding is_empty
intersect r s =
    if is_empty r || is_empty s
    then none
    else intersect_at r s (if ltb r.prefix.len s.prefix.len then s.prefix else r.prefix)

-- A range operator detached from any prefix.
pub record RangeOperator : Type 0 where
  pub kind : RangeOp
  pub n : ℕ
  pub m : ℕ

-- The loop of `parseBits`, with the value so far.
pub parse_digits : ℕ → List ℕ → Option ℕ
parse_digits v [] = some v
parse_digits v (c ∷ cs) =
    if ltb c b'0' || ltb b'9' c then none else parse_digits (v * 10 + (c - b'0')) cs

unfoldable pub parse_bits : List ℕ → Option ℕ
unfolding parse_digits
parse_bits s =
    if length s == 0 || ltb 3 (length s)
    then none
    else elim (parse_digits 0 s) [ none ↦ none | some v ↦ if ltb 128 v then none else some (u8 v) ]

-- `strings.Cut(s, "-")`; the flag says whether the separator was found.
pub cut_dash : List ℕ → List ℕ × List ℕ × Bool
cut_dash [] = ([], [], false)
cut_dash (c ∷ cs) =
    let rest = cut_dash cs in if c == b'-' then ([], cs, true) else (c ∷ rest.0, rest.1, rest.2)

abbrev operator : RangeOp → ℕ → ℕ → RangeOperator
operator k n m = record { kind = k; n = n; m = m }

-- `ParseRangeOperator` past its two one-byte cases.
pub parse_lengths : List ℕ → Option RangeOperator
unfolding parse_bits cut_dash
parse_lengths s =
    let (lo, hi, is_range) = cut_dash s in
    elim (parse_bits lo) [
      | none ↦ none
      | some n ↦ if not is_range then some (operator range_length n n) else elim (parse_bits hi) [
        | none ↦ none
        | some m ↦ if ltb m n then none else some (operator range_range n m)
      ]
    ]

unfoldable pub parse_range_operator : List ℕ → Option RangeOperator
unfolding parse_lengths
parse_range_operator (c ∷ []) =
    if c == b'+'
    then some (operator range_plus 0 0)
    else if c == b'-'
    then some (operator range_minus 0 0)
    else parse_lengths (c ∷ [])
parse_range_operator s = parse_lengths s

-- The lengths of the operator over a range whose lowest is `k`, in a family of `max_bits`.
unfoldable pub op_lengths : RangeOperator → ℕ → ℕ → ℕ × ℕ
op_lengths o k max_bits = elim o.kind [
  | range_plus ↦ (k, max_bits)
  | range_minus ↦ (k + 1, max_bits)
  | _ ↦ (o.n, o.m)
]

abbrev pub op_is_zero : RangeOp → Bool
op_is_zero range_exact = true
op_is_zero _ = false

unfoldable pub apply : RangeOperator → PrefixRange → Option PrefixRange
unfolding op_lengths new_prefix_range
apply o r =
    if op_is_zero o.kind
    then some r
    else if is_zero r
    then none
    else let max_bits = bit_len r.prefix.addr in
      let (n, m') = op_lengths o r.lo max_bits in
      let m = min m' max_bits in
      let lo = max n r.lo in if ltb m lo then none else new_prefix_range r.prefix lo m
