-- ===== src/Resolve/OpStack.antt =====
-- resolve/opstack.go: a stack of range operators as the table of what it does to a lower bound, for
-- each address family. An array of bytes is the list of its entries.
pub mod Entry
pub mod Invariant
pub mod Compose
pub mod Path
use rpsl.Base.{
  ℕ, zero, suc, ◌+◌, min, max, Bool, true, false, not, ◌||◌, List, [], ◌∷◌, Option, none, some,
  get_or, replicate, ◌==◌, ltb, if◌then◌else◌,
}
use rpsl.Types.PrefixRange.{
  PrefixRange, RangeOperator, is_empty, new_prefix_range, op_lengths, op_is_zero, u8,
}

abbrev pub deleted : ℕ
deleted = 0xff

pub record OpStack : Type 0 where
  pub set : Bool
  pub hi4 : ℕ
  pub hi6 : ℕ
  pub lo4 : List ℕ
  pub lo6 : List ℕ

-- The zero opStack.
abbrev pub empty : OpStack
empty = record { set = false; hi4 = 0; hi6 = 0; lo4 = replicate 33 0; lo6 = replicate 129 0 }

-- What `family` returns: a table, its upper bound, and the width of its addresses.
pub record Family : Type 0 where
  pub lo : List ℕ
  pub hi : ℕ
  pub max_bits : ℕ

unfoldable pub family : OpStack → Bool → Family
family s true = record { lo = s.lo6; hi = s.hi6; max_bits = 128 }
family s false = record { lo = s.lo4; hi = s.hi4; max_bits = 32 }

-- The lower bound of `o` over a range whose lowest length is `k`, and its upper bound.
abbrev pub bounds_of : RangeOperator → ℕ → ℕ → ℕ × ℕ
bounds_of o k max_bits = let (lo, hi) = op_lengths o k max_bits in (max lo k, min hi max_bits)

-- The entry `clo[k]`.
unfoldable pub entry : Bool → Family → RangeOperator → ℕ → ℕ
unfolding op_lengths
entry set f o k =
    let (lo, hi) = bounds_of o k f.max_bits in
    if ltb hi lo then deleted else if set then get_or f.lo lo 0 else u8 lo

-- The entries from `k` on, `n` of them.
unfoldable pub entries : Bool → Family → RangeOperator → ℕ → ℕ → List ℕ
unfolding entry
entries set f o zero k = []
entries set f o (suc n) k = entry set f o k ∷ entries set f o n (k + 1)

-- The upper bound is set in the last round; it is the same in every round.
unfoldable pub upper : Bool → Family → RangeOperator → ℕ
unfolding op_lengths
upper set f o = if set then f.hi else u8 (bounds_of o f.max_bits f.max_bits).1

unfoldable pub push : OpStack → RangeOperator → OpStack
unfolding family entries upper
push s o = if op_is_zero o.kind then s else (record {
  set = true;
  hi4 = upper s.set (family s false) o;
  hi6 = upper s.set (family s true) o;
  lo4 = entries s.set (family s false) o 33 0;
  lo6 = entries s.set (family s true) o 129 0;
})

unfoldable pub apply : OpStack → PrefixRange → Option PrefixRange
unfolding family
apply s r =
    let f = family s (not r.prefix.addr.is4) in
    let lo = get_or f.lo r.lo 0 in
    if is_empty r
    then none
    else if not s.set
    then some r
    else if ltb f.max_bits r.lo || lo == deleted
    then none
    else new_prefix_range r.prefix lo f.hi
