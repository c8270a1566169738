-- ===== src/Tests/Ranges/Data.antt =====
-- The prefixes and ranges of the tests.
use rpsl.Base.{ℕ, zero, suc, ◌/◌, ◌%◌, ◌^◌, refl, Bool, true, List, [], ◌∷◌, ◌==◌, arith}
use rpsl.Types.Netip.{Prefix, IsPrefix}
use rpsl.Types.PrefixRange.{PrefixRange}
use rpsl.Types.PrefixRange.Laws.{IsRange}

-- The last `n` bits of a number, the most significant first.
abbrev bits_of : ℕ → ℕ → List Bool
bits_of zero x = []
bits_of (suc n) x = (x / 2 ^ n % 2 == 1) ∷ bits_of n x

abbrev pub prefix4 : ℕ → ℕ → Prefix
prefix4 x l = record { is_valid = true; addr = record { is4 = true; bits = bits_of 32 x }; len = l }

abbrev pub range : Prefix → ℕ → ℕ → PrefixRange
range p lo hi = record { prefix = p; lo = lo; hi = hi }

-- 10.0.0.0/8, 10.1.0.0/16 and 192.0.2.0/24
abbrev pub net10 : Prefix
net10 = prefix4 0x0a00_0000 8

abbrev pub net10_1 : Prefix
net10_1 = prefix4 0x0a01_0000 16

abbrev pub net192 : Prefix
net192 = prefix4 0xc000_0200 24

pub net10-IsPrefix : IsPrefix net10
net10-IsPrefix = record { all_bits = refl; len_le = omega arith }

pub net10_1-IsPrefix : IsPrefix net10_1
net10_1-IsPrefix = record { all_bits = refl; len_le = omega arith }

pub net192-IsPrefix : IsPrefix net192
net192-IsPrefix = record { all_bits = refl; len_le = omega arith }

abbrev pub range10 : PrefixRange
range10 = range net10 16 24

abbrev pub range10_1 : PrefixRange
range10_1 = range net10_1 16 32

pub range10-IsRange : IsRange range10
range10-IsRange = record {
  valid = refl;
  base = net10-IsPrefix;
  from_base = omega arith;
  to_width = omega arith;
}

pub range10_1-IsRange : IsRange range10_1
range10_1-IsRange = record {
  valid = refl;
  base = net10_1-IsPrefix;
  from_base = omega arith;
  to_width = omega arith;
}
