-- ===== src/Types/LenMask.antt =====
-- types/prefixspace.go, the type lenMask: a set of prefix lengths as three 64-bit words, bit l of
-- word l/64 for the length l. A word is a number below 2 ^ 64 (`IsMask`). Lengths are below 192,
-- where Go would index past the array.
pub mod Laws
use mathlib.Core.Option
use rpsl.Base.{
  ℕ, zero, suc, ◌+◌, ◌-◌, ◌*◌, ◌/◌, ◌%◌, ◌^◌, ◌<◌, Bool, true, false, not, ◌&&◌, Option, none, some,
  bit_and, bit_or, ◌==◌, if◌then◌else◌,
}
use rpsl.Base.Bits.{and_not as word_and_not}

pub record LenMask : Type 0 where
  pub w0 : ℕ
  pub w1 : ℕ
  pub w2 : ℕ

-- `m[i]`
pub word : LenMask → ℕ → ℕ
word m zero = m.w0
word m (suc zero) = m.w1
word m _ = m.w2

-- `m[i] = x`
pub set_word : LenMask → ℕ → ℕ → LenMask
set_word m zero x = record m { w0 = x }
set_word m (suc zero) x = record m { w1 = x }
set_word m _ x = record m { w2 = x }

unfoldable pub has : LenMask → ℕ → Bool
unfolding word
has m l = not (bit_and (word m (l / 64)) (2 ^ (l % 64)) == 0)

unfoldable pub set : LenMask → ℕ → LenMask
unfolding word set_word
set m l = set_word m (l / 64) (bit_or (word m (l / 64)) (2 ^ (l % 64)))

unfoldable pub is_zero : LenMask → Bool
is_zero m = bit_or (bit_or m.w0 m.w1) m.w2 == 0

unfoldable pub and : LenMask → LenMask → LenMask
and m o = record { w0 = bit_and m.w0 o.w0; w1 = bit_and m.w1 o.w1; w2 = bit_and m.w2 o.w2 }

unfoldable pub or : LenMask → LenMask → LenMask
or m o = record { w0 = bit_or m.w0 o.w0; w1 = bit_or m.w1 o.w1; w2 = bit_or m.w2 o.w2 }

unfoldable pub and_not : LenMask → LenMask → LenMask
and_not m o = record {
  w0 = word_and_not m.w0 o.w0;
  w1 = word_and_not m.w1 o.w1;
  w2 = word_and_not m.w2 o.w2;
}

unfoldable pub equal : LenMask → LenMask → Bool
equal m o = m.w0 == o.w0 && m.w1 == o.w1 && m.w2 == o.w2

-- `lenMask{}`
abbrev pub empty : LenMask
empty = record { w0 = 0; w1 = 0; w2 = 0 }

-- `bits.TrailingZeros64`, with the number of bits still to look at.
pub trailing_zeros : ℕ → ℕ → ℕ
trailing_zeros zero x = 0
trailing_zeros (suc n) x = if x % 2 == 1 then 0 else suc (trailing_zeros n (x / 2))

-- The rest of the loop of `lowest`, from word `w`; `none` is the result -1.
pub lowest_word : ℕ → ℕ → Option ℕ → Option ℕ
unfolding trailing_zeros
lowest_word w x rest = if x == 0 then rest else some (w * 64 + trailing_zeros 64 x)

unfoldable pub lowest : LenMask → Option ℕ
unfolding lowest_word
lowest m = lowest_word 0 m.w0 (lowest_word 1 m.w1 (lowest_word 2 m.w2 none))

-- The inner loop of `geMask`: the lengths l, l + 1, …, with the number of rounds left.
pub set_from : ℕ → ℕ → LenMask → LenMask
set_from zero l m = m
set_from (suc rounds) l m = set_from rounds (l + 1) (set m l)

-- `geMask[d]`
unfoldable pub ge_mask : ℕ → LenMask
unfolding set_from set
ge_mask d = set_from (129 - d) d empty

unfoldable pub window : ℕ → ℕ → LenMask
unfolding ge_mask and_not
window lo hi = and_not (ge_mask lo) (ge_mask (hi + 1))

unfoldable pub one : ℕ → LenMask
unfolding window
one l = window l l
