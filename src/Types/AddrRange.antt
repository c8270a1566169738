-- ===== src/Types/AddrRange.antt =====
-- types/addrrange.go, `LastAddr`. A u128 of an address is the list of the address's bits, which is all
-- that the conversions keep of it.
use rpsl.Base.{
  ℕ, ◌-◌, Bool, true, false, not, ◌||◌, List, [], ◌∷◌, ◌++◌, Option, none, some, replicate,
  if◌then◌else◌,
}
use rpsl.Types.Netip.{Addr, Prefix, bit_len}

unfoldable pub bits_or : List Bool → List Bool → List Bool
bits_or [] ys = ys
bits_or (x ∷ xs) [] = x ∷ xs
bits_or (x ∷ xs) (y ∷ ys) = (x || y) ∷ bits_or xs ys

-- The lowest `n` bits of a word of `width` bits.
abbrev pub low_ones : ℕ → ℕ → List Bool
low_ones width n = replicate (width - n) false ++ replicate n true

-- The zero Addr is `none`.
unfoldable pub last_addr : Prefix → Option Addr
unfolding bits_or
last_addr p =
    if not p.is_valid
    then none
    else let w = bit_len p.addr in
      some (record (p.addr) { bits = bits_or p.addr.bits (low_ones w (w - p.len)) })
