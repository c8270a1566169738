-- ===== src/Types/PrefixSpace.antt =====
-- types/prefixspace.go and types/prefixspace_ops.go: exact sets of prefixes of both families, one
-- trie each. The pointer comparison of `Equal` is the parameter `same` (see SpaceNode).
pub mod Laws
pub mod SpaceOf
pub mod Whole
pub mod Inclusion
use rpsl.Base.{
  ℕ, zero, suc, ◌+◌, ◌*◌, ◌/◌, max, Bool, true, false, not, ◌&&◌, ◌||◌, List, [], ◌∷◌, ◌==◌,
  if◌then◌else◌,
}
use rpsl.Types.AddrFamily.{Afi, afi_unspecified, afi_v4, afi_v6, afi_any}
use rpsl.Types.LenMask
use rpsl.Types.LenMask.{LenMask, empty, window}
use rpsl.Types.Netip.{Addr, Prefix, bit_at, masked}
use rpsl.Types.PrefixRange
use rpsl.Types.PrefixRange.{PrefixRange}
use rpsl.Types.SpaceNode.Insert.{insert_at}
use rpsl.Types.SpaceNode.{
  SpaceNode, nil, node, is_nil, normalize, SetOp, op_union, op_intersect, op_minus, merge, in_node,
  equal_node, subset_node,
}

pub record PrefixSpace : Type 0 where
  pub v4 : SpaceNode
  pub v6 : SpaceNode

abbrev pub addr_bit : Addr → ℕ → Bool
addr_bit a d = bit_at a d == 1

-- One round of the loop of `SpaceOf` on the two raw tries.
unfoldable pub add_range : PrefixSpace → PrefixRange → PrefixSpace
add_range raw r =
    let p = r.prefix in
    let m = window (max r.lo p.len) r.hi in
    if PrefixRange.is_empty r
    then raw
    else if p.addr.is4
    then record raw { v4 = insert_at p.len raw.v4 (addr_bit p.addr) 0 m }
    else record raw { v6 = insert_at p.len raw.v6 (addr_bit p.addr) 0 m }

unfoldable pub raw_of : PrefixSpace → List PrefixRange → PrefixSpace
raw_of raw [] = raw
raw_of raw (r ∷ rs) = raw_of (add_range raw r) rs

unfoldable pub space_of : List PrefixRange → PrefixSpace
space_of rs =
    let raw = raw_of (record { v4 = nil; v6 = nil }) rs in
    record { v4 = normalize raw.v4 0 32 empty; v6 = normalize raw.v6 0 128 empty }

unfoldable pub full_space : Afi → PrefixSpace
full_space afi =
    let v4 = node (window 0 32) nil nil in
    let v6 = node (window 0 128) nil nil in
    elim afi [
      | afi_v4 ↦ record { v4 = v4; v6 = nil }
      | afi_v6 ↦ record { v4 = nil; v6 = v6 }
      | _ ↦ record { v4 = v4; v6 = v6 }
    ]

unfoldable pub is_empty : PrefixSpace → Bool
is_empty s = is_nil s.v4 && is_nil s.v6

unfoldable pub equal : (SpaceNode → SpaceNode → Bool) → PrefixSpace → PrefixSpace → Bool
equal same s t = equal_node same s.v4 t.v4 && equal_node same s.v6 t.v6

unfoldable pub contains : PrefixSpace → Prefix → Bool
contains s p =
    if not p.is_valid
    then false
    else let q = masked p in in_node (if q.addr.is4 then s.v4 else s.v6) q.len (addr_bit q.addr) 0

unfoldable pub combine : SetOp → PrefixSpace → PrefixSpace → PrefixSpace
combine op s t = record {
  v4 = merge op 32 s.v4 t.v4 0 empty empty;
  v6 = merge op 128 s.v6 t.v6 0 empty empty;
}

unfoldable pub union : PrefixSpace → PrefixSpace → PrefixSpace
union s t = combine op_union s t

unfoldable pub intersect : PrefixSpace → PrefixSpace → PrefixSpace
intersect s t = combine op_intersect s t

unfoldable pub minus : PrefixSpace → PrefixSpace → PrefixSpace
minus s t = combine op_minus s t

unfoldable pub subset : (SpaceNode → SpaceNode → Bool) → PrefixSpace → PrefixSpace → Bool
subset same s t =
    subset_node same 32 s.v4 t.v4 0 empty empty && subset_node same 128 s.v6 t.v6 0 empty empty
