-- ===== src/Types.antt =====
-- The package types: addresses and prefixes, prefix ranges, and exact sets of prefixes.
pub mod AddrRange
pub mod Netip
pub mod AddrFamily
pub mod LenMask
pub mod SpaceNode
pub mod PrefixRange
pub mod PrefixSpace
pub mod SetName
pub mod SetRef
pub mod Asn
