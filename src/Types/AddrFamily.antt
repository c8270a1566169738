-- ===== src/Types/AddrFamily.antt =====
-- types/addrfamily.go: address families, and the relation Covers. Texts are not modelled.
use rpsl.Base.{Bool, true, false, not, ◌&&◌, if◌then◌else◌}

pub data Afi : Type 0 where
  afi_unspecified afi_v4 afi_v6 afi_any : Afi

pub data Safi : Type 0 where
  safi_unspecified safi_unicast safi_multicast : Safi

pub record AddrFamily : Type 0 where
  pub afi : Afi
  pub safi : Safi

-- Go's `==` on the two enumerations.
abbrev afi_eq : Afi → Afi → Bool
afi_eq afi_unspecified afi_unspecified = true
afi_eq afi_v4 afi_v4 = true
afi_eq afi_v6 afi_v6 = true
afi_eq afi_any afi_any = true
afi_eq _ _ = false

abbrev safi_eq : Safi → Safi → Bool
safi_eq safi_unspecified safi_unspecified = true
safi_eq safi_unicast safi_unicast = true
safi_eq safi_multicast safi_multicast = true
safi_eq _ _ = false

unfoldable pub covers : AddrFamily → AddrFamily → Bool
covers a b =
    if not (afi_eq a.afi afi_any) && not (afi_eq a.afi b.afi)
    then false
    else if not (safi_eq a.safi safi_unspecified) && not (safi_eq a.safi b.safi)
    then false
    else true
