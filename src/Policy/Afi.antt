-- ===== src/Policy/Afi.antt =====
-- policy/afi.go: the address families that a policy is in effect for.
use rpsl.Base.{Bool, true, false, ◌||◌, List, [], ◌∷◌, if◌then◌else◌}
use rpsl.Types.AddrFamily.{AddrFamily, afi_v4, safi_unicast, covers}
use rpsl.Policy.Ast.{Import}

abbrev pub ipv4_unicast : AddrFamily
ipv4_unicast = record { afi = afi_v4; safi = safi_unicast }

-- The loop: whether some entry covers `af`.
unfoldable pub any_covers : List AddrFamily → AddrFamily → Bool
any_covers [] af = false
any_covers (a ∷ afis) af = if covers a af then true else any_covers afis af

unfoldable pub afis_apply : List AddrFamily → Bool → AddrFamily → Bool
afis_apply [] mp af = mp || covers ipv4_unicast af
afis_apply (a ∷ afis) mp af = any_covers (a ∷ afis) af

unfoldable pub applies_to : Import → AddrFamily → Bool
applies_to i af = afis_apply i.afis i.mp af
