-- ===== src/Tests/Origins.antt =====
-- Origin validation and its filter.
use rpsl.Types.LenMask.{has, set}
use rpsl.Types.Netip.Equality.{prefix_eq}
use rpsl.Base.{ℕ, ◌≡◌, ◌↔◌, refl, true, List, [], ◌∷◌, none, some, ◌⊎◌, inl, inr}
use rpsl.Types.Netip.{Prefix, masked}
use rpsl.Types.AddrFamily.{Afi, afi_any}
use rpsl.Resolve.Rpki.{Vrp, Vrps, new_vrps, validate, valid, invalid, not_found, no_family}
use rpsl.Resolve.Rpki.Built.{AllVrp, new_vrps-AllVrp}
use rpsl.Resolve.Rpki.Origin.{state_of, validate-new_vrps}
use rpsl.Resolve.Rpki.Filter.{Filter, AnyObject, originated_routes, members_by_ref, suppressed}
use rpsl.Resolve.Rpki.Suppress.{accepted, survives, reports, for_origin, filter-accepted}
use rpsl.Tests.Ranges.Data.{net10, net10_1, net192, net10-IsPrefix, net10_1-IsPrefix}

abbrev vrp : Prefix → ℕ → ℕ → Vrp
vrp p max_length asn = record { prefix = p; max_length = max_length; asn = asn; ta = [] }

-- AS1 may originate 10.0.0.0/8 up to /12, and nobody 10.1.0.0/16.
abbrev payloads : List Vrp
payloads = vrp net10 12 1 ∷ vrp net10_1 16 0 ∷ []

abbrev index : Vrps
unfolding new_vrps
index = elim (new_vrps payloads) [
  | none ↦ record { all = []; v4 = no_family; v6 = no_family }
  | some s ↦ s
]

index_run : new_vrps payloads ≡ some index
unfolding new_vrps index masked prefix_eq
index_run = refl

validate_run :
    (validate (some index) net10 1 ≡ valid)
    × (validate (some index) net10 2 ≡ invalid)
    × (validate (some index) net10_1 1 ≡ invalid)
    × (validate (some index) net192 1 ≡ not_found)
    × (validate none net10 1 ≡ not_found)
unfolding validate index new_vrps masked has prefix_eq set
validate_run = (refl, refl, refl, refl, refl)

-- A maximal length below the prefix's own is refused.
refused_run : new_vrps (vrp net10_1 8 1 ∷ []) ≡ none
unfolding new_vrps masked prefix_eq
refused_run = refl

validate-new_vrps_example : validate (some index) net10_1 1 ≡ state_of payloads net10_1 1
validate-new_vrps_example =
    validate-new_vrps payloads index net10_1 1 index_run (net10-IsPrefix, (net10_1-IsPrefix, tt))
      net10_1-IsPrefix

new_vrps-AllVrp_example : ((t : Vrps) × (new_vrps payloads ≡ some t)) ↔ AllVrp payloads
new_vrps-AllVrp_example = new_vrps-AllVrp payloads

abbrev filter : Filter
filter = record { vrps = some index; on_suppress = true }

abbrev routes : ℕ → Afi → ℕ ⊎ List Prefix
routes asn afi = inr (net10 ∷ net10_1 ∷ net192 ∷ [])

abbrev members : ℕ → ℕ ⊎ List (AnyObject ℕ)
members set = inl 7

originated_routes_run :
    originated_routes routes members filter 1 afi_any []
    ≡ (inr (net10 ∷ net192 ∷ []), (net10_1, 1) ∷ [])
unfolding originated_routes validate index new_vrps masked suppressed has prefix_eq set
originated_routes_run = refl

filter-accepted_example :
    (originated_routes routes members filter 1 afi_any [] ≡ (
      inr (accepted (survives filter (for_origin 1)) (net10 ∷ net10_1 ∷ net192 ∷ [])),
      reports filter (for_origin 1) (net10 ∷ net10_1 ∷ net192 ∷ []),
    ))
    × (members_by_ref routes members filter 0 [] ≡ (inl 7, []))
filter-accepted_example = filter-accepted routes members filter 1 afi_any 0 []
