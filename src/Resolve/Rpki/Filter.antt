-- ===== src/Resolve/Rpki/Filter.antt =====
-- resolve/rpki/filter.go: the Source that suppresses the routes found invalid. The Source behind it is
-- a parameter, as are its objects of other classes; what `OnSuppress` is called with is a list, in
-- order. A call returns its result or error, and the list.
use rpsl.Base.{
  ℕ, Bool, true, false, not, List, [], ◌∷◌, ◌++◌, Option, none, some, ◌⊎◌, inl, inr, if◌then◌else◌,
}
use rpsl.Types.Netip.{Prefix}
use rpsl.Types.AddrFamily.{Afi}
use rpsl.Resolve.Rpki.{Vrps, State, invalid, validate}

-- A route or route6 object: what the filter reads of it.
pub record RouteObject : Type 0 where
  pub prefix : Prefix
  pub origin : ℕ

-- A decoded object; a nil pointer to a class is `none`.
pub data AnyObject (Other : Type 0) : Type 0 where
  route_object route6_object : Option RouteObject → AnyObject Other
  other_object : Other → AnyObject Other

-- The calls of `OnSuppress` so far.
abbrev pub Log : Type 0
Log = List (Prefix × ℕ)

-- The loop of `keep`, over the elements that are left: `before` are those passed, and `out` is nil
-- until one of them was left out. The test may write to the log.
unfoldable pub keep_loop :
    {A : Type 0}
    → (A → Log → Bool × Log)
    → List A
    → List A
    → Option (List A)
    → Log
    → Option (List A) × Log
keep_loop ok [] before out log = (out, log)
keep_loop ok (x ∷ xs) before out log =
    let (takes, log') = ok x log in
    keep_loop ok xs (before ++ x ∷ [])
      (if not takes
        then elim out [ none ↦ some before | some o ↦ some o ]
        else elim out [ none ↦ none | some o ↦ some (o ++ x ∷ []) ])
      log'

unfoldable pub keep : {A : Type 0} → (A → Log → Bool × Log) → List A → Log → List A × Log
unfolding keep_loop
keep ok xs log =
    let (out, log') = keep_loop ok xs [] none log in (elim out [ none ↦ xs | some o ↦ o ], log')

abbrev pub is_invalid : State → Bool
is_invalid invalid = true
is_invalid _ = false

unfoldable pub route : {Other : Type 0} → AnyObject Other → Option RouteObject
route (route_object r) = r
route (route6_object r) = r
route (other_object o) = none

-- A Filter: its VRPs, and whether `OnSuppress` is set.
pub record Filter : Type 0 where
  pub vrps : Option Vrps
  pub on_suppress : Bool

unfoldable pub suppressed : Filter → Prefix → ℕ → Log → Bool × Log
suppressed f p origin log =
    if not (is_invalid (validate f.vrps p origin))
    then (false, log)
    else (true, if f.on_suppress then log ++ (p, origin) ∷ [] else log)

abbrev pub kept_prefix : Filter → ℕ → Prefix → Log → Bool × Log
kept_prefix f asn p log = let (gone, log') = suppressed f p asn log in (not gone, log')

-- The test of `MembersByRef` on what `route` returns, and on the object.
abbrev pub kept_route : Filter → Option RouteObject → Log → Bool × Log
kept_route f none log = (true, log)
kept_route f (some r) log =
    let (gone, log') = suppressed f r.prefix r.origin log in (not gone, log')

abbrev pub kept_object : {Other : Type 0} → Filter → AnyObject Other → Log → Bool × Log
kept_object f o log = kept_route f (route o) log

module _ {Error Other NamedSet : Type 0} (src_routes : ℕ → Afi → Error ⊎ List Prefix)
    (src_members : NamedSet → Error ⊎ List (AnyObject Other)) where
  unfoldable pub originated_routes : Filter → ℕ → Afi → Log → (Error ⊎ List Prefix) × Log
  unfolding keep
  originated_routes f asn afi log = elim (src_routes asn afi) [
    | inl err ↦ (inl err, log)
    | inr ps ↦ let (kept, log') = keep (kept_prefix f asn) ps log in (inr kept, log')
  ]

  unfoldable pub members_by_ref : Filter → NamedSet → Log → (Error ⊎ List (AnyObject Other)) × Log
  unfolding keep
  members_by_ref f set log = elim (src_members set) [
    | inl err ↦ (inl err, log)
    | inr objs ↦ let (kept, log') = keep (kept_object f) objs log in (inr kept, log')
  ]
