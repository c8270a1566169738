-- ===== src/Resolve/Expand.antt =====
-- resolve/expander.go: the expansion of sets. This file has the limits, what an expansion leaves out,
-- and the fetching of one set. The Source is a parameter: its answers do not change during an
-- expansion. The context is never cancelled, and the results of concurrent fetches are read in the
-- order of the references, so that fetching is one after the other.
pub mod Outcome
pub mod Discover
pub mod Reachable
pub mod Levels
pub mod Found
pub mod Evaluate
pub mod States
pub mod Adding
pub mod Walk
pub mod Evaluated
pub mod Ranges
pub mod Peerings
pub mod Numbers
pub mod Transfer
pub mod Nested
pub mod Lookups
pub mod Top
pub mod Answer
pub mod Expansion
pub mod Denoted
use rpsl.Base.{
  ℕ, zero, suc, ◌+◌, ◌-◌, ◌^◌, Bool, true, false, not, ◌&&◌, ◌||◌, List, [], ◌∷◌, Option, none,
  some, any, length, ◌==◌, if◌then◌else◌,
}
use rpsl.Lexer.Text.{Bytes}
use rpsl.Object.Members.{SetMember, is_member_set, ref_of, direct_members}
use rpsl.Object.Sets.{
  NamedSet, RtrMemberKind, RtrSetMember, rtr_member_set, ClaimObject, Body, set_body, router_group,
  peering_group, other_body,
}
use rpsl.Policy.Ast.{Peering, peering_set_ref}
use rpsl.Resolve.Claims.{claim_class_ok, claim_allowed, equal_fold_ascii}
use rpsl.Types.AddrFamily.{Afi, afi_v4, afi_v6}
use rpsl.Types.Netip.{Prefix}
use rpsl.Types.SetName.{
  SetName, SetClass, class_as_set, class_route_set, class_rtr_set, class_peering_set, class_eq,
  class_text, text_eq, name_eq,
}
use rpsl.Types.SetRef
use rpsl.Types.SetRef.{SetRef, ref}

-- How a Source fails: with ErrNotFound, or otherwise.
pub data FetchError : Type 0 where
  not_found other_error : FetchError

pub data Fetched {ℓ} (A : Type ℓ) : Type ℓ where
  fetched : A → Fetched A
  fetch_failed : FetchError → Fetched A

-- A set may be nil.
pub record Source : Type 0 where
  pub get_set : SetRef → Fetched (Option NamedSet)
  pub members_by_ref : NamedSet → Fetched (List ClaimObject)
  pub originated_routes : ℕ → Afi → Fetched (List Prefix)

-- Go's `int`: a number, or one less than the negative of a number.
pub data ℤ : Type 0 where
  pos negsuc : ℕ → ℤ

abbrev pub max_int : ℕ
max_int = 2 ^ 63 - 1

-- `limit`
unfoldable pub limit : ℤ → ℕ → ℕ
limit (pos zero) def = def
limit (pos (suc n)) def = suc n
limit (negsuc n) def = max_int

-- The fields of an Expander that the expansion of sets reads, with its Exclude.
pub record Expander : Type 0 where
  pub max_depth_of : ℤ
  pub max_prefixes_of : ℤ
  pub max_visited_of : ℤ
  pub afi : Afi
  pub excluded_sets : List SetName
  pub excluded_asns : List ℕ

unfoldable pub max_depth : Expander → ℕ
unfolding limit
max_depth e = limit e.max_depth_of 32

unfoldable pub max_prefixes : Expander → ℕ
unfolding limit
max_prefixes e = limit e.max_prefixes_of (2 ^ 20)

unfoldable pub max_visited : Expander → ℕ
unfolding limit
max_visited e = limit e.max_visited_of (2 ^ 17)

-- `excluded.set` and `excluded.as`
unfoldable pub excludes_set : Expander → SetName → Bool
unfolding text_eq
excludes_set e n = any (λ (m : SetName). text_eq m.canon n.canon) e.excluded_sets

unfoldable pub excludes_as : Expander → ℕ → Bool
excludes_as e a = any (λ b. b == a) e.excluded_asns

unfoldable pub afi_allows : Expander → Prefix → Bool
afi_allows e p = elim e.afi [ afi_v4 ↦ p.addr.is4 | afi_v6 ↦ not p.addr.is4 | _ ↦ true ]

-- Which limit a SetTooLargeError names.
pub data Limit : Type 0 where
  limit_depth limit_visited limit_prefixes : Limit

pub data ExpandError : Type 0 where
  wrong_class top_not_found fetch_error : ExpandError
  any_set : SetName → ExpandError
  too_large : Limit → ℕ → ℕ → ExpandError

-- `members`
unfoldable pub body_members : Body → List SetMember
unfolding direct_members
body_members (set_body listed src) = direct_members src listed
body_members _ = []

unfoldable pub members : NamedSet → List SetMember
unfolding body_members
members set = body_members set.body

unfoldable pub nestable : SetClass → SetClass → Bool
nestable parent child = elim parent [
  | class_as_set ↦ class_eq child class_as_set
  | class_route_set ↦ class_eq child class_route_set || class_eq child class_as_set
  | class_rtr_set ↦ class_eq child class_rtr_set
  | class_peering_set ↦ class_eq child class_peering_set
  | _ ↦ false
]

-- `rest` behind the reference of the member, where it has one that may be nested.
unfoldable pub nest : SetClass → SetMember → Option SetRef → List SetRef → List SetRef
unfolding nestable
nest parent m none rest = rest
nest parent m (some r) rest =
    if is_member_set m.kind && nestable parent m.set_name.set_class && not (SetRef.is_zero r)
    then r ∷ rest
    else rest

-- The references of one loop of `nestedRefs` each.
unfoldable pub nested_members : SetClass → List SetMember → List SetRef
unfolding nest ref_of
nested_members parent [] = []
nested_members parent (m ∷ ms) = nest parent m (ref_of m) (nested_members parent ms)

abbrev pub is_rtr_member_set : RtrMemberKind → Bool
is_rtr_member_set rtr_member_set = true
is_rtr_member_set _ = false

unfoldable pub nested_routers : SetClass → List RtrSetMember → List SetRef
unfolding nestable
nested_routers parent [] = []
nested_routers parent (m ∷ ms) =
    let rest = nested_routers parent ms in
    if is_rtr_member_set m.kind && nestable parent m.set_name.set_class
    then ref m.set_name ∷ rest
    else rest

unfoldable pub nested_peerings : SetClass → List Peering → List SetRef
unfolding nestable
nested_peerings parent [] = []
nested_peerings parent (p ∷ ps) =
    let rest = nested_peerings parent ps in
    elim p [
      | peering_set_ref n ↦ if nestable parent n.set_class then ref n ∷ rest else rest
      | _ ↦ rest
    ]

unfoldable pub body_refs : SetClass → Body → List SetRef
unfolding nested_members nested_routers nested_peerings direct_members
body_refs parent (set_body listed src) = nested_members parent (direct_members src listed)
body_refs parent (router_group routers) = nested_routers parent routers
body_refs parent (peering_group peerings) = nested_peerings parent peerings
body_refs parent other_body = []

unfoldable pub nested_refs : NamedSet → List SetRef
unfolding body_refs
nested_refs set = body_refs set.name.set_class set.body

module _ (trim_space : Bytes → Bytes) (src : Source) where
  -- `checkSet`
  unfoldable pub check_set : SetRef → Option NamedSet → Fetched NamedSet
  unfolding name_eq class_text text_eq
  check_set r none = fetch_failed not_found
  check_set r (some set) =
      if not (name_eq set.name r.name)
      then fetch_failed other_error
      else if SetRef.is_scoped r && not (equal_fold_ascii (trim_space set.source) r.source)
      then fetch_failed other_error
      else if not (text_eq set.class (class_text r.name.set_class))
      then fetch_failed not_found
      else fetched set

  unfoldable pub check_fetched : SetRef → Fetched (Option NamedSet) → Fetched NamedSet
  unfolding check_set
  check_fetched r (fetch_failed e) = fetch_failed e
  check_fetched r (fetched set) = check_set r set

  -- `fetchOne`
  unfoldable pub fetch_one : SetRef → Fetched NamedSet
  unfolding check_fetched
  fetch_one r = check_fetched r (src.get_set r)

  unfoldable pub honoured : NamedSet → List ClaimObject → List ClaimObject
  unfolding claim_class_ok claim_allowed
  honoured set [] = []
  honoured set (o ∷ objs) =
      let rest = honoured set objs in
      if claim_class_ok set o && claim_allowed trim_space o set then o ∷ rest else rest

  -- `claimsOf`; no error of it is ErrNotFound.
  unfoldable pub claims_of : NamedSet → Fetched (List ClaimObject)
  unfolding honoured
  claims_of set =
      if length set.ref_mntners == 0 then fetched [] else elim (src.members_by_ref set) [
        | fetch_failed e ↦ fetch_failed other_error
        | fetched objs ↦ fetched (honoured set objs)
      ]
