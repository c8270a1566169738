-- ===== src/Tests/Expansion.antt =====
-- The expansion of sets: a route-set RS-R with a range, itself under ^+ and an as-set AS-A under ^24, where
-- AS-A has AS1, AS2 and the set AS-B, and honours aut-nums of the maintainer M. The registry has no AS-B.
use rpsl.Base.{
  ℕ, ◌≡◌, ◌≢◌, ◌↔◌, ◌≤◌, refl, true, false, List, [], ◌∷◌, Option, none, some, ◌==◌, if◌then◌else◌,
}
use mathlib.Core.List.{Memᴰ}
use rpsl.Ast.{Object}
use rpsl.Lexer.Text.{Bytes}
use rpsl.Object.Members.{MemberKind, SetMember, member_as, member_set, member_prefix_range}
use rpsl.Object.Sets.{NamedSet, ClaimObject, set_body, aut_num, Claimed, inet_rtr}
use rpsl.Resolve.Claims.{claim_allowed}
use rpsl.Resolve.Claims.Honoured.{Honours, claim_allowed_lem}
use rpsl.Resolve.Expand.{
  Source, Expander, fetched, fetch_failed, not_found, pos, too_large, limit_visited, limit_depth,
  limit_prefixes, wrong_class, fetch_one, claims_of, max_prefixes,
}
use rpsl.Resolve.Expand.Answer.{found_at, routes_of}
use rpsl.Resolve.Expand.Discover.{SetNode, SetGraph, discover}
use rpsl.Resolve.Expand.Expansion.{expand_prefix_ranges_lem, expand_as_lem, expansions_end}
use rpsl.Resolve.Expand.Numbers.{Counts}
use rpsl.Resolve.Expand.Outcome.{Outcome, done, failed, stuck}
use rpsl.Resolve.Expand.Ranges.{RangeSet, AsnSet, expand_prefix_ranges, expand_as}
use rpsl.Resolve.Expand.Reachable.{Reach}
use rpsl.Resolve.Expand.States
use rpsl.Tests.Ranges.Data.{net10, net192, range10, range}
use rpsl.Types.AddrFamily.{afi_any}
use rpsl.Types.Netip.{Prefix}
use rpsl.Types.PrefixRange.{
  PrefixRange, RangeOperator, RangeOp, range_exact, range_plus, range_length, is_empty,
}
use rpsl.Types.SetName.{SetName, class_as_set, class_route_set, name_eq}
use rpsl.Types.SetRef.{SetRef, ref}

abbrev pub as_name : ℕ → SetName
as_name c = record { canon = b'A' ∷ b'S' ∷ b'-' ∷ c ∷ []; set_class = class_as_set }

abbrev rs_r : SetName
rs_r = record { canon = b'R' ∷ b'S' ∷ b'-' ∷ b'R' ∷ []; set_class = class_route_set }

abbrev op : RangeOp → RangeOperator
op k = record { kind = k; n = 24; m = 24 }

abbrev pub member : MemberKind → ℕ → SetName → RangeOp → SetMember
member kind a n k = record {
  kind = kind;
  as_num = a;
  set_name = n;
  source = [];
  range = range10;
  op = op k;
  raw = [];
}

abbrev mntner : Bytes
mntner = b'M' ∷ []

abbrev set_of : SetName → Bytes → List SetMember → NamedSet
set_of n class members = record {
  class = class;
  name = n;
  source = [];
  ref_mntners = mntner ∷ [];
  body = set_body members [];
}

abbrev set_r : NamedSet
set_r = set_of rs_r (b'r' ∷ b'o' ∷ b'u' ∷ b't' ∷ b'e' ∷ b'-' ∷ b's' ∷ b'e' ∷ b't' ∷ []) (
    member member_prefix_range 0 rs_r range_exact
    ∷ member member_set 0 rs_r range_plus
    ∷ member member_set 0 (as_name b'A') range_length
    ∷ [])

abbrev set_a : NamedSet
set_a = set_of (as_name b'A') (b'a' ∷ b's' ∷ b'-' ∷ b's' ∷ b'e' ∷ b't' ∷ []) (
    member member_as 1 rs_r range_exact
    ∷ member member_as 2 rs_r range_exact
    ∷ member member_set 0 (as_name b'B') range_exact
    ∷ [])

-- An aut-num that names AS-A and has the maintainer "m".
abbrev claim : ClaimObject
claim =
    aut_num 3 (record {
      member_of = as_name b'A' ∷ [];
      mnt_by = (b'm' ∷ []) ∷ [];
      source = [];
      text = none;
    })

abbrev routes : ℕ → List Prefix
routes a = if a == 1 then net192 ∷ [] else if a == 2 then net10 ∷ [] else []

abbrev registry : Source
unfolding name_eq
registry = record {
  get_set = λ r.
      if name_eq r.name rs_r
      then fetched (some set_r)
      else if name_eq r.name (as_name b'A')
      then fetched (some set_a)
      else fetch_failed not_found;
  members_by_ref = λ set. fetched (claim ∷ []);
  originated_routes = λ a afi. fetched (routes a);
}

-- AS2 is left out.
abbrev pub expander : Expander
expander = record {
  max_depth_of = pos 0;
  max_prefixes_of = pos 0;
  max_visited_of = pos 8;
  afi = afi_any;
  excluded_sets = [];
  excluded_asns = 2 ∷ [];
}

abbrev pub as_is : Bytes → Bytes
as_is s = s

-- The result that an outcome holds.
abbrev result_of : {E S : Type 0} → S → Outcome E S → S
result_of s (done t) = t
result_of s (failed e) = s
result_of s stuck = s

abbrev missing : List SetRef
missing = ref (as_name b'B') ∷ []

abbrev answer : RangeSet
answer = record {
  ranges = range net192 24 24 ∷ range net192 24 32 ∷ range net10 16 32 ∷ range10 ∷ [];
  missing = missing;
}

expand_run : expand_prefix_ranges as_is registry expander (ref rs_r) ≡ done answer
unfolding expand_prefix_ranges is_empty
expand_run = refl

expand_prefix_ranges_lem_example :
    ((r : PrefixRange)
      → (Memᴰ r answer.ranges
          ↔ States.Denotes expander
              (ref rs_r)
              (found_at as_is registry)
              (routes_of registry expander)
              r))
    × ((r : SetRef)
        → (Memᴰ r missing ↔ (
            Reach as_is registry expander (ref rs_r) r
            × (fetch_one as_is registry r ≡ fetch_failed not_found))))
    × (4 ≤ max_prefixes expander)
expand_prefix_ranges_lem_example =
    expand_prefix_ranges_lem as_is registry expander (ref rs_r) answer expand_run

-- AS1 is a member and AS3 claims membership; AS2 is left out.
abbrev numbers : AsnSet
numbers = record { is_any = false; asns = 1 ∷ 3 ∷ []; missing = missing }

expand_as_run : expand_as as_is registry expander false (ref (as_name b'A')) ≡ done numbers
unfolding expand_as
expand_as_run = refl

expand_as_lem_example :
    ((a : ℕ)
      → (Memᴰ a (1 ∷ 3 ∷ []) ↔ (
          (r : SetRef) × (nd : SetNode) × Reach as_is registry expander (ref (as_name b'A')) r
          × (fetch_one as_is registry r ≡ fetched nd.set)
          × (claims_of as_is registry nd.set ≡ fetched nd.claims)
          × Counts expander nd a)))
    × ((r : SetRef)
        → (Memᴰ r missing ↔ (
            Reach as_is registry expander (ref (as_name b'A')) r
            × (fetch_one as_is registry r ≡ fetch_failed not_found))))
expand_as_lem_example =
    expand_as_lem as_is registry expander false (ref (as_name b'A')) numbers expand_as_run refl

abbrev graph : SetGraph
graph = record {
  top = ref rs_r;
  nodes =
      (ref rs_r, record { set = set_r; claims = [] })
      ∷ (ref (as_name b'A'), record { set = set_a; claims = claim ∷ [] })
      ∷ [];
  missing = missing;
  any_refs = [];
  reached = 3;
}

discover_run : discover as_is registry expander false (ref rs_r) ≡ done graph
unfolding discover
discover_run = refl

expansions_end_example :
    (expand_prefix_ranges as_is registry expander (ref rs_r) ≢ stuck)
    × (expand_as as_is registry expander true (ref rs_r) ≢ stuck)
expansions_end_example = expansions_end as_is registry expander true (ref rs_r)

claim_allowed_lem_example : (claim_allowed as_is claim set_a ≡ true) ↔ Honours as_is claim set_a
claim_allowed_lem_example = claim_allowed_lem as_is claim set_a

claim_allowed_run :
    (claim_allowed as_is claim set_a ≡ true) × (claim_allowed as_is claim set_r ≡ false)
unfolding claim_allowed
claim_allowed_run = (refl, refl)

-- An inet-rtr claims membership, here in an as-set, as an aut-num does; an aut-num whose text has no
-- attribute of its key does not.
abbrev fields : Option Object → Claimed
fields text = record {
  member_of = as_name b'A' ∷ [];
  mnt_by = (b'm' ∷ []) ∷ [];
  source = [];
  text = text;
}

claimants_run :
    (claim_allowed as_is (inet_rtr (fields none)) set_a ≡ true)
    × (claim_allowed as_is (aut_num 3 (fields (some (record { attrs = []; trail = [] })))) set_a
        ≡ false)
unfolding claim_allowed
claimants_run = (refl, refl)

-- Each limit in turn, and a set of another class.
limits_run :
    (expand_prefix_ranges as_is registry (record expander { max_prefixes_of = pos 3 }) (ref rs_r)
      ≡ failed (too_large limit_prefixes 3 4))
    × (expand_prefix_ranges as_is registry (record expander { max_visited_of = pos 3 }) (ref rs_r)
        ≡ failed (too_large limit_visited 3 4))
    × (expand_prefix_ranges as_is registry (record expander { max_depth_of = pos 1 }) (ref rs_r)
        ≡ failed (too_large limit_depth 1 2))
    × (expand_as as_is registry expander false (ref rs_r) ≡ failed wrong_class)
unfolding expand_prefix_ranges is_empty expand_as
limits_run = (refl, refl, refl, refl)
