-- ===== src/Resolve/Expand/Ranges.antt =====
-- resolve/expander.go: `fetchRoutes`, `ExpandPrefixRanges` with `expandRanges`, and `expandAS`. The memo
-- is not modelled.
use rpsl.Base.{
  ℕ, Bool, true, false, not, ◌&&◌, List, [], ◌∷◌, ◌++◌, Option, none, some, any, length, ◌==◌,
  if◌then◌else◌,
}
use rpsl.Lexer.Text.{Bytes}
use rpsl.Object.Members.{SetMember, MemberKind, member_as}
use rpsl.Object.Sets.{ClaimObject, aut_num}
use rpsl.Resolve.Expand.{
  Source, Expander, ExpandError, Fetched, fetched, fetch_failed, wrong_class, fetch_error,
  max_prefixes, excludes_as, members,
}
use rpsl.Resolve.Expand.Discover.{SetNode, SetGraph, sort_refs, discover}
use rpsl.Resolve.Expand.Evaluate.{Eval, lookup, evaluate}
use rpsl.Resolve.Expand.Outcome.{Outcome, done, failed, and_then}
use rpsl.Types.Netip.{Prefix}
use rpsl.Types.PrefixRange.{PrefixRange}
use rpsl.Types.SetName.{class_as_set, class_route_set, class_eq}
use rpsl.Types.SetRef.{SetRef, ref_eq}

pub record RangeSet : Type 0 where
  pub ranges : List PrefixRange
  pub missing : List SetRef

-- An ASNSet; its numbers are in the order in which they are added.
pub record AsnSet : Type 0 where
  pub is_any : Bool
  pub asns : List ℕ
  pub missing : List SetRef

-- The keys of the map of nodes, without the top.
unfoldable pub others : SetRef → List (SetRef × SetNode) → List SetRef
unfolding ref_eq
others top [] = []
others top ((r, nd) ∷ more) = let rest = others top more in if ref_eq r top then rest else r ∷ rest

unfoldable pub with_node : Option SetNode → List SetNode → List SetNode
with_node none rest = rest
with_node (some nd) rest = nd ∷ rest

unfoldable pub nodes_at : List (SetRef × SetNode) → List SetRef → List SetNode
unfolding lookup with_node
nodes_at nodes [] = []
nodes_at nodes (r ∷ rs) = with_node (lookup r nodes) (nodes_at nodes rs)

unfoldable pub ordered : SetGraph → List SetNode
unfolding nodes_at others sort_refs
ordered g = nodes_at g.nodes (g.top ∷ sort_refs (others g.top g.nodes))

abbrev pub is_member_as : MemberKind → Bool
is_member_as member_as = true
is_member_as _ = false

-- The AS numbers among the members, and among the indirect members, that are not left out.
unfoldable pub member_asns : Expander → List SetMember → List ℕ
unfolding excludes_as
member_asns e [] = []
member_asns e (m ∷ ms) =
    let rest = member_asns e ms in
    if is_member_as m.kind && not (excludes_as e m.as_num) then m.as_num ∷ rest else rest

abbrev pub aut_num_as : ClaimObject → Option ℕ
aut_num_as (aut_num a c) = some a
aut_num_as _ = none

unfoldable pub with_asn : Expander → Option ℕ → List ℕ → List ℕ
unfolding excludes_as
with_asn e none rest = rest
with_asn e (some a) rest = if not (excludes_as e a) then a ∷ rest else rest

unfoldable pub claim_asns : Expander → List ClaimObject → List ℕ
unfolding with_asn
claim_asns e [] = []
claim_asns e (o ∷ os) = with_asn e (aut_num_as o) (claim_asns e os)

unfoldable pub node_asns : Expander → List SetNode → List ℕ
unfolding member_asns claim_asns members
node_asns e [] = []
node_asns e (nd ∷ nds) = member_asns e (members nd.set) ++ claim_asns e nd.claims ++ node_asns e nds

-- `add`, of the numbers that follow the ones in `need`.
unfoldable pub add_asns : List ℕ → List ℕ → List ℕ
add_asns need [] = need
add_asns need (a ∷ more) = add_asns (if any (λ b. a == b) need then need else need ++ a ∷ []) more

-- `g.routes`, for an AS that may not be in it.
unfoldable pub routes_at : List (ℕ × List Prefix) → ℕ → List Prefix
routes_at [] a = []
routes_at ((b, ps) ∷ more) a = if a == b then ps else routes_at more a

-- The values of the map of nodes.
unfoldable pub all_nodes : List (SetRef × SetNode) → List SetNode
all_nodes [] = []
all_nodes ((r, nd) ∷ more) = nd ∷ all_nodes more

unfoldable pub asns_of : Expander → SetGraph → AsnSet
unfolding add_asns node_asns all_nodes
asns_of e g =
    if length g.any_refs == 0
    then (record {
      is_any = false;
      asns = add_asns [] (node_asns e (all_nodes g.nodes));
      missing = g.missing;
    })
    else record { is_any = true; asns = []; missing = [] }

module _ (src : Source) (e : Expander) where
  unfoldable pub add_routes_of :
      ℕ
      → Fetched (List Prefix)
      → Outcome ExpandError (List (ℕ × List Prefix))
      → Outcome ExpandError (List (ℕ × List Prefix))
  unfolding and_then
  add_routes_of a (fetch_failed f) rest = failed fetch_error
  add_routes_of a (fetched ps) rest = and_then rest (λ table. done ((a, ps) ∷ table))

  unfoldable pub fetch_each : List ℕ → Outcome ExpandError (List (ℕ × List Prefix))
  unfolding add_routes_of
  fetch_each [] = done []
  fetch_each (a ∷ need) = add_routes_of a (src.originated_routes a e.afi) (fetch_each need)

  unfoldable pub fetch_routes : SetGraph → Outcome ExpandError (List (ℕ × List Prefix))
  unfolding fetch_each add_asns node_asns ordered
  fetch_routes g = fetch_each (add_asns [] (node_asns e (ordered g)))

module _ (trim_space : Bytes → Bytes) (src : Source) (e : Expander) where
  abbrev pub range_set : SetGraph → Eval → Outcome ExpandError RangeSet
  range_set g v = done (record { ranges = v.out; missing = g.missing })

  abbrev pub ranges_of : ℕ → SetGraph → Outcome ExpandError RangeSet
  ranges_of max_ranges g =
      and_then (fetch_routes src e g)
        (λ table. and_then (evaluate e g (routes_at table) max_ranges g.top) (range_set g))

  unfoldable pub expand_ranges : SetRef → ℕ → Outcome ExpandError RangeSet
  unfolding discover fetch_routes evaluate routes_at and_then
  expand_ranges top max_ranges =
      if not (class_eq top.name.set_class class_as_set)
        && not (class_eq top.name.set_class class_route_set)
      then failed wrong_class
      else and_then (discover trim_space src e false top) (ranges_of max_ranges)

  unfoldable pub expand_prefix_ranges : SetRef → Outcome ExpandError RangeSet
  unfolding expand_ranges max_prefixes
  expand_prefix_ranges top = expand_ranges top (max_prefixes e)

  unfoldable pub expand_as : Bool → SetRef → Outcome ExpandError AsnSet
  unfolding discover asns_of and_then
  expand_as any_leaf top =
      if not (class_eq top.name.set_class class_as_set)
      then failed wrong_class
      else and_then (discover trim_space src e any_leaf top) (λ g. done (asns_of e g))
