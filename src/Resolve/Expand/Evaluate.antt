-- ===== src/Resolve/Expand/Evaluate.antt =====
-- resolve/expander.go: the evaluation of a discovered graph to ranges (`walk`, `addRoutes` and `add`). A
-- RangeSet is the list of its ranges, each once. The recursion has fuel: a visit takes one.
use rpsl.Base.{
  ℕ, zero, suc, ◌+◌, Bool, true, false, not, ◌&&◌, ◌||◌, List, [], ◌∷◌, Option, none, some, any,
  length, ◌==◌, ltb, if◌then◌else◌,
}
use rpsl.Object.Members.{
  SetMember, MemberKind, member_invalid, member_as, member_set, member_prefix_range, ref_of,
  range_eq,
}
use rpsl.Object.Sets.{ClaimObject, aut_num, route, route6}
use rpsl.Resolve.Expand.{
  Expander, ExpandError, too_large, limit_visited, limit_prefixes, max_visited, excludes_set,
  afi_allows, members, nestable,
}
use rpsl.Resolve.Expand.Discover.{SetNode, SetGraph}
use rpsl.Resolve.Expand.Outcome.{Outcome, done, failed, stuck, and_then, each}
use rpsl.Resolve.OpStack.{OpStack, push, apply, empty}
use rpsl.Types.Netip.{Prefix, masked, bool_eq}
use rpsl.Types.PrefixRange.{PrefixRange, new_prefix_range}
use rpsl.Types.SetName.{text_eq}
use rpsl.Types.SetRef.{SetRef, ref_eq}

-- Go's `==` on stacks, and on the states of the evaluation.
unfoldable pub stack_eq : OpStack → OpStack → Bool
unfolding text_eq
stack_eq s t =
    bool_eq s.set t.set
    && s.hi4 == t.hi4
    && s.hi6 == t.hi6
    && text_eq s.lo4 t.lo4
    && text_eq s.lo6 t.lo6

abbrev pub State : Type 0
State = SetRef × OpStack

unfoldable pub state_eq : State → State → Bool
unfolding ref_eq stack_eq
state_eq (r, s) (q, t) = ref_eq r q && stack_eq s t

-- The evaluator's variables: the sets it fills, and the count of visits.
pub record Eval : Type 0 where
  pub walked : List State
  pub visits : ℕ
  pub out : List PrefixRange

-- `g.nodes[r]`
unfoldable pub lookup : SetRef → List (SetRef × SetNode) → Option SetNode
unfolding ref_eq
lookup r [] = none
lookup r ((q, nd) ∷ more) = let rest = lookup r more in if ref_eq r q then some nd else rest

abbrev pub node_at : SetGraph → SetRef → Option SetNode
node_at g r = lookup r g.nodes

-- The zero PrefixRange.
abbrev pub zero_range : PrefixRange
zero_range = record {
  prefix = record { is_valid = false; addr = record { is4 = false; bits = [] }; len = 0 };
  lo = 0;
  hi = 0;
}

-- The range of a prefix alone.
unfoldable pub exact_range : Prefix → PrefixRange
unfolding new_prefix_range
exact_range p = elim (new_prefix_range p p.len p.len) [ none ↦ zero_range | some r ↦ r ]

-- `RangeSet.add`
unfoldable pub add_range : PrefixRange → List PrefixRange → List PrefixRange
unfolding range_eq
add_range r out = if any (range_eq r) out then out else r ∷ out

module _ (e : Expander) (g : SetGraph) (routes : ℕ → List Prefix) (max_ranges : ℕ) where
  -- `add` on what the operators leave of a range.
  unfoldable pub keep : Option PrefixRange → Eval → Outcome ExpandError Eval
  unfolding afi_allows add_range
  keep none v = done v
  keep (some r) v =
      if not (afi_allows e r.prefix)
      then done v
      else (let v' = record v { out = add_range r v.out } in
          if ltb max_ranges (length v'.out)
          then failed (too_large limit_prefixes max_ranges (length v'.out))
          else done v')

  unfoldable pub add : PrefixRange → OpStack → Eval → Outcome ExpandError Eval
  unfolding apply keep
  add r ops v = keep (apply ops r) v

  -- The body of the loop of `addRoutes`.
  unfoldable pub add_route : OpStack → Prefix → Eval → Outcome ExpandError Eval
  unfolding add exact_range masked
  add_route ops p v = if not p.is_valid then done v else add (exact_range (masked p)) ops v

  unfoldable pub add_routes : List Prefix → OpStack → Eval → Outcome ExpandError Eval
  unfolding each add_route
  add_routes ps ops v = each (add_route ops) ps v

  -- A set that a member names is not walked where it is no node, or was walked under the stack.
  unfoldable pub enter :
      (State → Eval → Outcome ExpandError Eval)
      → State
      → Eval
      → Option SetNode
      → Bool
      → Outcome ExpandError Eval
  enter walk s v none seen = done v
  enter walk s v (some nd) true = done v
  enter walk s v (some nd) false = walk s v

  unfoldable pub follow :
      (State → Eval → Outcome ExpandError Eval)
      → OpStack
      → SetMember
      → Eval
      → Bool
      → Option SetRef
      → Outcome ExpandError Eval
  unfolding push enter lookup state_eq
  follow walk ops m v true r = done v
  follow walk ops m v false none = done v
  follow walk ops m v false (some child) =
      let s : State = (child, push ops m.op) in
      enter walk s v (lookup child g.nodes) (any (state_eq s) v.walked)

  -- A member that is no set the parent may list, or that is left out, is not followed.
  abbrev pub skipped : State → SetMember → Bool
  skipped s m = not (nestable s.0.name.set_class m.set_name.set_class) || excludes_set e m.set_name

  -- The body of the loop over the members, by the kind of the member.
  unfoldable pub add_kind :
      (State → Eval → Outcome ExpandError Eval)
      → State
      → SetMember
      → Eval
      → MemberKind
      → Outcome ExpandError Eval
  unfolding add add_routes push nestable excludes_set ref_of follow
  add_kind walk s m v member_prefix_range = add m.range s.1 v
  add_kind walk s m v member_as = add_routes (routes m.as_num) (push s.1 m.op) v
  add_kind walk s m v member_set = follow walk s.1 m v (skipped s m) (ref_of m)
  add_kind walk s m v member_invalid = done v

  unfoldable pub add_member :
      (State → Eval → Outcome ExpandError Eval)
      → State
      → SetMember
      → Eval
      → Outcome ExpandError Eval
  unfolding add_kind
  add_member walk s m v = add_kind walk s m v m.kind

  -- The body of the loop over the indirect members.
  unfoldable pub add_claim : OpStack → ClaimObject → Eval → Outcome ExpandError Eval
  unfolding add_routes
  add_claim ops (route p c) v = add_routes (p ∷ []) ops v
  add_claim ops (route6 p c) v = add_routes (p ∷ []) ops v
  add_claim ops (aut_num a c) v = add_routes (routes a) ops v
  add_claim ops _ v = done v

  abbrev pub visit_of : State → Eval → Eval
  visit_of s v = record v { walked = s ∷ v.walked; visits = v.visits + 1 }

  -- `walk` past its checks. A nil node is no answer of the code.
  unfoldable pub add_all :
      (State → Eval → Outcome ExpandError Eval)
      → State
      → Option SetNode
      → Eval
      → Outcome ExpandError Eval
  unfolding and_then each members add_member add_claim
  add_all walk s none v = stuck
  add_all walk s (some nd) v =
      and_then (each (add_member walk s) (members nd.set) v) (each (add_claim s.1) nd.claims)

  unfoldable pub walk : ℕ → State → Eval → Outcome ExpandError Eval
  unfolding max_visited lookup add_all
  walk zero s v = stuck
  walk (suc fuel) s v =
      if ltb (max_visited e) (v.visits + 1)
      then failed (too_large limit_visited (max_visited e) (v.visits + 1))
      else add_all (walk fuel) s (lookup s.0 g.nodes) (visit_of s v)

  abbrev pub no_ranges : Eval
  no_ranges = record { walked = []; visits = 0; out = [] }

  -- The whole evaluation, with fuel for one visit more than the limit.
  unfoldable pub evaluate : SetRef → Outcome ExpandError Eval
  unfolding walk max_visited
  evaluate top = walk (suc (max_visited e)) (top, empty) no_ranges
