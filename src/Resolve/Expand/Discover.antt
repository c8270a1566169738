-- ===== src/Resolve/Expand/Discover.antt =====
-- resolve/expander.go, `discover`: the sets that can be reached from one, level by level. The loop over
-- the levels has fuel for one level more than the limit of depth, and ends before.
use rpsl.Base.{
  ℕ, zero, suc, ◌+◌, Bool, true, false, ◌&&◌, ◌||◌, List, [], ◌∷◌, ◌++◌, Option, none, some, any,
  length, ◌==◌, ltb, leb, if◌then◌else◌,
}
use rpsl.Lexer.Text.{Bytes}
use rpsl.Object.Sets.{NamedSet, ClaimObject}
use rpsl.Resolve.Expand.{
  Source, Expander, ExpandError, Fetched, fetched, fetch_failed, not_found, other_error,
  top_not_found, fetch_error, any_set, too_large, limit_depth, limit_visited, max_depth,
  max_visited, excludes_set, nested_refs, fetch_one, claims_of,
}
use rpsl.Resolve.Expand.Outcome.{Outcome, done, failed, stuck, and_then, each}
use rpsl.Types.SetName.{is_any}
use rpsl.Types.SetRef.{SetRef, ref_eq}
use rpsl.Types.SetRef

-- `setNode`
pub record SetNode : Type 0 where
  pub set : NamedSet
  pub claims : List ClaimObject

-- `setGraph`, less the routes and what an expansion leaves out: its nodes are in the order of their
-- discovery.
pub record SetGraph : Type 0 where
  pub top : SetRef
  pub nodes : List (SetRef × SetNode)
  pub missing : List SetRef
  pub any_refs : List SetRef
  pub reached : ℕ

-- The variables of the loop over the levels. `any_ref` is none for the zero SetRef.
pub record Search : Type 0 where
  pub seen : List SetRef
  pub nodes : List (SetRef × NamedSet)
  pub missing : List SetRef
  pub any_refs : List SetRef
  pub next : List SetRef
  pub any_ref : Option SetRef

abbrev pub start : SetRef → Search
start top = record {
  seen = top ∷ [];
  nodes = [];
  missing = [];
  any_refs = [];
  next = [];
  any_ref = none;
}

-- A level begins.
abbrev pub begin : Search → Search
begin s = record s { next = []; any_ref = none }

abbrev pub note : SetRef → Option SetRef → Option SetRef
note r none = some r
note r (some a) = some a

-- The end of the order by text, `g.missing[i].String() < g.missing[j].String()`.
unfoldable pub text_ltb : Bytes → Bytes → Bool
text_ltb [] [] = false
text_ltb [] (y ∷ ys) = true
text_ltb (x ∷ xs) [] = false
text_ltb (x ∷ xs) (y ∷ ys) = ltb x y || (x == y && text_ltb xs ys)

-- `q` before `rest`, or else `r` in front of all.
unfoldable pub placed : Bool → SetRef → SetRef → List SetRef → List SetRef → List SetRef
placed true r q qs rest = q ∷ rest
placed false r q qs rest = r ∷ q ∷ qs

unfoldable pub insert_ref : SetRef → List SetRef → List SetRef
unfolding text_ltb SetRef.string placed
insert_ref r [] = r ∷ []
insert_ref r (q ∷ qs) =
    placed (text_ltb (SetRef.string q) (SetRef.string r)) r q qs (insert_ref r qs)

-- `sort.Slice` on references.
unfoldable pub sort_refs : List SetRef → List SetRef
unfolding insert_ref
sort_refs [] = []
sort_refs (r ∷ rs) = insert_ref r (sort_refs rs)

unfoldable pub unclaimed : List (SetRef × NamedSet) → List (SetRef × SetNode)
unclaimed [] = []
unclaimed ((r, set) ∷ more) = (r, record { set = set; claims = [] }) ∷ unclaimed more

abbrev pub graph_with : SetRef → Search → List (SetRef × SetNode) → SetGraph
graph_with top s nodes = record {
  top = top;
  nodes = nodes;
  missing = sort_refs s.missing;
  any_refs = s.any_refs;
  reached = length s.seen;
}

module _ (trim_space : Bytes → Bytes) (src : Source) where
  -- `fetchClaims`: the first error in the order of discovery.
  unfoldable pub add_node :
      SetRef
      → NamedSet
      → Fetched (List ClaimObject)
      → Outcome ExpandError (List (SetRef × SetNode))
      → Outcome ExpandError (List (SetRef × SetNode))
  unfolding and_then
  add_node r set (fetch_failed f) rest = failed fetch_error
  add_node r set (fetched claims) rest =
      and_then rest (λ nodes. done ((r, record { set = set; claims = claims }) ∷ nodes))

  unfoldable pub fetch_claims :
      List (SetRef × NamedSet) → Outcome ExpandError (List (SetRef × SetNode))
  unfolding claims_of add_node
  fetch_claims [] = done []
  fetch_claims ((r, set) ∷ more) = add_node r set (claims_of trim_space src set) (fetch_claims more)

module _ (trim_space : Bytes → Bytes) (src : Source) (e : Expander) (any_leaf : Bool) where
  -- The body of the loop over the references of a set, past its checks: a reference to AS-ANY is noted,
  -- and any other is for the next level.
  abbrev pub take_any : SetRef → Search → Search
  take_any r s = record s {
    seen = r ∷ s.seen;
    any_ref = note r s.any_ref;
    any_refs = if any_leaf then s.any_refs ++ r ∷ [] else s.any_refs;
  }

  abbrev pub take_next : SetRef → Search → Search
  take_next r s = record s { seen = r ∷ s.seen; next = s.next ++ r ∷ [] }

  unfoldable pub offer : ℕ → SetRef → Search → Outcome ExpandError Search
  unfolding ref_eq excludes_set max_depth max_visited is_any
  offer depth r s =
      if any (ref_eq r) s.seen || excludes_set e r.name
      then done s
      else if ltb (max_depth e) (depth + 1)
      then failed (too_large limit_depth (max_depth e) (depth + 1))
      else if leb (max_visited e) (length s.seen)
      then failed (too_large limit_visited (max_visited e) (length s.seen + 1))
      else if is_any r.name
      then done (take_any r s)
      else done (take_next r s)

  -- The body of the loop over a level, on what was fetched.
  unfoldable pub settle : ℕ → SetRef → Search → Fetched NamedSet → Outcome ExpandError Search
  unfolding nested_refs each offer
  settle depth r s (fetch_failed other_error) = failed fetch_error
  settle depth r s (fetch_failed not_found) =
      if depth == 0 then failed top_not_found else done (record s { missing = s.missing ++ r ∷ [] })
  settle depth r s (fetched set) =
      each (offer depth) (nested_refs set) (record s { nodes = s.nodes ++ (r, set) ∷ [] })

  unfoldable pub visit : ℕ → SetRef → Search → Outcome ExpandError Search
  unfolding fetch_one settle
  visit depth r s = settle depth r s (fetch_one trim_space src r)

  -- After a level: AS-ANY ends the loop, which else goes on.
  unfoldable pub after_level :
      (Search → Outcome ExpandError Search) → Search → Option SetRef → Outcome ExpandError Search
  after_level go t none = go t
  after_level go t (some a) = if any_leaf then done t else failed (any_set a.name)

  unfoldable pub levels : ℕ → ℕ → List SetRef → Search → Outcome ExpandError Search
  unfolding each visit and_then after_level
  levels fuel depth [] s = done s
  levels zero depth (r ∷ level) s = stuck
  levels (suc fuel) depth (r ∷ level) s =
      and_then (each (visit depth) (r ∷ level) (begin s))
        (λ t. after_level (λ u. levels fuel (depth + 1) u.next u) t t.any_ref)

  unfoldable pub graph_of : SetRef → Search → Outcome ExpandError SetGraph
  unfolding fetch_claims unclaimed sort_refs and_then
  graph_of top s =
      if length s.any_refs == 0
      then and_then (fetch_claims trim_space src s.nodes) (λ nodes. done (graph_with top s nodes))
      else done (graph_with top s (unclaimed s.nodes))

  unfoldable pub discover : SetRef → Outcome ExpandError SetGraph
  unfolding levels graph_of is_any max_depth and_then
  discover top =
      if is_any top.name
      then failed (any_set top.name)
      else and_then (levels (suc (max_depth e)) 0 (top ∷ []) (start top)) (graph_of top)
