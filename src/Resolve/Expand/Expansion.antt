-- ===== src/Resolve/Expand/Expansion.antt =====
-- What `ExpandPrefixRanges` and `ExpandAS` of resolve/expander.go answer.
use mathlib.Core.List.{Memᴰ}
use mathlib.Core.List.Memᴰ
use mathlib.Core.Path.{subst}
use rpsl.Base.{
  ℕ, ◌≤◌, ◌≡◌, ◌≢◌, ◌↔◌, refl, sym, ap, ◌∙◌, inl, inr, Bool, true, false, not, ◌&&◌, List, [], ◌∷◌,
  some, Option-cases, length, ◌==◌, ==_iff, arith, if◌then◌else◌,
}
use rpsl.Lexer.Text.{Bytes}
use rpsl.Object.Sets.{NamedSet}
use rpsl.Resolve.Expand.{
  Source, Expander, fetched, fetch_failed, not_found, max_prefixes, fetch_one, claims_of,
}
use rpsl.Resolve.Expand.Answer.{found_at, routes_of, Denotes-same}
use rpsl.Resolve.Expand.Denoted.{Evaluated, Ends-evaluate}
use rpsl.Resolve.Expand.Discover.{SetNode, SetGraph, discover}
use rpsl.Resolve.Expand.Evaluate.{Eval, lookup, node_at, evaluate}
use rpsl.Resolve.Expand.Found.{Discovered, Ends-discover}
use rpsl.Resolve.Expand.Lookups.{lookup_finds, all_nodes_mem, all_nodes_sound}
use rpsl.Resolve.Expand.Numbers.{
  Counts, Holds, Ends-fetch_each, node_asns_sound, node_asns_mem, add_asns_mem,
}
use rpsl.Resolve.Expand.Outcome.{
  done, stuck, Ends, Ends-if, Ends-and_then, Ends-done, Ends-stuck, Ends-failed,
}
use rpsl.Resolve.Expand.Ranges.{
  RangeSet, AsnSet, node_asns, add_asns, ordered, all_nodes, routes_at, fetch_routes, ranges_of,
  expand_ranges, expand_prefix_ranges, asns_of, expand_as,
}
use rpsl.Resolve.Expand.Reachable.{Reach, here}
use rpsl.Resolve.Expand.States
use rpsl.Resolve.Expand.Top.{Ends-discover_top}
use rpsl.Types.Netip.{Prefix}
use rpsl.Types.PrefixRange.{PrefixRange}
use rpsl.Types.SetName.{class_eq, class_as_set, class_route_set}
use rpsl.Types.SetRef.{SetRef}

module _ (trim_space : Bytes → Bytes) (src : Source) (e : Expander) (top : SetRef) where
  -- The sets that can be reached and that the Source has not.
  abbrev pub IsMissing : SetRef → Type 0
  IsMissing r = Reach trim_space src e top r × (fetch_one trim_space src r ≡ fetch_failed not_found)

  abbrev pub IsDenoted : PrefixRange → Type 0
  IsDenoted = States.Denotes e top (found_at trim_space src) (routes_of src e)

  record Ranged (max_ranges : ℕ) (out : RangeSet) : Type 0 where
    exact : (r : PrefixRange) → (Memᴰ r out.ranges ↔ IsDenoted r)
    lost : (r : SetRef) → (Memᴰ r out.missing ↔ IsMissing r)
    few : length out.ranges ≤ max_ranges

  -- The top is a node.
  top_node :
      (g : SetGraph)
      → Discovered trim_space src e false top g
      → (set : NamedSet) → fetch_one trim_space src top ≡ fetched set
      → (nd : SetNode) × (lookup top g.nodes ≡ some nd)
  top_node g d set f =
      let n = d.quiet refl in
      let (claims, c) = d.answered n top set here f in
      let node : SetNode = record { set = set; claims = claims } in
      elim (Option-cases (lookup top g.nodes)) [
        | inl h ↦
            absurd (lookup_finds top g.nodes node (((d.complete n).0 top node).1 (here, f, c)) h)
        | inr h ↦ h
      ]

  denoted :
      (g : SetGraph)
      → Discovered trim_space src e false top g
      → (table : List (ℕ × List Prefix)) → Holds src e (add_asns [] (node_asns e (ordered g))) table
      → {max_ranges : ℕ} (v : Eval) → Evaluated e g (routes_at table) max_ranges v
      → (r : PrefixRange) → (Memᴰ r v.out ↔ IsDenoted r)
  denoted g d table holds v x r =
      let (to, from) = Denotes-same trim_space src e false top g d (d.quiet refl) table holds r in
      let (own, all) = x.denoted r in
      (
        λ m.
            to (subst (λ t. States.Denotes e t (node_at g) (routes_at table) r) d.same_top (own m)),
        λ y. all (
            subst (λ t. States.Denotes e t (node_at g) (routes_at table) r) (sym d.same_top)
              (from y)),
      )

  Ends-ranges_of :
      (max_ranges : ℕ) (g : SetGraph)
      → Discovered trim_space src e false top g
      → (set : NamedSet) × (fetch_one trim_space src top ≡ fetched set)
      → Ends (Ranged max_ranges) (ranges_of trim_space src e max_ranges g)
  unfolding fetch_routes Ends
  Ends-ranges_of max_ranges g d (set, f) =
      let (nd, h) = top_node g d set f in
      Ends-and_then (Holds src e (add_asns [] (node_asns e (ordered g)))) (Ranged max_ranges)
        (fetch_routes src e g) _ (Ends-fetch_each src e (add_asns [] (node_asns e (ordered g))))
        (λ table holds.
          Ends-and_then (Evaluated e g (routes_at table) max_ranges) (Ranged max_ranges)
            (evaluate e g (routes_at table) max_ranges g.top) _
            (Ends-evaluate e g (routes_at table) max_ranges nd
              (ap (λ r. lookup r g.nodes) d.same_top ∙ h))
            (λ v x. record {
              exact = λ r. denoted g d table holds v x r;
              lost = (d.complete (d.quiet refl)).1;
              few = x.few;
            }))

  Ends-expand_ranges :
      (max_ranges : ℕ) → Ends (Ranged max_ranges) (expand_ranges trim_space src e top max_ranges)
  unfolding expand_ranges
  Ends-expand_ranges max_ranges =
      Ends-if (Ranged max_ranges)
        (not (class_eq top.name.set_class class_as_set)
          && not (class_eq top.name.set_class class_route_set))
        _ _ (λ h. Ends-failed (Ranged max_ranges) _)
        (λ h.
          Ends-and_then
            (λ g.
              Discovered trim_space src e false top g
              × ((set : NamedSet) × (fetch_one trim_space src top ≡ fetched set)))
            (Ranged max_ranges) (discover trim_space src e false top)
            (ranges_of trim_space src e max_ranges) (Ends-discover_top trim_space src e false top)
            (λ g (d, t). Ends-ranges_of max_ranges g d t))

  -- The AS is an AS member, or an aut-num among the indirect members, of a set that can be reached and
  -- that the Source has, and is not left out.
  abbrev pub IsCounted : ℕ → Type 0
  IsCounted a =
      (r : SetRef) × (nd : SetNode) × Reach trim_space src e top r
      × (fetch_one trim_space src r ≡ fetched nd.set)
      × (claims_of trim_space src nd.set ≡ fetched nd.claims)
      × Counts e nd a

  record Numbered (out : AsnSet) : Type 0 where
    exact : out.is_any ≡ false → (a : ℕ) → (Memᴰ a out.asns ↔ IsCounted a)
    lost : out.is_any ≡ false → (r : SetRef) → (Memᴰ r out.missing ↔ IsMissing r)

  no_refs : {A : Type 0} (xs : List A) → (length xs == 0) ≡ true → xs ≡ []
  no_refs [] h = refl
  no_refs (x ∷ xs) h = absurd (omega (arith, (==_iff (length (x ∷ xs)) 0).0 h))

  Numbered-asns_of :
      (any_leaf : Bool) (g : SetGraph)
      → Discovered trim_space src e any_leaf top g
      → Numbered (asns_of e g)
  unfolding asns_of
  Numbered-asns_of any_leaf g d = of (length g.any_refs == 0) refl
    where
      numbers : AsnSet
      numbers = record {
        is_any = false;
        asns = add_asns [] (node_asns e (all_nodes g.nodes));
        missing = g.missing;
      }

      of :
          (b : Bool)
          → (length g.any_refs == 0) ≡ b
          → Numbered (if b then numbers else record { is_any = true; asns = []; missing = [] })
      of false h = record { exact = λ x. absurd (cc x); lost = λ x. absurd (cc x) }
      of true h =
          let n = no_refs g.any_refs h in
          record {
            exact = λ x a. (
              λ m. elim ((add_asns_mem [] (node_asns e (all_nodes g.nodes)) a).0 m) [
                | inl k ↦ absurd (Memᴰ.not-nil k)
                | inr k ↦
                    let (nd, l, counts) = node_asns_sound e (all_nodes g.nodes) a k in
                    let (r, at) = all_nodes_sound g.nodes nd l in
                    let (p, f, c) = ((d.complete n).0 r nd).0 at in (r, nd, p, f, c, counts)
              ],
              λ (r, nd, p, f, c, counts). (add_asns_mem [] (node_asns e (all_nodes g.nodes)) a).1 (
                  inr (
                    node_asns_mem e (all_nodes g.nodes) nd a
                      (all_nodes_mem g.nodes r nd (((d.complete n).0 r nd).1 (p, f, c))) counts)),
            );
            lost = λ x. (d.complete n).1;
          }

  Ends-expand_as : (any_leaf : Bool) → Ends Numbered (expand_as trim_space src e any_leaf top)
  unfolding expand_as Ends
  Ends-expand_as any_leaf =
      Ends-if Numbered (not (class_eq top.name.set_class class_as_set)) _ _ (λ h. tt)
        (λ h.
          Ends-and_then (Discovered trim_space src e any_leaf top) Numbered
            (discover trim_space src e any_leaf top) _ (Ends-discover trim_space src e any_leaf top)
            (λ g d. Numbered-asns_of any_leaf g d))

-- Where ExpandPrefixRanges returns a set of ranges, they are exactly those that the sets denote: a range
-- is in it where some path of allowed and not excluded references from the top, each through a set
-- that the Source has, ends at a set with a prefix range as a member, a route of an AS member, or an
-- indirect member that is honoured, of which the operators of the path leave that range, in a family
-- that is asked for. The missing sets are those that can be reached and that the Source has not, and
-- there are no more ranges than MaxPrefixes.
pub expand_prefix_ranges_lem :
    (trim_space : Bytes → Bytes) (src : Source) (e : Expander) (top : SetRef) (out : RangeSet)
    → expand_prefix_ranges trim_space src e top ≡ done out
    → ((r : PrefixRange)
        → (Memᴰ r out.ranges ↔ States.Denotes e top (found_at trim_space src) (routes_of src e) r))
      × ((r : SetRef)
          → (Memᴰ r out.missing ↔ (
              Reach trim_space src e top r
              × (fetch_one trim_space src r ≡ fetch_failed not_found))))
      × (length out.ranges ≤ max_prefixes e)
unfolding expand_prefix_ranges
expand_prefix_ranges_lem trim_space src e top out h =
    let a =
      Ends-done (Ranged trim_space src e top (max_prefixes e))
        (expand_ranges trim_space src e top (max_prefixes e)) out
        (Ends-expand_ranges trim_space src e top (max_prefixes e)) h in
    (a.exact, a.lost, a.few)

-- Where the expansion of an as-set returns a set of AS numbers that is not that of every AS, it holds
-- exactly the numbers that are AS members, or honoured aut-nums, of the sets that can be reached and
-- that the Source has, less those that are excluded; the missing sets are those that can be reached and
-- that the Source has not.
pub expand_as_lem :
    (trim_space : Bytes → Bytes) (src : Source) (e : Expander) (any_leaf : Bool) (top : SetRef)
    (out : AsnSet)
    → expand_as trim_space src e any_leaf top ≡ done out
    → out.is_any ≡ false
    → ((a : ℕ)
        → (Memᴰ a out.asns ↔ (
            (r : SetRef) × (nd : SetNode) × Reach trim_space src e top r
            × (fetch_one trim_space src r ≡ fetched nd.set)
            × (claims_of trim_space src nd.set ≡ fetched nd.claims)
            × Counts e nd a)))
      × ((r : SetRef)
          → (Memᴰ r out.missing ↔ (
              Reach trim_space src e top r
              × (fetch_one trim_space src r ≡ fetch_failed not_found))))
expand_as_lem trim_space src e any_leaf top out h n =
    let a =
      Ends-done (Numbered trim_space src e top) (expand_as trim_space src e any_leaf top) out
        (Ends-expand_as trim_space src e top any_leaf) h in
    (a.exact n, a.lost n)

-- Whatever the Source returns, the expansion of a set to ranges and that of an as-set to AS numbers end
-- with a result or with an error: the fuel for the levels of the search and for the visits of the
-- evaluation is enough, and no set is read that was not fetched.
pub expansions_end :
    (trim_space : Bytes → Bytes) (src : Source) (e : Expander) (any_leaf : Bool) (top : SetRef)
    → (expand_prefix_ranges trim_space src e top ≢ stuck)
      × (expand_as trim_space src e any_leaf top ≢ stuck)
unfolding expand_prefix_ranges
expansions_end trim_space src e any_leaf top = (
  Ends-stuck (Ranged trim_space src e top (max_prefixes e))
      (expand_ranges trim_space src e top (max_prefixes e))
      (Ends-expand_ranges trim_space src e top (max_prefixes e)),
  Ends-stuck (Numbered trim_space src e top) (expand_as trim_space src e any_leaf top)
      (Ends-expand_as trim_space src e top any_leaf),
)
