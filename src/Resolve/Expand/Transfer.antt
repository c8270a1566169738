-- ===== src/Resolve/Expand/Transfer.antt =====
-- What sets denote depends only on what is found for the sets that can be reached, and on the routes
-- of the AS numbers in them.
use mathlib.Core.List.{Memᴰ}
use rpsl.Base.{ℕ, ◌≡◌, refl, sym, ◌∙◌, inl, inr, List, Option, some}
use rpsl.Object.Members.{SetMember}
use rpsl.Object.Sets.{ClaimObject, nil_object, other_object, aut_num, route, route6, inet_rtr}
use rpsl.Resolve.Expand.{Expander, members}
use rpsl.Resolve.Expand.Discover.{SetNode}
use rpsl.Resolve.Expand.Evaluate.{State, exact_range}
use rpsl.Resolve.Expand.Numbers.{Numbers, as_member, as_claim}
use rpsl.Resolve.Expand.States
use rpsl.Resolve.Expand.States.{by_range, by_as, by_route, by_route6, by_aut_num, at_top, deeper}
use rpsl.Resolve.OpStack.{OpStack, push}
use rpsl.Types.Netip.{Prefix, masked}
use rpsl.Types.PrefixRange.{PrefixRange}
use rpsl.Types.SetRef.{SetRef}
use mathlib.Core.Path.{subst}

module _ (e : Expander) (top : SetRef) (find find' : SetRef → Option SetNode)
    (routes routes' : ℕ → List Prefix) (Within : SetRef → Type 0) (within_top : Within top)
    (within_next : (s t : State) (nd : SetNode)
      → Within s.0
      → find s.0 ≡ some nd
      → (m : SetMember) → Memᴰ m (members nd.set)
      → States.Leads e top find routes s m t
      → Within t.0)
    (same_find : (r : SetRef) → Within r → find r ≡ find' r)
    (same_routes : (r : SetRef) (nd : SetNode)
      → Within r
      → find r ≡ some nd
      → (a : ℕ) → Numbers nd a
      → routes a ≡ routes' a) where
  kept :
      (ops : OpStack) (x r : PrefixRange)
      → States.Kept e top find routes ops x r
      → States.Kept e top find' routes' ops x r
  kept ops x r k = record { applied = k.applied; allowed = k.allowed }

  routed :
      (ops : OpStack) (p : Prefix) (r : PrefixRange)
      → States.Routed e top find routes ops p r
      → States.Routed e top find' routes' ops p r
  routed ops p r k = record { valid = k.valid; kept = kept ops (exact_range (masked p)) r k.kept }

  module _ (s : State) (nd : SetNode) (within : Within s.0) (found : find s.0 ≡ some nd) where
    same_list : (a : ℕ) (p : Prefix) → Numbers nd a → Memᴰ p (routes a) → Memᴰ p (routes' a)
    same_list a p n m = subst (Memᴰ p) (same_routes s.0 nd within found a n) m

    member_gives :
        (m : SetMember) (r : PrefixRange)
        → Memᴰ m (members nd.set)
        → States.MemberGives e top find routes s.1 m r
        → States.MemberGives e top find' routes' s.1 m r
    member_gives m r n (by_range k x) = by_range k (kept s.1 m.range r x)
    member_gives m r n (by_as k p l y) =
        by_as k p (same_list m.as_num p (as_member m n k refl) l) (routed (push s.1 m.op) p r y)

    claim_gives :
        (o : ClaimObject) (r : PrefixRange)
        → Memᴰ o nd.claims
        → States.ClaimGives e top find routes s.1 o r
        → States.ClaimGives e top find' routes' s.1 o r
    claim_gives (route p c) r n (by_route y) = by_route (routed s.1 p r y)
    claim_gives (route6 p c) r n (by_route6 y) = by_route6 (routed s.1 p r y)
    claim_gives (aut_num a c) r n (by_aut_num {p = p} l y) =
        by_aut_num (same_list a p (as_claim (aut_num a c) n refl) l) (routed s.1 p r y)
    claim_gives nil_object r n x = elim x [ ]
    claim_gives other_object r n x = elim x [ ]
    claim_gives (inet_rtr c) r n x = elim x [ ]

    leads :
        (m : SetMember) (t : State)
        → Memᴰ m (members nd.set)
        → States.Leads e top find routes s m t
        → States.Leads e top find' routes' s m t
    leads m t n l =
        let (child, f) = l.node in
        let w = within_next s t nd within found m n l in
        record {
          is_set = l.is_set;
          allowed = l.allowed;
          included = l.included;
          names = l.names;
          node = (child, sym (same_find t.0 w) ∙ f);
          below = l.below;
        }

  visited :
      {s : State}
      → States.Visited e top find routes s
      → Within s.0 × States.Visited e top find' routes' s
  visited at_top = (within_top, at_top)
  visited (deeper {s} {t} p nd found m n l) =
      let (w, p') = visited p in
      (
        within_next s t nd w found m n l,
        deeper p' nd (sym (same_find s.0 w) ∙ found) m n (leads s nd w found m t n l),
      )

  pub denotes :
      (r : PrefixRange) → States.Denotes e top find routes r → States.Denotes e top find' routes' r
  denotes r d =
      let (w, p) = visited d.visited in
      record {
        state = d.state;
        visited = p;
        node = d.node;
        looked = sym (same_find d.state.0 w) ∙ d.looked;
        given = elim d.given [
          | inl (m, n, x) ↦ inl (m, n, member_gives d.state d.node w d.looked m r n x)
          | inr (o, n, x) ↦ inr (o, n, claim_gives d.state d.node w d.looked o r n x)
        ];
      }
