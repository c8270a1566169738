-- ===== src/Resolve/Expand/Evaluated.antt =====
-- The evaluation of resolve/expander.go from the set that an expansion names: `walk` ends, and where it
-- ends without an error it has collected the ranges that the graph denotes.
use mathlib.Core.List.{Memᴰ}
use mathlib.Core.List.Memᴰ
use mathlib.Core.Path.{subst}
use rpsl.Base.{ℕ, zero, suc, ◌+◌, ◌≤◌, ◌≡◌, refl, sym, inl, inr, List, some, ltb, arith}
use rpsl.Object.Members.{SetMember}
use rpsl.Object.Sets.{ClaimObject}
use rpsl.Resolve.Expand.{Expander, ExpandError, max_visited, members}
use rpsl.Resolve.Expand.Adding
use rpsl.Resolve.Expand.Adding.{Grows-refl, Grows-trans, Ends-add_claim}
use rpsl.Resolve.Expand.Discover.{SetNode, SetGraph}
use rpsl.Resolve.Expand.Evaluate.{
  State, Eval, lookup, node_at, add_member, add_claim, visit_of, add_all, walk,
}
use rpsl.Resolve.Expand.Outcome.{
  Outcome, each, Ends, Ends-if, Ends-and_then, Ends-mono, Reached, Ends-each,
}
use rpsl.Resolve.Expand.States
use rpsl.Resolve.Expand.States.{at_top, deeper}
use rpsl.Resolve.Expand.Walk.{Walks, Ends-add_member}
use rpsl.Types.Netip.{Prefix}
use rpsl.Types.PrefixRange.{PrefixRange}

module _ (e : Expander) (g : SetGraph) (routes : ℕ → List Prefix) (max_ranges : ℕ) where
  abbrev Inv : ℕ → Eval → Type 0
  Inv = Adding.Inv e g routes max_ranges

  abbrev Grows : Eval → Eval → Type 0
  Grows = Adding.Grows e g routes max_ranges

  abbrev Closed : State → Eval → Type 0
  Closed = Adding.Closed e g routes max_ranges

  -- What each round of the two loops of a walk has to reach.
  abbrev MemberGoal : State → SetMember → Eval → Type 0
  MemberGoal s m w =
      ((r : PrefixRange) → States.MemberGives e g.top (node_at g) routes s.1 m r → Memᴰ r w.out)
      × ((t : State) → States.Leads e g.top (node_at g) routes s m t → Memᴰ t w.walked)

  abbrev ClaimGoal : State → ClaimObject → Eval → Type 0
  ClaimGoal s o w =
      (r : PrefixRange) → States.ClaimGives e g.top (node_at g) routes s.1 o r → Memᴰ r w.out

  module _ (base : ℕ) (go : State → Eval → Outcome ExpandError Eval)
      (walks : Walks e g routes max_ranges base go) (s : State)
      (visited : States.Visited e g.top (node_at g) routes s) (node : SetNode)
      (looked : lookup s.0 g.nodes ≡ some node) where
    Ends-members :
        (v : Eval)
        → Inv base v
        → Ends
            (Reached (Inv base) Grows (MemberGoal s) (members node.set) v)
            (each (add_member e g routes max_ranges go s) (members node.set) v)
    Ends-members v i =
        Ends-each (Inv base) Grows (MemberGoal s) (Grows-refl e g routes max_ranges)
          (Grows-trans e g routes max_ranges)
          (λ m u w grow (gives, leads).
            (λ r x. grow.out_kept r (gives r x), λ t l. grow.walked_kept t (leads t l)))
          (add_member e g routes max_ranges go s) (members node.set)
          (Ends-add_member e g routes max_ranges base go walks s visited node looked) v i

    Ends-claims :
        (v : Eval)
        → Inv base v
        → Ends
            (Reached (Inv base) Grows (ClaimGoal s) node.claims v)
            (each (add_claim e g routes max_ranges s.1) node.claims v)
    Ends-claims v i =
        Ends-each (Inv base) Grows (ClaimGoal s) (Grows-refl e g routes max_ranges)
          (Grows-trans e g routes max_ranges) (λ o u w grow h r x. grow.out_kept r (h r x))
          (add_claim e g routes max_ranges s.1) node.claims
          (λ o m u j. Ends-add_claim e g routes max_ranges base s.1 o u j (λ r x. record {
            state = s;
            visited = visited;
            node = node;
            looked = looked;
            given = inr (o, m, x);
          }))
          v i

    -- Both loops.
    abbrev Followed : Eval → Eval → Type 0
    Followed v w = Inv base w × Grows v w × Closed s w

    Ends-add_all :
        (v : Eval)
        → Inv base v
        → Ends (Followed v) (add_all e g routes max_ranges go s (some node) v)
    unfolding add_all
    Ends-add_all v i =
        Ends-and_then (Reached (Inv base) Grows (MemberGoal s) (members node.set) v) (Followed v)
          (each (add_member e g routes max_ranges go s) (members node.set) v)
          (each (add_claim e g routes max_ranges s.1) node.claims) (Ends-members v i)
          (λ t h.
            Ends-mono (Reached (Inv base) Grows (ClaimGoal s) node.claims t) (Followed v)
              (each (add_claim e g routes max_ranges s.1) node.claims t)
              (λ w k. (
                k.invariant,
                Grows-trans e g routes max_ranges v t w h.grows k.grows,
                record {
                  node = node;
                  looked = looked;
                  given = λ m n r x. k.grows.out_kept r ((h.goals m n).0 r x);
                  followed = λ m n u l. k.grows.walked_kept u ((h.goals m n).1 u l);
                  claimed = λ o n r x. k.goals o n r x;
                },
              ))
              (Ends-claims t h.invariant))

  Inv-visit_of :
      (base : ℕ) (s : State) (v : Eval)
      → States.Visited e g.top (node_at g) routes s
      → v.visits + 1 ≤ max_visited e
      → Inv base v
      → Inv (suc base) (visit_of e g routes max_ranges s v)
  Inv-visit_of base s v visited n i = record {
    walked_sound = λ t m. elim (Memᴰ.cases_cons m) [
      | inl x ↦ subst (States.Visited e g.top (node_at g) routes) (sym x) visited
      | inr k ↦ i.walked_sound t k
    ];
    out_sound = i.out_sound;
    late = omega (arith, i.late);
    within = n;
    few = i.few;
  }

  -- Where the fuel is enough for the visits that are left, a walk is not stuck.
  pub Walks-walk :
      (fuel base : ℕ)
      → suc (max_visited e) ≤ fuel + base
      → Walks e g routes max_ranges base (walk e g routes max_ranges fuel)
  unfolding walk Ends
  Walks-walk zero base n s visited nd looked v i = absurd (omega (arith, n, i.late, i.within))
  Walks-walk (suc fuel) base n s visited nd looked v i =
      Ends-if P (ltb (max_visited e) (v.visits + 1)) _ _ (λ h. tt)
        (λ h.
          subst
            (λ o. Ends P (add_all e g routes max_ranges (walk e g routes max_ranges fuel) s o v'))
            (sym looked)
            (Ends-mono _ P
              (add_all e g routes max_ranges (walk e g routes max_ranges fuel) s (some nd) v')
              (λ w (j, grow, closed). (
                record {
                  walked_sound = j.walked_sound;
                  out_sound = j.out_sound;
                  late = omega (arith, j.late);
                  within = j.within;
                  few = j.few;
                },
                record {
                  walked_kept = λ t m. grow.walked_kept t (Memᴰ.tail m);
                  out_kept = grow.out_kept;
                  closed = λ t m. elim (grow.closed t m) [
                    | inr c ↦ inr c
                    | inl k ↦ elim (Memᴰ.cases_cons k) [
                      | inl x ↦ inr (subst (λ u. Closed u w) (sym x) closed)
                      | inr l ↦ inl l
                    ]
                  ];
                },
                grow.walked_kept s (Memᴰ.head refl),
              ))
              (Ends-add_all (suc base) (walk e g routes max_ranges fuel)
                (Walks-walk fuel (suc base) (omega (arith, n))) s visited nd looked v'
                (Inv-visit_of base s v visited (ground (arith, h)) i))))
    where
      v' : Eval
      v' = visit_of e g routes max_ranges s v

      P : Eval → Type 0
      P w = Inv base w × Grows v w × Memᴰ s w.walked
