-- ===== src/Resolve/Expand/Walk.antt =====
-- `walk` of resolve/expander.go: it ends with the ranges that the graph denotes, or with an error.
use mathlib.Core.List.{Memᴰ}
use mathlib.Core.List.Memᴰ
use rpsl.Base.{
  ℕ, ◌≡◌, refl, sym, ap, ◌∙◌, inl, Bool, true, false, not, List, Option, none, some, any, or_false,
}
use rpsl.Base.Membership.{any-true}
use rpsl.Object.Members.{
  SetMember, MemberKind, member_invalid, member_as, member_set, member_prefix_range, ref_of,
}
use rpsl.Resolve.Expand.{Expander, ExpandError, excludes_set, members, nestable}
use rpsl.Resolve.Expand.Adding
use rpsl.Resolve.Expand.Adding.{
  Grows-refl, Grows-trans, Closed-kept, Ends-add, Ends-Listed, Ends-add_claim,
}
use rpsl.Resolve.Expand.Discover.{SetNode, SetGraph}
use rpsl.Resolve.Expand.Evaluate.{
  State, Eval, lookup, node_at, state_eq, enter, follow, skipped, add_kind, add_member,
}
use rpsl.Resolve.Expand.Outcome.{Outcome, Ends, Ends-mono}
use rpsl.Resolve.Expand.States
use rpsl.Resolve.Expand.States.{by_range, by_as, at_top, deeper, state_eq-true}
use rpsl.Resolve.OpStack.{push}
use rpsl.Types.Netip.{Prefix}
use rpsl.Types.PrefixRange.{PrefixRange}
use rpsl.Types.SetRef.{SetRef}

module _ (e : Expander) (g : SetGraph) (routes : ℕ → List Prefix) (max_ranges : ℕ) where
  abbrev Inv : ℕ → Eval → Type 0
  Inv = Adding.Inv e g routes max_ranges

  abbrev Grows : Eval → Eval → Type 0
  Grows = Adding.Grows e g routes max_ranges

  abbrev Gives : State → SetMember → PrefixRange → Type 0
  Gives s m r = States.MemberGives e g.top (node_at g) routes s.1 m r

  abbrev Leads : State → SetMember → State → Type 0
  Leads = States.Leads e g.top (node_at g) routes

  -- The state was walked.
  abbrev Walked : ℕ → State → Eval → Eval → Type 0
  Walked base s v w = Inv base w × Grows v w × Memᴰ s w.walked

  -- What a walk does from a state that can be reached, once there were `base` visits.
  abbrev pub Walks : ℕ → (State → Eval → Outcome ExpandError Eval) → Type 0
  Walks base go =
      (s : State)
      → States.Visited e g.top (node_at g) routes s
      → (nd : SetNode) → lookup s.0 g.nodes ≡ some nd
      → (v : Eval) → Inv base v
      → Ends (Walked base s v) (go s v)

  -- What a round of the loop over the members has to show.
  abbrev Goal : State → SetMember → Eval → Type 0
  Goal s m w =
      ((r : PrefixRange) → Gives s m r → Memᴰ r w.out)
      × ((t : State) → Leads s m t → Memᴰ t w.walked)

  abbrev Round : ℕ → State → SetMember → Eval → Eval → Type 0
  Round base s m v w = Inv base w × Grows v w × Goal s m w

  module _ (base : ℕ) (go : State → Eval → Outcome ExpandError Eval) (walks : Walks base go)
      (s : State) (visited : States.Visited e g.top (node_at g) routes s) (node : SetNode)
      (looked : lookup s.0 g.nodes ≡ some node) where
    Ends-enter :
        (t : State) (v : Eval)
        → Inv base v
        → ((nd : SetNode)
            → lookup t.0 g.nodes ≡ some nd
            → States.Visited e g.top (node_at g) routes t)
        → Ends
            (λ w.
              Inv base w
              × Grows v w
              × ((nd : SetNode) → lookup t.0 g.nodes ≡ some nd → Memᴰ t w.walked))
            (enter e g routes max_ranges go t v (lookup t.0 g.nodes) (any (state_eq t) v.walked))
    unfolding enter Ends
    Ends-enter t v i reach = of (lookup t.0 g.nodes) refl (any (state_eq t) v.walked) refl
      where
        P : Eval → Type 0
        P w =
            Inv base w
            × Grows v w
            × ((nd : SetNode) → lookup t.0 g.nodes ≡ some nd → Memᴰ t w.walked)

        of :
            (o : Option SetNode)
            → lookup t.0 g.nodes ≡ o
            → (b : Bool) → any (state_eq t) v.walked ≡ b
            → Ends P (enter e g routes max_ranges go t v o b)
        of none n b h = (i, Grows-refl e g routes max_ranges v, λ nd l. absurd (cc (sym n ∙ l)))
        of (some nd) n true h =
            let (u, m, x) = any-true (state_eq t) v.walked h in
            (i, Grows-refl e g routes max_ranges v, λ other l. Memᴰ.cast (state_eq-true t u x) m)
        of (some nd) n false h =
            Ends-mono (Walked base t v) P (go t v) (λ w (j, grow, m). (j, grow, λ other l. m))
              (walks t (reach nd n) nd n v i)

    not_skipped :
        (m : SetMember) (t : State) → Leads s m t → skipped e g routes max_ranges s m ≡ false
    not_skipped m t l = rw (l.allowed, l.included) refl

    Gives-none : (m : SetMember) (r : PrefixRange) → m.kind ≡ member_set → Gives s m r → ⊥
    Gives-none m r kind (by_range k x) = cc (sym kind ∙ k)
    Gives-none m r kind (by_as k p n x) = cc (sym kind ∙ k)

    same_child : (r q : SetRef) → some r ≡ some q → r ≡ q
    same_child r q h = cc h

    -- The state that a member which is followed leads to.
    leads_to :
        (m : SetMember) (child : SetRef) (nd : SetNode)
        → m.kind ≡ member_set
        → skipped e g routes max_ranges s m ≡ false
        → ref_of m ≡ some child
        → lookup child g.nodes ≡ some nd
        → Leads s m (child, push s.1 m.op)
    leads_to m child nd kind h r l =
        let allows = nestable s.0.name.set_class m.set_name.set_class in
        let (a, x) = or_false (not allows) (excludes_set e m.set_name) h in
        record {
          is_set = kind;
          allowed = not-false allows a;
          included = x;
          names = r;
          node = (nd, l);
          below = refl;
        }
      where
        not-false : (b : Bool) → not b ≡ false → b ≡ true
        not-false true x = refl
        not-false false x = sym x

    Ends-follow :
        (m : SetMember) (v : Eval)
        → Memᴰ m (members node.set)
        → m.kind ≡ member_set
        → Inv base v
        → Ends
            (Round base s m v)
            (follow e g routes max_ranges go s.1 m v (skipped e g routes max_ranges s m) (ref_of m))
    unfolding follow Ends
    Ends-follow m v n kind i = of (skipped e g routes max_ranges s m) refl (ref_of m) refl
      where
        of :
            (b : Bool)
            → skipped e g routes max_ranges s m ≡ b
            → (o : Option SetRef) → ref_of m ≡ o
            → Ends (Round base s m v) (follow e g routes max_ranges go s.1 m v b o)
        of true h o r = (
          i,
          Grows-refl e g routes max_ranges v,
          (λ q x. absurd (Gives-none m q kind x), λ t l. absurd (cc (sym h ∙ not_skipped m t l))),
        )
        of false h none r = (
          i,
          Grows-refl e g routes max_ranges v,
          (λ q x. absurd (Gives-none m q kind x), λ t l. absurd (cc (sym r ∙ l.names))),
        )
        of false h (some child) r =
            let below : State = (child, push s.1 m.op) in
            Ends-mono _ (Round base s m v) _
              (λ w (j, grow, all). (
                j,
                grow,
                (
                  λ q x. absurd (Gives-none m q kind x),
                  λ t l.
                      let first = same_child t.0 child (sym l.names ∙ r) in
                      let (nd, found) = l.node in
                      Memᴰ.cast (λ k. (first k, l.below k))
                        (all nd (ap (λ c. lookup c g.nodes) (sym first) ∙ found)),
                ),
              ))
              (Ends-enter below v i
                (λ nd l. deeper visited node looked m n (leads_to m child nd kind h r l)))

    pub Ends-add_member :
        (m : SetMember)
        → Memᴰ m (members node.set)
        → (v : Eval) → Inv base v
        → Ends (Round base s m v) (add_member e g routes max_ranges go s m v)
    unfolding add_member add_kind Ends
    Ends-add_member m n v i = of m.kind refl
      where
        denoted : (r : PrefixRange) → Gives s m r → States.Denotes e g.top (node_at g) routes r
        denoted r x = record {
          state = s;
          visited = visited;
          node = node;
          looked = looked;
          given = inl (m, n, x);
        }

        no_lead :
            (k : MemberKind) → m.kind ≡ k → (k ≡ member_set → ⊥) → (t : State) → Leads s m t → ⊥
        no_lead k h x t l = x (sym h ∙ l.is_set)

        of :
            (k : MemberKind)
            → m.kind ≡ k
            → Ends (Round base s m v) (add_kind e g routes max_ranges go s m v k)
        of member_set h = Ends-follow m v n h i
        of member_invalid h = (
          i,
          Grows-refl e g routes max_ranges v,
          (
            λ r x. elim x [
              | by_range k y ↦ absurd (cc (sym h ∙ k))
              | by_as k p l y ↦ absurd (cc (sym h ∙ k))
            ],
            λ t l. absurd (no_lead member_invalid h (λ x. cc x) t l),
          ),
        )
        of member_prefix_range h =
            Ends-mono _ (Round base s m v) _
              (λ w (j, grow, all). (
                j,
                grow,
                (
                  λ r x. elim x [
                    | by_range k y ↦ all r y
                    | by_as k p l y ↦ absurd (cc (sym h ∙ k))
                  ],
                  λ t l. absurd (no_lead member_prefix_range h (λ x. cc x) t l),
                ),
              ))
              (Ends-add e g routes max_ranges base m.range s.1 v i
                (λ r x. denoted r (by_range h x)))
        of member_as h =
            Ends-mono _ (Round base s m v) _
              (λ w (j, grow, all).
                (j, grow, (all, λ t l. absurd (no_lead member_as h (λ x. cc x) t l))))
              (Ends-Listed e g routes max_ranges base (Gives s m) (routes m.as_num) (push s.1 m.op)
                v i
                (λ r x. elim x [
                  | by_range k y ↦ absurd (cc (sym h ∙ k))
                  | by_as k p l y ↦ (p, l, y)
                ])
                (λ r (p, l, y). denoted r (by_as h p l y)))
