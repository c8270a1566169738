-- ===== src/Resolve/Expand/Adding.antt =====
-- What the steps of the evaluation of resolve/expander.go add to the ranges, short of another walk.
use mathlib.Core.List.{Memᴰ}
use mathlib.Core.List.Memᴰ
use mathlib.Core.Path.{subst}
use rpsl.Base.{
  ℕ, ◌≤◌, ◌≡◌, refl, sym, ap, ◌∙◌, ◌⊎◌, inl, inr, Bool, true, false, not, List, [], ◌∷◌, Option,
  none, some, length, ltb, arith,
}
use rpsl.Object.Members.{SetMember}
use rpsl.Object.Sets.{ClaimObject, nil_object, other_object, aut_num, route, route6, inet_rtr}
use rpsl.Resolve.Expand.{Expander, max_visited, afi_allows, members}
use rpsl.Resolve.Expand.Discover.{SetNode, SetGraph}
use rpsl.Resolve.Expand.Evaluate.{
  State, Eval, lookup, node_at, add_range, exact_range, keep, add, add_route, add_routes, add_claim,
}
use rpsl.Resolve.Expand.Outcome.{each, Ends, Ends-if, Ends-mono, Reached, Ends-each}
use rpsl.Resolve.Expand.States
use rpsl.Resolve.Expand.States.{
  by_range, by_as, by_route, by_route6, by_aut_num, add_range_mem, add_range_kept, add_range_cases,
}
use rpsl.Resolve.OpStack.{OpStack, apply}
use rpsl.Types.Netip.{Prefix, masked}
use rpsl.Types.PrefixRange.{PrefixRange}

module _ (e : Expander) (g : SetGraph) (routes : ℕ → List Prefix) (max_ranges : ℕ) where
  abbrev Denotes : PrefixRange → Type 0
  Denotes = States.Denotes e g.top (node_at g) routes

  -- The members of a state were all followed.
  pub record Closed (s : State) (v : Eval) : Type 0 where
    pub node : SetNode
    pub looked : lookup s.0 g.nodes ≡ some node
    pub given :
        (m : SetMember)
        → Memᴰ m (members node.set)
        → (r : PrefixRange) → States.MemberGives e g.top (node_at g) routes s.1 m r
        → Memᴰ r v.out
    pub followed :
        (m : SetMember)
        → Memᴰ m (members node.set)
        → (t : State) → States.Leads e g.top (node_at g) routes s m t
        → Memᴰ t v.walked
    pub claimed :
        (o : ClaimObject)
        → Memᴰ o node.claims
        → (r : PrefixRange) → States.ClaimGives e g.top (node_at g) routes s.1 o r
        → Memᴰ r v.out

  -- What holds of the variables after at least `base` visits.
  pub record Inv (base : ℕ) (v : Eval) : Type 0 where
    pub walked_sound : (s : State) → Memᴰ s v.walked → States.Visited e g.top (node_at g) routes s
    pub out_sound : (r : PrefixRange) → Memᴰ r v.out → Denotes r
    pub late : base ≤ v.visits
    pub within : v.visits ≤ max_visited e
    pub few : length v.out ≤ max_ranges

  pub record Grows (v w : Eval) : Type 0 where
    pub walked_kept : (s : State) → Memᴰ s v.walked → Memᴰ s w.walked
    pub out_kept : (r : PrefixRange) → Memᴰ r v.out → Memᴰ r w.out
    pub closed : (s : State) → Memᴰ s w.walked → Memᴰ s v.walked ⊎ Closed s w

  pub Closed-kept :
      (s : State) (v w : Eval)
      → ((t : State) → Memᴰ t v.walked → Memᴰ t w.walked)
      → ((r : PrefixRange) → Memᴰ r v.out → Memᴰ r w.out)
      → Closed s v
      → Closed s w
  Closed-kept s v w h k c = record {
    node = c.node;
    looked = c.looked;
    given = λ m n r p. k r (c.given m n r p);
    followed = λ m n t p. h t (c.followed m n t p);
    claimed = λ o n r p. k r (c.claimed o n r p);
  }

  pub Grows-refl : (v : Eval) → Grows v v
  Grows-refl v = record { walked_kept = λ s m. m; out_kept = λ r m. m; closed = λ s m. inl m }

  pub Grows-trans : (u v w : Eval) → Grows u v → Grows v w → Grows u w
  Grows-trans u v w h k = record {
    walked_kept = λ s m. k.walked_kept s (h.walked_kept s m);
    out_kept = λ r m. k.out_kept r (h.out_kept r m);
    closed = λ s m. elim (k.closed s m) [
      | inr c ↦ inr c
      | inl n ↦ elim (h.closed s n) [
        | inl l ↦ inl l
        | inr c ↦ inr (Closed-kept s v w k.walked_kept k.out_kept c)
      ]
    ];
  }

  -- A step that adds the ranges of `P`, all of which the graph denotes.
  abbrev pub Adds : (PrefixRange → Type 0) → ℕ → Eval → Eval → Type 0
  Adds P base v w = Inv base w × Grows v w × ((r : PrefixRange) → P r → Memᴰ r w.out)

  module _ (base : ℕ) where
    Adds-add_range :
        (r : PrefixRange) (v : Eval)
        → Inv base v
        → Denotes r
        → length (add_range r v.out) ≤ max_ranges
        → Inv base (record v { out = add_range r v.out })
          × Grows v (record v { out = add_range r v.out })
    Adds-add_range r v i d n = (
      record {
        walked_sound = i.walked_sound;
        out_sound = λ x m. elim (add_range_cases r x v.out m) [
          | inl y ↦ subst Denotes (sym y) d
          | inr k ↦ i.out_sound x k
        ];
        late = i.late;
        within = i.within;
        few = n;
      },
      record {
        walked_kept = λ s m. m;
        out_kept = λ x m. add_range_kept r x v.out m;
        closed = λ s m. inl m;
      },
    )

    not-false : (b : Bool) → not b ≡ false → b ≡ true
    not-false true h = refl
    not-false false h = sym h

    not-true : (b : Bool) → not b ≡ true → b ≡ false
    not-true true h = sym h
    not-true false h = refl

    same_range : (r q : PrefixRange) → some r ≡ some q → r ≡ q
    same_range r q h = cc h

    pub Ends-add :
        (x : PrefixRange) (ops : OpStack) (v : Eval)
        → Inv base v
        → ((r : PrefixRange) → States.Kept e g.top (node_at g) routes ops x r → Denotes r)
        → Ends
            (Adds (States.Kept e g.top (node_at g) routes ops x) base v)
            (add e g routes max_ranges x ops v)
    unfolding add keep Ends
    Ends-add x ops v i d = of (apply ops x) refl
      where
        P : PrefixRange → Type 0
        P = States.Kept e g.top (node_at g) routes ops x

        of :
            (o : Option PrefixRange)
            → apply ops x ≡ o
            → Ends (Adds P base v) (keep e g routes max_ranges o v)
        of none h = (i, Grows-refl v, λ r p. absurd (cc (sym h ∙ p.applied)))
        of (some r) h =
            Ends-if (Adds P base v) (not (afi_allows e r.prefix)) _ _
              (λ a. (
                i,
                Grows-refl v,
                λ q p.
                    let same = same_range r q (sym h ∙ p.applied) in
                    let shut =
                      not-true (afi_allows e q.prefix)
                        (ap (λ (z : PrefixRange). not (afi_allows e z.prefix)) (sym same) ∙ a) in
                    absurd (cc (sym p.allowed ∙ shut)),
              ))
              (λ a.
                Ends-if (Adds P base v) (ltb max_ranges (length (add_range r v.out))) _ _ (λ n. tt)
                  (λ n.
                    let allowed = not-false (afi_allows e r.prefix) a in
                    let (j, grow) =
                      Adds-add_range r v i (d r (record { applied = h; allowed = allowed }))
                        (ground (arith, n)) in
                    (
                      j,
                      grow,
                      λ q p.
                          Memᴰ.cast (sym (same_range r q (sym h ∙ p.applied)))
                            (add_range_mem r v.out),
                    )))

    -- A step that adds nothing.
    nothing :
        (P : PrefixRange → Type 0) (v : Eval)
        → Inv base v
        → ((r : PrefixRange) → P r → ⊥)
        → Adds P base v v
    nothing P v i h = (i, Grows-refl v, λ r p. absurd (h r p))

    Ends-add_route :
        (ops : OpStack) (p : Prefix) (v : Eval)
        → Inv base v
        → ((r : PrefixRange) → States.Routed e g.top (node_at g) routes ops p r → Denotes r)
        → Ends
            (Adds (States.Routed e g.top (node_at g) routes ops p) base v)
            (add_route e g routes max_ranges ops p v)
    unfolding add_route Ends
    Ends-add_route ops p v i d =
        Ends-if (Adds (States.Routed e g.top (node_at g) routes ops p) base v) (not p.is_valid) _ _
          (λ n.
            nothing (States.Routed e g.top (node_at g) routes ops p) v i
              (λ r q. cc (sym q.valid ∙ not-true p.is_valid n)))
          (λ n.
            let valid = not-false p.is_valid n in
            Ends-mono
              (Adds (States.Kept e g.top (node_at g) routes ops (exact_range (masked p))) base v)
              (Adds (States.Routed e g.top (node_at g) routes ops p) base v)
              (add e g routes max_ranges (exact_range (masked p)) ops v)
              (λ w (j, grow, all). (j, grow, λ r q. all r q.kept))
              (Ends-add (exact_range (masked p)) ops v i
                (λ r q. d r (record { valid = valid; kept = q }))))

    -- Some route gives the range.
    abbrev pub Listed : List Prefix → OpStack → PrefixRange → Type 0
    Listed ps ops r = (p : Prefix) × Memᴰ p ps × States.Routed e g.top (node_at g) routes ops p r

    pub Ends-add_routes :
        (ps : List Prefix) (ops : OpStack) (v : Eval)
        → Inv base v
        → ((r : PrefixRange) → Listed ps ops r → Denotes r)
        → Ends (Adds (Listed ps ops) base v) (add_routes e g routes max_ranges ps ops v)
    unfolding add_routes
    Ends-add_routes ps ops v i d =
        Ends-mono (Reached (Inv base) Grows Goal ps v) (Adds (Listed ps ops) base v)
          (each (add_route e g routes max_ranges ops) ps v)
          (λ w h. (h.invariant, h.grows, λ r (p, m, q). h.goals p m r q))
          (Ends-each (Inv base) Grows Goal Grows-refl Grows-trans
            (λ p s t grow h r q. grow.out_kept r (h r q)) (add_route e g routes max_ranges ops) ps
            (λ p m s j. Ends-add_route ops p s j (λ r q. d r (p, m, q))) v i)
      where
        Goal : Prefix → Eval → Type 0
        Goal p w =
            (r : PrefixRange) → States.Routed e g.top (node_at g) routes ops p r → Memᴰ r w.out

    -- The same for ranges that are described otherwise.
    pub Ends-Listed :
        (P : PrefixRange → Type 0) (ps : List Prefix) (ops : OpStack) (v : Eval)
        → Inv base v
        → ((r : PrefixRange) → P r → Listed ps ops r)
        → ((r : PrefixRange) → Listed ps ops r → Denotes r)
        → Ends (Adds P base v) (add_routes e g routes max_ranges ps ops v)
    Ends-Listed P ps ops v i h d =
        Ends-mono (Adds (Listed ps ops) base v) (Adds P base v)
          (add_routes e g routes max_ranges ps ops v)
          (λ w (j, grow, all). (j, grow, λ r p. all r (h r p))) (Ends-add_routes ps ops v i d)

    pub Ends-add_claim :
        (ops : OpStack) (o : ClaimObject) (v : Eval)
        → Inv base v
        → ((r : PrefixRange) → States.ClaimGives e g.top (node_at g) routes ops o r → Denotes r)
        → Ends
            (Adds (States.ClaimGives e g.top (node_at g) routes ops o) base v)
            (add_claim e g routes max_ranges ops o v)
    unfolding add_claim Ends
    Ends-add_claim ops (route p c) v i d =
        Ends-Listed (States.ClaimGives e g.top (node_at g) routes ops (route p c)) (p ∷ []) ops v i
          (λ r x. elim x [ by_route q ↦ (p, Memᴰ.head refl, q) ])
          (λ r (q, m, x). d r (
            by_route (
              subst (λ y. States.Routed e g.top (node_at g) routes ops y r) (Memᴰ.eq_of_singleton m)
                x)))
    Ends-add_claim ops (route6 p c) v i d =
        Ends-Listed (States.ClaimGives e g.top (node_at g) routes ops (route6 p c)) (p ∷ []) ops v i
          (λ r x. elim x [ by_route6 q ↦ (p, Memᴰ.head refl, q) ])
          (λ r (q, m, x). d r (
            by_route6 (
              subst (λ y. States.Routed e g.top (node_at g) routes ops y r) (Memᴰ.eq_of_singleton m)
                x)))
    Ends-add_claim ops (aut_num a c) v i d =
        Ends-Listed (States.ClaimGives e g.top (node_at g) routes ops (aut_num a c)) (routes a) ops
          v i (λ r x. elim x [ by_aut_num {p = p} m q ↦ (p, m, q) ])
          (λ r (q, m, x). d r (by_aut_num m x))
    Ends-add_claim ops (inet_rtr c) v i d =
        nothing (States.ClaimGives e g.top (node_at g) routes ops (inet_rtr c)) v i
          (λ r x. elim x [ ])
    Ends-add_claim ops nil_object v i d =
        nothing (States.ClaimGives e g.top (node_at g) routes ops nil_object) v i
          (λ r x. elim x [ ])
    Ends-add_claim ops other_object v i d =
        nothing (States.ClaimGives e g.top (node_at g) routes ops other_object) v i
          (λ r x. elim x [ ])
