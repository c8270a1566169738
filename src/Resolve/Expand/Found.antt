-- ===== src/Resolve/Expand/Found.antt =====
-- What `discover` of resolve/expander.go returns, against the sets that can be reached.
use mathlib.Core.List.{Memᴰ}
use mathlib.Core.List.Memᴰ
use mathlib.Core.Path.{subst}
use rpsl.Base.{
  suc, ◌≤◌, max, ◌≡◌, ◌≢◌, ◌↔◌, refl, sym, ap, ◌∙◌, inl, inr, Bool, true, false, List, [], ◌∷◌,
  length, ◌==◌, arith,
}
use rpsl.Lexer.Text.{Bytes}
use rpsl.Object.Sets.{NamedSet, ClaimObject}
use rpsl.Resolve.Expand.{
  Source, Expander, ExpandError, Fetched, fetched, fetch_failed, not_found, max_depth, max_visited,
  nested_refs, excludes_set, fetch_one, claims_of,
}
use rpsl.Resolve.Expand.Discover.{
  SetNode, SetGraph, Search, start, text_ltb, placed, insert_ref, sort_refs, add_node, fetch_claims,
  unclaimed, graph_with, graph_of, levels, discover,
}
use rpsl.Resolve.Expand.Levels.{Explored, Ends-levels, Between-start}
use rpsl.Resolve.Expand.Outcome.{Outcome, Ends, Ends-if, Ends-and_then}
use rpsl.Resolve.Expand.Reachable.{Reach, here, further, Handled, found, lost}
use rpsl.Types.SetName.{is_any}
use rpsl.Types.SetRef
use rpsl.Types.SetRef.{SetRef}

-- Sorting keeps the members.
placed_mem :
    (b : Bool) (r q : SetRef) (qs rest : List SetRef) (x : SetRef)
    → (Memᴰ x rest ↔ (Memᴰ x (r ∷ qs)))
    → (Memᴰ x (placed b r q qs rest) ↔ Memᴰ x (r ∷ q ∷ qs))
unfolding placed
placed_mem false r q qs rest x h = (λ m. m, λ m. m)
placed_mem true r q qs rest x h = (
  λ m. elim (Memᴰ.cases_cons m) [
    | inl y ↦ Memᴰ.tail (Memᴰ.head y)
    | inr n ↦ elim (Memᴰ.cases_cons (h.0 n)) [
      | inl y ↦ Memᴰ.head y
      | inr k ↦ Memᴰ.tail (Memᴰ.tail k)
    ]
  ],
  λ m. elim (Memᴰ.cases_cons m) [
    | inl y ↦ Memᴰ.tail (h.1 (Memᴰ.head y))
    | inr n ↦ elim (Memᴰ.cases_cons n) [
      | inl y ↦ Memᴰ.head y
      | inr k ↦ Memᴰ.tail (h.1 (Memᴰ.tail k))
    ]
  ],
)

insert_ref_mem :
    (r : SetRef) (qs : List SetRef) (x : SetRef) → (Memᴰ x (insert_ref r qs) ↔ Memᴰ x (r ∷ qs))
unfolding insert_ref
insert_ref_mem r [] x = (λ m. m, λ m. m)
insert_ref_mem r (q ∷ qs) x =
    placed_mem (text_ltb (SetRef.string q) (SetRef.string r)) r q qs (insert_ref r qs) x
      (insert_ref_mem r qs x)

pub sort_refs_mem : (rs : List SetRef) (x : SetRef) → (Memᴰ x (sort_refs rs) ↔ Memᴰ x rs)
unfolding sort_refs
sort_refs_mem [] x = (λ m. m, λ m. m)
sort_refs_mem (r ∷ rs) x = (
  λ m. elim (Memᴰ.cases_cons ((insert_ref_mem r (sort_refs rs) x).0 m)) [
    | inl y ↦ Memᴰ.head y
    | inr n ↦ Memᴰ.tail ((sort_refs_mem rs x).0 n)
  ],
  λ m. elim (Memᴰ.cases_cons m) [
    | inl y ↦ (insert_ref_mem r (sort_refs rs) x).1 (Memᴰ.head y)
    | inr n ↦ (insert_ref_mem r (sort_refs rs) x).1 (Memᴰ.tail ((sort_refs_mem rs x).1 n))
  ],
)

module _ (trim_space : Bytes → Bytes) (src : Source) where
  -- The nodes with the indirect members that their sets honour.
  abbrev pub Claimed : List (SetRef × NamedSet) → List (SetRef × SetNode) → Type 0
  Claimed sets nodes =
      (r : SetRef) (nd : SetNode)
      → (Memᴰ (r, nd) nodes
          ↔ (Memᴰ (r, nd.set) sets × (claims_of trim_space src nd.set ≡ fetched nd.claims)))

  -- The Source answered for every set.
  abbrev pub Answered : List (SetRef × NamedSet) → Type 0
  Answered sets =
      (r : SetRef) (set : NamedSet)
      → Memᴰ (r, set) sets
      → (claims : List ClaimObject) × (claims_of trim_space src set ≡ fetched claims)

  abbrev pub Complete : List (SetRef × NamedSet) → List (SetRef × SetNode) → Type 0
  Complete sets nodes = Claimed sets nodes × Answered sets

  Answered-cons :
      (r : SetRef) (set : NamedSet) (claims : List ClaimObject) (sets : List (SetRef × NamedSet))
      → claims_of trim_space src set ≡ fetched claims
      → Answered sets
      → Answered ((r, set) ∷ sets)
  Answered-cons r set claims sets c h q other m = elim (Memᴰ.cases_cons m) [
    | inl x ↦ (claims, ap (λ (p : SetRef × NamedSet). claims_of trim_space src p.1) x ∙ c)
    | inr n ↦ h q other n
  ]

  same_claims : {A : Type 0} (x y : A) → fetched x ≡ fetched y → x ≡ y
  same_claims x y h = cc h

  Claimed-cons :
      (r : SetRef) (set : NamedSet) (claims : List ClaimObject) (sets : List (SetRef × NamedSet))
      (nodes : List (SetRef × SetNode))
      → claims_of trim_space src set ≡ fetched claims
      → Claimed sets nodes
      → Claimed ((r, set) ∷ sets) ((r, record { set = set; claims = claims }) ∷ nodes)
  Claimed-cons r set claims sets nodes c h q nd = (
    λ m. elim (Memᴰ.cases_cons m) [
      | inl x ↦ (
        Memᴰ.head (ap (λ (p : SetRef × SetNode). (p.0, p.1.set)) x),
        subst (λ (n : SetNode). claims_of trim_space src n.set ≡ fetched n.claims)
            (sym (ap (λ (p : SetRef × SetNode). p.1) x)) c,
      )
      | inr n ↦ let (k, d) = (h q nd).0 n in (Memᴰ.tail k, d)
    ],
    λ (m, d). elim (Memᴰ.cases_cons m) [
      | inl x ↦
          let same_ref = ap (λ (p : SetRef × NamedSet). p.0) x in
          let same_set = ap (λ (p : SetRef × NamedSet). p.1) x in
          let same : nd.claims ≡ claims =
            same_claims nd.claims claims (sym d ∙ ap (claims_of trim_space src) same_set ∙ c) in
          Memᴰ.head (λ i. (same_ref i, record { set = same_set i; claims = same i }))
      | inr n ↦ Memᴰ.tail ((h q nd).1 (n, d))
    ],
  )

  Ends-add_node :
      (r : SetRef) (set : NamedSet) (sets : List (SetRef × NamedSet))
      (o : Fetched (List ClaimObject)) (rest : Outcome ExpandError (List (SetRef × SetNode)))
      → claims_of trim_space src set ≡ o
      → Ends (Complete sets) rest
      → Ends (Complete ((r, set) ∷ sets)) (add_node trim_space src r set o rest)
  unfolding add_node Ends
  Ends-add_node r set sets (fetch_failed f) rest c h = tt
  Ends-add_node r set sets (fetched claims) rest c h =
      Ends-and_then (Complete sets) (Complete ((r, set) ∷ sets)) rest _ h (λ nodes (n, a).
        (Claimed-cons r set claims sets nodes c n, Answered-cons r set claims sets c a))

  Ends-fetch_claims :
      (sets : List (SetRef × NamedSet)) → Ends (Complete sets) (fetch_claims trim_space src sets)
  unfolding fetch_claims Ends
  Ends-fetch_claims [] = (
    λ r nd. (λ m. absurd (Memᴰ.not-nil m), λ (m, d). absurd (Memᴰ.not-nil m)),
    λ r set m. absurd (Memᴰ.not-nil m),
  )
  Ends-fetch_claims ((r, set) ∷ more) =
      Ends-add_node r set more (claims_of trim_space src set) (fetch_claims trim_space src more)
        refl (Ends-fetch_claims more)

module _ (trim_space : Bytes → Bytes) (src : Source) (e : Expander) (any_leaf : Bool)
    (top : SetRef) where
  -- The nodes are the sets that can be reached and are found, with the members that they honour, and
  -- the missing are those that can be reached and are not found.
  abbrev pub IsComplete : SetGraph → Type 0
  IsComplete g =
      ((r : SetRef) (nd : SetNode)
        → (Memᴰ (r, nd) g.nodes ↔ (
            Reach trim_space src e top r
            × (fetch_one trim_space src r ≡ fetched nd.set)
            × (claims_of trim_space src nd.set ≡ fetched nd.claims))))
      × ((r : SetRef)
          → (Memᴰ r g.missing ↔ (
              Reach trim_space src e top r
              × (fetch_one trim_space src r ≡ fetch_failed not_found))))

  pub record Discovered (g : SetGraph) : Type 0 where
    pub complete : g.any_refs ≡ [] → IsComplete g
    pub answered :
        g.any_refs ≡ []
        → (r : SetRef) (set : NamedSet) → Reach trim_space src e top r
        → fetch_one trim_space src r ≡ fetched set
        → (claims : List ClaimObject) × (claims_of trim_space src set ≡ fetched claims)
    pub few : g.reached ≤ max (max_visited e) 1
    pub same_top : g.top ≡ top
    pub quiet : any_leaf ≡ false → g.any_refs ≡ []

  module _ (s : Search)
      (handled : (r : SetRef) → Memᴰ r s.seen → Handled trim_space src e any_leaf top r s) where
    is_found :
        (r : SetRef) (set : NamedSet)
        → fetch_one trim_space src r ≡ fetched set
        → Handled trim_space src e any_leaf top r s
        → Memᴰ (r, set) s.nodes
          × ((c : SetRef)
              → Memᴰ c (nested_refs set)
              → excludes_set e c.name ≡ false
              → Memᴰ c s.seen)
    is_found r set f (lost l m) = absurd (cc (sym f ∙ l))
    is_found r set f (found other h m offered) =
        let same = same_claims trim_space src other set (sym h ∙ f) in
        (
          subst (λ n. Memᴰ (r, n) s.nodes) same m,
          λ c n. offered c (subst (λ x. Memᴰ c (nested_refs x)) (sym same) n),
        )

    is_missing :
        (r : SetRef)
        → fetch_one trim_space src r ≡ fetch_failed not_found
        → Handled trim_space src e any_leaf top r s
        → Memᴰ r s.missing
    is_missing r f (lost l m) = m
    is_missing r f (found set h m offered) = absurd (cc (sym f ∙ h))

    all_seen : Memᴰ top s.seen → {c : SetRef} → Reach trim_space src e top c → Memᴰ c s.seen
    all_seen t here = t
    all_seen t (further {r} {c} p (set, f, m, x)) =
        (is_found r set f (handled r (all_seen t p))).1 c m x

  Discovered-graph_with :
      (s : Search) (nodes : List (SetRef × SetNode))
      → Explored trim_space src e any_leaf top s
      → (s.any_refs ≡ [] → Complete trim_space src s.nodes nodes)
      → Discovered (graph_with top s nodes)
  Discovered-graph_with s nodes x claimed = record {
    complete = λ n. elim x.handled [
      | inr h ↦ absurd (h n)
      | inl h ↦ (
        λ r nd. (
          λ m.
              let (k, c) = ((claimed n).0 r nd).0 m in
              let (seen, f) = x.at.1.node_sound r nd.set k in (x.at.1.seen_sound r seen, f, c),
          λ (p, f, c).
              ((claimed n).0 r nd).1
                ((is_found s h r nd.set f (h r (all_seen s h x.at.1.top_seen p))).0, c),
        ),
        λ r. (
          λ m.
              let (seen, f) = x.at.1.missing_sound r ((sort_refs_mem s.missing r).0 m) in
              (x.at.1.seen_sound r seen, f),
          λ (p, f).
              (sort_refs_mem s.missing r).1
                (is_missing s h r f (h r (all_seen s h x.at.1.top_seen p))),
        ),
      )
    ];
    answered = λ n r set p f. elim x.handled [
      | inr h ↦ absurd (h n)
      | inl h ↦ (claimed n).1 r set (is_found s h r set f (h r (all_seen s h x.at.1.top_seen p))).0
    ];
    few = x.at.1.few;
    same_top = refl;
    quiet = x.at.1.quiet;
  }

  no_refs : {A : Type 0} (xs : List A) → (length xs == 0) ≡ false → xs ≢ []
  no_refs [] h = λ n. cc h
  no_refs (x ∷ xs) h = λ n. cc n

  Ends-graph_of :
      (s : Search)
      → Explored trim_space src e any_leaf top s
      → Ends Discovered (graph_of trim_space src e any_leaf top s)
  unfolding graph_of Ends
  Ends-graph_of s x =
      Ends-if Discovered (length s.any_refs == 0) _ _
        (λ h.
          Ends-and_then (Complete trim_space src s.nodes) Discovered
            (fetch_claims trim_space src s.nodes) _ (Ends-fetch_claims trim_space src s.nodes)
            (λ nodes c. Discovered-graph_with s nodes x (λ n. c)))
        (λ h. Discovered-graph_with s (unclaimed s.nodes) x (λ n. absurd (no_refs s.any_refs h n)))

  pub Ends-discover : Ends Discovered (discover trim_space src e any_leaf top)
  unfolding discover Ends
  Ends-discover =
      Ends-if Discovered (is_any top.name) _ _ (λ h. tt)
        (λ h.
          Ends-and_then (Explored trim_space src e any_leaf top) Discovered
            (levels trim_space src e any_leaf (suc (max_depth e)) 0 (top ∷ []) (start top)) _
            (Ends-levels trim_space src e any_leaf top (suc (max_depth e)) 0 (top ∷ []) (start top)
              (omega arith) (Between-start trim_space src e any_leaf top))
            (λ s x. Ends-graph_of s x))
