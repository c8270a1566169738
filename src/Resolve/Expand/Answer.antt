-- ===== src/Resolve/Expand/Answer.antt =====
-- A discovered graph of resolve/expander.go against the Source that it comes from.
use mathlib.Core.List.{Memᴰ}
use mathlib.Core.List.Memᴰ
use rpsl.Base.{
  ℕ, ◌≡◌, ◌↔◌, refl, sym, ap, ◌∙◌, inl, inr, Bool, true, false, Option-cases, List, [], Option,
  none, some, if◌then◌else◌,
}
use rpsl.Lexer.Text.{Bytes}
use rpsl.Object.Members.{SetMember}
use rpsl.Object.Sets.{NamedSet, ClaimObject}
use rpsl.Resolve.Expand.{
  Source, Expander, Fetched, fetched, fetch_failed, excludes_set, excludes_as, members, nestable,
  fetch_one, claims_of,
}
use rpsl.Resolve.Expand.Discover.{SetNode, SetGraph}
use rpsl.Resolve.Expand.Evaluate.{State, node_at}
use rpsl.Resolve.Expand.Found.{Discovered}
use rpsl.Resolve.Expand.Lookups.{lookup-some, lookup_finds, ordered_mem}
use rpsl.Resolve.Expand.Nested.{ref_of_name, nested_refs_mem, fetch_one_name}
use rpsl.Resolve.Expand.Numbers.{
  Numbers, Held, Holds, held, absent, node_asns_sound, node_asns_mem, add_asns_mem,
}
use rpsl.Resolve.Expand.Ranges.{node_asns, add_asns, routes_at, ordered}
use rpsl.Resolve.Expand.Reachable.{Reach, here, further}
use rpsl.Resolve.Expand.States
use rpsl.Resolve.Expand.Transfer
use rpsl.Types.Netip.{Prefix}
use rpsl.Types.PrefixRange.{PrefixRange}
use rpsl.Types.SetName.{SetName}
use rpsl.Types.SetRef.{SetRef}

module _ (trim_space : Bytes → Bytes) (src : Source) where
  -- What the Source has for a reference: the set, and the indirect members that it honours.
  abbrev node_of : NamedSet → Fetched (List ClaimObject) → Option SetNode
  node_of set (fetched claims) = some (record { set = set; claims = claims })
  node_of set (fetch_failed e) = none

  abbrev set_node : Fetched NamedSet → Option SetNode
  set_node (fetched set) = node_of set (claims_of trim_space src set)
  set_node (fetch_failed e) = none

  abbrev pub found_at : SetRef → Option SetNode
  found_at r = set_node (fetch_one trim_space src r)

-- The routes of an AS: those that the Source has, and none where the AS is left out.
abbrev given : Fetched (List Prefix) → List Prefix
given (fetched ps) = ps
given (fetch_failed e) = []

abbrev pub routes_of : Source → Expander → ℕ → List Prefix
routes_of src e a = if excludes_as e a then [] else given (src.originated_routes a e.afi)

module _ (trim_space : Bytes → Bytes) (src : Source) (e : Expander) (any_leaf : Bool) (top : SetRef)
    (g : SetGraph) (d : Discovered trim_space src e any_leaf top g) (no_any : g.any_refs ≡ []) where
  same_fetched : {A : Type 0} (a b : A) → fetched a ≡ fetched b → a ≡ b
  same_fetched a b h = cc h

  -- A node of the graph is a set that can be reached and that the Source has.
  pub node_sound :
      (r : SetRef) (nd : SetNode)
      → node_at g r ≡ some nd
      → Reach trim_space src e top r
        × (fetch_one trim_space src r ≡ fetched nd.set)
        × (claims_of trim_space src nd.set ≡ fetched nd.claims)
  node_sound r nd h = ((d.complete no_any).0 r nd).0 (lookup-some r g.nodes nd h)

  pub same_find :
      (r : SetRef) → Reach trim_space src e top r → node_at g r ≡ found_at trim_space src r
  same_find r p = of (fetch_one trim_space src r) refl
    where
      of :
          (o : Fetched NamedSet)
          → fetch_one trim_space src r ≡ o
          → node_at g r ≡ found_at trim_space src r
      of (fetch_failed x) f = elim (Option-cases (node_at g r)) [
        | inl n ↦ n ∙ sym (ap (set_node trim_space src) f)
        | inr (nd, h) ↦ let (q, k, c) = node_sound r nd h in absurd (cc (sym f ∙ k))
      ]
      of (fetched set) f =
          let (claims, c) = d.answered no_any r set p f in
          let node : SetNode = record { set = set; claims = claims } in
          let answer : found_at trim_space src r ≡ some node =
            ap (set_node trim_space src) f ∙ ap (node_of trim_space src set) c in
          elim (Option-cases (node_at g r)) [
            | inl n ↦
                absurd (lookup_finds r g.nodes node (((d.complete no_any).0 r node).1 (p, f, c)) n)
            | inr (nd, h) ↦
                let (q, k, c') = node_sound r nd h in
                let sets = same_fetched nd.set set (sym k ∙ f) in
                let lists =
                  same_fetched nd.claims claims (sym c' ∙ ap (claims_of trim_space src) sets ∙ c) in
                h ∙ (λ i. some (record { set = sets i; claims = lists i })) ∙ sym answer
          ]

  -- A state of the evaluation that follows one in reach is in reach.
  module _ (find : SetRef → Option SetNode) (routes : ℕ → List Prefix)
      (find_sound : (r : SetRef) (nd : SetNode)
        → Reach trim_space src e top r
        → find r ≡ some nd
        → fetch_one trim_space src r ≡ fetched nd.set) where
    within_next :
        (s t : State) (nd : SetNode)
        → Reach trim_space src e top s.0
        → find s.0 ≡ some nd
        → (m : SetMember) → Memᴰ m (members nd.set)
        → States.Leads e top find routes s m t
        → Reach trim_space src e top t.0
    within_next s t nd p f m n l =
        let k = find_sound s.0 nd p f in
        let own_name = fetch_one_name trim_space src s.0 nd.set k in
        let (name, named) = ref_of_name m t.0 l.names in
        further p (
          nd.set,
          k,
          nested_refs_mem nd.set m t.0 n l.is_set
              (ap (λ (x : SetName). nestable x.set_class m.set_name.set_class) own_name ∙ l.allowed)
              l.names,
          ap (excludes_set e) name ∙ l.included,
        )

  find_sound :
      (r : SetRef) (nd : SetNode)
      → Reach trim_space src e top r
      → found_at trim_space src r ≡ some nd
      → fetch_one trim_space src r ≡ fetched nd.set
  find_sound r nd p h = (node_sound r nd (same_find r p ∙ h)).1

  -- The routes fetched for the graph.
  module _ (table : List (ℕ × List Prefix))
      (holds : Holds src e (add_asns [] (node_asns e (ordered g))) table) where
    same_routes :
        (r : SetRef) (nd : SetNode)
        → Reach trim_space src e top r
        → node_at g r ≡ some nd
        → (a : ℕ) → Numbers nd a
        → routes_at table a ≡ routes_of src e a
    same_routes r nd p h a n = of (excludes_as e a) refl (holds a)
      where
        need : List ℕ
        need = add_asns [] (node_asns e (ordered g))

        pick : Bool → List Prefix
        pick b = if b then [] else given (src.originated_routes a e.afi)

        counted : excludes_as e a ≡ false → Memᴰ a need
        counted x =
            (add_asns_mem [] (node_asns e (ordered g)) a).1
              (inr (node_asns_mem e (ordered g) nd a (ordered_mem g r nd h) (n, x)))

        not_counted : excludes_as e a ≡ true → Memᴰ a need → ⊥
        not_counted x m = elim ((add_asns_mem [] (node_asns e (ordered g)) a).0 m) [
          | inl k ↦ Memᴰ.not-nil k
          | inr k ↦ let (q, l, c) = node_asns_sound e (ordered g) a k in cc (sym x ∙ c.1)
        ]

        of :
            (b : Bool)
            → excludes_as e a ≡ b
            → Held src e need table a
            → routes_at table a ≡ routes_of src e a
        of true x (held m f) = absurd (not_counted x m)
        of true x (absent m f) = f ∙ sym (ap pick x)
        of false x (held m f) = sym (ap pick x ∙ ap given f)
        of false x (absent m f) = absurd (m (counted x))

    pub Denotes-same :
        (r : PrefixRange)
        → (States.Denotes e top (node_at g) (routes_at table) r
            ↔ States.Denotes e top (found_at trim_space src) (routes_of src e) r)
    Denotes-same r = (
      Transfer.denotes e top (node_at g) (found_at trim_space src) (routes_at table)
          (routes_of src e) (Reach trim_space src e top) here
          (within_next (node_at g) (routes_at table) (λ q nd p h. (node_sound q nd h).1)) same_find
          same_routes r,
      Transfer.denotes e top (found_at trim_space src) (node_at g) (routes_of src e)
          (routes_at table) (Reach trim_space src e top) here
          (within_next (found_at trim_space src) (routes_of src e) find_sound)
          (λ q p. sym (same_find q p))
          (λ q nd p h a n. sym (same_routes q nd p (same_find q p ∙ h) a n)) r,
    )
