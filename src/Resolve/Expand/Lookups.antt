-- ===== src/Resolve/Expand/Lookups.antt =====
-- The map of nodes of a graph of resolve/expander.go, and the stable order in which it is walked.
use mathlib.Core.List.{Memᴰ}
use mathlib.Core.List.Memᴰ
use rpsl.Base.{
  ◌≡◌, ◌≢◌, refl, sym, ap, ◌∙◌, ◌⊎◌, inl, inr, Bool, true, false, List, [], ◌∷◌, Option, none, some,
  if_some, if◌then◌else◌,
}
use rpsl.Resolve.Expand.Discover.{SetNode, SetGraph, sort_refs}
use rpsl.Resolve.Expand.Evaluate.{lookup}
use rpsl.Resolve.Expand.Found.{sort_refs_mem}
use rpsl.Resolve.Expand.Ranges.{others, with_node, nodes_at, ordered, all_nodes}
use rpsl.Types.SetRef.{SetRef, ref_eq, ref_eq_refl, ref_eq-true}

same_node : (a b : SetNode) → some a ≡ some b → a ≡ b
same_node a b h = cc h

pub lookup-some :
    (r : SetRef) (nodes : List (SetRef × SetNode)) (nd : SetNode)
    → lookup r nodes ≡ some nd
    → Memᴰ (r, nd) nodes
unfolding lookup
lookup-some r [] nd h = absurd (cc h)
lookup-some r ((q, other) ∷ more) nd h =
    elim (if_some (ref_eq r q) (some other) (lookup r more) nd h) [
      | inl (t, x) ↦
          let same = ref_eq-true r q t in
          let found = same_node other nd x in Memᴰ.head (λ i. (same i, sym found i))
      | inr (t, x) ↦ Memᴰ.tail (lookup-some r more nd x)
    ]

-- A key of the map is found.
pub lookup_finds :
    (r : SetRef) (nodes : List (SetRef × SetNode)) (nd : SetNode)
    → Memᴰ (r, nd) nodes
    → lookup r nodes ≢ none
unfolding lookup
lookup_finds r [] nd m = absurd (Memᴰ.not-nil m)
lookup_finds r ((q, other) ∷ more) nd m = of (ref_eq r q) refl (λ k. lookup_finds r more nd k)
  where
    of :
        (b : Bool)
        → ref_eq r q ≡ b
        → (Memᴰ (r, nd) more → lookup r more ≢ none)
        → (if b then some other else lookup r more) ≢ none
    of true t ih = λ h. cc h
    of false t ih = elim (Memᴰ.cases_cons m) [
      | inl x ↦
          let same : r ≡ q = ap (λ (p : SetRef × SetNode). p.0) x in
          absurd (cc (sym t ∙ sym (ap (ref_eq r) same) ∙ ref_eq_refl r))
      | inr k ↦ ih k
    ]

others_mem :
    (top : SetRef) (nodes : List (SetRef × SetNode)) (r : SetRef) (nd : SetNode)
    → Memᴰ (r, nd) nodes
    → (r ≡ top) ⊎ Memᴰ r (others top nodes)
unfolding others
others_mem top [] r nd m = absurd (Memᴰ.not-nil m)
others_mem top ((q, other) ∷ more) r nd m = of (ref_eq q top) refl (λ k. others_mem top more r nd k)
  where
    of :
        (b : Bool)
        → ref_eq q top ≡ b
        → (Memᴰ (r, nd) more → (r ≡ top) ⊎ Memᴰ r (others top more))
        → (r ≡ top) ⊎ Memᴰ r (if b then others top more else q ∷ others top more)
    of true t ih = elim (Memᴰ.cases_cons m) [
      | inl x ↦ inl (ap (λ (p : SetRef × SetNode). p.0) x ∙ ref_eq-true q top t)
      | inr k ↦ ih k
    ]
    of false t ih = elim (Memᴰ.cases_cons m) [
      | inl x ↦ inr (Memᴰ.head (ap (λ (p : SetRef × SetNode). p.0) x))
      | inr k ↦ elim (ih k) [ inl y ↦ inl y | inr y ↦ inr (Memᴰ.tail y) ]
    ]

with_node_mem :
    (o : Option SetNode) (rest : List SetNode) (nd : SetNode)
    → (o ≡ some nd) ⊎ Memᴰ nd rest
    → Memᴰ nd (with_node o rest)
unfolding with_node
with_node_mem none rest nd (inl h) = absurd (cc h)
with_node_mem none rest nd (inr m) = m
with_node_mem (some other) rest nd (inl h) = Memᴰ.head (sym (same_node other nd h))
with_node_mem (some other) rest nd (inr m) = Memᴰ.tail m

nodes_at_mem :
    (nodes : List (SetRef × SetNode)) (rs : List SetRef) (r : SetRef) (nd : SetNode)
    → Memᴰ r rs
    → lookup r nodes ≡ some nd
    → Memᴰ nd (nodes_at nodes rs)
unfolding nodes_at
nodes_at_mem nodes [] r nd m h = absurd (Memᴰ.not-nil m)
nodes_at_mem nodes (q ∷ rs) r nd m h =
    with_node_mem (lookup q nodes) (nodes_at nodes rs) nd (elim (Memᴰ.cases_cons m) [
      | inl same ↦ inl (ap (λ x. lookup x nodes) (sym same) ∙ h)
      | inr k ↦ inr (nodes_at_mem nodes rs r nd k h)
    ])

-- The order of the nodes leaves none out.
pub ordered_mem :
    (g : SetGraph) (r : SetRef) (nd : SetNode) → lookup r g.nodes ≡ some nd → Memᴰ nd (ordered g)
unfolding ordered
ordered_mem g r nd h =
    nodes_at_mem g.nodes (g.top ∷ sort_refs (others g.top g.nodes)) r nd
      (elim (others_mem g.top g.nodes r nd (lookup-some r g.nodes nd h)) [
        | inl same ↦ Memᴰ.head same
        | inr m ↦ Memᴰ.tail ((sort_refs_mem (others g.top g.nodes) r).1 m)
      ])
      h

pub all_nodes_mem :
    (nodes : List (SetRef × SetNode)) (r : SetRef) (nd : SetNode)
    → Memᴰ (r, nd) nodes
    → Memᴰ nd (all_nodes nodes)
unfolding all_nodes
all_nodes_mem [] r nd m = absurd (Memᴰ.not-nil m)
all_nodes_mem ((q, other) ∷ more) r nd m = elim (Memᴰ.cases_cons m) [
  | inl x ↦ Memᴰ.head (ap (λ (p : SetRef × SetNode). p.1) x)
  | inr k ↦ Memᴰ.tail (all_nodes_mem more r nd k)
]

pub all_nodes_sound :
    (nodes : List (SetRef × SetNode)) (nd : SetNode)
    → Memᴰ nd (all_nodes nodes)
    → (r : SetRef) × Memᴰ (r, nd) nodes
unfolding all_nodes
all_nodes_sound [] nd m = absurd (Memᴰ.not-nil m)
all_nodes_sound ((q, other) ∷ more) nd m = elim (Memᴰ.cases_cons m) [
  | inl x ↦ (q, Memᴰ.head (λ i. (q, x i)))
  | inr k ↦ let (r, n) = all_nodes_sound more nd k in (r, Memᴰ.tail n)
]
