-- ===== src/Policy/Flatten/Size.antt =====
-- The sizes of filters: what `filterSize` counts, and that a term's size bounds its filter.
use rpsl.Base.{
  ℕ, suc, ◌+◌, ◌≤◌, ◌≡◌, refl, ap₂, inl, inr, false, max, Bool-cases, Option, none, some, List, [],
  ◌∷◌, ◌++◌, map, ltb, arith,
}
use rpsl.Policy.Ast.{
  Peering, PeerAction, Filter, no_filter, filter_any, filter_peer_as, filter_prefix_list,
  filter_as_expr, filter_set_ref, filter_set_template, filter_path_re, filter_community, filter_and,
  filter_or, filter_not, Filters, no_filters, with_filter, append,
}
use rpsl.Policy.Flatten.{
  WTerm, is_nil_filter, and_terms, or_terms, and_filters, all_or_terms, or_filters, filter_size,
  filter_sizes, max_flatten_depth,
}
use rpsl.Policy.Flatten.Terms.{
  except_term, covered_filters, covered_size, rest_term, refine_term, refine_of, factor_term,
  intersect_peerings, intersect_vias,
}
use rpsl.Policy.Flatten.Loops.{exceptions, refined, refined_with}

unfoldable mutual
  -- All nodes of a filter, however deep.
  pub nodes : Filter → ℕ
  nodes no_filter = 0
  nodes (filter_and terms) = 1 + nodes_all terms
  nodes (filter_or terms) = 1 + nodes_all terms
  nodes (filter_not inner) = 1 + nodes inner
  nodes _ = 1

  pub nodes_all : Filters → ℕ
  nodes_all no_filters = 0
  nodes_all (with_filter f fs) = nodes f + nodes_all fs

unfoldable mutual
  -- How deep filters are nested in a filter.
  pub depth_of : Filter → ℕ
  depth_of (filter_and terms) = depth_of_all terms
  depth_of (filter_or terms) = depth_of_all terms
  depth_of (filter_not inner) = suc (depth_of inner)
  depth_of _ = 0

  -- One more than the deepest of them, or 0.
  pub depth_of_all : Filters → ℕ
  depth_of_all no_filters = 0
  depth_of_all (with_filter f fs) = max (suc (depth_of f)) (depth_of_all fs)

not_deep : (d : ℕ) → d ≤ max_flatten_depth → ltb max_flatten_depth d ≡ false
not_deep d h = ground arith

mutual
  unfolding filter_size nodes depth_of

  size-nodes : (f : Filter) (d : ℕ) → d + depth_of f ≤ max_flatten_depth → filter_size f d ≡ nodes f
  size-nodes no_filter d h = rw (not_deep d (omega arith)) refl
  size-nodes filter_any d h = refl
  size-nodes (filter_peer_as _) d h = refl
  size-nodes (filter_prefix_list _) d h = refl
  size-nodes (filter_as_expr _ _) d h = refl
  size-nodes (filter_set_ref _ _) d h = refl
  size-nodes (filter_set_template _ _) d h = refl
  size-nodes (filter_path_re _ _) d h = refl
  size-nodes (filter_community _ _ _) d h = refl
  size-nodes (filter_and terms) d h =
      rw (not_deep d (omega arith)) (omega (arith, sizes-nodes terms d (omega arith)))
  size-nodes (filter_or terms) d h =
      rw (not_deep d (omega arith)) (omega (arith, sizes-nodes terms d (omega arith)))
  size-nodes (filter_not inner) d h =
      rw (not_deep d (omega arith)) (omega (arith, size-nodes inner (d + 1) (omega arith)))

  sizes-nodes :
      (fs : Filters) (d : ℕ)
      → d + depth_of_all fs ≤ max_flatten_depth
      → filter_sizes fs (d + 1) ≡ nodes_all fs
  sizes-nodes no_filters d h = refl
  sizes-nodes (with_filter f fs) d h =
      ap₂ ◌+◌ (size-nodes f (d + 1) (omega arith)) (sizes-nodes fs d (omega arith))

nodes_all-append : (fs gs : Filters) → nodes_all (append fs gs) ≡ nodes_all fs + nodes_all gs
unfolding nodes_all append
nodes_all-append no_filters gs = omega arith
nodes_all-append (with_filter f fs) gs = omega (arith, nodes_all-append fs gs)

nodes-and_terms : (f : Filter) → nodes_all (and_terms f) ≤ nodes f
unfolding nodes and_terms
nodes-and_terms no_filter = omega arith
nodes-and_terms filter_any = omega arith
nodes-and_terms (filter_peer_as _) = omega arith
nodes-and_terms (filter_prefix_list _) = omega arith
nodes-and_terms (filter_as_expr _ _) = omega arith
nodes-and_terms (filter_set_ref _ _) = omega arith
nodes-and_terms (filter_set_template _ _) = omega arith
nodes-and_terms (filter_path_re _ _) = omega arith
nodes-and_terms (filter_community _ _ _) = omega arith
nodes-and_terms (filter_and terms) = omega arith
nodes-and_terms (filter_or terms) = omega arith
nodes-and_terms (filter_not inner) = omega arith

nodes-or_terms : (f : Filter) → nodes_all (or_terms f) ≤ nodes f
unfolding nodes or_terms
nodes-or_terms no_filter = omega arith
nodes-or_terms filter_any = omega arith
nodes-or_terms (filter_peer_as _) = omega arith
nodes-or_terms (filter_prefix_list _) = omega arith
nodes-or_terms (filter_as_expr _ _) = omega arith
nodes-or_terms (filter_set_ref _ _) = omega arith
nodes-or_terms (filter_set_template _ _) = omega arith
nodes-or_terms (filter_path_re _ _) = omega arith
nodes-or_terms (filter_community _ _ _) = omega arith
nodes-or_terms (filter_and terms) = omega arith
nodes-or_terms (filter_or terms) = omega arith
nodes-or_terms (filter_not inner) = omega arith

-- `andFilters` adds one node at most.
pub nodes-and_filters : (a b : Filter) → nodes (and_filters a b) ≤ nodes a + nodes b + 1
unfolding nodes and_filters
nodes-and_filters a b = elim (Bool-cases (is_nil_filter a)) [
  | inl e ↦ rw e (omega arith)
  | inr e ↦ rw e (elim (Bool-cases (is_nil_filter b)) [
    | inl d ↦ rw d (omega arith)
    | inr d ↦ rw d (
        omega (
          arith,
          nodes_all-append (and_terms a) (and_terms b),
          nodes-and_terms a,
          nodes-and_terms b,
        ))
  ])
]

nodes-all_or_terms : (fs : Filters) → nodes_all (all_or_terms fs) ≤ nodes_all fs
unfolding nodes_all all_or_terms
nodes-all_or_terms no_filters = omega arith
nodes-all_or_terms (with_filter f fs) = omega (
  arith,
  nodes_all-append (or_terms f) (all_or_terms fs),
  nodes-or_terms f,
  nodes-all_or_terms fs,
)

pub nodes-or_filters : (fs : Filters) → nodes (or_filters fs) ≤ nodes_all fs + 1
unfolding nodes or_filters
nodes-or_filters no_filters = omega arith
nodes-or_filters (with_filter f no_filters) = omega arith
nodes-or_filters (with_filter f (with_filter g fs)) =
    omega (arith, nodes-all_or_terms (with_filter f (with_filter g fs)))

-- The size of each term bounds the nodes of its filter.
abbrev pub Sized : List WTerm → Type 0
Sized [] = Unit
Sized (t ∷ ts) = (nodes t.term.filter ≤ t.w) × Sized ts

pub Sized-append : (ts us : List WTerm) → Sized ts → Sized us → Sized (ts ++ us)
Sized-append [] us p q = q
Sized-append (t ∷ ts) us p q = (p.0, Sized-append ts us p.1 q)

covered_size-nodes :
    (right : List WTerm) → Sized right → nodes_all (covered_filters right) ≤ covered_size right
unfolding covered_filters covered_size nodes
covered_size-nodes [] h = omega arith
covered_size-nodes (r ∷ right) h = elim (Bool-cases (is_nil_filter r.term.filter)) [
  | inl e ↦ rw e (covered_size-nodes right h.1)
  | inr e ↦ rw e (omega (arith, h.0, covered_size-nodes right h.1))
]

pairs-Sized :
    (l : WTerm) (right : List WTerm)
    → nodes l.term.filter ≤ l.w
    → Sized right
    → Sized (map (except_term l) right)
pairs-Sized l [] p q = tt
pairs-Sized l (r ∷ right) p q =
    (omega (arith, nodes-and_filters l.term.filter r.term.filter, q.0), pairs-Sized l right p q.1)

pub exceptions-Sized :
    (left right ts : List WTerm)
    → Sized left
    → Sized right
    → Sized ts
    → Sized (exceptions left right ts)
unfolding exceptions
exceptions-Sized [] right ts p q h = h
exceptions-Sized (l ∷ left) right ts p q h =
    Sized-append (map (except_term l) right) (exceptions left right ts) (pairs-Sized l right p.0 q)
      (exceptions-Sized left right ts p.1 q h)

rest-Sized :
    (rest : Filter) (n : ℕ) (left : List WTerm)
    → nodes rest + 1 ≤ n
    → Sized left
    → Sized (map (rest_term rest n) left)
unfolding nodes
rest-Sized rest n [] h p = tt
rest-Sized rest n (l ∷ left) h p = (
  elim (Bool-cases (is_nil_filter rest)) [
    | inl e ↦ rw e (p.0)
    | inr e ↦ rw e (omega (arith, nodes-and_filters l.term.filter (filter_not rest), p.0))
  ],
  rest-Sized rest n left h p.1,
)

pub kept-Sized :
    (left right : List WTerm)
    → Sized left
    → Sized right
    → Sized (map (rest_term (or_filters (covered_filters right)) (2 + covered_size right)) left)
kept-Sized left right p q =
    rest-Sized (or_filters (covered_filters right)) (2 + covered_size right) left
      (omega (arith, nodes-or_filters (covered_filters right), covered_size-nodes right q)) p

module _ (expr_text : Peering → List ℕ) where
  factor-Sized :
      (fl : Filter) (w : ℕ) (peers : List PeerAction)
      → nodes fl ≤ w
      → Sized (map (factor_term expr_text fl w) peers)
  factor-Sized fl w [] h = tt
  factor-Sized fl w (p ∷ peers) h = (h, factor-Sized fl w peers h)

  pub parsed-Sized :
      (fl : Filter) (peers : List PeerAction)
      → depth_of fl ≤ max_flatten_depth
      → Sized (map (factor_term expr_text fl (filter_size fl 0)) peers)
  parsed-Sized fl peers h =
      factor-Sized fl (filter_size fl 0) peers (omega (arith, size-nodes fl 0 (omega arith)))

  abbrev Found : Option WTerm → Type 0
  Found none = Unit
  Found (some t) = nodes t.term.filter ≤ t.w

  refine_term-Found :
      (l r : WTerm)
      → nodes l.term.filter ≤ l.w
      → nodes r.term.filter ≤ r.w
      → Found (refine_term expr_text l r)
  unfolding refine_term
  refine_term-Found l r p q =
      elim (intersect_peerings expr_text l.term.peering r.term.peering)
        as (λ pe. Found (elim pe [
          | none ↦ none
          | some pe ↦ elim (intersect_vias expr_text l.term.via r.term.via) [
            | none ↦ none
            | some via ↦ some (refine_of l r via pe)
          ]
        ])) [
          | none ↦ tt
          | some pe ↦
              elim (intersect_vias expr_text l.term.via r.term.via)
                as (λ via.
                  Found (elim via [ none ↦ none | some via ↦ some (refine_of l r via pe) ])) [
                    | none ↦ tt
                    | some via ↦ omega (arith, nodes-and_filters l.term.filter r.term.filter)
                  ]
        ]

  refined_with-Sized :
      (l : WTerm) (right ts : List WTerm)
      → nodes l.term.filter ≤ l.w
      → Sized right
      → Sized ts
      → Sized (refined_with expr_text l right ts)
  unfolding refined_with
  refined_with-Sized l [] ts p q h = h
  refined_with-Sized l (r ∷ right) ts p q h =
      pick (refine_term expr_text l r) (refine_term-Found l r p q.0)
        (refined_with expr_text l right ts) (refined_with-Sized l right ts p q.1 h)
    where
      pick :
          (found : Option WTerm)
          → Found found
          → (us : List WTerm) → Sized us
          → Sized (elim found [ none ↦ us | some t ↦ t ∷ us ])
      pick none e us s = s
      pick (some t) e us s = (e, s)

  pub refined-Sized :
      (left right : List WTerm) → Sized left → Sized right → Sized (refined expr_text left right)
  unfolding refined
  refined-Sized [] right p q = tt
  refined-Sized (l ∷ left) right p q =
      refined_with-Sized l right (refined expr_text left right) p.0 q
        (refined-Sized left right p.1 q)
