-- ===== src/Policy/Flatten.antt =====
-- policy/flatten.go: EXCEPT and REFINE resolved into terms. The flattener is passed on from call to
-- call; the rendering of a peering (policy/strings.go), which tells two peerings apart, is the
-- parameter `expr_text`.
pub mod Matching
pub mod Terms
pub mod Loops
pub mod Exception
pub mod Budget
pub mod Enough
pub mod Refinement
pub mod Size
pub mod Bounded
use rpsl.Base.{
  ℕ, zero, suc, ◌+◌, ◌^◌, Bool, true, false, not, ◌&&◌, ◌||◌, Option, none, some, List, [], ◌∷◌,
  ◌++◌, map, ltb, if◌then◌else◌,
}
use rpsl.Types.AddrFamily.{AddrFamily}
use rpsl.Types.SetName.{is_any, text_eq}
use rpsl.Policy.Afi.{any_covers, applies_to}
use rpsl.Policy.Ast.{
  Peering, no_peering, peering_as, AsExpr, as_set_ref, Action, PeerAction, Filter, no_filter,
  filter_and, filter_or, filter_not, Filters, no_filters, with_filter, append, Expr, no_expr,
  expr_factor, expr_list, expr_except, expr_refine, Exprs, no_exprs, with_expr, Import,
}

pub record Term : Type 0 where
  pub via : Peering
  pub peering : Peering
  pub actions : List Action
  pub filter : Filter

-- What `ErrFlattenTooLarge` is wrapped in: too many filter nodes, or nested too deep.
pub data FlattenError : Type 0 where
  too_many_nodes too_deep : FlattenError

abbrev pub max_flatten_nodes : ℕ
max_flatten_nodes = 2 ^ 20

-- `maxParseDepth`
abbrev pub max_flatten_depth : ℕ
max_flatten_depth = 1000

pub record Flattener : Type 0 where
  pub af : AddrFamily
  pub spent : ℕ
  pub err : Option FlattenError

-- A term, and the size of its filter.
pub record WTerm : Type 0 where
  pub term : Term
  pub w : ℕ

abbrev pub failed : Flattener → Bool
failed f = elim f.err [ none ↦ false | some e ↦ true ]

unfoldable pub charge : Flattener → ℕ → Bool × Flattener
charge f w =
    let spent = f.spent + (w + 1) in
    if failed f
    then (false, f)
    else if ltb max_flatten_nodes spent
    then (false, record f { spent = spent; err = some too_many_nodes })
    else (true, record f { spent = spent })

unfoldable pub covers_family : Flattener → List AddrFamily → Bool
covers_family f [] = true
covers_family f (a ∷ afis) = any_covers (a ∷ afis) f.af

unfoldable pub is_any_peering : Peering → Bool
is_any_peering (peering_as (as_set_ref name) none none) = is_any name
is_any_peering _ = false

unfoldable pub concat_actions : List Action → List Action → List Action
concat_actions [] r = r
concat_actions (a ∷ l) [] = a ∷ l
concat_actions (a ∷ l) (b ∷ r) = (a ∷ l) ++ (b ∷ r)

-- The terms that one operand gives to a conjunction, or to a disjunction.
pub and_terms : Filter → Filters
and_terms (filter_and terms) = terms
and_terms f = with_filter f no_filters

pub or_terms : Filter → Filters
or_terms (filter_or terms) = terms
or_terms f = with_filter f no_filters

abbrev pub is_nil_filter : Filter → Bool
is_nil_filter no_filter = true
is_nil_filter _ = false

unfoldable pub and_filters : Filter → Filter → Filter
unfolding and_terms
and_filters a b =
    if is_nil_filter a
    then b
    else if is_nil_filter b
    then a
    else filter_and (append (and_terms a) (and_terms b))

-- The loop of `orFilters`.
unfoldable pub all_or_terms : Filters → Filters
unfolding or_terms
all_or_terms no_filters = no_filters
all_or_terms (with_filter f fs) = append (or_terms f) (all_or_terms fs)

unfoldable pub or_filters : Filters → Filter
or_filters no_filters = no_filter
or_filters (with_filter f no_filters) = f
or_filters (with_filter f (with_filter g fs)) =
    filter_or (all_or_terms (with_filter f (with_filter g fs)))

unfoldable mutual
  pub filter_size : Filter → ℕ → ℕ
  filter_size no_filter depth = if ltb max_flatten_depth depth then 1 else 0
  filter_size (filter_and terms) depth =
      let n = filter_sizes terms (depth + 1) in if ltb max_flatten_depth depth then 1 else 1 + n
  filter_size (filter_or terms) depth =
      let n = filter_sizes terms (depth + 1) in if ltb max_flatten_depth depth then 1 else 1 + n
  filter_size (filter_not inner) depth =
      let n = filter_size inner (depth + 1) in if ltb max_flatten_depth depth then 1 else 1 + n
  filter_size _ depth = 1

  filter_sizes : Filters → ℕ → ℕ
  filter_sizes no_filters depth = 0
  filter_sizes (with_filter f fs) depth = filter_size f depth + filter_sizes fs depth
