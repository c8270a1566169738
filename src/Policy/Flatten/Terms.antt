-- ===== src/Policy/Flatten/Terms.antt =====
-- policy/flatten.go, the operations on lists of terms and the walk over an expression. The loops
-- that stop with `return nil` give `none` for the list; a failed walk goes on with no terms.
use rpsl.Base.{
  ℕ, ◌+◌, Bool, true, false, not, ◌&&◌, Option, none, some, List, [], ◌∷◌, ◌++◌, map, ltb, ◌⊎◌, inl,
  inr, if◌then◌else◌,
}
use rpsl.Types.AddrFamily.{AddrFamily}
use rpsl.Types.SetName.{text_eq}
use rpsl.Policy.Afi.{applies_to}
use rpsl.Policy.Ast.{
  Peering, no_peering, PeerAction, Filter, filter_not, Filters, no_filters, with_filter, Expr,
  no_expr, expr_factor, expr_list, expr_except, expr_refine, Exprs, no_exprs, with_expr, Import,
}
use rpsl.Policy.Flatten.{
  Term, WTerm, Flattener, FlattenError, too_deep, failed, charge, covers_family, is_any_peering,
  concat_actions, and_filters, or_filters, is_nil_filter, filter_size, max_flatten_depth,
}

-- The terms so far, or `none` where the loop returned nil.
abbrev pub Built : Type 0
Built = Option (List WTerm) × Flattener

abbrev pub is_nil_peering : Peering → Bool
is_nil_peering no_peering = true
is_nil_peering _ = false

-- `if !f.charge(w) { return nil }` and `out = append(out, t)`, then the rest of the loop.
unfoldable pub push : WTerm → (Flattener → Built) → Flattener → Built
push t rest f =
    let (ok, g) = charge f t.w in
    elim ok [
      | false ↦ (none, g)
      | true ↦ let (out, h) = rest g in (elim out [ none ↦ none | some ts ↦ some (t ∷ ts) ], h)
    ]

-- What `return out` gives the caller.
abbrev pub built : Built → List WTerm × Flattener
built (none, f) = ([], f)
built (some ts, f) = (ts, f)

abbrev pub except_term : WTerm → WTerm → WTerm
except_term l r = record {
  term = record {
    via = r.term.via;
    peering = r.term.peering;
    actions = r.term.actions;
    filter = and_filters l.term.filter r.term.filter;
  };
  w = l.w + r.w + 1;
}

-- The loop over the right-hand terms in `exceptTerms`, and then `rest`.
unfoldable pub except_pairs : WTerm → List WTerm → (Flattener → Built) → Flattener → Built
except_pairs l [] rest = rest
except_pairs l (r ∷ right) rest = push (except_term l r) (except_pairs l right rest)

unfoldable pub except_all : List WTerm → List WTerm → (Flattener → Built) → Flattener → Built
except_all [] right rest = rest
except_all (l ∷ left) right rest = except_pairs l right (except_all left right rest)

-- `covered`, and what its filters add to `restW`
unfoldable pub covered_filters : List WTerm → Filters
covered_filters [] = no_filters
covered_filters (r ∷ right) =
    let fs = covered_filters right in
    if is_nil_filter r.term.filter then fs else with_filter r.term.filter fs

unfoldable pub covered_size : List WTerm → ℕ
covered_size [] = 0
covered_size (r ∷ right) =
    let n = covered_size right in if is_nil_filter r.term.filter then n else r.w + n

-- What a left-hand term keeps.
abbrev pub rest_term : Filter → ℕ → WTerm → WTerm
rest_term rest rest_w l = if is_nil_filter rest then l else (record {
  term = record (l.term) { filter = and_filters l.term.filter (filter_not rest) };
  w = l.w + rest_w + 1;
})

unfoldable pub push_all : List WTerm → Flattener → Built
push_all [] f = (some [], f)
push_all (t ∷ ts) f = push t (push_all ts) f

unfoldable pub except_terms : List WTerm → List WTerm → Flattener → List WTerm × Flattener
except_terms left [] f = (left, f)
except_terms left (r ∷ right) f =
    let rest = or_filters (covered_filters (r ∷ right)) in
    let rest_w = 2 + covered_size (r ∷ right) in
    built (except_all left (r ∷ right) (push_all (map (rest_term rest rest_w) left)) f)

abbrev pub refine_of : WTerm → WTerm → Peering → Peering → WTerm
refine_of l r via pe = record {
  term = record {
    via = via;
    peering = pe;
    actions = concat_actions l.term.actions r.term.actions;
    filter = and_filters l.term.filter r.term.filter;
  };
  w = l.w + r.w + 1;
}

module _ (expr_text : Peering → List ℕ) where
  -- The common peer, or `none` where there is none.
  unfoldable pub intersect_peerings : Peering → Peering → Option Peering
  intersect_peerings a b =
      if is_nil_peering a
      then (if is_nil_peering b then none else some b)
      else if is_nil_peering b
      then some a
      else if is_any_peering a
      then some b
      else if is_any_peering b
      then some a
      else if text_eq (expr_text a) (expr_text b)
      then some a
      else none

  unfoldable pub intersect_vias : Peering → Peering → Option Peering
  intersect_vias a b =
      if is_nil_peering a && is_nil_peering b then some no_peering else intersect_peerings a b

  -- The term of one pair, or `none` where the loop continues.
  unfoldable pub refine_term : WTerm → WTerm → Option WTerm
  refine_term l r = elim (intersect_peerings l.term.peering r.term.peering) [
    | none ↦ none
    | some pe ↦ elim (intersect_vias l.term.via r.term.via) [
      | none ↦ none
      | some via ↦ some (refine_of l r via pe)
    ]
  ]

  unfoldable pub refine_pairs : WTerm → List WTerm → (Flattener → Built) → Flattener → Built
  refine_pairs l [] rest = rest
  refine_pairs l (r ∷ right) rest =
      let next = refine_pairs l right rest in
      elim (refine_term l r) [ none ↦ next | some t ↦ push t next ]

  unfoldable pub refine_all : List WTerm → List WTerm → Flattener → Built
  refine_all [] right = push_all []
  refine_all (l ∷ left) right = refine_pairs l right (refine_all left right)

  unfoldable pub refine_terms : List WTerm → List WTerm → Flattener → List WTerm × Flattener
  refine_terms left right f = built (refine_all left right f)

  abbrev pub factor_term : Filter → ℕ → PeerAction → WTerm
  factor_term filter w p = record {
    term = record { via = p.via; peering = p.peering; actions = p.actions; filter = filter };
    w = w;
  }

  unfoldable mutual
    pub flatten_at : Expr → ℕ → Flattener → List WTerm × Flattener
    flatten_at no_expr depth f = ([], f)
    flatten_at (expr_factor peers filter) depth f =
        if failed f
        then ([], f)
        else if ltb max_flatten_depth depth
        then ([], record f { err = some too_deep })
        else built (push_all (map (factor_term filter (filter_size filter 0)) peers) f)
    flatten_at (expr_list exprs) depth f =
        let all = flatten_each exprs (depth + 1) f in
        if failed f
        then ([], f)
        else if ltb max_flatten_depth depth
        then ([], record f { err = some too_deep })
        else all
    flatten_at (expr_refine left right afis mp) depth f =
        let (ls, g) = flatten_at left (depth + 1) f in
        let (rs, h) = flatten_at right (depth + 1) g in
        if failed f
        then ([], f)
        else if ltb max_flatten_depth depth
        then ([], record f { err = some too_deep })
        else if not (covers_family g afis)
        then (ls, g)
        else refine_terms ls rs h
    flatten_at (expr_except left right afis mp) depth f =
        let (ls, g) = flatten_at left (depth + 1) f in
        let (rs, h) = flatten_at right (depth + 1) g in
        if failed f
        then ([], f)
        else if ltb max_flatten_depth depth
        then ([], record f { err = some too_deep })
        else if not (covers_family g afis)
        then (ls, g)
        else except_terms ls rs h

    -- The loop over the expressions of a list.
    pub flatten_each : Exprs → ℕ → Flattener → List WTerm × Flattener
    flatten_each no_exprs depth f = ([], f)
    flatten_each (with_expr e es) depth f =
        let (ts, g) = flatten_at e depth f in let (us, h) = flatten_each es depth g in (ts ++ us, h)

  -- The terms, or the error.
  unfoldable pub flatten : Expr → AddrFamily → List Term ⊎ FlattenError
  flatten e af =
      let (ts, f) = flatten_at e 0 (record { af = af; spent = 0; err = none }) in
      elim f.err [ some err ↦ inr err | none ↦ inl (map (λ (t : WTerm). t.term) ts) ]

  -- `Import.Terms` and `Export.Terms`
  unfoldable pub terms : Import → AddrFamily → List Term ⊎ FlattenError
  terms i af = if not (applies_to i af) then inl [] else flatten i.expr af
