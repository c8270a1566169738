-- ===== src/Policy/Flatten/Bounded.antt =====
-- `Flatten` is bounded: the filters of the terms that it returns have at most MaxFlattenNodes nodes.
use mathlib.Core.Path.{subst}
use rpsl.Base.{
  ℕ, ◌+◌, ◌≤◌, ◌≡◌, refl, sym, ap, ◌⊎◌, inl, inr, Bool, true, false, not, Option, none, some, List,
  [], ◌∷◌, map, ltb, if◌then◌else◌, arith,
}
use rpsl.Types.AddrFamily.{AddrFamily}
use rpsl.Policy.Ast.{
  Peering, Expr, no_expr, expr_factor, expr_list, expr_except, expr_refine, Exprs, no_exprs,
  with_expr,
}
use rpsl.Policy.Flatten.{
  Term, WTerm, Flattener, FlattenError, failed, too_deep, covers_family, filter_size,
  max_flatten_depth, max_flatten_nodes, or_filters,
}
use rpsl.Policy.Flatten.Terms.{
  Built, built, push_all, except_terms, except_all, covered_filters, covered_size, rest_term,
  refine_terms, refine_all, factor_term, flatten_at, flatten_each, flatten,
}
use rpsl.Policy.Flatten.Loops.{
  cost, Yields, exceptions, except_all-Yields, push_all-Yields, built-Yields, refined,
  refine_all-Yields,
}
use rpsl.Policy.Flatten.Budget.{Walked, Fits, flatten_at-Fits, flatten_each-Fits}
use rpsl.Policy.Flatten.Size.{
  nodes, depth_of, Sized, Sized-append, exceptions-Sized, kept-Sized, parsed-Sized, refined-Sized,
}

-- The filters are nested no deeper than the parser allows.
unfoldable mutual
  pub IsShallow : Expr → Type 0
  IsShallow no_expr = Unit
  IsShallow (expr_factor peers fl) = depth_of fl ≤ max_flatten_depth
  IsShallow (expr_list exprs) = AreShallow exprs
  IsShallow (expr_refine left right afis mp) = IsShallow left × IsShallow right
  IsShallow (expr_except left right afis mp) = IsShallow left × IsShallow right

  pub AreShallow : Exprs → Type 0
  AreShallow no_exprs = Unit
  AreShallow (with_expr e es) = IsShallow e × AreShallow es

-- A walk that does not fail returns terms whose sizes bound their filters.
abbrev Good : Walked → Type 0
Good x = failed x.1 ≡ false → Sized x.0

Good-built :
    (loop : Flattener → Built) (ts : List WTerm) (f : Flattener)
    → Yields loop ts
    → Sized ts
    → Good (built (loop f))
Good-built loop ts f y s h = subst Sized (sym (built-Yields loop ts f y h).0) s

Good-guards :
    (stopped deep : Bool) (f : Flattener) (x : Walked)
    → Good x
    → Good (if stopped then ([], f) else if deep then ([], record f { err = some too_deep }) else x)
Good-guards true deep f x w h = tt
Good-guards false true f x w h = tt
Good-guards false false f x w h = w h

Good-either : (b : Bool) (x y : Walked) → Good x → Good y → Good (if b then x else y)
Good-either true x y p q = p
Good-either false x y p q = q

-- Both operands of a composition, where the walk over the right one does not fail.
Good-both :
    (x y : Walked) → Fits x.1 y → Good x → Good y → failed y.1 ≡ false → Sized x.0 × Sized y.0
Good-both x y w p q h = (p (w h).unfailed, q h)

Good-except :
    (left right : List WTerm) (h : Flattener)
    → (failed h ≡ false → Sized left × Sized right)
    → Good (except_terms left right h)
unfolding except_terms
Good-except left [] h s ok = (s ok).0
Good-except left (r ∷ right) h s ok =
    let kept =
      map (rest_term (or_filters (covered_filters (r ∷ right))) (2 + covered_size (r ∷ right)))
        left in
    let y = except_all-Yields left (r ∷ right) (push_all kept) kept (push_all-Yields kept) in
    let loop = except_all left (r ∷ right) (push_all kept) in
    let ts = exceptions left (r ∷ right) kept in
    let (p, q) = s ((built-Yields loop ts h y ok).1.unfailed) in
    Good-built loop ts h y
      (exceptions-Sized left (r ∷ right) kept p q (kept-Sized left (r ∷ right) p q)) ok

module _ (expr_text : Peering → List ℕ) where
  Good-refine :
      (left right : List WTerm) (h : Flattener)
      → (failed h ≡ false → Sized left × Sized right)
      → Good (refine_terms expr_text left right h)
  unfolding refine_terms
  Good-refine left right h s ok =
      let loop = refine_all expr_text left right in
      let ts = refined expr_text left right in
      let y = refine_all-Yields expr_text left right in
      let (p, q) = s ((built-Yields loop ts h y ok).1.unfailed) in
      Good-built loop ts h y (refined-Sized expr_text left right p q) ok

  mutual
    unfolding flatten_at IsShallow

    flatten_at-Good :
        (e : Expr) (depth : ℕ) (f : Flattener) → IsShallow e → Good (flatten_at expr_text e depth f)
    flatten_at-Good no_expr depth f s = λ h. tt
    flatten_at-Good (expr_factor peers fl) depth f s =
        let ts = map (factor_term expr_text fl (filter_size fl 0)) peers in
        Good-guards (failed f) (ltb max_flatten_depth depth) f (built (push_all ts f))
          (Good-built (push_all ts) ts f (push_all-Yields ts) (parsed-Sized expr_text fl peers s))
    flatten_at-Good (expr_list exprs) depth f s =
        Good-guards (failed f) (ltb max_flatten_depth depth) f
          (flatten_each expr_text exprs (depth + 1) f) (flatten_each-Good exprs (depth + 1) f s)
    flatten_at-Good (expr_refine left right afis mp) depth f s =
        let x = flatten_at expr_text left (depth + 1) f in
        let y = flatten_at expr_text right (depth + 1) x.1 in
        let p = flatten_at-Good left (depth + 1) f s.0 in
        let q = flatten_at-Good right (depth + 1) x.1 s.1 in
        Good-guards (failed f) (ltb max_flatten_depth depth) f
          (if not (covers_family x.1 afis) then x else refine_terms expr_text x.0 y.0 y.1)
          (Good-either (not (covers_family x.1 afis)) x (refine_terms expr_text x.0 y.0 y.1) p (
            Good-refine x.0 y.0 y.1
              (Good-both x y (flatten_at-Fits expr_text right (depth + 1) x.1) p q)))
    flatten_at-Good (expr_except left right afis mp) depth f s =
        let x = flatten_at expr_text left (depth + 1) f in
        let y = flatten_at expr_text right (depth + 1) x.1 in
        let p = flatten_at-Good left (depth + 1) f s.0 in
        let q = flatten_at-Good right (depth + 1) x.1 s.1 in
        Good-guards (failed f) (ltb max_flatten_depth depth) f
          (if not (covers_family x.1 afis) then x else except_terms x.0 y.0 y.1)
          (Good-either (not (covers_family x.1 afis)) x (except_terms x.0 y.0 y.1) p (
            Good-except x.0 y.0 y.1
              (Good-both x y (flatten_at-Fits expr_text right (depth + 1) x.1) p q)))

    flatten_each-Good :
        (es : Exprs) (depth : ℕ) (f : Flattener)
        → AreShallow es
        → Good (flatten_each expr_text es depth f)
    flatten_each-Good no_exprs depth f s = λ h. tt
    flatten_each-Good (with_expr e es) depth f s = λ h.
        let x = flatten_at expr_text e depth f in
        let y = flatten_each expr_text es depth x.1 in
        let w = flatten_each-Fits expr_text es depth x.1 h in
        Sized-append x.0 y.0 (flatten_at-Good e depth f s.0 w.unfailed)
          (flatten_each-Good es depth x.1 s.1 h)

-- The nodes of the filters of all terms, counted once per term.
unfoldable pub total_nodes : List Term → ℕ
total_nodes [] = 0
total_nodes (t ∷ ts) = nodes t.filter + total_nodes ts

abbrev pub term_of : WTerm → Term
term_of t = t.term

total_nodes-cost : (ts : List WTerm) → Sized ts → total_nodes (map term_of ts) ≤ cost ts
unfolding total_nodes cost
total_nodes-cost [] s = omega arith
total_nodes-cost (t ∷ ts) s = omega (arith, total_nodes-cost ts s.1, s.0)

abbrev start_for : AddrFamily → Flattener
start_for af = record { af = af; spent = 0; err = none }

abbrev outcome : Walked → Option FlattenError → List Term ⊎ FlattenError
outcome x err = elim err [ some err ↦ inr err | none ↦ inl (map (λ (t : WTerm). t.term) x.0) ]

abbrev terms_only : List Term → List Term ⊎ FlattenError
terms_only us = inl us

-- Where `Flatten` returns terms, the filters of all of them together have at most MaxFlattenNodes
-- nodes, for an expression whose filters are nested no deeper than the parser allows.
pub total_nodes-flatten :
    (expr_text : Peering → List ℕ) (e : Expr) (af : AddrFamily) (ts : List Term)
    → IsShallow e
    → flatten expr_text e af ≡ inl ts
    → total_nodes ts ≤ max_flatten_nodes
unfolding flatten
total_nodes-flatten expr_text e af ts s =
    let x = flatten_at expr_text e 0 (start_for af) in
    finish x (flatten_at-Fits expr_text e 0 (start_for af))
      (flatten_at-Good expr_text e 0 (start_for af) s) x.1.err refl
  where
    finish :
        (x : Walked)
        → Fits (start_for af) x
        → Good x
        → (err : Option FlattenError) → x.1.err ≡ err
        → outcome x err ≡ inl ts
        → total_nodes ts ≤ max_flatten_nodes
    finish x w g (some err) e h = cc
    finish x w g none e h =
        let ok = ap (λ o. elim o [ none ↦ false | some e ↦ true ]) e in
        subst (λ us. total_nodes us ≤ max_flatten_nodes) (injective (map term_of x.0) h)
          (omega (arith, (w ok).paid, (w ok).bounded (omega arith), total_nodes-cost x.0 (g ok)))
      where
        injective : (us : List Term) → terms_only us ≡ inl ts → us ≡ ts
        injective us p = cc
