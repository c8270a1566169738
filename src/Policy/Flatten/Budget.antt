-- ===== src/Policy/Flatten/Budget.antt =====
-- The budget of `Flatten`: what the walk has spent covers the terms that it returns.
use rpsl.Base.{
  ℕ, ◌+◌, ◌≡◌, refl, sym, Bool, true, false, not, some, List, [], ◌∷◌, ◌++◌, map, ltb,
  if◌then◌else◌, arith,
}
use mathlib.Core.Path.{subst}
use rpsl.Policy.Ast.{
  Peering, Expr, no_expr, expr_factor, expr_list, expr_except, expr_refine, Exprs, no_exprs,
  with_expr,
}
use rpsl.Policy.Flatten.{
  WTerm, Flattener, failed, too_deep, covers_family, filter_size, max_flatten_depth, or_filters,
}
use rpsl.Policy.Flatten.Terms.{
  Built, built, push_all, except_terms, except_all, covered_filters, covered_size, rest_term,
  refine_terms, refine_all, factor_term, flatten_at, flatten_each,
}
use rpsl.Policy.Flatten.Loops.{
  cost, cost-append, Within, Yields, exceptions, except_all-Yields, push_all-Yields, built-Yields,
  refined, refine_all-Yields,
}

abbrev pub Walked : Type 0
Walked = List WTerm × Flattener

-- The walk from `f` is within its budget, unless it fails.
abbrev pub Fits : Flattener → Walked → Type 0
Fits f x = failed x.1 ≡ false → Within f x.1 x.0

nothing : (f : Flattener) → failed f ≡ false → Within f f []
unfolding cost
nothing f h = record { unfailed = h; paid = omega arith; bounded = λ b. b }

Fits-built :
    (loop : Flattener → Built) (ts : List WTerm) (f : Flattener)
    → Yields loop ts
    → Fits f (built (loop f))
Fits-built loop ts f y h =
    let (e, w) = built-Yields loop ts f y h in
    subst (λ us. Within f (built (loop f)).1 us) (sym e) w

-- The guards at the head of `flatten`.
pub Fits-guards :
    (stopped deep : Bool) (f : Flattener) (x : Walked)
    → failed f ≡ stopped
    → Fits f x
    → Fits f
        (if stopped then ([], f) else if deep then ([], record f { err = some too_deep }) else x)
Fits-guards true deep f x e w h = absurd (ground (arith, e))
Fits-guards false true f x e w h = cc
Fits-guards false false f x e w h = w h

Fits-either :
    (b : Bool) (f : Flattener) (x y : Walked) → Fits f x → Fits f y → Fits f (if b then x else y)
Fits-either true f x y p q = p
Fits-either false f x y p q = q

-- Walks one behind the other; the second one's terms may be left out.
Within-after :
    (f g h : Flattener) (ts us : List WTerm) → Within f g ts → Within g h us → Within f h us
Within-after f g h ts us v w = record {
  unfailed = v.unfailed;
  paid = omega (arith, v.paid, w.paid);
  bounded = λ b. w.bounded (v.bounded b);
}

Within-before :
    (f g h : Flattener) (ts us : List WTerm) → Within f g ts → Within g h us → Within f h ts
Within-before f g h ts us v w = record {
  unfailed = v.unfailed;
  paid = omega (arith, v.paid, w.paid);
  bounded = λ b. w.bounded (v.bounded b);
}

Within-append :
    (f g h : Flattener) (ts us : List WTerm) → Within f g ts → Within g h us → Within f h (ts ++ us)
Within-append f g h ts us v w = record {
  unfailed = v.unfailed;
  paid = omega (arith, v.paid, w.paid, cost-append ts us);
  bounded = λ b. w.bounded (v.bounded b);
}

-- The left operand's terms, once both operands are walked.
Fits-before :
    (f : Flattener) (x y : Walked) → Fits f x → Fits x.1 y → failed y.1 ≡ false → Within f y.1 x.0
Fits-before f x y v w h =
    let second = w h in Within-before f x.1 y.1 x.0 y.0 (v second.unfailed) second

Fits-except :
    (f h : Flattener) (left right : List WTerm)
    → (failed h ≡ false → Within f h left)
    → Fits f (except_terms left right h)
unfolding except_terms
Fits-except f h left [] v ok = v ok
Fits-except f h left (r ∷ right) v ok =
    let rest = or_filters (covered_filters (r ∷ right)) in
    let kept = map (rest_term rest (2 + covered_size (r ∷ right))) left in
    let w =
      Fits-built (except_all left (r ∷ right) (push_all kept)) (exceptions left (r ∷ right) kept) h
        (except_all-Yields left (r ∷ right) (push_all kept) kept (push_all-Yields kept)) ok in
    Within-after f h (except_terms left (r ∷ right) h).1 left (except_terms left (r ∷ right) h).0
      (v w.unfailed) w

module _ (expr_text : Peering → List ℕ) where
  Fits-refine :
      (f h : Flattener) (left right : List WTerm)
      → (failed h ≡ false → Within f h left)
      → Fits f (refine_terms expr_text left right h)
  unfolding refine_terms
  Fits-refine f h left right v ok =
      let w =
        Fits-built (refine_all expr_text left right) (refined expr_text left right) h
          (refine_all-Yields expr_text left right) ok in
      Within-after f h (refine_terms expr_text left right h).1 left
        (refine_terms expr_text left right h).0 (v w.unfailed) w

  mutual
    unfolding flatten_at

    pub flatten_at-Fits :
        (e : Expr) (depth : ℕ) (f : Flattener) → Fits f (flatten_at expr_text e depth f)
    flatten_at-Fits no_expr depth f = nothing f
    flatten_at-Fits (expr_factor peers filter) depth f =
        let ts = map (factor_term expr_text filter (filter_size filter 0)) peers in
        Fits-guards (failed f) (ltb max_flatten_depth depth) f (built (push_all ts f)) refl
          (Fits-built (push_all ts) ts f (push_all-Yields ts))
    flatten_at-Fits (expr_list exprs) depth f =
        Fits-guards (failed f) (ltb max_flatten_depth depth) f
          (flatten_each expr_text exprs (depth + 1) f) refl (flatten_each-Fits exprs (depth + 1) f)
    flatten_at-Fits (expr_refine left right afis mp) depth f =
        let x = flatten_at expr_text left (depth + 1) f in
        let y = flatten_at expr_text right (depth + 1) x.1 in
        Fits-guards (failed f) (ltb max_flatten_depth depth) f
          (if not (covers_family x.1 afis) then x else refine_terms expr_text x.0 y.0 y.1) refl
          (Fits-either (not (covers_family x.1 afis)) f x (refine_terms expr_text x.0 y.0 y.1)
            (flatten_at-Fits left (depth + 1) f)
            (Fits-refine f y.1 x.0 y.0 (
              Fits-before f x y (flatten_at-Fits left (depth + 1) f)
                (flatten_at-Fits right (depth + 1) x.1))))
    flatten_at-Fits (expr_except left right afis mp) depth f =
        let x = flatten_at expr_text left (depth + 1) f in
        let y = flatten_at expr_text right (depth + 1) x.1 in
        Fits-guards (failed f) (ltb max_flatten_depth depth) f
          (if not (covers_family x.1 afis) then x else except_terms x.0 y.0 y.1) refl
          (Fits-either (not (covers_family x.1 afis)) f x (except_terms x.0 y.0 y.1)
            (flatten_at-Fits left (depth + 1) f)
            (Fits-except f y.1 x.0 y.0 (
              Fits-before f x y (flatten_at-Fits left (depth + 1) f)
                (flatten_at-Fits right (depth + 1) x.1))))

    pub flatten_each-Fits :
        (es : Exprs) (depth : ℕ) (f : Flattener) → Fits f (flatten_each expr_text es depth f)
    flatten_each-Fits no_exprs depth f = nothing f
    flatten_each-Fits (with_expr e es) depth f = λ h.
        let x = flatten_at expr_text e depth f in
        let y = flatten_each expr_text es depth x.1 in
        let w = flatten_each-Fits es depth x.1 h in
        Within-append f x.1 y.1 x.0 y.0 (flatten_at-Fits e depth f w.unfailed) w
