-- ===== src/Resolve/OpStack/Path.antt =====
-- The stack that a path of set members builds (`walk` of resolve/expander.go pushes an operator for each
-- reference that it follows), against the operators of the path, the innermost first.
use mathlib.Core.Path.{subst}
use rpsl.Base.{
  ℕ, ◌≡◌, refl, sym, ◌∙◌, inl, inr, Bool, true, false, Bool-cases, List, [], ◌∷◌, Option, none,
  some, ltb, if◌then◌else◌,
}
use rpsl.Types.Netip.{bit_len}
use rpsl.Types.PrefixRange
use rpsl.Types.PrefixRange.{PrefixRange, RangeOperator, op_is_zero}
use rpsl.Resolve.OpStack.{OpStack, empty, push, apply}
use rpsl.Resolve.OpStack.Entry.{lo_of, hi_of, lo_of_ge, hi_of_le, le_of}
use rpsl.Resolve.OpStack.Invariant.{Families, Families-push}
use rpsl.Resolve.OpStack.Compose.{
  IsCanonical, and_then, apply-push, apply-operator, window, window-IsCanonical, apply_unset,
}

-- The stack below a path, the outermost operator pushed first.
abbrev pub built : OpStack → List RangeOperator → OpStack
built s [] = s
built s (o ∷ os) = built (push s o) os

-- The operators of a path applied to a range, one by one from the innermost.
abbrev pub apply_path : List RangeOperator → PrefixRange → Option PrefixRange
apply_path [] r = some r
apply_path (o ∷ os) r = and_then (apply_path os r) (PrefixRange.apply o)

abbrev AreCanonical : Option PrefixRange → Type 0
AreCanonical none = Unit
AreCanonical (some r) = IsCanonical r

apply-IsCanonical :
    (o : RangeOperator) (r : PrefixRange) → IsCanonical r → AreCanonical (PrefixRange.apply o r)
unfolding PrefixRange.apply
apply-IsCanonical o r c = elim (Bool-cases (op_is_zero o.kind)) [
  | inl z ↦ rw z c
  | inr z ↦ subst AreCanonical (sym (apply-operator o r c z)) (of_window (ltb hi lo) refl)
]
  where
    lo : ℕ
    lo = lo_of o r.lo (bit_len r.prefix.addr)

    hi : ℕ
    hi = hi_of o r.lo (bit_len r.prefix.addr)

    of_window :
        (b : Bool) → ltb hi lo ≡ b → AreCanonical (if b then none else some (window r lo hi))
    of_window true d = tt
    of_window false d =
        window-IsCanonical r lo hi c (lo_of_ge o r.lo (bit_len r.prefix.addr)) (le_of hi lo d)
          (hi_of_le o r.lo (bit_len r.prefix.addr))

apply_path-IsCanonical :
    (os : List RangeOperator) (r : PrefixRange) → IsCanonical r → AreCanonical (apply_path os r)
apply_path-IsCanonical [] r c = c
apply_path-IsCanonical (o ∷ os) r c = of (apply_path os r) (apply_path-IsCanonical os r c)
  where
    of : (x : Option PrefixRange) → AreCanonical x → AreCanonical (and_then x (PrefixRange.apply o))
    of none h = tt
    of (some y) h = apply-IsCanonical o y h

apply-built_from :
    (os : List RangeOperator) (s : OpStack) (r : PrefixRange)
    → IsCanonical r
    → apply (built s os) r ≡ and_then (apply_path os r) (apply s)
apply-built_from [] s r c = refl
apply-built_from (o ∷ os) s r c =
    apply-built_from os (push s o) r c ∙ of (apply_path os r) (apply_path-IsCanonical os r c)
  where
    of :
        (x : Option PrefixRange)
        → AreCanonical x
        → and_then x (apply (push s o)) ≡ and_then (and_then x (PrefixRange.apply o)) (apply s)
    of none h = refl
    of (some y) h = apply-push s o y h

-- Where the range is valid, non-empty and canonical, the stack that a path of operators builds on the
-- empty stack does to the range what the operators of the path do one after the other, from the
-- innermost: the same range comes out, or both delete it.
pub apply-built :
    (os : List RangeOperator) (r : PrefixRange)
    → IsCanonical r
    → apply (built empty os) r ≡ apply_path os r
apply-built os r c =
    apply-built_from os empty r c ∙ of (apply_path os r) (apply_path-IsCanonical os r c)
  where
    of : (x : Option PrefixRange) → AreCanonical x → and_then x (apply empty) ≡ x
    of none h = refl
    of (some y) h = apply_unset empty y h refl

-- In the stack that any path of operators builds, each family's table holds for every lower bound the
-- mark of a deleted range, or a bound that is no less than it and within the stack's upper bound,
-- which is within the family's width.
pub built-Families : (os : List RangeOperator) → Families (built empty os)
built-Families os = from os empty (λ v6 e. absurd (cc e))
  where
    from : (os : List RangeOperator) (s : OpStack) → Families s → Families (built s os)
    from [] s h = h
    from (o ∷ os) s h = from os (push s o) (Families-push s o h)
