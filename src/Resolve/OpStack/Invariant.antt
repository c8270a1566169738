-- ===== src/Resolve/OpStack/Invariant.antt =====
-- A table says of every lower bound that it is deleted, or one that is no less, within the upper bound.
use mathlib.Core.Path.{subst}
use rpsl.Base.{
  ℕ, ◌≤◌, ◌≡◌, refl, sym, ap, ◌∙◌, ◌⊎◌, inl, inr, Bool, true, false, Bool-cases, get_or, ltb, arith,
}
use rpsl.Types.PrefixRange.{RangeOperator, op_is_zero}
use rpsl.Resolve.OpStack.{OpStack, Family, family, entry, upper, push, deleted}
use rpsl.Resolve.OpStack.Entry.{
  get_or-table, push_zero, lo_of, hi_of, lo_of_ge, hi_of_le, upper_eq, entry-deleted, entry_first,
  entry_more, le_of, pushed_family, family_width, family-push_eq,
}

-- The table of a family: an entry is a lower bound that is no less than its index and no more than
-- the upper bound, or says that the range is deleted.
pub record IsFamily (f : Family) : Type 0 where
  pub within : f.hi ≤ f.max_bits
  pub wide : f.max_bits ≤ 128
  pub sound :
      (k : ℕ)
      → k ≤ f.max_bits
      → (get_or f.lo k 0 ≡ deleted) ⊎ ((k ≤ get_or f.lo k 0) × (get_or f.lo k 0 ≤ f.hi))

abbrev IsEntry : Family → ℕ → ℕ → ℕ → Type 0
IsEntry f k hi x = (x ≡ deleted) ⊎ ((k ≤ x) × (x ≤ hi))

entry-IsEntry :
    (set : Bool) (f : Family) (o : RangeOperator) (k : ℕ)
    → (set ≡ true → IsFamily f)
    → f.max_bits ≤ 128
    → IsEntry f k (upper set f o) (entry set f o k)
unfolding upper
entry-IsEntry set f o k h w =
    elim (Bool-cases (ltb (hi_of o k f.max_bits) (lo_of o k f.max_bits))) [
      | inl d ↦ inl (entry-deleted set f o k d)
      | inr d ↦ some_entry set h d
    ]
  where
    some_entry :
        (set : Bool)
        → (set ≡ true → IsFamily f)
        → ltb (hi_of o k f.max_bits) (lo_of o k f.max_bits) ≡ false
        → IsEntry f k (upper set f o) (entry set f o k)
    some_entry true h d =
        let le = le_of (hi_of o k f.max_bits) (lo_of o k f.max_bits) d in
        let found =
          (h refl).sound (lo_of o k f.max_bits) (omega (arith, le, hi_of_le o k f.max_bits)) in
        elim found [
          | inl e ↦ inl (entry_more f o k d ∙ e)
          | inr e ↦ inr (
            omega (arith, e, entry_more f o k d, lo_of_ge o k f.max_bits),
            omega (arith, e, entry_more f o k d),
          )
        ]
    some_entry false h d = inr (
      omega (arith, entry_first f o k d w, lo_of_ge o k f.max_bits),
      omega (
        arith,
        entry_first f o k d w,
        upper_eq f o k w,
        le_of (hi_of o k f.max_bits) (lo_of o k f.max_bits) d,
      ),
    )

IsFamily-push :
    (set : Bool) (f : Family) (o : RangeOperator)
    → (set ≡ true → IsFamily f)
    → f.max_bits ≤ 128
    → IsFamily (pushed_family set f o)
unfolding upper pushed_family
IsFamily-push set f o h w = record {
  within = of_within set h;
  wide = w;
  sound = λ k le.
      subst (IsEntry f k (upper set f o)) (sym (get_or-table set f o k le))
        (entry-IsEntry set f o k h w);
}
  where
    of_within : (set : Bool) → (set ≡ true → IsFamily f) → upper set f o ≤ f.max_bits
    of_within true h = (h refl).within
    of_within false h = omega (arith, upper_eq f o f.max_bits w, hi_of_le o f.max_bits f.max_bits)

-- What a family says of the stacks that operators build.
abbrev pub Families : OpStack → Type 0
Families s = (v6 : Bool) → s.set ≡ true → IsFamily (family s v6)

pub Families-push : (s : OpStack) (o : RangeOperator) → Families s → Families (push s o)
Families-push s o h v6 e = elim (Bool-cases (op_is_zero o.kind)) [
  | inl z ↦
      subst (λ t. IsFamily (family t v6)) (sym (push_zero s o z))
        (h v6 (sym (ap (λ (t : OpStack). t.set) (push_zero s o z)) ∙ e))
  | inr z ↦
      subst IsFamily (sym (family-push_eq s o v6 z))
        (IsFamily-push s.set (family s v6) o (h v6) (family_width s v6))
]
