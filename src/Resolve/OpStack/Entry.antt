-- ===== src/Resolve/OpStack/Entry.antt =====
-- What `push` stores in a table and its upper bound.
use rpsl.Base.{
  ℕ, zero, suc, ◌+◌, ◌≤◌, ◌<◌, ◌≡◌, refl, ap, ◌∙◌, min, Bool, true, false, get_or, ltb, arith,
}
use rpsl.Types.PrefixRange
use rpsl.Types.PrefixRange.{
  PrefixRange, RangeOperator, range_exact, range_plus, range_minus, range_length, range_range,
  is_empty, new_prefix_range, op_lengths, op_is_zero, u8,
}
use rpsl.Resolve.OpStack.{OpStack, Family, family, bounds_of, entry, entries, upper, push, deleted}

get_or-entries :
    (set : Bool) (f : Family) (o : RangeOperator) (n k i : ℕ)
    → i < n
    → get_or (entries set f o n k) i 0 ≡ entry set f o (k + i)
unfolding entries
get_or-entries set f o zero k i h = absurd (omega arith)
get_or-entries set f o (suc n) k zero h = ap (entry set f o) (omega arith)
get_or-entries set f o (suc n) k (suc i) h =
    get_or-entries set f o n (k + 1) i (omega arith) ∙ ap (entry set f o) (omega arith)

pub get_or-table :
    (set : Bool) (f : Family) (o : RangeOperator) (k : ℕ)
    → k ≤ f.max_bits
    → get_or (entries set f o (f.max_bits + 1) 0) k 0 ≡ entry set f o k
get_or-table set f o k h =
    get_or-entries set f o (f.max_bits + 1) 0 k (omega arith) ∙ ap (entry set f o) (omega arith)

pub push_zero : (s : OpStack) (o : RangeOperator) → op_is_zero o.kind ≡ true → push s o ≡ s
unfolding push
push_zero s o z = rw z refl

pub push_set : (s : OpStack) (o : RangeOperator) → op_is_zero o.kind ≡ false → (push s o).set ≡ true
unfolding push
push_set s o z = rw z refl

-- The upper bound of an operator does not depend on the range.
upper_same : (o : RangeOperator) (k j w : ℕ) → (bounds_of o k w).1 ≡ (bounds_of o j w).1
unfolding op_lengths
upper_same o k j w = of o.kind o.n o.m
  where
    of :
        (kind : PrefixRange.RangeOp) (n m : ℕ)
        → min (op_lengths (record { kind = kind; n = n; m = m }) k w).1 w
          ≡ min (op_lengths (record { kind = kind; n = n; m = m }) j w).1 w
    of range_exact n m = refl
    of range_minus n m = refl
    of range_plus n m = refl
    of range_length n m = refl
    of range_range n m = refl

-- What the operator makes of a lower bound is within the family, or is nothing.
abbrev pub lo_of : RangeOperator → ℕ → ℕ → ℕ
lo_of o k w = (bounds_of o k w).0

abbrev pub hi_of : RangeOperator → ℕ → ℕ → ℕ
hi_of o k w = (bounds_of o k w).1

pub lo_of_ge : (o : RangeOperator) (k w : ℕ) → k ≤ lo_of o k w
lo_of_ge o k w = omega arith

pub hi_of_le : (o : RangeOperator) (k w : ℕ) → hi_of o k w ≤ w
hi_of_le o k w = omega arith

pub upper_eq :
    (f : Family) (o : RangeOperator) (k : ℕ)
    → f.max_bits ≤ 128
    → upper false f o ≡ hi_of o k f.max_bits
unfolding upper
upper_eq f o k w = omega (arith, upper_same o k f.max_bits f.max_bits)

pub entry-deleted :
    (set : Bool) (f : Family) (o : RangeOperator) (k : ℕ)
    → ltb (hi_of o k f.max_bits) (lo_of o k f.max_bits) ≡ true
    → entry set f o k ≡ deleted
unfolding entry
entry-deleted set f o k d = rw d refl

pub entry_first :
    (f : Family) (o : RangeOperator) (k : ℕ)
    → ltb (hi_of o k f.max_bits) (lo_of o k f.max_bits) ≡ false
    → f.max_bits ≤ 128
    → entry false f o k ≡ lo_of o k f.max_bits
unfolding entry
entry_first f o k d w = rw d (ground (arith, d))

pub entry_more :
    (f : Family) (o : RangeOperator) (k : ℕ)
    → ltb (hi_of o k f.max_bits) (lo_of o k f.max_bits) ≡ false
    → entry true f o k ≡ get_or f.lo (lo_of o k f.max_bits) 0
unfolding entry
entry_more f o k d = rw d refl

pub le_of : (a b : ℕ) → ltb a b ≡ false → b ≤ a
le_of a b h = ground arith

unfoldable pub pushed_family : Bool → Family → RangeOperator → Family
pushed_family set f o = record {
  lo = entries set f o (f.max_bits + 1) 0;
  hi = upper set f o;
  max_bits = f.max_bits;
}

pub family_width : (s : OpStack) (v6 : Bool) → (family s v6).max_bits ≤ 128
unfolding family
family_width s true = omega arith
family_width s false = omega arith

pub family-push_eq :
    (s : OpStack) (o : RangeOperator) (v6 : Bool)
    → op_is_zero o.kind ≡ false
    → family (push s o) v6 ≡ pushed_family s.set (family s v6) o
unfolding push family pushed_family
family-push_eq s o true z = rw z refl
family-push_eq s o false z = rw z refl
