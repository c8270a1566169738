-- ===== src/Resolve/OpStack/Compose.antt =====
-- A stack of operators does what its operators do, one after the other.
use rpsl.Base.{
  ℕ, ◌≤◌, ◌≡◌, refl, sym, ap, ◌∙◌, inl, inr, Bool, true, false, not, ◌||◌, Bool-cases, Option, none,
  some, get_or, ◌==◌, ltb, if◌then◌else◌, arith,
}
use rpsl.Types.Netip.{bit_len, masked}
use rpsl.Types.PrefixRange
use rpsl.Types.PrefixRange.{
  PrefixRange, RangeOperator, range_exact, range_plus, range_minus, range_length, range_range,
  is_empty, new_prefix_range, op_lengths, op_is_zero, u8,
}
use rpsl.Types.PrefixRange.Laws.{IsRange}
use rpsl.Types.PrefixRange.Operators.{new_prefix_range-eq}
use rpsl.Resolve.OpStack.{OpStack, Family, family, entry, upper, push, apply, deleted}
use rpsl.Resolve.OpStack.Entry.{
  get_or-table, push_zero, push_set, lo_of, hi_of, lo_of_ge, hi_of_le, upper_eq, entry-deleted,
  entry_first, entry_more, le_of, pushed_family, family_width, family-push_eq,
}

-- A range that is not empty, in the form the package gives it.
pub record IsCanonical (r : PrefixRange) : Type 0 where
  pub range : IsRange r
  pub some_length : r.lo ≤ r.hi
  pub no_host_bits : masked r.prefix ≡ r.prefix

abbrev pub and_then : Option PrefixRange → (PrefixRange → Option PrefixRange) → Option PrefixRange
and_then none f = none
and_then (some r) f = f r

otherwise : (b : Bool) (x y : Option PrefixRange) → b ≡ false → (if b then x else y) ≡ y
otherwise b x y e = rw e refl

on_test :
    (b : Bool) {x y : Option PrefixRange}
    → (b ≡ false → x ≡ y)
    → (if b then none else x) ≡ (if b then none else y)
on_test true h = refl
on_test false h = h refl

not_empty : (r : PrefixRange) → IsCanonical r → is_empty r ≡ false
unfolding is_empty
not_empty r h = ground (arith, h.range.valid, h.some_length)

-- An operator over a range of the form the package gives it, and a stack over such a range.
pub apply-operator :
    (o : RangeOperator) (r : PrefixRange)
    → IsCanonical r
    → op_is_zero o.kind ≡ false
    → let w = bit_len r.prefix.addr in
      PrefixRange.apply o r ≡ (
        if ltb (hi_of o r.lo w) (lo_of o r.lo w)
        then none
        else some (record { prefix = r.prefix; lo = lo_of o r.lo w; hi = hi_of o r.lo w }))
unfolding PrefixRange.apply
apply-operator o r h z =
    let w = bit_len r.prefix.addr in
    let lo = lo_of o r.lo w in
    let hi = hi_of o r.lo w in
    rw z (
      otherwise (not r.prefix.is_valid) none
        (if ltb hi lo then none else new_prefix_range r.prefix lo hi) (ap not h.range.valid)
      ∙ on_test (ltb hi lo) (λ d.
        new_prefix_range-eq r lo hi h.range h.no_host_bits
          (omega (arith, h.range.from_base, lo_of_ge o r.lo w)) (le_of hi lo d)
          (hi_of_le o r.lo w)))

-- What a table makes of a lower bound, and of a range whose lower bound it holds.
found : PrefixRange → ℕ → ℕ → Option PrefixRange
found r lo hi = if lo == deleted then none else new_prefix_range r.prefix lo hi

looked_up : Family → PrefixRange → Option PrefixRange
looked_up f r = if ltb f.max_bits r.lo then none else found r (get_or f.lo r.lo 0) f.hi

pub apply_unset :
    (s : OpStack) (r : PrefixRange) → IsCanonical r → s.set ≡ false → apply s r ≡ some r
unfolding apply
apply_unset s r h e = rw (not_empty r h, e) refl

apply_set :
    (s : OpStack) (r : PrefixRange)
    → IsCanonical r
    → s.set ≡ true
    → apply s r ≡ looked_up (family s (not r.prefix.addr.is4)) r
unfolding apply looked_up found
apply_set s r h e =
    let f = family s (not r.prefix.addr.is4) in
    rw (not_empty r h, e)
      (either_none (ltb f.max_bits r.lo) (get_or f.lo r.lo 0 == deleted)
        (new_prefix_range r.prefix (get_or f.lo r.lo 0) f.hi))
  where
    either_none :
        (a b : Bool) (x : Option PrefixRange)
        → (if a || b then none else x) ≡ (if a then none else if b then none else x)
    either_none true b x = refl
    either_none false b x = refl

looked_up-pushed_family :
    (set : Bool) (f : Family) (o : RangeOperator) (r : PrefixRange)
    → r.lo ≤ f.max_bits
    → looked_up (pushed_family set f o) r ≡ found r (entry set f o r.lo) (upper set f o)
unfolding looked_up pushed_family
looked_up-pushed_family set f o r h =
    let in_table : ltb f.max_bits r.lo ≡ false = ground arith in
    rw in_table (ap (λ x. found r x (upper set f o)) (get_or-table set f o r.lo h))

found_deleted : (r : PrefixRange) (x hi : ℕ) → x ≡ deleted → found r x hi ≡ none
unfolding found
found_deleted r x hi e = rw e refl

found_some : (r : PrefixRange) (x hi : ℕ) → x ≤ 128 → found r x hi ≡ new_prefix_range r.prefix x hi
unfolding found
found_some r x hi h = let there : (x == deleted) ≡ false = ground arith in rw there refl

width_of :
    (s : OpStack) (r : PrefixRange)
    → (family s (not r.prefix.addr.is4)).max_bits ≡ bit_len r.prefix.addr
unfolding family
width_of s r = of r.prefix.addr.is4
  where
    of : (b : Bool) → (family s (not b)).max_bits ≡ (if b then 32 else 128)
    of true = refl
    of false = refl

abbrev pub window : PrefixRange → ℕ → ℕ → PrefixRange
window r lo hi = record { prefix = r.prefix; lo = lo; hi = hi }

pub window-IsCanonical :
    (r : PrefixRange) (lo hi : ℕ)
    → IsCanonical r
    → r.lo ≤ lo
    → lo ≤ hi
    → hi ≤ bit_len r.prefix.addr
    → IsCanonical (window r lo hi)
window-IsCanonical r lo hi c a b w = record {
  range = record {
    valid = c.range.valid;
    base = c.range.base;
    from_base = omega (arith, c.range.from_base);
    to_width = w;
  };
  some_length = b;
  no_host_bits = c.no_host_bits;
}

-- An operator that selects something, pushed on an empty stack and on another.
module _ (f : Family) (o : RangeOperator) (r : PrefixRange) (c : IsCanonical r) where
  abbrev lo' : ℕ
  lo' = lo_of o r.lo f.max_bits

  abbrev hi' : ℕ
  hi' = hi_of o r.lo f.max_bits

  pushed_first :
      f.max_bits ≡ bit_len r.prefix.addr
      → f.max_bits ≤ 128
      → ltb hi' lo' ≡ false
      → found r (entry false f o r.lo) (upper false f o) ≡ some (window r lo' hi')
  pushed_first e w d =
      ap (λ x. found r x (upper false f o)) (entry_first f o r.lo d w)
      ∙ ap (found r lo') (upper_eq f o r.lo w)
      ∙ found_some r lo' hi' (omega (arith, w, le_of hi' lo' d, hi_of_le o r.lo f.max_bits))
      ∙ new_prefix_range-eq r lo' hi' c.range c.no_host_bits
          (omega (arith, c.range.from_base, lo_of_ge o r.lo f.max_bits)) (le_of hi' lo' d)
          (omega (arith, e, hi_of_le o r.lo f.max_bits))

  not_below : lo' ≤ f.max_bits → ltb f.max_bits lo' ≡ false
  not_below h = ground arith

  pushed_more :
      ltb hi' lo' ≡ false
      → found r (entry true f o r.lo) (upper true f o) ≡ looked_up f (window r lo' hi')
  unfolding looked_up found upper
  pushed_more d =
      let in_table : ltb f.max_bits lo' ≡ false =
        not_below (omega (arith, le_of hi' lo' d, hi_of_le o r.lo f.max_bits)) in
      ap (λ x. found r x f.hi) (entry_more f o r.lo d)
      ∙ sym (ap (λ b. if b then none else found r (get_or f.lo lo' 0) f.hi) in_table)

module _ (s : OpStack) (o : RangeOperator) (r : PrefixRange) (c : IsCanonical r) where
  abbrev v6 : Bool
  v6 = not r.prefix.addr.is4

  abbrev f : Family
  f = family s v6

  abbrev lo : ℕ
  lo = lo_of o r.lo f.max_bits

  abbrev hi : ℕ
  hi = hi_of o r.lo f.max_bits

  pushed_some :
      ltb hi lo ≡ false
      → found r (entry s.set f o r.lo) (upper s.set f o) ≡ apply s (window r lo hi)
  pushed_some d = of s.set refl
    where
      canonical : IsCanonical (window r lo hi)
      canonical =
          window-IsCanonical r lo hi c (lo_of_ge o r.lo f.max_bits) (le_of hi lo d)
            (omega (arith, width_of s r, hi_of_le o r.lo f.max_bits))

      of :
          (b : Bool)
          → s.set ≡ b
          → found r (entry b f o r.lo) (upper b f o) ≡ apply s (window r lo hi)
      of true e = pushed_more f o r c d ∙ sym (apply_set s (window r lo hi) canonical e)
      of false e =
          pushed_first f o r c (width_of s r) (family_width s v6) d
          ∙ sym (apply_unset s (window r lo hi) canonical e)

  -- What the operator leaves of the range in a family of that width, put through the stack.
  abbrev through : ℕ → Bool → Option PrefixRange
  through w b =
      and_then (if b then none else some (window r (lo_of o r.lo w) (hi_of o r.lo w))) (apply s)

  pushed_through : found r (entry s.set f o r.lo) (upper s.set f o) ≡ through f.max_bits (ltb hi lo)
  pushed_through = elim (Bool-cases (ltb hi lo)) [
    | inl d ↦
        found_deleted r (entry s.set f o r.lo) (upper s.set f o) (entry-deleted s.set f o r.lo d)
        ∙ sym (ap (through f.max_bits) d)
    | inr d ↦ pushed_some d ∙ sym (ap (through f.max_bits) d)
  ]

  pub apply-push : apply (push s o) r ≡ and_then (PrefixRange.apply o r) (apply s)
  unfolding PrefixRange.apply
  apply-push = elim (Bool-cases (op_is_zero o.kind)) [
    | inl z ↦ rw (push_zero s o z, z) refl
    | inr z ↦
        apply_set (push s o) r c (push_set s o z)
        ∙ ap (λ t. looked_up t r) (family-push_eq s o v6 z)
        ∙ looked_up-pushed_family s.set f o r
            (omega (arith, width_of s r, c.range.to_width, c.some_length))
        ∙ pushed_through
        ∙ ap (λ w. through w (ltb (hi_of o r.lo w) (lo_of o r.lo w))) (width_of s r)
        ∙ sym (ap (λ x. and_then x (apply s)) (apply-operator o r c z))
  ]
