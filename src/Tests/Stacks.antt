-- ===== src/Tests/Stacks.antt =====
-- Stacks of range operators.
use rpsl.Types.Netip.{masked}
use rpsl.Base.{ℕ, replicate, ◌≡◌, refl, arith, [], ◌∷◌, some, true, List}
use rpsl.Types.PrefixRange
use rpsl.Types.PrefixRange.{RangeOperator, range_plus, range_minus, range_range, range_length}
use rpsl.Resolve.OpStack.{OpStack, deleted, empty, family, push, apply}
use rpsl.Resolve.OpStack.Invariant.{IsFamily}
use rpsl.Resolve.OpStack.Compose.{IsCanonical}
use rpsl.Resolve.OpStack.Path.{built, apply_path, apply-built, built-Families}
use rpsl.Tests.Ranges.Data.{range10, range10-IsRange, net10, range}

abbrev operator : PrefixRange.RangeOp → RangeOperator
operator k = record { kind = k; n = 20; m = 24 }

-- ^20-24 of ^-
abbrev path : List RangeOperator
path = operator range_range ∷ operator range_minus ∷ []

range10-IsCanonical : IsCanonical range10
unfolding masked
range10-IsCanonical = record {
  range = range10-IsRange;
  some_length = omega arith;
  no_host_bits = refl;
}

apply_run : apply (built empty path) range10 ≡ some (range net10 20 24)
unfolding apply push PrefixRange.new_prefix_range PrefixRange.is_empty masked
apply_run = refl

-- ^-^+ and ^- are one stack.
same_stack_run :
    built empty (operator range_minus ∷ operator range_plus ∷ [])
    ≡ built empty (operator range_minus ∷ [])
unfolding push
same_stack_run = refl

apply-built_example : apply (built empty path) range10 ≡ apply_path path range10
apply-built_example = apply-built path range10 range10-IsCanonical

built-Families_example : IsFamily (family (built empty path) true)
unfolding push
built-Families_example = built-Families path true refl

-- Two stacks that delete every range, ^8 and ^9 of ^24, have the same tables and different upper bounds.
abbrev of_24 : ℕ → OpStack
of_24 n = built empty (
    record { kind = range_length; n = n; m = n }
    ∷ record { kind = range_length; n = 24; m = 24 }
    ∷ [])

deleting_stacks_run :
    ((of_24 8).lo4 ≡ replicate 33 deleted)
    × ((of_24 9).lo4 ≡ replicate 33 deleted)
    × ((of_24 8).lo6 ≡ (of_24 9).lo6)
    × ((of_24 8).hi4 ≡ 8)
    × ((of_24 9).hi4 ≡ 9)
unfolding push
deleting_stacks_run = (refl, refl, refl, refl, refl)
