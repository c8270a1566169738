-- ===== src/Tests/Ranges.antt =====
-- Prefix ranges and their operators.
pub mod Data
use rpsl.Base.{
  ℕ, ◌+◌, ◌≤◌, ◌≡◌, ◌↔◌, refl, Bool, true, false, ◌&&◌, ◌||◌, Option, none, some, IsSome, List, [],
  ◌∷◌, arith,
}
use rpsl.Types.Netip.{Prefix, IsPrefix, bit_at, masked, prefix_contains, bit_len, agrees}
use rpsl.Types.PrefixRange.{
  PrefixRange, RangeOperator, range_plus, range_range, range_minus, new_prefix_range, contains,
  intersect, intersect_at, op, apply, parse_range_operator, parse_bits,
}
use rpsl.Types.PrefixRange.Laws.{
  IsRange, option_contains, intersect-contains, Shared, new_prefix_range-contains, in_window,
}
use rpsl.Types.PrefixRange.Operators.{apply-Selected, Selected, apply-op}
use Data.{
  net10, net10_1, net10_1-IsPrefix, net10-IsPrefix, range10, range10-IsRange, range10_1,
  range10_1-IsRange, range,
}

-- 10.0.0.0/8^16-24 and 10.1.0.0/16^+ share 10.1.0.0/16^16-24.
intersect_run : intersect range10 range10_1 ≡ some (range net10_1 16 24)
unfolding intersect intersect_at prefix_contains
intersect_run = refl

contains_run : (contains range10 net10_1 ≡ true) × (contains range10 net10 ≡ false)
unfolding contains prefix_contains masked
contains_run = (refl, refl)

parse_run :
    (parse_range_operator (b'2' ∷ b'4' ∷ b'-' ∷ b'3' ∷ b'2' ∷ [])
      ≡ some (record { kind = range_range; n = 24; m = 32 }))
    × (parse_range_operator (b'+' ∷ []) ≡ some (record { kind = range_plus; n = 0; m = 0 }))
    × (parse_range_operator (b'3' ∷ b'2' ∷ b'-' ∷ b'8' ∷ []) ≡ none)
unfolding parse_range_operator
parse_run = (refl, refl, refl)

intersect-contains_example :
    (option_contains (intersect range10 range10_1) net10_1
      ≡ (contains range10 net10_1 && contains range10_1 net10_1))
    × (IsSome (intersect range10 range10_1) ↔ Shared range10 range10_1)
intersect-contains_example =
    intersect-contains range10 range10_1 net10_1 range10-IsRange range10_1-IsRange

-- 10.0.0.0/8^9-7 is no range.
new_prefix_range_run : new_prefix_range net10 9 7 ≡ none
unfolding new_prefix_range masked
new_prefix_range_run = refl

new_prefix_range-contains_example :
    (option_contains (new_prefix_range net10 0 20) net10_1 ≡ in_window net10 0 20 net10_1)
    × (IsSome (new_prefix_range net10 0 20)
        ↔ ((x : Prefix) × IsPrefix x × (in_window net10 0 20 x ≡ true)))
new_prefix_range-contains_example =
    new_prefix_range-contains net10 0 20 refl net10-IsPrefix net10_1 net10_1-IsPrefix

abbrev more_specifics : RangeOperator
more_specifics = record { kind = range_minus; n = 0; m = 0 }

apply-Selected_example :
    ((option_contains (apply more_specifics range10) net10_1 ≡ true)
      ↔ ((true ≡ true) × Selected range10 net10_1 range10-IsRange net10_1-IsPrefix more_specifics))
    × (IsSome (apply more_specifics range10) ↔ (
        (x : Prefix) × (hx : IsPrefix x) × (x.is_valid ≡ true)
        × Selected range10 x range10-IsRange hx more_specifics))
apply-Selected_example =
    apply-Selected range10 range10-IsRange (omega arith) more_specifics net10_1 net10_1-IsPrefix

apply-op_example :
    apply (record { kind = op range10; n = 16; m = 24 }) (range net10 8 8) ≡ some range10
unfolding masked
apply-op_example = apply-op range10 range10-IsRange (omega arith) refl
