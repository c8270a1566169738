-- ===== src/Tests/Spaces.antt =====
-- Prefix spaces.
use rpsl.Base.{◌≡◌, ◌↔◌, refl, Bool, true, false, not, ◌&&◌, ◌||◌, List, [], ◌∷◌}
use rpsl.Base.Bits.{and_not as word_and_not}
use rpsl.Types.AddrFamily.{afi_v4}
use rpsl.Types.LenMask
use rpsl.Types.LenMask.{has, is_zero, and, or, and_not, ge_mask, window, one}
use rpsl.Types.Netip.{Prefix, IsPrefix, bit_at, bit_value, masked}
use rpsl.Types.PrefixRange
use rpsl.Types.PrefixRange.{PrefixRange}
use rpsl.Types.SpaceNode.Insert.{insert_at}
use rpsl.Types.SpaceNode.{
  SpaceNode, nil, node, normalize, mk_lift, mk, without, merge, in_node, is_nil, IsIdentity,
  op_minus, apply, kid,
}
use rpsl.Types.PrefixSpace.{
  PrefixSpace, space_of, raw_of, add_range, contains, union, intersect, minus, combine, equal,
  is_empty, full_space,
}
use rpsl.Types.PrefixSpace.Laws.{
  IsSpace, SamePrefixes, contains_ops, combine-IsSpace, equal-SamePrefixes,
}
use rpsl.Types.PrefixSpace.SpaceOf.{AllRanges, any_contains, space_of-IsSpace, contains-space_of}
use rpsl.Types.PrefixSpace.Whole.{family_in, contains-full_space, is_empty_iff}
use rpsl.Tests.Ranges.Data.{
  net10_1, net10_1-IsPrefix, net192, net192-IsPrefix, range10, range10_1, range10-IsRange,
  range10_1-IsRange,
}

abbrev two_ranges : List PrefixRange
two_ranges = range10 ∷ range10_1 ∷ []

two_ranges-AllRanges : AllRanges two_ranges
two_ranges-AllRanges = (range10-IsRange, (range10_1-IsRange, tt))

abbrev wide : PrefixSpace
wide = space_of (range10 ∷ [])

abbrev deep : PrefixSpace
deep = space_of (range10_1 ∷ [])

wide-IsSpace : IsSpace wide
wide-IsSpace = space_of-IsSpace (range10 ∷ []) (range10-IsRange, tt)

deep-IsSpace : IsSpace deep
deep-IsSpace = space_of-IsSpace (range10_1 ∷ []) (range10_1-IsRange, tt)

-- No two pointers are the same, but for nil.
abbrev pub no_sharing : SpaceNode → SpaceNode → Bool
no_sharing nil nil = true
no_sharing _ _ = false

pub no_sharing-IsIdentity : IsIdentity no_sharing
no_sharing-IsIdentity = record { same_eq = same; same_nil = refl }
  where
    same : (a b : SpaceNode) → no_sharing a b ≡ true → a ≡ b
    same nil nil h = refl
    same nil (node _ _ _) h = cc
    same (node _ _ _) b h = cc

space_run :
    (contains (space_of two_ranges) net10_1 ≡ true)
    × (contains (space_of two_ranges) net192 ≡ false)
    × (contains (minus wide deep) net10_1 ≡ false)
unfolding contains space_of raw_of add_range PrefixRange.is_empty insert_at normalize mk_lift mk
    without minus combine merge in_node bit_at bit_value masked LenMask.has LenMask.is_zero
    LenMask.and LenMask.or LenMask.and_not LenMask.ge_mask LenMask.window LenMask.one apply kid
    is_nil word_and_not
space_run = (refl, refl, refl)

contains_ops_example :
    (contains (union wide deep) net10_1 ≡ (contains wide net10_1 || contains deep net10_1))
    × (contains (intersect wide deep) net10_1 ≡ (contains wide net10_1 && contains deep net10_1))
    × (contains (minus wide deep) net10_1 ≡ (contains wide net10_1 && not (contains deep net10_1)))
contains_ops_example = contains_ops wide deep net10_1 net10_1-IsPrefix

combine-IsSpace_example : IsSpace (combine op_minus wide deep)
combine-IsSpace_example = combine-IsSpace op_minus wide deep wide-IsSpace deep-IsSpace

equal-SamePrefixes_example : (equal no_sharing wide deep ≡ true) ↔ SamePrefixes wide deep
equal-SamePrefixes_example =
    equal-SamePrefixes no_sharing wide deep no_sharing-IsIdentity wide-IsSpace deep-IsSpace

space_of-IsSpace_example : IsSpace (space_of two_ranges)
space_of-IsSpace_example = space_of-IsSpace two_ranges two_ranges-AllRanges

contains-space_of_example : contains (space_of two_ranges) net10_1 ≡ any_contains two_ranges net10_1
contains-space_of_example =
    contains-space_of two_ranges net10_1 two_ranges-AllRanges net10_1-IsPrefix

contains-full_space_example : contains (full_space afi_v4) net192 ≡ (true && family_in afi_v4 true)
contains-full_space_example = contains-full_space afi_v4 net192 net192-IsPrefix

is_empty_iff_example :
    (is_empty wide ≡ true) ↔ ((p : Prefix) → IsPrefix p → contains wide p ≡ false)
is_empty_iff_example = is_empty_iff wide wide-IsSpace
