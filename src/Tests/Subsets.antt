-- ===== src/Tests/Subsets.antt =====
-- Inclusion of prefix spaces.
use rpsl.Types.Netip.{masked}
use rpsl.Base.Bits.{and_not}
use rpsl.Base.{◌≡◌, refl, true, false}
use rpsl.Types.LenMask.{window, and, has, is_zero, one, or}
use rpsl.Types.SpaceNode.{nil, node, in_node, kid, subset_node}
use rpsl.Types.PrefixSpace.{PrefixSpace, contains, subset}
use rpsl.Types.PrefixSpace.Inclusion.{contains-subset}
use rpsl.Tests.Ranges.Data.{net10_1, net10_1-IsPrefix}
use rpsl.Tests.Spaces.{no_sharing, no_sharing-IsIdentity}

-- The IPv4 prefixes of some lengths, under 128.0.0.0/1 also of others.
abbrev narrow : PrefixSpace
narrow = record { v4 = node (window 16 24) nil nil; v6 = nil }

abbrev broad : PrefixSpace
broad = record { v4 = node (window 8 24) nil (node (window 25 32) nil nil); v6 = nil }

subset_run : subset no_sharing narrow broad ≡ true
unfolding subset window subset_node is_zero and_not and or
subset_run = refl

refused_run : subset no_sharing broad narrow ≡ false
unfolding subset window subset_node is_zero and_not and or one kid
refused_run = refl

contains_run : contains narrow net10_1 ≡ true
unfolding contains window in_node masked has and_not
contains_run = refl

contains-subset_example : contains broad net10_1 ≡ true
contains-subset_example =
    contains-subset no_sharing no_sharing-IsIdentity narrow broad net10_1 net10_1-IsPrefix
      subset_run contains_run
