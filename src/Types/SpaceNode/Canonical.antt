-- ===== src/Types/SpaceNode/Canonical.antt =====
-- The canonical form of a trie, as the comment on spaceNode has it, and that every operation keeps it.
use rpsl.Base.{ℕ, ◌+◌, ◌≤◌, ◌<◌, ◌≡◌, true, false, ◌&&◌, arith}
use rpsl.Types.LenMask
use rpsl.Types.LenMask.{LenMask, has, is_zero, ge_mask, one, empty}
use rpsl.Types.LenMask.Laws.{IsMask, has-or}
use rpsl.Types.SpaceNode.{SpaceNode, nil, node, is_nil}
use rpsl.Types.SpaceNode.Member.{top}

-- A node's mask at depth `d` of a family `width` bits wide, below ancestors that hold `above`: no
-- length below the depth, and none that an ancestor holds.
pub record Fits (m : LenMask) (d width : ℕ) (above : LenMask) : Type 0 where
  pub is_mask : IsMask m
  pub lengths : (l : ℕ) → l < 192 → has m l ≡ true → (d ≤ l) × (l ≤ width)
  pub fresh : (l : ℕ) → l < 192 → has m l ≡ true → has above l ≡ false

-- No two children of one node hold the same length.
abbrev pub Apart : SpaceNode → SpaceNode → Type 0
Apart c0 c1 = (l : ℕ) → l < 192 → top c0 l ≡ true → top c1 l ≡ false

abbrev pub IsCanonical : SpaceNode → ℕ → ℕ → LenMask → Type 0
IsCanonical nil d width above = Unit
IsCanonical (node m c0 c1) d width above =
    Fits m d width above
    × Apart c0 c1
    × ((is_zero m && is_nil c0 && is_nil c1) ≡ false)
    × IsCanonical c0 (d + 1) width (LenMask.or above m)
    × IsCanonical c1 (d + 1) width (LenMask.or above m)

-- `above` matters at the lengths from `d` on only.
pub IsCanonical-mono :
    (n : SpaceNode) (d width : ℕ) (a a' : LenMask)
    → ((l : ℕ) → l < 192 → d ≤ l → l ≤ width → has a l ≡ false → has a' l ≡ false)
    → IsCanonical n d width a
    → IsCanonical n d width a'
IsCanonical-mono nil d width a a' h c = tt
IsCanonical-mono (node m c0 c1) d width a a' h (f, apart, full, k0, k1) = (
  record {
    is_mask = f.is_mask;
    lengths = f.lengths;
    fresh = λ l p q. h l p (f.lengths l p q).0 (f.lengths l p q).1 (f.fresh l p q);
  },
  apart,
  full,
  IsCanonical-mono c0 (d + 1) width (LenMask.or a m) (LenMask.or a' m) deeper k0,
  IsCanonical-mono c1 (d + 1) width (LenMask.or a m) (LenMask.or a' m) deeper k1,
)
  where
    deeper :
        (l : ℕ)
        → l < 192
        → d + 1 ≤ l
        → l ≤ width
        → has (LenMask.or a m) l ≡ false
        → has (LenMask.or a' m) l ≡ false
    deeper l p q r e = ground (arith, has-or a m l, has-or a' m l, h l p (omega arith) r)
