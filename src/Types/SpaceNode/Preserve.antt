-- ===== src/Types/SpaceNode/Preserve.antt =====
-- `mk`, `without`, `lift`, `normalize` and `merge` return canonical tries.
use rpsl.Base.{ℕ, ◌+◌, ◌≤◌, ◌<◌, ◌≡◌, refl, inl, inr, true, false, ◌&&◌, Bool-cases, arith}
use rpsl.Types.LenMask
use rpsl.Types.LenMask.{LenMask, has, is_zero, ge_mask, one, empty}
use rpsl.Types.LenMask.Laws.{
  and-IsMask, or-IsMask, and_not-IsMask, has-and, has-or, has-and_not, has-ge_mask, is_zero-has,
}
use rpsl.Types.SpaceNode.{SpaceNode, nil, node, is_nil, mk, without, mk_lift}
use rpsl.Types.SpaceNode.Member.{top}
use rpsl.Types.SpaceNode.Canonical.{Fits, Apart, IsCanonical, IsCanonical-mono}

pub mk-IsCanonical :
    (m : LenMask) (c0 c1 : SpaceNode) (d width : ℕ) (above : LenMask)
    → Fits m d width above
    → Apart c0 c1
    → IsCanonical c0 (d + 1) width (LenMask.or above m)
    → IsCanonical c1 (d + 1) width (LenMask.or above m)
    → IsCanonical (mk m c0 c1) d width above
unfolding mk
mk-IsCanonical m c0 c1 d width above f apart k0 k1 =
    elim (Bool-cases (is_zero m && is_nil c0 && is_nil c1)) [
      | inl e ↦ rw e tt
      | inr e ↦ rw e (f, apart, e, k0, k1)
    ]

top-mk : (m : LenMask) (c0 c1 : SpaceNode) (l : ℕ) → top (mk m c0 c1) l ≡ true → has m l ≡ true
unfolding mk
top-mk m c0 c1 l = elim (Bool-cases (is_zero m && is_nil c0 && is_nil c1)) [
  | inl e ↦ rw e (λ h. cc)
  | inr e ↦ rw e (λ h. h)
]

top-without :
    (n : SpaceNode) (c : LenMask) (l : ℕ)
    → top (without n c) l ≡ true
    → (top n l ≡ true) × (has c l ≡ false)
unfolding without
top-without nil c l h = cc
top-without (node k c0 c1) c l h =
    ground (arith, top-mk (LenMask.and_not k c) c0 c1 l h, has-and_not k c l)

without-IsCanonical :
    (n : SpaceNode) (c : LenMask) (d width : ℕ) (a a' : LenMask)
    → ((l : ℕ) → l < 192 → has a l ≡ false → has c l ≡ false → has a' l ≡ false)
    → ((l : ℕ) → l < 192 → has c l ≡ true → top n l ≡ true)
    → IsCanonical n d width a
    → IsCanonical (without n c) d width a'
unfolding without
without-IsCanonical nil c d width a a' h sub k = tt
without-IsCanonical (node k c0 c1) c d width a a' h sub (f, apart, full, k0, k1) =
    mk-IsCanonical (LenMask.and_not k c) c0 c1 d width a' rest apart
      (IsCanonical-mono c0 (d + 1) width (LenMask.or a k) (LenMask.or a' (LenMask.and_not k c))
        deeper k0)
      (IsCanonical-mono c1 (d + 1) width (LenMask.or a k) (LenMask.or a' (LenMask.and_not k c))
        deeper k1)
  where
    rest : Fits (LenMask.and_not k c) d width a'
    rest = record {
      is_mask = and_not-IsMask c f.is_mask;
      lengths = λ l p q. f.lengths l p (ground (arith, has-and_not k c l));
      fresh = λ l p q.
          h l p (f.fresh l p (ground (arith, has-and_not k c l)))
            (ground (arith, has-and_not k c l));
    }

    deeper :
        (l : ℕ)
        → l < 192
        → d + 1 ≤ l
        → l ≤ width
        → has (LenMask.or a k) l ≡ false
        → has (LenMask.or a' (LenMask.and_not k c)) l ≡ false
    deeper l p q r e =
        ground (
          arith,
          has-or a k l,
          has-or a' (LenMask.and_not k c) l,
          has-and_not k c l,
          h l p,
          sub l p,
        )

pub mk_lift-IsCanonical :
    (m : LenMask) (c0 c1 : SpaceNode) (d width : ℕ) (above : LenMask)
    → width ≤ 128
    → Fits m d width above
    → IsCanonical c0 (d + 1) width (LenMask.or above m)
    → IsCanonical c1 (d + 1) width (LenMask.or above m)
    → IsCanonical (mk_lift m c0 c1 d) d width above
unfolding mk_lift
mk_lift-IsCanonical m nil c1 d width above w f k0 k1 =
    mk-IsCanonical m nil c1 d width above f (λ l p q. cc) k0 k1
mk_lift-IsCanonical m (node j0 c00 c01) nil d width above w f k0 k1 =
    mk-IsCanonical m (node j0 c00 c01) nil d width above f (λ l p q. refl) k0 k1
mk_lift-IsCanonical m (node j0 c00 c01) (node j1 c10 c11) d width above w f k0 k1 =
    elim (Bool-cases (is_zero common)) [
      | inl e ↦ rw e (mk-IsCanonical m n0 n1 d width above f (apart e) k0 k1)
      | inr e ↦ rw e (
          mk-IsCanonical (LenMask.or m common) (without n0 common) (without n1 common) d width above
            lifted still_apart
            (without-IsCanonical n0 common (d + 1) width _ _ wider (λ l p q. (shared l p q).0) k0)
            (without-IsCanonical n1 common (d + 1) width _ _ wider (λ l p q. (shared l p q).1) k1))
    ]
  where
    n0 : SpaceNode
    n0 = node j0 c00 c01

    n1 : SpaceNode
    n1 = node j1 c10 c11

    common : LenMask
    common = LenMask.and (LenMask.and j0 j1) (ge_mask (d + 1))

    shared : (l : ℕ) → l < 192 → has common l ≡ true → (has j0 l ≡ true) × (has j1 l ≡ true)
    shared l p q = ground (arith, has-and (LenMask.and j0 j1) (ge_mask (d + 1)) l, has-and j0 j1 l)

    in_common : (l : ℕ) → l < 192 → has j0 l ≡ true → has j1 l ≡ true → has common l ≡ true
    in_common l p q r = ground (
      arith,
      has-and (LenMask.and j0 j1) (ge_mask (d + 1)) l,
      has-and j0 j1 l,
      has-ge_mask (d + 1) l,
      k0.0.lengths l p q,
    )

    apart : is_zero common ≡ true → Apart n0 n1
    apart e l p q = elim (Bool-cases (has j1 l)) [
      | inl r ↦ ground (arith, in_common l p q r, is_zero-has common l e)
      | inr r ↦ r
    ]

    still_apart : Apart (without n0 common) (without n1 common)
    still_apart l p q = elim (Bool-cases (top (without n1 common) l)) [
      | inl r ↦
          let (a0, clear) = top-without n0 common l q in
          let (a1, _) = top-without n1 common l r in ground (arith, in_common l p a0 a1)
      | inr r ↦ r
    ]

    lifted : Fits (LenMask.or m common) d width above
    lifted = record {
      is_mask = or-IsMask f.is_mask (and-IsMask _ (and-IsMask _ k0.0.is_mask));
      lengths =
          λ l p q. ground (arith, has-or m common l, f.lengths l p, shared l p, k0.0.lengths l p);
      fresh = λ l p q.
          ground
            (arith, has-or m common l, f.fresh l p, shared l p, k0.0.fresh l p, has-or above m l);
    }

    wider :
        (l : ℕ)
        → l < 192
        → has (LenMask.or above m) l ≡ false
        → has common l ≡ false
        → has (LenMask.or above (LenMask.or m common)) l ≡ false
    wider l p q r =
        ground (arith, has-or above m l, has-or above (LenMask.or m common) l, has-or m common l)
