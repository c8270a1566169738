-- ===== src/Types/SpaceNode/CanonicalMerge.antt =====
-- `normalize` makes canonical tries of raw ones, and `merge` of canonical ones.
use rpsl.Base.{
  ℕ, zero, suc, ◌+◌, ◌≤◌, ◌<◌, ◌≡◌, sym, ◌∙◌, ◌⊎◌, inl, inr, Bool, true, false, ◌&&◌, Option, none,
  some, ltb, if◌then◌else◌, Bool-cases, Option-cases, arith,
}
use mathlib.Core.Path.{subst}
use rpsl.Types.LenMask
use rpsl.Types.LenMask.{LenMask, has, is_zero, ge_mask, one, empty}
use rpsl.Types.LenMask.Laws.{
  IsMask, and-IsMask, or-IsMask, and_not-IsMask, has-and, has-or, has-ge_mask, has-one, has-empty,
}
use rpsl.Types.SpaceNode.{
  SpaceNode, nil, node, mk, leaf, kid, normalize, SetOp, op_union, op_intersect, op_minus, apply,
  shortcut, held, merge,
}
use rpsl.Types.SpaceNode.Member.{apply_bool, has-apply}
use rpsl.Types.SpaceNode.Normalize.{own, below, has-own, has-below}
use rpsl.Types.SpaceNode.Canonical.{Fits, IsCanonical, IsCanonical-mono}
use rpsl.Types.SpaceNode.Preserve.{mk-IsCanonical, mk_lift-IsCanonical}

-- A raw trie: 64-bit words, and no length beyond the family's width.
abbrev pub IsRaw : SpaceNode → ℕ → Type 0
IsRaw nil width = Unit
IsRaw (node k c0 c1) width =
    IsMask k × ((l : ℕ) → l < 192 → has k l ≡ true → l ≤ width) × IsRaw c0 width × IsRaw c1 width

pub normalize-IsCanonical :
    (n : SpaceNode) (d width : ℕ) (covered : LenMask)
    → d ≤ 129
    → width ≤ 128
    → IsRaw n width
    → IsCanonical (normalize n d width covered) d width covered
unfolding normalize
normalize-IsCanonical nil d width covered p q r = tt
normalize-IsCanonical (node k c0 c1) d width covered p q (m, w, r0, r1) =
    elim (Bool-cases (ltb d width)) [
      | inl e ↦ rw e (
          mk_lift-IsCanonical (own k covered d) _ _ d width covered q fits
            (IsCanonical-mono _ (d + 1) width (below k covered d) _ deeper
              (normalize-IsCanonical c0 (d + 1) width (below k covered d) (ground arith) q r0))
            (IsCanonical-mono _ (d + 1) width (below k covered d) _ deeper
              (normalize-IsCanonical c1 (d + 1) width (below k covered d) (ground arith) q r1)))
      | inr e ↦
          rw e (mk-IsCanonical (own k covered d) nil nil d width covered fits (λ l _ h. cc) tt tt)
    ]
  where
    fits : Fits (own k covered d) d width covered
    fits = record {
      is_mask = and_not-IsMask _ (and-IsMask _ m);
      lengths = λ l a b. ground (arith, has-own k covered d l p a, w l a);
      fresh = λ l a b. ground (arith, has-own k covered d l p a);
    }

    deeper :
        (l : ℕ)
        → l < 192
        → d + 1 ≤ l
        → l ≤ width
        → has (below k covered d) l ≡ false
        → has (LenMask.or covered (own k covered d)) l ≡ false
    deeper l a b c e = ground (arith, has-or covered (own k covered d) l, has-below k covered d l)

kid-IsCanonical :
    (n : SpaceNode) (i : Bool) (d width : ℕ)
    → IsCanonical n d width empty
    → IsCanonical (kid n i) (d + 1) width empty
unfolding kid
kid-IsCanonical nil i d width c = tt
kid-IsCanonical (node k c0 c1) false d width c =
    IsCanonical-mono c0 (d + 1) width _ empty (λ l _ _ _ _. has-empty l) c.3
kid-IsCanonical (node k c0 c1) true d width c =
    IsCanonical-mono c1 (d + 1) width _ empty (λ l _ _ _ _. has-empty l) c.4

-- What a mask must satisfy to be inherited in a family `width` bits wide.
pub record IsInherited (m : LenMask) (width : ℕ) : Type 0 where
  pub words : IsMask m
  pub bounded : (l : ℕ) → l < 192 → has m l ≡ true → l ≤ width

held-IsInherited :
    (m : LenMask) (n : SpaceNode) (d width : ℕ)
    → IsInherited m width
    → IsCanonical n d width empty
    → IsInherited (held m n d) width
unfolding held
held-IsInherited m nil d width h c = record {
  words = and-IsMask _ h.words;
  bounded = λ l p q. h.bounded l p (ground (arith, has-and m (ge_mask d) l));
}
held-IsInherited m (node k c0 c1) d width h c = record {
  words = and-IsMask _ (or-IsMask h.words c.0.is_mask);
  bounded = λ l p q.
      ground (
        arith,
        has-and (LenMask.or m k) (ge_mask d) l,
        has-or m k l,
        h.bounded l p,
        c.0.lengths l p,
      );
}

has-held_le :
    (m : LenMask) (n : SpaceNode) (d l : ℕ) → d ≤ 129 → l < 192 → has (held m n d) l ≡ true → d ≤ l
unfolding held
has-held_le m nil d l p q h = ground (arith, has-and m (ge_mask d) l, has-ge_mask d l)
has-held_le m (node k _ _) d l p q h =
    ground (arith, has-and (LenMask.or m k) (ge_mask d) l, has-ge_mask d l)

apply-IsMask : (op : SetOp) {a b : LenMask} → IsMask a → IsMask b → IsMask (apply op a b)
unfolding apply
apply-IsMask op_union p q = or-IsMask p q
apply-IsMask op_intersect p q = and-IsMask _ p
apply-IsMask op_minus p q = and_not-IsMask _ p

apply_of_some : (op : SetOp) (x y : Bool) → apply_bool op x y ≡ true → (x ≡ true) ⊎ (y ≡ true)
apply_of_some op_union x y h = ground arith
apply_of_some op_intersect x y h = ground arith
apply_of_some op_minus x y h = ground arith

shortcut_cases :
    (op : SetOp) (a c r : SpaceNode) → shortcut op a c ≡ some r → (a ≡ r) ⊎ ((c ≡ r) ⊎ (nil ≡ r))
unfolding shortcut
shortcut_cases op_union nil c r h = inr (inl (cc))
shortcut_cases op_union (node _ _ _) nil r h = inl (cc)
shortcut_cases op_union (node _ _ _) (node _ _ _) r h = cc
shortcut_cases op_intersect nil c r h = inr (inr (cc))
shortcut_cases op_intersect (node _ _ _) nil r h = inr (inr (cc))
shortcut_cases op_intersect (node _ _ _) (node _ _ _) r h = cc
shortcut_cases op_minus nil c r h = inr (inr (cc))
shortcut_cases op_minus (node _ _ _) nil r h = inl (cc)
shortcut_cases op_minus (node _ _ _) (node _ _ _) r h = cc

module _ (op : SetOp) (a c : SpaceNode) (d width : ℕ) (inA inC : LenMask) where
  abbrev choose : SpaceNode → SpaceNode
  choose deep = elim (if is_zero inA && is_zero inC then shortcut op a c else none) [
    | some n ↦ n
    | none ↦ elim (leaf a && leaf c) [
      | true ↦ mk (apply op (held inA a d) (held inC c d)) nil nil
      | false ↦ deep
    ]
  ]

  module _ (small : width ≤ 128) (depth : d ≤ width) (iA : IsInherited inA width)
      (iC : IsInherited inC width) (ka : IsCanonical a d width empty)
      (kc : IsCanonical c d width empty) where
    both-Fits : Fits (apply op (held inA a d) (held inC c d)) d width empty
    both-Fits = record {
      is_mask = apply-IsMask op hA.words hC.words;
      lengths = λ l p q. elim (from l q) [
        | inl e ↦ (has-held_le inA a d l (omega arith) p e, hA.bounded l p e)
        | inr e ↦ (has-held_le inC c d l (omega arith) p e, hC.bounded l p e)
      ];
      fresh = λ l p q. has-empty l;
    }
      where
        hA : IsInherited (held inA a d) width
        hA = held-IsInherited inA a d width iA ka

        hC : IsInherited (held inC c d) width
        hC = held-IsInherited inC c d width iC kc

        from :
            (l : ℕ)
            → has (apply op (held inA a d) (held inC c d)) l ≡ true
            → (has (held inA a d) l ≡ true) ⊎ (has (held inC c d) l ≡ true)
        from l q = apply_of_some op _ _ (sym (has-apply op (held inA a d) (held inC c d) l) ∙ q)

    own-Fits : Fits (LenMask.and (apply op (held inA a d) (held inC c d)) (one d)) d width empty
    own-Fits = record {
      is_mask = and-IsMask _ both-Fits.is_mask;
      lengths = λ l p q.
          both-Fits.lengths l p
            (ground (arith, has-and (apply op (held inA a d) (held inC c d)) (one d) l));
      fresh = λ l p q. has-empty l;
    }

    choose-IsCanonical :
        (deep : SpaceNode)
        → IsCanonical deep d width empty
        → IsCanonical (choose deep) d width empty
    choose-IsCanonical deep k = elim (Option-cases short) [
      | inr (r, e) ↦
          rw (e, choose)
            (elim (shortcut_cases op a c r (ground arith)) [
              | inl f ↦ subst (λ n. IsCanonical n d width empty) f ka
              | inr (inl f) ↦ subst (λ n. IsCanonical n d width empty) f kc
              | inr (inr f) ↦ subst (λ n. IsCanonical n d width empty) f tt
            ])
      | inl e ↦
          rw (e, choose)
            (elim (Bool-cases (leaf a && leaf c)) [
              | inl f ↦ rw f (mk-IsCanonical _ nil nil d width empty both-Fits (λ l _ h. cc) tt tt)
              | inr f ↦ rw f k
            ])
    ]
      where
        short : Option SpaceNode
        short = if is_zero inA && is_zero inC then shortcut op a c else none

    inherit-IsInherited :
        (m : LenMask) (n : SpaceNode)
        → IsInherited m width
        → IsCanonical n d width empty
        → IsInherited (LenMask.and (held m n d) (ge_mask (d + 1))) width
    inherit-IsInherited m n i k = record {
      words = and-IsMask _ (held-IsInherited m n d width i k).words;
      bounded = λ l p q.
          (held-IsInherited m n d width i k).bounded l p
            (ground (arith, has-and (held m n d) (ge_mask (d + 1)) l));
    }

    -- A child's trie has no length of its parent's own prefix.
    own-IsCanonical :
        (n : SpaceNode)
        → IsCanonical n (d + 1) width empty
        → IsCanonical n
            (d + 1)
            width
            (LenMask.or empty (LenMask.and (apply op (held inA a d) (held inC c d)) (one d)))
    own-IsCanonical n k =
        IsCanonical-mono n (d + 1) width empty _
          (λ l p q r e. ground (
            arith,
            has-or empty (LenMask.and (apply op (held inA a d) (held inC c d)) (one d)) l,
            has-and (apply op (held inA a d) (held inC c d)) (one d) l,
            has-one d l,
          ))
          k

-- The merge of canonical tries is canonical, whatever is inherited.
pub merge-IsCanonical :
    (op : SetOp) (h : ℕ) (a c : SpaceNode) (d : ℕ) (inA inC : LenMask) (width : ℕ)
    → d + h ≡ width
    → width ≤ 128
    → IsInherited inA width
    → IsInherited inC width
    → IsCanonical a d width empty
    → IsCanonical c d width empty
    → IsCanonical (merge op h a c d inA inC) d width empty
unfolding merge
merge-IsCanonical op zero a c d inA inC width e w iA iC ka kc =
    choose-IsCanonical op a c d width inA inC w (omega arith) iA iC ka kc _ (
      mk-IsCanonical _ nil nil d width empty
        (own-Fits op a c d width inA inC w (omega arith) iA iC ka kc) (λ l _ h. cc) tt tt)
merge-IsCanonical op (suc h) a c d inA inC width e w iA iC ka kc =
    choose-IsCanonical op a c d width inA inC w (omega arith) iA iC ka kc _ (
      mk_lift-IsCanonical _ _ _ d width empty w
        (own-Fits op a c d width inA inC w (omega arith) iA iC ka kc)
        (under_own _ (
          merge-IsCanonical op h (kid a false) (kid c false) (d + 1) _ _ width (omega arith) w jA jC
            (kid-IsCanonical a false d width ka) (kid-IsCanonical c false d width kc)))
        (under_own _ (
          merge-IsCanonical op h (kid a true) (kid c true) (d + 1) _ _ width (omega arith) w jA jC
            (kid-IsCanonical a true d width ka) (kid-IsCanonical c true d width kc))))
  where
    jA : IsInherited (LenMask.and (held inA a d) (ge_mask (d + 1))) width
    jA = inherit-IsInherited op a c d width inA inC w (omega arith) iA iC ka kc inA a iA ka

    jC : IsInherited (LenMask.and (held inC c d) (ge_mask (d + 1))) width
    jC = inherit-IsInherited op a c d width inA inC w (omega arith) iA iC ka kc inC c iC kc

    under_own :
        (n : SpaceNode)
        → IsCanonical n (d + 1) width empty
        → IsCanonical n
            (d + 1)
            width
            (LenMask.or empty (LenMask.and (apply op (held inA a d) (held inC c d)) (one d)))
    under_own = own-IsCanonical op a c d width inA inC w (omega arith) iA iC ka kc
