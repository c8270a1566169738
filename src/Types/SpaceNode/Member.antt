-- ===== src/Types/SpaceNode/Member.antt =====
-- The prefixes that the operations on tries hold.
use rpsl.Base.{
  ℕ, ◌+◌, ◌≤◌, ◌<◌, ◌≡◌, refl, ◌∙◌, inl, inr, Bool, true, false, not, ◌&&◌, ◌||◌, some, Bool-cases,
  arith,
}
use rpsl.Types.LenMask
use rpsl.Types.LenMask.{LenMask, has, is_zero, ge_mask, one, empty}
use rpsl.Types.LenMask.Laws.{has-and, has-or, has-and_not, has-ge_mask, is_zero-has}
use rpsl.Types.SpaceNode.{
  SpaceNode, nil, node, mk, without, leaf, kid, mk_lift, SetOp, op_union, op_intersect, op_minus,
  apply, shortcut, held, in_node,
}

-- A set operation on the answers for one prefix.
abbrev pub apply_bool : SetOp → Bool → Bool → Bool
apply_bool op_union a b = a || b
apply_bool op_intersect a b = a && b
apply_bool op_minus a b = a && not b

pub has-apply :
    (op : SetOp) (a b : LenMask) (l : ℕ) → has (apply op a b) l ≡ apply_bool op (has a l) (has b l)
unfolding apply
has-apply op_union a b l = has-or a b l
has-apply op_intersect a b l = has-and a b l
has-apply op_minus a b l = has-and_not a b l

pub in_node-mk :
    (m : LenMask) (c0 c1 : SpaceNode) (l : ℕ) (b : ℕ → Bool) (d : ℕ)
    → in_node (mk m c0 c1) l b d ≡ in_node (node m c0 c1) l b d
unfolding mk in_node
in_node-mk m nil nil l b d = ground (arith, is_zero-has m l)
in_node-mk m nil (node _ _ _) l b d = ground arith
in_node-mk m (node _ _ _) c1 l b d = ground arith

pub in_node-without :
    (n : SpaceNode) (m : LenMask) (l : ℕ) (b : ℕ → Bool) (d : ℕ)
    → has m l ≡ false
    → in_node (without n m) l b d ≡ in_node n l b d
unfolding without
in_node-without nil m l b d h = refl
in_node-without (node k c0 c1) m l b d h =
    in_node-mk (LenMask.and_not k m) c0 c1 l b d
    ∙ unfold in_node in ground (arith, has-and_not k m l)

-- Lengths that both children hold can stand at the node.
in_node-moved :
    (m c : LenMask) (n0 n1 : SpaceNode) (l : ℕ) (b : ℕ → Bool) (d : ℕ)
    → (has c l ≡ true → (d < l) × (in_node n0 l b (d + 1) ≡ true) × (in_node n1 l b (d + 1) ≡ true))
    → in_node (node (LenMask.or m c) (without n0 c) (without n1 c)) l b d
      ≡ in_node (node m n0 n1) l b d
unfolding in_node
in_node-moved m c n0 n1 l b d h = elim (Bool-cases (has c l)) [
  | inl both ↦ ground (arith, has-or m c l, h both)
  | inr clear ↦ ground (
    arith,
    has-or m c l,
    in_node-without n0 c l b (d + 1) clear,
    in_node-without n1 c l b (d + 1) clear,
  )
]

in_node-of_has :
    (k : LenMask) (c0 c1 : SpaceNode) (l : ℕ) (b : ℕ → Bool) (d : ℕ)
    → has k l ≡ true
    → in_node (node k c0 c1) l b d ≡ true
unfolding in_node
in_node-of_has k c0 c1 l b d h = rw h

pub in_node-mk_lift :
    (m : LenMask) (c0 c1 : SpaceNode) (l : ℕ) (b : ℕ → Bool) (d : ℕ)
    → d ≤ l
    → l ≤ 128
    → in_node (mk_lift m c0 c1 d) l b d ≡ in_node (node m c0 c1) l b d
unfolding mk_lift
in_node-mk_lift m nil c1 l b d p q = in_node-mk m nil c1 l b d
in_node-mk_lift m (node k0 c00 c01) nil l b d p q = in_node-mk m (node k0 c00 c01) nil l b d
in_node-mk_lift m (node k0 c00 c01) (node k1 c10 c11) l b d p q =
    elim (Bool-cases (is_zero common)) [
      | inl zero_mask ↦ rw zero_mask (in_node-mk m n0 n1 l b d)
      | inr some_bits ↦ rw some_bits (
          in_node-mk (LenMask.or m common) (without n0 common) (without n1 common) l b d
          ∙ in_node-moved m common n0 n1 l b d shared)
    ]
  where
    n0 : SpaceNode
    n0 = node k0 c00 c01

    n1 : SpaceNode
    n1 = node k1 c10 c11

    common : LenMask
    common = LenMask.and (LenMask.and k0 k1) (ge_mask (d + 1))

    shared :
        has common l ≡ true
        → (d < l) × (in_node n0 l b (d + 1) ≡ true) × (in_node n1 l b (d + 1) ≡ true)
    shared h =
        let facts : (d < l) × (has k0 l ≡ true) × (has k1 l ≡ true) = ground (
          arith,
          has-and (LenMask.and k0 k1) (ge_mask (d + 1)) l,
          has-and k0 k1 l,
          has-ge_mask (d + 1) l,
        ) in
        (
          facts.0,
          in_node-of_has k0 c00 c01 l b (d + 1) facts.1,
          in_node-of_has k1 c10 c11 l b (d + 1) facts.2,
        )

-- What a node's own mask says of a length.
abbrev pub top : SpaceNode → ℕ → Bool
top nil l = false
top (node k _ _) l = has k l

pub has-held :
    (inherited : LenMask) (n : SpaceNode) (d l : ℕ)
    → d ≤ l
    → l ≤ 128
    → has (held inherited n d) l ≡ (has inherited l || top n l)
unfolding held
has-held inherited nil d l p q = ground (arith, has-and inherited (ge_mask d) l, has-ge_mask d l)
has-held inherited (node k _ _) d l p q =
    ground
      (arith, has-and (LenMask.or inherited k) (ge_mask d) l, has-or inherited k l, has-ge_mask d l)

pub in_node-leaf :
    (n : SpaceNode) (l : ℕ) (b : ℕ → Bool) (d : ℕ) → leaf n ≡ true → in_node n l b d ≡ top n l
unfolding leaf in_node
in_node-leaf nil l b d h = refl
in_node-leaf (node k nil nil) l b d h = ground arith
in_node-leaf (node k (node _ _ _) c1) l b d h = cc
in_node-leaf (node k nil (node _ _ _)) l b d h = cc

pub in_node_here : (n : SpaceNode) (b : ℕ → Bool) (d : ℕ) → in_node n d b d ≡ top n d
unfolding in_node
in_node_here nil b d = refl
in_node_here (node k c0 c1) b d = ground arith

pub in_node_below :
    (n : SpaceNode) (l : ℕ) (b : ℕ → Bool) (d : ℕ)
    → d < l
    → in_node n l b d ≡ (top n l || in_node (kid n (b d)) l b (d + 1))
unfolding in_node kid
in_node_below nil l b d h = refl
in_node_below (node k c0 c1) l b d h = ground arith

pub in_node-shortcut :
    (op : SetOp) (a c r : SpaceNode) (l : ℕ) (b : ℕ → Bool) (d : ℕ)
    → shortcut op a c ≡ some r
    → in_node r l b d ≡ apply_bool op (in_node a l b d) (in_node c l b d)
unfolding shortcut in_node
in_node-shortcut op_union nil c r l b d h = ground arith
in_node-shortcut op_union (node _ _ _) nil r l b d h = ground arith
in_node-shortcut op_union (node _ _ _) (node _ _ _) r l b d h = cc
in_node-shortcut op_intersect nil c r l b d h = ground arith
in_node-shortcut op_intersect (node _ _ _) nil r l b d h = ground arith
in_node-shortcut op_intersect (node _ _ _) (node _ _ _) r l b d h = cc
in_node-shortcut op_minus nil c r l b d h = ground arith
in_node-shortcut op_minus (node _ _ _) nil r l b d h = ground arith
in_node-shortcut op_minus (node _ _ _) (node _ _ _) r l b d h = cc
