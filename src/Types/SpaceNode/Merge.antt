-- ===== src/Types/SpaceNode/Merge.antt =====
-- `merge` and `normalize` hold the prefixes that they should.
use rpsl.Base.{
  ℕ, zero, suc, ◌+◌, ◌≤◌, ◌<◌, ◌≡◌, ap₂, ◌∙◌, inl, inr, Bool, true, false, ◌&&◌, ◌||◌, Option, none,
  some, ◌==◌, if◌then◌else◌, Bool-cases, Option-cases, arith,
}
use rpsl.Types.LenMask
use rpsl.Types.LenMask.{LenMask, has, is_zero, ge_mask, one, empty}
use rpsl.Types.LenMask.Laws.{has-and, has-ge_mask, has-one, is_zero-has}
use rpsl.Types.SpaceNode.{
  SpaceNode, nil, node, mk, leaf, kid, SetOp, apply, shortcut, held, merge, in_node,
}
use rpsl.Types.SpaceNode.Member.{
  apply_bool, has-apply, in_node-mk, in_node-mk_lift, top, has-held, in_node-leaf, in_node_here,
  in_node_below, in_node-shortcut,
}

-- A prefix is in a node, or its length is inherited from above.
abbrev pub within : LenMask → SpaceNode → ℕ → (ℕ → Bool) → ℕ → Bool
within inherited n l b d = has inherited l || in_node n l b d

module _ (op : SetOp) (a c : SpaceNode) (d : ℕ) (inA inC : LenMask) (l : ℕ) (b : ℕ → Bool) where
  abbrev goal : Bool
  goal = apply_bool op (within inA a l b d) (within inC c l b d)

  abbrev choose : SpaceNode → SpaceNode
  choose deep = elim (if is_zero inA && is_zero inC then shortcut op a c else none) [
    | some n ↦ n
    | none ↦ elim (leaf a && leaf c) [
      | true ↦ mk (apply op (held inA a d) (held inC c d)) nil nil
      | false ↦ deep
    ]
  ]

  in_node-leaves :
      leaf a ≡ true
      → leaf c ≡ true
      → d ≤ l
      → l ≤ 128
      → in_node (mk (apply op (held inA a d) (held inC c d)) nil nil) l b d ≡ goal
  in_node-leaves p q r s =
      in_node-mk (apply op (held inA a d) (held inC c d)) nil nil l b d
      ∙ unfold in_node in
        ground (
          arith,
          has-apply op (held inA a d) (held inC c d) l,
          has-held inA a d l r s,
          has-held inC c d l r s,
          in_node-leaf a l b d p,
          in_node-leaf c l b d q,
        )

  in_node-choose :
      (deep : SpaceNode)
      → d ≤ l
      → l ≤ 128
      → in_node deep l b d ≡ goal
      → in_node (choose deep) l b d ≡ goal
  in_node-choose deep p q h = elim (Option-cases short) [
    | inr (r, e) ↦ rw (e, choose) (shortened r e)
    | inl e ↦
        rw (e, choose)
          (elim (Bool-cases (leaf a && leaf c)) [
            | inl f ↦ rw f (in_node-leaves (ground arith) (ground arith) p q)
            | inr f ↦ rw f h
          ])
  ]
    where
      short : Option SpaceNode
      short = if is_zero inA && is_zero inC then shortcut op a c else none

      shortened : (r : SpaceNode) → short ≡ some r → in_node r l b d ≡ goal
      shortened r e =
          let facts : (is_zero inA ≡ true) × (is_zero inC ≡ true) × (shortcut op a c ≡ some r) =
            ground arith in
          in_node-shortcut op a c r l b d facts.2
          ∙ ground (arith, is_zero-has inA l facts.0, is_zero-has inC l facts.1)

  -- What a node that is split decides exactly: its own prefix.
  has-own :
      d ≤ l
      → l ≤ 128
      → has (LenMask.and (apply op (held inA a d) (held inC c d)) (one d)) l
        ≡ (d == l && apply_bool op (has inA l || top a l) (has inC l || top c l))
  has-own p q = ground (
    arith,
    has-and (apply op (held inA a d) (held inC c d)) (one d) l,
    has-one d l,
    has-apply op (held inA a d) (held inC c d) l,
    has-held inA a d l p q,
    has-held inC c d l p q,
  )

  in_node-own :
      (n0 n1 : SpaceNode)
      → d ≡ l
      → l ≤ 128
      → in_node (node (LenMask.and (apply op (held inA a d) (held inC c d)) (one d)) n0 n1) l b d
        ≡ goal
  unfolding in_node
  in_node-own n0 n1 e q = ground (arith, has-own (omega arith) q, here a, here c)
    where
      here : (n : SpaceNode) → in_node n l b d ≡ top n l
      here n = rw (← e) (in_node_here n b d)

  in_node-deep :
      (n0 n1 : SpaceNode)
      → d < l
      → l ≤ 128
      → (b d ≡ false → in_node n0 l b (d + 1) ≡ goal)
      → (b d ≡ true → in_node n1 l b (d + 1) ≡ goal)
      → in_node (node (LenMask.and (apply op (held inA a d) (held inC c d)) (one d)) n0 n1) l b d
        ≡ goal
  unfolding in_node
  in_node-deep n0 n1 p q zeros ones = elim (Bool-cases (b d)) [
    | inl e ↦ ground (arith, has-own (omega arith) q, ones e)
    | inr e ↦ ground (arith, has-own (omega arith) q, zeros e)
  ]

-- The lengths that a child inherits.
has-inherit :
    (inherited : LenMask) (n : SpaceNode) (d l : ℕ)
    → d < l
    → l ≤ 128
    → has (LenMask.and (held inherited n d) (ge_mask (d + 1))) l ≡ (has inherited l || top n l)
has-inherit inherited n d l p q = ground (
  arith,
  has-and (held inherited n d) (ge_mask (d + 1)) l,
  has-held inherited n d l,
  has-ge_mask (d + 1) l,
)

pub within_below :
    (inherited : LenMask) (n : SpaceNode) (d l : ℕ) (b : ℕ → Bool) (i : Bool)
    → d < l
    → l ≤ 128
    → b d ≡ i
    → within (LenMask.and (held inherited n d) (ge_mask (d + 1))) (kid n i) l b (d + 1)
      ≡ within inherited n l b d
within_below inherited n d l b i p q e =
    ground (arith, has-inherit inherited n d l p q, rw e at (in_node_below n l b d p))

-- For every length in reach, the merge of two tries holds a prefix exactly when the set operation
-- says so of the operands and what they inherit.
pub merge-in_node :
    (op : SetOp) (h : ℕ) (a c : SpaceNode) (d : ℕ) (inA inC : LenMask) (l : ℕ) (b : ℕ → Bool)
    → d ≤ l
    → l ≤ d + h
    → d + h ≤ 128
    → in_node (merge op h a c d inA inC) l b d
      ≡ apply_bool op (within inA a l b d) (within inC c l b d)
unfolding merge
merge-in_node op zero a c d inA inC l b p q r =
    in_node-choose op a c d inA inC l b _ p (omega arith) (
      in_node-mk _ nil nil l b d
      ∙ in_node-own op a c d inA inC l b nil nil (omega arith) (omega arith))
merge-in_node op (suc h) a c d inA inC l b p q r =
    in_node-choose op a c d inA inC l b _ p (omega arith) (
      in_node-mk_lift _ _ _ l b d p (omega arith) ∙ elim (Bool-cases (d == l)) [
        | inl e ↦ in_node-own op a c d inA inC l b _ _ (ground arith) (omega arith)
        | inr e ↦
            in_node-deep op a c d inA inC l b _ _ (ground arith) (omega arith)
              (λ z.
                merge-in_node op h (kid a false) (kid c false) (d + 1) _ _ l b (ground arith)
                  (omega arith) (omega arith)
                ∙ child false z (ground arith))
              (λ z.
                merge-in_node op h (kid a true) (kid c true) (d + 1) _ _ l b (ground arith)
                  (omega arith) (omega arith)
                ∙ child true z (ground arith))
      ])
  where
    child :
        (i : Bool)
        → b d ≡ i
        → d < l
        → apply_bool op
            (within (LenMask.and (held inA a d) (ge_mask (d + 1))) (kid a i) l b (d + 1))
            (within (LenMask.and (held inC c d) (ge_mask (d + 1))) (kid c i) l b (d + 1))
          ≡ apply_bool op (within inA a l b d) (within inC c l b d)
    child i e f =
        ap₂ (apply_bool op) (within_below inA a d l b i f (omega arith) e)
          (within_below inC c d l b i f (omega arith) e)
