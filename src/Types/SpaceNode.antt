-- ===== src/Types/SpaceNode.antt =====
-- types/prefixspace.go and types/prefixspace_ops.go, the binary trie of one address family. A
-- pointer to a node is the node, or `nil`. An address is the function from a depth to its bit.
-- Recursion that Go bounds by `d < width` has the levels left, `h` = width - d, as an argument.
pub mod Member
pub mod Merge
pub mod Normalize
pub mod Canonical
pub mod Preserve
pub mod CanonicalMerge
pub mod Unique
pub mod Insert
pub mod Subset
use rpsl.Base.{
  ℕ, zero, suc, ◌+◌, Bool, true, false, not, ◌&&◌, ◌||◌, Option, none, some, ◌==◌, ltb,
  if◌then◌else◌, ◌≡◌,
}
use rpsl.Types.LenMask
use rpsl.Types.LenMask.{LenMask, has, is_zero, ge_mask, one, empty}

pub data SpaceNode : Type 0 where
  nil : SpaceNode
  node : LenMask → SpaceNode → SpaceNode → SpaceNode

unfoldable pub is_nil : SpaceNode → Bool
is_nil nil = true
is_nil (node _ _ _) = false

-- A node, or nil when it would be empty.
unfoldable pub mk : LenMask → SpaceNode → SpaceNode → SpaceNode
unfolding is_nil
mk m c0 c1 = if is_zero m && is_nil c0 && is_nil c1 then nil else node m c0 c1

-- `n` less the lengths in `m`. (Go calls it on nodes only.)
unfoldable pub without : SpaceNode → LenMask → SpaceNode
without nil m = nil
without (node k c0 c1) m = mk (LenMask.and_not k m) c0 c1

unfoldable pub leaf : SpaceNode → Bool
unfolding is_nil
leaf nil = true
leaf (node _ c0 c1) = is_nil c0 && is_nil c1

unfoldable pub kid : SpaceNode → Bool → SpaceNode
kid nil i = nil
kid (node _ c0 c1) false = c0
kid (node _ c0 c1) true = c1

-- Moves the lengths that both children of a node at depth `d` hold up to the node.
pub lift : LenMask → SpaceNode → SpaceNode → ℕ → LenMask × SpaceNode × SpaceNode
lift m nil c1 d = (m, nil, c1)
lift m (node k0 c00 c01) nil d = (m, node k0 c00 c01, nil)
lift m (node k0 c00 c01) (node k1 c10 c11) d =
    let common = LenMask.and (LenMask.and k0 k1) (ge_mask (d + 1)) in
    if is_zero common
    then (m, node k0 c00 c01, node k1 c10 c11)
    else (LenMask.or m common, without (node k0 c00 c01) common, without (node k1 c10 c11) common)

-- `m, c = lift(m, c, d)` and `return mk(m, c)`
unfoldable pub mk_lift : LenMask → SpaceNode → SpaceNode → ℕ → SpaceNode
unfolding lift
mk_lift m c0 c1 d = let t = lift m c0 c1 d in mk t.0 t.1 t.2

-- The canonical form of a raw trie at depth `d`; `covered` holds the lengths an ancestor holds.
unfoldable pub normalize : SpaceNode → ℕ → ℕ → LenMask → SpaceNode
normalize nil d width covered = nil
normalize (node k c0 c1) d width covered =
    let m = LenMask.and_not (LenMask.and k (ge_mask d)) covered in
    let below = LenMask.and (LenMask.or covered m) (ge_mask (d + 1)) in
    let n0 = normalize c0 (d + 1) width below in
    let n1 = normalize c1 (d + 1) width below in
    if ltb d width then mk_lift m n0 n1 d else mk m nil nil

pub data SetOp : Type 0 where
  op_union op_intersect op_minus : SetOp

unfoldable pub apply : SetOp → LenMask → LenMask → LenMask
apply op_union a b = LenMask.or a b
apply op_intersect a b = LenMask.and a b
apply op_minus a b = LenMask.and_not a b

-- The switch at the head of `merge`: an operand's subtree, returned as it is.
pub shortcut : SetOp → SpaceNode → SpaceNode → Option SpaceNode
shortcut op_union nil b = some b
shortcut op_union a nil = some a
shortcut op_intersect nil b = some nil
shortcut op_intersect a nil = some nil
shortcut op_minus nil b = some nil
shortcut op_minus a nil = some a
shortcut op a b = none

-- `fa`: what is inherited and what the node holds, at depth `d` and below.
unfoldable pub held : LenMask → SpaceNode → ℕ → LenMask
held inherited nil d = LenMask.and inherited (ge_mask d)
held inherited (node k _ _) d = LenMask.and (LenMask.or inherited k) (ge_mask d)

unfoldable pub merge : SetOp → ℕ → SpaceNode → SpaceNode → ℕ → LenMask → LenMask → SpaceNode
unfolding shortcut held leaf
merge op zero a b d inA inB =
    let fa = held inA a d in
    let fb = held inB b d in
    elim (if is_zero inA && is_zero inB then shortcut op a b else none) [
      | some n ↦ n
      | none ↦ elim (leaf a && leaf b) [
        | true ↦ mk (apply op fa fb) nil nil
        | false ↦ mk (LenMask.and (apply op fa fb) (one d)) nil nil
      ]
    ]
merge op (suc h) a b d inA inB =
    let fa = held inA a d in
    let fb = held inB b d in
    let ia = LenMask.and fa (ge_mask (d + 1)) in
    let ib = LenMask.and fb (ge_mask (d + 1)) in
    let c0 = merge op h (kid a false) (kid b false) (d + 1) ia ib in
    let c1 = merge op h (kid a true) (kid b true) (d + 1) ia ib in
    elim (if is_zero inA && is_zero inB then shortcut op a b else none) [
      | some n ↦ n
      | none ↦ elim (leaf a && leaf b) [
        | true ↦ mk (apply op fa fb) nil nil
        | false ↦ mk_lift (LenMask.and (apply op fa fb) (one d)) c0 c1 d
      ]
    ]

-- The loop of `Contains` from depth `d`, for the prefix of length `l` of an address.
unfoldable pub in_node : SpaceNode → ℕ → (ℕ → Bool) → ℕ → Bool
in_node nil l b d = false
in_node (node k c0 c1) l b d =
    if has k l
    then true
    else if d == l
    then false
    else elim (b d) [ true ↦ in_node c1 l b (d + 1) | false ↦ in_node c0 l b (d + 1) ]

-- `a == b` of two pointers, which the code tests before it looks into the nodes, is a parameter: two
-- pointers to one node are the same value, and nil is nil.
pub record IsIdentity (same : SpaceNode → SpaceNode → Bool) : Type 0 where
  pub same_eq : (a b : SpaceNode) → same a b ≡ true → a ≡ b
  pub same_nil : same nil nil ≡ true

unfoldable pub equal_node : (SpaceNode → SpaceNode → Bool) → SpaceNode → SpaceNode → Bool
equal_node same nil nil = same nil nil
equal_node same nil (node k c0 c1) = same nil (node k c0 c1)
equal_node same (node k c0 c1) nil = same (node k c0 c1) nil
equal_node same (node k c0 c1) (node j e0 e1) =
    same (node k c0 c1) (node j e0 e1)
    || LenMask.equal k j && equal_node same c0 e0 && equal_node same c1 e1

-- `subsetNode`: whether `a` less `b` is empty, found without building it.
pub has_all : LenMask → LenMask → Bool
has_all fa fb = is_zero (LenMask.and_not fa fb)

-- The other side already holds every prefix that `a` can below this node.
unfoldable pub covered : SpaceNode → LenMask → LenMask → ℕ → ℕ → Bool
unfolding has_all leaf
covered a fa fb d width = has_all (LenMask.window d width) fb || leaf a && has_all fa fb

-- What the walk says at once where `a` inherits nothing.
unfoldable pub at_once :
    (SpaceNode → SpaceNode → Bool) → SpaceNode → SpaceNode → LenMask → LenMask → Option Bool
at_once same a b inA inB =
    if is_zero inA
    then if is_nil a || same a b
      then some true
      else if is_nil b && is_zero inB
      then some false
      else none
    else none

-- What the walk says at a node, `below` being its answer for the children.
unfoldable pub subset_here :
    (SpaceNode → SpaceNode → Bool) → SpaceNode → SpaceNode → ℕ → ℕ → LenMask → LenMask → Bool → Bool
unfolding at_once held covered has_all leaf
subset_here same a b d width inA inB below =
    let fa = held inA a d in
    let fb = held inB b d in
    elim (at_once same a b inA inB) [
      | some x ↦ x
      | none ↦
          if covered a fa fb d width
          then true
          else if leaf a && leaf b
          then has_all fa fb
          else if not (is_zero (LenMask.and (LenMask.and_not fa fb) (one d)))
          then false
          else below
    ]

unfoldable pub subset_node :
    (SpaceNode → SpaceNode → Bool) → ℕ → SpaceNode → SpaceNode → ℕ → LenMask → LenMask → Bool
unfolding subset_here held
subset_node same zero a b d inA inB = subset_here same a b d d inA inB true
subset_node same (suc h) a b d inA inB =
    let ia = LenMask.and (held inA a d) (ge_mask (d + 1)) in
    let ib = LenMask.and (held inB b d) (ge_mask (d + 1)) in
    let s0 = subset_node same h (kid a false) (kid b false) (d + 1) ia ib in
    let s1 = subset_node same h (kid a true) (kid b true) (d + 1) ia ib in
    subset_here same a b d (d + suc h) inA inB (s0 && s1)
