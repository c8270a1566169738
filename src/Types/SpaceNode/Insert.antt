-- ===== src/Types/SpaceNode/Insert.antt =====
-- The raw tries that `SpaceOf` builds: the lengths of one range are put at its base prefix.
use rpsl.Base.{
  ℕ, zero, suc, ◌+◌, ◌≤◌, ◌<◌, ◌≡◌, inl, inr, Bool, true, false, ◌&&◌, ◌||◌, if◌then◌else◌,
  Bool-cases, arith,
}
use rpsl.Types.LenMask
use rpsl.Types.LenMask.{LenMask, has, empty}
use rpsl.Types.LenMask.Laws.{IsMask, has-or, has-empty, or-IsMask, empty-IsMask}
use rpsl.Types.Netip.{agrees}
use rpsl.Types.SpaceNode.{SpaceNode, nil, node, in_node}
use rpsl.Types.SpaceNode.CanonicalMerge.{IsRaw}

-- `if raw[f] == nil { raw[f] = &spaceNode{} }`
unfoldable pub new_node : SpaceNode → SpaceNode
new_node nil = node empty nil nil
new_node (node k c0 c1) = node k c0 c1

-- The mask of a node that the loop has reached: `n.mask = n.mask.or(m)`
unfoldable pub add_mask : SpaceNode → LenMask → SpaceNode
add_mask nil m = nil
add_mask (node k c0 c1) m = node (LenMask.or k m) c0 c1

-- The loop from depth `d` on the node `n`, with the number of rounds left; a child that is nil is
-- made when the loop reaches it.
unfoldable pub insert_at : ℕ → SpaceNode → (ℕ → Bool) → ℕ → LenMask → SpaceNode
unfolding new_node add_mask
insert_at zero n b d m = add_mask (new_node n) m
insert_at (suc rounds) nil b d m =
    let deeper = insert_at rounds nil b (d + 1) m in
    if b d then node empty nil deeper else node empty deeper nil
insert_at (suc rounds) (node k c0 c1) b d m = elim (b d) [
  | true ↦ node k c0 (insert_at rounds c1 b (d + 1) m)
  | false ↦ node k (insert_at rounds c0 b (d + 1) m) c1
]

-- After the insertion the trie holds, besides what it held, the lengths of `m` under the base.
pub insert_at-in_node :
    (rounds : ℕ) (n : SpaceNode) (b : ℕ → Bool) (d : ℕ) (m : LenMask) (l : ℕ) (b' : ℕ → Bool)
    → (has m l ≡ true → d + rounds ≤ l)
    → in_node (insert_at rounds n b d m) l b' d
      ≡ (in_node n l b' d || agrees rounds d b b' && has m l)
unfolding insert_at in_node agrees
insert_at-in_node zero nil b d m l b' h = ground (arith, has-or empty m l, has-empty l)
insert_at-in_node zero (node k c0 c1) b d m l b' h = ground (arith, has-or k m l)
insert_at-in_node (suc rounds) nil b d m l b' h =
    ground
      (arith, has-empty l, insert_at-in_node rounds nil b (d + 1) m l b' (λ e. omega (arith, h e)))
insert_at-in_node (suc rounds) (node k c0 c1) b d m l b' h = ground (
  arith,
  h,
  insert_at-in_node rounds c0 b (d + 1) m l b' (λ e. omega (arith, h e)),
  insert_at-in_node rounds c1 b (d + 1) m l b' (λ e. omega (arith, h e)),
)

pub insert_at-IsRaw :
    (rounds : ℕ) (n : SpaceNode) (b : ℕ → Bool) (d : ℕ) (m : LenMask) (width : ℕ)
    → IsMask m
    → ((l : ℕ) → l < 192 → has m l ≡ true → l ≤ width)
    → IsRaw n width
    → IsRaw (insert_at rounds n b d m) width
unfolding insert_at
insert_at-IsRaw zero nil b d m width p q r = (
  or-IsMask empty-IsMask p,
  λ l x y. q l x (ground (arith, has-or empty m l, has-empty l)),
  tt,
  tt,
)
insert_at-IsRaw zero (node k c0 c1) b d m width p q (r, w, r0, r1) =
    (or-IsMask r p, λ l x y. ground (arith, has-or k m l, q l x, w l x), r0, r1)
insert_at-IsRaw (suc rounds) nil b d m width p q r = elim (Bool-cases (b d)) [
  | inl e ↦ rw e (
    empty-IsMask,
    λ l x y. absurd (ground (arith, has-empty l)),
    tt,
    insert_at-IsRaw rounds nil b (d + 1) m width p q tt,
  )
  | inr e ↦ rw e (
    empty-IsMask,
    λ l x y. absurd (ground (arith, has-empty l)),
    insert_at-IsRaw rounds nil b (d + 1) m width p q tt,
    tt,
  )
]
insert_at-IsRaw (suc rounds) (node k c0 c1) b d m width p q (r, w, r0, r1) =
    elim (Bool-cases (b d)) [
      | inl e ↦ rw (e, insert_at) (r, w, r0, insert_at-IsRaw rounds c1 b (d + 1) m width p q r1)
      | inr e ↦ rw (e, insert_at) (r, w, insert_at-IsRaw rounds c0 b (d + 1) m width p q r0, r1)
    ]
