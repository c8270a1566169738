-- ===== src/Types/SpaceNode/Normalize.antt =====
-- `normalize` keeps the prefixes of a raw trie, less those whose length is covered from above.
use rpsl.Base.{
  ℕ, ◌+◌, ◌≤◌, ◌<◌, ◌≡◌, refl, ◌∙◌, ap, inl, inr, Bool, not, ◌&&◌, ◌||◌, ◌==◌, ltb, leb, Bool-cases,
  arith,
}
use rpsl.Types.LenMask
use rpsl.Types.LenMask.{LenMask, has, ge_mask}
use rpsl.Types.LenMask.Laws.{has-and, has-or, has-and_not, has-ge_mask}
use rpsl.Types.SpaceNode.{SpaceNode, nil, node, normalize, in_node}
use rpsl.Types.SpaceNode.Member.{in_node-mk, in_node-mk_lift}
use rpsl.Types.SpaceNode.Merge.{within}

-- The lengths that the node at depth `d` keeps, and those that its children find covered.
abbrev pub own : LenMask → LenMask → ℕ → LenMask
own k covered d = LenMask.and_not (LenMask.and k (ge_mask d)) covered

abbrev pub below : LenMask → LenMask → ℕ → LenMask
below k covered d = LenMask.and (LenMask.or covered (own k covered d)) (ge_mask (d + 1))

module _ (k covered : LenMask) (d l : ℕ) where
  pub has-own :
      d ≤ 129
      → l < 192
      → has (own k covered d) l ≡ (has k l && (leb d l && leb l 128) && not (has covered l))
  has-own p q = ground (
    arith,
    has-and_not (LenMask.and k (ge_mask d)) covered l,
    has-and k (ge_mask d) l,
    has-ge_mask d l,
  )

  pub has-below :
      d < l → l ≤ 128 → has (below k covered d) l ≡ (has covered l || has (own k covered d) l)
  has-below p q = ground (
    arith,
    has-and (LenMask.or covered (own k covered d)) (ge_mask (d + 1)) l,
    has-or covered (own k covered d) l,
    has-ge_mask (d + 1) l,
  )

  in_node-kept :
      (b : ℕ → Bool) (c0 c1 n0 n1 : SpaceNode)
      → d ≤ l
      → l ≤ 128
      → (d < l
          → within (below k covered d) n0 l b (d + 1) ≡ within (below k covered d) c0 l b (d + 1))
      → (d < l
          → within (below k covered d) n1 l b (d + 1) ≡ within (below k covered d) c1 l b (d + 1))
      → within covered (node (own k covered d) n0 n1) l b d ≡ within covered (node k c0 c1) l b d
  unfolding in_node
  in_node-kept b c0 c1 n0 n1 p q zeros ones = elim (Bool-cases (d == l)) [
    | inl e ↦ ground (arith, has-own (omega arith) (omega arith))
    | inr e ↦
        let deep : d < l = ground arith in
        ground (arith, has-own (omega arith) (omega arith), has-below deep q, zeros deep, ones deep)
  ]

-- What is inherited or held stays so in the canonical form.
pub normalize-in_node :
    (n : SpaceNode) (d width : ℕ) (covered : LenMask) (l : ℕ) (b : ℕ → Bool)
    → d ≤ l
    → l ≤ width
    → width ≤ 128
    → within covered (normalize n d width covered) l b d ≡ within covered n l b d
unfolding normalize
normalize-in_node nil d width covered l b p q r = refl
normalize-in_node (node k c0 c1) d width covered l b p q r = elim (Bool-cases (ltb d width)) [
  | inl e ↦ rw e (
      ap (◌||◌ (has covered l)) (in_node-mk_lift (own k covered d) _ _ l b d p (omega arith))
      ∙ in_node-kept k covered d l b c0 c1 _ _ p (omega arith)
          (λ f. normalize-in_node c0 (d + 1) width (below k covered d) l b (omega arith) q r)
          (λ f. normalize-in_node c1 (d + 1) width (below k covered d) l b (omega arith) q r))
  | inr e ↦ rw e (
      ap (◌||◌ (has covered l)) (in_node-mk (own k covered d) nil nil l b d)
      ∙ in_node-kept k covered d l b c0 c1 nil nil p (omega arith) (λ f. absurd (ground arith))
          (λ f. absurd (ground arith)))
]
