-- ===== src/Types/SpaceNode/Unique.antt =====
-- Canonical tries that hold the same prefixes are the same trie, so `Equal` is exact.
use rpsl.Base.{
  ℕ, ◌+◌, ◌≤◌, ◌<◌, ◌≡◌, refl, sym, ◌∙◌, ◌⊎◌, ◌↔◌, inl, inr, Bool, true, false, ◌&&◌, ◌||◌, ◌==◌,
  if◌then◌else◌, Bool-cases, arith,
}
use rpsl.Types.LenMask
use rpsl.Types.LenMask.{LenMask, has, is_zero, ge_mask, one, empty}
use rpsl.Types.LenMask.Laws.{has-or, is_zero_of, has_ext, equal_iff}
use rpsl.Types.SpaceNode.{SpaceNode, nil, node, is_nil, kid, in_node, IsIdentity, equal_node}
use rpsl.Types.SpaceNode.Member.{top}
use rpsl.Types.SpaceNode.Canonical.{IsCanonical}

-- Replaces one bit of an address.
abbrev pub with_bit : (ℕ → Bool) → ℕ → Bool → ℕ → Bool
with_bit b d i e = if d == e then i else b e

-- The loop of `Contains` reads the bits below the length that it looks for.
pub in_node_congr :
    (n : SpaceNode) (l : ℕ) (b b' : ℕ → Bool) (d : ℕ)
    → d ≤ l
    → ((e : ℕ) → d ≤ e → e < l → b e ≡ b' e)
    → in_node n l b d ≡ in_node n l b' d
unfolding in_node
in_node_congr nil l b b' d p h = refl
in_node_congr (node k c0 c1) l b b' d p h = elim (Bool-cases (d == l)) [
  | inl e ↦ ground arith
  | inr e ↦ ground (
    arith,
    h d,
    in_node_congr c0 l b b' (d + 1) (ground arith) (λ e q. h e (omega arith)),
    in_node_congr c1 l b b' (d + 1) (ground arith) (λ e q. h e (omega arith)),
  )
]

-- At a deeper length a node asks the child on the side of the bit at its depth.
in_node-with_bit :
    (k : LenMask) (c0 c1 : SpaceNode) (l : ℕ) (b : ℕ → Bool) (d : ℕ) (i : Bool)
    → d < l
    → in_node (node k c0 c1) l (with_bit b d i) d
      ≡ (has k l || in_node (kid (node k c0 c1) i) l b (d + 1))
unfolding kid in_node
in_node-with_bit k c0 c1 l b d false p =
    ground (
      arith,
      in_node_congr c0 l (with_bit b d false) b (d + 1) (omega arith) (λ e q r. ground arith),
    )
in_node-with_bit k c0 c1 l b d true p =
    ground (
      arith,
      in_node_congr c1 l (with_bit b d true) b (d + 1) (omega arith) (λ e q r. ground arith),
    )

-- No prefix in a subtree has a length that an ancestor holds.
in_node_above :
    (n : SpaceNode) (d width : ℕ) (above : LenMask) (l : ℕ) (b : ℕ → Bool)
    → IsCanonical n d width above
    → l < 192
    → has above l ≡ true
    → in_node n l b d ≡ false
unfolding in_node
in_node_above nil d width above l b c p h = refl
in_node_above (node k c0 c1) d width above l b (f, apart, full, k0, k1) p h = ground (
  arith,
  f.fresh l p,
  has-or above k l,
  in_node_above c0 (d + 1) width (LenMask.or above k) l b k0 p,
  in_node_above c1 (d + 1) width (LenMask.or above k) l b k1 p,
)

in_node_side :
    (k : LenMask) (c0 c1 : SpaceNode) (d l : ℕ) (v : Bool) (i : Bool)
    → has k l ≡ false
    → d < l
    → ((b : ℕ → Bool) → in_node (node k c0 c1) l b d ≡ v)
    → (b : ℕ → Bool) → in_node (kid (node k c0 c1) i) l b (d + 1) ≡ v
in_node_side k c0 c1 d l v i e deep h b =
    ground (arith, in_node-with_bit k c0 c1 l b d i deep, h (with_bit b d i))

in_node_of_has :
    (k : LenMask) (c0 c1 : SpaceNode) (d l : ℕ) (b : ℕ → Bool)
    → has k l ≡ true
    → in_node (node k c0 c1) l b d ≡ true
unfolding in_node
in_node_of_has k c0 c1 d l b e = rw e

-- A length all of whose prefixes are in a canonical trie is held at its root.
top_of_all :
    (n : SpaceNode) (d width : ℕ) (above : LenMask) (l : ℕ)
    → IsCanonical n d width above
    → d ≤ l
    → l ≤ width
    → width ≤ 128
    → ((b : ℕ → Bool) → in_node n l b d ≡ true)
    → top n l ≡ true
top_of_all nil d width above l c p q w h = unfold in_node in cc (h (λ _. true))
top_of_all (node k c0 c1) d width above l (f, apart, full, k0, k1) p q w h =
    elim (Bool-cases (has k l)) [
      | inl e ↦ e
      | inr e ↦ elim (Bool-cases (d == l)) [
        | inl here ↦ unfold in_node in ground (arith, h (λ _. true))
        | inr deep ↦
            let below : d < l = ground arith in
            let z =
              top_of_all c0 (d + 1) width (LenMask.or above k) l k0 (omega arith) q w
                (unfold kid in in_node_side k c0 c1 d l true false e below h) in
            let o =
              top_of_all c1 (d + 1) width (LenMask.or above k) l k1 (omega arith) q w
                (unfold kid in in_node_side k c0 c1 d l true true e below h) in
            ground (arith, apart l (omega arith) z)
      ]
    ]

in_node_nil : (l : ℕ) (b : ℕ → Bool) (d : ℕ) → in_node nil l b d ≡ false
unfolding in_node
in_node_nil l b d = refl

not_empty :
    (k : LenMask) (c0 c1 : SpaceNode)
    → (is_zero k && is_nil c0 && is_nil c1) ≡ false
    → is_zero k ≡ true
    → c0 ≡ nil
    → c1 ≡ nil
    → ⊥
unfolding is_nil
not_empty k c0 c1 full z e f = ground arith

-- A canonical trie that holds no prefix is nil.
pub nil_of_none :
    (n : SpaceNode) (d width : ℕ) (above : LenMask)
    → IsCanonical n d width above
    → width ≤ 128
    → ((l : ℕ) (b : ℕ → Bool) → d ≤ l → l ≤ width → in_node n l b d ≡ false)
    → n ≡ nil
nil_of_none nil d width above c w h = refl
nil_of_none (node k c0 c1) d width above (f, apart, full, k0, k1) w h =
    let none_held = λ (l : ℕ) (p : l < 192). none l p (Bool-cases (has k l)) in
    let z = nil_of_none c0 (d + 1) width (LenMask.or above k) k0 w (λ l b p q.
      unfold kid in
      in_node_side k c0 c1 d l false false (none_held l (omega arith)) (omega arith)
        (λ b'. h l b' (omega arith) q) b) in
    let o = nil_of_none c1 (d + 1) width (LenMask.or above k) k1 w (λ l b p q.
      unfold kid in
      in_node_side k c0 c1 d l false true (none_held l (omega arith)) (omega arith)
        (λ b'. h l b' (omega arith) q) b) in
    absurd (not_empty k c0 c1 full (is_zero_of f.is_mask none_held) z o)
  where
    none : (l : ℕ) → l < 192 → (has k l ≡ true) ⊎ (has k l ≡ false) → has k l ≡ false
    none l p (inr e) = e
    none l p (inl e) =
        let r = f.lengths l p e in
        cc (in_node_of_has k c0 c1 d l (λ _. true) e, h l (λ _. true) r.0 r.1)

abbrev pub SameMembers : SpaceNode → SpaceNode → ℕ → ℕ → Type 0
SameMembers a c d width =
    (l : ℕ) (b : ℕ → Bool) → d ≤ l → l ≤ width → in_node a l b d ≡ in_node c l b d

has_of_same :
    (k j : LenMask) (a0 a1 c0 c1 : SpaceNode) (d width : ℕ) (u v : LenMask) (l : ℕ)
    → IsCanonical (node k a0 a1) d width u
    → IsCanonical (node j c0 c1) d width v
    → width ≤ 128
    → SameMembers (node k a0 a1) (node j c0 c1) d width
    → l < 192
    → has k l ≡ true
    → has j l ≡ true
has_of_same k j a0 a1 c0 c1 d width u v l ka kc w same p e =
    let r = ka.0.lengths l p e in
    top_of_all (node j c0 c1) d width v l kc r.0 r.1 w
      (λ b. sym (same l b r.0 r.1) ∙ in_node_of_has k a0 a1 d l b e)

same_child :
    (k j : LenMask) (a0 a1 c0 c1 : SpaceNode) (d width : ℕ) (u v : LenMask) (i : Bool)
    → IsCanonical (kid (node k a0 a1) i) (d + 1) width (LenMask.or u k)
    → IsCanonical (kid (node j c0 c1) i) (d + 1) width (LenMask.or v j)
    → width ≤ 128
    → ((l : ℕ) → l < 192 → has k l ≡ has j l)
    → SameMembers (node k a0 a1) (node j c0 c1) d width
    → SameMembers (kid (node k a0 a1) i) (kid (node j c0 c1) i) (d + 1) width
same_child k j a0 a1 c0 c1 d width u v i ka kc w same_mask same l b p q =
    elim (Bool-cases (has k l)) [
      | inl e ↦
          in_node_above _ (d + 1) width _ l b ka (omega arith) (ground (arith, has-or u k l))
          ∙ sym (
              in_node_above _ (d + 1) width _ l b kc (omega arith)
                (ground (arith, has-or v j l, same_mask l (omega arith))))
      | inr e ↦ ground (
        arith,
        same_mask l (omega arith),
        same l (with_bit b d i) (omega arith) q,
        in_node-with_bit k a0 a1 l b d i (omega arith),
        in_node-with_bit j c0 c1 l b d i (omega arith),
      )
    ]

-- Canonical tries with the same prefixes are equal, node by node.
pub eq_of_same :
    (a c : SpaceNode) (d width : ℕ) (u v : LenMask)
    → IsCanonical a d width u
    → IsCanonical c d width v
    → width ≤ 128
    → SameMembers a c d width
    → a ≡ c
eq_of_same nil c d width u v ka kc w same =
    sym (nil_of_none c d width v kc w (λ l b p q. sym (same l b p q) ∙ in_node_nil l b d))
eq_of_same (node k a0 a1) nil d width u v ka kc w same =
    nil_of_none _ d width u ka w (λ l b p q. same l b p q ∙ in_node_nil l b d)
eq_of_same (node k a0 a1) (node j c0 c1) d width u v ka kc w same = cc (
  has_ext ka.0.is_mask kc.0.is_mask same_mask,
  eq_of_same a0 c0 (d + 1) width (LenMask.or u k) (LenMask.or v j) ka.3 kc.3 w
      (unfold kid in same_child k j a0 a1 c0 c1 d width u v false ka.3 kc.3 w same_mask same),
  eq_of_same a1 c1 (d + 1) width (LenMask.or u k) (LenMask.or v j) ka.4 kc.4 w
      (unfold kid in same_child k j a0 a1 c0 c1 d width u v true ka.4 kc.4 w same_mask same),
)
  where
    same_mask : (l : ℕ) → l < 192 → has k l ≡ has j l
    same_mask l p = ground (
      arith,
      has_of_same k j a0 a1 c0 c1 d width u v l ka kc w same p,
      has_of_same j k c0 c1 a0 a1 d width v u l kc ka w (λ l b p q. sym (same l b p q)) p,
    )

-- `equalNode` decides whether two tries are equal, whatever pointers are shared.
pub equal_node_iff :
    (same : SpaceNode → SpaceNode → Bool) (a c : SpaceNode)
    → IsIdentity same
    → (equal_node same a c ≡ true) ↔ (a ≡ c)
unfolding equal_node
equal_node_iff same nil nil s = (λ _. refl, λ _. s.same_nil)
equal_node_iff same nil (node j c0 c1) s = (s.same_eq nil (node j c0 c1), λ e. cc)
equal_node_iff same (node k a0 a1) nil s = (s.same_eq (node k a0 a1) nil, λ e. cc)
equal_node_iff same (node k a0 a1) (node j c0 c1) s = ground (
  arith,
  s.same_eq (node k a0 a1) (node j c0 c1),
  equal_iff k j,
  equal_node_iff same a0 c0 s,
  equal_node_iff same a1 c1 s,
)
