-- ===== src/Types/PrefixSpace/Laws.antt =====
-- The set operations on prefix spaces, and the exactness of `Equal`.
use rpsl.Base.{
  ℕ, ◌≤◌, ◌≡◌, ◌↔◌, refl, sym, ap, ◌∙◌, inl, inr, Bool, true, false, not, ◌&&◌, ◌||◌, if◌then◌else◌,
  Bool-cases, arith,
}
use rpsl.Types.LenMask.{empty}
use rpsl.Types.LenMask.Laws.{has-empty, empty-IsMask}
use rpsl.Types.Netip.{
  Prefix, IsPrefix, bit_at_lem, masked, bit_of, bit_of-masked, masked_fields, first_bits,
  length-first_bits, get_or-first_bits,
}
use rpsl.Types.SpaceNode.{
  SpaceNode, SetOp, op_union, op_intersect, op_minus, merge, in_node, IsIdentity,
}
use rpsl.Types.SpaceNode.Member.{apply_bool}
use rpsl.Types.SpaceNode.Merge.{merge-in_node}
use rpsl.Types.SpaceNode.Canonical.{IsCanonical}
use rpsl.Types.SpaceNode.CanonicalMerge.{IsInherited, merge-IsCanonical}
use rpsl.Types.SpaceNode.Unique.{in_node_congr, SameMembers, eq_of_same, equal_node_iff}
use rpsl.Types.PrefixSpace.{
  PrefixSpace, addr_bit, equal, contains, combine, union, intersect, minus,
}

-- Both tries are canonical.
pub record IsSpace (s : PrefixSpace) : Type 0 where
  pub canonical4 : IsCanonical s.v4 0 32 empty
  pub canonical6 : IsCanonical s.v6 0 128 empty

abbrev pub trie : PrefixSpace → Prefix → SpaceNode
trie s p = if p.addr.is4 then s.v4 else s.v6

-- `Contains` looks for the bits of the address itself: masking changes none that it reads.
pub contains_lem :
    (s : PrefixSpace) (p : Prefix)
    → contains s p ≡ (p.is_valid && in_node (trie s p) p.len (bit_of p.addr) 0)
unfolding contains
contains_lem s p = ground (
  arith,
  masked_fields p,
  in_node_congr (trie s p) p.len (addr_bit (masked p).addr) (bit_of p.addr) 0 (omega arith)
      (λ e q r. bit_at_lem (masked p).addr e ∙ bit_of-masked p e r),
)

merge_at_root :
    (op : SetOp) (width : ℕ) (a c : SpaceNode) (l : ℕ) (b : ℕ → Bool)
    → width ≤ 128
    → l ≤ width
    → in_node (merge op width a c 0 empty empty) l b 0
      ≡ apply_bool op (in_node a l b 0) (in_node c l b 0)
merge_at_root op width a c l b w p =
    merge-in_node op width a c 0 empty empty l b (omega arith) (omega arith) (omega arith)
    ∙ ground (arith, has-empty l)

trie-combine :
    (op : SetOp) (s t : PrefixSpace) (p : Prefix)
    → IsPrefix p
    → in_node (trie (combine op s t) p) p.len (bit_of p.addr) 0
      ≡ apply_bool op
          (in_node (trie s p) p.len (bit_of p.addr) 0)
          (in_node (trie t p) p.len (bit_of p.addr) 0)
unfolding combine
trie-combine op s t p h = elim (Bool-cases p.addr.is4) [
  | inl e ↦
      rw e (
        merge_at_root op 32 s.v4 t.v4 p.len (bit_of p.addr) (omega arith)
          (ground (arith, h.len_le)))
  | inr e ↦ rw e (
      merge_at_root op 128 s.v6 t.v6 p.len (bit_of p.addr) (omega arith) (ground (arith, h.len_le)))
]

contains-combine :
    (op : SetOp) (s t : PrefixSpace) (p : Prefix)
    → IsPrefix p
    → contains (combine op s t) p ≡ apply_bool op (contains s p) (contains t p)
contains-combine op s t p h = ground (
  arith,
  contains_lem (combine op s t) p,
  contains_lem s p,
  contains_lem t p,
  trie-combine op s t p h,
)

-- `Union`, `Intersect` and `Minus` hold a prefix exactly when the one space or the other, both, or
-- the first and not the second hold it; the prefix may have host bits.
pub contains_ops :
    (s t : PrefixSpace) (p : Prefix)
    → IsPrefix p
    → (contains (union s t) p ≡ (contains s p || contains t p))
      × (contains (intersect s t) p ≡ (contains s p && contains t p))
      × (contains (minus s t) p ≡ (contains s p && not (contains t p)))
unfolding union intersect minus
contains_ops s t p h = (
  contains-combine op_union s t p h,
  contains-combine op_intersect s t p h,
  contains-combine op_minus s t p h,
)

empty-IsInherited : (width : ℕ) → IsInherited empty width
empty-IsInherited width = record {
  words = empty-IsMask;
  bounded = λ l p q. absurd (ground (arith, has-empty l));
}

-- The set operations return canonical spaces when their operands are canonical.
pub combine-IsSpace :
    (op : SetOp) (s t : PrefixSpace) → IsSpace s → IsSpace t → IsSpace (combine op s t)
unfolding combine
combine-IsSpace op s t hs ht = record {
  canonical4 =
      merge-IsCanonical op 32 s.v4 t.v4 0 empty empty 32 refl (omega arith) (empty-IsInherited 32)
        (empty-IsInherited 32) hs.canonical4 ht.canonical4;
  canonical6 =
      merge-IsCanonical op 128 s.v6 t.v6 0 empty empty 128 refl (omega arith)
        (empty-IsInherited 128) (empty-IsInherited 128) hs.canonical6 ht.canonical6;
}

abbrev pub SamePrefixes : PrefixSpace → PrefixSpace → Type 0
SamePrefixes s t = (p : Prefix) → IsPrefix p → contains s p ≡ contains t p

-- The prefix of a family with the given length and bits.
abbrev prefix_of : Bool → ℕ → (ℕ → Bool) → Prefix
prefix_of is4 l b = record {
  is_valid = true;
  addr = record { is4 = is4; bits = first_bits (if is4 then 32 else 128) 0 b };
  len = l;
}

pub trie-members :
    (is4 : Bool) (s t : PrefixSpace)
    → SamePrefixes s t
    → SameMembers
        (if is4 then s.v4 else s.v6)
        (if is4 then t.v4 else t.v6)
        0
        (if is4 then 32 else 128)
trie-members is4 s t same l b p q =
    sym (read s)
    ∙ sym (contains_lem s prefix)
    ∙ same prefix is_prefix
    ∙ contains_lem t prefix
    ∙ read t
  where
    prefix : Prefix
    prefix = prefix_of is4 l b

    is_prefix : IsPrefix prefix
    is_prefix = record { all_bits = length-first_bits (if is4 then 32 else 128) 0 b; len_le = q }

    read :
        (u : PrefixSpace)
        → in_node (trie u prefix) l (bit_of prefix.addr) 0
          ≡ in_node (if is4 then u.v4 else u.v6) l b 0
    read u = in_node_congr (trie u prefix) l (bit_of prefix.addr) b 0 (omega arith) (λ e x y.
        get_or-first_bits (if is4 then 32 else 128) 0 e b (omega arith) ∙ ap b (omega arith))

-- On canonical spaces `Equal` is exact: it answers true exactly when the spaces hold the same
-- prefixes, whichever nodes the two share.
pub equal-SamePrefixes :
    (same : SpaceNode → SpaceNode → Bool) (s t : PrefixSpace)
    → IsIdentity same
    → IsSpace s
    → IsSpace t
    → (equal same s t ≡ true) ↔ SamePrefixes s t
unfolding equal
equal-SamePrefixes same s t id hs ht = (
  λ e p h.
      let e4 : s.v4 ≡ t.v4 = (equal_node_iff same s.v4 t.v4 id).0 (ground arith) in
      let e6 : s.v6 ≡ t.v6 = (equal_node_iff same s.v6 t.v6 id).0 (ground arith) in
      ground (arith, contains_lem s p, contains_lem t p),
  λ h. ground (
    arith,
    (equal_node_iff same s.v4 t.v4 id).1 (
        eq_of_same s.v4 t.v4 0 32 empty empty hs.canonical4 ht.canonical4 (omega arith)
          (trie-members true s t h)),
    (equal_node_iff same s.v6 t.v6 id).1 (
        eq_of_same s.v6 t.v6 0 128 empty empty hs.canonical6 ht.canonical6 (omega arith)
          (trie-members false s t h)),
  ),
)
