-- ===== src/Types/PrefixSpace/Inclusion.antt =====
-- What `Subset` promises.
use rpsl.Base.{ℕ, ◌≡◌, ◌≤◌, refl, Bool, true, false, ◌&&◌, if◌then◌else◌, arith}
use rpsl.Types.Netip.{Prefix, IsPrefix, bit_of}
use rpsl.Types.LenMask.{empty}
use rpsl.Types.LenMask.Laws.{has-empty}
use rpsl.Types.SpaceNode.{SpaceNode, in_node, IsIdentity, subset_node}
use rpsl.Types.SpaceNode.Subset.{subset_node-within}
use rpsl.Types.PrefixSpace.{PrefixSpace, contains, subset}
use rpsl.Types.PrefixSpace.Laws.{contains_lem, trie}

module _ (same : SpaceNode → SpaceNode → Bool) (identity : IsIdentity same) where
  subset_node-in_node :
      (h : ℕ) (a c : SpaceNode) (l : ℕ) (b : ℕ → Bool)
      → l ≤ h
      → h ≤ 128
      → subset_node same h a c 0 empty empty ≡ true
      → in_node a l b 0 ≡ true
      → in_node c l b 0 ≡ true
  subset_node-in_node h a c l b p q s w = ground (
    arith,
    has-empty l,
    subset_node-within same identity h a c 0 empty empty l b (omega arith) (omega (arith, p))
        (omega (arith, q)) s (ground (arith, w)),
  )

  -- Where `Subset` answers true, every prefix of the first space is in the second one.
  pub contains-subset :
      (s t : PrefixSpace) (p : Prefix)
      → IsPrefix p
      → subset same s t ≡ true
      → contains s p ≡ true
      → contains t p ≡ true
  unfolding subset
  contains-subset s t p h e w =
      let found : in_node (trie s p) p.len (bit_of p.addr) 0 ≡ true =
        ground (arith, w, contains_lem s p) in
      let kept = of p.addr.is4 refl found in
      ground (arith, w, contains_lem s p, contains_lem t p, kept)
    where
      first : (x y : Bool) → (x && y) ≡ true → x ≡ true
      first true y h = refl
      first false y h = h

      second : (x y : Bool) → (x && y) ≡ true → y ≡ true
      second true y h = h
      second false y h = absurd (cc h)

      four : Bool
      four = subset_node same 32 s.v4 t.v4 0 empty empty

      six : Bool
      six = subset_node same 128 s.v6 t.v6 0 empty empty

      of :
          (f : Bool)
          → p.addr.is4 ≡ f
          → in_node (if f then s.v4 else s.v6) p.len (bit_of p.addr) 0 ≡ true
          → in_node (if f then t.v4 else t.v6) p.len (bit_of p.addr) 0 ≡ true
      of true k v =
          subset_node-in_node 32 s.v4 t.v4 p.len (bit_of p.addr) (ground (arith, h.len_le, k))
            (omega arith) (first four six e) v
      of false k v =
          subset_node-in_node 128 s.v6 t.v6 p.len (bit_of p.addr) (ground (arith, h.len_le, k))
            (omega arith) (second four six e) v
