-- ===== src/Types/PrefixSpace/Whole.antt =====
-- `FullSpace` is everything of its families, and `IsEmpty` is exact.
use rpsl.Base.{ℕ, ◌≤◌, ◌≡◌, ◌↔◌, refl, sym, ◌∙◌, Bool, true, false, not, ◌&&◌, arith}
use rpsl.Types.AddrFamily.{Afi, afi_unspecified, afi_v4, afi_v6, afi_any}
use rpsl.Types.LenMask.{empty, window}
use rpsl.Types.LenMask.Laws.{has-window}
use rpsl.Types.Netip.{Prefix, IsPrefix, bit_of}
use rpsl.Types.SpaceNode.{SpaceNode, nil, node, is_nil, in_node}
use rpsl.Types.SpaceNode.Unique.{nil_of_none}
use rpsl.Types.PrefixSpace.{PrefixSpace, full_space, is_empty, contains}
use rpsl.Types.PrefixSpace.Laws.{IsSpace, contains_lem, trie-members, SamePrefixes}

-- The families that an afi takes in: one of them, or both when it says none or any.
abbrev pub family_in : Afi → Bool → Bool
family_in afi_v4 is4 = is4
family_in afi_v6 is4 = not is4
family_in _ is4 = true

in_window :
    (width l : ℕ) (b : ℕ → Bool)
    → width ≤ 128
    → l ≤ width
    → in_node (node (window 0 width) nil nil) l b 0 ≡ true
unfolding in_node
in_window width l b p q = ground (arith, has-window 0 width l)

in_nil : (l : ℕ) (b : ℕ → Bool) (d : ℕ) → in_node nil l b d ≡ false
unfolding in_node
in_nil l b d = refl

-- `FullSpace` holds every valid prefix of its families, and no other.
pub contains-full_space :
    (afi : Afi) (p : Prefix)
    → IsPrefix p
    → contains (full_space afi) p ≡ (p.is_valid && family_in afi p.addr.is4)
unfolding full_space
contains-full_space afi_v4 p h = ground (
  arith,
  contains_lem (full_space afi_v4) p,
  in_nil p.len (bit_of p.addr) 0,
  in_window 32 p.len (bit_of p.addr),
  h.len_le,
)
contains-full_space afi_v6 p h = ground (
  arith,
  contains_lem (full_space afi_v6) p,
  in_nil p.len (bit_of p.addr) 0,
  in_window 128 p.len (bit_of p.addr),
  h.len_le,
)
contains-full_space afi_any p h = ground (
  arith,
  contains_lem (full_space afi_any) p,
  in_window 32 p.len (bit_of p.addr),
  in_window 128 p.len (bit_of p.addr),
  h.len_le,
)
contains-full_space afi_unspecified p h = ground (
  arith,
  contains_lem (full_space afi_unspecified) p,
  in_window 32 p.len (bit_of p.addr),
  in_window 128 p.len (bit_of p.addr),
  h.len_le,
)

is_nil_iff : (n : SpaceNode) → (is_nil n ≡ true) ↔ (n ≡ nil)
unfolding is_nil
is_nil_iff nil = (λ _. refl, λ _. refl)
is_nil_iff (node k c0 c1) = (λ h. cc, λ h. cc)

-- `IsEmpty` answers true exactly when a canonical space holds no prefix.
pub is_empty_iff :
    (s : PrefixSpace)
    → IsSpace s
    → (is_empty s ≡ true) ↔ ((p : Prefix) → IsPrefix p → contains s p ≡ false)
unfolding is_empty
is_empty_iff s h = (
  λ e p _. ground (
    arith,
    (is_nil_iff s.v4).0,
    (is_nil_iff s.v6).0,
    contains_lem s p,
    in_nil p.len (bit_of p.addr) 0,
  ),
  λ none. ground (
    arith,
    (is_nil_iff s.v4).1 (
        nil_of_none s.v4 0 32 empty h.canonical4 (omega arith)
          (λ l b p q. trie-members true s nothing (same none) l b p q ∙ in_nil l b 0)),
    (is_nil_iff s.v6).1 (
        nil_of_none s.v6 0 128 empty h.canonical6 (omega arith)
          (λ l b p q. trie-members false s nothing (same none) l b p q ∙ in_nil l b 0)),
  ),
)
  where
    nothing : PrefixSpace
    nothing = record { v4 = nil; v6 = nil }

    same : ((p : Prefix) → IsPrefix p → contains s p ≡ false) → SamePrefixes s nothing
    same none p k = none p k ∙ sym (unfold contains in_node in ground arith)
