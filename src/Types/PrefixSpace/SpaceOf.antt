-- ===== src/Types/PrefixSpace/SpaceOf.antt =====
-- `SpaceOf` and `FullSpace` build the spaces that they describe, and `IsEmpty` is exact.
use rpsl.Base.{
  ℕ, ◌≤◌, ◌<◌, ◌≡◌, refl, ◌∙◌, inl, inr, max, Bool, true, false, ◌&&◌, ◌||◌, List, [], ◌∷◌, leb,
  Bool-cases, arith,
}
use rpsl.Types.LenMask.{LenMask, has, empty, window}
use rpsl.Types.LenMask.Laws.{has-empty, has-window, window-IsMask}
use rpsl.Types.Netip.{Addr, Prefix, IsPrefix, bit_at_lem, bit_of, agrees, agrees_congr, agrees_comm}
use rpsl.Types.PrefixRange
use rpsl.Types.PrefixRange.{PrefixRange}
use rpsl.Types.PrefixRange.Laws.{IsRange, contains_lem as range_contains_lem, bit_len_le}
use rpsl.Types.SpaceNode.{SpaceNode, nil, in_node, normalize}
use rpsl.Types.SpaceNode.Insert.{insert_at, insert_at-in_node, insert_at-IsRaw}
use rpsl.Types.SpaceNode.Normalize.{normalize-in_node}
use rpsl.Types.SpaceNode.CanonicalMerge.{IsRaw, normalize-IsCanonical}
use rpsl.Types.PrefixSpace.{PrefixSpace, addr_bit, add_range, raw_of, space_of, contains}
use rpsl.Types.PrefixSpace.Laws.{IsSpace, trie, contains_lem}

abbrev pub AllRanges : List PrefixRange → Type 0
AllRanges [] = Unit
AllRanges (r ∷ rs) = IsRange r × AllRanges rs

abbrev pub any_contains : List PrefixRange → Prefix → Bool
any_contains [] p = false
any_contains (r ∷ rs) p = PrefixRange.contains r p || any_contains rs p

in_trie : PrefixSpace → Prefix → Bool
in_trie s p = in_node (trie s p) p.len (bit_of p.addr) 0

addr_bit-agrees :
    (a : Addr) (n : ℕ) (b : ℕ → Bool) → agrees n 0 (addr_bit a) b ≡ agrees n 0 (bit_of a) b
addr_bit-agrees a n b =
    agrees_comm n 0 (addr_bit a) b
    ∙ agrees_congr n 0 (addr_bit a) (bit_of a) b (λ i _ _. bit_at_lem a i)
    ∙ agrees_comm n 0 b (bit_of a)

abbrev lengths_of : PrefixRange → LenMask
lengths_of r = window (max r.lo r.prefix.len) r.hi

module _ (r : PrefixRange) (h : IsRange r) (nonempty : r.lo ≤ r.hi) where
  has-lengths_of : (l : ℕ) → l < 192 → has (lengths_of r) l ≡ (leb r.lo l && leb l r.hi)
  has-lengths_of l q = ground (
    arith,
    h.from_base,
    h.to_width,
    bit_len_le r.prefix.addr,
    has-window (max r.lo r.prefix.len) r.hi l,
  )

  in_node-range :
      (n : SpaceNode) (p : Prefix)
      → IsPrefix p
      → in_node
          (insert_at r.prefix.len n (addr_bit r.prefix.addr) 0 (lengths_of r))
          p.len
          (bit_of p.addr)
          0
        ≡ (in_node n p.len (bit_of p.addr) 0
            || agrees r.prefix.len 0 (bit_of r.prefix.addr) (bit_of p.addr)
              && (leb r.lo p.len && leb p.len r.hi))
  in_node-range n p hp =
      insert_at-in_node r.prefix.len n (addr_bit r.prefix.addr) 0 (lengths_of r) p.len
        (bit_of p.addr)
        (λ e.
          ground (
            arith,
            has-lengths_of p.len (omega (arith, hp.len_le, bit_len_le p.addr)),
            h.from_base,
          ))
      ∙ ground (
        arith,
        addr_bit-agrees r.prefix.addr r.prefix.len (bit_of p.addr),
        has-lengths_of p.len (omega (arith, hp.len_le, bit_len_le p.addr)),
      )

in_trie-add_range :
    (raw : PrefixSpace) (r : PrefixRange) (p : Prefix)
    → IsRange r
    → IsPrefix p
    → p.is_valid ≡ true
    → in_trie (add_range raw r) p ≡ (in_trie raw p || PrefixRange.contains r p)
unfolding in_trie add_range
in_trie-add_range raw r p h hp v = elim (Bool-cases (PrefixRange.is_empty r)) [
  | inl e ↦ rw e (unfold PrefixRange.is_empty in ground (arith, h.valid, range_contains_lem r p h))
  | inr e ↦ rw e (
      let nonempty : r.lo ≤ r.hi = unfold PrefixRange.is_empty in ground arith in
      ground (
        arith,
        range_contains_lem r p h,
        in_node-range r h nonempty raw.v4 p hp,
        in_node-range r h nonempty raw.v6 p hp,
      ))
]

in_trie-raw_of :
    (rs : List PrefixRange) (raw : PrefixSpace) (p : Prefix)
    → AllRanges rs
    → IsPrefix p
    → p.is_valid ≡ true
    → in_trie (raw_of raw rs) p ≡ (in_trie raw p || any_contains rs p)
unfolding raw_of
in_trie-raw_of [] raw p h hp v = ground arith
in_trie-raw_of (r ∷ rs) raw p h hp v =
    ground
      (arith, in_trie-raw_of rs (add_range raw r) p h.1 hp v, in_trie-add_range raw r p h.0 hp v)

record IsRawSpace (s : PrefixSpace) : Type 0 where
  raw4 : IsRaw s.v4 32
  raw6 : IsRaw s.v6 128

add_range-IsRawSpace :
    (raw : PrefixSpace) (r : PrefixRange)
    → IsRange r
    → IsRawSpace raw
    → IsRawSpace (add_range raw r)
unfolding add_range
add_range-IsRawSpace raw r h k = elim (Bool-cases (PrefixRange.is_empty r)) [
  | inl e ↦ rw e k
  | inr e ↦ rw e (elim (Bool-cases r.prefix.addr.is4) [
    | inl f ↦ simp f (record {
      raw4 =
          inserted raw.v4 32 (unfold PrefixRange.is_empty in ground arith)
            (ground (arith, h.to_width)) k.raw4;
      raw6 = k.raw6;
    })
    | inr f ↦ simp f (record {
      raw4 = k.raw4;
      raw6 =
          inserted raw.v6 128 (unfold PrefixRange.is_empty in ground arith)
            (ground (arith, h.to_width)) k.raw6;
    })
  ])
]
  where
    inserted :
        (n : SpaceNode) (width : ℕ)
        → r.lo ≤ r.hi
        → r.hi ≤ width
        → IsRaw n width
        → IsRaw (insert_at r.prefix.len n (addr_bit r.prefix.addr) 0 (lengths_of r)) width
    inserted n width q w k =
        insert_at-IsRaw r.prefix.len n (addr_bit r.prefix.addr) 0 (lengths_of r) width
          (window-IsMask (max r.lo r.prefix.len) r.hi)
          (λ l x y. ground (arith, has-lengths_of r h q l x)) k

raw_of-IsRawSpace :
    (rs : List PrefixRange) (raw : PrefixSpace)
    → AllRanges rs
    → IsRawSpace raw
    → IsRawSpace (raw_of raw rs)
unfolding raw_of
raw_of-IsRawSpace [] raw h k = k
raw_of-IsRawSpace (r ∷ rs) raw h k =
    raw_of-IsRawSpace rs (add_range raw r) h.1 (add_range-IsRawSpace raw r h.0 k)

abbrev nothing : PrefixSpace
nothing = record { v4 = nil; v6 = nil }

-- `SpaceOf` returns a canonical space.
pub space_of-IsSpace : (rs : List PrefixRange) → AllRanges rs → IsSpace (space_of rs)
unfolding space_of
space_of-IsSpace rs h =
    let raw = raw_of-IsRawSpace rs nothing h (record { raw4 = tt; raw6 = tt }) in
    record {
      canonical4 =
          normalize-IsCanonical (raw_of nothing rs).v4 0 32 empty (omega arith) (omega arith)
            raw.raw4;
      canonical6 =
          normalize-IsCanonical (raw_of nothing rs).v6 0 128 empty (omega arith) (omega arith)
            raw.raw6;
    }

in_node-normalize :
    (n : SpaceNode) (width l : ℕ) (b : ℕ → Bool)
    → l ≤ width
    → width ≤ 128
    → in_node (normalize n 0 width empty) l b 0 ≡ in_node n l b 0
in_node-normalize n width l b p q =
    ground (arith, has-empty l, normalize-in_node n 0 width empty l b (omega arith) p q)

any_contains_invalid :
    (rs : List PrefixRange) (p : Prefix)
    → AllRanges rs
    → p.is_valid ≡ false
    → any_contains rs p ≡ false
any_contains_invalid [] p h v = refl
any_contains_invalid (r ∷ rs) p h v =
    ground (arith, range_contains_lem r p h.0, any_contains_invalid rs p h.1 v)

in_trie-space_of :
    (rs : List PrefixRange) (p : Prefix)
    → IsPrefix p
    → in_node (trie (space_of rs) p) p.len (bit_of p.addr) 0 ≡ in_trie (raw_of nothing rs) p
unfolding space_of in_trie
in_trie-space_of rs p h = elim (Bool-cases p.addr.is4) [
  | inl e ↦ simp e (
      in_node-normalize (raw_of nothing rs).v4 32 p.len (bit_of p.addr) (ground (arith, h.len_le))
        (omega arith))
  | inr e ↦ simp e (
      in_node-normalize (raw_of nothing rs).v6 128 p.len (bit_of p.addr) (ground (arith, h.len_le))
        (omega arith))
]

in_trie-nothing : (p : Prefix) → in_trie nothing p ≡ false
unfolding in_trie in_node
in_trie-nothing p = ground arith

-- `SpaceOf` holds exactly the prefixes that some of its ranges denotes.
pub contains-space_of :
    (rs : List PrefixRange) (p : Prefix)
    → AllRanges rs
    → IsPrefix p
    → contains (space_of rs) p ≡ any_contains rs p
contains-space_of rs p h hp = elim (Bool-cases p.is_valid) [
  | inr v ↦ ground (arith, contains_lem (space_of rs) p, any_contains_invalid rs p h v)
  | inl v ↦ ground (
    arith,
    contains_lem (space_of rs) p,
    in_trie-space_of rs p hp,
    in_trie-raw_of rs nothing p h hp v,
    in_trie-nothing p,
  )
]
