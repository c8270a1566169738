-- ===== src/Types/PrefixRange/Laws.antt =====
-- The prefixes that ranges denote, and what building and intersecting ranges does to them.
use rpsl.Base.{
  ℕ, ◌%◌, ◌^◌, ◌≤◌, ◌≡◌, ◌↔◌, sym, ap, ◌∙◌, inl, inr, min, max, Bool, true, false, not, ◌&&◌, ◌||◌,
  Option, none, some, IsSome, ltb, leb, Bool-cases, arith, if◌then◌else◌,
}
use rpsl.Types.Netip.{
  Addr, Prefix, IsPrefix, bit_len, masked, prefix_contains, bit_of, bool_eq, agrees, bit_of-masked,
  agrees_congr, agrees_refl, agrees_at, agrees_comm, masked-IsPrefix, masked_fields,
}
use rpsl.Types.PrefixRange.{
  PrefixRange, contains, intersect, intersect_at, is_empty, new_prefix_range,
}

-- A range as the package builds them: its lengths are those of prefixes under its base, or it is
-- empty, as a host route with ^- is.
pub record IsRange (r : PrefixRange) : Type 0 where
  pub valid : r.prefix.is_valid ≡ true
  pub base : IsPrefix r.prefix
  pub from_base : r.prefix.len ≤ r.lo
  pub to_width : r.hi ≤ bit_len r.prefix.addr

-- `p` is a more specific of the base of `r`, or the base itself.
abbrev pub is_under : PrefixRange → Prefix → Bool
is_under r p =
    bool_eq r.prefix.addr.is4 p.addr.is4
    && agrees r.prefix.len 0 (bit_of r.prefix.addr) (bit_of p.addr)

-- A range denotes the valid prefixes under its base with a length in its window.
pub contains_lem :
    (r : PrefixRange) (p : Prefix)
    → IsRange r
    → contains r p ≡ (p.is_valid && (leb r.lo p.len && leb p.len r.hi) && is_under r p)
unfolding contains prefix_contains
contains_lem r p h = elim (Bool-cases (leb r.lo p.len)) [
  | inl e ↦ ground (
    arith,
    masked_fields p,
    agrees_congr r.prefix.len 0 (bit_of (masked p).addr) (bit_of p.addr) (bit_of r.prefix.addr)
        (λ i a b. bit_of-masked p i (ground (arith, h.from_base))),
  )
  | inr e ↦ ground (arith, masked_fields p)
]

abbrev pub option_contains : Option PrefixRange → Prefix → Bool
option_contains none p = false
option_contains (some r) p = contains r p

-- A range that is not empty denotes its base cut to the shortest length of its window.
abbrev pub base_at : PrefixRange → Prefix
base_at r = record (r.prefix) { len = r.lo }

pub contains-base_at :
    (r : PrefixRange)
    → IsRange r
    → r.lo ≤ r.hi
    → IsPrefix (base_at r) × (contains r (base_at r) ≡ true)
contains-base_at r h full = (
  record { all_bits = h.base.all_bits; len_le = omega (arith, h.to_width) },
  ground (
    arith,
    h.valid,
    contains_lem r (base_at r) h,
    agrees_refl r.prefix.len 0 (bit_of r.prefix.addr),
  ),
)

-- A result, where there is one, is a range that is not empty.
abbrev pub IsFull : Option PrefixRange → Type 0
IsFull none = Unit
IsFull (some r) = IsRange r × (r.lo ≤ r.hi)

-- Where such a result is there, it denotes a prefix.
pub contains-of_IsFull :
    (o : Option PrefixRange)
    → IsFull o
    → IsSome o
    → (q : Prefix) × IsPrefix q × (option_contains o q ≡ true)
contains-of_IsFull none h x = elim x [ ]
contains-of_IsFull (some r) (h, full) x =
    let (p, c) = contains-base_at r h full in (base_at r, p, c)

pub IsSome-contains : (o : Option PrefixRange) (q : Prefix) → option_contains o q ≡ true → IsSome o
IsSome-contains none q h = cc h
IsSome-contains (some r) q h = tt

-- `a` is the base of `w` or under it.
abbrev base_under : PrefixRange → PrefixRange → Bool
base_under w a =
    bool_eq w.prefix.addr.is4 a.prefix.addr.is4
    && agrees w.prefix.len 0 (bit_of w.prefix.addr) (bit_of a.prefix.addr)

-- A prefix under two bases is under the narrower, which is then under the wider.
is_under_both :
    (w a : PrefixRange) (p : Prefix)
    → w.prefix.len ≤ a.prefix.len
    → (is_under w p && is_under a p) ≡ (base_under w a && is_under a p)
is_under_both w a p h =
    elim (Bool-cases (agrees a.prefix.len 0 (bit_of a.prefix.addr) (bit_of p.addr))) [
      | inl e ↦ ground (
        arith,
        agrees_congr w.prefix.len 0 (bit_of a.prefix.addr) (bit_of p.addr) (bit_of w.prefix.addr)
            (λ i x y.
              agrees_at a.prefix.len 0 i (bit_of a.prefix.addr) (bit_of p.addr) e x (omega arith)),
      )
      | inr e ↦ ground arith
    ]

-- The result of `Intersect`, given the base and that the other one holds it.
abbrev meet : PrefixRange → PrefixRange → Prefix → PrefixRange
meet r s base = record {
  prefix = base;
  lo = max (max r.lo s.lo) base.len % 2 ^ 8;
  hi = min r.hi s.hi % 2 ^ 8;
}

pub bit_len_le : (a : Addr) → bit_len a ≤ 128
bit_len_le a = ground arith

meet-IsRange :
    (r s : PrefixRange) (base : Prefix)
    → base.is_valid ≡ true
    → IsPrefix base
    → max (max r.lo s.lo) base.len ≤ min r.hi s.hi
    → min r.hi s.hi ≤ bit_len base.addr
    → IsRange (meet r s base)
meet-IsRange r s base v b p q = record {
  valid = v;
  base = b;
  from_base = omega (arith, bit_len_le base.addr);
  to_width = omega arith;
}

module _ (r s : PrefixRange) (p : Prefix) (hr : IsRange r) (hs : IsRange s) where
  open hr use {valid as r_valid, base as r_base, to_width as r_width}
  open hs use {valid as s_valid, base as s_base, to_width as s_width}

  at_second :
      r.prefix.len ≤ s.prefix.len
      → option_contains (intersect_at r s s.prefix) p ≡ (contains r p && contains s p)
  unfolding intersect_at prefix_contains
  at_second e = elim (Bool-cases (ltb (min r.hi s.hi) (max (max r.lo s.lo) s.prefix.len))) [
    | inl none_left ↦ ground (
      arith,
      contains_lem r p hr,
      contains_lem s p hs,
      hs.from_base,
      agrees_refl s.prefix.len 0 (bit_of s.prefix.addr),
    )
    | inr some_left ↦ ground (
      arith,
      contains_lem r p hr,
      contains_lem s p hs,
      hs.from_base,
      agrees_refl s.prefix.len 0 (bit_of s.prefix.addr),
      is_under_both r s p e,
      contains_lem (meet r s s.prefix) p
          (meet-IsRange r s s.prefix s_valid s_base (ground arith) (omega arith)),
      bit_len_le s.prefix.addr,
    )
  ]

  at_first :
      s.prefix.len ≤ r.prefix.len
      → option_contains (intersect_at r s r.prefix) p ≡ (contains r p && contains s p)
  unfolding intersect_at prefix_contains
  at_first e = elim (Bool-cases (ltb (min r.hi s.hi) (max (max r.lo s.lo) r.prefix.len))) [
    | inl none_left ↦ ground (
      arith,
      contains_lem r p hr,
      contains_lem s p hs,
      hr.from_base,
      agrees_refl r.prefix.len 0 (bit_of r.prefix.addr),
    )
    | inr some_left ↦ ground (
      arith,
      contains_lem r p hr,
      contains_lem s p hs,
      hr.from_base,
      agrees_refl r.prefix.len 0 (bit_of r.prefix.addr),
      is_under_both s r p e,
      contains_lem (meet r s r.prefix) p
          (meet-IsRange r s r.prefix r_valid r_base (ground arith) (omega arith)),
      bit_len_le r.prefix.addr,
    )
  ]

  intersect-contains_at : option_contains (intersect r s) p ≡ (contains r p && contains s p)
  unfolding intersect
  intersect-contains_at = elim (Bool-cases (is_empty r || is_empty s)) [
    | inl e ↦ rw e (unfold is_empty in ground (arith, contains_lem r p hr, contains_lem s p hs))
    | inr e ↦ rw e (elim (Bool-cases (ltb r.prefix.len s.prefix.len)) [
      | inl f ↦ rw f (at_second (ground arith))
      | inr f ↦ rw f (at_first (ground arith))
    ])
  ]

  intersect_at-IsFull :
      (base : Prefix)
      → base.is_valid ≡ true
      → IsPrefix base
      → min r.hi s.hi ≤ bit_len base.addr
      → IsFull (intersect_at r s base)
  unfolding intersect_at
  intersect_at-IsFull base v b w =
      elim (Bool-cases
        (not (prefix_contains r.prefix base.addr) || not (prefix_contains s.prefix base.addr))) [
          | inl e ↦ rw e tt
          | inr e ↦ rw e (elim (Bool-cases (ltb (min r.hi s.hi) (max (max r.lo s.lo) base.len))) [
            | inl d ↦ rw d tt
            | inr d ↦ rw d (
              meet-IsRange r s base v b (ground (arith, d)) w,
              ground (arith, d, bit_len_le base.addr),
            )
          ])
        ]

  intersect-IsFull : IsFull (intersect r s)
  unfolding intersect
  intersect-IsFull = elim (Bool-cases (is_empty r || is_empty s)) [
    | inl e ↦ rw e tt
    | inr e ↦ rw e (elim (Bool-cases (ltb r.prefix.len s.prefix.len)) [
      | inl f ↦ rw f (intersect_at-IsFull s.prefix s_valid s_base (omega arith))
      | inr f ↦ rw f (intersect_at-IsFull r.prefix r_valid r_base (omega arith))
    ])
  ]

both_true : (a b : Bool) → ((a && b) ≡ true) ↔ ((a ≡ true) × (b ≡ true))
both_true a b = ground arith

-- A prefix that both ranges denote.
abbrev pub Shared : PrefixRange → PrefixRange → Type 0
Shared r s = (q : Prefix) × IsPrefix q × (contains r q ≡ true) × (contains s q ≡ true)

-- `Intersect` denotes exactly the prefixes that both ranges denote, and is ok exactly where there is
-- such a prefix.
pub intersect-contains :
    (r s : PrefixRange) (p : Prefix)
    → IsRange r
    → IsRange s
    → (option_contains (intersect r s) p ≡ (contains r p && contains s p))
      × (IsSome (intersect r s) ↔ Shared r s)
intersect-contains r s p hr hs = (
  intersect-contains_at r s p hr hs,
  (
    λ x.
        let (q, h, c) = contains-of_IsFull (intersect r s) (intersect-IsFull r s p hr hs) x in
        let (in_r, in_s) =
          (both_true (contains r q) (contains s q)).0
            (sym (intersect-contains_at r s q hr hs) ∙ c) in
        (q, h, in_r, in_s),
    λ (q, h, in_r, in_s). IsSome-contains (intersect r s) q (
        intersect-contains_at r s q hr hs
        ∙ (both_true (contains r q) (contains s q)).1 (in_r, in_s)),
  ),
)

agrees-masked :
    (p : Prefix) (b : ℕ → Bool)
    → agrees p.len 0 (bit_of (masked p).addr) b ≡ agrees p.len 0 (bit_of p.addr) b
agrees-masked p b =
    agrees_comm p.len 0 (bit_of (masked p).addr) b
    ∙ agrees_congr p.len 0 (bit_of (masked p).addr) (bit_of p.addr) b
        (λ i x y. bit_of-masked p i (omega arith))
    ∙ agrees_comm p.len 0 b (bit_of p.addr)

-- The range of `NewPrefixRange` where its window is not empty.
abbrev clamped : Prefix → ℕ → ℕ → PrefixRange
clamped p lo hi = record {
  prefix = masked p;
  lo = max lo p.len % 2 ^ 8;
  hi = min hi (bit_len p.addr) % 2 ^ 8;
}

clamped-IsRange :
    (p : Prefix) (lo hi : ℕ)
    → p.is_valid ≡ true
    → IsPrefix p
    → max lo p.len ≤ min hi (bit_len p.addr)
    → IsRange (clamped p lo hi)
clamped-IsRange p lo hi v h q = record {
  valid = unfold masked in v;
  base = masked-IsPrefix p h;
  from_base = unfold masked in omega (arith, bit_len_le p.addr);
  to_width = unfold masked in omega (arith, bit_len_le p.addr);
}

-- A length in the window that is no shorter than `p`, of a prefix under `p`.
abbrev pub in_window : Prefix → ℕ → ℕ → Prefix → Bool
in_window p lo hi q =
    q.is_valid && (leb lo q.len && leb q.len hi) && (leb p.len q.len && prefix_contains p q.addr)

module _ (p : Prefix) (lo hi : ℕ) (v : p.is_valid ≡ true) (hp : IsPrefix p) where
  pub option_contains-new_prefix_range :
      (q : Prefix) → IsPrefix q → option_contains (new_prefix_range p lo hi) q ≡ in_window p lo hi q
  unfolding new_prefix_range prefix_contains
  option_contains-new_prefix_range q hq =
      elim (Bool-cases (ltb (min hi (bit_len p.addr)) (max lo p.len))) [
        | inl e ↦ ground (arith, masked_fields p, hq.len_le)
        | inr e ↦ ground (
          arith,
          masked_fields p,
          hq.len_le,
          bit_len_le p.addr,
          agrees-masked p (bit_of q.addr),
          contains_lem (clamped p lo hi) q (clamped-IsRange p lo hi v hp (ground arith)),
        )
      ]

  abbrev windowed : Option PrefixRange
  windowed = if ltb (min hi (bit_len p.addr)) (max lo p.len) then none else some (clamped p lo hi)

  new_prefix_range-windowed : new_prefix_range p lo hi ≡ windowed
  unfolding new_prefix_range masked
  new_prefix_range-windowed = ap (λ b. if not b then none else windowed) v

  pub new_prefix_range-IsFull : IsFull (new_prefix_range p lo hi)
  new_prefix_range-IsFull =
      rw new_prefix_range-windowed
        (elim (Bool-cases (ltb (min hi (bit_len p.addr)) (max lo p.len))) [
          | inl e ↦ rw e tt
          | inr e ↦ rw e (
            clamped-IsRange p lo hi v hp (ground (arith, e)),
            ground (arith, e, bit_len_le p.addr),
          )
        ])

  -- `NewPrefixRange` denotes the valid prefixes under `p` whose length is in the given window, and is
  -- ok exactly where there is such a prefix: the clamping to the length of `p` and to its family loses
  -- nothing.
  pub new_prefix_range-contains :
      (q : Prefix)
      → IsPrefix q
      → (option_contains (new_prefix_range p lo hi) q ≡ in_window p lo hi q)
        × (IsSome (new_prefix_range p lo hi)
            ↔ ((x : Prefix) × IsPrefix x × (in_window p lo hi x ≡ true)))
  new_prefix_range-contains q hq = (
    option_contains-new_prefix_range q hq,
    (
      λ x.
          let (y, h, c) = contains-of_IsFull (new_prefix_range p lo hi) new_prefix_range-IsFull x in
          (y, h, sym (option_contains-new_prefix_range y h) ∙ c),
      λ (y, h, c).
          IsSome-contains (new_prefix_range p lo hi) y (option_contains-new_prefix_range y h ∙ c),
    ),
  )
