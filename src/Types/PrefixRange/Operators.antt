-- ===== src/Types/PrefixRange/Operators.antt =====
-- What a range operator does to a range (RFC 2622 §2, §5.2), and the operator that spells a window.
use rpsl.Base.{
  ℕ, ◌+◌, ◌≤◌, ◌<◌, ◌≡◌, ◌↔◌, refl, ◌∙◌, min, max, Bool, true, false, ◌&&◌, Option, none, some,
  IsSome, leb, if◌then◌else◌, arith,
}
use rpsl.Types.Netip.{
  Prefix, IsPrefix, bit_len, masked, prefix_contains, bit_of, bool_eq, agrees, agrees_congr,
  agrees_refl, agrees_at,
}
use rpsl.Types.PrefixRange.{
  PrefixRange, RangeOp, range_exact, range_minus, range_plus, range_length, range_range,
  RangeOperator, op, apply, contains, new_prefix_range,
}
use rpsl.Types.PrefixRange.Laws.{
  IsRange, is_under, contains_lem, option_contains, option_contains-new_prefix_range, bit_len_le,
  IsFull, contains-of_IsFull, IsSome-contains, new_prefix_range-IsFull,
}

-- The lengths `l` that an operator selects of the more specifics of one prefix of length `k`.
abbrev pub Selects : RangeOperator → ℕ → ℕ → Type 0
Selects o k l = elim o.kind [
  | range_exact ↦ k ≡ l
  | range_plus ↦ k ≤ l
  | range_minus ↦ k < l
  | _ ↦ (k ≤ l) × (o.n ≤ l) × (l ≤ o.m)
]

-- `q` is `x` or a more specific of it.
abbrev pub prefix_under : Prefix → Prefix → Bool
prefix_under x q = bool_eq x.addr.is4 q.addr.is4 && agrees x.len 0 (bit_of x.addr) (bit_of q.addr)

module _ (r : PrefixRange) (q : Prefix) (hr : IsRange r) (hq : IsPrefix q) where
  -- The prefixes of `NewPrefixRange` on the base of `r`.
  window_contains :
      (lo hi : ℕ)
      → option_contains (new_prefix_range r.prefix lo hi) q
        ≡ (q.is_valid && (leb lo q.len && leb q.len hi) && (leb r.prefix.len q.len && is_under r q))
  window_contains lo hi =
      option_contains-new_prefix_range r.prefix lo hi hr.valid hr.base q hq
      ∙ unfold prefix_contains in ground (arith, hr.valid)

  -- The lengths left of a range after an operator.
  abbrev Window : RangeOp → ℕ → ℕ → ℕ → Type 0
  Window range_exact n m l = (r.lo ≤ l) × (l ≤ r.hi)
  Window range_plus n m l = r.lo ≤ l
  Window range_minus n m l = r.lo < l
  Window range_length n m l = (r.lo ≤ l) × (n ≤ l) × (l ≤ m)
  Window range_range n m l = (r.lo ≤ l) × (n ≤ l) × (l ≤ m)

  abbrev operator : RangeOp → ℕ → ℕ → RangeOperator
  operator k n m = record { kind = k; n = n; m = m }

  same_width : is_under r q ≡ true → q.len ≤ bit_len r.prefix.addr
  same_width h = ground (arith, hq.len_le)

  apply-Window :
      (k : RangeOp) (n m : ℕ)
      → (option_contains (apply (operator k n m) r) q ≡ true)
        ↔ ((q.is_valid ≡ true) × (is_under r q ≡ true) × Window k n m q.len)
  unfolding apply
  apply-Window range_exact n m = ground (arith, contains_lem r q hr)
  apply-Window range_plus n m = ground (
    arith,
    hr.valid,
    hr.from_base,
    same_width,
    window_contains (max r.lo r.lo) (min (bit_len r.prefix.addr) (bit_len r.prefix.addr)),
  )
  apply-Window range_minus n m = ground (
    arith,
    hr.valid,
    hr.from_base,
    same_width,
    window_contains (max (r.lo + 1) r.lo) (min (bit_len r.prefix.addr) (bit_len r.prefix.addr)),
  )
  apply-Window range_length n m = ground (
    arith,
    hr.valid,
    hr.from_base,
    same_width,
    window_contains (max n r.lo) (min m (bit_len r.prefix.addr)),
  )
  apply-Window range_range n m = ground (
    arith,
    hr.valid,
    hr.from_base,
    same_width,
    window_contains (max n r.lo) (min m (bit_len r.prefix.addr)),
  )

  -- `q` cut to the length `k`.
  abbrev cut : ℕ → Prefix
  cut k = record q { len = k }

  cut-in :
      r.lo ≤ r.hi
      → r.lo ≤ q.len
      → q.is_valid ≡ true
      → is_under r q ≡ true
      → (contains r (cut r.lo) ≡ true) × (prefix_under (cut r.lo) q ≡ true)
  cut-in h p v u = (
    ground (arith, contains_lem r (cut r.lo) hr),
    ground (arith, agrees_refl r.lo 0 (bit_of q.addr)),
  )

  -- More specifics of a prefix in the range stand under its base.
  is_under_inner :
      (x : Prefix)
      → contains r x ≡ true
      → prefix_under x q ≡ true
      → (r.lo ≤ x.len) × (x.len ≤ r.hi) × (is_under r q ≡ true)
  is_under_inner x c u =
      let facts : (r.lo ≤ x.len)
          × (x.len ≤ r.hi)
          × (is_under r x ≡ true)
          × (agrees x.len 0 (bit_of x.addr) (bit_of q.addr) ≡ true) =
        ground (arith, contains_lem r x hr) in
      (
        facts.0,
        facts.1,
        ground (
          arith,
          agrees_congr r.prefix.len 0 (bit_of x.addr) (bit_of q.addr) (bit_of r.prefix.addr)
              (λ i y z.
                agrees_at x.len 0 i (bit_of x.addr) (bit_of q.addr) facts.3 y
                  (omega (arith, hr.from_base))),
        ),
      )

  -- A prefix that some prefix of the range has among the more specifics an operator selects.
  abbrev pub Selected : RangeOperator → Type 0
  Selected o =
      (x : Prefix) × (contains r x ≡ true) × (prefix_under x q ≡ true) × Selects o x.len q.len

  to_selected :
      (k : RangeOp) (n m : ℕ)
      → r.lo ≤ r.hi
      → q.is_valid ≡ true
      → is_under r q ≡ true
      → Window k n m q.len
      → Selected (operator k n m)
  to_selected range_exact n m h v u w = (
    q,
    ground (arith, contains_lem r q hr),
    ground (arith, agrees_refl q.len 0 (bit_of q.addr)),
    refl,
  )
  to_selected range_plus n m h v u w = let c = cut-in h w v u in (cut r.lo, c.0, c.1, w)
  to_selected range_minus n m h v u w =
      let c = cut-in h (omega arith) v u in (cut r.lo, c.0, c.1, w)
  to_selected range_length n m h v u w = let c = cut-in h w.0 v u in (cut r.lo, c.0, c.1, w)
  to_selected range_range n m h v u w = let c = cut-in h w.0 v u in (cut r.lo, c.0, c.1, w)

  of_Selected :
      (k : RangeOp) (n m : ℕ)
      → Selected (operator k n m)
      → (is_under r q ≡ true) × Window k n m q.len
  of_Selected range_exact n m (x, c, u, s) = let i = is_under_inner x c u in (i.2, omega arith)
  of_Selected range_plus n m (x, c, u, s) = let i = is_under_inner x c u in (i.2, omega arith)
  of_Selected range_minus n m (x, c, u, s) = let i = is_under_inner x c u in (i.2, omega arith)
  of_Selected range_length n m (x, c, u, s) = let i = is_under_inner x c u in (i.2, omega arith)
  of_Selected range_range n m (x, c, u, s) = let i = is_under_inner x c u in (i.2, omega arith)

  apply-Selected_at :
      (o : RangeOperator)
      → r.lo ≤ r.hi
      → (option_contains (apply o r) q ≡ true) ↔ ((q.is_valid ≡ true) × Selected o)
  apply-Selected_at o h = (
    λ c.
        let (v, u, w) = (apply-Window o.kind o.n o.m).0 c in
        (v, to_selected o.kind o.n o.m h v u w),
    λ (v, s).
        let (u, w) = of_Selected o.kind o.n o.m s in (apply-Window o.kind o.n o.m).1 (v, u, w),
  )

if-IsFull :
    (b c : Bool) (o : Option PrefixRange)
    → IsFull o
    → IsFull (if b then none else if c then none else o)
if-IsFull true c o h = tt
if-IsFull false true o h = tt
if-IsFull false false o h = h

module _ (r : PrefixRange) (hr : IsRange r) (full : r.lo ≤ r.hi) where
  within :
      (b c : Bool) (lo hi : ℕ)
      → IsFull (if b then none else if c then none else new_prefix_range r.prefix lo hi)
  within b c lo hi =
      if-IsFull b c (new_prefix_range r.prefix lo hi)
        (new_prefix_range-IsFull r.prefix lo hi hr.valid hr.base)

  apply-IsFull : (k : RangeOp) (n m : ℕ) → IsFull (apply (record { kind = k; n = n; m = m }) r)
  unfolding apply
  apply-IsFull range_exact n m = (hr, full)
  apply-IsFull range_plus n m =
      within _ _ (max r.lo r.lo) (min (bit_len r.prefix.addr) (bit_len r.prefix.addr))
  apply-IsFull range_minus n m =
      within _ _ (max (r.lo + 1) r.lo) (min (bit_len r.prefix.addr) (bit_len r.prefix.addr))
  apply-IsFull range_length n m = within _ _ (max n r.lo) (min m (bit_len r.prefix.addr))
  apply-IsFull range_range n m = within _ _ (max n r.lo) (min m (bit_len r.prefix.addr))

  -- An operator over a range that is not empty denotes exactly the valid prefixes that it selects of
  -- the more specifics of some prefix of the range, and `Apply` is ok exactly where it selects one.
  pub apply-Selected :
      (o : RangeOperator) (q : Prefix) (hq : IsPrefix q)
      → ((option_contains (apply o r) q ≡ true) ↔ ((q.is_valid ≡ true) × Selected r q hr hq o))
        × (IsSome (apply o r)
            ↔ ((x : Prefix) × (hx : IsPrefix x) × (x.is_valid ≡ true) × Selected r x hr hx o))
  apply-Selected o q hq = (
    apply-Selected_at r q hr hq o full,
    (
      λ s.
          let (x, h, c) = contains-of_IsFull (apply o r) (apply-IsFull o.kind o.n o.m) s in
          let (v, z) = (apply-Selected_at r x hr h o full).0 c in (x, h, v, z),
      λ (x, h, v, z). IsSome-contains (apply o r) x ((apply-Selected_at r x hr h o full).1 (v, z)),
    ),
  )

pub new_prefix_range-eq :
    (r : PrefixRange) (lo hi : ℕ)
    → IsRange r
    → masked r.prefix ≡ r.prefix
    → r.prefix.len ≤ lo
    → lo ≤ hi
    → hi ≤ bit_len r.prefix.addr
    → new_prefix_range r.prefix lo hi ≡ some (record { prefix = r.prefix; lo = lo; hi = hi })
unfolding new_prefix_range
new_prefix_range-eq r lo hi h e p q w = ground (arith, h.valid, bit_len_le r.prefix.addr)

-- `Op` spells a window: the operator that it names, with the window's bounds, makes the range again
-- out of the base prefix alone. The range is not empty, and its base has no host bits.
pub apply-op :
    (r : PrefixRange)
    → IsRange r
    → r.lo ≤ r.hi
    → masked r.prefix ≡ r.prefix
    → apply
        (record { kind = op r; n = r.lo; m = r.hi })
        (record { prefix = r.prefix; lo = r.prefix.len; hi = r.prefix.len })
      ≡ some r
unfolding apply op
apply-op r h p e = ground (
  arith,
  h.valid,
  h.from_base,
  h.to_width,
  bit_len_le r.prefix.addr,
  new_prefix_range-eq r r.lo r.hi h e h.from_base p h.to_width,
)
