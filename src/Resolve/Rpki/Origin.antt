-- ===== src/Resolve/Rpki/Origin.antt =====
-- The validation of a route's origin against RFC 6811 §2, which speaks of the list of VRPs.
use rpsl.Base.{
  any, ℕ, zero, suc, ◌+◌, ◌≤◌, ◌<◌, ◌≡◌, refl, sym, ap, ap₂, ◌∙◌, Bool, true, false, not, ◌&&◌,
  ◌||◌, Bool-cases, List, [], ◌∷◌, some, ◌==◌, ==_iff, ltb, leb, if◌then◌else◌, arith, inl, inr,
}
use rpsl.Types.Netip.{Prefix, IsPrefix, bit_len, masked, prefix_contains}
use rpsl.Types.Netip.Equality.{prefix_eq, prefix_eq-masked, prefix_eq-true}
use rpsl.Types.LenMask.{has}
use rpsl.Resolve.Rpki.{
  Vrp, Vrps, Grant, State, not_found, valid, invalid, fam, scan, validate, new_vrps,
}
use rpsl.Resolve.Rpki.Index.{grant, grants_of}
use rpsl.Resolve.Rpki.Built.{IsVrp, AllVrp, new_vrps-AllVrp, held-new_vrps, none-new_vrps}
use rpsl.Resolve.Rpki.Scan.{allows, any_from, state, present, ok, at, scan-any}

-- A VRP covers a route's prefix that is its own or a more specific one.
abbrev pub covers : Vrp → Prefix → Bool
covers v p = leb v.prefix.len p.len && prefix_contains v.prefix p.addr

-- The state of RFC 6811: valid where a VRP that covers the prefix allows the route, invalid where one
-- covers it and none allows it, and not found where none covers it.
abbrev pub state_of : List Vrp → Prefix → ℕ → State
state_of vs p origin =
    if any (λ (v : Vrp). covers v p && allows v.asn v.max_length origin p.len) vs
    then valid
    else if any (λ (v : Vrp). covers v p) vs
    then invalid
    else not_found

any_from-false : (n l : ℕ) → any_from l n (λ i. false) ≡ false
any_from-false zero l = refl
any_from-false (suc n) l = any_from-false n (l + 1)

any_from_or :
    (n l : ℕ) (g h : ℕ → Bool) → any_from l n (λ i. g i || h i) ≡ (any_from l n g || any_from l n h)
any_from_or zero l g h = refl
any_from_or (suc n) l g h = ground (arith, any_from_or n (l + 1) g h)

any_from_congr :
    (n l : ℕ) (g h : ℕ → Bool) → ((i : ℕ) → g i ≡ h i) → any_from l n g ≡ any_from l n h
any_from_congr zero l g h e = refl
any_from_congr (suc n) l g h e = ap₂ ◌||◌ (e l) (any_from_congr n (l + 1) g h e)

-- A test that only one length can meet.
any_from_one :
    (n l k : ℕ) (h : ℕ → Bool)
    → ((i : ℕ) → h i ≡ true → i ≡ k)
    → any_from l n h ≡ (leb l k && ltb k (l + n) && h k)
any_from_one zero l k h u = ground arith
any_from_one (suc n) l k h u = elim (Bool-cases (l == k)) [
  | inl e ↦
      let same : h l ≡ h k = ap h ((==_iff l k).0 e) in
      ground (arith, any_from_one n (l + 1) k h u, same)
  | inr e ↦ elim (Bool-cases (h l)) [
    | inl t ↦ absurd (ground (arith, u l t))
    | inr t ↦ ground (arith, any_from_one n (l + 1) k h u, t)
  ]
]

any-grants_of :
    (vs : List Vrp) (q : Prefix) (w : Grant → Bool)
    → any w (grants_of q vs) ≡ any (λ (v : Vrp). prefix_eq v.prefix q && w (grant v)) vs
any-grants_of [] q w = refl
any-grants_of (v ∷ vs) q w = of (prefix_eq v.prefix q) (any-grants_of vs q w)
  where
    of :
        (b : Bool)
        → any w (grants_of q vs) ≡ any (λ (v : Vrp). prefix_eq v.prefix q && w (grant v)) vs
        → any w (if b then grant v ∷ grants_of q vs else grants_of q vs)
          ≡ (b && w (grant v) || any (λ (v : Vrp). prefix_eq v.prefix q && w (grant v)) vs)
    of true e = ap (λ x. w (grant v) || x) e
    of false e = e

any_and_true : (f : Vrp → Bool) (vs : List Vrp) → any (λ v. f v && true) vs ≡ any f vs
any_and_true f [] = refl
any_and_true f (v ∷ vs) = ground (arith, any_and_true f vs)

-- The prefixes of VRPs as net/netip makes them.
abbrev pub AllPrefix : List Vrp → Type 0
AllPrefix [] = Unit
AllPrefix (v ∷ vs) = IsPrefix v.prefix × AllPrefix vs

module _ (p : Prefix) (hp : IsPrefix p) (wp : p.is_valid ≡ true) where
  abbrev cut : ℕ → Prefix
  cut l = masked (record p { len = l })

  length_of : (q : Prefix) (l : ℕ) → prefix_eq q (cut l) ≡ true → l ≡ q.len
  unfolding masked
  length_of q l e = sym (ap (λ (x : Prefix). x.len) (prefix_eq-true q (cut l) e))

  any_from-covers :
      (v : Vrp) (b : Bool)
      → IsPrefix v.prefix
      → IsVrp v
      → any_from 0 (p.len + 1) (λ l. prefix_eq v.prefix (cut l) && b) ≡ (covers v p && b)
  unfolding prefix_contains
  any_from-covers v b hv h =
      any_from_one (p.len + 1) 0 v.prefix.len (λ l. prefix_eq v.prefix (cut l) && b)
        (λ l t. length_of v.prefix l (ground (arith, t)))
      ∙ ground (arith, h.valid, prefix_eq-masked v.prefix p hv hp h.valid wp h.no_host_bits)

  any_from-grants_of :
      (vs : List Vrp) (w : Grant → Bool)
      → AllPrefix vs
      → AllVrp vs
      → any_from 0
          (p.len + 1)
          (λ l. any (λ (v : Vrp). prefix_eq v.prefix (cut l) && w (grant v)) vs)
        ≡ any (λ (v : Vrp). covers v p && w (grant v)) vs
  any_from-grants_of [] w hv h = any_from-false (p.len + 1) 0
  any_from-grants_of (v ∷ vs) w hv h =
      any_from_or (p.len + 1) 0 (λ l. prefix_eq v.prefix (cut l) && w (grant v))
        (λ l. any (λ (v : Vrp). prefix_eq v.prefix (cut l) && w (grant v)) vs)
      ∙ ap₂ ◌||◌ (any_from-covers v (w (grant v)) hv.0 h.0) (any_from-grants_of vs w hv.1 h.1)

  module _ (vs : List Vrp) (t : Vrps) (built : new_vrps vs ≡ some t) where
    at-grants_of : (l : ℕ) → at (fam t p) p 0 l ≡ grants_of (cut l) vs
    unfolding masked fam
    at-grants_of l = held-new_vrps vs t (cut l) built

    at-none : (l : ℕ) → l ≤ p.len → has (fam t p).lengths l ≡ false → at (fam t p) p 0 l ≡ []
    unfolding masked fam
    at-none l h e = none-new_vrps vs t (cut l) built (width_lt (omega arith)) e
      where
        width_lt : l ≤ bit_len p.addr → l < 192
        width_lt k = ground arith

    any_from-at :
        (w : Grant → Bool)
        → AllPrefix vs
        → any_from 0 (p.len + 1) (λ l. any w (at (fam t p) p 0 l))
          ≡ any (λ (v : Vrp). covers v p && w (grant v)) vs
    any_from-at w hv =
        any_from_congr (p.len + 1) 0 (λ l. any w (at (fam t p) p 0 l))
          (λ l. any (λ (v : Vrp). prefix_eq v.prefix (cut l) && w (grant v)) vs)
          (λ l. ap (any w) (at-grants_of l) ∙ any-grants_of vs (cut l) w)
        ∙ any_from-grants_of vs w hv ((new_vrps-AllVrp vs).0 (t, built))

    scan-state_of :
        (origin : ℕ)
        → AllPrefix vs
        → scan (fam t p) p origin (p.len + 1) 0 false ≡ state_of vs p origin
    scan-state_of origin hv =
        scan-any (fam t p) p origin at-none (p.len + 1) 0 false (omega arith)
        ∙ ap₂ state (any_from-at (ok origin p.len) hv)
            (any_from-at present hv ∙ any_and_true (λ (v : Vrp). covers v p) vs)

-- `Validate` of an index that `NewVRPs` built of well-formed prefixes is the state that RFC 6811 gives
-- a route's prefix and origin over the list of VRPs; without a prefix it is not found.
pub validate-new_vrps :
    (vs : List Vrp) (t : Vrps) (p : Prefix) (origin : ℕ)
    → new_vrps vs ≡ some t
    → AllPrefix vs
    → IsPrefix p
    → validate (some t) p origin ≡ (if p.is_valid then state_of vs p origin else not_found)
unfolding validate
validate-new_vrps vs t p origin built hv hp = of p.is_valid refl
  where
    of :
        (b : Bool)
        → p.is_valid ≡ b
        → (if not b then not_found else scan (fam t p) p origin (p.len + 1) 0 false)
          ≡ (if b then state_of vs p origin else not_found)
    of true w = scan-state_of p hp w vs t built origin hv
    of false w = refl
