-- ===== src/Resolve/Rpki/Scan.antt =====
-- The loop of `Validate`: what it answers, as tests on the grants of all lengths.
use rpsl.Base.{
  any, ℕ, zero, suc, ◌+◌, ◌≤◌, ◌≡◌, refl, sym, ap, ◌∙◌, Bool, true, false, not, ◌&&◌, ◌||◌,
  Bool-cases, List, [], ◌∷◌, Option, none, some, ◌==◌, leb, if◌then◌else◌, arith, inl, inr,
}
use rpsl.Types.Netip.{Prefix, masked}
use rpsl.Types.LenMask.{has}
use rpsl.Resolve.Rpki.{Grant, Family, State, not_found, valid, invalid, find, scan, scan_grants}

-- The origin and the length are what a payload allows.
abbrev pub allows : ℕ → ℕ → ℕ → ℕ → Bool
allows asn max_length origin len = not (asn == 0) && asn == origin && leb len max_length

abbrev pub any_from : ℕ → ℕ → (ℕ → Bool) → Bool
any_from l zero h = false
any_from l (suc n) h = h l || any_from (l + 1) n h

-- The state that two tests make: whether the route is allowed, and whether it is covered.
abbrev pub state : Bool → Bool → State
state a c = if a then valid else if c then invalid else not_found

abbrev pub present : Grant → Bool
present g = true

pub or_true : (c : Bool) → (c || true) ≡ true
or_true true = refl
or_true false = refl

pub or_false : (c : Bool) → (c || false) ≡ c
or_false true = refl
or_false false = refl

or_assoc : (a b c : Bool) → (a || b || c) ≡ (a || (b || c))
or_assoc true b c = refl
or_assoc false b c = refl

module _ (origin len : ℕ) where
  abbrev pub ok : Grant → Bool
  ok g = allows g.asn g.max_length origin len

  abbrev seen : Bool → Bool → Option Bool
  seen a c = if a then none else some c

  scan_grants-any :
      (gs : List Grant) (c : Bool)
      → scan_grants gs origin len c ≡ seen (any ok gs) (c || any present gs)
  unfolding scan_grants
  scan_grants-any [] c = ap some (sym (or_false c))
  scan_grants-any (g ∷ gs) c = of (ok g) (scan_grants-any gs true)
    where
      of :
          (a : Bool)
          → scan_grants gs origin len true ≡ seen (any ok gs) true
          → elim a [ true ↦ none | false ↦ scan_grants gs origin len true ]
            ≡ seen (a || any ok gs) (c || true)
      of true h = refl
      of false h = h ∙ ap (seen (any ok gs)) (sym (or_true c))

module _ (f : Family) (p : Prefix) (origin : ℕ) where
  abbrev pub at : ℕ → List Grant
  at l = find f.by_prefix (masked (record p { len = l }))

  abbrev next : ℕ → ℕ → Option Bool → State
  next n l x = elim x [ none ↦ valid | some c ↦ scan f p origin n (l + 1) c ]

  scan_skip :
      (n l : ℕ) (c : Bool)
      → has f.lengths l ≡ false
      → scan f p origin (suc n) l c ≡ scan f p origin n (l + 1) c
  unfolding scan
  scan_skip n l c e = rw (scan, e) refl

  scan_take :
      (n l : ℕ) (c : Bool)
      → has f.lengths l ≡ true
      → scan f p origin (suc n) l c ≡ next n l (scan_grants (at l) origin p.len c)
  unfolding scan
  scan_take n l c e = rw (scan, e) refl

  abbrev pub allowed : ℕ → Bool
  allowed l = any (ok origin p.len) (at l)

  abbrev pub held_at : ℕ → Bool
  held_at l = any present (at l)

  pub scan-any :
      ((l : ℕ) → l ≤ p.len → has f.lengths l ≡ false → at l ≡ [])
      → (n l : ℕ) (c : Bool) → l + n ≤ p.len + 1
      → scan f p origin n l c ≡ state (any_from l n allowed) (c || any_from l n held_at)
  unfolding scan
  scan-any h zero l c w = ap (state false) (sym (or_false c))
  scan-any h (suc n) l c w = elim (Bool-cases (has f.lengths l)) [
    | inl e ↦
        scan_take n l c e
        ∙ ap (next n l) (scan_grants-any origin p.len (at l) c)
        ∙ taken (allowed l) (scan-any h n (l + 1) (c || held_at l) (omega arith))
    | inr e ↦
        scan_skip n l c e
        ∙ scan-any h n (l + 1) c (omega arith)
        ∙ sym (
            ap
              (λ gs.
                state (any (ok origin p.len) gs || any_from (l + 1) n allowed)
                  (c || (any present gs || any_from (l + 1) n held_at)))
              (h l (omega arith) e))
  ]
    where
      taken :
          (a : Bool)
          → scan f p origin n (l + 1) (c || held_at l)
            ≡ state (any_from (l + 1) n allowed) (c || held_at l || any_from (l + 1) n held_at)
          → next n l (seen origin p.len a (c || held_at l))
            ≡ state
                (a || any_from (l + 1) n allowed)
                (c || (held_at l || any_from (l + 1) n held_at))
      taken true k = refl
      taken false k =
          k
          ∙ ap (state (any_from (l + 1) n allowed))
              (or_assoc c (held_at l) (any_from (l + 1) n held_at))
