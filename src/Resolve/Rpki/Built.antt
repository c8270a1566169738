-- ===== src/Resolve/Rpki/Built.antt =====
-- The index that `NewVRPs` builds, and the lists that it refuses.
use mathlib.Core.List.{append-nil, append_assoc}
use rpsl.Base.{
  ◌≤◌, ◌<◌, ◌≡◌, ◌↔◌, refl, sym, ap, ◌∙◌, Bool, true, false, ◌&&◌, Bool-cases, List, [], ◌∷◌, ◌++◌,
  none, some, ◌==◌, if◌then◌else◌, arith, inl, inr,
}
use rpsl.Types.Netip.{Prefix, bit_len, masked, bool_eq}
use rpsl.Types.Netip.Equality.{prefix_eq, prefix_eq-true, prefix_eq_refl}
use rpsl.Types.LenMask.{has}
use rpsl.Resolve.Rpki.{
  Vrp, Vrps, check, fam, find, add_vrp, index_loop, index_vrps, new_vrps, no_family,
}
use rpsl.Resolve.Rpki.Index.{grant, grants_of, held, held-add_vrp, has-add_vrp}

-- A payload that RFC 6811 allows: a valid prefix without host bits, and a maximal length from its own
-- up to the width of its family.
pub record IsVrp (v : Vrp) : Type 0 where
  pub valid : v.prefix.is_valid ≡ true
  pub no_host_bits : masked v.prefix ≡ v.prefix
  pub from_prefix : v.prefix.len ≤ v.max_length
  pub to_width : v.max_length ≤ bit_len v.prefix.addr

abbrev pub AllVrp : List Vrp → Type 0
AllVrp [] = Unit
AllVrp (v ∷ vs) = IsVrp v × AllVrp vs

check-IsVrp : (v : Vrp) → check v ≡ true → IsVrp v
unfolding check
check-IsVrp v h = record {
  valid = ground (arith, h);
  no_host_bits = sym (prefix_eq-true v.prefix (masked v.prefix) (ground (arith, h)));
  from_prefix = ground (arith, h);
  to_width = ground (arith, h);
}

IsVrp-check : (v : Vrp) → IsVrp v → check v ≡ true
unfolding check
IsVrp-check v h =
    let same : prefix_eq v.prefix (masked v.prefix) ≡ true =
      ap (prefix_eq v.prefix) h.no_host_bits ∙ prefix_eq_refl v.prefix in
    ground (arith, same, h.valid, h.from_prefix, h.to_width)

loop_refused : (s : Vrps) (v : Vrp) (vs : List Vrp) → check v ≡ false → index_loop s (v ∷ vs) ≡ none
unfolding index_loop
loop_refused s v vs e = rw (index_loop, e) refl

loop_taken :
    (s : Vrps) (v : Vrp) (vs : List Vrp)
    → check v ≡ true
    → index_loop s (v ∷ vs) ≡ index_loop (add_vrp s v) vs
unfolding index_loop
loop_taken s v vs e = rw (index_loop, e) refl

-- The first VRP of a list that is indexed passed its check, and the rest is indexed after it.
loop_split :
    (s t : Vrps) (v : Vrp) (vs : List Vrp)
    → index_loop s (v ∷ vs) ≡ some t
    → (check v ≡ true) × (index_loop (add_vrp s v) vs ≡ some t)
loop_split s t v vs h = elim (Bool-cases (check v)) [
  | inl e ↦ (e, sym (loop_taken s v vs e) ∙ h)
  | inr e ↦ absurd (cc (h, loop_refused s v vs e))
]

index_done : (s t : Vrps) → index_loop s [] ≡ some t → s ≡ t
unfolding index_loop
index_done s t h = cc h

held-index_loop :
    (vs : List Vrp) (s t : Vrps) (q : Prefix)
    → index_loop s vs ≡ some t
    → held t q ≡ held s q ++ grants_of q vs
held-index_loop [] s t q h = sym (append-nil (held s q) ∙ ap (λ x. held x q) (index_done s t h))
held-index_loop (v ∷ vs) s t q h =
    let (e, k) = loop_split s t v vs h in
    held-index_loop vs (add_vrp s v) t q k
    ∙ ap (λ x. x ++ grants_of q vs) (held-add_vrp s v q)
    ∙ append_assoc (held s q) (if prefix_eq v.prefix q then grant v ∷ [] else []) (grants_of q vs)
    ∙ ap (λ x. held s q ++ x) (one_more (prefix_eq v.prefix q))
  where
    one_more :
        (b : Bool)
        → (if b then grant v ∷ [] else []) ++ grants_of q vs
          ≡ (if b then grant v ∷ grants_of q vs else grants_of q vs)
    one_more true = refl
    one_more false = refl

prefix_len_lt : (v : Vrp) → IsVrp v → v.prefix.len < 192
prefix_len_lt v h = ground (arith, h.from_prefix, h.to_width)

skipped :
    (v : Vrp) (vs : List Vrp) (q : Prefix)
    → (bool_eq v.prefix.addr.is4 q.addr.is4 && v.prefix.len == q.len) ≡ false
    → grants_of q (v ∷ vs) ≡ grants_of q vs
unfolding prefix_eq
skipped v vs q mine =
    let other : prefix_eq v.prefix q ≡ false = ground (arith, mine) in
    ap (λ b. if b then grant v ∷ grants_of q vs else grants_of q vs) other

-- Where no VRP of the family is marked with a length, no VRP has a prefix of that length.
none-index_loop :
    (vs : List Vrp) (s t : Vrps) (q : Prefix)
    → index_loop s vs ≡ some t
    → q.len < 192
    → has (fam t q).lengths q.len ≡ false
    → (has (fam s q).lengths q.len ≡ false) × (grants_of q vs ≡ [])
none-index_loop [] s t q h w e =
    (ap (λ x. has (fam x q).lengths q.len) (index_done s t h) ∙ e, refl)
none-index_loop (v ∷ vs) s t q h w e =
    let (c, k) = loop_split s t v vs h in
    let (below, rest) = none-index_loop vs (add_vrp s v) t q k w e in
    let added = has-add_vrp s v q q.len (prefix_len_lt v (check-IsVrp v c)) w in
    let mine : (bool_eq v.prefix.addr.is4 q.addr.is4 && v.prefix.len == q.len) ≡ false =
      ground (arith, below, added) in
    (ground (arith, below, added), skipped v vs q mine ∙ rest)

AllVrp-index_loop : (vs : List Vrp) (s t : Vrps) → index_loop s vs ≡ some t → AllVrp vs
AllVrp-index_loop [] s t h = tt
AllVrp-index_loop (v ∷ vs) s t h =
    let (e, k) = loop_split s t v vs h in (check-IsVrp v e, AllVrp-index_loop vs (add_vrp s v) t k)

index_loop-AllVrp : (vs : List Vrp) (s : Vrps) → AllVrp vs → (t : Vrps) × (index_loop s vs ≡ some t)
unfolding index_loop
index_loop-AllVrp [] s h = (s, refl)
index_loop-AllVrp (v ∷ vs) s h =
    let (t, e) = index_loop-AllVrp vs (add_vrp s v) h.1 in
    (t, loop_taken s v vs (IsVrp-check v h.0) ∙ e)

held-no_family :
    (vs : List Vrp) (q : Prefix) → held (record { all = vs; v4 = no_family; v6 = no_family }) q ≡ []
unfolding fam find
held-no_family vs q = of q.addr.is4
  where
    of : (b : Bool) → find (if b then no_family else no_family).by_prefix q ≡ []
    of true = refl
    of false = refl

module _ (vs : List Vrp) where
  -- `NewVRPs` accepts a list exactly when each of its VRPs has a valid prefix without host bits, and a
  -- maximal length from the prefix's own to the width of its family.
  pub new_vrps-AllVrp : ((t : Vrps) × (new_vrps vs ≡ some t)) ↔ AllVrp vs
  unfolding new_vrps index_vrps
  new_vrps-AllVrp = (
    λ (t, h). AllVrp-index_loop vs (record { all = vs; v4 = no_family; v6 = no_family }) t h,
    index_loop-AllVrp vs (record { all = vs; v4 = no_family; v6 = no_family }),
  )

  pub held-new_vrps : (t : Vrps) (q : Prefix) → new_vrps vs ≡ some t → held t q ≡ grants_of q vs
  unfolding new_vrps index_vrps
  held-new_vrps t q h =
      held-index_loop vs (record { all = vs; v4 = no_family; v6 = no_family }) t q h
      ∙ ap (λ x. x ++ grants_of q vs) (held-no_family vs q)

  pub none-new_vrps :
      (t : Vrps) (q : Prefix)
      → new_vrps vs ≡ some t
      → q.len < 192
      → has (fam t q).lengths q.len ≡ false
      → held t q ≡ []
  unfolding new_vrps index_vrps
  none-new_vrps t q h w e =
      held-new_vrps t q h
      ∙ (none-index_loop vs (record { all = vs; v4 = no_family; v6 = no_family }) t q h w e).1
