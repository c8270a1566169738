-- ===== src/Resolve/Rpki/Index.antt =====
-- What the index of VRPs holds for a prefix: the grants of the VRPs with that prefix, in their order.
use mathlib.Core.List.{append-nil}
use rpsl.Base.{
  ℕ, ◌<◌, ◌≡◌, refl, sym, ap, ap₂, ◌∙◌, inl, inr, Bool, true, false, ◌&&◌, ◌||◌, Bool-cases, List,
  [], ◌∷◌, ◌++◌, ◌==◌, if◌then◌else◌, arith,
}
use rpsl.Types.Netip.{Prefix, bool_eq}
use rpsl.Types.Netip.Equality.{prefix_eq, prefix_eq-true}
use rpsl.Types.LenMask.{has}
use rpsl.Types.LenMask.Laws.{has-set}
use rpsl.Resolve.Rpki.{Vrp, Grant, Vrps, fam, find, append_at, add, add_vrp}

abbrev pub grant : Vrp → Grant
grant v = record { max_length = v.max_length; asn = v.asn }

-- The grants of the VRPs with the prefix `q`.
abbrev pub grants_of : Prefix → List Vrp → List Grant
grants_of q [] = []
grants_of q (v ∷ vs) = if prefix_eq v.prefix q then grant v ∷ grants_of q vs else grants_of q vs

-- The grant, if it is one of `q`.
abbrev one_of : Prefix → Prefix → Grant → List Grant
one_of k q g = if prefix_eq k q then g ∷ [] else []

find_hit :
    (kv : Prefix × List Grant) (m : List (Prefix × List Grant)) (q : Prefix)
    → prefix_eq kv.0 q ≡ true
    → find (kv ∷ m) q ≡ kv.1
unfolding find
find_hit kv m q e = rw (find, e) refl

find_miss :
    (kv : Prefix × List Grant) (m : List (Prefix × List Grant)) (q : Prefix)
    → prefix_eq kv.0 q ≡ false
    → find (kv ∷ m) q ≡ find m q
unfolding find
find_miss kv m q e = rw (find, e) refl

one_of_hit : (k q : Prefix) (g : Grant) → prefix_eq k q ≡ true → one_of k q g ≡ g ∷ []
one_of_hit k q g e = rw e refl

one_of_miss : (k q : Prefix) (g : Grant) → prefix_eq k q ≡ false → one_of k q g ≡ []
one_of_miss k q g e = rw e refl

find-nil : (q : Prefix) → find [] q ≡ []
unfolding find
find-nil q = refl

append_hit :
    (kv : Prefix × List Grant) (m : List (Prefix × List Grant)) (k : Prefix) (g : Grant)
    → prefix_eq kv.0 k ≡ true
    → append_at (kv ∷ m) k g ≡ (kv.0, kv.1 ++ g ∷ []) ∷ m
unfolding append_at
append_hit kv m k g e = rw (append_at, e) refl

append_miss :
    (kv : Prefix × List Grant) (m : List (Prefix × List Grant)) (k : Prefix) (g : Grant)
    → prefix_eq kv.0 k ≡ false
    → append_at (kv ∷ m) k g ≡ kv ∷ append_at m k g
unfolding append_at
append_miss kv m k g e = rw (append_at, e) refl

find-append_at :
    (m : List (Prefix × List Grant)) (k q : Prefix) (g : Grant)
    → find (append_at m k g) q ≡ find m q ++ one_of k q g
unfolding append_at
find-append_at [] k q g = elim (Bool-cases (prefix_eq k q)) [
  | inl e ↦ find_hit (k, g ∷ []) [] q e ∙ sym (ap₂ ◌++◌ (find-nil q) (one_of_hit k q g e))
  | inr e ↦
      find_miss (k, g ∷ []) [] q e
      ∙ sym (ap₂ ◌++◌ refl (one_of_miss k q g e) ∙ append-nil (find [] q))
]
find-append_at (kv ∷ m) k q g = elim (Bool-cases (prefix_eq kv.0 k)) [
  | inl e ↦
      let same = ap (λ x. prefix_eq x q) (prefix_eq-true kv.0 k e) in
      ap (λ x. find x q) (append_hit kv m k g e) ∙ (elim (Bool-cases (prefix_eq kv.0 q)) [
        | inl h ↦
            find_hit (kv.0, kv.1 ++ g ∷ []) m q h
            ∙ sym (ap₂ ◌++◌ (find_hit kv m q h) (one_of_hit k q g (sym same ∙ h)))
        | inr h ↦
            find_miss (kv.0, kv.1 ++ g ∷ []) m q h
            ∙ sym (
                ap₂ ◌++◌ (find_miss kv m q h) (one_of_miss k q g (sym same ∙ h))
                ∙ append-nil (find m q))
      ])
  | inr e ↦ ap (λ x. find x q) (append_miss kv m k g e) ∙ (elim (Bool-cases (prefix_eq kv.0 q)) [
    | inl h ↦
        find_hit kv (append_at m k g) q h
        ∙ sym (ap₂ ◌++◌ (find_hit kv m q h) (one_of_miss k q g (other e h)) ∙ append-nil kv.1)
    | inr h ↦
        find_miss kv (append_at m k g) q h
        ∙ find-append_at m k q g
        ∙ sym (ap (λ x. x ++ one_of k q g) (find_miss kv m q h))
  ])
]
  where
    other : prefix_eq kv.0 k ≡ false → prefix_eq kv.0 q ≡ true → prefix_eq k q ≡ false
    other e h = elim (Bool-cases (prefix_eq k q)) [
      | inl t ↦
          let u : prefix_eq kv.0 k ≡ true = ap (prefix_eq kv.0) (prefix_eq-true k q t) ∙ h in
          absurd (cc (e, u))
      | inr t ↦ t
    ]

-- The grants that the index holds for a prefix.
abbrev pub held : Vrps → Prefix → List Grant
held s q = find (fam s q).by_prefix q

other_family :
    (p q : Prefix) (g : Grant) → bool_eq p.addr.is4 q.addr.is4 ≡ false → one_of p q g ≡ []
unfolding prefix_eq
other_family p q g e = one_of_miss p q g (ground (arith, e))

pub held-add_vrp :
    (s : Vrps) (v : Vrp) (q : Prefix)
    → held (add_vrp s v) q ≡ held s q ++ one_of v.prefix q (grant v)
unfolding add_vrp fam add
held-add_vrp s v q = of v.prefix.addr.is4 q.addr.is4 refl refl
  where
    of :
        (b c : Bool)
        → v.prefix.addr.is4 ≡ b
        → q.addr.is4 ≡ c
        → find
            (if c
              then (if b then record s { v4 = add s.v4 v } else record s { v6 = add s.v6 v }).v4
              else (if b
                  then record s { v4 = add s.v4 v }
                  else record s { v6 = add s.v6 v }).v6).by_prefix
            q
          ≡ find (if c then s.v4 else s.v6).by_prefix q ++ one_of v.prefix q (grant v)
    of true true e f = find-append_at s.v4.by_prefix v.prefix q (grant v)
    of false false e f = find-append_at s.v6.by_prefix v.prefix q (grant v)
    of true false e f = sym (
        ap₂ ◌++◌ refl (other_family v.prefix q (grant v) (ap₂ bool_eq e f))
        ∙ append-nil (find s.v6.by_prefix q))
    of false true e f = sym (
        ap₂ ◌++◌ refl (other_family v.prefix q (grant v) (ap₂ bool_eq e f))
        ∙ append-nil (find s.v4.by_prefix q))

pub has-add_vrp :
    (s : Vrps) (v : Vrp) (q : Prefix) (l : ℕ)
    → v.prefix.len < 192
    → l < 192
    → has (fam (add_vrp s v) q).lengths l
      ≡ (bool_eq v.prefix.addr.is4 q.addr.is4 && v.prefix.len == l || has (fam s q).lengths l)
unfolding add_vrp fam add
has-add_vrp s v q l a b = of v.prefix.addr.is4 q.addr.is4
  where
    of :
        (b c : Bool)
        → has
            (if c
              then (if b then record s { v4 = add s.v4 v } else record s { v6 = add s.v6 v }).v4
              else (if b
                  then record s { v4 = add s.v4 v }
                  else record s { v6 = add s.v6 v }).v6).lengths
            l
          ≡ (bool_eq b c && v.prefix.len == l || has (if c then s.v4 else s.v6).lengths l)
    of true true = has-set s.v4.lengths v.prefix.len l a b
    of false false = has-set s.v6.lengths v.prefix.len l a b
    of true false = refl
    of false true = refl
