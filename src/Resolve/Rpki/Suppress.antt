-- ===== src/Resolve/Rpki/Suppress.antt =====
-- What the filter lets through, and what it reports.
use mathlib.Core.List.{append-nil, append_assoc}
use rpsl.Base.{
  ℕ, ◌≡◌, refl, sym, ap, ◌∙◌, Bool, true, false, not, ◌&&◌, List, [], ◌∷◌, ◌++◌, Option, none, some,
  ◌⊎◌, inl, inr, if◌then◌else◌,
}
use rpsl.Types.Netip.{Prefix}
use rpsl.Types.AddrFamily.{Afi}
use rpsl.Resolve.Rpki.{validate}
use rpsl.Resolve.Rpki.Filter.{
  Filter, RouteObject, AnyObject, Log, keep, kept_route, kept_prefix, kept_object, suppressed,
  route, is_invalid, originated_routes, members_by_ref,
}
use rpsl.Resolve.Rpki.Keep.{select, keep-select}

-- The elements that a test accepts.
abbrev pub accepted : {A : Type 0} → (A → Bool) → List A → List A
accepted f [] = []
accepted f (x ∷ xs) = if f x then x ∷ accepted f xs else accepted f xs

module _ (f : Filter) where
  abbrev bad : RouteObject → Bool
  bad r = is_invalid (validate f.vrps r.prefix r.origin)

  -- An invalid route is left out, and reported where `OnSuppress` is set.
  abbrev pub stays : Option RouteObject → Bool
  stays none = true
  stays (some r) = not (bad r)

  abbrev pub reported : Option RouteObject → Log
  reported none = []
  reported (some r) = if bad r && f.on_suppress then (r.prefix, r.origin) ∷ [] else []

  kept_route_lem :
      (o : Option RouteObject) (log : Log) → kept_route f o log ≡ (stays o, log ++ reported o)
  unfolding suppressed
  kept_route_lem none log = ap (λ y. (true, y)) (sym (append-nil log))
  kept_route_lem (some r) log = of (bad r) f.on_suppress
    where
      outcome : Bool → Bool → Bool × Log
      outcome b on =
          if not b
          then (false, log)
          else (true, if on then log ++ (r.prefix, r.origin) ∷ [] else log)

      expected : Bool → Bool → Bool × Log
      expected b on = (not b, log ++ (if b && on then (r.prefix, r.origin) ∷ [] else []))

      of : (b on : Bool) → (let (gone, log') = outcome b on in (not gone, log')) ≡ expected b on
      of true true = refl
      of true false = ap (λ y. (false, y)) (sym (append-nil log))
      of false on = ap (λ y. (true, y)) (sym (append-nil log))

  module _ {A : Type 0} (get : A → Option RouteObject) where
    abbrev pub reports : List A → Log
    reports [] = []
    reports (x ∷ xs) = reported (get x) ++ reports xs

    abbrev pub survives : A → Bool
    survives x = stays (get x)

    pub select-accepted :
        (xs : List A) (log : Log)
        → select (λ x. kept_route f (get x)) xs log ≡ (accepted survives xs, log ++ reports xs)
    select-accepted [] log = ap (λ y. ([], y)) (sym (append-nil log))
    select-accepted (x ∷ xs) log =
        ap step (kept_route_lem (get x) log)
        ∙ ap (λ (y : List A × Log). (if survives x then x ∷ y.0 else y.0, y.1))
            (select-accepted xs (log ++ reported (get x)))
        ∙ ap (λ y. (accepted survives (x ∷ xs), y))
            (append_assoc log (reported (get x)) (reports xs))
      where
        step : Bool × Log → List A × Log
        step y =
            let (ys, log') = select (λ x. kept_route f (get x)) xs y.1 in
            (if y.0 then x ∷ ys else ys, log')

abbrev pub for_origin : ℕ → Prefix → Option RouteObject
for_origin asn p = some (record { prefix = p; origin = asn })

-- Two ways to go on after a call, where the call fails alike.
on_result :
    {Error A : Type 0} (x : Error ⊎ List A) (g h : List A → List A × Log) (log : Log)
    → ((xs : List A) → g xs ≡ h xs)
    → elim x as (λ _. (Error ⊎ List A) × Log) [
      | inl err ↦ (inl err, log)
      | inr xs ↦ (inr (g xs).0, (g xs).1)
    ]
      ≡ elim x as (λ _. (Error ⊎ List A) × Log) [
        | inl err ↦ (inl err, log)
        | inr xs ↦ (inr (h xs).0, (h xs).1)
      ]
on_result (inl err) g h log e = refl
on_result (inr xs) g h log e = ap (λ y. (inr y.0, y.1)) (e xs)

module _ {Error Other NamedSet : Type 0} (src_routes : ℕ → Afi → Error ⊎ List Prefix)
    (src_members : NamedSet → Error ⊎ List (AnyObject Other)) where
  -- `OriginatedRoutes` of the filter hands on an error of the source; of a result it keeps, in order,
  -- the prefixes that are not invalid for the AS, and reports each of the others once, in order, where
  -- `OnSuppress` is set. `MembersByRef` does so for the routes among the claimants, and keeps the
  -- claimants that are no routes.
  pub filter-accepted :
      (f : Filter) (asn : ℕ) (afi : Afi) (set : NamedSet) (log : Log)
      → (originated_routes src_routes src_members f asn afi log ≡ elim (src_routes asn afi) [
        | inl err ↦ (inl err, log)
        | inr ps ↦
            (inr (accepted (survives f (for_origin asn)) ps), log ++ reports f (for_origin asn) ps)
      ])
        × (members_by_ref src_routes src_members f set log ≡ elim (src_members set) [
          | inl err ↦ (inl err, log)
          | inr objs ↦ (inr (accepted (survives f route) objs), log ++ reports f route objs)
        ])
  unfolding originated_routes members_by_ref
  filter-accepted f asn afi set log = (
    on_result (src_routes asn afi) (λ ps. keep (kept_prefix f asn) ps log)
        (λ ps. (accepted (survives f (for_origin asn)) ps, log ++ reports f (for_origin asn) ps))
        log
        (λ ps. keep-select (kept_prefix f asn) ps log ∙ select-accepted f (for_origin asn) ps log),
    on_result (src_members set) (λ objs. keep (kept_object f) objs log)
        (λ objs. (accepted (survives f route) objs, log ++ reports f route objs)) log
        (λ objs. keep-select (kept_object f) objs log ∙ select-accepted f route objs log),
  )
