-- ===== src/Auth/Scope.antt =====
-- The scopes of mnt-routes: entries.
use rpsl.Base.{
  ◌≡◌, refl, ap, Bool, true, false, ◌&&◌, ◌||◌, any, List, [], ◌∷◌, some, if◌then◌else◌,
}
use rpsl.Lexer.Text.{Bytes}
use rpsl.Types.Netip.{Prefix}
use rpsl.Types.PrefixRange
use rpsl.Types.PrefixRange.{PrefixRange}
use rpsl.Auth.Route.{MntRoutes, Guards, Object, authorities, scoped_mntners, route_authority}

-- An entry that names a maintainer, with a scope that covers the prefix: one of its ranges, or, where it
-- has none, ANY.
abbrev named : Bytes → Bool
named [] = false
named (c ∷ s) = true

abbrev ranges_cover : Bool → List PrefixRange → Prefix → Bool
ranges_cover any_prefix [] p = any_prefix
ranges_cover any_prefix (r ∷ ranges) p = any (λ r. PrefixRange.contains r p) (r ∷ ranges)

abbrev pub in_scope : Prefix → MntRoutes → Bool
in_scope p m = named m.mntner && ranges_cover m.any_prefix m.ranges p

module _ (f : Bytes → Bool) (p : Prefix) where
  any-scoped_mntners :
      (entries : List MntRoutes)
      → any f (scoped_mntners entries p)
        ≡ any (λ (m : MntRoutes). in_scope p m && f m.mntner) entries
  unfolding scoped_mntners
  any-scoped_mntners [] = refl
  any-scoped_mntners (m ∷ more) = of m.mntner m.ranges (any-scoped_mntners more)
    where
      rest : List Bytes
      rest = scoped_mntners more p

      others : Bool
      others = any (λ (m : MntRoutes). in_scope p m && f m.mntner) more

      taken :
          (b : Bool) (x : Bytes)
          → any f rest ≡ others
          → any f (if b then x ∷ rest else rest) ≡ (b && f x || others)
      taken true x h = ap (λ y. f x || y) h
      taken false x h = h

      of :
          (x : Bytes) (rs : List PrefixRange)
          → any f rest ≡ others
          → any f (elim x as (λ _. List Bytes) [
            | [] ↦ rest
            | c ∷ s ↦ elim rs as (λ _. List Bytes) [
              | [] ↦ if m.any_prefix then x ∷ rest else rest
              | r ∷ ranges ↦
                  if any (λ r. PrefixRange.contains r p) (r ∷ ranges) then x ∷ rest else rest
            ]
          ])
            ≡ (named x && ranges_cover m.any_prefix rs p && f x || others)
      of [] rs h = h
      of (c ∷ s) [] h = taken m.any_prefix (c ∷ s) h
      of (c ∷ s) (r ∷ ranges) h = taken (any (λ r. PrefixRange.contains r p) (r ∷ ranges)) (c ∷ s) h

  -- Where an object has mnt-routes: entries, a maintainer with some property has routing authority over
  -- it for a prefix exactly when an entry names such a maintainer and has a scope that covers the prefix;
  -- mnt-lower: and mnt-by: grant nothing.
  pub any-route_authority :
      (o : Object) (g : Guards) (m : MntRoutes) (more : List MntRoutes)
      → authorities o ≡ some g
      → g.mnt_routes ≡ m ∷ more
      → any f (route_authority o p) ≡ any (λ (m : MntRoutes). in_scope p m && f m.mntner) (m ∷ more)
  unfolding route_authority
  any-route_authority o g m more e k = rw (route_authority, e, k) (any-scoped_mntners (m ∷ more))
