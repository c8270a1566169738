-- ===== src/Auth/RouteSafety.antt =====
-- Who may create a route.
use rpsl.Base.{
  ℕ, ◌≡◌, refl, sym, ap, ◌∙◌, Bool, true, false, not, ◌&&◌, any, List, [], ◌∷◌, ◌++◌, Option, none,
  some, ◌⊎◌, inl, inr, ◌==◌, if◌then◌else◌, arith,
}
use rpsl.Lexer.Text.{Bytes}
use rpsl.Types.Netip.{Prefix, masked}
use rpsl.Auth.{Verifier, Registry, Decision, check_mntners}
use rpsl.Auth.Accepted.{name_accepts, check_mntners-any}
use rpsl.Auth.Route.{
  Object, no_object, RouteRequest, Step, own_maintainers, origin_as, address_space, Why,
  not_in_registry, no_maintainer, no_origin_as, not_the_aut_num, not_covering, checked,
  RouteDecision, aut_num_as, covers, route_authority, names_of, is_missing, is_nil, uncovered,
  covers_masked, other_object, aut_num, inetnum, inet6num, route, route6, mismatch, route_step,
  route_loop, route_creation,
}

abbrev pub is_as : ℕ → Option ℕ → Bool
is_as asn none = false
is_as asn (some found) = found == asn

-- The object that a step asks is the right one: the aut-num of the route's origin, which is not AS 0, or
-- an object that covers the route.
abbrev pub is_right : RouteRequest → Step → Bool
is_right req own_maintainers = true
is_right req origin_as = not (req.origin_as == 0) && is_as req.origin_as (aut_num_as req.origin)
is_right req address_space = (covers req.space req.prefix).1

-- `mismatch` finds nothing wrong exactly with the right object.
abbrev no_reason : Option Why → Bool
no_reason none = true
no_reason (some why) = false

mismatch_lem :
    (req : RouteRequest) (step : Step) → no_reason (mismatch step req) ≡ is_right req step
unfolding mismatch
mismatch_lem req own_maintainers = refl
mismatch_lem req origin_as = of (req.origin_as == 0) (aut_num_as req.origin)
  where
    of :
        (b : Bool) (x : Option ℕ)
        → no_reason (
            if b then some no_origin_as else elim x [
              | none ↦ some not_the_aut_num
              | some asn ↦ if not (asn == req.origin_as) then some not_the_aut_num else none
            ])
          ≡ (not b && is_as req.origin_as x)
    of true x = refl
    of false none = refl
    of false (some asn) = test (asn == req.origin_as)
      where
        test : (t : Bool) → no_reason (if not t then some not_the_aut_num else none) ≡ t
        test true = refl
        test false = refl
mismatch_lem req address_space = of (covers req.space req.prefix).1
  where
    of : (b : Bool) → no_reason (if b then none else some not_covering) ≡ b
    of true = refl
    of false = refl

aut_num_as-is_nil : (o : Object) → is_nil o ≡ true → aut_num_as o ≡ none
unfolding aut_num_as
aut_num_as-is_nil no_object h = refl
aut_num_as-is_nil other_object h = refl
aut_num_as-is_nil (aut_num t) h = absurd (cc h)
aut_num_as-is_nil (inetnum t) h = refl
aut_num_as-is_nil (inet6num t) h = refl
aut_num_as-is_nil (route t) h = refl
aut_num_as-is_nil (route6 t) h = refl

covers-is_nil : (o : Object) (p : Prefix) → is_nil o ≡ true → (covers o p).1 ≡ false
unfolding covers covers_masked
covers-is_nil no_object p h = of (masked p).is_valid
  where
    of : (b : Bool) → (if not b then uncovered else uncovered).1 ≡ false
    of true = refl
    of false = refl
covers-is_nil other_object p h = absurd (cc h)
covers-is_nil (aut_num t) p h = absurd (cc h)
covers-is_nil (inetnum t) p h = absurd (cc h)
covers-is_nil (inet6num t) p h = absurd (cc h)
covers-is_nil (route t) p h = absurd (cc h)
covers-is_nil (route6 t) p h = absurd (cc h)

missing_lem :
    (req : RouteRequest) (step : Step) → is_missing req step ≡ true → is_right req step ≡ false
missing_lem req own_maintainers h = absurd (cc h)
missing_lem req origin_as h =
    ap (λ x. not (req.origin_as == 0) && is_as req.origin_as x) (aut_num_as-is_nil req.origin h)
    ∙ ground arith
missing_lem req address_space h = covers-is_nil req.space req.prefix h

module _ {E Credential : Type 0} (reg : Registry E) (req : RouteRequest) (cred : Credential)
    (v : Option (Verifier E Credential)) where
  -- One of the named maintainers accepts the credential.
  abbrev pub permitted : List Bytes → Bool
  permitted names = any (name_accepts cred v reg) names

  abbrev pub permits : Step → Bool
  permits step = is_right req step && permitted (names_of req step)

  Rounds : E ⊎ (Bool × Why) → Bool → Type 0
  Rounds x b = (ok : Bool) (why : Why) → x ≡ inr (ok, why) → ok ≡ b

  asked_lem :
      (names : List Bytes)
      → Rounds
          (elim names [
            | [] ↦ inr (false, no_maintainer)
            | n ∷ names ↦ elim (check_mntners reg (n ∷ names) cred v) [
              | inl e ↦ inl e
              | inr got ↦ inr (got.ok, checked (n ∷ names) got)
            ]
          ])
          (permitted names)
  unfolding Rounds
  asked_lem [] ok why h = cc h
  asked_lem (n ∷ names) ok why h =
      of (check_mntners reg (n ∷ names) cred v) (check_mntners-any cred reg v (n ∷ names)) h
    where
      of :
          (x : E ⊎ Decision)
          → ((d : Decision) → x ≡ inr d → d.ok ≡ permitted (n ∷ names))
          → elim x as (λ _. E ⊎ (Bool × Why)) [
            | inl e ↦ inl e
            | inr got ↦ inr (got.ok, checked (n ∷ names) got)
          ]
            ≡ inr (ok, why)
          → ok ≡ permitted (n ∷ names)
      of (inl e) any_lem k = absurd (cc k)
      of (inr got) any_lem k = let e : ok ≡ got.ok = cc k in e ∙ any_lem got refl

  right_and :
      (step : Step) (b : Bool)
      → is_right req step ≡ b
      → permits step ≡ (b && permitted (names_of req step))
  right_and step b e = ap (λ x. x && permitted (names_of req step)) e

  route_step_lem : (step : Step) → Rounds (route_step reg req cred v step) (permits step)
  unfolding route_step Rounds
  route_step_lem step =
      of (is_missing req step) (mismatch step req) (missing_lem req step) (mismatch_lem req step)
    where
      asked : List Bytes → E ⊎ (Bool × Why)
      asked names = elim names [
        | [] ↦ inr (false, no_maintainer)
        | n ∷ names ↦ elim (check_mntners reg (n ∷ names) cred v) [
          | inl e ↦ inl e
          | inr got ↦ inr (got.ok, checked (n ∷ names) got)
        ]
      ]

      of :
          (b : Bool) (m : Option Why)
          → (b ≡ true → is_right req step ≡ false)
          → no_reason m ≡ is_right req step
          → Rounds
              (if b
                then inr (false, not_in_registry)
                else elim m [ some why ↦ inr (false, why) | none ↦ asked (names_of req step) ])
              (permits step)
      of true m h k ok why e = let r : ok ≡ false = cc e in r ∙ sym (right_and step false (h refl))
      of false (some w) h k ok why e =
          let r : ok ≡ false = cc e in r ∙ sym (right_and step false (sym k))
      of false none h k ok why e =
          asked_lem (names_of req step) ok why e ∙ sym (right_and step true (sym k))

  abbrev all_permit : List Step → Bool
  all_permit [] = true
  all_permit (step ∷ steps) = permits step && all_permit steps

  route_loop_lem :
      (steps : List Step) (reasons : List (Step × Why)) (d : RouteDecision)
      → route_loop reg req cred v steps reasons ≡ inr d
      → d.ok ≡ all_permit steps
  unfolding route_loop Rounds
  route_loop_lem [] reasons d h = cc h
  route_loop_lem (step ∷ steps) reasons d h =
      of (route_step reg req cred v step) (route_step_lem step) (route_loop_lem steps) h
    where
      of :
          (x : E ⊎ (Bool × Why))
          → Rounds x (permits step)
          → ((reasons : List (Step × Why)) (d : RouteDecision)
              → route_loop reg req cred v steps reasons ≡ inr d
              → d.ok ≡ all_permit steps)
          → elim x as (λ _. E ⊎ RouteDecision) [
            | inl e ↦ inl e
            | inr (false, why) ↦ inr (record { ok = false; reasons = reasons ++ (step, why) ∷ [] })
            | inr (true, why) ↦ route_loop reg req cred v steps (reasons ++ (step, why) ∷ [])
          ]
            ≡ inr d
          → d.ok ≡ (permits step && all_permit steps)
      of (inl e) r rest k = absurd (cc k)
      of (inr (false, why)) r rest k =
          let refused : d.ok ≡ false = cc k in
          refused ∙ ap (λ x. x && all_permit steps) (r false why refl)
      of (inr (true, why)) r rest k =
          rest (reasons ++ (step, why) ∷ []) d k ∙ ap (λ x. x && all_permit steps) (r true why refl)

  -- Where `RouteCreation` returns a decision and no error, it allows the route exactly when all hold: one
  -- of the route's own maintainers accepts the credential; the origin is an AS other than 0, the object
  -- given for it is its aut-num, and a maintainer with routing authority there accepts the credential;
  -- the object given for the address space covers the route, and a maintainer with routing authority
  -- there accepts the credential.
  pub route_creation_lem :
      (d : RouteDecision)
      → route_creation reg req cred v ≡ inr d
      → d.ok ≡ (
          permitted req.mnt_by
          && (not (req.origin_as == 0)
              && is_as req.origin_as (aut_num_as req.origin)
              && permitted (route_authority req.origin req.prefix)
              && ((covers req.space req.prefix).1
                  && permitted (route_authority req.space req.prefix))))
  unfolding route_creation
  route_creation_lem d h =
      route_loop_lem (own_maintainers ∷ origin_as ∷ address_space ∷ []) [] d h
      ∙ regroup (permitted req.mnt_by) (not (req.origin_as == 0))
          (is_as req.origin_as (aut_num_as req.origin))
          (permitted (route_authority req.origin req.prefix)) (permits address_space)
    where
      regroup : (a b c e f : Bool) → (a && (b && c && e && (f && true))) ≡ (a && (b && c && e && f))
      regroup a b c e f = ground arith
