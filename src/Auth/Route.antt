-- ===== src/Auth/Route.antt =====
-- auth/route.go: the three permissions that the creation of a route needs. An object holds what the
-- package reads of its class; a nil pointer to a class is `none`, and a nil object is `no_object`.
use rpsl.Base.{
  ℕ, Bool, true, false, not, ◌&&◌, ◌||◌, any, List, [], ◌∷◌, ◌++◌, Option, none, some, ◌⊎◌, inl,
  inr, ◌==◌, ltb, if◌then◌else◌,
}
use rpsl.Lexer.Text.{Bytes}
use rpsl.Types.Netip.{Addr, Prefix, bit_len, bool_eq, masked, prefix_contains}
use rpsl.Types.Netip.Equality.{bits_eq}
use rpsl.Types.AddrRange.{last_addr}
use rpsl.Types.PrefixRange
use rpsl.Types.PrefixRange.{PrefixRange}
use rpsl.Auth.{Verifier, Registry, Decision, check_mntners}

-- policy/mntroutes.go
pub record MntRoutes : Type 0 where
  pub mntner : Bytes
  pub any_prefix : Bool
  pub ranges : List PrefixRange
  pub raw : Bytes

pub record Guards : Type 0 where
  pub mnt_routes : List MntRoutes
  pub mnt_lower : List Bytes
  pub mnt_by : List Bytes

pub record AutNum : Type 0 where
  pub asn : ℕ
  pub guards : Guards

pub record Inetnum : Type 0 where
  pub lo : Option Addr
  pub hi : Option Addr
  pub guards : Guards

-- An inet6num, route or route6 object.
pub record PrefixObject : Type 0 where
  pub prefix : Prefix
  pub guards : Guards

pub data Object : Type 0 where
  no_object other_object : Object
  aut_num : Option AutNum → Object
  inetnum : Option Inetnum → Object
  inet6num route route6 : Option PrefixObject → Object

pub record RouteRequest : Type 0 where
  pub prefix : Prefix
  pub origin_as : ℕ
  pub mnt_by : List Bytes
  pub origin : Object
  pub space : Object

-- `RouteRequestFor` and `RouteRequestFor6`, of the fields of the route.
abbrev pub route_request_for : Prefix → ℕ → List Bytes → Object → Object → RouteRequest
route_request_for prefix asn mnt_by origin space = record {
  prefix = prefix;
  origin_as = asn;
  mnt_by = mnt_by;
  origin = origin;
  space = space;
}

unfoldable pub aut_num_as : Object → Option ℕ
aut_num_as (aut_num (some t)) = some t.asn
aut_num_as o = none

-- Addresses of one family in their order.
unfoldable pub bits_lt : List Bool → List Bool → Bool
bits_lt [] ys = false
bits_lt (x ∷ xs) [] = false
bits_lt (x ∷ xs) (y ∷ ys) = if bool_eq x y then bits_lt xs ys else y

-- The results `exact` and `ok`.
abbrev pub uncovered : Bool × Bool
uncovered = (false, false)

abbrev pub within : Addr → Addr → Addr → Addr → Bool × Bool
within lo hi first last =
    if not (bit_len lo == bit_len first) || not (bit_len hi == bit_len first)
    then uncovered
    else if bits_lt first.bits lo.bits || bits_lt hi.bits last.bits
    then uncovered
    else (bits_eq lo.bits first.bits && bits_eq hi.bits last.bits, true)

unfoldable pub range_covers : Option Addr → Option Addr → Prefix → Bool × Bool
unfolding last_addr bits_lt
range_covers (some lo) (some hi) p = elim (last_addr p) [
  | none ↦ uncovered
  | some last ↦ within lo hi p.addr last
]
range_covers lo hi p = uncovered

-- `covers` past the choice of `q`.
unfoldable pub prefix_covers : Option PrefixObject → Prefix → Bool × Bool
prefix_covers none p = uncovered
prefix_covers (some t) p =
    let q = masked t.prefix in
    if not q.is_valid
      || not (bit_len q.addr == bit_len p.addr)
      || ltb p.len q.len
      || not (prefix_contains q p.addr)
    then uncovered
    else (q.len == p.len, true)

unfoldable pub covers_masked : Object → Prefix → Bool × Bool
unfolding range_covers prefix_covers
covers_masked (inetnum none) p = uncovered
covers_masked (inetnum (some t)) p = range_covers t.lo t.hi p
covers_masked (inet6num t) p = prefix_covers t p
covers_masked (route t) p = prefix_covers t p
covers_masked (route6 t) p = prefix_covers t p
covers_masked no_object p = uncovered
covers_masked other_object p = uncovered
covers_masked (aut_num t) p = uncovered

unfoldable pub covers : Object → Prefix → Bool × Bool
unfolding covers_masked
covers o p = let q = masked p in if not q.is_valid then uncovered else covers_masked o q

unfoldable pub scoped_mntners : List MntRoutes → Prefix → List Bytes
scoped_mntners [] prefix = []
scoped_mntners (m ∷ more) prefix =
    let rest = scoped_mntners more prefix in
    elim m.mntner [
      | [] ↦ rest
      | c ∷ s ↦ elim m.ranges [
        | [] ↦ if m.any_prefix then m.mntner ∷ rest else rest
        | r ∷ ranges ↦
            if any (λ r. PrefixRange.contains r prefix) (r ∷ ranges) then m.mntner ∷ rest else rest
      ]
    ]

unfoldable pub authorities : Object → Option Guards
authorities (aut_num (some t)) = some t.guards
authorities (inetnum (some t)) = some t.guards
authorities (inet6num (some t)) = some t.guards
authorities (route (some t)) = some t.guards
authorities (route6 (some t)) = some t.guards
authorities o = none

abbrev pub lower_guards : List Bytes → Bool × Bool → Bool
lower_guards [] c = false
lower_guards (m ∷ more) c = c.1 && not c.0

unfoldable pub route_authority : Object → Prefix → List Bytes
unfolding authorities scoped_mntners covers
route_authority o prefix = elim (authorities o) [
  | none ↦ []
  | some g ↦ elim g.mnt_routes [
    | m ∷ more ↦ scoped_mntners (m ∷ more) prefix
    | [] ↦ if lower_guards g.mnt_lower (covers o prefix) then g.mnt_lower else g.mnt_by
  ]
]

pub data Step : Type 0 where
  own_maintainers origin_as address_space : Step

pub data Why : Type 0 where
  not_in_registry no_origin_as not_the_aut_num not_covering no_maintainer : Why
  checked : List Bytes → Decision → Why

pub record RouteDecision : Type 0 where
  pub ok : Bool
  pub reasons : List (Step × Why)

abbrev pub names_of : RouteRequest → Step → List Bytes
names_of req own_maintainers = req.mnt_by
names_of req origin_as = route_authority req.origin req.prefix
names_of req address_space = route_authority req.space req.prefix

abbrev pub is_nil : Object → Bool
is_nil no_object = true
is_nil o = false

abbrev pub is_missing : RouteRequest → Step → Bool
is_missing req own_maintainers = false
is_missing req origin_as = is_nil req.origin
is_missing req address_space = is_nil req.space

unfoldable pub mismatch : Step → RouteRequest → Option Why
unfolding aut_num_as covers
mismatch own_maintainers req = none
mismatch origin_as req =
    if req.origin_as == 0 then some no_origin_as else elim (aut_num_as req.origin) [
      | none ↦ some not_the_aut_num
      | some asn ↦ if not (asn == req.origin_as) then some not_the_aut_num else none
    ]
mismatch address_space req = if (covers req.space req.prefix).1 then none else some not_covering

module _ {E Credential : Type 0} where
  -- One round of the loop: whether the creation may go on, and the reason.
  unfoldable pub route_step :
      Registry E
      → RouteRequest
      → Credential
      → Option (Verifier E Credential)
      → Step
      → E ⊎ (Bool × Why)
  unfolding mismatch route_authority
  route_step reg req cred v step =
      if is_missing req step then inr (false, not_in_registry) else elim (mismatch step req) [
        | some why ↦ inr (false, why)
        | none ↦ elim (names_of req step) [
          | [] ↦ inr (false, no_maintainer)
          | n ∷ names ↦ elim (check_mntners reg (n ∷ names) cred v) [
            | inl e ↦ inl e
            | inr got ↦ inr (got.ok, checked (n ∷ names) got)
          ]
        ]
      ]

  unfoldable pub route_loop :
      Registry E
      → RouteRequest
      → Credential
      → Option (Verifier E Credential)
      → List Step
      → List (Step × Why)
      → E ⊎ RouteDecision
  unfolding route_step
  route_loop reg req cred v [] reasons = inr (record { ok = true; reasons = reasons })
  route_loop reg req cred v (step ∷ steps) reasons = elim (route_step reg req cred v step) [
    | inl e ↦ inl e
    | inr (false, why) ↦ inr (record { ok = false; reasons = reasons ++ (step, why) ∷ [] })
    | inr (true, why) ↦ route_loop reg req cred v steps (reasons ++ (step, why) ∷ [])
  ]

  unfoldable pub route_creation :
      Registry E → RouteRequest → Credential → Option (Verifier E Credential) → E ⊎ RouteDecision
  unfolding route_loop
  route_creation reg req cred v =
      route_loop reg req cred v (own_maintainers ∷ origin_as ∷ address_space ∷ []) []
