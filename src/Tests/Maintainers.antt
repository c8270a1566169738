-- ===== src/Tests/Maintainers.antt =====
-- Authorisation.
use rpsl.Types.Netip.{masked, prefix_contains}
use rpsl.Base.{ℕ, ◌≡◌, refl, true, false, any, ◌&&◌, List, [], ◌∷◌, Option, some, inl, inr}
use rpsl.Ast.{new, get_all}
use rpsl.Ast.Items.{list}
use rpsl.Lexer.{tokenize_at, start_pending}
use rpsl.Lexer.Text.{
  Bytes, is_blank_line, head_is_marker, head_is, starts_attribute, split_attr, join_lines,
}
use rpsl.Types.SetName.{text_eq}
use rpsl.Types.PrefixRange
use rpsl.Auth.{
  Mntner, AuthLine, Registry, Verifier, Decision, auth_md5, no_mntner, no_such, rejected, accepted,
  check_mntners, check_auth,
}
use rpsl.Auth.Irt.{IrtRegistry, as_registry, check_irts, check_irts-any}
use rpsl.Auth.IrtChange.{
  Holder, no_holder, with_mnt_irt, other_holder, mnt_irt_change, added_mnt_irt, mnt_irt_change_lem,
  mnt_irt,
}
use rpsl.Auth.Accepted.{name_accepts, check_mntners-any}
use rpsl.Auth.Referral.{ended, referral_chain, referral_cycle}
use rpsl.Auth.ReferralDepth.{EndsWithin, referral_chain-EndsWithin}
use rpsl.Auth.Route.{
  MntRoutes, Guards, Object, RouteRequest, RouteDecision, aut_num, route, route_authority,
  route_creation, covers, aut_num_as, authorities,
}
use rpsl.Auth.RouteSafety.{permitted, is_as, route_creation_lem}
use rpsl.Auth.Scope.{in_scope, any-route_authority}
use rpsl.Tests.Scanner.{codes}
use rpsl.Tests.Ranges.Data.{net10, net10_1, range10}

abbrev line : Bytes → AuthLine
line value = record { method = auth_md5; value = value; raw = value }

abbrev mntner : Bytes → Bytes → Bytes → Mntner
mntner handle secret parent = record {
  handle = handle;
  auth = line secret ∷ [];
  referral_by = parent ∷ [];
}

-- MNT-A refers to MNT-B, which refers to MNT-A.
abbrev registry : Registry ℕ
registry name = elim (text_eq name (codes "A")) [
  | true ↦ inr (some (mntner (codes "A") (codes "x") (codes "B")))
  | false ↦ elim (text_eq name (codes "B")) [
    | true ↦ inr (some (mntner (codes "B") (codes "y") (codes "A")))
    | false ↦ inl no_mntner
  ]
]

abbrev verifier : Option (Verifier ℕ Bytes)
verifier = some (λ a cred. inr (text_eq a.value cred))

abbrev names : List Bytes
names = codes "C" ∷ codes "A" ∷ codes "B" ∷ []

abbrev decision : Decision
decision = record {
  ok = true;
  reasons = no_such (codes "C") ∷ rejected (codes "A") ∷ accepted (codes "B") ∷ [];
}

check_run : check_mntners registry names (codes "y") verifier ≡ inr decision
unfolding check_mntners text_eq
check_run = refl

check_mntners-any_example : true ≡ any (name_accepts (codes "y") verifier registry) names
check_mntners-any_example = check_mntners-any (codes "y") registry verifier names decision check_run

abbrev same : Bytes → Bytes
same s = s

cycle_run :
    referral_chain same same text_eq registry (codes "A") 0
    ≡ ended
        (mntner (codes "A") (codes "x") (codes "B")
          ∷ mntner (codes "B") (codes "y") (codes "A")
          ∷ [])
        (some referral_cycle)
unfolding referral_chain text_eq
cycle_run = refl

referral_chain-EndsWithin_example :
    EndsWithin 1 (referral_chain same same text_eq registry (codes "A") 1)
referral_chain-EndsWithin_example =
    referral_chain-EndsWithin same same text_eq registry (codes "A") 1

abbrev scope : MntRoutes
scope = record { mntner = codes "B"; any_prefix = false; ranges = range10 ∷ []; raw = [] }

abbrev guards : Guards
guards = record { mnt_routes = scope ∷ []; mnt_lower = []; mnt_by = codes "A" ∷ [] }

abbrev as1 : Object
as1 = aut_num (some (record { asn = 1; guards = guards }))

abbrev space : Object
space = route (some (record { prefix = net10; guards = guards }))

abbrev request : RouteRequest
request = record { prefix = net10_1; origin_as = 1; mnt_by = names; origin = as1; space = space }

abbrev created : RouteDecision
created = elim (route_creation registry request (codes "y") verifier) [
  | inl e ↦ record { ok = false; reasons = [] }
  | inr d ↦ d
]

created_run : route_creation registry request (codes "y") verifier ≡ inr created
unfolding route_creation check_mntners text_eq PrefixRange.contains masked prefix_contains
created_run = refl

allowed_run : created.ok ≡ true
unfolding route_creation check_mntners text_eq PrefixRange.contains masked prefix_contains
allowed_run = refl

route_creation_lem_example : created.ok ≡ (
    permitted registry request (codes "y") verifier names
    && (true
        && is_as 1 (aut_num_as as1)
        && permitted registry request (codes "y") verifier (route_authority as1 net10_1)
        && ((covers space net10_1).1
            && permitted registry request (codes "y") verifier (route_authority space net10_1))))
route_creation_lem_example =
    route_creation_lem registry request (codes "y") verifier created created_run

any-route_authority_example :
    any (text_eq (codes "B")) (route_authority as1 net10_1)
    ≡ any (λ (m : MntRoutes). in_scope net10_1 m && text_eq (codes "B") m.mntner) (scope ∷ [])
unfolding authorities
any-route_authority_example =
    any-route_authority (text_eq (codes "B")) net10_1 as1 guards scope [] refl refl

abbrev irts : IrtRegistry ℕ
irts name = elim (text_eq name (codes "I")) [
  | true ↦ inr (some (record { auth = line (codes "z") ∷ [] }))
  | false ↦ inl no_mntner
]

abbrev irt_decision : Decision
irt_decision = record { ok = true; reasons = no_such (codes "J") ∷ accepted (codes "I") ∷ [] }

irts_run : check_irts irts (codes "J" ∷ codes "I" ∷ []) (codes "z") verifier ≡ inr irt_decision
unfolding check_irts text_eq check_auth
irts_run = refl

check_irts-any_example :
    true ≡ any (name_accepts (codes "z") verifier (as_registry irts)) (codes "J" ∷ codes "I" ∷ [])
check_irts-any_example =
    check_irts-any (codes "z") irts verifier (codes "J" ∷ codes "I" ∷ []) irt_decision irts_run

abbrev before : Holder
before = with_mnt_irt (codes "I" ∷ [])

abbrev after : Holder
after = with_mnt_irt (codes "I" ∷ codes "J" ∷ codes "J" ∷ [])

abbrev refused : Decision
refused = record { ok = false; reasons = no_such (codes "J") ∷ [] }

change_run : mnt_irt_change same same same irts before after (codes "z") verifier ≡ inr refused
unfolding mnt_irt_change text_eq check_irts
change_run = refl

mnt_irt_change_lem_example :
    (any (text_eq (codes "J")) (added_mnt_irt same same same before after) ≡ true)
    × (false
        ≡ any
            (name_accepts (codes "z") verifier (as_registry irts))
            (added_mnt_irt same same same before after))
unfolding added_mnt_irt mnt_irt text_eq
mnt_irt_change_lem_example =
    mnt_irt_change_lem same same same irts before after (codes "z") verifier refused (codes "J")
      change_run

-- A role has no mnt-irt: attribute, yet the reference in its text is added.
abbrev role : Holder
unfolding new tokenize_at
role = other_holder (some (new same (tokenize_at (codes "role: A\nmnt-irt: I,J\n") 1 0)))

other_class_run : added_mnt_irt same same same no_holder role ≡ codes "I" ∷ codes "J" ∷ []
unfolding added_mnt_irt mnt_irt text_eq get_all list role is_blank_line head_is_marker head_is
    starts_attribute start_pending split_attr join_lines
other_class_run = refl
