-- ===== src/Tests/Policies.antt =====
-- Policies.
use rpsl.Base.{ℕ, ◌≤◌, ◌≡◌, refl, Bool, true, false, ◌&&◌, none, List, [], ◌∷◌, inl, arith}
use rpsl.Types.AddrFamily.{AddrFamily, afi_v4, safi_unicast}
use rpsl.Types.SetName.{class_as_set, is_any, text_eq}
use rpsl.Types.PrefixRange.{range_exact}
use rpsl.Policy.Ast.{
  Peering, no_peering, peering_as, as_num, as_set_ref, Filter, filter_any, filter_peer_as,
  filter_and, filter_not, no_filters, with_filter, append, Action, Expr, expr_factor, expr_except,
}
use rpsl.Policy.Flatten.{
  Term, WTerm, Flattener, failed, charge, covers_family, and_filters, or_filters, filter_size,
  is_any_peering, max_flatten_nodes,
}
use rpsl.Policy.Flatten.Terms.{
  flatten, flatten_at, except_terms, except_all, except_pairs, refine_terms, refine_all,
  refine_pairs, refine_term, intersect_peerings, intersect_vias, push, push_all, covered_filters,
  covered_size,
}
use rpsl.Policy.Flatten.Matching.{matches}
use rpsl.Policy.Flatten.Exception.{roles, overridden, roles-except_terms}
use rpsl.Policy.Flatten.Refinement.{any_serves, any_serves-refine_terms}
use rpsl.Policy.Flatten.Size.{depth_of}
use rpsl.Policy.Flatten.Loops.{cost, exceptions, refined, refined_with}
use rpsl.Policy.Flatten.Enough.{except_terms-enough, refine_terms-enough}
use rpsl.Policy.Flatten.Bounded.{total_nodes, total_nodes-flatten, IsShallow}

abbrev expr_text : Peering → List ℕ
expr_text (peering_as (as_num n) none none) = b'A' ∷ b'S' ∷ n ∷ []
expr_text _ = []

abbrev as_any : Peering
as_any =
    peering_as
      (as_set_ref
        (record { canon = b'A' ∷ b'S' ∷ b'-' ∷ b'A' ∷ b'N' ∷ b'Y' ∷ []; set_class = class_as_set }))
      none none

abbrev as1 : Peering
as1 = peering_as (as_num 1) none none

abbrev peer_as : Filter
peer_as = filter_peer_as (record { kind = range_exact; n = 0; m = 0 })

abbrev from : Peering → Filter → Expr
from p f = expr_factor (record { via = no_peering; peering = p; actions = [] } ∷ []) f

abbrev term : Peering → Filter → Term
term p f = record { via = no_peering; peering = p; actions = []; filter = f }

abbrev wterm : Peering → Filter → ℕ → WTerm
wterm p f n = record { term = term p f; w = n }

abbrev ipv4 : AddrFamily
ipv4 = record { afi = afi_v4; safi = safi_unicast }

abbrev fresh : Flattener
fresh = record { af = ipv4; spent = 0; err = none }

abbrev excepted : Expr
excepted = expr_except (from as_any filter_any) (from as1 peer_as) [] false

abbrev both : Filter → Filter → Filter
both f g = filter_and (with_filter f (with_filter g no_filters))

abbrev result : List Term
result =
    term as1 (both filter_any peer_as) ∷ term as_any (both filter_any (filter_not peer_as)) ∷ []

flatten_run : flatten expr_text excepted ipv4 ≡ inl result
unfolding flatten flatten_at except_terms except_all except_pairs push push_all charge
    covered_filters covered_size covers_family and_filters append or_filters filter_size
flatten_run = refl

abbrev is_any_filter : Filter → Bool
is_any_filter filter_any = true
is_any_filter _ = false

abbrev lefts : List WTerm
lefts = wterm as_any filter_any 1 ∷ []

abbrev rights : List WTerm
rights = wterm as1 peer_as 1 ∷ []

except_holds : failed (except_terms lefts rights fresh).1 ≡ false
unfolding except_terms except_all except_pairs push push_all charge or_filters covered_filters
    covered_size
except_holds = refl

refine_holds : failed (refine_terms expr_text lefts rights fresh).1 ≡ false
unfolding refine_terms refine_all refine_pairs refine_term intersect_peerings intersect_vias
    is_any_peering is_any text_eq push push_all charge
refine_holds = refl

-- The route that both sides match has the right-hand role once, and the left-hand one no more.
abbrev role : Peering → Peering × Peering × List Action
role p = (no_peering, p, [])

except_terms_run :
    (roles (λ f. true) (except_terms lefts rights fresh).0 ≡ role as1 ∷ [])
    × (roles (λ f. is_any_filter f) (except_terms lefts rights fresh).0 ≡ role as_any ∷ [])
unfolding roles except_terms except_all except_pairs push push_all charge or_filters covered_filters
    covered_size and_filters append matches
except_terms_run = (refl, refl)

roles-except_terms_example :
    roles (λ f. true) (except_terms lefts rights fresh).0
    ≡ overridden (roles (λ f. true) lefts) (roles (λ f. true) rights)
roles-except_terms_example =
    roles-except_terms (λ f. true) lefts rights fresh (refl, tt) except_holds

any_serves-refine_terms_example :
    any_serves expr_text
      (λ f. true)
      []
      (expr_text as1)
      (refine_terms expr_text lefts rights fresh).0
    ≡ (any_serves expr_text (λ f. true) [] (expr_text as1) lefts
        && any_serves expr_text (λ f. true) [] (expr_text as1) rights)
any_serves-refine_terms_example =
    any_serves-refine_terms expr_text (λ f. true) [] (expr_text as1) lefts rights fresh (refl, tt)
      refine_holds

excepted-IsShallow : IsShallow excepted
unfolding IsShallow depth_of
excepted-IsShallow = (omega arith, omega arith)

total_nodes-flatten_example : total_nodes result ≤ max_flatten_nodes
total_nodes-flatten_example =
    total_nodes-flatten expr_text excepted ipv4 result excepted-IsShallow flatten_run

except_terms-enough_example : failed (except_terms lefts rights fresh).1 ≡ false
unfolding cost exceptions or_filters covered_filters covered_size
except_terms-enough_example =
    except_terms-enough lefts (wterm as1 peer_as 1) [] fresh refl (omega arith)

refine_terms-enough_example : failed (refine_terms expr_text lefts rights fresh).1 ≡ false
unfolding cost refined refined_with refine_term intersect_peerings intersect_vias is_any_peering
    is_any text_eq
refine_terms-enough_example = refine_terms-enough expr_text lefts rights fresh refl (omega arith)
