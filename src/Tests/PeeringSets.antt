-- ===== src/Tests/PeeringSets.antt =====
-- A peering-set PRNG-A with a peering written twice, and a reference to PRNG-B.
use rpsl.Base.{ℕ, ◌≡◌, refl, List, [], ◌∷◌, none, some, if◌then◌else◌}
use rpsl.Lexer.Text.{Bytes}
use rpsl.Object.Sets.{NamedSet, peering_group}
use rpsl.Policy.Ast.{Peering, peering_set_ref, peering_regexp}
use rpsl.Resolve.Expand.{Source, fetched, fetch_failed, not_found, wrong_class}
use rpsl.Resolve.Expand.Outcome.{done, failed}
use rpsl.Resolve.Expand.Peerings.{expand_peerings}
use rpsl.Tests.Expansion.{as_is, as_name, expander}
use rpsl.Types.SetName.{SetName, class_peering_set, name_eq}
use rpsl.Types.SetRef.{ref}

abbrev prng : ℕ → SetName
prng c = record { canon = b'P' ∷ b'R' ∷ b'N' ∷ b'G' ∷ b'-' ∷ c ∷ []; set_class = class_peering_set }

abbrev set_of : ℕ → List Peering → NamedSet
set_of c peerings = record {
  class = b'p' ∷ b'e' ∷ b'e' ∷ b'r' ∷ b'i' ∷ b'n' ∷ b'g' ∷ b'-' ∷ b's' ∷ b'e' ∷ b't' ∷ [];
  name = prng c;
  source = [];
  ref_mntners = [];
  body = peering_group peerings;
}

abbrev one : Peering
one = peering_regexp (b'1' ∷ []) none

abbrev two : Peering
two = peering_regexp (b'2' ∷ []) none

abbrev text_of : Peering → Bytes
text_of (peering_regexp text re) = text
text_of _ = []

abbrev registry : Source
unfolding name_eq
registry = record {
  get_set = λ r.
      if name_eq r.name (prng b'A')
      then fetched (some (set_of b'A' (one ∷ peering_set_ref (prng b'B') ∷ one ∷ [])))
      else if name_eq r.name (prng b'B')
      then fetched (some (set_of b'B' (two ∷ peering_set_ref (prng b'A') ∷ [])))
      else fetch_failed not_found;
  members_by_ref = λ set. fetched [];
  originated_routes = λ a afi. fetched [];
}

expand_peerings_run :
    (expand_peerings text_of as_is registry expander (ref (prng b'A'))
      ≡ done
          (record { list = one ∷ two ∷ []; seen = (b'2' ∷ []) ∷ (b'1' ∷ []) ∷ []; missing = [] }))
    × (expand_peerings text_of as_is registry expander (ref (as_name b'A')) ≡ failed wrong_class)
unfolding expand_peerings
expand_peerings_run = (refl, refl)
