-- ===== src/Resolve/Expand/Peerings.antt =====
-- resolve/expand_more.go, `ExpandPeerings`, and the set of peerings of resolve/result.go. The rendering of
-- a peering is a parameter, any function of the peering.
use rpsl.Base.{false, not, List, [], ◌∷◌, ◌++◌, any, if◌then◌else◌}
use rpsl.Lexer.Text.{Bytes}
use rpsl.Object.Sets.{Body, peering_group}
use rpsl.Policy.Ast.{Peering, no_peering, peering_set_ref}
use rpsl.Resolve.Expand.{Source, Expander, ExpandError, wrong_class}
use rpsl.Resolve.Expand.Discover.{SetNode, SetGraph, discover}
use rpsl.Resolve.Expand.Outcome.{Outcome, done, failed, and_then}
use rpsl.Resolve.Expand.Ranges.{ordered}
use rpsl.Types.SetName.{class_peering_set, class_eq, text_eq}
use rpsl.Types.SetRef.{SetRef}

pub record Peerings : Type 0 where
  pub list : List Peering
  pub seen : List Bytes
  pub missing : List SetRef

-- `SetPeerings` of a peering-set, and nothing of any other class.
abbrev pub body_peerings : Body → List Peering
body_peerings (peering_group peerings) = peerings
body_peerings _ = []

module _ (peering_text : Peering → Bytes) where
  -- `Peerings.add`
  unfoldable pub add_peering : Peering → Peerings → Peerings
  unfolding text_eq
  add_peering no_peering s = s
  add_peering p s =
      let text = peering_text p in
      if any (text_eq text) s.seen
      then s
      else record s { seen = text ∷ s.seen; list = s.list ++ p ∷ [] }

  -- The loop over the peerings of one set: a reference was followed by discovery.
  unfoldable pub add_peerings : List Peering → Peerings → Peerings
  unfolding add_peering
  add_peerings [] s = s
  add_peerings (peering_set_ref n ∷ ps) s = add_peerings ps s
  add_peerings (p ∷ ps) s = add_peerings ps (add_peering p s)

  unfoldable pub all_peerings : List SetNode → Peerings → Peerings
  unfolding add_peerings
  all_peerings [] s = s
  all_peerings (nd ∷ nds) s = all_peerings nds (add_peerings (body_peerings nd.set.body) s)

  abbrev pub peerings_of : SetGraph → Peerings
  peerings_of g = all_peerings (ordered g) (record { list = []; seen = []; missing = g.missing })

  unfoldable pub expand_peerings :
      (Bytes → Bytes) → Source → Expander → SetRef → Outcome ExpandError Peerings
  unfolding discover ordered all_peerings and_then
  expand_peerings trim_space src e top =
      if not (class_eq top.name.set_class class_peering_set)
      then failed wrong_class
      else and_then (discover trim_space src e false top) (λ g. done (peerings_of g))
