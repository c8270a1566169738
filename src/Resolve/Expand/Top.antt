-- ===== src/Resolve/Expand/Top.antt =====
-- `discover` of resolve/expander.go returns no graph where the set that is asked for is not found.
use mathlib.Core.Path.{subst}
use rpsl.Base.{◌≡◌, refl, sym, Bool}
use rpsl.Lexer.Text.{Bytes}
use rpsl.Object.Sets.{NamedSet}
use rpsl.Resolve.Expand.{
  Source, Expander, ExpandError, Fetched, fetched, fetch_failed, FetchError, not_found, other_error,
  fetch_one,
}
use rpsl.Resolve.Expand.Discover.{SetGraph, start, begin, settle, visit, levels, discover}
use rpsl.Resolve.Expand.Found.{Discovered, Ends-discover}
use rpsl.Resolve.Expand.Outcome.{
  Outcome, Ends, each, Ends-if, Ends-mono, Ends-and_then, Ends-failed,
}
use rpsl.Types.SetName.{is_any}
use rpsl.Types.SetRef.{SetRef}

module _ (trim_space : Bytes → Bytes) (src : Source) (e : Expander) (any_leaf : Bool)
    (top : SetRef) where
  abbrev Graph : SetGraph → Type 0
  Graph = Discovered trim_space src e any_leaf top

  -- Without the top set there is no graph.
  Fails : {S : Type 0} → Outcome ExpandError S → Type 0
  Fails o = Ends (λ s. ⊥) o

  Fails-discover :
      (x : FetchError)
      → fetch_one trim_space src top ≡ fetch_failed x
      → Fails (discover trim_space src e any_leaf top)
  unfolding discover levels each visit Fails
  Fails-discover x f =
      Ends-if (λ s. ⊥) (is_any top.name) _ _ (λ h. Ends-failed (λ s. ⊥) _)
        (λ h.
          Ends-and_then (λ s. ⊥) (λ s. ⊥) _ _
            (Ends-and_then (λ s. ⊥) (λ s. ⊥) _ _
              (Ends-and_then (λ s. ⊥) (λ s. ⊥) _ _
                (subst
                  (λ o.
                    Ends (λ s. ⊥) (settle trim_space src e any_leaf 0 top (begin (start top)) o))
                  (sym f) (of x))
                (λ s n. absurd n))
              (λ s n. absurd n))
            (λ s n. absurd n))
    where
      of :
          (y : FetchError)
          → Ends
              (λ s. ⊥)
              (settle trim_space src e any_leaf 0 top (begin (start top)) (fetch_failed y))
      of other_error = Ends-failed (λ s. ⊥) _
      of not_found = Ends-failed (λ s. ⊥) _

  abbrev pub TopFound : Type 0
  TopFound = (set : NamedSet) × (fetch_one trim_space src top ≡ fetched set)

  pub Ends-discover_top : Ends (λ g. Graph g × TopFound) (discover trim_space src e any_leaf top)
  unfolding Fails
  Ends-discover_top = of (fetch_one trim_space src top) refl
    where
      of :
          (o : Fetched NamedSet)
          → fetch_one trim_space src top ≡ o
          → Ends (λ g. Graph g × TopFound) (discover trim_space src e any_leaf top)
      of (fetched set) f =
          Ends-mono Graph (λ g. Graph g × TopFound) (discover trim_space src e any_leaf top)
            (λ g d. (d, (set, f))) (Ends-discover trim_space src e any_leaf top)
      of (fetch_failed x) f =
          Ends-mono (λ g. ⊥) (λ g. Graph g × TopFound) (discover trim_space src e any_leaf top)
            (λ g n. absurd n) (Fails-discover x f)
