-- ===== src/Resolve/Expand/Denoted.antt =====
-- The ranges that `walk` of resolve/expander.go collects from the top of a graph.
use mathlib.Core.List.{Memᴰ}
use mathlib.Core.List.Memᴰ
use mathlib.Core.Path.{subst}
use rpsl.Base.{ℕ, suc, ◌≤◌, ◌≡◌, ◌↔◌, sym, ◌∙◌, inl, inr, List, some, length, arith}
use rpsl.Resolve.Expand.{Expander, max_visited, members}
use rpsl.Resolve.Expand.Adding
use rpsl.Resolve.Expand.Discover.{SetNode, SetGraph}
use rpsl.Resolve.Expand.Evaluate.{State, Eval, lookup, node_at, walk, no_ranges, evaluate}
use rpsl.Resolve.Expand.Evaluated.{Walks-walk}
use rpsl.Resolve.Expand.Outcome.{Ends, Ends-mono}
use rpsl.Resolve.Expand.States
use rpsl.Resolve.Expand.States.{at_top, deeper}
use rpsl.Resolve.OpStack.{empty}
use rpsl.Types.Netip.{Prefix}
use rpsl.Types.PrefixRange.{PrefixRange}

module _ (e : Expander) (g : SetGraph) (routes : ℕ → List Prefix) (max_ranges : ℕ) where
  -- What the evaluation collects.
  pub record Evaluated (v : Eval) : Type 0 where
    pub denoted : (r : PrefixRange) → (Memᴰ r v.out ↔ States.Denotes e g.top (node_at g) routes r)
    pub few : length v.out ≤ max_ranges

  module _ (v : Eval) (start : Memᴰ (g.top, empty) v.walked)
      (closed : (s : State) → Memᴰ s v.walked → Adding.Closed e g routes max_ranges s v) where
    same_node : (a b : SetNode) → some a ≡ some b → a ≡ b
    same_node a b h = cc h

    all_walked : {t : State} → States.Visited e g.top (node_at g) routes t → Memᴰ t v.walked
    all_walked at_top = start
    all_walked (deeper {s} {t} p nd looked m n leads) =
        let c = closed s (all_walked p) in
        let same = same_node nd c.node (sym looked ∙ c.looked) in
        c.followed m (subst (λ (x : SetNode). Memᴰ m (members x.set)) same n) t leads

    all_given : (r : PrefixRange) → States.Denotes e g.top (node_at g) routes r → Memᴰ r v.out
    all_given r d =
        let c = closed d.state (all_walked d.visited) in
        let same = same_node d.node c.node (sym d.looked ∙ c.looked) in
        elim d.given [
          | inl (m, n, x) ↦ c.given m (subst (λ (y : SetNode). Memᴰ m (members y.set)) same n) r x
          | inr (o, n, x) ↦ c.claimed o (subst (λ (y : SetNode). Memᴰ o y.claims) same n) r x
        ]

  pub Ends-evaluate :
      (nd : SetNode)
      → lookup g.top g.nodes ≡ some nd
      → Ends Evaluated (evaluate e g routes max_ranges g.top)
  unfolding evaluate
  Ends-evaluate nd looked =
      Ends-mono _ Evaluated
        (walk e g routes max_ranges (suc (max_visited e)) (g.top, empty)
          (no_ranges e g routes max_ranges))
        (λ v (i, grow, start). record {
          denoted = λ r. (
            i.out_sound r,
            all_given v start
                (λ s m. elim (grow.closed s m) [
                  | inr c ↦ c
                  | inl none_before ↦ absurd (Memᴰ.not-nil none_before)
                ])
                r,
          );
          few = i.few;
        })
        (Walks-walk e g routes max_ranges (suc (max_visited e)) 0 (omega arith) (g.top, empty)
          at_top nd looked (no_ranges e g routes max_ranges)
          (record {
            walked_sound = λ s m. absurd (Memᴰ.not-nil m);
            out_sound = λ r m. absurd (Memᴰ.not-nil m);
            late = omega arith;
            within = omega arith;
            few = omega arith;
          }))
