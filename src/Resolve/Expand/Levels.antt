-- ===== src/Resolve/Expand/Levels.antt =====
-- The levels of `discover` of resolve/expander.go: after the last one every set seen was handled.
use mathlib.Core.List.{Memᴰ}
use mathlib.Core.List.Memᴰ
use mathlib.Core.Path.{subst}
use rpsl.Base.{
  ℕ, zero, suc, ◌+◌, ◌≤◌, ◌≡◌, ◌≢◌, refl, sym, ap, ◌∙◌, ◌⊎◌, inl, inr, Bool, List, [], ◌∷◌, ◌++◌,
  Option, none, some, ◌==◌, arith,
}
use rpsl.Base.Membership.{last_cases, last_mem}
use rpsl.Lexer.Text.{Bytes}
use rpsl.Object.Sets.{NamedSet}
use rpsl.Resolve.Expand.{
  Source, Expander, ExpandError, Fetched, fetched, fetch_failed, not_found, other_error, max_depth,
  nested_refs, fetch_one,
}
use rpsl.Resolve.Expand.Discover.{Search, start, begin, offer, visit, settle, after_level, levels}
use rpsl.Resolve.Expand.Outcome.{
  Outcome, each, Ends, Ends-if, Ends-and_then, Ends-mono, Reached, Ends-each,
}
use rpsl.Resolve.Expand.Reachable
use rpsl.Resolve.Expand.Reachable.{
  Reach, here, further, found, lost, Grows-refl, Grows-trans, Handled-kept, Ends-offer,
}
use rpsl.Types.SetRef.{SetRef}

module _ (trim_space : Bytes → Bytes) (src : Source) (e : Expander) (any_leaf : Bool)
    (top : SetRef) where
  abbrev Inv : ℕ → Search → Type 0
  Inv = Reachable.Inv trim_space src e any_leaf top

  abbrev Grows : Search → Search → Type 0
  Grows = Reachable.Grows trim_space src e any_leaf top

  abbrev Handled : SetRef → Search → Type 0
  Handled = Reachable.Handled trim_space src e any_leaf top

  abbrev Offered : SetRef → Search → Type 0
  Offered = Reachable.Offered trim_space src e any_leaf top

  -- The invariant of the loop over a level, whose references are all seen.
  abbrev LevelInv : List SetRef → ℕ → Search → Type 0
  LevelInv level depth s = Inv depth s × ((q : SetRef) → Memᴰ q level → Memᴰ q s.seen)

  -- What a round of that loop has to show of the state after it.
  abbrev Round : List SetRef → ℕ → SetRef → Search → Search → Type 0
  Round level depth r s t = LevelInv level depth t × Grows s t × Handled r t

  module _ (level : List SetRef) (depth : ℕ) (r : SetRef) (s : Search) (i : Inv depth s)
      (l : (q : SetRef) → Memᴰ q level → Memᴰ q s.seen) (m : Memᴰ r s.seen) where
    abbrev with_missing : Search
    with_missing = record s { missing = s.missing ++ r ∷ [] }

    Round-lost :
        fetch_one trim_space src r ≡ fetch_failed not_found → Round level depth r s with_missing
    Round-lost f = (
      (
        record {
          top_seen = i.top_seen;
          seen_sound = i.seen_sound;
          next_seen = i.next_seen;
          node_sound = i.node_sound;
          missing_sound = λ q n. elim (last_cases s.missing n) [
            | inl k ↦ i.missing_sound q k
            | inr x ↦ (Memᴰ.cast x m, ap (fetch_one trim_space src) x ∙ f)
          ];
          shallow = i.shallow;
          few = i.few;
          noted = i.noted;
          quiet = i.quiet;
        },
        l,
      ),
      record {
        seen_kept = λ q n. n;
        node_kept = λ q set n. n;
        missing_kept = λ q n. Memᴰ.append_left (r ∷ []) n;
        next_kept = λ q n. n;
        blocked_kept = λ b. b;
        covered = λ q n. inl n;
      },
      lost f (last_mem s.missing r),
    )

    module _ (set : NamedSet) (f : fetch_one trim_space src r ≡ fetched set) where
      abbrev with_node : Search
      with_node = record s { nodes = s.nodes ++ (r, set) ∷ [] }

      Inv-with_node : Inv depth with_node
      Inv-with_node = record {
        top_seen = i.top_seen;
        seen_sound = i.seen_sound;
        next_seen = i.next_seen;
        node_sound = λ q other n. elim (last_cases s.nodes n) [
          | inl k ↦ i.node_sound q other k
          | inr x ↦ (
            Memᴰ.cast (ap (λ (p : SetRef × NamedSet). p.0) x) m,
            ap (λ (p : SetRef × NamedSet). fetch_one trim_space src p.0) x
                ∙ f
                ∙ sym (ap (λ (p : SetRef × NamedSet). fetched p.1) x),
          )
        ];
        missing_sound = i.missing_sound;
        shallow = i.shallow;
        few = i.few;
        noted = i.noted;
        quiet = i.quiet;
      }

      Grows-with_node : Grows s with_node
      Grows-with_node = record {
        seen_kept = λ q n. n;
        node_kept = λ q other n. Memᴰ.append_left ((r, set) ∷ []) n;
        missing_kept = λ q n. n;
        next_kept = λ q n. n;
        blocked_kept = λ b. b;
        covered = λ q n. inl n;
      }

      Ends-found :
          Ends
            (Round level depth r s)
            (each (offer trim_space src e any_leaf depth) (nested_refs set) with_node)
      Ends-found =
          Ends-mono (Reached (Inv depth) Grows Offered (nested_refs set) with_node)
            (Round level depth r s)
            (each (offer trim_space src e any_leaf depth) (nested_refs set) with_node)
            (λ t d.
              let g =
                Grows-trans trim_space src e any_leaf top s with_node t Grows-with_node d.grows in
              (
                (d.invariant, λ q n. g.seen_kept q (l q n)),
                g,
                found set f (d.grows.node_kept r set (last_mem s.nodes (r, set))) d.goals,
              ))
            (Ends-each (Inv depth) Grows Offered (Grows-refl trim_space src e any_leaf top)
              (Grows-trans trim_space src e any_leaf top)
              (λ c t u g offered x. g.seen_kept c (offered x))
              (offer trim_space src e any_leaf depth) (nested_refs set)
              (λ c n.
                Ends-offer trim_space src e any_leaf top depth c
                  (λ x. further (i.seen_sound r m) (set, f, n, x)))
              with_node Inv-with_node)

  Ends-visit :
      (level : List SetRef) (depth : ℕ) (r : SetRef)
      → Memᴰ r level
      → (s : Search) → LevelInv level depth s
      → Ends (Round level depth r s) (visit trim_space src e any_leaf depth r s)
  unfolding visit settle Ends
  Ends-visit level depth r n s (i, l) = of (fetch_one trim_space src r) refl
    where
      of :
          (o : Fetched NamedSet)
          → fetch_one trim_space src r ≡ o
          → Ends (Round level depth r s) (settle trim_space src e any_leaf depth r s o)
      of (fetched set) f = Ends-found level depth r s i l (l r n) set f
      of (fetch_failed other_error) f = tt
      of (fetch_failed not_found) f =
          Ends-if (Round level depth r s) (depth == 0) _ _ (λ z. tt)
            (λ z. Round-lost level depth r s i l (l r n) f)

  -- How the levels end: every set seen was handled, or AS-ANY was met, which is noted.
  pub record Explored (s : Search) : Type 0 where
    pub at : (depth : ℕ) × Inv depth s
    pub handled : ((r : SetRef) → Memᴰ r s.seen → Handled r s) ⊎ (s.any_refs ≢ [])

  -- Between two levels.
  pub record Between (level : List SetRef) (depth : ℕ) (s : Search) : Type 0 where
    pub inv : (d : ℕ) × Inv d s
    pub level_seen : (q : SetRef) → Memᴰ q level → Memᴰ q s.seen
    pub waiting : (r : SetRef) → Memᴰ r s.seen → Memᴰ r level ⊎ Handled r s
    pub shallow : (r : SetRef) → Memᴰ r level → depth ≤ max_depth e

  Inv-begin : (d depth : ℕ) (s : Search) → Inv d s → Inv depth (begin s)
  Inv-begin d depth s i = record {
    top_seen = i.top_seen;
    seen_sound = i.seen_sound;
    next_seen = λ q m. absurd (Memᴰ.not-nil m);
    node_sound = i.node_sound;
    missing_sound = i.missing_sound;
    shallow = λ q m. absurd (Memᴰ.not-nil m);
    few = i.few;
    noted = λ a h l. absurd (cc h);
    quiet = i.quiet;
  }

  Handled-begin : (r : SetRef) (s : Search) → Handled r s → Handled r (begin s)
  Handled-begin r s (found set f m offered) = found set f m offered
  Handled-begin r s (lost f m) = lost f m

  -- A level after which nothing blocks the search.
  Between-next :
      (level : List SetRef) (depth : ℕ) (s t : Search)
      → Between level depth s
      → Reached (LevelInv level depth) Grows Handled level (begin s) t
      → t.any_ref ≡ none
      → Between t.next (depth + 1) t
  Between-next level depth s t b d n = record {
    inv = (depth, d.invariant.0);
    level_seen = d.invariant.0.next_seen;
    waiting = λ r m. elim (d.grows.covered r m) [
      | inr (inl waits) ↦ inl waits
      | inr (inr (a, x)) ↦ absurd (cc (sym n ∙ x))
      | inl k ↦ elim (b.waiting r k) [
        | inl now ↦ inr (d.goals r now)
        | inr h ↦
            inr (
              Handled-kept trim_space src e any_leaf top r (begin s) t d.grows
                (Handled-begin r s h))
      ]
    ];
    shallow = d.invariant.0.shallow;
  }

  Ends-level :
      (level : List SetRef) (depth : ℕ) (s : Search)
      → Between level depth s
      → Ends
          (Reached (LevelInv level depth) Grows Handled level (begin s))
          (each (visit trim_space src e any_leaf depth) level (begin s))
  Ends-level level depth s b =
      Ends-each (LevelInv level depth) Grows Handled (Grows-refl trim_space src e any_leaf top)
        (Grows-trans trim_space src e any_leaf top) (Handled-kept trim_space src e any_leaf top)
        (visit trim_space src e any_leaf depth) level (Ends-visit level depth) (begin s)
        (Inv-begin b.inv.0 depth s b.inv.1, b.level_seen)

  Ends-after_level :
      (level : List SetRef) (depth : ℕ) (s t : Search) (go : Search → Outcome ExpandError Search)
      → Reached (LevelInv level depth) Grows Handled level (begin s) t
      → (t.any_ref ≡ none → Ends Explored (go t))
      → Ends Explored (after_level trim_space src e any_leaf go t t.any_ref)
  unfolding after_level Ends
  Ends-after_level level depth s t go d next = of t.any_ref refl
    where
      of :
          (o : Option SetRef)
          → t.any_ref ≡ o
          → Ends Explored (after_level trim_space src e any_leaf go t o)
      of none n = next n
      of (some a) n =
          Ends-if Explored any_leaf _ _
            (λ l. record { at = (depth, d.invariant.0); handled = inr (d.invariant.0.noted a n l) })
            (λ l. tt)

  pub Ends-levels :
      (fuel depth : ℕ) (level : List SetRef) (s : Search)
      → suc (max_depth e) ≤ fuel + depth
      → Between level depth s
      → Ends Explored (levels trim_space src e any_leaf fuel depth level s)
  unfolding levels Ends
  Ends-levels fuel depth [] s n b = record {
    at = b.inv;
    handled =
        inl (λ r m. elim (b.waiting r m) [ inl waits ↦ absurd (Memᴰ.not-nil waits) | inr h ↦ h ]);
  }
  Ends-levels zero depth (r ∷ level) s n b = absurd (omega (arith, n, b.shallow r (Memᴰ.head refl)))
  Ends-levels (suc fuel) depth (r ∷ level) s n b =
      Ends-and_then (Reached (LevelInv (r ∷ level) depth) Grows Handled (r ∷ level) (begin s))
        Explored (each (visit trim_space src e any_leaf depth) (r ∷ level) (begin s)) _
        (Ends-level (r ∷ level) depth s b)
        (λ t d.
          Ends-after_level (r ∷ level) depth s t
            (λ u. levels trim_space src e any_leaf fuel (depth + 1) u.next u) d
            (λ x.
              Ends-levels fuel (depth + 1) t.next t (omega (arith, n))
                (Between-next (r ∷ level) depth s t b d x)))

  pub Between-start : Between (top ∷ []) 0 (start top)
  Between-start = record {
    inv = (
      0,
      record {
        top_seen = Memᴰ.head refl;
        seen_sound = λ r m. subst (Reach trim_space src e top) (sym (Memᴰ.eq_of_singleton m)) here;
        next_seen = λ q m. absurd (Memᴰ.not-nil m);
        node_sound = λ r set m. absurd (Memᴰ.not-nil m);
        missing_sound = λ r m. absurd (Memᴰ.not-nil m);
        shallow = λ r m. absurd (Memᴰ.not-nil m);
        few = omega arith;
        noted = λ a h l. absurd (cc h);
        quiet = λ l. refl;
      },
    );
    level_seen = λ q m. m;
    waiting = λ r m. inl m;
    shallow = λ r m. omega arith;
  }
