-- ===== src/Resolve/Expand/Reachable.antt =====
-- The rounds of `discover` of resolve/expander.go: what they do to the sets seen, found and missing.
use mathlib.Core.List.{Memᴰ}
use mathlib.Core.List.Memᴰ
use mathlib.Core.Path.{subst}
use rpsl.Base.{
  ℕ, suc, ◌+◌, ◌≤◌, max, ◌≡◌, ◌≢◌, refl, sym, ap, ◌∙◌, ◌⊎◌, inl, inr, Bool, true, false, ◌||◌, List,
  [], ◌∷◌, ◌++◌, Option, none, some, any, length, ltb, leb, or_true, or_false, arith, if◌then◌else◌,
}
use rpsl.Base.Membership.{any-true, last_cases, last_mem}
use rpsl.Lexer.Text.{Bytes}
use rpsl.Object.Sets.{NamedSet}
use rpsl.Resolve.Expand.{
  Source, Expander, fetched, fetch_failed, not_found, max_depth, max_visited, excludes_set,
  nested_refs, fetch_one,
}
use rpsl.Resolve.Expand.Discover.{Search, note, take_any, take_next, offer}
use rpsl.Resolve.Expand.Outcome.{Ends, Ends-if}
use rpsl.Types.SetName.{is_any}
use rpsl.Types.SetRef.{SetRef, ref_eq, ref_eq-true}

-- `c` is a set that `r` points to and that is not left out.
abbrev pub Edge : (Bytes → Bytes) → Source → Expander → SetRef → SetRef → Type 0
Edge trim_space src e r c =
    (set : NamedSet) × (fetch_one trim_space src r ≡ fetched set)
    × Memᴰ c (nested_refs set)
    × (excludes_set e c.name ≡ false)

pub data Reach (trim_space : Bytes → Bytes) (src : Source) (e : Expander) (top : SetRef)
    : SetRef → Type 0 where
  here : Reach trim_space src e top top
  further :
      {r c : SetRef}
      → Reach trim_space src e top r
      → Edge trim_space src e r c
      → Reach trim_space src e top c

module _ (trim_space : Bytes → Bytes) (src : Source) (e : Expander) (any_leaf : Bool)
    (top : SetRef) where
  -- A reference to AS-ANY was met.
  abbrev pub Blocked : Search → Type 0
  Blocked s = (a : SetRef) × (s.any_ref ≡ some a)

  -- The set was fetched, and the references in it were offered; or it was not found.
  pub data Handled (r : SetRef) (s : Search) : Type 0 where
    found :
        (set : NamedSet)
        → fetch_one trim_space src r ≡ fetched set
        → Memᴰ (r, set) s.nodes
        → ((c : SetRef) → Memᴰ c (nested_refs set) → excludes_set e c.name ≡ false → Memᴰ c s.seen)
        → Handled r s
    lost : fetch_one trim_space src r ≡ fetch_failed not_found → Memᴰ r s.missing → Handled r s

  pub record Inv (depth : ℕ) (s : Search) : Type 0 where
    pub top_seen : Memᴰ top s.seen
    pub seen_sound : (r : SetRef) → Memᴰ r s.seen → Reach trim_space src e top r
    pub next_seen : (r : SetRef) → Memᴰ r s.next → Memᴰ r s.seen
    pub node_sound :
        (r : SetRef) (set : NamedSet)
        → Memᴰ (r, set) s.nodes
        → Memᴰ r s.seen × (fetch_one trim_space src r ≡ fetched set)
    pub missing_sound :
        (r : SetRef)
        → Memᴰ r s.missing
        → Memᴰ r s.seen × (fetch_one trim_space src r ≡ fetch_failed not_found)
    pub shallow : (r : SetRef) → Memᴰ r s.next → depth + 1 ≤ max_depth e
    pub few : length s.seen ≤ max (max_visited e) 1
    pub noted : (a : SetRef) → s.any_ref ≡ some a → any_leaf ≡ true → s.any_refs ≢ []
    pub quiet : any_leaf ≡ false → s.any_refs ≡ []

  pub record Grows (s t : Search) : Type 0 where
    pub seen_kept : (r : SetRef) → Memᴰ r s.seen → Memᴰ r t.seen
    pub node_kept : (r : SetRef) (set : NamedSet) → Memᴰ (r, set) s.nodes → Memᴰ (r, set) t.nodes
    pub missing_kept : (r : SetRef) → Memᴰ r s.missing → Memᴰ r t.missing
    pub next_kept : (r : SetRef) → Memᴰ r s.next → Memᴰ r t.next
    pub blocked_kept : Blocked s → Blocked t
    pub covered : (r : SetRef) → Memᴰ r t.seen → Memᴰ r s.seen ⊎ (Memᴰ r t.next ⊎ Blocked t)

  pub Grows-refl : (s : Search) → Grows s s
  Grows-refl s = record {
    seen_kept = λ r m. m;
    node_kept = λ r set m. m;
    missing_kept = λ r m. m;
    next_kept = λ r m. m;
    blocked_kept = λ b. b;
    covered = λ r m. inl m;
  }

  pub Grows-trans : (s t u : Search) → Grows s t → Grows t u → Grows s u
  Grows-trans s t u g h = record {
    seen_kept = λ r m. h.seen_kept r (g.seen_kept r m);
    node_kept = λ r set m. h.node_kept r set (g.node_kept r set m);
    missing_kept = λ r m. h.missing_kept r (g.missing_kept r m);
    next_kept = λ r m. h.next_kept r (g.next_kept r m);
    blocked_kept = λ b. h.blocked_kept (g.blocked_kept b);
    covered = λ r m. elim (h.covered r m) [
      | inr late ↦ inr late
      | inl n ↦ elim (g.covered r n) [
        | inl k ↦ inl k
        | inr (inl waits) ↦ inr (inl (h.next_kept r waits))
        | inr (inr b) ↦ inr (inr (h.blocked_kept b))
      ]
    ];
  }

  pub Handled-kept : (r : SetRef) (s t : Search) → Grows s t → Handled r s → Handled r t
  Handled-kept r s t g (found set f m offered) =
      found set f (g.node_kept r set m) (λ c n x. g.seen_kept c (offered c n x))
  Handled-kept r s t g (lost f m) = lost f (g.missing_kept r m)

  -- A reference that was offered is seen, or is left out.
  abbrev pub Offered : SetRef → Search → Type 0
  Offered c s = excludes_set e c.name ≡ false → Memᴰ c s.seen

  note-some : (r : SetRef) (o : Option SetRef) → (a : SetRef) × (note r o ≡ some a)
  note-some r none = (r, refl)
  note-some r (some a) = (a, refl)

  not_empty : {A : Type 0} (xs : List A) (a : A) → (xs ++ a ∷ []) ≢ []
  not_empty [] a h = cc h
  not_empty (x ∷ xs) a h = cc h

  -- What `offer`'s round has to show of the state after it.
  abbrev Round : ℕ → SetRef → Search → Search → Type 0
  Round depth r s t = Inv depth t × Grows s t × Offered r t

  seen_more :
      (r : SetRef) (s : Search)
      → Reach trim_space src e top r
      → ((q : SetRef) → Memᴰ q s.seen → Reach trim_space src e top q)
      → (q : SetRef) → Memᴰ q (r ∷ s.seen)
      → Reach trim_space src e top q
  seen_more r s p h q m = elim (Memᴰ.cases_cons m) [
    | inl x ↦ subst (Reach trim_space src e top) (sym x) p
    | inr n ↦ h q n
  ]

  module _ (depth : ℕ) (r : SetRef) (s : Search) (p : Reach trim_space src e top r)
      (v : suc (length s.seen) ≤ max_visited e) (i : Inv depth s) where
    Round-take_any : Round depth r s (take_any trim_space src e any_leaf r s)
    Round-take_any = (
      record {
        top_seen = Memᴰ.tail i.top_seen;
        seen_sound = seen_more r s p i.seen_sound;
        next_seen = λ q m. Memᴰ.tail (i.next_seen q m);
        node_sound = λ q set m. let (n, f) = i.node_sound q set m in (Memᴰ.tail n, f);
        missing_sound = λ q m. let (n, f) = i.missing_sound q m in (Memᴰ.tail n, f);
        shallow = i.shallow;
        few = omega (arith, v);
        noted = λ a h l.
            subst (λ b. (if b then s.any_refs ++ r ∷ [] else s.any_refs) ≢ []) (sym l)
              (not_empty s.any_refs r);
        quiet = λ l. ap (λ b. if b then s.any_refs ++ r ∷ [] else s.any_refs) l ∙ i.quiet l;
      },
      record {
        seen_kept = λ q m. Memᴰ.tail m;
        node_kept = λ q set m. m;
        missing_kept = λ q m. m;
        next_kept = λ q m. m;
        blocked_kept = λ b. note-some r s.any_ref;
        covered = λ q m. inr (inr (note-some r s.any_ref));
      },
      λ x. Memᴰ.head refl,
    )

    Round-take_next :
        depth + 1 ≤ max_depth e → Round depth r s (take_next trim_space src e any_leaf r s)
    Round-take_next d = (
      record {
        top_seen = Memᴰ.tail i.top_seen;
        seen_sound = seen_more r s p i.seen_sound;
        next_seen = λ q m. elim (last_cases s.next m) [
          | inl n ↦ Memᴰ.tail (i.next_seen q n)
          | inr x ↦ Memᴰ.head x
        ];
        node_sound = λ q set m. let (n, f) = i.node_sound q set m in (Memᴰ.tail n, f);
        missing_sound = λ q m. let (n, f) = i.missing_sound q m in (Memᴰ.tail n, f);
        shallow = λ q m. d;
        few = omega (arith, v);
        noted = i.noted;
        quiet = i.quiet;
      },
      record {
        seen_kept = λ q m. Memᴰ.tail m;
        node_kept = λ q set m. m;
        missing_kept = λ q m. m;
        next_kept = λ q m. Memᴰ.append_left (r ∷ []) m;
        blocked_kept = λ b. b;
        covered = λ q m. elim (Memᴰ.cases_cons m) [
          | inl x ↦ inr (inl (subst (λ c. Memᴰ c (s.next ++ r ∷ [])) (sym x) (last_mem s.next r)))
          | inr n ↦ inl n
        ];
      },
      λ x. Memᴰ.head refl,
    )

  -- A reference that is left alone is seen, or is left out.
  passed_over :
      (r : SetRef) (s : Search)
      → (any (ref_eq r) s.seen || excludes_set e r.name) ≡ true
      → Offered r s
  passed_over r s h x = elim (or_true (any (ref_eq r) s.seen) (excludes_set e r.name) h) [
    | inl a ↦ let (q, m, t) = any-true (ref_eq r) s.seen a in Memᴰ.cast (ref_eq-true r q t) m
    | inr y ↦ absurd (cc (sym x ∙ y))
  ]

  kept :
      (r : SetRef) (s : Search)
      → (any (ref_eq r) s.seen || excludes_set e r.name) ≡ false
      → excludes_set e r.name ≡ false
  kept r s h = (or_false (any (ref_eq r) s.seen) (excludes_set e r.name) h).1

  pub Ends-offer :
      (depth : ℕ) (r : SetRef)
      → (excludes_set e r.name ≡ false → Reach trim_space src e top r)
      → (s : Search) → Inv depth s
      → Ends (Round depth r s) (offer trim_space src e any_leaf depth r s)
  unfolding offer Ends
  Ends-offer depth r p s i =
      Ends-if (Round depth r s) (any (ref_eq r) s.seen || excludes_set e r.name) _ _
        (λ h. (i, Grows-refl s, passed_over r s h))
        (λ h.
          Ends-if (Round depth r s) (ltb (max_depth e) (depth + 1)) _ _ (λ d. tt)
            (λ d.
              Ends-if (Round depth r s) (leb (max_visited e) (length s.seen)) _ _ (λ v. tt)
                (λ v.
                  Ends-if (Round depth r s) (is_any r.name) _ _
                    (λ n. Round-take_any depth r s (p (kept r s h)) (ground arith) i)
                    (λ n.
                      Round-take_next depth r s (p (kept r s h)) (ground arith) i (ground arith)))))
