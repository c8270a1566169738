-- ===== src/Resolve/MemSource/Precedence.antt =====
-- Which copy of a set `GetSet` of resolve/memsource.go returns.
use mathlib.Core.List.{Memᴰ}
use mathlib.Core.List.Memᴰ
use mathlib.Core.Path.{subst}
use rpsl.Base.{
  ℕ, ◌≤◌, ◌<◌, ◌≡◌, refl, sym, ap, ◌∙◌, inl, inr, Bool, true, false, List, [], ◌∷◌, ◌++◌, Option,
  none, some, leb, arith, if◌then◌else◌,
}
use rpsl.Lexer.Text.{Bytes}
use rpsl.Object.Sets.{NamedSet}
use rpsl.Resolve.Expand.{Fetched, fetched, fetch_failed, not_found, other_error}
use rpsl.Resolve.MemSource.{
  CorpusObject, MemSet, rank, loaded, new_mem_source, answers, found_copy, get_set,
}
use rpsl.Resolve.MemSource.Sorted.{better, winner, find_first-sort_copies}
use rpsl.Types.SetRef.{SetRef}

module _ (rank_of : MemSet → ℕ) (passes : MemSet → Bool) where
  -- The copy that passes with the least rank, and of those the first.
  pub record IsFirstLeast (cs : List MemSet) (c : MemSet) : Type 0 where
    pub before : List MemSet
    pub after : List MemSet
    pub at : cs ≡ before ++ c ∷ after
    pub passing : passes c ≡ true
    pub above : (d : MemSet) → Memᴰ d before → passes d ≡ true → rank_of c < rank_of d
    pub not_below : (d : MemSet) → Memᴰ d after → passes d ≡ true → rank_of c ≤ rank_of d

  abbrev pub Won : List MemSet → Option MemSet → Type 0
  Won cs none = (d : MemSet) → Memᴰ d cs → passes d ≡ false
  Won cs (some c) = IsFirstLeast cs c

  -- A copy in front of the others.
  Won-skip :
      (c : MemSet) (cs : List MemSet) (o : Option MemSet)
      → passes c ≡ false
      → Won cs o
      → Won (c ∷ cs) o
  Won-skip c cs none x w =
      λ d m. elim (Memᴰ.cases_cons m) [ inl same ↦ ap passes same ∙ x | inr k ↦ w d k ]
  Won-skip c cs (some w) x h = record {
    before = c ∷ h.before;
    after = h.after;
    at = ap (◌∷◌ c) h.at;
    passing = h.passing;
    above = λ d m p. elim (Memᴰ.cases_cons m) [
      | inl same ↦ absurd (cc (sym p ∙ ap passes same ∙ x))
      | inr k ↦ h.above d k p
    ];
    not_below = h.not_below;
  }

  first_least_all :
      (cs : List MemSet) (c d : MemSet)
      → IsFirstLeast cs c
      → Memᴰ d cs
      → passes d ≡ true
      → rank_of c ≤ rank_of d
  first_least_all cs c d h m p = elim (Memᴰ.append_cases h.before (subst (Memᴰ d) h.at m)) [
    | inl k ↦ omega (arith, h.above d k p)
    | inr k ↦ elim (Memᴰ.cases_cons k) [
      | inl same ↦ omega (arith, ap rank_of same)
      | inr l ↦ h.not_below d l p
    ]
  ]

  front :
      (c : MemSet) (cs : List MemSet)
      → passes c ≡ true
      → ((d : MemSet) → Memᴰ d cs → passes d ≡ true → rank_of c ≤ rank_of d)
      → IsFirstLeast (c ∷ cs) c
  front c cs x h = record {
    before = [];
    after = cs;
    at = refl;
    passing = x;
    above = λ d m p. absurd (Memᴰ.not-nil m);
    not_below = h;
  }

  Won-better :
      (c : MemSet) (cs : List MemSet) (o : Option MemSet)
      → passes c ≡ true
      → Won cs o
      → Won (c ∷ cs) (some (better rank_of passes c o))
  unfolding better
  Won-better c cs none x w = front c cs x (λ d m p. absurd (cc (sym p ∙ w d m)))
  Won-better c cs (some w) x h = of (leb (rank_of c) (rank_of w)) refl
    where
      of : (b : Bool) → leb (rank_of c) (rank_of w) ≡ b → IsFirstLeast (c ∷ cs) (if b then c else w)
      of true t = front c cs x (λ d m p. ground (arith, t, first_least_all cs w d h m p))
      of false t = record {
        before = c ∷ h.before;
        after = h.after;
        at = ap (◌∷◌ c) h.at;
        passing = h.passing;
        above = λ d m p. elim (Memᴰ.cases_cons m) [
          | inl same ↦ ground (arith, t, ap rank_of same)
          | inr k ↦ h.above d k p
        ];
        not_below = h.not_below;
      }

  pub Won-winner : (cs : List MemSet) → Won cs (winner rank_of passes cs)
  unfolding winner
  Won-winner [] = λ d m. absurd (Memᴰ.not-nil m)
  Won-winner (c ∷ cs) = of (passes c) refl (Won-winner cs)
    where
      of :
          (b : Bool)
          → passes c ≡ b
          → Won cs (winner rank_of passes cs)
          → Won (c ∷ cs) (
              if b
              then some (better rank_of passes c (winner rank_of passes cs))
              else winner rank_of passes cs)
      of true x w = Won-better c cs (winner rank_of passes cs) x w
      of false x w = Won-skip c cs (winner rank_of passes cs) x w

module _ (trim_space to_upper : Bytes → Bytes) (dflt : Bytes → Bool) (precedence : List Bytes)
    (objs : List CorpusObject) (r : SetRef) where
  -- The copies of the set in the order of loading, their ranks, and whether they answer the reference.
  abbrev copies : List MemSet
  copies = loaded trim_space to_upper dflt precedence objs r.name

  abbrev pub Wins : MemSet → Type 0
  Wins =
      IsFirstLeast (rank trim_space to_upper dflt precedence)
        (answers trim_space to_upper dflt precedence r) copies

  abbrev pub Answered : Fetched (Option NamedSet) → Type 0
  Answered (fetched (some set)) = (c : MemSet) × (c.set ≡ set) × Wins c
  Answered (fetched none) = ⊥
  Answered (fetch_failed not_found) =
      (d : MemSet) → Memᴰ d copies → answers trim_space to_upper dflt precedence r d ≡ false
  Answered (fetch_failed other_error) = ⊥

  of_winner :
      (o : Option MemSet)
      → Won
          (rank trim_space to_upper dflt precedence)
          (answers trim_space to_upper dflt precedence r)
          copies
          o
      → Answered (found_copy trim_space to_upper dflt precedence o)
  of_winner none w = w
  of_winner (some c) w = (c, refl, w)

  -- GetSet of the Source built of a corpus finds nothing only where no copy of the set answers the
  -- reference: one of the registry that it is scoped to, or of a source that unscoped lookups see. A set
  -- that it returns is that of a copy which answers, with the least rank among those that do, and the
  -- first loaded of those with that rank.
  pub get_set-Answered : Answered (
      get_set trim_space to_upper dflt precedence
        (new_mem_source trim_space to_upper dflt precedence objs)
        r)
  unfolding get_set new_mem_source
  get_set-Answered =
      let order = rank trim_space to_upper dflt precedence in
      let passes = answers trim_space to_upper dflt precedence r in
      subst (λ o. Answered (found_copy trim_space to_upper dflt precedence o))
        (sym (find_first-sort_copies order passes copies))
        (of_winner (winner order passes copies) (Won-winner order passes copies))
