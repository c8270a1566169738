-- ===== src/Policy/Flatten/Matching.antt =====
-- What filters match, under a valuation of the filters that are no Boolean combination; and what
-- `andFilters`, `orFilters` and FilterNot make of it. A nil filter is no constraint.
use rpsl.Base.{
  ◌≡◌, refl, ap, ap₂, sym, ◌∙◌, Bool, true, false, not, ◌&&◌, ◌||◌, inl, inr, Bool-cases, arith,
}
use rpsl.Policy.Ast.{
  Filter, no_filter, filter_any, filter_peer_as, filter_prefix_list, filter_as_expr, filter_set_ref,
  filter_set_template, filter_path_re, filter_community, filter_and, filter_or, filter_not, Filters,
  no_filters, with_filter, append,
}
use rpsl.Policy.Flatten.{and_terms, or_terms, and_filters, is_nil_filter, all_or_terms, or_filters}

and_true : (b : Bool) → (b && true) ≡ b
and_true true = refl
and_true false = refl

or_false : (b : Bool) → (b || false) ≡ b
or_false true = refl
or_false false = refl

module _ (atom : Filter → Bool) where
  unfoldable mutual
    pub matches : Filter → Bool
    matches no_filter = true
    matches (filter_and terms) = matches_all terms
    matches (filter_or terms) = matches_any terms
    matches (filter_not inner) = not (matches inner)
    matches f = atom f

    pub matches_all : Filters → Bool
    matches_all no_filters = true
    matches_all (with_filter f fs) = matches f && matches_all fs

    pub matches_any : Filters → Bool
    matches_any no_filters = false
    matches_any (with_filter f fs) = matches f || matches_any fs

  matches_all-append :
      (fs gs : Filters) → matches_all (append fs gs) ≡ (matches_all fs && matches_all gs)
  unfolding matches_all append
  matches_all-append no_filters gs = ground arith
  matches_all-append (with_filter f fs) gs = ground (arith, matches_all-append fs gs)

  matches_any-append :
      (fs gs : Filters) → matches_any (append fs gs) ≡ (matches_any fs || matches_any gs)
  unfolding matches_any append
  matches_any-append no_filters gs = ground arith
  matches_any-append (with_filter f fs) gs = ground (arith, matches_any-append fs gs)

  matches_all-and_terms : (f : Filter) → matches_all (and_terms f) ≡ matches f
  unfolding matches_all matches and_terms
  matches_all-and_terms no_filter = refl
  matches_all-and_terms filter_any = and_true _
  matches_all-and_terms (filter_peer_as _) = and_true _
  matches_all-and_terms (filter_prefix_list _) = and_true _
  matches_all-and_terms (filter_as_expr _ _) = and_true _
  matches_all-and_terms (filter_set_ref _ _) = and_true _
  matches_all-and_terms (filter_set_template _ _) = and_true _
  matches_all-and_terms (filter_path_re _ _) = and_true _
  matches_all-and_terms (filter_community _ _ _) = and_true _
  matches_all-and_terms (filter_and _) = refl
  matches_all-and_terms (filter_or _) = and_true _
  matches_all-and_terms (filter_not _) = and_true _

  matches_any-or_terms : (f : Filter) → matches_any (or_terms f) ≡ matches f
  unfolding matches_any matches or_terms
  matches_any-or_terms no_filter = or_false _
  matches_any-or_terms filter_any = or_false _
  matches_any-or_terms (filter_peer_as _) = or_false _
  matches_any-or_terms (filter_prefix_list _) = or_false _
  matches_any-or_terms (filter_as_expr _ _) = or_false _
  matches_any-or_terms (filter_set_ref _ _) = or_false _
  matches_any-or_terms (filter_set_template _ _) = or_false _
  matches_any-or_terms (filter_path_re _ _) = or_false _
  matches_any-or_terms (filter_community _ _ _) = or_false _
  matches_any-or_terms (filter_and _) = or_false _
  matches_any-or_terms (filter_or _) = refl
  matches_any-or_terms (filter_not _) = or_false _

  matches-nil : (f : Filter) → is_nil_filter f ≡ true → matches f ≡ true
  unfolding matches
  matches-nil no_filter h = refl
  matches-nil filter_any h = cc
  matches-nil (filter_peer_as _) h = cc
  matches-nil (filter_prefix_list _) h = cc
  matches-nil (filter_as_expr _ _) h = cc
  matches-nil (filter_set_ref _ _) h = cc
  matches-nil (filter_set_template _ _) h = cc
  matches-nil (filter_path_re _ _) h = cc
  matches-nil (filter_community _ _ _) h = cc
  matches-nil (filter_and _) h = cc
  matches-nil (filter_or _) h = cc
  matches-nil (filter_not _) h = cc

  -- `andFilters` is the conjunction.
  pub matches-and_filters : (a b : Filter) → matches (and_filters a b) ≡ (matches a && matches b)
  unfolding matches and_filters
  matches-and_filters a b = elim (Bool-cases (is_nil_filter a)) [
    | inl e ↦ rw e (ap (λ x. x && matches b) (sym (matches-nil a e)))
    | inr e ↦ rw e (elim (Bool-cases (is_nil_filter b)) [
      | inl d ↦ rw d (sym (ap (λ x. matches a && x) (matches-nil b d) ∙ and_true (matches a)))
      | inr d ↦ rw d (
          matches_all-append (and_terms a) (and_terms b)
          ∙ ap₂ ◌&&◌ (matches_all-and_terms a) (matches_all-and_terms b))
    ])
  ]

  matches_any-all_or_terms : (fs : Filters) → matches_any (all_or_terms fs) ≡ matches_any fs
  unfolding matches_any all_or_terms
  matches_any-all_or_terms no_filters = refl
  matches_any-all_or_terms (with_filter f fs) =
      matches_any-append (or_terms f) (all_or_terms fs)
      ∙ ap₂ ◌||◌ (matches_any-or_terms f) (matches_any-all_or_terms fs)

  -- `orFilters` of one filter at least is the disjunction.
  pub matches-or_filters :
      (f : Filter) (fs : Filters)
      → matches (or_filters (with_filter f fs)) ≡ matches_any (with_filter f fs)
  unfolding matches matches_any or_filters
  matches-or_filters f no_filters = sym (or_false _)
  matches-or_filters f (with_filter g fs) =
      matches_any-all_or_terms (with_filter f (with_filter g fs))
