-- ===== src/Policy/Flatten/Exception.antt =====
-- EXCEPT (RFC 2622 §6.6): which terms of `exceptTerms` are in effect for a route.
use mathlib.Core.List.{append-nil, append_assoc}
use rpsl.Base.{
  ℕ, ◌+◌, ◌≡◌, refl, sym, ap, ap₂, ◌∙◌, inl, inr, Bool, true, false, not, ◌&&◌, Bool-cases, List,
  [], ◌∷◌, ◌++◌, map, if◌then◌else◌,
}
use rpsl.Policy.Ast.{Peering, Action, Filter, filter_not, Filters, no_filters, with_filter}
use rpsl.Policy.Flatten.{WTerm, Flattener, failed, is_nil_filter, or_filters}
use rpsl.Policy.Flatten.Matching.{matches, matches_any, matches-and_filters, matches-or_filters}
use rpsl.Policy.Flatten.Terms.{
  except_term, except_terms, except_all, covered_filters, covered_size, rest_term, push_all,
}
use rpsl.Policy.Flatten.Loops.{exceptions, except_all-Yields, push_all-Yields, built-Yields}

-- Every term has a filter.
abbrev pub AllFiltered : List WTerm → Type 0
AllFiltered [] = Unit {0}
AllFiltered (t ∷ ts) = (is_nil_filter t.term.filter ≡ false) × AllFiltered ts

abbrev pub Role : Type 0
Role = Peering × Peering × List Action

abbrev pub role_of : WTerm → Role
role_of t = (t.term.via, t.term.peering, t.term.actions)

-- The right-hand roles once for each left-hand one.
abbrev pub copies : List Role → List Role → List Role
copies [] right = []
copies (x ∷ left) right = right ++ copies left right

-- The right-hand side overrides the left-hand side for what the left-hand side has.
abbrev pub overridden : List Role → List Role → List Role
overridden left [] = left
overridden left (y ∷ right) = copies left (y ∷ right)

abbrev any_role : List Role → Bool
any_role [] = false
any_role (x ∷ roles) = true

copies-nil : (left : List Role) → copies left [] ≡ []
copies-nil [] = refl
copies-nil (x ∷ left) = copies-nil left

module _ (atom : Filter → Bool) where
  -- The peerings and the actions of each term whose filter matches, in the order of the terms.
  unfoldable pub roles : List WTerm → List Role
  roles [] = []
  roles (t ∷ ts) =
      let rest = roles ts in if matches atom t.term.filter then role_of t ∷ rest else rest

  roles-append : (ts us : List WTerm) → roles (ts ++ us) ≡ roles ts ++ roles us
  unfolding roles
  roles-append [] us = refl
  roles-append (t ∷ ts) us = elim (Bool-cases (matches atom t.term.filter)) [
    | inl e ↦ rw e (ap (◌∷◌ (role_of t)) (roles-append ts us))
    | inr e ↦ rw e (roles-append ts us)
  ]

  roles-pairs :
      (l : WTerm) (right : List WTerm)
      → roles (map (except_term l) right) ≡ (if matches atom l.term.filter then roles right else [])
  unfolding roles
  roles-pairs l [] = elim (Bool-cases (matches atom l.term.filter)) [
    | inl e ↦ rw e refl
    | inr e ↦ rw e refl
  ]
  roles-pairs l (r ∷ right) =
      rw (matches-and_filters atom l.term.filter r.term.filter)
        (elim (Bool-cases (matches atom l.term.filter)) [
          | inl e ↦ rw e (
              ap (λ x. if matches atom r.term.filter then role_of r ∷ x else x)
                (roles-pairs l right ∙ ap (λ b. if b then roles right else []) e))
          | inr e ↦ rw e (roles-pairs l right ∙ ap (λ b. if b then roles right else []) e)
        ])

  roles-exceptions :
      (left right ts : List WTerm)
      → roles (exceptions left right ts) ≡ copies (roles left) (roles right) ++ roles ts
  unfolding roles exceptions
  roles-exceptions [] right ts = refl
  roles-exceptions (l ∷ left) right ts =
      roles-append (map (except_term l) right) (exceptions left right ts)
      ∙ ap₂ ◌++◌ (roles-pairs l right) (roles-exceptions left right ts)
      ∙ elim (Bool-cases (matches atom l.term.filter)) [
        | inl e ↦
            rw e (sym (append_assoc (roles right) (copies (roles left) (roles right)) (roles ts)))
        | inr e ↦ rw e refl
      ]

  -- What the left-hand side keeps: nothing where `rest` matches.
  roles-rest :
      (rest : Filter) (w : ℕ) (left : List WTerm)
      → is_nil_filter rest ≡ false
      → roles (map (rest_term rest w) left) ≡ (if matches atom rest then [] else roles left)
  unfolding roles matches
  roles-rest rest w [] h = elim (Bool-cases (matches atom rest)) [
    | inl e ↦ rw e refl
    | inr e ↦ rw e refl
  ]
  roles-rest rest w (l ∷ left) h = rw h (
      rw (matches-and_filters atom l.term.filter (filter_not rest)) (
        keep (matches atom l.term.filter) (matches atom rest) (role_of l)
          (roles (map (rest_term rest w) left)) (roles left) (roles-rest rest w left h)))
    where
      keep :
          (b c : Bool) (x : Role) (kept first : List Role)
          → kept ≡ (if c then [] else first)
          → (if b && not c then x ∷ kept else kept)
            ≡ (if c then [] else if b then x ∷ first else first)
      keep true true x kept first e = e
      keep true false x kept first e = ap (◌∷◌ x) e
      keep false c x kept first e = e

  covered_any :
      (right : List WTerm)
      → AllFiltered right
      → matches_any atom (covered_filters right) ≡ any_role (roles right)
  unfolding roles covered_filters matches_any
  covered_any [] h = refl
  covered_any (r ∷ right) h = rw (h.0) (elim (Bool-cases (matches atom r.term.filter)) [
    | inl e ↦ rw e refl
    | inr e ↦ rw e (covered_any right h.1)
  ])

  covered-with :
      (r : WTerm) (right : List WTerm)
      → is_nil_filter r.term.filter ≡ false
      → covered_filters (r ∷ right) ≡ with_filter r.term.filter (covered_filters right)
  unfolding covered_filters
  covered-with r right h = rw h refl

  or_filters-filtered :
      (f : Filter) (fs : Filters)
      → is_nil_filter f ≡ false
      → is_nil_filter (or_filters (with_filter f fs)) ≡ false
  unfolding or_filters
  or_filters-filtered f no_filters h = h
  or_filters-filtered f (with_filter g fs) h = refl

  covered-any_match :
      (r : WTerm) (right : List WTerm)
      → AllFiltered (r ∷ right)
      → matches atom (or_filters (covered_filters (r ∷ right))) ≡ any_role (roles (r ∷ right))
  covered-any_match r right h =
      ap (λ fs. matches atom (or_filters fs)) (covered-with r right h.0)
      ∙ matches-or_filters atom r.term.filter (covered_filters right)
      ∙ ap (matches_any atom) (sym (covered-with r right h.0))
      ∙ covered_any (r ∷ right) h

  both_sides :
      (left right : List Role) (taken : Bool)
      → taken ≡ any_role right
      → copies left right ++ (if taken then [] else left) ≡ overridden left right
  both_sides left [] true e = cc
  both_sides left [] false e = ap (λ x. x ++ left) (copies-nil left)
  both_sides left (y ∷ right) true e = append-nil (copies left (y ∷ right))
  both_sides left (y ∷ right) false e = cc

  -- For any route, the terms of `exceptTerms` whose filter matches have these peerings and actions, in
  -- this order: where no right-hand term matches, those of the left-hand terms that match; otherwise
  -- those of the right-hand terms that match, once for each left-hand term that matches, and none of
  -- the left-hand terms. A filter matches by its Boolean structure, under any valuation of the filters
  -- that have none. The right-hand terms have filters, and the budget is not exceeded.
  pub roles-except_terms :
      (left right : List WTerm) (f : Flattener)
      → AllFiltered right
      → failed (except_terms left right f).1 ≡ false
      → roles (except_terms left right f).0 ≡ overridden (roles left) (roles right)
  unfolding except_terms roles
  roles-except_terms left [] f h ok = refl
  roles-except_terms left (r ∷ right) f h ok =
      let rest = or_filters (covered_filters (r ∷ right)) in
      let w = 2 + covered_size (r ∷ right) in
      let kept = map (rest_term rest w) left in
      ap roles
        (built-Yields (except_all left (r ∷ right) (push_all kept))
          (exceptions left (r ∷ right) kept) f
          (except_all-Yields left (r ∷ right) (push_all kept) kept (push_all-Yields kept)) ok).0
      ∙ roles-exceptions left (r ∷ right) kept
      ∙ ap (λ x. copies (roles left) (roles (r ∷ right)) ++ x)
          (roles-rest rest w left (
            ap (λ fs. is_nil_filter (or_filters fs)) (covered-with r right h.0)
            ∙ or_filters-filtered r.term.filter (covered_filters right) h.0))
      ∙ both_sides (roles left) (roles (r ∷ right)) (matches atom rest)
          (covered-any_match r right h)
