-- ===== src/Policy/Flatten/Refinement.antt =====
-- REFINE (RFC 2622 §6.5): the terms of `refineTerms`, for one session and one route.
use rpsl.Base.{
  ℕ, ◌≡◌, refl, sym, ap, ap₂, ◌∙◌, ◌⊎◌, inl, inr, Bool, true, false, ◌&&◌, ◌||◌, Bool-cases, Option,
  none, some, List, [], ◌∷◌, if◌then◌else◌, arith,
}
use rpsl.Types.SetName.{text_eq, text_eq_refl, text_eq-eq}
use rpsl.Policy.Ast.{Peering, no_peering, Filter}
use rpsl.Policy.Flatten.{WTerm, Flattener, failed, is_any_peering}
use rpsl.Policy.Flatten.Matching.{matches, matches-and_filters}
use rpsl.Policy.Flatten.Terms.{
  is_nil_peering, refine_term, refine_of, refine_terms, refine_all, intersect_peerings,
  intersect_vias,
}
use rpsl.Policy.Flatten.Loops.{refined, refined_with, refine_all-Yields, built-Yields}

and_true : (b : Bool) → (b && true) ≡ b
and_true true = refl
and_true false = refl

and_same : (b : Bool) → (b && b) ≡ b
and_same true = refl
and_same false = refl

apart : (u v : Bool) → (u ≡ true → v ≡ true → true ≡ false) → (u && v) ≡ false
apart true true h = h refl refl
apart true false h = refl
apart false v h = refl

and_false : (b : Bool) → (b && false) ≡ false
and_false true = refl
and_false false = refl

regroup :
    (va pa ma vb pb mb : Bool)
    → ((va && vb) && (pa && pb) && (ma && mb)) ≡ ((va && pa && ma) && (vb && pb && mb))
regroup va pa ma vb pb mb = ground arith

spread : (l r rs ts : Bool) → (l && r || (l && rs || ts)) ≡ (l && (r || rs) || ts)
spread true true rs ts = refl
spread true false rs ts = refl
spread false r rs ts = refl

distribute : (l ls rs : Bool) → (l && rs || ls && rs) ≡ ((l || ls) && rs)
distribute true ls true = refl
distribute true true false = refl
distribute true false false = refl
distribute false ls rs = refl

-- Every term has a peering.
abbrev pub AllPeered : List WTerm → Type 0
AllPeered [] = Unit
AllPeered (t ∷ ts) = (is_nil_peering t.term.peering ≡ false) × AllPeered ts

module _ (expr_text : Peering → List ℕ) (atom : Filter → Bool) where
  -- A session is known by the text of a peering. A peering that is absent, AS-ANY, and one of that
  -- text meet it.
  unfoldable pub meets : List ℕ → Peering → Bool
  meets name p = is_nil_peering p || is_any_peering p || text_eq (expr_text p) name

  unfoldable pub meets_option : List ℕ → Option Peering → Bool
  meets_option name none = false
  meets_option name (some p) = meets name p

  present :
      (name : List ℕ) (p : Peering)
      → is_nil_peering p ≡ false
      → meets name p ≡ (is_any_peering p || text_eq (expr_text p) name)
  unfolding meets
  present name p h = rw h refl

  meets-intersect_peerings :
      (name : List ℕ) (a b : Peering)
      → (is_nil_peering a && is_nil_peering b) ≡ false
      → meets_option name (intersect_peerings expr_text a b) ≡ (meets name a && meets name b)
  unfolding meets meets_option intersect_peerings
  meets-intersect_peerings name a b h = elim (Bool-cases (is_nil_peering a)) [
    | inl e ↦ rw e (rw (other e) (present name b (other e)))
    | inr e ↦ rw e (elim (Bool-cases (is_nil_peering b)) [
      | inl d ↦ rw d (present name a e ∙ sym (and_true _))
      | inr d ↦ rw d (elim (Bool-cases (is_any_peering a)) [
        | inl x ↦ rw x (present name b d)
        | inr x ↦ rw x (elim (Bool-cases (is_any_peering b)) [
          | inl y ↦ rw y (by_text e x ∙ sym (and_true _))
          | inr y ↦ rw y (named (Bool-cases (text_eq (expr_text a) (expr_text b))) e x)
        ])
      ])
    ])
  ]
    where
      other : is_nil_peering a ≡ true → is_nil_peering b ≡ false
      other e = ground (arith, h)

      by_text :
          is_nil_peering a ≡ false
          → is_any_peering a ≡ false
          → meets name a ≡ text_eq (expr_text a) name
      by_text e x = present name a e ∙ ap (λ q. q || text_eq (expr_text a) name) x

      named :
          (text_eq (expr_text a) (expr_text b) ≡ true)
            ⊎ (text_eq (expr_text a) (expr_text b) ≡ false)
          → is_nil_peering a ≡ false
          → is_any_peering a ≡ false
          → meets_option name (if text_eq (expr_text a) (expr_text b) then some a else none)
            ≡ (text_eq (expr_text a) name && text_eq (expr_text b) name)
      named (inl z) e x = rw z (
          by_text e x
          ∙ sym (and_same (text_eq (expr_text a) name))
          ∙ ap (λ t. text_eq (expr_text a) name && text_eq t name)
              (text_eq-eq (expr_text a) (expr_text b) z))
      named (inr z) e x = rw z (
          sym (
            apart (text_eq (expr_text a) name) (text_eq (expr_text b) name) (λ u v.
              sym (text_eq_refl (expr_text a))
              ∙ ap (text_eq (expr_text a))
                  (text_eq-eq (expr_text a) name u ∙ sym (text_eq-eq (expr_text b) name v))
              ∙ z)))

  absent : (name : List ℕ) (p : Peering) → is_nil_peering p ≡ true → meets name p ≡ true
  unfolding meets
  absent name p h = rw h refl

  meets-intersect_vias :
      (name : List ℕ) (a b : Peering)
      → meets_option name (intersect_vias expr_text a b) ≡ (meets name a && meets name b)
  unfolding meets meets_option intersect_vias
  meets-intersect_vias name a b = elim (Bool-cases (is_nil_peering a && is_nil_peering b)) [
    | inl e ↦ rw e (absent_both e)
    | inr e ↦ rw e (meets-intersect_peerings name a b e)
  ]
    where
      left : (u v : Bool) → (u && v) ≡ true → u ≡ true
      left true v h = refl
      left false v h = h

      right : (u v : Bool) → (u && v) ≡ true → v ≡ true
      right true v h = h
      right false v h = cc

      absent_both :
          (is_nil_peering a && is_nil_peering b) ≡ true
          → meets name no_peering ≡ (meets name a && meets name b)
      absent_both e = sym (
          ap₂ ◌&&◌ (absent name a (left (is_nil_peering a) (is_nil_peering b) e))
            (absent name b (right (is_nil_peering a) (is_nil_peering b) e)))

  -- A term serves a route of a session: its peerings meet the session, its filter the route.
  unfoldable pub serves : List ℕ → List ℕ → WTerm → Bool
  serves via name t =
      meets via t.term.via && meets name t.term.peering && matches atom t.term.filter

  unfoldable pub any_serves : List ℕ → List ℕ → List WTerm → Bool
  any_serves via name [] = false
  any_serves via name (t ∷ ts) = serves via name t || any_serves via name ts

  serves_option : List ℕ → List ℕ → Option WTerm → Bool
  serves_option via name none = false
  serves_option via name (some t) = serves via name t

  module _ (via name : List ℕ) where
    serves-refine_of :
        (l r : WTerm) (v p : Option Peering)
        → serves_option via name (elim p [
          | none ↦ none
          | some pe ↦ elim v [ none ↦ none | some ve ↦ some (refine_of l r ve pe) ]
        ])
          ≡ (meets_option via v
              && meets_option name p
              && (matches atom l.term.filter && matches atom r.term.filter))
    unfolding serves_option serves meets_option
    serves-refine_of l r none none = refl
    serves-refine_of l r (some ve) none =
        ap (λ b. b && (matches atom l.term.filter && matches atom r.term.filter))
          (sym (and_false (meets via ve)))
    serves-refine_of l r none (some pe) = refl
    serves-refine_of l r (some ve) (some pe) =
        ap (λ m. meets via ve && meets name pe && m)
          (matches-and_filters atom l.term.filter r.term.filter)

    serves-refine_term :
        (l r : WTerm)
        → (is_nil_peering l.term.peering && is_nil_peering r.term.peering) ≡ false
        → serves_option via name (refine_term expr_text l r)
          ≡ (serves via name l && serves via name r)
    unfolding refine_term serves
    serves-refine_term l r h =
        serves-refine_of l r (intersect_vias expr_text l.term.via r.term.via)
          (intersect_peerings expr_text l.term.peering r.term.peering)
        ∙ ap₂ (λ v p. v && p && (matches atom l.term.filter && matches atom r.term.filter))
            (meets-intersect_vias via l.term.via r.term.via)
            (meets-intersect_peerings name l.term.peering r.term.peering h)
        ∙ regroup (meets via l.term.via) (meets name l.term.peering) (matches atom l.term.filter)
            (meets via r.term.via) (meets name r.term.peering) (matches atom r.term.filter)

    any_serves-refined_with :
        (l : WTerm) (right ts : List WTerm)
        → is_nil_peering l.term.peering ≡ false
        → any_serves via name (refined_with expr_text l right ts)
          ≡ (serves via name l && any_serves via name right || any_serves via name ts)
    unfolding any_serves refined_with serves_option
    any_serves-refined_with l [] ts h =
        sym (ap (λ b. b || any_serves via name ts) (and_false (serves via name l)))
    any_serves-refined_with l (r ∷ right) ts h =
        found (refine_term expr_text l r) (refined_with expr_text l right ts)
        ∙ ap₂ ◌||◌ (serves-refine_term l r (ap (λ b. b && is_nil_peering r.term.peering) h))
            (any_serves-refined_with l right ts h)
        ∙ spread (serves via name l) (serves via name r) (any_serves via name right)
            (any_serves via name ts)
      where
        found :
            (o : Option WTerm) (next : List WTerm)
            → any_serves via name (elim o [ none ↦ next | some t ↦ t ∷ next ])
              ≡ (serves_option via name o || any_serves via name next)
        found none next = refl
        found (some t) next = refl

    any_serves-refined :
        (left right : List WTerm)
        → AllPeered left
        → any_serves via name (refined expr_text left right)
          ≡ (any_serves via name left && any_serves via name right)
    unfolding any_serves refined
    any_serves-refined [] right p = refl
    any_serves-refined (l ∷ left) right p =
        any_serves-refined_with l right (refined expr_text left right) p.0
        ∙ ap (λ b. serves via name l && any_serves via name right || b)
            (any_serves-refined left right p.1)
        ∙ distribute (serves via name l) (any_serves via name left) (any_serves via name right)

    -- The terms of `refineTerms` serve a route of a session exactly when a left-hand and a right-hand
    -- term do. A session is known by the text of its peering and of its via peering. The left-hand
    -- terms have peerings, and the budget is not exceeded.
    pub any_serves-refine_terms :
        (left right : List WTerm) (f : Flattener)
        → AllPeered left
        → failed (refine_terms expr_text left right f).1 ≡ false
        → any_serves via name (refine_terms expr_text left right f).0
          ≡ (any_serves via name left && any_serves via name right)
    unfolding refine_terms
    any_serves-refine_terms left right f p ok =
        ap (any_serves via name)
          (built-Yields (refine_all expr_text left right) (refined expr_text left right) f
            (refine_all-Yields expr_text left right) ok).0
        ∙ any_serves-refined left right p
