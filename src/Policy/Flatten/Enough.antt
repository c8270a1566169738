-- ===== src/Policy/Flatten/Enough.antt =====
-- A budget that is enough: where the terms of EXCEPT or REFINE fit into it, the loops do not fail.
use rpsl.Base.{
  ℕ, ◌+◌, ◌≤◌, ◌≡◌, inl, inr, true, false, Bool-cases, Option, none, some, List, [], ◌∷◌, ◌++◌, map,
  ltb, arith,
}
use rpsl.Policy.Ast.{Peering}
use rpsl.Policy.Flatten.{WTerm, Flattener, failed, charge, max_flatten_nodes, or_filters}
use rpsl.Policy.Flatten.Terms.{
  Built, built, push, push_all, except_term, except_pairs, except_all, except_terms, rest_term,
  covered_filters, covered_size, refine_term, refine_pairs, refine_all, refine_terms,
}
use rpsl.Policy.Flatten.Loops.{cost, exceptions, refined, refined_with}

abbrev Grants : (Flattener → Built) → List WTerm → Type 0
Grants loop ts =
    (f : Flattener)
    → failed f ≡ false
    → f.spent + cost ts ≤ max_flatten_nodes
    → failed (loop f).1 ≡ false

charge_enough :
    (f : Flattener) (w : ℕ)
    → failed f ≡ false
    → f.spent + (w + 1) ≤ max_flatten_nodes
    → ((charge f w).0 ≡ true)
      × (failed (charge f w).1 ≡ false)
      × ((charge f w).1.spent ≡ f.spent + (w + 1))
unfolding charge
charge_enough f w h le = elim (Bool-cases (ltb max_flatten_nodes (f.spent + (w + 1)))) [
  | inl d ↦ absurd (ground (arith, d))
  | inr d ↦ ground (arith, h, d)
]

push-Grants :
    (t : WTerm) (rest : Flattener → Built) (ts : List WTerm)
    → Grants rest ts
    → Grants (push t rest) (t ∷ ts)
unfolding push cost
push-Grants t rest ts g f h le =
    let (ok, unfailed, spent) = charge_enough f t.w h (omega arith) in
    rw (ok, push) (g (charge f t.w).1 unfailed (omega arith))

push_all-Grants : (ts : List WTerm) → Grants (push_all ts) ts
unfolding push_all
push_all-Grants [] f h le = h
push_all-Grants (t ∷ ts) f h le = push-Grants t (push_all ts) ts (push_all-Grants ts) f h le

except_pairs-Grants :
    (l : WTerm) (right : List WTerm) (rest : Flattener → Built) (ts : List WTerm)
    → Grants rest ts
    → Grants (except_pairs l right rest) (map (except_term l) right ++ ts)
unfolding except_pairs
except_pairs-Grants l [] rest ts g = g
except_pairs-Grants l (r ∷ right) rest ts g =
    push-Grants (except_term l r) (except_pairs l right rest) (map (except_term l) right ++ ts)
      (except_pairs-Grants l right rest ts g)

except_all-Grants :
    (left right : List WTerm) (rest : Flattener → Built) (ts : List WTerm)
    → Grants rest ts
    → Grants (except_all left right rest) (exceptions left right ts)
unfolding except_all exceptions
except_all-Grants [] right rest ts g = g
except_all-Grants (l ∷ left) right rest ts g =
    except_pairs-Grants l right (except_all left right rest) (exceptions left right ts)
      (except_all-Grants left right rest ts g)

built-failed : (b : Built) → failed b.1 ≡ false → failed (built b).1 ≡ false
built-failed (none, f) h = h
built-failed (some ts, f) h = h

-- The terms of EXCEPT on a right-hand side that is not empty.
abbrev pub excepted : List WTerm → List WTerm → List WTerm
excepted left right =
    exceptions left right
      (map (rest_term (or_filters (covered_filters right)) (2 + covered_size right)) left)

-- `exceptTerms` does not fail where what it builds fits into what is left of the budget.
pub except_terms-enough :
    (left : List WTerm) (r : WTerm) (right : List WTerm) (f : Flattener)
    → failed f ≡ false
    → f.spent + cost (excepted left (r ∷ right)) ≤ max_flatten_nodes
    → failed (except_terms left (r ∷ right) f).1 ≡ false
unfolding except_terms
except_terms-enough left r right f h le =
    let kept =
      map (rest_term (or_filters (covered_filters (r ∷ right))) (2 + covered_size (r ∷ right)))
        left in
    built-failed (except_all left (r ∷ right) (push_all kept) f)
      (except_all-Grants left (r ∷ right) (push_all kept) kept (push_all-Grants kept) f h le)

module _ (expr_text : Peering → List ℕ) where
  refine_pairs-Grants :
      (l : WTerm) (right : List WTerm) (rest : Flattener → Built) (ts : List WTerm)
      → Grants rest ts
      → Grants (refine_pairs expr_text l right rest) (refined_with expr_text l right ts)
  unfolding refine_pairs refined_with
  refine_pairs-Grants l [] rest ts g = g
  refine_pairs-Grants l (r ∷ right) rest ts g =
      one (refine_term expr_text l r) (refine_pairs expr_text l right rest)
        (refined_with expr_text l right ts) (refine_pairs-Grants l right rest ts g)
    where
      one :
          (o : Option WTerm) (next : Flattener → Built) (us : List WTerm)
          → Grants next us
          → Grants
              (elim o [ none ↦ next | some t ↦ push t next ])
              (elim o [ none ↦ us | some t ↦ t ∷ us ])
      one none next us g = g
      one (some t) next us g = push-Grants t next us g

  refine_all-Grants :
      (left right : List WTerm)
      → Grants (refine_all expr_text left right) (refined expr_text left right)
  unfolding refine_all refined
  refine_all-Grants [] right = push_all-Grants []
  refine_all-Grants (l ∷ left) right =
      refine_pairs-Grants l right (refine_all expr_text left right) (refined expr_text left right)
        (refine_all-Grants left right)

  -- `refineTerms` does not fail where what it builds fits into what is left of the budget.
  pub refine_terms-enough :
      (left right : List WTerm) (f : Flattener)
      → failed f ≡ false
      → f.spent + cost (refined expr_text left right) ≤ max_flatten_nodes
      → failed (refine_terms expr_text left right f).1 ≡ false
  unfolding refine_terms
  refine_terms-enough left right f h le =
      built-failed (refine_all expr_text left right f) (refine_all-Grants left right f h le)
