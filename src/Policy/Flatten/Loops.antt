-- ===== src/Policy/Flatten/Loops.antt =====
-- What the loops of policy/flatten.go build where the budget holds, and what they spend.
use rpsl.Base.{
  ℕ, ◌+◌, ◌≤◌, ◌≡◌, refl, inl, inr, true, false, Bool-cases, Option, none, some, List, [], ◌∷◌,
  ◌++◌, map, ltb, arith,
}
use rpsl.Policy.Flatten.{WTerm, Flattener, failed, charge, max_flatten_nodes}
use rpsl.Policy.Flatten.Terms.{
  Built, built, push, push_all, except_term, except_pairs, except_all, refine_term, refine_pairs,
  refine_all,
}
use rpsl.Policy.Ast.{Peering}

-- What a list of terms costs: each its filter nodes, and one.
unfoldable pub cost : List WTerm → ℕ
cost [] = 0
cost (t ∷ ts) = t.w + 1 + cost ts

pub cost-append : (ts us : List WTerm) → cost (ts ++ us) ≡ cost ts + cost us
unfolding cost
cost-append [] us = omega arith
cost-append (t ∷ ts) us = omega (arith, cost-append ts us)

-- A walk that does not fail has not failed before, and stays within the budget.
pub record Within (f g : Flattener) (ts : List WTerm) : Type 0 where
  pub unfailed : failed f ≡ false
  pub paid : f.spent + cost ts ≤ g.spent
  pub bounded : f.spent ≤ max_flatten_nodes → g.spent ≤ max_flatten_nodes

-- A loop builds the list `ts` unless the budget fails.
abbrev pub Yields : (Flattener → Built) → List WTerm → Type 0
Yields loop ts =
    (f : Flattener) → failed (loop f).1 ≡ false → ((loop f).0 ≡ some ts) × Within f (loop f).1 ts

-- Where the flattener does not fail after a charge, the charge was granted.
charge_granted :
    (f : Flattener) (w : ℕ)
    → failed (charge f w).1 ≡ false
    → ((charge f w).0 ≡ true)
      × (failed f ≡ false)
      × ((charge f w).1.spent ≡ f.spent + (w + 1))
      × ((charge f w).1.spent ≤ max_flatten_nodes)
unfolding charge
charge_granted f w h = elim (Bool-cases (failed f)) [
  | inl e ↦ absurd (ground (arith, e))
  | inr e ↦ elim (Bool-cases (ltb max_flatten_nodes (f.spent + (w + 1)))) [
    | inl d ↦ absurd (ground (arith, e, d))
    | inr d ↦ ground (arith, e, d)
  ]
]

charge_refused : (f : Flattener) (w : ℕ) → (charge f w).0 ≡ false → failed (charge f w).1 ≡ true
unfolding charge
charge_refused f w h = ground arith

pub push-Yields :
    (t : WTerm) (rest : Flattener → Built) (ts : List WTerm)
    → Yields rest ts
    → Yields (push t rest) (t ∷ ts)
unfolding push cost
push-Yields t rest ts y f h = elim (Bool-cases (charge f t.w).0) [
  | inr e ↦ absurd (ground (arith, e, charge_refused f t.w))
  | inl e ↦
      let tail = y (charge f t.w).1 (ground (arith, e)) in
      let (ok, unfailed, spent, le) = charge_granted f t.w tail.1.unfailed in
      rw (e, push)
        (rw (tail.0) (
          refl,
          record {
            unfailed = unfailed;
            paid = omega (arith, tail.1.paid);
            bounded = λ b. tail.1.bounded le;
          },
        ))
]

pub push_all-Yields : (ts : List WTerm) → Yields (push_all ts) ts
unfolding push_all cost
push_all-Yields [] f h = (refl, record { unfailed = h; paid = omega arith; bounded = λ b. b })
push_all-Yields (t ∷ ts) f h = push-Yields t (push_all ts) ts (push_all-Yields ts) f h

-- The terms of EXCEPT: every pair, and then what `rest` builds.
pub except_pairs-Yields :
    (l : WTerm) (right : List WTerm) (rest : Flattener → Built) (ts : List WTerm)
    → Yields rest ts
    → Yields (except_pairs l right rest) (map (except_term l) right ++ ts)
unfolding except_pairs
except_pairs-Yields l [] rest ts y = y
except_pairs-Yields l (r ∷ right) rest ts y =
    push-Yields (except_term l r) (except_pairs l right rest) (map (except_term l) right ++ ts)
      (except_pairs-Yields l right rest ts y)

unfoldable pub exceptions : List WTerm → List WTerm → List WTerm → List WTerm
exceptions [] right ts = ts
exceptions (l ∷ left) right ts = map (except_term l) right ++ exceptions left right ts

pub except_all-Yields :
    (left right : List WTerm) (rest : Flattener → Built) (ts : List WTerm)
    → Yields rest ts
    → Yields (except_all left right rest) (exceptions left right ts)
unfolding except_all exceptions
except_all-Yields [] right rest ts y = y
except_all-Yields (l ∷ left) right rest ts y =
    except_pairs-Yields l right (except_all left right rest) (exceptions left right ts)
      (except_all-Yields left right rest ts y)

module _ (expr_text : Peering → List ℕ) where
  -- The terms of REFINE: every pair that has a common peer.
  unfoldable pub refined_with : WTerm → List WTerm → List WTerm → List WTerm
  refined_with l [] ts = ts
  refined_with l (r ∷ right) ts =
      let next = refined_with l right ts in
      elim (refine_term expr_text l r) [ none ↦ next | some t ↦ t ∷ next ]

  unfoldable pub refined : List WTerm → List WTerm → List WTerm
  refined [] right = []
  refined (l ∷ left) right = refined_with l right (refined left right)

  refine_pairs-Yields :
      (l : WTerm) (right : List WTerm) (rest : Flattener → Built) (ts : List WTerm)
      → Yields rest ts
      → Yields (refine_pairs expr_text l right rest) (refined_with l right ts)
  unfolding refine_pairs refined_with
  refine_pairs-Yields l [] rest ts y = y
  refine_pairs-Yields l (r ∷ right) rest ts y =
      pick (refine_term expr_text l r) (refine_pairs expr_text l right rest)
        (refined_with l right ts) (refine_pairs-Yields l right rest ts y)
    where
      pick :
          (found : Option WTerm) (next : Flattener → Built) (us : List WTerm)
          → Yields next us
          → Yields
              (elim found [ none ↦ next | some t ↦ push t next ])
              (elim found [ none ↦ us | some t ↦ t ∷ us ])
      pick none next us y = y
      pick (some t) next us y = push-Yields t next us y

  pub refine_all-Yields :
      (left right : List WTerm) → Yields (refine_all expr_text left right) (refined left right)
  unfolding refine_all refined
  refine_all-Yields [] right = push_all-Yields []
  refine_all-Yields (l ∷ left) right =
      refine_pairs-Yields l right (refine_all expr_text left right) (refined left right)
        (refine_all-Yields left right)

-- What `return out` gives where the loop did not fail.
pub built-Yields :
    (loop : Flattener → Built) (ts : List WTerm) (f : Flattener)
    → Yields loop ts
    → failed (built (loop f)).1 ≡ false
    → ((built (loop f)).0 ≡ ts) × Within f (built (loop f)).1 ts
built-Yields loop ts f y = of (loop f) (y f)
  where
    of :
        (b : Built)
        → (failed b.1 ≡ false → (b.0 ≡ some ts) × Within f b.1 ts)
        → failed (built b).1 ≡ false
        → ((built b).0 ≡ ts) × Within f (built b).1 ts
    of (none, g) y h = absurd (ground (arith, y h))
    of (some us, g) y h = let (e, w) = y h in (ground (arith, e), w)
