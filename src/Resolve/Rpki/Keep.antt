-- ===== src/Resolve/Rpki/Keep.antt =====
-- `keep` selects the elements that its test accepts.
use mathlib.Core.List.{append-nil, append_assoc}
use rpsl.Base.{
  ◌≡◌, refl, sym, ap, ◌∙◌, Bool, true, false, not, List, [], ◌∷◌, ◌++◌, Option, none, some,
  if◌then◌else◌,
}
use rpsl.Resolve.Rpki.Filter.{Log, keep, keep_loop}

-- The elements that a test accepts, one after the other.
abbrev pub select : {A : Type 0} → (A → Log → Bool × Log) → List A → Log → List A × Log
select ok [] log = ([], log)
select ok (x ∷ xs) log =
    let (takes, log') = ok x log in
    let (ys, log'') = select ok xs log' in (if takes then x ∷ ys else ys, log'')

module _ {A : Type 0} (ok : A → Log → Bool × Log) where
  keep_loop-some :
      (xs before o : List A) (log : Log)
      → keep_loop ok xs before (some o) log
        ≡ (some (o ++ (select ok xs log).0), (select ok xs log).1)
  unfolding keep_loop
  keep_loop-some [] before o log = ap (λ x. (some x, log)) (sym (append-nil o))
  keep_loop-some (x ∷ xs) before o log =
      of (ok x log).0 (λ t. keep_loop-some xs (before ++ x ∷ []) t (ok x log).1)
    where
      rest : List A × Log
      rest = select ok xs (ok x log).1

      after : List A → Option (List A) × Log
      after t = keep_loop ok xs (before ++ x ∷ []) (some t) (ok x log).1

      of :
          (b : Bool)
          → ((t : List A) → after t ≡ (some (t ++ rest.0), rest.1))
          → keep_loop ok xs
              (before ++ x ∷ [])
              (if not b then some o else some (o ++ x ∷ []))
              (ok x log).1
            ≡ (some (o ++ (if b then x ∷ rest.0 else rest.0)), rest.1)
      of true h = h (o ++ x ∷ []) ∙ ap (λ y. (some y, rest.1)) (append_assoc o (x ∷ []) rest.0)
      of false h = h o

  abbrev picked : List A → Option (List A) × Log → List A × Log
  picked all r = (elim r.0 [ none ↦ all | some o ↦ o ], r.1)

  keep_loop-none :
      (xs before : List A) (log : Log)
      → picked (before ++ xs) (keep_loop ok xs before none log)
        ≡ (before ++ (select ok xs log).0, (select ok xs log).1)
  unfolding keep_loop
  keep_loop-none [] before log = refl
  keep_loop-none (x ∷ xs) before log =
      of (ok x log).0 (keep_loop-none xs (before ++ x ∷ []) (ok x log).1)
    where
      rest : List A × Log
      rest = select ok xs (ok x log).1

      after : List A × Log → Type 0
      after y =
          picked ((before ++ x ∷ []) ++ xs) (keep_loop ok xs (before ++ x ∷ []) none (ok x log).1)
          ≡ y

      of :
          (b : Bool)
          → after ((before ++ x ∷ []) ++ rest.0, rest.1)
          → picked (before ++ x ∷ xs) (
              keep_loop ok xs (before ++ x ∷ []) (if not b then some before else none) (ok x log).1)
            ≡ (before ++ (if b then x ∷ rest.0 else rest.0), rest.1)
      of true h =
          ap (λ all. picked all (keep_loop ok xs (before ++ x ∷ []) none (ok x log).1))
            (sym (append_assoc before (x ∷ []) xs))
          ∙ h
          ∙ ap (λ y. (y, rest.1)) (append_assoc before (x ∷ []) rest.0)
      of false h =
          ap (picked (before ++ x ∷ xs)) (keep_loop-some xs (before ++ x ∷ []) before (ok x log).1)

  pub keep-select : (xs : List A) (log : Log) → keep ok xs log ≡ select ok xs log
  unfolding keep
  keep-select xs log = keep_loop-none xs [] log
