-- ===== src/Ast/Replace.antt =====
-- What `Set` leaves in an object: the new values, and everything else.
use mathlib.Core.List.{append-nil, append_assoc}
use rpsl.Base.{
  ◌≡◌, refl, sym, ap, ap₂, ◌∙◌, inl, inr, Bool, true, false, not, Bool-cases, Option, none, some,
  List, [], ◌∷◌, ◌++◌, map, if◌then◌else◌, arith,
}
use rpsl.Types.SetName.{text_eq, text_eq_refl, text_eq-eq}
use rpsl.Lexer.Text.{Bytes, canonical_name, join_lines}
use rpsl.Ast.{Attribute, Object, all_named, get_all}
use rpsl.Ast.Edit.{
  set, set_walk, new_attr, new_attrs, left_over, append_attr, append_all, walked, value_lines,
  terminate_last, ensure_trailing_newline, line_ending, colon_prefix, check_attr, check_values,
  name_prefix, line_term,
}

abbrev pub values_of : List Attribute → List Bytes
values_of [] = []
values_of (a ∷ more) = a.value ∷ values_of more

abbrev no_values : List Bytes
no_values = []

same_both : (b : Bool) → (if b then [] else []) ≡ no_values
same_both true = refl
same_both false = refl

taken :
    (b q : Bool) (x : Bytes) (ys xs : List Bytes)
    → q ≡ b
    → (if b then ys else xs) ≡ (if b then ys else if q then x ∷ xs else xs)
taken true q x ys xs e = refl
taken false q x ys xs e = rw e refl

skipped :
    (q b : Bool) (x : Bytes) (ys xs kept : List Bytes)
    → (q ≡ true → b ≡ false)
    → kept ≡ (if b then ys else xs)
    → (if q then x ∷ kept else kept) ≡ (if b then ys else if q then x ∷ xs else xs)
skipped true b x ys xs kept h k =
    rw (h refl) (ap (◌∷◌ x) (k ∙ ap (λ c. if c then ys else xs) (h refl)))
skipped false true x ys xs kept h k = k
skipped false false x ys xs kept h k = k

replaced :
    (b q : Bool) (x : Bytes) (ys xs kept : List Bytes)
    → q ≡ b
    → kept ≡ (if b then [] else xs)
    → (if b then ys else []) ++ kept ≡ (if b then ys else if q then x ∷ xs else xs)
replaced true q x ys xs kept e k = ap (λ z. ys ++ z) k ∙ append-nil ys
replaced false q x ys xs kept e k = rw e k

one_of :
    (b : Bool) (ys xs : List Bytes)
    → (if b then [] else xs) ++ (if b then ys else []) ≡ (if b then ys else xs)
one_of true ys xs = refl
one_of false ys xs = append-nil xs

-- A value as it is written: each of its lines without blanks around it.
abbrev pub written : Bytes → Bytes
written v = join_lines (value_lines v)

values_of-append : (xs ys : List Attribute) → values_of (xs ++ ys) ≡ values_of xs ++ values_of ys
values_of-append [] ys = refl
values_of-append (a ∷ xs) ys = ap (◌∷◌ a.value) (values_of-append xs ys)

module _ (m : Bytes) where
  -- The values under the name `m`.
  abbrev pub named : List Attribute → List Bytes
  named [] = []
  named (a ∷ more) = let rest = named more in if text_eq a.name m then a.value ∷ rest else rest

  pub named-all_named : (attrs : List Attribute) → values_of (all_named m attrs) ≡ named attrs
  unfolding all_named
  named-all_named [] = refl
  named-all_named (a ∷ more) = elim (Bool-cases (text_eq a.name m)) [
    | inl e ↦ rw e (ap (◌∷◌ a.value) (named-all_named more))
    | inr e ↦ rw e (named-all_named more)
  ]

  named-append : (xs ys : List Attribute) → named (xs ++ ys) ≡ named xs ++ named ys
  named-append [] ys = refl
  named-append (a ∷ xs) ys = elim (Bool-cases (text_eq a.name m)) [
    | inl e ↦ rw e (ap (◌∷◌ a.value) (named-append xs ys))
    | inr e ↦ rw e (named-append xs ys)
  ]

  named-terminate_last :
      (ending : Bytes) (attrs : List Attribute) → named (terminate_last ending attrs) ≡ named attrs
  unfolding terminate_last
  named-terminate_last ending [] = refl
  named-terminate_last ending (a ∷ []) = refl
  named-terminate_last ending (a ∷ b ∷ more) =
      ap (λ xs. if text_eq a.name m then a.value ∷ xs else xs)
        (named-terminate_last ending (b ∷ more))

  pub named-append_attr :
      (o : Object) (a : Attribute) → named (append_attr o a).attrs ≡ named o.attrs ++ named (a ∷ [])
  unfolding append_attr ensure_trailing_newline terminate_last
  named-append_attr o a = of o.attrs o.trail
    where
      of :
          (attrs : List Attribute) (trail : Bytes)
          → named (append_attr (record { attrs = attrs; trail = trail }) a).attrs
            ≡ named attrs ++ named (a ∷ [])
      of [] trail = refl
      of (b ∷ []) trail =
          let p = ensure_trailing_newline (record { attrs = b ∷ []; trail = trail }) in
          named-append p.attrs (a ∷ [])
          ∙ ap (λ x. x ++ named (a ∷ []))
              (named-terminate_last (line_ending (record { attrs = b ∷ []; trail = trail }))
                (b ∷ []))
      of (b ∷ c ∷ more) trail =
          let p = ensure_trailing_newline (record { attrs = b ∷ c ∷ more; trail = trail }) in
          named-append p.attrs (a ∷ [])
          ∙ ap (λ x. x ++ named (a ∷ []))
              (named-terminate_last (line_ending (record { attrs = b ∷ c ∷ more; trail = trail }))
                (b ∷ c ∷ more))

  -- New attributes of the name `n`, whichever text stands before them.
  pub named-new_attr :
      (n v prefix term : Bytes)
      → named (new_attr n v prefix term ∷ []) ≡ (if text_eq n m then written v ∷ [] else [])
  unfolding new_attr
  named-new_attr n v prefix term = refl

  abbrev new_values : Bytes → List Bytes → List Bytes
  new_values n values = if text_eq n m then map written values else []

  new_values-cons :
      (n v : Bytes) (values : List Bytes)
      → new_values n (v ∷ values)
        ≡ (if text_eq n m then written v ∷ [] else []) ++ new_values n values
  new_values-cons n v values = elim (Bool-cases (text_eq n m)) [
    | inl e ↦ rw e refl
    | inr e ↦ rw e refl
  ]

  named-new_attrs :
      (n : Bytes) (values : List Bytes) (prefix term carry : Bytes)
      → named (new_attrs n values prefix term carry) ≡ new_values n values
  unfolding new_attrs
  named-new_attrs n [] prefix term carry = sym (same_both (text_eq n m))
  named-new_attrs n (v ∷ values) prefix term carry =
      named-append (record (new_attr n v prefix term) { lead = carry } ∷ [])
        (new_attrs n values prefix term [])
      ∙ ap₂ ◌++◌ (named-new_attr n v prefix term) (named-new_attrs n values prefix term [])
      ∙ sym (new_values-cons n v values)

  named-append_all :
      (o : Object) (n : Bytes) (values : List Bytes)
      → named (append_all o n values).attrs ≡ named o.attrs ++ new_values n values
  unfolding append_all
  named-append_all o n [] =
      sym (ap (λ x. named o.attrs ++ x) (same_both (text_eq n m)) ∙ append-nil (named o.attrs))
  named-append_all o n (v ∷ values) =
      named-append_all (append_attr o (new_attr n v (colon_prefix n) (line_ending o))) n values
      ∙ ap (λ x. x ++ new_values n values)
          (named-append_attr o _
            ∙ ap (λ x. named o.attrs ++ x) (named-new_attr n v (colon_prefix n) (line_ending o)))
      ∙ append_assoc (named o.attrs) _ (new_values n values)
      ∙ ap (λ x. named o.attrs ++ x) (sym (new_values-cons n v values))

  same_name : (a n : Bytes) → text_eq a n ≡ true → text_eq a m ≡ text_eq n m
  same_name a n e = ap (λ x. text_eq x m) (text_eq-eq a n e)

  other_name : (a n : Bytes) → text_eq a n ≡ false → text_eq a m ≡ true → text_eq n m ≡ false
  other_name a n e q = elim (Bool-cases (text_eq n m)) [
    | inr f ↦ f
    | inl f ↦
        let eq = text_eq-eq a m q ∙ sym (text_eq-eq n m f) in
        absurd (cc (sym (text_eq_refl a) ∙ ap (text_eq a) eq ∙ e))
  ]

  -- What the loop keeps, once it has found the name and before.
  walk_found :
      (n : Bytes) (values : List Bytes) (attrs : List Attribute) (carry : Bytes)
      → ((set_walk n values attrs carry true).found ≡ true)
        × (named (set_walk n values attrs carry true).kept
            ≡ (if text_eq n m then [] else named attrs))
  unfolding set_walk
  walk_found n values [] carry = (refl, sym (same_both (text_eq n m)))
  walk_found n values (a ∷ more) carry = elim (Bool-cases (text_eq a.name n)) [
    | inl e ↦
        let (f, k) = walk_found n values more (carry ++ a.lead) in
        (
          rw (e, set_walk) f,
          rw (e, set_walk)
              (k
                ∙ taken (text_eq n m) (text_eq a.name m) a.value [] (named more)
                    (same_name a.name n e)),
        )
    | inr e ↦
        let (f, k) = walk_found n values more [] in
        (
          rw (e, set_walk) f,
          rw (e, set_walk)
              (skipped (text_eq a.name m) (text_eq n m) a.value [] (named more)
                (named (set_walk n values more [] true).kept) (other_name a.name n e) k),
        )
  ]

  walk_named :
      (n : Bytes) (values : List Bytes) (attrs : List Attribute) (carry : Bytes)
      → let w = set_walk n values attrs carry false in
        named w.kept
        ≡ (if text_eq n m then if w.found then map written values else [] else named attrs)
  unfolding set_walk
  walk_named n values [] carry = sym (same_both (text_eq n m))
  walk_named n values (a ∷ more) carry = elim (Bool-cases (text_eq a.name n)) [
    | inl e ↦
        let rest = left_over values (carry ++ a.lead) in
        let (f, k) = walk_found n values more rest in
        rw (e, set_walk)
          (rw f (
            named-append (new_attrs n values (name_prefix a) (line_term a.raw) (carry ++ a.lead))
              (set_walk n values more rest true).kept
            ∙ ap (λ x. x ++ named (set_walk n values more rest true).kept)
                (named-new_attrs n values (name_prefix a) (line_term a.raw) (carry ++ a.lead))
            ∙ replaced (text_eq n m) (text_eq a.name m) a.value (map written values) (named more)
                (named (set_walk n values more rest true).kept) (same_name a.name n e) k))
    | inr e ↦
        let w = set_walk n values more [] false in
        rw (e, set_walk)
          (skipped (text_eq a.name m) (text_eq n m) a.value
            (if w.found then map written values else []) (named more) (named w.kept)
            (other_name a.name n e) (walk_named n values more []))
  ]

  named-set :
      (o : Object) (n : Bytes) (values : List Bytes)
      → let w = set_walk n values o.attrs [] false in
        named (if w.found then walked w o else append_all (walked w o) n values).attrs
        ≡ (if text_eq n m then map written values else named o.attrs)
  named-set o n values =
      let w = set_walk n values o.attrs [] false in
      elim (Bool-cases w.found) [
        | inl f ↦ rw f (
            walk_named n values o.attrs []
            ∙ ap (λ c. if text_eq n m then if c then map written values else [] else named o.attrs)
                f)
        | inr f ↦ rw f (
            named-append_all (walked w o) n values
            ∙ ap (λ x. x ++ new_values n values)
                (walk_named n values o.attrs []
                  ∙ ap
                      (λ c.
                        if text_eq n m then if c then map written values else [] else named o.attrs)
                      f)
            ∙ one_of (text_eq n m) (map written values) (named o.attrs))
      ]

pub picked : (b : Bool) (q p : Object) → (if not b then none else some q) ≡ some p → q ≡ p
picked true q p h = cc
picked false q p h = cc

pub check_attr-name :
    (name value n : Bytes) → check_attr name value ≡ some n → n ≡ canonical_name name
unfolding check_attr
check_attr-name name value n h = ground arith

-- `Set` succeeds on an object only with an object in which the name has the new values, each line
-- without blanks around it, and every other name has its values as before, in their order.
pub values-set :
    (o p : Object) (name : Bytes) (values : List Bytes) (m : Bytes)
    → set o name values ≡ some p
    → values_of (get_all p m) ≡ (
        if text_eq (canonical_name name) (canonical_name m)
        then map written values
        else values_of (get_all o m))
unfolding set get_all
values-set o p name values m h = of (check_attr name []) refl h
  where
    result : Bytes → Option Object
    result n =
        if not (check_values n values)
        then none
        else let w = set_walk n values o.attrs [] false in
          some (if w.found then walked w o else append_all (walked w o) n values)

    of :
        (c : Option Bytes)
        → check_attr name [] ≡ c
        → elim c [ none ↦ none | some n ↦ result n ] ≡ some p
        → values_of (all_named (canonical_name m) p.attrs) ≡ (
            if text_eq (canonical_name name) (canonical_name m)
            then map written values
            else values_of (all_named (canonical_name m) o.attrs))
    of none e h = cc
    of (some n) e h =
        let cm = canonical_name m in
        let w = set_walk n values o.attrs [] false in
        let kept =
          picked (check_values n values)
            (if w.found then walked w o else append_all (walked w o) n values) p h in
        ap (λ x. values_of (all_named cm x.attrs)) (sym kept)
        ∙ named-all_named cm
            (if w.found then walked w o else append_all (walked w o) n values).attrs
        ∙ named-set cm o n values
        ∙ ap₂ (λ x ys. if text_eq x cm then map written values else ys)
            (check_attr-name name [] n e) (sym (named-all_named cm o.attrs))
