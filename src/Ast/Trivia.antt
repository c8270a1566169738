-- ===== src/Ast/Trivia.antt =====
-- What `Set` keeps of an object: the text around the attributes, and the attributes of other names.
use mathlib.Core.List.{append-nil, append_assoc}
use rpsl.Base.{
  ◌≡◌, refl, sym, ap, ◌∙◌, inl, inr, Bool, true, false, not, Bool-cases, Option, none, some, List,
  [], ◌∷◌, ◌++◌, if◌then◌else◌,
}
use rpsl.Types.SetName.{text_eq, text_eq_refl}
use rpsl.Lexer.Text.{Bytes, canonical_name}
use rpsl.Ast.{Attribute, Object, first_named, get_first, has}
use rpsl.Ast.Edit.{
  set, set_walk, new_attr, new_attrs, left_over, append_all, walked, check_attr, check_values,
  name_prefix, line_term,
}
use rpsl.Ast.Replace.{picked, check_attr-name}

-- What stands before the attributes.
abbrev leads : List Attribute → Bytes
leads [] = []
leads (a ∷ more) = a.lead ++ leads more

-- The text of an object that belongs to no attribute.
unfoldable pub trivia : Object → Bytes
trivia o = leads o.attrs ++ o.trail

leads-append : (xs ys : List Attribute) → leads (xs ++ ys) ≡ leads xs ++ leads ys
leads-append [] ys = refl
leads-append (a ∷ xs) ys =
    ap (λ x. a.lead ++ x) (leads-append xs ys) ∙ sym (append_assoc a.lead (leads xs) (leads ys))

leads-new_attrs_empty :
    (n : Bytes) (values : List Bytes) (prefix term : Bytes)
    → leads (new_attrs n values prefix term []) ≡ []
unfolding new_attrs
leads-new_attrs_empty n [] prefix term = refl
leads-new_attrs_empty n (v ∷ values) prefix term = leads-new_attrs_empty n values prefix term

leads-new_attrs :
    (n : Bytes) (values : List Bytes) (prefix term carry : Bytes)
    → leads (new_attrs n values prefix term carry) ++ left_over values carry ≡ carry
unfolding new_attrs
leads-new_attrs n [] prefix term carry = refl
leads-new_attrs n (v ∷ values) prefix term carry =
    append-nil (carry ++ leads (new_attrs n values prefix term []))
    ∙ ap (λ x. carry ++ x) (leads-new_attrs_empty n values prefix term)
    ∙ append-nil carry

passed :
    (a : Attribute) (more : List Attribute) (carry : Bytes) (kept : List Attribute) (last : Bytes)
    → leads kept ++ last ≡ leads more
    → ((carry ++ a.lead) ++ leads kept) ++ last ≡ carry ++ (a.lead ++ leads more)
passed a more carry kept last h =
    append_assoc (carry ++ a.lead) (leads kept) last
    ∙ ap (λ x. (carry ++ a.lead) ++ x) h
    ∙ append_assoc carry a.lead (leads more)

leads-walk :
    (n : Bytes) (values : List Bytes) (attrs : List Attribute) (carry : Bytes) (found : Bool)
    → let w = set_walk n values attrs carry found in leads w.kept ++ w.carry ≡ carry ++ leads attrs
unfolding set_walk
leads-walk n values [] carry found = sym (append-nil carry)
leads-walk n values (a ∷ more) carry true = elim (Bool-cases (text_eq a.name n)) [
  | inr e ↦
      rw (e, set_walk)
        (passed a more carry (set_walk n values more [] true).kept
          (set_walk n values more [] true).carry (leads-walk n values more [] true))
  | inl e ↦
      rw (e, set_walk)
        (leads-walk n values more (carry ++ a.lead) true ∙ append_assoc carry a.lead (leads more))
]
leads-walk n values (a ∷ more) carry false = elim (Bool-cases (text_eq a.name n)) [
  | inr e ↦
      rw (e, set_walk)
        (passed a more carry (set_walk n values more [] false).kept
          (set_walk n values more [] false).carry (leads-walk n values more [] false))
  | inl e ↦
      let rest = left_over values (carry ++ a.lead) in
      let new = new_attrs n values (name_prefix a) (line_term a.raw) (carry ++ a.lead) in
      let w = set_walk n values more rest true in
      rw (e, set_walk)
        (ap (λ x. x ++ w.carry) (leads-append new w.kept)
          ∙ append_assoc (leads new) (leads w.kept) w.carry
          ∙ ap (λ x. leads new ++ x) (leads-walk n values more rest true)
          ∙ sym (append_assoc (leads new) rest (leads more))
          ∙ ap (λ x. x ++ leads more)
              (leads-new_attrs n values (name_prefix a) (line_term a.raw) (carry ++ a.lead))
          ∙ append_assoc carry a.lead (leads more))
]

is_found : Option Attribute → Bool
is_found none = false
is_found (some a) = true

walk-found_true :
    (n : Bytes) (values : List Bytes) (attrs : List Attribute) (carry : Bytes)
    → (set_walk n values attrs carry true).found ≡ true
unfolding set_walk
walk-found_true n values [] carry = refl
walk-found_true n values (a ∷ more) carry = elim (Bool-cases (text_eq a.name n)) [
  | inl e ↦ rw (e, set_walk) (walk-found_true n values more (carry ++ a.lead))
  | inr e ↦ rw (e, set_walk) (walk-found_true n values more [])
]

walk-found :
    (n : Bytes) (values : List Bytes) (attrs : List Attribute) (carry : Bytes)
    → (set_walk n values attrs carry false).found ≡ is_found (first_named n attrs)
unfolding set_walk first_named is_found
walk-found n values [] carry = refl
walk-found n values (a ∷ more) carry = elim (Bool-cases (text_eq a.name n)) [
  | inl e ↦
      rw (e, set_walk, first_named)
        (walk-found_true n values more (left_over values (carry ++ a.lead)))
  | inr e ↦ rw (e, set_walk, first_named) (walk-found n values more [])
]

has_found :
    (o : Object) (name : Bytes) → has o name ≡ is_found (first_named (canonical_name name) o.attrs)
unfolding has get_first is_found
has_found o name = of (first_named (canonical_name name) o.attrs)
  where
    of : (a : Option Attribute) → elim a [ none ↦ false | some a ↦ true ] ≡ is_found a
    of none = refl
    of (some a) = refl

-- The texts of the attributes that do not have the name `n`.
abbrev pub raws_apart : Bytes → List Attribute → List Bytes
raws_apart n [] = []
raws_apart n (a ∷ more) =
    let rest = raws_apart n more in if text_eq a.name n then rest else a.raw ∷ rest

raws_apart-append :
    (n : Bytes) (xs ys : List Attribute)
    → raws_apart n (xs ++ ys) ≡ raws_apart n xs ++ raws_apart n ys
raws_apart-append n [] ys = refl
raws_apart-append n (a ∷ xs) ys = elim (Bool-cases (text_eq a.name n)) [
  | inl e ↦ rw e (raws_apart-append n xs ys)
  | inr e ↦ rw e (ap (◌∷◌ a.raw) (raws_apart-append n xs ys))
]

raws_apart-new_attrs :
    (n : Bytes) (values : List Bytes) (prefix term carry : Bytes)
    → raws_apart n (new_attrs n values prefix term carry) ≡ []
unfolding new_attrs new_attr
raws_apart-new_attrs n [] prefix term carry = refl
raws_apart-new_attrs n (v ∷ values) prefix term carry =
    rw (text_eq_refl n) (raws_apart-new_attrs n values prefix term [])

raws_apart-walk :
    (n : Bytes) (values : List Bytes) (attrs : List Attribute) (carry : Bytes) (found : Bool)
    → raws_apart n (set_walk n values attrs carry found).kept ≡ raws_apart n attrs
unfolding set_walk
raws_apart-walk n values [] carry found = refl
raws_apart-walk n values (a ∷ more) carry true = elim (Bool-cases (text_eq a.name n)) [
  | inr e ↦ rw (e, set_walk) (rw e (ap (◌∷◌ a.raw) (raws_apart-walk n values more [] true)))
  | inl e ↦ rw (e, set_walk) (raws_apart-walk n values more (carry ++ a.lead) true)
]
raws_apart-walk n values (a ∷ more) carry false = elim (Bool-cases (text_eq a.name n)) [
  | inr e ↦ rw (e, set_walk) (rw e (ap (◌∷◌ a.raw) (raws_apart-walk n values more [] false)))
  | inl e ↦
      let rest = left_over values (carry ++ a.lead) in
      let w = set_walk n values more rest true in
      let new = new_attrs n values (name_prefix a) (line_term a.raw) (carry ++ a.lead) in
      rw (e, set_walk)
        (raws_apart-append n new w.kept
          ∙ ap (λ x. x ++ raws_apart n w.kept)
              (raws_apart-new_attrs n values (name_prefix a) (line_term a.raw) (carry ++ a.lead))
          ∙ raws_apart-walk n values more rest true)
]

-- Where the object has the name, and `Set` succeeds, it keeps the text that stands before, between and
-- behind the attributes (comment lines, blank lines and malformed lines), in order, and the text of
-- every attribute of another name, comments inside it included, in order. A comment inside a replaced
-- attribute is part of what is replaced.
pub trivia-set :
    (o p : Object) (name : Bytes) (values : List Bytes)
    → has o name ≡ true
    → set o name values ≡ some p
    → (trivia p ≡ trivia o)
      × (raws_apart (canonical_name name) p.attrs ≡ raws_apart (canonical_name name) o.attrs)
unfolding set trivia
trivia-set o p name values there h = of (check_attr name []) refl h
  where
    of :
        (c : Option Bytes)
        → check_attr name [] ≡ c
        → elim c [
          | none ↦ none
          | some n ↦
              if not (check_values n values)
              then none
              else let w = set_walk n values o.attrs [] false in
                some (if w.found then walked w o else append_all (walked w o) n values)
        ]
          ≡ some p
        → (leads p.attrs ++ p.trail ≡ leads o.attrs ++ o.trail)
          × (raws_apart (canonical_name name) p.attrs ≡ raws_apart (canonical_name name) o.attrs)
    of none e h = cc
    of (some n) e h =
        let w = set_walk n values o.attrs [] false in
        let found =
          walk-found n values o.attrs []
          ∙ ap (λ n. is_found (first_named n o.attrs)) (check_attr-name name [] n e)
          ∙ sym (has_found o name)
          ∙ there in
        let kept =
          picked (check_values n values)
            (if w.found then walked w o else append_all (walked w o) n values) p h in
        let result =
          sym kept ∙ ap (λ b. if b then walked w o else append_all (walked w o) n values) found in
        (
          ap (λ (x : Object). leads x.attrs ++ x.trail) result
              ∙ sym (append_assoc (leads w.kept) w.carry o.trail)
              ∙ ap (λ x. x ++ o.trail) (leads-walk n values o.attrs [] false),
          ap (λ (x : Object). raws_apart (canonical_name name) x.attrs) result
              ∙ ap (λ m. raws_apart m w.kept) (sym (check_attr-name name [] n e))
              ∙ raws_apart-walk n values o.attrs [] false
              ∙ ap (λ m. raws_apart m o.attrs) (check_attr-name name [] n e),
        )
