-- ===== src/Auth/IrtChange.antt =====
-- auth/irt.go, `AddedMntIrt` and `MntIrtChange`. The functions of the package strings, and those that trim
-- the items of a list, are parameters. An object holds what the package reads of its class.
use rpsl.Base.{
  ◌≡◌, refl, ap, ◌∙◌, Bool, true, false, not, ◌&&◌, ◌||◌, any, Bool-cases, List, [], ◌∷◌, ◌++◌,
  Option, none, some, ◌⊎◌, inl, inr, if◌then◌else◌, arith,
}
use rpsl.Lexer.Text.{Bytes}
use rpsl.Types.SetName.{text_eq, text_eq-eq}
use rpsl.Ast
use rpsl.Ast.{Attribute, get_all}
use rpsl.Ast.Items.{ListItem, list, is_empty}
use rpsl.Auth.{Verifier, Decision, no_reference}
use rpsl.Auth.Accepted.{name_accepts}
use rpsl.Auth.Irt.{IrtRegistry, as_registry, check_irts, check_irts-any}

-- nil, a typed nil, an inetnum or inet6num with its mnt-irt:, or another object with its text.
pub data Holder : Type 0 where
  no_holder nil_holder : Holder
  with_mnt_irt : List Bytes → Holder
  other_holder : Option Ast.Object → Holder

abbrev item_values : List ListItem → List Bytes
item_values [] = []
item_values (it ∷ more) =
    let rest = item_values more in if is_empty it.value then rest else it.value ∷ rest

module _ (trim_left trim_right : Bytes → Bytes) where
  -- The values of the lists; a list always ends.
  abbrev all_items : List Attribute → List Bytes
  all_items [] = []
  all_items (a ∷ more) =
      let rest = all_items more in
      elim (list trim_left trim_right a) [ none ↦ rest | some items ↦ item_values items ++ rest ]

  unfoldable pub mnt_irt : Holder → List Bytes
  mnt_irt no_holder = []
  mnt_irt nil_holder = []
  mnt_irt (with_mnt_irt names) = names
  mnt_irt (other_holder none) = []
  mnt_irt (other_holder (some raw)) =
      all_items (get_all raw (b'm' ∷ b'n' ∷ b't' ∷ b'-' ∷ b'i' ∷ b'r' ∷ b't' ∷ []))

module _ (key : Bytes → Bytes) where
  abbrev pub keys : List Bytes → List Bytes
  keys [] = []
  keys (name ∷ more) = key name ∷ keys more

  -- The second loop of `AddedMntIrt`, with the keys seen so far.
  unfoldable pub added_from : List Bytes → List Bytes → List Bytes
  added_from had [] = []
  added_from had (name ∷ more) = elim (is_empty (key name) || any (text_eq (key name)) had) [
    | true ↦ added_from had more
    | false ↦ name ∷ added_from (key name ∷ had) more
  ]

  -- A key is among those of the names added exactly when it is not empty, is among the keys of the names,
  -- and was not among those seen before.
  abbrev pub has_key : Bytes → List Bytes → Bool
  has_key k had = any (text_eq k) had

  added_skip :
      (had : List Bytes) (name : Bytes) (more : List Bytes)
      → (is_empty (key name) || any (text_eq (key name)) had) ≡ true
      → added_from had (name ∷ more) ≡ added_from had more
  unfolding added_from
  added_skip had name more e = rw (added_from, e) refl

  added_take :
      (had : List Bytes) (name : Bytes) (more : List Bytes)
      → (is_empty (key name) || any (text_eq (key name)) had) ≡ false
      → added_from had (name ∷ more) ≡ name ∷ added_from (key name ∷ had) more
  unfolding added_from
  added_take had name more e = rw (added_from, e) refl

  has_key-added_from :
      (names had : List Bytes) (k : Bytes)
      → has_key k (keys (added_from had names))
        ≡ (has_key k (keys names) && not (is_empty k || has_key k had))
  unfolding added_from
  has_key-added_from [] had k = refl
  has_key-added_from (name ∷ more) had k =
      elim (Bool-cases (is_empty (key name) || any (text_eq (key name)) had)) [
        | inl e ↦
            ap (λ x. has_key k (keys x)) (added_skip had name more e)
            ∙ has_key-added_from more had k
            ∙ elim (Bool-cases (text_eq k (key name))) [
              | inl t ↦
                  let seen : (is_empty k || has_key k had) ≡ true =
                    ap (λ x. is_empty x || has_key x had) (text_eq-eq k (key name) t) ∙ e in
                  ground (arith, t, seen)
              | inr t ↦ ground (arith, t)
            ]
        | inr e ↦
            ap (λ x. has_key k (keys x)) (added_take had name more e)
            ∙ ap (λ x. text_eq k (key name) || x) (has_key-added_from more (key name ∷ had) k)
            ∙ elim (Bool-cases (text_eq k (key name))) [
              | inl t ↦
                  let fresh : (is_empty k || has_key k had) ≡ false =
                    ap (λ x. is_empty x || has_key x had) (text_eq-eq k (key name) t) ∙ e in
                  ground (arith, t, fresh)
              | inr t ↦ ground (arith, t)
            ]
      ]

abbrev pub none_of : List Bytes → Bool
none_of [] = true
none_of (name ∷ more) = false

module _ (key : Bytes → Bytes) (trim_left trim_right : Bytes → Bytes) where
  unfoldable pub added_mnt_irt : Holder → Holder → List Bytes
  unfolding mnt_irt added_from
  added_mnt_irt before after =
      added_from key (keys key (mnt_irt trim_left trim_right before))
        (mnt_irt trim_left trim_right after)

  unfoldable pub mnt_irt_change :
      {E Credential : Type 0}
      → IrtRegistry E
      → Holder
      → Holder
      → Credential
      → Option (Verifier E Credential)
      → E ⊎ Decision
  unfolding added_mnt_irt
  mnt_irt_change reg before after cred v = elim (added_mnt_irt before after) [
    | [] ↦ inr (record { ok = true; reasons = no_reference ∷ [] })
    | name ∷ more ↦ check_irts reg (name ∷ more) cred v
  ]

  -- A key is among those of the references that `AddedMntIrt` returns exactly when it is not empty,
  -- the new object has a reference with it and the old object has none; and where `MntIrtChange`
  -- returns a decision and no error, it is positive exactly when no reference is added or the
  -- registry has an added irt with an auth: line that accepts the credential. The references of an
  -- inetnum or inet6num are those of its field; those of an object of any other class, which the
  -- comment on `AddedMntIrt` says adds none, are the items of the mnt-irt: attributes of its text.
  pub mnt_irt_change_lem :
      {E Credential : Type 0} (reg : IrtRegistry E) (before after : Holder) (cred : Credential)
      (v : Option (Verifier E Credential)) (d : Decision) (k : Bytes)
      → mnt_irt_change reg before after cred v ≡ inr d
      → (has_key key k (keys key (added_mnt_irt before after)) ≡ (
          has_key key k (keys key (mnt_irt trim_left trim_right after))
          && not (is_empty k || has_key key k (keys key (mnt_irt trim_left trim_right before)))))
        × (d.ok ≡ (
            none_of (added_mnt_irt before after)
            || any (name_accepts cred v (as_registry reg)) (added_mnt_irt before after)))
  unfolding mnt_irt_change added_mnt_irt
  mnt_irt_change_lem {E} {Credential} reg before after cred v d k h = (
    has_key-added_from key (mnt_irt trim_left trim_right after)
        (keys key (mnt_irt trim_left trim_right before)) k,
    of (added_mnt_irt before after) h,
  )
    where
      of :
          (names : List Bytes)
          → elim names as (λ _. E ⊎ Decision) [
            | [] ↦ inr (record { ok = true; reasons = no_reference ∷ [] })
            | name ∷ more ↦ check_irts reg (name ∷ more) cred v
          ]
            ≡ inr d
          → d.ok ≡ (none_of names || any (name_accepts cred v (as_registry reg)) names)
      of [] e = cc e
      of (name ∷ more) e = check_irts-any cred reg v (name ∷ more) d e
