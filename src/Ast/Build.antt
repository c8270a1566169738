-- ===== src/Ast/Build.antt =====
-- What a Builder makes of its names and values (ast/build.go).
use mathlib.Core.List.{append-nil, append_assoc}
use mathlib.Core.Path.{subst}
use rpsl.Base.{
  ◌≡◌, refl, sym, ap, ap₂, ◌∙◌, Bool, true, false, ◌&&◌, Bool-cases, none, some, List, [], ◌∷◌,
  ◌++◌, if◌then◌else◌, inl, inr,
}
use rpsl.Types.SetName.{text_eq}
use rpsl.Lexer.Text.{Bytes, canonical_name}
use rpsl.Ast.{Object, get_all}
use rpsl.Ast.Edit.{
  Builder, add, new_builder, append, append_attr, new_attr, check_attr, colon_prefix, line_ending,
  starts_with_letter, all_bytes, is_name_byte, is_value_byte,
}
use rpsl.Ast.Replace.{values_of, written, named-all_named, named-append_attr, named-new_attr}

-- A name that starts with a letter and has only letters, digits, '-' and '_' once it is in canonical
-- form, and a value without '#' and without control bytes but tabs and newlines.
abbrev pub is_valid : Bytes × Bytes → Bool
is_valid nv =
    starts_with_letter (canonical_name nv.0)
    && all_bytes is_name_byte (canonical_name nv.0)
    && all_bytes is_value_byte nv.1

abbrev pub all_valid : List (Bytes × Bytes) → Bool
all_valid [] = true
all_valid (nv ∷ more) = is_valid nv && all_valid more

-- Calls of `Add`, one after the other.
abbrev pub adds : Builder → List (Bytes × Bytes) → Builder
adds b [] = b
adds b (nv ∷ more) = adds (add b nv.0 nv.1) more

-- The values of the name `m`, as they are written.
abbrev pub added : Bytes → List (Bytes × Bytes) → List Bytes
added m [] = []
added m (nv ∷ more) =
    (if text_eq (canonical_name nv.0) (canonical_name m) then written nv.1 ∷ [] else [])
    ++ added m more

abbrev pub Gives : Builder → List (Bytes × Bytes) → (Bytes → List Bytes) → Type 0
Gives none nvs before = all_valid nvs ≡ false
Gives (some p) nvs before =
    (all_valid nvs ≡ true) × ((m : Bytes) → values_of (get_all p m) ≡ before m ++ added m nvs)

appended : Object → Bytes → Bytes → Object
appended o name value =
    append_attr o
      (new_attr (canonical_name name) value (colon_prefix (canonical_name name)) (line_ending o))

append_valid :
    (o : Object) (name value : Bytes)
    → is_valid (name, value) ≡ true
    → append o name value ≡ some (appended o name value)
unfolding append check_attr appended
append_valid o name value h = rw (append, check_attr, h) refl

append_invalid :
    (o : Object) (name value : Bytes) → is_valid (name, value) ≡ false → append o name value ≡ none
unfolding append check_attr
append_invalid o name value h = rw (append, check_attr, h) refl

values_of-appended :
    (o : Object) (name value m : Bytes)
    → values_of (get_all (appended o name value) m)
      ≡ values_of (get_all o m)
        ++ (if text_eq (canonical_name name) (canonical_name m) then written value ∷ [] else [])
unfolding get_all appended
values_of-appended o name value m =
    let n = canonical_name name in
    named-all_named (canonical_name m) (appended o name value).attrs
    ∙ named-append_attr (canonical_name m) o (new_attr n value (colon_prefix n) (line_ending o))
    ∙ ap₂ ◌++◌ (sym (named-all_named (canonical_name m) o.attrs))
        (named-new_attr (canonical_name m) n value (colon_prefix n) (line_ending o))

adds-none : (nvs : List (Bytes × Bytes)) → adds none nvs ≡ none
unfolding add
adds-none [] = refl
adds-none (nv ∷ more) = adds-none more

Gives-cons :
    (o : Object) (nv : Bytes × Bytes) (more : List (Bytes × Bytes)) (b : Builder)
    → is_valid nv ≡ true
    → Gives b more (λ m. values_of (get_all (appended o nv.0 nv.1) m))
    → Gives b (nv ∷ more) (λ m. values_of (get_all o m))
Gives-cons o nv more none e h = ap₂ ◌&&◌ e h
Gives-cons o nv more (some p) e h = (
  ap₂ ◌&&◌ e h.0,
  λ m.
      h.1 m
      ∙ ap (λ x. x ++ added m more) (values_of-appended o nv.0 nv.1 m)
      ∙ append_assoc (values_of (get_all o m)) _ (added m more),
)

adds-Gives :
    (nvs : List (Bytes × Bytes)) (o : Object)
    → Gives (adds (some o) nvs) nvs (λ m. values_of (get_all o m))
unfolding add
adds-Gives [] o = (refl, λ m. sym (append-nil (values_of (get_all o m))))
adds-Gives (nv ∷ more) o = elim (Bool-cases (is_valid nv)) [
  | inl e ↦
      subst (λ b. Gives (adds b more) (nv ∷ more) (λ m. values_of (get_all o m)))
        (sym (append_valid o nv.0 nv.1 e))
        (Gives-cons o nv more (adds (some (appended o nv.0 nv.1)) more) e
          (adds-Gives more (appended o nv.0 nv.1)))
  | inr e ↦
      subst (λ b. Gives b (nv ∷ more) (λ m. values_of (get_all o m)))
        (sym (ap (λ b. adds b more) (append_invalid o nv.0 nv.1 e) ∙ adds-none more))
        (ap (λ b. b && all_valid more) e)
]

-- A Builder gives no object exactly where a name or a value is not valid: one of the class and the key,
-- or one of those added to them. Otherwise its object has under each name the values given for it, in
-- their order, with each line without blanks around it, and no others.
pub new_builder-Gives :
    (class key : Bytes) (nvs : List (Bytes × Bytes))
    → Gives (adds (new_builder class key) nvs) ((class, key) ∷ nvs) (λ m. [])
unfolding new_builder add get_all
new_builder-Gives class key nvs =
    adds-Gives ((class, key) ∷ nvs) (record { attrs = []; trail = [] })
