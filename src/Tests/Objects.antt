-- ===== src/Tests/Objects.antt =====
-- Objects and their editing.
use rpsl.Types.SetName.{text_eq}
use rpsl.Base.{◌≡◌, refl, true, none, some, List, [], ◌∷◌, map}
use rpsl.Lexer.{tokenize_at, start_pending, slice}
use rpsl.Lexer.Text.{
  Bytes, index_byte, is_blank_line, head_is_marker, head_is, starts_attribute, split_attr,
  canonical_name,
}
use rpsl.Ast.{Object, new, string, get_all, has, join_raw}
use rpsl.Ast.Edit.{set, new_builder, add, build_string, all_bytes, starts_with_letter}
use rpsl.Ast.Build.{Gives, adds, new_builder-Gives}
use rpsl.Ast.RoundTrip.{string-new-tokenize_at}
use rpsl.Ast.Replace.{values_of, written, values-set}
use rpsl.Ast.Trivia.{trivia, raws_apart, trivia-set}
use rpsl.Tests.Scanner.{codes}

abbrev source : Bytes
source = codes "person:   A # x\n# c\nphone: 1\n\nphone: 2\n# end\n"

abbrev same : Bytes → Bytes
same s = s

abbrev person : Object
unfolding new tokenize_at
person = new same (tokenize_at source 1 0)

abbrev phones : List Bytes
phones = codes "3" ∷ codes " 4\n5 " ∷ []

abbrev edited : Object
unfolding set
edited = elim (set person (codes "Phone") phones) [ none ↦ person | some o ↦ o ]

edited_run : string edited ≡ codes "person:   A # x\n# c\nphone: 3\nphone: 4\n       5\n\n# end\n"
unfolding string edited starts_with_letter canonical_name all_bytes person head_is_marker head_is
    starts_attribute text_eq start_pending split_attr join_raw slice
edited_run = refl

set_run : set person (codes "Phone") phones ≡ some edited
unfolding set edited starts_with_letter canonical_name all_bytes
set_run = refl

-- A value may hold no comment.
refused_run : set person (codes "phone") (codes "1 # x" ∷ []) ≡ none
unfolding set starts_with_letter canonical_name all_bytes
refused_run = refl

built_run :
    build_string
      (add (new_builder (codes "Route") (codes "10.0.0.0/8")) (codes "origin") (codes "AS1"))
    ≡ codes "route: 10.0.0.0/8\norigin: AS1\n"
unfolding build_string new_builder starts_with_letter canonical_name all_bytes string index_byte
built_run = refl

person-has : has person (codes "Phone") ≡ true
unfolding has person is_blank_line head_is_marker head_is starts_attribute text_eq start_pending
    split_attr
person-has = refl

string-new-tokenize_at_example : string (new same (tokenize_at source 1 0)) ≡ source
string-new-tokenize_at_example = string-new-tokenize_at same source 1 0

values-set_example : values_of (get_all edited (codes "phone")) ≡ map written phones
unfolding text_eq canonical_name
values-set_example = values-set person edited (codes "Phone") phones (codes "phone") set_run

trivia-set_example :
    (trivia edited ≡ trivia person)
    × (raws_apart (codes "phone") edited.attrs ≡ raws_apart (codes "phone") person.attrs)
unfolding canonical_name
trivia-set_example = trivia-set person edited (codes "Phone") phones person-has set_run

abbrev pairs : List (Bytes × Bytes)
pairs = (codes "origin", codes "AS1") ∷ (codes "Descr", codes "a\n b") ∷ []

-- `new_builder-Gives` where the Builder gives an object, and where it gives none.
new_builder-Gives_example :
    Gives
      (adds (new_builder (codes "route") (codes "10.0.0.0/8")) pairs)
      ((codes "route", codes "10.0.0.0/8") ∷ pairs)
      (λ m. [])
new_builder-Gives_example = new_builder-Gives (codes "route") (codes "10.0.0.0/8") pairs
