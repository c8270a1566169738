-- ===== src/Ast/Edit.antt =====
-- ast/object.go and ast/build.go: `Append`, `Set`, and the Builder, with what they call. An error is
-- `none`.
use rpsl.Base.{
  ℕ, ◌-◌, Bool, true, false, not, ◌&&◌, ◌||◌, Option, none, some, List, [], ◌∷◌, ◌++◌, length, take,
  replicate, map, ◌==◌, leb, ltb, if◌then◌else◌,
}
use rpsl.Types.SetName.{text_eq}
use rpsl.Lexer.{Span}
use rpsl.Lexer.Text.{Bytes, canonical_name, trim_pos, join_lines, index_byte}
use rpsl.Ast.{Attribute, Object, string}

abbrev pub is_letter : ℕ → Bool
is_letter c = leb b'a' c && leb c b'z' || leb b'A' c && leb c b'Z'

-- The tests of the loops in `checkAttr`: on a byte of the name, and on one of the value.
abbrev pub is_name_byte : ℕ → Bool
is_name_byte c = is_letter c || leb b'0' c && leb c b'9' || c == b'-' || c == b'_'

abbrev pub is_value_byte : ℕ → Bool
is_value_byte c = not (c == b'#' || c == 0x7f || ltb c 0x20 && not (c == b'\t') && not (c == b'\n'))

unfoldable pub all_bytes : (ℕ → Bool) → Bytes → Bool
all_bytes p [] = true
all_bytes p (c ∷ s) = p c && all_bytes p s

unfoldable pub starts_with_letter : Bytes → Bool
starts_with_letter [] = false
starts_with_letter (c ∷ s) = is_letter c

unfoldable pub check_attr : Bytes → Bytes → Option Bytes
check_attr name value =
    let name' = canonical_name name in
    if starts_with_letter name' && all_bytes is_name_byte name' && all_bytes is_value_byte value
    then some name'
    else none

-- `strings.Split(value, "\n")`, with the line in progress.
unfoldable pub split_lines : Bytes → Bytes → List Bytes
split_lines line [] = line ∷ []
split_lines line (c ∷ s) = elim (c == b'\n') [
  | true ↦ line ∷ split_lines [] s
  | false ↦ split_lines (line ++ c ∷ []) s
]

-- `strings.Trim(l, " \t")`
abbrev pub trim : Bytes → Bytes
trim l = (trim_pos l 0).0

-- The lines of a value, as they are written.
unfoldable pub value_lines : Bytes → List Bytes
unfolding split_lines
value_lines value = map trim (split_lines [] value)

-- The text of the lines after the first one.
unfoldable pub continuation_lines : Bytes → Bytes → List Bytes → Bytes
continuation_lines prefix term [] = []
continuation_lines prefix term (l ∷ lines) =
    (elim l [ [] ↦ b'+' ∷ [] | c ∷ s ↦ replicate (length prefix) b' ' ++ (c ∷ s) ])
    ++ (term ++ continuation_lines prefix term lines)

unfoldable pub raw_lines : Bytes → Bytes → List Bytes → Bytes
unfolding continuation_lines
raw_lines prefix term [] = []
raw_lines prefix term (l ∷ lines) = prefix ++ (l ++ (term ++ continuation_lines prefix term lines))

-- The zero Span.
abbrev pub no_span : Span
no_span = record {
  start_line = 0;
  start_col = 0;
  end_line = 0;
  end_col = 0;
  start_byte = 0;
  end_byte = 0;
}

unfoldable pub new_attr : Bytes → Bytes → Bytes → Bytes → Attribute
unfolding value_lines raw_lines
new_attr name value prefix term = record {
  name = name;
  value = join_lines (value_lines value);
  raw = raw_lines prefix term (value_lines value);
  comment = [];
  span = no_span;
  segments = [];
  lead = [];
}

unfoldable pub last_is : ℕ → Bytes → Bool
last_is b [] = false
last_is b (c ∷ []) = c == b
last_is b (c ∷ d ∷ s) = last_is b (d ∷ s)

unfoldable pub line_term : Bytes → Bytes
unfolding last_is
line_term raw = elim (index_byte b'\n' raw) [
  | none ↦ b'\n' ∷ []
  | some i ↦ if last_is b'\r' (take i raw) then b'\r' ∷ b'\n' ∷ [] else b'\n' ∷ []
]

unfoldable pub line_ending : Object → Bytes
unfolding line_term
line_ending o = elim o.attrs [ [] ↦ b'\n' ∷ [] | a ∷ more ↦ line_term a.raw ]

unfoldable pub terminate : Bytes → Bytes → Bytes
unfolding last_is
terminate [] ending = []
terminate (c ∷ s) ending =
    if last_is b'\n' (c ∷ s)
    then c ∷ s
    else if last_is b'\r' (c ∷ s)
    then (c ∷ s) ++ b'\n' ∷ []
    else (c ∷ s) ++ ending

-- The last attribute's text, terminated.
unfoldable pub terminate_last : Bytes → List Attribute → List Attribute
unfolding terminate
terminate_last ending [] = []
terminate_last ending (a ∷ []) = record a { raw = terminate a.raw ending } ∷ []
terminate_last ending (a ∷ b ∷ more) = a ∷ terminate_last ending (b ∷ more)

unfoldable pub ensure_trailing_newline : Object → Object
unfolding terminate_last terminate line_ending
ensure_trailing_newline o = elim o.attrs [
  | [] ↦ record o { trail = terminate o.trail (line_ending o) }
  | a ∷ more ↦ record o { attrs = terminate_last (line_ending o) (a ∷ more) }
]

unfoldable pub append_attr : Object → Attribute → Object
unfolding ensure_trailing_newline
append_attr o a =
    let p = ensure_trailing_newline o in
    elim p.attrs [
      | [] ↦ record { attrs = record a { lead = p.trail } ∷ []; trail = [] }
      | b ∷ more ↦ record p { attrs = (b ∷ more) ++ a ∷ [] }
    ]

-- `name + ": "`
abbrev pub colon_prefix : Bytes → Bytes
colon_prefix name = name ++ b':' ∷ b' ' ∷ []

unfoldable pub append : Object → Bytes → Bytes → Option Object
unfolding check_attr append_attr line_ending new_attr
append o name value = elim (check_attr name value) [
  | none ↦ none
  | some n ↦ some (append_attr o (new_attr n value (colon_prefix n) (line_ending o)))
]

-- The part of the raw text before the first '\r' or '\n'.
unfoldable pub first_line : Bytes → Bytes
first_line [] = []
first_line (c ∷ s) = if c == b'\n' || c == b'\r' then [] else c ∷ first_line s

abbrev pub ends_blank : Bytes → Bool
ends_blank s = last_is b' ' s || last_is b'\t' s

-- The line up to where the value starts, or the usual prefix where the line is shorter.
unfoldable pub line_prefix : Attribute → Bytes
unfolding first_line
line_prefix a =
    let line = first_line a.raw in
    elim a.segments [
      | [] ↦ colon_prefix a.name
      | s ∷ more ↦
          if leb (s.src_col - 1) (length line)
          then take (s.src_col - 1) line
          else colon_prefix a.name
    ]

unfoldable pub name_prefix : Attribute → Bytes
unfolding line_prefix last_is
name_prefix a = if ends_blank (line_prefix a) then line_prefix a else line_prefix a ++ b' ' ∷ []

-- The loop over the values in `Set`: the first new attribute takes the text that was carried.
unfoldable pub new_attrs : Bytes → List Bytes → Bytes → Bytes → Bytes → List Attribute
unfolding new_attr
new_attrs name [] prefix term carry = []
new_attrs name (v ∷ values) prefix term carry =
    record (new_attr name v prefix term) { lead = carry } ∷ new_attrs name values prefix term []

abbrev pub left_over : List Bytes → Bytes → Bytes
left_over [] carry = carry
left_over (v ∷ values) carry = []

pub record Walk : Type 0 where
  pub kept : List Attribute
  pub carry : Bytes
  pub found : Bool

-- The loop of `Set` over the attributes.
unfoldable pub set_walk : Bytes → List Bytes → List Attribute → Bytes → Bool → Walk
unfolding new_attrs name_prefix line_term
set_walk name values [] carry found = record { kept = []; carry = carry; found = found }
set_walk name values (a ∷ more) carry found = elim (text_eq a.name name) [
  | false ↦
      let w = set_walk name values more [] found in
      record w { kept = record a { lead = carry ++ a.lead } ∷ w.kept }
  | true ↦ elim found [
    | true ↦ set_walk name values more (carry ++ a.lead) true
    | false ↦
        let w = set_walk name values more (left_over values (carry ++ a.lead)) true in
        record w {
          kept =
              new_attrs name values (name_prefix a) (line_term a.raw) (carry ++ a.lead) ++ w.kept;
        }
  ]
]

-- The last loop of `Set`: the values are appended one by one.
unfoldable pub append_all : Object → Bytes → List Bytes → Object
unfolding append_attr new_attr line_ending
append_all o name [] = o
append_all o name (v ∷ values) =
    append_all (append_attr o (new_attr name v (colon_prefix name) (line_ending o))) name values

abbrev pub walked : Walk → Object → Object
walked w o = record { attrs = w.kept; trail = w.carry ++ o.trail }

unfoldable pub check_values : Bytes → List Bytes → Bool
unfolding check_attr
check_values name [] = true
check_values name (v ∷ values) = elim (check_attr name v) [
  | none ↦ false
  | some n ↦ check_values name values
]

unfoldable pub set : Object → Bytes → List Bytes → Option Object
unfolding check_attr check_values set_walk append_all
set o name values = elim (check_attr name []) [
  | none ↦ none
  | some n ↦
      if not (check_values n values)
      then none
      else let w = set_walk n values o.attrs [] false in
        some (if w.found then walked w o else append_all (walked w o) n values)
]

-- A Builder is its object, or `none` once it holds an error.
abbrev pub Builder : Type 0
Builder = Option Object

unfoldable pub add : Builder → Bytes → Bytes → Builder
unfolding append
add none name value = none
add (some o) name value = append o name value

unfoldable pub new_builder : Bytes → Bytes → Builder
unfolding add
new_builder class key = add (some (record { attrs = []; trail = [] })) class key

unfoldable pub add_all : Builder → Bytes → List Bytes → Builder
unfolding add
add_all b name [] = b
add_all b name (v ∷ values) = add_all (add b name v) name values

unfoldable pub build_string : Builder → Bytes
build_string none = []
build_string (some o) = string o
