-- ===== src/Types/SetName/Parse.antt =====
-- `ParseSetName` of types/setname.go and `ParseSetRef` of types/setref.go. An error's text is not modelled.
use rpsl.Base.{
  ℕ, zero, suc, ◌+◌, ◌/◌, ◌%◌, Bool, true, false, not, ◌&&◌, ◌||◌, List, [], ◌∷◌, ◌++◌, map, Option,
  none, some, length, ◌==◌, ltb, if◌then◌else◌,
}
use rpsl.Lexer.Text.{Bytes, lower, trim_pos}
use rpsl.Types.Asn.{parse_asn}
use rpsl.Types.SetName.{
  SetName, SetClass, class_unknown, class_as_set, class_route_set, class_rtr_set, class_filter_set,
  class_peering_set, class_eq,
}
use rpsl.Types.SetRef.{SetRef, ref, upper_byte, new_set_ref, is_alnum}

-- `strconv.FormatUint` in base 10: as many digits as the fuel allows, ten for an AS number.
unfoldable pub decimal : ℕ → ℕ → Bytes
decimal zero n = []
decimal (suc fuel) n =
    let front = decimal fuel (n / 10) in
    if ltb n 10 then (b'0' + n) ∷ [] else front ++ (b'0' + n % 10) ∷ []

-- `ASN.String`
unfoldable pub asn_string : ℕ → Bytes
unfolding decimal
asn_string a = b'A' ∷ b'S' ∷ decimal 10 a

-- `strings.HasPrefix`
unfoldable pub has_prefix : Bytes → Bytes → Bool
has_prefix s [] = true
has_prefix [] (p ∷ ps) = false
has_prefix (c ∷ s) (p ∷ ps) = c == p && has_prefix s ps

-- No letter outside ASCII has one of the prefixes' letters as its lower case.
unfoldable pub component_class : Bytes → Option SetClass
unfolding has_prefix
component_class c =
    let lc = map lower c in
    if has_prefix lc (b'a' ∷ b's' ∷ b'-' ∷ [])
    then some class_as_set
    else if has_prefix lc (b'r' ∷ b's' ∷ b'-' ∷ [])
    then some class_route_set
    else if has_prefix lc (b'r' ∷ b't' ∷ b'r' ∷ b's' ∷ b'-' ∷ [])
    then some class_rtr_set
    else if has_prefix lc (b'f' ∷ b'l' ∷ b't' ∷ b'r' ∷ b'-' ∷ [])
    then some class_filter_set
    else if has_prefix lc (b'p' ∷ b'r' ∷ b'n' ∷ b'g' ∷ b'-' ∷ [])
    then some class_peering_set
    else none

-- The bytes of a set component, the last of them a letter or a digit. None is empty.
unfoldable pub valid_set_component : Bytes → Bool
valid_set_component [] = false
valid_set_component (b ∷ []) = is_alnum b
valid_set_component (b ∷ c ∷ s) =
    (is_alnum b || b == b'_' || b == b'-') && valid_set_component (c ∷ s)

unfoldable pub valid_asn_component : Bytes → Bool
valid_asn_component [] = true
valid_asn_component (b ∷ s) = (is_alnum b || b == b'.') && valid_asn_component s

abbrev pub max_set_name_len : ℕ
max_set_name_len = 1024

-- `strings.Split(t, ":")`: the component before the first colon, and those behind it.
unfoldable pub split_colon : Bytes → Bytes × List Bytes
split_colon [] = ([], [])
split_colon (c ∷ s) =
    let rest = split_colon s in if c == b':' then ([], rest.0 ∷ rest.1) else (c ∷ rest.0, rest.1)

-- `strings.Join(canon, ":")`, of a first component and the others.
unfoldable pub join_colon : Bytes → List Bytes → Bytes
join_colon p [] = p
join_colon p (q ∷ ps) = p ++ b':' ∷ join_colon q ps

-- What one component is in canonical form, and the class of the name with it.
unfoldable pub set_component : SetClass → SetClass → Bytes → Option (Bytes × SetClass)
unfolding valid_set_component
set_component class cls p =
    if not (valid_set_component p)
    then none
    else if not (class_eq class class_unknown) && not (class_eq cls class)
    then none
    else some (map upper_byte p, cls)

unfoldable pub asn_component : SetClass → Bytes → Option ℕ → Option (Bytes × SetClass)
unfolding valid_asn_component asn_string
asn_component class p none = none
asn_component class p (some a) = if valid_asn_component p then some (asn_string a, class) else none

unfoldable pub component : SetClass → Bytes → Option (Bytes × SetClass)
unfolding component_class set_component asn_component parse_asn
component class p = if length p == 0 then none else elim (component_class p) [
  | some cls ↦ set_component class cls p
  | none ↦ asn_component class p (parse_asn p)
]

-- The loop over the components.
unfoldable pub components : SetClass → List Bytes → Option (List Bytes × SetClass)
unfolding component
components class [] = some ([], class)
components class (p ∷ ps) = elim (component class p) [
  | none ↦ none
  | some (canon, class') ↦ elim (components class' ps) [
    | none ↦ none
    | some (canons, last) ↦ some (canon ∷ canons, last)
  ]
]

-- The name with the canonical components.
unfoldable pub named : Option (List Bytes × SetClass) → Option SetName
unfolding join_colon
named (some (p ∷ ps, class)) =
    if class_eq class class_unknown
    then none
    else some (record { canon = join_colon p ps; set_class = class })
named _ = none

unfoldable pub parse_set_name : Bytes → Option SetName
unfolding trim_pos split_colon components named
parse_set_name s =
    let t = (trim_pos s 0).0 in
    if length t == 0
    then none
    else if ltb max_set_name_len (length t)
    then none
    else (let (p, ps) = split_colon t in named (components class_unknown (p ∷ ps)))

-- `strings.Cut(t, "::")`
unfoldable pub cut_colons : Bytes → Option (Bytes × Bytes)
cut_colons [] = none
cut_colons (c ∷ []) = none
cut_colons (c ∷ d ∷ s) = elim (c == b':' && d == b':') [
  | true ↦ some ([], s)
  | false ↦ elim (cut_colons (d ∷ s)) [
    | none ↦ none
    | some (source, rest) ↦ some (c ∷ source, rest)
  ]
]

abbrev starts_blank : Bytes → Bool
starts_blank [] = true
starts_blank (c ∷ s) = c == b' ' || c == b'\t'

-- A reference with the text before `::` and that behind it.
unfoldable pub scoped_ref : Bytes → Bytes → Option SetRef
unfolding parse_set_name new_set_ref
scoped_ref source rest = if starts_blank rest then none else elim (parse_set_name rest) [
  | none ↦ none
  | some n ↦ if length source == 0 then none else new_set_ref source n
]

unfoldable pub parse_set_ref : Bytes → Option SetRef
unfolding trim_pos cut_colons scoped_ref parse_set_name
parse_set_ref s =
    let t = (trim_pos s 0).0 in
    elim (cut_colons t) [
      | some (source, rest) ↦ scoped_ref source rest
      | none ↦ elim (parse_set_name t) [ none ↦ none | some n ↦ some (ref n) ]
    ]
