-- ===== src/Lexer/Text.antt =====
-- lexer/lexer.go, the functions on one line: blank lines, attribute lines, names and values.
use rpsl.Base.{
  ℕ, suc, ◌+◌, Bool, true, false, ◌&&◌, ◌||◌, Option, none, some, List, [], ◌∷◌, ◌++◌, take, drop,
  map, ◌==◌, leb, if◌then◌else◌,
}

abbrev pub Bytes : Type 0
Bytes = List ℕ

-- A space or a tab.
abbrev pub is_space : ℕ → Bool
is_space c = c == b' ' || c == b'\t'

unfoldable pub is_blank_line : Bytes → Bool
is_blank_line [] = true
is_blank_line (c ∷ cs) = is_space c && is_blank_line cs

-- The tests on `text[0]`; `classify` makes them on lines that are not blank.
unfoldable pub head_is_marker : Bytes → Bool
head_is_marker [] = false
head_is_marker (c ∷ cs) = c == b' ' || c == b'\t' || c == b'+'

unfoldable pub head_is : ℕ → Bytes → Bool
head_is b [] = false
head_is b (c ∷ cs) = c == b

-- The loop of `StartsAttribute`: a ':' before any '#'.
pub colon_first : Bytes → Bool
colon_first [] = false
colon_first (c ∷ cs) = if c == b':' then true else if c == b'#' then false else colon_first cs

unfoldable pub starts_attribute : Bytes → Bool
unfolding colon_first
starts_attribute [] = false
starts_attribute (c ∷ cs) =
    if c == b' ' || c == b'\t' || c == b'+' || c == b'#' then false else colon_first (c ∷ cs)

-- `content[:h]` at the first byte `b`, or all of it.
unfoldable pub before : ℕ → Bytes → Bytes
before b [] = []
before b (c ∷ cs) = if c == b then [] else c ∷ before b cs

-- `strings.IndexByte`
unfoldable pub index_byte : ℕ → Bytes → Option ℕ
index_byte b [] = none
index_byte b (c ∷ cs) =
    let rest = index_byte b cs in
    if c == b then some 0 else elim rest [ none ↦ none | some i ↦ some (suc i) ]

-- How far the first loop of `trimPos` goes, and what it leaves.
unfoldable pub skip_spaces : Bytes → ℕ × Bytes
skip_spaces [] = (0, [])
skip_spaces (c ∷ cs) =
    let rest = skip_spaces cs in if is_space c then (suc rest.0, rest.1) else (0, c ∷ cs)

-- The second loop of `trimPos`: spaces and tabs at the end are dropped.
unfoldable pub drop_trailing : Bytes → Bytes
unfolding is_blank_line
drop_trailing [] = []
drop_trailing (c ∷ cs) = if is_blank_line (c ∷ cs) then [] else c ∷ drop_trailing cs

unfoldable pub trim_pos : Bytes → ℕ → Bytes × ℕ
unfolding skip_spaces drop_trailing
trim_pos content from =
    let (n, rest) = skip_spaces (drop from content) in (drop_trailing rest, from + n)

-- ASCII upper case to lower case.
abbrev pub lower : ℕ → ℕ
lower c = if leb b'A' c && leb c b'Z' then c + 32 else c

unfoldable pub canonical_name : Bytes → Bytes
unfolding trim_pos
canonical_name name = map lower (trim_pos name 0).0

unfoldable pub split_attr : Bytes → Bytes × Bytes × ℕ
unfolding before index_byte trim_pos canonical_name
split_attr text =
    let content = before b'#' text in
    elim (index_byte b':' content) [
      | none ↦ let (v, off) = trim_pos content 0 in ([], v, off)
      | some i ↦
          let (v, off) = trim_pos content (i + 1) in (canonical_name (take i content), v, off)
    ]

-- `contValue` of the content that is left once the comment is cut.
pub cont_content : Bytes → Bytes × ℕ
unfolding trim_pos
cont_content [] = ([], 0)
cont_content (c ∷ cs) = if c == b'+' then trim_pos (c ∷ cs) 1 else trim_pos (c ∷ cs) 0

unfoldable pub cont_value : Bytes → Bool → Bytes × ℕ
unfolding cont_content before
cont_value text keep_comment = cont_content (if keep_comment then text else before b'#' text)

-- `strings.Join(segs, "\n")`
unfoldable pub join_lines : List Bytes → Bytes
join_lines [] = []
join_lines (v ∷ []) = v
join_lines (v ∷ w ∷ vs) = v ++ (b'\n' ∷ join_lines (w ∷ vs))
