-- ===== src/Ast.antt =====
-- ast/object.go: the lossless object model. An object is the list of its attributes, with the text
-- before each of them and after the last. A nil object reads as the one without attributes and text.
pub mod Edit
pub mod RoundTrip
pub mod Trivia
pub mod Replace
pub mod Build
pub mod Items
pub mod ItemSpans
use rpsl.Base.{
  ℕ, zero, suc, ◌+◌, ◌-◌, Bool, true, false, not, ◌&&◌, ◌||◌, Option, none, some, List, [], ◌∷◌,
  ◌++◌, ◌==◌, if◌then◌else◌,
}
use rpsl.Types.SetName.{text_eq}
use rpsl.Lexer.{
  Kind, kind_attribute, kind_blank, kind_comment, kind_malformed, Span, Segment, Token,
}
use rpsl.Lexer.Text.{Bytes, before, canonical_name, index_byte}
use rpsl.Lexer.Position.{locate}

pub record Attribute : Type 0 where
  pub name : Bytes
  pub value : Bytes
  pub raw : Bytes
  pub comment : Bytes
  pub span : Span
  pub segments : List Segment
  pub lead : Bytes

pub record Object : Type 0 where
  pub attrs : List Attribute
  pub trail : Bytes

abbrev pub is_attribute : Kind → Bool
is_attribute kind_attribute = true
is_attribute _ = false

-- `joinRaw`
unfoldable pub join_raw : List Token → Bytes
join_raw [] = []
join_raw (t ∷ ts) = t.raw ++ join_raw ts

-- `strings.TrimSuffix(s, "\r")`
unfoldable pub trim_cr : Bytes → Bytes
trim_cr [] = []
trim_cr (c ∷ []) = if c == b'\r' then [] else c ∷ []
trim_cr (c ∷ d ∷ s) = c ∷ trim_cr (d ∷ s)

-- `strings.TrimSpace`, which also knows the spaces of Unicode, is a parameter.
module _ (trim_space : Bytes → Bytes) where
  unfoldable pub after_hash : Bytes → Bytes
  after_hash [] = []
  after_hash (c ∷ s) = elim (c == b'#') [ true ↦ trim_space s | false ↦ after_hash s ]

  unfoldable pub inline_comment : Bytes → Bytes
  unfolding trim_cr after_hash
  inline_comment raw = after_hash (trim_cr (before b'\n' raw))

  abbrev pub attribute_of : Token → List Token → Attribute
  attribute_of t run = record {
    name = t.name;
    value = t.value;
    raw = t.raw;
    comment = inline_comment t.raw;
    span = t.span;
    segments = t.segments;
    lead = join_raw run;
  }

  -- The loop of `New`; `run` holds the tokens since the last attribute.
  unfoldable pub new_from : List Token → List Token → Object
  new_from [] run = record { attrs = []; trail = join_raw run }
  new_from (t ∷ toks) run = elim (is_attribute t.kind) [
    | true ↦
        let o = new_from toks [] in record { attrs = attribute_of t run ∷ o.attrs; trail = o.trail }
    | false ↦ new_from toks (run ++ t ∷ [])
  ]

  unfoldable pub new : List Token → Object
  unfolding new_from
  new toks = new_from toks []

unfoldable pub class : Object → Bytes
class o = elim o.attrs [ [] ↦ [] | a ∷ more ↦ a.name ]

unfoldable pub key : Object → Bytes
key o = elim o.attrs [ [] ↦ [] | a ∷ more ↦ a.value ]

pub first_named : Bytes → List Attribute → Option Attribute
first_named name [] = none
first_named name (a ∷ more) = elim (text_eq a.name name) [
  | true ↦ some a
  | false ↦ first_named name more
]

pub all_named : Bytes → List Attribute → List Attribute
all_named name [] = []
all_named name (a ∷ more) =
    let rest = all_named name more in if text_eq a.name name then a ∷ rest else rest

unfoldable pub get_first : Object → Bytes → Option Attribute
unfolding first_named
get_first o name = first_named (canonical_name name) o.attrs

unfoldable pub get_all : Object → Bytes → List Attribute
unfolding all_named
get_all o name = all_named (canonical_name name) o.attrs

unfoldable pub has : Object → Bytes → Bool
unfolding get_first
has o name = elim (get_first o name) [ none ↦ false | some a ↦ true ]

-- The text of some attributes, each after what stands before it.
unfoldable pub text_of : List Attribute → Bytes
text_of [] = []
text_of (a ∷ more) = a.lead ++ (a.raw ++ text_of more)

unfoldable pub string : Object → Bytes
unfolding text_of
string o = text_of o.attrs ++ o.trail

-- `SpanAt`: the places of the two ends, or the whole span where there are no segments.
unfoldable pub span_at : Attribute → ℕ → ℕ → Span
unfolding locate
span_at a from to = elim a.segments [
  | [] ↦ a.span
  | s ∷ segments ↦
      let (line, col, byte) = locate s segments from in
      let (line', col', byte') = locate s segments to in
      record {
        start_line = line;
        start_col = col;
        start_byte = byte;
        end_line = line';
        end_col = col';
        end_byte = byte';
      }
]
