-- ===== src/Tests/Lists.antt =====
-- The items of list-valued attributes.
use rpsl.Base.{
  ℕ, suc, ◌≤◌, ◌≡◌, refl, Bool, true, false, some, List, [], ◌∷◌, length, ◌==◌, arith,
  if◌then◌else◌,
}
use rpsl.Lexer.Text.{Bytes}
use rpsl.Ast.{Attribute}
use rpsl.Ast.Edit.{no_span}
use rpsl.Ast.Items.{ListItem, list}
use rpsl.Ast.ItemSpans.{InOrder, list-InOrder}
use rpsl.Tests.Scanner.{codes}

-- Trimming of plain spaces.
abbrev trim_left : Bytes → Bytes
trim_left [] = []
trim_left (c ∷ s) = if c == b' ' then trim_left s else c ∷ s

-- The byte in front of what is left of a text, unless it is a space at its end.
abbrev in_front : ℕ → Bytes → Bytes
in_front c [] = if c == b' ' then [] else c ∷ []
in_front c (d ∷ s) = c ∷ d ∷ s

abbrev trim_right : Bytes → Bytes
trim_right [] = []
trim_right (c ∷ s) = in_front c (trim_right s)

left_le : (s : Bytes) → length (trim_left s) ≤ length s
left_le [] = omega arith
left_le (c ∷ s) = of (c == b' ') (left_le s)
  where
    of :
        (b : Bool)
        → length (trim_left s) ≤ length s
        → length (if b then trim_left s else c ∷ s) ≤ suc (length s)
    of true h = omega (arith, h)
    of false h = omega arith

right_le : (s : Bytes) → length (trim_right s) ≤ length s
right_le [] = omega arith
right_le (c ∷ s) = of (trim_right s) (right_le s)
  where
    blank : (b : Bool) → length (if b then [] else c ∷ []) ≤ suc (length s)
    blank true = omega arith
    blank false = omega arith

    of : (x : Bytes) → length x ≤ length s → length (in_front c x) ≤ suc (length s)
    of [] h = blank (c == b' ')
    of (d ∷ x) h = omega (arith, h)

abbrev members : Attribute
members = record {
  name = codes "members";
  value = codes "AS1, AS2,\n\nAS3";
  raw = [];
  comment = [];
  span = no_span;
  segments = [];
  lead = [];
}

abbrev three : List ListItem
three =
    record { value = codes "AS1"; start = 0; end = 3 }
    ∷ record { value = codes "AS2"; start = 5; end = 8 }
    ∷ record { value = codes "AS3"; start = 11; end = 14 }
    ∷ []

list_run : list trim_left trim_right members ≡ some three
unfolding list
list_run = refl

list-InOrder_example :
    (items : List ListItem) × (list trim_left trim_right members ≡ some items)
    × InOrder (codes "AS1, AS2,\n\nAS3") 0 items
list-InOrder_example = list-InOrder trim_left trim_right left_le right_le members
