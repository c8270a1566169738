-- ===== src/Lexer/Position.antt =====
-- lexer/lexer.go: where a byte of a logical value stands in the source, and values with their
-- comments. The offset is a natural number; Go takes a negative one for 0.
use rpsl.Base.{ℕ, ◌+◌, ◌-◌, true, not, none, some, List, [], ◌∷◌, map, leb, if◌then◌else◌}
use rpsl.Lexer.Text.{Bytes, starts_attribute, trim_pos, index_byte, cont_value, join_lines}
use rpsl.Lexer.Lines.{PhysLine, scan_lines}
use rpsl.Lexer.{Token, Segment}

-- A line, a column and a byte offset.
abbrev pub Position : Type 0
Position = ℕ × ℕ × ℕ

abbrev pub at : Segment → ℕ → Position
at s d = (s.src_line, s.src_col + d, s.src_byte + d)

-- The loop of `SourceAt`, and the end of the last segment after it.
unfoldable pub locate : Segment → List Segment → ℕ → Position
locate s [] offset =
    at s (if leb offset s.val_end then offset - s.val_start else s.val_end - s.val_start)
locate s (r ∷ segments) offset =
    let later = locate r segments offset in
    if leb offset s.val_end then at s (offset - s.val_start) else later

unfoldable pub source_at : Token → ℕ → Position
unfolding locate
source_at t offset = elim t.segments [
  | [] ↦ (t.span.start_line, t.span.start_col, t.span.start_byte)
  | s ∷ segments ↦ locate s segments offset
]

-- The value of the first line, after its ':'.
abbrev pub first_value : Bytes → Bytes
first_value text = elim (index_byte b':' text) [
  | none ↦ (trim_pos text 0).0
  | some i ↦ (trim_pos text (i + 1)).0
]

unfoldable pub value_with_comments : Bytes → Bytes
unfolding starts_attribute
value_with_comments raw = elim (scan_lines raw) [
  | [] ↦ join_lines []
  | pl ∷ pls ↦
      if not (starts_attribute pl.text)
      then []
      else join_lines (first_value pl.text ∷ map (λ (p : PhysLine). (cont_value p.text true).0) pls)
]
