-- ===== src/Tests/Scanner.antt =====
-- The lexer.
use Prim.Native.Char.{code}
use Prim.Native.String.{String}
use rpsl.Base.{◌≡◌, refl, [], ◌∷◌, map}
use rpsl.Lexer.Text.{
  Bytes, index_byte, is_blank_line, head_is_marker, head_is, starts_attribute, split_attr,
  cont_value, join_lines,
}
use rpsl.Lexer.Lines.{Covers, scan_lines, scan_lines-Covers}
use rpsl.Lexer.{
  kind_attribute, kind_blank, kind_comment, kind_malformed, Token, tokenize_at, tokenize,
  continue_with, start_pending,
}
use rpsl.Lexer.Position.{source_at, value_with_comments}
use rpsl.Lexer.Partition.{raws, Chain, tokenize_partition}

-- The bytes of an ASCII text.
abbrev pub codes : String → Bytes
codes String.[] = []
codes (String.◌∷◌ c s) = code c ∷ codes s

abbrev source : Bytes
source = codes "Person:  A # x\n+ B\n\n# c\r\nbad"

tokenize_kinds :
    map (λ (t : Token). t.kind) (tokenize source)
    ≡ kind_attribute ∷ kind_blank ∷ kind_comment ∷ kind_malformed ∷ []
unfolding tokenize is_blank_line head_is_marker head_is starts_attribute
tokenize_kinds = refl

tokenize_values : map (λ (t : Token). t.value) (tokenize source) ≡ codes "A\nB" ∷ [] ∷ [] ∷ [] ∷ []
unfolding tokenize is_blank_line head_is_marker head_is starts_attribute split_attr cont_value
    join_lines continue_with start_pending
tokenize_values = refl

tokenize_partition_example :
    (raws (tokenize_at source 1 0) ≡ source) × Chain 0 (tokenize_at source 1 0)
tokenize_partition_example = tokenize_partition source 1 0

scan_lines-Covers_example : Covers 0 source (scan_lines source)
scan_lines-Covers_example = scan_lines-Covers source

-- The 'B' of the value stands in line 2, column 3.
source_at_run :
    map (λ (t : Token). source_at t 2) (tokenize (codes "Person:  A # x\n+ B\n")) ≡ (2, 3, 17) ∷ []
unfolding source_at tokenize is_blank_line head_is_marker head_is starts_attribute split_attr
    cont_value join_lines continue_with start_pending
source_at_run = refl

comments_run : value_with_comments (codes "Person:  A # x\n+ B\n") ≡ codes "A # x\nB"
unfolding value_with_comments cont_value join_lines is_blank_line starts_attribute scan_lines
    index_byte
comments_run = refl
