-- ===== src/Lexer.antt =====
-- lexer/lexer.go: the line-oriented scanner. A text is a list of bytes. Positions are `int`s; the
-- number of a line and the byte offset of the source are those that TokenizeAt is given.
pub mod Lines
pub mod Text
pub mod Partition
pub mod Position
use rpsl.Base.{
  ℕ, zero, suc, ◌+◌, ◌-◌, Bool, true, false, not, ◌&&◌, ◌||◌, Option, none, some, List, [], ◌∷◌,
  ◌++◌, length, take, drop, ◌==◌, if◌then◌else◌,
}
use rpsl.Lexer.Text.{
  Bytes, is_blank_line, starts_attribute, split_attr, cont_value, head_is_marker, head_is,
  join_lines,
}
use rpsl.Lexer.Lines.{PhysLine, scan_lines}

pub data Kind : Type 0 where
  kind_attribute kind_blank kind_comment kind_malformed : Kind

pub record Span : Type 0 where
  pub start_line : ℕ
  pub start_col : ℕ
  pub end_line : ℕ
  pub end_col : ℕ
  pub start_byte : ℕ
  pub end_byte : ℕ

pub record Segment : Type 0 where
  pub val_start : ℕ
  pub val_end : ℕ
  pub src_line : ℕ
  pub src_col : ℕ
  pub src_byte : ℕ

pub record Token : Type 0 where
  pub kind : Kind
  pub name : Bytes
  pub value : Bytes
  pub raw : Bytes
  pub span : Span
  pub segments : List Segment

-- `classify`: the kind, and whether the line folds into the attribute in progress.
unfoldable pub classify : Bytes → Bool → Kind × Bool
classify text have_cur =
    if is_blank_line text
    then (kind_blank, false)
    else if head_is_marker text
    then (if have_cur then (kind_attribute, true) else (kind_malformed, false))
    else if head_is b'#' text
    then (kind_comment, false)
    else if starts_attribute text
    then (kind_attribute, false)
    else (kind_malformed, false)

-- `src[i:j]`
unfoldable pub slice : Bytes → ℕ → ℕ → Bytes
slice src i j = take (j - i) (drop i src)

-- The attribute being folded: `cur`, `curStart`, `segs`, `valOff` and its own part of `all`.
pub record Pending : Type 0 where
  pub name : Bytes
  pub span : Span
  pub cur_start : ℕ
  pub segs : List Bytes
  pub val_off : ℕ
  pub segments : List Segment

-- The state of the loop; `cur` is `none` where `haveCur` is false.
pub record Folding : Type 0 where
  pub toks : List Token
  pub cur : Option Pending

abbrev pub have_cur : Option Pending → Bool
have_cur none = false
have_cur (some c) = true

module _ (src : Bytes) (line byte_offset : ℕ) where
  -- `lineBase + pl.line`, where `lineBase` is `line - 1`
  abbrev pub line_of : PhysLine → ℕ
  line_of pl = line + pl.line - 1

  abbrev pub end_of : PhysLine → ℕ
  end_of pl = pl.start + length pl.text + length pl.term

  -- `flush`: the tokens with the attribute in progress added. It leaves no attribute in progress.
  unfoldable pub flush : List Token → Option Pending → List Token
  flush toks none = toks
  flush toks (some c) =
      toks
      ++ (record {
        kind = kind_attribute;
        name = c.name;
        value = join_lines c.segs;
        raw = slice src c.cur_start (c.span.end_byte - byte_offset);
        span = c.span;
        segments = c.segments;
      }
          ∷ [])

  abbrev pub segment_at : PhysLine → ℕ → Bytes → ℕ → Segment
  segment_at pl from val off = record {
    val_start = from;
    val_end = from + length val;
    src_line = line_of pl;
    src_col = off + 1;
    src_byte = byte_offset + pl.start + off;
  }

  -- The body of `if isCont`.
  unfoldable pub continue_with : PhysLine → Pending → Pending
  continue_with pl c =
      let (val, off) = cont_value pl.text false in
      record c {
        span = record (c.span) {
          end_line = line_of pl;
          end_col = length pl.text + 1;
          end_byte = byte_offset + end_of pl;
        };
        segs = c.segs ++ val ∷ [];
        segments = c.segments ++ segment_at pl c.val_off val off ∷ [];
        val_off = c.val_off + (length val + 1);
      }

  abbrev pub span_of : PhysLine → Span
  span_of pl = record {
    start_line = line_of pl;
    start_col = 1;
    end_line = line_of pl;
    end_col = length pl.text + 1;
    start_byte = byte_offset + pl.start;
    end_byte = byte_offset + end_of pl;
  }

  unfoldable pub start_pending : PhysLine → Pending
  start_pending pl =
      let (name, val, off) = split_attr pl.text in
      record {
        name = name;
        span = span_of pl;
        cur_start = pl.start;
        segs = val ∷ [];
        val_off = length val + 1;
        segments = segment_at pl 0 val off ∷ [];
      }

  abbrev pub line_token : Kind → PhysLine → Token
  line_token kind pl = record {
    kind = kind;
    name = [];
    value = [];
    raw = slice src pl.start (end_of pl);
    span = span_of pl;
    segments = [];
  }

  -- The switch on the kind, after the flush.
  unfoldable pub start_line : Kind → PhysLine → Folding → Folding
  start_line kind_attribute pl st = record st { cur = some (start_pending pl) }
  start_line kind pl st = record st { toks = st.toks ++ line_token kind pl ∷ [] }

  -- One round of the loop, given what `classify` says: the flag is `isCont`. It calls a line a
  -- continuation only if there is an attribute to continue.
  unfoldable pub place : Kind → Bool → Folding → PhysLine → Folding
  unfolding start_line
  place kind true st pl = record st {
    cur = elim st.cur [ none ↦ none | some c ↦ some (continue_with pl c) ];
  }
  place kind false st pl = start_line kind pl (record { toks = flush st.toks st.cur; cur = none })

  unfoldable pub step : Folding → PhysLine → Folding
  unfolding classify place
  step st pl = let (kind, is_cont) = classify pl.text (have_cur st.cur) in place kind is_cont st pl

  unfoldable pub run : Folding → List PhysLine → List Token
  run st [] = flush st.toks st.cur
  run st (pl ∷ pls) = run (step st pl) pls

  unfoldable pub tokenize_at : List Token
  unfolding run step flush scan_lines
  tokenize_at = run (record { toks = []; cur = none }) (scan_lines src)

unfoldable pub tokenize : Bytes → List Token
unfolding tokenize_at
tokenize src = tokenize_at src 1 0
