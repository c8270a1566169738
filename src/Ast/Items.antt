-- ===== src/Ast/Items.antt =====
-- ast/list.go: the items of a list-valued attribute. `strings.TrimLeftFunc` and `TrimRightFunc` with
-- `unicode.IsSpace`, which read UTF-8, are parameters; `trim_space` is both. The loop has fuel; a round
-- passes at least the byte it ends at.
use rpsl.Base.{
  ℕ, zero, suc, ◌+◌, ◌-◌, Bool, true, false, not, ◌&&◌, ◌||◌, Option, none, some, List, [], ◌∷◌,
  length, drop, ◌==◌, ltb, if◌then◌else◌,
}
use rpsl.Lexer.{slice}
use rpsl.Lexer.Text.{Bytes}
use rpsl.Ast.{Attribute}

pub record ListItem : Type 0 where
  pub value : Bytes
  pub start : ℕ
  pub end : ℕ

abbrev pub is_empty : Bytes → Bool
is_empty [] = true
is_empty (c ∷ s) = false

-- The inner loop from `at` on, over the bytes that are left: where the item ends, and whether a line
-- break is what ends it.
unfoldable pub find_end : ℕ → ℕ → Bytes → ℕ → ℕ × Bool
find_end first last [] at = (at, false)
find_end first last (c ∷ s) at =
    if c == b',' || c == b'\n' && not (ltb at first) && ltb at last
    then (at, c == b'\n')
    else find_end first last s (at + 1)

module _ (trim_left trim_right : Bytes → Bytes) where
  unfoldable pub trim_item : Bytes → ℕ → ℕ → ListItem
  unfolding slice
  trim_item v start end =
      let s = slice v start end in
      let l = trim_left s in
      let start' = start + (length s - length l) in
      let end' = start' + length (trim_right l) in
      record { value = slice v start' end'; start = start'; end = end' }

  -- The item is kept unless it is empty next to a line break.
  unfoldable pub keep_item : ListItem → Bool → List ListItem → List ListItem
  keep_item item at_break rest =
      if not (is_empty item.value) || not at_break then item ∷ rest else rest

  unfoldable pub items_from : Bytes → ℕ → ℕ → ℕ → ℕ → Bool → Option (List ListItem)
  unfolding find_end trim_item keep_item
  items_from v first last zero start after_break = none
  items_from v first last (suc fuel) start after_break =
      let (end, at_break) = find_end first last (drop start v) start in
      let item = trim_item v start end in
      elim (end == length v) [
        | true ↦ some (keep_item item (after_break || at_break) [])
        | false ↦ elim (items_from v first last fuel (end + 1) at_break) [
          | none ↦ none
          | some rest ↦ some (keep_item item (after_break || at_break) rest)
        ]
      ]

  -- `List`; the fuel is one more than the length of the value.
  unfoldable pub list : Attribute → Option (List ListItem)
  unfolding items_from
  list a =
      let v = a.value in
      if is_empty (trim_right (trim_left v))
      then some []
      else items_from v (length v - length (trim_left v)) (length (trim_right v)) (length v + 1) 0
          false
