-- ===== src/Ast/ItemSpans.antt =====
-- Where the items of a list stand in the value.
use rpsl.Base.{
  ℕ, zero, suc, ◌+◌, ◌-◌, ◌≤◌, ◌<◌, ◌≡◌, refl, Bool, true, false, not, ◌&&◌, ◌||◌, Option, none,
  some, List, [], ◌∷◌, length, take, drop, ◌==◌, ltb, if◌then◌else◌, arith,
}
use rpsl.Lexer.{slice}
use rpsl.Lexer.Text.{Bytes}
use rpsl.Ast.{Attribute}
use rpsl.Ast.Items.{ListItem, find_end, trim_item, keep_item, items_from, list, is_empty}

-- The items stand in order from `at` on, inside the value, and each is the text between its ends.
abbrev pub InOrder : Bytes → ℕ → List ListItem → Type 0
InOrder v at [] = Unit
InOrder v at (it ∷ more) =
    (at ≤ it.start)
    × (it.start ≤ it.end)
    × (it.end ≤ length v)
    × (it.value ≡ slice v it.start it.end)
    × InOrder v it.end more

length-drop : (n : ℕ) (xs : Bytes) → n ≤ length xs → length (drop n xs) ≡ length xs - n
length-drop zero xs h = omega arith
length-drop (suc n) [] h = omega (arith, h)
length-drop (suc n) (x ∷ xs) h = omega (arith, length-drop n xs (omega (arith, h)))

length-take : (n : ℕ) (xs : Bytes) → n ≤ length xs → length (take n xs) ≡ n
length-take zero xs h = refl
length-take (suc n) [] h = absurd (omega (arith, h))
length-take (suc n) (x ∷ xs) h = omega (arith, length-take n xs (omega (arith, h)))

length-slice : (v : Bytes) (i j : ℕ) → i ≤ j → j ≤ length v → length (slice v i j) ≡ j - i
unfolding slice
length-slice v i j p q =
    length-take (j - i) (drop i v) (omega (arith, p, q, length-drop i v (omega (arith, p, q))))

find_end-between :
    (first last : ℕ) (s : Bytes) (at : ℕ)
    → (at ≤ (find_end first last s at).0) × ((find_end first last s at).0 ≤ at + length s)
unfolding find_end
find_end-between first last [] at = (omega arith, omega arith)
find_end-between first last (c ∷ s) at =
    of (c == b',' || c == b'\n' && not (ltb at first) && ltb at last)
      (find_end-between first last s (at + 1))
  where
    of :
        (b : Bool)
        → (at + 1 ≤ (find_end first last s (at + 1)).0)
          × ((find_end first last s (at + 1)).0 ≤ at + 1 + length s)
        → (at ≤ (if b then (at, c == b'\n') else find_end first last s (at + 1)).0)
          × ((if b then (at, c == b'\n') else find_end first last s (at + 1)).0
              ≤ at + suc (length s))
    of true h = (omega arith, omega arith)
    of false h = (omega (arith, h.0), omega (arith, h.1))

lower :
    (v : Bytes) (at at' : ℕ) (items : List ListItem)
    → at' ≤ at
    → InOrder v at items
    → InOrder v at' items
lower v at at' [] p h = tt
lower v at at' (it ∷ more) p h = (omega (arith, p, h.0), h.1, h.2, h.3, h.4)

module _ (trim_left trim_right : Bytes → Bytes)
    (left_le : (s : Bytes) → length (trim_left s) ≤ length s)
    (right_le : (s : Bytes) → length (trim_right s) ≤ length s) where
  trim_item-InOrder :
      (v : Bytes) (start end : ℕ) (items : List ListItem)
      → start ≤ end
      → end ≤ length v
      → InOrder v end items
      → InOrder v start (trim_item trim_left trim_right v start end ∷ items)
  unfolding trim_item
  trim_item-InOrder v start end items p q h =
      let s = slice v start end in
      let width = length-slice v start end p q in
      (
        omega arith,
        omega arith,
        omega (arith, width, left_le s, right_le (trim_left s), p, q),
        refl,
        lower v end (trim_item trim_left trim_right v start end).end items
            (omega (arith, width, left_le s, right_le (trim_left s), p, q)) h,
      )

  keep_item-InOrder :
      (v : Bytes) (start end : ℕ) (at_break : Bool) (items : List ListItem)
      → start ≤ end
      → end ≤ length v
      → InOrder v end items
      → InOrder v start (
          keep_item trim_left trim_right
            (trim_item trim_left trim_right v start end)
            at_break
            items)
  unfolding keep_item
  keep_item-InOrder v start end at_break items p q h =
      of (not (is_empty (trim_item trim_left trim_right v start end).value) || not at_break)
    where
      of :
          (b : Bool)
          → InOrder v start
              (if b then trim_item trim_left trim_right v start end ∷ items else items)
      of true = trim_item-InOrder v start end items p q h
      of false = lower v end start items p h

  abbrev Found : Bytes → ℕ → Option (List ListItem) → Type 0
  Found v at none = ⊥
  Found v at (some items) = InOrder v at items

  items_from-Found :
      (v : Bytes) (first last fuel start : ℕ) (after_break : Bool)
      → start ≤ length v
      → length v < fuel + start
      → Found v start (items_from trim_left trim_right v first last fuel start after_break)
  unfolding items_from
  items_from-Found v first last zero start after_break p q = absurd (omega (arith, p, q))
  items_from-Found v first last (suc fuel) start after_break p q =
      of (end == length v) refl (λ at_break. items_from-Found v first last fuel (end + 1) at_break)
    where
      end : ℕ
      end = (find_end first last (drop start v) start).0

      at_break : Bool
      at_break = (find_end first last (drop start v) start).1

      item : ListItem
      item = trim_item trim_left trim_right v start end

      between : (start ≤ end) × (end ≤ start + length (drop start v))
      between = find_end-between first last (drop start v) start

      le : end ≤ length v
      le = omega (arith, between, length-drop start v p, p)

      Rest : Bool → Type 0
      Rest at_break =
          end + 1 ≤ length v
          → length v < fuel + (end + 1)
          → Found v (end + 1) (items_from trim_left trim_right v first last fuel (end + 1) at_break)

      kept : List ListItem → List ListItem
      kept = keep_item trim_left trim_right item (after_break || at_break)

      of_rest :
          (x : Option (List ListItem))
          → Found v (end + 1) x
          → Found v start (elim x [ none ↦ none | some rest ↦ some (kept rest) ])
      of_rest none h = h
      of_rest (some rest) h =
          keep_item-InOrder v start end (after_break || at_break) rest between.0 le
            (lower v (end + 1) end rest (omega arith) h)

      of :
          (b : Bool)
          → (end == length v) ≡ b
          → ((at_break : Bool) → Rest at_break)
          → Found v start (elim b [
            | true ↦ some (kept [])
            | false ↦ elim (items_from trim_left trim_right v first last fuel (end + 1) at_break) [
              | none ↦ none
              | some rest ↦ some (kept rest)
            ]
          ])
      of true e rest = keep_item-InOrder v start end (after_break || at_break) [] between.0 le tt
      of false e rest =
          of_rest (items_from trim_left trim_right v first last fuel (end + 1) at_break)
            (rest at_break (ground (arith, e, le)) (omega (arith, q, between)))

  -- `List` ends, and its items stand in order in the value without overlap, each as the text between its
  -- two ends, where trimming a text never makes it longer.
  pub list-InOrder :
      (a : Attribute)
      → (items : List ListItem) × (list trim_left trim_right a ≡ some items)
        × InOrder a.value 0 items
  unfolding list
  list-InOrder a = of (is_empty (trim_right (trim_left a.value)))
    where
      found :
          (x : Option (List ListItem))
          → Found a.value 0 x
          → (items : List ListItem) × (x ≡ some items) × InOrder a.value 0 items
      found none h = absurd h
      found (some items) h = (items, refl, h)

      from : Option (List ListItem)
      from =
          items_from trim_left trim_right a.value (length a.value - length (trim_left a.value))
            (length (trim_right a.value)) (length a.value + 1) 0 false

      of :
          (b : Bool)
          → (items : List ListItem) × ((if b then some [] else from) ≡ some items)
            × InOrder a.value 0 items
      of true = ([], refl, tt)
      of false = found from (
          items_from-Found a.value (length a.value - length (trim_left a.value))
            (length (trim_right a.value)) (length a.value + 1) 0 false (omega arith) (omega arith))
