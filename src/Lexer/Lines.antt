-- ===== src/Lexer/Lines.antt =====
-- lexer/lexer.go, scanLinesTo: the physical lines of a source, each with its terminator.
use mathlib.Core.List.{append-nil, append_assoc}
use mathlib.Core.Path.{subst}
use rpsl.Base.{
  ℕ, zero, suc, ◌+◌, ◌≤◌, ◌<◌, ◌≡◌, refl, sym, ap, ◌∙◌, inl, inr, Option, none, some, List, [], ◌∷◌,
  ◌++◌, length, length-append, ◌==◌, if◌then◌else◌, Bool-cases, ==_iff, arith,
}
use rpsl.Lexer.Text.{Bytes}

pub record PhysLine : Type 0 where
  pub text : Bytes
  pub term : Bytes
  pub start : ℕ
  pub line : ℕ

-- What stands before the first "\n", and what stands behind it.
unfoldable pub cut_newline : Bytes → Bytes × Option Bytes
cut_newline [] = ([], none)
cut_newline (c ∷ cs) =
    let rest = cut_newline cs in if c == b'\n' then ([], some cs) else (c ∷ rest.0, rest.1)

-- A "\r" at the end of `src[start:j]` is part of the terminator.
unfoldable pub split_cr : Bytes → Bytes × Bytes
split_cr [] = ([], [])
split_cr (c ∷ []) = if c == b'\r' then ([], b'\r' ∷ []) else (c ∷ [], [])
split_cr (c ∷ d ∷ cs) = let rest = split_cr (d ∷ cs) in (c ∷ rest.0, rest.1)

-- The loop from byte `start`, at line `line`; every round takes a byte, so fuel equal to the bytes
-- left is enough.
pub scan_from : ℕ → Bytes → ℕ → ℕ → List PhysLine
unfolding cut_newline split_cr
scan_from zero rest start line = []
scan_from (suc fuel) [] start line = []
scan_from (suc fuel) (c ∷ cs) start line =
    let (head, behind) = cut_newline (c ∷ cs) in
    let (text, cr) = split_cr head in
    elim behind [
      | none ↦ record { text = text; term = cr; start = start; line = line } ∷ []
      | some next ↦
          record { text = text; term = cr ++ b'\n' ∷ []; start = start; line = line }
          ∷ scan_from fuel next (start + length head + 1) (line + 1)
    ]

unfoldable pub scan_lines : Bytes → List PhysLine
unfolding scan_from
scan_lines src = scan_from (length src) src 0 1

-- The lines stand one behind the other from byte `start` on, and make up `rest` to its end.
abbrev pub Covers : ℕ → Bytes → List PhysLine → Type 0
Covers start rest [] = rest ≡ []
Covers start rest (pl ∷ pls) =
    (behind : Bytes) × (pl.start ≡ start)
    × (rest ≡ pl.text ++ (pl.term ++ behind))
    × Covers (start + (length pl.text + length pl.term)) behind pls

abbrev Cut : Bytes → Bytes → Option Bytes → Type 0
Cut rest head none = rest ≡ head
Cut rest head (some next) = rest ≡ head ++ (b'\n' ∷ next)

Cut-cons :
    (c : ℕ) (rest head : Bytes) (behind : Option Bytes)
    → Cut rest head behind
    → Cut (c ∷ rest) (c ∷ head) behind
Cut-cons c rest head none e = ap (◌∷◌ c) e
Cut-cons c rest head (some next) e = ap (◌∷◌ c) e

cut_newline-Cut : (rest : Bytes) → Cut rest (cut_newline rest).0 (cut_newline rest).1
unfolding cut_newline
cut_newline-Cut [] = refl
cut_newline-Cut (c ∷ cs) = elim (Bool-cases (c == b'\n')) [
  | inl e ↦ rw e (ap (λ x. x ∷ cs) ((==_iff c b'\n').0 e))
  | inr e ↦ rw e (Cut-cons c cs (cut_newline cs).0 (cut_newline cs).1 (cut_newline-Cut cs))
]

split_cr_lem : (head : Bytes) → (split_cr head).0 ++ (split_cr head).1 ≡ head
unfolding split_cr
split_cr_lem [] = refl
split_cr_lem (c ∷ []) = ground arith
split_cr_lem (c ∷ d ∷ cs) = ap (◌∷◌ c) (split_cr_lem (d ∷ cs))

-- One line, cut off `rest`, and the lines of what follows it.
Covers-line :
    (rest head : Bytes) (behind : Option Bytes) (start line : ℕ) (lines : Bytes → List PhysLine)
    → Cut rest head behind
    → ((next : Bytes)
        → length next < length rest
        → Covers (start + length head + 1) next (lines next))
    → Covers start rest (elim behind [
      | none ↦
          record { text = (split_cr head).0; term = (split_cr head).1; start = start; line = line }
          ∷ []
      | some next ↦
          record {
            text = (split_cr head).0;
            term = (split_cr head).1 ++ b'\n' ∷ [];
            start = start;
            line = line;
          }
          ∷ lines next
    ])
Covers-line rest head none start line lines e ih =
    ([], refl, e ∙ sym (split_cr_lem head) ∙ simp append-nil, refl)
Covers-line rest head (some next) start line lines e ih = (
  next,
  refl,
  e ∙ ap (λ x. x ++ (b'\n' ∷ next)) (sym (split_cr_lem head)) ∙ simp append_assoc,
  subst (λ n. Covers n next (lines next)) (ends (split_cr_lem head))
      (ih next (omega (arith, ap (length {0}) e, length-append head (b'\n' ∷ next)))),
)
  where
    ends :
        (split_cr head).0 ++ (split_cr head).1 ≡ head
        → start + length head + 1
          ≡ start + (length (split_cr head).0 + length ((split_cr head).1 ++ b'\n' ∷ []))
    ends f = omega (
      arith,
      ap (length {0}) f,
      length-append (split_cr head).0 (split_cr head).1,
      length-append (split_cr head).1 (b'\n' ∷ []),
    )

pub scan_from-Covers :
    (fuel : ℕ) (rest : Bytes) (start line : ℕ)
    → length rest ≤ fuel
    → Covers start rest (scan_from fuel rest start line)
unfolding scan_from
scan_from-Covers zero [] start line h = refl
scan_from-Covers zero (c ∷ cs) start line h = absurd (omega arith)
scan_from-Covers (suc fuel) [] start line h = refl
scan_from-Covers (suc fuel) (c ∷ cs) start line h =
    Covers-line (c ∷ cs) (cut_newline (c ∷ cs)).0 (cut_newline (c ∷ cs)).1 start line
      (λ next. scan_from fuel next (start + length (cut_newline (c ∷ cs)).0 + 1) (line + 1))
      (cut_newline-Cut (c ∷ cs))
      (λ next shorter. scan_from-Covers fuel next _ (line + 1) (omega arith))

-- The lines of a source, with their terminators, stand one behind the other from its first byte on
-- and make up all of it.
pub scan_lines-Covers : (src : Bytes) → Covers 0 src (scan_lines src)
unfolding scan_lines
scan_lines-Covers src = scan_from-Covers (length src) src 0 1 (omega arith)
