-- ===== src/Base/Bits/Step.antt =====
-- What the word operations `&`, `|` and `&^` do to the lowest digit. A native operation is a
-- recursion on binary digits with a count of rounds; once it has as many as the first number, more
-- make no difference.
use Prim.Native.Nat.{
  ℕ, zero, suc, ◌+◌, ◌-◌, ◌*◌, ◌/◌, ◌%◌, ◌≤◌, min, max, digits, bit_and, bit_or, bit_and-bitwise,
  bit_or-bitwise,
}
use mathlib.Core.Path.{◌≡◌, refl, ap, ◌∙◌}
use native.Mathlib.Omega.{arith}

module _ (past : ℕ → ℕ) (on_digits : ℕ → ℕ → ℕ) where
  abbrev rounds : ℕ → ℕ → ℕ → ℕ
  rounds k x y = digits past on_digits k x y

  one_more : (k x y : ℕ) → x ≤ k → rounds (suc k) x y ≡ rounds k x y
  one_more zero zero y le = refl
  one_more zero (suc x) y le = absurd (omega arith)
  one_more (suc k) zero y le = refl
  one_more (suc k) (suc x) y le = rw (one_more k (suc x / 2) (y / 2) (omega arith)) refl

  some_more : (spare k x y : ℕ) → k ≡ spare + x → rounds k x y ≡ rounds x x y
  some_more zero k x y e = ap (λ k. rounds k x y) (omega arith)
  some_more (suc spare) zero x y e = absurd (omega arith)
  some_more (suc spare) (suc k) x y e =
      one_more k x y (omega arith) ∙ some_more spare k x y (omega arith)

  -- The law of a bitwise operation holds where `past` obeys it for a first number that is 0.
  halved :
      ((y : ℕ) → past y ≡ past (y / 2) * 2 + on_digits 0 (y % 2))
      → (x y : ℕ) → rounds x x y ≡ rounds (x / 2) (x / 2) (y / 2) * 2 + on_digits (x % 2) (y % 2)
  halved law zero y = law y
  halved law (suc x) y =
      ap (λ h. h * 2 + on_digits (suc x % 2) (y % 2))
        (some_more (x - suc x / 2) x (suc x / 2) (y / 2) (omega arith))

pub zero-bit_and : (y : ℕ) → bit_and 0 y ≡ 0
zero-bit_and y = bit_and-bitwise 0 y

pub zero-bit_or : (y : ℕ) → bit_or 0 y ≡ y
zero-bit_or y = bit_or-bitwise 0 y

pub bit_and_low : (x y : ℕ) → bit_and x y ≡ bit_and (x / 2) (y / 2) * 2 + min (x % 2) (y % 2)
bit_and_low x y =
    bit_and-bitwise x y
    ∙ halved (λ y. 0) min (λ y. omega arith) x y
    ∙ omega (arith, bit_and-bitwise (x / 2) (y / 2))

pub bit_or_low : (x y : ℕ) → bit_or x y ≡ bit_or (x / 2) (y / 2) * 2 + max (x % 2) (y % 2)
bit_or_low x y =
    bit_or-bitwise x y
    ∙ halved (λ y. y) max (λ y. omega arith) x y
    ∙ omega (arith, bit_or-bitwise (x / 2) (y / 2))

pub bit_and_le : (n x y : ℕ) → x ≤ n → bit_and x y ≤ x
bit_and_le n zero y le = omega (arith, zero-bit_and y)
bit_and_le zero (suc x) y le = absurd (omega arith)
bit_and_le (suc n) (suc x) y le =
    omega (arith, bit_and_low (suc x) y, bit_and_le n (suc x / 2) (y / 2) (omega arith))

-- Go's `x &^ y`: the bits of `x` less those that are in `y` as well; no digit borrows.
unfoldable pub and_not : ℕ → ℕ → ℕ
and_not x y = x - bit_and x y

pub and_not_low : (x y : ℕ) → and_not x y ≡ and_not (x / 2) (y / 2) * 2 + (x % 2 - y % 2)
unfolding and_not
and_not_low x y = omega (arith, bit_and_low x y, bit_and_le (x / 2) (x / 2) (y / 2) (omega arith))

pub zero-and_not : (y : ℕ) → and_not 0 y ≡ 0
unfolding and_not
zero-and_not y = omega arith

-- Where `x | y` has no bit, `x` has none.
pub none_in_left : (n x y : ℕ) → x ≤ n → bit_or x y ≡ 0 → x ≡ 0
none_in_left n zero y le h = refl
none_in_left zero (suc x) y le h = absurd (omega arith)
none_in_left (suc n) (suc x) y le h =
    let halves = bit_or_low (suc x) y in
    let none = none_in_left n (suc x / 2) (y / 2) (omega arith) (omega arith) in
    absurd (omega arith)
