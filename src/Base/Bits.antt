-- ===== src/Base/Bits.antt =====
-- The bits of a machine word, a number below 2 ^ 64 in the model, and what Go's `&`, `|`, `&^`
-- and `1 << n` do to each of them.
mod Step
unfoldable pub use Step.{and_not}
use Step.{
  bit_or_low, bit_and_low, and_not_low, none_in_left, zero-bit_and, zero-and_not, zero-bit_or,
}
use Prim.Native.Nat.{ℕ, zero, suc, ◌+◌, ◌*◌, ◌/◌, ◌%◌, ◌^◌, ◌≤◌, ◌<◌, min, max, bit_and, bit_or}
use mathlib.Core.Path.{◌≡◌, refl, sym, ap, ◌∙◌}
use mathlib.Core.Logic.{◌↔◌, ◌⊎◌, inl, inr}
use mathlib.Core.Bool.{Bool, true, false, not, ◌&&◌, ◌||◌}
use native.Mathlib.Omega.{arith}
use native.Mathlib.Nat.{pow-suc, one-le-pow}
use rpsl.Base.Compare.{◌==◌, ==_iff}

-- Bit `i` of `x`, the least significant first.
abbrev pub bit : ℕ → ℕ → Bool
bit x zero = x % 2 == 1
bit x (suc i) = bit (x / 2) i

pub bit-bit_and : (a b i : ℕ) → bit (bit_and a b) i ≡ (bit a i && bit b i)
bit-bit_and a b zero = ground (arith, bit_and_low a b)
bit-bit_and a b (suc i) =
    ap (λ x. bit x i) (omega (arith, bit_and_low a b)) ∙ bit-bit_and (a / 2) (b / 2) i

pub bit-bit_or : (a b i : ℕ) → bit (bit_or a b) i ≡ (bit a i || bit b i)
bit-bit_or a b zero = ground (arith, bit_or_low a b)
bit-bit_or a b (suc i) =
    ap (λ x. bit x i) (omega (arith, bit_or_low a b)) ∙ bit-bit_or (a / 2) (b / 2) i

pub bit-and_not : (a b i : ℕ) → bit (and_not a b) i ≡ (bit a i && not (bit b i))
bit-and_not a b zero = ground (arith, and_not_low a b)
bit-and_not a b (suc i) =
    ap (λ x. bit x i) (omega (arith, and_not_low a b)) ∙ bit-and_not (a / 2) (b / 2) i

pub bit-zero : (i : ℕ) → bit 0 i ≡ false
bit-zero zero = refl
bit-zero (suc i) = bit-zero i

-- `x & (1 << i)` is zero exactly when bit `i` is clear.
nothing-right : (n a : ℕ) → a ≤ n → bit_and a 0 ≡ 0
nothing-right n zero le = refl
nothing-right zero (suc a) le = absurd (omega arith)
nothing-right (suc n) (suc a) le =
    let halves = nothing-right n (suc a / 2) (omega arith) in omega (arith, bit_and_low (suc a) 0)

half-pow : (i : ℕ) → 2 ^ suc i / 2 ≡ 2 ^ i
half-pow i = omega (arith, pow-suc 2 i)

pub bit_and-pow : (x i : ℕ) → (bit_and x (2 ^ i) == 0) ≡ not (bit x i)
bit_and-pow x zero = ground (arith, bit_and_low x 1, nothing-right (x / 2) (x / 2))
bit_and-pow x (suc i) = ground (
  arith,
  pow-suc 2 i,
  ap (bit_and (x / 2)) (half-pow i),
  bit_and_low x (2 ^ suc i),
  bit_and-pow (x / 2) i,
)

pub bit_pow : (i j : ℕ) → bit (2 ^ i) j ≡ (i == j)
bit_pow zero zero = refl
bit_pow zero (suc j) = bit-zero j ∙ ground arith
bit_pow (suc i) zero = ground (arith, pow-suc 2 i)
bit_pow (suc i) (suc j) =
    ap (λ x. bit x j) (omega (arith, pow-suc 2 i)) ∙ bit_pow i j ∙ ground arith

-- A word below 2 ^ n is known by its first n bits.
pub bit_ext : (n a b : ℕ) → a < 2 ^ n → b < 2 ^ n → ((i : ℕ) → i < n → bit a i ≡ bit b i) → a ≡ b
bit_ext zero a b p q h = omega arith
bit_ext (suc n) a b p q h =
    let halves =
      bit_ext n (a / 2) (b / 2) (omega (arith, pow-suc 2 n)) (omega (arith, pow-suc 2 n))
        (λ i l. h (suc i) (omega arith)) in
    let low = h 0 (omega arith) in ground arith

pub bit_and-lt : (n a b : ℕ) → a < 2 ^ n → bit_and a b < 2 ^ n
bit_and-lt zero zero b h = omega (arith, zero-bit_and b)
bit_and-lt zero (suc a) b h = absurd (omega arith)
bit_and-lt (suc n) a b h =
    omega (
      arith,
      pow-suc 2 n,
      bit_and_low a b,
      bit_and-lt n (a / 2) (b / 2) (omega (arith, pow-suc 2 n)),
    )

pub bit_or-lt : (n a b : ℕ) → a < 2 ^ n → b < 2 ^ n → bit_or a b < 2 ^ n
bit_or-lt zero zero zero h k = omega arith
bit_or-lt zero (suc a) b h k = absurd (omega arith)
bit_or-lt zero zero (suc b) h k = absurd (omega arith)
bit_or-lt (suc n) a b h k = omega (
  arith,
  pow-suc 2 n,
  bit_or_low a b,
  bit_or-lt n (a / 2) (b / 2) (omega (arith, pow-suc 2 n)) (omega (arith, pow-suc 2 n)),
)

pub and_not-lt : (n a b : ℕ) → a < 2 ^ n → and_not a b < 2 ^ n
and_not-lt zero zero b h = omega (arith, zero-and_not b)
and_not-lt zero (suc a) b h = absurd (omega arith)
and_not-lt (suc n) a b h =
    omega (
      arith,
      pow-suc 2 n,
      and_not_low a b,
      and_not-lt n (a / 2) (b / 2) (omega (arith, pow-suc 2 n)),
    )

pub bit_or-eq-zero_left : (a b : ℕ) → bit_or a b ≡ 0 → a ≡ 0
bit_or-eq-zero_left a b h = none_in_left a a b (omega arith) h

pub bit_or-eq-zero_right : (a b : ℕ) → bit_or a b ≡ 0 → b ≡ 0
bit_or-eq-zero_right a b h =
    sym (zero-bit_or b) ∙ ap (λ x. bit_or x b) (sym (bit_or-eq-zero_left a b h)) ∙ h

pub pow_lt : (i n : ℕ) → i < n → 2 ^ i < 2 ^ n
pow_lt i zero h = absurd (omega arith)
pow_lt zero (suc n) h = omega (arith, pow-suc 2 n, one-le-pow n 2 (omega arith))
pow_lt (suc i) (suc n) h = omega (arith, pow-suc 2 n, pow-suc 2 i, pow_lt i n (omega arith))
