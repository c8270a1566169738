-- ===== src/Types/LenMask/Laws.antt =====
-- What each mask operation does to the lengths in a mask.
use rpsl.Base.{
  ℕ, zero, suc, ◌+◌, ◌-◌, ◌*◌, ◌/◌, ◌%◌, ◌^◌, ◌<◌, ◌≤◌, ◌≡◌, refl, sym, ◌∙◌, ◌↔◌, true, false, not,
  ◌&&◌, ◌||◌, bit_and, bit_or, ltb, leb, ◌==◌, ==_iff, if◌then◌else◌, arith,
}
use rpsl.Base.Bits.{
  and_not as word_and_not, bit, bit-bit_and, bit-bit_or, bit-and_not, bit-zero, bit_and-pow,
  bit_pow, bit_ext, bit_and-lt, bit_or-lt, and_not-lt, pow_lt, bit_or-eq-zero_left,
  bit_or-eq-zero_right,
}
use rpsl.Types.LenMask.{
  LenMask, word, set_word, has, set, is_zero, and, or, and_not, equal, empty, set_from, ge_mask,
  window, one,
}

-- Every word is a 64-bit word.
pub record IsMask (m : LenMask) : Type 0 where
  pub lt0 : m.w0 < 2 ^ 64
  pub lt1 : m.w1 < 2 ^ 64
  pub lt2 : m.w2 < 2 ^ 64

pub has-bit : (m : LenMask) (l : ℕ) → has m l ≡ bit (word m (l / 64)) (l % 64)
unfolding has
has-bit m l = ground (arith, bit_and-pow (word m (l / 64)) (l % 64))

word-and : (m o : LenMask) (i : ℕ) → word (and m o) i ≡ bit_and (word m i) (word o i)
unfolding word and
word-and m o zero = refl
word-and m o (suc zero) = refl
word-and m o (suc (suc i)) = refl

pub has-and : (m o : LenMask) (l : ℕ) → has (and m o) l ≡ (has m l && has o l)
has-and m o l = ground (
  arith,
  has-bit (and m o) l,
  has-bit m l,
  has-bit o l,
  word-and m o (l / 64),
  bit-bit_and (word m (l / 64)) (word o (l / 64)) (l % 64),
)

word-set_word :
    (m : LenMask) (i j x : ℕ)
    → i < 3
    → j < 3
    → word (set_word m i x) j ≡ (if i == j then x else word m j)
unfolding word set_word
word-set_word m zero zero x p q = refl
word-set_word m zero (suc zero) x p q = refl
word-set_word m zero (suc (suc j)) x p q = ground arith
word-set_word m (suc zero) zero x p q = refl
word-set_word m (suc zero) (suc zero) x p q = refl
word-set_word m (suc zero) (suc (suc j)) x p q = ground arith
word-set_word m (suc (suc i)) zero x p q = ground arith
word-set_word m (suc (suc i)) (suc zero) x p q = ground arith
word-set_word m (suc (suc i)) (suc (suc j)) x p q = ground arith

pub has-set : (m : LenMask) (l j : ℕ) → l < 192 → j < 192 → has (set m l) j ≡ (l == j || has m j)
unfolding set
has-set m l j p q =
    let x = bit_or (word m (l / 64)) (2 ^ (l % 64)) in
    ground (
      arith,
      has-bit (set m l) j,
      has-bit m j,
      word-set_word m (l / 64) (j / 64) x,
      bit-bit_or (word m (l / 64)) (2 ^ (l % 64)) (j % 64),
      bit_pow (l % 64) (j % 64),
    )

word-or : (m o : LenMask) (i : ℕ) → word (or m o) i ≡ bit_or (word m i) (word o i)
unfolding word or
word-or m o zero = refl
word-or m o (suc zero) = refl
word-or m o (suc (suc i)) = refl

pub has-or : (m o : LenMask) (l : ℕ) → has (or m o) l ≡ (has m l || has o l)
has-or m o l = ground (
  arith,
  has-bit (or m o) l,
  has-bit m l,
  has-bit o l,
  word-or m o (l / 64),
  bit-bit_or (word m (l / 64)) (word o (l / 64)) (l % 64),
)

word-and_not : (m o : LenMask) (i : ℕ) → word (and_not m o) i ≡ word_and_not (word m i) (word o i)
unfolding word and_not
word-and_not m o zero = refl
word-and_not m o (suc zero) = refl
word-and_not m o (suc (suc i)) = refl

pub has-and_not : (m o : LenMask) (l : ℕ) → has (and_not m o) l ≡ (has m l && not (has o l))
has-and_not m o l = ground (
  arith,
  has-bit (and_not m o) l,
  has-bit m l,
  has-bit o l,
  word-and_not m o (l / 64),
  bit-and_not (word m (l / 64)) (word o (l / 64)) (l % 64),
)

pub has-empty : (l : ℕ) → has empty l ≡ false
unfolding word
has-empty l = has-bit empty l ∙ zero_words (l / 64)
  where
    zero_words : (i : ℕ) → bit (word empty i) (l % 64) ≡ false
    zero_words zero = bit-zero (l % 64)
    zero_words (suc zero) = bit-zero (l % 64)
    zero_words (suc (suc i)) = bit-zero (l % 64)

has-set_from :
    (rounds l : ℕ) (m : LenMask) (j : ℕ)
    → rounds + l ≤ 192
    → j < 192
    → has (set_from rounds l m) j ≡ (leb l j && ltb j (l + rounds) || has m j)
unfolding set_from
has-set_from zero l m j p q = ground arith
has-set_from (suc rounds) l m j p q =
    ground (arith, has-set_from rounds (l + 1) (set m l) j, has-set m l j)

pub has-ge_mask : (d l : ℕ) → d ≤ 129 → l < 192 → has (ge_mask d) l ≡ (leb d l && leb l 128)
unfolding ge_mask
has-ge_mask d l p q = ground (arith, has-set_from (129 - d) d empty l, has-empty l)

pub has-window :
    (lo hi l : ℕ) → lo ≤ 129 → hi ≤ 128 → l < 192 → has (window lo hi) l ≡ (leb lo l && leb l hi)
unfolding window
has-window lo hi l p q r =
    ground (
      arith,
      has-and_not (ge_mask lo) (ge_mask (hi + 1)) l,
      has-ge_mask lo l,
      has-ge_mask (hi + 1) l,
    )

pub has-one : (d l : ℕ) → d ≤ 128 → l < 192 → has (one d) l ≡ (d == l)
unfolding one
has-one d l p q = ground (arith, has-window d d l)

pub and-IsMask : {m : LenMask} (o : LenMask) → IsMask m → IsMask (and m o)
unfolding and
and-IsMask {m} o h = record {
  lt0 = bit_and-lt 64 m.w0 o.w0 h.lt0;
  lt1 = bit_and-lt 64 m.w1 o.w1 h.lt1;
  lt2 = bit_and-lt 64 m.w2 o.w2 h.lt2;
}

pub or-IsMask : {m o : LenMask} → IsMask m → IsMask o → IsMask (or m o)
unfolding or
or-IsMask {m} {o} h k = record {
  lt0 = bit_or-lt 64 m.w0 o.w0 h.lt0 k.lt0;
  lt1 = bit_or-lt 64 m.w1 o.w1 h.lt1 k.lt1;
  lt2 = bit_or-lt 64 m.w2 o.w2 h.lt2 k.lt2;
}

pub and_not-IsMask : {m : LenMask} (o : LenMask) → IsMask m → IsMask (and_not m o)
unfolding and_not
and_not-IsMask {m} o h = record {
  lt0 = and_not-lt 64 m.w0 o.w0 h.lt0;
  lt1 = and_not-lt 64 m.w1 o.w1 h.lt1;
  lt2 = and_not-lt 64 m.w2 o.w2 h.lt2;
}

pub empty-IsMask : IsMask empty
empty-IsMask = omega arith

set_word-IsMask : {m : LenMask} (i x : ℕ) → IsMask m → x < 2 ^ 64 → IsMask (set_word m i x)
unfolding set_word
set_word-IsMask zero x h p = omega arith
set_word-IsMask (suc zero) x h p = omega arith
set_word-IsMask (suc (suc i)) x h p = omega arith

word-lt : {m : LenMask} (i : ℕ) → IsMask m → word m i < 2 ^ 64
unfolding word
word-lt zero h = h.lt0
word-lt (suc zero) h = h.lt1
word-lt (suc (suc i)) h = h.lt2

pub set-IsMask : {m : LenMask} (l : ℕ) → IsMask m → IsMask (set m l)
unfolding set
set-IsMask {m} l h = set_word-IsMask (l / 64) _ h (
    bit_or-lt 64 (word m (l / 64)) (2 ^ (l % 64)) (word-lt (l / 64) h)
      (pow_lt (l % 64) 64 (omega arith)))

set_from-IsMask : (m : LenMask) (rounds l : ℕ) → IsMask m → IsMask (set_from rounds l m)
unfolding set_from
set_from-IsMask m zero l h = h
set_from-IsMask m (suc rounds) l h = set_from-IsMask (set m l) rounds (l + 1) (set-IsMask l h)

pub ge_mask-IsMask : (d : ℕ) → IsMask (ge_mask d)
unfolding ge_mask
ge_mask-IsMask d = set_from-IsMask empty (129 - d) d empty-IsMask

pub window-IsMask : (lo hi : ℕ) → IsMask (window lo hi)
unfolding window
window-IsMask lo hi = and_not-IsMask (ge_mask (hi + 1)) (ge_mask-IsMask lo)

-- Masks are known by the lengths that they hold.
pub has_ext :
    {m o : LenMask} → IsMask m → IsMask o → ((l : ℕ) → l < 192 → has m l ≡ has o l) → m ≡ o
unfolding word
has_ext {m} {o} p q h = ground (
  arith,
  bit_ext 64 m.w0 o.w0 p.lt0 q.lt0 (λ i. at 0 i (omega arith)),
  bit_ext 64 m.w1 o.w1 p.lt1 q.lt1 (λ i. at 1 i (omega arith)),
  bit_ext 64 m.w2 o.w2 p.lt2 q.lt2 (λ i. at 2 i (omega arith)),
)
  where
    at : (w i : ℕ) → w < 3 → i < 64 → bit (word m w) i ≡ bit (word o w) i
    at w i v l =
        let e : (w * 64 + i) / 64 ≡ w = omega arith in
        let f : (w * 64 + i) % 64 ≡ i = omega arith in
        rw (has-bit m (w * 64 + i), has-bit o (w * 64 + i), e, f) at (h (w * 64 + i) (omega arith))

pub is_zero_iff : (m : LenMask) → (is_zero m ≡ true) ↔ (m ≡ empty)
unfolding is_zero
is_zero_iff m = (
  λ h.
      let all = (==_iff (bit_or (bit_or m.w0 m.w1) m.w2) 0).0 h in
      let two = bit_or-eq-zero_left (bit_or m.w0 m.w1) m.w2 all in
      ground (
        arith,
        bit_or-eq-zero_left m.w0 m.w1 two,
        bit_or-eq-zero_right m.w0 m.w1 two,
        bit_or-eq-zero_right (bit_or m.w0 m.w1) m.w2 all,
      ),
  λ e. rw e refl,
)

pub is_zero-has : (m : LenMask) (l : ℕ) → is_zero m ≡ true → has m l ≡ false
is_zero-has m l h = rw ((is_zero_iff m).0 h) (has-empty l)

pub is_zero_of : {m : LenMask} → IsMask m → ((l : ℕ) → l < 192 → has m l ≡ false) → is_zero m ≡ true
is_zero_of {m} p h = (is_zero_iff m).1 (has_ext p empty-IsMask (λ l q. h l q ∙ sym (has-empty l)))

pub equal_iff : (m o : LenMask) → (equal m o ≡ true) ↔ (m ≡ o)
unfolding equal
equal_iff m o = ground arith
