-- ===== src/Types/Netip.antt =====
-- What the code uses of Go's net/netip. An address is its family and its bits, the most significant
-- first; the bytes that As4, As16 and AsSlice return are eight bits each. A prefix has no zone.
pub mod Equality
use rpsl.Base.{
  ℕ, zero, suc, ◌+◌, ◌-◌, ◌*◌, ◌/◌, ◌%◌, ◌^◌, ◌≤◌, ◌<◌, ◌≡◌, refl, ap, ◌∙◌, Bool, true, false, not,
  ◌&&◌, List, [], ◌∷◌, ◌++◌, length, get_or, take, replicate, ◌==◌, if◌then◌else◌, Bool-cases, inl,
  inr, ==_iff, arith,
}

pub record Addr : Type 0 where
  pub is4 : Bool
  pub bits : List Bool

pub record Prefix : Type 0 where
  pub is_valid : Bool
  pub addr : Addr
  pub len : ℕ

-- `a.BitLen()` of a valid address
abbrev pub bit_len : Addr → ℕ
bit_len a = if a.is4 then 32 else 128

abbrev pub bool_eq : Bool → Bool → Bool
bool_eq true b = b
bool_eq false b = not b

-- Two addresses agree on `count` bits, from bit `d` on.
unfoldable pub agrees : ℕ → ℕ → (ℕ → Bool) → (ℕ → Bool) → Bool
agrees zero d b b' = true
agrees (suc count) d b b' = bool_eq (b d) (b' d) && agrees count (d + 1) b b'

abbrev pub bit_of : Addr → ℕ → Bool
bit_of a i = get_or a.bits i false

-- The host bits of `p` cleared.
unfoldable pub masked : Prefix → Prefix
masked p = record p {
  addr = record (p.addr) {
    bits = take p.len p.addr.bits ++ replicate (bit_len p.addr - p.len) false;
  };
}

-- `p.Contains(a)`, for an address with no zone.
unfoldable pub prefix_contains : Prefix → Addr → Bool
unfolding agrees
prefix_contains p a =
    p.is_valid && bool_eq p.addr.is4 a.is4 && agrees p.len 0 (bit_of p.addr) (bit_of a)

-- Byte `i` of the address, as As4 and As16 return it.
unfoldable pub bit_value : Addr → ℕ → ℕ
bit_value a i = if bit_of a i then 1 else 0

unfoldable pub byte_at : Addr → ℕ → ℕ
byte_at a i =
    bit_value a (i * 8) * 128
    + bit_value a (i * 8 + 1) * 64
    + bit_value a (i * 8 + 2) * 32
    + bit_value a (i * 8 + 3) * 16
    + bit_value a (i * 8 + 4) * 8
    + bit_value a (i * 8 + 5) * 4
    + bit_value a (i * 8 + 6) * 2
    + bit_value a (i * 8 + 7)

-- `int(b[d>>3]>>(7-d&7)) & 1`, for the bytes of the address
unfoldable pub bit_at : Addr → ℕ → ℕ
unfolding byte_at
bit_at a d = byte_at a (d / 8) / 2 ^ (7 - d % 8) % 2

bit_value_le : (a : Addr) (i : ℕ) → bit_value a i ≤ 1
unfolding bit_value
bit_value_le a i = ground arith

-- One binary digit of eight.
digit_of :
    (p0 p1 p2 p3 p4 p5 p6 p7 k : ℕ)
    → p0 ≤ 1
    → p1 ≤ 1
    → p2 ≤ 1
    → p3 ≤ 1
    → p4 ≤ 1
    → p5 ≤ 1
    → p6 ≤ 1
    → p7 ≤ 1
    → k < 8
    → (p0 * 128 + p1 * 64 + p2 * 32 + p3 * 16 + p4 * 8 + p5 * 4 + p6 * 2 + p7) / 2 ^ (7 - k) % 2
      ≡ get_or (p0 ∷ p1 ∷ p2 ∷ p3 ∷ p4 ∷ p5 ∷ p6 ∷ p7 ∷ []) k 0
digit_of a b c d e f g h zero q r s t u v w x l = omega arith
digit_of a b c d e f g h (suc zero) q r s t u v w x l = omega arith
digit_of a b c d e f g h (suc (suc zero)) q r s t u v w x l = omega arith
digit_of a b c d e f g h (suc (suc (suc zero))) q r s t u v w x l = omega arith
digit_of a b c d e f g h (suc (suc (suc (suc zero)))) q r s t u v w x l = omega arith
digit_of a b c d e f g h (suc (suc (suc (suc (suc zero))))) q r s t u v w x l = omega arith
digit_of a b c d e f g h (suc (suc (suc (suc (suc (suc zero)))))) q r s t u v w x l = omega arith
digit_of a b c d e f g h (suc (suc (suc (suc (suc (suc (suc zero))))))) q r s t u v w x l =
    omega arith
digit_of a b c d e f g h (suc (suc (suc (suc (suc (suc (suc (suc k)))))))) q r s t u v w x l =
    absurd (omega arith)

-- The bits of byte `i`, in order.
abbrev place_values : Addr → ℕ → List ℕ
place_values a i =
    bit_value a (i * 8)
    ∷ bit_value a (i * 8 + 1)
    ∷ bit_value a (i * 8 + 2)
    ∷ bit_value a (i * 8 + 3)
    ∷ bit_value a (i * 8 + 4)
    ∷ bit_value a (i * 8 + 5)
    ∷ bit_value a (i * 8 + 6)
    ∷ bit_value a (i * 8 + 7)
    ∷ []

get_or-place_values :
    (a : Addr) (i k : ℕ) → k < 8 → get_or (place_values a i) k 0 ≡ bit_value a (i * 8 + k)
get_or-place_values a i zero h = ap (bit_value a) (omega arith)
get_or-place_values a i (suc zero) h = refl
get_or-place_values a i (suc (suc zero)) h = refl
get_or-place_values a i (suc (suc (suc zero))) h = refl
get_or-place_values a i (suc (suc (suc (suc zero)))) h = refl
get_or-place_values a i (suc (suc (suc (suc (suc zero))))) h = refl
get_or-place_values a i (suc (suc (suc (suc (suc (suc zero)))))) h = refl
get_or-place_values a i (suc (suc (suc (suc (suc (suc (suc zero))))))) h = refl
get_or-place_values a i (suc (suc (suc (suc (suc (suc (suc (suc k)))))))) h = absurd (omega arith)

byte_at-place :
    (a : Addr) (i k : ℕ) → k < 8 → byte_at a i / 2 ^ (7 - k) % 2 ≡ bit_value a (i * 8 + k)
unfolding byte_at
byte_at-place a i k h =
    digit_of _ _ _ _ _ _ _ _ k (bit_value_le a (i * 8)) (bit_value_le a (i * 8 + 1))
      (bit_value_le a (i * 8 + 2)) (bit_value_le a (i * 8 + 3)) (bit_value_le a (i * 8 + 4))
      (bit_value_le a (i * 8 + 5)) (bit_value_le a (i * 8 + 6)) (bit_value_le a (i * 8 + 7)) h
    ∙ get_or-place_values a i k h

pub bit_at_lem : (a : Addr) (d : ℕ) → (bit_at a d == 1) ≡ bit_of a d
unfolding bit_at bit_value
bit_at_lem a d =
    let e : d / 8 * 8 + d % 8 ≡ d = omega arith in
    ground (arith, byte_at-place a (d / 8) (d % 8) (omega arith), ap (bit_value a) e)

-- A valid prefix has all the bits of its family, and no more of them than those in its network.
pub record IsPrefix (p : Prefix) : Type 0 where
  pub all_bits : length p.addr.bits ≡ bit_len p.addr
  pub len_le : p.len ≤ bit_len p.addr

get_or_padding : (m i : ℕ) → get_or (replicate m false) i false ≡ false
get_or_padding zero i = refl
get_or_padding (suc m) zero = refl
get_or_padding (suc m) (suc i) = get_or_padding m i

get_or_padded :
    (n : ℕ) (xs : List Bool) (i m : ℕ)
    → i < n
    → get_or (take n xs ++ replicate m false) i false ≡ get_or xs i false
get_or_padded zero xs i m h = absurd (omega arith)
get_or_padded (suc n) [] i m h = get_or_padding m i
get_or_padded (suc n) (x ∷ xs) zero m h = refl
get_or_padded (suc n) (x ∷ xs) (suc i) m h = get_or_padded n xs i m (omega arith)

-- Below its length a masked prefix has the bits of the prefix.
pub bit_of-masked : (p : Prefix) (i : ℕ) → i < p.len → bit_of (masked p).addr i ≡ bit_of p.addr i
unfolding masked
bit_of-masked p i h = get_or_padded p.len p.addr.bits i (bit_len p.addr - p.len) h

pub agrees_congr :
    (n d : ℕ) (b b' c : ℕ → Bool)
    → ((i : ℕ) → d ≤ i → i < d + n → b i ≡ b' i)
    → agrees n d c b ≡ agrees n d c b'
unfolding agrees
agrees_congr zero d b b' c h = refl
agrees_congr (suc n) d b b' c h =
    ground (arith, h d, agrees_congr n (d + 1) b b' c (λ i p q. h i (omega arith) (omega arith)))

pub agrees_refl : (n d : ℕ) (b : ℕ → Bool) → agrees n d b b ≡ true
unfolding agrees
agrees_refl zero d b = refl
agrees_refl (suc n) d b = ground (arith, agrees_refl n (d + 1) b)

pub agrees_at :
    (n d i : ℕ) (b b' : ℕ → Bool) → agrees n d b b' ≡ true → d ≤ i → i < d + n → b i ≡ b' i
unfolding agrees
agrees_at zero d i b b' h p q = absurd (omega arith)
agrees_at (suc n) d i b b' h p q = elim (Bool-cases (d == i)) [
  | inl e ↦ rw (← (==_iff d i).0 e) (ground arith)
  | inr e ↦ agrees_at n (d + 1) i b b' (ground arith) (ground arith) (omega arith)
]

pub agrees_comm : (n d : ℕ) (b b' : ℕ → Bool) → agrees n d b b' ≡ agrees n d b' b
unfolding agrees
agrees_comm zero d b b' = refl
agrees_comm (suc n) d b b' = ground (arith, agrees_comm n (d + 1) b b')

length_padded :
    (n m : ℕ) (xs : List Bool) → n ≤ length xs → length (take n xs ++ replicate m false) ≡ n + m
length_padded zero zero xs h = refl
length_padded zero (suc m) xs h = omega (arith, length_padded zero m xs h)
length_padded (suc n) m [] h = absurd (omega arith)
length_padded (suc n) m (x ∷ xs) h = omega (arith, length_padded n m xs (omega arith))

pub masked-IsPrefix : (p : Prefix) → IsPrefix p → IsPrefix (masked p)
unfolding masked
masked-IsPrefix p h = record {
  all_bits = omega (
    arith,
    h.all_bits,
    h.len_le,
    length_padded p.len (bit_len p.addr - p.len) p.addr.bits (omega (arith, h.all_bits, h.len_le)),
  );
  len_le = h.len_le;
}

pub masked_fields : (p : Prefix) → ((masked p).len ≡ p.len) × ((masked p).addr.is4 ≡ p.addr.is4)
unfolding masked
masked_fields p = (refl, refl)

-- The address of a family with the given bits.
abbrev pub first_bits : ℕ → ℕ → (ℕ → Bool) → List Bool
first_bits zero d b = []
first_bits (suc n) d b = b d ∷ first_bits n (d + 1) b

pub length-first_bits : (n d : ℕ) (b : ℕ → Bool) → length (first_bits n d b) ≡ n
length-first_bits zero d b = refl
length-first_bits (suc n) d b = omega (arith, length-first_bits n (d + 1) b)

pub get_or-first_bits :
    (n d i : ℕ) (b : ℕ → Bool) → i < n → get_or (first_bits n d b) i false ≡ b (d + i)
get_or-first_bits zero d i b h = absurd (omega arith)
get_or-first_bits (suc n) d zero b h = ap b (omega arith)
get_or-first_bits (suc n) d (suc i) b h =
    get_or-first_bits n (d + 1) i b (omega arith) ∙ ap b (omega arith)
