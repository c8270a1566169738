-- ===== src/Types/Netip/Equality.antt =====
-- The test `p == q` of two prefixes of net/netip.
use rpsl.Base.{
  ℕ, zero, suc, ◌+◌, ◌-◌, ◌≤◌, ◌≡◌, refl, sym, ap, ◌∙◌, Bool, true, false, ◌&&◌, List, [], ◌∷◌,
  ◌++◌, length, get_or, take, replicate, ◌==◌, arith, if◌then◌else◌, ◌⊎◌, ==_iff, inl, inr,
}
use rpsl.Types.Netip.{Prefix, IsPrefix, bit_len, bool_eq, agrees, bit_of, masked}

unfoldable pub bits_eq : List Bool → List Bool → Bool
bits_eq [] [] = true
bits_eq [] (y ∷ ys) = false
bits_eq (x ∷ xs) [] = false
bits_eq (x ∷ xs) (y ∷ ys) = bool_eq x y && bits_eq xs ys

unfoldable pub prefix_eq : Prefix → Prefix → Bool
unfolding bits_eq
prefix_eq p q =
    bool_eq p.is_valid q.is_valid
    && bool_eq p.addr.is4 q.addr.is4
    && bits_eq p.addr.bits q.addr.bits
    && p.len == q.len

bits_eq_refl : (xs : List Bool) → bits_eq xs xs ≡ true
unfolding bits_eq
bits_eq_refl [] = refl
bits_eq_refl (x ∷ xs) = ground (arith, bits_eq_refl xs)

bits_eq-true : (xs ys : List Bool) → bits_eq xs ys ≡ true → xs ≡ ys
unfolding bits_eq
bits_eq-true [] [] h = refl
bits_eq-true [] (y ∷ ys) h = absurd (cc h)
bits_eq-true (x ∷ xs) [] h = absurd (cc h)
bits_eq-true (true ∷ xs) (true ∷ ys) h = ap (◌∷◌ true) (bits_eq-true xs ys h)
bits_eq-true (true ∷ xs) (false ∷ ys) h = absurd (cc h)
bits_eq-true (false ∷ xs) (true ∷ ys) h = absurd (cc h)
bits_eq-true (false ∷ xs) (false ∷ ys) h = ap (◌∷◌ false) (bits_eq-true xs ys h)

agrees-suc :
    (n d : ℕ) (b c : ℕ → Bool) → agrees n (d + 1) b c ≡ agrees n d (λ i. b (suc i)) (λ i. c (suc i))
unfolding agrees
agrees-suc zero d b c = refl
agrees-suc (suc n) d b c =
    let e : d + 1 ≡ suc d = omega arith in
    rw (ap b e, ap c e) (ap (◌&&◌ (bool_eq (b (suc d)) (c (suc d)))) (agrees-suc n (d + 1) b c))

bits_eq-padded :
    (n m : ℕ) (xs ys : List Bool)
    → n ≤ length xs
    → n ≤ length ys
    → bits_eq (take n xs ++ replicate m false) (take n ys ++ replicate m false)
      ≡ agrees n 0 (λ i. get_or xs i false) (λ i. get_or ys i false)
unfolding bits_eq agrees
bits_eq-padded zero m xs ys h k = bits_eq_refl (replicate m false)
bits_eq-padded (suc n) m [] ys h k = absurd (omega arith)
bits_eq-padded (suc n) m (x ∷ xs) [] h k = absurd (omega arith)
bits_eq-padded (suc n) m (x ∷ xs) (y ∷ ys) h k = ap (◌&&◌ (bool_eq x y)) (
    bits_eq-padded n m xs ys (omega arith) (omega arith)
    ∙ sym (agrees-suc n 0 (λ i. get_or (x ∷ xs) i false) (λ i. get_or (y ∷ ys) i false)))

pub prefix_eq_refl : (p : Prefix) → prefix_eq p p ≡ true
unfolding prefix_eq
prefix_eq_refl p = ground (arith, bits_eq_refl p.addr.bits)

same_prefix :
    (p q : Prefix)
    → p.is_valid ≡ q.is_valid
    → p.addr.is4 ≡ q.addr.is4
    → p.addr.bits ≡ q.addr.bits
    → p.len ≡ q.len
    → p ≡ q
same_prefix p q v f b n =
    λ i. record { is_valid = v i; addr = record { is4 = f i; bits = b i }; len = n i }

bool_eq-true : (a b : Bool) → bool_eq a b ≡ true → a ≡ b
bool_eq-true true true h = refl
bool_eq-true true false h = sym h
bool_eq-true false true h = h
bool_eq-true false false h = refl

both_true : (a b : Bool) → (a && b) ≡ true → (a ≡ true) × (b ≡ true)
both_true true b h = (refl, h)
both_true false b h = absurd (cc h)

pub prefix_eq-true : (p q : Prefix) → prefix_eq p q ≡ true → p ≡ q
unfolding prefix_eq
prefix_eq-true p q h =
    let valid = bool_eq p.is_valid q.is_valid in
    let family = bool_eq p.addr.is4 q.addr.is4 in
    let bits = bits_eq p.addr.bits q.addr.bits in
    let (hb, n) = both_true (valid && family && bits) (p.len == q.len) h in
    let (hf, b) = both_true (valid && family) bits hb in
    let (v, f) = both_true valid family hf in
    same_prefix p q (bool_eq-true p.is_valid q.is_valid v) (bool_eq-true p.addr.is4 q.addr.is4 f)
      (bits_eq-true p.addr.bits q.addr.bits b) ((==_iff p.len q.len).0 n)

width_of : Bool → ℕ
width_of b = if b then 32 else 128

bits_eq-masked :
    (v p : Prefix)
    → IsPrefix v
    → IsPrefix p
    → v.addr.is4 ≡ p.addr.is4
    → bits_eq (masked v).addr.bits (masked (record p { len = v.len })).addr.bits
      ≡ agrees v.len 0 (bit_of v.addr) (bit_of p.addr)
unfolding masked width_of
bits_eq-masked v p hv hp f =
    let width : bit_len v.addr ≡ bit_len p.addr = ap width_of f in
    ap
      (λ b.
        bits_eq (take v.len v.addr.bits ++ replicate (bit_len v.addr - v.len) false)
          (take v.len p.addr.bits ++ replicate (width_of b - v.len) false))
      (sym f)
    ∙ bits_eq-padded v.len (bit_len v.addr - v.len) v.addr.bits p.addr.bits
        (omega (arith, hv.all_bits, hv.len_le)) (omega (arith, hv.len_le, hp.all_bits, width))

bool_eq_cases : (a b : Bool) → (a ≡ b) ⊎ (bool_eq a b ≡ false)
bool_eq_cases true true = inl refl
bool_eq_cases true false = inr refl
bool_eq_cases false true = inr refl
bool_eq_cases false false = inl refl

-- A prefix without host bits is the network of another prefix's address where both agree on its bits.
pub prefix_eq-masked :
    (v p : Prefix)
    → IsPrefix v
    → IsPrefix p
    → v.is_valid ≡ true
    → p.is_valid ≡ true
    → masked v ≡ v
    → prefix_eq v (masked (record p { len = v.len }))
      ≡ (bool_eq v.addr.is4 p.addr.is4 && agrees v.len 0 (bit_of v.addr) (bit_of p.addr))
unfolding prefix_eq masked
prefix_eq-masked v p hv hp wv wp m =
    ap (λ t. prefix_eq t (masked (record p { len = v.len }))) (sym m)
    ∙ elim (bool_eq_cases v.addr.is4 p.addr.is4) [
      | inl f ↦ ground (arith, wv, wp, bits_eq-masked v p hv hp f)
      | inr f ↦ ground (arith, wv, wp, f)
    ]
