-- ===== src/Types/SpaceNode/Subset.antt =====
-- A walk that finds one trie to be a subset of another is right.
use rpsl.Base.{
  ℕ, zero, suc, ◌+◌, ◌≤◌, ◌<◌, ◌≡◌, refl, sym, ap, ◌∙◌, inl, inr, ◌⊎◌, Bool, true, false, not, ◌&&◌,
  ◌||◌, Option, none, some, ◌==◌, if◌then◌else◌, Bool-cases, arith,
}
use rpsl.Types.LenMask
use rpsl.Types.LenMask.{LenMask, has, is_zero, ge_mask, one}
use rpsl.Types.LenMask.Laws.{has-and, has-and_not, has-one, has-window, is_zero-has}
use rpsl.Types.SpaceNode.{
  SpaceNode, nil, node, is_nil, leaf, kid, held, in_node, IsIdentity, has_all, covered, at_once,
  subset_here, subset_node,
}
use rpsl.Types.SpaceNode.Member.{top, has-held, in_node-leaf, in_node_here}
use rpsl.Types.SpaceNode.Merge.{within, within_below}

in_node-top :
    (n : SpaceNode) (l : ℕ) (b : ℕ → Bool) (d : ℕ) → top n l ≡ true → in_node n l b d ≡ true
unfolding in_node
in_node-top nil l b d h = absurd (cc h)
in_node-top (node k c0 c1) l b d h = ground (arith, h)

at_once_cases :
    (z n s x : Bool)
    → (if z then if n || s then some true else if x then some false else none else none) ≡ some true
    → (z ≡ true) × ((n ≡ true) ⊎ (s ≡ true))
at_once_cases true true s x h = (refl, inl refl)
at_once_cases true false true x h = (refl, inr refl)
at_once_cases true false false true h = absurd (cc h)
at_once_cases true false false false h = absurd (cc h)
at_once_cases false n s x h = absurd (cc h)

nothing_in :
    (n : SpaceNode) (l : ℕ) (b : ℕ → Bool) (d : ℕ) → is_nil n ≡ true → in_node n l b d ≡ false
unfolding is_nil in_node
nothing_in nil l b d h = refl
nothing_in (node k c0 c1) l b d h = absurd (cc h)

module _ (same : SpaceNode → SpaceNode → Bool) (identity : IsIdentity same) (a c : SpaceNode)
    (d : ℕ) (inA inC : LenMask) (l : ℕ) (b : ℕ → Bool) (from : d ≤ l) (to : l ≤ 128) where
  -- The prefix, if it is in the first operand, is in the second one.
  abbrev Sub : Type 0
  Sub = within inA a l b d ≡ true → within inC c l b d ≡ true

  has_all-has : (m o : LenMask) → has_all m o ≡ true → has m l ≡ true → has o l ≡ true
  unfolding has_all
  has_all-has m o h k = ground (arith, is_zero-has (LenMask.and_not m o) l h, has-and_not m o l)

  in_held : has (held inC c d) l ≡ true → within inC c l b d ≡ true
  in_held h = elim (Bool-cases (top c l)) [
    | inl e ↦ ground (arith, in_node-top c l b d e)
    | inr e ↦ ground (arith, h, e, has-held inC c d l from to)
  ]

  at_once-Sub : at_once same a c inA inC ≡ some true → Sub
  unfolding at_once
  at_once-Sub h w =
      let (z, found) =
        at_once_cases (is_zero inA) (is_nil a) (same a c) (is_nil c && is_zero inC) h in
      elim found [
        | inl e ↦ absurd (ground (arith, w, is_zero-has inA l z, nothing_in a l b d e))
        | inr e ↦
            let eq : in_node a l b d ≡ in_node c l b d =
              ap (λ n. in_node n l b d) (identity.same_eq a c e) in
            ground (arith, w, is_zero-has inA l z, eq)
      ]

  leaf-Sub : leaf a ≡ true → has_all (held inA a d) (held inC c d) ≡ true → Sub
  leaf-Sub p h w = in_held (
      has_all-has (held inA a d) (held inC c d) h
        (has-held inA a d l from to ∙ ground (arith, w, in_node-leaf a l b d p)))

  covered-Sub :
      (width : ℕ)
      → l ≤ width
      → width ≤ 128
      → covered a (held inA a d) (held inC c d) d width ≡ true
      → Sub
  unfolding covered
  covered-Sub width p q h w = elim (Bool-cases (has_all (LenMask.window d width) (held inC c d))) [
    | inl e ↦ in_held (
        has_all-has (LenMask.window d width) (held inC c d) e
          (ground (arith, has-window d width l)))
    | inr e ↦ leaf-Sub (ground arith) (ground arith) w
  ]

  -- The prefix of the node itself.
  own-Sub :
      is_zero (LenMask.and (LenMask.and_not (held inA a d) (held inC c d)) (one d)) ≡ true
      → d ≡ l
      → Sub
  own-Sub h e w = in_held (
      ground (
        arith,
        is_zero-has (LenMask.and (LenMask.and_not (held inA a d) (held inC c d)) (one d)) l h,
        has-and (LenMask.and_not (held inA a d) (held inC c d)) (one d) l,
        has-and_not (held inA a d) (held inC c d) l,
        has-one d l,
        has-held inA a d l from to,
        here,
        w,
      ))
    where
      here : in_node a l b d ≡ top a l
      here = rw (← e) (in_node_here a b d)

  subset_here-Sub :
      (width : ℕ) (below : Bool)
      → l ≤ width
      → width ≤ 128
      → (below ≡ true → d < l → Sub)
      → subset_here same a c d width inA inC below ≡ true
      → Sub
  unfolding subset_here
  subset_here-Sub width below p q deep h =
      of (at_once same a c inA inC) (covered a fa fc d width) (leaf a && leaf c)
        (is_zero (LenMask.and (LenMask.and_not fa fc) (one d))) refl refl refl refl h
    where
      fa : LenMask
      fa = held inA a d

      fc : LenMask
      fc = held inC c d

      of :
          (x : Option Bool) (v f z : Bool)
          → at_once same a c inA inC ≡ x
          → covered a fa fc d width ≡ v
          → (leaf a && leaf c) ≡ f
          → is_zero (LenMask.and (LenMask.and_not fa fc) (one d)) ≡ z
          → elim x [
            | some x ↦ x
            | none ↦ if v then true else if f then has_all fa fc else if not z then false else below
          ]
            ≡ true
          → Sub
      of (some true) v f z e1 e2 e3 e4 k = at_once-Sub e1
      of (some false) v f z e1 e2 e3 e4 k = absurd (cc k)
      of none true f z e1 e2 e3 e4 k = covered-Sub width p q e2
      of none false true z e1 e2 e3 e4 k = leaf-Sub (ground (arith, e3)) k
      of none false false false e1 e2 e3 e4 k = absurd (cc k)
      of none false false true e1 e2 e3 e4 k = elim (Bool-cases (d == l)) [
        | inl e ↦ own-Sub e4 (ground (arith, e))
        | inr e ↦ deep k (ground (arith, e, from))
      ]

module _ (same : SpaceNode → SpaceNode → Bool) (identity : IsIdentity same) where
  pub subset_node-within :
      (h : ℕ) (a c : SpaceNode) (d : ℕ) (inA inC : LenMask) (l : ℕ) (b : ℕ → Bool)
      → d ≤ l
      → l ≤ d + h
      → d + h ≤ 128
      → subset_node same h a c d inA inC ≡ true
      → within inA a l b d ≡ true
      → within inC c l b d ≡ true
  unfolding subset_node
  subset_node-within zero a c d inA inC l b p q r s =
      subset_here-Sub same identity a c d inA inC l b p (omega (arith, q, r)) d true
        (omega (arith, q)) (omega (arith, r)) (λ t lt. absurd (omega (arith, lt, q))) s
  subset_node-within (suc h) a c d inA inC l b p q r s =
      subset_here-Sub same identity a c d inA inC l b p (omega (arith, q, r)) (d + suc h) (s0 && s1)
        q r
        (λ t lt.
          child
            (λ i.
              subset_node-within h (kid a i) (kid c i) (d + 1) ia ic l b (omega (arith, lt))
                (omega (arith, q)) (omega (arith, r)))
            (b d) refl lt (left s0 s1 t) (right s0 s1 t))
        s
    where
      ia : LenMask
      ia = LenMask.and (held inA a d) (ge_mask (d + 1))

      ic : LenMask
      ic = LenMask.and (held inC c d) (ge_mask (d + 1))

      s0 : Bool
      s0 = subset_node same h (kid a false) (kid c false) (d + 1) ia ic

      s1 : Bool
      s1 = subset_node same h (kid a true) (kid c true) (d + 1) ia ic

      left : (x y : Bool) → (x && y) ≡ true → x ≡ true
      left true y t = refl
      left false y t = t

      right : (x y : Bool) → (x && y) ≡ true → y ≡ true
      right true y t = t
      right false y t = absurd (cc t)

      Below : Bool → Type 0
      Below i =
          subset_node same h (kid a i) (kid c i) (d + 1) ia ic ≡ true
          → within ia (kid a i) l b (d + 1) ≡ true
          → within ic (kid c i) l b (d + 1) ≡ true

      picked :
          (i : Bool)
          → s0 ≡ true
          → s1 ≡ true
          → subset_node same h (kid a i) (kid c i) (d + 1) ia ic ≡ true
      picked false t0 t1 = t0
      picked true t0 t1 = t1

      child :
          ((i : Bool) → Below i)
          → (i : Bool) → b d ≡ i
          → d < l
          → s0 ≡ true
          → s1 ≡ true
          → within inA a l b d ≡ true
          → within inC c l b d ≡ true
      child below i e lt t0 t1 w =
          sym (within_below inC c d l b i lt (omega (arith, q, r)) e)
          ∙ below i (picked i t0 t1) (within_below inA a d l b i lt (omega (arith, q, r)) e ∙ w)
