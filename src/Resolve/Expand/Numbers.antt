-- ===== src/Resolve/Expand/Numbers.antt =====
-- The AS numbers that an expansion of resolve/expander.go collects, and the routes that it fetches for
-- them.
use mathlib.Core.List.{Memᴰ}
use mathlib.Core.List.Memᴰ
use mathlib.Core.Path.{subst}
use rpsl.Base.{
  ℕ, ◌≡◌, ◌↔◌, refl, sym, ap, ◌∙◌, ◌⊎◌, inl, inr, Bool, true, false, not, ◌&&◌, List, [], ◌∷◌, ◌++◌,
  Option, none, some, any, ◌==◌, ==_iff, and_true, if◌then◌else◌, arith,
}
use rpsl.Base.Membership.{any-true, last_cases}
use rpsl.Object.Members.{
  SetMember, MemberKind, member_invalid, member_as, member_set, member_prefix_range,
}
use rpsl.Object.Sets.{ClaimObject}
use rpsl.Resolve.Expand.{
  Source, Expander, ExpandError, Fetched, fetched, fetch_failed, excludes_as, members,
}
use rpsl.Resolve.Expand.Discover.{SetNode}
use rpsl.Resolve.Expand.Outcome.{Outcome, Ends, Ends-and_then}
use rpsl.Resolve.Expand.Ranges.{
  is_member_as, aut_num_as, with_asn, member_asns, claim_asns, node_asns, add_asns, routes_at,
  add_routes_of, fetch_each,
}
use rpsl.Types.Netip.{Prefix}

-- A member that is the AS, or an aut-num of the AS among the indirect members.
pub data Numbers (nd : SetNode) (a : ℕ) : Type 0 where
  as_member :
      (m : SetMember) → Memᴰ m (members nd.set) → m.kind ≡ member_as → m.as_num ≡ a → Numbers nd a
  as_claim : (o : ClaimObject) → Memᴰ o nd.claims → aut_num_as o ≡ some a → Numbers nd a

-- The AS is a number in the node and is not left out.
abbrev pub Counts : Expander → SetNode → ℕ → Type 0
Counts e nd a = Numbers nd a × (excludes_as e a ≡ false)

module _ (e : Expander) where
  not-true : (b : Bool) → not b ≡ true → b ≡ false
  not-true true h = sym h
  not-true false h = refl

  is_member_as-true : (k : MemberKind) → is_member_as k ≡ true → k ≡ member_as
  is_member_as-true member_as h = refl
  is_member_as-true member_invalid h = absurd (cc h)
  is_member_as-true member_set h = absurd (cc h)
  is_member_as-true member_prefix_range h = absurd (cc h)

  if_cons :
      {A : Type 0} (b : Bool) (x y : A) (xs : List A)
      → Memᴰ x (if b then y ∷ xs else xs)
      → ((b ≡ true) × (x ≡ y)) ⊎ Memᴰ x xs
  if_cons true x y xs m = elim (Memᴰ.cases_cons m) [ inl h ↦ inl (refl, h) | inr n ↦ inr n ]
  if_cons false x y xs m = inr m

  if_cons_later :
      {A : Type 0} (b : Bool) (x y : A) (xs : List A)
      → Memᴰ x xs
      → Memᴰ x (if b then y ∷ xs else xs)
  if_cons_later true x y xs m = Memᴰ.tail m
  if_cons_later false x y xs m = m

  if_cons_now :
      {A : Type 0} (b : Bool) (x y : A) (xs : List A)
      → b ≡ true
      → x ≡ y
      → Memᴰ x (if b then y ∷ xs else xs)
  if_cons_now true x y xs h p = Memᴰ.head p
  if_cons_now false x y xs h p = absurd (cc h)

  member_asns_sound :
      (ms : List SetMember) (a : ℕ)
      → Memᴰ a (member_asns e ms)
      → (m : SetMember) × Memᴰ m ms
        × (m.kind ≡ member_as)
        × (m.as_num ≡ a)
        × (excludes_as e a ≡ false)
  unfolding member_asns
  member_asns_sound [] a n = absurd (Memᴰ.not-nil n)
  member_asns_sound (m ∷ ms) a n =
      elim (if_cons (is_member_as m.kind && not (excludes_as e m.as_num)) a m.as_num
        (member_asns e ms) n) [
          | inl (h, same) ↦
              let (k, x) = and_true (is_member_as m.kind) (not (excludes_as e m.as_num)) h in
              (
                m,
                Memᴰ.head refl,
                is_member_as-true m.kind k,
                sym same,
                ap (excludes_as e) same ∙ not-true (excludes_as e m.as_num) x,
              )
          | inr later ↦
              let (q, l, k, same, x) = member_asns_sound ms a later in (q, Memᴰ.tail l, k, same, x)
        ]

  member_asns_mem :
      (ms : List SetMember) (m : SetMember)
      → Memᴰ m ms
      → m.kind ≡ member_as
      → excludes_as e m.as_num ≡ false
      → Memᴰ m.as_num (member_asns e ms)
  unfolding member_asns
  member_asns_mem [] m n k x = absurd (Memᴰ.not-nil n)
  member_asns_mem (q ∷ ms) m n k x = elim (Memᴰ.cases_cons n) [
    | inl same ↦
        let kind : is_member_as q.kind ≡ true =
          ap is_member_as (ap (λ (y : SetMember). y.kind) (sym same) ∙ k) in
        let kept : excludes_as e q.as_num ≡ false =
          ap (λ (y : SetMember). excludes_as e y.as_num) (sym same) ∙ x in
        if_cons_now (is_member_as q.kind && not (excludes_as e q.as_num)) m.as_num q.as_num
          (member_asns e ms) (ground (arith, kind, kept)) (ap (λ (y : SetMember). y.as_num) same)
    | inr later ↦
        if_cons_later (is_member_as q.kind && not (excludes_as e q.as_num)) m.as_num q.as_num
          (member_asns e ms) (member_asns_mem ms m later k x)
  ]

  same_asn : (a b : ℕ) → some a ≡ some b → a ≡ b
  same_asn a b h = cc h

  with_asn_sound :
      (o : Option ℕ) (rest : List ℕ) (a : ℕ)
      → Memᴰ a (with_asn e o rest)
      → ((o ≡ some a) × (excludes_as e a ≡ false)) ⊎ Memᴰ a rest
  unfolding with_asn
  with_asn_sound none rest a n = inr n
  with_asn_sound (some b) rest a n = elim (if_cons (not (excludes_as e b)) a b rest n) [
    | inl (h, same) ↦
        inl (ap some (sym same), ap (excludes_as e) same ∙ not-true (excludes_as e b) h)
    | inr later ↦ inr later
  ]

  with_asn_mem :
      (o : Option ℕ) (rest : List ℕ) (a : ℕ)
      → ((o ≡ some a) × (excludes_as e a ≡ false)) ⊎ Memᴰ a rest
      → Memᴰ a (with_asn e o rest)
  unfolding with_asn
  with_asn_mem none rest a (inl (h, x)) = absurd (cc h)
  with_asn_mem none rest a (inr n) = n
  with_asn_mem (some b) rest a (inl (h, x)) =
      let same = same_asn b a h in
      if_cons_now (not (excludes_as e b)) a b rest (ap not (ap (excludes_as e) same ∙ x)) (sym same)
  with_asn_mem (some b) rest a (inr n) = if_cons_later (not (excludes_as e b)) a b rest n

  claim_asns_sound :
      (os : List ClaimObject) (a : ℕ)
      → Memᴰ a (claim_asns e os)
      → (o : ClaimObject) × Memᴰ o os × (aut_num_as o ≡ some a) × (excludes_as e a ≡ false)
  unfolding claim_asns
  claim_asns_sound [] a n = absurd (Memᴰ.not-nil n)
  claim_asns_sound (o ∷ os) a n = elim (with_asn_sound (aut_num_as o) (claim_asns e os) a n) [
    | inl (h, x) ↦ (o, Memᴰ.head refl, h, x)
    | inr later ↦ let (p, l, h, x) = claim_asns_sound os a later in (p, Memᴰ.tail l, h, x)
  ]

  claim_asns_mem :
      (os : List ClaimObject) (o : ClaimObject) (a : ℕ)
      → Memᴰ o os
      → aut_num_as o ≡ some a
      → excludes_as e a ≡ false
      → Memᴰ a (claim_asns e os)
  unfolding claim_asns
  claim_asns_mem [] o a n h x = absurd (Memᴰ.not-nil n)
  claim_asns_mem (p ∷ os) o a n h x =
      with_asn_mem (aut_num_as p) (claim_asns e os) a (elim (Memᴰ.cases_cons n) [
        | inl same ↦ inl (ap aut_num_as (sym same) ∙ h, x)
        | inr later ↦ inr (claim_asns_mem os o a later h x)
      ])

  pub node_asns_sound :
      (nds : List SetNode) (a : ℕ)
      → Memᴰ a (node_asns e nds)
      → (nd : SetNode) × Memᴰ nd nds × Counts e nd a
  unfolding node_asns
  node_asns_sound [] a n = absurd (Memᴰ.not-nil n)
  node_asns_sound (nd ∷ nds) a n =
      elim (Memᴰ.append_cases (member_asns e (members nd.set) ++ claim_asns e nd.claims) n) [
        | inr later ↦ let (q, l, c) = node_asns_sound nds a later in (q, Memᴰ.tail l, c)
        | inl now ↦ elim (Memᴰ.append_cases (member_asns e (members nd.set)) now) [
          | inl l ↦
              let (m, k, kind, same, x) = member_asns_sound (members nd.set) a l in
              (nd, Memᴰ.head refl, (as_member m k kind same, x))
          | inr l ↦
              let (o, k, h, x) = claim_asns_sound nd.claims a l in
              (nd, Memᴰ.head refl, (as_claim o k h, x))
        ]
      ]

  here_counts :
      (nd : SetNode) (a : ℕ)
      → Counts e nd a
      → Memᴰ a (member_asns e (members nd.set) ++ claim_asns e nd.claims)
  here_counts nd a (as_member m n k same, x) =
      Memᴰ.append_left (claim_asns e nd.claims) (
        Memᴰ.cast (sym same) (member_asns_mem (members nd.set) m n k (ap (excludes_as e) same ∙ x)))
  here_counts nd a (as_claim o n h, x) =
      Memᴰ.append_right (member_asns e (members nd.set)) (claim_asns_mem nd.claims o a n h x)

  pub node_asns_mem :
      (nds : List SetNode) (nd : SetNode) (a : ℕ)
      → Memᴰ nd nds
      → Counts e nd a
      → Memᴰ a (node_asns e nds)
  unfolding node_asns
  node_asns_mem [] nd a n c = absurd (Memᴰ.not-nil n)
  node_asns_mem (q ∷ nds) nd a n c = elim (Memᴰ.cases_cons n) [
    | inl same ↦
        Memᴰ.append_left (node_asns e nds)
          (here_counts q a (subst (λ (x : SetNode). Counts e x a) same c))
    | inr later ↦
        Memᴰ.append_right (member_asns e (members q.set) ++ claim_asns e q.claims)
          (node_asns_mem nds nd a later c)
  ]

-- Adding numbers that may be there already.
pub add_asns_mem :
    (need more : List ℕ) (a : ℕ) → (Memᴰ a (add_asns need more) ↔ (Memᴰ a need ⊎ Memᴰ a more))
unfolding add_asns
add_asns_mem need [] a = (λ n. inl n, λ h. elim h [ inl n ↦ n | inr n ↦ absurd (Memᴰ.not-nil n) ])
add_asns_mem need (b ∷ more) a = of (any (λ c. b == c) need) refl (λ xs. add_asns_mem xs more a)
  where
    of :
        (t : Bool)
        → any (λ c. b == c) need ≡ t
        → ((xs : List ℕ) → (Memᴰ a (add_asns xs more) ↔ (Memᴰ a xs ⊎ Memᴰ a more)))
        → (Memᴰ a (add_asns (if t then need else need ++ b ∷ []) more)
            ↔ (Memᴰ a need ⊎ Memᴰ a (b ∷ more)))
    of true h ih = (
      λ n. elim ((ih need).0 n) [ inl k ↦ inl k | inr k ↦ inr (Memᴰ.tail k) ],
      λ n. elim n [
        | inl k ↦ (ih need).1 (inl k)
        | inr k ↦ elim (Memᴰ.cases_cons k) [
          | inl same ↦
              let (c, l, t) = any-true (λ c. b == c) need h in
              (ih need).1 (inl (Memᴰ.cast (same ∙ (==_iff b c).0 t) l))
          | inr l ↦ (ih need).1 (inr l)
        ]
      ],
    )
    of false h ih = (
      λ n. elim ((ih (need ++ b ∷ [])).0 n) [
        | inr k ↦ inr (Memᴰ.tail k)
        | inl k ↦ elim (last_cases need k) [ inl l ↦ inl l | inr same ↦ inr (Memᴰ.head same) ]
      ],
      λ n. elim n [
        | inl k ↦ (ih (need ++ b ∷ [])).1 (inl (Memᴰ.append_left (b ∷ []) k))
        | inr k ↦ elim (Memᴰ.cases_cons k) [
          | inl same ↦ (ih (need ++ b ∷ [])).1 (inl (Memᴰ.append_right need (Memᴰ.head same)))
          | inr l ↦ (ih (need ++ b ∷ [])).1 (inr l)
        ]
      ],
    )

-- The routes that are fetched: those of the numbers that are needed, and none for any other.
module _ (src : Source) (e : Expander) where
  pub data Held (need : List ℕ) (table : List (ℕ × List Prefix)) (a : ℕ) : Type 0 where
    held :
        Memᴰ a need
        → src.originated_routes a e.afi ≡ fetched (routes_at table a)
        → Held need table a
    absent : (Memᴰ a need → ⊥) → routes_at table a ≡ [] → Held need table a

  abbrev pub Holds : List ℕ → List (ℕ × List Prefix) → Type 0
  Holds need table = (a : ℕ) → Held need table a

  Holds-cons :
      (b : ℕ) (ps : List Prefix) (need : List ℕ) (table : List (ℕ × List Prefix))
      → src.originated_routes b e.afi ≡ fetched ps
      → Holds need table
      → Holds (b ∷ need) ((b, ps) ∷ table)
  unfolding routes_at
  Holds-cons b ps need table f h a = of (a == b) refl (h a)
    where
      at_b :
          {t : Bool}
          → (a == b) ≡ t
          → routes_at ((b, ps) ∷ table) a ≡ (if t then ps else routes_at table a)
      at_b x = ap (λ t. if t then ps else routes_at table a) x

      of : (t : Bool) → (a == b) ≡ t → Held need table a → Held (b ∷ need) ((b, ps) ∷ table) a
      of true x k =
          let same = (==_iff a b).0 x in
          held (Memᴰ.head same)
            (ap (λ c. src.originated_routes c e.afi) same ∙ f ∙ sym (ap fetched (at_b x)))
      of false x (held n g) = held (Memᴰ.tail n) (g ∙ sym (ap fetched (at_b x)))
      of false x (absent n g) =
          absent
            (λ m. elim (Memᴰ.cases_cons m) [
              | inl same ↦ cc (sym x ∙ (==_iff a b).1 same)
              | inr k ↦ n k
            ])
            (at_b x ∙ g)

  Ends-add_routes_of :
      (a : ℕ) (need : List ℕ) (o : Fetched (List Prefix))
      (rest : Outcome ExpandError (List (ℕ × List Prefix)))
      → src.originated_routes a e.afi ≡ o
      → Ends (Holds need) rest
      → Ends (Holds (a ∷ need)) (add_routes_of src e a o rest)
  unfolding add_routes_of Ends
  Ends-add_routes_of a need (fetch_failed f) rest h k = tt
  Ends-add_routes_of a need (fetched ps) rest h k =
      Ends-and_then (Holds need) (Holds (a ∷ need)) rest _ k
        (λ table t. Holds-cons a ps need table h t)

  pub Ends-fetch_each : (need : List ℕ) → Ends (Holds need) (fetch_each src e need)
  unfolding fetch_each Ends routes_at
  Ends-fetch_each [] = λ a. absent (λ m. Memᴰ.not-nil m) refl
  Ends-fetch_each (a ∷ need) =
      Ends-add_routes_of a need (src.originated_routes a e.afi) (fetch_each src e need) refl
        (Ends-fetch_each need)
