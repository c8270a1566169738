-- ===== src/Resolve/Expand/States.antt =====
-- What sets denote, by the paths of references between them: the states of the evaluation of
-- resolve/expander.go that can be reached, and the ranges that each of them gives.
use mathlib.Core.List.{Memᴰ}
use mathlib.Core.List.Memᴰ
use rpsl.Base.{
  ℕ, ◌≡◌, refl, sym, ◌⊎◌, inr, Bool, true, false, ◌&&◌, List, ◌∷◌, Option, some, any, ◌==◌,
  and_true, ==_iff, if◌then◌else◌,
}
use rpsl.Base.Membership.{any-true}
use rpsl.Object.Members.{SetMember, member_as, member_set, member_prefix_range, ref_of, range_eq}
use rpsl.Object.Sets.{ClaimObject, Claimed, aut_num, route, route6}
use rpsl.Resolve.Expand.{Expander, excludes_set, afi_allows, members, nestable}
use rpsl.Resolve.Expand.Discover.{SetNode}
use rpsl.Resolve.Expand.Evaluate.{State, stack_eq, state_eq, exact_range, add_range}
use rpsl.Resolve.OpStack.{OpStack, push, apply, empty}
use rpsl.Types.Netip.{Prefix, masked, bool_eq}
use rpsl.Types.Netip.Equality.{prefix_eq, prefix_eq-true}
use rpsl.Types.PrefixRange.{PrefixRange}
use rpsl.Types.SetName.{text_eq, text_eq-eq}
use rpsl.Types.SetRef.{SetRef, ref_eq, ref_eq-true}

-- `find` has the sets with their members; a set that is not found is none.
module _ (e : Expander) (top : SetRef) (find : SetRef → Option SetNode)
    (routes : ℕ → List Prefix) where
  -- What the operators leave of a range, in a family that is asked for.
  pub record Kept (ops : OpStack) (x r : PrefixRange) : Type 0 where
    pub applied : apply ops x ≡ some r
    pub allowed : afi_allows e r.prefix ≡ true

  pub record Routed (ops : OpStack) (p : Prefix) (r : PrefixRange) : Type 0 where
    pub valid : p.is_valid ≡ true
    pub kept : Kept ops (exact_range (masked p)) r

  -- A range from a member, a range from an indirect member, and the state that a member leads to.
  pub data MemberGives (ops : OpStack) (m : SetMember) (r : PrefixRange) : Type 0 where
    by_range : m.kind ≡ member_prefix_range → Kept ops m.range r → MemberGives ops m r
    by_as :
        m.kind ≡ member_as
        → (p : Prefix) → Memᴰ p (routes m.as_num)
        → Routed (push ops m.op) p r
        → MemberGives ops m r

  pub data ClaimGives (ops : OpStack) : ClaimObject → PrefixRange → Type 0 where
    by_route :
        {p : Prefix} {c : Claimed} {r : PrefixRange} → Routed ops p r → ClaimGives ops (route p c) r
    by_route6 :
        {p : Prefix} {c : Claimed} {r : PrefixRange}
        → Routed ops p r
        → ClaimGives ops (route6 p c) r
    by_aut_num :
        {a : ℕ} {c : Claimed} {r : PrefixRange} {p : Prefix}
        → Memᴰ p (routes a)
        → Routed ops p r
        → ClaimGives ops (aut_num a c) r

  pub record Leads (s : State) (m : SetMember) (t : State) : Type 0 where
    pub is_set : m.kind ≡ member_set
    pub allowed : nestable s.0.name.set_class m.set_name.set_class ≡ true
    pub included : excludes_set e m.set_name ≡ false
    pub names : ref_of m ≡ some t.0
    pub node : (nd : SetNode) × (find t.0 ≡ some nd)
    pub below : t.1 ≡ push s.1 m.op

  -- The states that can be reached.
  pub data Visited : State → Type 0 where
    at_top : Visited (top, empty)
    deeper :
        {s t : State}
        → Visited s
        → (nd : SetNode) → find s.0 ≡ some nd
        → (m : SetMember) → Memᴰ m (members nd.set)
        → Leads s m t
        → Visited t

  -- A range that some state gives.
  pub record Denotes (r : PrefixRange) : Type 0 where
    pub state : State
    pub visited : Visited state
    pub node : SetNode
    pub looked : find state.0 ≡ some node
    pub given :
        ((m : SetMember) × Memᴰ m (members node.set) × MemberGives state.1 m r)
        ⊎ ((o : ClaimObject) × Memᴰ o node.claims × ClaimGives state.1 o r)

-- The tests `==` on states and on ranges.
bool_eq-eq : (a b : Bool) → bool_eq a b ≡ true → a ≡ b
bool_eq-eq true b h = sym h
bool_eq-eq false true h = h
bool_eq-eq false false h = refl

stack_eq-true : (s t : OpStack) → stack_eq s t ≡ true → s ≡ t
unfolding stack_eq
stack_eq-true s t h =
    let b = bool_eq s.set t.set in
    let x = s.hi4 == t.hi4 in
    let y = s.hi6 == t.hi6 in
    let z = text_eq s.lo4 t.lo4 in
    let (h4, l6) = and_true (b && x && y && z) (text_eq s.lo6 t.lo6) h in
    let (h3, l4) = and_true (b && x && y) z h4 in
    let (h2, u6) = and_true (b && x) y h3 in
    let (h1, u4) = and_true b x h2 in
    let flag = bool_eq-eq s.set t.set h1 in
    let upper4 = (==_iff s.hi4 t.hi4).0 u4 in
    let upper6 = (==_iff s.hi6 t.hi6).0 u6 in
    let lower4 = text_eq-eq s.lo4 t.lo4 l4 in
    let lower6 = text_eq-eq s.lo6 t.lo6 l6 in
    λ i. record { set = flag i; hi4 = upper4 i; hi6 = upper6 i; lo4 = lower4 i; lo6 = lower6 i }

pub state_eq-true : (s t : State) → state_eq s t ≡ true → s ≡ t
unfolding state_eq
state_eq-true (r, s) (q, t) h =
    let (refs, stacks) = and_true (ref_eq r q) (stack_eq s t) h in
    let same_ref = ref_eq-true r q refs in
    let same_stack = stack_eq-true s t stacks in λ i. (same_ref i, same_stack i)

range_eq-true : (r q : PrefixRange) → range_eq r q ≡ true → r ≡ q
unfolding range_eq
range_eq-true r q h =
    let p = prefix_eq r.prefix q.prefix in
    let (h2, u) = and_true (p && r.lo == q.lo) (r.hi == q.hi) h in
    let (h1, l) = and_true p (r.lo == q.lo) h2 in
    let prefix = prefix_eq-true r.prefix q.prefix h1 in
    let lo = (==_iff r.lo q.lo).0 l in
    let hi = (==_iff r.hi q.hi).0 u in λ i. record { prefix = prefix i; lo = lo i; hi = hi i }

-- Adding a range to a set of them.
pub add_range_mem : (r : PrefixRange) (out : List PrefixRange) → Memᴰ r (add_range r out)
unfolding add_range
add_range_mem r out = of (any (range_eq r) out) refl
  where
    of : (b : Bool) → any (range_eq r) out ≡ b → Memᴰ r (if b then out else r ∷ out)
    of true h = let (q, m, t) = any-true (range_eq r) out h in Memᴰ.cast (range_eq-true r q t) m
    of false h = Memᴰ.head refl

pub add_range_kept :
    (r x : PrefixRange) (out : List PrefixRange) → Memᴰ x out → Memᴰ x (add_range r out)
unfolding add_range
add_range_kept r x out m = of (any (range_eq r) out)
  where
    of : (b : Bool) → Memᴰ x (if b then out else r ∷ out)
    of true = m
    of false = Memᴰ.tail m

pub add_range_cases :
    (r x : PrefixRange) (out : List PrefixRange) → Memᴰ x (add_range r out) → (x ≡ r) ⊎ Memᴰ x out
unfolding add_range
add_range_cases r x out m = of (any (range_eq r) out) m
  where
    of : (b : Bool) → Memᴰ x (if b then out else r ∷ out) → (x ≡ r) ⊎ Memᴰ x out
    of true n = inr n
    of false n = Memᴰ.cases_cons n
