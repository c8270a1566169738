-- ===== src/Resolve/Expand/Nested.antt =====
-- The sets that a set names, as `discover` and as `walk` of resolve/expander.go follow them.
use mathlib.Core.List.{Memᴰ}
use mathlib.Core.List.Memᴰ
use mathlib.Core.Path.{subst}
use rpsl.Base.{
  ◌≡◌, refl, sym, ap, ◌∙◌, inl, inr, Bool, true, false, not, ◌&&◌, List, [], ◌∷◌, Option, none,
  some, if◌then◌else◌, else_some,
}
use rpsl.Lexer.Text.{Bytes}
use rpsl.Object.Members.{SetMember, member_set, is_member_set, ref_of, direct_members}
use rpsl.Object.Sets.{NamedSet, Body, set_body, router_group, peering_group, other_body}
use rpsl.Resolve.Claims.{equal_fold_ascii}
use rpsl.Resolve.Expand.{
  Source, Fetched, fetched, fetch_failed, not_found, other_error, members, nestable, nest,
  nested_members, nested_refs, body_members, body_refs, check_set, check_fetched, fetch_one,
  FetchError,
}
use rpsl.Types.SetName
use rpsl.Types.SetName.{SetName, SetClass, name_eq, name_eq-true, class_text, text_eq}
use rpsl.Types.SetRef
use rpsl.Types.SetRef.{SetRef, new_set_ref, new_set_ref_name}

is_member_set-true : (m : SetMember) → m.kind ≡ member_set → is_member_set m.kind ≡ true
is_member_set-true m h = ap is_member_set h

-- The reference that a member makes is to the set that it names, which has a name.
pub ref_of_name :
    (m : SetMember) (r : SetRef)
    → ref_of m ≡ some r
    → (r.name ≡ m.set_name) × (SetRef.is_zero r ≡ false)
unfolding ref_of
ref_of_name m r h =
    let (k, made) = else_some (not (is_member_set m.kind)) (new_set_ref m.source m.set_name) r h in
    let (same, named) = new_set_ref_name m.source m.set_name r made in
    (same, ap SetName.is_unset same ∙ named)

nest_kept :
    (parent : SetClass) (m : SetMember) (o : Option SetRef) (rest : List SetRef) (r : SetRef)
    → Memᴰ r rest
    → Memᴰ r (nest parent m o rest)
unfolding nest
nest_kept parent m none rest r n = n
nest_kept parent m (some q) rest r n =
    of (is_member_set m.kind && nestable parent m.set_name.set_class && not (SetRef.is_zero q))
  where
    of : (b : Bool) → Memᴰ r (if b then q ∷ rest else rest)
    of true = Memᴰ.tail n
    of false = n

-- Each member that may be nested is among the references.
pub nested_members_mem :
    (parent : SetClass) (ms : List SetMember) (m : SetMember) (r : SetRef)
    → Memᴰ m ms
    → m.kind ≡ member_set
    → nestable parent m.set_name.set_class ≡ true
    → ref_of m ≡ some r
    → Memᴰ r (nested_members parent ms)
unfolding nested_members nest
nested_members_mem parent [] m r n k a h = absurd (Memᴰ.not-nil n)
nested_members_mem parent (q ∷ ms) m r n k a h = elim (Memᴰ.cases_cons n) [
  | inl same ↦
      let at_m : Memᴰ r (nest parent m (ref_of m) (nested_members parent ms)) =
        subst (λ o. Memᴰ r (nest parent m o (nested_members parent ms))) (sym h)
          (rw (is_member_set-true m k, a, (ref_of_name m r h).1) (Memᴰ.head refl)) in
      subst (λ (x : SetMember). Memᴰ r (nest parent x (ref_of x) (nested_members parent ms))) same
        at_m
  | inr later ↦
      nest_kept parent q (ref_of q) (nested_members parent ms) r
        (nested_members_mem parent ms m r later k a h)
]

body_refs_mem :
    (parent : SetClass) (b : Body) (m : SetMember) (r : SetRef)
    → Memᴰ m (body_members b)
    → m.kind ≡ member_set
    → nestable parent m.set_name.set_class ≡ true
    → ref_of m ≡ some r
    → Memᴰ r (body_refs parent b)
unfolding body_members body_refs
body_refs_mem parent (set_body listed src) m r n k a h =
    nested_members_mem parent (direct_members src listed) m r n k a h
body_refs_mem parent (router_group routers) m r n k a h = absurd (Memᴰ.not-nil n)
body_refs_mem parent (peering_group peerings) m r n k a h = absurd (Memᴰ.not-nil n)
body_refs_mem parent other_body m r n k a h = absurd (Memᴰ.not-nil n)

-- A set that `walk` follows is among those that `discover` follows.
pub nested_refs_mem :
    (set : NamedSet) (m : SetMember) (r : SetRef)
    → Memᴰ m (members set)
    → m.kind ≡ member_set
    → nestable set.name.set_class m.set_name.set_class ≡ true
    → ref_of m ≡ some r
    → Memᴰ r (nested_refs set)
unfolding members nested_refs
nested_refs_mem set m r n k a h = body_refs_mem set.name.set_class set.body m r n k a h

else_fetched :
    {A : Type 0} (b : Bool) (f : FetchError) (y : Fetched A) (a : A)
    → (if b then fetch_failed f else y) ≡ fetched a
    → (b ≡ false) × (y ≡ fetched a)
else_fetched true f y a h = absurd (cc h)
else_fetched false f y a h = (refl, h)

-- What is fetched is the set that was asked for.
module _ (trim_space : Bytes → Bytes) (src : Source) where
  same_set : (a b : NamedSet) → fetched a ≡ fetched b → a ≡ b
  same_set a b h = cc h

  check_set_name :
      (r : SetRef) (o : Option NamedSet) (set : NamedSet)
      → check_set trim_space src r o ≡ fetched set
      → set.name ≡ r.name
  unfolding check_set
  check_set_name r none set h = absurd (cc h)
  check_set_name r (some got) set h =
      let (named, h1) = else_fetched (not (name_eq got.name r.name)) other_error _ set h in
      let (scope, h2) =
        else_fetched (SetRef.is_scoped r && not (equal_fold_ascii (trim_space got.source) r.source))
          other_error _ set h1 in
      let (class, h3) =
        else_fetched (not (text_eq got.class (class_text r.name.set_class))) not_found _ set h2 in
      ap (λ (s : NamedSet). s.name) (sym (same_set got set h3))
      ∙ name_eq-true got.name r.name (not-false (name_eq got.name r.name) named)
    where
      not-false : (b : Bool) → not b ≡ false → b ≡ true
      not-false true x = refl
      not-false false x = sym x

  pub fetch_one_name :
      (r : SetRef) (set : NamedSet) → fetch_one trim_space src r ≡ fetched set → set.name ≡ r.name
  unfolding fetch_one check_fetched
  fetch_one_name r set h = of (src.get_set r) h
    where
      of :
          (o : Fetched (Option NamedSet))
          → check_fetched trim_space src r o ≡ fetched set
          → set.name ≡ r.name
      of (fetch_failed e) x = absurd (cc x)
      of (fetched got) x = check_set_name r got set x
