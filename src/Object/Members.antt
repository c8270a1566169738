-- ===== src/Object/Members.antt =====
-- object/members.go and object/srcmembers.go: the members of an as-set or a route-set, and which of
-- them a resolver follows. The parsers of members are not modelled.
use rpsl.Base.{
  ℕ, Bool, true, false, not, ◌&&◌, List, [], ◌∷◌, ◌++◌, Option, none, some, any, length, ◌==◌, ltb,
  if◌then◌else◌,
}
use rpsl.Lexer.Text.{Bytes}
use rpsl.Types.Netip.Equality.{prefix_eq}
use rpsl.Types.PrefixRange.{PrefixRange, RangeOperator}
use rpsl.Types.SetName.{SetName, text_eq, name_eq}
use rpsl.Types.SetRef.{SetRef, new_set_ref}

pub data MemberKind : Type 0 where
  member_invalid member_as member_set member_prefix_range : MemberKind

pub record SetMember : Type 0 where
  pub kind : MemberKind
  pub as_num : ℕ
  pub set_name : SetName
  pub source : Bytes
  pub range : PrefixRange
  pub op : RangeOperator
  pub raw : Bytes

abbrev pub is_member_set : MemberKind → Bool
is_member_set member_set = true
is_member_set _ = false

-- `Ref`; `none` stands for the zero SetRef, which has no name.
unfoldable pub ref_of : SetMember → Option SetRef
unfolding new_set_ref
ref_of m = if not (is_member_set m.kind) then none else new_set_ref m.source m.set_name

-- `memberKey`, a constructor for each kind that has a key.
pub data MemberKey : Type 0 where
  as_key : ℕ → MemberKey
  set_key : SetName → MemberKey
  range_key : PrefixRange → MemberKey

unfoldable pub key_of : SetMember → Option MemberKey
key_of m = elim m.kind [
  | member_as ↦ some (as_key m.as_num)
  | member_set ↦ some (set_key m.set_name)
  | member_prefix_range ↦ some (range_key m.range)
  | member_invalid ↦ none
]

-- Go's `==` on ranges and on keys.
unfoldable pub range_eq : PrefixRange → PrefixRange → Bool
unfolding prefix_eq
range_eq r q = prefix_eq r.prefix q.prefix && r.lo == q.lo && r.hi == q.hi

unfoldable pub key_eq : MemberKey → MemberKey → Bool
unfolding name_eq range_eq
key_eq (as_key a) (as_key b) = a == b
key_eq (set_key n) (set_key m) = name_eq n m
key_eq (range_key r) (range_key q) = range_eq r q
key_eq _ _ = false

-- `registries[n]` after the first loop: the sources under which the members name the set.
unfoldable pub registries : SetName → List Bytes → List SetMember → List Bytes
unfolding name_eq text_eq
registries n found [] = found
registries n found (m ∷ ms) =
    registries n
      (if is_member_set m.kind && name_eq m.set_name n && not (any (text_eq m.source) found)
        then m.source ∷ found
        else found)
      ms

-- `have[k]`, for the key of a member that has one.
unfoldable pub has_key : List MemberKey → SetMember → Bool
unfolding key_of key_eq
has_key have m = elim (key_of m) [ none ↦ false | some k ↦ any (key_eq k) have ]

-- The key under which the loop over the src-members keeps a member.
unfoldable pub new_key : List SetMember → List MemberKey → SetMember → Option MemberKey
unfolding registries has_key key_of
new_key src have m =
    if is_member_set m.kind && ltb 1 (length (registries m.set_name [] src))
    then none
    else if has_key have m
    then none
    else key_of m

-- The loop over the src-members: what it keeps, and the keys of that.
unfoldable pub src_kept :
    List SetMember → List MemberKey → List SetMember → List SetMember × List MemberKey
unfolding new_key
src_kept src have [] = ([], have)
src_kept src have (m ∷ ms) = elim (new_key src have m) [
  | none ↦ src_kept src have ms
  | some k ↦ let (kept, last) = src_kept src (k ∷ have) ms in (m ∷ kept, last)
]

-- The loop over members: and mp-members:.
unfoldable pub unlisted : List MemberKey → List SetMember → List SetMember
unfolding has_key
unlisted have [] = []
unlisted have (m ∷ ms) = let rest = unlisted have ms in if has_key have m then rest else m ∷ rest

unfoldable pub direct_members : List SetMember → List SetMember → List SetMember
unfolding src_kept unlisted
direct_members src listed =
    if length src == 0
    then listed
    else let (kept, have) = src_kept src [] src in kept ++ unlisted have listed
