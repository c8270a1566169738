-- ===== src/Types/SetRef.antt =====
-- types/setref.go: a reference to a set, perhaps scoped to one registry.
use rpsl.Base.{
  ℕ, ◌-◌, Bool, true, false, not, ◌&&◌, ◌||◌, List, [], ◌∷◌, ◌++◌, map, Option, none, some, length,
  ◌==◌, ltb, leb, if◌then◌else◌, and_true, if_some, else_some, ◌≡◌, refl, sym, ap, inl, inr,
}
use rpsl.Types.SetName
use rpsl.Types.SetName.{
  SetName, text_eq, text_eq_refl, text_eq-eq, name_eq, name_eq_refl, name_eq-true,
}

pub record SetRef : Type 0 where
  pub source : List ℕ
  pub name : SetName

abbrev pub max_source_name_len : ℕ
max_source_name_len = 64

abbrev pub is_alnum : ℕ → Bool
is_alnum b = leb b'a' b && leb b b'z' || (leb b'A' b && leb b b'Z') || (leb b'0' b && leb b b'9')

abbrev is_source_byte : ℕ → Bool
is_source_byte c = is_alnum c || c == b'-' || c == b'_'

unfoldable pub all_source_bytes : List ℕ → Bool
all_source_bytes [] = true
all_source_bytes (c ∷ s) = is_source_byte c && all_source_bytes s

-- `strings.ToUpper` on ASCII.
abbrev pub upper_byte : ℕ → ℕ
upper_byte c = if leb b'a' c && leb c b'z' then c - 32 else c

unfoldable pub parse_source_name : List ℕ → Option (List ℕ)
unfolding all_source_bytes
parse_source_name s =
    if length s == 0
    then none
    else if ltb max_source_name_len (length s)
    then none
    else if all_source_bytes s
    then some (map upper_byte s)
    else none

abbrev pub ref : SetName → SetRef
ref n = record { source = []; name = n }

unfoldable pub scoped : SetName → Option (List ℕ) → Option SetRef
scoped n none = none
scoped n (some s) = some (record { source = s; name = n })

unfoldable pub new_set_ref : List ℕ → SetName → Option SetRef
unfolding SetName.is_unset parse_source_name scoped
new_set_ref source n =
    if SetName.is_unset n
    then none
    else if length source == 0
    then some (ref n)
    else scoped n (parse_source_name source)

abbrev pub is_scoped : SetRef → Bool
is_scoped r = not (length r.source == 0)

abbrev pub is_zero : SetRef → Bool
is_zero r = SetName.is_unset r.name

unfoldable pub string : SetRef → List ℕ
string r =
    if length r.source == 0 then r.name.canon else r.source ++ (b':' ∷ b':' ∷ []) ++ r.name.canon

-- Go's `==` on references.
unfoldable pub ref_eq : SetRef → SetRef → Bool
unfolding text_eq
ref_eq r q = text_eq r.source q.source && name_eq r.name q.name

pub ref_eq_refl : (r : SetRef) → ref_eq r r ≡ true
unfolding ref_eq
ref_eq_refl r = rw (text_eq_refl r.source, name_eq_refl r.name) refl

pub ref_eq-true : (r q : SetRef) → ref_eq r q ≡ true → r ≡ q
unfolding ref_eq
ref_eq-true r q h =
    let (sources, names) = and_true (text_eq r.source q.source) (name_eq r.name q.name) h in
    let source = text_eq-eq r.source q.source sources in
    let name = name_eq-true r.name q.name names in λ i. record { source = source i; name = name i }

same_ref : (r q : SetRef) → some r ≡ some q → r ≡ q
same_ref r q h = cc h

scoped_name : (n : SetName) (o : Option (List ℕ)) (r : SetRef) → scoped n o ≡ some r → r.name ≡ n
unfolding scoped
scoped_name n none r h = absurd (cc h)
scoped_name n (some s) r h =
    ap (λ (q : SetRef). q.name) (sym (same_ref (record { source = s; name = n }) r h))

-- A reference that is made is to the set that was given, which has a name.
pub new_set_ref_name :
    (source : List ℕ) (n : SetName) (r : SetRef)
    → new_set_ref source n ≡ some r
    → (r.name ≡ n) × (SetName.is_unset n ≡ false)
unfolding new_set_ref
new_set_ref_name source n r h =
    let (x, rest) = else_some (SetName.is_unset n) _ r h in
    (
      elim (if_some (length source == 0) _ _ r rest) [
        | inl (b, y) ↦ ap (λ (q : SetRef). q.name) (sym (same_ref (ref n) r y))
        | inr (b, y) ↦ scoped_name n (parse_source_name source) r y
      ],
      x,
    )
