-- ===== src/Resolve/Claims.antt =====
-- resolve/claims.go: whose indirect membership a set honours, and of resolve/expander.go the class
-- that a claimant must have. `strings.TrimSpace`, which knows the spaces of Unicode, is a parameter.
pub mod Claimant
pub mod Honoured
use rpsl.Base.{
  ℕ, Bool, true, false, not, ◌&&◌, ◌||◌, List, [], ◌∷◌, map, Option, none, some, any, length, ◌==◌,
  if◌then◌else◌,
}
use rpsl.Ast.{Object, Attribute, get_first}
use rpsl.Lexer.Text.{Bytes, lower}
use rpsl.Types.Asn.{parse_asn}
use rpsl.Types.SetName.{
  SetName, SetClass, class_as_set, class_route_set, class_rtr_set, text_eq, name_eq,
}
use rpsl.Object.Sets.{
  NamedSet, Claimed, ClaimObject, nil_object, other_object, aut_num, route, route6, inet_rtr,
}

-- `claimClassOK`
unfoldable pub claim_class_ok : NamedSet → ClaimObject → Bool
claim_class_ok set o = elim set.name.set_class [
  | class_as_set ↦ elim o [ aut_num a c ↦ true | _ ↦ false ]
  | class_route_set ↦ elim o [ route p c ↦ true | route6 p c ↦ true | _ ↦ false ]
  | class_rtr_set ↦ elim o [ inet_rtr c ↦ true | _ ↦ false ]
  | _ ↦ false
]

abbrev pub lower_ascii : Bytes → Bytes
lower_ascii = map lower

abbrev pub equal_fold_ascii : Bytes → Bytes → Bool
equal_fold_ascii a b = length a == length b && text_eq (lower_ascii a) (lower_ascii b)

abbrev pub names : List SetName → SetName → Bool
names list set = any (λ n. name_eq n set) list

abbrev pub aut_num_attr : Bytes
aut_num_attr = b'a' ∷ b'u' ∷ b't' ∷ b'-' ∷ b'n' ∷ b'u' ∷ b'm' ∷ []

abbrev any_mntner : Bytes
any_mntner = b'a' ∷ b'n' ∷ b'y' ∷ []

module _ (trim_space : Bytes → Bytes) where
  -- `asnDecodes`
  unfoldable pub asn_decodes : Option Object → Bytes → Bool
  unfolding get_first parse_asn
  asn_decodes none attr = true
  asn_decodes (some raw) attr = elim (get_first raw attr) [
    | none ↦ false
    | some a ↦ elim (parse_asn (trim_space a.value)) [ none ↦ false | some v ↦ true ]
  ]

  unfoldable pub claimant : ClaimObject → Option Claimed
  unfolding asn_decodes
  claimant nil_object = none
  claimant other_object = none
  claimant (aut_num a c) = if asn_decodes c.text aut_num_attr then some c else none
  claimant (route p c) = some c
  claimant (route6 p c) = some c
  claimant (inet_rtr c) = some c

  -- A maintainer as it is compared.
  abbrev pub mntner_key : Bytes → Bytes
  mntner_key m = lower_ascii (trim_space m)

  -- The loop over mbrs-by-ref: `none` when one is ANY, and else the maintainers that are no blank.
  unfoldable pub with_key : Bytes → Option (List Bytes) → Option (List Bytes)
  unfolding text_eq
  with_key key rest = if text_eq key any_mntner then none else elim rest [
    | none ↦ none
    | some keys ↦ some (if length key == 0 then keys else key ∷ keys)
  ]

  unfoldable pub allow : List Bytes → Option (List Bytes)
  unfolding with_key
  allow [] = some []
  allow (m ∷ ms) = with_key (mntner_key m) (allow ms)

  unfoldable pub shares : Option (List Bytes) → List Bytes → Bool
  unfolding text_eq
  shares none mnt_by = true
  shares (some keys) mnt_by = any (λ m. any (text_eq (mntner_key m)) keys) mnt_by

  unfoldable pub allowed_by : NamedSet → Option Claimed → Bool
  unfolding allow shares name_eq text_eq
  allowed_by set none = false
  allowed_by set (some c) =
      if not (names c.member_of set.name)
        || not (equal_fold_ascii (trim_space c.source) (trim_space set.source))
      then false
      else shares (allow set.ref_mntners) c.mnt_by

  -- A nil set, which is the one without a name, is not modelled.
  unfoldable pub claim_allowed : ClaimObject → NamedSet → Bool
  unfolding claimant allowed_by
  claim_allowed o set = allowed_by set (claimant o)
