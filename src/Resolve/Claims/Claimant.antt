-- ===== src/Resolve/Claims/Claimant.antt =====
-- `claimant` of resolve/claims.go against the classes that claim membership.
use rpsl.Base.{
  ℕ, ◌≡◌, ◌↔◌, refl, sym, ap, ◌∙◌, Bool, true, false, Option, none, some, if◌then◌else◌,
}
use rpsl.Ast.{Object, Attribute, get_first}
use rpsl.Lexer.Text.{Bytes}
use rpsl.Object.Sets.{
  Claimed, ClaimObject, nil_object, other_object, aut_num, route, route6, inet_rtr,
}
use rpsl.Resolve.Claims.{aut_num_attr, asn_decodes, claimant}
use rpsl.Types.Asn.{parse_asn}

module _ (trim_space : Bytes → Bytes) where
  -- The key of an aut-num is an AS number as RPSL writes it; an object without text is taken at its word.
  pub data HasNumber (text : Option Object) : Type 0 where
    no_text : text ≡ none → HasNumber text
    numbered :
        (raw : Object) (a : Attribute) (asn : ℕ)
        → text ≡ some raw
        → get_first raw aut_num_attr ≡ some a
        → parse_asn (trim_space a.value) ≡ some asn
        → HasNumber text

  -- The object is of a class that claims membership, with these fields: an aut-num that has its number, a
  -- route, a route6, or an inet-rtr, which the comment on `ClaimAllowed` does not name.
  abbrev pub MayClaim : ClaimObject → Claimed → Type 0
  MayClaim nil_object claimed = ⊥
  MayClaim other_object claimed = ⊥
  MayClaim (aut_num asn c) claimed = HasNumber c.text × (c ≡ claimed)
  MayClaim (route p c) claimed = c ≡ claimed
  MayClaim (route6 p c) claimed = c ≡ claimed
  MayClaim (inet_rtr c) claimed = c ≡ claimed

  pub same_claimed : (c d : Claimed) → some c ≡ some d → c ≡ d
  same_claimed c d h = cc h

  asn_decodes_iff :
      (text : Option Object) → (asn_decodes trim_space text aut_num_attr ≡ true) ↔ HasNumber text
  unfolding asn_decodes
  asn_decodes_iff none = (λ e. no_text refl, λ h. refl)
  asn_decodes_iff (some raw) = of (get_first raw aut_num_attr) refl
    where
      with_value :
          (a : Attribute) (v : Option ℕ)
          → get_first raw aut_num_attr ≡ some a
          → parse_asn (trim_space a.value) ≡ v
          → (elim v as (λ _. Bool) [ none ↦ false | some asn ↦ true ] ≡ true) ↔ HasNumber (some raw)
      with_value a none x y = (
        λ e. absurd (cc e),
        λ h. elim h [ no_text e ↦ absurd (cc e) | numbered q b asn e l n ↦ cc (x, y, e, l, n) ],
      )
      with_value a (some asn) x y = (λ e. numbered raw a asn refl x y, λ h. refl)

      of :
          (a : Option Attribute)
          → get_first raw aut_num_attr ≡ a
          → (elim a as (λ _. Bool) [
            | none ↦ false
            | some a ↦ elim (parse_asn (trim_space a.value)) [ none ↦ false | some v ↦ true ]
          ]
              ≡ true)
            ↔ HasNumber (some raw)
      of none x = (
        λ e. absurd (cc e),
        λ h. elim h [ no_text e ↦ absurd (cc e) | numbered q b asn e l n ↦ cc (x, e, l) ],
      )
      of (some a) x = with_value a (parse_asn (trim_space a.value)) x refl

  pub claimant_iff :
      (o : ClaimObject) (c : Claimed) → (claimant trim_space o ≡ some c) ↔ MayClaim o c
  unfolding claimant
  claimant_iff nil_object c = (λ e. cc e, λ h. elim h [ ])
  claimant_iff other_object c = (λ e. cc e, λ h. elim h [ ])
  claimant_iff (aut_num asn d) c = of (asn_decodes trim_space d.text aut_num_attr) refl
    where
      of :
          (b : Bool)
          → asn_decodes trim_space d.text aut_num_attr ≡ b
          → ((if b then some d else none) ≡ some c) ↔ (HasNumber d.text × (d ≡ c))
      of true x = (λ e. ((asn_decodes_iff d.text).0 x, same_claimed d c e), λ (h, e). ap some e)
      of false x =
          (λ e. absurd (cc e), λ (h, e). absurd (cc (sym x ∙ (asn_decodes_iff d.text).1 h)))
  claimant_iff (route p d) c = (same_claimed d c, λ e. ap some e)
  claimant_iff (route6 p d) c = (same_claimed d c, λ e. ap some e)
  claimant_iff (inet_rtr d) c = (same_claimed d c, λ e. ap some e)
