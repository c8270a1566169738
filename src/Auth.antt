-- ===== src/Auth.antt =====
-- auth/auth.go: whether a credential satisfies maintainers. The Verifier and the Registry, which the
-- caller supplies, are parameters, as are their errors and the credential. A reason is kept without its
-- wording.
pub mod Accepted
pub mod Referral
pub mod ReferralDepth
pub mod Route
pub mod RouteSafety
pub mod Scope
pub mod Irt
pub mod IrtChange
use rpsl.Base.{
  ℕ, Bool, true, false, List, [], ◌∷◌, ◌++◌, Option, none, some, ◌⊎◌, inl, inr, if◌then◌else◌,
}
use rpsl.Lexer.Text.{Bytes}

-- object/auth.go: an auth: line.
pub data AuthMethod : Type 0 where
  auth_unknown auth_none auth_md5 auth_crypt auth_pgp_key auth_x509 : AuthMethod
  auth_sso auth_bcrypt auth_mail_from auth_irrd_internal : AuthMethod

pub record AuthLine : Type 0 where
  pub method : AuthMethod
  pub value : Bytes
  pub raw : Bytes

-- What the package reads of a maintainer.
pub record Mntner : Type 0 where
  pub handle : Bytes
  pub auth : List AuthLine
  pub referral_by : List Bytes

-- The errors of a Verifier and of a Registry: ErrUnsupportedMethod and ErrNoMntner, or another.
pub data VerifyError (E : Type 0) : Type 0 where
  unsupported_method : VerifyError E
  verify_error : E → VerifyError E

pub data LookupError (E : Type 0) : Type 0 where
  no_mntner : LookupError E
  lookup_error : E → LookupError E

abbrev pub Verifier : Type 0 → Type 0 → Type 0
Verifier E Credential = AuthLine → Credential → VerifyError E ⊎ Bool

-- A nil maintainer without an error is `inr none`.
abbrev pub Registry : Type 0 → Type 0
Registry E = Bytes → LookupError E ⊎ Option Mntner

pub data Reason : Type 0 where
  no_guard no_reference : Reason
  no_such accepted no_auth_lines no_verifier rejected : Bytes → Reason

pub record Decision : Type 0 where
  pub ok : Bool
  pub reasons : List Reason

-- The results `ok`, `unsupported` and `err`.
pub record Checked (E : Type 0) : Type 0 where
  pub ok : Bool
  pub unsupported : Bool
  pub err : Option E

-- The reason of a maintainer that did not accept the credential.
abbrev pub refusal : Bytes → Mntner → Bool → Reason
refusal name m unsupported = elim m.auth [
  | [] ↦ no_auth_lines name
  | a ∷ more ↦ if unsupported then no_verifier name else rejected name
]

module _ {E Credential : Type 0} where
  -- The loop of `checkAuth`, with the value of `unsupported` so far.
  unfoldable pub check_lines :
      List AuthLine → Credential → Option (Verifier E Credential) → Bool → Checked E
  check_lines [] cred v unsupported = record { ok = false; unsupported = unsupported; err = none }
  check_lines (a ∷ more) cred none unsupported = check_lines more cred none true
  check_lines (a ∷ more) cred (some v) unsupported = elim (v a cred) [
    | inl unsupported_method ↦ check_lines more cred (some v) true
    | inl (verify_error e) ↦ record { ok = false; unsupported = unsupported; err = some e }
    | inr true ↦ record { ok = true; unsupported = unsupported; err = none }
    | inr false ↦ check_lines more cred (some v) unsupported
  ]

  unfoldable pub check_auth :
      List AuthLine → Credential → Option (Verifier E Credential) → Checked E
  unfolding check_lines
  check_auth lines cred v = check_lines lines cred v false

  unfoldable pub check_mntner :
      Option Mntner → Credential → Option (Verifier E Credential) → Checked E
  unfolding check_auth
  check_mntner none cred v = record { ok = false; unsupported = false; err = none }
  check_mntner (some m) cred v = check_auth m.auth cred v

  -- The loop of `CheckMntners`, with the reasons so far.
  unfoldable pub check_loop :
      Registry E
      → List Bytes
      → Credential
      → Option (Verifier E Credential)
      → List Reason
      → E ⊎ Decision
  unfolding check_mntner
  check_loop reg [] cred v reasons = inr (record { ok = false; reasons = reasons })
  check_loop reg (name ∷ names) cred v reasons = elim (reg name) [
    | inl (lookup_error e) ↦ inl e
    | inl no_mntner ↦ check_loop reg names cred v (reasons ++ no_such name ∷ [])
    | inr none ↦ check_loop reg names cred v (reasons ++ no_such name ∷ [])
    | inr (some m) ↦
        let c = check_mntner (some m) cred v in
        elim c.err [
          | some e ↦ inl e
          | none ↦ elim c.ok [
            | true ↦ inr (record { ok = true; reasons = reasons ++ accepted name ∷ [] })
            | false ↦ check_loop reg names cred v (reasons ++ refusal name m c.unsupported ∷ [])
          ]
        ]
  ]

  unfoldable pub check_mntners :
      Registry E → List Bytes → Credential → Option (Verifier E Credential) → E ⊎ Decision
  unfolding check_loop
  check_mntners reg [] cred v = inr (record { ok = false; reasons = no_guard ∷ [] })
  check_mntners reg (name ∷ names) cred v = check_loop reg (name ∷ names) cred v []
