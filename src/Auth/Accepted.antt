-- ===== src/Auth/Accepted.antt =====
-- What the checks of maintainers answer.
use rpsl.Base.{
  ◌≡◌, refl, Bool, true, false, ◌||◌, any, List, [], ◌∷◌, ◌++◌, Option, none, some, ◌⊎◌, inl, inr,
}
use rpsl.Lexer.Text.{Bytes}
use rpsl.Auth.{
  AuthLine, Mntner, VerifyError, LookupError, Verifier, Registry, Reason, Decision, Checked,
  unsupported_method, verify_error, no_mntner, lookup_error, check_lines, check_auth, check_mntner,
  check_loop, check_mntners, refusal, no_such, accepted,
}

abbrev pub says_yes : {E : Type 0} → VerifyError E ⊎ Bool → Bool
says_yes (inl e) = false
says_yes (inr b) = b

module _ {E Credential : Type 0} (cred : Credential) where
  -- The verifier accepts the credential for an auth: line; none does where there is no verifier.
  abbrev pub line_accepts : Option (Verifier E Credential) → AuthLine → Bool
  line_accepts none a = false
  line_accepts (some v) a = says_yes (v a cred)

  module _ (v : Option (Verifier E Credential)) where
    abbrev mntner_accepts : LookupError E ⊎ Option Mntner → Bool
    mntner_accepts (inl e) = false
    mntner_accepts (inr none) = false
    mntner_accepts (inr (some m)) = any (line_accepts v) m.auth

    -- The registry has the maintainer, and one of its auth: lines accepts the credential.
    abbrev pub name_accepts : Registry E → Bytes → Bool
    name_accepts reg name = mntner_accepts (reg name)

  check_lines-any :
      (v : Option (Verifier E Credential)) (lines : List AuthLine) (u : Bool)
      → (check_lines lines cred v u).err ≡ none
      → (check_lines lines cred v u).ok ≡ any (line_accepts v) lines
  unfolding check_lines
  check_lines-any v [] u h = refl
  check_lines-any none (a ∷ more) u h = check_lines-any none more true h
  check_lines-any (some v) (a ∷ more) u h = of (v a cred) (check_lines-any (some v) more) h
    where
      after : VerifyError E ⊎ Bool → Checked E
      after x = elim x [
        | inl unsupported_method ↦ check_lines more cred (some v) true
        | inl (verify_error e) ↦ record { ok = false; unsupported = u; err = some e }
        | inr true ↦ record { ok = true; unsupported = u; err = none }
        | inr false ↦ check_lines more cred (some v) u
      ]

      of :
          (x : VerifyError E ⊎ Bool)
          → ((u : Bool)
              → (check_lines more cred (some v) u).err ≡ none
              → (check_lines more cred (some v) u).ok ≡ any (line_accepts (some v)) more)
          → (after x).err ≡ none
          → (after x).ok ≡ (says_yes x || any (line_accepts (some v)) more)
      of (inl unsupported_method) rest k = rest true k
      of (inl (verify_error e)) rest k = absurd (cc k)
      of (inr true) rest k = refl
      of (inr false) rest k = rest u k

  module _ (reg : Registry E) (v : Option (Verifier E Credential)) where
    pub check_loop-any :
        (names : List Bytes) (reasons : List Reason) (d : Decision)
        → check_loop reg names cred v reasons ≡ inr d
        → d.ok ≡ any (name_accepts v reg) names
    unfolding check_loop check_mntner check_auth
    check_loop-any [] reasons d h = cc h
    check_loop-any (name ∷ names) reasons d h =
        of (reg name) (λ reasons. check_loop-any names reasons d) h
      where
        on_mntner : Mntner → Checked E → E ⊎ Decision
        on_mntner m c = elim c.err [
          | some e ↦ inl e
          | none ↦ elim c.ok [
            | true ↦ inr (record { ok = true; reasons = reasons ++ accepted name ∷ [] })
            | false ↦ check_loop reg names cred v (reasons ++ refusal name m c.unsupported ∷ [])
          ]
        ]

        after : LookupError E ⊎ Option Mntner → E ⊎ Decision
        after x = elim x [
          | inl (lookup_error e) ↦ inl e
          | inl no_mntner ↦ check_loop reg names cred v (reasons ++ no_such name ∷ [])
          | inr none ↦ check_loop reg names cred v (reasons ++ no_such name ∷ [])
          | inr (some m) ↦ on_mntner m (check_lines m.auth cred v false)
        ]

        Rest : Type 0
        Rest =
            (reasons : List Reason)
            → check_loop reg names cred v reasons ≡ inr d
            → d.ok ≡ any (name_accepts v reg) names

        on_ok :
            (m : Mntner) (ok u : Bool) (x : Bool)
            → Rest
            → ok ≡ x
            → on_mntner m (record { ok = ok; unsupported = u; err = none }) ≡ inr d
            → d.ok ≡ (x || any (name_accepts v reg) names)
        on_ok m true u true rest e k = cc k
        on_ok m true u false rest e k = absurd (cc e)
        on_ok m false u true rest e k = absurd (cc e)
        on_ok m false u false rest e k = rest (reasons ++ refusal name m u ∷ []) k

        on_err :
            (m : Mntner) (ok u : Bool) (err : Option E)
            → Rest
            → (err ≡ none → ok ≡ any (line_accepts v) m.auth)
            → on_mntner m (record { ok = ok; unsupported = u; err = err }) ≡ inr d
            → d.ok ≡ (any (line_accepts v) m.auth || any (name_accepts v reg) names)
        on_err m ok u (some e) rest h k = absurd (cc k)
        on_err m ok u none rest h k = on_ok m ok u (any (line_accepts v) m.auth) rest (h refl) k

        of :
            (x : LookupError E ⊎ Option Mntner)
            → Rest
            → after x ≡ inr d
            → d.ok ≡ (mntner_accepts v x || any (name_accepts v reg) names)
        of (inl (lookup_error e)) rest k = absurd (cc k)
        of (inl no_mntner) rest k = rest (reasons ++ no_such name ∷ []) k
        of (inr none) rest k = rest (reasons ++ no_such name ∷ []) k
        of (inr (some m)) rest k =
            let c = check_lines m.auth cred v false in
            on_err m c.ok c.unsupported c.err rest (check_lines-any v m.auth false) k

    -- Where the checks return a decision and no error, the decision is positive exactly when the
    -- registry has one of the named maintainers with an auth: line that accepts the credential.
    pub check_mntners-any :
        (names : List Bytes) (d : Decision)
        → check_mntners reg names cred v ≡ inr d
        → d.ok ≡ any (name_accepts v reg) names
    unfolding check_mntners
    check_mntners-any [] d h = cc h
    check_mntners-any (name ∷ names) d h = check_loop-any (name ∷ names) [] d h
