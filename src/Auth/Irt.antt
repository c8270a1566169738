-- ===== src/Auth/Irt.antt =====
-- auth/irt.go: whether a credential satisfies incident response teams. The registry of irt objects is a
-- parameter; its error for one that it does not have is `no_mntner`.
use rpsl.Base.{
  ◌≡◌, refl, sym, ◌∙◌, Bool, true, false, any, List, [], ◌∷◌, ◌++◌, Option, none, some, ◌⊎◌, inl,
  inr,
}
use rpsl.Lexer.Text.{Bytes}
use rpsl.Auth.{
  AuthLine, Mntner, LookupError, Verifier, Registry, Reason, Decision, Checked, no_mntner,
  lookup_error, check_auth, check_mntner, check_loop, refusal, no_such, accepted,
}
use rpsl.Auth.Accepted.{name_accepts, check_loop-any}

-- What the package reads of an irt object.
pub record Irt : Type 0 where
  pub auth : List AuthLine

-- An irt object as a maintainer with its auth: lines.
abbrev pub as_mntner : Irt → Mntner
as_mntner irt = record { handle = []; auth = irt.auth; referral_by = [] }

abbrev pub IrtRegistry : Type 0 → Type 0
IrtRegistry E = Bytes → LookupError E ⊎ Option Irt

abbrev found_as : {E : Type 0} → LookupError E ⊎ Option Irt → LookupError E ⊎ Option Mntner
found_as (inl e) = inl e
found_as (inr none) = inr none
found_as (inr (some irt)) = inr (some (as_mntner irt))

abbrev pub as_registry : {E : Type 0} → IrtRegistry E → Registry E
as_registry reg name = found_as (reg name)

module _ {E Credential : Type 0} where
  unfoldable pub check_irt : Option Irt → Credential → Option (Verifier E Credential) → Checked E
  check_irt none cred v = record { ok = false; unsupported = false; err = none }
  check_irt (some irt) cred v = check_auth irt.auth cred v

  -- The loop of `CheckIrts`, with the reasons so far.
  unfoldable pub irts_loop :
      IrtRegistry E
      → List Bytes
      → Credential
      → Option (Verifier E Credential)
      → List Reason
      → E ⊎ Decision
  unfolding check_irt
  irts_loop reg [] cred v reasons = inr (record { ok = false; reasons = reasons })
  irts_loop reg (name ∷ names) cred v reasons = elim (reg name) [
    | inl (lookup_error e) ↦ inl e
    | inl no_mntner ↦ irts_loop reg names cred v (reasons ++ no_such name ∷ [])
    | inr none ↦ irts_loop reg names cred v (reasons ++ no_such name ∷ [])
    | inr (some irt) ↦
        let c = check_irt (some irt) cred v in
        elim c.err [
          | some e ↦ inl e
          | none ↦ elim c.ok [
            | true ↦ inr (record { ok = true; reasons = reasons ++ accepted name ∷ [] })
            | false ↦
                irts_loop reg names cred v
                  (reasons ++ refusal name (as_mntner irt) c.unsupported ∷ [])
          ]
        ]
  ]

  unfoldable pub check_irts :
      IrtRegistry E → List Bytes → Credential → Option (Verifier E Credential) → E ⊎ Decision
  unfolding irts_loop
  check_irts reg names cred v = irts_loop reg names cred v []

module _ {E Credential : Type 0} (cred : Credential) (reg : IrtRegistry E)
    (v : Option (Verifier E Credential)) where
  irts_loop-check_loop :
      (names : List Bytes) (reasons : List Reason)
      → irts_loop reg names cred v reasons ≡ check_loop (as_registry reg) names cred v reasons
  unfolding irts_loop check_loop check_irt check_mntner
  irts_loop-check_loop [] reasons = refl
  irts_loop-check_loop (name ∷ names) reasons = of (reg name) (irts_loop-check_loop names)
    where
      Same : Type 0
      Same =
          (reasons : List Reason)
          → irts_loop reg names cred v reasons ≡ check_loop (as_registry reg) names cred v reasons

      on_checked : Irt → Checked E → (List Reason → E ⊎ Decision) → E ⊎ Decision
      on_checked irt c next = elim c.err [
        | some e ↦ inl e
        | none ↦ elim c.ok [
          | true ↦ inr (record { ok = true; reasons = reasons ++ accepted name ∷ [] })
          | false ↦ next (reasons ++ refusal name (as_mntner irt) c.unsupported ∷ [])
        ]
      ]

      same_next :
          (irt : Irt) (err : Option E) (ok u : Bool)
          → Same
          → on_checked irt
              (record { ok = ok; unsupported = u; err = err })
              (irts_loop reg names cred v)
            ≡ on_checked irt
                (record { ok = ok; unsupported = u; err = err })
                (check_loop (as_registry reg) names cred v)
      same_next irt (some e) ok u h = refl
      same_next irt none true u h = refl
      same_next irt none false u h = h (reasons ++ refusal name (as_mntner irt) u ∷ [])

      of :
          (x : LookupError E ⊎ Option Irt)
          → Same
          → elim x as (λ _. E ⊎ Decision) [
            | inl (lookup_error e) ↦ inl e
            | inl no_mntner ↦ irts_loop reg names cred v (reasons ++ no_such name ∷ [])
            | inr none ↦ irts_loop reg names cred v (reasons ++ no_such name ∷ [])
            | inr (some irt) ↦
                on_checked irt (check_auth irt.auth cred v) (irts_loop reg names cred v)
          ]
            ≡ elim (found_as x) as (λ _. E ⊎ Decision) [
              | inl (lookup_error e) ↦ inl e
              | inl no_mntner ↦
                  check_loop (as_registry reg) names cred v (reasons ++ no_such name ∷ [])
              | inr none ↦ check_loop (as_registry reg) names cred v (reasons ++ no_such name ∷ [])
              | inr (some m) ↦ elim (check_auth m.auth cred v).err [
                | some e ↦ inl e
                | none ↦ elim (check_auth m.auth cred v).ok [
                  | true ↦ inr (record { ok = true; reasons = reasons ++ accepted name ∷ [] })
                  | false ↦
                      check_loop
                        (as_registry reg)
                        names
                        cred
                        v
                        (reasons ++ refusal name m (check_auth m.auth cred v).unsupported ∷ [])
                ]
              ]
            ]
      of (inl (lookup_error e)) h = refl
      of (inl no_mntner) h = h (reasons ++ no_such name ∷ [])
      of (inr none) h = h (reasons ++ no_such name ∷ [])
      of (inr (some irt)) h =
          let c = check_auth irt.auth cred v in same_next irt c.err c.ok c.unsupported h

  -- Where `CheckIrts` returns a decision and no error, the decision is positive exactly when the registry
  -- has one of the named irts with an auth: line that accepts the credential.
  pub check_irts-any :
      (names : List Bytes) (d : Decision)
      → check_irts reg names cred v ≡ inr d
      → d.ok ≡ any (name_accepts cred v (as_registry reg)) names
  unfolding check_irts
  check_irts-any names d h =
      check_loop-any cred (as_registry reg) v names [] d (sym (irts_loop-check_loop names []) ∙ h)
