-- ===== src/Auth/Referral.antt =====
-- auth/auth.go, `ReferralChain`. The functions of the package strings are parameters. The loop has fuel;
-- a maintainer joins the chain in every round, and the loop ends at `max_depth` of them.
use rpsl.Base.{
  ℕ, zero, suc, ◌+◌, Bool, true, false, any, List, [], ◌∷◌, ◌++◌, length, Option, none, some, ◌⊎◌,
  inl, inr, leb, if◌then◌else◌,
}
use rpsl.Lexer.Text.{Bytes}
use rpsl.Types.SetName.{text_eq}
use rpsl.Auth.{Mntner, Registry, no_mntner, lookup_error}

pub data ReferralError (E : Type 0) : Type 0 where
  referral_cycle referral_too_deep not_registered : ReferralError E
  lookup_failed : E → ReferralError E

-- How the walk ends: with the chain and perhaps an error. The last is no answer of the code.
pub data Walk (E : Type 0) : Type 0 where
  ended : List Mntner → Option (ReferralError E) → Walk E
  out_of_fuel : Walk E

abbrev pub is_blank : Bytes → Bool
is_blank [] = true
is_blank (c ∷ s) = false

abbrev pub depth_of : ℕ → ℕ
depth_of max_depth = if leb max_depth 0 then 32 else max_depth

module _ (to_upper : Bytes → Bytes) (trim_space : Bytes → Bytes)
    (equal_fold : Bytes → Bytes → Bool) where
  abbrev pub key_of : Bytes → Bytes
  key_of at = to_upper (trim_space at)

  -- The first referral that is not blank, or the empty text.
  unfoldable pub next_of : List Bytes → Bytes
  next_of [] = []
  next_of (r ∷ more) = if is_blank (trim_space r) then next_of more else trim_space r

  -- What a round does with the maintainer found: `inl` ends the walk, `inr` goes on at a name.
  unfoldable pub follow : {E : Type 0} → ℕ → List Mntner → Mntner → Walk E ⊎ Bytes
  unfolding next_of
  follow max_depth chain m =
      let next = next_of m.referral_by in
      if is_blank next
      then inl (ended chain none)
      else if equal_fold next m.handle
      then inl (ended chain none)
      else if leb max_depth (length chain)
      then inl (ended chain (some referral_too_deep))
      else inr next

  unfoldable pub walk :
      {E : Type 0} → Registry E → ℕ → ℕ → Bytes → List Bytes → List Mntner → Walk E
  unfolding follow
  walk reg max_depth zero at seen chain = out_of_fuel
  walk reg max_depth (suc fuel) at seen chain =
      let key = key_of at in
      elim (any (text_eq key) seen) [
        | true ↦ ended chain (some referral_cycle)
        | false ↦ elim (reg at) [
          | inl (lookup_error e) ↦ ended chain (some (lookup_failed e))
          | inl no_mntner ↦ ended chain (some not_registered)
          | inr none ↦ ended chain (some not_registered)
          | inr (some m) ↦ elim (follow max_depth (chain ++ m ∷ []) m) [
            | inl w ↦ w
            | inr next ↦ walk reg max_depth fuel next (key ∷ seen) (chain ++ m ∷ [])
          ]
        ]
      ]

  unfoldable pub referral_chain : {E : Type 0} → Registry E → Bytes → ℕ → Walk E
  unfolding walk
  referral_chain reg name max_depth =
      walk reg (depth_of max_depth) (depth_of max_depth + 1) name [] []
