-- ===== src/Auth/ReferralDepth.antt =====
-- How far `ReferralChain` walks.
use rpsl.Base.{
  ℕ, zero, suc, ◌+◌, ◌≤◌, ◌<◌, ◌≡◌, refl, Bool, true, false, any, List, [], ◌∷◌, ◌++◌, length,
  Option, none, some, ◌⊎◌, inl, inr, leb, if◌then◌else◌, arith, length-append,
}
use rpsl.Lexer.Text.{Bytes}
use rpsl.Types.SetName.{text_eq}
use rpsl.Auth.{Mntner, LookupError, Registry, no_mntner, lookup_error}
use rpsl.Auth.Referral.{
  ReferralError, referral_cycle, referral_too_deep, not_registered, lookup_failed, Walk, ended,
  out_of_fuel, key_of, next_of, follow, walk, depth_of, referral_chain, is_blank,
}

-- The walk ended with at most `max_depth` maintainers: with that many where it is too deep, and with at
-- least one where there is no error.
pub record IsBounded {E : Type 0} (max_depth : ℕ) (chain : List Mntner)
    (err : Option (ReferralError E)) : Type 0 where
  pub within : length chain ≤ max_depth
  pub deep : err ≡ some referral_too_deep → length chain ≡ max_depth
  pub some_end : err ≡ none → 0 < length chain

abbrev pub EndsWithin : {E : Type 0} → ℕ → Walk E → Type 0
EndsWithin max_depth (ended chain err) = IsBounded max_depth chain err
EndsWithin max_depth out_of_fuel = ⊥

failed-IsBounded :
    {E : Type 0} (max_depth : ℕ) (chain : List Mntner) (e : ReferralError E)
    → length chain ≤ max_depth
    → (some e ≡ some referral_too_deep → length chain ≡ max_depth)
    → IsBounded max_depth chain (some e)
failed-IsBounded max_depth chain e h k = record {
  within = h;
  deep = k;
  some_end = λ t. absurd (cc t);
}

done-IsBounded :
    {E : Type 0} (max_depth : ℕ) (chain : List Mntner)
    → length chain ≤ max_depth
    → 0 < length chain
    → IsBounded {E = E} max_depth chain none
done-IsBounded max_depth chain h k = record {
  within = h;
  deep = λ t. absurd (cc t);
  some_end = λ t. k;
}

abbrev Goes : {E : Type 0} → ℕ → List Mntner → Walk E ⊎ Bytes → Type 0
Goes max_depth chain (inl w) = EndsWithin max_depth w
Goes max_depth chain (inr next) = length chain < max_depth

module _ (to_upper : Bytes → Bytes) (trim_space : Bytes → Bytes)
    (equal_fold : Bytes → Bytes → Bool) where
  follow-Goes :
      (E : Type 0) (max_depth : ℕ) (chain : List Mntner) (m : Mntner)
      → 0 < length chain
      → length chain ≤ max_depth
      → Goes {E = E} max_depth chain (follow to_upper trim_space equal_fold max_depth chain m)
  unfolding follow
  follow-Goes E max_depth chain m pos le =
      of (is_blank next) (equal_fold next m.handle) (leb max_depth (length chain)) refl
    where
      next : Bytes
      next = next_of to_upper trim_space equal_fold m.referral_by

      of :
          (a b c : Bool)
          → leb max_depth (length chain) ≡ c
          → Goes {E = E} max_depth chain (
              if a
              then inl (ended chain none)
              else if b
              then inl (ended chain none)
              else if c
              then inl (ended chain (some referral_too_deep))
              else inr next)
      of true b c h = done-IsBounded max_depth chain le pos
      of false true c h = done-IsBounded max_depth chain le pos
      of false false true h =
          failed-IsBounded max_depth chain referral_too_deep le (λ t. ground (arith, h, le))
      of false false false h = ground (arith, h)

  walk-EndsWithin :
      {E : Type 0} (reg : Registry E) (max_depth fuel : ℕ) (at : Bytes) (seen : List Bytes)
      (chain : List Mntner)
      → length chain < max_depth
      → fuel + length chain ≡ max_depth + 1
      → EndsWithin max_depth (walk to_upper trim_space equal_fold reg max_depth fuel at seen chain)
  unfolding walk
  walk-EndsWithin reg max_depth zero at seen chain lt e = absurd (omega (arith, lt, e))
  walk-EndsWithin {E} reg max_depth (suc fuel) at seen chain lt e =
      of_key (walk-EndsWithin reg max_depth fuel)
        (any (text_eq (key_of to_upper trim_space equal_fold at)) seen)
    where
      longer : Mntner → List Mntner
      longer m = chain ++ m ∷ []

      found : Mntner → Walk E
      found m = elim (follow to_upper trim_space equal_fold max_depth (longer m) m) [
        | inl w ↦ w
        | inr next ↦
            walk to_upper trim_space equal_fold reg max_depth fuel next
              (key_of to_upper trim_space equal_fold at ∷ seen) (longer m)
      ]

      Later : Type 0
      Later =
          (next : Bytes) (seen : List Bytes) (chain : List Mntner)
          → length chain < max_depth
          → fuel + length chain ≡ max_depth + 1
          → EndsWithin max_depth
              (walk to_upper trim_space equal_fold reg max_depth fuel next seen chain)

      looked_up : LookupError E ⊎ Option Mntner → Walk E
      looked_up x = elim x [
        | inl (lookup_error e) ↦ ended chain (some (lookup_failed e))
        | inl no_mntner ↦ ended chain (some not_registered)
        | inr none ↦ ended chain (some not_registered)
        | inr (some m) ↦ found m
      ]

      on_follow :
          (m : Mntner) (g : Walk E ⊎ Bytes)
          → Later
          → Goes max_depth (longer m) g
          → EndsWithin max_depth (elim g [
            | inl w ↦ w
            | inr next ↦
                walk to_upper trim_space equal_fold reg max_depth fuel next
                  (key_of to_upper trim_space equal_fold at ∷ seen)
                  (longer m)
          ])
      on_follow m (inl w) later h = h
      on_follow m (inr next) later h =
          later next (key_of to_upper trim_space equal_fold at ∷ seen) (longer m) h
            (omega (arith, length-append chain (m ∷ []), e))

      of_lookup : Later → (x : LookupError E ⊎ Option Mntner) → EndsWithin max_depth (looked_up x)
      of_lookup later (inl (lookup_error err)) =
          failed-IsBounded max_depth chain (lookup_failed err) (omega (arith, lt))
            (λ t. absurd (cc t))
      of_lookup later (inl no_mntner) =
          failed-IsBounded max_depth chain not_registered (omega (arith, lt)) (λ t. absurd (cc t))
      of_lookup later (inr none) =
          failed-IsBounded max_depth chain not_registered (omega (arith, lt)) (λ t. absurd (cc t))
      of_lookup later (inr (some m)) =
          on_follow m (follow to_upper trim_space equal_fold max_depth (longer m) m) later (
            follow-Goes E max_depth (longer m) m (omega (arith, length-append chain (m ∷ [])))
              (omega (arith, length-append chain (m ∷ []), lt)))

      of_key :
          Later
          → (b : Bool)
          → EndsWithin max_depth
              (elim b [ true ↦ ended chain (some referral_cycle) | false ↦ looked_up (reg at) ])
      of_key later true =
          failed-IsBounded max_depth chain referral_cycle (omega (arith, lt)) (λ t. absurd (cc t))
      of_key later false = of_lookup later (reg at)

  -- Whatever the registry answers, `ReferralChain` ends: with at most `maxDepth` maintainers, or 32 where
  -- that is 0, with exactly as many where it reports a chain that is too deep, and with at least one
  -- where it reports no error.
  pub referral_chain-EndsWithin :
      {E : Type 0} (reg : Registry E) (name : Bytes) (max_depth : ℕ)
      → EndsWithin
          (depth_of max_depth)
          (referral_chain to_upper trim_space equal_fold reg name max_depth)
  unfolding referral_chain
  referral_chain-EndsWithin reg name max_depth =
      walk-EndsWithin reg (depth_of max_depth) (depth_of max_depth + 1) name [] [] (ground arith)
        (omega arith)
